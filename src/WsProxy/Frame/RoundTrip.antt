-- ===== src/WsProxy/Frame/RoundTrip.antt =====
-- `readWsFrame` against the frame format of RFC 6455, and against what `sendWsFrame` writes.
use betaflight_sitl_udp.Base.{
  ℕ, ◌+◌, ◌*◌, ◌/◌, ◌%◌, ◌^◌, ◌≤◌, ◌<◌, ◌≡◌, ◌==◌, refl, sym, ◌∙◌, ap, ap₂, append-nil, Bool, true,
  false, not, List, [], ◌∷◌, ◌++◌, some, ltb, if◌then◌else◌, arith, length, bit_and, length-append,
  append_assoc, take-append_left, drop-append_left, bit_or_byte, bit_and_low_nibble,
  bit_and_low_seven, bit_and_top, bit_or_top,
}
use betaflight_sitl_udp.WsProxy.Frame.{
  Recv, read_full, frame_header, send_pieces, send_ws_frame, shift_in, extended_length, mask_key,
  apply_mask, dispatch, read_payload, read_body, read_ws_frame,
}
use betaflight_sitl_udp.WsProxy.Frame.Reading.{Reads, read_full_lem, send_all_lem}
use betaflight_sitl_udp.WsProxy.Frame.Masking.{
  cycle_mask, body_same, apply_mask_twice, length-apply_mask,
}

-- The seven length bits of RFC 6455, and the bytes of an extended length, highest first.
abbrev pub length_code : ℕ → ℕ
length_code n = if ltb n 126 then n else if ltb n 65536 then 126 else 127

abbrev pub length_bytes : ℕ → List ℕ
length_bytes n =
    if ltb n 126
    then []
    else if ltb n 65536
    then n / 2 ^ 8 % 256 ∷ n % 256 ∷ []
    else n / 2 ^ 56 % 256
      ∷ n / 2 ^ 48 % 256
      ∷ n / 2 ^ 40 % 256
      ∷ n / 2 ^ 32 % 256
      ∷ n / 2 ^ 24 % 256
      ∷ n / 2 ^ 16 % 256
      ∷ n / 2 ^ 8 % 256
      ∷ n % 256
      ∷ []

-- A final frame. A masked one carries its key, and its payload is XORed with the key.
abbrev pub encode : Bool → List ℕ → ℕ → List ℕ → List ℕ
encode masked key opcode payload =
    (128 + opcode)
    ∷ ((if masked then 128 else 0) + length_code (length payload))
    ∷ (length_bytes (length payload)
        ++ (key ++ (if masked then cycle_mask key payload else payload)))

shift_in_cons :
    (len b : ℕ) (bytes : List ℕ)
    → len < 2 ^ 56
    → b < 256
    → shift_in len (b ∷ bytes) ≡ shift_in (len * 256 + b) bytes
unfolding shift_in
shift_in_cons len b bytes h k =
    let fits : len * 256 % 2 ^ 64 ≡ len * 256 = omega arith in rw (fits, bit_or_byte len b k) refl

shift_in_digit :
    (high m : ℕ) (bytes : List ℕ)
    → high < 2 ^ 56
    → m / 256 ≡ high
    → shift_in high (m % 256 ∷ bytes) ≡ shift_in m bytes
shift_in_digit high m bytes h e =
    shift_in_cons high (m % 256) bytes h (omega arith) ∙ ap (λ k. shift_in k bytes) (omega arith)

-- The eight bytes of a length, shifted in, give it back.
long_length :
    (n : ℕ)
    → n < 2 ^ 64
    → shift_in 0 (
        n / 2 ^ 56 % 256
        ∷ n / 2 ^ 48 % 256
        ∷ n / 2 ^ 40 % 256
        ∷ n / 2 ^ 32 % 256
        ∷ n / 2 ^ 24 % 256
        ∷ n / 2 ^ 16 % 256
        ∷ n / 2 ^ 8 % 256
        ∷ n % 256
        ∷ [])
      ≡ n
long_length n h =
    shift_in_digit 0 (n / 2 ^ 56) _ (omega arith) (omega arith)
    ∙ shift_in_digit (n / 2 ^ 56) (n / 2 ^ 48) _ (omega arith) (omega arith)
    ∙ shift_in_digit (n / 2 ^ 48) (n / 2 ^ 40) _ (omega arith) (omega arith)
    ∙ shift_in_digit (n / 2 ^ 40) (n / 2 ^ 32) _ (omega arith) (omega arith)
    ∙ shift_in_digit (n / 2 ^ 32) (n / 2 ^ 24) _ (omega arith) (omega arith)
    ∙ shift_in_digit (n / 2 ^ 24) (n / 2 ^ 16) _ (omega arith) (omega arith)
    ∙ shift_in_digit (n / 2 ^ 16) (n / 2 ^ 8) _ (omega arith) (omega arith)
    ∙ shift_in_digit (n / 2 ^ 8) n [] (omega arith) (omega arith)
    ∙ unfold shift_in in refl

module _ {recv : Recv} (reads : Reads recv) where
  read_append :
      (n : ℕ) (xs ys : List ℕ) → n ≡ length xs → read_full recv n (xs ++ ys) ≡ some (xs, ys)
  read_append n xs ys e = ground (
    arith,
    read_full_lem n (xs ++ ys) reads,
    length-append xs ys,
    take-append_left xs ys n e,
    drop-append_left xs ys n e,
  )

  extended_length_lem :
      (n : ℕ) (input : List ℕ)
      → n < 2 ^ 64
      → extended_length recv (length_code n) (length_bytes n ++ input) ≡ some (n, input)
  unfolding extended_length
  extended_length_lem n input h = ground (
    arith,
    read_append 2 (n / 2 ^ 8 % 256 ∷ n % 256 ∷ []) input refl,
    read_append 8
        (n / 2 ^ 56 % 256
          ∷ n / 2 ^ 48 % 256
          ∷ n / 2 ^ 40 % 256
          ∷ n / 2 ^ 32 % 256
          ∷ n / 2 ^ 24 % 256
          ∷ n / 2 ^ 16 % 256
          ∷ n / 2 ^ 8 % 256
          ∷ n % 256
          ∷ [])
        input refl,
    bit_or_byte (n / 2 ^ 8 % 256) (n % 256),
    long_length n h,
  )

  mask_key_lem :
      (masked : Bool) (key input : List ℕ)
      → length key ≡ (if masked then 4 else 0)
      → mask_key recv masked (key ++ input) ≡ some (key, input)
  unfolding mask_key
  mask_key_lem true key input e = read_append 4 key input (sym e)
  mask_key_lem false [] input e = refl
  mask_key_lem false (k ∷ key) input e = absurd (omega arith)

  read_payload_lem :
      (size : ℕ) (close : Bool) (opcode : ℕ) (masked : Bool) (key payload rest unread : List ℕ)
      → length payload ≤ size
      → read_payload recv size close opcode masked
          (length payload, unread)
          (key, (if masked then apply_mask key 0 payload else payload) ++ rest)
        ≡ some (dispatch opcode close payload rest)
  unfolding read_payload
  read_payload_lem size close opcode true key payload rest unread h = ground (
    arith,
    read_append (length payload) (apply_mask key 0 payload) rest
        (sym (length-apply_mask key 0 payload)),
    apply_mask_twice key 0 payload,
  )
  read_payload_lem size close opcode false key payload rest unread h =
      ground (arith, read_append (length payload) payload rest refl)

  -- The two header bytes of a frame, taken apart as the code does.
  header_bits :
      (masked : Bool) (opcode n : ℕ)
      → opcode < 16
      → let second = (if masked then 128 else 0) + length_code n in
        (bit_and (128 + opcode) 0x0F ≡ opcode)
        × (bit_and second 0x7F ≡ length_code n)
        × (not (bit_and second 0x80 == 0) ≡ masked)
  header_bits true opcode n h = ground (
    arith,
    bit_and_low_nibble (128 + opcode),
    bit_and_low_seven (128 + length_code n),
    bit_and_top (128 + length_code n),
  )
  header_bits false opcode n h = ground (
    arith,
    bit_and_low_nibble (128 + opcode),
    bit_and_low_seven (0 + length_code n),
    bit_and_top (0 + length_code n),
  )

  read_body_lem :
      (size opcode : ℕ) (close masked : Bool) (key payload rest : List ℕ)
      → opcode < 16
      → length key ≡ (if masked then 4 else 0)
      → length payload ≤ size
      → size < 2 ^ 64
      → let n = length payload in
        read_body recv size close (
          (128 + opcode) ∷ ((if masked then 128 else 0) + length_code n) ∷ [],
          length_bytes n
              ++ (key ++ ((if masked then apply_mask key 0 payload else payload) ++ rest)),
        )
        ≡ some (dispatch opcode close payload rest)
  unfolding read_body
  read_body_lem size opcode close masked key payload rest op keyed fits small =
      let n = length payload in
      let (low, seven, top) = header_bits masked opcode n op in
      let body = (if masked then apply_mask key 0 payload else payload) ++ rest in
      rw (low, seven, top, extended_length_lem n (key ++ body) (omega arith))
        (rw (mask_key_lem masked key body keyed)
          (read_payload_lem size close opcode masked key payload rest (key ++ body) fits))

-- `readWsFrame` takes a frame off the input, masked or not, however `recv` splits it, where the
-- payload fits the caller's buffer: it gets the payload as it was before masking, acts on the opcode
-- alone, and leaves the input behind the frame.
pub read_ws_frame-encode :
    {recv : Recv} (size opcode : ℕ) (close masked : Bool) (key payload rest : List ℕ)
    → Reads recv
    → opcode < 16
    → length key ≡ (if masked then 4 else 0)
    → length payload ≤ size
    → size < 2 ^ 64
    → read_ws_frame recv size close (encode masked key opcode payload ++ rest)
      ≡ some (dispatch opcode close payload rest)
unfolding read_ws_frame
read_ws_frame-encode {recv} size opcode close masked key payload rest reads op keyed fits small =
    let second = (if masked then 128 else 0) + length_code (length payload) in
    let body = if masked then apply_mask key 0 payload else payload in
    let coded = length_bytes (length payload) in
    ap
      (λ b.
        read_ws_frame recv size close ((128 + opcode) ∷ second ∷ ((coded ++ (key ++ b)) ++ rest)))
      (body_same masked key payload keyed)
    ∙ rw
        (read_append reads 2 ((128 + opcode) ∷ second ∷ []) ((coded ++ (key ++ body)) ++ rest) refl)
        (rw (append_assoc coded (key ++ body) rest, append_assoc key body rest)
          (read_body_lem reads size opcode close masked key payload rest op keyed fits small))

-- What `sendWsFrame` sends is the unmasked frame of RFC 6455, where `send` takes one byte at least
-- whenever there is one.
pub send_ws_frame-encode :
    (send : List ℕ → ℕ) (opcode : ℕ) (payload : List ℕ)
    → ((d : List ℕ) → 0 < length d → 0 < send d)
    → opcode < 16
    → length payload < 2 ^ 64
    → send_pieces send (send_ws_frame opcode payload) ≡ encode false [] opcode payload
unfolding send_ws_frame send_pieces
send_ws_frame-encode send opcode payload takes op small =
    let header = frame_header opcode (length payload) in
    ap₂ (λ h t. h ++ (t ++ [])) (send_all_lem send header takes) (send_all_lem send payload takes)
    ∙ ap (◌++◌ header) (append-nil payload)
    ∙ header_lem
  where
    header_lem : frame_header opcode (length payload) ++ payload ≡ encode false [] opcode payload
    header_lem = ground (arith, bit_or_top opcode)
