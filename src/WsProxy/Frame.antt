-- ===== src/WsProxy/Frame.antt =====
-- WebSocket frames in src/ws_proxy_win.c: `sendAll`, `readFull`, `sendWsFrame` and `readWsFrame`.
-- A socket's input is the list of the bytes that the peer has sent and will send before it closes or
-- the receive timeout strikes; `recv` is asked how many of them one call returns, 0 standing for
-- every result that ends the connection. `send` says how many bytes one call takes, 0 standing for
-- every result at which `sendAll` gives up.
pub mod Reading
pub mod Masking
pub mod RoundTrip
mod Examples
use mathlib.Core.Option
use betaflight_sitl_udp.Base.{
  ℕ, zero, suc, ◌+◌, ◌-◌, ◌*◌, ◌/◌, ◌%◌, ◌^◌, ◌==◌, Bool, true, false, not, ◌||◌, List, [], ◌∷◌,
  ◌++◌, Option, none, some, ltb, if◌then◌else◌, u8, bit_and, bit_or, bit_xor, length, get_elem?,
  take, drop,
}

-- How many bytes `recv` returns of those asked for and those to come.
abbrev pub Recv : Type 0
Recv = ℕ → List ℕ → ℕ

abbrev pub byte_at : List ℕ → ℕ → ℕ
byte_at bytes i = Option.get_or (get_elem? bytes i) 0

-- `sendAll`: the bytes that went out. A byte at least goes with each round, so the number of bytes
-- is fuel enough.
pub send_rounds : (List ℕ → ℕ) → ℕ → List ℕ → List ℕ
send_rounds send zero bytes = []
send_rounds send (suc fuel) [] = []
send_rounds send (suc fuel) (b ∷ bytes) = elim (send (b ∷ bytes)) [
  | zero ↦ []
  | suc n ↦ take (suc n) (b ∷ bytes) ++ send_rounds send fuel (drop n bytes)
]

unfoldable pub send_all : (List ℕ → ℕ) → List ℕ → List ℕ
unfolding send_rounds
send_all send bytes = send_rounds send (length bytes) bytes

-- One round of `readFull`, after `recv` returned `got` bytes: give up at 0, or go on.
pub take_part : ℕ → List ℕ → (ℕ → Option (List ℕ × List ℕ)) → Option (List ℕ × List ℕ)
take_part zero input more = none
take_part (suc n) input more =
    Option.map (λ (r : List ℕ × List ℕ). (take (suc n) input ++ r.0, r.1)) (more (suc n))

-- The loop of `readFull`: the bytes read, and the input that is left.
pub read_rounds : Recv → ℕ → ℕ → List ℕ → Option (List ℕ × List ℕ)
unfolding take_part
read_rounds recv fuel zero input = some ([], input)
read_rounds recv zero (suc len) input = none
read_rounds recv (suc fuel) (suc len) input =
    take_part (recv (suc len) input) input (λ n. read_rounds recv fuel (suc len - n) (drop n input))

pub read_full : Recv → ℕ → List ℕ → Option (List ℕ × List ℕ)
unfolding read_rounds
read_full recv len input = read_rounds recv len len input

-- The header of `sendWsFrame`: `len` is a `size_t`, and each byte is cut to `uint8_t`.
pub frame_header : ℕ → ℕ → List ℕ
frame_header opcode len =
    u8 (bit_or 0x80 opcode)
    ∷ (if ltb len 126
        then u8 len ∷ []
        else if ltb len 65536
        then 126 ∷ u8 (len / 2 ^ 8) ∷ u8 len ∷ []
        else 127
          ∷ u8 (len / 2 ^ 56)
          ∷ u8 (len / 2 ^ 48)
          ∷ u8 (len / 2 ^ 40)
          ∷ u8 (len / 2 ^ 32)
          ∷ u8 (len / 2 ^ 24)
          ∷ u8 (len / 2 ^ 16)
          ∷ u8 (len / 2 ^ 8)
          ∷ u8 len
          ∷ [])

-- `sendWsFrame`: what it hands to `sendAll`, call by call.
unfoldable pub send_ws_frame : ℕ → List ℕ → List (List ℕ)
unfolding frame_header
send_ws_frame opcode payload = frame_header opcode (length payload) ∷ payload ∷ []

-- The bytes that go out over these calls of `sendAll`: a call that gives up does not keep the next
-- from being made.
unfoldable pub send_pieces : (List ℕ → ℕ) → List (List ℕ) → List ℕ
unfolding send_all
send_pieces send [] = []
send_pieces send (piece ∷ more) = send_all send piece ++ send_pieces send more

-- `len = (len << 8) | extended[i]`, over a `uint64_t`.
pub shift_in : ℕ → List ℕ → ℕ
shift_in len [] = len
shift_in len (b ∷ bytes) = shift_in (bit_or (len * 256 % 2 ^ 64) b) bytes

-- The length that follows the second header byte.
pub extended_length : Recv → ℕ → List ℕ → Option (ℕ × List ℕ)
unfolding read_full shift_in
extended_length recv len input =
    if len == 126
    then Option.map (λ (r : List ℕ × List ℕ). (bit_or (byte_at r.0 0 * 256) (byte_at r.0 1), r.1))
        (read_full recv 2 input)
    else if len == 127
    then Option.map (λ (r : List ℕ × List ℕ). (shift_in 0 r.0, r.1)) (read_full recv 8 input)
    else some (len, input)

pub mask_key : Recv → Bool → List ℕ → Option (List ℕ × List ℕ)
unfolding read_full
mask_key recv masked input = if masked then read_full recv 4 input else some ([], input)

-- `payload[i] ^= maskKey[i % 4]` from the index `i` on.
pub apply_mask : List ℕ → ℕ → List ℕ → List ℕ
apply_mask key i [] = []
apply_mask key i (b ∷ bytes) = bit_xor b (byte_at key (i % 4)) ∷ apply_mask key (i + 1) bytes

-- What `readWsFrame` leaves behind where it read a frame: its result, `*close`, the payload, what
-- it handed to `sendAll` in answer, call by call, and the input that is left.
pub record Received : Type 0 where
  pub result : Bool
  pub close : Bool
  pub payload : List ℕ
  pub answer : List (List ℕ)
  pub rest : List ℕ

-- The end of `readWsFrame`, by the opcode.
unfoldable pub dispatch : ℕ → Bool → List ℕ → List ℕ → Received
unfolding send_ws_frame
dispatch opcode close payload rest =
    if opcode == 0x8
    then record { result = false; close = true; payload = payload; answer = []; rest = rest }
    else if opcode == 0x9
    then record {
      result = not close;
      close = close;
      payload = payload;
      answer = send_ws_frame 0xA payload;
      rest = rest;
    }
    else if opcode == 0x1 || opcode == 0x2
    then record { result = true; close = false; payload = payload; answer = []; rest = rest }
    else record { result = not close; close = close; payload = payload; answer = []; rest = rest }

-- From the length check of `readWsFrame` on.
pub read_payload : Recv → ℕ → Bool → ℕ → Bool → ℕ × List ℕ → List ℕ × List ℕ → Option Received
unfolding read_full apply_mask dispatch
read_payload recv payload_size close opcode masked (len, _) (key, input) =
    if ltb payload_size len
    then none
    else Option.map
        (λ (r : List ℕ × List ℕ).
          dispatch opcode close (if masked then apply_mask key 0 r.0 else r.0) r.1)
        (read_full recv len input)

-- Behind the two header bytes.
pub read_body : Recv → ℕ → Bool → List ℕ × List ℕ → Option Received
unfolding extended_length mask_key read_payload Option.bind
read_body recv payload_size close (header, input) =
    let opcode = bit_and (byte_at header 0) 0x0F in
    let masked = not (bit_and (byte_at header 1) 0x80 == 0) in
    Option.bind (extended_length recv (bit_and (byte_at header 1) 0x7F) input) (λ (l : ℕ × List ℕ).
      Option.bind (mask_key recv masked l.1) (read_payload recv payload_size close opcode masked l))

-- `readWsFrame`: `none` where it returns false with nothing read for the caller, because the input
-- ended or the payload is longer than the caller's buffer.
unfoldable pub read_ws_frame : Recv → ℕ → Bool → List ℕ → Option Received
unfolding read_full read_body Option.bind
read_ws_frame recv payload_size close input =
    Option.bind (read_full recv 2 input) (read_body recv payload_size close)
