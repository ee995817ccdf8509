-- ===== src/WsProxy/Handshake/Answers.antt =====
-- Which requests are answered, and how.
use betaflight_sitl_udp.Base.{
  ℕ, zero, suc, ◌+◌, ◌≤◌, ◌==◌, ◌≡◌, ◌≢◌, refl, sym, ◌∙◌, ap, ap₂, subst, Bool, true, false, ◌&&◌,
  List, [], ◌∷◌, ◌++◌, Option, none, some, if◌then◌else◌, length, length-append, codes, cut_at,
  arith, if_both, append_assoc, le→leb,
}
use betaflight_sitl_udp.WsProxy.Handshake.{
  ws_guid, compute_accept, find_header, is_blank, skip_blanks, ends_key, ends_protocol, take_value,
  trim_end, protocol_from, protocol_of, key_from, key_of, response_text, refused, switched,
  send_response, answer_key, answer,
}

abbrev pub AllBlank : List ℕ → Type 0
AllBlank [] = Unit
AllBlank (c ∷ s) = (is_blank c ≡ true) × AllBlank s

-- The bytes of a value: none ends it, and none is the terminator.
abbrev pub IsValue : (ℕ → Bool) → List ℕ → Type 0
IsValue ends [] = Unit
IsValue ends (c ∷ s) = (ends c ≡ false) × (c ≢ 0) × IsValue ends s

skip_blanks-append :
    (blanks s : List ℕ) → AllBlank blanks → skip_blanks (blanks ++ s) ≡ skip_blanks s
skip_blanks-append [] s h = refl
skip_blanks-append (c ∷ blanks) s (blank, h) =
    ap (λ b. if b then skip_blanks (blanks ++ s) else c ∷ (blanks ++ s)) blank
    ∙ skip_blanks-append blanks s h

take_value_lem :
    (ends : ℕ → Bool) (n : ℕ) (v : List ℕ) (stop : ℕ) (rest : List ℕ)
    → IsValue ends v
    → ends stop ≡ true
    → length v ≤ n
    → take_value ends n (v ++ (stop ∷ rest)) ≡ some v
take_value_lem ends zero [] stop rest h stops fits = refl
take_value_lem ends zero (c ∷ v) stop rest h stops fits = absurd (omega arith)
take_value_lem ends (suc n) [] stop rest h stops fits =
    ap
      (λ b.
        if b
        then some []
        else elim (take_value ends n rest) [ none ↦ none | some v ↦ some (stop ∷ v) ])
      stops
take_value_lem ends (suc n) (c ∷ v) stop rest (plain, nonzero, h) stops fits =
    ap
      (λ b.
        if b
        then some []
        else elim (take_value ends n (v ++ (stop ∷ rest))) [ none ↦ none | some w ↦ some (c ∷ w) ])
      plain
    ∙ ap (λ o. elim o [ none ↦ none | some w ↦ some (c ∷ w) ])
        (take_value_lem ends n v stop rest h stops (omega arith))

cut_value : (ends : ℕ → Bool) (v : List ℕ) → IsValue ends v → cut_at 0 v ≡ v
cut_value ends [] h = refl
cut_value ends (c ∷ v) (plain, nonzero, h) = ground (arith, cut_value ends v h)

IsValue-append :
    (ends : ℕ → Bool) (v w : List ℕ) → IsValue ends v → IsValue ends w → IsValue ends (v ++ w)
IsValue-append ends [] w h k = k
IsValue-append ends (c ∷ v) w (plain, nonzero, h) k = (plain, nonzero, IsValue-append ends v w h k)

AllBlank-IsValue : (blanks : List ℕ) → AllBlank blanks → IsValue ends_protocol blanks
AllBlank-IsValue [] h = tt
AllBlank-IsValue (c ∷ blanks) (blank, h) =
    (ground arith, (λ same. ground arith), AllBlank-IsValue blanks h)

trim_blanks : (blanks : List ℕ) → AllBlank blanks → trim_end blanks ≡ []
trim_blanks [] h = refl
trim_blanks (c ∷ blanks) (blank, h) =
    ap₂ (λ rest b. if length rest == 0 && b then [] else c ∷ rest) (trim_blanks blanks h) blank

trim_value :
    (front : List ℕ) (last : ℕ) (blanks : List ℕ)
    → is_blank last ≡ false
    → AllBlank blanks
    → trim_end (front ++ (last ∷ blanks)) ≡ front ++ (last ∷ [])
trim_value [] last blanks plain h =
    ap₂ (λ rest b. if length rest == 0 && b then [] else last ∷ rest) (trim_blanks blanks h) plain
trim_value (c ∷ []) last blanks plain h =
    ap (λ rest. if length rest == 0 && is_blank c then [] else c ∷ rest)
      (trim_value [] last blanks plain h)
trim_value (c ∷ d ∷ front) last blanks plain h =
    ap (λ rest. if length rest == 0 && is_blank c then [] else c ∷ rest)
      (trim_value (d ∷ front) last blanks plain h)
    ∙ ground arith

pub key_from_lem :
    (blanks : List ℕ) (k : ℕ) (key : List ℕ) (stop : ℕ) (rest : List ℕ)
    → AllBlank blanks
    → is_blank k ≡ false
    → IsValue ends_key (k ∷ key)
    → ends_key stop ≡ true
    → length (k ∷ key) ≤ 255
    → key_from (some (blanks ++ ((k ∷ key) ++ (stop ∷ rest)))) ≡ some (some (k ∷ key))
key_from_lem blanks k key stop rest h plain value stops fits =
    let pick : Option (List ℕ) → Option (Option (List ℕ)) =
      λ o. some (elim o [ none ↦ none | some v ↦ some (cut_at 0 v) ]) in
    ap (λ s. pick (take_value ends_key 255 s))
      (skip_blanks-append blanks ((k ∷ key) ++ (stop ∷ rest)) h
        ∙ ap (λ b. if b then skip_blanks (key ++ (stop ∷ rest)) else k ∷ (key ++ (stop ∷ rest)))
            plain)
    ∙ ap pick (take_value_lem ends_key 255 (k ∷ key) stop rest value stops fits)
    ∙ ap (λ v. some (some v)) (cut_value ends_key (k ∷ key) value)

-- No blank comes first.
abbrev pub StartsPlain : List ℕ → Type 0
StartsPlain [] = Unit
StartsPlain (c ∷ s) = is_blank c ≡ false

skip_none :
    (front : List ℕ) (last : ℕ) (rest : List ℕ)
    → StartsPlain front
    → is_blank last ≡ false
    → skip_blanks (front ++ (last ∷ rest)) ≡ front ++ (last ∷ rest)
skip_none [] last rest first plain = ap (λ b. if b then skip_blanks rest else last ∷ rest) plain
skip_none (c ∷ front) last rest first plain =
    ap (λ b. if b then skip_blanks (front ++ (last ∷ rest)) else c ∷ (front ++ (last ∷ rest))) first

-- The first protocol of a header's list, without the blanks around it.
pub protocol_from_lem :
    (blanks front : List ℕ) (last : ℕ) (after : List ℕ) (stop : ℕ) (rest : List ℕ)
    → AllBlank blanks
    → StartsPlain front
    → is_blank last ≡ false
    → AllBlank after
    → IsValue ends_protocol (front ++ (last ∷ []))
    → ends_protocol stop ≡ true
    → length (front ++ (last ∷ after)) ≤ 127
    → protocol_from (some (blanks ++ (front ++ (last ∷ (after ++ (stop ∷ rest))))))
      ≡ some (front ++ (last ∷ []))
protocol_from_lem blanks front last after stop rest h first plain k value stops fits =
    let pick : Option (List ℕ) → Option (List ℕ) =
      λ o. elim o [ none ↦ none | some v ↦ some (cut_at 0 (trim_end v)) ] in
    let whole : IsValue ends_protocol (front ++ (last ∷ after)) =
      subst (IsValue ends_protocol) (append_assoc front (last ∷ []) after) (
        IsValue-append ends_protocol (front ++ (last ∷ [])) after value
          (AllBlank-IsValue after k)) in
    ap (λ s. pick (take_value ends_protocol 127 s))
      (skip_blanks-append blanks (front ++ (last ∷ (after ++ (stop ∷ rest)))) h
        ∙ skip_none front last (after ++ (stop ∷ rest)) first plain
        ∙ sym (append_assoc front (last ∷ after) (stop ∷ rest)))
    ∙ ap pick
        (take_value_lem ends_protocol 127 (front ++ (last ∷ after)) stop rest whole stops fits)
    ∙ ap (λ v. some (cut_at 0 v)) (trim_value front last after plain k)
    ∙ ap some (cut_value ends_protocol (front ++ (last ∷ [])) value)

length-response_text :
    (accept protocol : List ℕ)
    → length (response_text accept protocol) ≤ 127 + length accept + length protocol
unfolding response_text
length-response_text accept protocol =
    let line = codes "Sec-WebSocket-Protocol: " ++ (protocol ++ codes "\r\n") in
    let lines = if length protocol == 0 then [] else line in
    let small : length lines ≤ 26 + length protocol =
      if_both (λ l. length l ≤ 26 + length protocol) (length protocol == 0) {x = []} {y = line}
        (omega arith) (omega (arith, length-append protocol (codes "\r\n"))) in
    omega (
      arith,
      small,
      length-append accept (codes "\r\n" ++ (lines ++ codes "\r\n")),
      length-append lines (codes "\r\n"),
    )

-- A request with a key is answered with the key's hash and the protocol, where the hash succeeds.
answer-from :
    (digest : List ℕ → Option (List ℕ)) (text key accept protocol : List ℕ)
    → key_of text ≡ some (some key)
    → digest (key ++ ws_guid) ≡ some accept
    → protocol_of text ≡ some protocol
    → length accept ≤ 127
    → length protocol ≤ 127
    → answer digest text ≡ switched (response_text accept protocol)
unfolding answer compute_accept
answer-from digest text key accept protocol has_key hash has_protocol short fits =
    ap (answer_key digest text) has_key
    ∙ ap (λ o. elim o [ none ↦ refused | some a ↦ send_response a (protocol_of text) ]) hash
    ∙ ap (send_response accept) has_protocol
    ∙ ap (λ b. if b then switched (response_text accept protocol) else refused)
        (le→leb (length (response_text accept protocol)) 512
          (omega (arith, length-response_text accept protocol)))

-- Where the first "Sec-WebSocket-Key:" of the head, in one of its two spellings, has a key of at most
-- 255 bytes, and the first protocol header a list whose first name, with the blanks behind it, has at
-- most 127, and the hash succeeds: the handshake is answered with the hash of the key and the GUID and
-- with exactly that name, whatever blanks stand around it and whatever other names follow.
pub answer_lem :
    (digest : List ℕ → Option (List ℕ)) (text accept : List ℕ) (blanks : List ℕ) (k : ℕ)
    (key : List ℕ) (stop : ℕ) (rest : List ℕ) (before front : List ℕ) (last : ℕ) (after : List ℕ)
    (comma : ℕ) (more : List ℕ)
    → find_header (codes "Sec-WebSocket-Key:") (codes "sec-websocket-key:") text
      ≡ some (blanks ++ ((k ∷ key) ++ (stop ∷ rest)))
    → AllBlank blanks × (is_blank k ≡ false) × IsValue ends_key (k ∷ key) × (ends_key stop ≡ true)
    → length (k ∷ key) ≤ 255
    → find_header (codes "Sec-WebSocket-Protocol:") (codes "sec-websocket-protocol:") text
      ≡ some (before ++ (front ++ (last ∷ (after ++ (comma ∷ more)))))
    → AllBlank before
      × StartsPlain front
      × (is_blank last ≡ false)
      × AllBlank after
      × IsValue ends_protocol (front ++ (last ∷ []))
      × (ends_protocol comma ≡ true)
    → length (front ++ (last ∷ after)) ≤ 127
    → digest ((k ∷ key) ++ ws_guid) ≡ some accept
    → length accept ≤ 127
    → answer digest text ≡ switched (response_text accept (front ++ (last ∷ [])))
unfolding key_of protocol_of
answer_lem digest text accept blanks k key stop rest before front last after comma more key_at
      (h, plain, value, stops) fits protocol_at (h', first, plain', k', value', stops') fits' hash
      short =
    answer-from digest text (k ∷ key) accept (front ++ (last ∷ []))
      (ap key_from key_at ∙ key_from_lem blanks k key stop rest h plain value stops fits) hash
      (ap protocol_from protocol_at
        ∙ protocol_from_lem before front last after comma more h' first plain' k' value' stops'
            fits')
      short (omega (arith, length-append front (last ∷ []), length-append front (last ∷ after)))
