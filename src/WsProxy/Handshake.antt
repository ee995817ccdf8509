-- ===== src/WsProxy/Handshake.antt =====
-- The handshake of src/ws_proxy_win.c: `computeAccept` and `wsHandshake`. The hash of the operating
-- system, SHA-1 and then Base64, is a parameter: `none` where a call of it fails.
pub mod Answers
mod Examples
use betaflight_sitl_udp.Base.{
  ℕ, zero, suc, ◌+◌, ◌-◌, ◌==◌, Bool, true, false, ◌&&◌, ◌||◌, not, List, [], ◌∷◌, ◌++◌, Option,
  none, some, ltb, leb, if◌then◌else◌, length, drop, codes, starts_with, cut_at,
}
use betaflight_sitl_udp.WsProxy.Frame.{Recv}
use betaflight_sitl_udp.Web.Request.{read_request}

-- `WS_GUID`
abbrev pub ws_guid : List ℕ
ws_guid = codes "258EAFA5-E914-47DA-95CA-C5AB0DC85B11"

-- `computeAccept`; the key and `WS_GUID` fit its buffer.
pub compute_accept : (List ℕ → Option (List ℕ)) → List ℕ → Option (List ℕ)
compute_accept digest key = digest (key ++ ws_guid)

-- The loop that reads the head: it is that of the configurator's server, with a buffer of the same size.
pub read_head : Recv → List ℕ → Option (List ℕ)
read_head recv input = read_request recv input

-- What follows the first `word`; `strstr` stops at a byte 0.
abbrev pub find_after : List ℕ → List ℕ → Option (List ℕ)
find_after word [] = none
find_after word (c ∷ s) =
    let later = find_after word s in
    if starts_with word (c ∷ s)
    then some (drop (length word) (c ∷ s))
    else (if c == 0 then none else later)

-- What follows a header's name, in either of the two spellings.
abbrev pub find_header : List ℕ → List ℕ → List ℕ → Option (List ℕ)
find_header name lower text = elim (find_after name text) [
  | none ↦ find_after lower text
  | some s ↦ some s
]

abbrev pub is_blank : ℕ → Bool
is_blank c = c == b' ' || c == 9

abbrev pub skip_blanks : List ℕ → List ℕ
skip_blanks [] = []
skip_blanks (c ∷ s) = let rest = skip_blanks s in if is_blank c then rest else c ∷ s

abbrev pub ends_key : ℕ → Bool
ends_key c = c == 13 || c == 10

abbrev pub ends_protocol : ℕ → Bool
ends_protocol c = c == 13 || (c == 10 || c == b',')

-- At most `n` bytes, up to one that ends the value; `none` where none comes before the end of what was
-- read, so that the loop goes on behind it.
abbrev pub take_value : (ℕ → Bool) → ℕ → List ℕ → Option (List ℕ)
take_value ends zero s = some []
take_value ends (suc n) [] = none
take_value ends (suc n) (c ∷ s) =
    let rest = take_value ends n s in
    if ends c then some [] else elim rest [ none ↦ none | some v ↦ some (c ∷ v) ]

-- Without the blanks at the end.
abbrev pub trim_end : List ℕ → List ℕ
trim_end [] = []
trim_end (c ∷ s) = let rest = trim_end s in if length rest == 0 && is_blank c then [] else c ∷ rest

-- `subprotocol`: empty where there is no such header.
abbrev pub protocol_from : Option (List ℕ) → Option (List ℕ)
protocol_from none = some []
protocol_from (some s) = elim (take_value ends_protocol 127 (skip_blanks s)) [
  | none ↦ none
  | some v ↦ some (cut_at 0 (trim_end v))
]

pub protocol_of : List ℕ → Option (List ℕ)
protocol_of text =
    protocol_from
      (find_header (codes "Sec-WebSocket-Protocol:") (codes "sec-websocket-protocol:") text)

-- `key`; `none` of the outer option where there is no such header.
abbrev pub key_from : Option (List ℕ) → Option (Option (List ℕ))
key_from none = none
key_from (some s) =
    some
      (elim (take_value ends_key 255 (skip_blanks s)) [ none ↦ none | some v ↦ some (cut_at 0 v) ])

pub key_of : List ℕ → Option (Option (List ℕ))
key_of text = key_from (find_header (codes "Sec-WebSocket-Key:") (codes "sec-websocket-key:") text)

-- `response`
pub response_text : List ℕ → List ℕ → List ℕ
response_text accept subprotocol =
    codes "HTTP/1.1 101 Switching Protocols\r\n"
    ++ (codes "Upgrade: websocket\r\n"
        ++ (codes "Connection: Upgrade\r\n"
            ++ (codes "Sec-WebSocket-Accept: "
                ++ (accept
                    ++ (codes "\r\n"
                        ++ ((if length subprotocol == 0
                              then []
                              else codes "Sec-WebSocket-Protocol: "
                                ++ (subprotocol ++ codes "\r\n"))
                            ++ codes "\r\n"))))))

-- What `wsHandshake` does: it returns false; or it reads behind the end of the buffer; or it sends a
-- response and returns true.
pub data Answer : Type 0 where
  refused : Answer
  unended : Answer
  switched : List ℕ → Answer

-- The end of `wsHandshake`: `_snprintf` is below 0 where the response does not fit.
abbrev pub send_response : List ℕ → Option (List ℕ) → Answer
send_response accept none = unended
send_response accept (some subprotocol) =
    let text = response_text accept subprotocol in
    if leb (length text) 512 then switched text else refused

abbrev pub answer_key : (List ℕ → Option (List ℕ)) → List ℕ → Option (Option (List ℕ)) → Answer
answer_key digest text none = refused
answer_key digest text (some none) = unended
answer_key digest text (some (some key)) = elim (compute_accept digest key) [
  | none ↦ refused
  | some accept ↦ send_response accept (protocol_of text)
]

-- `wsHandshake`, after the head is read.
pub answer : (List ℕ → Option (List ℕ)) → List ℕ → Answer
answer digest text = answer_key digest text (key_of text)

-- `wsHandshake`
pub ws_handshake : (List ℕ → Option (List ℕ)) → Recv → List ℕ → Answer
ws_handshake digest recv input = elim (read_head recv input) [
  | none ↦ refused
  | some text ↦ answer digest text
]
