-- ===== src/WsProxy/Handshake/Examples.antt =====
-- The handshake of the example in RFC 6455.
use betaflight_sitl_udp.Base.{
  ℕ, ◌≡◌, refl, List, [], ◌∷◌, ◌++◌, Option, some, none, arith, codes, same_string, if◌then◌else◌,
  Bool, true, false, not, ◌&&◌, ◌==◌, ◌≢◌,
}
use betaflight_sitl_udp.WsProxy.Handshake.{
  ws_guid, ends_key, ends_protocol, answer, switched, refused, response_text, key_of,
}
use betaflight_sitl_udp.WsProxy.Handshake.Answers.{answer_lem, IsValue}

abbrev sample_key : List ℕ
sample_key = codes "dGhlIHNhbXBsZSBub25jZQ=="

abbrev sample_accept : List ℕ
sample_accept = codes "s3pPLMBiTxaQ9kYGzzhZRbK+xOo="

-- The hash at one text, which is all that is asked for here.
abbrev sample_digest : List ℕ → Option (List ℕ)
sample_digest s = if same_string s (sample_key ++ ws_guid) then some sample_accept else none

abbrev sample_head : List ℕ
sample_head =
    codes "GET / HTTP/1.1\r\nSec-WebSocket-Key: "
    ++ (sample_key ++ codes "\r\nSec-WebSocket-Protocol: chat , superchat\r\n\r\n")

flip : (b : Bool) → not b ≡ true → b ≡ false
flip b h = ground arith

-- A test for the bytes of a value.
abbrev all_plain : (ℕ → Bool) → List ℕ → Bool
all_plain ends [] = true
all_plain ends (c ∷ s) = (not (ends c) && not (c == 0)) && all_plain ends s

and_true : (a b : Bool) → (a && b) ≡ true → (a ≡ true) × (b ≡ true)
and_true a b h = (ground arith, ground arith)

plain_byte :
    (ends : ℕ → Bool) (c : ℕ) → (not (ends c) && not (c == 0)) ≡ true → (ends c ≡ false) × (c ≢ 0)
plain_byte ends c h =
    let (plain, nonzero) = and_true (not (ends c)) (not (c == 0)) h in
    (flip (ends c) plain, λ same. ground arith)

IsValue-by : (ends : ℕ → Bool) (v : List ℕ) → all_plain ends v ≡ true → IsValue ends v
IsValue-by ends [] h = tt
IsValue-by ends (c ∷ v) h =
    let (here, later) = and_true (not (ends c) && not (c == 0)) (all_plain ends v) h in
    let (plain, nonzero) = plain_byte ends c here in (plain, nonzero, IsValue-by ends v later)

answer_lem_example :
    answer sample_digest sample_head ≡ switched (response_text sample_accept (codes "chat"))
answer_lem_example =
    answer_lem sample_digest sample_head sample_accept (codes " ") b'd'
      (codes "GhlIHNhbXBsZSBub25jZQ==") 13
      (codes "\nSec-WebSocket-Protocol: chat , superchat\r\n\r\n") (codes " ") (codes "cha") b't'
      (codes " ") b',' (codes " superchat\r\n\r\n") refl
      ((refl, tt), refl, IsValue-by ends_key sample_key refl, refl) (omega arith) refl
      ((refl, tt), refl, refl, (refl, tt), IsValue-by ends_protocol (codes "chat") refl, refl)
      (omega arith) refl (omega arith)

-- The names of headers are not taken in any other spelling.
capitals_refused :
    answer sample_digest (codes "GET / HTTP/1.1\r\nSEC-WEBSOCKET-KEY: a\r\n\r\n") ≡ refused
unfolding answer key_of
capitals_refused = refl
