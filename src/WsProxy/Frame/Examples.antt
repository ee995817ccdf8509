-- ===== src/WsProxy/Frame/Examples.antt =====
-- The frame theorems at a client whose bytes come one or two at a time.
use betaflight_sitl_udp.Base.{
  ℕ, ◌≡◌, refl, true, false, List, [], ◌∷◌, ◌++◌, some, none, arith, length, min,
}
use betaflight_sitl_udp.WsProxy.Frame.{Recv, dispatch, read_ws_frame, send_ws_frame, send_pieces}
use betaflight_sitl_udp.WsProxy.Frame.Reading.{Reads}
use betaflight_sitl_udp.WsProxy.Frame.RoundTrip.{encode, read_ws_frame-encode}

abbrev pub slow_recv : Recv
slow_recv want input = min 2 (min want (length input))

pub slow_recv-Reads : Reads slow_recv
slow_recv-Reads = record {
  bounded = λ want input. omega arith;
  progress = λ want input asked there. omega arith;
}

abbrev one_byte_sent : List ℕ → ℕ
one_byte_sent bytes = 1

-- "Hello" masked, as RFC 6455 prints it.
abbrev masked_hello : List ℕ
masked_hello = 0x81 ∷ 0x85 ∷ 0x37 ∷ 0xfa ∷ 0x21 ∷ 0x3d ∷ 0x7f ∷ 0x9f ∷ 0x4d ∷ 0x51 ∷ 0x58 ∷ []

read_hello :
    read_ws_frame slow_recv 65536 false masked_hello
    ≡ some (record {
      result = true;
      close = false;
      payload = 0x48 ∷ 0x65 ∷ 0x6c ∷ 0x6c ∷ 0x6f ∷ [];
      answer = [];
      rest = [];
    })
unfolding read_ws_frame
read_hello = refl

-- A payload that does not fit the buffer is refused.
hello_too_long : read_ws_frame slow_recv 4 false masked_hello ≡ none
unfolding read_ws_frame
hello_too_long = refl

send_hello :
    send_pieces one_byte_sent (send_ws_frame 0x2 (0x48 ∷ 0x69 ∷ []))
    ≡ 0x82 ∷ 0x02 ∷ 0x48 ∷ 0x69 ∷ []
unfolding send_ws_frame send_pieces
send_hello = refl

read_ws_frame-encode_example :
    read_ws_frame slow_recv 65536 false
      (encode true (1 ∷ 2 ∷ 3 ∷ 4 ∷ []) 2 (36 ∷ 77 ∷ 60 ∷ []) ++ 0x88 ∷ 0x80 ∷ [])
    ≡ some (dispatch 2 false (36 ∷ 77 ∷ 60 ∷ []) (0x88 ∷ 0x80 ∷ []))
read_ws_frame-encode_example =
    read_ws_frame-encode 65536 2 false true (1 ∷ 2 ∷ 3 ∷ 4 ∷ []) (36 ∷ 77 ∷ 60 ∷ [])
      (0x88 ∷ 0x80 ∷ []) slow_recv-Reads (omega arith) refl (omega arith) (omega arith)
