-- ===== src/WsProxy/Bridge/Examples.antt =====
-- The link's theorems at two messages of a client, at a ping and at a close frame.
use betaflight_sitl_udp.Base.{
  ℕ, ◌≡◌, refl, true, false, List, [], ◌∷◌, ◌++◌, some, arith, length, min, inl, inr,
}
use betaflight_sitl_udp.WsProxy.Frame.{Recv, read_ws_frame}
use betaflight_sitl_udp.WsProxy.Frame.Reading.{Reads}
use betaflight_sitl_udp.WsProxy.Bridge.{
  Network, Link, msp_readable, take_frame, client_readable, first_half, second_half, round, rounds,
}
use betaflight_sitl_udp.WsProxy.Bridge.Relay.{
  IsUp, Turn, wire, payloads, frames, ready_in, rounds-wire,
}

abbrev steady_recv : Recv
steady_recv want input = min want (length input)

steady_recv-Reads : Reads steady_recv
steady_recv-Reads = record {
  bounded = λ want input. omega arith;
  progress = λ want input asked there. omega arith;
}

abbrev key : List ℕ
key = 1 ∷ 2 ∷ 3 ∷ 4 ∷ []

abbrev link_of : List ℕ → Link
link_of input = record {
  client_input = input;
  to_client = [];
  to_msp = [];
  ws_closed = false;
  running = true;
}

-- One byte goes with every `send`.
abbrev one_byte : List ℕ → ℕ
one_byte bytes = 1

abbrev steady : Network
steady = record { recv = steady_recv; send_client = one_byte; send_msp = one_byte }

steady-IsUp : IsUp steady
steady-IsUp = record {
  reads = steady_recv-Reads;
  client_takes = λ d there. omega arith;
  msp_takes = λ d there. omega arith;
}

-- The MSP port answers in the second round.
abbrev request : List Turn
request =
    (record { message = record { opcode = 2; key = key; payload = 36 ∷ 77 ∷ [] }; chunk = [] }
      ∷ record { message = record { opcode = 1; key = key; payload = 60 ∷ [] }; chunk = 36 ∷ [] }
      ∷ [])

relay_request :
    let l = rounds steady (ready_in request) (link_of (wire request)) in
    (l.to_msp ≡ 36 ∷ 77 ∷ 60 ∷ []) × (l.to_client ≡ 0x82 ∷ 1 ∷ 36 ∷ [])
unfolding rounds round first_half second_half client_readable msp_readable take_frame read_ws_frame
relay_request = (refl, refl)

-- Where the MSP port takes nothing, the payloads are lost, and the loop goes on.
msp_takes_nothing :
    let l =
      rounds
        (record steady { send_msp = λ bytes. 0 })
        (ready_in request)
        (link_of (wire request)) in
    (l.to_msp ≡ []) × (l.running ≡ true)
unfolding rounds round first_half second_half client_readable msp_readable take_frame read_ws_frame
msp_takes_nothing = (refl, refl)

-- The MSP port's end of file ends the loop.
msp_gone :
    (round steady
      (record { from_msp = some []; from_client = true })
      (link_of (wire request))).running
    ≡ false
unfolding round first_half second_half msp_readable
msp_gone = refl

rounds-wire_example :
    rounds steady (ready_in request) (link_of (wire request ++ 1 ∷ []))
    ≡ record (link_of (wire request ++ 1 ∷ [])) {
      client_input = 1 ∷ [];
      to_client = [] ++ frames request;
      to_msp = [] ++ payloads request;
    }
rounds-wire_example =
    rounds-wire steady request (link_of (wire request ++ 1 ∷ [])) (1 ∷ []) steady-IsUp
      (
        ((inr refl, refl, omega arith), omega arith),
        (((inl refl, refl, omega arith), omega arith), tt),
      )
      refl refl refl
