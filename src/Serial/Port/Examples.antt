-- ===== src/Serial/Port/Examples.antt =====
-- The port's theorems at a port with two clients, and at the calls that change it.
use betaflight_sitl_udp.Base.{
  ℕ, ◌+◌, ◌^◌, ◌≡◌, refl, Bool, true, false, List, [], ◌∷◌, arith, length, replicate, if◌then◌else◌,
  ◌==◌, ◌-◌,
}
use betaflight_sitl_udp.Serial.Ring.{Ring}
use betaflight_sitl_udp.Serial.Ring.Queue.{contents}
use betaflight_sitl_udp.Serial.Port.{
  Port, failed, count, Send, Event, accepts, disconnects, drops, send_data, write_buf, disconnect,
  step, run,
}
use betaflight_sitl_udp.Serial.Port.Invariant.{IsConsistent, step-IsConsistent}
use betaflight_sitl_udp.Serial.Port.Sockets.{occurrences, run-balance, all_arrivals}
use betaflight_sitl_udp.Serial.Port.Delivery.{Takes, deliveries, surviving, write_buf_delivers}

-- INVALID_SOCKET on a 64-bit system
abbrev no_socket : ℕ
no_socket = 2 ^ 64 - 1

abbrev empty_ring : Ring
empty_ring = record { buffer = replicate 16 0; size = 16; head = 15; tail = 15 }

-- 40 and 44 are connected.
abbrev busy : Port
busy = record {
  rx = empty_ring;
  tx = empty_ring;
  clients = 40 ∷ no_socket ∷ 44 ∷ replicate 5 no_socket;
  client_count = 2;
  connected = true;
}

-- 40 takes two bytes at a time, 44 is gone.
abbrev network : Send
network sock bytes = if sock == 40 then count 2 else failed

busy-IsConsistent : IsConsistent no_socket busy
busy-IsConsistent = record {
  counted = refl;
  linked = refl;
  slots = refl;
  rx_valid = omega arith;
  tx_valid = omega arith;
}

write_buf-busy :
    let ((p, closed), sent) = write_buf no_socket network (1 ∷ 2 ∷ 3 ∷ []) busy in
    (p.client_count ≡ 1) × (closed ≡ 44 ∷ []) × (sent ≡ (40, 1 ∷ 2 ∷ 3 ∷ []) ∷ (44, []) ∷ [])
unfolding write_buf send_data
write_buf-busy = (refl, refl, refl)

-- The last client's disconnect ends the CLI session.
last_disconnect :
    let (p, closed) = run no_socket busy (disconnects 0 40 ∷ disconnects 2 44 ∷ []) in
    (length (contents p.rx) ≡ 14) × (closed ≡ 40 ∷ 44 ∷ []) × (p.connected ≡ false)
unfolding run
last_disconnect = (refl, refl, refl)

-- A thread whose slot has been given to another client changes nothing.
stale_disconnect : disconnect no_socket busy 0 41 ≡ (busy, [])
unfolding disconnect
stale_disconnect = refl

step-IsConsistent_example : IsConsistent no_socket (step no_socket busy (disconnects 0 40)).0
step-IsConsistent_example =
    step-IsConsistent no_socket (disconnects 0 40) (omega arith) busy-IsConsistent

abbrev history : List Event
history = accepts 50 true true ∷ disconnects 1 50 ∷ accepts 51 true false ∷ drops ∷ []

run-balance_example :
    let (q, closed) = run no_socket busy history in
    occurrences 50 q.clients + occurrences 50 closed
    ≡ occurrences 50 busy.clients + occurrences 50 (all_arrivals history)
run-balance_example = run-balance no_socket busy history 50 (omega arith)

write_buf_delivers_example :
    let ((q, closed), sent) = write_buf no_socket network (1 ∷ 2 ∷ 3 ∷ []) busy in
    (outcome : ℕ → Bool × List ℕ) × ((s : ℕ)
      → Takes network s (1 ∷ 2 ∷ 3 ∷ []) (outcome s).0 (outcome s).1)
    × (sent ≡ deliveries no_socket outcome busy.clients)
    × (q.clients ≡ surviving no_socket outcome busy.clients)
    × (contents q.tx ≡ [])
write_buf_delivers_example =
    write_buf_delivers no_socket network busy (1 ∷ 2 ∷ 3 ∷ []) busy-IsConsistent refl (λ e. cc)
      (omega arith)
