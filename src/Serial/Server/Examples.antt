-- ===== src/Serial/Server/Examples.antt =====
-- The theorems on opening and stopping at two ports, the second open.
use betaflight_sitl_udp.Base.{
  ℕ, ◌^◌, ◌-◌, ◌≡◌, ◌≢◌, refl, true, false, [], ◌∷◌, some, arith, get_elem?, replicate,
}
use betaflight_sitl_udp.Serial.Ring.{Ring}
use betaflight_sitl_udp.Serial.Ring.Queue.{contents}
use betaflight_sitl_udp.Serial.Port.Invariant.{IsConsistent}
use betaflight_sitl_udp.Serial.Port.Sockets.{occurrences}
use betaflight_sitl_udp.Serial.Server.{Uart, Bridge, System, open_port, stop}
use betaflight_sitl_udp.Serial.Server.Lifecycle.{AllStopped, all_sockets, open_port_lem, stop_lem}

abbrev no_socket : ℕ
no_socket = 2 ^ 64 - 1

abbrev blank : Ring
blank = record { buffer = 0 ∷ 0 ∷ 0 ∷ []; size = 0; head = 0; tail = 0 }

abbrev used_ring : Ring
used_ring = record { buffer = 1 ∷ 2 ∷ 3 ∷ []; size = 3; head = 2; tail = 0 }

abbrev closed_uart : Uart
closed_uart = record {
  port = record {
    rx = blank;
    tx = blank;
    clients = replicate 8 0;
    client_count = 0;
    connected = false;
  };
  initialized = false;
  listen = no_socket;
}

abbrev open_uart : Uart
open_uart = record {
  port = record {
    rx = used_ring;
    tx = used_ring;
    clients = 30 ∷ replicate 7 no_socket;
    client_count = 1;
    connected = true;
  };
  initialized = true;
  listen = 20;
}

abbrev bridge : Bridge
bridge = record { uarts = closed_uart ∷ open_uart ∷ []; stopping = true; started = true }

abbrev willing : System
willing = record {
  tx_lock = true;
  rx_lock = true;
  client_lock = true;
  socket = 25;
  bound = true;
  listening = true;
  threaded = true;
}

abbrev threadless : System
threadless = record willing { threaded = false }

stop_closes : (stop no_socket bridge).1 ≡ 30 ∷ 20 ∷ []
unfolding stop
stop_closes = refl

open_port_lem_example :
    let after = (open_port no_socket willing 3 3 bridge (some 0)).bridge.uarts in
    (v : Uart) × (get_elem? after 0 ≡ some v)
    × (v.initialized ≡ true)
    × IsConsistent no_socket v.port
    × (contents v.port.rx ≡ [])
    × (contents v.port.tx ≡ [])
    × ((j : ℕ) → 0 ≢ j → get_elem? after j ≡ get_elem? bridge.uarts j)
unfolding open_port
open_port_lem_example =
    open_port_lem no_socket willing 3 3 bridge 0 closed_uart refl tt (refl, refl) (omega arith)
      (omega arith) refl

stop_lem_example :
    let (stopped, closed) = stop no_socket bridge in
    AllStopped no_socket stopped.uarts
    × (stopped.started ≡ false)
    × (occurrences 30 closed ≡ all_sockets 30 bridge.uarts)
stop_lem_example = stop_lem no_socket bridge 30 (omega arith)
