-- ===== src/Serial/Server.antt =====
-- Opening and stopping the serial ports of src/serial_tcp_win.c: `tcpReconfigure`, `serTcpOpen`,
-- `serialTcpDropClients` and `serialTcpStop` over the arrays that are indexed by the port.
-- A port's `rxBuffer` and `txBuffer` are its own arrays, so opening it leaves their bytes alone. The
-- sizes RX_BUFFER_SIZE and TX_BUFFER_SIZE are the firmware's, and so are the callback, the mode and
-- the baud rate, which this file only stores. `wsProxyStart` is called where a port is opened anew.
pub mod Lifecycle
pub mod Opening
mod Examples
use betaflight_sitl_udp.Base.{
  ℕ, ◌+◌, ◌==◌, Bool, true, false, not, List, [], ◌∷◌, ◌++◌, Option, none, some, ltb, if◌then◌else◌,
  length, get_elem?, set, modify, replicate,
}
use betaflight_sitl_udp.Serial.Ring.{Ring}
use betaflight_sitl_udp.Serial.Port.{Port, max_tcp_clients, drop_clients}

-- One index of `tcpSerialPorts`, `tcpPortInitialized` and `listenSockets`.
pub record Uart : Type 0 where
  pub port : Port
  pub initialized : Bool
  pub listen : ℕ

pub record Bridge : Type 0 where
  pub uarts : List Uart
  pub stopping : Bool
  pub started : Bool

-- What the calls of `tcpReconfigure` return: the three `pthread_mutex_init`, `socket`, `bind`,
-- `listen` and `pthread_create`.
pub record System : Type 0 where
  pub tx_lock : Bool
  pub rx_lock : Bool
  pub client_lock : Bool
  pub socket : ℕ
  pub bound : Bool
  pub listening : Bool
  pub threaded : Bool

-- The result of opening a port: success, the state, the sockets closed, and whether the WebSocket
-- proxy was started.
pub record Outcome : Type 0 where
  pub success : Bool
  pub bridge : Bridge
  pub closed : List ℕ
  pub proxy_started : Bool

abbrev pub put : Bridge → ℕ → Uart → Bridge
put b id u = record b { uarts = set b.uarts id u }

-- The listen socket is recorded, and the port has no client.
pub adopt_listener : Uart → ℕ → Uart
adopt_listener u sock = record u {
  port = record (u.port) { connected = false; client_count = 0 };
  listen = sock;
}

-- From `pthread_create` on.
pub start_server : System → Bridge → ℕ → Uart → Outcome
start_server sys b id u =
    if not sys.threaded
    then record {
      success = false;
      bridge = put b id u;
      closed = sys.socket ∷ [];
      proxy_started = false;
    }
    else record {
      success = true;
      bridge = record (put b id (record u { initialized = true })) { started = true };
      closed = [];
      proxy_started = true;
    }

-- The rings as `serTcpOpen` resets them.
pub reset_rings : ℕ → ℕ → Uart → Uart
reset_rings rx_buffer_size tx_buffer_size u = record u {
  port = record (u.port) {
    rx = record (u.port.rx) { size = rx_buffer_size; head = 0; tail = 0 };
    tx = record (u.port.tx) { size = tx_buffer_size; head = 0; tail = 0 };
  };
}

module _ (invalid_socket : ℕ) where
  -- The slots as `tcpReconfigure` resets them.
  pub clear_slots : Uart → Uart
  clear_slots u = record u {
    port = record (u.port) { clients = replicate max_tcp_clients invalid_socket };
  }

  -- From `socket` on.
  pub open_listener : System → Bridge → ℕ → Uart → Outcome
  unfolding start_server adopt_listener
  open_listener sys b id u =
      let refused : List ℕ → Outcome = λ closed. record {
        success = false;
        bridge = put b id u;
        closed = closed;
        proxy_started = false;
      } in
      if sys.socket == invalid_socket
      then refused []
      else if not sys.bound
      then refused (sys.socket ∷ [])
      else if not sys.listening
      then refused (sys.socket ∷ [])
      else start_server sys b id (adopt_listener u sys.socket)

  -- `tcpReconfigure` for the port `u` at the index `id`.
  pub reconfigure : System → Bridge → ℕ → Uart → Outcome
  unfolding open_listener clear_slots
  reconfigure sys b id u =
      let resumed = record b { stopping = false } in
      let refused : Outcome = record {
        success = false;
        bridge = resumed;
        closed = [];
        proxy_started = false;
      } in
      if u.initialized
      then record { success = true; bridge = b; closed = []; proxy_started = false }
      else if not sys.tx_lock
      then refused
      else if not sys.rx_lock
      then refused
      else if not sys.client_lock
      then refused
      else open_listener sys resumed id (clear_slots u)

  -- `serTcpOpen`, with the index that `findSerialPortIndexByIdentifier` found; an index outside the
  -- array, or a port that cannot be opened, gives NULL (`success = false`).
  pub open_port : System → ℕ → ℕ → Bridge → Option ℕ → Outcome
  unfolding reconfigure reset_rings
  open_port sys rx_buffer_size tx_buffer_size b none = record {
    success = false;
    bridge = b;
    closed = [];
    proxy_started = false;
  }
  open_port sys rx_buffer_size tx_buffer_size b (some id) = elim (get_elem? b.uarts id) [
    | none ↦ record { success = false; bridge = b; closed = []; proxy_started = false }
    | some u ↦
        let r = reconfigure sys b id u in
        if r.success
        then record r {
          bridge = record (r.bridge) {
            uarts = modify r.bridge.uarts id (reset_rings rx_buffer_size tx_buffer_size);
          };
        }
        else r
  ]

  -- One round of the loop of `serialTcpDropClients`.
  pub drop_uart : Uart → Uart × List ℕ
  unfolding drop_clients
  drop_uart u =
      let (p, closed) = drop_clients invalid_socket u.port in
      if u.initialized then (record u { port = p }, closed) else (u, [])

  pub drop_all : List Uart → List Uart × List ℕ
  unfolding drop_uart
  drop_all [] = ([], [])
  drop_all (u ∷ rest) =
      let (v, closed) = drop_uart u in
      let (more, others) = drop_all rest in (v ∷ more, closed ++ others)

  -- One round of the loop of `serialTcpStop`.
  pub close_listener : Uart → Uart × List ℕ
  close_listener u =
      if u.listen == invalid_socket
      then (record u { initialized = false }, [])
      else (record u { initialized = false; listen = invalid_socket }, u.listen ∷ [])

  pub close_listeners : List Uart → List Uart × List ℕ
  unfolding close_listener
  close_listeners [] = ([], [])
  close_listeners (u ∷ rest) =
      let (v, closed) = close_listener u in
      let (more, others) = close_listeners rest in (v ∷ more, closed ++ others)

  -- `serialTcpStop`: the state, and the sockets closed.
  pub stop : Bridge → Bridge × List ℕ
  unfolding drop_all close_listeners
  stop b =
      let (dropped, clients) = drop_all b.uarts in
      let (stopped, listeners) = close_listeners dropped in
      (record { uarts = stopped; stopping = true; started = false }, clients ++ listeners)
