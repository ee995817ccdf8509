-- ===== src/Serial/Server/Opening.antt =====
-- When `serTcpOpen` returns a port.
use betaflight_sitl_udp.Base.{ℕ, ◌≡◌, Bool, not, ◌&&◌, ◌||◌, ◌==◌, some, arith, get_elem?}
use betaflight_sitl_udp.Serial.Server.{
  Uart, Bridge, System, start_server, open_listener, reconfigure, open_port,
}

-- Every call of `tcpReconfigure` succeeds.
abbrev pub all_succeed : ℕ → System → Bool
all_succeed invalid_socket sys =
    sys.tx_lock
    && sys.rx_lock
    && sys.client_lock
    && not (sys.socket == invalid_socket)
    && sys.bound
    && sys.listening
    && sys.threaded

-- A port of the array is opened exactly if it is open already or every call that opens it succeeds.
pub open_port-success :
    (invalid_socket : ℕ) (sys : System) (rx tx : ℕ) (b : Bridge) (id : ℕ) (u : Uart)
    → get_elem? b.uarts id ≡ some u
    → (open_port invalid_socket sys rx tx b (some id)).success
      ≡ (u.initialized || all_succeed invalid_socket sys)
unfolding open_port reconfigure open_listener start_server
open_port-success i sys rx tx b id u at_id = ground arith
