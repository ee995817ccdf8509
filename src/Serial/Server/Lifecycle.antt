-- ===== src/Serial/Server/Lifecycle.antt =====
-- What opening and stopping the ports leaves behind.
use betaflight_sitl_udp.Base.{
  ℕ, zero, suc, ◌+◌, ◌≤◌, ◌<◌, ◌^◌, ◌≡◌, ◌≢◌, ◌==◌, refl, sym, ap, ◌∙◌, Bool, true, false, not,
  List, [], ◌∷◌, some, if◌then◌else◌, arith, length, get_elem?, set, modify, inl, inr,
  get_elem?-set_self, get_elem?-set_ne, get_elem?-modify_self, get_elem?-modify_ne,
  lt-length_of_some, length-replicate, slice_empty, subst, map, ◌⊎◌,
}
use betaflight_sitl_udp.Serial.Ring.Queue.{contents}
use betaflight_sitl_udp.Serial.Port.{Port, max_tcp_clients, drop_clients}
use betaflight_sitl_udp.Serial.Port.Invariant.{IsConsistent, occupied, occupied-replicate}
use betaflight_sitl_udp.Serial.Port.Sockets.{
  occurrences, occurrences-append, occurrences-live_sockets,
}
use betaflight_sitl_udp.Serial.Server.{
  Uart, Bridge, System, clear_slots, adopt_listener, reconfigure, reset_rings, open_port, drop_uart,
  drop_all, close_listener, close_listeners, stop,
}

-- A port that is open is consistent.
abbrev pub OpenOk : ℕ → Bool → Port → Type 0
OpenOk i false p = Unit
OpenOk i true p = IsConsistent i p

abbrev pub IsSound : ℕ → Uart → Type 0
IsSound i u = OpenOk i u.initialized u.port

-- The arrays of a port have the firmware's sizes.
abbrev pub HasArrays : ℕ → ℕ → Uart → Type 0
HasArrays rx tx u = (length u.port.rx.buffer ≡ rx) × (length u.port.tx.buffer ≡ tx)

-- What opening a port establishes before its rings are reset.
record IsReady (i : ℕ) (v : Uart) : Type 0 where
  opened : v.initialized ≡ true
  counted : v.port.client_count ≡ occupied i v.port.clients
  linked : v.port.connected ≡ not (v.port.client_count == 0)
  slots : length v.port.clients ≡ max_tcp_clients

-- The array `after` has a ready port at `id`, with the arrays of `u`, and is `before` elsewhere.
record OpensAt (i id : ℕ) (u : Uart) (before after : List Uart) : Type 0 where
  port_at : Uart
  at : get_elem? after id ≡ some port_at
  ready : IsReady i port_at
  same_rx : port_at.port.rx.buffer ≡ u.port.rx.buffer
  same_tx : port_at.port.tx.buffer ≡ u.port.tx.buffer
  elsewhere : (j : ℕ) → id ≢ j → get_elem? after j ≡ get_elem? before j

module _ (i : ℕ) (sys : System) (b : Bridge) (id : ℕ) (u : Uart)
    (at_id : get_elem? b.uarts id ≡ some u) where
  fresh : Uart
  fresh = record (adopt_listener (clear_slots i u) sys.socket) { initialized = true }

  fresh-IsReady : IsReady i fresh
  unfolding fresh adopt_listener clear_slots
  fresh-IsReady = record {
    opened = refl;
    counted = sym (occupied-replicate i max_tcp_clients);
    linked = refl;
    slots = length-replicate max_tcp_clients i;
  }

  fresh-OpensAt : OpensAt i id u b.uarts (set b.uarts id fresh)
  unfolding fresh
  fresh-OpensAt = record {
    port_at = fresh;
    at = get_elem?-set_self b.uarts id fresh (lt-length_of_some b.uarts id at_id);
    ready = fresh-IsReady;
    same_rx = unfold adopt_listener clear_slots in refl;
    same_tx = unfold adopt_listener clear_slots in refl;
    elsewhere = λ j ne. get_elem?-set_ne b.uarts id j fresh ne;
  }

  -- `tcpReconfigure` succeeds on an open port by leaving it as it is, and on another by the full way.
  reconfigure_cases :
      (reconfigure i sys b id u).success ≡ true
      → ((u.initialized ≡ true) × ((reconfigure i sys b id u).bridge.uarts ≡ b.uarts))
        ⊎ ((reconfigure i sys b id u).bridge.uarts ≡ set b.uarts id fresh)
  unfolding reconfigure fresh
  reconfigure_cases h = ground arith

-- A socket that a failed `tcpReconfigure` created is closed again, whatever failed behind `socket`,
-- and neither the port nor the WebSocket proxy is started.
pub failed_open_closes :
    (invalid_socket : ℕ) (sys : System) (b : Bridge) (id : ℕ) (u : Uart)
    → get_elem? b.uarts id ≡ some u
    → u.initialized ≡ false
    → sys.tx_lock ≡ true
    → sys.rx_lock ≡ true
    → sys.client_lock ≡ true
    → sys.socket ≢ invalid_socket
    → (reconfigure invalid_socket sys b id u).success ≡ false
    → let r = reconfigure invalid_socket sys b id u in
      (r.closed ≡ sys.socket ∷ []) × (r.proxy_started ≡ false) × (r.bridge.started ≡ b.started)
unfolding reconfigure
failed_open_closes i sys b id u at new l1 l2 l3 real fails = ground arith

reset_rings_lem :
    (i rx tx : ℕ) (v : Uart)
    → IsReady i v
    → length v.port.rx.buffer ≡ rx
    → length v.port.tx.buffer ≡ tx
    → (0 < rx) × (rx < 2 ^ 31)
    → (0 < tx) × (tx < 2 ^ 31)
    → let w = reset_rings rx tx v in
      (w.initialized ≡ true)
      × IsConsistent i w.port
      × (contents w.port.rx ≡ [])
      × (contents w.port.tx ≡ [])
unfolding reset_rings
reset_rings_lem i rx tx v r lrx ltx hrx htx = (
  r.opened,
  record {
    counted = r.counted;
    linked = r.linked;
    slots = r.slots;
    rx_valid = record { storage = lrx; small = hrx.1; head_in = hrx.0; tail_in = hrx.0 };
    tx_valid = record { storage = ltx; small = htx.1; head_in = htx.0; tail_in = htx.0 };
  },
  slice_empty v.port.rx.buffer 0 0 (omega arith),
  slice_empty v.port.tx.buffer 0 0 (omega arith),
)

open-IsReady : (i : ℕ) (u : Uart) → u.initialized ≡ true → IsSound i u → IsReady i u
open-IsReady i u o s =
    let c : IsConsistent i u.port = subst (λ b. OpenOk i b u.port) o s in
    record { opened = o; counted = c.counted; linked = c.linked; slots = c.slots }

reconfigure-OpensAt :
    (i : ℕ) (sys : System) (b : Bridge) (id : ℕ) (u : Uart)
    → get_elem? b.uarts id ≡ some u
    → IsSound i u
    → (reconfigure i sys b id u).success ≡ true
    → OpensAt i id u b.uarts (reconfigure i sys b id u).bridge.uarts
reconfigure-OpensAt i sys b id u at_id sound success =
    elim (reconfigure_cases i sys b id u at_id success) [
      | inl (was_open, same) ↦ rw same (record {
        port_at = u;
        at = at_id;
        ready = open-IsReady i u was_open sound;
        same_rx = refl;
        same_tx = refl;
        elsewhere = λ j ne. refl;
      })
      | inr changed ↦ rw changed (fresh-OpensAt i sys b id u at_id)
    ]

open_port_success :
    (i : ℕ) (sys : System) (rx tx : ℕ) (b : Bridge) (id : ℕ) (u : Uart)
    → get_elem? b.uarts id ≡ some u
    → (open_port i sys rx tx b (some id)).success ≡ true
    → ((reconfigure i sys b id u).success ≡ true)
      × ((open_port i sys rx tx b (some id)).bridge.uarts
          ≡ modify (reconfigure i sys b id u).bridge.uarts id (reset_rings rx tx))
unfolding open_port
open_port_success i sys rx tx b id u at_id h = ground arith

-- `serTcpOpen`, called for a sound port with buffers of the two sizes, which are positive and below
-- 2^31, where it returns that port, leaves that port open and consistent, with two empty
-- valid rings, and every other port as it was.
pub open_port_lem :
    (i : ℕ) (sys : System) (rx tx : ℕ) (b : Bridge) (id : ℕ) (u : Uart)
    → get_elem? b.uarts id ≡ some u
    → IsSound i u
    → HasArrays rx tx u
    → (0 < rx) × (rx < 2 ^ 31)
    → (0 < tx) × (tx < 2 ^ 31)
    → (open_port i sys rx tx b (some id)).success ≡ true
    → let after = (open_port i sys rx tx b (some id)).bridge.uarts in
      (v : Uart) × (get_elem? after id ≡ some v)
      × (v.initialized ≡ true)
      × IsConsistent i v.port
      × (contents v.port.rx ≡ [])
      × (contents v.port.tx ≡ [])
      × ((j : ℕ) → id ≢ j → get_elem? after j ≡ get_elem? b.uarts j)
open_port_lem i sys rx tx b id u at_id sound arrays hrx htx success =
    let (reopened, same) = open_port_success i sys rx tx b id u at_id success in
    let o = reconfigure-OpensAt i sys b id u at_id sound reopened in
    let w =
      reset_rings_lem i rx tx o.port_at o.ready (ap length o.same_rx ∙ arrays.0)
        (ap length o.same_tx ∙ arrays.1) hrx htx in
    rw same (
      reset_rings rx tx o.port_at,
      get_elem?-modify_self _ id (reset_rings rx tx) o.at,
      w.0,
      w.1,
      w.2,
      w.3,
      λ j ne. get_elem?-modify_ne _ id j (reset_rings rx tx) ne ∙ o.elsewhere j ne,
    )

-- The sockets of a port: its listener, and the clients if it is open.
abbrev pub sockets_of : ℕ → Uart → ℕ
sockets_of s u =
    (if u.initialized then occurrences s u.port.clients else 0) + occurrences s (u.listen ∷ [])

abbrev pub all_sockets : ℕ → List Uart → ℕ
all_sockets s [] = 0
all_sockets s (u ∷ rest) = sockets_of s u + all_sockets s rest

-- Every port is closed and has no listener.
abbrev pub AllStopped : ℕ → List Uart → Type 0
AllStopped i [] = Unit
AllStopped i (u ∷ rest) = (u.initialized ≡ false) × (u.listen ≡ i) × AllStopped i rest

close_listeners-AllStopped : (i : ℕ) (uarts : List Uart) → AllStopped i (close_listeners i uarts).0
unfolding close_listeners
close_listeners-AllStopped i [] = tt
close_listeners-AllStopped i (u ∷ rest) = ground (arith, close_listeners-AllStopped i rest)

module _ (i s : ℕ) (real : s ≢ i) where
  listeners-balance :
      (uarts : List Uart)
      → occurrences s (close_listeners i uarts).1
        ≡ occurrences s (map (λ (u : Uart). u.listen) uarts)
  unfolding close_listeners
  listeners-balance [] = refl
  listeners-balance (u ∷ rest) = ground (
    arith,
    occurrences-append s (close_listener i u).1 (close_listeners i rest).1,
    listeners-balance rest,
  )

  drop_all-balance :
      (uarts : List Uart)
      → let (dropped, closed) = drop_all i uarts in
        occurrences s closed + occurrences s (map (λ (u : Uart). u.listen) dropped)
        ≡ all_sockets s uarts
  unfolding drop_all drop_clients
  drop_all-balance [] = refl
  drop_all-balance (u ∷ rest) = ground (
    arith,
    occurrences-append s (drop_uart i u).1 (drop_all i rest).1,
    occurrences-live_sockets i s real u.port.clients,
    drop_all-balance rest,
  )

-- `serialTcpStop` closes every port and takes its listener away, and closes each socket as often as it
-- was a listener or a client of an open port.
pub stop_lem :
    (invalid_socket : ℕ) (b : Bridge) (s : ℕ)
    → s ≢ invalid_socket
    → let (stopped, closed) = stop invalid_socket b in
      AllStopped invalid_socket stopped.uarts
      × (stopped.started ≡ false)
      × (occurrences s closed ≡ all_sockets s b.uarts)
unfolding stop
stop_lem i b s real =
    let (dropped, clients) = drop_all i b.uarts in
    let (stopped, listeners) = close_listeners i dropped in
    (
      close_listeners-AllStopped i dropped,
      refl,
      omega (
        arith,
        occurrences-append s clients listeners,
        listeners-balance i s real dropped,
        drop_all-balance i s real b.uarts,
      ),
    )

all_sockets-set :
    (s id : ℕ) (uarts : List Uart) (u : Uart)
    → id < length uarts
    → occurrences s (u.listen ∷ []) ≤ all_sockets s (set uarts id u)
all_sockets-set s id [] u h = absurd (omega arith)
all_sockets-set s zero (v ∷ rest) u h = omega arith
all_sockets-set s (suc id) (v ∷ rest) u h = omega (arith, all_sockets-set s id rest u)

-- Where `pthread_create` fails, `tcpReconfigure` closes the listen socket but leaves its number in
-- `listenSockets`, so that a later `serialTcpStop` closes the same number again.
pub thread_failure_closes_twice :
    (invalid_socket : ℕ) (sys : System) (b : Bridge) (id : ℕ) (u : Uart)
    → get_elem? b.uarts id ≡ some u
    → u.initialized ≡ false
    → (sys.tx_lock ≡ true) × (sys.rx_lock ≡ true) × (sys.client_lock ≡ true)
    → sys.socket ≢ invalid_socket
    → (sys.bound ≡ true) × (sys.listening ≡ true)
    → sys.threaded ≡ false
    → let r = reconfigure invalid_socket sys b id u in
      (occurrences sys.socket r.closed ≡ 1)
      × (1 ≤ occurrences sys.socket (stop invalid_socket r.bridge).1)
unfolding reconfigure
thread_failure_closes_twice i sys b id u at_id new locks real bound fails = ground (
  arith,
  stop_lem i (reconfigure i sys b id u).bridge sys.socket real,
  all_sockets-set sys.socket id b.uarts (adopt_listener (clear_slots i u) sys.socket),
  lt-length_of_some b.uarts id at_id,
)
