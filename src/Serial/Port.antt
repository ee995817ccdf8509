-- ===== src/Serial/Port.antt =====
-- One serial port of src/serial_tcp_win.c: its rings, the sockets of its clients
-- (`clientSockets[id]`), `clientCount` and `connected` of `tcpPort_t`, and the functions that share
-- them between the server thread, the client threads and the firmware. Each function holds
-- `clientLocks[id]` while it changes these fields, so it is one step. (`tcpClientDisconnect`
-- reads `clientCount` once more behind the lock; the model takes the value that it left there.)
-- What the system does enters as an argument: `invalid_socket` is Winsock's INVALID_SOCKET, and a `Send` says what `send`
-- answers for a socket and the bytes that are left.
pub mod Invariant
pub mod Delivery
pub mod Sockets
mod Examples
use betaflight_sitl_udp.Base.{
  ℕ, zero, suc, ◌+◌, ◌-◌, ◌==◌, Bool, true, false, not, ◌&&◌, List, [], ◌∷◌, ◌++◌, Option, none,
  some, ltb, if◌then◌else◌, length, get_elem?, set, take, drop, replicate,
}
use mathlib.Core.Option
use betaflight_sitl_udp.Serial.Ring
use betaflight_sitl_udp.Serial.Ring.{Ring}

-- What one call of `send` on a non-blocking socket returns: WSAEWOULDBLOCK, another error, or the
-- count of bytes that it took.
pub data Sent : Type 0 where
  would_block failed : Sent
  count : ℕ → Sent

abbrev pub Send : Type 0
Send = ℕ → List ℕ → Sent

pub record Port : Type 0 where
  pub rx : Ring
  pub tx : Ring
  pub clients : List ℕ
  pub client_count : ℕ
  pub connected : Bool

-- A port after a call, with the sockets that it closed.
abbrev pub Closing : Type 0
Closing = Port × List ℕ

abbrev pub max_tcp_clients : ℕ
max_tcp_clients = 8

-- "exit noreboot\r"
abbrev pub exit_cli_cmd : List ℕ
exit_cli_cmd =
    b'e' ∷ b'x' ∷ b'i' ∷ b't' ∷ 32 ∷ b'n' ∷ b'o' ∷ b'r' ∷ b'e' ∷ b'b' ∷ b'o' ∷ b'o' ∷ b't' ∷ 13 ∷ []

abbrev pub holds : List ℕ → ℕ → ℕ → Bool
holds clients slot sock = elim (get_elem? clients slot) [ none ↦ false | some s ↦ s == sock ]

-- One round of the send loop, after `send` answered: whether the socket failed, and the bytes that
-- it took; `more` is the rest of the loop after `n + 1` bytes.
pub resume : Sent → List ℕ → (ℕ → Bool × List ℕ) → Bool × List ℕ
resume would_block bytes more = (false, [])
resume failed bytes more = (true, [])
resume (count zero) bytes more = (false, [])
resume (count (suc n)) bytes more =
    let (broken, taken) = more n in (broken, take (suc n) bytes ++ taken)

-- The `while` loop of `tcpDataOut` for one socket. A byte at least goes with each round, so the
-- number of bytes is fuel enough.
pub send_loop : Send → ℕ → ℕ → List ℕ → Bool × List ℕ
unfolding resume
send_loop send zero sock bytes = (false, [])
send_loop send (suc fuel) sock [] = (false, [])
send_loop send (suc fuel) sock (b ∷ bytes) =
    resume (send sock (b ∷ bytes)) (b ∷ bytes) (λ n. send_loop send fuel sock (drop n bytes))

pub send_data : Send → ℕ → List ℕ → Bool × List ℕ
unfolding send_loop
send_data send sock bytes = send_loop send (length bytes) sock bytes

-- What the loop over the slots of `tcpDataOut` leaves of one slot, or of all.
pub record Visit : Type 0 where
  pub slot : ℕ
  pub count : ℕ
  pub connected : Bool
  pub closed : List ℕ
  pub delivered : List (ℕ × List ℕ)

pub record Sweep : Type 0 where
  pub slots : List ℕ
  pub count : ℕ
  pub connected : Bool
  pub closed : List ℕ
  pub delivered : List (ℕ × List ℕ)

-- What can happen to an open port.
pub data Event : Type 0 where
  accepts : ℕ → Bool → Bool → Event
  disconnects : ℕ → ℕ → Event
  receives : List ℕ → Event
  reads : Event
  writes_byte : Send → ℕ → Event
  writes : Send → List ℕ → Event
  drops : Event

-- The end of `tcpClientDisconnect`: with no client left, "exit noreboot" goes to the firmware.
pub end_cli_session : Port → Port
unfolding Ring.data_in
end_cli_session p =
    if p.client_count == 0 then record p { rx = Ring.data_in p.rx exit_cli_cmd } else p

module _ (invalid_socket : ℕ) where
  pub visit : Send → List ℕ → ℕ → ℕ → Bool → Visit
  visit send bytes sock n up =
      let (broken, taken) = send_data send sock bytes in
      if sock == invalid_socket
      then record { slot = sock; count = n; connected = up; closed = []; delivered = [] }
      else if broken
      then record {
        slot = invalid_socket;
        count = n - 1;
        connected = if (n - 1) == 0 then false else up;
        closed = sock ∷ [];
        delivered = (sock, taken) ∷ [];
      }
      else record {
        slot = sock;
        count = n;
        connected = up;
        closed = [];
        delivered = (sock, taken) ∷ [];
      }

  pub sweep : Send → List ℕ → List ℕ → ℕ → Bool → Sweep
  unfolding visit
  sweep send bytes [] n up = record {
    slots = [];
    count = n;
    connected = up;
    closed = [];
    delivered = [];
  }
  sweep send bytes (sock ∷ rest) n up =
      let here = visit send bytes sock n up in
      let more = sweep send bytes rest here.count here.connected in
      record {
        slots = here.slot ∷ more.slots;
        count = more.count;
        connected = more.connected;
        closed = here.closed ++ more.closed;
        delivered = here.delivered ++ more.delivered;
      }

  -- The second part of `tcpDataOut`, on what the first part copied out: the port, the sockets
  -- closed, and what each client was sent.
  pub flush : Send → Port → List ℕ × Ring → Closing × List (ℕ × List ℕ)
  unfolding sweep
  flush send p ([], tx) = ((record p { tx = tx }, []), [])
  flush send p (b ∷ bytes, tx) =
      let s = sweep send (b ∷ bytes) p.clients p.client_count p.connected in
      (
        (
          record p { tx = tx; clients = s.slots; client_count = s.count; connected = s.connected },
          s.closed,
        ),
        s.delivered,
      )

  -- `tcpDataOut`.
  pub data_out : Send → Port → Closing × List (ℕ × List ℕ)
  unfolding flush Ring.drain
  data_out send p = flush send p (Ring.drain p.tx)

  -- `tcpWriteBuf`.
  pub write_buf : Send → List ℕ → Port → Closing × List (ℕ × List ℕ)
  unfolding data_out Ring.write_buf
  write_buf send bytes p = data_out send (record p { tx = Ring.write_buf p.tx bytes })

  -- `tcpWrite`.
  pub write : Send → ℕ → Port → Closing × List (ℕ × List ℕ)
  unfolding data_out Ring.store
  write send ch p = data_out send (record p { tx = Ring.store p.tx ch })

  -- The slot is given up, and the count follows: the part of `tcpClientDisconnect` under the lock.
  release_slot : Port → ℕ → Port
  release_slot p slot = record p {
    clients = set p.clients slot invalid_socket;
    client_count = p.client_count - 1;
    connected = if (p.client_count - 1) == 0 then false else p.connected;
  }

  -- `tcpClientDisconnect`: where the slot still holds this socket, give it up, close the socket,
  -- and end a CLI session that the last client leaves behind.
  pub disconnect : Port → ℕ → ℕ → Closing
  unfolding release_slot end_cli_session
  disconnect p slot sock =
      if holds p.clients slot sock
      then (end_cli_session (release_slot p slot), sock ∷ [])
      else (p, [])

  -- The first slot that holds no socket.
  pub free_slot : List ℕ → Option ℕ
  free_slot [] = none
  free_slot (s ∷ rest) =
      let later = Option.map suc (free_slot rest) in if s == invalid_socket then some 0 else later

  -- The slot is taken, and the count follows: the locked part of `tcpServerThread`.
  take_slot : Port → ℕ → ℕ → Port
  take_slot p slot client = record p {
    clients = set p.clients slot client;
    client_count = p.client_count + 1;
    connected = true;
  }

  -- What `tcpServerThread` does with a socket that `accept` returned. `allocated` and `started` say
  -- whether `malloc` and `pthread_create` succeed.
  pub accept_client : Port → ℕ → Bool → Bool → Closing
  unfolding take_slot disconnect free_slot
  accept_client p client allocated started = elim (free_slot p.clients) [
    | none ↦ (p, client ∷ [])
    | some slot ↦
        if allocated && started
        then (take_slot p slot client, [])
        else disconnect (take_slot p slot client) slot client
  ]

  -- The sockets that `serialTcpDropClients` closes for one port.
  pub live_sockets : List ℕ → List ℕ
  live_sockets [] = []
  live_sockets (s ∷ rest) = if s == invalid_socket then live_sockets rest else s ∷ live_sockets rest

  -- The body of `serialTcpDropClients` for one open port.
  unfoldable pub drop_clients : Port → Closing
  unfolding live_sockets
  drop_clients p = (
    record p {
      clients = replicate (length p.clients) invalid_socket;
      client_count = 0;
      connected = false;
    },
    live_sockets p.clients,
  )

  -- One of the calls that hold the port's lock.
  pub step : Port → Event → Closing
  unfolding accept_client disconnect Ring.data_in Ring.read write write_buf drop_clients
  step p (accepts client allocated started) = accept_client p client allocated started
  step p (disconnects slot sock) = disconnect p slot sock
  step p (receives bytes) = (record p { rx = Ring.data_in p.rx bytes }, [])
  step p reads = (record p { rx = (Ring.read p.rx).1 }, [])
  step p (writes_byte send ch) = (write send ch p).0
  step p (writes send bytes) = (write_buf send bytes p).0
  step p drops = drop_clients p

  -- A history of these calls, in the order in which they get the lock, for the loops of the threads.
  pub run : Port → List Event → Closing
  unfolding step
  run p [] = (p, [])
  run p (e ∷ events) =
      let (q, closed) = step p e in let (r, more) = run q events in (r, closed ++ more)
