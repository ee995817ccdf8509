-- ===== src/Serial/Port/Sockets.antt =====
-- Where the sockets of clients go: none is lost, and none is closed twice.
use betaflight_sitl_udp.Base.{
  ℕ, zero, suc, ◌+◌, ◌≡◌, ◌≢◌, ◌==◌, refl, Bool, true, List, [], ◌∷◌, ◌++◌, some, if◌then◌else◌,
  arith, length, get_elem?, set, replicate, Option-cases, inl, inr,
}
use betaflight_sitl_udp.Serial.Ring
use betaflight_sitl_udp.Serial.Ring.{Ring}
use betaflight_sitl_udp.Serial.Port.{
  Port, Send, Closing, Event, accepts, disconnects, receives, reads, writes_byte, writes, drops,
  holds, end_cli_session, visit, sweep, flush, data_out, write, write_buf, release_slot, take_slot,
  disconnect, free_slot, accept_client, live_sockets, drop_clients, step, run,
}
use betaflight_sitl_udp.Serial.Port.Invariant.{free_slot_lem}

-- How often a socket stands in a list.
abbrev pub occurrences : ℕ → List ℕ → ℕ
occurrences s [] = 0
occurrences s (x ∷ xs) = (if x == s then 1 else 0) + occurrences s xs

pub occurrences-append :
    (s : ℕ) (xs ys : List ℕ) → occurrences s (xs ++ ys) ≡ occurrences s xs + occurrences s ys
occurrences-append s [] ys = omega arith
occurrences-append s (x ∷ xs) ys = ground (arith, occurrences-append s xs ys)

-- The socket that an event brings in.
abbrev pub arrivals : Event → List ℕ
arrivals (accepts client allocated started) = client ∷ []
arrivals _ = []

abbrev pub all_arrivals : List Event → List ℕ
all_arrivals [] = []
all_arrivals (e ∷ events) = arrivals e ++ all_arrivals events

occurrences-set :
    (s : ℕ) (xs : List ℕ) (i old new : ℕ)
    → get_elem? xs i ≡ some old
    → occurrences s (set xs i new) + (if old == s then 1 else 0)
      ≡ occurrences s xs + (if new == s then 1 else 0)
occurrences-set s [] i old new h = ground arith
occurrences-set s (x ∷ xs) zero old new h = ground arith
occurrences-set s (x ∷ xs) (suc i) old new h = ground (arith, occurrences-set s xs i old new h)

holds_lem :
    (xs : List ℕ) (slot sock : ℕ) → holds xs slot sock ≡ true → get_elem? xs slot ≡ some sock
holds_lem [] slot sock h = ground arith
holds_lem (x ∷ xs) zero sock h = ground arith
holds_lem (x ∷ xs) (suc slot) sock h = holds_lem xs slot sock h

clients-end_cli_session : (p : Port) → (end_cli_session p).clients ≡ p.clients
unfolding end_cli_session
clients-end_cli_session p = ground arith

module _ (invalid_socket s : ℕ) (real : s ≢ invalid_socket) where
  -- What a call keeps: the sockets in slots before it and those it brings in are those in slots
  -- after it and those it closed.
  abbrev Balance : Port → List ℕ → Closing → Type 0
  Balance p arrived (q, closed) =
      occurrences s q.clients + occurrences s closed
      ≡ occurrences s p.clients + occurrences s arrived

  visit-balance :
      (send : Send) (bytes : List ℕ) (sock n : ℕ) (up : Bool)
      → let v = visit invalid_socket send bytes sock n up in
        (if v.slot == s then 1 else 0) + occurrences s v.closed ≡ (if sock == s then 1 else 0)
  unfolding visit
  visit-balance send bytes sock n up = ground arith

  sweep-balance :
      (send : Send) (bytes clients : List ℕ) (n : ℕ) (up : Bool)
      → let w = sweep invalid_socket send bytes clients n up in
        occurrences s w.slots + occurrences s w.closed ≡ occurrences s clients
  unfolding sweep
  sweep-balance send bytes [] n up = refl
  sweep-balance send bytes (sock ∷ rest) n up =
      let v = visit invalid_socket send bytes sock n up in
      ground (
        arith,
        visit-balance send bytes sock n up,
        sweep-balance send bytes rest v.count v.connected,
        occurrences-append s v.closed
            (sweep invalid_socket send bytes rest v.count v.connected).closed,
      )

  flush-Balance :
      (send : Send) (p : Port) (d : List ℕ × Ring) → Balance p [] (flush invalid_socket send p d).0
  unfolding flush
  flush-Balance send p ([], tx) = refl
  flush-Balance send p (b ∷ bytes, tx) =
      omega (arith, sweep-balance send (b ∷ bytes) p.clients p.client_count p.connected)

  disconnect-Balance :
      (p : Port) (slot sock : ℕ) → Balance p [] (disconnect invalid_socket p slot sock)
  unfolding disconnect
  disconnect-Balance p slot sock = ground (
    arith,
    holds_lem p.clients slot sock,
    occurrences-set s p.clients slot sock invalid_socket,
    clients-end_cli_session (release_slot invalid_socket p slot),
  )

  take_slot-Balance :
      (p : Port) (slot client : ℕ)
      → free_slot invalid_socket p.clients ≡ some slot
      → Balance p (client ∷ []) (take_slot invalid_socket p slot client, [])
  unfolding take_slot
  take_slot-Balance p slot client free = ground (
    arith,
    free_slot_lem invalid_socket p.clients slot free,
    occurrences-set s p.clients slot invalid_socket client,
  )

  accept_client-Balance :
      (p : Port) (client : ℕ) (allocated started : Bool)
      → Balance p (client ∷ []) (accept_client invalid_socket p client allocated started)
  unfolding accept_client
  accept_client-Balance p client allocated started =
      elim (Option-cases (free_slot invalid_socket p.clients)) [
        | inl full ↦ rw (full, accept_client) refl
        | inr (slot, free) ↦
            rw (free, accept_client)
              (ground (
                arith,
                take_slot-Balance p slot client free,
                disconnect-Balance (take_slot invalid_socket p slot client) slot client,
              ))
      ]

  pub occurrences-live_sockets :
      (clients : List ℕ)
      → occurrences s (live_sockets invalid_socket clients) ≡ occurrences s clients
  unfolding live_sockets
  occurrences-live_sockets [] = refl
  occurrences-live_sockets (x ∷ rest) = ground (arith, occurrences-live_sockets rest)

  drop_clients-balance :
      (n : ℕ) (clients : List ℕ)
      → occurrences s (replicate n invalid_socket)
          + occurrences s (live_sockets invalid_socket clients)
        ≡ occurrences s clients
  drop_clients-balance (suc n) clients = ground (arith, drop_clients-balance n clients)
  drop_clients-balance zero clients = omega (arith, occurrences-live_sockets clients)

-- No call loses a socket or makes one up: the sockets in slots before it and the one that it accepts
-- are, as often, those in slots after it and those that it closed.
pub step-balance :
    (invalid_socket : ℕ) (p : Port) (e : Event) (s : ℕ)
    → s ≢ invalid_socket
    → let (q, closed) = step invalid_socket p e in
      occurrences s q.clients + occurrences s closed
      ≡ occurrences s p.clients + occurrences s (arrivals e)
unfolding step write write_buf data_out drop_clients
step-balance i p (accepts client allocated started) s real =
    accept_client-Balance i s real p client allocated started
step-balance i p (disconnects slot sock) s real = disconnect-Balance i s real p slot sock
step-balance i p (receives bytes) s real = refl
step-balance i p reads s real = refl
step-balance i p (writes_byte send ch) s real =
    let q = record p { tx = Ring.store p.tx ch } in flush-Balance i s real send q (Ring.drain q.tx)
step-balance i p (writes send bytes) s real =
    let q = record p { tx = Ring.write_buf p.tx bytes } in
    flush-Balance i s real send q (Ring.drain q.tx)
step-balance i p drops s real =
    omega (arith, drop_clients-balance i s real (length p.clients) p.clients)

-- Over any history of calls a socket is in a slot or has been closed exactly as often as it was in a
-- slot at the start or was accepted since.
pub run-balance :
    (invalid_socket : ℕ) (p : Port) (events : List Event) (s : ℕ)
    → s ≢ invalid_socket
    → let (q, closed) = run invalid_socket p events in
      occurrences s q.clients + occurrences s closed
      ≡ occurrences s p.clients + occurrences s (all_arrivals events)
unfolding run
run-balance i p [] s real = refl
run-balance i p (e ∷ events) s real =
    let (q, closed) = step i p e in
    let (r, more) = run i q events in
    omega (
      arith,
      step-balance i p e s real,
      run-balance i q events s real,
      occurrences-append s closed more,
      occurrences-append s (arrivals e) (all_arrivals events),
    )
