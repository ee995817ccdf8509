-- ===== src/Serial/Port/Invariant.antt =====
-- The count of clients is the number of taken slots, through every call.
use betaflight_sitl_udp.Base.{
  ℕ, zero, suc, ◌+◌, ◌-◌, ◌≤◌, ◌<◌, ◌≡◌, ◌≢◌, ◌==◌, refl, Bool, true, false, not, List, [], ◌∷◌,
  some, if◌then◌else◌, arith, length, get_elem?, set, replicate, length-set, length-replicate,
  if_both, Bool-cases, Option-cases, inl, inr, ◌∙◌,
}
use betaflight_sitl_udp.Serial.Ring.{Ring}
use betaflight_sitl_udp.Serial.Ring
use betaflight_sitl_udp.Serial.Ring.Queue.{IsValid, read-IsValid, store-IsValid}
use betaflight_sitl_udp.Serial.Ring.Transfer.{data_in_lem, drain_lem, write_buf-IsValid}
use betaflight_sitl_udp.Serial.Port.{
  Port, Send, Event, exit_cli_cmd, accepts, disconnects, receives, reads, writes_byte, writes,
  drops, max_tcp_clients, holds, end_cli_session, visit, sweep, data_out, flush, release_slot,
  take_slot, disconnect, free_slot, accept_client, drop_clients, step,
}

module _ (invalid_socket : ℕ) where
  -- The number of slots that hold a socket.
  abbrev pub occupied : List ℕ → ℕ
  occupied [] = 0
  occupied (s ∷ rest) = (if s == invalid_socket then 0 else 1) + occupied rest

  -- `clientCount` counts the taken slots, `connected` says whether there is one, there are as many
  -- slots as the source declares, and both rings are valid.
  pub record IsConsistent (p : Port) : Type 0 where
    pub counted : p.client_count ≡ occupied p.clients
    pub linked : p.connected ≡ not (p.client_count == 0)
    pub slots : length p.clients ≡ max_tcp_clients
    pub rx_valid : IsValid p.rx
    pub tx_valid : IsValid p.tx

  -- A socket that `accept` returned, or that a client thread was started with, is one.
  abbrev pub IsRealSocket : Event → Type 0
  IsRealSocket (accepts client allocated started) = client ≢ invalid_socket
  IsRealSocket (disconnects slot sock) = sock ≢ invalid_socket
  IsRealSocket _ = Unit

  occupied-le : (clients : List ℕ) → occupied clients ≤ length clients
  occupied-le [] = omega arith
  occupied-le (s ∷ rest) = ground (arith, occupied-le rest)

  occupied-release :
      (clients : List ℕ) (slot sock : ℕ)
      → holds clients slot sock ≡ true
      → sock ≢ invalid_socket
      → occupied clients ≡ suc (occupied (set clients slot invalid_socket))
  occupied-release [] slot sock h real = ground arith
  occupied-release (s ∷ rest) zero sock h real = ground arith
  occupied-release (s ∷ rest) (suc slot) sock h real =
      ground (arith, occupied-release rest slot sock h real)

  pub free_slot_lem :
      (clients : List ℕ) (slot : ℕ)
      → free_slot invalid_socket clients ≡ some slot
      → get_elem? clients slot ≡ some invalid_socket
  unfolding free_slot
  free_slot_lem [] slot h = ground arith
  free_slot_lem (s ∷ rest) zero h = ground arith
  free_slot_lem (s ∷ rest) (suc slot) h = ground (arith, free_slot_lem rest slot)

  occupied-take :
      (clients : List ℕ) (slot client : ℕ)
      → get_elem? clients slot ≡ some invalid_socket
      → client ≢ invalid_socket
      → occupied (set clients slot client) ≡ suc (occupied clients)
  occupied-take [] slot client h real = ground arith
  occupied-take (s ∷ rest) zero client h real = ground arith
  occupied-take (s ∷ rest) (suc slot) client h real =
      ground (arith, occupied-take rest slot client h real)

  pub occupied-replicate : (n : ℕ) → occupied (replicate n invalid_socket) ≡ 0
  occupied-replicate zero = refl
  occupied-replicate (suc n) = ground (arith, occupied-replicate n)

  abbrev taken : ℕ → ℕ
  taken s = if s == invalid_socket then 0 else 1

  visit_count :
      (send : Send) (bytes : List ℕ) (sock n : ℕ) (up : Bool) (others : ℕ)
      → n ≡ taken sock + others
      → up ≡ not (n == 0)
      → let v = visit invalid_socket send bytes sock n up in
        (v.count ≡ taken v.slot + others) × (v.connected ≡ not (v.count == 0))
  unfolding visit
  visit_count send bytes sock n up others e l = ground arith

  -- A sweep gives up as many counts as slots; `k` counts the slots before.
  sweep_count :
      (send : Send) (bytes clients : List ℕ) (k n : ℕ) (up : Bool)
      → n ≡ k + occupied clients
      → up ≡ not (n == 0)
      → let s = sweep invalid_socket send bytes clients n up in
        (s.count ≡ k + occupied s.slots)
        × (s.connected ≡ not (s.count == 0))
        × (length s.slots ≡ length clients)
  unfolding sweep
  sweep_count send bytes [] k n up e l = ground arith
  sweep_count send bytes (sock ∷ rest) k n up e l =
      let v = visit invalid_socket send bytes sock n up in
      ground (
        arith,
        visit_count send bytes sock n up (occupied rest + k) (omega arith) l,
        sweep_count send bytes rest (k + taken v.slot) v.count v.connected,
      )

  linked_after :
      (n : ℕ) (up : Bool)
      → 0 < n
      → up ≡ not (n == 0)
      → (if (n - 1) == 0 then false else up) ≡ not ((n - 1) == 0)
  linked_after n up h e = ground arith

  receive-IsConsistent :
      {p : Port} (bytes : List ℕ)
      → IsConsistent p
      → IsConsistent (record p { rx = Ring.data_in p.rx bytes })
  receive-IsConsistent bytes c = record {
    counted = c.counted;
    linked = c.linked;
    slots = c.slots;
    rx_valid = (data_in_lem bytes c.rx_valid).0;
    tx_valid = c.tx_valid;
  }

  end_cli_session-IsConsistent : {p : Port} → IsConsistent p → IsConsistent (end_cli_session p)
  unfolding end_cli_session
  end_cli_session-IsConsistent {p} c =
      if_both IsConsistent (p.client_count == 0) (receive-IsConsistent exit_cli_cmd c) c

  release_slot-IsConsistent :
      {p : Port} (slot sock : ℕ)
      → holds p.clients slot sock ≡ true
      → sock ≢ invalid_socket
      → IsConsistent p
      → IsConsistent (release_slot invalid_socket p slot)
  unfolding release_slot
  release_slot-IsConsistent {p} slot sock held real c = record {
    counted = omega (arith, c.counted, occupied-release p.clients slot sock held real);
    linked = linked_after p.client_count p.connected positive c.linked;
    slots = length-set p.clients slot invalid_socket ∙ c.slots;
    rx_valid = c.rx_valid;
    tx_valid = c.tx_valid;
  }
    where
      positive : 0 < p.client_count
      positive = omega (arith, c.counted, occupied-release p.clients slot sock held real)

  disconnect-IsConsistent :
      {p : Port} (slot sock : ℕ)
      → sock ≢ invalid_socket
      → IsConsistent p
      → IsConsistent (disconnect invalid_socket p slot sock).0
  unfolding disconnect
  disconnect-IsConsistent {p} slot sock real c = elim (Bool-cases (holds p.clients slot sock)) [
    | inr stale ↦ rw stale c
    | inl held ↦
        rw held (end_cli_session-IsConsistent (release_slot-IsConsistent slot sock held real c))
  ]

  accept_client-IsConsistent :
      {p : Port} (client : ℕ) (allocated started : Bool)
      → client ≢ invalid_socket
      → IsConsistent p
      → IsConsistent (accept_client invalid_socket p client allocated started).0
  unfolding accept_client
  accept_client-IsConsistent {p} client allocated started real c =
      elim (Option-cases (free_slot invalid_socket p.clients)) [
        | inl full ↦ rw (full, accept_client) c
        | inr (slot, free) ↦
            let q = take_slot invalid_socket p slot client in
            let taken : IsConsistent q = ground (
              arith,
              free_slot_lem p.clients slot free,
              occupied-take p.clients slot client,
              length-set p.clients slot client,
            ) in
            rw (free, accept_client)
              (ground (arith, taken, disconnect-IsConsistent {p = q} slot client real taken))
      ]

  drop_clients-IsConsistent :
      {p : Port} → IsConsistent p → IsConsistent (drop_clients invalid_socket p).0
  unfolding drop_clients
  drop_clients-IsConsistent {p} c = ground (
    arith,
    occupied-replicate (length p.clients),
    length-replicate (length p.clients) invalid_socket,
  )

  flush-IsConsistent :
      {p : Port} (send : Send) (d : List ℕ × Ring)
      → IsValid d.1
      → IsConsistent p
      → IsConsistent (flush invalid_socket send p d).0.0
  unfolding flush
  flush-IsConsistent send ([], tx) v c = record {
    counted = c.counted;
    linked = c.linked;
    slots = c.slots;
    rx_valid = c.rx_valid;
    tx_valid = v;
  }
  flush-IsConsistent {p} send (b ∷ bytes, tx) v c =
      let (n, l, k) =
        sweep_count send (b ∷ bytes) p.clients 0 p.client_count p.connected
          (omega (arith, c.counted)) c.linked in
      record {
        counted = omega (arith, n);
        linked = l;
        slots = k ∙ c.slots;
        rx_valid = c.rx_valid;
        tx_valid = v;
      }

  data_out-IsConsistent :
      {p : Port} (send : Send) → IsConsistent p → IsConsistent (data_out invalid_socket send p).0.0
  unfolding data_out
  data_out-IsConsistent {p} send c =
      flush-IsConsistent send (Ring.drain p.tx) (drain_lem c.tx_valid).2 c

  retransmit-IsConsistent :
      {p : Port} (tx : Ring) → IsValid tx → IsConsistent p → IsConsistent (record p { tx = tx })
  retransmit-IsConsistent tx v c = record {
    counted = c.counted;
    linked = c.linked;
    slots = c.slots;
    rx_valid = c.rx_valid;
    tx_valid = v;
  }

  -- Every call keeps a port consistent: `clientCount` is the number of taken slots, `connected`
  -- says whether there is one, and both rings stay valid.
  pub step-IsConsistent :
      {p : Port} (e : Event)
      → IsRealSocket e
      → IsConsistent p
      → IsConsistent (step invalid_socket p e).0
  unfolding step
  step-IsConsistent (accepts client allocated started) real c =
      accept_client-IsConsistent client allocated started real c
  step-IsConsistent (disconnects slot sock) real c = disconnect-IsConsistent slot sock real c
  step-IsConsistent (receives bytes) real c = receive-IsConsistent bytes c
  step-IsConsistent reads real c = record {
    counted = c.counted;
    linked = c.linked;
    slots = c.slots;
    rx_valid = read-IsValid c.rx_valid;
    tx_valid = c.tx_valid;
  }
  step-IsConsistent (writes_byte send ch) real c =
      data_out-IsConsistent send (retransmit-IsConsistent _ (store-IsValid ch c.tx_valid) c)
  step-IsConsistent (writes send bytes) real c =
      data_out-IsConsistent send (retransmit-IsConsistent _ (write_buf-IsValid bytes c.tx_valid) c)
  step-IsConsistent drops real c = drop_clients-IsConsistent c
