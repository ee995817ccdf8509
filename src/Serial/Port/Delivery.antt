-- ===== src/Serial/Port/Delivery.antt =====
-- What the clients of a port are sent.
use betaflight_sitl_udp.Base.{
  ℕ, zero, suc, ◌≤◌, ◌≡◌, ◌≢◌, ◌==◌, refl, Bool, true, false, List, [], ◌∷◌, ◌++◌, if◌then◌else◌,
  arith, length, take, drop, take-append-drop, append_assoc, length-drop, ap, sym, Option-cases,
  inl, inr, ◌∙◌,
}
use betaflight_sitl_udp.Serial.Ring
use betaflight_sitl_udp.Serial.Ring.{Ring}
use betaflight_sitl_udp.Serial.Ring.Queue.{contents, IsValid, store-IsValid}
use betaflight_sitl_udp.Serial.Ring.Transfer.{room, drain_lem, write_buf_lem, write_buf-IsValid}
use betaflight_sitl_udp.Serial.Port.{
  Port, Sent, would_block, failed, count, Send, Event, accepts, disconnects, receives, reads,
  writes_byte, writes, drops, resume, send_loop, send_data, visit, sweep, flush, disconnect,
  end_cli_session, release_slot, take_slot, accept_client, free_slot, drop_clients, data_out, write,
  write_buf, step,
}
use betaflight_sitl_udp.Serial.Port.Invariant.{IsConsistent}
use mathlib.Core.Path.{fun_ext}

-- The rounds of the send loop never run out: with fuel for every byte, more fuel changes nothing.
send_loop_fuel :
    (send : Send) (m n sock : ℕ) (bytes : List ℕ)
    → length bytes ≤ m
    → length bytes ≤ n
    → send_loop send m sock bytes ≡ send_loop send n sock bytes
unfolding send_loop
send_loop_fuel send zero zero sock bytes h k = refl
send_loop_fuel send zero (suc n) sock [] h k = refl
send_loop_fuel send zero (suc n) sock (b ∷ bytes) h k = absurd (omega arith)
send_loop_fuel send (suc m) zero sock [] h k = refl
send_loop_fuel send (suc m) zero sock (b ∷ bytes) h k = absurd (omega arith)
send_loop_fuel send (suc m) (suc n) sock [] h k = refl
send_loop_fuel send (suc m) (suc n) sock (b ∷ bytes) h k =
    ap (resume (send sock (b ∷ bytes)) (b ∷ bytes)) (
      fun_ext (λ i.
        send_loop_fuel send m n sock (drop i bytes) (omega (arith, length-drop i bytes))
          (omega (arith, length-drop i bytes))))

resume_prefix :
    (r : Sent) (b : ℕ) (bytes : List ℕ) (more : ℕ → Bool × List ℕ)
    → ((n : ℕ) → (rest : List ℕ) × ((more n).1 ++ rest ≡ drop n bytes))
    → (rest : List ℕ) × ((resume r (b ∷ bytes) more).1 ++ rest ≡ b ∷ bytes)
unfolding resume
resume_prefix would_block b bytes more h = (b ∷ bytes, refl)
resume_prefix failed b bytes more h = (b ∷ bytes, refl)
resume_prefix (count zero) b bytes more h = (b ∷ bytes, refl)
resume_prefix (count (suc n)) b bytes more h =
    let (rest, e) = h n in
    (
      rest,
      ap (◌∷◌ b) (
          append_assoc (take n bytes) (more n).1 rest
          ∙ ap (◌++◌ (take n bytes)) e
          ∙ take-append-drop n bytes),
    )

send_loop_prefix :
    (send : Send) (fuel sock : ℕ) (bytes : List ℕ)
    → (rest : List ℕ) × ((send_loop send fuel sock bytes).1 ++ rest ≡ bytes)
unfolding send_loop
send_loop_prefix send zero sock bytes = (bytes, refl)
send_loop_prefix send (suc fuel) sock [] = ([], refl)
send_loop_prefix send (suc fuel) sock (b ∷ bytes) =
    resume_prefix (send sock (b ∷ bytes)) b bytes _
      (λ n. send_loop_prefix send fuel sock (drop n bytes))

send_loop_whole :
    (send : Send) (fuel sock : ℕ) (bytes : List ℕ)
    → ((d : List ℕ) → (n : ℕ) × (send sock d ≡ count (suc n)))
    → length bytes ≤ fuel
    → send_loop send fuel sock bytes ≡ (false, bytes)
unfolding send_loop
send_loop_whole send zero sock [] takes h = refl
send_loop_whole send zero sock (b ∷ bytes) takes h = absurd (omega arith)
send_loop_whole send (suc fuel) sock [] takes h = refl
send_loop_whole send (suc fuel) sock (b ∷ bytes) takes h =
    let (n, e) = takes (b ∷ bytes) in
    rw
      (
        e,
        resume,
        send_loop_whole send fuel sock (drop n bytes) takes (omega (arith, length-drop n bytes)),
      )
      (ap (λ d. (false, b ∷ d)) (take-append-drop n bytes))

-- What `send` took of a packet is a prefix of it, whatever the network answers.
pub send_data_prefix :
    (send : Send) (sock : ℕ) (bytes : List ℕ)
    → (rest : List ℕ) × ((send_data send sock bytes).1 ++ rest ≡ bytes)
unfolding send_data
send_data_prefix send sock bytes = send_loop_prefix send (length bytes) sock bytes

-- A client whose socket takes a byte at least on every call gets the whole packet.
pub send_data_whole :
    (send : Send) (sock : ℕ) (bytes : List ℕ)
    → ((d : List ℕ) → (n : ℕ) × (send sock d ≡ count (suc n)))
    → send_data send sock bytes ≡ (false, bytes)
unfolding send_data
send_data_whole send sock bytes takes =
    send_loop_whole send (length bytes) sock bytes takes (omega arith)

-- What the socket takes of a packet, told by the answers of `send` alone: it is asked again for the
-- bytes that are left until all are taken, or until it takes nothing, would block or fails, and only
-- the failure is a failure of the client. The first index is the packet, the second whether the socket
-- failed, the third what it took.
pub data Takes (send : Send) (sock : ℕ) : List ℕ → Bool → List ℕ → Type 0 where
  all_taken : Takes send sock [] false []
  blocked :
      {b : ℕ} {bytes : List ℕ}
      → send sock (b ∷ bytes) ≡ would_block
      → Takes send sock (b ∷ bytes) false []
  broken :
      {b : ℕ} {bytes : List ℕ}
      → send sock (b ∷ bytes) ≡ failed
      → Takes send sock (b ∷ bytes) true []
  took_none :
      {b : ℕ} {bytes : List ℕ}
      → send sock (b ∷ bytes) ≡ count zero
      → Takes send sock (b ∷ bytes) false []
  took_some :
      {b : ℕ} {bytes taken : List ℕ} {is_failed : Bool} (n : ℕ)
      → send sock (b ∷ bytes) ≡ count (suc n)
      → Takes send sock (drop n bytes) is_failed taken
      → Takes send sock (b ∷ bytes) is_failed (b ∷ take n bytes ++ taken)

resume-Takes :
    (send : Send) (sock : ℕ) (r : Sent) (b : ℕ) (bytes : List ℕ) (more : ℕ → Bool × List ℕ)
    → send sock (b ∷ bytes) ≡ r
    → ((n : ℕ) → Takes send sock (drop n bytes) (more n).0 (more n).1)
    → let (is_failed, taken) = resume r (b ∷ bytes) more in
      Takes send sock (b ∷ bytes) is_failed taken
unfolding resume
resume-Takes send sock would_block b bytes more e h = blocked e
resume-Takes send sock failed b bytes more e h = broken e
resume-Takes send sock (count zero) b bytes more e h = took_none e
resume-Takes send sock (count (suc n)) b bytes more e h = took_some n e (h n)

send_loop-Takes :
    (send : Send) (fuel sock : ℕ) (bytes : List ℕ)
    → length bytes ≤ fuel
    → let (is_failed, taken) = send_loop send fuel sock bytes in
      Takes send sock bytes is_failed taken
unfolding send_loop
send_loop-Takes send zero sock [] h = all_taken
send_loop-Takes send zero sock (b ∷ bytes) h = absurd (omega arith)
send_loop-Takes send (suc fuel) sock [] h = all_taken
send_loop-Takes send (suc fuel) sock (b ∷ bytes) h =
    resume-Takes send sock (send sock (b ∷ bytes)) b bytes _ refl
      (λ n. send_loop-Takes send fuel sock (drop n bytes) (omega (arith, length-drop n bytes)))

send_data-Takes :
    (send : Send) (sock : ℕ) (bytes : List ℕ)
    → let (is_failed, taken) = send_data send sock bytes in Takes send sock bytes is_failed taken
unfolding send_data
send_data-Takes send sock bytes = send_loop-Takes send (length bytes) sock bytes (omega arith)

module _ (invalid_socket : ℕ) where
  -- The clients that a packet goes to, with what each took of it, where `outcome` says of each socket
  -- whether it failed and what it took.
  abbrev pub deliveries : (ℕ → Bool × List ℕ) → List ℕ → List (ℕ × List ℕ)
  deliveries outcome [] = []
  deliveries outcome (s ∷ rest) =
      if s == invalid_socket
      then deliveries outcome rest
      else (s, (outcome s).1) ∷ deliveries outcome rest

  -- The slots after a packet: those whose socket failed are given up, and no other.
  abbrev pub surviving : (ℕ → Bool × List ℕ) → List ℕ → List ℕ
  surviving outcome [] = []
  surviving outcome (s ∷ rest) =
      (if (outcome s).0 then invalid_socket else s) ∷ surviving outcome rest

  visit_lem :
      (send : Send) (bytes : List ℕ) (sock n : ℕ) (up : Bool)
      → let v = visit invalid_socket send bytes sock n up in
        (v.delivered
          ≡ (if sock == invalid_socket then [] else (sock, (send_data send sock bytes).1) ∷ []))
        × (v.slot ≡ (if (send_data send sock bytes).0 then invalid_socket else sock))
  unfolding visit
  visit_lem send bytes sock n up = ground arith

  sweep_lem :
      (send : Send) (bytes clients : List ℕ) (n : ℕ) (up : Bool)
      → let w = sweep invalid_socket send bytes clients n up in
        (w.delivered ≡ deliveries (λ s. send_data send s bytes) clients)
        × (w.slots ≡ surviving (λ s. send_data send s bytes) clients)
  unfolding sweep
  sweep_lem send bytes [] n up = (refl, refl)
  sweep_lem send bytes (sock ∷ rest) n up =
      let v = visit invalid_socket send bytes sock n up in
      ground (arith, visit_lem send bytes sock n up, sweep_lem send bytes rest v.count v.connected)

  flush_lem :
      (send : Send) (p : Port) (d : List ℕ × Ring) (bytes : List ℕ)
      → bytes ≢ []
      → d.0 ≡ bytes
      → let ((q, closed), sent) = flush invalid_socket send p d in
        (sent ≡ deliveries (λ s. send_data send s bytes) p.clients)
        × (q.clients ≡ surviving (λ s. send_data send s bytes) p.clients)
        × (q.tx ≡ d.1)
  unfolding flush
  flush_lem send p ([], tx) bytes ne e = absurd (ne (sym e))
  flush_lem send p (c ∷ cs, tx) bytes ne e =
      let (d, s) = sweep_lem send (c ∷ cs) p.clients p.client_count p.connected in
      (
        d ∙ ap (λ l. deliveries (λ s. send_data send s l) p.clients) e,
        s ∙ ap (λ l. surviving (λ s. send_data send s l) p.clients) e,
        refl,
      )

  tx-flush :
      (send : Send) (p : Port) (d : List ℕ × Ring) → (flush invalid_socket send p d).0.0.tx ≡ d.1
  unfolding flush
  tx-flush send p ([], tx) = refl
  tx-flush send p (c ∷ cs, tx) = refl

  tx-disconnect : (p : Port) (slot sock : ℕ) → (disconnect invalid_socket p slot sock).0.tx ≡ p.tx
  unfolding disconnect end_cli_session release_slot
  tx-disconnect p slot sock = ground arith

  tx-accept_client :
      (p : Port) (client : ℕ) (allocated started : Bool)
      → (accept_client invalid_socket p client allocated started).0.tx ≡ p.tx
  unfolding accept_client take_slot
  tx-accept_client p client allocated started =
      elim (Option-cases (free_slot invalid_socket p.clients)) [
        | inl full ↦ rw (full, accept_client) refl
        | inr (slot, free) ↦
            rw (free, accept_client)
              (ground (arith, tx-disconnect (take_slot invalid_socket p slot client) slot client))
      ]

  tx-data_out :
      (send : Send) (p : Port)
      → IsValid p.tx
      → contents (data_out invalid_socket send p).0.0.tx ≡ []
  unfolding data_out
  tx-data_out send p v = ap contents (tx-flush send p (Ring.drain p.tx)) ∙ (drain_lem v).3

-- Between the calls nothing waits to be sent: every call leaves the transmit ring empty if it finds
-- it so.
pub step-tx_empty :
    (invalid_socket : ℕ) (p : Port) (e : Event)
    → IsConsistent invalid_socket p
    → contents p.tx ≡ []
    → contents (step invalid_socket p e).0.tx ≡ []
unfolding step write write_buf drop_clients
step-tx_empty i p (accepts client allocated started) c h =
    ap contents (tx-accept_client i p client allocated started) ∙ h
step-tx_empty i p (disconnects slot sock) c h = ap contents (tx-disconnect i p slot sock) ∙ h
step-tx_empty i p (receives bytes) c h = h
step-tx_empty i p reads c h = h
step-tx_empty i p (writes_byte send ch) c h = tx-data_out i send _ (store-IsValid ch c.tx_valid)
step-tx_empty i p (writes send bytes) c h =
    tx-data_out i send _ (write_buf-IsValid bytes c.tx_valid)
step-tx_empty i p drops c h = h

-- On a consistent port, let a packet that is not empty fit the empty transmit ring. Then every client
-- in turn is handed the whole packet: its socket is asked again for the bytes that are left until all
-- are taken, or until it takes nothing, would block or fails. What a client takes depends on its own
-- socket alone, a client loses its slot exactly if its socket fails, and nothing stays in the ring.
pub write_buf_delivers :
    (invalid_socket : ℕ) (send : Send) (p : Port) (bytes : List ℕ)
    → IsConsistent invalid_socket p
    → contents p.tx ≡ []
    → bytes ≢ []
    → length bytes ≤ room p.tx
    → let ((q, closed), sent) = write_buf invalid_socket send bytes p in
      (outcome : ℕ → Bool × List ℕ) × ((s : ℕ) → Takes send s bytes (outcome s).0 (outcome s).1)
      × (sent ≡ deliveries invalid_socket outcome p.clients)
      × (q.clients ≡ surviving invalid_socket outcome p.clients)
      × (contents q.tx ≡ [])
unfolding write_buf data_out
write_buf_delivers i send p bytes c empty ne fits =
    let (v, e) = write_buf_lem bytes c.tx_valid fits in
    let (out, short, valid, none_left) = drain_lem v in
    let (sent, kept, tx) =
      flush_lem i send (record p { tx = Ring.write_buf p.tx bytes })
        (Ring.drain (Ring.write_buf p.tx bytes)) bytes ne (out ∙ e ∙ ap (λ l. l ++ bytes) empty) in
    (
      (λ s. send_data send s bytes),
      (λ s. send_data-Takes send s bytes),
      sent,
      kept,
      ap contents tx ∙ none_left,
    )
