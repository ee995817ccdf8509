-- ===== src/WsProxy/Client/Closing.antt =====
-- What a client's thread closes.
use betaflight_sitl_udp.Base.{
  ℕ, zero, suc, ◌==◌, ◌≡◌, ◌≢◌, refl, sym, ◌∙◌, ap, Bool, true, false, List, [], ◌∷◌, ◌++◌,
  if◌then◌else◌, arith, if_split, if_both, append_assoc, append-nil, has_byte, ==_refl, ==_iff,
  ◌||◌,
}
use betaflight_sitl_udp.WsProxy.Session.{
  Session, Table, session_add, session_set_upstream, run, drop_clients, close_one,
}
use betaflight_sitl_udp.WsProxy.Client.{
  Attempt, Course, Ended, max_attempts, connect_rounds, stream_and_close, client_thread,
}

module _ (invalid_socket : ℕ) where
  -- What was created on the way is closed, or is the socket that is left.
  abbrev IsEven : ℕ × (List ℕ × List ℕ) → Type 0
  IsEven (tcp, (created, closed)) = created ≡ closed ++ close_one invalid_socket tcp

  connect_rounds-IsEven :
      (attempts : ℕ → Attempt) (i left : ℕ) → IsEven (connect_rounds invalid_socket attempts i left)
  unfolding connect_rounds
  connect_rounds-IsEven attempts i zero = ground (arith, ==_refl invalid_socket)
  connect_rounds-IsEven attempts i (suc left) =
      let a = attempts i in
      let later = connect_rounds-IsEven attempts (suc i) left in
      if_both IsEven a.stopping (ground (arith, ==_refl invalid_socket)) (
        if_split IsEven (a.created == invalid_socket) (λ none. later)
          (λ valid.
            if_both IsEven a.connects (ap (λ b. if b then [] else a.created ∷ []) (sym valid))
              (ap (◌∷◌ a.created) later)))

  stream_and_close-closed :
      (c : Course) (ws : ℕ) (t : Table) (r : ℕ × (List ℕ × List ℕ))
      → IsEven r
      → let e = stream_and_close invalid_socket c ws t r in e.closed ≡ e.created ++ (ws ∷ [])
  unfolding stream_and_close
  stream_and_close-closed c ws t (tcp, (created, closed)) even =
      let left : (b : Bool)
          → (tcp == invalid_socket) ≡ b
          → created ≡ closed ++ (if b then [] else tcp ∷ []) =
        λ b e. even ∙ ap (λ test. closed ++ (if test then [] else tcp ∷ [])) e in
      if_split (λ (e : Ended). e.closed ≡ e.created ++ (ws ∷ [])) (tcp == invalid_socket)
        (λ none. ap (λ l. l ++ (ws ∷ [])) (sym (left true none ∙ append-nil closed)))
        (λ valid.
          sym (
            ap (λ l. l ++ (ws ∷ [])) (left false valid) ∙ append_assoc closed (tcp ∷ []) (ws ∷ [])))

  -- However the handshake and the attempts go, and whatever other threads do to the table, the thread of
  -- a client closes each socket that it created, and the client's at last, exactly once.
  pub client_thread-closed :
      (c : Course) (ws : ℕ) (t : Table)
      → let e = client_thread invalid_socket c ws t in e.closed ≡ e.created ++ (ws ∷ [])
  unfolding client_thread
  client_thread-closed c ws t =
      if_both (λ (e : Ended). e.closed ≡ e.created ++ (ws ∷ [])) c.handshake
        (stream_and_close-closed c ws
          (run invalid_socket (run invalid_socket (session_add invalid_socket ws t) c.before)
            c.meanwhile)
          (connect_rounds invalid_socket c.attempts 0 max_attempts)
          (connect_rounds-IsEven c.attempts 0 max_attempts))
        refl

  -- Whether a slot is free, and whether a socket has one.
  abbrev pub has_free : Table → Bool
  has_free [] = false
  has_free (s ∷ t) = let rest = has_free t in if s.ws == invalid_socket then true else rest

  abbrev pub is_known : ℕ → Table → Bool
  is_known ws [] = false
  is_known ws (s ∷ t) = let rest = is_known ws t in if s.ws == ws then true else rest

  has_byte-append :
      (c : ℕ) (xs ys : List ℕ) → has_byte c (xs ++ ys) ≡ (has_byte c xs || has_byte c ys)
  has_byte-append c [] ys = refl
  has_byte-append c (x ∷ xs) ys = ground (arith, has_byte-append c xs ys)

  -- The sockets that a drop closes.
  abbrev pub dropped : Table → List ℕ
  dropped t = (drop_clients invalid_socket t).1

  has_byte-later :
      (c a b : ℕ) (rest : List ℕ)
      → has_byte c rest ≡ true
      → has_byte c (close_one invalid_socket a ++ (close_one invalid_socket b ++ rest)) ≡ true
  has_byte-later c a b rest h = ground arith

  Closes : ℕ → ℕ → Table → Type 0
  Closes ws tcp t = (has_byte ws (dropped t) ≡ true) × (has_byte tcp (dropped t) ≡ true)

  Closes-first :
      (ws tcp : ℕ) (t : Table)
      → ws ≢ invalid_socket
      → tcp ≢ invalid_socket
      → Closes ws tcp (record { ws = ws; tcp = tcp } ∷ t)
  unfolding Closes drop_clients
  Closes-first ws tcp t valid valid' = (ground (arith, ==_refl ws), ground (arith, ==_refl tcp))

  Closes-later : (ws tcp : ℕ) (s : Session) (t : Table) → Closes ws tcp t → Closes ws tcp (s ∷ t)
  unfolding Closes drop_clients
  Closes-later ws tcp s t (first, second) = (
    has_byte-later ws s.ws s.tcp (dropped t) first,
    has_byte-later tcp s.ws s.tcp (dropped t) second,
  )

  add_and_link :
      (ws tcp : ℕ) (t : Table)
      → ws ≢ invalid_socket
      → tcp ≢ invalid_socket
      → has_free t ≡ true
      → is_known ws t ≡ false
      → Closes ws tcp (session_set_upstream ws tcp (session_add invalid_socket ws t))
  unfolding session_set_upstream session_add
  add_and_link ws tcp [] valid valid' free new = absurd (cc free)
  add_and_link ws tcp (s ∷ t) valid valid' free new =
      if_split (λ t'. Closes ws tcp (session_set_upstream ws tcp t')) (s.ws == invalid_socket)
        (λ here.
          if_split (Closes ws tcp) (ws == ws) (λ same. Closes-first ws tcp t valid valid')
            (λ other. absurd (ground (arith, ==_refl ws))))
        (λ taken.
          if_split (Closes ws tcp) (s.ws == ws) (λ same. absurd (ground arith))
            (λ other.
              Closes-later ws tcp s (session_set_upstream ws tcp (session_add invalid_socket ws t))
                (add_and_link ws tcp t valid valid' (ground arith) (ground arith))))

  not_same : (a b : ℕ) → a ≢ b → (a == b) ≡ false
  not_same a b differ = ground arith

  connect_first :
      (attempts : ℕ → Attempt) (i left tcp : ℕ)
      → tcp ≢ invalid_socket
      → attempts i ≡ record { stopping = false; created = tcp; connects = true }
      → connect_rounds invalid_socket attempts i (suc left) ≡ (tcp, (tcp ∷ [], []))
  unfolding connect_rounds
  connect_first attempts i left tcp valid first =
      let later = connect_rounds invalid_socket attempts (suc i) left in
      let go : Bool → Attempt → ℕ × (List ℕ × List ℕ) = λ none a.
        if a.stopping
        then (invalid_socket, ([], []))
        else (if none
            then (later.0, (later.1.0, later.1.1))
            else (if a.connects
                then (a.created, (a.created ∷ [], []))
                else (later.0, (a.created ∷ later.1.0, a.created ∷ later.1.1)))) in
      ap (λ (a : Attempt). go (a.created == invalid_socket) a) first
      ∙ ap (λ b. go b (record { stopping = false; created = tcp; connects = true }))
          (not_same tcp invalid_socket valid)

  streamed_closed :
      (c : Course) (ws tcp : ℕ) (t : Table)
      → tcp ≢ invalid_socket
      → (stream_and_close invalid_socket c ws t (tcp, (tcp ∷ [], []))).closed ≡ tcp ∷ (ws ∷ [])
  unfolding stream_and_close
  streamed_closed c ws tcp t valid =
      if_split (λ (e : Ended). e.closed ≡ tcp ∷ (ws ∷ [])) (tcp == invalid_socket)
        (λ same. absurd (valid ((==_iff tcp invalid_socket).0 same))) (λ other. refl)

  -- A client that streams when the sessions are dropped has its two sockets closed twice: where the
  -- table has a free slot and none of the client's, and the first attempt connects, a drop on the table
  -- as the thread leaves it, with nothing changed in between, closes both sockets, and the thread closes
  -- the same two when it ends.
  pub drop_closes_twice :
      (c : Course) (ws tcp : ℕ) (t : Table)
      → ws ≢ invalid_socket
      → tcp ≢ invalid_socket
      → has_free t ≡ true
      → is_known ws t ≡ false
      → c.handshake ≡ true
      → c.attempts 0 ≡ record { stopping = false; created = tcp; connects = true }
      → let linked = session_set_upstream ws tcp (session_add invalid_socket ws t) in
        (has_byte ws (drop_clients invalid_socket linked).1 ≡ true)
        × (has_byte tcp (drop_clients invalid_socket linked).1 ≡ true)
        × ((client_thread invalid_socket c ws t).closed ≡ tcp ∷ (ws ∷ []))
  unfolding Closes client_thread
  drop_closes_twice c ws tcp t valid valid' free new hands first =
      let both = add_and_link ws tcp t valid valid' free new in
      let table =
        run invalid_socket (run invalid_socket (session_add invalid_socket ws t) c.before)
          c.meanwhile in
      let closed : (client_thread invalid_socket c ws t).closed ≡ tcp ∷ (ws ∷ []) =
        if_split (λ (e : Ended). e.closed ≡ tcp ∷ (ws ∷ [])) c.handshake
          (λ shook.
            ap (λ r. (stream_and_close invalid_socket c ws table r).closed)
              (connect_first c.attempts 0 49 tcp valid' first)
            ∙ streamed_closed c ws tcp table valid')
          (λ failed. absurd (cc (hands, failed))) in
      (both.0, both.1, closed)
