-- ===== src/WsProxy/Session/Tracking.antt =====
-- Which sessions `wsProxyDropClients` can close.
use betaflight_sitl_udp.Base.{
  ℕ, zero, suc, ◌+◌, ◌-◌, ◌≤◌, ◌≡◌, ◌≢◌, ◌==◌, refl, ◌∙◌, ap, List, [], ◌∷◌, ◌++◌, if◌then◌else◌,
  arith, length, replicate,
}
use betaflight_sitl_udp.Serial.Port.Sockets.{occurrences, occurrences-append}
use betaflight_sitl_udp.WsProxy.Session.{
  Table, ws_client_slots, initial, session_add, session_set_upstream, session_remove, close_one,
  drop_clients, Event, adds, links, removes, run,
}

-- How often a socket stands in the table.
abbrev pub tracked : ℕ → Table → ℕ
tracked s [] = 0
tracked s (e ∷ rest) = (if e.ws == s then 1 else 0) + (if e.tcp == s then 1 else 0) + tracked s rest

abbrev pub free_slots : ℕ → Table → ℕ
free_slots i [] = 0
free_slots i (e ∷ rest) = (if e.ws == i then 1 else 0) + free_slots i rest

-- `wsProxyDropClients` closes each socket as often as the table holds it, and leaves every slot free.
pub drop_clients_lem :
    (invalid_socket s : ℕ) (t : Table)
    → s ≢ invalid_socket
    → let (cleared, closed) = drop_clients invalid_socket t in
      (occurrences s closed ≡ tracked s t)
      × (tracked s cleared ≡ 0)
      × (free_slots invalid_socket cleared ≡ length t)
unfolding drop_clients
drop_clients_lem i s [] real = (refl, refl, refl)
drop_clients_lem i s (e ∷ rest) real = ground (
  arith,
  drop_clients_lem i s rest real,
  occurrences-append s (close_one i e.ws) (close_one i e.tcp ++ (drop_clients i rest).1),
  occurrences-append s (close_one i e.tcp) (drop_clients i rest).1,
)

-- How many slots a client socket stands in.
abbrev pub sessions_of : ℕ → Table → ℕ
sessions_of s [] = 0
sessions_of s (e ∷ rest) = (if e.ws == s then 1 else 0) + sessions_of s rest

-- `wsSessionAdd` records the session in one more slot if a slot is free, and not at all otherwise; no
-- other session is touched.
pub session_add_lem :
    (invalid_socket ws s : ℕ) (t : Table)
    → ws ≢ invalid_socket
    → s ≢ invalid_socket
    → let u = session_add invalid_socket ws t in
      (sessions_of s u
        ≡ sessions_of s t
          + (if free_slots invalid_socket t == 0 then 0 else (if ws == s then 1 else 0)))
      × (free_slots invalid_socket u ≡ free_slots invalid_socket t - 1)
unfolding session_add
session_add_lem i ws s [] real live = omega arith
session_add_lem i ws s (e ∷ rest) real live = ground (arith, session_add_lem i ws s rest real live)

abbrev pub add_all : ℕ → List ℕ → Table → Table
add_all i [] t = t
add_all i (ws ∷ more) t = add_all i more (session_add i ws t)

abbrev pub AllReal : ℕ → List ℕ → Type 0
AllReal i [] = Unit
AllReal i (ws ∷ more) = (ws ≢ i) × AllReal i more

add_all_lem :
    (i s : ℕ) (sockets : List ℕ) (t : Table)
    → AllReal i sockets
    → s ≢ i
    → length sockets ≤ free_slots i t
    → sessions_of s (add_all i sockets t) ≡ sessions_of s t + occurrences s sockets
add_all_lem i s [] t real live h = omega arith
add_all_lem i s (ws ∷ more) t real live h = ground (
  arith,
  session_add_lem i ws s t real.0 live,
  add_all_lem i s more (session_add i ws t) real.1 live,
)

sessions-le-tracked : (s : ℕ) (t : Table) → sessions_of s t ≤ tracked s t
sessions-le-tracked s [] = omega arith
sessions-le-tracked s (e ∷ rest) = ground (arith, sessions-le-tracked s rest)

-- Once a drop has run, up to as many new sessions as there are slots are all recorded, so that the
-- next drop closes each of their sockets.
pub add_all-drop_clients :
    (invalid_socket s : ℕ) (t : Table) (sockets : List ℕ)
    → AllReal invalid_socket sockets
    → s ≢ invalid_socket
    → length sockets ≤ length t
    → let dropped = (drop_clients invalid_socket t).0 in
      occurrences s sockets
      ≤ occurrences s (drop_clients invalid_socket (add_all invalid_socket sockets dropped)).1
add_all-drop_clients i s t sockets real live h =
    let (_, _, free) = drop_clients_lem i s t live in
    let dropped = (drop_clients i t).0 in
    omega (
      arith,
      add_all_lem i s sockets dropped real live (omega arith),
      sessions-le-tracked s (add_all i sockets dropped),
      drop_clients_lem i s (add_all i sockets dropped) live,
    )

-- The client sockets of the events are none of them zero.
abbrev pub NonZero : List Event → Type 0
NonZero [] = Unit
NonZero (adds ws ∷ more) = (ws ≢ 0) × NonZero more
NonZero (links ws tcp ∷ more) = (ws ≢ 0) × NonZero more
NonZero (removes ws ∷ more) = (ws ≢ 0) × NonZero more

zeros : ℕ → Table
zeros n = replicate n (record { ws = 0; tcp = 0 })

session_add-zeros : (i ws n : ℕ) → i ≢ 0 → session_add i ws (zeros n) ≡ zeros n
unfolding session_add zeros
session_add-zeros i ws zero h = refl
session_add-zeros i ws (suc n) h = ground (arith, session_add-zeros i ws n h)

session_set_upstream-zeros :
    (ws tcp n : ℕ) → ws ≢ 0 → session_set_upstream ws tcp (zeros n) ≡ zeros n
unfolding session_set_upstream zeros
session_set_upstream-zeros ws tcp zero h = refl
session_set_upstream-zeros ws tcp (suc n) h = ground (arith, session_set_upstream-zeros ws tcp n h)

session_remove-zeros : (i ws n : ℕ) → ws ≢ 0 → session_remove i ws (zeros n) ≡ zeros n
unfolding session_remove zeros
session_remove-zeros i ws zero h = refl
session_remove-zeros i ws (suc n) h = ground (arith, session_remove-zeros i ws n h)

run-zeros :
    (i n : ℕ) (events : List Event) → i ≢ 0 → NonZero events → run i (zeros n) events ≡ zeros n
unfolding run
run-zeros i n [] h k = refl
run-zeros i n (adds ws ∷ more) h k = rw (session_add-zeros i ws n h) (run-zeros i n more h k.1)
run-zeros i n (links ws tcp ∷ more) h k =
    rw (session_set_upstream-zeros ws tcp n k.0) (run-zeros i n more h k.1)
run-zeros i n (removes ws ∷ more) h k =
    rw (session_remove-zeros i ws n k.0) (run-zeros i n more h k.1)

tracked-zeros : (s n : ℕ) → s ≢ 0 → tracked s (zeros n) ≡ 0
unfolding zeros
tracked-zeros s zero h = refl
tracked-zeros s (suc n) h = ground (arith, tracked-zeros s n h)

-- The table starts as zeros, which are not INVALID_SOCKET, so that until the first drop no slot counts
-- as free: whatever the client threads do, no session is recorded, and the first drop closes no
-- socket of a client or of its MSP link.
pub first_drop_closes_nothing :
    (invalid_socket s : ℕ) (events : List Event)
    → invalid_socket ≢ 0
    → NonZero events
    → s ≢ 0
    → s ≢ invalid_socket
    → let t = run invalid_socket initial events in
      (t ≡ initial) × (occurrences s (drop_clients invalid_socket t).1 ≡ 0)
unfolding zeros
first_drop_closes_nothing i s events h k nz live =
    let same = run-zeros i ws_client_slots events h k in
    (
      same,
      ap (λ t. occurrences s (drop_clients i t).1) same
          ∙ (drop_clients_lem i s initial live).0
          ∙ tracked-zeros s ws_client_slots nz,
    )
