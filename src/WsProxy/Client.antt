-- ===== src/WsProxy/Client.antt =====
-- The thread of a client in src/ws_proxy_win.c, `wsClientThread`, around its streaming loop: the session,
-- the attempts to reach the MSP port, and what is closed. What the calls of the system give is an
-- argument; `invalid_socket` is INVALID_SOCKET. Between the thread's own calls others change the table.
pub mod Closing
mod Examples
use betaflight_sitl_udp.Base.{
  ℕ, zero, suc, ◌==◌, Bool, true, false, List, [], ◌∷◌, ◌++◌, if◌then◌else◌,
}
use betaflight_sitl_udp.WsProxy.Session.{
  Table, Event, session_add, session_remove, session_set_upstream, run,
}

-- One round of the attempts: whether `wsStopping` is set, what `socket` gives, and whether `connect`
-- succeeds.
pub record Attempt : Type 0 where
  pub stopping : Bool
  pub created : ℕ
  pub connects : Bool

-- What the thread meets: the handshake, the attempts by their number, and what other threads do to the
-- table before the attempts, before the upstream is recorded, and while it streams.
pub record Course : Type 0 where
  pub handshake : Bool
  pub attempts : ℕ → Attempt
  pub before : List Event
  pub meanwhile : List Event
  pub streaming : List Event

-- What is left when it ends: the table, whether it has streamed, the sockets that it created and those
-- that it closed.
pub record Ended : Type 0 where
  pub table : Table
  pub streamed : Bool
  pub created : List ℕ
  pub closed : List ℕ

abbrev pub max_attempts : ℕ
max_attempts = 50

module _ (invalid_socket : ℕ) where
  -- The loop of attempts from number `i` on, with the rounds that are left: the socket, and those that
  -- were created and closed on the way.
  pub connect_rounds : (ℕ → Attempt) → ℕ → ℕ → ℕ × (List ℕ × List ℕ)
  connect_rounds attempts i zero = (invalid_socket, ([], []))
  connect_rounds attempts i (suc left) =
      let a = attempts i in
      let (tcp, (created, closed)) = connect_rounds attempts (suc i) left in
      if a.stopping
      then (invalid_socket, ([], []))
      else (if a.created == invalid_socket
          then (tcp, (created, closed))
          else (if a.connects
              then (a.created, (a.created ∷ [], []))
              else (tcp, (a.created ∷ created, a.created ∷ closed))))

  -- The part of `wsClientThread` after the attempts.
  pub stream_and_close : Course → ℕ → Table → ℕ × (List ℕ × List ℕ) → Ended
  stream_and_close c ws t (tcp, (created, closed)) =
      if tcp == invalid_socket
      then record {
        table = session_remove invalid_socket ws t;
        streamed = false;
        created = created;
        closed = closed ++ (ws ∷ []);
      }
      else record {
        table =
            session_remove invalid_socket ws
              (run invalid_socket (session_set_upstream ws tcp t) c.streaming);
        streamed = true;
        created = created;
        closed = closed ++ (tcp ∷ (ws ∷ []));
      }

  -- `wsClientThread`
  pub client_thread : Course → ℕ → Table → Ended
  client_thread c ws t =
      let added = run invalid_socket (session_add invalid_socket ws t) c.before in
      if c.handshake
      then stream_and_close c ws (run invalid_socket added c.meanwhile)
          (connect_rounds c.attempts 0 max_attempts)
      else record {
        table = session_remove invalid_socket ws added;
        streamed = false;
        created = [];
        closed = ws ∷ [];
      }
