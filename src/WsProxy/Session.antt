-- ===== src/WsProxy/Session.antt =====
-- The table of live sessions in src/ws_proxy_win.c, `wsSessions`, and the functions on it. Each holds
-- `wsSessionsLock`, so it is one step. `invalid_socket` is Winsock's INVALID_SOCKET.
pub mod Tracking
mod Examples
use betaflight_sitl_udp.Base.{
  ℕ, ◌==◌, Bool, true, false, List, [], ◌∷◌, ◌++◌, if◌then◌else◌, replicate,
}

-- `wsSession_t`.
pub record Session : Type 0 where
  pub ws : ℕ
  pub tcp : ℕ

abbrev pub Table : Type 0
Table = List Session

abbrev pub ws_client_slots : ℕ
ws_client_slots = 8

-- A static array without an initialiser is zero.
abbrev pub initial : Table
initial = replicate ws_client_slots (record { ws = 0; tcp = 0 })

-- `wsSessionSetUpstream`.
unfoldable pub session_set_upstream : ℕ → ℕ → Table → Table
session_set_upstream ws tcp [] = []
session_set_upstream ws tcp (s ∷ rest) =
    if s.ws == ws then record s { tcp = tcp } ∷ rest else s ∷ session_set_upstream ws tcp rest

module _ (invalid_socket : ℕ) where
  -- `wsSessionAdd`: with no free slot the session is not recorded.
  unfoldable pub session_add : ℕ → Table → Table
  session_add ws [] = []
  session_add ws (s ∷ rest) =
      if s.ws == invalid_socket
      then record { ws = ws; tcp = invalid_socket } ∷ rest
      else s ∷ session_add ws rest

  -- `wsSessionRemove`.
  pub session_remove : ℕ → Table → Table
  session_remove ws [] = []
  session_remove ws (s ∷ rest) =
      if s.ws == ws
      then record { ws = invalid_socket; tcp = invalid_socket } ∷ rest
      else s ∷ session_remove ws rest

  abbrev pub close_one : ℕ → List ℕ
  close_one sock = if sock == invalid_socket then [] else sock ∷ []

  -- `wsProxyDropClients`: the table, and the sockets closed.
  unfoldable pub drop_clients : Table → Table × List ℕ
  drop_clients [] = ([], [])
  drop_clients (s ∷ rest) =
      let (cleared, closed) = drop_clients rest in
      (
        record { ws = invalid_socket; tcp = invalid_socket } ∷ cleared,
        close_one s.ws ++ (close_one s.tcp ++ closed),
      )

-- What the client threads do to the table between two drops.
pub data Event : Type 0 where
  adds : ℕ → Event
  links : ℕ → ℕ → Event
  removes : ℕ → Event

pub step : ℕ → Table → Event → Table
unfolding session_add session_set_upstream session_remove
step invalid_socket t (adds ws) = session_add invalid_socket ws t
step invalid_socket t (links ws tcp) = session_set_upstream ws tcp t
step invalid_socket t (removes ws) = session_remove invalid_socket ws t

pub run : ℕ → Table → List Event → Table
unfolding step
run invalid_socket t [] = t
run invalid_socket t (e ∷ events) = run invalid_socket (step invalid_socket t e) events
