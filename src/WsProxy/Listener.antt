-- ===== src/WsProxy/Listener.antt =====
-- The listener of src/ws_proxy_win.c: `wsListenPort`, `wsProxyStart` and `wsProxyStop`. What the calls of
-- the system give is an argument; the accepting thread and the options of the socket are left out.
pub mod Sockets
mod Examples
use betaflight_sitl_udp.Base.{
  ℕ, ◌==◌, Bool, true, false, ◌&&◌, not, List, [], ◌∷◌, ◌++◌, Option, none, some, leb,
  if◌then◌else◌,
}
use betaflight_sitl_udp.WsProxy.Session.{Table, close_one, drop_clients, initial}

-- `DEFAULT_WS_PORT`
abbrev pub default_ws_port : ℕ
default_ws_port = 6761

-- `wsListenPort`, for a `strtol` that gives 0 for what is negative too.
pub ws_listen_port : (List ℕ → ℕ) → Option (List ℕ) → ℕ
ws_listen_port strtol none = default_ws_port
ws_listen_port strtol (some []) = default_ws_port
ws_listen_port strtol (some (c ∷ env)) =
    let v = strtol (c ∷ env) in if leb 1024 v && leb v 65000 then v else default_ws_port

-- `wsListenSocket`, `wsStarted`, `wsStopping` and `wsSessions`.
pub record Proxy : Type 0 where
  pub listen : ℕ
  pub started : Bool
  pub stopping : Bool
  pub sessions : Table

-- What `socket` gives, and whether `bind`, `listen` and `pthread_create` succeed.
pub record Calls : Type 0 where
  pub created : ℕ
  pub binds : Bool
  pub listens : Bool
  pub spawns : Bool

module _ (invalid_socket : ℕ) where
  abbrev pub boot : Proxy
  boot = record { listen = invalid_socket; started = false; stopping = false; sessions = initial }

  -- `wsProxyStart`, with the sockets that it closes.
  pub ws_proxy_start : Calls → Proxy → Proxy × List ℕ
  ws_proxy_start c p =
      let up = record p { stopping = false } in
      if p.started
      then (up, [])
      else (if c.created == invalid_socket
          then (record up { listen = invalid_socket }, [])
          else (if c.binds && (c.listens && c.spawns)
              then (record up { listen = c.created; started = true }, [])
              else (record up { listen = invalid_socket }, c.created ∷ [])))

  -- `wsProxyStop`, with the listen socket that it closes, and those of the sessions.
  pub ws_proxy_stop : Proxy → Proxy × (List ℕ × List ℕ)
  ws_proxy_stop p =
      let (cleared, closed) = drop_clients invalid_socket p.sessions in
      (
        record { listen = invalid_socket; started = false; stopping = true; sessions = cleared },
        (close_one invalid_socket p.listen, closed),
      )

-- A start or a stop.
pub data Event : Type 0 where
  starts : Calls → Event
  stops : Event

-- The proxy, and the listen sockets that were created and that were closed, in order.
pub record History : Type 0 where
  pub proxy : Proxy
  pub opened : List ℕ
  pub closed : List ℕ

pub step : ℕ → History → Event → History
unfolding ws_proxy_start ws_proxy_stop
step invalid_socket h (starts c) =
    let (next, closed) = ws_proxy_start invalid_socket c h.proxy in
    let created = if h.proxy.started then [] else close_one invalid_socket c.created in
    record { proxy = next; opened = h.opened ++ created; closed = h.closed ++ closed }
step invalid_socket h stops =
    let (next, (closed, sessions)) = ws_proxy_stop invalid_socket h.proxy in
    record { proxy = next; opened = h.opened; closed = h.closed ++ closed }

pub run : ℕ → History → List Event → History
unfolding step
run invalid_socket h [] = h
run invalid_socket h (e ∷ events) = run invalid_socket (step invalid_socket h e) events
