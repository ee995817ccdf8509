-- ===== src/WsProxy/Listener/Examples.antt =====
-- The listener through a start that fails, one that does not, and a stop.
use betaflight_sitl_udp.Base.{ℕ, ◌==◌, ◌≡◌, refl, true, false, not, List, [], ◌∷◌, ◌++◌}
use betaflight_sitl_udp.WsProxy.Session.{close_one}
use betaflight_sitl_udp.WsProxy.Listener.{
  History, Event, starts, stops, boot, run, step, ws_proxy_start, ws_proxy_stop,
}
use betaflight_sitl_udp.WsProxy.Listener.Sockets.{boot-IsSound}

abbrev invalid : ℕ
invalid = 99

abbrev events : List Event
events =
    starts (record { created = 3; binds = false; listens = true; spawns = true })
    ∷ starts (record { created = 4; binds = true; listens = true; spawns = true })
    ∷ stops
    ∷ starts (record { created = 5; binds = true; listens = true; spawns = true })
    ∷ []

abbrev booted : History
booted = record { proxy = boot invalid; opened = []; closed = [] }

events_lem : (run invalid booted events).closed ≡ 3 ∷ 4 ∷ []
unfolding run step ws_proxy_start ws_proxy_stop
events_lem = refl

boot-IsSound_example :
    ((run invalid booted events).proxy.started
      ≡ not ((run invalid booted events).proxy.listen == invalid))
    × ((run invalid booted events).opened
        ≡ (run invalid booted events).closed
          ++ close_one invalid (run invalid booted events).proxy.listen)
boot-IsSound_example = boot-IsSound invalid events
