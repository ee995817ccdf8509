-- ===== src/WsProxy/Listener/Sockets.antt =====
-- What becomes of the listen sockets.
use betaflight_sitl_udp.Base.{ℕ, ◌==◌, ◌≡◌, not, List, [], ◌∷◌, ◌++◌, arith, append-nil, ==_refl}
use betaflight_sitl_udp.WsProxy.Session.{close_one}
use betaflight_sitl_udp.WsProxy.Listener.{
  Calls, History, Event, step, run, starts, stops, boot, ws_proxy_start, ws_proxy_stop,
}

module _ (invalid_socket : ℕ) where
  -- The proxy is started exactly where it has a listen socket, and a listen socket that was created is
  -- closed, or is that.
  abbrev pub IsSound : History → Type 0
  IsSound h =
      (h.proxy.started ≡ not (h.proxy.listen == invalid_socket))
      × (h.opened ≡ h.closed ++ close_one invalid_socket h.proxy.listen)

  start-IsSound : (h : History) (c : Calls) → IsSound h → IsSound (step invalid_socket h (starts c))
  unfolding step ws_proxy_start
  start-IsSound h c (state, balance) = (
    ground (arith, ==_refl invalid_socket),
    ground (
      arith,
      ==_refl invalid_socket,
      append-nil h.closed,
      append-nil h.opened,
      append-nil (h.closed ++ (c.created ∷ [])),
    ),
  )

  stop-IsSound : (h : History) → IsSound h → IsSound (step invalid_socket h stops)
  unfolding step ws_proxy_stop
  stop-IsSound h (state, balance) = (
    ground (arith, ==_refl invalid_socket),
    ground (
      arith,
      ==_refl invalid_socket,
      append-nil (h.closed ++ close_one invalid_socket h.proxy.listen),
    ),
  )

  run-IsSound :
      (events : List Event) (h : History) → IsSound h → IsSound (run invalid_socket h events)
  unfolding run
  run-IsSound [] h sound = sound
  run-IsSound (starts c ∷ events) h sound =
      run-IsSound events (step invalid_socket h (starts c)) (start-IsSound h c sound)
  run-IsSound (stops ∷ events) h sound =
      run-IsSound events (step invalid_socket h stops) (stop-IsSound h sound)

  -- Over any starts and stops from the boot on, whatever the calls of the system give: the sockets that
  -- were created have been closed, each once and in order, but for the one that is listened on, and the
  -- proxy counts as started exactly where there is one.
  pub boot-IsSound :
      (events : List Event)
      → let h =
          run invalid_socket
            (record { proxy = boot invalid_socket; opened = []; closed = [] })
            events in
        (h.proxy.started ≡ not (h.proxy.listen == invalid_socket))
        × (h.opened ≡ h.closed ++ close_one invalid_socket h.proxy.listen)
  boot-IsSound events =
      run-IsSound events (record { proxy = boot invalid_socket; opened = []; closed = [] })
        (ground (arith, ==_refl invalid_socket), ground (arith, ==_refl invalid_socket))
