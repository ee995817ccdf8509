-- ===== src/WsProxy/Session/Examples.antt =====
-- The session table's theorems, with Winsock's INVALID_SOCKET on a 64-bit system.
use betaflight_sitl_udp.Base.{ℕ, ◌-◌, ◌^◌, ◌≡◌, refl, [], ◌∷◌, replicate}
use betaflight_sitl_udp.WsProxy.Session.{Table, initial, drop_clients, adds, links, removes, run}

abbrev no_socket : ℕ
no_socket = 2 ^ 64 - 1

-- One slot is taken, with the client 40 and its MSP link 41, and one is free.
abbrev half_full : Table
half_full = (record { ws = 40; tcp = 41 } ∷ record { ws = no_socket; tcp = no_socket } ∷ [])

drop_half_full : (drop_clients no_socket half_full).1 ≡ 40 ∷ 41 ∷ []
unfolding drop_clients
drop_half_full = refl

-- What the first drop closes is the handle 0, as often as there are fields.
first_drop : (drop_clients no_socket initial).1 ≡ replicate 16 0
unfolding drop_clients
first_drop = refl

add_and_remove :
    run no_socket half_full (adds 42 ∷ links 42 43 ∷ removes 40 ∷ [])
    ≡ record { ws = no_socket; tcp = no_socket } ∷ record { ws = 42; tcp = 43 } ∷ []
unfolding run
add_and_remove = refl
