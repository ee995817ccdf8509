-- ===== src/WsProxy/Client/Examples.antt =====
-- A client's thread whose second attempt to reach the MSP port succeeds, and one whose first does.
use betaflight_sitl_udp.Base.{
  ℕ, zero, suc, ◌≡◌, refl, true, false, [], ◌∷◌, ◌++◌, arith, replicate, has_byte,
}
use betaflight_sitl_udp.WsProxy.Session.{
  Table, drop_clients, session_add, session_set_upstream, ws_client_slots,
}
use betaflight_sitl_udp.WsProxy.Client.{
  Attempt, Course, client_thread, connect_rounds, stream_and_close,
}
use betaflight_sitl_udp.WsProxy.Client.Closing.{client_thread-closed, drop_closes_twice}

abbrev invalid : ℕ
invalid = 99

abbrev tries : ℕ → Attempt
tries zero = record { stopping = false; created = 5; connects = false }
tries (suc i) = record { stopping = false; created = 7; connects = true }

abbrev at_once : ℕ → Attempt
at_once i = record { stopping = false; created = 7; connects = true }

abbrev course : (ℕ → Attempt) → Course
course attempts = record {
  handshake = true;
  attempts = attempts;
  before = [];
  meanwhile = [];
  streaming = [];
}

abbrev no_sessions : Table
no_sessions = replicate ws_client_slots (record { ws = invalid; tcp = invalid })

closed_lem : (client_thread invalid (course tries) 3 no_sessions).closed ≡ 5 ∷ 7 ∷ 3 ∷ []
unfolding client_thread connect_rounds stream_and_close
closed_lem = refl

client_thread-closed_example :
    (client_thread invalid (course tries) 3 no_sessions).closed
    ≡ (client_thread invalid (course tries) 3 no_sessions).created ++ (3 ∷ [])
client_thread-closed_example = client_thread-closed invalid (course tries) 3 no_sessions

drop_closes_twice_example :
    (has_byte 3
        (drop_clients invalid (session_set_upstream 3 7 (session_add invalid 3 no_sessions))).1
      ≡ true)
    × (has_byte 7
          (drop_clients invalid (session_set_upstream 3 7 (session_add invalid 3 no_sessions))).1
        ≡ true)
    × ((client_thread invalid (course at_once) 3 no_sessions).closed ≡ 7 ∷ (3 ∷ []))
drop_closes_twice_example =
    drop_closes_twice invalid (course at_once) 3 7 no_sessions (λ e. omega arith) (λ e. omega arith)
      refl refl refl refl
