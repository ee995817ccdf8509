-- ===== src/Fdm/Examples.antt =====
-- Timestamps in thousandths, a flight model at 400 Hz that starts again, and the rounds of the loop.
use betaflight_sitl_udp.Base.{ℕ, ◌+◌, ◌-◌, ◌*◌, ◌/◌, ◌≤◌, ◌≡◌, refl, List, [], ◌∷◌, ltb, leb, arith}
use betaflight_sitl_udp.Fdm.{
  Double, Link, Loop, Event, packet, round, max_delta_us, delta_us, receive, defer, commit_pending,
  take_pending, consume, iterate, step, run,
}
use betaflight_sitl_udp.Fdm.Conservation.{time_of}
use betaflight_sitl_udp.Fdm.Limits.{IsDouble, packets, clock_bound}
use betaflight_sitl_udp.Local.Grid.{quanta}

-- The numbers from -1 on, shifted by 1 and counted in thousandths; only what is not negative is added.
abbrev fixed : Double ℕ
fixed = record {
  of_int = λ n. n * 1000;
  minus_one = 0;
  add = λ a b. a + b;
  sub = λ a b. a - b;
  mul = λ a b. a * b / 1000;
  lt = λ a b. ltb a b;
  le = λ a b. leb a b;
  to_int = λ d. d / 1000;
}

fixed-IsDouble : IsDouble fixed
fixed-IsDouble = record { lt_asymm = λ a b h. ground arith; to_int-le = λ d n h. ground arith }

abbrev waiting : Link ℕ
waiting = record {
  last_ts = 1000;
  remainder_us = 0;
  commit_us = 0;
  pending_us = 0;
  packet_count = 0;
}

abbrev begun : Loop
begun = record { clock = 1000; pending = 30; passes = []; idles = 0 }

-- Two packets two thousandths apart, one out of range and one that starts again.
abbrev history : List (Event ℕ)
history = packet 1002 ∷ round ∷ packet 1004 ∷ round ∷ packet 900000 ∷ packet 7 ∷ round ∷ []

spent : (run fixed history (begun, waiting)).0.clock ≡ 5000
unfolding run step iterate consume take_pending receive defer delta_us commit_pending quanta
spent = refl

clock_bound_example :
    let (m, g) = run fixed history (begun, waiting) in
    m.clock ≤ time_of (begun, waiting) + packets history * max_delta_us
clock_bound_example = clock_bound fixed fixed-IsDouble history begun waiting refl (omega arith)
