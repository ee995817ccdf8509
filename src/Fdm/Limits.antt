-- ===== src/Fdm/Limits.antt =====
-- How much time a packet can bring, and a flight model that starts again.
use betaflight_sitl_udp.Base.{
  ℕ, suc, ◌+◌, ◌*◌, ◌^◌, ◌≤◌, ◌<◌, ◌≡◌, ◌∙◌, ap, true, false, ◌&&◌, List, [], ◌∷◌, if◌then◌else◌,
  arith, add32,
}
use betaflight_sitl_udp.Fdm.{
  Double, Link, Loop, Event, packet, round, max_delta_us, delta_us, receive, defer, commit_pending,
  take_pending, iterate, step, run,
}
use betaflight_sitl_udp.Fdm.Conservation.{accepted, time_of, run_lem}

-- What is used of `double`: the order is asymmetric, and the conversion to an integer does not pass
-- an integer bound.
pub record IsDouble {T : Type 0} (double : Double T) : Type 0 where
  pub lt_asymm : (a b : T) → double.lt a b ≡ true → double.lt b a ≡ false
  pub to_int-le : (d : T) (n : ℕ) → double.le d (double.of_int n) ≡ true → double.to_int d ≤ n

abbrev pub packets : {T : Type 0} → List (Event T) → ℕ
packets [] = 0
packets (packet ts ∷ events) = suc (packets events)
packets (round ∷ events) = packets events

commit_pending-commit_us : {T : Type 0} (f : Link T) → (commit_pending f).commit_us ≡ 0
unfolding commit_pending
commit_pending-commit_us f = ground arith

module _ {T : Type 0} (double : Double T) (laws : IsDouble double) where
  receive-max_delta_us :
      (ts : T) (f : Link T) → f.commit_us ≡ 0 → (receive double ts f).commit_us ≤ max_delta_us
  unfolding receive defer
  receive-max_delta_us ts f none_left =
      let delta = delta_us double ts f in ground (arith, laws.to_int-le delta max_delta_us)

  accepted-packets :
      (events : List (Event T)) (l : Loop) (f : Link T)
      → f.commit_us ≡ 0
      → accepted double events (l, f) ≤ packets events * max_delta_us
  unfolding step iterate take_pending
  accepted-packets [] l f none_left = omega arith
  accepted-packets (packet ts ∷ events) l f none_left =
      let one = receive-max_delta_us ts f none_left in
      let received = receive double ts f in
      let later =
        accepted-packets events l (commit_pending received) (commit_pending-commit_us received) in
      omega (arith, one, later)
  accepted-packets (round ∷ events) l f none_left =
      let (m, g) = iterate l f in accepted-packets events m g none_left

  -- Whatever the packets say, the clock gains 5 s at most for each.
  pub clock_bound :
      (events : List (Event T)) (l : Loop) (f : Link T)
      → f.commit_us ≡ 0
      → time_of (l, f) + packets events * max_delta_us < 2 ^ 64
      → let (m, g) = run double events (l, f) in
        m.clock ≤ time_of (l, f) + packets events * max_delta_us
  clock_bound events l f none_left small =
      let (total, clean, ticked) =
        run_lem double events l f none_left
          (omega (arith, accepted-packets events l f none_left)) in
      omega (arith, total, accepted-packets events l f none_left)

  -- A timestamp before the last one, as where the flight model starts again, brings no time, and the
  -- next delta counts from it.
  pub restart_resyncs :
      (ts : T) (l : Loop) (f : Link T)
      → double.lt ts f.last_ts ≡ true
      → step double (packet ts) (l, f) ≡ (
        l,
        record f {
          last_ts = ts;
          remainder_us = double.of_int 0;
          commit_us = 0;
          packet_count = add32 f.packet_count 1;
        },
      )
  unfolding step receive defer commit_pending
  restart_resyncs ts l f back =
      let resynced : Link T = record f { remainder_us = double.of_int 0; commit_us = 0 } in
      let delta = delta_us double ts f in
      let in_range =
        double.lt (double.of_int 0) delta && double.le delta (double.of_int max_delta_us) in
      let counted : Link T = record f {
        remainder_us = double.sub delta (double.of_int (double.to_int delta));
        commit_us = double.to_int delta;
      } in
      let backwards : (double.le (double.of_int 0) f.last_ts && double.lt f.last_ts ts) ≡ false =
        ap (λ b. double.le (double.of_int 0) f.last_ts && b) (laws.lt_asymm ts f.last_ts back)
        ∙ ground arith in
      let deferred =
        ap
          (λ b.
            if b
            then (if in_range then counted else resynced)
            else (if double.lt ts f.last_ts then resynced else f))
          backwards
        ∙ ap (λ b. if b then resynced else f) back in
      ap
        (λ (d : Link T).
          (l, commit_pending (record d { last_ts = ts; packet_count = add32 f.packet_count 1 })))
        deferred
