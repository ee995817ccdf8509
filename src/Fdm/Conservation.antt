-- ===== src/Fdm/Conservation.antt =====
-- The time of the packets is spent, all of it, in steps of the clock.
use betaflight_sitl_udp.Base.{
  ℕ, ◌+◌, ◌*◌, ◌^◌, ◌<◌, ◌≡◌, refl, sym, ◌∙◌, ap, List, [], ◌∷◌, ◌++◌, arith, ap₂, append-nil,
  append_assoc,
}
use betaflight_sitl_udp.Local.Grid.Quanta.{quanta_lem, every, every-append}
use betaflight_sitl_udp.Fdm.{
  Double, Link, Loop, Event, packet, round, step_us, receive, defer, commit_pending, take_pending,
  consume, iterate, step, run,
}

module _ {T : Type 0} where
  -- The time on the loop's side and the time that is published for it.
  abbrev pub time_of : Loop × Link T → ℕ
  time_of (l, f) = l.clock + l.pending + f.pending_us

  pub commit_pending_lem :
      (f : Link T)
      → f.pending_us + f.commit_us < 2 ^ 64
      → let g = commit_pending f in (g.pending_us ≡ f.pending_us + f.commit_us) × (g.commit_us ≡ 0)
  unfolding commit_pending
  commit_pending_lem f small = ground arith

-- The clock has gone on in steps, and the scheduler was called at each.
abbrev pub Ticked : Loop → Loop → Type 0
Ticked l end =
    (n : ℕ) × (end.clock ≡ l.clock + n * step_us)
    × (end.passes ≡ l.passes ++ every step_us l.clock n)

Ticked-refl : (l : Loop) → Ticked l l
Ticked-refl l = (0, omega arith, sym (append-nil l.passes))

Ticked-trans : (l m end : Loop) → Ticked l m → Ticked m end → Ticked l end
Ticked-trans l m end (j, moved, called) (k, moved_later, called_later) = (
  j + k,
  omega arith,
  called_later
      ∙ ap₂ (λ passes clock. passes ++ every step_us clock k) called moved
      ∙ append_assoc l.passes (every step_us l.clock j) (every step_us (l.clock + j * step_us) k)
      ∙ ap (λ x. l.passes ++ x) (sym (every-append step_us l.clock j k)),
)

consume_lem :
    (l : Loop)
    → l.clock + l.pending < 2 ^ 64
    → let m = consume l in
      (m.clock + m.pending ≡ l.clock + l.pending) × (m.pending < step_us) × Ticked l m
unfolding consume
consume_lem l small =
    let spent = quanta_lem l.pending step_us l.clock l.pending (omega arith) (omega arith) small in
    (spent.kept, spent.ended, (spent.rounds, spent.moved, ap (λ x. l.passes ++ x) spent.called))

module _ {T : Type 0} where
  iterate_lem :
      (l : Loop) (f : Link T)
      → time_of (l, f) < 2 ^ 64
      → let (m, g) = iterate l f in
        (time_of (m, g) ≡ time_of (l, f))
        × (m.pending ≡ (consume l).pending + f.pending_us)
        × (g.pending_us ≡ 0)
        × (g.commit_us ≡ f.commit_us)
        × Ticked l m
  unfolding iterate take_pending
  iterate_lem l f small =
      let (kept, less, ticked) = consume_lem l (omega arith) in
      (omega arith, omega arith, refl, refl, ticked)

module _ {T : Type 0} (double : Double T) where
  -- The time that the packets of a history bring.
  abbrev pub accepted : List (Event T) → Loop × Link T → ℕ
  accepted [] s = 0
  accepted (packet ts ∷ events) (l, f) =
      (receive double ts f).commit_us + accepted events (step double (packet ts) (l, f))
  accepted (round ∷ events) s = accepted events (step double round s)

  pub receive_lem : (ts : T) (f : Link T) → (receive double ts f).pending_us ≡ f.pending_us
  unfolding receive defer
  receive_lem ts f = ground arith

  pub run_lem :
      (events : List (Event T)) (l : Loop) (f : Link T)
      → f.commit_us ≡ 0
      → time_of (l, f) + accepted events (l, f) < 2 ^ 64
      → let (m, g) = run double events (l, f) in
        (time_of (m, g) ≡ time_of (l, f) + accepted events (l, f)) × (g.commit_us ≡ 0) × Ticked l m
  unfolding run step
  run_lem [] l f none_left small = (omega arith, none_left, Ticked-refl l)
  run_lem (packet ts ∷ events) l f none_left small =
      let received = receive double ts f in
      let same = receive_lem ts f in
      let (published, cleared) = commit_pending_lem received (omega arith) in
      let (total, clean, ticked) =
        run_lem events l (commit_pending received) cleared (omega arith) in
      (omega arith, clean, ticked)
  run_lem (round ∷ events) l f none_left small =
      let (same, now, taken, kept, ticked) = iterate_lem l f (omega arith) in
      let (m, g) = iterate l f in
      let (total, clean, later) = run_lem events m g (kept ∙ none_left) (omega arith) in
      (omega arith, clean, Ticked-trans l m (run double events (m, g)).0 ticked later)
