-- ===== src/Local/Grid/Examples.antt =====
-- The clock at the firmware's default rate and at steps that jitter, and the receiver at six checks.
use betaflight_sitl_udp.Base.{
  ℕ, ◌+◌, ◌%◌, ◌^◌, ◌≤◌, ◌<◌, ◌≡◌, refl, true, false, List, [], ◌∷◌, arith, length,
}
use betaflight_sitl_udp.Local.Grid.{
  nearest_on_grid, snap_step, Clock, step_quantum, step_clock, quanta, Receiver, frame_status,
  checks,
}
use betaflight_sitl_udp.Local.Grid.Quanta.{
  step_quantum-divides, total, snapped, steps, IsOnGrid, steps_lem,
}
use betaflight_sitl_udp.Local.Grid.Cadence.{Spaced, last_check, checks_lem}

quantum_at_4khz : step_quantum 250 ≡ 50
unfolding step_quantum
quantum_at_4khz = refl

-- 80 divides 320, but the halves of 100 are not powers of two.
quantum_at_320 : step_quantum 320 ≡ 1
unfolding step_quantum
quantum_at_320 = refl

quantum_at_8000 : step_quantum 8000 ≡ 100
unfolding step_quantum
quantum_at_8000 = refl

abbrev start : Clock
start = record { time = 1000; remainder = 0 }

jitter : steps false 1000 (1030 ∷ 270 ∷ []) start ≡ (
  record { time = 2300; remainder = 0 },
  1100 ∷ 1200 ∷ 1300 ∷ 1400 ∷ 1500 ∷ 1600 ∷ 1700 ∷ 1800 ∷ 1900 ∷ 2000 ∷ 2100 ∷ 2200 ∷ 2300 ∷ [],
)
unfolding step_clock quanta step_quantum snap_step
jitter = refl

step_quantum-divides_example :
    (250 % step_quantum 250 ≡ 0) × (0 < step_quantum 250) × (step_quantum 250 ≤ 100)
step_quantum-divides_example = step_quantum-divides 250

-- 1030 is snapped to 1000, and 270 is a step of its own.
snapped_steps : snapped true 1000 (1030 ∷ 270 ∷ []) ≡ 1000 ∷ 270 ∷ []
unfolding snap_step nearest_on_grid
snapped_steps = refl

steps_lem_example :
    let steps_taken = snapped true 1000 (1030 ∷ 270 ∷ []) in
    let (end, passes) = steps true 1000 (1030 ∷ 270 ∷ []) start in
    (end.time + end.remainder ≡ start.time + start.remainder + total steps_taken)
    × (end.remainder < step_quantum 1000)
    × IsOnGrid 1000 start (end, passes)
unfolding step_quantum snap_step nearest_on_grid
steps_lem_example =
    steps_lem true 1000 (1030 ∷ 270 ∷ []) start (omega arith) (omega arith, (omega arith, tt))
      (omega arith)

abbrev tuned : Receiver
tuned = record { valid = true; announced = 0; frames = 0 }

abbrev asked : List ℕ
asked = 3000 ∷ 7900 ∷ 8100 ∷ 12000 ∷ 16050 ∷ 16100 ∷ []

asked_frames : (checks asked tuned).0 ≡ 8100 ∷ 16100 ∷ []
unfolding checks frame_status
asked_frames = refl

checks_lem_example :
    let (frames, end) = checks asked tuned in
    Spaced tuned.announced frames
    × (end.frames ≡ (tuned.frames + length frames) % 2 ^ 32)
    × (end.announced ≤ last_check 0 asked)
    × (last_check 0 asked < end.announced + 8000)
checks_lem_example =
    checks_lem asked 0 tuned refl (omega arith) (omega arith) (omega arith) (omega arith)
