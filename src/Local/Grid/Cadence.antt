-- ===== src/Local/Grid/Cadence.antt =====
-- The virtual receiver announces a frame each 8 ms of virtual time, and never sooner.
use betaflight_sitl_udp.Base.{
  ℕ, ◌+◌, ◌%◌, ◌^◌, ◌≤◌, ◌<◌, ◌≡◌, true, List, [], ◌∷◌, leb, if◌then◌else◌, arith, add32, length,
}
use betaflight_sitl_udp.Local.Grid.{Receiver, frame_status, checks}

-- The times of the checks do not go back.
abbrev pub Ascending : ℕ → List ℕ → Type 0
Ascending from [] = Unit
Ascending from (t ∷ later) = (from ≤ t) × (t < 2 ^ 64) × Ascending t later

-- Each announcement stands at least 8 ms after the one before.
abbrev pub Spaced : ℕ → List ℕ → Type 0
Spaced last [] = Unit
Spaced last (t ∷ later) = (last + 8000 ≤ t) × Spaced t later

abbrev pub last_check : ℕ → List ℕ → ℕ
last_check from [] = from
last_check from (t ∷ later) = last_check t later

frame_status_lem :
    (now : ℕ) (r : Receiver)
    → r.valid ≡ true
    → r.announced ≤ now
    → now < 2 ^ 64
    → let (complete, next) = frame_status now r in
      (complete ≡ leb (r.announced + 8000) now)
      × (next.announced ≡ (if complete then now else r.announced))
      × (next.frames ≡ (if complete then add32 r.frames 1 else r.frames))
      × (next.valid ≡ true)
unfolding frame_status
frame_status_lem now r valid ordered small = ground arith

-- Once the host has sent its channels, whenever the firmware asks: two announced frames are 8 ms
-- apart at least, each is counted, and no check leaves a frame out that is due.
pub checks_lem :
    (times : List ℕ) (from : ℕ) (r : Receiver)
    → r.valid ≡ true
    → r.announced ≤ from
    → from < r.announced + 8000
    → r.frames < 2 ^ 32
    → Ascending from times
    → let (frames, end) = checks times r in
      Spaced r.announced frames
      × (end.frames ≡ (r.frames + length frames) % 2 ^ 32)
      × (end.announced ≤ last_check from times)
      × (last_check from times < end.announced + 8000)
unfolding checks
checks_lem [] from r valid before fresh small ascending =
    (tt, omega arith, omega arith, omega arith)
checks_lem (t ∷ later) from r valid before fresh small (le, bound, rest) =
    ground (
      arith,
      frame_status_lem t r valid (omega arith) bound,
      checks_lem later t (frame_status t r).1,
    )
