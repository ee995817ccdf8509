-- ===== src/Local/Grid.antt =====
-- The virtual clock of the in-process link: how `sitl_local_step` of src/sitl_local.c cuts the host's
-- time step into quanta (`localStepQuantumUs`, the snap of a step that is nearly on the grid, the
-- remainder that is carried over, the loop that steps the clock), and the frame cadence of the
-- virtual receiver (`localRcFrameStatus`). The clock is `sitlVirtualTimeUs` of src/wincompat.c, a
-- `uint64_t`; the host's step, the grid and the remainder are `uint32_t`. What the scheduler does is
-- not modelled, only the times at which it is called.
pub mod Quanta
pub mod Snap
pub mod Cadence
mod Examples
use betaflight_sitl_udp.Base.{
  ℕ, zero, suc, ◌+◌, ◌-◌, ◌*◌, ◌/◌, ◌%◌, ◌^◌, ◌==◌, Bool, true, false, ◌&&◌, not, List, [], ◌∷◌,
  ltb, leb, if◌then◌else◌, u32, add32,
}

-- The loop of `localStepQuantumUs` with fuel.
pub halve_until : ℕ → ℕ → ℕ → ℕ
halve_until zero grid quantum = quantum
halve_until (suc fuel) grid quantum =
    let next = halve_until fuel grid (quantum / 2) in
    if ltb 0 grid && ltb 1 quantum && not (grid % quantum == 0) then next else quantum

-- `localStepQuantumUs`. 100 becomes 1 after six halvings.
unfoldable pub step_quantum : ℕ → ℕ
unfolding halve_until
step_quantum grid = halve_until 6 grid 100

-- The multiple of the grid next to the host's step.
pub nearest_on_grid : ℕ → ℕ → ℕ
nearest_on_grid grid dt = u32 (add32 dt (grid / 2) / grid * grid)

abbrev pub distance : ℕ → ℕ → ℕ
distance a b = if ltb b a then a - b else b - a

-- The step that `sitl_local_step` uses; `enabled` is BF_SITL_DT_SNAP.
pub snap_step : Bool → ℕ → ℕ → ℕ
snap_step enabled grid dt =
    let nearest = nearest_on_grid grid dt in
    if enabled && ltb 0 grid
    then (if ltb 0 nearest && leb (u32 (distance nearest dt * 10)) (u32 (grid * 3))
        then nearest
        else dt)
    else dt

pub record Clock : Type 0 where
  pub time : ℕ
  pub remainder : ℕ

-- What the loop leaves: the clock's time, the time that is left over, and the times at which
-- `scheduler` was called.
pub record Stepped : Type 0 where
  pub time : ℕ
  pub left : ℕ
  pub passes : List ℕ

-- The `while` loop of `sitl_local_step`. Each round takes a microsecond at least off what remains,
-- which is therefore fuel enough.
unfoldable pub quanta : ℕ → ℕ → ℕ → ℕ → Stepped
quanta zero quantum time left = record { time = time; left = left; passes = [] }
quanta (suc fuel) quantum time left =
    let now = (time + quantum) % 2 ^ 64 in
    let more = quanta fuel quantum now (left - quantum) in
    if leb quantum left
    then record { time = more.time; left = more.left; passes = now ∷ more.passes }
    else record { time = time; left = left; passes = [] }

-- The part of `sitl_local_step` that runs the scheduler, for a step of `step` microseconds as
-- `snap_step` leaves it.
pub step_clock : ℕ → ℕ → Clock → Clock × List ℕ
step_clock grid step c =
    let quantum = step_quantum grid in
    let total = add32 step c.remainder in
    let run = quanta total quantum c.time total in
    (record { time = run.time; remainder = total % quantum }, run.passes)

-- What `localRcFrameStatus` keeps: `gLocalRcValid`, `gLocalRcAnnounceUs` and `gLocalRcFrameCount`.
pub record Receiver : Type 0 where
  pub valid : Bool
  pub announced : ℕ
  pub frames : ℕ

-- `localRcFrameStatus` at the virtual time `now`: whether a frame is complete.
pub frame_status : ℕ → Receiver → Bool × Receiver
frame_status now r =
    if r.valid && leb 8000 ((now + 2 ^ 64 - r.announced) % 2 ^ 64)
    then (true, record r { announced = now; frames = add32 r.frames 1 })
    else (false, r)

-- The checks of the firmware at a list of times: the times at which a frame was announced.
pub checks : List ℕ → Receiver → List ℕ × Receiver
checks [] r = ([], r)
checks (now ∷ later) r =
    let (complete, next) = frame_status now r in
    let (rest, end) = checks later next in (if complete then now ∷ rest else rest, end)
