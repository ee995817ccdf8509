-- ===== src/Local/Grid/Quanta.antt =====
-- No virtual time is lost, and the scheduler is called on the grid.
use native.Mathlib.Nat.{mod-lt, suc-mul, add-mul, mod-eq_of_lt, mod-eq-sub-mod}
use betaflight_sitl_udp.Base.{
  ℕ, zero, suc, ◌+◌, ◌-◌, ◌*◌, ◌%◌, ◌^◌, ◌≤◌, ◌<◌, ◌≡◌, refl, sym, ◌∙◌, ap, ap₂, Bool, List, [],
  ◌∷◌, leb, arith, add32, if_split, leb→le, ◌++◌, suc_add,
}
use betaflight_sitl_udp.Local.Grid.{Clock, Stepped, step_quantum, quanta, step_clock, snap_step}

-- The quantum of a step divides the gyro period, so that every deadline falls on a step, and lies
-- between 1 and 100 microseconds; for a period of 0 it is 100.
pub step_quantum-divides :
    (grid : ℕ)
    → (grid % step_quantum grid ≡ 0) × (0 < step_quantum grid) × (step_quantum grid ≤ 100)
unfolding step_quantum
step_quantum-divides grid = ground arith

-- The times `time + quantum`, `time + 2 * quantum` and so on, `n` of them.
abbrev pub every : ℕ → ℕ → ℕ → List ℕ
every quantum time zero = []
every quantum time (suc n) = (time + quantum) ∷ every quantum (time + quantum) n

pub every-append :
    (quantum time m n : ℕ)
    → every quantum time (m + n) ≡ every quantum time m ++ every quantum (time + m * quantum) n
every-append quantum time zero n = ap₂ (λ k t. every quantum t k) (omega arith) (omega arith)
every-append quantum time (suc m) n =
    ap (every quantum time) (suc_add m n)
    ∙ ap (◌∷◌ (time + quantum)) (
        every-append quantum (time + quantum) m n
        ∙ ap (λ t. every quantum (time + quantum) m ++ every quantum t n) (grind arith))

-- What a run of the loop does: `n` rounds, that end by the test.
pub record Spent (quantum time left : ℕ) (r : Stepped) : Type 0 where
  pub rounds : ℕ
  pub moved : r.time ≡ time + rounds * quantum
  pub kept : r.time + r.left ≡ time + left
  pub ended : r.left < quantum
  pub called : r.passes ≡ every quantum time rounds
  pub spare : left % quantum ≡ r.left

pub quanta_lem :
    (fuel quantum time left : ℕ)
    → 0 < quantum
    → left ≤ fuel
    → time + left < 2 ^ 64
    → Spent quantum time left (quanta fuel quantum time left)
unfolding quanta
quanta_lem zero quantum time left pos enough small = record {
  rounds = 0;
  moved = omega arith;
  kept = refl;
  ended = omega arith;
  called = refl;
  spare = mod-eq_of_lt (omega arith);
}
quanta_lem (suc fuel) quantum time left pos enough small =
    if_split (Spent quantum time left) (leb quantum left)
      (λ e.
        let le = leb→le quantum left e in
        let same : (time + quantum) % 2 ^ 64 ≡ time + quantum = omega arith in
        let rest =
          quanta_lem fuel quantum ((time + quantum) % 2 ^ 64) (left - quantum) pos (omega arith)
            (omega arith) in
        record {
          rounds = suc rest.rounds;
          moved = omega (arith, suc-mul rest.rounds quantum, rest.moved);
          kept = omega (arith, rest.kept);
          ended = rest.ended;
          called = ap₂ ◌∷◌ same (rest.called ∙ ap (λ t. every quantum t rest.rounds) same);
          spare = mod-eq-sub-mod le ∙ rest.spare;
        })
      (λ e. record {
        rounds = 0;
        moved = omega arith;
        kept = refl;
        ended = ground arith;
        called = refl;
        spare = mod-eq_of_lt (ground arith);
      })

abbrev pub total : List ℕ → ℕ
total [] = 0
total (s ∷ more) = s + total more

-- The host's steps, as the snap leaves them.
abbrev pub snapped : Bool → ℕ → List ℕ → List ℕ
snapped enabled grid [] = []
snapped enabled grid (dt ∷ more) = snap_step enabled grid dt ∷ snapped enabled grid more

-- A step that its sum with a remainder does not overflow 32 bits.
abbrev pub AreShort : List ℕ → Type 0
AreShort [] = Unit
AreShort (s ∷ more) = (s + 100 < 2 ^ 32) × AreShort more

-- The host's steps, one after the other: each is snapped, then spent.
abbrev pub steps : Bool → ℕ → List ℕ → Clock → Clock × List ℕ
steps enabled grid [] c = (c, [])
steps enabled grid (dt ∷ more) c =
    let (next, passes) = step_clock grid (snap_step enabled grid dt) c in
    let (end, later) = steps enabled grid more next in (end, passes ++ later)

-- What a host's steps do to the clock.
abbrev pub IsOnGrid : ℕ → Clock → Clock × List ℕ → Type 0
IsOnGrid grid c (end, passes) =
    (n : ℕ) × (end.time ≡ c.time + n * step_quantum grid)
    × (passes ≡ every (step_quantum grid) c.time n)

step_clock_lem :
    (grid step : ℕ) (c : Clock)
    → step + c.remainder < 2 ^ 32
    → c.time + step + c.remainder < 2 ^ 64
    → let (end, passes) = step_clock grid step c in
      IsOnGrid grid c (end, passes)
      × (end.time + end.remainder ≡ c.time + c.remainder + step)
      × (end.remainder < step_quantum grid)
unfolding step_clock
step_clock_lem grid step c fits small =
    let q = step_quantum grid in
    let sum = add32 step c.remainder in
    let plain : sum ≡ step + c.remainder = omega arith in
    let (_, pos, _) = step_quantum-divides grid in
    let run = quanta_lem sum q c.time sum pos (omega arith) (omega arith) in
    let left : sum % q ≡ (quanta sum q c.time sum).left = run.spare in
    ((run.rounds, run.moved, run.called), omega (arith, run.kept, left), mod-lt sum pos)

-- Over any steps of the host, with the snap onto the gyro grid on or off, where each step as snapped is
-- short of 2^32 microseconds by more than 100 and the 64-bit clock does not overflow: the virtual clock
-- and the remainder together move on by exactly the sum of the steps as snapped, the remainder stays
-- below a quantum, and the scheduler is called once for each quantum, at the multiples of the quantum
-- from the start on.
pub steps_lem :
    (enabled : Bool) (grid : ℕ) (host : List ℕ) (c : Clock)
    → c.remainder < step_quantum grid
    → AreShort (snapped enabled grid host)
    → c.time + c.remainder + total (snapped enabled grid host) < 2 ^ 64
    → let (end, passes) = steps enabled grid host c in
      (end.time + end.remainder ≡ c.time + c.remainder + total (snapped enabled grid host))
      × (end.remainder < step_quantum grid)
      × IsOnGrid grid c (end, passes)
steps_lem enabled grid [] c rest short small = (omega arith, rest, (0, omega arith, refl))
steps_lem enabled grid (dt ∷ more) c rest (short, shorts) small =
    let (_, _, bound) = step_quantum-divides grid in
    let q = step_quantum grid in
    let s = snap_step enabled grid dt in
    let ((m, moved, called), kept, below) = step_clock_lem grid s c (omega arith) (omega arith) in
    let next = (step_clock grid s c).0 in
    let (kept_later, below_later, (n, moved_later, called_later)) =
      steps_lem enabled grid more next below shorts (omega arith) in
    (
      omega arith,
      below_later,
      (
        m + n,
        omega (arith, add-mul m n q),
        ap₂ ◌++◌ called (called_later ∙ ap (λ t. every q t n) moved)
            ∙ sym (every-append q c.time m n),
      ),
    )
