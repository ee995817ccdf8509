-- ===== src/Local/Grid/Snap.antt =====
-- Which steps of the host are snapped onto the grid.
use native.Mathlib.Nat.{div-eq_of_lt, add-mul-div_right, suc-mul, mul-pos}
use betaflight_sitl_udp.Base.{
  ℕ, suc, ◌+◌, ◌-◌, ◌*◌, ◌/◌, ◌^◌, ◌≤◌, ◌<◌, ◌≡◌, refl, ◌∙◌, ap, true, false, inl, inr, ltb, leb,
  ◌&&◌, if◌then◌else◌, arith, add32, u32, zero_add, if_split, Bool-cases,
}
use betaflight_sitl_udp.Local.Grid.{nearest_on_grid, distance, snap_step}

nearest_on_grid_lem :
    (grid dt k rest : ℕ)
    → rest < grid
    → dt + grid / 2 ≡ k * grid + rest
    → dt + grid < 2 ^ 32
    → nearest_on_grid grid dt ≡ k * grid
unfolding nearest_on_grid
nearest_on_grid_lem grid dt k rest below split small =
    let plain : add32 dt (grid / 2) ≡ rest + k * grid = omega arith in
    let quotient : (rest + k * grid) / grid ≡ k =
      add-mul-div_right rest k (omega arith) ∙ ap (λ d. d + k) (div-eq_of_lt below) ∙ zero_add k in
    ap (λ n. u32 (n / grid * grid)) plain ∙ ap (λ n. u32 (n * grid)) quotient ∙ omega arith

snap_at :
    (grid dt m : ℕ)
    → nearest_on_grid grid dt ≡ m
    → 0 < m
    → distance m dt * 10 ≤ grid * 3
    → 0 < grid
    → grid * 3 < 2 ^ 32
    → snap_step true grid dt ≡ m
unfolding snap_step
snap_at grid dt m nearest pos close there small =
    let enabled : ltb 0 grid ≡ true = ground arith in
    let inside : (ltb 0 m && leb (u32 (distance m dt * 10)) (u32 (grid * 3))) ≡ true =
      ground arith in
    let pick : ℕ → ℕ =
      λ n. if ltb 0 n && leb (u32 (distance n dt * 10)) (u32 (grid * 3)) then n else dt in
    ap (λ b. if b then pick (nearest_on_grid grid dt) else dt) enabled
    ∙ ap pick nearest
    ∙ ap (λ b. if b then m else dt) inside

snap_not_at :
    (grid dt m : ℕ)
    → nearest_on_grid grid dt ≡ m
    → grid * 3 < distance m dt * 10
    → (dt + grid) * 10 < 2 ^ 32
    → distance m dt ≤ grid
    → snap_step true grid dt ≡ dt
unfolding snap_step
snap_not_at grid dt m nearest far small near =
    let outside : (ltb 0 m && leb (u32 (distance m dt * 10)) (u32 (grid * 3))) ≡ false =
      ground arith in
    let pick : ℕ → ℕ =
      λ n. if ltb 0 n && leb (u32 (distance n dt * 10)) (u32 (grid * 3)) then n else dt in
    if_split (λ (r : ℕ). r ≡ dt) (ltb 0 grid)
      (λ e. ap pick nearest ∙ ap (λ b. if b then m else dt) outside) (λ e. refl)

-- A step between two multiples of the period, further than three tenths of a period from both, is
-- left alone.
pub snap_step_far :
    (grid dt k offset : ℕ)
    → dt ≡ k * grid + offset
    → grid * 3 < offset * 10
    → offset * 10 < grid * 7
    → (dt + grid) * 10 < 2 ^ 32
    → snap_step true grid dt ≡ dt
snap_step_far grid dt k offset split past before small =
    elim (Bool-cases (ltb (offset + grid / 2) grid)) [
      | inl low ↦
          snap_not_at grid dt (k * grid)
            (nearest_on_grid_lem grid dt k (offset + grid / 2) (ground arith) (omega arith)
              (omega arith))
            (ground arith) small (ground arith)
      | inr high ↦
          let up = suc-mul k grid in
          snap_not_at grid dt (suc k * grid)
            (nearest_on_grid_lem grid dt (suc k) (offset + grid / 2 - grid) (omega arith)
              (ground (arith, up)) (omega arith))
            (ground (arith, up)) small (ground (arith, up))
    ]

-- A step of the host within three tenths of a grid period of a multiple of the period, other than 0,
-- is replaced by that multiple.
pub snap_step_near :
    (grid dt k : ℕ)
    → 0 < k
    → distance (k * grid) dt * 10 ≤ grid * 3
    → 0 < grid
    → (dt + grid) * 10 < 2 ^ 32
    → snap_step true grid dt ≡ k * grid
snap_step_near grid dt k pos close there small =
    let nearest : nearest_on_grid grid dt ≡ k * grid =
      nearest_on_grid_lem grid dt k (dt + grid / 2 - k * grid) (ground arith) (ground arith)
        (omega arith) in
    snap_at grid dt (k * grid) nearest (mul-pos pos there) close there (omega arith)
