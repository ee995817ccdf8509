-- ===== src/Local/Burst/Pacing.antt =====
-- When the recorder takes a record, against a sampler that counts to 2000 and then pauses.
use betaflight_sitl_udp.Base.{
  ℕ, suc, ◌+◌, ◌^◌, ◌==◌, ◌<◌, ◌≡◌, refl, sym, ◌∙◌, ap, ap₂, ap_if, List, [], ◌∷◌, ltb,
  if◌then◌else◌, arith, max, true, false, Bool, subst, Option,
}
use betaflight_sitl_udp.Local.Burst.{
  Recorder, Pace, take_record, burst_log, burst_records, grid_us, period_us, pace, is_on,
}

-- Calls of `localBurstLog`: the period of the loop, the time and the record of each.
abbrev pub LogCall : Type 0 → Type 0
LogCall A = ℕ × (ℕ × A)

grid_us_lt : (cached step : ℕ) → cached < 2 ^ 32 → step < 2 ^ 32 → grid_us cached step < 2 ^ 32
unfolding grid_us
grid_us_lt cached step c s = ground arith

zero_or_less :
    (k : ℕ) → k < burst_records → (if suc k == burst_records then 0 else suc k) < burst_records
zero_or_less k few = ground arith

-- What the environment can set is small.
pace_lt :
    (strtol : List ℕ → ℕ) (burst period_env full hz_env : Option (List ℕ))
    → let p = pace strtol burst period_env full hz_env in (p.period < 2 ^ 32) × (p.grid < 2 ^ 32)
unfolding pace period_us
pace_lt strtol burst period_env full hz_env = (ground arith, ground arith)

module _ {A : Type 0} where
  -- The times at which the recorder takes a record.
  abbrev pub log_all : Pace → List (LogCall A) → Recorder A → List ℕ
  log_all p [] s = []
  log_all p ((step, (now, rec)) ∷ calls) s =
      let (taken, next) = burst_log p step now rec s in
      let later = log_all p calls next in if taken then now ∷ later else later

  -- The sampler: a record at the first call that is not before `due`; after each the grid passes, and
  -- after the 2000th of a window the period as well.
  abbrev pub sample : Pace → ℕ → ℕ → List (LogCall A) → List ℕ
  sample p taken due [] = []
  sample p taken due ((step, (now, rec)) ∷ calls) =
      let grid = grid_us p.grid step in
      let closed = sample p 0 (now + max grid p.period) calls in
      let going = sample p (suc taken) (now + grid) calls in
      let skipped = sample p taken due calls in
      if ltb now due then skipped else now ∷ (if suc taken == burst_records then closed else going)

  -- Times and periods that are far from the end of 64 bits.
  abbrev pub AllSmall : List (LogCall A) → Type 0
  AllSmall [] = Unit
  AllSmall ((step, (now, rec)) ∷ calls) = (step < 2 ^ 32) × (now < 2 ^ 63) × AllSmall calls

  abbrev taken_of : Recorder A → ℕ
  taken_of s = if s.recording then s.burst_step else 0

  abbrev due_of : Recorder A → ℕ
  due_of s = if s.recording then s.next_record else max s.next_burst s.next_record

  burst_log-if :
      (p : Pace) (step now : ℕ) (rec : A) (s : Recorder A)
      → p.enabled ≡ true
      → burst_log p step now rec s
        ≡ (if ltb now (due_of s) then (false, s) else (true, take_record p step now rec s))
  unfolding burst_log
  burst_log-if p step now rec s on = ground arith

  taken_next :
      (p : Pace) (step now : ℕ) (rec : A) (s : Recorder A)
      → taken_of s < burst_records
      → taken_of (take_record p step now rec s)
        ≡ (if suc (taken_of s) == burst_records then 0 else suc (taken_of s))
  unfolding take_record
  taken_next p step now rec s few = ground arith

  due_next :
      (p : Pace) (step now : ℕ) (rec : A) (s : Recorder A)
      → taken_of s < burst_records
      → p.period < 2 ^ 32
      → grid_us p.grid step < 2 ^ 32
      → now < 2 ^ 63
      → due_of (take_record p step now rec s) ≡ (
          if suc (taken_of s) == burst_records
          then now + max (grid_us p.grid step) p.period
          else now + grid_us p.grid step)
  unfolding take_record
  due_next p step now rec s few period grid small = ground arith

  sample_if :
      (p : Pace) (b : Bool) (k low high : ℕ) (calls : List (LogCall A))
      → sample p (if b then 0 else k) (if b then high else low) calls
        ≡ (if b then sample p 0 high calls else sample p k low calls)
  sample_if p true k low high calls = refl
  sample_if p false k low high calls = refl

  log_all-sample_from :
      (p : Pace) (calls : List (LogCall A)) (s : Recorder A)
      → p.enabled ≡ true
      → p.period < 2 ^ 32
      → p.grid < 2 ^ 32
      → AllSmall calls
      → taken_of s < burst_records
      → log_all p calls s ≡ sample p (taken_of s) (due_of s) calls
  log_all-sample_from p [] s on period grid small few = refl
  log_all-sample_from p ((step, (now, rec)) ∷ calls) s on period grid (fit, early, small) few =
      let next = take_record p step now rec s in
      let gap = grid_us_lt p.grid step grid fit in
      let kept = log_all-sample_from p calls s on period grid small few in
      let after = log_all-sample_from p calls next on period grid small (
        subst (λ k. k < burst_records) (sym (taken_next p step now rec s few))
          (zero_or_less (taken_of s) few)) in
      let split =
        after
        ∙ ap₂ (λ k due. sample p k due calls) (taken_next p step now rec s few)
            (due_next p step now rec s few period gap early)
        ∙ sample_if p (suc (taken_of s) == burst_records) (suc (taken_of s))
            (now + grid_us p.grid step) (now + max (grid_us p.grid step) p.period) calls in
      let pick : Bool × Recorder A → List ℕ =
        λ r. if r.0 then now ∷ log_all p calls r.1 else log_all p calls r.1 in
      ap pick (burst_log-if p step now rec s on)
      ∙ ap_if pick (ltb now (due_of s)) (false, s) (true, next)
      ∙ ap₂ (λ skip rest. if ltb now (due_of s) then skip else now ∷ rest) kept split

  -- However the environment sets the recorder, where it is on and the MSP thread can open its log, it
  -- takes exactly the records of the sampler: with steps below 2^32 us and times below 2^63 us, whatever
  -- order the times come in.
  pub log_all-sample :
      (strtol : List ℕ → ℕ) (burst period_env full hz_env : Option (List ℕ))
      (calls : List (LogCall A)) (s : Recorder A)
      → is_on burst ≡ true
      → AllSmall calls
      → s.recording ≡ false
      → s.next_record ≡ 0
      → s.next_burst ≡ 0
      → let p = pace strtol burst period_env full hz_env in log_all p calls s ≡ sample p 0 0 calls
  unfolding pace
  log_all-sample strtol burst period_env full hz_env calls s on small idle at_once first =
      let p = pace strtol burst period_env full hz_env in
      let (period, grid) = pace_lt strtol burst period_env full hz_env in
      log_all-sample_from p calls s on period grid small (ground arith)
      ∙ ap₂ (λ k due. sample p k due calls) (ground arith) (ground arith)
