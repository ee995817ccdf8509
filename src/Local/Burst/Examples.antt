-- ===== src/Local/Burst/Examples.antt =====
-- The theorems on the burst recorder at small histories, and at one whole window.
use betaflight_sitl_udp.Base.{
  ℕ, zero, suc, ◌+◌, ◌≡◌, refl, Bool, true, false, List, [], ◌∷◌, Option, some, none, arith, codes,
  slice_empty, ◌==◌, replicate, ◌&&◌, ◌||◌, not, length, length-replicate,
}
use betaflight_sitl_udp.Local.Burst.{
  Ring, Recorder, Pace, take_record, burst_log, burst_open, burst_write, burst_close, burst_drain,
  ring_size, grid_us, pace,
}
use betaflight_sitl_udp.Local.Burst.Log.{IsWhole}
use betaflight_sitl_udp.Local.Burst.Windows.{
  Event, log_call, open_call, write_call, close_call, follow_all, follow, follow_all-IsWhole,
  AllTimely, IsTimely,
}
use betaflight_sitl_udp.Local.Burst.Queue.{
  IsValid, contents, view, Use, record_it, drain_it, run, run_queue, run-run_queue,
}
use betaflight_sitl_udp.Local.Burst.Pacing.{LogCall, log_all, sample, log_all-sample}

abbrev four_khz : Pace
four_khz = record { enabled = true; period = 12000000; grid = 1000 }

abbrev fresh : Ring ℕ
fresh = record { slots = replicate ring_size 0; head = 0; tail = 0; dropped = 0 }

abbrev idle : Recorder ℕ
idle = record {
  ring = fresh;
  recording = false;
  next_record = 0;
  next_burst = 0;
  burst_step = 0;
  is_open = false;
  log = [];
}

abbrev calls : ℕ → ℕ → List (Event ℕ)
calls zero t = write_call 4096 ∷ close_call ∷ []
calls (suc n) t = log_call 250 t 7 ∷ calls n (t + 1000)

abbrev window : List (Event ℕ)
window =
    log_call 250 0 7 ∷ open_call ∷ write_call 1 ∷ log_call 250 1000 7 ∷ close_call ∷ calls 1998 2000

abbrev always : List ℕ → Bool
always name = true

ends : (follow_all four_khz (codes "b") always window (idle, [])).0.recording ≡ false
unfolding burst_log take_record burst_open burst_write burst_close grid_us
ends = refl

closes : (follow_all four_khz (codes "b") always window (idle, [])).0.is_open ≡ false
unfolding burst_log take_record burst_open burst_write burst_close grid_us
closes = refl

-- A test for what the theorem on windows asks for.
abbrev is_timely : Recorder ℕ → Recorder ℕ → Bool
is_timely s next =
    (s.recording || (not next.recording || not s.is_open))
    && ((not s.recording || (next.recording || s.is_open))
        && (not s.is_open || (next.is_open || s.ring.tail == s.ring.head)))

abbrev all_timely : List (Event ℕ) → Recorder ℕ × List ℕ → Bool
all_timely [] state = true
all_timely (e ∷ events) state =
    let next = follow four_khz (codes "b") always e state in
    is_timely state.0 next.0 && all_timely events next

and_true : (a b : Bool) → (a && b) ≡ true → (a ≡ true) × (b ≡ true)
and_true a b h = (ground arith, ground arith)

met_ends : (r : Ring ℕ) → (r.tail == r.head) ≡ true → contents r ≡ []
met_ends r met = ground (arith, slice_empty r.slots r.tail r.head)

IsTimely-by : (s next : Recorder ℕ) → is_timely s next ≡ true → IsTimely s next
IsTimely-by s next h =
    (ground arith, ground arith, (λ is_open closed. met_ends s.ring (ground arith)))

AllTimely-by :
    (events : List (Event ℕ)) (state : Recorder ℕ × List ℕ)
    → all_timely events state ≡ true
    → AllTimely four_khz (codes "b") always events state
AllTimely-by [] state h = tt
AllTimely-by (e ∷ events) state h =
    let next = follow four_khz (codes "b") always e state in
    let (now_timely, later) = and_true (is_timely state.0 next.0) (all_timely events next) h in
    (IsTimely-by state.0 next.0 now_timely, AllTimely-by events next later)

in_time : all_timely window (idle, []) ≡ true
unfolding burst_log take_record burst_open burst_write burst_close grid_us
in_time = refl

fresh-IsValid : IsValid fresh
fresh-IsValid = record {
  storage = length-replicate {A = ℕ} ring_size 0;
  head_in = omega arith;
  tail_in = omega arith;
}

follow_all-IsWhole_example :
    (contents (follow_all four_khz (codes "b") always window (idle, [])).0.ring ≡ [])
    × IsWhole
        (follow_all four_khz (codes "b") always window (idle, [])).0.log
        (follow_all four_khz (codes "b") always window (idle, [])).1
follow_all-IsWhole_example =
    follow_all-IsWhole four_khz (codes "b") always window idle refl fresh-IsValid refl refl refl
      (AllTimely-by window (idle, []) in_time) ends closes

abbrev uses : List (Use ℕ)
uses = record_it 1 ∷ record_it 2 ∷ drain_it ∷ record_it 3 ∷ []

run-run_queue_example : ((run uses fresh).0, view (run uses fresh).1) ≡ run_queue uses (view fresh)
run-run_queue_example = run-run_queue uses fresh fresh-IsValid

abbrev set_on : Option (List ℕ)
set_on = some (codes "1")

abbrev three_calls : List (LogCall ℕ)
three_calls = (250, (0, 7)) ∷ (250, (250, 7)) ∷ (250, (1000, 7)) ∷ []

log_all-sample_example :
    log_all (pace length set_on none none none) three_calls idle
    ≡ sample (pace length set_on none none none) 0 0 three_calls
log_all-sample_example =
    log_all-sample length set_on none none none three_calls idle refl
      (omega arith, omega arith, (omega arith, omega arith, (omega arith, omega arith, tt))) refl
      refl refl

-- The last record of a window comes between the end of the loop and the closing: it stays in the ring,
-- and the log is closed without it.
last_record_left :
    let s = record idle {
      recording = true;
      is_open = true;
      burst_step = 1999;
      next_record = 2000000;
    } in
    let (end, recs) =
      follow_all four_khz
        (codes "b")
        always
        (write_call 4096 ∷ log_call 250 2000000 7 ∷ close_call ∷ [])
        (s, []) in
    (contents end.ring ≡ 7 ∷ []) × (end.is_open ≡ false) × (end.log ≡ [])
unfolding burst_log take_record burst_write burst_close grid_us
last_record_left = (refl, refl, refl)

-- A window with no round of the MSP thread in it stays in the ring: the next round writes nothing.
window_missed :
    burst_drain (some (codes "b")) always (record idle {
      ring = record fresh { head = 2000 };
      next_record = 2000000;
      next_burst = 14000000;
      burst_step = 2000;
    })
    ≡ record idle {
      ring = record fresh { head = 2000 };
      next_record = 2000000;
      next_burst = 14000000;
      burst_step = 2000;
    }
unfolding burst_drain
window_missed = refl
