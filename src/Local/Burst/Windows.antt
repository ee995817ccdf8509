-- ===== src/Local/Burst/Windows.antt =====
-- What the log of a whole window holds, where the MSP thread keeps up.
use betaflight_sitl_udp.Base.{
  ℕ, suc, ◌+◌, ◌%◌, ◌^◌, ◌<◌, ◌≡◌, refl, sym, ◌∙◌, ap, List, [], ◌∷◌, ◌++◌, some, ltb, leb,
  if◌then◌else◌, arith, inl, inr, ◌⊎◌, if_both, true, false, Bool, not, ◌&&◌, subst,
}
use betaflight_sitl_udp.Local.Burst.{
  Ring, Recorder, Pace, Line, take_record, burst_log, burst_records, push, burst_open, burst_write,
  burst_close,
}
use betaflight_sitl_udp.Local.Burst.Queue.{IsValid, contents, push-IsValid}
use betaflight_sitl_udp.Local.Burst.Log.{
  IsAt, IsWhole, Holds, push-IsAt, burst_open-Holds, burst_write-Holds, burst_close-Holds,
  ClosesEmpty,
}

-- A step of the control loop, or a part of the MSP thread's round: the opening, some rounds of its
-- loop, or the closing.
pub data Event (A : Type 0) : Type 0 where
  log_call : (step now : ℕ) → A → Event A
  open_call : Event A
  write_call : (rounds : ℕ) → Event A
  close_call : Event A

module _ {A : Type 0} where
  taken_lt :
      (recording is_open : Bool) (ring : Ring A) (log : List (Line A)) (count : ℕ) (recs : List A)
      → IsAt recording is_open ring log count recs
      → (if recording then count else 0) < burst_records
  taken_lt true true ring log count recs (size, few, fed) = few
  taken_lt true false ring log count recs (size, few, whole) = few
  taken_lt false is_open ring log count recs at = omega arith

  -- The MSP thread keeps up: a window starts with the log of the last one closed, and ends with its own
  -- log open, and the log is closed only when no record waits.
  abbrev pub IsTimely : Recorder A → Recorder A → Type 0
  IsTimely s next =
      (s.recording ≡ false → next.recording ≡ true → s.is_open ≡ false)
      × (s.recording ≡ true → next.recording ≡ false → s.is_open ≡ true)
      × ClosesEmpty s next

  take_record-Holds :
      (p : Pace) (step now : ℕ) (rec : A) (s : Recorder A) (recs : List A)
      → IsTimely s (take_record p step now rec s)
      → Holds s recs
      → Holds (take_record p step now rec s) (if s.recording then recs ++ (rec ∷ []) else rec ∷ [])
  unfolding take_record
  take_record-Holds p step now rec s recs (start, end, _) h =
      let k = if s.recording then s.burst_step else 0 in
      let few = taken_lt s.recording s.is_open s.ring s.log s.burst_step recs h.at in
      let same : (k + 1) % 2 ^ 32 ≡ suc k = omega (arith, few) in
      record {
        valid = push-IsValid s.ring rec h.valid;
        at =
            subst
              (λ c.
                IsAt (not (leb burst_records c)) s.is_open (push s.ring rec) s.log c
                  (if s.recording then recs ++ (rec ∷ []) else rec ∷ []))
              (sym same)
              (push-IsAt s.recording s.is_open (leb burst_records (suc k)) s.ring s.log s.burst_step
                recs rec h.valid h.at refl
                (λ idle going. start idle (ap (λ c. not (leb burst_records c)) same ∙ ap not going))
                (λ on ending. end on (ap (λ c. not (leb burst_records c)) same ∙ ap not ending)));
      }

  burst_log_cases :
      (p : Pace) (step now : ℕ) (rec : A) (s : Recorder A)
      → (burst_log p step now rec s ≡ (false, s))
        ⊎ (burst_log p step now rec s ≡ (true, take_record p step now rec s))
  unfolding burst_log
  burst_log_cases p step now rec s =
      let IsCase : Bool × Recorder A → Type 0 =
        λ r. (r ≡ (false, s)) ⊎ (r ≡ (true, take_record p step now rec s)) in
      if_both IsCase (not p.enabled) (inl refl) (
        if_both IsCase (not s.recording && ltb now s.next_burst) (inl refl)
          (if_both IsCase (ltb now s.next_record) (inl refl) (inr refl)))

  -- One event, with the records of the window that is open or was the last.
  abbrev pub follow :
      Pace → List ℕ → (List ℕ → Bool) → Event A → Recorder A × List A → Recorder A × List A
  follow p name fopen (log_call step now rec) (s, recs) =
      let (taken, next) = burst_log p step now rec s in
      (next, if taken then (if s.recording then recs ++ (rec ∷ []) else rec ∷ []) else recs)
  follow p name fopen open_call (s, recs) = (burst_open (some name) fopen s, recs)
  follow p name fopen (write_call rounds) (s, recs) = (burst_write rounds s, recs)
  follow p name fopen close_call (s, recs) = (burst_close s, recs)

  abbrev pub follow_all :
      Pace → List ℕ → (List ℕ → Bool) → List (Event A) → Recorder A × List A → Recorder A × List A
  follow_all p name fopen [] state = state
  follow_all p name fopen (e ∷ events) state =
      follow_all p name fopen events (follow p name fopen e state)

  abbrev pub AllTimely :
      Pace → List ℕ → (List ℕ → Bool) → List (Event A) → Recorder A × List A → Type 0
  AllTimely p name fopen [] state = Unit
  AllTimely p name fopen (e ∷ events) state =
      IsTimely state.0 (follow p name fopen e state).0
      × AllTimely p name fopen events (follow p name fopen e state)

  follow-Holds :
      (p : Pace) (name : List ℕ) (fopen : List ℕ → Bool) (e : Event A) (s : Recorder A)
      (recs : List A)
      → fopen name ≡ true
      → IsTimely s (follow p name fopen e (s, recs)).0
      → Holds s recs
      → let (next, more) = follow p name fopen e (s, recs) in Holds next more
  follow-Holds p name fopen open_call s recs can timely h = burst_open-Holds name fopen s recs can h
  follow-Holds p name fopen (write_call rounds) s recs can timely h =
      burst_write-Holds rounds s recs h
  follow-Holds p name fopen close_call s recs can timely h = burst_close-Holds s recs timely.2 h
  follow-Holds p name fopen (log_call step now rec) s recs can timely h =
      let IsKept : Bool × Recorder A → Type 0 = λ r.
        Holds r.1 (if r.0 then (if s.recording then recs ++ (rec ∷ []) else rec ∷ []) else recs) in
      elim (burst_log_cases p step now rec s) [
        | inl skipped ↦ subst IsKept (sym skipped) h
        | inr taken ↦
            subst IsKept (sym taken)
              (take_record-Holds p step now rec s recs (subst (λ r. IsTimely s r.1) taken timely) h)
      ]

  follow_all-Holds :
      (p : Pace) (name : List ℕ) (fopen : List ℕ → Bool) (events : List (Event A)) (s : Recorder A)
      (recs : List A)
      → fopen name ≡ true
      → AllTimely p name fopen events (s, recs)
      → Holds s recs
      → let (next, more) = follow_all p name fopen events (s, recs) in Holds next more
  follow_all-Holds p name fopen [] s recs can timely h = h
  follow_all-Holds p name fopen (e ∷ events) s recs can (now_timely, later) h =
      let (next, more) = follow p name fopen e (s, recs) in
      follow_all-Holds p name fopen events next more can later
        (follow-Holds p name fopen e s recs can now_timely h)

  -- Over any history of steps of the control loop and of parts of the MSP thread's rounds, which may
  -- interleave in any order, from an idle recorder with an empty ring, where the log can be opened, each
  -- window starts with the last log closed and ends with its own open, and the log is closed only when
  -- no record waits: whenever the recorder is idle again and the log is closed, no record waits, and the
  -- log holds its header and exactly the 2000 records of the last window, in order, with no note of
  -- dropped ones.
  pub follow_all-IsWhole :
      (p : Pace) (name : List ℕ) (fopen : List ℕ → Bool) (events : List (Event A)) (s : Recorder A)
      → fopen name ≡ true
      → IsValid s.ring
      → contents s.ring ≡ []
      → s.recording ≡ false
      → s.is_open ≡ false
      → AllTimely p name fopen events (s, [])
      → (follow_all p name fopen events (s, [])).0.recording ≡ false
      → (follow_all p name fopen events (s, [])).0.is_open ≡ false
      → let (end, recs) = follow_all p name fopen events (s, []) in
        (contents end.ring ≡ []) × IsWhole end.log recs
  follow_all-IsWhole p name fopen events s can valid empty idle shut timely over closed =
      let (end, recs) = follow_all p name fopen events (s, []) in
      let started : IsAt s.recording s.is_open s.ring s.log s.burst_step [] =
        subst (λ r. IsAt r s.is_open s.ring s.log s.burst_step []) (sym idle)
          (subst (λ o. IsAt false o s.ring s.log s.burst_step []) (sym shut) (empty, inl refl)) in
      let h =
        follow_all-Holds p name fopen events s [] can timely
          (record { valid = valid; at = started }) in
      subst (λ o. IsAt false o end.ring end.log end.burst_step recs) closed
        (subst (λ r. IsAt r end.is_open end.ring end.log end.burst_step recs) over h.at)
