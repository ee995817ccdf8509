-- ===== src/Local/Burst/Log.antt =====
-- What the recorder and its log hold between the parts of a round of the MSP thread, and what each part
-- keeps of it.
use betaflight_sitl_udp.Base.{
  ℕ, suc, ◌+◌, ◌-◌, ◌%◌, ◌^◌, ◌==◌, ◌<◌, ◌≡◌, refl, sym, ◌∙◌, ap, List, [], ◌∷◌, ◌++◌, some, leb,
  if◌then◌else◌, arith, length, map, inr, ◌⊎◌, if_split, not-not, lt→ltb, true, false, Bool, not,
  ◌&&◌, subst, append_assoc, append-nil, length-append,
}
use betaflight_sitl_udp.Local.Burst.{
  Ring, Recorder, Line, header, one_record, dropped_note, burst_records, push, drain_rounds,
  burst_open, burst_write, burst_close, ring_size,
}
use betaflight_sitl_udp.Local.Burst.Queue.{IsValid, contents, view, push-offer, drain_rounds_kept}

module _ {A : Type 0} where
  lines-append :
      (xs ys : List A) → map one_record (xs ++ ys) ≡ map one_record xs ++ map one_record ys
  lines-append [] ys = refl
  lines-append (x ∷ xs) ys = ap (◌∷◌ (one_record x)) (lines-append xs ys)

  -- The log, which is open, and the ring hold the records `recs`.
  abbrev IsFed : Ring A → List (Line A) → List A → Type 0
  IsFed ring log recs =
      (written : List A) × (log ≡ header ∷ map one_record written)
      × (written ++ contents ring ≡ recs)
      × (ring.dropped ≡ 0)

  -- The closed log holds the records `recs` of a whole window, if there has been one.
  abbrev pub IsWhole : List (Line A) → List A → Type 0
  IsWhole log recs =
      (recs ≡ []) ⊎ ((log ≡ header ∷ map one_record recs) × (length recs ≡ burst_records))

  -- The recorder by `recording` and `is_open`.
  abbrev pub IsAt : Bool → Bool → Ring A → List (Line A) → ℕ → List A → Type 0
  IsAt true true ring log count recs =
      (length recs ≡ count) × (count < burst_records) × IsFed ring log recs
  IsAt false true ring log count recs = (length recs ≡ burst_records) × IsFed ring log recs
  IsAt true false ring log count recs =
      (length recs ≡ count) × (count < burst_records) × (contents ring ≡ recs)
  IsAt false false ring log count recs = (contents ring ≡ []) × IsWhole log recs

  push_room :
      (ring : Ring A) (rec : A)
      → IsValid ring
      → length (contents ring) < ring_size - 1
      → view (push ring rec) ≡ (contents ring ++ (rec ∷ []), ring.dropped)
  push_room ring rec valid room =
      push-offer ring rec valid
      ∙ ap
          (λ b.
            if b
            then (contents ring ++ (rec ∷ []), ring.dropped)
            else (contents ring, (ring.dropped + 1) % 2 ^ 32))
          (lt→ltb (length (contents ring)) (ring_size - 1) room)

  push-IsFed :
      (ring : Ring A) (log : List (Line A)) (recs : List A) (rec : A)
      → IsValid ring
      → length recs < burst_records
      → IsFed ring log recs
      → IsFed (push ring rec) log (recs ++ (rec ∷ []))
  push-IsFed ring log recs rec valid few (written, start, whole, none_dropped) =
      let pushed =
        push_room ring rec valid
          (omega (arith, few, ap length whole, length-append written (contents ring))) in
      (
        written,
        start,
        ap (λ (v : List A × ℕ). written ++ v.0) pushed
            ∙ sym (append_assoc written (contents ring) (rec ∷ []))
            ∙ ap (λ q. q ++ (rec ∷ [])) whole,
        ap (λ (v : List A × ℕ). v.1) pushed ∙ none_dropped,
      )

  pub push-IsAt :
      (recording is_open ends : Bool) (ring : Ring A) (log : List (Line A)) (count : ℕ)
      (recs : List A) (rec : A)
      → IsValid ring
      → IsAt recording is_open ring log count recs
      → leb burst_records (suc (if recording then count else 0)) ≡ ends
      → (recording ≡ false → ends ≡ false → is_open ≡ false)
      → (recording ≡ true → ends ≡ true → is_open ≡ true)
      → IsAt
          (not ends)
          is_open
          (push ring rec)
          log
          (suc (if recording then count else 0))
          (if recording then recs ++ (rec ∷ []) else rec ∷ [])
  push-IsAt true true false ring log count recs rec valid (size, few, fed) e start end = (
    omega (arith, size, length-append recs (rec ∷ [])),
    ground arith,
    push-IsFed ring log recs rec valid (omega arith) fed,
  )
  push-IsAt true true true ring log count recs rec valid (size, few, fed) e start end = (
    ground (arith, size, length-append recs (rec ∷ [])),
    push-IsFed ring log recs rec valid (omega arith) fed,
  )
  push-IsAt true false false ring log count recs rec valid (size, few, whole) e start end = (
    omega (arith, size, length-append recs (rec ∷ [])),
    ground arith,
    ap (λ (v : List A × ℕ). v.0) (push_room ring rec valid (omega (arith, ap length whole)))
        ∙ ap (λ q. q ++ (rec ∷ [])) whole,
  )
  push-IsAt true false true ring log count recs rec valid at e start end =
      absurd (cc (end refl refl))
  push-IsAt false true false ring log count recs rec valid at e start end =
      absurd (cc (start refl refl))
  push-IsAt false is_open true ring log count recs rec valid at e start end = absurd (cc e)
  push-IsAt false false false ring log count recs rec valid (empty, log_whole) e start end = (
    refl,
    omega arith,
    ap (λ (v : List A × ℕ). v.0) (push_room ring rec valid (omega (arith, ap length empty)))
        ∙ ap (λ q. q ++ (rec ∷ [])) empty,
  )

  -- What holds of the recorder, with the records of the window that is open or was the last.
  pub record Holds (s : Recorder A) (recs : List A) : Type 0 where
    pub valid : IsValid s.ring
    pub at : IsAt s.recording s.is_open s.ring s.log s.burst_step recs

  write-IsFed :
      (rounds : ℕ) (ring : Ring A) (log : List (Line A)) (recs : List A)
      → IsValid ring
      → IsFed ring log recs
      → let (lines, rest) = drain_rounds rounds ring in
        IsFed rest (log ++ map one_record lines) recs
  write-IsFed rounds ring log recs valid (written, start, whole, none_dropped) =
      let (lines, rest) = drain_rounds rounds ring in
      let (kept, _, dropped) = drain_rounds_kept rounds ring valid in
      (
        written ++ lines,
        ap (λ l. l ++ map one_record lines) start
            ∙ ap (◌∷◌ header) (sym (lines-append written lines)),
        append_assoc written lines (contents rest) ∙ ap (◌++◌ written) kept ∙ whole,
        dropped ∙ none_dropped,
      )

  write-IsAt :
      (recording : Bool) (rounds : ℕ) (ring : Ring A) (log : List (Line A)) (count : ℕ)
      (recs : List A)
      → IsValid ring
      → IsAt recording true ring log count recs
      → let (lines, rest) = drain_rounds rounds ring in
        IsAt recording true rest (log ++ map one_record lines) count recs
  write-IsAt true rounds ring log count recs valid (size, few, fed) =
      (size, few, write-IsFed rounds ring log recs valid fed)
  write-IsAt false rounds ring log count recs valid (size, fed) =
      (size, write-IsFed rounds ring log recs valid fed)

  pub burst_write-Holds :
      (rounds : ℕ) (s : Recorder A) (recs : List A)
      → Holds s recs
      → Holds (burst_write rounds s) recs
  unfolding burst_write
  burst_write-Holds rounds s recs h =
      let ring = (drain_rounds rounds s.ring).1 in
      let log = s.log ++ map one_record (drain_rounds rounds s.ring).0 in
      if_split (λ t. Holds t recs) s.is_open
        (λ is_open. record {
          valid = (drain_rounds_kept rounds s.ring h.valid).1;
          at =
              subst (λ o. IsAt s.recording o ring log s.burst_step recs) (sym is_open)
                (write-IsAt s.recording rounds s.ring s.log s.burst_step recs h.valid
                  (subst (λ o. IsAt s.recording o s.ring s.log s.burst_step recs) is_open h.at));
        })
        (λ shut. h)

  pub burst_open-Holds :
      (name : List ℕ) (fopen : List ℕ → Bool) (s : Recorder A) (recs : List A)
      → fopen name ≡ true
      → Holds s recs
      → Holds (burst_open (some name) fopen s) recs
  unfolding burst_open
  burst_open-Holds name fopen s recs can h =
      let ring = record s.ring { dropped = 0 } in
      if_split (λ t. Holds t recs) s.is_open (λ is_open. h)
        (λ shut.
          if_split (λ t. Holds t recs) (not s.recording) (λ idle. h)
            (λ on'.
              let on = not-not s.recording on' in
              let (size, few, whole) =
                subst (λ r. IsAt r false s.ring s.log s.burst_step recs) on
                  (subst (λ o. IsAt s.recording o s.ring s.log s.burst_step recs) shut h.at) in
              if_split (λ t. Holds t recs) (fopen name)
                (λ can'. record {
                  valid = record {
                    storage = h.valid.storage;
                    head_in = h.valid.head_in;
                    tail_in = h.valid.tail_in;
                  };
                  at =
                      subst (λ r. IsAt r true ring (header ∷ []) s.burst_step recs) (sym on)
                        (size, few, ([], refl, whole, refl));
                })
                (λ cannot. absurd (cc))))

  close-IsAt :
      (ring : Ring A) (log : List (Line A)) (count : ℕ) (recs : List A)
      → contents ring ≡ []
      → IsAt false true ring log count recs
      → IsAt false false ring
          (if ring.dropped == 0 then log else log ++ (dropped_note ring.dropped ∷ []))
          count
          recs
  close-IsAt ring log count recs empty (size, (written, start, whole, none_dropped)) = (
    empty,
    inr (
      ap (λ d. if d == 0 then log else log ++ (dropped_note d ∷ [])) none_dropped
          ∙ start
          ∙ ap (λ r. header ∷ map one_record r)
              (sym (append-nil written) ∙ ap (◌++◌ written) (sym empty) ∙ whole),
      size,
    ),
  )

  -- The log is closed only when no record waits.
  abbrev pub ClosesEmpty : Recorder A → Recorder A → Type 0
  ClosesEmpty s next = s.is_open ≡ true → next.is_open ≡ false → contents s.ring ≡ []

  pub burst_close-Holds :
      (s : Recorder A) (recs : List A)
      → ClosesEmpty s (burst_close s)
      → Holds s recs
      → Holds (burst_close s) recs
  unfolding burst_close
  burst_close-Holds s recs closes h =
      let log =
        if s.ring.dropped == 0 then s.log else s.log ++ (dropped_note s.ring.dropped ∷ []) in
      let closed = record s { log = log; is_open = false } in
      if_split (λ t. Holds t recs) (s.is_open && not s.recording)
        (λ over.
          let is_open : s.is_open ≡ true = ground arith in
          let idle : s.recording ≡ false = ground arith in
          let empty : contents s.ring ≡ [] =
            closes is_open (ap (λ b. (if b then closed else s).is_open) over) in
          let at =
            subst (λ r. IsAt r true s.ring s.log s.burst_step recs) idle
              (subst (λ o. IsAt s.recording o s.ring s.log s.burst_step recs) is_open h.at) in
          record {
            valid = h.valid;
            at =
                subst (λ r. IsAt r false s.ring log s.burst_step recs) (sym idle)
                  (close-IsAt s.ring s.log s.burst_step recs empty at);
          })
        (λ later. h)
