-- ===== src/Local/Burst/Queue.antt =====
-- A valid ring behaves as the bounded queue of the records between its tail and its head.
use betaflight_sitl_udp.Base.{
  ℕ, zero, suc, ◌+◌, ◌-◌, ◌%◌, ◌^◌, ◌==◌, ◌<◌, ◌≡◌, refl, sym, ◌∙◌, ap, ap₂, List, [], ◌∷◌, ◌++◌,
  some, none, ltb, if◌then◌else◌, arith, length, set, slice, Bool-cases, inl, inr, length-append,
  length-set, length-slice, slice_empty, slice-set_outside_low, slice-set_outside_high,
  slice-set_end, slice_uncons, append-nil, append_assoc, if_split, ltb→lt, get_elem?, if_both, true,
  false, Bool, not, subst,
}
use betaflight_sitl_udp.Local.Burst.{
  Ring, next, push, drain_rounds, drain, ring_size, store, refuse,
}

next_lt : (i : ℕ) → i < ring_size → next i < ring_size
next_lt i h = ground arith

-- A push or a drain.
pub data Use (A : Type 0) : Type 0 where
  record_it : A → Use A
  drain_it : Use A

module _ {A : Type 0} where
  -- Both ends lie inside the buffer.
  pub record IsValid (r : Ring A) : Type 0 where
    pub storage : length r.slots ≡ ring_size
    pub head_in : r.head < ring_size
    pub tail_in : r.tail < ring_size

  -- The records that wait, oldest first.
  abbrev pub contents : Ring A → List A
  contents r =
      if ltb r.head r.tail
      then slice r.slots r.tail ring_size ++ slice r.slots 0 r.head
      else slice r.slots r.tail r.head

  abbrev pub waiting : Ring A → ℕ
  waiting r = if ltb r.head r.tail then (ring_size - r.tail) + r.head else r.head - r.tail

  pub length-contents : (r : Ring A) → IsValid r → length (contents r) ≡ waiting r
  length-contents r v = ground (
    arith,
    v.storage,
    v.head_in,
    v.tail_in,
    length-append (slice r.slots r.tail ring_size) (slice r.slots 0 r.head),
    length-slice r.slots r.tail ring_size,
    length-slice r.slots 0 r.head,
    length-slice r.slots r.tail r.head,
  )

  is_full :
      (r : Ring A) → IsValid r → (next r.head == r.tail) ≡ not (ltb (waiting r) (ring_size - 1))
  is_full r v = ground (arith, v.head_in, v.tail_in)

  store-IsValid : (r : Ring A) (rec : A) → IsValid r → IsValid (store r rec)
  store-IsValid r rec v = record {
    storage = length-set r.slots r.head rec ∙ v.storage;
    head_in = next_lt r.head v.head_in;
    tail_in = v.tail_in;
  }

  contents-store :
      (r : Ring A) (rec : A)
      → IsValid r
      → waiting r < ring_size - 1
      → contents (store r rec) ≡ contents r ++ rec ∷ []
  contents-store r rec v room = ground (
    arith,
    v.storage,
    v.head_in,
    v.tail_in,
    slice-set_end r.slots r.tail r.head rec,
    slice-set_end r.slots 0 r.head rec,
    slice-set_outside_high r.slots r.head r.tail r.head rec,
    slice-set_outside_low r.slots r.head r.tail ring_size rec,
    slice_empty (set r.slots r.head rec) 0 0,
    append-nil (slice r.slots r.tail r.head ++ rec ∷ []),
    append_assoc (slice r.slots r.tail ring_size) (slice r.slots 0 r.head) (rec ∷ []),
  )

  pub push-IsValid : (r : Ring A) (rec : A) → IsValid r → IsValid (push r rec)
  unfolding push
  push-IsValid r rec v =
      if_both IsValid (next r.head == r.tail)
        (record { storage = v.storage; head_in = v.head_in; tail_in = v.tail_in })
        (store-IsValid r rec v)

  -- The abstract recorder: a queue of at most 4095 records, and the count of those that found it full.
  abbrev pub offer : List A × ℕ → A → List A × ℕ
  offer (queue, dropped) rec =
      if ltb (length queue) (ring_size - 1)
      then (queue ++ (rec ∷ []), dropped)
      else (queue, (dropped + 1) % 2 ^ 32)

  abbrev pub view : Ring A → List A × ℕ
  view r = (contents r, r.dropped)

  -- The same, with the outcome of the test.
  offer_by : Bool → List A × ℕ → A → List A × ℕ
  offer_by room (queue, dropped) rec =
      if room then (queue ++ (rec ∷ []), dropped) else (queue, (dropped + 1) % 2 ^ 32)

  pub push-offer : (r : Ring A) (rec : A) → IsValid r → view (push r rec) ≡ offer (view r) rec
  unfolding push offer_by
  push-offer r rec v =
      let test : offer (view r) rec ≡ offer_by (ltb (waiting r) (ring_size - 1)) (view r) rec =
        ap (λ n. offer_by (ltb n (ring_size - 1)) (view r) rec) (length-contents r v) in
      elim (Bool-cases (ltb (waiting r) (ring_size - 1))) [
        | inl room ↦
            ap (λ b. view (if b then refuse r else store r rec)) (is_full r v ∙ ap not room)
            ∙ ap (λ q. (q, r.dropped))
                (contents-store r rec v (ltb→lt (waiting r) (ring_size - 1) room))
            ∙ sym (test ∙ ap (λ b. offer_by b (view r) rec) room)
        | inr full ↦
            ap (λ b. view (if b then refuse r else store r rec)) (is_full r v ∙ ap not full)
            ∙ sym (test ∙ ap (λ b. offer_by b (view r) rec) full)
      ]

  -- The MSP thread's move to the next record.
  abbrev step_tail : Ring A → Ring A
  step_tail r = record r { tail = next r.tail }

  step_tail-IsValid : (r : Ring A) → IsValid r → IsValid (step_tail r)
  step_tail-IsValid r v = record {
    storage = v.storage;
    head_in = v.head_in;
    tail_in = next_lt r.tail v.tail_in;
  }

  contents-step_tail :
      (r : Ring A)
      → IsValid r
      → (r.tail == r.head) ≡ false
      → (rec : A) × (get_elem? r.slots r.tail ≡ some rec)
        × (contents r ≡ rec ∷ contents (step_tail r))
        × (waiting r ≡ suc (waiting (step_tail r)))
  contents-step_tail r v more = elim (Bool-cases (ltb r.head r.tail)) [
    | inl wraps ↦
        let (rec, at, rest) =
          slice_uncons r.slots r.tail ring_size v.tail_in (rw v.storage v.tail_in) in
        (
          rec,
          at,
          ground (arith, slice_empty r.slots (suc r.tail) ring_size),
          ground (arith, v.tail_in),
        )
    | inr plain ↦
        let (rec, at, rest) =
          slice_uncons r.slots r.tail r.head (ground arith) (rw v.storage v.tail_in) in
        (
          rec,
          at,
          ground (arith, v.head_in, slice_empty r.slots (suc r.tail) r.head),
          ground (arith, v.head_in, v.tail_in),
        )
  ]

  empty_ring : (r : Ring A) → IsValid r → (r.tail == r.head) ≡ true → contents r ≡ []
  empty_ring r v same = ground (arith, slice_empty r.slots r.tail r.head)

  -- What a drain leaves: it gives the queue, and an empty ring.
  abbrev pub IsDrained : Ring A → List A × Ring A → Type 0
  IsDrained r (lines, rest) = (lines ≡ contents r) × IsValid rest × (view rest ≡ ([], r.dropped))

  drain_rounds_lem :
      (fuel : ℕ) (r : Ring A) → IsValid r → waiting r < fuel → IsDrained r (drain_rounds fuel r)
  unfolding drain_rounds
  drain_rounds_lem zero r v enough = absurd (omega arith)
  drain_rounds_lem (suc fuel) r v enough =
      if_split (IsDrained r) (r.tail == r.head)
        (λ same. (sym (empty_ring r v same), v, ap (λ q. (q, r.dropped)) (empty_ring r v same)))
        (λ more.
          let (rec, at, queue, fewer) = contents-step_tail r v more in
          let (lines, valid, empty) =
            drain_rounds_lem fuel (step_tail r) (step_tail-IsValid r v) (omega arith) in
          subst
            (λ o. IsDrained r (elim o [
              | none ↦ ([], r)
              | some rec ↦
                  (rec ∷ (drain_rounds fuel (step_tail r)).0, (drain_rounds fuel (step_tail r)).1)
            ]))
            (sym at) (ap (◌∷◌ rec) lines ∙ sym queue, valid, empty))

  -- Any number of rounds of the loop takes records off the front and leaves the others.
  pub drain_rounds_kept :
      (fuel : ℕ) (r : Ring A)
      → IsValid r
      → let (lines, rest) = drain_rounds fuel r in
        (lines ++ contents rest ≡ contents r) × IsValid rest × (rest.dropped ≡ r.dropped)
  unfolding drain_rounds
  drain_rounds_kept zero r v = (refl, v, refl)
  drain_rounds_kept (suc fuel) r v =
      let IsKept : List A × Ring A → Type 0 = λ (lines, rest).
        (lines ++ contents rest ≡ contents r) × IsValid rest × (rest.dropped ≡ r.dropped) in
      if_split IsKept (r.tail == r.head) (λ same. (refl, v, refl))
        (λ more.
          let (rec, at, queue, fewer) = contents-step_tail r v more in
          let (kept, valid, dropped) =
            drain_rounds_kept fuel (step_tail r) (step_tail-IsValid r v) in
          subst
            (λ o. IsKept (elim o [
              | none ↦ ([], r)
              | some rec ↦
                  (rec ∷ (drain_rounds fuel (step_tail r)).0, (drain_rounds fuel (step_tail r)).1)
            ]))
            (sym at) (ap (◌∷◌ rec) kept ∙ sym queue, valid, dropped))

  waiting_lt : (r : Ring A) → IsValid r → waiting r < ring_size
  waiting_lt r v = ground (arith, v.head_in, v.tail_in)

  pub drain_lem : (r : Ring A) → IsValid r → IsDrained r (drain r)
  unfolding drain
  drain_lem r v = drain_rounds_lem ring_size r v (waiting_lt r v)

  -- A history, and what it writes, on the ring and on the abstract queue.
  abbrev pub run : List (Use A) → Ring A → List A × Ring A
  run [] r = ([], r)
  run (record_it rec ∷ uses) r = run uses (push r rec)
  run (drain_it ∷ uses) r = let (lines, rest) = run uses (drain r).1 in ((drain r).0 ++ lines, rest)

  abbrev pub run_queue : List (Use A) → List A × ℕ → List A × (List A × ℕ)
  run_queue [] queue = ([], queue)
  run_queue (record_it rec ∷ uses) queue = run_queue uses (offer queue rec)
  run_queue (drain_it ∷ uses) (queue, dropped) =
      let (lines, rest) = run_queue uses ([], dropped) in (queue ++ lines, rest)

  -- Over any history of pushes and drains, a valid ring writes the same records, in the same order, as a
  -- queue that takes a record where fewer than 4095 wait and counts it as dropped where not, and holds
  -- the same at the end.
  pub run-run_queue :
      (uses : List (Use A)) (r : Ring A)
      → IsValid r
      → ((run uses r).0, view (run uses r).1) ≡ run_queue uses (view r)
  run-run_queue [] r v = refl
  run-run_queue (record_it rec ∷ uses) r v =
      run-run_queue uses (push r rec) (push-IsValid r rec v)
      ∙ ap (run_queue uses) (push-offer r rec v)
  run-run_queue (drain_it ∷ uses) r v =
      let (lines, valid, left) = drain_lem r v in
      ap₂ (λ front (q : List A × (List A × ℕ)). (front ++ q.0, q.1)) lines
        (run-run_queue uses (drain r).1 valid ∙ ap (run_queue uses) left)
