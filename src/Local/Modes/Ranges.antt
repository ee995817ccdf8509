-- ===== src/Local/Modes/Ranges.antt =====
-- A range that the host sets is the one that it gets.
use betaflight_sitl_udp.Base.{
  ℕ, ◌≡◌, ◌≢◌, ◌==◌, refl, sym, ◌∙◌, ap, Bool, true, false, ◌&&◌, List, [], ◌∷◌, some,
  if◌then◌else◌, arith, subst, ==_refl, Bool-cases, inl, inr,
}
use betaflight_sitl_udp.Local.Modes.{
  Condition, Firmware, Modes, Range, no_channel, no_range, range_of, condition_of, find_range,
  put_in_free, keep_first, is_valid, finish, set_box, get_mode_range, set_mode_range,
  get_arm_switch, set_arm_switch, empty,
}

and_true : (b : Bool) → (b && true) ≡ b
and_true true = refl
and_true false = refl

and_not_eq : (b : Bool) (m n : ℕ) → n ≢ m → (b && m == n) ≡ false
and_not_eq b m n differ = ground arith

module _ (firmware : Firmware) where
  -- No configured condition is for the box.
  abbrev pub IsCleared : ℕ → List Condition → Type 0
  IsCleared box [] = Unit
  IsCleared box (c ∷ rest) =
      ((firmware.is_configured c && c.mode == box) ≡ false) × IsCleared box rest

  -- The documented behaviour of the firmware's operations: the removal clears the box and keeps what
  -- the others have, and a condition counts as not configured exactly where it is all zeros.
  pub record IsDocumented : Type 0 where
    pub removed :
        (box : ℕ) (conditions : List Condition)
        → IsCleared box (firmware.remove_condition box conditions)
    pub others_kept :
        (box other : ℕ) (conditions : List Condition)
        → other ≢ box
        → find_range firmware other (firmware.remove_condition box conditions)
          ≡ find_range firmware other conditions
    pub empty_is_free : firmware.is_configured empty ≡ false
    pub only_empty_is_free : (c : Condition) → firmware.is_configured c ≡ false → c ≡ empty

  find_range-IsCleared :
      (box : ℕ) (conditions : List Condition)
      → IsCleared box conditions
      → find_range firmware box conditions ≡ no_range
  unfolding find_range
  find_range-IsCleared box [] cleared = refl
  find_range-IsCleared box (c ∷ rest) (first, cleared) =
      ap (λ b. if b then range_of c else find_range firmware box rest) first
      ∙ find_range-IsCleared box rest cleared

  -- Whether there is a condition that is not configured.
  abbrev pub has_free : List Condition → Bool
  has_free [] = false
  has_free (c ∷ rest) = if firmware.is_configured c then has_free rest else true

  put_in_free_lem :
      (new : Condition) (conditions : List Condition)
      → has_free conditions ≡ true
      → IsCleared new.mode conditions
      → (done : List Condition) × (put_in_free firmware new conditions ≡ some done)
        × (find_range firmware new.mode done
            ≡ (if firmware.is_configured new then range_of new else no_range))
        × ((other : ℕ)
            → other ≢ new.mode
            → find_range firmware other done ≡ find_range firmware other conditions)
  unfolding put_in_free find_range
  put_in_free_lem new [] some_free cleared = absurd (cc)
  put_in_free_lem new (c ∷ rest) some_free (first, cleared) =
      let box = new.mode in
      elim (Bool-cases (firmware.is_configured c)) [
        | inl in_use ↦
            let free_later : has_free rest ≡ true =
              sym (ap (λ b. if b then has_free rest else true) in_use) ∙ some_free in
            let (done, put, own, others) = put_in_free_lem new rest free_later cleared in
            (
              c ∷ done,
              ap
                    (λ b.
                      if b then keep_first c (put_in_free firmware new rest) else some (new ∷ rest))
                    in_use
                  ∙ ap (keep_first c) put,
              ap (λ b. if b then range_of c else find_range firmware box done) first ∙ own,
              (λ other differ.
                  ap
                    (λ later.
                      if firmware.is_configured c && c.mode == other then range_of c else later)
                    (others other differ)),
            )
        | inr free ↦ (
          new ∷ rest,
          ap (λ b. if b then keep_first c (put_in_free firmware new rest) else some (new ∷ rest))
              free,
          ap
                (λ b.
                  if firmware.is_configured new && b
                  then range_of new
                  else find_range firmware box rest)
                (==_refl box)
              ∙ ap (λ later. if firmware.is_configured new && true then range_of new else later)
                  (find_range-IsCleared box rest cleared)
              ∙ ap (λ b. if b then range_of new else no_range)
                  (and_true (firmware.is_configured new)),
          (λ other differ.
              let not_it : (firmware.is_configured new && box == other) ≡ false =
                and_not_eq (firmware.is_configured new) box other differ in
              let not_c : (firmware.is_configured c && c.mode == other) ≡ false =
                ap (λ b. b && c.mode == other) free in
              ap (λ b. if b then range_of new else find_range firmware other rest) not_it
              ∙ sym (ap (λ b. if b then range_of c else find_range firmware other rest) not_c)),
        )
      ]

  -- The chain of tests of a call with a valid range of a channel.
  set_box_lem :
      (box : ℕ) (r : Range) (m : Modes) (done : List Condition)
      → is_valid firmware r ≡ true
      → r.aux ≢ no_channel
      → put_in_free firmware (condition_of box r) (firmware.remove_condition box m.conditions)
        ≡ some done
      → set_box firmware box r m ≡ (true, record { conditions = done; write_requested = true })
  unfolding set_box finish
  set_box_lem box r m done valid channel put =
      let cleared = firmware.remove_condition box m.conditions in
      let all_gone : Bool × Modes =
        (true, record { conditions = cleared; write_requested = true }) in
      let placed = finish firmware m cleared (put_in_free firmware (condition_of box r) cleared) in
      let given : (r.aux == no_channel) ≡ false = ground arith in
      ap (λ b. if b then (if r.aux == no_channel then all_gone else placed) else (false, m)) valid
      ∙ ap (λ b. if b then all_gone else placed) given
      ∙ ap (finish firmware m cleared) put

  -- Where the host sets a valid range of a channel for a box that the firmware knows, and there is room
  -- once the box's old conditions are removed: the call succeeds and requests a write, the host gets
  -- what it set, or no range exactly where the condition that stands for it is all zeros, and what it
  -- gets for any other box is unchanged.
  pub get-set_mode_range :
      (laws : IsDocumented) (box : ℕ) (r : Range) (m : Modes)
      → is_valid firmware r ≡ true
      → r.aux ≢ no_channel
      → has_free (firmware.remove_condition box m.conditions) ≡ true
      → let (done, n) = set_mode_range firmware true (some box) r m in
        (done ≡ true)
        × (n.write_requested ≡ true)
        × (condition_of box r ≢ empty → get_mode_range firmware true (some box) n ≡ r)
        × (condition_of box r ≡ empty → get_mode_range firmware true (some box) n ≡ no_range)
        × ((other : ℕ)
            → other ≢ box
            → get_mode_range firmware true (some other) n
              ≡ get_mode_range firmware true (some other) m)
  unfolding set_mode_range get_mode_range
  get-set_mode_range laws box r m valid channel room =
      let cleared = firmware.remove_condition box m.conditions in
      let (done, put, own, others) =
        put_in_free_lem (condition_of box r) cleared room (laws.removed box m.conditions) in
      let pick : Bool → Range = λ b. if b then r else no_range in
      subst {A = Bool × Modes}
        (λ t.
          (t.0 ≡ true)
          × (t.1.write_requested ≡ true)
          × (condition_of box r ≢ empty → find_range firmware box t.1.conditions ≡ r)
          × (condition_of box r ≡ empty → find_range firmware box t.1.conditions ≡ no_range)
          × ((other : ℕ)
              → other ≢ box
              → find_range firmware other t.1.conditions ≡ find_range firmware other m.conditions))
        (sym (set_box_lem box r m done valid channel put))
        (
          refl,
          refl,
          (λ some_bits. elim (Bool-cases (firmware.is_configured (condition_of box r))) [
            | inl in_use ↦ own ∙ ap pick in_use
            | inr free ↦ absurd (some_bits (laws.only_empty_is_free (condition_of box r) free))
          ]),
          (λ zeros. own ∙ ap pick (ap firmware.is_configured zeros ∙ laws.empty_is_free)),
          (λ other differ. others other differ ∙ laws.others_kept box other m.conditions differ),
        )

  -- Channel 0xFF clears the box, and leaves what the host gets for the others.
  pub set_mode_range_clears :
      (laws : IsDocumented) (box : ℕ) (r : Range) (m : Modes)
      → is_valid firmware r ≡ true
      → r.aux ≡ no_channel
      → let (done, n) = set_mode_range firmware true (some box) r m in
        (done ≡ true)
        × (get_mode_range firmware true (some box) n ≡ no_range)
        × ((other : ℕ)
            → other ≢ box
            → get_mode_range firmware true (some other) n
              ≡ get_mode_range firmware true (some other) m)
  unfolding set_mode_range get_mode_range set_box
  set_mode_range_clears laws box r m valid none_given =
      let cleared = firmware.remove_condition box m.conditions in
      let all_gone : Bool × Modes =
        (true, record { conditions = cleared; write_requested = true }) in
      let placed = finish firmware m cleared (put_in_free firmware (condition_of box r) cleared) in
      let given : (r.aux == no_channel) ≡ true = ground arith in
      let path =
        ap (λ b. if b then (if r.aux == no_channel then all_gone else placed) else (false, m)) valid
        ∙ ap (λ b. if b then all_gone else placed) given in
      subst {A = Bool × Modes}
        (λ t.
          (t.0 ≡ true)
          × (find_range firmware box t.1.conditions ≡ no_range)
          × ((other : ℕ)
              → other ≢ box
              → find_range firmware other t.1.conditions ≡ find_range firmware other m.conditions))
        (sym path)
        (
          refl,
          find_range-IsCleared box cleared (laws.removed box m.conditions),
          (λ other differ. laws.others_kept box other m.conditions differ),
        )

  zero_is_valid : is_valid firmware (record { aux = 0; first = 0; last = 0 }) ≡ true
  unfolding is_valid
  zero_is_valid = ground arith

  -- The arm switch cannot be set to channel 0 with a range that is all zeros: the call succeeds, and
  -- the host then gets that there is none.
  pub zero_arm_switch_lost :
      (laws : IsDocumented) (m : Modes)
      → has_free (firmware.remove_condition 0 m.conditions) ≡ true
      → let (done, n) = set_arm_switch firmware true (record { aux = 0; first = 0; last = 0 }) m in
        (done ≡ true) × (get_arm_switch firmware true n ≡ no_range)
  unfolding set_arm_switch get_arm_switch
  zero_arm_switch_lost laws m room =
      let r : Range = record { aux = 0; first = 0; last = 0 } in
      let cleared = firmware.remove_condition 0 m.conditions in
      let (done, put, own, others) =
        put_in_free_lem empty cleared room (laws.removed 0 m.conditions) in
      subst {A = Bool × Modes}
        (λ t. (t.0 ≡ true) × (find_range firmware 0 t.1.conditions ≡ no_range))
        (sym (set_box_lem 0 r m done zero_is_valid (λ e. omega (arith, e)) put))
        (refl, own ∙ ap (λ b. if b then range_of empty else no_range) laws.empty_is_free)
