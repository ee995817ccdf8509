-- ===== src/Local/Modes/Examples.antt =====
-- A firmware that blanks the removed conditions, with a list of three, and a flight with the latch.
use betaflight_sitl_udp.Base.{
  ℕ, ◌≡◌, ◌≢◌, ◌==◌, refl, sym, ◌∙◌, ap, Bool, true, false, ◌&&◌, ◌||◌, not, List, [], ◌∷◌, some,
  if◌then◌else◌, arith, if_split, reverse_onto,
}
use betaflight_sitl_udp.Local.Modes.{
  Condition, Firmware, Modes, Range, no_range, condition_of, find_range, is_valid, empty,
  get_mode_range, set_mode_range, update_all, range_of,
}
use betaflight_sitl_udp.Local.Modes.Ranges.{IsCleared, IsDocumented, get-set_mode_range}
use betaflight_sitl_udp.Local.Modes.CrashFlip.{disarmed, is_armed, on_since_arming, update_all_lem}

is_used : Condition → Bool
is_used c =
    not (c.mode == 0)
    || not (c.aux_channel == 0)
    || not (c.start_step == 0)
    || not (c.end_step == 0)
    || not (c.logic == 0)
    || not (c.linked_to == 0)

unused_is_empty : (c : Condition) → is_used c ≡ false → c ≡ empty
unfolding is_used
unused_is_empty c unused =
    let mode : c.mode ≡ 0 = ground arith in
    let channel : c.aux_channel ≡ 0 = ground arith in
    let first : c.start_step ≡ 0 = ground arith in
    let last : c.end_step ≡ 0 = ground arith in
    let logic : c.logic ≡ 0 = ground arith in
    let linked : c.linked_to ≡ 0 = ground arith in
    λ i. record {
      mode = mode i;
      aux_channel = channel i;
      start_step = first i;
      end_step = last i;
      logic = logic i;
      linked_to = linked i;
    }

blank : ℕ → List Condition → List Condition
blank box [] = []
blank box (c ∷ rest) = (if c.mode == box then empty else c) ∷ blank box rest

abbrev blanking : Firmware
blanking = record {
  max_step = 48;
  remove_condition = blank;
  is_configured = is_used;
  box_of_permanent_id = λ id. some id;
}

blank-IsCleared :
    (box : ℕ) (conditions : List Condition) → IsCleared blanking box (blank box conditions)
unfolding blank is_used
blank-IsCleared box [] = tt
blank-IsCleared box (c ∷ rest) = (one, blank-IsCleared box rest)
  where
    one :
        (is_used (if c.mode == box then empty else c)
          && (if c.mode == box then empty else c).mode == box)
        ≡ false
    one =
        if_split (λ d. (is_used d && d.mode == box) ≡ false) (c.mode == box) (λ e. refl)
          (λ e. ap (λ b. is_used c && b) e ∙ ground arith)

find_range-blank :
    (box other : ℕ) (conditions : List Condition)
    → other ≢ box
    → find_range blanking other (blank box conditions) ≡ find_range blanking other conditions
unfolding find_range blank is_used
find_range-blank box other [] differ = refl
find_range-blank box other (c ∷ rest) differ =
    let rest_same = find_range-blank box other rest differ in
    let old = find_range blanking other rest in
    if_split
      (λ (d : Condition).
        (if is_used d && d.mode == other
          then range_of d
          else find_range blanking other (blank box rest))
        ≡ (if is_used c && c.mode == other then range_of c else old))
      (c.mode == box)
      (λ e.
        let other_box : (c.mode == other) ≡ false = ground arith in
        let no_match : (is_used c && c.mode == other) ≡ false =
          ap (λ b. is_used c && b) other_box ∙ ground arith in
        rest_same ∙ sym (ap (λ b. if b then range_of c else old) no_match))
      (λ e. ap (λ later. if is_used c && c.mode == other then range_of c else later) rest_same)

blanking-IsDocumented : IsDocumented blanking
unfolding is_used
blanking-IsDocumented = record {
  removed = blank-IsCleared;
  others_kept = find_range-blank;
  empty_is_free = refl;
  only_empty_is_free = unused_is_empty;
}

-- Angle mode is box 1: the old range of it goes, the arm switch stays.
abbrev three_modes : Modes
three_modes = record {
  conditions =
      condition_of 0 (record { aux = 0; first = 32; last = 48 })
      ∷ condition_of 1 (record { aux = 1; first = 0; last = 16 })
      ∷ empty
      ∷ [];
  write_requested = false;
}

abbrev high : Range
high = record { aux = 3; first = 40; last = 48 }

get-set_mode_range_example :
    let (done, n) = set_mode_range blanking true (some 1) high three_modes in
    (done ≡ true)
    × (n.write_requested ≡ true)
    × ((condition_of 1 high ≢ empty) → get_mode_range blanking true (some 1) n ≡ high)
    × (condition_of 1 high ≡ empty → get_mode_range blanking true (some 1) n ≡ no_range)
    × ((other : ℕ)
        → other ≢ 1
        → get_mode_range blanking true (some other) n
          ≡ get_mode_range blanking true (some other) three_modes)
unfolding is_valid is_used blank
get-set_mode_range_example =
    get-set_mode_range blanking blanking-IsDocumented 1 high three_modes refl
      (λ e. omega (arith, e)) refl

-- Armed with the box on, then the box goes off and on again: the latest step stands first.
abbrev flight : List (Bool × Bool)
flight = (true, true) ∷ (true, false) ∷ (true, true) ∷ (false, true) ∷ []

update_all_lem_example :
    (update_all (reverse_onto [] flight) disarmed).latched
    ≡ (is_armed flight && on_since_arming flight)
update_all_lem_example = update_all_lem flight
