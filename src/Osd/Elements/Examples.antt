-- ===== src/Osd/Elements/Examples.antt =====
-- An element on a canvas of 30 columns and 16 rows, with positions packed into 16 bits.
use betaflight_sitl_udp.Base.{
  ℕ, ◌+◌, ◌*◌, ◌/◌, ◌%◌, ◌^◌, ◌<◌, ◌≡◌, ◌≢◌, ◌==◌, refl, Bool, true, false, not, ◌&&◌, some, ltb,
  arith, all_below, all_below_lem, pos, negsuc, replicate, ==_iff, ltb→lt, if◌then◌else◌,
}
use betaflight_sitl_udp.Osd.Elements.{
  Packing, Elements, clamp, mark_profiles, set_osd_element, get_osd_element,
}
use betaflight_sitl_udp.Osd.Elements.Places.{Says, IsPacking, set-get_osd_element}

abbrev packed : Packing
packed = record {
  place = λ x y. x % 32 + y % 32 * 32 + x / 32 % 2 * 1024;
  flag = λ profile. 2 ^ (10 + profile);
  profile_count = 3;
  item_count = 80;
  x_of = λ value. value % 32 + value / 1024 % 2 * 32;
  y_of = λ value. value / 32 % 32;
  is_visible = λ value. not (value / 2048 % 8 == 0);
}

-- A test for what a packed value says.
abbrev says : ℕ → ℕ → ℕ → Bool → Bool
says value x y visible =
    (packed.x_of value == x)
    && ((packed.y_of value == y)
        && ((if visible then packed.is_visible value else not (packed.is_visible value))
            && ltb value 65536))

and_true : (a b : Bool) → (a && b) ≡ true → (a ≡ true) × (b ≡ true)
and_true a b h = (ground arith, ground arith)

same_visible :
    (shown visible : Bool) → (if visible then shown else not shown) ≡ true → shown ≡ visible
same_visible shown visible h = ground arith

Says-by :
    (value x y : ℕ) (visible : Bool) → says value x y visible ≡ true → Says packed value x y visible
Says-by value x y visible h =
    let (first, h') = and_true _ _ h in
    let (second, h'') = and_true _ _ h' in
    let (third, fourth) = and_true _ _ h'' in
    (
      (==_iff (packed.x_of value) x).0 first,
      (==_iff (packed.y_of value) y).0 second,
      same_visible (packed.is_visible value) visible third,
      ltb→lt value 65536 fourth,
    )

plain_test : all_below 64 (λ x. all_below 32 (λ y. says (packed.place x y) x y false)) ≡ true
unfolding all_below
plain_test = refl

marked_test :
    all_below 64
      (λ x. all_below 32 (λ y. says (mark_profiles packed.flag 3 (packed.place x y)) x y true))
    ≡ true
unfolding all_below mark_profiles
marked_test = refl

packed-IsPacking : IsPacking packed
packed-IsPacking = record {
  plain = λ x y in_x in_y. Says-by (packed.place x y) x y false (
      all_below_lem 32 (λ y. says (packed.place x y) x y false) y
        (all_below_lem 64 (λ x. all_below 32 (λ y. says (packed.place x y) x y false)) x plain_test
          in_x)
        in_y);
  marked = λ x y in_x in_y. Says-by (mark_profiles packed.flag 3 (packed.place x y)) x y true (
      all_below_lem 32 (λ y. says (mark_profiles packed.flag 3 (packed.place x y)) x y true) y
        (all_below_lem 64
          (λ x. all_below 32 (λ y. says (mark_profiles packed.flag 3 (packed.place x y)) x y true))
          x marked_test in_x)
        in_y);
}

abbrev canvas : Elements
canvas = record { active = true; cols = 30; rows = 16; item_pos = replicate 80 0; analyses = 0 }

-- An element that is put off the canvas on both sides.
set-get_osd_element_example :
    let (done, after) = set_osd_element packed (pos 7) (pos 40) (negsuc 0) true canvas in
    (done ≡ true)
    × (get_osd_element packed (pos 7) after ≡ some (clamp (pos 40) 30, (clamp (negsuc 0) 16, true)))
    × (clamp (pos 40) 30 < 30)
    × (clamp (negsuc 0) 16 < 16)
    × ((n : ℕ) → n < 30 → clamp (pos n) 30 ≡ n)
    × ((n : ℕ) → n < 16 → clamp (pos n) 16 ≡ n)
    × ((j : ℕ)
        → j ≢ 7
        → get_osd_element packed (pos j) after ≡ get_osd_element packed (pos j) canvas)
set-get_osd_element_example =
    set-get_osd_element packed canvas 7 (pos 40) (negsuc 0) true packed-IsPacking refl refl
      (omega arith) (omega arith, omega arith) (omega arith, omega arith)
