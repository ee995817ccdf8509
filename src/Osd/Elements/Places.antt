-- ===== src/Osd/Elements/Places.antt =====
-- An element that is placed is found at its place.
use betaflight_sitl_udp.Base.{
  ℕ, ◌+◌, ◌%◌, ◌^◌, ◌≤◌, ◌<◌, ◌≡◌, ◌≢◌, refl, sym, ◌∙◌, ap, ap₂, subst, if_split, Bool, true, false,
  ◌&&◌, Option, none, some, ltb, get_elem?, set, ℤ, pos, negsuc, arith, length, get_elem?-set_self,
  get_elem?-set_ne,
}
use betaflight_sitl_udp.Osd.Elements.{
  Packing, Elements, clamp, mark_profiles, item_of, element_value, set_osd_element, get_osd_element,
}

-- What a packed value says.
abbrev pub Says : Packing → ℕ → ℕ → ℕ → Bool → Type 0
Says p value x y visible =
    (p.x_of value ≡ x) × (p.y_of value ≡ y) × (p.is_visible value ≡ visible) × (value < 2 ^ 16)

-- The firmware's macros keep the two coordinates and the profiles apart, up to 64 columns and 32 rows.
pub record IsPacking (p : Packing) : Type 0 where
  pub plain : (x y : ℕ) → x < 64 → y < 32 → Says p (p.place x y) x y false
  pub marked :
      (x y : ℕ)
      → x < 64
      → y < 32
      → Says p (mark_profiles p.flag p.profile_count (p.place x y)) x y true

clamp_lt : (n : ℤ) (limit : ℕ) → 0 < limit → limit ≤ 64 → clamp n limit < limit
unfolding clamp
clamp_lt (negsuc n) limit some_room few = omega arith
clamp_lt (pos n) limit some_room few = ground arith

clamp_inside : (n limit : ℕ) → n < limit → limit ≤ 64 → clamp (pos n) limit ≡ n
unfolding clamp
clamp_inside n limit inside few = ground arith

small_word : (value : ℕ) → value < 2 ^ 16 → value % 2 ^ 16 ≡ value
small_word value small = omega arith

Says-word :
    (p : Packing) {value : ℕ} (x y : ℕ) (visible : Bool)
    → Says p value x y visible
    → Says p (value % 2 ^ 16) x y visible
Says-word p {value} x y visible says =
    subst (λ v. Says p v x y visible) (sym (small_word value says.3)) says

element_value-Says :
    (p : Packing) (e : Elements) (col row : ℤ) (visible : Bool)
    → IsPacking p
    → (0 < e.cols) × (e.cols ≤ 64)
    → (0 < e.rows) × (e.rows ≤ 32)
    → Says p (element_value p e col row visible) (clamp col e.cols) (clamp row e.rows) visible
unfolding element_value
element_value-Says p e col row true packing (some_col, cols) (some_row, rows) =
    let in_col = clamp_lt col e.cols some_col cols in
    let in_row = clamp_lt row e.rows some_row (omega arith) in
    Says-word p (clamp col e.cols) (clamp row e.rows) true
      (packing.marked (clamp col e.cols) (clamp row e.rows) (omega arith) (omega arith))
element_value-Says p e col row false packing (some_col, cols) (some_row, rows) =
    let in_col = clamp_lt col e.cols some_col cols in
    let in_row = clamp_lt row e.rows some_row (omega arith) in
    Says-word p (clamp col e.cols) (clamp row e.rows) false
      (packing.plain (clamp col e.cols) (clamp row e.rows) (omega arith) (omega arith))

item_of-found :
    (p : Packing) (e : Elements) (i : ℕ)
    → e.active ≡ true
    → i < p.item_count
    → item_of p e (pos i) ≡ some i
unfolding item_of
item_of-found p e i active known = ground arith

-- What is read of an element whose packed value is there.
get_found :
    (p : Packing) (e : Elements) (i value : ℕ)
    → item_of p e (pos i) ≡ some i
    → get_elem? e.item_pos i ≡ some value
    → get_osd_element p (pos i) e ≡ some (p.x_of value, (p.y_of value, p.is_visible value))
unfolding get_osd_element
get_found p e i value item found =
    let read : Option ℕ → Option (ℕ × (ℕ × Bool)) =
      λ o. elim o [ none ↦ none | some v ↦ some (p.x_of v, (p.y_of v, p.is_visible v)) ] in
    ap (λ o. elim o [ none ↦ none | some j ↦ read (get_elem? e.item_pos j) ]) item ∙ ap read found

get_other :
    (p : Packing) (e : Elements) (i j value : ℕ)
    → j ≢ i
    → get_osd_element p
        (pos j)
        (record e { item_pos = set e.item_pos i value; analyses = e.analyses + 1 })
      ≡ get_osd_element p (pos j) e
unfolding get_osd_element item_of
get_other p e i j value other =
    let read : Option ℕ → Option (ℕ × (ℕ × Bool)) =
      λ o. elim o [ none ↦ none | some v ↦ some (p.x_of v, (p.y_of v, p.is_visible v)) ] in
    if_split
      (λ (o : Option ℕ).
        elim o as (λ x. Option (ℕ × (ℕ × Bool))) [
          | none ↦ none
          | some k ↦ read (get_elem? (set e.item_pos i value) k)
        ]
        ≡ elim o as (λ x. Option (ℕ × (ℕ × Bool))) [
          | none ↦ none
          | some k ↦ read (get_elem? e.item_pos k)
        ])
      (e.active && ltb j p.item_count)
      (λ known. ap read (get_elem?-set_ne e.item_pos i j value (λ same. other (sym same))))
      (λ unknown. refl)

-- Where the OSD is up, on a canvas of at most 64 columns and 32 rows, an element that is placed, shown or
-- hidden, is read back as it was placed, with its coordinates on the canvas, and unchanged if they were
-- there before; and every other element is read as before.
pub set-get_osd_element :
    (p : Packing) (e : Elements) (i : ℕ) (col row : ℤ) (visible : Bool)
    → IsPacking p
    → e.active ≡ true
    → length e.item_pos ≡ p.item_count
    → i < p.item_count
    → (0 < e.cols) × (e.cols ≤ 64)
    → (0 < e.rows) × (e.rows ≤ 32)
    → let (done, after) = set_osd_element p (pos i) col row visible e in
      (done ≡ true)
      × (get_osd_element p (pos i) after ≡ some (clamp col e.cols, (clamp row e.rows, visible)))
      × (clamp col e.cols < e.cols)
      × (clamp row e.rows < e.rows)
      × ((n : ℕ) → n < e.cols → clamp (pos n) e.cols ≡ n)
      × ((n : ℕ) → n < e.rows → clamp (pos n) e.rows ≡ n)
      × ((j : ℕ) → j ≢ i → get_osd_element p (pos j) after ≡ get_osd_element p (pos j) e)
unfolding set_osd_element
set-get_osd_element p e i col row visible packing active sized known (some_col, cols)
      (some_row, rows) =
    let item = item_of-found p e i active known in
    let value = element_value p e col row visible in
    let (x, y, shown, small) =
      element_value-Says p e col row visible packing (some_col, cols) (some_row, rows) in
    let after = record e { item_pos = set e.item_pos i value; analyses = e.analyses + 1 } in
    let went : set_osd_element p (pos i) col row visible e ≡ (true, after) =
      ap
        (λ o. elim o as (λ x. Bool × Elements) [
          | none ↦ (false, e)
          | some j ↦
              (true, record e { item_pos = set e.item_pos j value; analyses = e.analyses + 1 })
        ])
        item in
    (
      ap (λ (r : Bool × Elements). r.0) went,
      ap (λ (r : Bool × Elements). get_osd_element p (pos i) r.1) went
          ∙ get_found p after i value (item_of-found p after i active known)
              (get_elem?-set_self e.item_pos i value (omega arith))
          ∙ ap₂ (λ u v. some (u, v)) x (ap₂ (λ u v. (u, v)) y shown),
      clamp_lt col e.cols some_col cols,
      clamp_lt row e.rows some_row (omega arith),
      (λ n inside. clamp_inside n e.cols inside cols),
      (λ n inside. clamp_inside n e.rows inside (omega arith)),
      (λ j other.
          ap (λ (r : Bool × Elements). get_osd_element p (pos j) r.1) went
          ∙ get_other p e i j value other),
    )
