-- ===== src/Osd/Canvas/Drawing.antt =====
-- What the drawing functions put on the live grid.
use betaflight_sitl_udp.Base.{
  ℕ, zero, suc, ◌+◌, ◌-◌, ◌≤◌, ◌<◌, ◌≡◌, refl, ◌∙◌, ap, ◌&&◌, ◌||◌, ◌==◌, List, [], ◌∷◌, none, some,
  ltb, leb, if◌then◌else◌, arith, u8, add32, ◌⊎◌, inl, inr, if_split, if_both,
}
use betaflight_sitl_udp.Osd.Canvas.{
  Cell, Firmware, Canvas, cleared, cell_char, max_cols, max_rows, set_cell, put, clear_screen,
  write_sys, write_char, write_from, write_string, publish, draw_screen, init, Event, clears,
  draws_char, draws_string, draws_sys, commits, step,
}

-- The grid fits the arrays, and nothing is drawn outside the canvas.
pub record IsBounded (c : Canvas) : Type 0 where
  pub cols_fit : c.cols ≤ max_cols
  pub rows_fit : c.rows ≤ max_rows
  pub outside : (y x : ℕ) → (c.cols ≤ x) ⊎ (c.rows ≤ y) → c.live y x ≡ cleared

put-IsBounded : {c : Canvas} (x y : ℕ) (cell : Cell) → IsBounded c → IsBounded (put c x y cell)
unfolding put set_cell
put-IsBounded {c} x y cell b =
    if_split IsBounded (leb c.cols x || leb c.rows y) (λ e. b)
      (λ e. record {
        cols_fit = b.cols_fit;
        rows_fit = b.rows_fit;
        outside = λ j i out. ground (arith, b.outside j i out);
      })

-- What the counters and the frame are does not matter.
recount :
    {c d : Canvas} → d.cols ≡ c.cols → d.rows ≡ c.rows → d.live ≡ c.live → IsBounded c → IsBounded d
recount {c} {d} cols rows live b = record {
  cols_fit = omega (arith, b.cols_fit);
  rows_fit = omega (arith, b.rows_fit);
  outside = λ j i out.
      ap (λ l. l j i) live
      ∙ b.outside j i (elim out [ inl h ↦ inl (omega arith) | inr h ↦ inr (omega arith) ]);
}

write_from-IsBounded :
    (k x y attr : ℕ) (text : List ℕ) {c : Canvas}
    → IsBounded c
    → IsBounded (write_from k x y attr text c)
unfolding write_from
write_from-IsBounded k x y attr [] b = b
write_from-IsBounded k x y attr (ch ∷ text) {c} b =
    if_both IsBounded (leb c.cols (u8 (x + k))) b
      (write_from-IsBounded (k + 1) x y attr text (put-IsBounded (u8 (x + k)) y _ b))

-- Every call of the firmware keeps the canvas within the arrays, and draws nothing outside it.
pub step-IsBounded :
    {c : Canvas} (firmware : Firmware) (e : Event) → IsBounded c → IsBounded (step firmware c e)
unfolding step clear_screen write_char write_string write_sys draw_screen publish
step-IsBounded firmware clears b = record {
  cols_fit = b.cols_fit;
  rows_fit = b.rows_fit;
  outside = λ j i out. refl;
}
step-IsBounded firmware (draws_char x y attr character) b =
    put-IsBounded x y _ (recount refl refl refl b)
step-IsBounded firmware (draws_string x y attr none) b = recount refl refl refl b
step-IsBounded firmware (draws_string x y attr (some text)) b =
    write_from-IsBounded 0 x y attr text (recount refl refl refl b)
step-IsBounded firmware (draws_sys x y element) b = put-IsBounded x y _ (recount refl refl refl b)
step-IsBounded firmware (commits video_system) b = recount refl refl refl b

-- Whatever size the displayport asks for, the canvas fits the arrays and starts blank, where the
-- firmware's standard size fits them.
pub init-IsBounded :
    (firmware : Firmware) (cols rows video_system : ℕ) (c : Canvas)
    → firmware.sd_cols ≤ max_cols
    → firmware.sd_rows ≤ max_rows
    → IsBounded (init firmware cols rows video_system c)
unfolding init
init-IsBounded firmware cols rows video_system c wide high = record {
  cols_fit = ground arith;
  rows_fit = ground arith;
  outside = λ j i out. refl;
}

-- The cell of a written character, at the offset `i` of the text.
abbrev pub text_cell : List ℕ → ℕ → ℕ → Cell → Cell
text_cell [] i attr old = old
text_cell (ch ∷ text) zero attr old = record {
  kind = cell_char;
  character = u8 ch;
  attribute = attr;
}
text_cell (ch ∷ text) (suc i) attr old = text_cell text i attr old

put-cols : (c : Canvas) (x y : ℕ) (cell : Cell) → (put c x y cell).cols ≡ c.cols
unfolding put
put-cols c x y cell =
    if_both (λ (d : Canvas). d.cols ≡ c.cols) (leb c.cols x || leb c.rows y) refl refl

put-rows : (c : Canvas) (x y : ℕ) (cell : Cell) → (put c x y cell).rows ≡ c.rows
unfolding put
put-rows c x y cell =
    if_both (λ (d : Canvas). d.rows ≡ c.rows) (leb c.cols x || leb c.rows y) refl refl

put-live :
    (c : Canvas) (x y : ℕ) (cell : Cell) (j i : ℕ)
    → (put c x y cell).live j i
      ≡ (if ltb x c.cols && ltb y c.rows && j == y && i == x then cell else c.live j i)
unfolding put set_cell
put-live c x y cell j i =
    if_split
      (λ (d : Canvas).
        d.live j i
        ≡ (if ltb x c.cols && ltb y c.rows && j == y && i == x then cell else c.live j i))
      (leb c.cols x || leb c.rows y) (λ e. ground arith) (λ e. ground arith)

abbrev shown : Canvas → ℕ → ℕ → ℕ → List ℕ → ℕ → ℕ → Cell
shown c x y attr text j i =
    if j == y && ltb j c.rows && leb x i && ltb i c.cols
    then text_cell text (i - x) attr (c.live j i)
    else c.live j i

text_cell_step :
    (ch : ℕ) (text : List ℕ) (i at attr : ℕ) (old : Cell)
    → at ≤ i
    → text_cell (ch ∷ text) (i - at) attr old ≡ (
        if i == at
        then record { kind = cell_char; character = u8 ch; attribute = attr }
        else text_cell text (i - (at + 1)) attr old)
text_cell_step ch text i at attr old h = go (i - at) refl
  where
    go :
        (n : ℕ)
        → i - at ≡ n
        → text_cell (ch ∷ text) n attr old ≡ (
            if i == at
            then record { kind = cell_char; character = u8 ch; attribute = attr }
            else text_cell text (i - (at + 1)) attr old)
    go zero e = ground arith
    go (suc n) e =
        let same : n ≡ i - (at + 1) = omega arith in
        ground (arith, ap (λ m. text_cell text m attr old) same)

write_from_lem :
    (k x y attr : ℕ) (text : List ℕ) (c : Canvas) (j i : ℕ)
    → c.cols ≤ max_cols
    → x + k < 256
    → (write_from k x y attr text c).live j i ≡ shown c (x + k) y attr text j i
unfolding write_from
write_from_lem k x y attr [] c j i fits small = ground arith
write_from_lem k x y attr (ch ∷ text) c j i fits small =
    if_split (λ (d : Canvas). d.live j i ≡ shown c (x + k) y attr (ch ∷ text) j i)
      (leb c.cols (u8 (x + k))) (λ e. ground arith)
      (λ e.
        let cell : Cell = record { kind = cell_char; character = u8 ch; attribute = attr } in
        let d = put c (u8 (x + k)) y cell in
        ground (
          arith,
          write_from_lem (k + 1) x y attr text d j i,
          put-cols c (u8 (x + k)) y cell,
          put-rows c (u8 (x + k)) y cell,
          put-live c (u8 (x + k)) y cell j i,
          text_cell_step ch text i (x + k) attr (c.live j i),
        ))

-- On a canvas that is no wider than the arrays, `wrapWriteString` writes the text from the given cell on, one character to a cell, cuts it at the
-- right border, and leaves every other cell alone; a row outside the canvas takes nothing.
pub write_string_lem :
    (c : Canvas) (x y attr : ℕ) (text : List ℕ) (j i : ℕ)
    → c.cols ≤ max_cols
    → x < 256
    → (write_string c x y attr (some text)).live j i ≡ (
        if j == y && ltb j c.rows && leb x i && ltb i c.cols
        then text_cell text (i - x) attr (c.live j i)
        else c.live j i)
unfolding write_string
write_string_lem c x y attr text j i fits small =
    let counted = record c { write_string_calls = add32 c.write_string_calls 1 } in
    write_from_lem 0 x y attr text counted j i fits (omega arith)
    ∙ ap (λ m. shown counted m y attr text j i) (omega arith)
