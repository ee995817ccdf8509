-- ===== src/Osd/Font/Path.antt =====
-- Where the font of an aircraft is kept, and what becomes of it where the aircraft changes.
use betaflight_sitl_udp.Base.{
  same_string, same_string_eq, ℕ, ◌+◌, ◌≤◌, ◌<◌, ◌≡◌, ◌≢◌, refl, sym, ◌∙◌, ap, ap₂, false, ◌==◌,
  ◌⊎◌, List, [], ◌∷◌, ◌++◌, Option, none, some, ltb, if◌then◌else◌, arith, length, take,
  length-append, append_assoc, take-append_left, if_both, if_split, not, ap_if, ◌&&◌,
}
use betaflight_sitl_udp.Osd.Font.{
  Font, font_size, osd_font_file, forget_seen, directory_length, file_beside, font_path, load_file,
  change_path, pending, sync_with_path, shown_font, get_font,
}

-- No separator is in the text.
abbrev pub NoSeparator : List ℕ → Type 0
NoSeparator [] = Unit
NoSeparator (c ∷ rest) = (c ≢ 92) × (c ≢ 47) × NoSeparator rest

directory_length-name :
    (name : List ℕ) (i found : ℕ) → NoSeparator name → directory_length i found name ≡ found
unfolding directory_length
directory_length-name [] i found plain = refl
directory_length-name (c ∷ rest) i found plain =
    directory_length-name rest (i + 1) _ plain.2 ∙ ground (arith, plain.0, plain.1)

directory_length_lem :
    (dir : List ℕ) (separator : ℕ) (name : List ℕ) (i found : ℕ)
    → (separator ≡ 92) ⊎ (separator ≡ 47)
    → NoSeparator name
    → directory_length i found (dir ++ (separator ∷ name)) ≡ i + length dir + 1
unfolding directory_length
directory_length_lem [] separator name i found slash plain =
    directory_length-name name (i + 1) _ plain ∙ ground arith
directory_length_lem (c ∷ dir) separator name i found slash plain =
    directory_length_lem dir separator name (i + 1) _ slash plain ∙ omega arith

take-directory :
    (dir : List ℕ) (separator : ℕ) (name : List ℕ)
    → take (length dir + 1) (dir ++ (separator ∷ name)) ++ osd_font_file
      ≡ dir ++ (separator ∷ osd_font_file)
take-directory dir separator name =
    let whole : (dir ++ separator ∷ []) ++ name ≡ dir ++ (separator ∷ name) =
      append_assoc dir (separator ∷ []) name in
    ap (λ e. take (length dir + 1) e ++ osd_font_file) (sym whole)
    ∙ ap (λ t. t ++ osd_font_file)
        (take-append_left (dir ++ separator ∷ []) name (length dir + 1)
          (sym (length-append dir (separator ∷ []))))
    ∙ append_assoc dir (separator ∷ []) osd_font_file

file_beside_lem :
    (size n : ℕ) (eeprom : List ℕ)
    → 0 < n
    → n + 13 ≤ size
    → file_beside size n eeprom ≡ take n eeprom ++ osd_font_file
unfolding file_beside
file_beside_lem size n eeprom there fits = ground arith

-- The font file stands in the directory of the EEPROM file, under either separator, where the path
-- fits the buffer.
pub font_path_lem :
    (dir name : List ℕ) (separator size : ℕ)
    → (separator ≡ 92) ⊎ (separator ≡ 47)
    → NoSeparator name
    → length dir + 14 ≤ size
    → font_path (some (dir ++ (separator ∷ name))) size ≡ dir ++ (separator ∷ osd_font_file)
unfolding font_path
font_path_lem dir name separator size slash plain fits =
    let eeprom = dir ++ (separator ∷ name) in
    let large : ltb size 2 ≡ false = ground arith in
    let found : directory_length 0 0 eeprom ≡ length dir + 1 =
      directory_length_lem dir separator name 0 0 slash plain ∙ omega arith in
    ap (λ b. if b then [] else file_beside size (directory_length 0 0 eeprom) eeprom) large
    ∙ ap (λ n. file_beside size n eeprom) found
    ∙ file_beside_lem size (length dir + 1) eeprom (omega arith) (omega arith)
    ∙ take-directory dir separator name

-- What a host can get of the font file at a path: the whole file, if it has the size of a font.
abbrev pub stored : (List ℕ → Option (List ℕ)) → List ℕ → Option (List ℕ)
stored files path = if length path == 0 then none else elim (files path) [
  | none ↦ none
  | some got ↦ if length got == font_size then some got else none
]

load_file_lem :
    (content : Option (List ℕ)) (f : Font)
    → f.seen_count ≡ 0
    → (shown_font (load_file content f) ≡ elim content [
      | none ↦ none
      | some got ↦ if length got == font_size then some got else none
    ])
      × ((load_file content f).path ≡ f.path)
      × ((load_file content f).pending_save ≡ f.pending_save)
unfolding load_file shown_font
load_file_lem none f unseen = (ground (arith, unseen), refl, refl)
load_file_lem (some got) f unseen = (
  if_split (λ (g : Font). shown_font g ≡ (if length got == font_size then some got else none))
      (length got == font_size) (λ e. ground arith) (λ e. ground (arith, unseen)),
  if_both (λ (g : Font). g.path ≡ f.path) (length got == font_size) refl refl,
  if_both (λ (g : Font). g.pending_save ≡ f.pending_save) (length got == font_size) refl refl,
)

change_path_lem :
    (files : List ℕ → Option (List ℕ)) (path : List ℕ) (f : Font)
    → (shown_font (change_path files path f) ≡ stored files path)
      × ((change_path files path f).path ≡ path)
      × ((change_path files path f).pending_save ≡ f.pending_save)
unfolding change_path forget_seen
change_path_lem files path f =
    let moved = record (forget_seen f) { path = path } in
    let hidden : shown_font moved ≡ none = unfold shown_font in refl in
    let (font, where_to, waiting) = load_file_lem (files path) moved refl in
    (
      ap_if shown_font (length path == 0) moved (load_file (files path) moved)
          ∙ ap₂ (λ (t e : Option (List ℕ)). if length path == 0 then t else e) hidden font,
      if_both (λ (g : Font). g.path ≡ path) (length path == 0) refl where_to,
      if_both (λ (g : Font). g.pending_save ≡ f.pending_save) (length path == 0) refl waiting,
    )

-- Where the EEPROM moves to another aircraft, a font that still waited to be saved goes to the
-- aircraft it was uploaded for, and the host gets the font stored with the new one, or none where
-- there is none or its file has another size; the old font is never kept.
pub sync_changed :
    (max_path : ℕ) (files : List ℕ → Option (List ℕ)) (eeprom : Option (List ℕ)) (f : Font)
    → font_path eeprom max_path ≢ f.path
    → let new_path = font_path eeprom max_path in
      let (font, g, saves) = get_font max_path files eeprom font_size f in
      (font ≡ stored files new_path)
      × (g.path ≡ new_path)
      × (g.pending_save ≡ false)
      × (saves
          ≡ (if f.pending_save && not (length f.path == 0) then (f.path, f.bytes) ∷ [] else []))
unfolding get_font sync_with_path pending
sync_changed max_path files eeprom f moved =
    let new_path = font_path eeprom max_path in
    let saved = record f { pending_save = false } in
    let (font, where_to, done) = change_path_lem files new_path saved in
    if_split
      (λ (g : Font).
        (shown_font g ≡ stored files new_path)
        × (g.path ≡ new_path)
        × (g.pending_save ≡ false)
        × (pending f
            ≡ (if f.pending_save && not (length f.path == 0) then (f.path, f.bytes) ∷ [] else [])))
      (same_string new_path f.path) (λ e. absurd (moved (same_string_eq new_path f.path e)))
      (λ e. (font, where_to, done, refl))
