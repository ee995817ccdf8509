-- ===== src/Osd/Font/Upload.antt =====
-- The upload of a font, one character after the other from the address 0.
use betaflight_sitl_udp.Base.{
  ℕ, ◌+◌, ◌*◌, ◌-◌, ◌≤◌, ◌<◌, ◌^◌, ◌%◌, ◌≡◌, refl, sym, ◌∙◌, ap, ap₂, Bool, true, false, ◌==◌,
  Option, List, [], ◌∷◌, ◌++◌, none, some, arith, length, drop, append-nil, ltb, if◌then◌else◌,
  same_string, not, ◌&&◌,
}
use betaflight_sitl_udp.Osd.Font.{
  Font, Saves, char_count, char_bytes, font_size, cache_character, write_font_character,
  shown_revision, shown_font, font_revision, get_font, font_path, pending, sync_with_path,
  change_path, forget_seen, mark_seen,
}
use betaflight_sitl_udp.Osd.Font.Progress.{
  AllGlyphs, joined, upload_from, Uploading, forget-Uploading, written, started_zero, reindex,
  cache_character-revision, cache_character-Uploading, upload_from_lem, drop-drop, drop_all,
}

upload_lem :
    (chunk : List ℕ) (more : List (List ℕ)) (f : Font)
    → AllGlyphs (chunk ∷ more)
    → length (chunk ∷ more) ≤ char_count
    → f.revision < 2 ^ 32
    → let glyphs = chunk ∷ more in
      let g = upload_from 0 glyphs f in
      (Uploading
        (length glyphs)
        (char_count - length glyphs)
        (joined glyphs)
        (drop (length glyphs * char_bytes) f.bytes)
        g)
      × (g.revision ≡ (f.revision + length glyphs) % 2 ^ 32)
upload_lem chunk more f all room small =
    let v = forget-Uploading f in
    let next = cache_character 0 chunk f in
    let on : (write_font_character 0 (some chunk) f).1 ≡ next = written 0 chunk f (omega arith) in
    let same : upload_from 1 more next ≡ upload_from 0 (chunk ∷ more) f =
      ap (upload_from 1 more) (sym on) in
    let u = reindex refl refl refl refl (sym (started_zero f)) v in
    let counter = cache_character-revision {m = 255} chunk f u all.0 in
    let (w, revision) =
      upload_from_lem more 0 255 chunk (drop char_bytes f.bytes) next
        (cache_character-Uploading chunk f u all.0) all.1 (omega arith) (omega (arith, counter)) in
    (
      reindex (omega arith) (omega arith) refl
          (drop-drop f.bytes char_bytes (length more * char_bytes)
            ∙ ap (λ k. drop k f.bytes) (omega arith))
          same w,
      ap (λ (g : Font). g.revision) (sym same) ∙ revision ∙ omega (arith, counter),
    )

path-write_font_character :
    (addr : ℕ) (chunk : List ℕ) (f : Font)
    → (write_font_character addr (some chunk) f).1.path ≡ f.path
unfolding write_font_character cache_character mark_seen forget_seen
path-write_font_character addr chunk f = ground arith

path-upload_from :
    (glyphs : List (List ℕ)) (addr : ℕ) (f : Font) → (upload_from addr glyphs f).path ≡ f.path
path-upload_from [] addr f = refl
path-upload_from (chunk ∷ more) addr f =
    path-upload_from more (addr + 1) (write_font_character addr (some chunk) f).1
    ∙ path-write_font_character addr chunk f

-- Where the path has not changed, the synchronisation writes what waits to be saved and keeps the
-- font.
sync_with_path-same :
    (max_path : ℕ) (files : List ℕ → Option (List ℕ)) (eeprom : Option (List ℕ)) (f : Font)
    → same_string (font_path eeprom max_path) f.path ≡ true
    → sync_with_path max_path files eeprom f ≡ (record f { pending_save = false }, pending f)
unfolding sync_with_path
sync_with_path-same max_path files eeprom f same =
    let saved = record f { pending_save = false } in
    ap (λ b. (if b then saved else change_path files (font_path eeprom max_path) saved, pending f))
      same

font_revision-same :
    (max_path : ℕ) (files : List ℕ → Option (List ℕ)) (eeprom : Option (List ℕ)) (f : Font)
    → same_string (font_path eeprom max_path) f.path ≡ true
    → font_revision max_path files eeprom f
      ≡ (shown_revision f, record f { pending_save = false }, pending f)
unfolding font_revision shown_revision
font_revision-same max_path files eeprom f same =
    ap (λ (r : Font × Saves). (shown_revision r.0, r.0, r.1))
      (sync_with_path-same max_path files eeprom f same)

get_font-same :
    (max_path : ℕ) (files : List ℕ → Option (List ℕ)) (eeprom : Option (List ℕ)) (size : ℕ)
    (f : Font)
    → font_size ≤ size
    → same_string (font_path eeprom max_path) f.path ≡ true
    → get_font max_path files eeprom size f
      ≡ (shown_font f, record f { pending_save = false }, pending f)
unfolding get_font shown_font
get_font-same max_path files eeprom size f room same =
    let large : ltb size font_size ≡ false = ground arith in
    let got : Font × Saves → Option (List ℕ) × Font × Saves = λ r. (shown_font r.0, r.0, r.1) in
    ap (λ b. if b then (none, f, []) else got (sync_with_path max_path files eeprom f)) large
    ∙ ap got (sync_with_path-same max_path files eeprom f same)

if_not : (b : Bool) (saves : Saves) → (if not b then saves else []) ≡ (if b then [] else saves)
if_not true saves = refl
if_not false saves = refl

pending_lem :
    (f : Font) (path bytes : List ℕ)
    → f.pending_save ≡ true
    → f.path ≡ path
    → f.bytes ≡ bytes
    → pending f ≡ (if length path == 0 then [] else (path, bytes) ∷ [])
unfolding pending
pending_lem f path bytes waits there held =
    ap (λ b. if b && not (length f.path == 0) then (f.path, f.bytes) ∷ [] else []) waits
    ∙ ap₂ (λ (q d : List ℕ). if not (length q == 0) then (q, d) ∷ [] else []) there held
    ∙ if_not (length path == 0) ((path, bytes) ∷ [])

upload_bytes :
    (glyphs : List (List ℕ)) (f : Font)
    → AllGlyphs glyphs
    → length glyphs ≡ char_count
    → length f.bytes ≡ font_size
    → f.revision < 2 ^ 32
    → let g = upload_from 0 glyphs f in
      (shown_font g ≡ some (joined glyphs))
      × (shown_revision g ≡ (f.revision + char_count) % 2 ^ 32)
      × (pending g ≡ (if length f.path == 0 then [] else (f.path, joined glyphs) ∷ []))
unfolding shown_font shown_revision
upload_bytes [] f all whole sized small = absurd (omega arith)
upload_bytes (chunk ∷ more) f all whole sized small =
    let (u, revision) = upload_lem chunk more f all (omega arith) small in
    let nothing : drop (length (chunk ∷ more) * char_bytes) f.bytes ≡ [] =
      drop_all (length (chunk ∷ more) * char_bytes) f.bytes (omega arith) in
    let bytes =
      u.split ∙ ap (λ b. joined (chunk ∷ more) ++ b) nothing ∙ append-nil (joined (chunk ∷ more)) in
    let count = u.counted ∙ whole in
    let path = path-upload_from (chunk ∷ more) 0 f in
    (
      ground (arith, bytes, count),
      ground (arith, revision, count),
      pending_lem (upload_from 0 (chunk ∷ more) f) f.path (joined (chunk ∷ more)) (u.saves whole)
          path bytes,
    )

-- After an upload of all 256 characters, of 54 bytes each, from the address 0 on, while the path of the
-- aircraft's font file stays the one that the cache has, a host that reads the revision and then the
-- font, with a buffer that is large enough, gets the font: whatever font and whatever half of an
-- upload there was before, it gets exactly these characters in order, with a revision that has gone up
-- by 256, and the call that reads the revision writes them to the aircraft's file, where there is one,
-- and the other call writes nothing more.
pub upload_whole :
    (glyphs : List (List ℕ)) (f : Font) (size max_path : ℕ) (files : List ℕ → Option (List ℕ))
    (eeprom : Option (List ℕ))
    → AllGlyphs glyphs
    → length glyphs ≡ char_count
    → length f.bytes ≡ font_size
    → f.revision < 2 ^ 32
    → font_size ≤ size
    → same_string (font_path eeprom max_path) f.path ≡ true
    → let g = upload_from 0 glyphs f in
      let (revision, polled, saves) = font_revision max_path files eeprom g in
      let (font, kept, more_saves) = get_font max_path files eeprom size polled in
      (font ≡ some (joined glyphs))
      × (revision ≡ (f.revision + char_count) % 2 ^ 32)
      × (saves ≡ (if length f.path == 0 then [] else (f.path, joined glyphs) ∷ []))
      × (more_saves ≡ [])
unfolding pending
upload_whole glyphs f size max_path files eeprom all whole sized small room same =
    let g = upload_from 0 glyphs f in
    let (font, revision, saves) = upload_bytes glyphs f all whole sized small in
    let synced : same_string (font_path eeprom max_path) g.path ≡ true =
      ap (same_string (font_path eeprom max_path)) (path-upload_from glyphs 0 f) ∙ same in
    let polled = font_revision-same max_path files eeprom g synced in
    let read =
      ap (λ (r : ℕ × Font × Saves). get_font max_path files eeprom size r.1) polled
      ∙ get_font-same max_path files eeprom size (record g { pending_save = false }) room synced in
    (
      ap (λ (r : Option (List ℕ) × Font × Saves). r.0) read ∙ (unfold shown_font in font),
      ap (λ (r : ℕ × Font × Saves). r.0) polled ∙ revision,
      ap (λ (r : ℕ × Font × Saves). r.2) polled ∙ saves,
      ap (λ (r : Option (List ℕ) × Font × Saves). r.2) read,
    )

-- While the characters of an upload, of 54 bytes each, are still coming in, what the host is shown is
-- no font and the revision 0, never a mixture of two fonts.
pub upload_part :
    (glyphs : List (List ℕ)) (f : Font)
    → AllGlyphs glyphs
    → 0 < length glyphs
    → length glyphs < char_count
    → f.revision < 2 ^ 32
    → let g = upload_from 0 glyphs f in (shown_font g ≡ none) × (shown_revision g ≡ 0)
unfolding shown_font shown_revision
upload_part [] f all some_sent part small = absurd (omega arith)
upload_part (chunk ∷ more) f all some_sent part small =
    let (u, _) = upload_lem chunk more f all (omega arith) small in
    (ground (arith, u.counted), ground (arith, u.counted))
