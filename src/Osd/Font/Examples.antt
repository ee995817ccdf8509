-- ===== src/Osd/Font/Examples.antt =====
-- The font theorems at an upload of one glyph 256 times, and at two aircraft.
use betaflight_sitl_udp.Base.{
  ℕ, zero, suc, ◌+◌, ◌^◌, ◌%◌, ◌≡◌, refl, false, List, [], ◌∷◌, Option, none, some, arith, length,
  if◌then◌else◌, ◌==◌, replicate, length-replicate,
}
use betaflight_sitl_udp.Osd.Font.{
  Font, char_count, char_bytes, font_size, osd_font_file, font_revision, get_font, font_path,
  directory_length, file_beside, write_font_character,
}
use betaflight_sitl_udp.Osd.Font.Progress.{AllGlyphs, upload_from, joined}
use betaflight_sitl_udp.Osd.Font.Upload.{upload_whole}

abbrev glyph : List ℕ
glyph = replicate char_bytes 85

abbrev no_font : Font
no_font = record {
  bytes = replicate font_size 0;
  seen = replicate char_count false;
  seen_count = 0;
  revision = 0;
  path = b'a' ∷ b'/' ∷ osd_font_file;
  pending_save = false;
}

AllGlyphs-replicate : (n : ℕ) → AllGlyphs (replicate n glyph)
AllGlyphs-replicate zero = tt
AllGlyphs-replicate (suc n) = (refl, AllGlyphs-replicate n)

-- An address behind the last character is refused.
write_behind : (write_font_character 256 (some glyph) no_font).0 ≡ false
unfolding write_font_character
write_behind = refl

abbrev no_files : List ℕ → Option (List ℕ)
no_files path = none

-- The EEPROM file "a/e".
abbrev eeprom : Option (List ℕ)
eeprom = some (b'a' ∷ b'/' ∷ b'e' ∷ [])

upload_whole_example :
    let g = upload_from 0 (replicate char_count glyph) no_font in
    let (revision, polled, saves) = font_revision 260 no_files eeprom g in
    let (font, kept, more_saves) = get_font 260 no_files eeprom font_size polled in
    (font ≡ some (joined (replicate char_count glyph)))
    × (revision ≡ (no_font.revision + char_count) % 2 ^ 32)
    × (saves ≡ (
        if length no_font.path == 0
        then []
        else (no_font.path, joined (replicate char_count glyph)) ∷ []))
    × (more_saves ≡ [])
unfolding font_path directory_length file_beside
upload_whole_example =
    upload_whole (replicate char_count glyph) no_font font_size 260 no_files eeprom
      (AllGlyphs-replicate char_count) refl (length-replicate {A = ℕ} font_size 0) (omega arith)
      (omega arith) refl
