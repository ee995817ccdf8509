-- ===== src/Osd/Font.antt =====
-- The font cache of src/sitl_osd.c: `gFontBytes`, `gFontSeenBitmap`, `gFontSeenCount`,
-- `gFontRevision`, `gFontPath` and `gFontPendingSave`, the upload of a character, and the file that
-- keeps the font of an aircraft. The bitmap is a list with one flag for each of its 256 bits. The
-- file system is a parameter: what `fopen` and `fread` give for a path. A C string is the list of its
-- bytes before the terminator.
pub mod Progress
pub mod Upload
pub mod Path
mod Examples
use betaflight_sitl_udp.Base.{
  same_string, ℕ, zero, suc, ◌+◌, ◌*◌, ◌==◌, Bool, true, false, ◌&&◌, ◌||◌, not, List, [], ◌∷◌,
  ◌++◌, Option, none, some, ltb, leb, if◌then◌else◌, add32, length, get_elem?, set, take, drop,
  replicate,
}
use mathlib.Core.Option

abbrev pub char_count : ℕ
char_count = 256

abbrev pub char_bytes : ℕ
char_bytes = 54

-- `sizeof(gFontBytes)`
abbrev pub font_size : ℕ
font_size = 13824

-- "osd_font.bin"
abbrev pub osd_font_file : List ℕ
osd_font_file =
    b'o' ∷ b's' ∷ b'd' ∷ b'_' ∷ b'f' ∷ b'o' ∷ b'n' ∷ b't' ∷ b'.' ∷ b'b' ∷ b'i' ∷ b'n' ∷ []

pub record Font : Type 0 where
  pub bytes : List ℕ
  pub seen : List Bool
  pub seen_count : ℕ
  pub revision : ℕ
  pub path : List ℕ
  pub pending_save : Bool

-- `memcpy` into an array.
pub overwrite : List ℕ → ℕ → List ℕ → List ℕ
overwrite bytes at chunk = take at bytes ++ (chunk ++ drop (at + length chunk) bytes)

-- Where an upload starts again.
pub forget_seen : Font → Font
forget_seen f = record f { seen = replicate char_count false; seen_count = 0 }

-- The bit of the address, and the count that follows it.
pub mark_seen : ℕ → Font → Font
mark_seen addr f =
    if Option.get_or (get_elem? f.seen addr) true
    then f
    else record f { seen = set f.seen addr true; seen_count = f.seen_count + 1 }

-- The part of `wrapWriteFontCharacter` under the lock.
pub cache_character : ℕ → List ℕ → Font → Font
unfolding overwrite forget_seen mark_seen
cache_character addr chunk f =
    let started = if addr == 0 then forget_seen f else f in
    let copied = record started { bytes = overwrite started.bytes (addr * char_bytes) chunk } in
    let marked = mark_seen addr copied in
    record marked {
      revision = add32 marked.revision 1;
      pending_save = if marked.seen_count == char_count then true else marked.pending_save;
    }

-- `wrapWriteFontCharacter`, with the visible bytes of the character or a null pointer: its result and
-- the cache. The real driver is offered the character too, and its answer is ignored.
pub write_font_character : ℕ → Option (List ℕ) → Font → Bool × Font
unfolding cache_character
write_font_character addr none f = (false, f)
write_font_character addr (some chunk) f =
    if ltb addr char_count then (true, cache_character addr chunk f) else (false, f)

-- The scan of `osdFontPath` from the index `i` on: the length of the directory part up to the last
-- separator, or 0 where there is none (`slash == NULL`).
pub directory_length : ℕ → ℕ → List ℕ → ℕ
directory_length i found [] = found
directory_length i found (c ∷ rest) =
    directory_length (i + 1) (if c == 92 || c == 47 then i + 1 else found) rest

-- The end of `osdFontPath`.
pub file_beside : ℕ → ℕ → List ℕ → List ℕ
file_beside size dir_len eeprom =
    if dir_len == 0
    then []
    else if ltb size (dir_len + 13)
    then []
    else take dir_len eeprom ++ osd_font_file

-- `osdFontPath`, with BF_SITL_EEPROM and the size of the caller's buffer.
pub font_path : Option (List ℕ) → ℕ → List ℕ
unfolding directory_length file_beside
font_path none size = []
font_path (some eeprom) size =
    if ltb size 2 then [] else file_beside size (directory_length 0 0 eeprom) eeprom

-- `osdFontLoadFile`, on what `fread` got of the file, or `none` where `fopen` failed.
pub load_file : Option (List ℕ) → Font → Font
load_file none f = f
load_file (some got) f =
    if length got == font_size
    then record f {
      bytes = got;
      seen = replicate char_count true;
      seen_count = char_count;
      revision = add32 f.revision 1;
    }
    else f

-- The path has changed: the live font goes, and the stored one comes.
pub change_path : (List ℕ → Option (List ℕ)) → List ℕ → Font → Font
unfolding forget_seen load_file
change_path files new_path f =
    let moved = record (forget_seen f) { path = new_path } in
    if length new_path == 0 then moved else load_file (files new_path) moved

-- What `osdFontWriteFile` is called with.
abbrev pub Saves : Type 0
Saves = List (List ℕ × List ℕ)

pub pending : Font → Saves
pending f = if f.pending_save && not (length f.path == 0) then (f.path, f.bytes) ∷ [] else []

-- `osdFontSyncWithPath`: the cache, and the files written. `max_path` is MAX_PATH.
pub sync_with_path : ℕ → (List ℕ → Option (List ℕ)) → Option (List ℕ) → Font → Font × Saves
unfolding pending change_path font_path
sync_with_path max_path files eeprom f =
    let new_path = font_path eeprom max_path in
    let saved = record f { pending_save = false } in
    (if same_string new_path f.path then saved else change_path files new_path saved, pending f)

-- What the getters read under the lock.
pub shown_revision : Font → ℕ
shown_revision f = if f.seen_count == char_count then f.revision else 0

pub shown_font : Font → Option (List ℕ)
shown_font f = if f.seen_count == char_count then some (f.bytes) else none

-- `sitl_local_get_osd_font_revision`, which synchronises the cache first: the revision, the cache and
-- the files written.
pub font_revision : ℕ → (List ℕ → Option (List ℕ)) → Option (List ℕ) → Font → ℕ × Font × Saves
unfolding shown_revision
font_revision max_path files eeprom f =
    let (g, saves) = sync_with_path max_path files eeprom f in (shown_revision g, g, saves)

-- `sitl_local_get_osd_font` with a buffer of the given size, `none` where it returns 0. A buffer that
-- is too small is refused before the cache is synchronised.
pub get_font :
    ℕ → (List ℕ → Option (List ℕ)) → Option (List ℕ) → ℕ → Font → Option (List ℕ) × Font × Saves
unfolding shown_font
get_font max_path files eeprom size f =
    let (g, saves) = sync_with_path max_path files eeprom f in
    if ltb size font_size then (none, f, []) else (shown_font g, g, saves)
