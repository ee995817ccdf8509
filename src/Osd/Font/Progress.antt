-- ===== src/Osd/Font/Progress.antt =====
-- The cache between two characters of an upload, and one character on.
use betaflight_sitl_udp.Base.{
  zero_add, suc_add, ℕ, zero, suc, ◌+◌, ◌*◌, ◌-◌, ◌≤◌, ◌<◌, ◌^◌, ◌%◌, ◌≡◌, refl, sym, ◌∙◌, ap, ap₂,
  Bool, true, false, ◌==◌, List, [], ◌∷◌, ◌++◌, some, ltb, if◌then◌else◌, arith, add32, length,
  get_elem?, set, drop, replicate, length-append, append_assoc, take-append_left, append-nil,
  if_both, subst, drop-nil,
}
use mathlib.Core.Option
use betaflight_sitl_udp.Osd.Font.{
  Font, char_count, char_bytes, overwrite, forget_seen, mark_seen, cache_character,
  write_font_character,
}

-- The upload of the configurator, from an address on.
abbrev pub upload_from : ℕ → List (List ℕ) → Font → Font
upload_from addr [] f = f
upload_from addr (chunk ∷ more) f =
    upload_from (addr + 1) more (write_font_character addr (some chunk) f).1

abbrev pub AllGlyphs : List (List ℕ) → Type 0
AllGlyphs [] = Unit
AllGlyphs (chunk ∷ more) = (length chunk ≡ char_bytes) × AllGlyphs more

abbrev pub joined : List (List ℕ) → List ℕ
joined [] = []
joined (chunk ∷ more) = chunk ++ joined more

-- The flags where the first `n` of `n + m` addresses have been seen.
pub flags : ℕ → ℕ → List Bool
flags zero m = replicate m false
flags (suc n) m = true ∷ flags n m

flags_next : (n m : ℕ) → get_elem? (flags n (suc m)) n ≡ some false
unfolding flags
flags_next zero m = refl
flags_next (suc n) m = flags_next n m

set-flags : (n m : ℕ) → set (flags n (suc m)) n true ≡ flags (suc n) m
unfolding flags
set-flags zero m = refl
set-flags (suc n) m = ap (◌∷◌ true) (set-flags n m)

drop_further : (xs ys : List ℕ) (n : ℕ) → drop (length xs + n) (xs ++ ys) ≡ drop n ys
drop_further [] ys n = ap (λ k. drop k ys) (zero_add n)
drop_further (x ∷ xs) ys n =
    ap (λ k. drop k (x ∷ xs ++ ys)) (suc_add (length xs) n) ∙ drop_further xs ys n

overwrite_lem :
    (xs ys chunk : List ℕ) (n : ℕ)
    → length xs ≡ n
    → overwrite (xs ++ ys) n chunk ≡ xs ++ (chunk ++ drop (length chunk) ys)
unfolding overwrite
overwrite_lem xs ys chunk n e = ap₂ ◌++◌ (take-append_left xs ys n (sym e)) (
    ap (λ k. chunk ++ drop (k + length chunk) (xs ++ ys)) (sym e)
    ∙ ap (λ t. chunk ++ t) (drop_further xs ys (length chunk)))

-- The cache after the first `n` characters of an upload, with `m` to come: `front` holds these
-- characters, and `back` is what the bytes behind them still are.
pub record Uploading (n m : ℕ) (front back : List ℕ) (f : Font) : Type 0 where
  pub total : n + m ≡ char_count
  pub flagged : f.seen ≡ flags n m
  pub counted : f.seen_count ≡ n
  pub split : f.bytes ≡ front ++ back
  pub sized : length front ≡ n * char_bytes
  pub saves : n ≡ char_count → f.pending_save ≡ true

pub forget-Uploading : (f : Font) → Uploading 0 char_count [] f.bytes (forget_seen f)
unfolding forget_seen flags
forget-Uploading f = record {
  total = refl;
  flagged = refl;
  counted = refl;
  split = refl;
  sized = refl;
  saves = λ e. absurd (omega arith);
}

mark_seen_lem :
    (n m : ℕ) (f : Font)
    → f.seen ≡ flags n (suc m)
    → mark_seen n f ≡ record f { seen = flags (suc n) m; seen_count = f.seen_count + 1 }
unfolding mark_seen
mark_seen_lem n m f e =
    let marked : List Bool → Font =
      λ s. record f { seen = set s n true; seen_count = f.seen_count + 1 } in
    ap (λ s. if Option.get_or (get_elem? s n) true then f else marked s) e
    ∙ ap (λ o. if Option.get_or o true then f else marked (flags n (suc m))) (flags_next n m)
    ∙ ap (λ s. record f { seen = s; seen_count = f.seen_count + 1 }) (set-flags n m)

pub started : ℕ → Font → Font
started addr f = if addr == 0 then forget_seen f else f

started-revision : (addr : ℕ) (f : Font) → (started addr f).revision ≡ f.revision
unfolding started forget_seen
started-revision addr f = if_both (λ (g : Font). g.revision ≡ f.revision) (addr == 0) refl refl

started-pending : (addr : ℕ) (f : Font) → (started addr f).pending_save ≡ f.pending_save
unfolding started forget_seen
started-pending addr f =
    if_both (λ (g : Font). g.pending_save ≡ f.pending_save) (addr == 0) refl refl

started-path : (addr : ℕ) (f : Font) → (started addr f).path ≡ f.path
unfolding started forget_seen
started-path addr f = if_both (λ (g : Font). g.path ≡ f.path) (addr == 0) refl refl

-- The state behind one character.
cached : List ℕ → List Bool → ℕ → ℕ → List ℕ → Bool → Font
cached bytes seen count revision path pending_save = record {
  bytes = bytes;
  seen = seen;
  seen_count = count;
  revision = add32 revision 1;
  path = path;
  pending_save = if count == char_count then true else pending_save;
}

cache_character_lem :
    (n m : ℕ) (front back chunk : List ℕ) (f : Font)
    → Uploading n (suc m) front back (started n f)
    → length chunk ≡ char_bytes
    → cache_character n chunk f
      ≡ cached
          (front ++ (chunk ++ drop char_bytes back))
          (flags (suc n) m)
          (suc n)
          f.revision
          f.path
          f.pending_save
unfolding cache_character started cached
cache_character_lem n m front back chunk f u fits =
    let s = started n f in
    let copied = record s { bytes = overwrite s.bytes (n * char_bytes) chunk } in
    let finish : Font → Font = λ g. record g {
      revision = add32 g.revision 1;
      pending_save = if g.seen_count == char_count then true else g.pending_save;
    } in
    let bytes : overwrite s.bytes (n * char_bytes) chunk
        ≡ front ++ (chunk ++ drop char_bytes back) =
      ap (λ b. overwrite b (n * char_bytes) chunk) u.split
      ∙ overwrite_lem front back chunk (n * char_bytes) u.sized
      ∙ ap (λ k. front ++ (chunk ++ drop k back)) fits in
    let count : s.seen_count + 1 ≡ suc n = ap (λ k. k + 1) u.counted ∙ omega arith in
    ap finish (mark_seen_lem n m copied u.flagged)
    ∙ ap (λ b. cached b (flags (suc n) m) (s.seen_count + 1) s.revision s.path s.pending_save) bytes
    ∙ ap
        (λ c.
          cached (front ++ (chunk ++ drop char_bytes back)) (flags (suc n) m) c s.revision s.path
            s.pending_save)
        count
    ∙ ap
        (λ r.
          cached (front ++ (chunk ++ drop char_bytes back)) (flags (suc n) m) (suc n) r s.path
            s.pending_save)
        (started-revision n f)
    ∙ ap
        (λ r.
          cached (front ++ (chunk ++ drop char_bytes back)) (flags (suc n) m) (suc n) f.revision r
            s.pending_save)
        (started-path n f)
    ∙ ap
        (λ r.
          cached (front ++ (chunk ++ drop char_bytes back)) (flags (suc n) m) (suc n) f.revision
            f.path r)
        (started-pending n f)

pub cache_character-Uploading :
    {n m : ℕ} {front back : List ℕ} (chunk : List ℕ) (f : Font)
    → Uploading n (suc m) front back (started n f)
    → length chunk ≡ char_bytes
    → Uploading (suc n) m (front ++ chunk) (drop char_bytes back) (cache_character n chunk f)
unfolding cached
cache_character-Uploading {n} {m} {front} {back} chunk f u fits =
    subst (Uploading (suc n) m (front ++ chunk) (drop char_bytes back))
      (sym (cache_character_lem n m front back chunk f u fits))
      (record {
        total = omega (arith, u.total);
        flagged = refl;
        counted = refl;
        split = sym (append_assoc front chunk (drop char_bytes back));
        sized = omega (arith, length-append front chunk, u.sized);
        saves = λ e. ground arith;
      })

pub cache_character-revision :
    {n m : ℕ} {front back : List ℕ} (chunk : List ℕ) (f : Font)
    → Uploading n (suc m) front back (started n f)
    → length chunk ≡ char_bytes
    → (cache_character n chunk f).revision ≡ add32 f.revision 1
unfolding cached
cache_character-revision {n} {m} {front} {back} chunk f u fits =
    ap (λ (g : Font). g.revision) (cache_character_lem n m front back chunk f u fits)

started_suc : (n : ℕ) (f : Font) → started (suc n) f ≡ f
unfolding started
started_suc n f =
    let no : (suc n == 0) ≡ false = ground arith in ap (λ b. if b then forget_seen f else f) no

pub written :
    (addr : ℕ) (chunk : List ℕ) (f : Font)
    → addr < char_count
    → (write_font_character addr (some chunk) f).1 ≡ cache_character addr chunk f
unfolding write_font_character
written addr chunk f h =
    let inside : ltb addr char_count ≡ true = ground arith in
    let pick : Bool → Bool × Font =
      λ b. if b then (true, cache_character addr chunk f) else (false, f) in
    ap (λ b. (pick b).1) inside

pub reindex :
    {n k m l : ℕ} {front front2 back back2 : List ℕ} {f g : Font}
    → n ≡ k
    → m ≡ l
    → front ≡ front2
    → back ≡ back2
    → f ≡ g
    → Uploading n m front back f
    → Uploading k l front2 back2 g
reindex {k = k} {m = m} {l = l} {front = front} {front2 = front2} {back = back} {back2 = back2}
      {f = f} nk ml ff bb fg u =
    subst (Uploading k l front2 back2) fg (
      subst (λ b. Uploading k l front2 b f) bb
        (subst (λ a. Uploading k l a back f) ff
          (subst (λ j. Uploading k j front back f) ml
            (subst (λ i. Uploading i m front back f) nk u))))

pub drop_all : (n : ℕ) (xs : List ℕ) → length xs ≤ n → drop n xs ≡ []
drop_all zero [] h = refl
drop_all zero (x ∷ xs) h = absurd (omega arith)
drop_all (suc n) [] h = refl
drop_all (suc n) (x ∷ xs) h = drop_all n xs (omega arith)

pub drop-drop : (xs : List ℕ) (n k : ℕ) → drop k (drop n xs) ≡ drop (n + k) xs
drop-drop xs zero k = ap (λ j. drop j xs) (sym (zero_add k))
drop-drop [] (suc n) k = drop-nil k ∙ sym (drop-nil (suc n + k))
drop-drop (x ∷ xs) (suc n) k = drop-drop xs n k ∙ ap (λ j. drop j (x ∷ xs)) (sym (suc_add n k))

pub upload_from_lem :
    (glyphs : List (List ℕ)) (n m : ℕ) (front back : List ℕ) (f : Font)
    → Uploading (suc n) m front back f
    → AllGlyphs glyphs
    → length glyphs ≤ m
    → f.revision < 2 ^ 32
    → (Uploading
        (suc n + length glyphs)
        (m - length glyphs)
        (front ++ joined glyphs)
        (drop (length glyphs * char_bytes) back)
        (upload_from (suc n) glyphs f))
      × ((upload_from (suc n) glyphs f).revision ≡ (f.revision + length glyphs) % 2 ^ 32)
upload_from_lem [] n m front back f u all room small =
    (reindex (omega arith) (omega arith) (sym (append-nil front)) refl refl u, omega arith)
upload_from_lem (chunk ∷ more) n zero front back f u all room small = absurd (omega arith)
upload_from_lem (chunk ∷ more) n (suc m) front back f u all room small =
    let v = reindex refl refl refl refl (sym (started_suc n f)) u in
    let next = cache_character (suc n) chunk f in
    let on : (write_font_character (suc n) (some chunk) f).1 ≡ next =
      written (suc n) chunk f (omega (arith, u.total)) in
    let same : upload_from (suc (suc n)) more next ≡ upload_from (suc n) (chunk ∷ more) f =
      ap₂ (λ k g. upload_from k more g) (omega arith) (sym on) in
    let counter = cache_character-revision chunk f v all.0 in
    let (w, revision) =
      upload_from_lem more (suc n) m (front ++ chunk) (drop char_bytes back) next
        (cache_character-Uploading chunk f v all.0) all.1 (omega arith) (omega (arith, counter)) in
    (
      reindex (omega arith) (omega arith) (append_assoc front chunk (joined more))
          (drop-drop back char_bytes (length more * char_bytes)
            ∙ ap (λ k. drop k back) (omega arith))
          same w,
      ap (λ (g : Font). g.revision) (sym same) ∙ revision ∙ omega (arith, counter),
    )

pub started_zero : (f : Font) → started 0 f ≡ forget_seen f
unfolding started
started_zero f = refl
