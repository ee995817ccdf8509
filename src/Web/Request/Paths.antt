-- ===== src/Web/Request/Paths.antt =====
-- What the path tests let through, and what the file's path is then.
use betaflight_sitl_udp.Base.{
  ℕ, zero, suc, ◌+◌, ◌-◌, ◌==◌, ◌≡◌, ◌≢◌, refl, ◌∙◌, ap, ap₂, true, false, ◌||◌, List, [], ◌∷◌,
  ◌++◌, some, if◌then◌else◌, arith, length, map, codes, has_byte, has_text, starts_with, ltb,
  if_split, if_both, same_string, cut_at, take, append_assoc,
}
use betaflight_sitl_udp.Web.Request.{
  path_max_chars, is_safe_path, backslashed, full_path, with_index, url_path,
}

pub map-append : (f : ℕ → ℕ) (xs ys : List ℕ) → map f (xs ++ ys) ≡ map f xs ++ map f ys
map-append f [] ys = refl
map-append f (x ∷ xs) ys = ap (◌∷◌ (f x)) (map-append f xs ys)

-- What `is_safe_path` refuses is not there.
pub is_safe_path_lem :
    (path : List ℕ)
    → is_safe_path path ≡ true
    → (has_text (codes "..") path ≡ false) × (has_byte b':' path ≡ false)
unfolding is_safe_path
is_safe_path_lem path safe = ground arith

pub full_path-append :
    (root path full : List ℕ)
    → full_path root path ≡ some full
    → full ≡ map backslashed root ++ map backslashed path
unfolding full_path
full_path-append root path full h =
    if_split (λ o. o ≡ some full → full ≡ map backslashed root ++ map backslashed path)
      (ltb (length root + length path) (path_max_chars + 8))
      (λ fits whole. cc (whole, map-append backslashed root path)) (λ long unended. cc unended) h

-- A byte that is no slash or backslash comes of itself only.
has_byte-backslashed :
    (c : ℕ) (path : List ℕ)
    → c ≢ 0x5c
    → c ≢ b'/'
    → has_byte c (map backslashed path) ≡ has_byte c path
has_byte-backslashed c [] differ other = refl
has_byte-backslashed c (d ∷ path) differ other = ground (arith, has_byte-backslashed c path)

pub no_slash : (path : List ℕ) → has_byte b'/' (map backslashed path) ≡ false
no_slash [] = refl
no_slash (d ∷ path) = ground (arith, no_slash path)

starts_with_dots :
    (path : List ℕ)
    → starts_with (codes "..") (map backslashed path) ≡ starts_with (codes "..") path
starts_with_dots [] = refl
starts_with_dots (a ∷ []) = ground arith
starts_with_dots (a ∷ b ∷ path) = ground arith

has_dots-backslashed :
    (path : List ℕ) → has_text (codes "..") (map backslashed path) ≡ has_text (codes "..") path
has_dots-backslashed [] = refl
has_dots-backslashed (d ∷ path) =
    ap₂ (λ b rest. if b then true else rest) (starts_with_dots (d ∷ path))
      (has_dots-backslashed path)

pub starts_with-append :
    (word s : List ℕ) (c d : ℕ) → c ≢ d → starts_with (word ++ c ∷ []) (word ++ d ∷ s) ≡ false
starts_with-append [] s c d differ = ground arith
starts_with-append (x ∷ word) s c d differ = ground (arith, starts_with-append word s c d)

has_byte-append :
    (c : ℕ) (xs ys : List ℕ) → has_byte c (xs ++ ys) ≡ (has_byte c xs || has_byte c ys)
has_byte-append c [] ys = refl
has_byte-append c (x ∷ xs) ys = ground (arith, has_byte-append c xs ys)

-- No ".." comes up between texts of which the second has no dot in front.
dots_append :
    (xs ys : List ℕ)
    → has_text (codes "..") xs ≡ false
    → starts_with (codes ".") ys ≡ false
    → has_text (codes "..") ys ≡ false
    → has_text (codes "..") (xs ++ ys) ≡ false
dots_append [] ys left front right = right
dots_append (x ∷ []) ys left front right = ground arith
dots_append (x ∷ z ∷ xs) ys left front right = ground (arith, dots_append (z ∷ xs) ys)

-- A path below the root's directory: no part of it leads up, or to another drive.
abbrev pub IsBelow : List ℕ → List ℕ → Type 0
IsBelow root full =
    (rest : List ℕ) × (full ≡ map backslashed root ++ (0x5c ∷ rest))
    × (has_text (codes "..") rest ≡ false)
    × (has_byte b':' rest ≡ false)
    × (has_byte b'/' rest ≡ false)

pub full_path-IsBelow :
    (root path full : List ℕ)
    → is_safe_path (b'/' ∷ path) ≡ true
    → full_path root (b'/' ∷ path) ≡ some full
    → IsBelow root full
full_path-IsBelow root path full safe e = (
  map backslashed path,
  full_path-append root (b'/' ∷ path) full e,
  has_dots-backslashed path ∙ (is_safe_path_lem (b'/' ∷ path) safe).0,
  has_byte-backslashed b':' path (λ same. cc same) (λ same. cc same)
      ∙ (is_safe_path_lem (b'/' ∷ path) safe).1,
  no_slash path,
)

has_byte-take : (c n : ℕ) (xs : List ℕ) → has_byte c xs ≡ false → has_byte c (take n xs) ≡ false
has_byte-take c zero xs h = refl
has_byte-take c (suc n) [] h = refl
has_byte-take c (suc n) (x ∷ xs) h = ground (arith, has_byte-take c n xs)

starts_with-take :
    (n : ℕ) (word xs : List ℕ) → starts_with word xs ≡ false → starts_with word (take n xs) ≡ false
starts_with-take n [] xs h = absurd (cc)
starts_with-take zero (a ∷ word) xs h = refl
starts_with-take (suc n) (a ∷ word) [] h = refl
starts_with-take (suc n) (a ∷ word) (x ∷ xs) h = ground (arith, starts_with-take n word xs)

dots_take :
    (n : ℕ) (xs : List ℕ)
    → has_text (codes "..") xs ≡ false
    → has_text (codes "..") (take n xs) ≡ false
dots_take zero xs h = refl
dots_take (suc n) [] h = refl
dots_take (suc n) (x ∷ xs) h =
    ground (arith, dots_take n xs, starts_with-take (suc n) (codes "..") (x ∷ xs))

pub with_index-IsBelow : (root full : List ℕ) → IsBelow root full → IsBelow root (with_index full)
unfolding with_index
with_index-IsBelow root full (rest, whole, dots, colon, slash) =
    let page = codes "\\index.html" in
    let room = path_max_chars + 8 - length full - 1 in
    let end = take room page in
    (
      rest ++ end,
      ap (λ p. p ++ end) whole ∙ append_assoc (map backslashed root) (0x5c ∷ rest) end,
      dots_append rest end dots (starts_with-take room (codes ".") page refl)
          (dots_take room page refl),
      has_byte-append b':' rest end ∙ ap₂ (◌||◌) colon (has_byte-take b':' room page refl),
      has_byte-append b'/' rest end ∙ ap₂ (◌||◌) slash (has_byte-take b'/' room page refl),
    )

pub url_path-slash : (url : List ℕ) → (path : List ℕ) × (url_path (b'/' ∷ url) ≡ b'/' ∷ path)
unfolding url_path
url_path-slash url =
    if_both (λ p. (path : List ℕ) × (p ≡ b'/' ∷ path))
      (suc (length (cut_at 35 (cut_at 63 url))) == 0 || same_string (cut_at 35 (cut_at 63 url)) [])
      (codes "index.html", refl) (cut_at 35 (cut_at 63 url), refl)
