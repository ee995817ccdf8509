-- ===== src/Web/Request/Scanning.antt =====
-- The method and the URL of a request are read back.
use betaflight_sitl_udp.Base.{
  ℕ, zero, suc, ◌-◌, ◌≤◌, ◌==◌, ◌≡◌, ◌≢◌, refl, ◌∙◌, ap, false, ◌||◌, List, [], ◌∷◌, ◌++◌, Option,
  none, some, if◌then◌else◌, arith, length, cut_at,
}
use betaflight_sitl_udp.Web.Request.{path_max_chars, is_space, skip_spaces, word, scan_request}

-- The bytes of a word: no white space, and no terminator.
abbrev pub IsWord : List ℕ → Type 0
IsWord [] = Unit
IsWord (c ∷ s) = (is_space c ≡ false) × (c ≢ 0) × IsWord s

cut_at-append : (s rest : List ℕ) → IsWord s → cut_at 0 (s ++ rest) ≡ s ++ cut_at 0 rest
cut_at-append [] rest h = refl
cut_at-append (c ∷ s) rest (plain, nonzero, h) = ground (arith, cut_at-append s rest)

word_lem :
    (n : ℕ) (s rest : List ℕ) → IsWord s → length s ≤ n → word n (s ++ 32 ∷ rest) ≡ (s, 32 ∷ rest)
word_lem zero [] rest h fits = refl
word_lem zero (c ∷ s) rest h fits = absurd (omega arith)
word_lem (suc n) [] rest h fits = refl
word_lem (suc n) (c ∷ s) rest (plain, nonzero, h) fits =
    let tail = word_lem n s rest h (omega arith) in
    ap
      (λ b.
        if b
        then ([], c ∷ (s ++ 32 ∷ rest))
        else (c ∷ (word n (s ++ 32 ∷ rest)).0, (word n (s ++ 32 ∷ rest)).1))
      plain
    ∙ ap (λ (r : List ℕ × List ℕ). (c ∷ r.0, r.1)) tail

skip_spaces-append :
    (c : ℕ) (s rest : List ℕ) → IsWord (c ∷ s) → skip_spaces ((c ∷ s) ++ rest) ≡ (c ∷ s) ++ rest
skip_spaces-append c s rest (plain, nonzero, h) =
    ap (λ b. if b then skip_spaces (s ++ rest) else c ∷ (s ++ rest)) plain

-- The method and the URL of a request are read back, where they are words of at most 15 and 2047 bytes,
-- whatever follows the space after the URL.
pub scan_request_lem :
    (m : ℕ) (method : List ℕ) (u : ℕ) (url rest : List ℕ)
    → IsWord (m ∷ method)
    → IsWord (u ∷ url)
    → length (m ∷ method) ≤ 15
    → length (u ∷ url) ≤ path_max_chars - 1
    → scan_request ((m ∷ method) ++ (32 ∷ ((u ∷ url) ++ (32 ∷ rest)))) ≡ some (m ∷ method, u ∷ url)
unfolding scan_request
scan_request_lem m method u url rest h k short fits =
    let after = 32 ∷ cut_at 0 rest in
    let text = (m ∷ method) ++ (32 ∷ ((u ∷ url) ++ (32 ∷ rest))) in
    let cut : cut_at 0 text ≡ (m ∷ method) ++ (32 ∷ ((u ∷ url) ++ after)) =
      cut_at-append (m ∷ method) (32 ∷ ((u ∷ url) ++ (32 ∷ rest))) h
      ∙ ap (λ s. (m ∷ method) ++ (32 ∷ s)) (cut_at-append (u ∷ url) (32 ∷ rest) k) in
    let pick : List ℕ → List ℕ × List ℕ → Option (List ℕ × List ℕ) =
      λ name r. if length name == 0 || length r.0 == 0 then none else some (name, r.0) in
    let second : List ℕ × List ℕ → Option (List ℕ × List ℕ) =
      λ r. pick r.0 (word (path_max_chars - 1) (skip_spaces r.1)) in
    ap (λ s. second (word 15 (skip_spaces s))) cut
    ∙ ap (λ s. second (word 15 s)) (skip_spaces-append m method (32 ∷ ((u ∷ url) ++ after)) h)
    ∙ ap second (word_lem 15 (m ∷ method) ((u ∷ url) ++ after) h short)
    ∙ ap (λ s. pick (m ∷ method) (word (path_max_chars - 1) s)) (skip_spaces-append u url after k)
    ∙ ap (pick (m ∷ method)) (word_lem (path_max_chars - 1) (u ∷ url) (cut_at 0 rest) k fits)
    ∙ ground arith
