-- ===== src/Web/Response/Lengths.antt =====
-- The page gets the script after its first "<head>", and announces the length that it has then.
use betaflight_sitl_udp.Base.{
  ℕ, ◌+◌, ◌-◌, ◌==◌, ◌≡◌, refl, sym, ◌∙◌, ap, ap₂, true, false, ◌⊎◌, inl, inr, List, [], ◌∷◌, ◌++◌,
  Option, none, some, if◌then◌else◌, arith, length, length-append, append_assoc, has_byte, codes,
  cut_at, has_text, starts_with, if_split, drop,
}
use betaflight_sitl_udp.Web.Response.{Response, split_head, preset, page_response, page_with}

starts_with_split : (word s : List ℕ) → starts_with word s ≡ true → s ≡ word ++ drop (length word) s
starts_with_split [] s h = refl
starts_with_split (c ∷ word) [] h = absurd (cc)
starts_with_split (c ∷ word) (d ∷ s) h = ground (arith, starts_with_split word s)

starts_with_cut :
    (c : ℕ) (word s : List ℕ) → starts_with word s ≡ false → starts_with word (cut_at c s) ≡ false
starts_with_cut c [] s h = absurd (cc)
starts_with_cut c (a ∷ word) [] h = refl
starts_with_cut c (a ∷ word) (d ∷ s) h = ground (arith, starts_with_cut c word s)

starts_with_more :
    (word xs ys : List ℕ) → starts_with word (xs ++ ys) ≡ false → starts_with word xs ≡ false
starts_with_more [] xs ys h = absurd (cc)
starts_with_more (a ∷ word) [] ys h = refl
starts_with_more (a ∷ word) (x ∷ xs) ys h = ground (arith, starts_with_more word xs ys)

-- No "<head>" starts in the text `front`, where "<head>" follows it, and no terminator is there.
abbrev pub HasNone : List ℕ → Type 0
HasNone front =
    (has_text (codes "<head>") (front ++ codes "<head") ≡ false) × (has_byte 0 front ≡ false)

-- The split of a file behind its first "<head>".
abbrev pub IsSplit : List ℕ → Option (List ℕ × List ℕ) → Type 0
IsSplit file none = has_text (codes "<head>") (cut_at 0 file) ≡ false
IsSplit file (some (before, after)) =
    (file ≡ before ++ after)
    × ((front : List ℕ) × (before ≡ front ++ codes "<head>") × HasNone front)

HasNone-later :
    (c : ℕ) (front after : List ℕ)
    → starts_with (codes "<head>") (c ∷ ((front ++ codes "<head>") ++ after)) ≡ false
    → (c == 0) ≡ false
    → HasNone front
    → HasNone (c ∷ front)
HasNone-later c front after other nonzero (no_text, no_end) =
    let split : (front ++ codes "<head>") ++ after ≡ (front ++ codes "<head") ++ (b'>' ∷ after) =
      append_assoc front (codes "<head>") after
      ∙ sym (append_assoc front (codes "<head") (b'>' ∷ after)) in
    (
      ap₂ (λ b rest. if b then true else rest)
          (starts_with_more (codes "<head>") (c ∷ (front ++ codes "<head")) (b'>' ∷ after)
            (sym (ap (λ s. starts_with (codes "<head>") (c ∷ s)) split) ∙ other))
          no_text,
      ap₂ (λ b rest. if b then true else rest) nonzero no_end,
    )

IsSplit-later :
    (c : ℕ) (s : List ℕ) (later : Option (List ℕ × List ℕ))
    → starts_with (codes "<head>") (c ∷ s) ≡ false
    → (c == 0) ≡ false
    → IsSplit s later
    → IsSplit (c ∷ s) (elim later [ none ↦ none | some (before, after) ↦ some (c ∷ before, after) ])
IsSplit-later c s none other nonzero h =
    ap (λ b. has_text (codes "<head>") (if b then [] else c ∷ cut_at 0 s)) nonzero
    ∙ ap₂ (λ b rest. if b then true else rest)
        (sym (ap (λ b. starts_with (codes "<head>") (if b then [] else c ∷ cut_at 0 s)) nonzero)
          ∙ starts_with_cut 0 (codes "<head>") (c ∷ s) other)
        h
IsSplit-later c s (some (before, after)) other nonzero (whole, (front, ends, first)) = (
  ap (◌∷◌ c) whole,
  (
    c ∷ front,
    ap (◌∷◌ c) ends,
    HasNone-later c front after
        (sym (ap (λ t. starts_with (codes "<head>") (c ∷ t)) (whole ∙ ap (λ b. b ++ after) ends))
          ∙ other)
        nonzero first,
  ),
)

split_head_lem : (file : List ℕ) → IsSplit file (split_head file)
split_head_lem [] = refl
split_head_lem (c ∷ s) =
    if_split (IsSplit (c ∷ s)) (starts_with (codes "<head>") (c ∷ s))
      (λ here. (starts_with_split (codes "<head>") (c ∷ s) here, ([], refl, (refl, refl))))
      (λ other.
        if_split (IsSplit (c ∷ s)) (c == 0)
          (λ zero_byte.
            ap (λ b. has_text (codes "<head>") (if b then [] else c ∷ cut_at 0 s)) zero_byte)
          (λ nonzero. IsSplit-later c s (split_head s) other nonzero (split_head_lem s)))

-- The response announces the length of what it sends.
abbrev pub IsAnnounced : Response → Type 0
IsAnnounced r = r.content_length ≡ length r.body

-- The page: the file as it is, if it has no "<head>", or else with the script right after the first.
abbrev pub IsPage : List ℕ → List ℕ → Response → Type 0
IsPage ws_url file r =
    ((has_text (codes "<head>") (cut_at 0 file) ≡ false) × (r.body ≡ file))
    ⊎ ((front : List ℕ) × (after : List ℕ) × HasNone front
        × (file ≡ (front ++ codes "<head>") ++ after)
        × (r.body ≡ (front ++ codes "<head>") ++ (preset ws_url ++ after)))

length-split :
    (before script after file : List ℕ)
    → file ≡ before ++ after
    → (length before + length script + (length file - length before))
      ≡ length (before ++ (script ++ after))
length-split before script after file whole = omega (
  arith,
  ap length whole,
  length-append before after,
  length-append before (script ++ after),
  length-append script after,
)

page_with_lem :
    (ws_url file : List ℕ) (o : Option (List ℕ × List ℕ))
    → IsSplit file o
    → IsAnnounced (page_with ws_url file o) × IsPage ws_url file (page_with ws_url file o)
page_with_lem ws_url file none h = (refl, inl (h, refl))
page_with_lem ws_url file (some (before, after)) (whole, (front, ends, first)) = (
  length-split before (preset ws_url) after file whole,
  inr (
    front,
    after,
    first,
    whole ∙ ap (λ b. b ++ after) ends,
    ap (λ b. b ++ (preset ws_url ++ after)) ends,
  ),
)

-- The page that is sent is the file with the script right after its first "<head>", where that comes
-- before any terminator, or else the file as it is, and the length that is announced is the length of
-- what is sent.
pub page_response_lem :
    (ws_url file : List ℕ)
    → IsAnnounced (page_response ws_url file) × IsPage ws_url file (page_response ws_url file)
unfolding page_response
page_response_lem ws_url file = page_with_lem ws_url file (split_head file) (split_head_lem file)
