-- ===== src/Blackbox/Window.antt =====
-- A folder as a window of numbered logs, and what pruning and renumbering make of it.
use betaflight_sitl_udp.Base.{
  ℕ, suc, ◌≤◌, ◌<◌, ◌≡◌, ◌≢◌, refl, sym, ◌∙◌, ap, false, List, [], ◌∷◌, Option, none, some,
  if◌then◌else◌, arith, if_split, ltb, subst, same_string, same_string_eq, same_string_refl,
  Bool-cases, inl, inr,
}
use betaflight_sitl_udp.Blackbox.{Folder, log_name, remove_file, rename_file, rename_from}

abbrev pub number_of : {A : Type 0} → ℕ × A → ℕ
number_of (n, c) = n

-- A name that no log from `low` on has.
abbrev pub IsOther : ℕ → List ℕ → Type 0
IsOther low q = (m : ℕ) → low ≤ m → m < 100000 → q ≢ log_name m

module _ {A : Type 0} where
  -- The logs with numbers from `low` on are those of the list, in their order.
  abbrev pub IsWindow : ℕ → List (ℕ × A) → (List ℕ → Option A) → Type 0
  IsWindow low [] held = (m : ℕ) → low ≤ m → m < 100000 → held (log_name m) ≡ none
  IsWindow low ((n, c) ∷ logs) held =
      (low ≤ n)
      × (n < 100000)
      × ((m : ℕ) → low ≤ m → m < n → held (log_name m) ≡ none)
      × (held (log_name n) ≡ some c)
      × IsWindow (suc n) logs held

  -- The same data, numbered from `first` on without gaps.
  abbrev pub renumbered : ℕ → List (ℕ × A) → List (ℕ × A)
  renumbered first [] = []
  renumbered first ((n, c) ∷ logs) = (first, c) ∷ renumbered (suc first) logs

  -- A window that starts sooner, where what is before it is free.
  pub widen :
      (low n : ℕ) (logs : List (ℕ × A)) (old new : List ℕ → Option A)
      → ((m : ℕ) → n ≤ m → m < 100000 → new (log_name m) ≡ old (log_name m))
      → ((m : ℕ) → low ≤ m → m < n → m < 100000 → new (log_name m) ≡ none)
      → low ≤ n
      → IsWindow n logs old
      → IsWindow low logs new
  widen low n [] old new same free le window = λ m lo hi. elim (Bool-cases (ltb m n)) [
    | inl before ↦ free m lo (ground arith) hi
    | inr after ↦ same m (ground arith) hi ∙ window m (ground arith) hi
  ]
  widen low n ((k, c) ∷ logs) old new same free le (nk, small, gap, there, rest) = (
    omega arith,
    small,
    (λ m lo hi. elim (Bool-cases (ltb m n)) [
      | inl before ↦ free m lo (ground arith) (omega arith)
      | inr after ↦ same m (ground arith) (omega arith) ∙ gap m (ground arith) hi
    ]),
    same k nk small ∙ there,
    widen (suc k) (suc k) logs old new (λ m l. same m (omega arith)) (λ m l h. absurd (omega arith))
        (omega arith) rest,
  )

  pub remove_file_lem :
      (name : List ℕ) (f : Folder A)
      → f.in_use name ≡ false
      → let g = remove_file name f in
        (g.data_of name ≡ none)
        × ((q : List ℕ) → q ≢ name → g.data_of q ≡ f.data_of q)
        × (g.in_use ≡ f.in_use)
  unfolding remove_file
  remove_file_lem name f idle =
      let gone : Folder A = record f {
        data_of = λ q. if same_string name q then none else f.data_of q;
      } in
      subst
        (λ b.
          let g = if b then f else gone in
          (g.data_of name ≡ none)
          × ((q : List ℕ) → q ≢ name → g.data_of q ≡ f.data_of q)
          × (g.in_use ≡ f.in_use))
        (sym idle)
        (
          ap (λ b. if b then none else f.data_of name) (same_string_refl name),
          (λ q other.
              if_split (λ found. found ≡ f.data_of q) (same_string name q)
                (λ e. absurd (other (sym (same_string_eq name q e)))) (λ e. refl)),
          refl,
        )

  pub rename_file_lem :
      (from to : List ℕ) (f : Folder A) (held : A)
      → f.in_use from ≡ false
      → f.data_of from ≡ some held
      → f.data_of to ≡ none
      → let g = rename_file from to f in
        (g.data_of to ≡ some held)
        × (g.data_of from ≡ none)
        × ((q : List ℕ) → q ≢ from → q ≢ to → g.data_of q ≡ f.data_of q)
        × (g.in_use ≡ f.in_use)
  unfolding rename_file rename_from
  rename_file_lem from to f held idle there free =
      let moved : Folder A = rename_from (some held) none from to f in
      let P : Folder A → Type 0 = λ g.
        (g.data_of to ≡ some held)
        × (g.data_of from ≡ none)
        × ((q : List ℕ) → q ≢ from → q ≢ to → g.data_of q ≡ f.data_of q)
        × (g.in_use ≡ f.in_use) in
      let path : rename_file from to f ≡ moved =
        ap (λ b. if b then f else rename_from (f.data_of from) (f.data_of to) from to f) idle
        ∙ ap (λ x. rename_from x (f.data_of to) from to f) there
        ∙ ap (λ y. rename_from (some held) y from to f) free in
      let apart : to ≢ from = λ e.
        absurd (let clash : some held ≡ none = sym there ∙ ap f.data_of (sym e) ∙ free in cc) in
      subst P (sym path) (
        ap (λ b. if b then some held else (if same_string from to then none else f.data_of to))
            (same_string_refl to),
        if_split (λ found. found ≡ none) (same_string to from)
            (λ e. absurd (apart (same_string_eq to from e)))
            (λ e. ap (λ b. if b then none else f.data_of from) (same_string_refl from)),
        (λ q not_from not_to.
            if_split (λ found. found ≡ f.data_of q) (same_string to q)
              (λ e. absurd (not_to (sym (same_string_eq to q e))))
              (λ e.
                if_split (λ found. found ≡ f.data_of q) (same_string from q)
                  (λ d. absurd (not_from (sym (same_string_eq from q d)))) (λ d. refl))),
        refl,
      )
