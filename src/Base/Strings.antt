-- ===== src/Base/Strings.antt =====
-- C strings, as the lists of their bytes before the terminator.
use Prim.Native.Nat.{ℕ}
use mathlib.Core.Path.{◌≡◌, refl}
use mathlib.Core.Bool.{Bool, true, false}
use mathlib.Core.List.{List, [], ◌∷◌}
use native.Mathlib.Omega.{arith}
use Prim.Native.Char.{code}
use Prim.Native.String.{String}
use betaflight_sitl_udp.Base.Tests.{◌==◌, if◌then◌else◌}

-- The bytes of an ASCII literal.
abbrev pub codes : String → List ℕ
codes String.[] = []
codes (String.◌∷◌ c s) = code c ∷ codes s

-- Whether `strcmp` gives 0.
abbrev pub same_string : List ℕ → List ℕ → Bool
same_string [] [] = true
same_string [] (d ∷ right) = false
same_string (c ∷ left) [] = false
same_string (c ∷ left) (d ∷ right) =
    let rest = same_string left right in if c == d then rest else false

pub same_string_eq : (left right : List ℕ) → same_string left right ≡ true → left ≡ right
same_string_eq [] [] e = refl
same_string_eq [] (d ∷ right) e = ground arith
same_string_eq (c ∷ left) [] e = ground arith
same_string_eq (c ∷ left) (d ∷ right) e = ground (arith, same_string_eq left right)

pub same_string_refl : (s : List ℕ) → same_string s s ≡ true
same_string_refl [] = refl
same_string_refl (c ∷ s) = ground (arith, same_string_refl s)

-- The part before the first byte `c`: a string that is ended there.
abbrev pub cut_at : ℕ → List ℕ → List ℕ
cut_at c [] = []
cut_at c (d ∷ s) = let rest = cut_at c s in if d == c then [] else d ∷ rest

-- Whether `strchr` finds the byte.
abbrev pub has_byte : ℕ → List ℕ → Bool
has_byte c [] = false
has_byte c (d ∷ s) = let rest = has_byte c s in if d == c then true else rest

abbrev pub starts_with : List ℕ → List ℕ → Bool
starts_with [] s = true
starts_with (c ∷ word) [] = false
starts_with (c ∷ word) (d ∷ s) = let rest = starts_with word s in if c == d then rest else false

-- Whether `strstr` finds the word.
abbrev pub has_text : List ℕ → List ℕ → Bool
has_text word [] = starts_with word []
has_text word (d ∷ s) =
    let rest = has_text word s in if starts_with word (d ∷ s) then true else rest
