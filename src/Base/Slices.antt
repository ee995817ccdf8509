-- ===== src/Base/Slices.antt =====
-- The part of an array between two positions, and how a write changes it.
use Prim.Native.Nat.{ℕ, zero, suc, ◌-◌, ◌≤◌, ◌<◌}
use mathlib.Core.Path.{◌≡◌, refl, ap}
use mathlib.Core.List.{List, [], ◌∷◌, ◌++◌}
use mathlib.Core.Option.{some}
use native.Mathlib.Omega.{arith}
use betaflight_sitl_udp.Base.Lists.{length, set, get_elem?}

module _ {ℓ} {A : Type ℓ} where
  -- The elements at the positions from `lo` up to, and without, `hi`.
  abbrev pub slice : List A → ℕ → ℕ → List A
  slice [] lo hi = []
  slice (x ∷ xs) lo zero = []
  slice (x ∷ xs) zero (suc hi) = x ∷ slice xs zero hi
  slice (x ∷ xs) (suc lo) (suc hi) = slice xs lo hi

module _ {ℓ} {A : Type ℓ} where
  pub slice_empty : (xs : List A) (lo hi : ℕ) → hi ≤ lo → slice xs lo hi ≡ []
  slice_empty [] lo hi h = refl
  slice_empty (x ∷ xs) lo zero h = refl
  slice_empty (x ∷ xs) zero (suc hi) h = absurd (omega arith)
  slice_empty (x ∷ xs) (suc lo) (suc hi) h = slice_empty xs lo hi (omega arith)

  pub length-slice : (xs : List A) (lo hi : ℕ) → hi ≤ length xs → length (slice xs lo hi) ≡ hi - lo
  length-slice [] lo hi h = omega arith
  length-slice (x ∷ xs) lo zero h = omega arith
  length-slice (x ∷ xs) zero (suc hi) h = omega (arith, length-slice xs zero hi)
  length-slice (x ∷ xs) (suc lo) (suc hi) h = omega (arith, length-slice xs lo hi)

  pub slice-set_outside_low :
      (xs : List A) (i lo hi : ℕ) (v : A) → i < lo → slice (set xs i v) lo hi ≡ slice xs lo hi
  slice-set_outside_low [] i lo hi v h = refl
  slice-set_outside_low (x ∷ xs) zero lo zero v h = refl
  slice-set_outside_low (x ∷ xs) (suc i) lo zero v h = refl
  slice-set_outside_low (x ∷ xs) zero zero (suc hi) v h = absurd (omega arith)
  slice-set_outside_low (x ∷ xs) (suc i) zero (suc hi) v h = absurd (omega arith)
  slice-set_outside_low (x ∷ xs) zero (suc lo) (suc hi) v h = refl
  slice-set_outside_low (x ∷ xs) (suc i) (suc lo) (suc hi) v h =
      slice-set_outside_low xs i lo hi v (omega arith)

  pub slice-set_outside_high :
      (xs : List A) (i lo hi : ℕ) (v : A) → hi ≤ i → slice (set xs i v) lo hi ≡ slice xs lo hi
  slice-set_outside_high [] i lo hi v h = refl
  slice-set_outside_high (x ∷ xs) zero lo zero v h = refl
  slice-set_outside_high (x ∷ xs) (suc i) lo zero v h = refl
  slice-set_outside_high (x ∷ xs) zero lo (suc hi) v h = absurd (omega arith)
  slice-set_outside_high (x ∷ xs) (suc i) zero (suc hi) v h =
      ap (◌∷◌ x) (slice-set_outside_high xs i zero hi v (omega arith))
  slice-set_outside_high (x ∷ xs) (suc i) (suc lo) (suc hi) v h =
      slice-set_outside_high xs i lo hi v (omega arith)

  -- A write at the end of a slice extends it.
  pub slice-set_end :
      (xs : List A) (lo i : ℕ) (v : A)
      → lo ≤ i
      → i < length xs
      → slice (set xs i v) lo (suc i) ≡ slice xs lo i ++ v ∷ []
  slice-set_end [] lo i v h b = absurd (omega arith)
  slice-set_end (x ∷ xs) zero zero v h b = ap (◌∷◌ v) (slice_empty xs 0 0 (omega arith))
  slice-set_end (x ∷ xs) (suc lo) zero v h b = absurd (omega arith)
  slice-set_end (x ∷ xs) zero (suc i) v h b =
      ap (◌∷◌ x) (slice-set_end xs zero i v (omega arith) (omega arith))
  slice-set_end (x ∷ xs) (suc lo) (suc i) v h b =
      slice-set_end xs lo i v (omega arith) (omega arith)

  -- A slice that is not empty starts with the element at its low end.
  pub slice_uncons :
      (xs : List A) (lo hi : ℕ)
      → lo < hi
      → lo < length xs
      → (x : A) × (get_elem? xs lo ≡ some x) × (slice xs lo hi ≡ x ∷ slice xs (suc lo) hi)
  slice_uncons [] lo hi h b = absurd (omega arith)
  slice_uncons (x ∷ xs) lo zero h b = absurd (omega arith)
  slice_uncons (x ∷ xs) zero (suc hi) h b = (x, refl, refl)
  slice_uncons (x ∷ xs) (suc lo) (suc hi) h b = slice_uncons xs lo hi (omega arith) (omega arith)
