-- ===== src/Base/Bits.antt =====
-- Laws of the bit operations at variables, from the recursion on binary digits that they stand for,
-- and tables over the values of a byte.
use Prim.Native.Nat.{
  ℕ, zero, suc, ◌+◌, ◌*◌, ◌/◌, ◌%◌, ◌^◌, ◌≤◌, ◌<◌, max, differ, digits, bit_and, bit_or, bit_xor,
  bit_or-bitwise, bit_xor-bitwise,
}
use mathlib.Core.Path.{◌≡◌, refl, ap}
use mathlib.Core.Logic.{◌⊎◌}
use mathlib.Core.Bool.{Bool, true, ◌&&◌}
use native.Mathlib.Nat.{pow-suc}
use native.Mathlib.Omega.{arith}
use betaflight_sitl_udp.Base.Tests.{◌==◌, ==_iff}

module _ (z : ℕ → ℕ) (f : ℕ → ℕ → ℕ) where
  -- The count of digits to go does not matter once it covers the first number.
  digits_count : (n m a b : ℕ) → a ≤ n → a ≤ m → digits z f n a b ≡ digits z f m a b
  digits_count zero zero a b h k = refl
  digits_count zero (suc m) zero b h k = refl
  digits_count zero (suc m) (suc a) b h k = absurd (omega arith)
  digits_count (suc n) zero zero b h k = refl
  digits_count (suc n) zero (suc a) b h k = absurd (omega arith)
  digits_count (suc n) (suc m) zero b h k = refl
  digits_count (suc n) (suc m) (suc a) b h k =
      ap (λ t. t * 2 + f (suc a % 2) (b % 2))
        (digits_count n m (suc a / 2) (b / 2) (omega arith) (omega arith))

pub bit_xor_digit : (a b : ℕ) → bit_xor a b ≡ bit_xor (a / 2) (b / 2) * 2 + differ (a % 2) (b % 2)
bit_xor_digit zero b = omega (arith, bit_xor-bitwise 0 b, bit_xor-bitwise 0 (b / 2))
bit_xor_digit (suc a) b = omega (
  arith,
  bit_xor-bitwise (suc a) b,
  bit_xor-bitwise (suc a / 2) (b / 2),
  digits_count (λ y. y) differ a (suc a / 2) (suc a / 2) (b / 2) (omega arith) (omega arith),
)

pub bit_or_digit : (a b : ℕ) → bit_or a b ≡ bit_or (a / 2) (b / 2) * 2 + max (a % 2) (b % 2)
bit_or_digit zero b = omega (arith, bit_or-bitwise 0 b, bit_or-bitwise 0 (b / 2))
bit_or_digit (suc a) b = omega (
  arith,
  bit_or-bitwise (suc a) b,
  bit_or-bitwise (suc a / 2) (b / 2),
  digits_count (λ y. y) max a (suc a / 2) (suc a / 2) (b / 2) (omega arith) (omega arith),
)

digit_cases : (x : ℕ) → x < 2 → (x ≡ 0) ⊎ (x ≡ 1)
digit_cases x h = omega arith

differ_twice : (x y : ℕ) → x < 2 → y < 2 → (differ x y < 2) × (differ (differ x y) y ≡ x)
differ_twice zero zero h k = omega arith
differ_twice zero (suc zero) h k = omega arith
differ_twice (suc zero) zero h k = omega arith
differ_twice (suc zero) (suc zero) h k = omega arith
differ_twice x (suc (suc y)) h k = absurd (omega arith)
differ_twice (suc (suc x)) y h k = absurd (omega arith)

bit_xor_twice_upto : (n a b : ℕ) → a ≤ n → b ≤ n → bit_xor (bit_xor a b) b ≡ a
bit_xor_twice_upto zero zero zero h k = refl
bit_xor_twice_upto zero zero (suc b) h k = absurd (omega arith)
bit_xor_twice_upto zero (suc a) b h k = absurd (omega arith)
bit_xor_twice_upto (suc n) a b h k =
    let high = bit_xor (a / 2) (b / 2) in
    let low = differ (a % 2) (b % 2) in
    let (small, back) = differ_twice (a % 2) (b % 2) (omega arith) (omega arith) in
    let halved : bit_xor a b / 2 ≡ high = omega (arith, bit_xor_digit a b) in
    let last : bit_xor a b % 2 ≡ low = omega (arith, bit_xor_digit a b) in
    rw (bit_xor_digit (bit_xor a b) b, halved, last)
      (omega (arith, bit_xor_twice_upto n (a / 2) (b / 2) (omega arith) (omega arith)))

-- Flipping the same bits twice restores a number.
pub bit_xor_twice : (a b : ℕ) → bit_xor (bit_xor a b) b ≡ a
bit_xor_twice a b = bit_xor_twice_upto (max a b) a b (omega arith) (omega arith)

bit_or-zero_upto : (n a : ℕ) → a ≤ n → bit_or a 0 ≡ a
bit_or-zero_upto zero zero h = refl
bit_or-zero_upto zero (suc a) h = absurd (omega arith)
bit_or-zero_upto (suc n) zero h = refl
bit_or-zero_upto (suc n) (suc a) h =
    omega (arith, bit_or_digit (suc a) 0, bit_or-zero_upto n (suc a / 2) (omega arith))

bit_or_shift : (k q r : ℕ) → r < 2 ^ k → bit_or (q * 2 ^ k) r ≡ q * 2 ^ k + r
bit_or_shift zero q zero h = omega (arith, bit_or-zero_upto (q * 1) (q * 1) (omega arith))
bit_or_shift zero q (suc r) h = absurd (omega arith)
bit_or_shift (suc k) q r h =
    let doubled : q * 2 ^ suc k ≡ q * 2 ^ k * 2 =
      omega (arith, ap (λ (t : ℕ). q * t) (pow-suc 2 k)) in
    let fits : r / 2 < 2 ^ k = omega (arith, pow-suc 2 k) in
    let halved : q * 2 ^ suc k / 2 ≡ q * 2 ^ k = omega arith in
    rw (bit_or_digit (q * 2 ^ suc k) r, halved, bit_or_shift k q (r / 2) fits) (omega arith)

-- `(q << 8) | r` is a sum for a byte `r`: eight digits.
pub bit_or_byte : (q r : ℕ) → r < 256 → bit_or (q * 256) r ≡ q * 256 + r
bit_or_byte q r h = bit_or_shift 8 q r h

-- To check a test at every value below a bound.
unfoldable pub all_below : ℕ → (ℕ → Bool) → Bool
all_below zero p = true
all_below (suc n) p = p n && all_below n p

pub all_below_lem : (n : ℕ) (p : ℕ → Bool) (x : ℕ) → all_below n p ≡ true → x < n → p x ≡ true
unfolding all_below
all_below_lem zero p x h lt = absurd (omega arith)
all_below_lem (suc n) p x h lt = ground (arith, all_below_lem n p x)

low_nibble_table : all_below 256 (λ x. bit_and x 0x0f == x % 16) ≡ true
unfolding all_below
low_nibble_table = refl

low_seven_table : all_below 256 (λ x. bit_and x 0x7f == x % 128) ≡ true
unfolding all_below
low_seven_table = refl

top_bit_table : all_below 256 (λ x. bit_and x 0x80 == x / 128 * 128) ≡ true
unfolding all_below
top_bit_table = refl

set_top_table : all_below 128 (λ x. bit_or 0x80 x == 128 + x) ≡ true
unfolding all_below
set_top_table = refl

pub bit_and_low_nibble : (x : ℕ) → x < 256 → bit_and x 0x0f ≡ x % 16
bit_and_low_nibble x h = (==_iff _ (x % 16)).0 (all_below_lem 256 _ x low_nibble_table h)

pub bit_and_low_seven : (x : ℕ) → x < 256 → bit_and x 0x7f ≡ x % 128
bit_and_low_seven x h = (==_iff _ (x % 128)).0 (all_below_lem 256 _ x low_seven_table h)

pub bit_and_top : (x : ℕ) → x < 256 → bit_and x 0x80 ≡ x / 128 * 128
bit_and_top x h = (==_iff _ (x / 128 * 128)).0 (all_below_lem 256 _ x top_bit_table h)

pub bit_or_top : (x : ℕ) → x < 128 → bit_or 0x80 x ≡ 128 + x
bit_or_top x h = (==_iff _ (128 + x)).0 (all_below_lem 128 _ x set_top_table h)
