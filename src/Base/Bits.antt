-- ===== src/Base/Bits.antt =====
-- `|` of a shifted field and a low one is their sum.
use Prim.Native.Nat.{
  ℕ, zero, suc, ◌+◌, ◌*◌, ◌/◌, ◌%◌, ◌^◌, ◌≤◌, ◌<◌, max, digits, bit_and, bit_or, bit_or-bitwise,
}
use mathlib.Core.Path.{◌≡◌, refl, ap}
use native.Mathlib.Nat.{pow-suc}
use mathlib.Core.Bool.{Bool, true, ◌&&◌}
use mathlib.Core.Logic.{inl, inr}
use native.Mathlib.Omega.{arith}
use esp_idf_matter.Base.Tests.{◌==◌, Bool-cases}

-- The digits that `bit_or` stands for, with as many rounds as one likes above the first number.
or_digits_rounds : (n a b : ℕ) → a ≤ n → digits (λ r. r) max n a b ≡ digits (λ r. r) max a a b
or_digits_rounds n a b h = or_two n a a b h (omega arith)
  where
    or_two : (n m a b : ℕ) → a ≤ n → a ≤ m → digits (λ r. r) max n a b ≡ digits (λ r. r) max m a b
    or_two zero zero a b h k = refl
    or_two zero (suc m) zero b h k = refl
    or_two zero (suc m) (suc a) b h k = absurd (omega arith)
    or_two (suc n) zero zero b h k = refl
    or_two (suc n) zero (suc a) b h k = absurd (omega arith)
    or_two (suc n) (suc m) zero b h k = refl
    or_two (suc n) (suc m) (suc a) b h k =
        omega (arith, or_two n m (suc a / 2) (b / 2) (omega arith) (omega arith))

bit_or_lowest : (a b : ℕ) → bit_or a b ≡ bit_or (a / 2) (b / 2) * 2 + max (a % 2) (b % 2)
bit_or_lowest zero b = omega (arith, bit_or-bitwise zero b, bit_or-bitwise zero (b / 2))
bit_or_lowest (suc a) b = omega (
  arith,
  bit_or-bitwise (suc a) b,
  bit_or-bitwise (suc a / 2) (b / 2),
  or_digits_rounds a (suc a / 2) (b / 2) (omega arith),
)

bit_or-zero_upto : (n a : ℕ) → a ≤ n → bit_or a 0 ≡ a
bit_or-zero_upto n zero h = refl
bit_or-zero_upto zero (suc a) h = absurd (omega arith)
bit_or-zero_upto (suc n) (suc a) h =
    omega (arith, bit_or_lowest (suc a) 0, bit_or-zero_upto n (suc a / 2) (omega arith))

-- A number above `k` bits, and one within them.
pub bit_or_disjoint :
    (k high low : ℕ) → low < 2 ^ k → bit_or (high * 2 ^ k) low ≡ high * 2 ^ k + low
bit_or_disjoint zero high low h = ground (arith, bit_or-zero_upto (high * 1) (high * 1))
bit_or_disjoint (suc k) high low h = ground (
  arith,
  bit_or_lowest (high * 2 ^ suc k) low,
  ap (λ (t : ℕ). high * t) (pow-suc 2 k),
  bit_or_disjoint k high (low / 2) (omega arith),
)

zero-bit_or : (b : ℕ) → bit_or 0 b ≡ b
zero-bit_or b = bit_or-bitwise 0 b

-- The same, with the low number first.
pub bit_or_disjoint_above :
    (k low high : ℕ) → low < 2 ^ k → bit_or low (high * 2 ^ k) ≡ low + high * 2 ^ k
bit_or_disjoint_above zero low high h = ground (arith, zero-bit_or high)
bit_or_disjoint_above (suc k) low high h = ground (
  arith,
  bit_or_lowest low (high * 2 ^ suc k),
  ap (λ (t : ℕ). high * t) (pow-suc 2 k),
  bit_or_disjoint_above k (low / 2) high (omega arith),
)

abbrev agrees_below : ℕ → (ℕ → ℕ) → (ℕ → ℕ) → Bool
agrees_below zero f g = true
agrees_below (suc n) f g = (f n == g n) && agrees_below n f g

agrees_below→eq : (n : ℕ) (f g : ℕ → ℕ) (x : ℕ) → agrees_below n f g ≡ true → x < n → f x ≡ g x
agrees_below→eq zero f g x h lt = absurd (omega arith)
agrees_below→eq (suc n) f g x h lt = elim (Bool-cases (x == n)) [
  | inl same ↦ ground arith
  | inr other ↦ ground (arith, agrees_below→eq n f g x)
]

-- `& 0x7` of a byte.
pub bit_and_seven : (x : ℕ) → x < 256 → bit_and x 7 ≡ x % 8
bit_and_seven x h = agrees_below→eq 256 (λ y. bit_and y 7) (λ y. y % 8) x refl h
