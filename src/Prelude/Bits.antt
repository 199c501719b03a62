-- ===== src/Prelude/Bits.antt =====
-- Facts about `bit_or` and `bit_and` at variables.
use Prim.Native.Nat.{
  ℕ, zero, suc, ◌+◌, ◌*◌, ◌/◌, ◌%◌, ◌^◌, ◌≤◌, ◌<◌, min, max, bit_and, bit_or, digits,
  bit_and-bitwise, bit_or-bitwise,
}
use mathlib.Core.Path.{◌≡◌, refl, ap, ◌∙◌}
use native.Mathlib.Nat.{pow-suc, mul_assoc}
use native.Mathlib.Omega.{arith}

-- The law for the lowest digit, from the definition that the native operation stands for.
abbrev or_digits : ℕ → ℕ → ℕ → ℕ
or_digits n a b = digits (λ b. b) max n a b

-- Any count of digits that the first number does not exceed serves.
or_digits_enough : (n m a b : ℕ) → a ≤ n → a ≤ m → or_digits n a b ≡ or_digits m a b
or_digits_enough zero zero a b le le' = refl
or_digits_enough zero (suc m) zero b le le' = refl
or_digits_enough zero (suc m) (suc a) b le le' = absurd (omega arith)
or_digits_enough (suc n) zero zero b le le' = refl
or_digits_enough (suc n) zero (suc a) b le le' = absurd (omega arith)
or_digits_enough (suc n) (suc m) zero b le le' = refl
or_digits_enough (suc n) (suc m) (suc a) b le le' =
    let rest = or_digits_enough n m (suc a / 2) (b / 2) (omega arith) (omega arith) in
    omega (arith, rest)

zero-bit_or : (b : ℕ) → bit_or 0 b ≡ b
zero-bit_or b = bit_or-bitwise 0 b

bit_or-digits : (a b : ℕ) → bit_or a b ≡ bit_or (a / 2) (b / 2) * 2 + max (a % 2) (b % 2)
bit_or-digits zero b = omega (arith, zero-bit_or b, zero-bit_or (b / 2))
bit_or-digits (suc a) b =
    let whole = bit_or-bitwise (suc a) b in
    let half = bit_or-bitwise (suc a / 2) (b / 2) in
    let same = or_digits_enough a (suc a / 2) (suc a / 2) (b / 2) (omega arith) (omega arith) in
    omega (arith, whole, half, same)

bit_or-zero_fuel : (n a : ℕ) → a ≤ n → bit_or a 0 ≡ a
bit_or-zero_fuel n zero le = zero-bit_or 0
bit_or-zero_fuel zero (suc a) le = absurd (omega arith)
bit_or-zero_fuel (suc n) (suc a) le =
    omega (arith, bit_or-digits (suc a) 0, bit_or-zero_fuel n (suc a / 2) (omega arith))

-- The lowest digit is set.
pub bit_or-one : (a : ℕ) → bit_or a 1 ≡ a / 2 * 2 + 1
bit_or-one a = omega (arith, bit_or-digits a 1, bit_or-zero_fuel (a / 2) (a / 2) (omega arith))

-- The digits of a small number go into the low digits of a multiple, which are zero.
pub bit_or-low : (k x b : ℕ) → b < 2 ^ k → bit_or (2 ^ k * x) b ≡ 2 ^ k * x + b
bit_or-low zero x b lt =
    let none : b ≡ 0 = omega arith in
    let same : 1 * x ≡ x = omega arith in
    rw (none, same) (bit_or-zero_fuel x x (omega arith) ∙ omega arith)
bit_or-low (suc k) x b lt =
    let y = 2 ^ k * x in
    let double : 2 ^ suc k ≡ 2 * 2 ^ k = omega (arith, pow-suc 2 k) in
    let twice : 2 ^ suc k * x ≡ 2 * y = ap (λ p. p * x) double ∙ mul_assoc 2 (2 ^ k) x in
    let half : 2 * y / 2 ≡ y = omega arith in
    let rest = bit_or-low k x (b / 2) (omega (arith, pow-suc 2 k)) in
    let low = ap (λ z. bit_or z (b / 2)) half ∙ rest in
    ap (λ z. bit_or z b) twice ∙ omega (arith, twice, bit_or-digits (2 * y) b, low)

and_none : (n a : ℕ) → digits (λ b. zero) min n a 0 ≡ 0
and_none zero a = refl
and_none (suc n) zero = refl
and_none (suc n) (suc a) = omega (arith, and_none n (suc a / 2))

-- The test of the lowest digit.
pub bit_and-one : (a : ℕ) → bit_and a 1 ≡ a % 2
bit_and-one zero = bit_and-bitwise 0 1
bit_and-one (suc a) = omega (arith, bit_and-bitwise (suc a) 1, and_none a (suc a / 2))
