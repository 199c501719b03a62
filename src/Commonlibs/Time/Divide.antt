-- ===== src/Commonlibs/Time/Divide.antt =====
-- `udiv64_32_full` of src/lib/commonlibs.c and division.
use aqua_core.Prelude.{
  ℕ, zero, suc, ◌+◌, ◌-◌, ◌*◌, ◌/◌, ◌%◌, ◌^◌, ◌<◌, ◌≡◌, refl, sym, ap, ◌∙◌, ltb, arith, ltb→lt,
  ltb-false→le, Bool-cases, inl, inr, u32, ◌≤◌,
}
use native.Mathlib.Nat.{div-div-eq-div-mul}
use aqua_core.Commonlibs.Time.{u64, udiv_from, udiv64_32_full}

-- The quotient and the remainder of n by d.
pub record IsDivided (n d : ℕ) (r : ℕ × ℕ) : Type 0 where
  pub sum : r.0 * d + r.1 ≡ n
  pub small : r.1 < d

double : (i : ℕ) → 2 ^ suc i ≡ 2 ^ i * 2
double i = omega arith

halve : (n i : ℕ) → n / 2 ^ i ≡ 2 * (n / 2 ^ suc i) + n / 2 ^ i % 2
halve n i =
    let e : n / 2 ^ suc i ≡ n / 2 ^ i / 2 =
      ap (λ m. n / m) (double i) ∙ sym (div-div-eq-div-mul n (2 ^ i) 2) in
    omega (arith, e)

udiv_from-IsDivided :
    (i n d a q rem : ℕ)
    → d ≤ u32
    → q ≡ a * 2 ^ i
    → a * d + rem ≡ n / 2 ^ i
    → rem < d
    → IsDivided n d (udiv_from i n d q rem)
unfolding udiv_from
udiv_from-IsDivided zero n d a q rem hd hq hs hr =
    let same : q ≡ a = omega arith in
    let whole : n / 2 ^ 0 ≡ n = omega arith in
    record { sum = ap (λ x. x * d + rem) same ∙ hs ∙ whole; small = hr }
udiv_from-IsDivided (suc i) n d a q rem hd hq hs hr =
    let bit = n / 2 ^ i % 2 in
    let shifted : 2 * rem % u64 ≡ 2 * rem = omega arith in
    let low : bit < 2 = omega arith in
    let half = halve n i in
    let pow : q ≡ a * (2 ^ i * 2) = hq ∙ ap (λ m. a * m) (double i) in
    let next = 2 * rem % u64 + bit in
    elim (Bool-cases (ltb next d)) [
      | inl e ↦ rw e (
          udiv_from-IsDivided i n d (2 * a) q next hd (omega arith) (omega arith) (ltb→lt next d e))
      | inr e ↦
          let reached = ltb-false→le next d e in
          rw e (
            udiv_from-IsDivided i n d (2 * a + 1) (q + 2 ^ i) (next - d) hd (omega arith)
              (omega arith) (omega arith))
    ]

-- The remainder fits in 32 bits.
narrow : (n d q rem : ℕ) → d ≤ u32 → IsDivided n d (q, rem) → IsDivided n d (q, rem % u32)
narrow n d q rem hi r =
    let small : rem < d = r.small in
    let kept : rem % u32 ≡ rem = omega arith in
    record { sum = ap (λ x. q * d + x) kept ∙ r.sum; small = omega arith }

-- For a 64-bit dividend and a divisor from 1 to 2 ^ 32, `udiv64_32_full` gives the quotient and the
-- remainder of the division.
pub udiv64_32_full_lem : (n d : ℕ) → n < u64 → 0 < d → d ≤ u32 → IsDivided n d (udiv64_32_full n d)
unfolding udiv64_32_full
udiv64_32_full_lem n d hn lo hi =
    let whole : 0 * d + 0 ≡ n / 2 ^ 64 = omega arith in
    narrow n d (udiv_from 64 n d 0 0).0 (udiv_from 64 n d 0 0).1 hi
      (udiv_from-IsDivided 64 n d 0 0 0 hi refl whole lo)
