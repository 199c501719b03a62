-- ===== src/Prelude/Loops.antt =====
-- `for` loops over an index that return at the first hit: the index, or whether there is one.
use Prim.Native.Nat.{ℕ, zero, suc, ◌+◌, ◌≤◌, ◌<◌}
use mathlib.Core.Path.{◌≡◌, sym, ◌∙◌}
use mathlib.Core.Bool.{Bool, true, false, ◌||◌}
use mathlib.Core.Logic.{inl, inr}
use mathlib.Core.Option.{Option, none, some}
use native.Mathlib.Decide.{ℕ_discrete}
use native.Mathlib.Omega.{arith}
use aqua_core.Prelude.Tests.{if◌then◌else◌, Bool-cases}

-- The first of the n indices from i on that passes the test.
unfoldable pub find_from : (ℕ → Bool) → ℕ → ℕ → Option ℕ
find_from p zero i = none
find_from p (suc n) i = if p i then some i else find_from p n (i + 1)

unfoldable pub any_from : (ℕ → Bool) → ℕ → ℕ → Bool
any_from p zero i = false
any_from p (suc n) i = p i || any_from p n (i + 1)

module _ (p : ℕ → Bool) (n i : ℕ) where
  pub find_from_here : p i ≡ true → find_from p (suc n) i ≡ some i
  unfolding find_from
  find_from_here e = ground arith

  pub find_from_skip : p i ≡ false → find_from p (suc n) i ≡ find_from p n (i + 1)
  unfolding find_from
  find_from_skip e = ground arith

  any_from_here : p i ≡ true → any_from p (suc n) i ≡ true
  unfolding any_from
  any_from_here e = ground arith

  any_from_skip : p i ≡ false → any_from p (suc n) i ≡ any_from p n (i + 1)
  unfolding any_from
  any_from_skip e = ground arith

-- The least hit.
pub record IsFirst (p : ℕ → Bool) (i n k : ℕ) : Type 0 where
  pub low : i ≤ k
  pub high : k < i + n
  pub hit : p k ≡ true
  pub before : (j : ℕ) → i ≤ j → j < k → p j ≡ false

-- What is false at i and from i + 1 on is false from i on.
from_next :
    (p : ℕ → Bool) (i m : ℕ)
    → p i ≡ false
    → ((j : ℕ) → i + 1 ≤ j → j < m → p j ≡ false)
    → (j : ℕ) → i ≤ j
    → j < m
    → p j ≡ false
from_next p i m e h j lo hi = elim (ℕ_discrete i j) [
  | yes same ↦ rw (← same) e
  | no other ↦ h j (omega arith) hi
]

pub find_from-some : (p : ℕ → Bool) (n i : ℕ) (k : ℕ) → find_from p n i ≡ some k → IsFirst p i n k
unfolding find_from
find_from-some p zero i k h = cc
find_from-some p (suc n) i k h = elim (Bool-cases (p i)) [
  | inl e ↦
      let same : i ≡ k = cc (find_from_here p n i e) in
      record {
        low = omega arith;
        high = omega arith;
        hit = rw (← same) e;
        before = λ j lo hi. absurd (omega arith);
      }
  | inr e ↦
      let rest = find_from-some p n (i + 1) k (sym (find_from_skip p n i e) ∙ h) in
      record {
        low = omega (arith, rest.low);
        high = omega (arith, rest.high);
        hit = rest.hit;
        before = from_next p i k e rest.before;
      }
]

pub find_from-none :
    (p : ℕ → Bool) (n i : ℕ) → find_from p n i ≡ none → (j : ℕ) → i ≤ j → j < i + n → p j ≡ false
unfolding find_from
find_from-none p zero i h j lo hi = absurd (omega arith)
find_from-none p (suc n) i h j lo hi = elim (Bool-cases (p i)) [
  | inl e ↦ cc (find_from_here p n i e)
  | inr e ↦
      from_next p i (i + suc n) e
        (λ j' lo' hi'.
          find_from-none p n (i + 1) (sym (find_from_skip p n i e) ∙ h) j' lo' (omega arith))
        j lo hi
]

pub any_from-false :
    (p : ℕ → Bool) (n i : ℕ) → any_from p n i ≡ false → (j : ℕ) → i ≤ j → j < i + n → p j ≡ false
unfolding any_from
any_from-false p zero i h j lo hi = absurd (omega arith)
any_from-false p (suc n) i h j lo hi = elim (Bool-cases (p i)) [
  | inl e ↦ cc (any_from_here p n i e)
  | inr e ↦
      from_next p i (i + suc n) e
        (λ j' lo' hi'.
          any_from-false p n (i + 1) (sym (any_from_skip p n i e) ∙ h) j' lo' (omega arith))
        j lo hi
]

pub any_from-true :
    (p : ℕ → Bool) (n i : ℕ) → any_from p n i ≡ true → (j : ℕ) × (j < i + n) × (p j ≡ true)
unfolding any_from
any_from-true p zero i h = cc
any_from-true p (suc n) i h = elim (Bool-cases (p i)) [
  | inl e ↦ (i, omega arith, e)
  | inr e ↦
      let (j, high, hit) = any_from-true p n (i + 1) (sym (any_from_skip p n i e) ∙ h) in
      (j, omega arith, hit)
]

pub any_from_hit :
    (p : ℕ → Bool) (n i j : ℕ) → i ≤ j → j < i + n → p j ≡ true → any_from p n i ≡ true
any_from_hit p n i j lo hi h = elim (Bool-cases (any_from p n i)) [
  | inl e ↦ e
  | inr e ↦ cc (any_from-false p n i e j lo hi)
]
