-- ===== src/Prelude/Int.antt =====
-- The C `int` where it can be negative: -1 is `negsuc 0`. No operation of the code that is modelled
-- leaves the range of the type unless the definition says so.
use Prim.Native.Nat.{ℕ, ◌<◌}
use mathlib.Core.Path.{◌≡◌}
use mathlib.Core.Logic.{◌↔◌}
use mathlib.Core.Bool.{Bool, true, false}
use mathlib.Core.Option.{Option, none, some}
use native.Mathlib.Omega.{arith}
use aqua_core.Prelude.Tests.{ltb, ◌==◌, if◌then◌else◌}

-- `negsuc n` is -(n + 1).
pub data ℤ : Type 0 where
  pos : ℕ → ℤ
  negsuc : ℕ → ℤ

abbrev pub minus_one : ℤ
minus_one = negsuc 0

abbrev pub eq_int : ℤ → ℤ → Bool
eq_int (pos a) (pos b) = a == b
eq_int (pos a) (negsuc b) = false
eq_int (negsuc a) (pos b) = false
eq_int (negsuc a) (negsuc b) = a == b

pub eq_int_iff : (a b : ℤ) → (eq_int a b ≡ true) ↔ (a ≡ b)
eq_int_iff (pos a) (pos b) = ground arith
eq_int_iff (pos a) (negsuc b) = ground arith
eq_int_iff (negsuc a) (pos b) = ground arith
eq_int_iff (negsuc a) (negsuc b) = ground arith

-- The guard `x < 0 || x >= max`: the index if it passes.
abbrev pub index_below : ℕ → ℤ → Option ℕ
index_below max (pos n) = if ltb n max then some n else none
index_below max (negsuc n) = none

pub index_below-lt : (max : ℕ) (x : ℤ) {n : ℕ} → index_below max x ≡ some n → n < max
index_below-lt max (pos m) h = ground arith
index_below-lt max (negsuc m) h = ground arith

-- x <= 0
abbrev pub le_zero : ℤ → Bool
le_zero (pos n) = n == 0
le_zero (negsuc n) = true

pub eq_int_sym : (a b : ℤ) → eq_int a b ≡ eq_int b a
eq_int_sym (pos a) (pos b) = ground arith
eq_int_sym (pos a) (negsuc b) = ground arith
eq_int_sym (negsuc a) (pos b) = ground arith
eq_int_sym (negsuc a) (negsuc b) = ground arith
