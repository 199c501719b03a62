-- ===== src/Prelude/Table.antt =====
-- A C array as a function of the index. The code's guards keep every index in its range, and a
-- write at an index leaves the others alone.
use Prim.Native.Nat.{ℕ, zero, suc, ◌<◌}
use mathlib.Core.Path.{◌≡◌}
use mathlib.Core.Logic.{◌≢◌}
use mathlib.Core.Bool.{Bool, true, ◌&&◌}
use native.Mathlib.Omega.{arith}
use aqua_core.Prelude.Tests.{◌==◌, if◌then◌else◌}

abbrev pub update {ℓ} : {A : Type ℓ} → (ℕ → A) → ℕ → A → ℕ → A
update f i v j = if i == j then v else f j

pub update_self {ℓ} : {A : Type ℓ} (f : ℕ → A) (i : ℕ) (v : A) → update f i v i ≡ v
update_self f i v = ground arith

pub update_other {ℓ} : {A : Type ℓ} (f : ℕ → A) (i j : ℕ) (v : A) → i ≢ j → update f i v j ≡ f j
update_other f i j v ne = ground arith

-- The test holds of the count numbers below `count`: a check by evaluation.
unfoldable pub holds_below : (ℕ → Bool) → ℕ → Bool
holds_below test zero = true
holds_below test (suc count) = holds_below test count && test count

pub holds_below→eq :
    (test : ℕ → Bool) (count k : ℕ) → holds_below test count ≡ true → k < count → test k ≡ true
unfolding holds_below
holds_below→eq test zero k checked lt = elim lt [ ]
holds_below→eq test (suc count) k checked lt = ground (arith, holds_below→eq test count k)
