-- ===== src/Commonlibs/Text/Copying.antt =====
-- `strcpy_s` of src/lib/commonlibs.c: how much it copies.
use aqua_core.Prelude.{ℕ, zero, suc, ◌≤◌, ◌<◌, ◌≡◌, refl, ap, List, [], ◌∷◌, arith, length}
use aqua_core.Commonlibs.Text.{copy_up_to, strcpy_s}

pub length-copy_up_to : (n : ℕ) (src : List ℕ) → length (copy_up_to n src) ≤ n
unfolding copy_up_to
length-copy_up_to zero src = omega arith
length-copy_up_to (suc n) [] = omega arith
length-copy_up_to (suc n) (c ∷ src) = omega (arith, length-copy_up_to n src)

copy_up_to-whole : (n : ℕ) (s : List ℕ) → length s ≤ n → copy_up_to n s ≡ s
unfolding copy_up_to
copy_up_to-whole zero [] le = refl
copy_up_to-whole zero (c ∷ s) le = absurd (omega arith)
copy_up_to-whole (suc n) [] le = refl
copy_up_to-whole (suc n) (c ∷ s) le = ap (◌∷◌ c) (copy_up_to-whole n s (omega arith))

-- A string that fits with its NUL is copied whole.
pub strcpy_s-whole : (dst : List ℕ) (n : ℕ) (s : List ℕ) → length s < n → strcpy_s dst n s ≡ s
unfolding strcpy_s
strcpy_s-whole dst zero s lt = absurd (omega arith)
strcpy_s-whole dst (suc n) s lt = copy_up_to-whole n s (omega arith)
