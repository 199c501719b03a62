-- ===== src/Shell/Arrays.antt =====
-- The loops of src/user/apps/shell/main.c and utils.c that move, store and measure bytes in an array.
use aqua_core.Prelude.{
  ℕ, zero, suc, ◌+◌, ◌-◌, ◌<◌, ◌≡◌, refl, ap, ap₂, ◌∙◌, ◌&&◌, List, [], ◌∷◌, arith, ltb, leb, ◌==◌,
  if◌then◌else◌, update,
}

-- `a[i + d] = a[i]` for the n indices from i on, the last one first.
unfoldable pub move_up : (ℕ → ℕ) → ℕ → ℕ → ℕ → ℕ → ℕ
move_up a i d zero = a
move_up a i d (suc n) = move_up (update a (i + n + d) (a (i + n))) i d n

-- `a[i] = a[i + d]` for the n indices from i on, the first one first.
unfoldable pub move_down : (ℕ → ℕ) → ℕ → ℕ → ℕ → ℕ → ℕ
move_down a i d zero = a
move_down a i d (suc n) = move_down (update a i (a (i + d))) (i + 1) d n

-- A string with its NUL, from the index i on.
unfoldable pub store : (ℕ → ℕ) → ℕ → List ℕ → ℕ → ℕ
store a i [] = update a i 0
store a i (c ∷ s) = store (update a i c) (i + 1) s

-- `str_len` from the index i on, in an array with n bytes left.
unfoldable pub str_len : (ℕ → ℕ) → ℕ → ℕ → ℕ
str_len a zero i = i
str_len a (suc n) i = let rest = str_len a n (i + 1) in if a i == 0 then i else rest

pub move_up_lem :
    (a : ℕ → ℕ) (i d n j : ℕ)
    → move_up a i d n j ≡ (if leb (i + d) j && ltb j (i + d + n) then a (j - d) else a j)
unfolding move_up
move_up_lem a i d zero j = ground arith
move_up_lem a i d (suc n) j =
    ground
      (arith, move_up_lem (update a (i + n + d) (a (i + n))) i d n j, λ (e : i + n ≡ j - d). ap a e)

pub move_down_lem :
    (a : ℕ → ℕ) (i d n j : ℕ)
    → move_down a i d n j ≡ (if leb i j && ltb j (i + n) then a (j + d) else a j)
unfolding move_down
move_down_lem a i d zero j = ground arith
move_down_lem a i d (suc n) j =
    ground
      (arith, move_down_lem (update a i (a (i + d))) (i + 1) d n j, λ (e : i + d ≡ j + d). ap a e)

-- The bytes of an array: the n bytes from i on, and the n bytes before an index, the nearest first.
abbrev pub bytes_from : (ℕ → ℕ) → ℕ → ℕ → List ℕ
bytes_from a i zero = []
bytes_from a i (suc n) = a i ∷ bytes_from a (i + 1) n

abbrev pub bytes_before : (ℕ → ℕ) → ℕ → List ℕ
bytes_before a zero = []
bytes_before a (suc n) = a n ∷ bytes_before a n

pub bytes_from-same :
    (a b : ℕ → ℕ) (i j n : ℕ)
    → ((k : ℕ) → k < n → b (j + k) ≡ a (i + k))
    → bytes_from b j n ≡ bytes_from a i n
bytes_from-same a b i j zero same = refl
bytes_from-same a b i j (suc n) same =
    let at_j : j ≡ j + 0 = omega arith in
    let at_i : i + 0 ≡ i = omega arith in
    ap₂ ◌∷◌ (ap b at_j ∙ same 0 (omega arith) ∙ ap a at_i) (
      bytes_from-same a b (i + 1) (j + 1) n (λ k lt.
        let next_j : j + 1 + k ≡ j + suc k = omega arith in
        let next_i : i + suc k ≡ i + 1 + k = omega arith in
        ap b next_j ∙ same (suc k) (omega arith) ∙ ap a next_i))

pub bytes_before-same :
    (a b : ℕ → ℕ) (n : ℕ) → ((k : ℕ) → k < n → b k ≡ a k) → bytes_before b n ≡ bytes_before a n
bytes_before-same a b zero same = refl
bytes_before-same a b (suc n) same =
    ap₂ ◌∷◌ (same n (omega arith)) (bytes_before-same a b n (λ k lt. same k (omega arith)))
