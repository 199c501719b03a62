-- ===== src/User/Path/Joined.antt =====
-- The absolute path that src/user/runtime/user_path.c makes of a working directory and a path.
use aqua_core.Prelude.{
  ℕ, zero, suc, ◌-◌, ◌≤◌, ◌≡◌, refl, ap, sym, ◌∙◌, false, some, List, [], ◌∷◌, ◌++◌, arith, leb,
  ◌==◌, if◌then◌else◌, length, length-take, take, get_or, if-true, if-false, Bool-cases, inl, inr,
}
use mathlib.Core.List.{append_assoc}
use aqua_core.Commonlibs.Text.{copy_up_to, strcpy_s, strcat_s}
use aqua_core.Fs.Path.{slash, str_eq}
use aqua_core.User.Path.{path_max, root, absolute}

-- A path that starts with a slash stands for itself; another one is below the working directory, with
-- a slash between them if the directory is longer than "/".
abbrev pub joined : List ℕ → List ℕ → List ℕ
joined dir input_path =
    if get_or input_path 0 0 == slash
    then input_path
    else if length dir == 1
    then dir ++ input_path
    else dir ++ slash ∷ input_path

copy_up_to-take : (n : ℕ) (s : List ℕ) → copy_up_to n s ≡ take n s
unfolding copy_up_to
copy_up_to-take zero s = refl
copy_up_to-take (suc n) [] = refl
copy_up_to-take (suc n) (c ∷ s) = ap (◌∷◌ c) (copy_up_to-take n s)

take-append :
    (n : ℕ) (xs ys : List ℕ) → length xs ≤ n → take n (xs ++ ys) ≡ xs ++ take (n - length xs) ys
take-append n [] ys le = let e : n ≡ n - 0 = omega arith in ap (λ k. take k ys) e
take-append zero (x ∷ xs) ys le = absurd (omega arith)
take-append (suc n) (x ∷ xs) ys le =
    let e : n - length xs ≡ suc n - suc (length xs) = omega arith in
    ap (◌∷◌ x) (take-append n xs ys (omega arith) ∙ ap (λ k. xs ++ take k ys) e)

-- A cut before an append that is cut at the same place makes no difference.
take-append_cut : (n : ℕ) (xs ys : List ℕ) → take n (take n xs ++ ys) ≡ take n (xs ++ ys)
take-append_cut zero xs ys = refl
take-append_cut (suc n) [] ys = refl
take-append_cut (suc n) (x ∷ xs) ys = ap (◌∷◌ x) (take-append_cut n xs ys)

strcpy_s-take : (s : List ℕ) → strcpy_s [] path_max s ≡ take 63 s
unfolding strcpy_s
strcpy_s-take s = copy_up_to-take 63 s

strcat_s-take : (s t : List ℕ) → strcat_s (take 63 s) path_max t ≡ take 63 (s ++ t)
unfolding strcat_s
strcat_s-take s t =
    let short = length-take 63 s in
    let room : leb path_max (length (take 63 s)) ≡ false = ground (arith, short) in
    if-false _ _ room
    ∙ ap (λ r. take 63 s ++ r) (copy_up_to-take (63 - length (take 63 s)) t)
    ∙ sym (take-append 63 (take 63 s) t (omega (arith, short)))
    ∙ take-append_cut 63 s t

str_eq-root :
    (dir : List ℕ) → get_or dir 0 0 ≡ slash → str_eq (take 63 dir) root ≡ (length dir == 1)
unfolding str_eq
str_eq-root [] h = absurd (omega (arith, h))
str_eq-root (c ∷ []) h = ground arith
str_eq-root (c ∷ d ∷ s) h = ground arith

directory_then :
    (dir input_path : List ℕ)
    → get_or dir 0 0 ≡ slash
    → strcat_s
        (if str_eq (strcpy_s [] path_max dir) root
          then strcpy_s [] path_max dir
          else strcat_s (strcpy_s [] path_max dir) path_max root)
        path_max
        input_path
      ≡ take 63 (if length dir == 1 then dir ++ input_path else dir ++ slash ∷ input_path)
directory_then dir input_path h =
    let test = ap (λ s. str_eq s root) (strcpy_s-take dir) ∙ str_eq-root dir h in
    elim (Bool-cases (length dir == 1)) [
      | inl top ↦
          ap (λ s. strcat_s s path_max input_path) (if-true _ _ (test ∙ top) ∙ strcpy_s-take dir)
          ∙ strcat_s-take dir input_path
          ∙ ap (take 63) (sym (if-true _ _ top))
      | inr below ↦
          ap (λ s. strcat_s s path_max input_path)
            (if-false _ _ (test ∙ below)
              ∙ ap (λ s. strcat_s s path_max root) (strcpy_s-take dir)
              ∙ strcat_s-take dir root)
          ∙ strcat_s-take (dir ++ root) input_path
          ∙ ap (take 63) (append_assoc dir root input_path ∙ sym (if-false _ _ below))
    ]

pub absolute-joined :
    (dir input_path : List ℕ)
    → get_or dir 0 0 ≡ slash
    → absolute (some dir) input_path ≡ some (take (path_max - 1) (joined dir input_path))
unfolding absolute
absolute-joined dir input_path h = elim (Bool-cases (get_or input_path 0 0 == slash)) [
  | inl at_root ↦
      if-true _ _ at_root
      ∙ ap some (strcpy_s-take input_path)
      ∙ ap (λ p. some (take 63 p)) (sym (if-true _ _ at_root))
  | inr below ↦
      if-false _ _ below
      ∙ ap some (directory_then dir input_path h)
      ∙ ap (λ p. some (take 63 p)) (sym (if-false _ _ below))
]
