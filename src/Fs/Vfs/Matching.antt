-- ===== src/Fs/Vfs/Matching.antt =====
-- When a mount of src/kernel/fs/fs.c is a candidate for a path: what `vfs_match_mount` tests, told
-- without its loop.
use aqua_core.Prelude.{
  ℕ, ◌≡◌, refl, sym, ap, ap₂, ◌∙◌, true, false, ◌&&◌, Option, Bool, Option-cases, some, none, List,
  [], ◌∷◌, ◌++◌, arith, ◌==◌, get_or, ◌⊎◌, Bool-cases, inl, inr, if-true, if-false, &&-true,
}
use aqua_core.Fs.Path.{slash}
use aqua_core.Fs.Node.{is_absolute}
use aqua_core.Fs.Vfs.{Mount, match_prefix, at_boundary, vfs_match_mount}

-- Nothing, or a rest that starts with a slash, so that a component ends here.
abbrev pub IsBoundary : List ℕ → Type 0
IsBoundary [] = Unit
IsBoundary (c ∷ cs) = c ≡ slash

-- The mount of the root, which has the path "/".
abbrev pub IsRoot : Mount → Type 0
IsRoot m = (m.path_len ≡ 1) × (get_or m.path 0 0 ≡ slash)

-- The path is the mount's path, followed by nothing or by a slash and more.
abbrev pub IsUnder : Mount → List ℕ → Type 0
IsUnder m path = (rest : List ℕ) × ((path ≡ m.path ++ rest) × IsBoundary rest)

-- Mount k is in use, and the path is at or below its directory: the mount is that of the root, or its
-- path is the given one up to a component's end.
abbrev pub Matches : (ℕ → Mount) → List ℕ → ℕ → Type 0
Matches mounts path k = ((mounts k).used ≡ true) × (IsRoot (mounts k) ⊎ IsUnder (mounts k) path)

match_prefix-some : (ms path rest : List ℕ) → match_prefix ms path ≡ some rest → path ≡ ms ++ rest
unfolding match_prefix
match_prefix-some [] path rest e = cc
match_prefix-some (m ∷ ms) [] rest e = cc
match_prefix-some (m ∷ ms) (c ∷ cs) rest e = elim (Bool-cases (c == m)) [
  | inl same ↦
      let found : match_prefix ms cs ≡ some rest = sym (if-true _ _ same) ∙ e in
      ap₂ (λ x xs. x ∷ xs) (ground (arith, same)) (match_prefix-some ms cs rest found)
  | inr other ↦ cc (sym (if-false _ _ other) ∙ e)
]

match_prefix-append : (ms rest : List ℕ) → match_prefix ms (ms ++ rest) ≡ some rest
unfolding match_prefix
match_prefix-append [] rest = refl
match_prefix-append (m ∷ ms) rest =
    let same : (m == m) ≡ true = ground arith in if-true _ _ same ∙ match_prefix-append ms rest

at_boundary-IsBoundary : (rest : List ℕ) → at_boundary rest ≡ true → IsBoundary rest
at_boundary-IsBoundary [] e = tt
at_boundary-IsBoundary (c ∷ cs) e = ground arith

IsBoundary-at_boundary : (rest : List ℕ) → IsBoundary rest → at_boundary rest ≡ true
IsBoundary-at_boundary [] b = refl
IsBoundary-at_boundary (c ∷ cs) b = ground arith

is_absolute-slash : (s : List ℕ) → is_absolute s ≡ true → get_or s 0 0 ≡ slash
is_absolute-slash [] e = cc
is_absolute-slash (c ∷ cs) e = ground arith

slash-is_absolute : (s : List ℕ) → get_or s 0 0 ≡ slash → is_absolute s ≡ true
slash-is_absolute [] e = absurd (omega (arith, e))
slash-is_absolute (c ∷ cs) e = ground arith

-- What the test says of the rest behind the mount's path.
abbrev rest_ends : Option (List ℕ) → Bool
rest_ends none = false
rest_ends (some rest) = at_boundary rest

vfs_match_mount-rest_ends :
    (m : Mount) (path : List ℕ)
    → (m.path_len == 1 && is_absolute m.path) ≡ false
    → vfs_match_mount m path ≡ rest_ends (match_prefix m.path path)
unfolding vfs_match_mount
vfs_match_mount-rest_ends m path below = if-false _ _ below

vfs_match_mount-IsUnder :
    (m : Mount) (path : List ℕ) → vfs_match_mount m path ≡ true → IsRoot m ⊎ IsUnder m path
vfs_match_mount-IsUnder m path e = elim (Bool-cases (m.path_len == 1 && is_absolute m.path)) [
  | inl top ↦
      let (one, starts) = &&-true (m.path_len == 1) (is_absolute m.path) top in
      inl (ground (arith, one), is_absolute-slash m.path starts)
  | inr below ↦
      let ends = sym (vfs_match_mount-rest_ends m path below) ∙ e in
      elim (Option-cases (match_prefix m.path path)) [
        | inl other ↦ cc (sym (ap rest_ends other) ∙ ends)
        | inr (rest, found) ↦ inr (
          rest,
          (
            match_prefix-some m.path path rest found,
            at_boundary-IsBoundary rest (sym (ap rest_ends found) ∙ ends),
          ),
        )
      ]
]

IsUnder-vfs_match_mount :
    (m : Mount) (path : List ℕ) → IsRoot m ⊎ IsUnder m path → vfs_match_mount m path ≡ true
unfolding vfs_match_mount
IsUnder-vfs_match_mount m path (inl (one, starts)) =
    let top : (m.path_len == 1 && is_absolute m.path) ≡ true =
      ap (λ b. (m.path_len == 1) && b) (slash-is_absolute m.path starts) ∙ ground (arith, one) in
    if-true _ _ top
IsUnder-vfs_match_mount m path (inr (rest, (same, ends))) =
    elim (Bool-cases (m.path_len == 1 && is_absolute m.path)) [
      | inl top ↦ if-true _ _ top
      | inr below ↦
          vfs_match_mount-rest_ends m path below
          ∙ ap (λ p. rest_ends (match_prefix m.path p)) same
          ∙ ap rest_ends (match_prefix-append m.path rest)
          ∙ IsBoundary-at_boundary rest ends
    ]

-- The test of `vfs_match_mount` passes.
abbrev pub Passes : (ℕ → Mount) → List ℕ → ℕ → Type 0
Passes mounts path k = ((mounts k).used && vfs_match_mount (mounts k) path) ≡ true

pub Passes-Matches :
    (mounts : ℕ → Mount) (path : List ℕ) (k : ℕ) → Passes mounts path k → Matches mounts path k
Passes-Matches mounts path k e =
    let (used, passes) = &&-true (mounts k).used (vfs_match_mount (mounts k) path) e in
    (used, vfs_match_mount-IsUnder (mounts k) path passes)

pub Matches-Passes :
    (mounts : ℕ → Mount) (path : List ℕ) (k : ℕ) → Matches mounts path k → Passes mounts path k
Matches-Passes mounts path k (used, here) =
    ap₂ (λ a b. a && b) used (IsUnder-vfs_match_mount (mounts k) path here)
