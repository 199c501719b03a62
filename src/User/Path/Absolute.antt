-- ===== src/User/Path/Absolute.antt =====
-- What src/user/runtime/user_path.c makes of any path: an absolute path of names, in its array.
use aqua_core.Prelude.{
  ℕ, zero, suc, ◌+◌, ◌-◌, ◌≤◌, ◌<◌, ◌≡◌, refl, ap, sym, subst, ◌∙◌, false, Option, some, List, [],
  ◌∷◌, ◌++◌, arith, leb, ◌==◌, if◌then◌else◌, length, length-append, length-take, take, get_or,
  if-true, if-false, if-cases, Bool-cases, inl, inr, ◌>>=◌,
}
use aqua_core.Commonlibs.Text.{copy_up_to, strcpy_s, strcat_s}
use aqua_core.Commonlibs.Text.Copying.{length-copy_up_to, strcpy_s-whole}
use aqua_core.Fs.Path.{slash, name_max, str_eq, skip_slashes}
use aqua_core.Fs.Path.Names.{NoSlash, length-skip_slashes}
use aqua_core.User.Path.{path_max, root, absolute, normalize, user_path_resolve}
use aqua_core.User.Path.Joined.{joined, absolute-joined}
use aqua_core.User.Path.Stack.{flat, render, descend, AreNames, AreNames-above, length-flat-above}
use aqua_core.User.Path.Resolve.{components, walk, walk-skip_slashes, normalize-walk, skip_slash}

NoSlash-take : (n : ℕ) (s : List ℕ) → NoSlash s → NoSlash (take n s)
NoSlash-take zero s ok = tt
NoSlash-take (suc n) [] ok = tt
NoSlash-take (suc n) (c ∷ s) (ne, ok) = (ne, NoSlash-take n s ok)

abbrev AllNoSlash : List (List ℕ) → Type 0
AllNoSlash [] = Unit
AllNoSlash (s ∷ ss) = NoSlash s × AllNoSlash ss

components-AllNoSlash : (path : List ℕ) → AllNoSlash (components path)
components-AllNoSlash [] = (tt, tt)
components-AllNoSlash (c ∷ cs) =
    let (first, others) = components-AllNoSlash cs in
    elim (Bool-cases (c == slash)) [
      | inl here ↦ rw here (tt, (first, others))
      | inr other ↦ rw other ((ground arith, first), others)
    ]

descend-AreNames :
    (names : List (List ℕ)) (piece : List ℕ)
    → AreNames names
    → NoSlash piece
    → AreNames (descend names piece)
descend-AreNames names piece ok plain =
    if-cases AreNames (length piece == 0) _ _ (λ nothing. ok)
      (λ some_byte.
        if-cases AreNames (str_eq piece (b'.' ∷ [])) _ _ (λ here. ok)
          (λ other.
            if-cases AreNames (str_eq piece (b'.' ∷ b'.' ∷ [])) _ _
              (λ back. AreNames-above names ok) (λ name. (ground arith, plain, ok))))

walk-AreNames :
    (names ps : List (List ℕ)) → AreNames names → AllNoSlash ps → AreNames (walk names ps)
walk-AreNames names [] ok plain = ok
walk-AreNames names (piece ∷ ps) ok (first, plain) =
    walk-AreNames (descend names (take (name_max - 1) piece)) ps
      (descend-AreNames names _ ok (NoSlash-take (name_max - 1) piece first)) plain

-- The bytes of the pieces with a slash for each.
abbrev total : List (List ℕ) → ℕ
total [] = 0
total (piece ∷ ps) = 1 + length piece + total ps

total-components : (path : List ℕ) → total (components path) ≡ 1 + length path
total-components [] = refl
total-components (c ∷ cs) = elim (Bool-cases (c == slash)) [
  | inl here ↦ rw here (omega (arith, total-components cs))
  | inr other ↦ rw other (omega (arith, total-components cs))
]

descend-size :
    (names : List (List ℕ)) (piece : List ℕ)
    → length (flat (descend names piece)) ≤ length (flat names) + 1 + length piece
descend-size names piece =
    let Small = λ (ns : List (List ℕ)). length (flat ns) ≤ length (flat names) + 1 + length piece in
    if-cases Small (length piece == 0) _ _ (λ nothing. omega arith)
      (λ some_byte.
        if-cases Small (str_eq piece (b'.' ∷ [])) _ _ (λ here. omega arith)
          (λ other.
            if-cases Small (str_eq piece (b'.' ∷ b'.' ∷ [])) _ _
              (λ back. omega (arith, length-flat-above names))
              (λ name. omega (arith, length-append (flat names) (slash ∷ piece)))))

walk-size :
    (names ps : List (List ℕ)) → length (flat (walk names ps)) ≤ length (flat names) + total ps
walk-size names [] = omega arith
walk-size names (piece ∷ ps) =
    let cut = take (name_max - 1) piece in
    omega (
      arith,
      walk-size (descend names cut) ps,
      descend-size names cut,
      length-take (name_max - 1) piece,
    )

length-render :
    (names : List (List ℕ)) → length (flat names) < path_max → length (render names) < path_max
length-render [] lt = omega arith
length-render (name ∷ names) lt = lt

-- An absolute path that fits in its array.
record IsAbsolute (abs : List ℕ) : Type 0 where
  rest : List ℕ
  same : abs ≡ slash ∷ rest
  short : length abs < path_max

strcpy_s-IsAbsolute : (s : List ℕ) → get_or s 0 0 ≡ slash → IsAbsolute (strcpy_s [] path_max s)
unfolding strcpy_s copy_up_to
strcpy_s-IsAbsolute [] h = absurd (omega (arith, h))
strcpy_s-IsAbsolute (c ∷ s) h = record {
  rest = copy_up_to 62 s;
  same = ap (λ x. x ∷ copy_up_to 62 s) h;
  short = omega (arith, length-copy_up_to 62 s);
}

strcat_s-IsAbsolute : (abs s : List ℕ) → IsAbsolute abs → IsAbsolute (strcat_s abs path_max s)
unfolding strcat_s
strcat_s-IsAbsolute abs s a =
    let room : leb path_max (length abs) ≡ false = ground (arith, a.short) in
    let more = copy_up_to (63 - length abs) s in
    subst IsAbsolute (sym (if-false _ _ room)) (record {
      rest = a.rest ++ more;
      same = ap (λ x. x ++ more) a.same;
      short = omega (arith, a.short, length-append abs more, length-copy_up_to (63 - length abs) s);
    })

-- The absolute path that a working directory and a path make.
record Makes (cwd : Option (List ℕ)) (input_path : List ℕ) : Type 0 where
  abs : List ℕ
  made : absolute cwd input_path ≡ some abs
  is_absolute : IsAbsolute abs

directory-IsAbsolute :
    (abs : List ℕ)
    → IsAbsolute abs
    → IsAbsolute (if str_eq abs root then abs else strcat_s abs path_max root)
directory-IsAbsolute abs a =
    if-cases IsAbsolute (str_eq abs root) _ _ (λ top. a) (λ below. strcat_s-IsAbsolute abs root a)

absolute-Makes : (dir input_path : List ℕ) → get_or dir 0 0 ≡ slash → Makes (some dir) input_path
unfolding absolute
absolute-Makes dir input_path h = elim (Bool-cases (get_or input_path 0 0 == slash)) [
  | inl at_root ↦ record {
    abs = strcpy_s [] path_max input_path;
    made = if-true _ _ at_root;
    is_absolute = strcpy_s-IsAbsolute input_path (ground arith);
  }
  | inr below ↦
      let start = strcpy_s [] path_max dir in
      let dir_path = if str_eq start root then start else strcat_s start path_max root in
      record {
        abs = strcat_s dir_path path_max input_path;
        made = if-false _ _ below;
        is_absolute =
            strcat_s-IsAbsolute dir_path input_path
              (directory-IsAbsolute start (strcpy_s-IsAbsolute dir h));
      }
]

some_injective : {a b : List ℕ} → some a ≡ some b → a ≡ b
some_injective h = cc

-- The result is the path of the names that the components of an absolute path lead to.
pub record IsResolved (abs : List ℕ) (r : Option (List ℕ)) : Type 0 where
  pub path : r ≡ some (render (walk [] (components abs)))
  pub are_names : AreNames (walk [] (components abs))
  pub short : length (render (walk [] (components abs))) < path_max

-- When the working directory is an absolute path and the result has room for 64 bytes,
-- `user_path_resolve` succeeds. The absolute path is the given one, if it starts with a slash, or else
-- the working directory, a slash unless it is "/", and the given path; of it the first 63 bytes count.
-- The result is the path of the names that its components lead to, where each component is cut to 15
-- bytes, empty ones and `.` mean nothing and `..` removes the last name. The names are not empty and
-- have no slash, and the result is shorter than 64 bytes, so that no test for room fails.
pub user_path_resolve-IsResolved :
    (dir input_path : List ℕ) (out_size : ℕ)
    → get_or dir 0 0 ≡ slash
    → path_max ≤ out_size
    → IsResolved
        (take (path_max - 1) (joined dir input_path))
        (user_path_resolve (some dir) input_path out_size)
unfolding user_path_resolve strcpy_s
user_path_resolve-IsResolved dir input_path out_size h room =
    let makes = absolute-Makes dir input_path h in
    let abs = makes.abs in
    let names = walk [] (components abs) in
    let size = ap length makes.is_absolute.same in
    let gone = ap skip_slashes makes.is_absolute.same ∙ skip_slash makes.is_absolute.rest in
    let left : length (skip_slashes abs) ≤ length makes.is_absolute.rest =
      omega (arith, ap length gone, length-skip_slashes makes.is_absolute.rest) in
    let found =
      normalize-walk (length abs + 1) [] (skip_slashes abs) tt (omega (arith, left, size))
        (omega (arith, left, size, makes.is_absolute.short))
      ∙ ap (λ ns. some (render ns)) (walk-skip_slashes [] abs) in
    let rest = components makes.is_absolute.rest in
    let same : names ≡ walk [] rest = ap (λ p. walk [] (components p)) makes.is_absolute.same in
    let short : length (render names) < path_max = length-render names (
      omega (
        arith,
        ap (λ ns. length (flat ns)) same,
        walk-size [] rest,
        total-components makes.is_absolute.rest,
        size,
        makes.is_absolute.short,
      )) in
    let some_room : (out_size == 0) ≡ false = ground arith in
    let same_abs : abs ≡ take (path_max - 1) (joined dir input_path) =
      some_injective (sym makes.made ∙ absolute-joined dir input_path h) in
    subst (λ a. IsResolved a (user_path_resolve (some dir) input_path out_size)) same_abs
      (record {
        path =
            if-false _ _ some_room
            ∙ ap
                (λ o. o >>= λ a. normalize (length a + 1) root (skip_slashes a) >>= λ norm.
                  some (strcpy_s [] out_size norm))
                makes.made
            ∙ ap (λ o. o >>= λ norm. some (strcpy_s [] out_size norm)) found
            ∙ ap some (strcpy_s-whole [] out_size (render names) (omega (arith, short)));
        are_names = walk-AreNames [] (components abs) tt (components-AllNoSlash abs);
        short = short;
      })
