-- ===== src/User/Path/Stack.antt =====
-- The paths of src/user/runtime/user_path.c as stacks of names.
use aqua_core.Prelude.{
  ℕ, zero, suc, ◌+◌, ◌-◌, ◌≤◌, ◌<◌, ◌≡◌, ◌≢◌, refl, ap, sym, ◌∙◌, true, false, Option, some, List,
  [], ◌∷◌, ◌++◌, arith, ltb, leb, ◌==◌, if◌then◌else◌, length, length-append, take, get_or, if-both,
  if-true, if-false, ◌>>=◌,
}
use mathlib.Core.List.{append_assoc, append-nil}
use aqua_core.Fs.Path.{slash, str_eq}
use aqua_core.Fs.Path.Names.{NoSlash}
use aqua_core.User.Path.{path_max, root, last_slash, pop_component, put_bytes, put_name, put_token}

-- The names on the way down from the root, the last one first.
abbrev pub flat : List (List ℕ) → List ℕ
flat [] = []
flat (name ∷ names) = flat names ++ slash ∷ name

-- Their path.
abbrev pub render : List (List ℕ) → List ℕ
render [] = root
render (name ∷ names) = flat (name ∷ names)

abbrev pub above : List (List ℕ) → List (List ℕ)
above [] = []
above (name ∷ names) = names

-- What a component means.
abbrev pub descend : List (List ℕ) → List ℕ → List (List ℕ)
descend names piece =
    if length piece == 0
    then names
    else if str_eq piece (b'.' ∷ [])
    then names
    else if str_eq piece (b'.' ∷ b'.' ∷ [])
    then above names
    else piece ∷ names

-- Names that are not empty and have no slash.
abbrev pub AreNames : List (List ℕ) → Type 0
AreNames [] = Unit
AreNames (name ∷ names) = (0 < length name) × NoSlash name × AreNames names

get_or-later : (xs ys : List ℕ) (k : ℕ) → get_or (xs ++ ys) (length xs + k) 0 ≡ get_or ys k 0
get_or-later [] ys k = let e : 0 + k ≡ k = omega arith in ap (λ i. get_or ys i 0) e
get_or-later (x ∷ xs) ys k =
    let e : suc (length xs) + k ≡ suc (length xs + k) = omega arith in
    ap (λ i. get_or (x ∷ xs ++ ys) i 0) e ∙ get_or-later xs ys k

NoSlash-get_or : (s : List ℕ) (k : ℕ) → NoSlash s → get_or s k 0 ≢ slash
NoSlash-get_or [] k ok = λ e. absurd (omega (arith, e))
NoSlash-get_or (c ∷ s) zero (ne, ok) = ne
NoSlash-get_or (c ∷ s) (suc k) (ne, ok) = NoSlash-get_or s k ok

last_slash-at :
    (path : List ℕ) (l m : ℕ)
    → (0 < l → get_or path l 0 ≡ slash)
    → ((k : ℕ) → k < m → get_or path (l + suc k) 0 ≢ slash)
    → last_slash path (l + m) ≡ l
unfolding last_slash
last_slash-at path zero zero here clear = refl
last_slash-at path (suc l) zero here clear =
    let e : suc l + 0 ≡ suc l = omega arith in
    let at = here (omega arith) in
    ap (last_slash path) e ∙ if-true {b = get_or path (suc l) 0 == slash} _ _ (ground (arith, at))
last_slash-at path l (suc m) here clear =
    let e : l + suc m ≡ suc (l + m) = omega arith in
    let ne : get_or path (suc (l + m)) 0 ≢ slash =
      λ h. clear m (omega arith) (ap (λ i. get_or path i 0) e ∙ h) in
    ap (last_slash path) e
    ∙ if-false {b = get_or path (suc (l + m)) 0 == slash} _ _ (ground (arith, ne))
    ∙ last_slash-at path l m here (λ k lt. clear k (omega arith))

take-prefix : (xs ys : List ℕ) → take (length xs) (xs ++ ys) ≡ xs
take-prefix [] ys = refl
take-prefix (x ∷ xs) ys = ap (◌∷◌ x) (take-prefix xs ys)

last_slash-flat :
    (names : List (List ℕ)) (name : List ℕ)
    → NoSlash name
    → last_slash (flat names ++ slash ∷ name) (length (flat names) + length name)
      ≡ length (flat names)
last_slash-flat names name ok =
    let path = flat names ++ slash ∷ name in
    let l = length (flat names) in
    last_slash-at path l (length name)
      (λ lt.
        let e : l ≡ l + 0 = omega arith in
        ap (λ i. get_or path i 0) e ∙ get_or-later (flat names) (slash ∷ name) 0)
      (λ k lt h.
        NoSlash-get_or name k ok (sym (get_or-later (flat names) (slash ∷ name) (suc k)) ∙ h))

-- `..` removes the last name, and leaves the root alone.
pop_component-render :
    (names : List (List ℕ)) → AreNames names → pop_component (render names) ≡ render (above names)
unfolding pop_component
pop_component-render [] ok = refl
pop_component-render (name ∷ []) (some_byte, plain, ok) =
    let path = slash ∷ name in
    let long : leb (length path) 1 ≡ false = ground arith in
    let e : length path - 1 ≡ 0 + length name = omega arith in
    let top : last_slash path (length path - 1) ≡ 0 =
      ap (last_slash path) e ∙ last_slash-flat [] name plain in
    if-false _ _ long
    ∙ if-true {b = last_slash path (length path - 1) == 0} _ _ (ap (λ i. i == 0) top)
pop_component-render (name ∷ other ∷ names) (some_byte, plain, ok) =
    let below = flat (other ∷ names) in
    let path = below ++ slash ∷ name in
    let size = length-append below (slash ∷ name) in
    let some_below : 0 < length below = omega (arith, length-append (flat names) (slash ∷ other)) in
    let long : leb (length path) 1 ≡ false = ground (arith, size, some_byte) in
    let e : length path - 1 ≡ length below + length name = omega (arith, size) in
    let at : last_slash path (length path - 1) ≡ length below =
      ap (last_slash path) e ∙ last_slash-flat (other ∷ names) name plain in
    let not_top : (last_slash path (length path - 1) == 0) ≡ false =
      ground (arith, at, some_below) in
    if-false _ _ long
    ∙ if-false _ _ not_top
    ∙ ap (λ i. take i path) at
    ∙ take-prefix below (slash ∷ name)

put_bytes_lem :
    (norm token : List ℕ)
    → length norm + length token < path_max
    → put_bytes norm token ≡ some (norm ++ token)
unfolding put_bytes
put_bytes_lem norm [] room = ap some (sym (append-nil norm))
put_bytes_lem norm (c ∷ token) room =
    let b : leb path_max (length norm + 1) ≡ false = ground arith in
    if-false _ _ b
    ∙ put_bytes_lem (norm ++ c ∷ []) token (omega (arith, length-append norm (c ∷ [])))
    ∙ ap some (append_assoc norm (c ∷ []) token)

-- A name goes below the others, where there is room for it.
put_name-render :
    (names : List (List ℕ)) (name : List ℕ)
    → AreNames names
    → length (flat names) + 1 + length name < path_max
    → put_name (render names) name ≡ some (render (name ∷ names))
unfolding put_name
put_name-render [] name ok room = put_bytes_lem root name (omega arith)
put_name-render (top ∷ names) name (some_byte, plain, ok) room =
    let below = flat (top ∷ names) in
    let long : ltb 1 (length below) ≡ true =
      ground (arith, length-append (flat names) (slash ∷ top), some_byte) in
    ap (λ o. o >>= λ norm'. put_bytes norm' name)
      (if-true _ _ long ∙ put_bytes_lem below root (omega arith))
    ∙ put_bytes_lem (below ++ root) name (omega (arith, length-append below root))
    ∙ ap some (append_assoc below root name)

pub AreNames-above : (names : List (List ℕ)) → AreNames names → AreNames (above names)
AreNames-above [] ok = tt
AreNames-above (name ∷ names) (some_byte, plain, ok) = ok

pub length-flat-above : (names : List (List ℕ)) → length (flat (above names)) ≤ length (flat names)
length-flat-above [] = omega arith
length-flat-above (name ∷ names) = omega (arith, length-append (flat names) (slash ∷ name))

-- The stack after a component, and the path that the code has then.
pub record IsDescent (names : List (List ℕ)) (token : List ℕ) (names' : List (List ℕ))
    (r : Option (List ℕ)) : Type 0 where
  pub path : r ≡ some (render names')
  pub are_names : AreNames names'
  pub size : length (flat names') ≤ length (flat names) + 1 + length token

-- `put_token` does to the path what the component means, where there is room for a name.
pub put_token-render :
    (names : List (List ℕ)) (token : List ℕ)
    → AreNames names
    → NoSlash token
    → length (flat names) + 1 + length token < path_max
    → IsDescent names token (descend names token) (put_token (render names) token)
unfolding put_token
put_token-render names token ok plain room =
    let Fits = IsDescent names token in
    let same : Fits names (some (render names)) = record {
      path = refl;
      are_names = ok;
      size = omega arith;
    } in
    if-both Fits (length token == 0) _ _ _ _ (λ nothing. same)
      (λ some_byte.
        if-both Fits (str_eq token (b'.' ∷ [])) _ _ _ _ (λ here. same)
          (λ other.
            if-both Fits (str_eq token (b'.' ∷ b'.' ∷ [])) _ _ _ _
              (λ back. record {
                path = ap some (pop_component-render names ok);
                are_names = AreNames-above names ok;
                size = omega (arith, length-flat-above names);
              })
              (λ name. record {
                path = put_name-render names token ok room;
                are_names = (ground arith, plain, ok);
                size = omega (arith, length-append (flat names) (slash ∷ token));
              })))
