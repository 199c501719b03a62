-- ===== src/User/Path/Resolve.antt =====
-- `user_path_resolve` of src/user/runtime/user_path.c against the components of a path.
use aqua_core.Prelude.{
  ℕ, zero, suc, ◌+◌, ◌-◌, ◌≤◌, ◌<◌, ◌≡◌, refl, ap, sym, subst, ◌∙◌, false, some, List, [], ◌∷◌,
  arith, ltb, ◌==◌, if◌then◌else◌, length, take, take_empty, take_more, take_full, ltb→lt,
  ltb-false→le, if-false, Bool-cases, inl, inr, ◌>>=◌,
}
use aqua_core.Fs.Path.{slash, name_max, skip_slashes}
use aqua_core.Fs.Path.Names.{NoSlash, length-skip_slashes}
use aqua_core.User.Path.{path_max, read_token, normalize}
use aqua_core.User.Path.Stack.{flat, render, descend, AreNames, put_token-render}

-- A path cut at each slash: the piece before the first one, and the others.
abbrev pub pieces : List ℕ → List ℕ × List (List ℕ)
pieces [] = ([], [])
pieces (c ∷ cs) =
    let rest = pieces cs in if c == slash then ([], rest.0 ∷ rest.1) else (c ∷ rest.0, rest.1)

abbrev pub components : List ℕ → List (List ℕ)
components path = (pieces path).0 ∷ (pieces path).1

-- The names that the components, each cut to 15 bytes, lead to.
abbrev pub walk : List (List ℕ) → List (List ℕ) → List (List ℕ)
walk names [] = names
walk names (piece ∷ ps) = walk (descend names (take (name_max - 1) piece)) ps

-- What a token leaves of a path: nothing, or what starts with a slash.
data IsRest (path : List ℕ) : List ℕ → Type 0 where
  ended : (pieces path).1 ≡ [] → IsRest path []
  cut : (cs : List ℕ) → (pieces path).1 ≡ components cs → IsRest path (slash ∷ cs)

record IsToken (n : ℕ) (path : List ℕ) (r : List ℕ × List ℕ) : Type 0 where
  token : r.0 ≡ take (name_max - 1 - n) (pieces path).0
  plain : NoSlash r.0
  size : length r.0 + length r.1 ≤ length path
  rest : IsRest path r.1

first_piece : (c : ℕ) (cs : List ℕ) → (c == slash) ≡ false → (pieces (c ∷ cs)).0 ≡ c ∷ (pieces cs).0
first_piece c cs ne = ap (λ (p : List ℕ × List (List ℕ)). p.0) (if-false _ _ ne)

IsRest-next : (c : ℕ) (cs r : List ℕ) → (c == slash) ≡ false → IsRest cs r → IsRest (c ∷ cs) r
IsRest-next c cs _ ne (ended e) =
    ended (ap (λ (p : List ℕ × List (List ℕ)). p.1) (if-false _ _ ne) ∙ e)
IsRest-next c cs _ ne (cut r e) =
    cut r (ap (λ (p : List ℕ × List (List ℕ)). p.1) (if-false _ _ ne) ∙ e)

read_token-IsToken : (n : ℕ) (path : List ℕ) → n < name_max → IsToken n path (read_token n path)
unfolding read_token
read_token-IsToken n [] lt = record {
  token = sym (take_empty (name_max - 1 - n));
  plain = tt;
  size = omega arith;
  rest = ended refl;
}
read_token-IsToken n (c ∷ cs) lt = elim (Bool-cases (c == slash)) [
  | inl here ↦
      let same : slash ≡ c = ground arith in
      subst (λ x. IsToken n (x ∷ cs) (read_token n (x ∷ cs))) same
        (record {
          token = sym (take_empty (name_max - 1 - n));
          plain = tt;
          size = omega arith;
          rest = cut cs refl;
        })
  | inr other ↦ elim (Bool-cases (ltb n (name_max - 1))) [
    | inl stored ↦
        let lt' = ltb→lt n (name_max - 1) stored in
        let next = read_token-IsToken (n + 1) cs (omega arith) in
        rw (other, stored)
          (record {
            token =
                ap (◌∷◌ c) next.token
                ∙ sym (take_more (name_max - 1) n c (pieces cs).0 lt')
                ∙ ap (take (name_max - 1 - n)) (sym (first_piece c cs other));
            plain = (ground arith, next.plain);
            size = omega (arith, next.size);
            rest = IsRest-next c cs _ other next.rest;
          })
    | inr full ↦
        let le = ltb-false→le n (name_max - 1) full in
        let next = read_token-IsToken n cs lt in
        rw (other, full)
          (record {
            token =
                next.token
                ∙ take_full (name_max - 1) n (pieces cs).0 le
                ∙ sym (take_full (name_max - 1) n (pieces (c ∷ cs)).0 le);
            plain = next.plain;
            size = omega (arith, next.size);
            rest = IsRest-next c cs _ other next.rest;
          })
  ]
]

pub skip_slash : (cs : List ℕ) → skip_slashes (slash ∷ cs) ≡ skip_slashes cs
unfolding skip_slashes
skip_slash cs = refl

-- The empty components that `skip_slashes` passes mean nothing.
pub walk-skip_slashes :
    (names : List (List ℕ)) (path : List ℕ)
    → walk names (components (skip_slashes path)) ≡ walk names (components path)
unfolding skip_slashes
walk-skip_slashes names [] = refl
walk-skip_slashes names (c ∷ cs) = elim (Bool-cases (c == slash)) [
  | inl here ↦ rw here (walk-skip_slashes names cs)
  | inr other ↦ ap (λ p. walk names (components p)) (if-false _ _ other)
]

-- What follows a token, with the names that are found.
after_token :
    (fuel : ℕ) (names : List (List ℕ)) (path r : List ℕ)
    → IsRest path r
    → ((cs : List ℕ)
        → r ≡ slash ∷ cs
        → normalize fuel (render names) (skip_slashes (slash ∷ cs))
          ≡ some (render (walk names (components (skip_slashes (slash ∷ cs))))))
    → (if length r == 0
        then some (render names)
        else normalize fuel (render names) (skip_slashes r))
      ≡ some (render (walk names (pieces path).1))
after_token fuel names path _ (ended e) more = ap (λ ps. some (render (walk names ps))) (sym e)
after_token fuel names path _ (cut cs e) more =
    let some_left : (length (slash ∷ cs) == 0) ≡ false = ground arith in
    if-false _ _ some_left
    ∙ more cs refl
    ∙ ap (λ ns. some (render ns)) (walk-skip_slashes names (slash ∷ cs))
    ∙ ap (λ ps. some (render (walk names ps))) (sym e)

-- The loop finds the path of the names that the components lead to.
pub normalize-walk :
    (fuel : ℕ) (names : List (List ℕ)) (path : List ℕ)
    → AreNames names
    → length path < fuel
    → length (flat names) + 1 + length path < path_max
    → normalize fuel (render names) path ≡ some (render (walk names (components path)))
unfolding normalize
normalize-walk zero names path ok enough room = absurd (omega arith)
normalize-walk (suc fuel) names path ok enough room =
    let token = read_token 0 path in
    let is = read_token-IsToken 0 path (omega arith) in
    let step = put_token-render names token.0 ok is.plain (omega (arith, is.size)) in
    let cut_to : token.0 ≡ take (name_max - 1) (pieces path).0 = is.token in
    ap
      (λ o. o >>= λ norm'.
        if length token.1 == 0 then some norm' else normalize fuel norm' (skip_slashes token.1))
      step.path
    ∙ after_token fuel (descend names token.0) path token.1 is.rest (λ cs e.
      let gone : skip_slashes (slash ∷ cs) ≡ skip_slashes cs = skip_slash cs in
      normalize-walk fuel (descend names token.0) (skip_slashes (slash ∷ cs)) step.are_names
        (omega (arith, is.size, ap length e, ap length gone, length-skip_slashes cs))
        (omega (arith, step.size, is.size, ap length e, ap length gone, length-skip_slashes cs)))
    ∙ ap (λ piece. some (render (walk (descend names piece) (pieces path).1))) cut_to
