-- ===== src/Fs/Path/Names.antt =====
-- What the path scanner of src/kernel/fs/fs.c cuts off a path.
use aqua_core.Prelude.{
  ℕ, zero, suc, ◌+◌, ◌-◌, ◌≤◌, ◌<◌, ◌≡◌, refl, ap, ap₂, true, List, [], ◌∷◌, ◌++◌, arith, leb, ◌==◌,
  length, length-append, Bool-cases, inl, inr, ◌≢◌, take, ◌↔◌, subst,
}
use aqua_core.Fs.Path.{
  slash, name_max, str_eq, copy_name, Component, bad, stop, found, skip_slashes, take_component,
  component_at, next_component, prepend,
}

abbrev pub NoSlash : List ℕ → Type 0
NoSlash [] = Unit
NoSlash (c ∷ cs) = (c ≢ slash) × NoSlash cs

-- A name that a node can have: 1 to 15 bytes, none of them a slash.
pub record IsName (name : List ℕ) : Type 0 where
  pub nonempty : 0 < length name
  pub short : length name < name_max
  pub no_slash : NoSlash name

-- What the scanner has found in a path that starts with the name's first byte.
abbrev Cut : ℕ → List ℕ → Component → Type 0
Cut i path bad = Unit
Cut i path stop = Unit
Cut i path (found name rest) = (name ++ rest ≡ path) × NoSlash name × (i + length name < name_max)

Cut-prepend :
    (c i : ℕ) (cs : List ℕ) (r : Component)
    → c ≢ slash
    → Cut (i + 1) cs r
    → Cut i (c ∷ cs) (prepend c r)
Cut-prepend c i cs bad ne h = tt
Cut-prepend c i cs stop ne h = tt
Cut-prepend c i cs (found name rest) ne (e, ns, le) = (ap (◌∷◌ c) e, (ne, ns), omega arith)

take_component-Cut : (i : ℕ) (path : List ℕ) → i < name_max → Cut i path (take_component i path)
unfolding take_component
take_component-Cut i [] h = (refl, tt, omega arith)
take_component-Cut i (c ∷ cs) h = elim (Bool-cases (c == slash)) [
  | inl e ↦ rw e (refl, tt, omega arith)
  | inr e ↦ elim (Bool-cases (leb (name_max - 1) i)) [
    | inl full ↦ rw (e, full) tt
    | inr room ↦
        rw (e, room)
          (Cut-prepend c i cs _ (ground arith) (take_component-Cut (i + 1) cs (ground arith)))
  ]
]

pub length-skip_slashes : (path : List ℕ) → length (skip_slashes path) ≤ length path
unfolding skip_slashes
length-skip_slashes [] = omega arith
length-skip_slashes (c ∷ cs) = ground (arith, length-skip_slashes cs)

-- A found component is a name, and the rest of the path is shorter than the path.
pub record Found (path name rest : List ℕ) : Type 0 where
  pub is_name : IsName name
  pub shorter : length rest < length path

prepend-Found :
    (c : ℕ) (cs : List ℕ) (r : Component) (name rest : List ℕ)
    → c ≢ slash
    → Cut 1 cs r
    → prepend c r ≡ found name rest
    → Found (c ∷ cs) name rest
prepend-Found c cs bad name rest ne cut h = cc
prepend-Found c cs stop name rest ne cut h = cc
prepend-Found c cs (found n r) name rest ne (whole, ns, fits) h =
    let same_name : c ∷ n ≡ name = cc in
    let same_rest : r ≡ rest = cc in
    record {
      is_name =
          subst IsName same_name
            (record { nonempty = omega arith; short = omega arith; no_slash = (ne, ns) });
      shorter =
          subst (λ l. length l < suc (length cs)) same_rest
            (omega (arith, ap length whole, length-append n r));
    }

component_at-Found :
    (path name rest : List ℕ)
    → ((c : ℕ) (cs : List ℕ) → path ≡ c ∷ cs → c ≢ slash)
    → component_at path ≡ found name rest
    → Found path name rest
unfolding take_component
component_at-Found [] name rest ne h = cc
component_at-Found (c ∷ cs) name rest ne h =
    prepend-Found c cs (take_component 1 cs) name rest (ne c cs refl)
      (take_component-Cut 1 cs (omega arith)) (ground (arith, ne c cs refl))

skip_slashes-head : (path : List ℕ) (c : ℕ) (cs : List ℕ) → skip_slashes path ≡ c ∷ cs → c ≢ slash
unfolding skip_slashes
skip_slashes-head [] c cs h e = cc
skip_slashes-head (d ∷ ds) c cs h e = elim (Bool-cases (d == slash)) [
  | inl s ↦ skip_slashes-head ds c cs (rw s at h) e
  | inr s ↦ ground arith
]

pub next_component-Found :
    (path name rest : List ℕ) → next_component path ≡ found name rest → Found path name rest
unfolding next_component
next_component-Found path name rest h =
    let cut = component_at-Found (skip_slashes path) name rest (skip_slashes-head path) h in
    record { is_name = cut.is_name; shorter = omega (arith, cut.shorter, length-skip_slashes path) }

take_all : (n : ℕ) (xs : List ℕ) → length xs ≤ n → take n xs ≡ xs
take_all zero [] h = refl
take_all zero (x ∷ xs) h = absurd (omega arith)
take_all (suc n) [] h = refl
take_all (suc n) (x ∷ xs) h = ap (◌∷◌ x) (take_all n xs (omega arith))

-- A name is copied whole.
pub copy_name-IsName : (name : List ℕ) → IsName name → copy_name name ≡ (name, true)
unfolding copy_name
copy_name-IsName name h =
    let fits : leb (length name) 15 ≡ true = ground (arith, h.short) in
    ap₂ (λ n b. (n, b)) (take_all 15 name (omega (arith, h.short))) fits

pub str_eq_iff : (a b : List ℕ) → (str_eq a b ≡ true) ↔ (a ≡ b)
unfolding str_eq
str_eq_iff [] [] = ground arith
str_eq_iff [] (b ∷ bs) = ground arith
str_eq_iff (a ∷ as') [] = ground arith
str_eq_iff (a ∷ as') (b ∷ bs) = ground (arith, str_eq_iff as' bs)
