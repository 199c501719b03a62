-- ===== src/Fs/Path.antt =====
-- The path scanner of src/kernel/fs/fs.c. A C string is the list of its bytes before the NUL, and a
-- position in it is the list of the bytes that are left.
pub mod Names
use aqua_core.Prelude.{
  ℕ, zero, suc, ◌+◌, ◌-◌, ◌≤◌, ◌<◌, ◌≡◌, Bool, true, false, Option, none, some, List, [], ◌∷◌, ltb,
  leb, ◌==◌, if◌then◌else◌, length, take,
}
use mathlib.Core.Option

abbrev pub name_max : ℕ
name_max = 16

abbrev pub slash : ℕ
slash = b'/'

-- strcmp(a, b) == 0
unfoldable pub str_eq : List ℕ → List ℕ → Bool
str_eq [] [] = true
str_eq [] (b ∷ bs) = false
str_eq (a ∷ as') [] = false
str_eq (a ∷ as') (b ∷ bs) = if a == b then str_eq as' bs else false

-- The bytes that are copied, and whether they are all of the source.
unfoldable pub copy_name : List ℕ → List ℕ × Bool
copy_name src = (take (name_max - 1) src, leb (length src) (name_max - 1))

-- What `next_component` returns: -1, 0, or 1 with the name and the rest of the path.
pub data Component : Type 0 where
  bad stop : Component
  found : List ℕ → List ℕ → Component

unfoldable pub skip_slashes : List ℕ → List ℕ
skip_slashes [] = []
skip_slashes (c ∷ cs) = if c == slash then skip_slashes cs else c ∷ cs

abbrev pub prepend : ℕ → Component → Component
prepend c bad = bad
prepend c stop = stop
prepend c (found name rest) = found (c ∷ name) rest

-- The second loop, with i bytes copied.
unfoldable pub take_component : ℕ → List ℕ → Component
take_component i [] = found [] []
take_component i (c ∷ cs) =
    let rest = prepend c (take_component (i + 1) cs) in
    if c == slash then found [] (c ∷ cs) else if leb (name_max - 1) i then bad else rest

abbrev pub component_at : List ℕ → Component
component_at [] = stop
component_at (c ∷ cs) = take_component 0 (c ∷ cs)

unfoldable pub next_component : List ℕ → Component
unfolding skip_slashes take_component
next_component path = component_at (skip_slashes path)
