-- ===== src/Fs/Node.antt =====
-- The node table of a file system instance (`struct nodefs`) in src/kernel/fs/fs.c: lookup of a child,
-- of a path, allocation.
pub mod Tree
pub mod Lookup
pub mod Resolve
pub mod Grow
pub mod Alter
use aqua_core.Prelude.{
  ℕ, zero, suc, ◌+◌, ◌-◌, Bool, true, false, not, ◌&&◌, Option, none, some, List, [], ◌∷◌, ◌==◌,
  if◌then◌else◌, length, ℤ, pos, minus_one, eq_int, update, find_from, any_from,
}
use aqua_core.Fs.Path.{slash, str_eq, copy_name, Component, bad, stop, found, next_component}

abbrev pub max_nodes : ℕ
max_nodes = 128

abbrev pub file_max_size : ℕ
file_max_size = 512

abbrev pub type_file : ℕ
type_file = 1

abbrev pub type_dir : ℕ
type_dir = 2

-- `struct fs_node`. The int `used` is the truth value that the code reads it as.
pub record Node : Type 0 where
  pub used : Bool
  pub type : ℕ
  pub parent : ℤ
  pub name : List ℕ
  pub size : ℕ
  pub bytes : ℕ → ℕ

-- All bytes 0.
abbrev pub zero_node : Node
zero_node = record { used = false; type = 0; parent = pos 0; name = []; size = 0; bytes = λ i. 0 }

abbrev pub Nodes : Type 0
Nodes = ℕ → Node

-- `struct nodefs`
pub record Nodefs : Type 0 where
  pub mount_idx : ℤ
  pub persistent : Bool
  pub nodes : Nodes

abbrev pub root_node : Node
root_node = record zero_node { used = true; type = type_dir; parent = minus_one; name = slash ∷ [] }

unfoldable pub nodefs_format : Nodefs → Nodefs
nodefs_format fs = record fs { nodes = update (λ i. zero_node) 0 root_node }

-- The test of the loop in `nodefs_find_child`.
unfoldable pub is_child : Nodes → ℕ → List ℕ → ℕ → Bool
is_child nodes parent_idx name i =
    (nodes i).used && (eq_int (nodes i).parent (pos parent_idx) && str_eq (nodes i).name name)

unfoldable pub find_child : Nodes → ℕ → List ℕ → Option ℕ
find_child nodes parent_idx name = find_from (is_child nodes parent_idx name) max_nodes 0

abbrev pub fresh_node : Node
fresh_node = record zero_node { used = true; parent = minus_one }

unfoldable pub alloc_node : Nodes → Option (ℕ × Nodes)
alloc_node nodes = elim (find_from (λ i. not (nodes i).used) (max_nodes - 1) 1) [
  | none ↦ none
  | some i ↦ some (i, update nodes i fresh_node)
]

-- The loop of `nodefs_resolve_path`. Each round takes a component off the path, so one round more
-- than the path has bytes is enough fuel (`Fs.Node.Resolve.resolve_path_lem`).
unfoldable pub resolve_from : Nodes → ℕ → ℕ → List ℕ → Option ℕ
resolve_from nodes zero cur path = none
resolve_from nodes (suc fuel) cur path = elim (next_component path) [
  | bad ↦ none
  | stop ↦ some cur
  | found name rest ↦ elim (find_child nodes cur name) [
    | none ↦ none
    | some child ↦ resolve_from nodes fuel child rest
  ]
]

abbrev pub is_absolute : List ℕ → Bool
is_absolute [] = false
is_absolute (c ∷ cs) = c == slash

unfoldable pub resolve_path : Nodes → List ℕ → Option ℕ
resolve_path nodes path =
    if is_absolute path then resolve_from nodes (suc (length path)) 0 path else none

-- The guard `path[0] != '/' || path[1] == '\0'`, negated.
abbrev pub has_leaf : List ℕ → Bool
has_leaf [] = false
has_leaf (c ∷ []) = false
has_leaf (c ∷ d ∷ cs) = c == slash

abbrev pub checked_name : List ℕ × Bool → Option (List ℕ)
checked_name (name, true) = some name
checked_name (name, false) = none

-- The loop of `nodefs_resolve_parent_and_leaf`: the parent's index and the leaf's name.
unfoldable pub leaf_from : Nodes → ℕ → ℕ → List ℕ → List ℕ → Option (ℕ × List ℕ)
leaf_from nodes zero cur comp path = none
leaf_from nodes (suc fuel) cur comp path = elim (next_component path) [
  | bad ↦ none
  | stop ↦ elim (checked_name (copy_name comp)) [ none ↦ none | some leaf ↦ some (cur, leaf) ]
  | found peek rest ↦ elim (find_child nodes cur comp) [
    | none ↦ none
    | some child ↦ elim ((nodes child).type == type_dir) [
      | false ↦ none
      | true ↦ elim (checked_name (copy_name peek)) [
        | none ↦ none
        | some comp' ↦ leaf_from nodes fuel child comp' rest
      ]
    ]
  ]
]

unfoldable pub resolve_parent_and_leaf : Nodes → List ℕ → Option (ℕ × List ℕ)
resolve_parent_and_leaf nodes path =
    if has_leaf path
    then elim (next_component path) [
      | bad ↦ none
      | stop ↦ none
      | found comp rest ↦ leaf_from nodes (suc (length rest)) 0 comp rest
    ]
    else none

unfoldable pub is_dir_empty : Nodes → ℕ → Bool
is_dir_empty nodes node_index =
    not (any_from (λ i. (nodes i).used && eq_int (nodes i).parent (pos node_index)) max_nodes 0)
