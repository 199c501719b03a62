-- ===== src/Fs/Node/Tree.antt =====
-- The well-formedness of a node table of src/kernel/fs/fs.c: its used nodes are a directory tree.
use aqua_core.Prelude.{ℕ, ◌≤◌, ◌<◌, ◌≡◌, ◌⊎◌, true, pos, minus_one}
use aqua_core.Fs.Path.Names.{IsName}
use aqua_core.Fs.Node.{Nodes, max_nodes, file_max_size, type_file, type_dir}

-- k is the index of a used directory, the root among them.
pub record IsDir (nodes : Nodes) (k : ℕ) : Type 0 where
  pub bounded : k < max_nodes
  pub used : (nodes k).used ≡ true
  pub dir : (nodes k).type ≡ type_dir

-- k is the index of a used file.
pub record IsFile (nodes : Nodes) (k : ℕ) : Type 0 where
  pub positive : 0 < k
  pub bounded : k < max_nodes
  pub used : (nodes k).used ≡ true
  pub file : (nodes k).type ≡ type_file

-- A used node but the root: it has a name and hangs under a directory, at a greater depth.
pub record IsEntry (nodes : Nodes) (depth : ℕ → ℕ) (k : ℕ) : Type 0 where
  pub above : ℕ
  pub parent : (nodes k).parent ≡ pos above
  pub dir : IsDir nodes above
  pub deeper : depth above < depth k
  pub kind : ((nodes k).type ≡ type_file) ⊎ ((nodes k).type ≡ type_dir)
  pub name : IsName (nodes k).name
  pub size : (nodes k).size ≤ file_max_size

pub record IsTree (nodes : Nodes) : Type 0 where
  pub depth : ℕ → ℕ
  pub root : IsDir nodes 0
  pub root_parent : (nodes 0).parent ≡ minus_one
  pub entry : (k : ℕ) → 0 < k → k < max_nodes → (nodes k).used ≡ true → IsEntry nodes depth k
  -- Siblings have different names.
  pub distinct :
      (i j : ℕ)
      → i < max_nodes
      → j < max_nodes
      → (nodes i).used ≡ true
      → (nodes j).used ≡ true
      → (nodes i).parent ≡ (nodes j).parent
      → (nodes i).name ≡ (nodes j).name
      → i ≡ j
