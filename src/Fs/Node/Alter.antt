-- ===== src/Fs/Node/Alter.antt =====
-- A node without children is cleared, or a file's content is changed, in the node tables of
-- src/kernel/fs/fs.c.
use aqua_core.Prelude.{
  ℕ, zero, suc, ◌≤◌, ◌<◌, ◌≡◌, ◌≢◌, refl, ap, sym, subst, ◌∙◌, true, ◌&&◌, arith, pos, eq_int,
  eq_int_iff, any_from-false, update,
}
use aqua_core.Fs.Node.{Node, Nodes, zero_node, max_nodes, file_max_size, is_dir_empty}
use aqua_core.Fs.Node.Tree.{IsDir, IsFile, IsEntry, IsTree}
use aqua_core.Fs.Node.Grow.{AgreeBut-update, IsDir-moved, IsEntry-moved}

-- Clearing a node that has no children.
module _ (nodes : Nodes) (idx : ℕ) (t : IsTree nodes) (pos_idx : 0 < idx)
    (childless : (k : ℕ) → k < max_nodes → (nodes k).used ≡ true → (nodes k).parent ≢ pos idx) where
  cleared : Nodes
  cleared = update nodes idx zero_node

  -- What is used after the clearing is another node.
  cleared_ne : (k : ℕ) → (cleared k).used ≡ true → idx ≢ k
  unfolding cleared
  cleared_ne k u e = ground arith

  IsDir-cleared : (k : ℕ) → idx ≢ k → IsDir nodes k → IsDir cleared k
  unfolding cleared
  IsDir-cleared k ne d = IsDir-moved nodes cleared idx (AgreeBut-update nodes idx zero_node) k ne d

  IsEntry-cleared :
      (k : ℕ) → 0 < k → k < max_nodes → (cleared k).used ≡ true → IsEntry cleared t.depth k
  unfolding cleared
  IsEntry-cleared k p b u =
      let ne = cleared_ne k u in
      let agree = AgreeBut-update nodes idx zero_node in
      let u' = rw (agree.same k ne) at u in
      let e = t.entry k p b u' in
      let above_ne : idx ≢ e.above = λ same. childless k b u' (e.parent ∙ ap pos (sym same)) in
      IsEntry-moved nodes cleared idx agree t.depth t.depth k ne e
        (IsDir-cleared e.above above_ne e.dir) refl refl

  pub IsTree-cleared : IsTree (update nodes idx zero_node)
  unfolding cleared
  IsTree-cleared =
      let agree = AgreeBut-update nodes idx zero_node in
      record {
        depth = t.depth;
        root = IsDir-cleared 0 (omega arith) t.root;
        root_parent = ground (arith, t.root_parent);
        entry = IsEntry-cleared;
        distinct = λ i j bi bj ui uj p q.
            let si = agree.same i (cleared_ne i ui) in
            let sj = agree.same j (cleared_ne j uj) in
            t.distinct i j bi bj (rw si at ui) (rw sj at uj) (rw (si, sj) at p) (rw (si, sj) at q);
      }

-- A directory that the code finds empty has no children; nor has a file.
pub is_dir_empty-childless :
    (nodes : Nodes) (idx : ℕ)
    → is_dir_empty nodes idx ≡ true
    → (k : ℕ) → k < max_nodes
    → (nodes k).used ≡ true
    → (nodes k).parent ≢ pos idx
unfolding is_dir_empty
is_dir_empty-childless nodes idx h k b u e =
    let missed =
      any_from-false (λ i. (nodes i).used && eq_int (nodes i).parent (pos idx)) max_nodes 0
        (ground arith) k (omega arith) (omega arith) in
    ground (arith, (eq_int_iff (nodes k).parent (pos idx)).1 e)

pub IsFile-childless :
    (nodes : Nodes) (idx : ℕ)
    → IsTree nodes
    → IsFile nodes idx
    → (k : ℕ) → k < max_nodes
    → (nodes k).used ≡ true
    → (nodes k).parent ≢ pos idx
IsFile-childless nodes idx t f zero b u e = cc t.root_parent
IsFile-childless nodes idx t f (suc k) b u e =
    let entry = t.entry (suc k) (omega arith) b u in
    let same : entry.above ≡ idx = ground (arith, entry.parent) in
    let dir : IsDir nodes idx = subst (IsDir nodes) same entry.dir in
    ground (arith, f.file, dir.dir)

-- A file's content and size change, its place stays.
module _ (nodes : Nodes) (idx size : ℕ) (bytes : ℕ → ℕ) (t : IsTree nodes) (f : IsFile nodes idx)
    (fits : size ≤ file_max_size) where
  changed_node : Node
  changed_node = record (nodes idx) { size = size; bytes = bytes }

  changed : Nodes
  changed = update nodes idx changed_node

  -- The place of every node is as it was.
  record SamePlace (k : ℕ) : Type 0 where
    used : (changed k).used ≡ (nodes k).used
    type : (changed k).type ≡ (nodes k).type
    parent : (changed k).parent ≡ (nodes k).parent
    name : (changed k).name ≡ (nodes k).name

  same_place : (k : ℕ) → SamePlace k
  unfolding changed changed_node
  same_place k = record {
    used = ground arith;
    type = ground arith;
    parent = ground arith;
    name = ground arith;
  }

  size_changed : (k : ℕ) → (nodes k).size ≤ file_max_size → (changed k).size ≤ file_max_size
  unfolding changed changed_node
  size_changed k h = ground arith

  IsDir-changed : (k : ℕ) → IsDir nodes k → IsDir changed k
  IsDir-changed k d = record {
    bounded = d.bounded;
    used = (same_place k).used ∙ d.used;
    dir = (same_place k).type ∙ d.dir;
  }

  IsEntry-changed :
      (k : ℕ) → 0 < k → k < max_nodes → (changed k).used ≡ true → IsEntry changed t.depth k
  IsEntry-changed k p b u =
      let s = same_place k in
      let e = t.entry k p b (sym s.used ∙ u) in
      record {
        above = e.above;
        parent = s.parent ∙ e.parent;
        dir = IsDir-changed e.above e.dir;
        deeper = e.deeper;
        kind = rw s.type e.kind;
        name = rw s.name e.name;
        size = size_changed k e.size;
      }

  pub IsTree-changed : IsTree (update nodes idx (record (nodes idx) { size = size; bytes = bytes }))
  unfolding changed changed_node
  IsTree-changed = record {
    depth = t.depth;
    root = IsDir-changed 0 t.root;
    root_parent = (same_place 0).parent ∙ t.root_parent;
    entry = IsEntry-changed;
    distinct = λ i j bi bj ui uj p q.
        let si = same_place i in
        let sj = same_place j in
        t.distinct i j bi bj (sym si.used ∙ ui) (sym sj.used ∙ uj) (sym si.parent ∙ p ∙ sj.parent)
          (sym si.name ∙ q ∙ sj.name);
  }

  pub IsFile-changed :
      (k : ℕ)
      → IsFile nodes k
      → IsFile (update nodes idx (record (nodes idx) { size = size; bytes = bytes })) k
  unfolding changed changed_node
  IsFile-changed k f' = record {
    positive = f'.positive;
    bounded = f'.bounded;
    used = (same_place k).used ∙ f'.used;
    file = (same_place k).type ∙ f'.file;
  }
