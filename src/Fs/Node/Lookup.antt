-- ===== src/Fs/Node/Lookup.antt =====
-- The lookups of src/kernel/fs/fs.c in a well-formed node table.
use aqua_core.Prelude.{
  ℕ, zero, suc, ◌-◌, ◌<◌, ◌≡◌, refl, ap, sym, subst, ◌∙◌, Bool, true, false, not, Option, none,
  some, List, arith, ◌==◌, Bool-cases, inl, inr, pos, eq_int, eq_int_iff, length, find_from,
  Option-cases, find_from-some, find_from-none, &&-true, update,
}
use aqua_core.Fs.Path.{Component, bad, stop, found, next_component, str_eq}
use aqua_core.Fs.Path.Names.{IsName, next_component-Found, copy_name-IsName, str_eq_iff}
use aqua_core.Fs.Node.{
  Nodes, max_nodes, type_dir, is_child, find_child, alloc_node, fresh_node, leaf_from, resolve_from,
  resolve_path, resolve_parent_and_leaf, has_leaf, is_absolute,
}
use aqua_core.Fs.Node.Tree.{IsDir, IsTree}

-- k is a used node with this parent and name.
pub record IsChild (nodes : Nodes) (parent : ℕ) (name : List ℕ) (k : ℕ) : Type 0 where
  pub bounded : k < max_nodes
  pub used : (nodes k).used ≡ true
  pub below : (nodes k).parent ≡ pos parent
  pub named : (nodes k).name ≡ name

is_child-IsChild :
    (nodes : Nodes) (parent : ℕ) (name : List ℕ) (k : ℕ)
    → k < max_nodes
    → is_child nodes parent name k ≡ true
    → IsChild nodes parent name k
unfolding is_child
is_child-IsChild nodes parent name k lt h =
    let (u, rest) = &&-true (nodes k).used _ h in
    let (p, n) = &&-true (eq_int (nodes k).parent (pos parent)) (str_eq (nodes k).name name) rest in
    record {
      bounded = lt;
      used = u;
      below = (eq_int_iff (nodes k).parent (pos parent)).0 p;
      named = (str_eq_iff (nodes k).name name).0 n;
    }

IsChild-is_child :
    (nodes : Nodes) (parent : ℕ) (name : List ℕ) (k : ℕ)
    → IsChild nodes parent name k
    → is_child nodes parent name k ≡ true
unfolding is_child
IsChild-is_child nodes parent name k c =
    let p = (eq_int_iff (nodes k).parent (pos parent)).1 c.below in
    let n = (str_eq_iff (nodes k).name name).1 c.named in rw (c.used, p, n) refl

pub find_child-some :
    (nodes : Nodes) (parent : ℕ) (name : List ℕ) (k : ℕ)
    → find_child nodes parent name ≡ some k
    → IsChild nodes parent name k
unfolding find_child
find_child-some nodes parent name k h =
    let first = find_from-some (is_child nodes parent name) max_nodes 0 k h in
    is_child-IsChild nodes parent name k (omega (arith, first.high)) first.hit

pub find_child-none :
    (nodes : Nodes) (parent : ℕ) (name : List ℕ)
    → find_child nodes parent name ≡ none
    → (k : ℕ) → ¬ IsChild nodes parent name k
unfolding find_child
find_child-none nodes parent name h k c =
    let missed =
      find_from-none (is_child nodes parent name) max_nodes 0 h k (omega arith)
        (omega (arith, c.bounded)) in
    cc (IsChild-is_child nodes parent name k c)

-- The child that there is, is found.
pub find_child_lem :
    (nodes : Nodes) (parent : ℕ) (name : List ℕ) (k : ℕ)
    → IsTree nodes
    → IsChild nodes parent name k
    → find_child nodes parent name ≡ some k
find_child_lem nodes parent name k t c = elim (Option-cases (find_child nodes parent name)) [
  | inl missed ↦ absurd (find_child-none nodes parent name missed k c)
  | inr (j, e) ↦
      let d = find_child-some nodes parent name j e in
      e
      ∙ ap some (
          t.distinct j k d.bounded c.bounded d.used c.used (d.below ∙ sym c.below)
            (d.named ∙ sym c.named))
]

-- A free index, the lowest but the root's, with the table after its allocation.
pub record IsFresh (nodes : Nodes) (idx : ℕ) (nodes' : Nodes) : Type 0 where
  pub positive : 0 < idx
  pub bounded : idx < max_nodes
  pub free : (nodes idx).used ≡ false
  pub table : nodes' ≡ update nodes idx fresh_node

pub alloc_node-IsFresh :
    (nodes : Nodes) (idx : ℕ) (nodes' : Nodes)
    → alloc_node nodes ≡ some (idx, nodes')
    → IsFresh nodes idx nodes'
unfolding alloc_node
alloc_node-IsFresh nodes idx nodes' h =
    elim (Option-cases (find_from (λ i. not (nodes i).used) (max_nodes - 1) 1)) [
      | inl e ↦ cc (rw (e, alloc_node) at h)
      | inr (i, e) ↦
          let first = find_from-some (λ i. not (nodes i).used) (max_nodes - 1) 1 i e in
          let h' = rw (e, alloc_node) at h in
          let same : i ≡ idx = cc in
          subst (λ j. IsFresh nodes j nodes') same
            (record {
              positive = omega (arith, first.low);
              bounded = omega (arith, first.high);
              free = ground (arith, first.hit);
              table = cc;
            })
    ]

-- The parent directory and the name that `resolve_parent_and_leaf` finds.
pub record IsLeaf (nodes : Nodes) (parent : ℕ) (leaf : List ℕ) : Type 0 where
  pub dir : IsDir nodes parent
  pub is_name : IsName leaf

-- One round of the loop, with what it has found.
IsLeaf-step :
    (nodes : Nodes) (fuel cur : ℕ) (comp path : List ℕ) (parent : ℕ) (leaf : List ℕ) (c : Component)
    → next_component path ≡ c
    → IsDir nodes cur
    → IsName comp
    → ((child : ℕ) (peek rest : List ℕ)
        → IsDir nodes child
        → IsName peek
        → leaf_from nodes fuel child peek rest ≡ some (parent, leaf)
        → IsLeaf nodes parent leaf)
    → leaf_from nodes (suc fuel) cur comp path ≡ some (parent, leaf)
    → IsLeaf nodes parent leaf
unfolding leaf_from
IsLeaf-step nodes fuel cur comp path parent leaf bad e d n next h = cc (rw (e, leaf_from) at h)
IsLeaf-step nodes fuel cur comp path parent leaf stop e d n next h =
    let h' = rw (e, leaf_from, copy_name-IsName comp n) at h in
    let same_parent : cur ≡ parent = cc in
    let same_leaf : comp ≡ leaf = cc (ap (λ (t : List ℕ × Bool). t.0) (copy_name-IsName comp n)) in
    record { dir = subst (IsDir nodes) same_parent d; is_name = subst IsName same_leaf n }
IsLeaf-step nodes fuel cur comp path parent leaf (found peek rest) e d n next h =
    elim (Option-cases (find_child nodes cur comp)) [
      | inl missed ↦ cc (rw (e, leaf_from, missed) at h)
      | inr (child, f) ↦
          let c = find_child-some nodes cur comp child f in
          elim (Bool-cases ((nodes child).type == type_dir)) [
            | inr other ↦ cc (rw (e, leaf_from, f, other) at h)
            | inl dir ↦
                let cut = next_component-Found path peek rest e in
                next child peek rest
                  (record { bounded = c.bounded; used = c.used; dir = ground arith }) cut.is_name
                  (subst (λ p. leaf_from nodes fuel child p rest ≡ some (parent, leaf))
                    (ap (λ (t : List ℕ × Bool). t.0) (copy_name-IsName peek cut.is_name))
                    (rw (e, leaf_from, f, dir, copy_name-IsName peek cut.is_name) at h))
          ]
    ]

leaf_from-IsLeaf :
    (nodes : Nodes) (fuel cur : ℕ) (comp path : List ℕ) (parent : ℕ) (leaf : List ℕ)
    → IsDir nodes cur
    → IsName comp
    → leaf_from nodes fuel cur comp path ≡ some (parent, leaf)
    → IsLeaf nodes parent leaf
unfolding leaf_from
leaf_from-IsLeaf nodes zero cur comp path parent leaf d n h = cc
leaf_from-IsLeaf nodes (suc fuel) cur comp path parent leaf d n h =
    IsLeaf-step nodes fuel cur comp path parent leaf (next_component path) refl d n
      (λ child peek rest d' n' h'. leaf_from-IsLeaf nodes fuel child peek rest parent leaf d' n' h')
      h

pub resolve_parent_and_leaf-IsLeaf :
    (nodes : Nodes) (path : List ℕ) (parent : ℕ) (leaf : List ℕ)
    → IsDir nodes 0
    → resolve_parent_and_leaf nodes path ≡ some (parent, leaf)
    → IsLeaf nodes parent leaf
unfolding resolve_parent_and_leaf
resolve_parent_and_leaf-IsLeaf nodes path parent leaf d h = elim (Bool-cases (has_leaf path)) [
  | inr other ↦ cc (rw (other, resolve_parent_and_leaf) at h)
  | inl abs ↦ go (next_component path) refl (rw (abs, resolve_parent_and_leaf) at h)
]
  where
    go :
        (c : Component)
        → next_component path ≡ c
        → elim c as (λ c. Option (ℕ × List ℕ)) [
          | bad ↦ none
          | stop ↦ none
          | found comp rest ↦ leaf_from nodes (suc (length rest)) 0 comp rest
        ]
          ≡ some (parent, leaf)
        → IsLeaf nodes parent leaf
    go bad e h' = cc
    go stop e h' = cc
    go (found comp rest) e h' =
        leaf_from-IsLeaf nodes (suc (length rest)) 0 comp rest parent leaf d
          (next_component-Found path comp rest e).is_name h'

-- k is the index of a used node.
pub record IsUsed (nodes : Nodes) (k : ℕ) : Type 0 where
  pub bounded : k < max_nodes
  pub used : (nodes k).used ≡ true

resolve_step :
    (nodes : Nodes) (fuel cur : ℕ) (path : List ℕ) (k : ℕ) (c : Component)
    → next_component path ≡ c
    → IsUsed nodes cur
    → ((child : ℕ) (rest : List ℕ)
        → IsUsed nodes child
        → resolve_from nodes fuel child rest ≡ some k
        → IsUsed nodes k)
    → resolve_from nodes (suc fuel) cur path ≡ some k
    → IsUsed nodes k
unfolding resolve_from
resolve_step nodes fuel cur path k bad e u next h = cc (rw (e, resolve_from) at h)
resolve_step nodes fuel cur path k stop e u next h =
    let h' = rw (e, resolve_from) at h in let same : cur ≡ k = cc in subst (IsUsed nodes) same u
resolve_step nodes fuel cur path k (found name rest) e u next h =
    elim (Option-cases (find_child nodes cur name)) [
      | inl missed ↦ cc (rw (e, resolve_from, missed) at h)
      | inr (child, f) ↦
          let c = find_child-some nodes cur name child f in
          next child rest (record { bounded = c.bounded; used = c.used })
            (rw (e, resolve_from, f) at h)
    ]

resolve_from-IsUsed :
    (nodes : Nodes) (fuel cur : ℕ) (path : List ℕ) (k : ℕ)
    → IsUsed nodes cur
    → resolve_from nodes fuel cur path ≡ some k
    → IsUsed nodes k
unfolding resolve_from
resolve_from-IsUsed nodes zero cur path k u h = cc
resolve_from-IsUsed nodes (suc fuel) cur path k u h =
    resolve_step nodes fuel cur path k (next_component path) refl u
      (λ child rest u' h'. resolve_from-IsUsed nodes fuel child rest k u' h') h

pub resolve_path-IsUsed :
    (nodes : Nodes) (path : List ℕ) (k : ℕ)
    → IsTree nodes
    → resolve_path nodes path ≡ some k
    → IsUsed nodes k
unfolding resolve_path
resolve_path-IsUsed nodes path k t h = elim (Bool-cases (is_absolute path)) [
  | inr other ↦ cc (rw (other, resolve_path) at h)
  | inl abs ↦
      resolve_from-IsUsed nodes (suc (length path)) 0 path k
        (record { bounded = t.root.bounded; used = t.root.used }) (rw (abs, resolve_path) at h)
]
