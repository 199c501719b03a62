-- ===== src/Fs/Nodefs/Keep.antt =====
-- Every operation of an instance in src/kernel/fs/fs.c keeps its node table a tree, and no file goes
-- away that is open in some process.
use aqua_core.Prelude.{
  ℕ, zero, suc, ◌<◌, ◌≡◌, ◌⊎◌, refl, sym, subst, fun_ext, ◌∙◌, true, false, List, arith, Bool-cases,
  inl, inr, pos, update, Option, none, some, Option-cases,
}
use aqua_core.Fs.Path.Names.{copy_name-IsName}
use aqua_core.Fs.Node.{
  Node, Nodes, Nodefs, fresh_node, max_nodes, type_file, type_dir, find_child, alloc_node,
  resolve_parent_and_leaf,
}
use aqua_core.Fs.Node.Tree.{IsFile, IsTree}
use aqua_core.Fs.Node.Lookup.{
  IsUsed, find_child-none, IsLeaf, resolve_parent_and_leaf-IsLeaf, alloc_node-IsFresh,
}
use aqua_core.Fs.Node.Grow.{AgreeBut-update, IsNew, IsTree-grown, IsFile-moved}
use aqua_core.Fs.Block.{BlockDev, pfs_sync}
use aqua_core.Fs.Nodefs.{Reply, create_node, synced, create_at}

-- The instance fs' follows on fs: it is a tree at the same mount, with all files of fs.
pub record Keeps (fs fs' : Nodefs) : Type 0 where
  pub tree : IsTree fs'.nodes
  pub mount : fs'.mount_idx ≡ fs.mount_idx
  pub files : (k : ℕ) → IsFile fs.nodes k → IsFile fs'.nodes k

pub Keeps-refl : (fs : Nodefs) → IsTree fs.nodes → Keeps fs fs
Keeps-refl fs t = record { tree = t; mount = refl; files = λ k f. f }

pub Keeps-trans : (a b c : Nodefs) → Keeps a b → Keeps b c → Keeps a c
Keeps-trans a b c p q = record {
  tree = q.tree;
  mount = q.mount ∙ p.mount;
  files = λ k f. q.files k (p.files k f);
}

-- What `create_node` makes: the instance follows on the one before, and the node has the type.
pub record Created (fs : Nodefs) (type : ℕ) (fs' : Nodefs) (idx : ℕ) : Type 0 where
  pub keeps : Keeps fs fs'
  pub positive : 0 < idx
  pub bounded : idx < max_nodes
  pub used : (fs'.nodes idx).used ≡ true
  pub typed : (fs'.nodes idx).type ≡ type

abbrev pub CreatedReply : Nodefs → ℕ → Option ℕ × Nodefs → Type 0
CreatedReply fs type (none, fs') = Keeps fs fs'
CreatedReply fs type (some idx, fs') = Created fs type fs' idx

new_node : ℕ → ℕ → List ℕ → Node
new_node type parent leaf = record fresh_node { type = type; parent = pos parent; name = leaf }

module _ (fs : Nodefs) (type parent : ℕ) (leaf : List ℕ) (t : IsTree fs.nodes)
    (kind : (type ≡ type_file) ⊎ (type ≡ type_dir)) (l : IsLeaf fs.nodes parent leaf)
    (unique : find_child fs.nodes parent leaf ≡ none) where
  Created-new :
      (idx : ℕ)
      → 0 < idx
      → idx < max_nodes
      → (fs.nodes idx).used ≡ false
      → Created fs type (record fs { nodes = update fs.nodes idx (new_node type parent leaf) }) idx
  unfolding new_node
  Created-new idx p b free =
      let n = new_node type parent leaf in
      let new : IsNew fs.nodes parent leaf n = record {
        used = refl;
        below = refl;
        named = refl;
        kind = kind;
        size = omega arith;
        dir = l.dir;
        is_name = l.is_name;
        unique = find_child-none fs.nodes parent leaf unique;
      } in
      let agree = AgreeBut-update fs.nodes idx n in
      record {
        keeps = record {
          tree = IsTree-grown fs.nodes idx parent leaf n t p b free new;
          mount = refl;
          files = λ k f.
              IsFile-moved fs.nodes (update fs.nodes idx n) idx agree k
                (λ e. ground (arith, f.used, subst (λ j. (fs.nodes j).used ≡ false) e free)) f;
        };
        positive = p;
        bounded = b;
        used = ground arith;
        typed = ground arith;
      }

  -- The node as it stands in the code, where the allocation has cleared it before.
  allocated_node :
      (idx : ℕ) (nodes : Nodes)
      → nodes ≡ update fs.nodes idx fresh_node
      → update nodes idx (record (nodes idx) { type = type; parent = pos parent; name = leaf })
        ≡ update fs.nodes idx (new_node type parent leaf)
  unfolding new_node
  allocated_node idx nodes e = rw e (fun_ext λ j. ground arith)

  create_node_lem : CreatedReply fs type (create_node fs type parent leaf)
  unfolding create_node
  create_node_lem = elim (Option-cases (alloc_node fs.nodes)) [
    | inl full ↦ rw (full, create_node) (Keeps-refl fs t)
    | inr ((idx, nodes), e) ↦
        let fresh = alloc_node-IsFresh fs.nodes idx nodes e in
        rw (e, create_node, copy_name-IsName leaf l.is_name)
          (subst (λ table. Created fs type (record fs { nodes = table }) idx)
            (sym (allocated_node idx nodes fresh.table))
            (Created-new idx fresh.positive fresh.bounded fresh.free))
  ]

-- A used node of type file is not the root.
pub used-IsFile :
    (nodes : Nodes) (k : ℕ)
    → IsTree nodes
    → IsUsed nodes k
    → (nodes k).type ≡ type_file
    → IsFile nodes k
used-IsFile nodes zero t u e = absurd (ground (arith, t.root.dir, e))
used-IsFile nodes (suc k) t u e = record {
  positive = omega arith;
  bounded = u.bounded;
  used = u.used;
  file = e;
}

module _ {D : Type 0} (dev : BlockDev D) where
  -- What a reply says, for any of the operations that create no node.
  abbrev pub KeepsReply : {A : Type 0} → Nodefs → Reply D A → Type 0
  KeepsReply fs reply = Keeps fs reply.1

  abbrev pub CreatedAt : Nodefs → ℕ → Reply D ℕ → Type 0
  CreatedAt fs type (made, fs', disk') = CreatedReply fs type (made, fs')

  abbrev pub Opened : Nodefs → Reply D (ℕ × ℕ) → Type 0
  Opened fs (none, fs', disk') = Keeps fs fs'
  Opened fs (some (node, offset), fs', disk') = Keeps fs fs' × IsFile fs'.nodes node × (offset ≡ 0)

  pub synced_instance :
      {A : Type 0} (r : A) (fs : Nodefs) (disk : D) → (synced dev r fs disk).1 ≡ fs
  unfolding synced
  synced_instance r fs disk = ground arith

  pub synced-CreatedAt :
      (fs fs' : Nodefs) (type idx : ℕ) (disk : D)
      → Created fs type fs' idx
      → CreatedAt fs type (synced dev idx fs' disk)
  unfolding synced
  synced-CreatedAt fs fs' type idx disk c = elim (Bool-cases (pfs_sync dev fs' disk).0) [
    | inl e ↦ rw e c
    | inr e ↦ rw e c.keeps
  ]

  pub synced-Opened :
      (fs fs' : Nodefs) (node : ℕ) (disk : D)
      → Keeps fs fs'
      → IsFile fs'.nodes node
      → Opened fs (synced dev (node, 0) fs' disk)
  unfolding synced
  synced-Opened fs fs' node disk k f = elim (Bool-cases (pfs_sync dev fs' disk).0) [
    | inl e ↦ rw e (k, f, refl)
    | inr e ↦ rw e k
  ]

  pub create_at_lem :
      (fs : Nodefs) (disk : D) (type : ℕ) (path : List ℕ)
      → IsTree fs.nodes
      → (type ≡ type_file) ⊎ (type ≡ type_dir)
      → CreatedAt fs type (create_at dev fs disk type path)
  unfolding create_at
  create_at_lem fs disk type path t kind =
      elim (Option-cases (resolve_parent_and_leaf fs.nodes path)) [
        | inl e ↦ rw (e, create_at) (Keeps-refl fs t)
        | inr ((parent, leaf), e) ↦ elim (Option-cases (find_child fs.nodes parent leaf)) [
          | inr (other, f) ↦ rw (e, create_at, f) (Keeps-refl fs t)
          | inl f ↦
              let l = resolve_parent_and_leaf-IsLeaf fs.nodes path parent leaf t.root e in
              rw (e, create_at, f)
                (made (create_node fs type parent leaf)
                  (create_node_lem fs type parent leaf t kind l f))
        ]
      ]
    where
      made :
          (r : Option ℕ × Nodefs)
          → CreatedReply fs type r
          → CreatedAt fs type (elim (r.0) as (λ o. Reply D ℕ) [
            | none ↦ (none, r.1, disk)
            | some idx ↦ synced dev idx r.1 disk
          ])
      made (none, fs') c = c
      made (some idx, fs') c = synced-CreatedAt fs fs' type idx disk c
