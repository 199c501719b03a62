-- ===== src/Fs/Node/Grow.antt =====
-- A node is added under a directory, in the node tables of src/kernel/fs/fs.c.
use aqua_core.Prelude.{
  ℕ, suc, ◌≤◌, ◌<◌, ◌≡◌, ◌≢◌, ◌⊎◌, ap, sym, subst, ◌∙◌, true, false, List, arith, pos, update,
}
use native.Mathlib.Decide.{ℕ_discrete}
use aqua_core.Fs.Path.Names.{IsName}
use aqua_core.Fs.Node.{Node, Nodes, max_nodes, file_max_size, type_file, type_dir}
use aqua_core.Fs.Node.Tree.{IsDir, IsFile, IsEntry, IsTree}
use aqua_core.Fs.Node.Lookup.{IsChild}

-- Tables that agree but at one index.
pub record AgreeBut (idx : ℕ) (nodes nodes' : Nodes) : Type 0 where
  pub same : (j : ℕ) → idx ≢ j → nodes' j ≡ nodes j

pub AgreeBut-update : (nodes : Nodes) (idx : ℕ) (n : Node) → AgreeBut idx nodes (update nodes idx n)
AgreeBut-update nodes idx n = record { same = λ j ne. ground arith }

module _ (nodes nodes' : Nodes) (idx : ℕ) (agree : AgreeBut idx nodes nodes') where
  pub IsDir-moved : (k : ℕ) → idx ≢ k → IsDir nodes k → IsDir nodes' k
  IsDir-moved k ne d = record {
    bounded = d.bounded;
    used = rw (agree.same k ne) d.used;
    dir = rw (agree.same k ne) d.dir;
  }

  pub IsFile-moved : (k : ℕ) → idx ≢ k → IsFile nodes k → IsFile nodes' k
  IsFile-moved k ne f = record {
    positive = f.positive;
    bounded = f.bounded;
    used = rw (agree.same k ne) f.used;
    file = rw (agree.same k ne) f.file;
  }

  pub IsEntry-moved :
      (depth depth' : ℕ → ℕ) (k : ℕ)
      → idx ≢ k
      → (e : IsEntry nodes depth k) → IsDir nodes' e.above
      → depth' k ≡ depth k
      → depth' e.above ≡ depth e.above
      → IsEntry nodes' depth' k
  IsEntry-moved depth depth' k ne e d at_k at_above = record {
    above = e.above;
    parent = rw (agree.same k ne) e.parent;
    dir = d;
    deeper = omega (arith, e.deeper);
    kind = rw (agree.same k ne) e.kind;
    name = rw (agree.same k ne) e.name;
    size = rw (agree.same k ne) e.size;
  }

-- A new node under a directory that has no child of its name.
pub record IsNew (nodes : Nodes) (parent : ℕ) (leaf : List ℕ) (n : Node) : Type 0 where
  pub used : n.used ≡ true
  pub below : n.parent ≡ pos parent
  pub named : n.name ≡ leaf
  pub kind : (n.type ≡ type_file) ⊎ (n.type ≡ type_dir)
  pub size : n.size ≤ file_max_size
  pub dir : IsDir nodes parent
  pub is_name : IsName leaf
  pub unique : (k : ℕ) → ¬ IsChild nodes parent leaf k

module _ (nodes : Nodes) (idx parent : ℕ) (leaf : List ℕ) (n : Node) (t : IsTree nodes)
    (pos_idx : 0 < idx) (lt : idx < max_nodes) (free : (nodes idx).used ≡ false)
    (new : IsNew nodes parent leaf n) where
  grown : Nodes
  grown = update nodes idx n

  depth : ℕ → ℕ
  depth = update t.depth idx (suc (t.depth parent))

  used_ne : (k : ℕ) → (nodes k).used ≡ true → idx ≢ k
  used_ne k u e = ground (arith, free, subst (λ j. (nodes j).used ≡ true) (sym e) u)

  IsDir-grown : (k : ℕ) → IsDir nodes k → IsDir grown k
  unfolding grown
  IsDir-grown k d = IsDir-moved nodes grown idx (AgreeBut-update nodes idx n) k (used_ne k d.used) d

  IsEntry-here : IsEntry grown depth idx
  unfolding grown depth
  IsEntry-here = record {
    above = parent;
    parent = ground (arith, new.below);
    dir = IsDir-grown parent new.dir;
    deeper = ground (arith, used_ne parent new.dir.used);
    kind = let e : grown idx ≡ n = ground arith in rw e new.kind;
    name = let e : grown idx ≡ n = ground arith in rw (e, new.named) new.is_name;
    size = let e : grown idx ≡ n = ground arith in rw e new.size;
  }

  IsEntry-other :
      (k : ℕ) → 0 < k → k < max_nodes → idx ≢ k → (grown k).used ≡ true → IsEntry grown depth k
  unfolding grown depth
  IsEntry-other k p b ne u =
      let agree = AgreeBut-update nodes idx n in
      let e = t.entry k p b (rw (agree.same k ne) at u) in
      IsEntry-moved nodes grown idx agree t.depth depth k ne e (IsDir-grown e.above e.dir)
        (ground arith) (ground (arith, used_ne e.above e.dir.used))

  -- No other node has the new node's parent and name.
  distinct_here :
      (j : ℕ)
      → j < max_nodes
      → idx ≢ j
      → (grown j).used ≡ true
      → (grown j).parent ≡ n.parent
      → (grown j).name ≡ n.name
      → ⊥
  unfolding grown
  distinct_here j b ne u p q =
      let agree = AgreeBut-update nodes idx n in
      new.unique j (record {
        bounded = b;
        used = rw (agree.same j ne) at u;
        below = (rw (agree.same j ne) at p) ∙ new.below;
        named = (rw (agree.same j ne) at q) ∙ new.named;
      })

  distinct_old :
      (i j : ℕ)
      → i < max_nodes
      → j < max_nodes
      → idx ≢ i
      → idx ≢ j
      → (grown i).used ≡ true
      → (grown j).used ≡ true
      → (grown i).parent ≡ (grown j).parent
      → (grown i).name ≡ (grown j).name
      → i ≡ j
  unfolding grown
  distinct_old i j bi bj ni nj ui uj p q =
      let agree = AgreeBut-update nodes idx n in
      let si = agree.same i ni in
      let sj = agree.same j nj in
      t.distinct i j bi bj (rw si at ui) (rw sj at uj) (rw (si, sj) at p) (rw (si, sj) at q)

  at_new : (i : ℕ) → idx ≡ i → grown i ≡ n
  unfolding grown
  at_new i e = ground arith

  distinct_grown :
      (i j : ℕ)
      → i < max_nodes
      → j < max_nodes
      → (grown i).used ≡ true
      → (grown j).used ≡ true
      → (grown i).parent ≡ (grown j).parent
      → (grown i).name ≡ (grown j).name
      → i ≡ j
  distinct_grown i j bi bj ui uj p q = elim (ℕ_discrete idx i) [
    | yes e ↦ elim (ℕ_discrete idx j) [
      | yes f ↦ sym e ∙ f
      | no f ↦
          let at = at_new i e in
          absurd (
            distinct_here j bj f uj (sym p ∙ ap (λ (m : Node). m.parent) at)
              (sym q ∙ ap (λ (m : Node). m.name) at))
    ]
    | no e ↦ elim (ℕ_discrete idx j) [
      | yes f ↦
          let at = at_new j f in
          absurd (
            distinct_here i bi e ui (p ∙ ap (λ (m : Node). m.parent) at)
              (q ∙ ap (λ (m : Node). m.name) at))
      | no f ↦ distinct_old i j bi bj e f ui uj p q
    ]
  ]

  pub IsTree-grown : IsTree (update nodes idx n)
  unfolding grown
  IsTree-grown = record {
    depth = depth;
    root = IsDir-grown 0 t.root;
    root_parent = ground (arith, t.root_parent);
    entry = λ k p b u. elim (ℕ_discrete idx k) [
      | yes e ↦ subst (IsEntry grown depth) e IsEntry-here
      | no ne ↦ IsEntry-other k p b ne u
    ];
    distinct = distinct_grown;
  }
