-- ===== src/Fs/Node/Resolve.antt =====
-- `nodefs_resolve_path` of src/kernel/fs/fs.c walks down the tree, one component at a time.
use aqua_core.Prelude.{
  ℕ, zero, suc, ◌<◌, ◌≡◌, ◌⊎◌, refl, true, Option, some, none, List, arith, length, Option-cases,
  inl, inr,
}
use aqua_core.Fs.Path.{Component, bad, stop, found, next_component}
use aqua_core.Fs.Path.Names.{next_component-Found}
use aqua_core.Fs.Node.{Nodes, find_child, resolve_from, resolve_path, is_absolute}

-- From node k, the path leads to a node, or nowhere: a component is too long, or names no child.
pub data Walk (nodes : Nodes) : ℕ → List ℕ → Option ℕ → Type 0 where
  arrived : (k : ℕ) (path : List ℕ) → next_component path ≡ stop → Walk nodes k path (some k)
  too_long : (k : ℕ) (path : List ℕ) → next_component path ≡ bad → Walk nodes k path none
  missing :
      (k : ℕ) (path name rest : List ℕ)
      → next_component path ≡ found name rest
      → find_child nodes k name ≡ none
      → Walk nodes k path none
  down :
      (k : ℕ) (path name rest : List ℕ) (child : ℕ) (result : Option ℕ)
      → next_component path ≡ found name rest
      → find_child nodes k name ≡ some child
      → Walk nodes child rest result
      → Walk nodes k path result

Component-cases :
    (c : Component) → (c ≡ bad) ⊎ ((c ≡ stop) ⊎ ((p : List ℕ × List ℕ) × (c ≡ found p.0 p.1)))
Component-cases bad = inl refl
Component-cases stop = inr (inl refl)
Component-cases (found name rest) = inr (inr ((name, rest), refl))

resolve_from-Walk :
    (nodes : Nodes) (fuel k : ℕ) (path : List ℕ)
    → length path < fuel
    → Walk nodes k path (resolve_from nodes fuel k path)
unfolding resolve_from
resolve_from-Walk nodes zero k path h = absurd (omega arith)
resolve_from-Walk nodes (suc fuel) k path h = elim (Component-cases (next_component path)) [
  | inl e ↦ rw (e, resolve_from) (too_long k path e)
  | inr (inl e) ↦ rw (e, resolve_from) (arrived k path e)
  | inr (inr ((name, rest), e)) ↦ elim (Option-cases (find_child nodes k name)) [
    | inl missed ↦ rw (e, resolve_from, missed) (missing k path name rest e missed)
    | inr (child, hit) ↦
        let cut = next_component-Found path name rest e in
        rw (e, resolve_from, hit)
          (down k path name rest child _ e hit
            (resolve_from-Walk nodes fuel child rest (omega (arith, cut.shorter))))
  ]
]

-- On an absolute path the rounds of `nodefs_resolve_path` are enough: its result is where the walk
-- from the root along the path's components ends, or -1 exactly when that walk ends nowhere.
pub resolve_path_lem :
    (nodes : Nodes) (path : List ℕ)
    → is_absolute path ≡ true
    → Walk nodes 0 path (resolve_path nodes path)
unfolding resolve_path
resolve_path_lem nodes path h =
    rw h (resolve_from-Walk nodes (suc (length path)) 0 path (omega arith))
