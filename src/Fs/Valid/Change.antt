-- ===== src/Fs/Valid/Change.antt =====
-- The two ways in which an operation of src/kernel/fs/fs.c changes a well-formed state: it replaces the
-- instance of a mount, or a descriptor.
use aqua_core.Prelude.{
  ℕ, zero, suc, ◌+◌, ◌≤◌, ◌<◌, ◌≡◌, refl, ap, sym, subst, ◌∙◌, true, false, ◌&&◌, List, arith, ◌==◌,
  if◌then◌else◌, Bool-cases, inl, inr, pos, Option, none, some, any_from, any_from_hit, eq_int_iff,
}
use aqua_core.Fs.Node.{Nodefs}
use aqua_core.Fs.Node.Tree.{IsFile, IsTree}
use aqua_core.Fs.Nodefs.{Fd, FdTable, procs_max, fd_max, is_node_open, is_open_at}
use aqua_core.Fs.Nodefs.Safe.{KeepsOpen}
use aqua_core.Fs.Vfs.{
  Fs, Mount, Instance, rootfs, tmpfs, procfs, same_instance, mount_max, set_instance, set_fd,
  vfs_match_mount, is_longer, best_mount, vfs_resolve_mount, subpath_of,
}
use aqua_core.Fs.Node.{is_absolute}
use aqua_core.Fs.Api.{mounted}
use aqua_core.Fs.Valid.{IsOpenFd, IsValid}

pub same_instance→eq : (a b : Instance) → same_instance a b ≡ true → a ≡ b
same_instance→eq rootfs rootfs h = refl
same_instance→eq rootfs tmpfs h = cc
same_instance→eq rootfs procfs h = cc
same_instance→eq tmpfs rootfs h = cc
same_instance→eq tmpfs tmpfs h = refl
same_instance→eq tmpfs procfs h = cc
same_instance→eq procfs rootfs h = cc
same_instance→eq procfs tmpfs h = cc
same_instance→eq procfs procfs h = refl

pub same_instance_refl : (a : Instance) → same_instance a a ≡ true
same_instance_refl rootfs = refl
same_instance_refl tmpfs = refl
same_instance_refl procfs = refl

module _ {D : Type 0} (st : Fs D) where
  -- Some process has node k of mount m open.
  pub record HasOpen (m k : ℕ) : Type 0 where
    pub pid : ℕ
    pub fd : ℕ
    pub pid_bounded : pid < procs_max
    pub fd_bounded : fd < fd_max
    pub used : (st.fd_table pid fd).used ≡ true
    pub at_mount : (st.fd_table pid fd).mount_idx ≡ pos m
    pub at_node : (st.fd_table pid fd).node_index ≡ pos k

  pub HasOpen-is_node_open :
      (fs : Nodefs) (m k : ℕ)
      → fs.mount_idx ≡ pos m
      → HasOpen m k
      → is_node_open st.fd_table fs k ≡ true
  unfolding is_node_open
  HasOpen-is_node_open fs m k e o =
      let hit : is_open_at st.fd_table (pos m) k o.pid o.fd ≡ true =
        rw (o.used, (eq_int_iff _ (pos m)).1 o.at_mount, (eq_int_iff _ (pos k)).1 o.at_node) refl in
      rw (e, is_node_open)
        (any_from_hit (λ pid. any_from (is_open_at st.fd_table (pos m) k pid) fd_max 0) procs_max 0
          o.pid (omega arith) (omega (arith, o.pid_bounded))
          (any_from_hit (is_open_at st.fd_table (pos m) k o.pid) fd_max 0 o.fd (omega arith)
            (omega (arith, o.fd_bounded)) hit))

-- Replacing the instance of mount m by one that is a tree, at the same mount, with the files that
-- are open at this mount.
module _ {D : Type 0} (st : Fs D) (v : IsValid st) (m : ℕ) (m_lt : m < mount_max)
    (m_used : (st.mounts m).used ≡ true) (fs : Nodefs)
    (k : KeepsOpen st.fd_table (mounted st m) fs) where
  replaced : Instance → Nodefs
  replaced = set_instance st.instances (st.mounts m).ctx fs

  replaced_at : (c : Instance) → same_instance (st.mounts m).ctx c ≡ true → replaced c ≡ fs
  unfolding replaced
  replaced_at c e = rw e refl

  replaced_other :
      (c : Instance) → same_instance (st.mounts m).ctx c ≡ false → replaced c ≡ st.instances c
  unfolding replaced
  replaced_other c e = rw e refl

  IsTree-replaced : (c : Instance) → IsTree (replaced c).nodes
  IsTree-replaced c = elim (Bool-cases (same_instance (st.mounts m).ctx c)) [
    | inl e ↦ rw (replaced_at c e) k.tree
    | inr e ↦ rw (replaced_other c e) (v.tree c)
  ]

  at_mount_replaced :
      (n : ℕ)
      → n < mount_max
      → (st.mounts n).used ≡ true
      → (replaced (st.mounts n).ctx).mount_idx ≡ pos n
  at_mount_replaced n lt u = elim (Bool-cases (same_instance (st.mounts m).ctx (st.mounts n).ctx)) [
    | inl e ↦
        let same = ap (λ c. (st.instances c).mount_idx) (same_instance→eq _ _ e) in
        rw (replaced_at (st.mounts n).ctx e) (k.mount ∙ same ∙ v.at_mount n lt u)
    | inr e ↦ rw (replaced_other (st.mounts n).ctx e) (v.at_mount n lt u)
  ]

  -- Mounts of one instance are one mount.
  one_mount :
      (n : ℕ)
      → n < mount_max
      → (st.mounts n).used ≡ true
      → (st.mounts m).ctx ≡ (st.mounts n).ctx
      → n ≡ m
  one_mount n lt u e =
      ground
        (arith, v.at_mount n lt u, v.at_mount m m_lt m_used, ap (λ c. (st.instances c).mount_idx) e)

  open_replaced :
      (p d : ℕ)
      → p < procs_max
      → d < fd_max
      → (st.fd_table p d).used ≡ true
      → IsOpenFd st.mounts replaced (st.fd_table p d)
  open_replaced p d hp hd u =
      let o = v.fd p d hp hd u in
      record {
        mount = o.mount;
        at_mount = o.at_mount;
        mount_bounded = o.mount_bounded;
        mount_used = o.mount_used;
        node = o.node;
        at_node = o.at_node;
        file = elim (Bool-cases (same_instance (st.mounts m).ctx (st.mounts o.mount).ctx)) [
          | inr e ↦ rw (replaced_other (st.mounts o.mount).ctx e) o.file
          | inl e ↦
              let ctx = same_instance→eq (st.mounts m).ctx (st.mounts o.mount).ctx e in
              let at = one_mount o.mount o.mount_bounded o.mount_used ctx in
              let has : HasOpen st m o.node = record {
                pid = p;
                fd = d;
                pid_bounded = hp;
                fd_bounded = hd;
                used = u;
                at_mount = o.at_mount ∙ ap pos at;
                at_node = o.at_node;
              } in
              let file : IsFile (mounted st m).nodes o.node =
                subst (λ c. IsFile (st.instances c).nodes o.node) (sym ctx) o.file in
              rw (replaced_at (st.mounts o.mount).ctx e) (
                k.files o.node file
                  (HasOpen-is_node_open st (mounted st m) m o.node (v.at_mount m m_lt m_used) has))
        ];
        offset = o.offset;
      }

  pub IsValid-replaced :
      (disk : D)
      → IsValid
          (record st { instances = set_instance st.instances (st.mounts m).ctx fs; disk = disk })
  unfolding replaced
  IsValid-replaced disk = record {
    tree = IsTree-replaced;
    at_mount = at_mount_replaced;
    fd = open_replaced;
  }

-- A table of descriptors in which every used one is open at the state's mounts.
abbrev pub AllOpen : {D : Type 0} → Fs D → FdTable → Type 0
AllOpen st fds =
    (p d : ℕ)
    → p < procs_max
    → d < fd_max
    → (fds p d).used ≡ true
    → IsOpenFd st.mounts st.instances (fds p d)

module _ {D : Type 0} (st : Fs D) (v : IsValid st) where
  pub IsValid-fds : (fds : FdTable) → AllOpen st fds → IsValid (record st { fd_table = fds })
  IsValid-fds fds h = record { tree = v.tree; at_mount = v.at_mount; fd = h }

  pub AllOpen-set_fd :
      (p d : ℕ) (f : Fd)
      → (f.used ≡ true → IsOpenFd st.mounts st.instances f)
      → AllOpen st (set_fd st.fd_table p d f)
  AllOpen-set_fd p d f h p' d' hp hd u = elim (Bool-cases (p' == p && d' == d)) [
    | inl e ↦ rw e (h (rw e at u))
    | inr e ↦ rw e (v.fd p' d' hp hd (rw e at u))
  ]

-- The mount that is chosen for a path is in use.
pub record IsMount (mounts : ℕ → Mount) (m : ℕ) : Type 0 where
  pub bounded : m < mount_max
  pub used : (mounts m).used ≡ true

abbrev MaybeMount : (ℕ → Mount) → Option ℕ → Type 0
MaybeMount mounts none = Unit
MaybeMount mounts (some m) = IsMount mounts m

best_mount-MaybeMount :
    (mounts : ℕ → Mount) (path : List ℕ) (n i : ℕ) (best : Option ℕ)
    → i + n ≤ mount_max
    → MaybeMount mounts best
    → MaybeMount mounts (best_mount mounts path n i best)
unfolding best_mount
best_mount-MaybeMount mounts path zero i best le h = h
best_mount-MaybeMount mounts path (suc n) i best le h =
    best_mount-MaybeMount mounts path n (i + 1) _ (omega arith)
      (elim (Bool-cases
        ((mounts i).used && vfs_match_mount (mounts i) path && is_longer mounts best i)) [
          | inl e ↦ rw e (record { bounded = omega arith; used = ground arith })
          | inr e ↦ rw e h
        ])

abbrev chosen : (ℕ → Mount) → List ℕ → ℕ → Option (ℕ × List ℕ)
chosen mounts path best =
    let subpath = subpath_of (mounts best).path_len path in
    if is_absolute subpath then some (best, subpath) else none

chosen-eq-some :
    (mounts : ℕ → Mount) (path : List ℕ) (best m : ℕ) (subpath : List ℕ)
    → chosen mounts path best ≡ some (m, subpath)
    → best ≡ m
chosen-eq-some mounts path best m subpath h = ground arith

pub vfs_resolve_mount-IsMount :
    (mounts : ℕ → Mount) (path : List ℕ) (m : ℕ) (subpath : List ℕ)
    → vfs_resolve_mount mounts path ≡ some (m, subpath)
    → IsMount mounts m
unfolding vfs_resolve_mount
vfs_resolve_mount-IsMount mounts path m subpath h = elim (Bool-cases (is_absolute path)) [
  | inr e ↦ cc (rw (e, vfs_resolve_mount) at h)
  | inl e ↦
      go (best_mount mounts path mount_max 0 none)
        (best_mount-MaybeMount mounts path mount_max 0 none (omega arith) tt)
        (rw (e, vfs_resolve_mount) at h)
]
  where
    go :
        (o : Option ℕ)
        → MaybeMount mounts o
        → elim o as (λ o. Option (ℕ × List ℕ)) [ none ↦ none | some best ↦ chosen mounts path best ]
          ≡ some (m, subpath)
        → IsMount mounts m
    go none b h' = cc
    go (some best) b h' = subst (IsMount mounts) (chosen-eq-some mounts path best m subpath h') b
