-- ===== src/Fs/Valid/Mounting.antt =====
-- `vfs_mount` of src/kernel/fs/fs.c keeps the state well-formed.
use aqua_core.Prelude.{
  ℕ, ◌<◌, ◌≡◌, ◌≢◌, refl, ap, sym, subst, ◌∙◌, true, false, not, some, inl, inr, List, arith, pos,
  update, length, find_from, Bool-cases,
}
use native.Mathlib.Decide.{ℕ_discrete}
use aqua_core.Fs.Node.{is_absolute}
use aqua_core.Fs.Node.Tree.{IsTree, IsFile}
use aqua_core.Fs.Nodefs.{procs_max, fd_max}
use aqua_core.Fs.Vfs.{
  Fs, Mount, Instance, same_instance, mount_max, path_max, set_instance, vfs_mount,
}
use aqua_core.Fs.Valid.{IsOpenFd, IsValid}
use aqua_core.Fs.Valid.Change.{same_instance→eq, same_instance_refl}

module _ {D : Type 0} (st : Fs D) (path : List ℕ) (ctx : Instance) (i : ℕ) where
  abbrev pub new_mount : Mount
  new_mount = record { used = true; path = path; path_len = length path; ctx = ctx }

  -- The state with the mount in slot i.
  abbrev pub with_mount : Fs D
  with_mount = record st {
    mounts = update st.mounts i new_mount;
    instances = set_instance st.instances ctx (record (st.instances ctx) { mount_idx = pos i });
  }

  pub vfs_mount_first :
      length path < path_max
      → is_absolute path ≡ true
      → find_from (λ k. not (st.mounts k).used) mount_max 0 ≡ some i
      → vfs_mount st path ctx ≡ some with_mount
  unfolding vfs_mount
  vfs_mount_first short absolute e = ground arith

  nodes_kept : (c : Instance) → (with_mount.instances c).nodes ≡ (st.instances c).nodes
  nodes_kept c = elim (Bool-cases (same_instance ctx c)) [
    | inl e ↦ rw e (ap (λ c. (st.instances c).nodes) (same_instance→eq ctx c e))
    | inr e ↦ rw e refl
  ]

  mount_idx_kept :
      (c : Instance) → ctx ≢ c → (with_mount.instances c).mount_idx ≡ (st.instances c).mount_idx
  mount_idx_kept c ne = elim (Bool-cases (same_instance ctx c)) [
    | inl e ↦ absurd (ne (same_instance→eq ctx c e))
    | inr e ↦ rw e refl
  ]

  mount_idx_new : (with_mount.instances ctx).mount_idx ≡ pos i
  mount_idx_new = rw (same_instance_refl ctx) refl

  mounts_kept : (m : ℕ) → m ≢ i → with_mount.mounts m ≡ st.mounts m
  mounts_kept m ne = ground arith

  mounts_new : with_mount.mounts i ≡ new_mount
  mounts_new = ground arith

  -- Mounting an instance that is not mounted keeps every open descriptor on its file.
  module _ (v : IsValid st) (unused : (st.mounts i).used ≡ false)
      (fresh : (m : ℕ) → m < mount_max → (st.mounts m).used ≡ true → ctx ≢ (st.mounts m).ctx) where
    at_mount_new :
        (m : ℕ)
        → m < mount_max
        → (with_mount.mounts m).used ≡ true
        → (with_mount.instances (with_mount.mounts m).ctx).mount_idx ≡ pos m
    at_mount_new m lt u = elim (ℕ_discrete m i) [
      | yes e ↦
          subst (λ k. (with_mount.instances (with_mount.mounts k).ctx).mount_idx ≡ pos k) (sym e)
            (subst (λ n. (with_mount.instances n.ctx).mount_idx ≡ pos i) (sym mounts_new)
              mount_idx_new)
      | no ne ↦
          let old = mounts_kept m ne in
          let u' : (st.mounts m).used ≡ true = subst (λ n. n.used ≡ true) old u in
          subst (λ n. (with_mount.instances n.ctx).mount_idx ≡ pos m) (sym old)
            (mount_idx_kept (st.mounts m).ctx (fresh m lt u') ∙ v.at_mount m lt u')
    ]

    fd_new :
        (p d : ℕ)
        → p < procs_max
        → d < fd_max
        → (st.fd_table p d).used ≡ true
        → IsOpenFd with_mount.mounts with_mount.instances (st.fd_table p d)
    fd_new p d hp hd u =
        let o = v.fd p d hp hd u in
        let other : o.mount ≢ i =
          λ e. cc (o.mount_used, subst (λ k. (st.mounts k).used ≡ false) (sym e) unused) in
        let old = sym (mounts_kept o.mount other) in
        record {
          mount = o.mount;
          at_mount = o.at_mount;
          mount_bounded = o.mount_bounded;
          mount_used = subst (λ n. n.used ≡ true) old o.mount_used;
          node = o.node;
          at_node = o.at_node;
          file =
              subst (λ n. IsFile (with_mount.instances n.ctx).nodes o.node) old
                (subst (λ nodes. IsFile nodes o.node) (sym (nodes_kept (st.mounts o.mount).ctx))
                  o.file);
          offset = o.offset;
        }

    pub with_mount-IsValid : IsValid with_mount
    with_mount-IsValid = record {
      tree = λ c. subst IsTree (sym (nodes_kept c)) (v.tree c);
      at_mount = at_mount_new;
      fd = fd_new;
    }
