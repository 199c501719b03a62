-- ===== src/Fs/Init/Boot.antt =====
-- The state that `fs_init` of src/kernel/fs/fs.c leaves is well-formed.
use aqua_core.Prelude.{
  ℕ, ◌<◌, ◌≡◌, ◌≢◌, refl, ap, sym, subst, ◌∙◌, true, false, not, Option, some, Option-cases, inl,
  inr, List, arith, minus_one, update, find_from, length,
}
use aqua_core.Fs.Node.{
  Nodes, Nodefs, nodefs_format, root_node, zero_node, resolve_path, is_absolute,
}
use aqua_core.Fs.Node.Tree.{IsTree}
use aqua_core.Fs.Block.{BlockDev, nodefs_init_instance}
use aqua_core.Fs.Nodefs.{nodefs_mkdir}
use aqua_core.Fs.Nodefs.Keep.{Keeps}
use aqua_core.Fs.Nodefs.Safe.{nodefs_mkdir_lem, Keeps→KeepsOpen}
use aqua_core.Fs.Vfs.{
  Fs, Mount, Console, Instance, rootfs, tmpfs, procfs, mount_max, path_max, set_instance, vfs_mount,
}
use aqua_core.Fs.Valid.{IsValid}
use aqua_core.Fs.Valid.Change.{IsValid-replaced}
use aqua_core.Fs.Valid.Mounting.{with_mount, new_mount, vfs_mount_first, with_mount-IsValid}
use aqua_core.Fs.Valid.Reach.{Reach, Reach-IsValid}
use aqua_core.Fs.Init.{
  zero_mount, root_path, tmp_path, proc_path, unmounted, ensure_mountpoint, mount_all,
  init_volatile, fs_init,
}

abbrev formatted : Nodes
formatted = update (λ i. zero_node) 0 root_node

only_root : (k : ℕ) → (formatted k).used ≡ true → k ≡ 0
only_root k u = ground arith

-- A formatted table holds the root directory and nothing else.
pub nodefs_format-IsTree : (fs : Nodefs) → IsTree (nodefs_format fs).nodes
unfolding nodefs_format
nodefs_format-IsTree fs = record {
  depth = λ k. 0;
  root = record { bounded = omega arith; used = refl; dir = refl };
  root_parent = refl;
  entry = λ k lo hi u. absurd (omega (arith, only_root k u));
  distinct = λ i j hi hj ui uj ep en. only_root i ui ∙ sym (only_root j uj);
}

module _ {D : Type 0} (dev : BlockDev D) where
  nodefs_init_instance-volatile :
      (work_img : ℕ → ℕ) (disk : D)
      → nodefs_init_instance dev false work_img disk ≡ (
        some (
            nodefs_format
              (record { mount_idx = minus_one; persistent = false; nodes = λ i. zero_node })),
        disk,
      )
  unfolding nodefs_init_instance
  nodefs_init_instance-volatile work_img disk = refl

  ensure_mountpoint-mounts :
      (st : Fs D) (path : List ℕ) → (ensure_mountpoint dev st path).mounts ≡ st.mounts
  unfolding ensure_mountpoint
  ensure_mountpoint-mounts st path =
      elim (Option-cases (resolve_path (st.instances rootfs).nodes path)) [
        | inl e ↦ rw (e, ensure_mountpoint) refl
        | inr (k, e) ↦ rw (e, ensure_mountpoint) refl
      ]

  ensure_mountpoint-IsValid :
      (st : Fs D) (path : List ℕ)
      → IsValid st
      → (st.mounts 0).used ≡ true
      → (st.mounts 0).ctx ≡ rootfs
      → IsValid (ensure_mountpoint dev st path)
  unfolding ensure_mountpoint
  ensure_mountpoint-IsValid st path v u c =
      elim (Option-cases (resolve_path (st.instances rootfs).nodes path)) [
        | inr (k, e) ↦ rw (e, ensure_mountpoint) v
        | inl e ↦
            let made = nodefs_mkdir dev (st.instances rootfs) st.disk path in
            let kept = nodefs_mkdir_lem dev (st.instances rootfs) st.disk path (v.tree rootfs) in
            rw (e, ensure_mountpoint)
              (subst
                (λ c.
                  IsValid
                    (record st { instances = set_instance st.instances c made.1; disk = made.2 }))
                c
                (IsValid-replaced st v 0 (omega arith) u made.1
                  (Keeps→KeepsOpen _ _ _ (subst (λ i. Keeps (st.instances i) made.1) (sym c) kept))
                  made.2))
      ]

  unmounted-IsValid :
      (r t p : Nodefs) (console : Console) (disk : D)
      → IsTree r.nodes
      → IsTree t.nodes
      → IsTree p.nodes
      → IsValid (unmounted dev r t p console disk)
  unmounted-IsValid r t p console disk hr ht hp = record {
    tree = λ c. elim c as (λ i. IsTree ((unmounted dev r t p console disk).instances i).nodes) [
      | rootfs ↦ hr
      | tmpfs ↦ ht
      | procfs ↦ hp
    ];
    at_mount = λ m lt u. cc;
    fd = λ p d hp hd u. cc;
  }

-- The mount table after each of the three mounts.
abbrev mounts_1 : ℕ → Mount
mounts_1 =
    update (λ m. zero_mount) 0
      (record { used = true; path = root_path; path_len = length root_path; ctx = rootfs })

abbrev mounts_2 : ℕ → Mount
mounts_2 =
    update mounts_1 1
      (record { used = true; path = tmp_path; path_len = length tmp_path; ctx = tmpfs })

fresh_0 : (c : Instance) (m : ℕ) → m < mount_max → zero_mount.used ≡ true → c ≢ zero_mount.ctx
fresh_0 c m lt u = cc

fresh_1 : (m : ℕ) → m < mount_max → (mounts_1 m).used ≡ true → tmpfs ≢ (mounts_1 m).ctx
fresh_1 m lt u e = ground arith

fresh_2 : (m : ℕ) → m < mount_max → (mounts_2 m).used ≡ true → procfs ≢ (mounts_2 m).ctx
fresh_2 m lt u e = ground arith

module _ {D : Type 0} (dev : BlockDev D) where
  -- One more mount in a state with a known mount table.
  mount_next :
      (st : Fs D) (path : List ℕ) (ctx : Instance) (i : ℕ) (mounts : ℕ → Mount)
      → st.mounts ≡ mounts
      → IsValid st
      → length path < path_max
      → is_absolute path ≡ true
      → find_from (λ k. not (mounts k).used) mount_max 0 ≡ some i
      → (mounts i).used ≡ false
      → ((m : ℕ) → m < mount_max → (mounts m).used ≡ true → ctx ≢ (mounts m).ctx)
      → (vfs_mount st path ctx ≡ some (with_mount st path ctx i))
        × IsValid (with_mount st path ctx i)
  mount_next st path ctx i mounts e v short absolute first unused fresh =
      let first' =
        subst (λ t. find_from (λ k. not (t k).used) mount_max 0 ≡ some i) (sym e) first in
      let unused' = subst (λ t. (t i).used ≡ false) (sym e) unused in
      let fresh' =
        subst (λ t. (m : ℕ) → m < mount_max → (t m).used ≡ true → ctx ≢ (t m).ctx) (sym e) fresh in
      (
        vfs_mount_first st path ctx i short absolute first',
        with_mount-IsValid st path ctx i v unused' fresh',
      )

-- A result that is there, and well-formed.
pub record Succeeds {D : Type 0} (result : Option (Fs D)) : Type 0 where
  pub state : Fs D
  pub returns : result ≡ some state
  pub valid : IsValid state

module _ {D : Type 0} (dev : BlockDev D) where
  mount_all_lem :
      (st : Fs D) → st.mounts ≡ (λ m. zero_mount) → IsValid st → Succeeds (mount_all dev st)
  unfolding mount_all find_from
  mount_all_lem st e v =
      let (r1, v1) =
        mount_next dev st root_path rootfs 0 (λ m. zero_mount) e v (omega arith) refl refl refl
          (fresh_0 rootfs) in
      let st1 = with_mount st root_path rootfs 0 in
      let e1 : st1.mounts ≡ mounts_1 = ap (λ t. update t 0 (new_mount st root_path rootfs 0)) e in
      let st1' = ensure_mountpoint dev st1 tmp_path in
      let (r2, v2) =
        mount_next dev st1' tmp_path tmpfs 1 mounts_1
          (ensure_mountpoint-mounts dev st1 tmp_path ∙ e1)
          (ensure_mountpoint-IsValid dev st1 tmp_path v1 refl refl) (omega arith) refl refl refl
          fresh_1 in
      let st2 = with_mount st1' tmp_path tmpfs 1 in
      let e2 : st2.mounts ≡ mounts_2 =
        ap (λ t. update t 1 (new_mount st1' tmp_path tmpfs 1))
          (ensure_mountpoint-mounts dev st1 tmp_path ∙ e1) in
      let at_root : st2.mounts 0 ≡ mounts_2 0 = ap (λ t. t 0) e2 in
      let st2' = ensure_mountpoint dev st2 proc_path in
      let (r3, v3) =
        mount_next dev st2' proc_path procfs 2 mounts_2
          (ensure_mountpoint-mounts dev st2 proc_path ∙ e2)
          (ensure_mountpoint-IsValid dev st2 proc_path v2 (ap (λ m. m.used) at_root)
            (ap (λ m. m.ctx) at_root))
          (omega arith) refl refl refl fresh_2 in
      record {
        state = with_mount st2' proc_path procfs 2;
        returns = rw (r1, mount_all, r2, r3) refl;
        valid = v3;
      }

  -- When the root file system loads, and its node table is a directory tree, `fs_init` does not
  -- panic, and the state that it leaves is well-formed.
  pub fs_init_lem :
      (work_img : ℕ → ℕ) (console : Console) (disk disk' : D) (root : Nodefs)
      → nodefs_init_instance dev true work_img (dev.blockdev_init disk) ≡ (some root, disk')
      → IsTree root.nodes
      → Succeeds (fs_init dev work_img console disk)
  unfolding fs_init init_volatile nodefs_init_instance
  fs_init_lem work_img console disk disk' root e t =
      let empty =
        nodefs_format
          (record { mount_idx = minus_one; persistent = false; nodes = λ i. zero_node }) in
      let empty_tree =
        nodefs_format-IsTree
          (record { mount_idx = minus_one; persistent = false; nodes = λ i. zero_node }) in
      subst (λ r. Succeeds (init_volatile dev work_img console r)) (sym e)
        (mount_all_lem (unmounted dev root empty empty console disk') refl
          (unmounted-IsValid dev root empty empty console disk' t empty_tree empty_tree))

  -- From boot on, with a root file system that loads to a directory tree: no interleaving of calls
  -- leaves the well-formed states.
  pub fs_init-Reach :
      (work_img : ℕ → ℕ) (console : Console) (disk disk' : D) (root : Nodefs) (start st : Fs D)
      → nodefs_init_instance dev true work_img (dev.blockdev_init disk) ≡ (some root, disk')
      → IsTree root.nodes
      → fs_init dev work_img console disk ≡ some start
      → Reach dev start st
      → IsValid st
  fs_init-Reach work_img console disk disk' root start st e t booted r =
      let s = fs_init_lem work_img console disk disk' root e t in
      let same : s.state ≡ start = cc (s.returns, booted) in
      Reach-IsValid dev start st (subst IsValid same s.valid) r
