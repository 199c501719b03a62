-- ===== src/Fs/Valid/Calls.antt =====
-- The operations of src/kernel/fs/fs.c that reach the disk keep the state well-formed, and so does every
-- sequence of calls.
use aqua_core.Prelude.{
  ℕ, ◌≤◌, ◌<◌, ◌≡◌, refl, sym, subst, true, List, arith, ◌==◌, Bool-cases, inl, inr, ℤ, pos, Option,
  none, some, Option-cases, index_below, index_below-lt,
}
use aqua_core.Fs.Node.{file_max_size}
use aqua_core.Fs.Node.Tree.{IsFile}
use aqua_core.Fs.Block.{BlockDev}
use aqua_core.Fs.Nodefs.{
  procs_max, fd_max, Reply, has_flag, o_wronly, nodefs_open, nodefs_mkdir, nodefs_unlink,
  nodefs_rmdir,
}
use aqua_core.Fs.Nodefs.Keep.{Keeps, Opened}
use aqua_core.Fs.Nodefs.Safe.{
  Keeps→KeepsOpen, nodefs_open_lem, nodefs_mkdir_lem, nodefs_unlink_lem, nodefs_rmdir_lem,
}
use aqua_core.Fs.Data.{Buffer, nodefs_write}
use aqua_core.Fs.Vfs.{Fs, set_fd, vfs_resolve_mount, vfs_alloc_fd}
use aqua_core.Fs.Api.{
  mounted, put_back, mount_of, fs_open, fs_write, fs_mkdir, fs_unlink, fs_rmdir, write_fd,
}
use aqua_core.Fs.Valid.{IsValid}
use aqua_core.Fs.Valid.Change.{
  IsValid-fds, AllOpen-set_fd, IsMount, vfs_resolve_mount-IsMount, same_instance_refl,
}
use aqua_core.Fs.Valid.Write.{nodefs_write-Keeps}
use aqua_core.Fs.Valid.Ops.{IsValid-put_back, on_mount-IsValid, vfs_alloc_fd-IsValid}

module _ {D : Type 0} (dev : BlockDev D) where
  pub fs_mkdir-IsValid : (st : Fs D) (path : List ℕ) → IsValid st → IsValid (fs_mkdir dev st path).1
  unfolding fs_mkdir
  fs_mkdir-IsValid st path v = on_mount-IsValid st path (nodefs_mkdir dev) v (λ m subpath.
      Keeps→KeepsOpen _ _ _
        (nodefs_mkdir_lem dev (mounted st m) st.disk subpath (v.tree (st.mounts m).ctx)))

  pub fs_rmdir-IsValid : (st : Fs D) (path : List ℕ) → IsValid st → IsValid (fs_rmdir dev st path).1
  unfolding fs_rmdir
  fs_rmdir-IsValid st path v = on_mount-IsValid st path (nodefs_rmdir dev) v (λ m subpath.
      Keeps→KeepsOpen _ _ _
        (nodefs_rmdir_lem dev (mounted st m) st.disk subpath (v.tree (st.mounts m).ctx)))

  pub fs_unlink-IsValid :
      (st : Fs D) (path : List ℕ) → IsValid st → IsValid (fs_unlink dev st path).1
  unfolding fs_unlink
  fs_unlink-IsValid st path v =
      on_mount-IsValid st path (nodefs_unlink dev st.fd_table) v (λ m subpath.
        nodefs_unlink_lem dev st.fd_table (mounted st m) st.disk subpath (v.tree (st.mounts m).ctx))

  -- The reply of `nodefs_open` at mount m, put back and given a descriptor.
  Opened-IsValid :
      (st : Fs D) (pid : ℤ) (m flags : ℕ) (reply : Reply D (ℕ × ℕ))
      → IsValid st
      → IsMount st.mounts m
      → Opened dev (mounted st m) reply
      → IsValid
          (elim ((put_back st m reply).0) as (λ o. Option ℕ × Fs D) [
            | none ↦ (none, (put_back st m reply).1)
            | some (node, offset) ↦
                vfs_alloc_fd (put_back st m reply).1 pid (pos m) (pos node) offset flags
          ]).1
  Opened-IsValid st pid m flags (none, fs, disk) v u o =
      let reply : Reply D (ℕ × ℕ) = (none, fs, disk) in
      IsValid-put_back st m reply v u (Keeps→KeepsOpen _ _ _ o)
  Opened-IsValid st pid m flags (some (node, offset), fs, disk) v u (k, file, start) =
      let reply : Reply D (ℕ × ℕ) = (some (node, offset), fs, disk) in
      let st' = (put_back st m reply).1 in
      vfs_alloc_fd-IsValid st' pid (pos m) (pos node) offset flags
        (IsValid-put_back st m reply v u (Keeps→KeepsOpen _ _ _ k))
        (record {
          mount = m;
          at_mount = refl;
          mount_bounded = u.bounded;
          mount_used = u.used;
          node = node;
          at_node = refl;
          file = rw (same_instance_refl (st.mounts m).ctx) file;
          offset = omega (arith, start);
        })

  pub fs_open-IsValid :
      (st : Fs D) (pid : ℤ) (path : List ℕ) (flags : ℕ)
      → IsValid st
      → IsValid (fs_open dev st pid path flags).1
  unfolding fs_open
  fs_open-IsValid st pid path flags v = elim (Option-cases (index_below procs_max pid)) [
    | inl e ↦ rw (e, fs_open) v
    | inr (p, e) ↦ elim (Option-cases (vfs_resolve_mount st.mounts path)) [
      | inl f ↦ rw (e, fs_open, f) v
      | inr ((m, subpath), f) ↦
          rw (e, fs_open, f)
            (Opened-IsValid st pid m flags (nodefs_open dev (mounted st m) st.disk subpath flags) v
              (vfs_resolve_mount-IsMount st.mounts path m subpath f)
              (nodefs_open_lem dev (mounted st m) st.disk subpath flags (v.tree (st.mounts m).ctx)))
    ]
  ]

  -- The reply of `nodefs_write` at mount m, put back with the new offset.
  write_back :
      (st : Fs D) (p d m : ℕ) (written : Reply D ℕ × ℕ)
      → p < procs_max
      → d < fd_max
      → (st.fd_table p d).used ≡ true
      → IsValid st
      → IsMount st.mounts m
      → Keeps (mounted st m) written.0.1
      → written.1 ≤ file_max_size
      → IsValid (record (put_back st m written.0).1 {
        fd_table = set_fd st.fd_table p d (record (st.fd_table p d) { offset = written.1 });
      })
  write_back st p d m written hp hd u v um k le =
      let st' = (put_back st m written.0).1 in
      let v' = IsValid-put_back st m written.0 v um (Keeps→KeepsOpen _ _ _ k) in
      let o = v'.fd p d hp hd u in
      IsValid-fds st' v' _ (
        AllOpen-set_fd st' v' p d _ (λ used. record {
          mount = o.mount;
          at_mount = o.at_mount;
          mount_bounded = o.mount_bounded;
          mount_used = o.mount_used;
          node = o.node;
          at_node = o.at_node;
          file = o.file;
          offset = le;
        }))

  write_fd-IsValid :
      (st : Fs D) (p d : ℕ) (buf : Buffer) (size : ℕ)
      → p < procs_max
      → d < fd_max
      → (st.fd_table p d).used ≡ true
      → IsValid st
      → IsValid (write_fd dev st p d buf size).1
  unfolding write_fd
  write_fd-IsValid st p d buf size hp hd u v =
      let f = st.fd_table p d in
      let o = v.fd p d hp hd u in
      elim (Bool-cases (has_flag f.flags o_wronly)) [
        | inr e ↦ rw e v
        | inl e ↦ elim (Option-cases (mount_of st f)) [
          | inl g ↦ rw (e, g) v
          | inr (m, g) ↦
              let same : m ≡ o.mount = ground (arith, o.at_mount) in
              let file : IsFile (mounted st m).nodes o.node =
                subst (λ n. IsFile (mounted st n).nodes o.node) (sym same) o.file in
              let use_mount : IsMount st.mounts m =
                subst (IsMount st.mounts) (sym same)
                  (record { bounded = o.mount_bounded; used = o.mount_used }) in
              let kept =
                subst
                  (λ n.
                    Keeps (mounted st m)
                      (nodefs_write dev (mounted st m) st.disk n f.offset buf size).0.1
                    × ((nodefs_write dev (mounted st m) st.disk n f.offset buf size).1
                        ≤ file_max_size))
                  (sym o.at_node)
                  (nodefs_write-Keeps dev (mounted st m) st.disk o.node f.offset buf size
                    (v.tree (st.mounts m).ctx) file o.offset) in
              rw (e, g)
                (write_back st p d m
                  (nodefs_write dev (mounted st m) st.disk f.node_index f.offset buf size) hp hd u v
                  use_mount kept.0 kept.1)
        ]
      ]

  pub fs_write-IsValid :
      (st : Fs D) (pid fd : ℤ) (buf : Buffer) (size : ℕ)
      → IsValid st
      → IsValid (fs_write dev st pid fd buf size).1
  unfolding fs_write
  fs_write-IsValid st pid fd buf size v = elim (Option-cases (index_below procs_max pid)) [
    | inl e ↦ rw (e, fs_write) v
    | inr (p, e) ↦ elim (Option-cases (index_below fd_max fd)) [
      | inl f ↦ rw (e, fs_write, f) v
      | inr (d, f) ↦ elim (Bool-cases (st.fd_table p d).used) [
        | inl u ↦
            rw (e, fs_write, f, u)
              (write_fd-IsValid st p d buf size (index_below-lt procs_max pid e)
                (index_below-lt fd_max fd f) u v)
        | inr u ↦ elim (Bool-cases (d == 1)) [
          | inl z ↦
              rw (e, fs_write, f, u, z) (record { tree = v.tree; at_mount = v.at_mount; fd = v.fd })
          | inr z ↦ rw (e, fs_write, f, u, z) v
        ]
      ]
    ]
  ]
