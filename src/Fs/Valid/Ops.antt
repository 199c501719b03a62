-- ===== src/Fs/Valid/Ops.antt =====
-- Every operation that src/kernel/fs/fs.c exports keeps its state well-formed.
use aqua_core.Prelude.{
  ℕ, ◌<◌, ◌≡◌, sym, subst, true, not, ◌&&◌, List, arith, ◌==◌, Bool-cases, inl, inr, ℤ,
  Option-cases, ltb, index_below, index_below-lt, find_from,
}
use aqua_core.Fs.Node.{Nodefs}
use aqua_core.Fs.Node.Tree.{IsFile}
use aqua_core.Fs.Nodefs.{procs_max, fd_max, Reply, has_flag, o_rdonly}
use aqua_core.Fs.Nodefs.Safe.{KeepsOpen}
use aqua_core.Fs.Data.{Buffer}
use aqua_core.Fs.Vfs.{Fs, vfs_resolve_mount, vfs_alloc_fd}
use aqua_core.Fs.Api.{
  closed_fd, mounted, put_back, mount_of, fs_close, fs_read, fs_fork_copy_fds,
  fs_on_process_recycle, read_fd, on_mount,
}
use aqua_core.Fs.Valid.{IsOpenFd, IsValid}
use aqua_core.Fs.Valid.Change.{
  IsValid-replaced, IsValid-fds, AllOpen-set_fd, IsMount, vfs_resolve_mount-IsMount,
}
use aqua_core.Fs.Valid.Write.{nodefs_read-offset}

module _ {D : Type 0} where
  -- Putting back the reply of an operation at mount m.
  pub IsValid-put_back :
      {A : Type 0} (st : Fs D) (m : ℕ) (reply : Reply D A)
      → IsValid st
      → IsMount st.mounts m
      → KeepsOpen st.fd_table (mounted st m) reply.1
      → IsValid (put_back st m reply).1
  IsValid-put_back st m (r, fs, disk) v u k = IsValid-replaced st v m u.bounded u.used fs k disk

  pub on_mount-IsValid :
      (st : Fs D) (path : List ℕ) (operation : Nodefs → D → List ℕ → Reply D (Unit {0}))
      → IsValid st
      → ((m : ℕ) (subpath : List ℕ)
          → KeepsOpen st.fd_table (mounted st m) (operation (mounted st m) st.disk subpath).1)
      → IsValid (on_mount st path operation).1
  on_mount-IsValid st path operation v keeps =
      elim (Option-cases (vfs_resolve_mount st.mounts path)) [
        | inl e ↦ rw (e, on_mount) v
        | inr ((m, subpath), e) ↦
            rw (e, on_mount)
              (IsValid-put_back st m (operation (mounted st m) st.disk subpath) v
                (vfs_resolve_mount-IsMount st.mounts path m subpath e) (keeps m subpath))
      ]

  pub vfs_alloc_fd-IsValid :
      (st : Fs D) (pid mount_idx node_index : ℤ) (offset flags : ℕ)
      → IsValid st
      → IsOpenFd st.mounts st.instances (record {
        used = true;
        mount_idx = mount_idx;
        node_index = node_index;
        offset = offset;
        flags = flags;
      })
      → IsValid (vfs_alloc_fd st pid mount_idx node_index offset flags).1
  unfolding vfs_alloc_fd
  vfs_alloc_fd-IsValid st pid mount_idx node_index offset flags v o =
      elim (Option-cases (index_below procs_max pid)) [
        | inl e ↦ rw (e, vfs_alloc_fd) v
        | inr (p, e) ↦
            elim (Option-cases (find_from (λ fd. not (st.fd_table p fd).used) fd_max 0)) [
              | inl f ↦ rw (e, vfs_alloc_fd, f) v
              | inr (d, f) ↦
                  rw (e, vfs_alloc_fd, f) (IsValid-fds st v _ (AllOpen-set_fd st v p d _ (λ u. o)))
            ]
      ]

  -- `fs_close` keeps the state well-formed.
  pub fs_close-IsValid : (st : Fs D) (pid fd : ℤ) → IsValid st → IsValid (fs_close st pid fd).1
  unfolding fs_close
  fs_close-IsValid st pid fd v = elim (Option-cases (index_below procs_max pid)) [
    | inl e ↦ rw (e, fs_close) v
    | inr (p, e) ↦ elim (Option-cases (index_below fd_max fd)) [
      | inl f ↦ rw (e, fs_close, f) v
      | inr (d, f) ↦ elim (Bool-cases (st.fd_table p d).used) [
        | inl u ↦
            rw (e, fs_close, f, u)
              (IsValid-fds st v _ (AllOpen-set_fd st v p d closed_fd (λ h. cc)))
        | inr u ↦ rw (e, fs_close, f, u) v
      ]
    ]
  ]

  pub fs_fork_copy_fds-IsValid :
      (st : Fs D) (parent child : ℤ) → IsValid st → IsValid (fs_fork_copy_fds st parent child).1
  unfolding fs_fork_copy_fds
  fs_fork_copy_fds-IsValid st parent child v = elim (Option-cases (index_below procs_max parent)) [
    | inl e ↦ rw (e, fs_fork_copy_fds) v
    | inr (p, e) ↦ elim (Option-cases (index_below procs_max child)) [
      | inl f ↦ rw (e, fs_fork_copy_fds, f) v
      | inr (c, f) ↦
          rw (e, fs_fork_copy_fds, f)
            (IsValid-fds st v _ (λ pid d hp hd. elim (Bool-cases (pid == c && ltb d fd_max)) [
              | inl g ↦ rw g (v.fd p d (index_below-lt procs_max parent e) hd)
              | inr g ↦ rw g (v.fd pid d hp hd)
            ]))
    ]
  ]

  pub fs_on_process_recycle-IsValid :
      (st : Fs D) (pid : ℤ) → IsValid st → IsValid (fs_on_process_recycle st pid)
  unfolding fs_on_process_recycle
  fs_on_process_recycle-IsValid st pid v = elim (Option-cases (index_below procs_max pid)) [
    | inl e ↦ rw (e, fs_on_process_recycle) v
    | inr (c, e) ↦
        rw (e, fs_on_process_recycle)
          (IsValid-fds st v _ (λ p d hp hd u. elim (Bool-cases (p == c && ltb d fd_max)) [
            | inl g ↦ cc (rw g at u)
            | inr g ↦ rw g (v.fd p d hp hd (rw g at u))
          ]))
  ]

  -- `read_fd` moves the offset of one descriptor, and nothing else.
  read_fd-IsValid :
      (st : Fs D) (p d : ℕ) (buf : Buffer) (size : ℕ)
      → p < procs_max
      → d < fd_max
      → (st.fd_table p d).used ≡ true
      → IsValid st
      → IsValid (read_fd st p d buf size).1
  unfolding read_fd
  read_fd-IsValid st p d buf size hp hd u v =
      let f = st.fd_table p d in
      let o = v.fd p d hp hd u in
      elim (Bool-cases (has_flag f.flags o_rdonly)) [
        | inr e ↦ rw e v
        | inl e ↦ elim (Option-cases (mount_of st f)) [
          | inl g ↦ rw (e, g) v
          | inr (m, g) ↦
              let same : m ≡ o.mount = ground (arith, o.at_mount) in
              let offset =
                nodefs_read-offset (mounted st m) o.node f.offset size buf
                  (v.tree (st.mounts m).ctx)
                  (subst (λ n. IsFile (mounted st n).nodes o.node) (sym same) o.file) o.offset in
              rw (e, g)
                (IsValid-fds st v _ (
                  AllOpen-set_fd st v p d _ (λ used. record {
                    mount = o.mount;
                    at_mount = o.at_mount;
                    mount_bounded = o.mount_bounded;
                    mount_used = o.mount_used;
                    node = o.node;
                    at_node = o.at_node;
                    file = o.file;
                    offset = rw o.at_node offset;
                  })))
        ]
      ]

  pub fs_read-IsValid :
      (st : Fs D) (pid fd : ℤ) (buf : Buffer) (size : ℕ)
      → IsValid st
      → IsValid (fs_read st pid fd buf size).1
  unfolding fs_read
  fs_read-IsValid st pid fd buf size v = elim (Option-cases (index_below procs_max pid)) [
    | inl e ↦ rw (e, fs_read) v
    | inr (p, e) ↦ elim (Option-cases (index_below fd_max fd)) [
      | inl f ↦ rw (e, fs_read, f) v
      | inr (d, f) ↦ elim (Bool-cases (st.fd_table p d).used) [
        | inl u ↦
            rw (e, fs_read, f, u)
              (read_fd-IsValid st p d buf size (index_below-lt procs_max pid e)
                (index_below-lt fd_max fd f) u v)
        | inr u ↦ elim (Bool-cases (d == 0)) [
          | inl z ↦
              rw (e, fs_read, f, u, z) (record { tree = v.tree; at_mount = v.at_mount; fd = v.fd })
          | inr z ↦ rw (e, fs_read, f, u, z) v
        ]
      ]
    ]
  ]
