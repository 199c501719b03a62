-- ===== src/Fs/Api.antt =====
-- The operations on paths and descriptors that src/kernel/fs/fs.c exports. Each returns its result, none
-- for -1, and the state as it is then. Path, buffer and `out` pointers stand for what they point to,
-- so that the guards on NULL have no counterpart.
use aqua_core.Prelude.{
  ℕ, zero, suc, ◌+◌, true, false, ◌&&◌, Option, none, some, List, [], ◌∷◌, ◌++◌, ltb, ◌==◌,
  if◌then◌else◌, ℤ, pos, minus_one, index_below, ◌%◌,
}
use aqua_core.Fs.Path.{slash}
use aqua_core.Fs.Node.{Nodefs, type_dir, resolve_path}
use aqua_core.Fs.Block.{BlockDev}
use aqua_core.Fs.Nodefs.{
  Fd, FdTable, Reply, procs_max, fd_max, has_flag, o_rdonly, o_wronly, nodefs_open, nodefs_mkdir,
  nodefs_unlink, nodefs_rmdir,
}
use aqua_core.Fs.Data.{Buffer, Dirent, nodefs_read, nodefs_write, nodefs_readdir}
use aqua_core.Fs.Vfs.{Fs, mount_max, set_instance, set_fd, vfs_resolve_mount, vfs_alloc_fd}

abbrev pub closed_fd : Fd
closed_fd = record {
  used = false;
  mount_idx = minus_one;
  node_index = minus_one;
  offset = 0;
  flags = 0;
}

-- The loops of the console fallbacks.
unfoldable pub read_chars : (ℕ → ℕ) → ℕ → Buffer → ℕ → ℕ → Buffer
read_chars input taken buf i zero = buf
read_chars input taken buf i (suc n) =
    read_chars input (taken + 1) (λ j. if i == j then input taken % 256 else buf j) (i + 1) n

unfoldable pub buffer_bytes : Buffer → ℕ → ℕ → List ℕ
buffer_bytes buf i zero = []
buffer_bytes buf i (suc n) = buf i ∷ buffer_bytes buf (i + 1) n

module _ {D : Type 0} where
  -- The instance of the mount with this index.
  abbrev pub mounted : Fs D → ℕ → Nodefs
  mounted st m = st.instances (st.mounts m).ctx

  -- Puts the instance and the disk that an operation leaves back into the state.
  abbrev pub put_back : {A : Type 0} → Fs D → ℕ → Reply D A → Option A × Fs D
  put_back st m (r, fs, disk) =
      (r, record st { instances = set_instance st.instances (st.mounts m).ctx fs; disk = disk })

  -- `fs_mkdir`, `fs_unlink` and `fs_rmdir` pass the path below the mount on to its operation.
  abbrev pub on_mount :
      Fs D → List ℕ → (Nodefs → D → List ℕ → Reply D (Unit {0})) → Option (Unit {0}) × Fs D
  on_mount st path operation = elim (vfs_resolve_mount st.mounts path) [
    | none ↦ (none, st)
    | some (m, subpath) ↦ put_back st m (operation (mounted st m) st.disk subpath)
  ]

  -- The code calls `syscall_handle_getchar` for each byte, which may put the process to sleep. Here the
  -- characters that those calls return, the one after the other, are the console's input, and the
  -- waiting between them is left out: other processes do not run within the call.
  unfoldable pub console_read_fallback : Fs D → Buffer → ℕ → Option ℕ × Fs D × Buffer
  unfolding read_chars
  console_read_fallback st buf size =
      let c = st.console in
      (
        some size,
        record st { console = record c { taken = c.taken + size } },
        read_chars c.input c.taken buf 0 size,
      )

  unfoldable pub console_write_fallback : Fs D → Buffer → ℕ → Option ℕ × Fs D
  unfolding buffer_bytes
  console_write_fallback st buf size =
      let c = st.console in
      (some size, record st { console = record c { output = c.output ++ buffer_bytes buf 0 size } })

  unfoldable pub fs_close : Fs D → ℤ → ℤ → Option (Unit {0}) × Fs D
  fs_close st pid fd = elim (index_below procs_max pid) [
    | none ↦ (none, st)
    | some p ↦ elim (index_below fd_max fd) [
      | none ↦ (none, st)
      | some d ↦
          if (st.fd_table p d).used
          then (some tt, record st { fd_table = set_fd st.fd_table p d closed_fd })
          else (none, st)
    ]
  ]

  -- What the reading of an open descriptor may use: its mount's index.
  abbrev pub mount_of : Fs D → Fd → Option ℕ
  mount_of st f = elim (index_below mount_max f.mount_idx) [
    | none ↦ none
    | some m ↦ if (st.mounts m).used then some m else none
  ]

  unfoldable pub read_fd : Fs D → ℕ → ℕ → Buffer → ℕ → Option ℕ × Fs D × Buffer
  unfolding nodefs_read
  read_fd st p d buf size =
      let f = st.fd_table p d in
      if has_flag f.flags o_rdonly
      then elim (mount_of st f) [
        | none ↦ (none, st, buf)
        | some m ↦
            let (r, offset, buf') = nodefs_read (mounted st m) f.node_index f.offset buf size in
            (
              r,
              record st { fd_table = set_fd st.fd_table p d (record f { offset = offset }) },
              buf',
            )
      ]
      else (none, st, buf)

  unfoldable pub fs_read : Fs D → ℤ → ℤ → Buffer → ℕ → Option ℕ × Fs D × Buffer
  unfolding read_fd console_read_fallback
  fs_read st pid fd buf size = elim (index_below procs_max pid) [
    | none ↦ (none, st, buf)
    | some p ↦ elim (index_below fd_max fd) [
      | none ↦ (none, st, buf)
      | some d ↦
          if (st.fd_table p d).used
          then read_fd st p d buf size
          else if d == 0
          then console_read_fallback st buf size
          else (none, st, buf)
    ]
  ]

  -- close if new fd is already used
  unfoldable pub close_used : Fs D → ℤ → ℤ → ℕ → ℕ → Option (Unit {0}) × Fs D
  unfolding fs_close
  close_used st pid fd p n = if (st.fd_table p n).used then fs_close st pid fd else (some tt, st)

  -- copy old_fd to new_fd
  abbrev pub copy_fd : ℕ → ℕ → ℕ → Option (Unit {0}) × Fs D → Option ℕ × Fs D
  copy_fd p o n (none, st) = (none, st)
  copy_fd p o n (some u, st) =
      let copied = record (st.fd_table p o) { used = true } in
      (some n, record st { fd_table = set_fd st.fd_table p n copied })

  unfoldable pub fs_dup2 : Fs D → ℤ → ℤ → ℤ → Option ℕ × Fs D
  unfolding close_used
  fs_dup2 st pid old_fd new_fd = elim (index_below procs_max pid) [
    | none ↦ (none, st)
    | some p ↦ elim (index_below fd_max old_fd) [
      | none ↦ (none, st)
      | some o ↦ elim (index_below fd_max new_fd) [
        | none ↦ (none, st)
        | some n ↦
            if (st.fd_table p o).used
            then if o == n then (some n, st) else copy_fd p o n (close_used st pid new_fd p n)
            else (none, st)
      ]
    ]
  ]

  unfoldable pub fs_fork_copy_fds : Fs D → ℤ → ℤ → Option (Unit {0}) × Fs D
  fs_fork_copy_fds st parent_pid child_pid = elim (index_below procs_max parent_pid) [
    | none ↦ (none, st)
    | some p ↦ elim (index_below procs_max child_pid) [
      | none ↦ (none, st)
      | some c ↦
          let fds : FdTable =
            λ pid fd. if pid == c && ltb fd fd_max then st.fd_table p fd else st.fd_table pid fd in
          (some tt, record st { fd_table = fds })
    ]
  ]

  unfoldable pub fs_on_process_recycle : Fs D → ℤ → Fs D
  fs_on_process_recycle st pid = elim (index_below procs_max pid) [
    | none ↦ st
    | some c ↦
        let fds : FdTable =
          λ p fd. if p == c && ltb fd fd_max then closed_fd else st.fd_table p fd in
        record st { fd_table = fds }
  ]

  unfoldable pub fs_readdir : Fs D → List ℕ → ℤ → Option Dirent
  fs_readdir st path index = elim (vfs_resolve_mount st.mounts path) [
    | none ↦ none
    | some (m, subpath) ↦ nodefs_readdir (mounted st m) subpath index
  ]

  -- *mount_idx and *node_idx.
  unfoldable pub fs_get_path_entry : Fs D → List ℕ → Option (ℤ × ℕ)
  fs_get_path_entry st path = elim (vfs_resolve_mount st.mounts path) [
    | none ↦ none
    | some (m, subpath) ↦ elim (resolve_path (mounted st m).nodes subpath) [
      | none ↦ none
      | some node ↦
          if ((mounted st m).nodes node).type == type_dir
          then some ((mounted st m).mount_idx, node)
          else none
    ]
  ]

  unfoldable pub fs_get_root_entry : Fs D → Option (ℤ × ℕ)
  unfolding fs_get_path_entry
  fs_get_root_entry st = fs_get_path_entry st (slash ∷ [])

module _ {D : Type 0} (dev : BlockDev D) where
  unfoldable pub fs_open : Fs D → ℤ → List ℕ → ℕ → Option ℕ × Fs D
  fs_open st pid path flags = elim (index_below procs_max pid) [
    | none ↦ (none, st)
    | some p ↦ elim (vfs_resolve_mount st.mounts path) [
      | none ↦ (none, st)
      | some (m, subpath) ↦
          let (opened, st') =
            put_back st m (nodefs_open dev (mounted st m) st.disk subpath flags) in
          elim opened [
            | none ↦ (none, st')
            | some (node, offset) ↦ vfs_alloc_fd st' pid (pos m) (pos node) offset flags
          ]
    ]
  ]

  unfoldable pub write_fd : Fs D → ℕ → ℕ → Buffer → ℕ → Option ℕ × Fs D
  write_fd st p d buf size =
      let f = st.fd_table p d in
      if has_flag f.flags o_wronly
      then elim (mount_of st f) [
        | none ↦ (none, st)
        | some m ↦
            let (reply, offset) =
              nodefs_write dev (mounted st m) st.disk f.node_index f.offset buf size in
            let (r, st') = put_back st m reply in
            (r, record st' { fd_table = set_fd st.fd_table p d (record f { offset = offset }) })
      ]
      else (none, st)

  unfoldable pub fs_write : Fs D → ℤ → ℤ → Buffer → ℕ → Option ℕ × Fs D
  unfolding write_fd console_write_fallback
  fs_write st pid fd buf size = elim (index_below procs_max pid) [
    | none ↦ (none, st)
    | some p ↦ elim (index_below fd_max fd) [
      | none ↦ (none, st)
      | some d ↦
          if (st.fd_table p d).used
          then write_fd st p d buf size
          else if d == 1
          then console_write_fallback st buf size
          else (none, st)
    ]
  ]

  unfoldable pub fs_mkdir : Fs D → List ℕ → Option (Unit {0}) × Fs D
  fs_mkdir st path = on_mount st path (nodefs_mkdir dev)

  unfoldable pub fs_unlink : Fs D → List ℕ → Option (Unit {0}) × Fs D
  fs_unlink st path = on_mount st path (nodefs_unlink dev st.fd_table)

  unfoldable pub fs_rmdir : Fs D → List ℕ → Option (Unit {0}) × Fs D
  fs_rmdir st path = on_mount st path (nodefs_rmdir dev)
