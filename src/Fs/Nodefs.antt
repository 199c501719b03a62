-- ===== src/Fs/Nodefs.antt =====
-- The operations of an instance (`nodefs_ops`) in src/kernel/fs/fs.c. Each returns its result, none for
-- -1, beside the instance and the disk as they are then: an error may come after a change.
pub mod Keep
pub mod Safe
use aqua_core.Prelude.{
  ℕ, zero, suc, ◌+◌, ◌-◌, ◌≡◌, Bool, true, false, not, ◌&&◌, ◌||◌, Option, none, some, List, ltb,
  leb, ◌==◌, if◌then◌else◌, ℤ, pos, negsuc, eq_int, update, find_from, any_from, bit_and, bit_or,
  index_below,
}
use aqua_core.Commonlibs.Buffer.{memset, memcpy}
use aqua_core.Fs.Path.{copy_name}
use aqua_core.Fs.Node.{
  Node, Nodes, Nodefs, zero_node, max_nodes, file_max_size, type_file, type_dir, find_child,
  alloc_node, resolve_path, resolve_parent_and_leaf, is_dir_empty,
}
use aqua_core.Fs.Block.{BlockDev, pfs_sync}

abbrev pub o_rdonly : ℕ
o_rdonly = 1

abbrev pub o_wronly : ℕ
o_wronly = 2

abbrev pub o_creat : ℕ
o_creat = 0x10

abbrev pub o_trunc : ℕ
o_trunc = 0x20

-- flags & mask, as a truth value
abbrev pub has_flag : ℕ → ℕ → Bool
has_flag flags mask = not (bit_and flags mask == 0)

abbrev pub procs_max : ℕ
procs_max = 64

abbrev pub fd_max : ℕ
fd_max = 16

-- `struct vfs_fd`, and the table of all processes.
pub record Fd : Type 0 where
  pub used : Bool
  pub mount_idx : ℤ
  pub node_index : ℤ
  pub offset : ℕ
  pub flags : ℕ

abbrev pub FdTable : Type 0
FdTable = ℕ → ℕ → Fd

-- The new node of `nodefs_open` and `nodefs_mkdir`, before it is synced.
unfoldable pub create_node : Nodefs → ℕ → ℕ → List ℕ → Option ℕ × Nodefs
create_node fs type parent leaf = elim (alloc_node fs.nodes) [
  | none ↦ (none, fs)
  | some (idx, nodes) ↦
      let (name, copied) = copy_name leaf in
      let node : Node = record (nodes idx) { type = type; parent = pos parent; name = name } in
      if copied
      then (some idx, record fs { nodes = update nodes idx node })
      else (none, record fs { nodes = update nodes idx (record node { used = false }) })
]

-- Is the node open in some process?
abbrev pub is_open_at : FdTable → ℤ → ℕ → ℕ → ℕ → Bool
is_open_at fds mount_idx node_index pid fd =
    (fds pid fd).used
    && (eq_int (fds pid fd).mount_idx mount_idx && eq_int (fds pid fd).node_index (pos node_index))

unfoldable pub is_node_open : FdTable → Nodefs → ℕ → Bool
is_node_open fds fs node_index = elim fs.mount_idx [
  | pos m ↦ any_from (λ pid. any_from (is_open_at fds (pos m) node_index pid) fd_max 0) procs_max 0
  | negsuc m ↦ false
]

-- memset of the whole node to 0.
abbrev pub drop_node : Nodefs → ℕ → Nodefs
drop_node fs node = record fs { nodes = update fs.nodes node zero_node }

-- A call of an operation: the result, the instance, and the disk.
abbrev pub Reply : Type 0 → Type 0 → Type 0
Reply D A = Option A × Nodefs × D

module _ {D : Type 0} (dev : BlockDev D) where
  -- `if (pfs_sync(fs) < 0) return -1; return r`
  unfoldable pub synced : {A : Type 0} → A → Nodefs → D → Reply D A
  synced r fs disk =
      let (written, disk') = pfs_sync dev fs disk in
      if written then (some r, fs, disk') else (none, fs, disk')

  -- Creates the leaf of a path, which must be new, and syncs.
  unfoldable pub create_at : Nodefs → D → ℕ → List ℕ → Reply D ℕ
  unfolding create_node synced
  create_at fs disk type path = elim (resolve_parent_and_leaf fs.nodes path) [
    | none ↦ (none, fs, disk)
    | some (parent, leaf) ↦ elim (find_child fs.nodes parent leaf) [
      | some other ↦ (none, fs, disk)
      | none ↦
          let (made, fs') = create_node fs type parent leaf in
          elim made [ none ↦ (none, fs', disk) | some idx ↦ synced idx fs' disk ]
    ]
  ]

  -- The second half of `nodefs_open`: the node's type, and O_TRUNC.
  unfoldable pub open_node : Nodefs → D → ℕ → ℕ → Reply D (ℕ × ℕ)
  unfolding synced
  open_node fs disk flags node =
      let n = fs.nodes node in
      let empty : Node = record n { size = 0; bytes = memset n.bytes 0 0 file_max_size } in
      if n.type == type_file
      then if has_flag flags o_trunc && has_flag flags o_wronly
        then synced (node, 0) (record fs { nodes = update fs.nodes node empty }) disk
        else (some (node, 0), fs, disk)
      else (none, fs, disk)

  -- The result is *node_out and *offset_out.
  unfoldable pub nodefs_open : Nodefs → D → List ℕ → ℕ → Reply D (ℕ × ℕ)
  unfolding create_at open_node
  nodefs_open fs disk path flags =
      let flags' =
        if bit_and flags (bit_or o_rdonly o_wronly) == 0 then bit_or flags o_rdonly else flags in
      elim (resolve_path fs.nodes path) [
        | some node ↦ open_node fs disk flags' node
        | none ↦
            let (made, fs', disk') = create_at fs disk type_file path in
            if has_flag flags' o_creat
            then elim made [
              | none ↦ (none, fs', disk')
              | some node ↦ open_node fs' disk' flags' node
            ]
            else (none, fs, disk)
      ]

  unfoldable pub nodefs_mkdir : Nodefs → D → List ℕ → Reply D (Unit {0})
  unfolding create_at
  nodefs_mkdir fs disk path =
      let (made, fs', disk') = create_at fs disk type_dir path in
      elim made [ none ↦ (none, fs', disk') | some idx ↦ (some tt, fs', disk') ]

  unfoldable pub nodefs_unlink : FdTable → Nodefs → D → List ℕ → Reply D (Unit {0})
  unfolding synced
  nodefs_unlink fds fs disk path = elim (resolve_path fs.nodes path) [
    | none ↦ (none, fs, disk)
    | some node ↦
        if node == 0
        then (none, fs, disk)
        else if (fs.nodes node).type == type_file
        then if is_node_open fds fs node
          then (none, fs, disk)
          else synced tt (drop_node fs node) disk
        else (none, fs, disk)
  ]

  unfoldable pub nodefs_rmdir : Nodefs → D → List ℕ → Reply D (Unit {0})
  unfolding synced
  nodefs_rmdir fs disk path = elim (resolve_path fs.nodes path) [
    | none ↦ (none, fs, disk)
    | some node ↦
        if node == 0
        then (none, fs, disk)
        else if (fs.nodes node).type == type_dir
        then if is_dir_empty fs.nodes node
          then synced tt (drop_node fs node) disk
          else (none, fs, disk)
        else (none, fs, disk)
  ]
