-- ===== src/Fs/Data.antt =====
-- `nodefs_read`, `nodefs_write` and `nodefs_readdir` of src/kernel/fs/fs.c. A buffer is the array that
-- the pointer names.
pub mod Roundtrip
use aqua_core.Prelude.{
  ℕ, zero, suc, ◌+◌, ◌-◌, ◌≡◌, Bool, true, false, not, ◌&&◌, ◌||◌, Option, none, some, List, ltb,
  leb, ◌==◌, if◌then◌else◌, ℤ, pos, negsuc, eq_int, update, find_from,
}
use aqua_core.Commonlibs.Buffer.{memcpy}
use aqua_core.Fs.Path.{copy_name}
use aqua_core.Fs.Node.{
  Node, Nodes, Nodefs, max_nodes, file_max_size, type_file, type_dir, resolve_path,
}
use aqua_core.Fs.Block.{BlockDev}
use aqua_core.Fs.Nodefs.{Reply, synced}

abbrev pub Buffer : Type 0
Buffer = ℕ → ℕ

-- The guards of `nodefs_read` and `nodefs_write` on the node: its index if they pass.
unfoldable pub file_index : Nodes → ℤ → Option ℕ
file_index nodes (negsuc k) = none
file_index nodes (pos k) =
    if k == 0 || leb max_nodes k || not (nodes k).used
    then none
    else if (nodes k).type == type_file
    then some k
    else none

-- The smaller of the size that is asked for and the room that is left.
abbrev pub at_most : ℕ → ℕ → ℕ
at_most size room = if ltb room size then room else size

-- The result, *offset and the buffer. `n->size - *offset` is taken where it is positive.
unfoldable pub nodefs_read : Nodefs → ℤ → ℕ → Buffer → ℕ → Option ℕ × ℕ × Buffer
unfolding file_index
nodefs_read fs node offset buf size = elim (file_index fs.nodes node) [
  | none ↦ (none, offset, buf)
  | some k ↦
      let n = fs.nodes k in
      let to_read = at_most size (n.size - offset) in
      if leb n.size offset
      then (some 0, offset, buf)
      else (some to_read, offset + to_read, memcpy buf 0 n.bytes offset to_read)
]

-- The node after `count` bytes were written at the offset.
unfoldable pub written_node : Node → ℕ → Buffer → ℕ → Node
written_node n offset buf count = record n {
  size = if ltb n.size (offset + count) then offset + count else n.size;
  bytes = memcpy n.bytes offset buf 0 count;
}

module _ {D : Type 0} (dev : BlockDev D) where
  -- The reply, and *offset.
  unfoldable pub nodefs_write : Nodefs → D → ℤ → ℕ → Buffer → ℕ → Reply D ℕ × ℕ
  unfolding file_index written_node synced
  nodefs_write fs disk node offset buf size = elim (file_index fs.nodes node) [
    | none ↦ ((none, fs, disk), offset)
    | some k ↦
        let to_write = at_most size (file_max_size - offset) in
        let node' = written_node (fs.nodes k) offset buf to_write in
        if leb file_max_size offset then ((some 0, fs, disk), offset) else (
          synced dev to_write (record fs { nodes = update fs.nodes k node' }) disk,
          offset + to_write,
        )
  ]

-- `struct fs_dirent`
pub record Dirent : Type 0 where
  pub name : List ℕ
  pub type : ℕ
  pub size : ℕ

-- The loop of `nodefs_readdir`: the index of the entry that is asked for.
unfoldable pub entry_from : Nodes → ℕ → ℕ → ℕ → ℕ → ℕ → Option ℕ
entry_from nodes dir index zero i seen = none
entry_from nodes dir index (suc rounds) i seen =
    let here = (nodes i).used && eq_int (nodes i).parent (pos dir) in
    let rest = entry_from nodes dir index rounds (i + 1) (if here then seen + 1 else seen) in
    if here && seen == index then some i else rest

unfoldable pub nodefs_readdir : Nodefs → List ℕ → ℤ → Option Dirent
unfolding entry_from
nodefs_readdir fs path (negsuc k) = none
nodefs_readdir fs path (pos index) = elim (resolve_path fs.nodes path) [
  | none ↦ none
  | some dir ↦
      let entry = entry_from fs.nodes dir index max_nodes 0 0 in
      if (fs.nodes dir).type == type_dir
      then elim entry [
        | none ↦ none
        | some i ↦ some (record {
          name = (copy_name (fs.nodes i).name).0;
          type = (fs.nodes i).type;
          size = (fs.nodes i).size;
        })
      ]
      else none
]
