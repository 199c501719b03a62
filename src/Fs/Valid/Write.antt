-- ===== src/Fs/Valid/Write.antt =====
-- Reading and writing an open descriptor of src/kernel/fs/fs.c keeps the state well-formed.
use aqua_core.Prelude.{
  ℕ, ◌+◌, ◌-◌, ◌≤◌, ◌≡◌, refl, arith, if◌then◌else◌, Bool-cases, inl, inr, pos, update, some, ltb,
  leb,
}
use aqua_core.Commonlibs.Buffer.{memcpy}
use aqua_core.Fs.Node.{Nodes, Nodefs, file_max_size}
use aqua_core.Fs.Node.Tree.{IsFile, IsTree}
use aqua_core.Fs.Node.Alter.{IsTree-changed, IsFile-changed}
use aqua_core.Fs.Block.{BlockDev}
use aqua_core.Fs.Nodefs.Keep.{Keeps, Keeps-refl, synced_instance}
use aqua_core.Fs.Data.{Buffer, file_index, nodefs_read, nodefs_write, written_node, at_most}

-- The node of an open descriptor passes the guards of `nodefs_read` and `nodefs_write`.
pub file_index-IsFile : (nodes : Nodes) (k : ℕ) → IsFile nodes k → file_index nodes (pos k) ≡ some k
unfolding file_index
file_index-IsFile nodes k f = ground (arith, f.positive, f.bounded, f.used, f.file)

pub nodefs_read-offset :
    (fs : Nodefs) (k offset size : ℕ) (buf : Buffer)
    → IsTree fs.nodes
    → IsFile fs.nodes k
    → offset ≤ file_max_size
    → (nodefs_read fs (pos k) offset buf size).1 ≤ file_max_size
unfolding nodefs_read
nodefs_read-offset fs k offset size buf t f le =
    let entry = t.entry k f.positive f.bounded f.used in
    let fits = entry.size in rw (file_index-IsFile fs.nodes k f, nodefs_read) (ground arith)

module _ {D : Type 0} (dev : BlockDev D) (fs : Nodefs) (disk : D) (k offset : ℕ) (buf : Buffer)
    (size : ℕ) (t : IsTree fs.nodes) (f : IsFile fs.nodes k) where
  Keeps-written :
      (count : ℕ)
      → offset + count ≤ file_max_size
      → Keeps fs
          (record fs { nodes = update fs.nodes k (written_node (fs.nodes k) offset buf count) })
  unfolding written_node
  Keeps-written count fits =
      let entry = t.entry k f.positive f.bounded f.used in
      let total =
        if ltb (fs.nodes k).size (offset + count) then offset + count else (fs.nodes k).size in
      let le : total ≤ file_max_size = ground (arith, entry.size) in
      record {
        tree =
            IsTree-changed fs.nodes k total (memcpy (fs.nodes k).bytes offset buf 0 count) t f le;
        mount = refl;
        files =
            IsFile-changed fs.nodes k total (memcpy (fs.nodes k).bytes offset buf 0 count) t f le;
      }

  -- `nodefs_write` keeps the tree and every file, and leaves the offset within the file size limit.
  pub nodefs_write-Keeps :
      offset ≤ file_max_size
      → Keeps fs (nodefs_write dev fs disk (pos k) offset buf size).0.1
        × ((nodefs_write dev fs disk (pos k) offset buf size).1 ≤ file_max_size)
  unfolding nodefs_write
  nodefs_write-Keeps le = elim (Bool-cases (leb file_max_size offset)) [
    | inl full ↦ rw (file_index-IsFile fs.nodes k f, nodefs_write, full) (Keeps-refl fs t, le)
    | inr room ↦
        let count = at_most size (file_max_size - offset) in
        let fits : offset + count ≤ file_max_size = ground arith in
        rw
          (
            file_index-IsFile fs.nodes k f,
            nodefs_write,
            room,
            synced_instance dev count
                (record fs {
                  nodes = update fs.nodes k (written_node (fs.nodes k) offset buf count);
                })
                disk,
          )
          (Keeps-written count fits, fits)
  ]
