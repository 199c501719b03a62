-- ===== src/Fs/Data/Roundtrip.antt =====
-- What `nodefs_write` of src/kernel/fs/fs.c has written, `nodefs_read` reads.
use aqua_core.Prelude.{
  ℕ, ◌+◌, ◌-◌, ◌≤◌, ◌<◌, ◌≡◌, refl, ap, sym, ◌∙◌, Option, some, none, if-true, Bool, ◌||◌, arith,
  ltb, leb, leb→le, if◌then◌else◌, Bool-cases, inl, inr, pos, update,
}
use native.Mathlib.Decide.{ℕ_discrete}
use aqua_core.Commonlibs.Buffer.{memcpy_lem}
use aqua_core.Fs.Node.{Node, Nodefs, file_max_size}
use aqua_core.Fs.Node.Tree.{IsFile}
use aqua_core.Fs.Block.{BlockDev, pfs_sync}
use aqua_core.Fs.Nodefs.{Reply, synced}
use aqua_core.Fs.Nodefs.Keep.{synced_instance}
use aqua_core.Fs.Data.{Buffer, file_index, nodefs_read, nodefs_write, written_node, at_most}
use aqua_core.Fs.Valid.Write.{file_index-IsFile}

-- A read of `size` bytes at `offset` that gives the first bytes of buf, and leaves the rest of out.
pub record ReadsBack (size offset : ℕ) (buf out : Buffer) (reply : Option ℕ × ℕ × Buffer)
    : Type 0 where
  pub count : reply.0 ≡ some size
  pub offset_after : reply.1 ≡ offset + size
  pub bytes : (j : ℕ) → reply.2 j ≡ (if ltb j size then buf j else out j)

written_size :
    (n : Node) (offset count : ℕ) (buf : Buffer)
    → offset + count ≤ (written_node n offset buf count).size
unfolding written_node
written_size n offset count buf = ground arith

written_bytes :
    (n : Node) (offset count : ℕ) (buf : Buffer) (j : ℕ)
    → j < count
    → (written_node n offset buf count).bytes (offset + j) ≡ buf j
unfolding written_node
written_bytes n offset count buf j h =
    memcpy_lem n.bytes offset buf 0 count (offset + j)
    ∙ ground (arith, λ (e : 0 + (offset + j - offset) ≡ j). ap buf e)

-- Reading `size` bytes of a node that holds them.
reads_back :
    (fs : Nodefs) (k offset size : ℕ) (buf out : Buffer)
    → file_index fs.nodes (pos k) ≡ some k
    → (0 < size → offset + size ≤ (fs.nodes k).size)
    → ((j : ℕ) → j < size → (fs.nodes k).bytes (offset + j) ≡ buf j)
    → ReadsBack size offset buf out (nodefs_read fs (pos k) offset out size)
unfolding nodefs_read
reads_back fs k offset size buf out e fits held = elim (Bool-cases (leb (fs.nodes k).size offset)) [
  | inl end ↦
      let none_left : size ≡ 0 = elim (ℕ_discrete size 0) [
        | yes z ↦ z
        | no z ↦ absurd (omega (arith, fits (omega arith), leb→le (fs.nodes k).size offset end))
      ] in
      rw (e, nodefs_read, end)
        (record {
          count = ap some (sym none_left);
          offset_after = omega (arith, none_left);
          bytes = λ j. rw none_left (ground arith);
        })
  | inr more ↦
      let all : at_most size ((fs.nodes k).size - offset) ≡ size = elim (ℕ_discrete size 0) [
        | yes z ↦ ground arith
        | no z ↦ ground (arith, fits (omega arith))
      ] in
      rw (e, nodefs_read, more, all)
        (record {
          count = refl;
          offset_after = refl;
          bytes = λ j. memcpy_lem out 0 (fs.nodes k).bytes offset size j ∙ ground (arith, held j);
        })
]

-- Does the disk take the table of nodes, with `size` bytes written to node k?
abbrev pub takes : {D : Type 0} → BlockDev D → D → Nodefs → ℕ → ℕ → Buffer → ℕ → Bool
takes dev disk fs k offset buf size =
    let node = written_node (fs.nodes k) offset buf size in
    (pfs_sync dev (record fs { nodes = update fs.nodes k node }) disk).0

-- What a write of `size` bytes at an offset returns, and what a read there then gives. At the limit of a
-- file's size, where nothing can be written, the disk is not asked.
pub record WrittenBack {D : Type 0} (dev : BlockDev D) (disk : D) (size offset : ℕ) (buf : Buffer)
    (fs : Nodefs) (k : ℕ) (out : Buffer) (reply : Reply D ℕ × ℕ) : Type 0 where
  pub returned : reply.0.0 ≡ (
      if leb file_max_size offset || takes dev disk fs k offset buf size then some size else none)
  pub offset_after : reply.1 ≡ offset + size
  pub reads : ReadsBack size offset buf out (nodefs_read reply.0.1 (pos k) offset out size)

synced_reply :
    {D : Type 0} {A : Type 0} (dev : BlockDev D) (r : A) (fs : Nodefs) (disk : D)
    → (synced dev r fs disk).0 ≡ (if (pfs_sync dev fs disk).0 then some r else none)
unfolding synced
synced_reply dev r fs disk = elim (Bool-cases (pfs_sync dev fs disk).0) [
  | inl e ↦ rw e refl
  | inr e ↦ rw e refl
]

module _ {D : Type 0} (dev : BlockDev D) (fs : Nodefs) (disk : D) (k offset size : ℕ)
    (buf out : Buffer) where
  written-IsFile :
      IsFile fs.nodes k → IsFile (update fs.nodes k (written_node (fs.nodes k) offset buf size)) k
  unfolding written_node
  written-IsFile f = record {
    positive = f.positive;
    bounded = f.bounded;
    used = ground (arith, f.used);
    file = ground (arith, f.file);
  }

  -- A write of `size` bytes to a file, within the file size limit, returns `size` when the disk takes the
  -- table with the written node, or when the offset is at the limit, and -1 otherwise. In all cases the
  -- offset moves on by `size`, and a read at the offset of before then returns `size` and gives the
  -- bytes that were written.
  pub nodefs_read-nodefs_write :
      IsFile fs.nodes k
      → offset + size ≤ file_max_size
      → WrittenBack dev disk size offset buf fs k out
          (nodefs_write dev fs disk (pos k) offset buf size)
  unfolding nodefs_write
  nodefs_read-nodefs_write f fits = elim (Bool-cases (leb file_max_size offset)) [
    | inl full ↦
        let le = leb→le file_max_size offset full in
        let nothing : size ≡ 0 = omega (arith, le) in
        rw (file_index-IsFile fs.nodes k f, nodefs_write, full)
          (record {
            returned =
                ap some (sym nothing)
                ∙ sym (if-true _ _ (ap (λ b. b || takes dev disk fs k offset buf size) full));
            offset_after = omega (arith, le);
            reads =
                reads_back fs k offset size buf out (file_index-IsFile fs.nodes k f)
                  (λ h. absurd (omega (arith, le))) (λ j h. absurd (omega (arith, le)));
          })
    | inr room ↦
        let all : at_most size (file_max_size - offset) ≡ size = ground arith in
        let node = written_node (fs.nodes k) offset buf size in
        let fs' = record fs { nodes = update fs.nodes k node } in
        let at : update fs.nodes k node k ≡ node = ground arith in
        rw (file_index-IsFile fs.nodes k f, nodefs_write, room, all)
          (record {
            returned =
                synced_reply dev size fs' disk
                ∙ sym (
                    ap (λ b. if b || takes dev disk fs k offset buf size then some size else none)
                      room);
            offset_after = refl;
            reads = rw (synced_instance dev size fs' disk) (
                reads_back fs' k offset size buf out
                  (file_index-IsFile fs'.nodes k (written-IsFile f))
                  (λ h. rw at (written_size (fs.nodes k) offset size buf))
                  (λ j h. rw at (written_bytes (fs.nodes k) offset size buf j h)));
          })
  ]
