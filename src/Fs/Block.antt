-- ===== src/Fs/Block.antt =====
-- The persistent image of src/kernel/fs/fs.c: `pfs_sync`, and the loading of an instance.
-- The virtio block driver is an argument, `BlockDev`; D is the state of driver and disk.
pub mod Image
pub mod Device
pub mod Reload
use aqua_core.Prelude.{
  ℕ, zero, suc, ◌+◌, ◌-◌, ◌*◌, ◌/◌, ◌%◌, ◌^◌, Bool, true, false, not, ◌&&◌, Option, none, some,
  List, [], ◌∷◌, ltb, ◌==◌, if◌then◌else◌, ℤ, pos, negsuc, minus_one, get_or,
}
use aqua_core.Commonlibs.Buffer.{memset, memcpy}
use aqua_core.Fs.Path.{name_max}
use aqua_core.Fs.Node.{Node, Nodes, Nodefs, zero_node, nodefs_format, max_nodes, type_dir}

abbrev pub block_size : ℕ
block_size = 512

abbrev pub block_count : ℕ
block_count = 256

abbrev pub pfs_magic : ℕ
pfs_magic = 0x50465331

-- `blockdev_init`, `blockdev_read` and `blockdev_write` of src/kernel/fs/blockdev_virtio.c. A failed read has no block.
pub record BlockDev (D : Type 0) : Type 0 where
  pub blockdev_init : D → D
  pub blockdev_read : D → ℕ → Option (ℕ → ℕ) × D
  pub blockdev_write : D → ℕ → (ℕ → ℕ) → Bool × D

-- Byte k of a little-endian 32-bit word.
abbrev pub word_byte : ℕ → ℕ → ℕ
word_byte w k = w / 256 ^ k % 256

-- The bit pattern of an int.
abbrev pub int_word : ℤ → ℕ
int_word (pos n) = n
int_word (negsuc n) = 2 ^ 32 - 1 - n

abbrev pub bool_word : Bool → ℕ
bool_word true = 1
bool_word false = 0

-- sizeof(struct fs_node): four words, the name, and the data.
abbrev pub node_size : ℕ
node_size = 544

-- sizeof(struct pfs_image)
abbrev pub image_size : ℕ
image_size = 4 + max_nodes * node_size

-- Byte k of the struct: used, type, parent, name, size, data.
unfoldable pub node_byte : Node → ℕ → ℕ
node_byte n k =
    if ltb k 4
    then word_byte (bool_word n.used) k
    else if ltb k 8
    then word_byte n.type (k - 4)
    else if ltb k 12
    then word_byte (int_word n.parent) (k - 8)
    else if ltb k 28
    then get_or n.name (k - 12) 0
    else if ltb k 32
    then word_byte n.size (k - 28)
    else n.bytes (k - 32)

-- Byte k of the image: the magic number, then the node table.
unfoldable pub image_byte : Nodes → ℕ → ℕ
unfolding node_byte
image_byte nodes k =
    if ltb k 4
    then word_byte pfs_magic k
    else node_byte (nodes ((k - 4) / node_size)) ((k - 4) % node_size)

unfoldable pub pfs_block_count : ℕ
pfs_block_count = (image_size + block_size - 1) / block_size

-- The bytes of block i that lie in the image.
abbrev pub copy_len : ℕ → ℕ
copy_len i =
    let remain = image_size - i * block_size in if ltb block_size remain then block_size else remain

-- Block i as it is written: zeros, with the image's bytes copied over.
unfoldable pub image_block : (ℕ → ℕ) → ℕ → ℕ → ℕ
unfolding memset memcpy
image_block src i = memcpy (memset (λ k. 0) 0 0 block_size) 0 src (i * block_size) (copy_len i)

module _ {D : Type 0} (dev : BlockDev D) where
  -- The write loop: whether every block was written.
  unfoldable pub write_blocks : (ℕ → ℕ) → ℕ → ℕ → D → Bool × D
  write_blocks src zero i disk = (true, disk)
  write_blocks src (suc n) i disk =
      let (written, disk') = dev.blockdev_write disk i (image_block src i) in
      let rest = write_blocks src n (i + 1) disk' in if written then rest else (false, disk')

  unfoldable pub pfs_sync : Nodefs → D → Bool × D
  pfs_sync fs disk =
      if fs.persistent
      then if ltb block_count pfs_block_count
        then (false, disk)
        else write_blocks (image_byte fs.nodes) pfs_block_count 0 disk
      else (true, disk)

-- The int of a bit pattern.
abbrev pub word_int : ℕ → ℤ
word_int w = if ltb w (2 ^ 31) then pos w else negsuc (2 ^ 32 - 1 - w)

abbrev pub word_at : (ℕ → ℕ) → ℕ → ℕ
word_at img o = img o + 256 * (img (o + 1) + 256 * (img (o + 2) + 256 * img (o + 3)))

-- The string in a field of n bytes.
unfoldable pub string_at : (ℕ → ℕ) → ℕ → ℕ → List ℕ
string_at img o zero = []
string_at img o (suc n) = if img o == 0 then [] else img o ∷ string_at img (o + 1) n

-- The struct at offset o of the image. `used` is the truth value that the code tests, so that a value
-- other than 0 and 1, which the code never stores, becomes 1; a name that has no NUL in its 16 bytes,
-- which the code never stores either, ends behind them.
unfoldable pub node_at : (ℕ → ℕ) → ℕ → Node
unfolding string_at
node_at img o = record {
  used = not (word_at img o == 0);
  type = word_at img (o + 4);
  parent = word_int (word_at img (o + 8));
  name = string_at img (o + 12) name_max;
  size = word_at img (o + 28);
  bytes = λ k. img (o + 32 + k);
}

module _ {D : Type 0} (dev : BlockDev D) where
  -- The read loop, with the bytes of the image that are in place; none is a failed read.
  unfoldable pub read_blocks : ℕ → ℕ → (ℕ → ℕ) → D → Option (ℕ → ℕ) × D
  read_blocks zero i dst disk = (some dst, disk)
  read_blocks (suc n) i dst disk =
      let (got, disk') = dev.blockdev_read disk i in
      elim got [
        | none ↦ (none, disk')
        | some block ↦
            read_blocks n (i + 1) (memcpy dst (i * block_size) block 0 (copy_len i)) disk'
      ]

  -- Formats the instance and writes it out; none is the PANIC.
  unfoldable pub format_and_sync : Nodefs → D → Option Nodefs × D
  unfolding nodefs_format pfs_sync
  format_and_sync fs disk =
      let fs' = nodefs_format fs in
      let (synced, disk') = pfs_sync dev fs' disk in
      if synced then (some fs', disk') else (none, disk')

  -- What follows the reading of the image.
  unfoldable pub mount_image : Nodefs → (ℕ → ℕ) → D → Option Nodefs × D
  unfolding format_and_sync node_at
  mount_image fs img disk =
      let loaded : Nodefs = record fs { nodes = λ i. node_at img (4 + i * node_size) } in
      if word_at img 0 == pfs_magic
      then if (loaded.nodes 0).used && (loaded.nodes 0).type == type_dir
        then (some loaded, disk)
        else format_and_sync loaded disk
      else format_and_sync fs disk

  unfoldable pub mount_read : Nodefs → Option (ℕ → ℕ) × D → Option Nodefs × D
  unfolding mount_image
  mount_read fs (none, disk) = (none, disk)
  mount_read fs (some img, disk) = mount_image fs img disk

  -- none is a PANIC. `pfs_work_img` holds anything before it is read.
  unfoldable pub nodefs_init_instance : Bool → (ℕ → ℕ) → D → Option Nodefs × D
  unfolding nodefs_format mount_read
  nodefs_init_instance persistent work_img disk =
      let fs : Nodefs = record {
        mount_idx = minus_one;
        persistent = persistent;
        nodes = λ i. zero_node;
      } in
      if persistent
      then if ltb block_count pfs_block_count
        then (none, disk)
        else mount_read fs (read_blocks pfs_block_count 0 work_img disk)
      else (some (nodefs_format fs), disk)
