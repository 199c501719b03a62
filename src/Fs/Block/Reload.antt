-- ===== src/Fs/Block/Reload.antt =====
-- The persistence of src/kernel/fs/fs.c: what `pfs_sync` writes, `nodefs_init_instance` reads again.
use aqua_core.Prelude.{
  ℕ, ◌+◌, ◌*◌, ◌<◌, ◌≤◌, ◌≡◌, refl, sym, ap, ◌∙◌, Bool, true, false, ◌&&◌, Option, none, some,
  arith, ltb, ◌==◌, minus_one, if-true, if-false,
}
use aqua_core.Fs.Node.{Nodefs, zero_node, max_nodes, type_dir}
use aqua_core.Fs.Block.{
  BlockDev, block_size, block_count, image_size, image_byte, write_blocks, pfs_sync,
  pfs_block_count, read_blocks, mount_image, mount_read, nodefs_init_instance, node_at, node_size,
  word_at, pfs_magic,
}
use aqua_core.Fs.Block.Image.{IsStorable, SameNode, magic_word, image-SameNode}
use aqua_core.Fs.Block.Device.{IsWorking, write_blocks-Holds, read_blocks-whole, some_injective}

-- The table that an instance has loaded agrees with the one that was written.
pub record IsReloaded {D : Type 0} (fs : Nodefs) (r : Option Nodefs × D) : Type 0 where
  pub loaded : Nodefs
  pub result : r.0 ≡ some loaded
  pub same : (i : ℕ) → i < max_nodes → SameNode (fs.nodes i) (loaded.nodes i)

image_fits : ltb block_count pfs_block_count ≡ false
unfolding pfs_block_count
image_fits = refl

blocks_fit : 0 + pfs_block_count ≤ block_count
unfolding pfs_block_count
blocks_fit = omega arith

blocks_cover : image_size ≤ (0 + pfs_block_count) * block_size
unfolding pfs_block_count
blocks_cover = omega arith

-- The instance before its table is loaded.
abbrev blank_fs : Nodefs
blank_fs = record { mount_idx = minus_one; persistent = true; nodes = λ i. zero_node }

abbrev loaded_fs : (ℕ → ℕ) → Nodefs
loaded_fs img = record blank_fs { nodes = λ i. node_at img (4 + i * node_size) }

module _ {D : Type 0} (dev : BlockDev D) where
  mount_read-some :
      (r : Option (ℕ → ℕ) × D) (img : ℕ → ℕ)
      → r.0 ≡ some img
      → mount_read dev blank_fs r ≡ mount_image dev blank_fs img r.1
  unfolding mount_read
  mount_read-some (none, d) img e = cc
  mount_read-some (some x, d) img e = ap (λ b. mount_image dev blank_fs b d) (some_injective e)

  mount_image-loads :
      (img : ℕ → ℕ) (d : D)
      → word_at img 0 ≡ pfs_magic
      → (node_at img (4 + 0 * node_size)).used ≡ true
      → (node_at img (4 + 0 * node_size)).type ≡ type_dir
      → mount_image dev blank_fs img d ≡ (some (loaded_fs img), d)
  unfolding mount_image
  mount_image-loads img d magic used dir =
      let a : (word_at img 0 == pfs_magic) ≡ true = rw magic refl in
      let b : ((node_at img (4 + 0 * node_size)).used
            && (node_at img (4 + 0 * node_size)).type == type_dir)
          ≡ true =
        rw (used, dir) refl in
      if-true _ _ a ∙ if-true _ _ b

-- After a `pfs_sync` that succeeded on a device that works, the loading of a persistent instance from
-- the device succeeds, whatever its buffer held, and gives the node table that was written, when the
-- fields are values of their types and the root is a used directory.
pub nodefs_init_instance-pfs_sync :
    {D : Type 0} (dev : BlockDev D) (kept : D → ℕ → ℕ → ℕ) (fs : Nodefs) (d : D) (work : ℕ → ℕ)
    → IsWorking dev kept
    → fs.persistent ≡ true
    → ((i : ℕ) → i < max_nodes → IsStorable (fs.nodes i))
    → (fs.nodes 0).used ≡ true
    → (fs.nodes 0).type ≡ type_dir
    → (pfs_sync dev fs d).0 ≡ true
    → IsReloaded fs (nodefs_init_instance dev true work (pfs_sync dev fs d).1)
unfolding pfs_sync nodefs_init_instance
nodefs_init_instance-pfs_sync {D = D} dev kept fs d work w persistent storable used dir synced =
    let src = image_byte fs.nodes in
    let written = write_blocks dev src pfs_block_count 0 d in
    let whole : pfs_sync dev fs d ≡ written = if-true _ _ persistent ∙ if-false _ _ image_fits in
    let wrote : written.0 ≡ true = ap (λ (r : Bool × D). r.0) (sym whole) ∙ synced in
    let (img, got, bytes) =
      read_blocks-whole dev kept w src pfs_block_count 0 work written.1 blocks_fit
        (write_blocks-Holds dev kept w src pfs_block_count 0 d wrote)
        (λ p lt inside. absurd (omega arith)) in
    let all : (p : ℕ) → p < image_size → img p ≡ src p =
      λ p lt. bytes p (omega (arith, blocks_cover)) lt in
    let disk = (read_blocks dev pfs_block_count 0 work written.1).1 in
    let root = image-SameNode img fs.nodes all 0 (omega arith) (storable 0 (omega arith)) in
    record {
      loaded = loaded_fs img;
      result =
          ap (λ (x : Bool × D). (nodefs_init_instance dev true work x.1).0) whole
          ∙ ap (λ (x : Option Nodefs × D). x.0)
              (if-false _ _ image_fits
                ∙ mount_read-some dev (read_blocks dev pfs_block_count 0 work written.1) img got
                ∙ mount_image-loads dev img disk (magic_word img fs.nodes all) (root.used ∙ used)
                    (root.type ∙ dir));
      same = λ i lt. image-SameNode img fs.nodes all i lt (storable i lt);
    }
