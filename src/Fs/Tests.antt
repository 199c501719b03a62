-- ===== src/Fs/Tests.antt =====
-- The file system on a blank disk.
use aqua_core.Prelude.{
  ℕ, ◌+◌, ◌≡◌, refl, true, some, none, List, [], ◌∷◌, arith, pos, minus_one, update, length, ◌<◌,
  ◌==◌, if-cases,
}
use aqua_core.Fs.Path.{slash}
use aqua_core.Fs.Node.{
  resolve_path, Nodefs, nodefs_format, zero_node, type_file, type_dir, max_nodes, root_node, Node,
}
use aqua_core.Fs.Node.Resolve.{Walk, resolve_path_lem}
use aqua_core.Fs.Node.Tree.{IsTree, IsFile}
use aqua_core.Fs.Block.{
  BlockDev, nodefs_init_instance, read_blocks, mount_image, format_and_sync, pfs_sync, write_blocks,
  pfs_block_count,
}
use aqua_core.Commonlibs.Buffer.{memcpy}
use aqua_core.Fs.Block.Image.{IsStorable}
use aqua_core.Fs.Block.Device.{IsWorking}
use aqua_core.Fs.Block.Reload.{IsReloaded, nodefs_init_instance-pfs_sync}
use aqua_core.Fs.Data.{Buffer, nodefs_write}
use aqua_core.Fs.Data.Roundtrip.{WrittenBack, nodefs_read-nodefs_write}
use aqua_core.Fs.Vfs.{
  Fs, Mount, Console, rootfs, tmpfs, mount_max, best_mount, vfs_match_mount, match_prefix,
}
use aqua_core.Fs.Vfs.Matching.{Matches}
use aqua_core.Fs.Vfs.Longest.{BestOf, best_mount_lem}
use aqua_core.Fs.Api.{fs_mkdir, fs_close}
use aqua_core.Fs.Valid.{IsValid}
use aqua_core.Fs.Valid.Reach.{Reach, Reach-IsValid, here, next, call_mkdir, call_close}
use aqua_core.Fs.Init.{fs_init, zero_mount, root_path, tmp_path}
use aqua_core.Fs.Init.Boot.{Succeeds, nodefs_format-IsTree, fs_init_lem}

-- A disk that holds its blocks and never fails.
abbrev pub Disk : Type 0
Disk = ℕ → ℕ → ℕ

abbrev pub ram_disk : BlockDev Disk
ram_disk = record {
  blockdev_init = λ d. d;
  blockdev_read = λ d i. (some (d i), d);
  blockdev_write = λ d i block. (true, update d i block);
}

abbrev pub blank : Disk
blank = λ i k. 0

abbrev pub quiet : Console
quiet = record { input = λ i. 0; taken = 0; output = [] }

abbrev pub empty_root : Nodefs
empty_root =
    nodefs_format (record { mount_idx = minus_one; persistent = true; nodes = λ i. zero_node })

-- What the disk holds after it is formatted.
abbrev pub formatted_disk : Disk
formatted_disk = (pfs_sync ram_disk empty_root blank).1

pub load_blank :
    nodefs_init_instance ram_disk true (λ k. 0) blank ≡ (some empty_root, formatted_disk)
unfolding nodefs_init_instance read_blocks mount_image format_and_sync pfs_sync write_blocks
    nodefs_format pfs_block_count memcpy
load_blank = refl

pub empty-IsTree : IsTree empty_root.nodes
empty-IsTree =
    nodefs_format-IsTree
      (record { mount_idx = minus_one; persistent = true; nodes = λ i. zero_node })

fs_init_lem_example : Succeeds (fs_init ram_disk (λ k. 0) quiet blank)
fs_init_lem_example =
    fs_init_lem ram_disk (λ k. 0) quiet blank formatted_disk empty_root load_blank empty-IsTree

abbrev pub booted : Succeeds (fs_init ram_disk (λ k. 0) quiet blank)
booted = fs_init_lem ram_disk (λ k. 0) quiet blank formatted_disk empty_root load_blank empty-IsTree

-- "/tmp/a"
abbrev path_a : List ℕ
path_a = slash ∷ 116 ∷ 109 ∷ 112 ∷ slash ∷ 97 ∷ []

-- Process 1 makes a directory and then closes a descriptor that is not open.
abbrev after_mkdir : Fs Disk
after_mkdir = (fs_mkdir ram_disk booted.state path_a).1

abbrev after_close : Fs Disk
after_close = (fs_close after_mkdir (pos 1) (pos 3)).1

two_calls : Reach ram_disk booted.state after_close
two_calls =
    next after_mkdir after_close
      (next booted.state after_mkdir here (call_mkdir booted.state path_a))
      (call_close after_mkdir (pos 1) (pos 3))

Reach-IsValid_example : IsValid after_close
Reach-IsValid_example = Reach-IsValid ram_disk booted.state after_close booted.valid two_calls

abbrev file_a : Node
file_a = record zero_node { used = true; type = type_file; parent = pos 0; name = 97 ∷ [] }

-- An instance with the empty file 1.
abbrev one_file : Nodefs
one_file = record empty_root { nodes = update empty_root.nodes 1 file_a }

one_file_persistent : one_file.persistent ≡ true
unfolding nodefs_format
one_file_persistent = refl

root_used : (one_file.nodes 0).used ≡ true
unfolding nodefs_format
root_used = refl

root_dir : (one_file.nodes 0).type ≡ type_dir
unfolding nodefs_format
root_dir = refl

IsFile-1 : IsFile one_file.nodes 1
unfolding nodefs_format
IsFile-1 = record { positive = omega arith; bounded = omega arith; used = refl; file = refl }

abbrev hello : Buffer
hello = λ i. 104 + i

nodefs_read-nodefs_write_example :
    WrittenBack ram_disk blank 5 2 hello one_file 1
      (λ i. 0)
      (nodefs_write ram_disk one_file blank (pos 1) 2 hello 5)
nodefs_read-nodefs_write_example =
    nodefs_read-nodefs_write ram_disk one_file blank 1 2 5 hello (λ i. 0) IsFile-1 (omega arith)

-- The root mount, and one at /tmp.
abbrev two_mounts : ℕ → Mount
two_mounts =
    update
      (update (λ m. zero_mount) 0
        (record { used = true; path = root_path; path_len = length root_path; ctx = rootfs }))
      1 (record { used = true; path = tmp_path; path_len = length tmp_path; ctx = tmpfs })

best_mount_lem_example :
    BestOf
      (Matches two_mounts path_a)
      two_mounts
      mount_max
      (best_mount two_mounts path_a mount_max 0 none)
best_mount_lem_example = best_mount_lem two_mounts path_a

-- "/tmp/a" belongs to the mount at /tmp.
chosen_mount : best_mount two_mounts path_a mount_max 0 none ≡ some 1
unfolding best_mount vfs_match_mount match_prefix
chosen_mount = refl

-- "/a" in the instance with one file.
resolve_path_lem_example :
    Walk one_file.nodes 0 (slash ∷ 97 ∷ []) (resolve_path one_file.nodes (slash ∷ 97 ∷ []))
resolve_path_lem_example = resolve_path_lem one_file.nodes (slash ∷ 97 ∷ []) refl

ram_disk-IsWorking : IsWorking ram_disk (λ d. d)
ram_disk-IsWorking = record {
  writes = λ d i block k lt h. ground arith;
  leaves = λ d i j block k ne. ground arith;
  reads = λ d i lt. (d i, refl, λ k lt'. refl);
  reading = λ d i j k. refl;
}

zero_node-IsStorable : IsStorable zero_node
zero_node-IsStorable = record {
  type = omega arith;
  parent = omega arith;
  name = tt;
  short = omega arith;
  size = omega arith;
}

root_node-IsStorable : IsStorable root_node
root_node-IsStorable = record {
  type = omega arith;
  parent = omega arith;
  name = (ground arith, tt);
  short = omega arith;
  size = omega arith;
}

file_a-IsStorable : IsStorable file_a
file_a-IsStorable = record {
  type = omega arith;
  parent = omega arith;
  name = (ground arith, tt);
  short = omega arith;
  size = omega arith;
}

one_file-IsStorable : (i : ℕ) → i < max_nodes → IsStorable (one_file.nodes i)
unfolding nodefs_format
one_file-IsStorable i lt =
    if-cases IsStorable (1 == i) _ _ (λ e. file_a-IsStorable)
      (λ ne.
        if-cases IsStorable (0 == i) _ _ (λ e. root_node-IsStorable)
          (λ other. zero_node-IsStorable))

one_file_synced : (pfs_sync ram_disk one_file blank).0 ≡ true
unfolding pfs_sync write_blocks pfs_block_count nodefs_format
one_file_synced = refl

nodefs_init_instance-pfs_sync_example :
    IsReloaded one_file
      (nodefs_init_instance ram_disk true (λ k. 0) (pfs_sync ram_disk one_file blank).1)
nodefs_init_instance-pfs_sync_example =
    nodefs_init_instance-pfs_sync ram_disk (λ d. d) one_file blank (λ k. 0) ram_disk-IsWorking
      one_file_persistent one_file-IsStorable root_used root_dir one_file_synced
