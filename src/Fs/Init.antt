-- ===== src/Fs/Init.antt =====
-- `fs_init` of src/kernel/fs/fs.c: the instances are loaded or formatted, and mounted.
pub mod Boot
use aqua_core.Prelude.{
  ℕ, zero, suc, ◌+◌, ◌≤◌, ◌<◌, ◌≡◌, refl, ap, sym, subst, Bool, true, false, not, Option, none,
  some, Option-cases, inl, inr, List, [], ◌∷◌, arith, ℤ, pos, minus_one, if◌then◌else◌, ◌==◌,
  update, ◌>>=◌,
}
use aqua_core.Fs.Path.{slash}
use aqua_core.Fs.Node.{Nodefs, nodefs_format, root_node, zero_node, resolve_path}
use aqua_core.Fs.Node.Tree.{IsDir, IsTree}
use aqua_core.Fs.Block.{BlockDev, nodefs_init_instance}
use aqua_core.Fs.Nodefs.{Fd, FdTable, nodefs_mkdir}
use aqua_core.Fs.Nodefs.Keep.{Keeps}
use aqua_core.Fs.Nodefs.Safe.{nodefs_mkdir_lem}
use aqua_core.Fs.Vfs.{Fs, Mount, Console, Instance, rootfs, tmpfs, procfs, set_instance, vfs_mount}
use aqua_core.Fs.Api.{closed_fd}
use aqua_core.Fs.Valid.{IsOpenFd, IsValid}

-- All bytes 0.
abbrev pub zero_fd : Fd
zero_fd = record closed_fd { mount_idx = pos 0; node_index = pos 0 }

abbrev pub zero_mount : Mount
zero_mount = record { used = false; path = []; path_len = 0; ctx = rootfs }

abbrev pub root_path : List ℕ
root_path = slash ∷ []

-- "/tmp"
abbrev pub tmp_path : List ℕ
tmp_path = slash ∷ 116 ∷ 109 ∷ 112 ∷ []

-- "/proc"
abbrev pub proc_path : List ℕ
proc_path = slash ∷ 112 ∷ 114 ∷ 111 ∷ 99 ∷ []

module _ {D : Type 0} (dev : BlockDev D) where
  -- The state after the instances are there, and before anything is mounted.
  abbrev pub unmounted : Nodefs → Nodefs → Nodefs → Console → D → Fs D
  unmounted root tmp proc console disk =
      let instances : Instance → Nodefs =
        λ c. elim c [ rootfs ↦ root | tmpfs ↦ tmp | procfs ↦ proc ] in
      record {
        fd_table = λ p d. zero_fd;
        mounts = λ m. zero_mount;
        instances = instances;
        disk = disk;
        console = console;
      }

  -- Makes the mount point in the root's tree unless the path is there; whether that fails is ignored.
  unfoldable pub ensure_mountpoint : Fs D → List ℕ → Fs D
  ensure_mountpoint st path = elim (resolve_path (st.instances rootfs).nodes path) [
    | some k ↦ st
    | none ↦
        let (r, fs, disk) = nodefs_mkdir dev (st.instances rootfs) st.disk path in
        record st { instances = set_instance st.instances rootfs fs; disk = disk }
  ]

  -- The three mounts; none is a PANIC.
  unfoldable pub mount_all : Fs D → Option (Fs D)
  unfolding ensure_mountpoint vfs_mount
  mount_all st = do
    st1 ← vfs_mount st root_path rootfs
    st2 ← vfs_mount (ensure_mountpoint st1 tmp_path) tmp_path tmpfs
    vfs_mount (ensure_mountpoint st2 proc_path) proc_path procfs

  -- What follows the loading of the root file system.
  unfoldable pub init_volatile : (ℕ → ℕ) → Console → Option Nodefs × D → Option (Fs D)
  unfolding mount_all nodefs_init_instance
  init_volatile work_img console (none, disk1) = none
  init_volatile work_img console (some root, disk1) =
      let (tmp, disk2) = nodefs_init_instance dev false work_img disk1 in
      let (proc, disk3) = nodefs_init_instance dev false work_img disk2 in
      do t ← tmp; p ← proc; mount_all (unmounted root t p console disk3)

  -- none is a PANIC.
  unfoldable pub fs_init : (ℕ → ℕ) → Console → D → Option (Fs D)
  unfolding init_volatile nodefs_init_instance
  fs_init work_img console disk =
      init_volatile work_img console
        (nodefs_init_instance dev true work_img (dev.blockdev_init disk))
