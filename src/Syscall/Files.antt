-- ===== src/Syscall/Files.antt =====
-- src/kernel/trap/syscall_fs.c.
use aqua_core.Prelude.{ℕ, Option, none, some, List, [], ℤ, pos, minus_one}
use aqua_core.Commonlibs.Text.{codes, strcpy_s}
use aqua_core.Fs.Block.{BlockDev}
use aqua_core.Fs.Data.{Buffer, Dirent}
use aqua_core.Fs.Api.{
  fs_open, fs_close, fs_read, fs_write, fs_mkdir, fs_unlink, fs_rmdir, fs_dup2, fs_readdir,
  fs_get_path_entry,
}
use aqua_core.Process.{Kernel, set_proc}
use aqua_core.Process.Procfs.{procfs_sync_process, reported}
use aqua_core.Syscall.{a0_number, a0_done}

abbrev pub path_max : ℕ
path_max = 64

-- What is stored at `out`.
abbrev pub a0_entry : Option Dirent → ℤ × Option Dirent
a0_entry none = (minus_one, none)
a0_entry (some entry) = (pos 0, some entry)

module _ {D : Type 0} where
  abbrev pub current_pid : Kernel D → ℤ
  current_pid k = (k.procs k.current_proc).pid

  unfoldable pub syscall_handle_close : Kernel D → ℤ → ℤ × Kernel D
  syscall_handle_close k fd =
      let (r, st) = fs_close k.fs (current_pid k) fd in (a0_done r, record k { fs = st })

  -- NULL is refused here, or by `fs_read` where the size is 0.
  unfoldable pub syscall_handle_read :
      Kernel D → ℤ → Option Buffer → ℕ → ℤ × Kernel D × Option Buffer
  syscall_handle_read k fd none size = (minus_one, k, none)
  syscall_handle_read k fd (some buf) size =
      let (r, st, buf') = fs_read k.fs (current_pid k) fd buf size in
      (a0_number r, record k { fs = st }, some buf')

  unfoldable pub syscall_handle_dup2 : Kernel D → ℤ → ℤ → ℤ × Kernel D
  syscall_handle_dup2 k fd1 fd2 =
      let (r, st) = fs_dup2 k.fs (current_pid k) fd1 fd2 in (a0_number r, record k { fs = st })

  -- The pointer `out` is not NULL.
  unfoldable pub syscall_handle_readdir : Kernel D → Option (List ℕ) → ℤ → ℤ × Option Dirent
  syscall_handle_readdir k none index = (minus_one, none)
  syscall_handle_readdir k (some path) index = a0_entry (fs_readdir k.fs path index)

  -- What is stored at the pointer, which is not NULL.
  unfoldable pub syscall_handle_getcwd : Kernel D → ℤ × List ℕ
  syscall_handle_getcwd k = (pos 0, strcpy_s [] path_max (k.procs k.current_proc).cwd_path)

module _ {D : Type 0} (dev : BlockDev D) where
  unfoldable pub syscall_handle_open : Kernel D → Option (List ℕ) → ℕ → ℤ × Kernel D
  syscall_handle_open k none flags = (minus_one, k)
  syscall_handle_open k (some path) flags =
      let (r, st) = fs_open dev k.fs (current_pid k) path flags in
      (a0_number r, record k { fs = st })

  unfoldable pub syscall_handle_write : Kernel D → ℤ → Option Buffer → ℕ → ℤ × Kernel D
  syscall_handle_write k fd none size = (minus_one, k)
  syscall_handle_write k fd (some buf) size =
      let (r, st) = fs_write dev k.fs (current_pid k) fd buf size in
      (a0_number r, record k { fs = st })

  unfoldable pub syscall_handle_mkdir : Kernel D → Option (List ℕ) → ℤ × Kernel D
  syscall_handle_mkdir k none = (minus_one, k)
  syscall_handle_mkdir k (some path) =
      let (r, st) = fs_mkdir dev k.fs path in (a0_done r, record k { fs = st })

  unfoldable pub syscall_handle_unlink : Kernel D → Option (List ℕ) → ℤ × Kernel D
  syscall_handle_unlink k none = (minus_one, k)
  syscall_handle_unlink k (some path) =
      let (r, st) = fs_unlink dev k.fs path in (a0_done r, record k { fs = st })

  unfoldable pub syscall_handle_rmdir : Kernel D → Option (List ℕ) → ℤ × Kernel D
  syscall_handle_rmdir k none = (minus_one, k)
  syscall_handle_rmdir k (some path) =
      let (r, st) = fs_rmdir dev k.fs path in (a0_done r, record k { fs = st })

  -- What `chdir` does with the entry that it has found.
  unfoldable pub moved_to : Kernel D → List ℕ → Option (ℤ × ℕ) → ℤ × Kernel D
  moved_to k path none = (minus_one, k)
  moved_to k path (some (mount_idx, node_idx)) =
      let c = k.current_proc in
      let p = record (k.procs c) {
        cwd_mount_idx = mount_idx;
        cwd_node_idx = node_idx;
        cwd_path = strcpy_s (k.procs c).cwd_path path_max path;
      } in
      (
        pos 0,
        record (set_proc k c p) {
          fs = reported (codes "procfs sync failed\n") (procfs_sync_process dev k.fs p);
        },
      )

  unfoldable pub syscall_handle_chdir : Kernel D → Option (List ℕ) → ℤ × Kernel D
  unfolding moved_to
  syscall_handle_chdir k none = (minus_one, k)
  syscall_handle_chdir k (some user_path) =
      let path = strcpy_s [] path_max user_path in moved_to k path (fs_get_path_entry k.fs path)
