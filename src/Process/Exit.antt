-- ===== src/Process/Exit.antt =====
-- `syscall_handle_exit` and `syscall_handle_clone` of src/kernel/trap/syscall_process.c. The image of an
-- app, which `resolve_app_image` finds, is an argument.
use aqua_core.Prelude.{ℕ, Option, none, some, List, if◌then◌else◌, ℤ, minus_one}
use aqua_core.Commonlibs.Text.{codes}
use aqua_core.Fs.Block.{BlockDev}
use aqua_core.Memory.{Outcome, ok, ◌>>=◌}
use aqua_core.Process.{Kernel, exited, no_wait, set_proc}
use aqua_core.Process.Procfs.{procfs_sync_process, reported}
use aqua_core.Process.Space.{Layout}
use aqua_core.Process.Create.{create_process}
use aqua_core.Process.Wait.{orphan_children, notify_child_exit, is_init}

-- An exit yields, and the kernel is shut down after the exit of the init process.
pub data Exit (D : Type 0) : Type 0 where
  shutdown : Kernel D → Exit D
  exit_yields : Kernel D → Exit D

module _ {D : Type 0} (dev : BlockDev D) where
  -- The current process has exited, and its file in /proc says so.
  unfoldable pub exit_synced : Kernel D → ℕ → Kernel D
  exit_synced k c =
      let p = record (k.procs c) { state = exited; wait_reason = no_wait; wait_pid = minus_one } in
      record (set_proc k c p) {
        fs = reported (codes "procfs sync failed\n") (procfs_sync_process dev k.fs p);
      }

  unfoldable pub syscall_handle_exit : Kernel D → Exit D
  unfolding exit_synced orphan_children notify_child_exit
  syscall_handle_exit k =
      let c = k.current_proc in
      if is_init k c
      then shutdown (exit_synced k c)
      else exit_yields (notify_child_exit dev (exit_synced (orphan_children k (k.procs c).pid) c) c)

  -- The new process gets its parent after it has been created; -1 is no process.
  unfoldable pub set_parent : Option ℕ × Kernel D → ℤ × Kernel D
  set_parent (none, k) = (minus_one, k)
  set_parent (some i, k) =
      let p = record (k.procs i) { parent_pid = (k.procs k.current_proc).pid } in
      ((k.procs i).pid, set_proc k i p)

  unfoldable pub syscall_handle_clone :
      Layout → Option ((ℕ → ℕ) × ℕ × List ℕ) → Kernel D → Outcome (ℤ × Kernel D)
  unfolding set_parent
  syscall_handle_clone layout none k = ok (minus_one, k)
  syscall_handle_clone layout (some (image, image_size, name)) k =
      create_process dev layout image image_size name k >>= λ r. ok (set_parent r)
