-- ===== src/Process/Fork.antt =====
-- `process_fork` of src/kernel/proc/process.c. The child's stack, from which it returns to the user's
-- program with 0, is not modelled.
use aqua_core.Prelude.{
  ℕ, Bool, false, ◌||◌, Option, none, some, ◌==◌, if◌then◌else◌, ℤ, pos, minus_one,
}
use aqua_core.Commonlibs.Text.{strcpy_s}
use aqua_core.Fs.Block.{BlockDev}
use aqua_core.Fs.Vfs.{Fs, path_max}
use aqua_core.Fs.Api.{fs_fork_copy_fds}
use aqua_core.Memory.{Outcome, ok, ◌>>=◌, alloc_pages}
use aqua_core.Process.{
  Process, Kernel, runnable, is_runnable, is_waiting, proc_name_max, time_slice_ticks, set_proc,
}
use aqua_core.Process.Procfs.{procfs_sync_best_effort}
use aqua_core.Process.Space.{Layout, map_kernel, copy_user_pages}
use aqua_core.Process.Slots.{recycle_process_slot, alloc_proc_slot}

-- The child with what it takes over from its parent.
abbrev pub inherited : Process → Process → Process
inherited parent child = record child {
  parent_pid = parent.pid;
  name = strcpy_s child.name proc_name_max parent.name;
  ipc_has_message = false;
  ipc_from_pid = pos 0;
  ipc_message = 0;
  exec_argc = parent.exec_argc;
  exec_argv = parent.exec_argv;
  root_mount_idx = parent.root_mount_idx;
  root_node_idx = parent.root_node_idx;
  root_path = strcpy_s child.root_path path_max parent.root_path;
  cwd_mount_idx = parent.cwd_mount_idx;
  cwd_node_idx = parent.cwd_node_idx;
  cwd_path = strcpy_s child.cwd_path path_max parent.cwd_path;
}

-- The child when it can run.
abbrev pub finalized : Process → Process
finalized child = record child {
  state = runnable;
  time_slice = time_slice_ticks;
  run_ticks = 0;
  schedule_count = 0;
}

module _ {D : Type 0} (dev : BlockDev D) (layout : Layout) where
  -- The label `fail`.
  unfoldable pub fork_failed : Kernel D → ℕ → Outcome (ℤ × Kernel D)
  fork_failed k c = recycle_process_slot dev k c >>= λ k'. ok (minus_one, k')

  -- The child's address space, a copy of the parent's; false is a jump to `fail`.
  unfoldable pub fork_space : Kernel D → ℕ → Outcome (Bool × Kernel D)
  fork_space k c =
      let parent = k.procs k.current_proc in
      alloc_pages 1 k.memory >>= λ (page_table, m).
      if page_table == 0
      then ok (false, record k { memory = m })
      else (map_kernel layout page_table m
          >>= copy_user_pages parent.page_table page_table 0 parent.user_pages
          >>= λ (copied, m').
              let child = record (k.procs c) {
                page_table = page_table;
                user_pages = parent.user_pages;
              } in
              ok (copied, set_proc (record k { memory = m' }) c child))

  -- The end of the fork, after the descriptors have been copied, or not.
  unfoldable pub fork_finish : ℕ → Kernel D → Option (Unit {0}) × Fs D → Outcome (ℤ × Kernel D)
  unfolding fork_failed
  fork_finish c k (none, fs) = fork_failed (record k { fs = fs }) c
  fork_finish c k (some u, fs) =
      let child = k.procs c in
      let k' = set_proc (record k { fs = fs }) c (finalized child) in
      ok (child.pid, procfs_sync_best_effort dev k' c)

  unfoldable pub fork_fds : Kernel D → ℕ → Outcome (ℤ × Kernel D)
  unfolding fork_finish
  fork_fds k c =
      fork_finish c k (fs_fork_copy_fds k.fs (k.procs k.current_proc).pid (k.procs c).pid)

  unfoldable pub fork_into : Kernel D → ℕ → Outcome (ℤ × Kernel D)
  unfolding fork_failed fork_space fork_fds
  fork_into k c =
      let parent = k.procs k.current_proc in
      if is_runnable parent.state || is_waiting parent.state
      then (fork_space (set_proc k c (inherited parent (k.procs c))) c >>= λ (copied, k').
          if copied then fork_fds k' c else fork_failed k' c)
      else fork_failed k c

  unfoldable pub fork_slot : Option ℕ × Kernel D → Outcome (ℤ × Kernel D)
  unfolding fork_into
  fork_slot (none, k) = ok (minus_one, k)
  fork_slot (some c, k) = fork_into k c

  -- The child's pid, or -1.
  unfoldable pub process_fork : Kernel D → Outcome (ℤ × Kernel D)
  unfolding fork_slot
  process_fork k = alloc_proc_slot dev k >>= fork_slot
