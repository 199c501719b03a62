-- ===== src/Process/Slots.antt =====
-- The slots of the process table in src/kernel/proc/process.c: how they are given back and taken.
use aqua_core.Prelude.{
  ℕ, zero, suc, ◌+◌, ◌&&◌, false, Option, none, some, [], if◌then◌else◌, pos, minus_one, eq_int,
  find_from,
}
use aqua_core.Commonlibs.Text.{codes}
use aqua_core.Fs.Block.{BlockDev}
use aqua_core.Fs.Nodefs.{procs_max}
use aqua_core.Fs.Vfs.{Fs}
use aqua_core.Fs.Api.{fs_on_process_recycle}
use aqua_core.Memory.{Outcome, ok, ◌>>=◌}
use aqua_core.Process.{
  Process, Kernel, unused, is_unused, is_exited, no_wait, time_slice_ticks, set_process_name,
  clear_exec_args, set_proc,
}
use aqua_core.Process.Procfs.{procfs_cleanup, reported}
use aqua_core.Process.Space.{free_process_memory}

-- The process after its slot is given back.
abbrev pub recycled : Process → Process
recycled p = record (clear_exec_args (set_process_name p [])) {
  state = unused;
  wait_reason = no_wait;
  wait_pid = minus_one;
  parent_pid = pos 0;
  pid = pos 0;
  time_slice = time_slice_ticks;
  run_ticks = 0;
  schedule_count = 0;
  ipc_has_message = false;
  ipc_from_pid = pos 0;
  ipc_message = 0;
}

-- The process that `alloc_proc_slot` leaves in slot i.
abbrev pub fresh : Process → ℕ → Process
fresh p i = record (clear_exec_args p) {
  pid = pos i;
  state = unused;
  wait_reason = no_wait;
  wait_pid = minus_one;
  parent_pid = pos 0;
}

module _ {D : Type 0} where
  -- The first slot that is not used.
  abbrev pub free_slot : Kernel D → Option ℕ
  free_slot k = find_from (λ i. is_unused (k.procs i).state) procs_max 0

  -- The process that `alloc_proc_slot` initializes in the slot that it found.
  unfoldable pub take_slot : Kernel D → Option ℕ → Option ℕ × Kernel D
  take_slot k none = (none, k)
  take_slot k (some i) = (some i, set_proc k i (fresh (k.procs i) i))

module _ {D : Type 0} (dev : BlockDev D) where
  -- The files of the process and its descriptors are given up.
  unfoldable pub close_process : Fs D → Process → Fs D
  close_process st p =
      fs_on_process_recycle (reported (codes "procfs cleanup failed\n") (procfs_cleanup dev st p))
        p.pid

  unfoldable pub recycle_process_slot : Kernel D → ℕ → Outcome (Kernel D)
  unfolding close_process
  recycle_process_slot k i = free_process_memory (k.procs i) k.memory >>= λ (p, memory).
      ok (
        set_proc (record k { fs = close_process k.fs (k.procs i); memory = memory }) i (recycled p))

  -- The loop of `reap_exited_processes`, from slot i on.
  unfoldable pub reap_from : Kernel D → ℕ → ℕ → Outcome (Kernel D)
  reap_from k i zero = ok k
  reap_from k i (suc n) =
      (if is_exited (k.procs i).state && eq_int (k.procs i).parent_pid (pos 0)
        then recycle_process_slot k i
        else ok k)
      >>= λ k'. reap_from k' (i + 1) n

  unfoldable pub reap_exited_processes : Kernel D → Outcome (Kernel D)
  unfolding reap_from
  reap_exited_processes k = reap_from k 0 procs_max

  -- The slot, or none for NULL.
  unfoldable pub alloc_proc_slot : Kernel D → Outcome (Option ℕ × Kernel D)
  unfolding reap_exited_processes
  alloc_proc_slot k = reap_exited_processes k >>= λ k'. ok (take_slot k' (free_slot k'))
