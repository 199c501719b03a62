-- ===== src/Process/Wait/Child.antt =====
-- What `wait_for_child_exit` of src/kernel/proc/process.c returns, and who wakes a waiting parent.
use aqua_core.Prelude.{
  ℕ, ◌<◌, ◌≡◌, ◌≢◌, Bool, true, false, ◌&&◌, some, if◌then◌else◌, ℤ, minus_one, le_zero,
}
use aqua_core.Fs.Block.{BlockDev}
use aqua_core.Fs.Nodefs.{procs_max}
use aqua_core.Memory.{Outcome, ok}
use aqua_core.Process.{
  Process, Kernel, is_unused, is_exited, set_proc, waiting, child_exit, find_process_by_pid,
}
use aqua_core.Process.Procfs.{procfs_sync_best_effort}
use aqua_core.Process.Exit.{syscall_handle_exit}
use aqua_core.Process.Wait.{Waited, returned, blocked, has_child, is_child, process_kill}
use aqua_core.Process.Wait.Exits.{AfterExit, AfterKill}
use aqua_core.Process.Safe.{WhenOk}

module _ {D : Type 0} (dev : BlockDev D) (k : Kernel D) (parent target : ℤ) where
  -- Process p is one that this call waits for.
  abbrev is_awaited : ℕ → Bool
  is_awaited i = is_child (k.procs i) parent target

  -- The ways in which the process of slot `child` exits make the waiting one runnable: its own call of
  -- `syscall_handle_exit`, unless that shuts the kernel down, and a `process_kill` of it that is not
  -- refused.
  pub record ExitWakes (later : Kernel D) (child : ℕ) : Type 0 where
    pub by_exit :
        later.current_proc ≡ child
        → AfterExit dev later child k.current_proc parent target (syscall_handle_exit dev later)
    pub by_kill :
        (pid : ℤ)
        → le_zero pid ≡ false
        → find_process_by_pid later pid ≡ some child
        → WhenOk
            (AfterKill dev later child k.current_proc parent target)
            (process_kill dev later pid)

  -- What a round of the call comes to.
  pub data WaitEnds : Waited D → Type 0 where
    -- An exited child is collected: its slot is free again.
    reaped :
        (i : ℕ) (k' : Kernel D)
        → i < procs_max
        → is_awaited i ≡ true
        → is_exited (k.procs i).state ≡ true
        → is_unused (k'.procs i).state ≡ true
        → WaitEnds (returned (k.procs i).pid k')
    no_child : ((i : ℕ) → i < procs_max → is_awaited i ≡ false) → WaitEnds (returned minus_one k)
    -- There are children, but none has exited. In any later kernel in which the parent still sleeps,
    -- the exit of an awaited child, which has a pid of its own, makes it runnable.
    sleeps :
        (k' : Kernel D) (i : ℕ)
        → i < procs_max
        → is_awaited i ≡ true
        → ((j : ℕ) → j < procs_max → (is_awaited j && is_exited (k.procs j).state) ≡ false)
        → ((later : Kernel D) (child : ℕ)
            → later.procs k.current_proc ≡ k'.procs k.current_proc
            → is_child (later.procs child) parent target ≡ true
            → (later.procs child).pid ≢ parent
            → ExitWakes later child)
        → WaitEnds (blocked k')

  -- The parent as it sleeps.
  abbrev asleep : Process → Process
  asleep p = record p { wait_reason = child_exit; wait_pid = target; state = waiting }

  -- The part of a round in which no child has exited.
  abbrev no_exited : Outcome (Waited D)
  no_exited =
      let c = k.current_proc in
      if has_child k parent target
      then ok (blocked (procfs_sync_best_effort dev (set_proc k c (asleep (k.procs c))) c))
      else ok (returned minus_one k)
