-- ===== src/Process/Wait.antt =====
-- Waiting for children, waking up and killing in src/kernel/proc/process.c.
pub mod Wake
pub mod Exits
pub mod Child
use aqua_core.Prelude.{
  ℕ, zero, suc, ◌+◌, ◌≡◌, Bool, true, false, not, ◌&&◌, ◌||◌, Option, none, some, List, ◌==◌,
  if◌then◌else◌, ℤ, pos, negsuc, minus_one, eq_int, le_zero, update, find_from, any_from, ltb,
}
use aqua_core.Fs.Block.{BlockDev}
use aqua_core.Fs.Nodefs.{procs_max}
use aqua_core.Memory.{Outcome, ok, panic, ◌>>=◌, killed_resumed}
use aqua_core.Process.{
  Process, Kernel, State, WaitReason, exited, waiting, runnable, no_wait, child_exit, is_waiting,
  is_exited, is_unused, is_console_input, is_child_exit, set_proc, find_process_by_pid,
}
use aqua_core.Process.Procfs.{procfs_sync_best_effort}
use aqua_core.Process.Slots.{recycle_process_slot}

-- A round of the loop in `wait_for_child_exit`: it returns a pid or -1, or the current process is
-- blocked and yields; the next round follows when it runs again.
pub data Waited (D : Type 0) : Type 0 where
  returned : ℤ → Kernel D → Waited D
  blocked : Kernel D → Waited D

-- The result of `process_kill`. A process that kills itself yields, and the kernel would stop with a
-- PANIC if it ran again.
pub data Killed (D : Type 0) : Type 0 where
  refused : ℤ → Killed D
  killed : ℤ → Kernel D → Killed D
  killed_self : Kernel D → Killed D

-- Process p waits for the exit of the child.
abbrev pub awaits : Process → Process → Bool
awaits child p =
    eq_int p.pid child.parent_pid
    && (is_waiting p.state
        && (is_child_exit p.wait_reason
            && (eq_int p.wait_pid minus_one || eq_int p.wait_pid child.pid)))

abbrev pub is_child : Process → ℤ → ℤ → Bool
is_child p parent_pid target_pid =
    not (is_unused p.state)
    && (eq_int p.parent_pid parent_pid && (eq_int target_pid minus_one || eq_int p.pid target_pid))

module _ {D : Type 0} where
  unfoldable pub orphan_children : Kernel D → ℤ → Kernel D
  orphan_children k parent_pid =
      if le_zero parent_pid
      then k
      else (let procs : ℕ → Process = λ i.
            if (ltb i procs_max && eq_int (k.procs i).parent_pid parent_pid)
            then record (k.procs i) { parent_pid = pos 0 }
            else k.procs i in
          record k { procs = procs })

  -- The search of `wait_for_child_exit`: the first exited child, and whether a child was seen.
  unfoldable pub exited_child : Kernel D → ℤ → ℤ → Option ℕ
  exited_child k parent_pid target_pid =
      find_from (λ i. is_child (k.procs i) parent_pid target_pid && is_exited (k.procs i).state)
        procs_max 0

  unfoldable pub has_child : Kernel D → ℤ → ℤ → Bool
  has_child k parent_pid target_pid =
      any_from (λ i. is_child (k.procs i) parent_pid target_pid) procs_max 0

  abbrev pub orphaned : Kernel D → ℕ → Kernel D
  orphaned k i = set_proc k i (record (k.procs i) { parent_pid = pos 0 })

  abbrev pub is_init : Kernel D → ℕ → Bool
  is_init k i = elim k.init_proc [ none ↦ false | some j ↦ i == j ]

module _ {D : Type 0} (dev : BlockDev D) where
  -- Makes the process of slot i runnable.
  unfoldable pub wake : Kernel D → ℕ → Kernel D
  unfolding procfs_sync_best_effort
  wake k i =
      let p = record (k.procs i) {
        state = runnable;
        wait_reason = no_wait;
        wait_pid = minus_one;
      } in
      procfs_sync_best_effort dev (set_proc k i p) i

  -- The loops of `wakeup_input_waiters` and `notify_child_exit` wake the slots that pass a test.
  unfoldable pub wake_from : (Process → Bool) → Kernel D → ℕ → ℕ → Kernel D
  unfolding wake
  wake_from test k zero i = k
  wake_from test k (suc n) i = wake_from test (if test (k.procs i) then wake k i else k) n (i + 1)

  unfoldable pub wakeup_input_waiters : Kernel D → Kernel D
  unfolding wake_from
  wakeup_input_waiters k =
      wake_from (λ p. is_waiting p.state && is_console_input p.wait_reason) k procs_max 0

  unfoldable pub notify_child_exit : Kernel D → ℕ → Kernel D
  unfolding wake_from
  notify_child_exit k child =
      if le_zero (k.procs child).parent_pid
      then k
      else wake_from (awaits (k.procs child)) k procs_max 0

  unfoldable pub wait_for_child_exit : Kernel D → ℤ → ℤ → Outcome (Waited D)
  unfolding exited_child has_child recycle_process_slot procfs_sync_best_effort
  wait_for_child_exit k parent_pid target_pid =
      let c = k.current_proc in
      let p = record (k.procs c) {
        wait_reason = child_exit;
        wait_pid = target_pid;
        state = waiting;
      } in
      if le_zero parent_pid
      then ok (returned minus_one k)
      else elim (exited_child k parent_pid target_pid) [
        | some i ↦ recycle_process_slot dev k i >>= λ k'. ok (returned (k.procs i).pid k')
        | none ↦
            if has_child k parent_pid target_pid
            then ok (blocked (procfs_sync_best_effort dev (set_proc k c p) c))
            else ok (returned minus_one k)
      ]

  -- The target has exited, its children have no parent, and its parent is told.
  unfoldable pub exit_target : Kernel D → ℕ → Kernel D
  unfolding orphan_children procfs_sync_best_effort notify_child_exit
  exit_target k i =
      let k1 = orphan_children k (k.procs i).pid in
      let p = record (k1.procs i) { state = exited; wait_reason = no_wait; wait_pid = minus_one } in
      notify_child_exit (procfs_sync_best_effort dev (set_proc k1 i p) i) i

  unfoldable pub process_kill : Kernel D → ℤ → Outcome (Killed D)
  unfolding exit_target recycle_process_slot
  process_kill k target_pid =
      if le_zero target_pid
      then ok (refused (negsuc 0))
      else elim (find_process_by_pid k target_pid) [
        | none ↦ ok (refused (negsuc 1))
        | some i ↦
            let after = orphaned (exit_target k i) i in
            if is_exited (k.procs i).state
            then ok (refused (negsuc 1))
            else if is_init k i
            then ok (refused (negsuc 2))
            else if i == k.current_proc
            then ok (killed_self after)
            else (recycle_process_slot dev after i >>= λ k'. ok (killed (k.procs i).pid k'))
      ]
