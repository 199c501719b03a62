-- ===== src/Process/Sched.antt =====
-- The scheduler of src/kernel/proc/process.c: the timer tick and `yield`.
pub mod Next
pub mod Current
use aqua_core.Prelude.{
  ℕ, ◌+◌, ◌-◌, ◌%◌, Bool, true, false, not, ◌&&◌, ◌||◌, Option, none, some, ◌==◌, if◌then◌else◌,
  pos, negsuc, le_zero, find_from, add32,
}
use aqua_core.Fs.Block.{BlockDev}
use aqua_core.Fs.Nodefs.{procs_max}
use aqua_core.Memory.{Outcome, ok, panic, ◌>>=◌}
use aqua_core.Process.{Process, Kernel, time_slice_ticks, is_runnable, set_proc}
use aqua_core.Process.Slots.{reap_exited_processes}

-- What one round of the loop in `yield` does: it waits for an interrupt and tries again, returns to
-- the current process, or switches from the current process to another one.
pub data Yielded (D : Type 0) : Type 0 where
  wait_for_interrupt resumed : Kernel D → Yielded D
  switched : (prev next : ℕ) → Kernel D → Yielded D

module _ {D : Type 0} where
  unfoldable pub scheduler_on_timer_tick : Kernel D → Kernel D
  scheduler_on_timer_tick k =
      let p = k.procs k.current_proc in
      let slice = p.time_slice - 1 in
      let p' = record p { run_ticks = add32 p.run_ticks 1; time_slice = slice } in
      let k' = set_proc k k.current_proc p' in
      if not (is_runnable p.state) || le_zero p.pid
      then k
      else if slice == 0
      then record k' { need_resched = true }
      else k'

  unfoldable pub scheduler_should_yield : Kernel D → Bool
  scheduler_should_yield k = k.need_resched

  -- The slot that round i of the search in `yield` looks at. A pid of a current process is not negative.
  abbrev pub slot_at : Kernel D → ℕ → ℕ
  slot_at k i = elim (k.procs k.current_proc).pid [ pos n ↦ (n + i) % procs_max | negsuc n ↦ 0 ]

  abbrev pub can_run : Kernel D → ℕ → Bool
  can_run k i = is_runnable (k.procs i).state && not (le_zero (k.procs i).pid)

  -- The search for the next process.
  unfoldable pub pick_next : Kernel D → Option ℕ
  pick_next k = elim (find_from (λ i. can_run k (slot_at k i)) procs_max 0) [
    | none ↦ none
    | some i ↦ some (slot_at k i)
  ]

  abbrev pub run_next : Kernel D → ℕ → Yielded D
  run_next k next =
      let p = k.procs next in
      let slice = if p.time_slice == 0 then time_slice_ticks else p.time_slice in
      let renewed = set_proc k next (record p { time_slice = slice }) in
      let entered =
        set_proc k next
          (record p { time_slice = time_slice_ticks; schedule_count = add32 p.schedule_count 1 }) in
      if next == k.current_proc
      then resumed (record renewed { need_resched = false })
      else switched k.current_proc next
          (record entered { need_resched = false; current_proc = next })

  unfoldable pub enter : Kernel D → Option ℕ → Yielded D
  enter k none = wait_for_interrupt k
  enter k (some next) = run_next k next

  unfoldable pub yield_round : Kernel D → Yielded D
  unfolding enter
  yield_round k = enter k (pick_next k)

  -- `yield` up to its first round; an interrupt may come before the next one.
  unfoldable pub yield_once : BlockDev D → Kernel D → Outcome (Yielded D)
  unfolding yield_round reap_exited_processes
  yield_once dev k = reap_exited_processes dev k >>= λ k'. ok (yield_round k')
