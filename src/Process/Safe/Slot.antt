-- ===== src/Process/Safe/Slot.antt =====
-- Giving back and taking slots in src/kernel/proc/process.c, and the invariant.
use aqua_core.Prelude.{
  ℕ, zero, suc, ◌+◌, ◌≡◌, ◌&&◌, Option, none, some, arith, if-cases, if◌then◌else◌, pos, eq_int,
}
use aqua_core.Fs.Block.{BlockDev}
use aqua_core.Fs.Nodefs.{procs_max}
use aqua_core.Memory.{ok}
use aqua_core.Process.{Kernel, is_exited}
use aqua_core.Process.Procfs.Safe.{close_process-IsValid}
use aqua_core.Process.Space.{free_process_memory}
use aqua_core.Process.Slots.{
  recycle_process_slot, recycled, reap_from, reap_exited_processes, alloc_proc_slot, take_slot,
  free_slot,
}
use aqua_core.Process.Table.{update-IsTable}
use aqua_core.Process.Safe.{WhenOk, bind-WhenOk, then-WhenOk, IsSound, set_proc-IsSound}

module _ {D : Type 0} (dev : BlockDev D) where
  pub recycle_process_slot-IsSound :
      (k : Kernel D) (i : ℕ) → IsSound k → WhenOk IsSound (recycle_process_slot dev k i)
  unfolding recycle_process_slot
  recycle_process_slot-IsSound k i s =
      then-WhenOk IsSound (free_process_memory (k.procs i) k.memory) _ (λ (p, m). record {
        valid = close_process-IsValid dev k.fs (k.procs i) s.valid;
        table = update-IsTable k.procs i (recycled p) s.table (λ lt used. cc);
      })

  reap_from-IsSound : (k : Kernel D) (i n : ℕ) → IsSound k → WhenOk IsSound (reap_from dev k i n)
  unfolding reap_from
  reap_from-IsSound k i zero s = s
  reap_from-IsSound k i (suc n) s =
      let reaped = is_exited (k.procs i).state && eq_int (k.procs i).parent_pid (pos 0) in
      bind-WhenOk IsSound IsSound (if reaped then recycle_process_slot dev k i else ok k)
        (λ k'. reap_from dev k' (i + 1) n)
        (if-cases (WhenOk IsSound) reaped _ _ (λ e. recycle_process_slot-IsSound k i s) (λ e. s))
        (λ k' s'. reap_from-IsSound k' (i + 1) n s')

  pub reap_exited_processes-IsSound :
      (k : Kernel D) → IsSound k → WhenOk IsSound (reap_exited_processes dev k)
  unfolding reap_exited_processes
  reap_exited_processes-IsSound k s = reap_from-IsSound k 0 procs_max s

  -- A slot that is taken has its own index as pid.
  pub record IsTaken (r : Option ℕ × Kernel D) : Type 0 where
    pub sound : IsSound r.1
    pub own_pid : (i : ℕ) → r.0 ≡ some i → (r.1.procs i).pid ≡ pos i

  take_slot-IsTaken : (k : Kernel D) (slot : Option ℕ) → IsSound k → IsTaken (take_slot k slot)
  unfolding take_slot
  take_slot-IsTaken k none s = record { sound = s; own_pid = λ i h. cc }
  take_slot-IsTaken k (some i) s = record {
    sound = set_proc-IsSound k i _ s (λ lt used. cc);
    own_pid = λ j h. ground arith;
  }

  pub alloc_proc_slot-IsTaken : (k : Kernel D) → IsSound k → WhenOk IsTaken (alloc_proc_slot dev k)
  unfolding alloc_proc_slot
  alloc_proc_slot-IsTaken k s =
      bind-WhenOk IsSound IsTaken (reap_exited_processes dev k) _
        (reap_exited_processes-IsSound k s) (λ k' s'. take_slot-IsTaken k' (free_slot k') s')
