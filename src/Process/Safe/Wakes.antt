-- ===== src/Process/Safe/Wakes.antt =====
-- Waking, sleeping, killing and orphans in src/kernel/proc/process.c, and the invariant.
use aqua_core.Prelude.{
  ℕ, zero, suc, ◌+◌, ◌≡◌, refl, Bool, true, false, ◌&&◌, arith, ◌∙◌, ap, if-cases, if◌then◌else◌,
  Bool-cases, inl, inr, ℤ, pos, le_zero, eq_int, ltb,
}
use aqua_core.Fs.Block.{BlockDev}
use aqua_core.Fs.Nodefs.{procs_max}
use aqua_core.Process.{
  Process, Kernel, State, is_unused, is_waiting, is_console_input, set_proc, exited, waiting,
  runnable, unused,
}
use aqua_core.Process.Wait.{
  wake, wake_from, wakeup_input_waiters, notify_child_exit, orphan_children, exit_target, awaits,
}
use aqua_core.Process.Safe.{IsSound, set_proc-IsSound, sync-IsSound}

waiting-used : (s : State) → is_waiting s ≡ true → is_unused s ≡ false
waiting-used unused h = cc
waiting-used runnable h = refl
waiting-used waiting h = refl
waiting-used exited h = refl

module _ {D : Type 0} (dev : BlockDev D) where
  -- A process that is used may be changed, when it keeps its pid.
  pub keep_pid-IsSound :
      (k : Kernel D) (i : ℕ) (p : Process)
      → IsSound k
      → is_unused (k.procs i).state ≡ false
      → p.pid ≡ (k.procs i).pid
      → IsSound (set_proc k i p)
  keep_pid-IsSound k i p s used same =
      set_proc-IsSound k i p s (λ lt u. same ∙ s.table.own_pid i lt used)

  pub wake-IsSound :
      (k : Kernel D) (i : ℕ)
      → IsSound k
      → is_unused (k.procs i).state ≡ false
      → IsSound (wake dev k i)
  unfolding wake
  wake-IsSound k i s used = sync-IsSound dev _ i (keep_pid-IsSound k i _ s used refl)

  wake_from-IsSound :
      (test : Process → Bool) (only : (p : Process) → test p ≡ true → is_waiting p.state ≡ true)
      (k : Kernel D) (n i : ℕ)
      → IsSound k
      → IsSound (wake_from dev test k n i)
  unfolding wake_from
  wake_from-IsSound test only k zero i s = s
  wake_from-IsSound test only k (suc n) i s =
      wake_from-IsSound test only (if test (k.procs i) then wake dev k i else k) n (i + 1) (
        if-cases IsSound (test (k.procs i)) (wake dev k i) k
          (λ e. wake-IsSound k i s (waiting-used (k.procs i).state (only (k.procs i) e))) (λ e. s))

  pub wakeup_input_waiters-IsSound :
      (k : Kernel D) → IsSound k → IsSound (wakeup_input_waiters dev k)
  unfolding wakeup_input_waiters
  wakeup_input_waiters-IsSound k s =
      wake_from-IsSound (λ p. is_waiting p.state && is_console_input p.wait_reason)
        (λ p h. ground arith) k procs_max 0 s

  pub notify_child_exit-IsSound :
      (k : Kernel D) (child : ℕ) → IsSound k → IsSound (notify_child_exit dev k child)
  unfolding notify_child_exit
  notify_child_exit-IsSound k child s = elim (Bool-cases (le_zero (k.procs child).parent_pid)) [
    | inl e ↦ rw e s
    | inr e ↦
        rw e (wake_from-IsSound (awaits (k.procs child)) (λ p h. ground (arith, h)) k procs_max 0 s)
  ]

  pub orphan_children-IsSound :
      (k : Kernel D) (parent : ℤ) → IsSound k → IsSound (orphan_children k parent)
  unfolding orphan_children
  orphan_children-IsSound k parent s = elim (Bool-cases (le_zero parent)) [
    | inl e ↦ rw e s
    | inr e ↦ rw e (record {
      valid = s.valid;
      table = record {
        own_pid = λ i lt.
            elim (Bool-cases (ltb i procs_max && eq_int (k.procs i).parent_pid parent)) [
              | inl f ↦ rw f (s.table.own_pid i lt)
              | inr f ↦ rw f (s.table.own_pid i lt)
            ];
      };
    })
  ]

  pub orphan_children-state :
      (k : Kernel D) (parent : ℤ) (i : ℕ)
      → ((orphan_children k parent).procs i).state ≡ (k.procs i).state
  unfolding orphan_children
  orphan_children-state k parent i =
      if-cases (λ (k' : Kernel D). (k'.procs i).state ≡ (k.procs i).state) (le_zero parent) k _
        (λ e. refl)
        (λ e.
          if-cases (λ (p : Process). p.state ≡ (k.procs i).state)
            (ltb i procs_max && eq_int (k.procs i).parent_pid parent)
            (record (k.procs i) { parent_pid = pos 0 }) (k.procs i) (λ f. refl) (λ f. refl))

  pub exit_target-IsSound :
      (k : Kernel D) (i : ℕ)
      → IsSound k
      → is_unused (k.procs i).state ≡ false
      → IsSound (exit_target dev k i)
  unfolding exit_target
  exit_target-IsSound k i s used =
      let pid = (k.procs i).pid in
      let orphaned = orphan_children k pid in
      let used' = ap is_unused (orphan_children-state k pid i) ∙ used in
      notify_child_exit-IsSound _ i (
        sync-IsSound dev _ i
          (keep_pid-IsSound orphaned i _ (orphan_children-IsSound k pid s) used' refl))
