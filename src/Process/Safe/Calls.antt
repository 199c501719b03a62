-- ===== src/Process/Safe/Calls.antt =====
-- Waiting, killing, messages and scheduling in src/kernel/proc/process.c, and the invariant.
use aqua_core.Prelude.{
  ℕ, ◌≡◌, refl, true, false, not, ◌&&◌, ◌||◌, Option, none, some, ◌==◌, ◌-◌, arith, if-cases,
  Option-cases, inl, inr, ℤ, le_zero, add32, ◌∙◌, ap, sym, update,
}
use aqua_core.Fs.Block.{BlockDev}
use aqua_core.Process.{
  Process, Kernel, State, is_unused, is_runnable, is_waiting, is_exited, is_ipc_recv, set_proc,
  find_process_by_pid, unused, runnable, waiting, exited,
}
use aqua_core.Process.Slots.{reap_exited_processes}
use aqua_core.Process.Sched.{
  Yielded, wait_for_interrupt, resumed, switched, scheduler_on_timer_tick, yield_once, yield_round,
  enter, run_next, pick_next,
}
use aqua_core.Process.Wait.{
  Waited, returned, blocked, wait_for_child_exit, exited_child, has_child, Killed, refused, killed,
  killed_self, process_kill, exit_target, is_init, orphaned,
}
use aqua_core.Process.Ipc.{
  Received, no_process, received, process_ipc_send, process_ipc_recv, send_to, recv_at,
}
use aqua_core.Process.Table.{find_process_by_pid-IsProcess}
use aqua_core.Process.Safe.{WhenOk, bind-WhenOk, IsSound, set_proc-IsSound, sync-IsSound}
use aqua_core.Process.Safe.Wakes.{keep_pid-IsSound, exit_target-IsSound, wake-IsSound}
use aqua_core.Process.Safe.Slot.{recycle_process_slot-IsSound, reap_exited_processes-IsSound}

-- The kernel that a round of `wait_for_child_exit` leaves.
abbrev pub waited_kernel : {D : Type 0} → Waited D → Kernel D
waited_kernel (returned r k) = k
waited_kernel (blocked k) = k

-- The kernel that `process_kill` leaves, which was `k` at the call.
abbrev pub killed_kernel : {D : Type 0} → Kernel D → Killed D → Kernel D
killed_kernel k (refused r) = k
killed_kernel k (killed r k') = k'
killed_kernel k (killed_self k') = k'

abbrev pub received_kernel : {D : Type 0} → Kernel D → Received D → Kernel D
received_kernel k no_process = k
received_kernel k (received p m k') = k'
received_kernel k (Received.blocked k') = k'

abbrev pub yielded_kernel : {D : Type 0} → Yielded D → Kernel D
yielded_kernel (wait_for_interrupt k) = k
yielded_kernel (resumed k) = k
yielded_kernel (switched prev next k) = k

pub runnable-used : (s : State) → is_runnable s ≡ true → is_unused s ≡ false
runnable-used unused h = cc
runnable-used runnable h = refl
runnable-used waiting h = refl
runnable-used exited h = refl

update_here : (procs : ℕ → Process) (i : ℕ) (p : Process) → update procs i p i ≡ p
update_here procs i p = ground arith

module _ {D : Type 0} (dev : BlockDev D) where
  pub wait_for_child_exit-IsSound :
      (k : Kernel D) (parent target : ℤ)
      → IsSound k
      → is_unused (k.procs k.current_proc).state ≡ false
      → WhenOk (λ w. IsSound (waited_kernel w)) (wait_for_child_exit dev k parent target)
  unfolding wait_for_child_exit
  wait_for_child_exit-IsSound k parent target s used =
      let P : Waited D → Type 0 = λ w. IsSound (waited_kernel w) in
      if-cases (WhenOk P) (le_zero parent) _ _ (λ e. s)
        (λ e. elim (Option-cases (exited_child k parent target)) [
          | inr (i, f) ↦
              rw f
                (bind-WhenOk IsSound P _ _ (recycle_process_slot-IsSound dev k i s) (λ k' s'. s'))
          | inl f ↦ rw f (
              if-cases (WhenOk P) (has_child k parent target) _ _
                (λ g. sync-IsSound dev _ k.current_proc (keep_pid-IsSound dev k _ _ s used refl))
                (λ g. s))
        ])

  pub process_kill-IsSound :
      (k : Kernel D) (target : ℤ)
      → IsSound k
      → WhenOk (λ w. IsSound (killed_kernel k w)) (process_kill dev k target)
  unfolding process_kill
  process_kill-IsSound k target s =
      let P : Killed D → Type 0 = λ w. IsSound (killed_kernel k w) in
      if-cases (WhenOk P) (le_zero target) _ _ (λ e. s)
        (λ e. elim (Option-cases (find_process_by_pid k target)) [
          | inl f ↦ rw f s
          | inr (i, f) ↦
              let found = find_process_by_pid-IsProcess k target i f in
              let after = orphaned (exit_target dev k i) i in
              let s1 = exit_target-IsSound dev k i s found.used in
              let s2 : IsSound after =
                set_proc-IsSound _ i _ s1 (λ lt used. s1.table.own_pid i lt used) in
              rw f (
                if-cases (WhenOk P) (is_exited (k.procs i).state) _ _ (λ g. s)
                  (λ g.
                    if-cases (WhenOk P) (is_init k i) _ _ (λ h. s)
                      (λ h.
                        if-cases (WhenOk P) (i == k.current_proc) _ _ (λ j. s2)
                          (λ j.
                            bind-WhenOk IsSound P _ _ (recycle_process_slot-IsSound dev after i s2)
                              (λ k' s'. s')))))
        ])

  send_to-IsSound :
      (k : Kernel D) (src : ℤ) (message : ℕ) (slot : Option ℕ)
      → IsSound k
      → ((i : ℕ) → slot ≡ some i → is_unused (k.procs i).state ≡ false)
      → IsSound (send_to dev k src message slot).1
  unfolding send_to
  send_to-IsSound k src message none s used = s
  send_to-IsSound k src message (some i) s used =
      let P : ℤ × Kernel D → Type 0 = λ r. IsSound r.1 in
      let p = record (k.procs i) {
        ipc_has_message = true;
        ipc_from_pid = src;
        ipc_message = message;
      } in
      let s1 = keep_pid-IsSound dev k i p s (used i refl) refl in
      let used1 = ap (λ (q : Process). is_unused q.state) (update_here k.procs i p) ∙ used i refl in
      if-cases P (is_exited (k.procs i).state) _ _ (λ g. s)
        (λ g.
          if-cases P (k.procs i).ipc_has_message _ _ (λ h. s)
            (λ h.
              if-cases IsSound (is_waiting (k.procs i).state && is_ipc_recv (k.procs i).wait_reason)
                _ _ (λ j. wake-IsSound dev (set_proc k i p) i s1 used1) (λ j. s1)))

  pub process_ipc_send-IsSound :
      (k : Kernel D) (src dst : ℤ) (message : ℕ)
      → IsSound k
      → IsSound (process_ipc_send dev k src dst message).1
  unfolding process_ipc_send
  process_ipc_send-IsSound k src dst message s =
      send_to-IsSound k src message (find_process_by_pid k dst) s
        (λ i f. (find_process_by_pid-IsProcess k dst i f).used)

  pub recv_at-IsSound :
      (k : Kernel D) (slot : Option ℕ)
      → IsSound k
      → ((i : ℕ) → slot ≡ some i → is_unused (k.procs i).state ≡ false)
      → IsSound (received_kernel k (recv_at dev k slot))
  unfolding recv_at
  recv_at-IsSound k none s used = s
  recv_at-IsSound k (some i) s used =
      if-cases (λ (r : Received D). IsSound (received_kernel k r)) (k.procs i).ipc_has_message _ _
        (λ h. keep_pid-IsSound dev k i _ s (used i refl) refl)
        (λ h. sync-IsSound dev _ i (keep_pid-IsSound dev k i _ s (used i refl) refl))

  pub process_ipc_recv-IsSound :
      (k : Kernel D) (self : ℤ)
      → IsSound k
      → IsSound (received_kernel k (process_ipc_recv dev k self))
  unfolding process_ipc_recv
  process_ipc_recv-IsSound k self s =
      recv_at-IsSound k (find_process_by_pid k self) s
        (λ i f. (find_process_by_pid-IsProcess k self i f).used)

module _ {D : Type 0} where
  pub scheduler_on_timer_tick-IsSound :
      (k : Kernel D) → IsSound k → IsSound (scheduler_on_timer_tick k)
  unfolding scheduler_on_timer_tick
  scheduler_on_timer_tick-IsSound k s =
      let p = k.procs k.current_proc in
      let c = k.current_proc in
      let ticked = record p { run_ticks = add32 p.run_ticks 1; time_slice = p.time_slice - 1 } in
      let s1 = set_proc-IsSound k c ticked s (λ lt used. s.table.own_pid c lt used) in
      if-cases IsSound (not (is_runnable p.state) || le_zero p.pid) _ _ (λ e. s)
        (λ e.
          if-cases IsSound (p.time_slice - 1 == 0) _ _
            (λ f. record { valid = s1.valid; table = s1.table }) (λ f. s1))

  run_next-IsSound :
      (k : Kernel D) (next : ℕ) → IsSound k → IsSound (yielded_kernel (run_next k next))
  run_next-IsSound k next s =
      let put : (p : Process)
          → p.state ≡ (k.procs next).state
          → p.pid ≡ (k.procs next).pid
          → IsSound (set_proc k next p) =
        λ p a b.
          set_proc-IsSound k next p s
            (λ lt used. b ∙ s.table.own_pid next lt (ap is_unused (sym a) ∙ used)) in
      let s1 = put _ refl refl in
      let s2 = put _ refl refl in
      if-cases (λ (y : Yielded D). IsSound (yielded_kernel y)) (next == k.current_proc) _ _
        (λ e. record { valid = s1.valid; table = s1.table })
        (λ e. record { valid = s2.valid; table = s2.table })

  enter-IsSound :
      (k : Kernel D) (slot : Option ℕ) → IsSound k → IsSound (yielded_kernel (enter k slot))
  unfolding enter
  enter-IsSound k none s = s
  enter-IsSound k (some i) s = run_next-IsSound k i s

  pub yield_round-IsSound : (k : Kernel D) → IsSound k → IsSound (yielded_kernel (yield_round k))
  unfolding yield_round
  yield_round-IsSound k s = enter-IsSound k (pick_next k) s

  pub yield_once-IsSound :
      (dev : BlockDev D) (k : Kernel D)
      → IsSound k
      → WhenOk (λ y. IsSound (yielded_kernel y)) (yield_once dev k)
  unfolding yield_once
  yield_once-IsSound dev k s =
      bind-WhenOk IsSound (λ y. IsSound (yielded_kernel y)) (reap_exited_processes dev k) _
        (reap_exited_processes-IsSound dev k s) yield_round-IsSound
