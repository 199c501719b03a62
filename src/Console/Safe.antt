-- ===== src/Console/Safe.antt =====
-- `syscall_handle_getchar` of src/kernel/trap/syscall_console.c, and the invariant of the kernel.
use aqua_core.Prelude.{
  ℕ, ◌<◌, ◌≡◌, refl, ap, ◌∙◌, false, ◌&&◌, Option, List, ◌==◌, if-cases, option-cases,
}
use aqua_core.Fs.Block.{BlockDev}
use aqua_core.Fs.Nodefs.{procs_max}
use aqua_core.Process.{Process, Kernel, is_unused, is_waiting, is_console_input}
use aqua_core.Process.Wait.{wakeup_input_waiters}
use aqua_core.Process.Wait.Wake.{woken, wakeup_input_waiters_lem}
use aqua_core.Process.Safe.{IsSound, set_proc-IsSound}
use aqua_core.Process.Safe.Wakes.{wakeup_input_waiters-IsSound}
use aqua_core.Console.{Input, input_pop, poll_loop, poll_console_input, getchar_round}

module _ {D : Type 0} (dev : BlockDev D) (k : Kernel D) where
  -- A sound kernel in which slot c is used.
  record HasUsed (c : ℕ) (k' : Kernel D) : Type 0 where
    sound : IsSound k'
    used : c < procs_max → is_unused (k'.procs c).state ≡ false

  woken-HasUsed :
      (c : ℕ)
      → IsSound k
      → is_unused (k.procs c).state ≡ false
      → HasUsed c (wakeup_input_waiters dev k)
  woken-HasUsed c s used = record {
    sound = wakeup_input_waiters-IsSound dev k s;
    used = λ lt.
        ap (λ (p : Process). is_unused p.state) (wakeup_input_waiters_lem dev k c lt)
        ∙ if-cases (λ (p : Process). is_unused p.state ≡ false)
            (is_waiting (k.procs c).state && is_console_input (k.procs c).wait_reason)
            (woken (k.procs c)) (k.procs c) (λ e. refl) (λ e. used);
  }

  polled-HasUsed :
      (c : ℕ) (r : Input) (chars : List ℕ)
      → IsSound k
      → is_unused (k.procs c).state ≡ false
      → HasUsed c (poll_console_input dev k r chars).0
  unfolding poll_console_input
  polled-HasUsed c r chars s used =
      if-cases (HasUsed c) ((poll_loop r chars).0.input_count == 0) k (wakeup_input_waiters dev k)
        (λ e. record { sound = s; used = λ lt. used }) (λ e. woken-HasUsed c s used)

  pub getchar_round-IsSound :
      (r : Input) (chars : List ℕ)
      → IsSound k
      → is_unused (k.procs k.current_proc).state ≡ false
      → IsSound (getchar_round dev k r chars).1
  unfolding getchar_round
  getchar_round-IsSound r chars s used =
      let c = k.current_proc in
      let P : Option ℕ × Kernel D × Input × List ℕ → Type 0 = λ x. IsSound x.1 in
      let polled = poll_console_input dev k r chars in
      let h = polled-HasUsed c r chars s used in
      option-cases P (input_pop r).0 _ _
        (λ e.
          option-cases P (input_pop polled.1).0 _ _
            (λ f.
              set_proc-IsSound polled.0 c _ h.sound
                (λ lt u. h.sound.table.own_pid c lt (h.used lt)))
            (λ ch f. set_proc-IsSound polled.0 c _ h.sound (λ lt u. h.sound.table.own_pid c lt u)))
        (λ ch e. set_proc-IsSound k c _ s (λ lt u. s.table.own_pid c lt u))
