-- ===== src/Process/Safe/Exit.antt =====
-- Exits and clones in src/kernel/trap/syscall_process.c, and the invariant.
use aqua_core.Prelude.{ℕ, ◌≡◌, refl, false, Option, none, some, List, ◌∙◌, ap, if-cases}
use aqua_core.Fs.Block.{BlockDev}
use aqua_core.Process.{Kernel, is_unused}
use aqua_core.Process.Procfs.Safe.{sync_always-IsValid}
use aqua_core.Process.Space.{Layout}
use aqua_core.Process.Create.{create_process}
use aqua_core.Process.Wait.{orphan_children, is_init}
use aqua_core.Process.Exit.{
  Exit, shutdown, exit_yields, exit_synced, syscall_handle_exit, set_parent, syscall_handle_clone,
}
use aqua_core.Process.Safe.{WhenOk, bind-WhenOk, IsSound, set_proc-IsSound}
use aqua_core.Process.Safe.Wakes.{
  keep_pid-IsSound, orphan_children-IsSound, orphan_children-state, notify_child_exit-IsSound,
}
use aqua_core.Process.Safe.Space.{IsSoundAfter, create_process-IsSound}

abbrev pub exit_kernel : {D : Type 0} → Exit D → Kernel D
exit_kernel (shutdown k) = k
exit_kernel (exit_yields k) = k

module _ {D : Type 0} (dev : BlockDev D) where
  exit_synced-IsSound :
      (k : Kernel D) (c : ℕ)
      → IsSound k
      → is_unused (k.procs c).state ≡ false
      → IsSound (exit_synced dev k c)
  unfolding exit_synced
  exit_synced-IsSound k c s used =
      let s1 = keep_pid-IsSound dev k c _ s used refl in
      record { valid = sync_always-IsValid dev k.fs _ s.valid; table = s1.table }

  pub syscall_handle_exit-IsSound :
      (k : Kernel D)
      → IsSound k
      → is_unused (k.procs k.current_proc).state ≡ false
      → IsSound (exit_kernel (syscall_handle_exit dev k))
  unfolding syscall_handle_exit
  syscall_handle_exit-IsSound k s used =
      let c = k.current_proc in
      let pid = (k.procs c).pid in
      let used' = ap is_unused (orphan_children-state dev k pid c) ∙ used in
      if-cases (λ (e : Exit D). IsSound (exit_kernel e)) (is_init k c) _ _
        (λ e. exit_synced-IsSound k c s used)
        (λ e. notify_child_exit-IsSound dev _ c (
          exit_synced-IsSound (orphan_children k pid) c (orphan_children-IsSound dev k pid s)
            used'))

  set_parent-IsSound : (r : Option ℕ × Kernel D) → IsSoundAfter r → IsSound (set_parent dev r).1
  unfolding set_parent
  set_parent-IsSound (none, k) s = s
  set_parent-IsSound (some i, k) s = set_proc-IsSound k i _ s (λ lt used. s.table.own_pid i lt used)

  pub syscall_handle_clone-IsSound :
      (layout : Layout) (app : Option ((ℕ → ℕ) × ℕ × List ℕ)) (k : Kernel D)
      → IsSound k
      → WhenOk IsSoundAfter (syscall_handle_clone dev layout app k)
  unfolding syscall_handle_clone
  syscall_handle_clone-IsSound layout none k s = s
  syscall_handle_clone-IsSound layout (some (image, image_size, name)) k s =
      bind-WhenOk IsSoundAfter IsSoundAfter (create_process dev layout image image_size name k) _
        (create_process-IsSound dev layout image image_size name k s) set_parent-IsSound
