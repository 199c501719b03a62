-- ===== src/Process/Wait/Exits.antt =====
-- How the exits of a process, by `syscall_handle_exit` and `process_kill`, reach the parent that waits for
-- it in `wait_for_child_exit` of src/kernel/proc/process.c.
use aqua_core.Prelude.{
  ℕ, ◌<◌, ◌≡◌, ◌≢◌, refl, sym, ap, ap₂, subst, ◌∙◌, true, false, not, ◌&&◌, ◌||◌, none, some,
  if-cases, if-true, if-false, if◌then◌else◌, &&-true, ◌==◌, ltb, ℤ, negsuc, minus_one, eq_int,
  eq_int_iff, eq_int_sym, le_zero, update, update_self, update_other,
}
use aqua_core.Fs.Block.{BlockDev}
use aqua_core.Fs.Nodefs.{procs_max}
use aqua_core.Memory.{Outcome, ok, ◌>>=◌}
use aqua_core.Process.{
  Process, Kernel, is_unused, is_exited, is_runnable, is_waiting, is_child_exit, waiting, exited,
  no_wait, child_exit, find_process_by_pid,
}
use aqua_core.Process.Procfs.{procfs_sync_best_effort}
use aqua_core.Process.Space.{free_process_memory}
use aqua_core.Process.Slots.{recycle_process_slot, recycled}
use aqua_core.Process.Exit.{Exit, shutdown, exit_yields, exit_synced, syscall_handle_exit}
use aqua_core.Process.Wait.{
  Killed, refused, killed, killed_self, is_child, awaits, notify_child_exit, orphan_children,
  exit_target, process_kill, is_init, orphaned,
}
use aqua_core.Process.Wait.Wake.{woken, notify_child_exit_lem}
use aqua_core.Process.Safe.{WhenOk, bind-WhenOk, then-WhenOk}

-- What a process waits for is the same.
record SameWait (p q : Process) : Type 0 where
  pid : q.pid ≡ p.pid
  state : q.state ≡ p.state
  reason : q.wait_reason ≡ p.wait_reason
  target : q.wait_pid ≡ p.wait_pid

same_wait : (p : Process) → SameWait p p
same_wait p = record { pid = refl; state = refl; reason = refl; target = refl }

-- A process that sleeps in `wait_for_child_exit`.
abbrev pub IsAsleep : Process → ℤ → ℤ → Type 0
IsAsleep p parent target =
    (p.pid ≡ parent)
    × ((p.state ≡ waiting) × ((p.wait_reason ≡ child_exit) × (p.wait_pid ≡ target)))

awaits-asleep :
    (p child : Process) (parent target : ℤ)
    → IsAsleep p parent target
    → child.parent_pid ≡ parent
    → (eq_int target minus_one || eq_int child.pid target) ≡ true
    → awaits child p ≡ true
awaits-asleep p child parent target (pid, (state, (reason, wait))) mine asked =
    ap₂ (λ a b. a && b) ((eq_int_iff p.pid child.parent_pid).1 (pid ∙ sym mine))
      (ap₂ (λ a b. a && b) (ap is_waiting state)
        (ap₂ (λ a b. a && b) (ap is_child_exit reason)
          (ap (λ t. eq_int t minus_one || eq_int t child.pid) wait
            ∙ ap (λ b. eq_int target minus_one || b) (eq_int_sym target child.pid)
            ∙ asked)))

module _ {D : Type 0} where
  orphan_children-SameWait :
      (k : Kernel D) (pid : ℤ) (i : ℕ) → SameWait (k.procs i) ((orphan_children k pid).procs i)
  unfolding orphan_children
  orphan_children-SameWait k pid i =
      if-cases (λ (k' : Kernel D). SameWait (k.procs i) (k'.procs i)) (le_zero pid) _ _
        (λ none_left. same_wait (k.procs i))
        (λ above.
          if-cases (SameWait (k.procs i)) (ltb i procs_max && eq_int (k.procs i).parent_pid pid) _ _
            (λ orphan. record { pid = refl; state = refl; reason = refl; target = refl })
            (λ other. same_wait (k.procs i)))

  orphan_children-parent :
      (k : Kernel D) (pid parent : ℤ) (i : ℕ)
      → (k.procs i).parent_pid ≡ parent
      → pid ≢ parent
      → ((orphan_children k pid).procs i).parent_pid ≡ parent
  unfolding orphan_children
  orphan_children-parent k pid parent i mine ne =
      if-cases (λ (k' : Kernel D). (k'.procs i).parent_pid ≡ parent) (le_zero pid) _ _
        (λ none_left. mine)
        (λ above.
          if-cases (λ (p : Process). p.parent_pid ≡ parent)
            (ltb i procs_max && eq_int (k.procs i).parent_pid pid) _ _
            (λ orphan.
              let (lt, same) = &&-true (ltb i procs_max) _ orphan in
              absurd (ne (sym ((eq_int_iff (k.procs i).parent_pid pid).0 same) ∙ mine)))
            (λ other. mine))

  -- The processes when that of slot i has exited and its parent is not told yet.
  abbrev exited_procs : Kernel D → ℕ → ℕ → Process
  exited_procs k i =
      let o = orphan_children k (k.procs i).pid in
      update o.procs i
        (record (o.procs i) { state = exited; wait_reason = no_wait; wait_pid = minus_one })

module _ {D : Type 0} (dev : BlockDev D) (later : Kernel D) (child c : ℕ) (parent target : ℤ) where
  -- The process of slot c sleeps, and that of slot `child` is one that it waits for.
  pub record IsWaitedFor : Type 0 where
    pub bounded : c < procs_max
    pub above : le_zero parent ≡ false
    pub asleep : IsAsleep (later.procs c) parent target
    pub awaited : is_child (later.procs child) parent target ≡ true
    pub other : (later.procs child).pid ≢ parent

  -- Slot c is runnable after an exit that does not shut the kernel down.
  abbrev pub AfterExit : Exit D → Type 0
  AfterExit (shutdown k') = is_init later child ≡ true
  AfterExit (exit_yields k') = is_runnable (k'.procs c).state ≡ true

  -- Slot c is runnable after a kill; one is refused for an exited process and for init.
  abbrev pub AfterKill : Killed D → Type 0
  AfterKill (refused r) = (is_exited (later.procs child).state || is_init later child) ≡ true
  AfterKill (killed pid k') = is_runnable (k'.procs c).state ≡ true
  AfterKill (killed_self k') = is_runnable (k'.procs c).state ≡ true

  slots-apart : IsWaitedFor → c ≢ child
  slots-apart w = λ e. w.other (ap (λ i. (later.procs i).pid) (sym e) ∙ w.asleep.0)

  notify_child_exit-wakes :
      (k : Kernel D)
      → IsWaitedFor
      → k.procs ≡ exited_procs later child
      → is_runnable ((notify_child_exit dev k child).procs c).state ≡ true
  notify_child_exit-wakes k w same =
      let pid = (later.procs child).pid in
      let o = orphan_children later pid in
      let q = record (o.procs child) {
        state = exited;
        wait_reason = no_wait;
        wait_pid = minus_one;
      } in
      let here : k.procs child ≡ q = ap (λ f. f child) same ∙ update_self o.procs child q in
      let there : k.procs c ≡ o.procs c =
        ap (λ f. f c) same ∙ update_other o.procs child c q (λ e. slots-apart w (sym e)) in
      let kept = orphan_children-SameWait later pid c in
      let gone = orphan_children-SameWait later pid child in
      let parts = &&-true (not (is_unused (later.procs child).state)) _ w.awaited in
      let (mine, asks) = &&-true (eq_int (later.procs child).parent_pid parent) _ parts.1 in
      let parent' : (k.procs child).parent_pid ≡ parent =
        ap (λ (p : Process). p.parent_pid) here
        ∙ orphan_children-parent later pid parent child
            ((eq_int_iff (later.procs child).parent_pid parent).0 mine) w.other in
      let asked : (eq_int target minus_one || eq_int (k.procs child).pid target) ≡ true =
        ap (λ x. eq_int target minus_one || eq_int x target)
          (ap (λ (p : Process). p.pid) here ∙ gone.pid)
        ∙ asks in
      let asleep : IsAsleep (k.procs c) parent target = (
        ap (λ (p : Process). p.pid) there ∙ kept.pid ∙ w.asleep.0,
        (
          ap (λ (p : Process). p.state) there ∙ kept.state ∙ w.asleep.1.0,
          (
            ap (λ (p : Process). p.wait_reason) there ∙ kept.reason ∙ w.asleep.1.1.0,
            ap (λ (p : Process). p.wait_pid) there ∙ kept.target ∙ w.asleep.1.1.1,
          ),
        ),
      ) in
      let lives : (not (le_zero (k.procs child).parent_pid)) ≡ true =
        ap (λ x. not (le_zero x)) parent' ∙ ap not w.above in
      let yes =
        ap₂ (λ a b. a && b) lives
          (awaits-asleep (k.procs c) (k.procs child) parent target asleep parent' asked) in
      ap (λ (p : Process). is_runnable p.state)
        (notify_child_exit_lem dev k child c w.bounded
          ∙ if-true (woken (k.procs c)) (k.procs c) yes)

  pub syscall_handle_exit-wakes :
      IsWaitedFor → later.current_proc ≡ child → AfterExit (syscall_handle_exit dev later)
  unfolding syscall_handle_exit exit_synced
  syscall_handle_exit-wakes w at =
      if-cases AfterExit (is_init later later.current_proc) _ _
        (λ init. ap (is_init later) (sym at) ∙ init)
        (λ other.
          subst
            (λ i.
              is_runnable
                ((notify_child_exit dev
                    (exit_synced dev (orphan_children later (later.procs i).pid) i) i).procs
                  c).state
              ≡ true)
            (sym at) (notify_child_exit-wakes _ w refl))

  -- What `process_kill` does with the slot that it has found.
  abbrev kill_found : ℕ → Outcome (Killed D)
  kill_found i =
      let after = orphaned (exit_target dev later i) i in
      if is_exited (later.procs i).state
      then ok (refused (negsuc 1))
      else if is_init later i
      then ok (refused (negsuc 2))
      else if i == later.current_proc
      then ok (killed_self after)
      else (recycle_process_slot dev after i >>= λ k'. ok (killed (later.procs i).pid k'))

  process_kill-kill_found :
      (pid : ℤ)
      → le_zero pid ≡ false
      → find_process_by_pid later pid ≡ some child
      → process_kill dev later pid ≡ kill_found child
  unfolding process_kill
  process_kill-kill_found pid above found =
      if-false _ _ above
      ∙ ap (λ o. elim o [ none ↦ ok (refused (negsuc 1)) | some i ↦ kill_found i ]) found

  recycle_process_slot-other :
      (k : Kernel D)
      → c ≢ child
      → WhenOk (λ (k' : Kernel D). k'.procs c ≡ k.procs c) (recycle_process_slot dev k child)
  unfolding recycle_process_slot
  recycle_process_slot-other k ne =
      then-WhenOk (λ (k' : Kernel D). k'.procs c ≡ k.procs c)
        (free_process_memory (k.procs child) k.memory) _
        (λ (p, m). update_other k.procs child c (recycled p) (λ e. ne (sym e)))

  exit_target-wakes :
      IsWaitedFor
      → is_runnable ((orphaned (exit_target dev later child) child).procs c).state ≡ true
  unfolding exit_target procfs_sync_best_effort
  exit_target-wakes w =
      ap (λ (p : Process). is_runnable p.state)
        (update_other (exit_target dev later child).procs child c _ (λ e. slots-apart w (sym e)))
      ∙ notify_child_exit-wakes _ w refl

  pub process_kill-wakes :
      (pid : ℤ)
      → IsWaitedFor
      → le_zero pid ≡ false
      → find_process_by_pid later pid ≡ some child
      → WhenOk AfterKill (process_kill dev later pid)
  process_kill-wakes pid w above found =
      let after = orphaned (exit_target dev later child) child in
      let Ends = WhenOk AfterKill in
      subst Ends (sym (process_kill-kill_found pid above found)) (
        if-cases Ends (is_exited (later.procs child).state) _ _
          (λ gone. ap (λ b. b || is_init later child) gone)
          (λ lives.
            if-cases Ends (is_init later child) _ _ (λ init. ap₂ (λ a b. a || b) lives init)
              (λ plain.
                if-cases Ends (child == later.current_proc) _ _ (λ itself. exit_target-wakes w)
                  (λ other.
                    bind-WhenOk (λ (k' : Kernel D). k'.procs c ≡ after.procs c) AfterKill
                      (recycle_process_slot dev after child) _
                      (recycle_process_slot-other after (slots-apart w))
                      (λ k' same.
                        ap (λ (p : Process). is_runnable p.state) same ∙ exit_target-wakes w)))))
