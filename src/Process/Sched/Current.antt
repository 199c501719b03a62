-- ===== src/Process/Sched/Current.antt =====
-- The current process in the search of `yield`, in src/kernel/proc/process.c.
use aqua_core.Prelude.{
  ℕ, zero, suc, ◌+◌, ◌<◌, ◌≡◌, refl, sym, ap, subst, ◌∙◌, true, false, not, ◌&&◌, arith, ◌==◌,
  Option, some, if-cases, if-true, if◌then◌else◌, pos, eq_int, le_zero,
}
use native.Mathlib.Decide.{ℕ_discrete}
use aqua_core.Fs.Block.{BlockDev}
use aqua_core.Fs.Nodefs.{procs_max}
use aqua_core.Memory.{ok}
use aqua_core.Process.{
  Process, Kernel, State, is_runnable, is_exited, unused, runnable, waiting, exited,
}
use aqua_core.Process.Space.{free_process_memory}
use aqua_core.Process.Slots.{recycle_process_slot, reap_from, reap_exited_processes}
use aqua_core.Process.Sched.{Yielded, resumed, pick_next, yield_round, yield_once, enter, can_run}
use aqua_core.Process.Sched.Next.{NextFrom, next_is, none_can_run, behind, pick_next_lem}
use aqua_core.Process.Safe.{WhenOk, bind-WhenOk, then-WhenOk, map-WhenOk}

-- Slot c, and which process runs, are as before.
record Keeps {D : Type 0} (k : Kernel D) (c : ℕ) (k' : Kernel D) : Type 0 where
  slot : k'.procs c ≡ k.procs c
  current : k'.current_proc ≡ k.current_proc

-- `yield` returned to the process that called it, with no request to reschedule left.
pub data IsResumed {D : Type 0} (k : Kernel D) : Yielded D → Type 0 where
  same_process :
      (k' : Kernel D)
      → k'.current_proc ≡ k.current_proc
      → k'.need_resched ≡ false
      → IsResumed k (resumed k')

behind_zero : (n : ℕ) → n < procs_max → behind n 0 ≡ n
behind_zero n lt = omega arith

module _ {D : Type 0} (dev : BlockDev D) where
  recycle-Keeps :
      (k : Kernel D) (i c : ℕ)
      → is_exited (k.procs i).state ≡ true
      → is_exited (k.procs c).state ≡ false
      → WhenOk (Keeps k c) (recycle_process_slot dev k i)
  unfolding recycle_process_slot
  recycle-Keeps k i c e f =
      then-WhenOk (Keeps k c) (free_process_memory (k.procs i) k.memory) _ (λ (p, m).
        elim (ℕ_discrete i c) [
          | yes same ↦ cc
          | no other ↦ record { slot = ground arith; current = refl }
        ])

  reap_from-Keeps :
      (k : Kernel D) (c i n : ℕ)
      → is_exited (k.procs c).state ≡ false
      → WhenOk (Keeps k c) (reap_from dev k i n)
  unfolding reap_from
  reap_from-Keeps k c i zero f = record { slot = refl; current = refl }
  reap_from-Keeps k c i (suc n) f =
      let exits = is_exited (k.procs i).state in
      let reaped = exits && eq_int (k.procs i).parent_pid (pos 0) in
      bind-WhenOk (Keeps k c) (Keeps k c) (if reaped then recycle_process_slot dev k i else ok k)
        (λ k'. reap_from dev k' (i + 1) n)
        (if-cases (WhenOk (Keeps k c)) reaped _ _ (λ e. recycle-Keeps k i c (ground (arith, e)) f)
          (λ e. record { slot = refl; current = refl }))
        (λ k' kept.
          map-WhenOk (Keeps k' c) (Keeps k c) _
            (reap_from-Keeps k' c (i + 1) n (ap (λ (p : Process). is_exited p.state) kept.slot ∙ f))
            (λ k'' kept'. record {
              slot = kept'.slot ∙ kept.slot;
              current = kept'.current ∙ kept.current;
            }))

module _ {D : Type 0} where
  nearest :
      (k : Kernel D) (n : ℕ) (slot : Option ℕ)
      → n < procs_max
      → can_run k n ≡ true
      → NextFrom k n slot
      → slot ≡ some n
  nearest k n _ lt run (next_is zero hi hit before) = ap some (behind_zero n lt)
  nearest k n _ lt run (next_is (suc i) hi hit before) =
      let first = before 0 (omega arith) in cc (ap (can_run k) (behind_zero n lt))
  nearest k n _ lt run (none_can_run never) = cc (never n lt)

  pick_next-current :
      (k : Kernel D) (n : ℕ)
      → (k.procs k.current_proc).pid ≡ pos n
      → n < procs_max
      → can_run k n ≡ true
      → pick_next k ≡ some n
  pick_next-current k n e lt run = nearest k n (pick_next k) lt run (pick_next_lem k n e lt)

  yield_round-IsResumed :
      (k : Kernel D) → pick_next k ≡ some k.current_proc → IsResumed k (yield_round k)
  unfolding yield_round
  yield_round-IsResumed k e =
      let self : (k.current_proc == k.current_proc) ≡ true = ground arith in
      subst (IsResumed k) (sym (ap (enter k) e ∙ if-true _ _ self)) (same_process _ refl refl)

runnable-alive : (s : State) → is_runnable s ≡ true → is_exited s ≡ false
runnable-alive unused h = refl
runnable-alive runnable h = refl
runnable-alive waiting h = refl
runnable-alive exited h = cc

IsResumed-moved :
    {D : Type 0} (k k' : Kernel D) (y : Yielded D)
    → k'.current_proc ≡ k.current_proc
    → IsResumed k' y
    → IsResumed k y
IsResumed-moved k k' _ e (same_process k'' same idle) = same_process k'' (same ∙ e) idle

-- A current process that can run, whose pid above 0 is its slot, is always the one that `yield`
-- returns to, unless it stops with a PANIC: it is never preempted, whatever other processes can run and however often its time slice
-- has ended.
pub yield_once-IsResumed :
    {D : Type 0} (dev : BlockDev D) (k : Kernel D)
    → (k.procs k.current_proc).pid ≡ pos k.current_proc
    → 0 < k.current_proc
    → k.current_proc < procs_max
    → is_runnable (k.procs k.current_proc).state ≡ true
    → WhenOk (IsResumed k) (yield_once dev k)
unfolding yield_once reap_exited_processes
yield_once-IsResumed dev k e lo lt run =
    let c = k.current_proc in
    bind-WhenOk (Keeps k c) (IsResumed k) (reap_from dev k 0 procs_max) _
      (reap_from-Keeps dev k c 0 procs_max (runnable-alive (k.procs c).state run))
      (λ k' kept.
        let slot : k'.procs k'.current_proc ≡ k.procs c = ap k'.procs kept.current ∙ kept.slot in
        let pid = ap (λ (p : Process). p.pid) slot ∙ e in
        let can : can_run k' c ≡ true =
          ap (λ (p : Process). is_runnable p.state && not (le_zero p.pid)) kept.slot
          ∙ rw (run, e) (ground arith) in
        IsResumed-moved k k' _ kept.current (
          yield_round-IsResumed k'
            (pick_next-current k' c pid lt can ∙ ap some (sym kept.current))))
