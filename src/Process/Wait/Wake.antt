-- ===== src/Process/Wait/Wake.antt =====
-- Which processes the loops of src/kernel/proc/process.c wake.
use aqua_core.Prelude.{
  ℕ, zero, suc, ◌+◌, ◌<◌, ◌≡◌, refl, ap, subst, ◌≢◌, ◌∙◌, Bool, true, false, not, ◌&&◌, arith,
  Bool-cases, inl, inr, minus_one, le_zero, update, if◌then◌else◌, ltb, leb,
}
use native.Mathlib.Decide.{ℕ_discrete}
use aqua_core.Fs.Block.{BlockDev}
use aqua_core.Fs.Nodefs.{procs_max}
use aqua_core.Process.{Process, Kernel, runnable, no_wait, is_waiting, is_console_input}
use aqua_core.Process.Procfs.{procfs_sync_best_effort}
use aqua_core.Process.Wait.{wake, wake_from, awaits, notify_child_exit, wakeup_input_waiters}

abbrev pub woken : Process → Process
woken p = record p { state = runnable; wait_reason = no_wait; wait_pid = minus_one }

pub wake-procs :
    {D : Type 0} (dev : BlockDev D) (k : Kernel D) (i : ℕ)
    → (wake dev k i).procs ≡ update k.procs i (woken (k.procs i))
unfolding wake procfs_sync_best_effort
wake-procs dev k i = refl

module _ {D : Type 0} (dev : BlockDev D) (test : Process → Bool) where
  abbrev tested : Process → Process
  tested p = if test p then woken p else p

  abbrev step : Kernel D → ℕ → Kernel D
  step k i = if test (k.procs i) then wake dev k i else k

  step-here : (k : Kernel D) (i : ℕ) → (step k i).procs i ≡ tested (k.procs i)
  step-here k i = elim (Bool-cases (test (k.procs i))) [
    | inl e ↦ rw e (ap (λ t. t i) (wake-procs dev k i) ∙ ground arith)
    | inr e ↦ rw e refl
  ]

  step-other : (k : Kernel D) (i j : ℕ) → i ≢ j → (step k i).procs j ≡ k.procs j
  step-other k i j ne = elim (Bool-cases (test (k.procs i))) [
    | inl e ↦ rw e (ap (λ t. t j) (wake-procs dev k i) ∙ ground arith)
    | inr e ↦ rw e refl
  ]

  here_only :
      (k : Kernel D) (n i j : ℕ)
      → i ≡ j
      → (if leb (i + 1) j && ltb j (i + 1 + n)
          then tested ((step k i).procs j)
          else (step k i).procs j)
        ≡ (if leb i j && ltb j (i + suc n) then tested (k.procs j) else k.procs j)
  here_only k n i j e =
      let past : leb (i + 1) j ≡ false = ground arith in
      let here : (leb i j && ltb j (i + suc n)) ≡ true = ground arith in
      rw (past, here) (subst (λ m. (step k i).procs m ≡ tested (k.procs m)) e (step-here k i))

  further :
      (k : Kernel D) (n i j : ℕ)
      → i ≢ j
      → (if leb (i + 1) j && ltb j (i + 1 + n)
          then tested ((step k i).procs j)
          else (step k i).procs j)
        ≡ (if leb i j && ltb j (i + suc n) then tested (k.procs j) else k.procs j)
  further k n i j ne =
      let same : (leb (i + 1) j && ltb j (i + 1 + n)) ≡ (leb i j && ltb j (i + suc n)) =
        ground arith in
      rw (step-other k i j ne, same) refl

  pub wake_from-procs :
      (k : Kernel D) (n i j : ℕ)
      → (wake_from dev test k n i).procs j
        ≡ (if leb i j && ltb j (i + n) then tested (k.procs j) else k.procs j)
  unfolding wake_from
  wake_from-procs k zero i j = ground arith
  wake_from-procs k (suc n) i j =
      wake_from-procs (step k i) n (i + 1) j
      ∙ elim (ℕ_discrete i j) [ yes e ↦ here_only k n i j e | no ne ↦ further k n i j ne ]

-- `notify_child_exit` makes runnable the processes that wait for the exit of this child, or of any
-- child of theirs, when the child has a parent; it changes no other process.
pub notify_child_exit_lem :
    {D : Type 0} (dev : BlockDev D) (k : Kernel D) (child j : ℕ)
    → j < procs_max
    → (notify_child_exit dev k child).procs j ≡ (
        if not (le_zero (k.procs child).parent_pid) && awaits (k.procs child) (k.procs j)
        then woken (k.procs j)
        else k.procs j)
unfolding notify_child_exit
notify_child_exit_lem dev k child j lt = elim (Bool-cases (le_zero (k.procs child).parent_pid)) [
  | inl e ↦ rw e refl
  | inr e ↦
      let inside : (leb 0 j && ltb j (0 + procs_max)) ≡ true = ground arith in
      rw e (wake_from-procs dev (awaits (k.procs child)) k procs_max 0 j ∙ rw inside refl)
]

-- `wakeup_input_waiters` makes runnable the processes that wait for console input, and changes no
-- other process.
pub wakeup_input_waiters_lem :
    {D : Type 0} (dev : BlockDev D) (k : Kernel D) (j : ℕ)
    → j < procs_max
    → (wakeup_input_waiters dev k).procs j ≡ (
        if is_waiting (k.procs j).state && is_console_input (k.procs j).wait_reason
        then woken (k.procs j)
        else k.procs j)
unfolding wakeup_input_waiters
wakeup_input_waiters_lem dev k j lt =
    let inside : (leb 0 j && ltb j (0 + procs_max)) ≡ true = ground arith in
    wake_from-procs dev (λ p. is_waiting p.state && is_console_input p.wait_reason) k procs_max 0 j
    ∙ rw inside refl
