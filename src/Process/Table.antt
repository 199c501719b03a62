-- ===== src/Process/Table.antt =====
-- Lookup in the process table of src/kernel/proc/process.c.
use aqua_core.Prelude.{
  ℕ, ◌<◌, ◌≡◌, ap, sym, ◌∙◌, false, none, some, arith, Option-cases, Bool-cases, inl, inr, ℤ, pos,
  eq_int_iff, le_zero, find_from-some, find_from-none, update,
}
use native.Mathlib.Decide.{ℕ_discrete}
use aqua_core.Fs.Nodefs.{procs_max}
use aqua_core.Process.{Process, Kernel, is_unused, has_pid, find_process_by_pid}

-- Every used slot holds the process with its own index as pid.
pub record IsTable (procs : ℕ → Process) : Type 0 where
  pub own_pid : (i : ℕ) → i < procs_max → is_unused (procs i).state ≡ false → (procs i).pid ≡ pos i

-- Slot i is the process that a pid names.
pub record IsProcess {D : Type 0} (k : Kernel D) (pid : ℤ) (i : ℕ) : Type 0 where
  pub bounded : i < procs_max
  pub named : (k.procs i).pid ≡ pid
  pub used : is_unused (k.procs i).state ≡ false

pub find_process_by_pid-IsProcess :
    {D : Type 0} (k : Kernel D) (pid : ℤ) (i : ℕ)
    → find_process_by_pid k pid ≡ some i
    → IsProcess k pid i
unfolding find_process_by_pid
find_process_by_pid-IsProcess k pid i h = elim (Bool-cases (le_zero pid)) [
  | inl e ↦ cc (rw (e, find_process_by_pid) at h)
  | inr e ↦
      let first =
        find_from-some (has_pid k.procs pid) procs_max 0 i (rw (e, find_process_by_pid) at h) in
      record {
        bounded = omega (arith, first.high);
        named = (eq_int_iff (k.procs i).pid pid).0 (ground (arith, first.hit));
        used = ground (arith, first.hit);
      }
]

pos_injective : {a b : ℕ} → pos a ≡ pos b → a ≡ b
pos_injective h = ground arith

find_process_by_pid-none :
    {D : Type 0} (k : Kernel D) (n : ℕ)
    → 0 < n
    → find_process_by_pid k (pos n) ≡ none
    → (i : ℕ) → i < procs_max
    → has_pid k.procs (pos n) i ≡ false
unfolding find_process_by_pid
find_process_by_pid-none k n lo h i hi =
    let above : le_zero (pos n) ≡ false = ground arith in
    find_from-none (has_pid k.procs (pos n)) procs_max 0 (rw (above, find_process_by_pid) at h) i
      (omega arith) (omega arith)

-- In a table whose used slots hold their own index as pid, a pid above 0 finds exactly the used slot
-- with this index.
pub find_process_by_pid_lem :
    {D : Type 0} (k : Kernel D) (n : ℕ)
    → IsTable k.procs
    → 0 < n
    → n < procs_max
    → is_unused (k.procs n).state ≡ false
    → find_process_by_pid k (pos n) ≡ some n
find_process_by_pid_lem k n t lo hi u = elim (Option-cases (find_process_by_pid k (pos n))) [
  | inr (i, e) ↦
      let p = find_process_by_pid-IsProcess k (pos n) i e in
      let same : pos i ≡ pos n = sym (t.own_pid i p.bounded p.used) ∙ p.named in
      e ∙ ap some (pos_injective same)
  | inl e ↦
      let missed = find_process_by_pid-none k n lo e n hi in
      cc ((eq_int_iff (k.procs n).pid (pos n)).1 (t.own_pid n hi u))
]

-- A process may be put where it has the slot's index as pid, if it is used at all.
pub update-IsTable :
    (procs : ℕ → Process) (i : ℕ) (p : Process)
    → IsTable procs
    → (i < procs_max → is_unused p.state ≡ false → p.pid ≡ pos i)
    → IsTable (update procs i p)
update-IsTable procs i p t h = record {
  own_pid = λ j lt used. elim (ℕ_discrete i j) [
    | yes e ↦
        let here : update procs i p j ≡ p = ground arith in
        ap (λ (q : Process). q.pid) here
        ∙ h (omega arith) (ap (λ (q : Process). is_unused q.state) (sym here) ∙ used)
        ∙ ap pos e
    | no ne ↦
        let there : update procs i p j ≡ procs j = ground arith in
        ap (λ (q : Process). q.pid) there
        ∙ t.own_pid j lt (ap (λ (q : Process). is_unused q.state) (sym there) ∙ used)
  ];
}
