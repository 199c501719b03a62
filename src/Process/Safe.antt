-- ===== src/Process/Safe.antt =====
-- The invariant of the kernel of src/kernel/proc/process.c: a well-formed file system, and a process
-- table whose used slots hold the process with the slot's index as pid.
pub mod Wakes
pub mod Slot
pub mod Space
pub mod Calls
pub mod Exit
pub mod Reach
use aqua_core.Prelude.{ℕ, ◌<◌, ◌≡◌, false, pos}
use aqua_core.Fs.Block.{BlockDev}
use aqua_core.Fs.Nodefs.{procs_max}
use aqua_core.Fs.Valid.{IsValid}
use aqua_core.Memory.{Memory, Outcome, ok, panic, ◌>>=◌}
use aqua_core.Process.{Process, Kernel, is_unused, set_proc}
use aqua_core.Process.Procfs.{procfs_sync_best_effort}
use aqua_core.Process.Procfs.Safe.{sync_best_effort-IsValid}
use aqua_core.Process.Table.{IsTable, update-IsTable}

-- A PANIC stops the machine, so that there is no state after it.
abbrev pub WhenOk {ℓ} : {A : Type ℓ} → (A → Type 0) → Outcome A → Type 0
WhenOk P (ok a) = P a
WhenOk P (panic p) = Unit {0}

pub bind-WhenOk {ℓ κ} :
    {A : Type ℓ} {B : Type κ} (P : A → Type 0) (Q : B → Type 0) (o : Outcome A) (f : A → Outcome B)
    → WhenOk P o
    → ((a : A) → P a → WhenOk Q (f a))
    → WhenOk Q (o >>= f)
bind-WhenOk P Q (ok a) f h step = step a h
bind-WhenOk P Q (panic p) f h step = tt

-- A step about whose result nothing need be known.
pub then-WhenOk {ℓ κ} :
    {A : Type ℓ} {B : Type κ} (Q : B → Type 0) (o : Outcome A) (f : A → Outcome B)
    → ((a : A) → WhenOk Q (f a))
    → WhenOk Q (o >>= f)
then-WhenOk Q (ok a) f step = step a
then-WhenOk Q (panic p) f step = tt

-- What follows from what holds of the result.
pub map-WhenOk {ℓ} :
    {A : Type ℓ} (P Q : A → Type 0) (o : Outcome A)
    → WhenOk P o
    → ((a : A) → P a → Q a)
    → WhenOk Q o
map-WhenOk P Q (ok a) h step = step a h
map-WhenOk P Q (panic p) h step = tt

pub record IsSound {D : Type 0} (k : Kernel D) : Type 0 where
  pub valid : IsValid k.fs
  pub table : IsTable k.procs

module _ {D : Type 0} where
  pub set_proc-IsSound :
      (k : Kernel D) (i : ℕ) (p : Process)
      → IsSound k
      → (i < procs_max → is_unused p.state ≡ false → p.pid ≡ pos i)
      → IsSound (set_proc k i p)
  set_proc-IsSound k i p s h = record {
    valid = s.valid;
    table = update-IsTable k.procs i p s.table h;
  }

  pub memory-IsSound : (k : Kernel D) (m : Memory) → IsSound k → IsSound (record k { memory = m })
  memory-IsSound k m s = record { valid = s.valid; table = s.table }

  pub sync-IsSound :
      (dev : BlockDev D) (k : Kernel D) (i : ℕ)
      → IsSound k
      → IsSound (procfs_sync_best_effort dev k i)
  unfolding procfs_sync_best_effort
  sync-IsSound dev k i s = record {
    valid = sync_best_effort-IsValid dev k.fs (k.procs i) s.valid;
    table = s.table;
  }
