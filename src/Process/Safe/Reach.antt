-- ===== src/Process/Safe/Reach.antt =====
-- What processes and interrupts make of the kernel through src/kernel/proc/process.c,
-- src/kernel/trap/syscall_process.c, src/kernel/trap/syscall_console.c and src/kernel/fs/fs.c, in any
-- order, as a step relation.
use aqua_core.Prelude.{ℕ, ◌≡◌, subst, true, false, arith, Option, some, List, ℤ}
use aqua_core.Fs.Block.{BlockDev}
use aqua_core.Fs.Vfs.{Fs}
use aqua_core.Fs.Valid.Reach.{Step, Step-IsValid}
use aqua_core.Memory.{Outcome, ok}
use aqua_core.Process.{Kernel, is_runnable, is_unused}
use aqua_core.Process.Space.{Layout}
use aqua_core.Process.Create.{create_process}
use aqua_core.Process.Fork.{process_fork}
use aqua_core.Process.Exec.{process_exec}
use aqua_core.Process.Exit.{syscall_handle_exit, syscall_handle_clone}
use aqua_core.Process.Sched.{Yielded, scheduler_on_timer_tick, yield_once, yield_round}
use aqua_core.Process.Wait.{Waited, Killed, wakeup_input_waiters, wait_for_child_exit, process_kill}
use aqua_core.Process.Ipc.{process_ipc_send, process_ipc_recv, recv_at}
use aqua_core.Console.{Input, getchar_round}
use aqua_core.Console.Safe.{getchar_round-IsSound}
use aqua_core.Process.Safe.{WhenOk, IsSound}
use aqua_core.Process.Safe.Wakes.{wakeup_input_waiters-IsSound}
use aqua_core.Process.Safe.Space.{
  IsSoundAfter, create_process-IsSound, process_fork-IsSound, process_exec-IsSound,
}
use aqua_core.Process.Safe.Exit.{
  exit_kernel, syscall_handle_exit-IsSound, syscall_handle_clone-IsSound,
}
use aqua_core.Process.Safe.Calls.{
  waited_kernel, killed_kernel, received_kernel, yielded_kernel, runnable-used,
  wait_for_child_exit-IsSound, process_kill-IsSound, process_ipc_send-IsSound,
  process_ipc_recv-IsSound, scheduler_on_timer_tick-IsSound, yield_once-IsSound,
  yield_round-IsSound, recv_at-IsSound,
}

-- The current process is one that runs.
abbrev pub IsRunning : {D : Type 0} → Kernel D → Type 0
IsRunning k = is_runnable (k.procs k.current_proc).state ≡ true

-- One operation, with any arguments and whatever it returns. The operations that a process asks for
-- itself are made by a process that runs; after a PANIC there is no further step.
pub data KernelStep {D : Type 0} (dev : BlockDev D) (layout : Layout)
    : Kernel D → Kernel D → Type 0 where
  on_create :
      (k : Kernel D) (image : ℕ → ℕ) (image_size : ℕ) (name : List ℕ) (r : Option ℕ × Kernel D)
      → create_process dev layout image image_size name k ≡ ok r
      → KernelStep dev layout k r.1
  on_clone :
      (k : Kernel D) (app : Option ((ℕ → ℕ) × ℕ × List ℕ)) (r : ℤ × Kernel D)
      → syscall_handle_clone dev layout app k ≡ ok r
      → KernelStep dev layout k r.1
  on_fork :
      (k : Kernel D) (r : ℤ × Kernel D)
      → process_fork dev layout k ≡ ok r
      → KernelStep dev layout k r.1
  on_exec :
      (k : Kernel D) (image : ℕ → ℕ) (image_size : ℕ) (name : List ℕ) (argc : ℤ) (argv : ℕ → List ℕ)
      (r : ℤ × Kernel D)
      → IsRunning k
      → process_exec dev image image_size name argc argv k ≡ ok r
      → KernelStep dev layout k r.1
  on_exit :
      (k : Kernel D)
      → IsRunning k
      → KernelStep dev layout k (exit_kernel (syscall_handle_exit dev k))
  on_wait :
      (k : Kernel D) (parent target : ℤ) (w : Waited D)
      → IsRunning k
      → wait_for_child_exit dev k parent target ≡ ok w
      → KernelStep dev layout k (waited_kernel w)
  on_kill :
      (k : Kernel D) (target : ℤ) (w : Killed D)
      → process_kill dev k target ≡ ok w
      → KernelStep dev layout k (killed_kernel k w)
  on_send :
      (k : Kernel D) (src dst : ℤ) (message : ℕ)
      → KernelStep dev layout k (process_ipc_send dev k src dst message).1
  on_recv :
      (k : Kernel D) (self : ℤ)
      → KernelStep dev layout k (received_kernel k (process_ipc_recv dev k self))
  on_tick : (k : Kernel D) → KernelStep dev layout k (scheduler_on_timer_tick k)
  on_yield :
      (k : Kernel D) (y : Yielded D)
      → yield_once dev k ≡ ok y
      → KernelStep dev layout k (yielded_kernel y)
  -- The next round of a `yield` that waited for an interrupt.
  on_round : (k : Kernel D) → KernelStep dev layout k (yielded_kernel (yield_round k))
  -- The next round of a `process_ipc_recv` that slept.
  on_recv_round :
      (k : Kernel D)
      → IsRunning k
      → KernelStep dev layout k (received_kernel k (recv_at dev k (some k.current_proc)))
  on_input : (k : Kernel D) → KernelStep dev layout k (wakeup_input_waiters dev k)
  on_getchar :
      (k : Kernel D) (r : Input) (chars : List ℕ)
      → IsRunning k
      → KernelStep dev layout k (getchar_round dev k r chars).1
  on_file :
      (k : Kernel D) (st : Fs D) → Step dev k.fs st → KernelStep dev layout k (record k { fs = st })

pub data KernelReach {D : Type 0} (dev : BlockDev D) (layout : Layout) (start : Kernel D)
    : Kernel D → Type 0 where
  booted : KernelReach dev layout start start
  stepped :
      (k k' : Kernel D)
      → KernelReach dev layout start k
      → KernelStep dev layout k k'
      → KernelReach dev layout start k'

-- What holds after an operation that does not PANIC holds after it returned.
pub returned : {A : Type 0} (P : A → Type 0) (o : Outcome A) (a : A) → WhenOk P o → o ≡ ok a → P a
returned P o a h e = subst (WhenOk P) e h

some_injective : {a b : ℕ} → some a ≡ some b → a ≡ b
some_injective h = ground arith

module _ {D : Type 0} (dev : BlockDev D) (layout : Layout) where
  pub KernelStep-IsSound : (k k' : Kernel D) → KernelStep dev layout k k' → IsSound k → IsSound k'
  KernelStep-IsSound _ _ (on_create k image size name r e) s =
      returned IsSoundAfter _ r (create_process-IsSound dev layout image size name k s) e
  KernelStep-IsSound _ _ (on_clone k app r e) s =
      returned IsSoundAfter _ r (syscall_handle_clone-IsSound dev layout app k s) e
  KernelStep-IsSound _ _ (on_fork k r e) s =
      returned IsSoundAfter _ r (process_fork-IsSound dev layout k s) e
  KernelStep-IsSound _ _ (on_exec k image size name argc argv r run e) s =
      let used = runnable-used (k.procs k.current_proc).state run in
      returned IsSoundAfter _ r (process_exec-IsSound dev image size name argc argv k s used) e
  KernelStep-IsSound _ _ (on_exit k run) s =
      syscall_handle_exit-IsSound dev k s (runnable-used (k.procs k.current_proc).state run)
  KernelStep-IsSound _ _ (on_wait k parent target w run e) s =
      let used = runnable-used (k.procs k.current_proc).state run in
      returned (λ (x : Waited D). IsSound (waited_kernel x)) _ w
        (wait_for_child_exit-IsSound dev k parent target s used) e
  KernelStep-IsSound _ _ (on_kill k target w e) s =
      returned (λ (x : Killed D). IsSound (killed_kernel k x)) _ w
        (process_kill-IsSound dev k target s) e
  KernelStep-IsSound _ _ (on_send k src dst message) s =
      process_ipc_send-IsSound dev k src dst message s
  KernelStep-IsSound _ _ (on_recv k self) s = process_ipc_recv-IsSound dev k self s
  KernelStep-IsSound _ _ (on_tick k) s = scheduler_on_timer_tick-IsSound k s
  KernelStep-IsSound _ _ (on_yield k y e) s =
      returned (λ (x : Yielded D). IsSound (yielded_kernel x)) _ y (yield_once-IsSound dev k s) e
  KernelStep-IsSound _ _ (on_round k) s = yield_round-IsSound k s
  KernelStep-IsSound _ _ (on_recv_round k run) s =
      let used = runnable-used (k.procs k.current_proc).state run in
      let at : (i : ℕ) → some k.current_proc ≡ some i → is_unused (k.procs i).state ≡ false =
        λ i e. subst (λ j. is_unused (k.procs j).state ≡ false) (some_injective e) used in
      recv_at-IsSound dev k (some k.current_proc) s at
  KernelStep-IsSound _ _ (on_input k) s = wakeup_input_waiters-IsSound dev k s
  KernelStep-IsSound _ _ (on_getchar k r chars run) s =
      getchar_round-IsSound dev k r chars s (runnable-used (k.procs k.current_proc).state run)
  KernelStep-IsSound _ _ (on_file k st step) s = record {
    valid = Step-IsValid dev k.fs st step s.valid;
    table = s.table;
  }

  -- However the operations of the processes and the interrupts follow one another: from a kernel with
  -- a well-formed file system, in which every used slot of the process table holds the process with
  -- the slot's index as pid, only such kernels are reached.
  pub KernelReach-IsSound : (k k' : Kernel D) → IsSound k → KernelReach dev layout k k' → IsSound k'
  KernelReach-IsSound k _ s booted = s
  KernelReach-IsSound k _ s (stepped mid k' reach step) =
      KernelStep-IsSound mid k' step (KernelReach-IsSound k mid s reach)
