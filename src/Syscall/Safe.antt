-- ===== src/Syscall/Safe.antt =====
-- What the system calls of src/kernel/trap make of the kernel, in any order and between interrupts, as a
-- step relation.
use aqua_core.Prelude.{
  ℕ, ◌≡◌, Option, none, some, List, ℤ, if-cases, ◌&&◌, not, le_zero, eq_int, minus_one, false,
}
use aqua_core.Fs.Block.{BlockDev}
use aqua_core.Fs.Data.{Buffer}
use aqua_core.Fs.Vfs.{Fs}
use aqua_core.Fs.Valid.Reach.{
  Step, Step-IsValid, call_open, call_close, call_read, call_write, call_mkdir, call_rmdir,
  call_unlink, call_dup2,
}
use aqua_core.Memory.{ok}
use aqua_core.Process.{Kernel, is_unused}
use aqua_core.Process.Procfs.Safe.{sync_always-IsValid}
use aqua_core.Process.Space.{Layout}
use aqua_core.Process.Exit.{syscall_handle_exit, syscall_handle_clone}
use aqua_core.Process.Wait.{Waited, Killed}
use aqua_core.Process.Ipc.{Received}
use aqua_core.Process.Safe.{WhenOk, bind-WhenOk, IsSound, set_proc-IsSound}
use aqua_core.Process.Safe.Space.{IsSoundAfter, process_fork-IsSound, process_exec-IsSound}
use aqua_core.Process.Safe.Exit.{
  exit_kernel, syscall_handle_exit-IsSound, syscall_handle_clone-IsSound,
}
use aqua_core.Process.Safe.Calls.{
  waited_kernel, killed_kernel, received_kernel, runnable-used, wait_for_child_exit-IsSound,
  process_kill-IsSound, process_ipc_send-IsSound, process_ipc_recv-IsSound,
}
use aqua_core.Process.Safe.Reach.{IsRunning, KernelStep, KernelStep-IsSound, returned}
use aqua_core.Console.{Input, getchar_round}
use aqua_core.Console.Safe.{getchar_round-IsSound}
use aqua_core.Syscall.Files.{
  current_pid, syscall_handle_open, syscall_handle_close, syscall_handle_read, syscall_handle_write,
  syscall_handle_mkdir, syscall_handle_unlink, syscall_handle_rmdir, syscall_handle_dup2, moved_to,
  syscall_handle_chdir,
}
use aqua_core.Syscall.Apps.{Images, resolve_app_image}
use aqua_core.Syscall.Procs.{
  Args, exec_image, syscall_handle_waitpid, syscall_handle_kill, syscall_handle_fork,
  syscall_handle_exec, syscall_handle_execv, syscall_handle_ipc_send, syscall_handle_ipc_recv,
}

-- One system call that may change the kernel, with any arguments. After a PANIC there is no further step.
pub data Syscall {D : Type 0} (dev : BlockDev D) (layout : Layout) (images : Images) (k : Kernel D)
    : Kernel D → Type 0 where
  do_open :
      (path : Option (List ℕ)) (flags : ℕ)
      → Syscall dev layout images k (syscall_handle_open dev k path flags).1
  do_close : (fd : ℤ) → Syscall dev layout images k (syscall_handle_close k fd).1
  do_read :
      (fd : ℤ) (buf : Option Buffer) (size : ℕ)
      → Syscall dev layout images k (syscall_handle_read k fd buf size).1
  do_write :
      (fd : ℤ) (buf : Option Buffer) (size : ℕ)
      → Syscall dev layout images k (syscall_handle_write dev k fd buf size).1
  do_mkdir :
      (path : Option (List ℕ)) → Syscall dev layout images k (syscall_handle_mkdir dev k path).1
  do_unlink :
      (path : Option (List ℕ)) → Syscall dev layout images k (syscall_handle_unlink dev k path).1
  do_rmdir :
      (path : Option (List ℕ)) → Syscall dev layout images k (syscall_handle_rmdir dev k path).1
  do_dup2 : (fd1 fd2 : ℤ) → Syscall dev layout images k (syscall_handle_dup2 k fd1 fd2).1
  do_chdir :
      (path : Option (List ℕ)) → Syscall dev layout images k (syscall_handle_chdir dev k path).1
  do_getchar :
      (r : Input) (chars : List ℕ) → Syscall dev layout images k (getchar_round dev k r chars).1
  do_exit : Syscall dev layout images k (exit_kernel (syscall_handle_exit dev k))
  do_clone :
      (app_id : ℤ) (r : ℤ × Kernel D)
      → syscall_handle_clone dev layout (resolve_app_image images app_id) k ≡ ok r
      → Syscall dev layout images k r.1
  do_waitpid :
      (target : ℤ) (w : Waited D)
      → syscall_handle_waitpid dev k target ≡ ok w
      → Syscall dev layout images k (waited_kernel w)
  do_kill :
      (target : ℤ) (w : Killed D)
      → syscall_handle_kill dev k target ≡ ok w
      → Syscall dev layout images k (killed_kernel k w)
  do_fork :
      (r : ℤ × Kernel D) → syscall_handle_fork dev layout k ≡ ok r → Syscall dev layout images k r.1
  do_exec :
      (app_id : ℤ) (r : ℤ × Kernel D)
      → syscall_handle_exec dev images k app_id ≡ ok r
      → Syscall dev layout images k r.1
  do_execv :
      (app_id : ℤ) (uargv : Option (ℕ → Option (List ℕ))) (r : ℤ × Kernel D)
      → syscall_handle_execv dev images k app_id uargv ≡ ok r
      → Syscall dev layout images k r.1
  do_send :
      (dst : ℤ) (message : ℕ)
      → Syscall dev layout images k (syscall_handle_ipc_send dev k dst message).1
  do_recv : Syscall dev layout images k (received_kernel k (syscall_handle_ipc_recv dev k))

-- A system call of the process that runs, or an interrupt, a round of a call that waited or another
-- operation of the kernel.
pub data SystemStep {D : Type 0} (dev : BlockDev D) (layout : Layout) (images : Images)
    : Kernel D → Kernel D → Type 0 where
  by_syscall :
      (k k' : Kernel D)
      → IsRunning k
      → Syscall dev layout images k k'
      → SystemStep dev layout images k k'
  by_kernel : (k k' : Kernel D) → KernelStep dev layout k k' → SystemStep dev layout images k k'

pub data SystemReach {D : Type 0} (dev : BlockDev D) (layout : Layout) (images : Images)
    (start : Kernel D) : Kernel D → Type 0 where
  at_start : SystemReach dev layout images start start
  then_step :
      (k k' : Kernel D)
      → SystemReach dev layout images start k
      → SystemStep dev layout images k k'
      → SystemReach dev layout images start k'

module _ {D : Type 0} (dev : BlockDev D) where
  file-IsSound :
      (k : Kernel D) (st : Fs D) → Step dev k.fs st → IsSound k → IsSound (record k { fs = st })
  file-IsSound k st step s = record {
    valid = Step-IsValid dev k.fs st step s.valid;
    table = s.table;
  }

  moved_to-IsSound :
      (k : Kernel D) (path : List ℕ) (entry : Option (ℤ × ℕ))
      → IsSound k
      → is_unused (k.procs k.current_proc).state ≡ false
      → IsSound (moved_to dev k path entry).1
  unfolding moved_to
  moved_to-IsSound k path none s used = s
  moved_to-IsSound k path (some (mount_idx, node_idx)) s used =
      let moved =
        set_proc-IsSound k k.current_proc _ s (λ lt u. s.table.own_pid k.current_proc lt used) in
      record { valid = sync_always-IsValid dev k.fs _ s.valid; table = moved.table }

  exec_image-IsSound :
      (app : Option ((ℕ → ℕ) × ℕ × List ℕ)) (args : Args) (k : Kernel D)
      → IsSound k
      → is_unused (k.procs k.current_proc).state ≡ false
      → WhenOk IsSoundAfter (exec_image dev app args k)
  unfolding exec_image
  exec_image-IsSound none args k s used = s
  exec_image-IsSound (some (image, image_size, name)) args k s used =
      bind-WhenOk IsSoundAfter IsSoundAfter _ _
        (process_exec-IsSound dev image image_size name _ args.argv k s used) (λ (ret, k') s'. s')

module _ {D : Type 0} (dev : BlockDev D) (layout : Layout) (images : Images) where
  Syscall-IsSound :
      (k k' : Kernel D)
      → Syscall dev layout images k k'
      → IsSound k
      → is_unused (k.procs k.current_proc).state ≡ false
      → IsSound k'
  unfolding syscall_handle_open syscall_handle_close syscall_handle_read syscall_handle_write
      syscall_handle_mkdir syscall_handle_unlink syscall_handle_rmdir syscall_handle_dup2
      syscall_handle_chdir syscall_handle_waitpid syscall_handle_kill syscall_handle_fork
      syscall_handle_exec syscall_handle_execv syscall_handle_ipc_send syscall_handle_ipc_recv
  Syscall-IsSound k _ (do_open none flags) s used = s
  Syscall-IsSound k _ (do_open (some path) flags) s used =
      file-IsSound dev k _ (call_open k.fs (current_pid k) path flags) s
  Syscall-IsSound k _ (do_close fd) s used =
      file-IsSound dev k _ (call_close k.fs (current_pid k) fd) s
  Syscall-IsSound k _ (do_read fd none size) s used = s
  Syscall-IsSound k _ (do_read fd (some buf) size) s used =
      file-IsSound dev k _ (call_read k.fs (current_pid k) fd buf size) s
  Syscall-IsSound k _ (do_write fd none size) s used = s
  Syscall-IsSound k _ (do_write fd (some buf) size) s used =
      file-IsSound dev k _ (call_write k.fs (current_pid k) fd buf size) s
  Syscall-IsSound k _ (do_mkdir none) s used = s
  Syscall-IsSound k _ (do_mkdir (some path)) s used = file-IsSound dev k _ (call_mkdir k.fs path) s
  Syscall-IsSound k _ (do_unlink none) s used = s
  Syscall-IsSound k _ (do_unlink (some path)) s used =
      file-IsSound dev k _ (call_unlink k.fs path) s
  Syscall-IsSound k _ (do_rmdir none) s used = s
  Syscall-IsSound k _ (do_rmdir (some path)) s used = file-IsSound dev k _ (call_rmdir k.fs path) s
  Syscall-IsSound k _ (do_dup2 fd1 fd2) s used =
      file-IsSound dev k _ (call_dup2 k.fs (current_pid k) fd1 fd2) s
  Syscall-IsSound k _ (do_chdir none) s used = s
  Syscall-IsSound k _ (do_chdir (some path)) s used = moved_to-IsSound dev k _ _ s used
  Syscall-IsSound k _ (do_getchar r chars) s used = getchar_round-IsSound dev k r chars s used
  Syscall-IsSound k _ do_exit s used = syscall_handle_exit-IsSound dev k s used
  Syscall-IsSound k _ (do_clone app_id r e) s used =
      returned IsSoundAfter _ r (syscall_handle_clone-IsSound dev layout _ k s) e
  Syscall-IsSound k _ (do_waitpid target w e) s used =
      let P : Waited D → Type 0 = λ x. IsSound (waited_kernel x) in
      returned P _ w
        (if-cases (WhenOk P) (le_zero target && not (eq_int target minus_one)) _ _ (λ bad. s)
          (λ good. wait_for_child_exit-IsSound dev k (current_pid k) target s used))
        e
  Syscall-IsSound k _ (do_kill target w e) s used =
      returned (λ (x : Killed D). IsSound (killed_kernel k x)) _ w
        (process_kill-IsSound dev k target s) e
  Syscall-IsSound k _ (do_fork r e) s used =
      returned IsSoundAfter _ r
        (bind-WhenOk IsSoundAfter IsSoundAfter _ _ (process_fork-IsSound dev layout k s)
          (λ (ret, k') s'. s'))
        e
  Syscall-IsSound k _ (do_exec app_id r e) s used =
      returned IsSoundAfter _ r (exec_image-IsSound dev _ _ k s used) e
  Syscall-IsSound k _ (do_execv app_id uargv r e) s used =
      returned IsSoundAfter _ r (exec_image-IsSound dev _ _ k s used) e
  Syscall-IsSound k _ (do_send dst message) s used =
      if-cases IsSoundAfter (le_zero (current_pid k)) _ _ (λ none_runs. s)
        (λ runs. process_ipc_send-IsSound dev k (current_pid k) dst message s)
  Syscall-IsSound k _ do_recv s used =
      if-cases (λ (r : Received D). IsSound (received_kernel k r)) (le_zero (current_pid k)) _ _
        (λ none_runs. s) (λ runs. process_ipc_recv-IsSound dev k (current_pid k) s)

  SystemStep-IsSound :
      (k k' : Kernel D) → SystemStep dev layout images k k' → IsSound k → IsSound k'
  SystemStep-IsSound k k' (by_syscall _ _ run call) s =
      Syscall-IsSound k k' call s (runnable-used (k.procs k.current_proc).state run)
  SystemStep-IsSound k k' (by_kernel _ _ step) s = KernelStep-IsSound dev layout k k' step s

  -- However the system calls of the running processes, with any arguments, and the interrupts and other
  -- operations of the kernel follow one another: from a kernel with a well-formed file system, in
  -- which every used slot of the process table holds the process with the slot's index as pid, only
  -- such kernels are reached.
  pub SystemReach-IsSound :
      (k k' : Kernel D) → IsSound k → SystemReach dev layout images k k' → IsSound k'
  SystemReach-IsSound k _ s at_start = s
  SystemReach-IsSound k _ s (then_step mid k' reach step) =
      SystemStep-IsSound mid k' step (SystemReach-IsSound k mid s reach)
