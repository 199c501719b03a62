-- ===== src/Syscall/Procs.antt =====
-- The other handlers of src/kernel/trap/syscall_process.c and src/kernel/trap/syscall_ipc.c.
use aqua_core.Prelude.{
  ℕ, zero, suc, ◌+◌, ◌-◌, not, ◌&&◌, Option, none, some, List, [], if◌then◌else◌, ℤ, pos, negsuc,
  minus_one, eq_int, le_zero, index_below, take, update,
}
use aqua_core.Fs.Block.{BlockDev}
use aqua_core.Fs.Nodefs.{procs_max}
use aqua_core.Memory.{Outcome, ok, ◌>>=◌}
use aqua_core.Process.{Process, Kernel, State, WaitReason, proc_exec_argv_max, proc_exec_arg_len}
use aqua_core.Process.Space.{Layout}
use aqua_core.Process.Fork.{process_fork}
use aqua_core.Process.Exec.{process_exec}
use aqua_core.Process.Wait.{Waited, returned, Killed, wait_for_child_exit, process_kill}
use aqua_core.Process.Ipc.{Received, no_process, process_ipc_send, process_ipc_recv}
use aqua_core.Syscall.Files.{current_pid}
use aqua_core.Syscall.Apps.{Images, resolve_app_image}

-- `struct ps_info`.
pub record PsInfo : Type 0 where
  pub pid : ℤ
  pub parent_pid : ℤ
  pub state : State
  pub wait_reason : WaitReason
  pub name : List ℕ

abbrev pub write_user_ps_info : Process → PsInfo
write_user_ps_info p = record {
  pid = p.pid;
  parent_pid = p.parent_pid;
  state = p.state;
  wait_reason = p.wait_reason;
  name = p.name;
}

-- The arguments that are copied, and their number.
pub record Args : Type 0 where
  pub argc : ℕ
  pub argv : ℕ → List ℕ

-- An argument goes before the ones that the rest of the loop copies; NULL ends the loop.
abbrev pub store_arg : Option (List ℕ) → ℕ → Args → Args
store_arg none argc rest = record { argc = argc; argv = λ i. [] }
store_arg (some p) argc rest = record rest {
  argv = update rest.argv argc (take (proc_exec_arg_len - 1) p);
}

-- The loop, with n arguments at most to come.
unfoldable pub copy_args : (ℕ → Option (List ℕ)) → ℕ → ℕ → Args
copy_args uargv zero argc = record { argc = argc; argv = λ i. [] }
copy_args uargv (suc n) argc =
    let rest = copy_args uargv n (argc + 1) in store_arg (uargv argc) argc rest

unfoldable pub copy_user_argv : Option (ℕ → Option (List ℕ)) → Args
copy_user_argv none = record { argc = 0; argv = λ i. [] }
copy_user_argv (some uargv) = copy_args uargv proc_exec_argv_max 0

-- -1 for a failure.
abbrev pub a0_pid : ℤ → ℤ
a0_pid (negsuc n) = minus_one
a0_pid (pos n) = pos n

-- 0 or -1.
abbrev pub a0_exec : ℤ → ℤ
a0_exec (negsuc n) = minus_one
a0_exec (pos n) = pos 0

module _ {D : Type 0} where
  -- What is stored at the pointer, if it is not NULL.
  unfoldable pub syscall_handle_ps : Kernel D → ℤ → ℤ × Option PsInfo
  syscall_handle_ps k index = elim (index_below procs_max index) [
    | none ↦ (minus_one, none)
    | some i ↦ (pos 0, some (write_user_ps_info (k.procs i)))
  ]

  -- What is stored at the pointer, which is not NULL.
  unfoldable pub syscall_handle_getargs : Kernel D → ℤ × Args
  syscall_handle_getargs k =
      let p = k.procs k.current_proc in (pos 0, record { argc = p.exec_argc; argv = p.exec_argv })

module _ {D : Type 0} (dev : BlockDev D) where
  unfoldable pub syscall_handle_waitpid : Kernel D → ℤ → Outcome (Waited D)
  syscall_handle_waitpid k target_pid =
      if le_zero target_pid && not (eq_int target_pid minus_one)
      then ok (returned minus_one k)
      else wait_for_child_exit dev k (current_pid k) target_pid

  unfoldable pub syscall_handle_kill : Kernel D → ℤ → Outcome (Killed D)
  syscall_handle_kill k target_pid = process_kill dev k target_pid

  unfoldable pub syscall_handle_fork : Layout → Kernel D → Outcome (ℤ × Kernel D)
  syscall_handle_fork layout k =
      process_fork dev layout k >>= λ (child_pid, k'). ok (a0_pid child_pid, k')

  -- What `exec` and `execv` do with the image that is found, or NULL.
  unfoldable pub exec_image :
      Option ((ℕ → ℕ) × ℕ × List ℕ) → Args → Kernel D → Outcome (ℤ × Kernel D)
  exec_image none args k = ok (minus_one, k)
  exec_image (some (image, image_size, name)) args k =
      process_exec dev image image_size name (pos args.argc) args.argv k >>= λ (ret, k').
      ok (a0_exec ret, k')

  unfoldable pub syscall_handle_exec : Images → Kernel D → ℤ → Outcome (ℤ × Kernel D)
  unfolding exec_image
  syscall_handle_exec images k app_id =
      exec_image (resolve_app_image images app_id) (record { argc = 0; argv = λ i. [] }) k

  unfoldable pub syscall_handle_execv :
      Images → Kernel D → ℤ → Option (ℕ → Option (List ℕ)) → Outcome (ℤ × Kernel D)
  unfolding exec_image
  syscall_handle_execv images k app_id uargv =
      exec_image (resolve_app_image images app_id) (copy_user_argv uargv) k

  unfoldable pub syscall_handle_ipc_send : Kernel D → ℤ → ℕ → ℤ × Kernel D
  syscall_handle_ipc_send k dst_pid message =
      if le_zero (current_pid k)
      then (minus_one, k)
      else process_ipc_send dev k (current_pid k) dst_pid message

  -- A round of the call: a0 is -1 without a process, and otherwise the message, and the sender is stored.
  unfoldable pub syscall_handle_ipc_recv : Kernel D → Received D
  syscall_handle_ipc_recv k =
      if le_zero (current_pid k) then no_process else process_ipc_recv dev k (current_pid k)
