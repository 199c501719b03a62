-- ===== src/Process.antt =====
-- The process table of src/kernel/proc/process.c, with the file system and the page allocator that
-- its operations call. A `struct process *` that points into `procs` is the index of its slot. The
-- kernel stacks, the saved registers and the control registers are not modelled.
pub mod Procfs
pub mod Space
pub mod Slots
pub mod Create
pub mod Fork
pub mod Exec
pub mod Exit
pub mod Table
pub mod Sched
pub mod Wait
pub mod Ipc
pub mod Safe
pub mod Tests
use aqua_core.Prelude.{
  ℕ, zero, suc, ◌+◌, ◌-◌, ◌%◌, ◌≡◌, Bool, true, false, not, ◌&&◌, ◌||◌, Option, none, some, List,
  [], ◌∷◌, ltb, leb, ◌==◌, if◌then◌else◌, ℤ, pos, negsuc, minus_one, eq_int, le_zero, update,
  find_from, take, min, ◌++◌,
}
use aqua_core.Memory.{Memory}
use aqua_core.Fs.Vfs.{Fs}
use aqua_core.Fs.Nodefs.{procs_max}

abbrev pub proc_name_max : ℕ
proc_name_max = 16

abbrev pub time_slice_ticks : ℕ
time_slice_ticks = 3

-- PROC_UNUSED, PROC_RUNNABLE, PROC_WAITTING, PROC_EXITED
pub data State : Type 0 where
  unused runnable waiting exited : State

abbrev pub is_unused : State → Bool
is_unused unused = true
is_unused _ = false

abbrev pub is_runnable : State → Bool
is_runnable runnable = true
is_runnable _ = false

abbrev pub is_waiting : State → Bool
is_waiting waiting = true
is_waiting _ = false

abbrev pub is_exited : State → Bool
is_exited exited = true
is_exited _ = false

-- PROC_WAIT_NONE, PROC_WAIT_CONSOLE_INPUT, PROC_WAIT_CHILD_EXIT, PROC_WAIT_IPC_RECV
pub data WaitReason : Type 0 where
  no_wait console_input child_exit ipc_recv : WaitReason

abbrev pub is_console_input : WaitReason → Bool
is_console_input console_input = true
is_console_input _ = false

abbrev pub is_child_exit : WaitReason → Bool
is_child_exit child_exit = true
is_child_exit _ = false

abbrev pub is_ipc_recv : WaitReason → Bool
is_ipc_recv ipc_recv = true
is_ipc_recv _ = false

abbrev pub proc_exec_argv_max : ℕ
proc_exec_argv_max = 8

abbrev pub proc_exec_arg_len : ℕ
proc_exec_arg_len = 32

-- `struct process`, without `sp` and `stack`. A NULL page table is 0.
pub record Process : Type 0 where
  pub pid : ℤ
  pub state : State
  pub name : List ℕ
  pub wait_reason : WaitReason
  pub wait_pid : ℤ
  pub parent_pid : ℤ
  pub user_pages : ℕ
  pub page_table : ℕ
  pub time_slice : ℕ
  pub run_ticks : ℕ
  pub schedule_count : ℕ
  pub ipc_has_message : Bool
  pub ipc_from_pid : ℤ
  pub ipc_message : ℕ
  pub exec_argc : ℕ
  pub exec_argv : ℕ → List ℕ
  pub root_mount_idx : ℤ
  pub root_node_idx : ℕ
  pub root_path : List ℕ
  pub cwd_mount_idx : ℤ
  pub cwd_node_idx : ℕ
  pub cwd_path : List ℕ

-- `current_proc` is never NULL once processes run; `init_proc` is none until it is created.
pub record Kernel (D : Type 0) : Type 0 where
  pub procs : ℕ → Process
  pub current_proc : ℕ
  pub init_proc : Option ℕ
  pub need_resched : Bool
  pub fs : Fs D
  pub memory : Memory

-- The name as the string in the array that is filled: NULL is the empty name.
unfoldable pub set_process_name : Process → List ℕ → Process
set_process_name p name = record p { name = take (proc_name_max - 1) name }

unfoldable pub clear_exec_args : Process → Process
clear_exec_args p = record p { exec_argc = 0; exec_argv = λ i. [] }

unfoldable pub set_exec_args : Process → ℤ → (ℕ → List ℕ) → Process
unfolding clear_exec_args
set_exec_args p argc argv =
    let cleared = clear_exec_args p in
    elim argc [
      | negsuc n ↦ cleared
      | pos argc' ↦
          let n = min argc' proc_exec_argv_max in
          record cleared {
            exec_argc = n;
            exec_argv = λ i. if ltb i n then take (proc_exec_arg_len - 1) (argv i) else [];
          }
    ]

module _ {D : Type 0} where
  abbrev pub set_proc : Kernel D → ℕ → Process → Kernel D
  set_proc k i p = record k { procs = update k.procs i p }

  -- The output of `printf` for a text with no conversions.
  unfoldable pub print : Fs D → List ℕ → Fs D
  print st text = record st { console = record st.console { output = st.console.output ++ text } }

abbrev pub has_pid : (ℕ → Process) → ℤ → ℕ → Bool
has_pid procs pid i = eq_int (procs i).pid pid && not (is_unused (procs i).state)

unfoldable pub find_process_by_pid : {D : Type 0} → Kernel D → ℤ → Option ℕ
find_process_by_pid k pid =
    if le_zero pid then none else find_from (has_pid k.procs pid) procs_max 0
