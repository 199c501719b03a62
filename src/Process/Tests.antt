-- ===== src/Process/Tests.antt =====
-- A kernel with two processes on a blank disk.
use aqua_core.Prelude.{
  ◌≡◌, refl, Bool, false, true, some, [], arith, ◌&&◌, if◌then◌else◌, pos, update,
}
use aqua_core.Fs.Tests.{Disk, ram_disk, booted}
use aqua_core.Memory.{Memory, Outcome, ok, panic}
use aqua_core.Process.{
  Process, Kernel, unused, runnable, waiting, no_wait, console_input, is_waiting, is_console_input,
}
use aqua_core.Process.Table.{IsTable, update-IsTable}
use aqua_core.Process.Space.{Layout}
use aqua_core.Process.Slots.{reap_from, reap_exited_processes}
use aqua_core.Process.Sched.{pick_next, yield_once, scheduler_on_timer_tick}
use aqua_core.Process.Sched.Next.{NextFrom, pick_next_lem}
use aqua_core.Process.Sched.Current.{IsResumed, yield_once-IsResumed}
use aqua_core.Process.Wait.{wakeup_input_waiters}
use aqua_core.Process.Wait.Wake.{woken, wakeup_input_waiters_lem}
use aqua_core.Process.Ipc.{process_ipc_send}
use aqua_core.Process.Ipc.Deliver.{IsDelivered, process_ipc_recv-process_ipc_send}
use aqua_core.Process.Safe.{WhenOk, IsSound}
use aqua_core.Process.Safe.Reach.{KernelReach, KernelReach-IsSound, stepped, on_send, on_tick}

abbrev zero_process : Process
zero_process = record {
  pid = pos 0;
  state = unused;
  name = [];
  wait_reason = no_wait;
  wait_pid = pos 0;
  parent_pid = pos 0;
  user_pages = 0;
  page_table = 0;
  time_slice = 0;
  run_ticks = 0;
  schedule_count = 0;
  ipc_has_message = false;
  ipc_from_pid = pos 0;
  ipc_message = 0;
  exec_argc = 0;
  exec_argv = λ i. [];
  root_mount_idx = pos 0;
  root_node_idx = 0;
  root_path = [];
  cwd_mount_idx = pos 0;
  cwd_node_idx = 0;
  cwd_path = [];
}

-- Process 1 runs, and process 2 is a child of it that waits for console input.
abbrev parent : Process
parent = record zero_process { pid = pos 1; state = runnable; time_slice = 1 }

abbrev child : Process
child = record zero_process {
  pid = pos 2;
  state = waiting;
  wait_reason = console_input;
  parent_pid = pos 1;
}

abbrev empty_memory : Memory
empty_memory = record {
  memory_initialized = true;
  page_bitmap = λ i. 0;
  managed_base = 0;
  managed_pages = 0;
  ram = λ i. 0;
}

abbrev pub two_processes : Kernel Disk
two_processes = record {
  procs = update (update (λ i. zero_process) 1 parent) 2 child;
  current_proc = 1;
  init_proc = some 1;
  need_resched = false;
  fs = booted.state;
  memory = empty_memory;
}

pub two_processes-IsSound : IsSound two_processes
two_processes-IsSound =
    let base : IsTable (λ i. zero_process) = record { own_pid = λ i lt used. cc } in
    record {
      valid = booted.valid;
      table =
          update-IsTable (update (λ i. zero_process) 1 parent) 2 child
            (update-IsTable (λ i. zero_process) 1 parent base (λ lt used. refl)) (λ lt used. refl);
    }

abbrev pub board : Layout
board = record { kernel_base = 0x80200000; free_ram_end = 0x80400000 }

-- Process 1 sends 7 to process 2, and the timer ticks.
abbrev after_send : Kernel Disk
after_send = (process_ipc_send ram_disk two_processes (pos 1) (pos 2) 7).1

abbrev after_tick : Kernel Disk
after_tick = scheduler_on_timer_tick after_send

two_steps : KernelReach ram_disk board two_processes after_tick
two_steps =
    stepped after_send after_tick
      (stepped two_processes after_send KernelReach.booted
        (on_send two_processes (pos 1) (pos 2) 7))
      (on_tick after_send)

KernelReach-IsSound_example : IsSound after_tick
KernelReach-IsSound_example =
    KernelReach-IsSound ram_disk board two_processes after_tick two_processes-IsSound two_steps

process_ipc_recv-process_ipc_send_example :
    IsDelivered ram_disk 2 (pos 1) 7 (process_ipc_send ram_disk two_processes (pos 1) (pos 2) 7)
process_ipc_recv-process_ipc_send_example =
    process_ipc_recv-process_ipc_send ram_disk two_processes (pos 1) 2 7 two_processes-IsSound
      (omega arith) (omega arith) refl refl refl

pick_next_lem_example : NextFrom two_processes 1 (pick_next two_processes)
pick_next_lem_example = pick_next_lem two_processes 1 refl (omega arith)

yield_once-IsResumed_example : WhenOk (IsResumed two_processes) (yield_once ram_disk two_processes)
yield_once-IsResumed_example =
    yield_once-IsResumed ram_disk two_processes refl (omega arith) (omega arith) refl

wakeup_input_waiters_lem_example : (wakeup_input_waiters ram_disk two_processes).procs 2 ≡ (
    if is_waiting (two_processes.procs 2).state
      && is_console_input (two_processes.procs 2).wait_reason
    then woken (two_processes.procs 2)
    else two_processes.procs 2)
wakeup_input_waiters_lem_example = wakeup_input_waiters_lem ram_disk two_processes 2 (omega arith)

-- The yield does not PANIC here.
returns : {A : Type 0} → Outcome A → Bool
returns (ok a) = true
returns (panic p) = false

does_not_panic : returns (yield_once ram_disk two_processes) ≡ true
unfolding yield_once reap_exited_processes reap_from returns
does_not_panic = refl
