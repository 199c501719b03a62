-- ===== src/Process/Ipc.antt =====
-- The one-message mailbox of a process in src/kernel/proc/process.c.
pub mod Deliver
use aqua_core.Prelude.{
  ℕ, true, false, ◌&&◌, Option, none, some, if◌then◌else◌, ℤ, pos, negsuc, minus_one,
}
use aqua_core.Fs.Block.{BlockDev}
use aqua_core.Process.{
  Process, Kernel, waiting, ipc_recv, is_waiting, is_exited, is_ipc_recv, set_proc,
  find_process_by_pid,
}
use aqua_core.Process.Procfs.{procfs_sync_best_effort}
use aqua_core.Process.Wait.{wake}

-- A round of the loop in `process_ipc_recv`: it returns -1, or 0 with *from_pid and *message, or the
-- process is blocked and yields.
pub data Received (D : Type 0) : Type 0 where
  no_process : Received D
  received : (from_pid : ℤ) (message : ℕ) → Kernel D → Received D
  blocked : Kernel D → Received D

module _ {D : Type 0} (dev : BlockDev D) where
  -- What is done with the process that was found.
  unfoldable pub send_to : Kernel D → ℤ → ℕ → Option ℕ → ℤ × Kernel D
  unfolding wake
  send_to k src_pid message none = (negsuc 0, k)
  send_to k src_pid message (some i) =
      let dst = k.procs i in
      let p = record dst {
        ipc_has_message = true;
        ipc_from_pid = src_pid;
        ipc_message = message;
      } in
      let k' = set_proc k i p in
      if is_exited dst.state
      then (negsuc 0, k)
      else if dst.ipc_has_message
      then (negsuc 1, k)
      else (
        pos 0,
        if is_waiting dst.state && is_ipc_recv dst.wait_reason then wake dev k' i else k',
      )

  unfoldable pub process_ipc_send : Kernel D → ℤ → ℤ → ℕ → ℤ × Kernel D
  unfolding send_to
  process_ipc_send k src_pid dst_pid message =
      send_to k src_pid message (find_process_by_pid k dst_pid)

  -- A round of the receiver in this slot.
  unfoldable pub recv_at : Kernel D → Option ℕ → Received D
  unfolding procfs_sync_best_effort
  recv_at k none = no_process
  recv_at k (some i) =
      let self = k.procs i in
      let empty = record self { ipc_has_message = false; ipc_from_pid = pos 0; ipc_message = 0 } in
      let asleep = record self { wait_reason = ipc_recv; wait_pid = minus_one; state = waiting } in
      if self.ipc_has_message
      then received self.ipc_from_pid self.ipc_message (set_proc k i empty)
      else blocked (procfs_sync_best_effort dev (set_proc k i asleep) i)

  unfoldable pub process_ipc_recv : Kernel D → ℤ → Received D
  unfolding recv_at
  process_ipc_recv k self_pid = recv_at k (find_process_by_pid k self_pid)
