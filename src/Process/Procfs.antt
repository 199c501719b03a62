-- ===== src/Process/Procfs.antt =====
-- The files in /proc that src/kernel/proc/process.c keeps for each process.
pub mod Safe
use aqua_core.Prelude.{
  ℕ, ◌-◌, ◌≡◌, Option, none, some, List, [], ◌∷◌, ◌++◌, ◌==◌, if◌then◌else◌, ℤ, pos, negsuc,
  le_zero, index_below, length, get_or, bit_or, u32, ◌%◌, ◌>>=◌,
}
use aqua_core.Commonlibs.Text.{codes, strcpy_s, strcat_s, append_char, append_str, append_u32}
use aqua_core.Fs.Block.{BlockDev}
use aqua_core.Fs.Data.{Buffer}
use aqua_core.Fs.Nodefs.{o_creat, o_wronly, o_trunc, procs_max}
use aqua_core.Fs.Vfs.{Fs, path_max}
use aqua_core.Fs.Api.{fs_open, fs_write, fs_close, fs_mkdir, fs_unlink, fs_rmdir}
use aqua_core.Process.{
  Process, Kernel, State, WaitReason, unused, runnable, waiting, exited, no_wait, console_input,
  child_exit, ipc_recv, print,
}

-- (uint32_t) x
abbrev pub word_of : ℤ → ℕ
word_of (pos n) = n % u32
word_of (negsuc n) = u32 - 1 - n % u32

abbrev pub state_id : State → ℕ
state_id unused = 0
state_id runnable = 1
state_id waiting = 2
state_id exited = 3

abbrev pub wait_reason_id : WaitReason → ℕ
wait_reason_id no_wait = 0
wait_reason_id console_input = 1
wait_reason_id child_exit = 2
wait_reason_id ipc_recv = 3

unfoldable pub proc_state_str : State → List ℕ
proc_state_str unused = codes "UNUSED"
proc_state_str runnable = codes "RUN"
proc_state_str waiting = codes "WAIT"
proc_state_str exited = codes "EXIT"

unfoldable pub proc_wait_reason_str : WaitReason → List ℕ
proc_wait_reason_str no_wait = codes "NONE"
proc_wait_reason_str console_input = codes "CONSOLE_INPUT"
proc_wait_reason_str child_exit = codes "CHILD_EXIT"
proc_wait_reason_str ipc_recv = codes "IPC_RECV"

unfoldable pub append_key_val_u32 : ℕ → List ℕ → List ℕ → ℕ → Option (List ℕ)
append_key_val_u32 size out key value =
    append_str size out key
    >>= (λ a. append_str size a (codes ":\t"))
    >>= (λ b. append_u32 size b value)
    >>= (λ c. append_char size c 10)

unfoldable pub append_key_val_str : ℕ → List ℕ → List ℕ → List ℕ → Option (List ℕ)
append_key_val_str size out key value =
    append_str size out key
    >>= (λ a. append_str size a (codes ":\t"))
    >>= (λ b. append_str size b value)
    >>= (λ c. append_char size c 10)

abbrev pub content_size : ℕ
content_size = 256

-- The text of the file `status`.
unfoldable pub status_content : Process → Option (List ℕ)
status_content p =
    append_key_val_u32 content_size [] (codes "pid") (word_of p.pid)
    >>= (λ a. append_key_val_u32 content_size a (codes "ppid") (word_of p.parent_pid))
    >>= (λ b. append_key_val_str content_size b (codes "name") p.name)
    >>= (λ c. append_key_val_u32 content_size c (codes "state_id") (state_id p.state))
    >>= (λ d. append_key_val_str content_size d (codes "state") (proc_state_str p.state))
    >>= (λ e.
        append_key_val_u32 content_size e (codes "wait_reason_id") (wait_reason_id p.wait_reason))
    >>= (λ f.
        append_key_val_str content_size f (codes "wait_reason")
          (proc_wait_reason_str p.wait_reason))
    >>= (λ g. append_key_val_str content_size g (codes "cwd") p.cwd_path)

-- The path of the process's directory.
unfoldable pub dir_path : ℕ → Option (List ℕ)
dir_path pid = append_u32 path_max (strcat_s [] path_max (codes "/proc/")) pid

unfoldable pub status_path : List ℕ → List ℕ
status_path dir = strcat_s (strcpy_s [] path_max dir) path_max (codes "/status")

abbrev pub bytes_of : List ℕ → Buffer
bytes_of text i = get_or text i 0

-- The guard on the pid, which is above 0 and below PROCS_MAX.
abbrev pub valid_pid : ℤ → Option ℕ
valid_pid pid = if le_zero pid then none else index_below procs_max pid

module _ {D : Type 0} where
  -- What is done with the result of a call whose failure is only printed.
  abbrev pub reported : List ℕ → Option (Unit {0}) × Fs D → Fs D
  reported message (none, st) = print st message
  reported message (some u, st) = st

module _ {D : Type 0} (dev : BlockDev D) where
  -- The write and the close of `procfs_sync_process`, once the file has been opened.
  unfoldable pub write_status : ℤ → List ℕ → Option ℕ × Fs D → Option (Unit {0}) × Fs D
  write_status pid content (none, st) = (none, st)
  write_status pid content (some fd, st) =
      let len = length content in
      let (written, st') = fs_write dev st pid (pos fd) (bytes_of content) len in
      (written >>= (λ n. if n == len then some tt else none), (fs_close st' pid (pos fd)).1)

  -- The text that is written to the directory's file, if it fits.
  unfoldable pub put_status : ℤ → List ℕ → Option (List ℕ) → Fs D → Option (Unit {0}) × Fs D
  unfolding write_status
  put_status pid dir none st = (none, st)
  put_status pid dir (some content) st =
      write_status pid content
        (fs_open dev st pid (status_path dir) (bit_or (bit_or o_creat o_wronly) o_trunc))

  unfoldable pub sync_in : Process → Option (List ℕ) → Fs D → Option (Unit {0}) × Fs D
  unfolding put_status
  sync_in p none st = (none, st)
  sync_in p (some dir) st = put_status p.pid dir (status_content p) (fs_mkdir dev st dir).1

  unfoldable pub procfs_sync_process : Fs D → Process → Option (Unit {0}) × Fs D
  unfolding sync_in
  procfs_sync_process st p = sync_in p (valid_pid p.pid >>= dir_path) st

  unfoldable pub cleanup_in : Option (List ℕ) → Fs D → Option (Unit {0}) × Fs D
  cleanup_in none st = (none, st)
  cleanup_in (some dir) st = (some tt, (fs_rmdir dev (fs_unlink dev st (status_path dir)).1 dir).1)

  unfoldable pub procfs_cleanup : Fs D → Process → Option (Unit {0}) × Fs D
  unfolding cleanup_in
  procfs_cleanup st p = cleanup_in (valid_pid p.pid >>= dir_path) st

  -- The file system after the process has been synced; it is not while it has no pid.
  unfoldable pub sync_best_effort : Fs D → Process → Fs D
  unfolding procfs_sync_process
  sync_best_effort st p =
      if le_zero p.pid
      then st
      else reported (codes "procfs sync failed\n") (procfs_sync_process st p)

  unfoldable pub procfs_sync_best_effort : Kernel D → ℕ → Kernel D
  procfs_sync_best_effort k i = record k { fs = sync_best_effort k.fs (k.procs i) }
