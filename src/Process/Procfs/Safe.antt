-- ===== src/Process/Procfs/Safe.antt =====
-- The files in /proc and the well-formedness of the file system: src/kernel/proc/process.c calls
-- src/kernel/fs/fs.c.
use aqua_core.Prelude.{ℕ, List, Option, none, some, ℤ, pos, length, Bool-cases, inl, inr, le_zero}
use aqua_core.Commonlibs.Text.{codes}
use aqua_core.Fs.Block.{BlockDev}
use aqua_core.Fs.Vfs.{Fs}
use aqua_core.Fs.Valid.{IsValid}
use aqua_core.Fs.Valid.Ops.{fs_close-IsValid, fs_on_process_recycle-IsValid}
use aqua_core.Fs.Valid.Calls.{
  fs_mkdir-IsValid, fs_rmdir-IsValid, fs_unlink-IsValid, fs_open-IsValid, fs_write-IsValid,
}
use aqua_core.Process.{Process, print}
use aqua_core.Process.Procfs.{
  write_status, put_status, sync_in, cleanup_in, procfs_sync_process, procfs_cleanup, reported,
  sync_best_effort, status_content, status_path, bytes_of,
}
use aqua_core.Process.Slots.{close_process}

module _ {D : Type 0} where
  print-IsValid : (st : Fs D) (text : List ℕ) → IsValid st → IsValid (print st text)
  unfolding print
  print-IsValid st text v = record { tree = v.tree; at_mount = v.at_mount; fd = v.fd }

  reported-IsValid :
      (text : List ℕ) (r : Option (Unit {0}) × Fs D) → IsValid r.1 → IsValid (reported text r)
  reported-IsValid text (none, st) v = print-IsValid st text v
  reported-IsValid text (some u, st) v = v

module _ {D : Type 0} (dev : BlockDev D) where
  write_status-IsValid :
      (pid : ℤ) (content : List ℕ) (opened : Option ℕ × Fs D)
      → IsValid opened.1
      → IsValid (write_status dev pid content opened).1
  unfolding write_status
  write_status-IsValid pid content (none, st) v = v
  write_status-IsValid pid content (some fd, st) v =
      fs_close-IsValid _ pid (pos fd)
        (fs_write-IsValid dev st pid (pos fd) (bytes_of content) (length content) v)

  put_status-IsValid :
      (pid : ℤ) (dir : List ℕ) (content : Option (List ℕ)) (st : Fs D)
      → IsValid st
      → IsValid (put_status dev pid dir content st).1
  unfolding put_status
  put_status-IsValid pid dir none st v = v
  put_status-IsValid pid dir (some content) st v =
      write_status-IsValid pid content _ (fs_open-IsValid dev st pid (status_path dir) _ v)

  sync_in-IsValid :
      (p : Process) (dir : Option (List ℕ)) (st : Fs D)
      → IsValid st
      → IsValid (sync_in dev p dir st).1
  unfolding sync_in
  sync_in-IsValid p none st v = v
  sync_in-IsValid p (some dir) st v =
      put_status-IsValid p.pid dir (status_content p) _ (fs_mkdir-IsValid dev st dir v)

  cleanup_in-IsValid :
      (dir : Option (List ℕ)) (st : Fs D) → IsValid st → IsValid (cleanup_in dev dir st).1
  unfolding cleanup_in
  cleanup_in-IsValid none st v = v
  cleanup_in-IsValid (some dir) st v =
      fs_rmdir-IsValid dev _ dir (fs_unlink-IsValid dev st (status_path dir) v)

  pub sync_best_effort-IsValid :
      (st : Fs D) (p : Process) → IsValid st → IsValid (sync_best_effort dev st p)
  unfolding sync_best_effort procfs_sync_process
  sync_best_effort-IsValid st p v = elim (Bool-cases (le_zero p.pid)) [
    | inl e ↦ rw e v
    | inr e ↦ rw e (reported-IsValid _ _ (sync_in-IsValid p _ st v))
  ]

  pub close_process-IsValid :
      (st : Fs D) (p : Process) → IsValid st → IsValid (close_process dev st p)
  unfolding close_process procfs_cleanup
  close_process-IsValid st p v =
      fs_on_process_recycle-IsValid _ p.pid (reported-IsValid _ _ (cleanup_in-IsValid _ st v))

  -- A sync whose failure is printed, for any process.
  pub sync_always-IsValid :
      (st : Fs D) (p : Process)
      → IsValid st
      → IsValid (reported (codes "procfs sync failed\n") (procfs_sync_process dev st p))
  unfolding procfs_sync_process
  sync_always-IsValid st p v = reported-IsValid _ _ (sync_in-IsValid p _ st v)
