-- ===== src/Fs/Valid/Reach.antt =====
-- The calls that processes make of src/kernel/fs/fs.c, in any order, as a step relation.
use aqua_core.Prelude.{ℕ, List, ℤ}
use aqua_core.Fs.Block.{BlockDev}
use aqua_core.Fs.Data.{Buffer}
use aqua_core.Fs.Vfs.{Fs}
use aqua_core.Fs.Api.{
  fs_open, fs_close, fs_read, fs_write, fs_mkdir, fs_unlink, fs_rmdir, fs_dup2, fs_fork_copy_fds,
  fs_on_process_recycle,
}
use aqua_core.Fs.Valid.{IsValid}
use aqua_core.Fs.Valid.Ops.{
  fs_close-IsValid, fs_read-IsValid, fs_fork_copy_fds-IsValid, fs_on_process_recycle-IsValid,
}
use aqua_core.Fs.Valid.Calls.{
  fs_mkdir-IsValid, fs_rmdir-IsValid, fs_unlink-IsValid, fs_open-IsValid, fs_write-IsValid,
}
use aqua_core.Fs.Valid.Dup.{fs_dup2-IsValid}

-- One call that may change the state, by any process and with any arguments, whatever it returns.
pub data Step {D : Type 0} (dev : BlockDev D) : Fs D → Fs D → Type 0 where
  call_open :
      (st : Fs D) (pid : ℤ) (path : List ℕ) (flags : ℕ)
      → Step dev st (fs_open dev st pid path flags).1
  call_close : (st : Fs D) (pid fd : ℤ) → Step dev st (fs_close st pid fd).1
  call_read :
      (st : Fs D) (pid fd : ℤ) (buf : Buffer) (size : ℕ)
      → Step dev st (fs_read st pid fd buf size).1
  call_write :
      (st : Fs D) (pid fd : ℤ) (buf : Buffer) (size : ℕ)
      → Step dev st (fs_write dev st pid fd buf size).1
  call_mkdir : (st : Fs D) (path : List ℕ) → Step dev st (fs_mkdir dev st path).1
  call_rmdir : (st : Fs D) (path : List ℕ) → Step dev st (fs_rmdir dev st path).1
  call_unlink : (st : Fs D) (path : List ℕ) → Step dev st (fs_unlink dev st path).1
  call_dup2 : (st : Fs D) (pid old_fd new_fd : ℤ) → Step dev st (fs_dup2 st pid old_fd new_fd).1
  call_fork : (st : Fs D) (parent child : ℤ) → Step dev st (fs_fork_copy_fds st parent child).1
  call_recycle : (st : Fs D) (pid : ℤ) → Step dev st (fs_on_process_recycle st pid)

pub data Reach {D : Type 0} (dev : BlockDev D) (start : Fs D) : Fs D → Type 0 where
  here : Reach dev start start
  next : (st st' : Fs D) → Reach dev start st → Step dev st st' → Reach dev start st'

module _ {D : Type 0} (dev : BlockDev D) where
  pub Step-IsValid : (st st' : Fs D) → Step dev st st' → IsValid st → IsValid st'
  Step-IsValid _ _ (call_open st pid path flags) v = fs_open-IsValid dev st pid path flags v
  Step-IsValid _ _ (call_close st pid fd) v = fs_close-IsValid st pid fd v
  Step-IsValid _ _ (call_read st pid fd buf size) v = fs_read-IsValid st pid fd buf size v
  Step-IsValid _ _ (call_write st pid fd buf size) v = fs_write-IsValid dev st pid fd buf size v
  Step-IsValid _ _ (call_mkdir st path) v = fs_mkdir-IsValid dev st path v
  Step-IsValid _ _ (call_rmdir st path) v = fs_rmdir-IsValid dev st path v
  Step-IsValid _ _ (call_unlink st path) v = fs_unlink-IsValid dev st path v
  Step-IsValid _ _ (call_dup2 st pid old_fd new_fd) v = fs_dup2-IsValid st pid old_fd new_fd v
  Step-IsValid _ _ (call_fork st parent child) v = fs_fork_copy_fds-IsValid st parent child v
  Step-IsValid _ _ (call_recycle st pid) v = fs_on_process_recycle-IsValid st pid v

  -- However the calls of the processes interleave: from a well-formed state only well-formed states
  -- are reached. The node tables stay directory trees with unique names, and every used descriptor
  -- stays on a file that exists, at a used mount and within the file size limit.
  pub Reach-IsValid : (st st' : Fs D) → IsValid st → Reach dev st st' → IsValid st'
  Reach-IsValid st _ v here = v
  Reach-IsValid st _ v (next mid st' r s) = Step-IsValid mid st' s (Reach-IsValid st mid v r)
