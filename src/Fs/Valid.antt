-- ===== src/Fs/Valid.antt =====
-- The well-formedness of the whole state of src/kernel/fs/fs.c: no descriptor dangles.
pub mod Change
pub mod Write
pub mod Ops
pub mod Calls
pub mod Dup
pub mod Mounting
pub mod Reach
use aqua_core.Prelude.{ℕ, ◌≤◌, ◌<◌, ◌≡◌, Bool, true, ℤ, pos}
use aqua_core.Fs.Node.{Nodefs, file_max_size}
use aqua_core.Fs.Node.Tree.{IsFile, IsTree}
use aqua_core.Fs.Nodefs.{Fd, procs_max, fd_max}
use aqua_core.Fs.Vfs.{Fs, Mount, Instance, mount_max}

-- A descriptor names a used mount and a file there, at an offset that the file can reach.
pub record IsOpenFd (mounts : ℕ → Mount) (instances : Instance → Nodefs) (f : Fd) : Type 0 where
  pub mount : ℕ
  pub at_mount : f.mount_idx ≡ pos mount
  pub mount_bounded : mount < mount_max
  pub mount_used : (mounts mount).used ≡ true
  pub node : ℕ
  pub at_node : f.node_index ≡ pos node
  pub file : IsFile (instances (mounts mount).ctx).nodes node
  pub offset : f.offset ≤ file_max_size

pub record IsValid {D : Type 0} (st : Fs D) : Type 0 where
  pub tree : (c : Instance) → IsTree (st.instances c).nodes
  pub at_mount :
      (m : ℕ)
      → m < mount_max
      → (st.mounts m).used ≡ true
      → (st.instances (st.mounts m).ctx).mount_idx ≡ pos m
  pub fd :
      (p d : ℕ)
      → p < procs_max
      → d < fd_max
      → (st.fd_table p d).used ≡ true
      → IsOpenFd st.mounts st.instances (st.fd_table p d)
