-- ===== src/Fs/Vfs.antt =====
-- The mount table of src/kernel/fs/fs.c and the choice of the mount for a path.
pub mod Matching
pub mod Longest
use aqua_core.Prelude.{
  ℕ, zero, suc, ◌+◌, ◌≡◌, Bool, true, false, not, ◌&&◌, ◌||◌, Option, none, some, List, [], ◌∷◌,
  ltb, leb, ◌==◌, if◌then◌else◌, ℤ, pos, eq_int, update, find_from, length, drop, index_below,
}
use aqua_core.Fs.Path.{slash}
use aqua_core.Fs.Node.{Nodefs, is_absolute}
use aqua_core.Fs.Nodefs.{Fd, FdTable, procs_max, fd_max}

abbrev pub path_max : ℕ
path_max = 64

abbrev pub mount_max : ℕ
mount_max = 4

-- The instances that a mount's `ctx` points to.
pub data Instance : Type 0 where
  rootfs tmpfs procfs : Instance

abbrev pub same_instance : Instance → Instance → Bool
same_instance rootfs rootfs = true
same_instance tmpfs tmpfs = true
same_instance procfs procfs = true
same_instance _ _ = false

-- `struct vfs_mount`. All mounts have the operations `nodefs_ops`.
pub record Mount : Type 0 where
  pub used : Bool
  pub path : List ℕ
  pub path_len : ℕ
  pub ctx : Instance

-- The characters that the console driver will deliver, how many are taken, and the output.
pub record Console : Type 0 where
  pub input : ℕ → ℕ
  pub taken : ℕ
  pub output : List ℕ

-- The static state of fs.c, the disk, and the console that descriptors 0 and 1 fall back to.
pub record Fs (D : Type 0) : Type 0 where
  pub fd_table : FdTable
  pub mounts : ℕ → Mount
  pub instances : Instance → Nodefs
  pub disk : D
  pub console : Console

abbrev pub set_instance : (Instance → Nodefs) → Instance → Nodefs → Instance → Nodefs
set_instance instances ctx fs c = if same_instance ctx c then fs else instances c

abbrev pub set_fd : FdTable → ℕ → ℕ → Fd → FdTable
set_fd fds pid fd f p q = if p == pid && q == fd then f else fds p q

-- The prefix loop of `vfs_match_mount`: the rest of the path behind the mount's.
unfoldable pub match_prefix : List ℕ → List ℕ → Option (List ℕ)
match_prefix [] path = some path
match_prefix (m ∷ ms) [] = none
match_prefix (m ∷ ms) (c ∷ cs) = if c == m then match_prefix ms cs else none

-- next == '\0' || next == '/'
abbrev pub at_boundary : List ℕ → Bool
at_boundary [] = true
at_boundary (c ∷ cs) = c == slash

unfoldable pub vfs_match_mount : Mount → List ℕ → Bool
unfolding match_prefix
vfs_match_mount m path =
    if m.path_len == 1 && is_absolute m.path
    then true
    else elim (match_prefix m.path path) [ none ↦ false | some rest ↦ at_boundary rest ]

-- `mounts[i].path_len > best_len`, where no best mount has length -1.
abbrev pub is_longer : (ℕ → Mount) → Option ℕ → ℕ → Bool
is_longer mounts none i = true
is_longer mounts (some b) i = ltb (mounts b).path_len (mounts i).path_len

-- The loop of `vfs_resolve_mount`.
unfoldable pub best_mount : (ℕ → Mount) → List ℕ → ℕ → ℕ → Option ℕ → Option ℕ
unfolding vfs_match_mount
best_mount mounts path zero i best = best
best_mount mounts path (suc n) i best = best_mount mounts path n (i + 1) (
    if (mounts i).used && vfs_match_mount (mounts i) path && is_longer mounts best i
    then some i
    else best)

-- An empty rest of the path names the mount's root.
abbrev pub or_root : List ℕ → List ℕ
or_root [] = slash ∷ []
or_root (c ∷ cs) = c ∷ cs

abbrev pub subpath_of : ℕ → List ℕ → List ℕ
subpath_of best_len path = if best_len == 1 then path else or_root (drop best_len path)

-- The mount's index, and the path below it.
unfoldable pub vfs_resolve_mount : (ℕ → Mount) → List ℕ → Option (ℕ × List ℕ)
unfolding best_mount
vfs_resolve_mount mounts path =
    if is_absolute path
    then elim (best_mount mounts path mount_max 0 none) [
      | none ↦ none
      | some best ↦
          let subpath = subpath_of (mounts best).path_len path in
          if is_absolute subpath then some (best, subpath) else none
    ]
    else none

module _ {D : Type 0} where
  -- Returns the new state, or none for -1, which leaves the state as it is.
  unfoldable pub vfs_mount : Fs D → List ℕ → Instance → Option (Fs D)
  vfs_mount st path ctx =
      if leb path_max (length path) || not (is_absolute path)
      then none
      else elim (find_from (λ i. not (st.mounts i).used) mount_max 0) [
        | none ↦ none
        | some i ↦
            let m : Mount = record {
              used = true;
              path = path;
              path_len = length path;
              ctx = ctx;
            } in
            let fs : Nodefs = record (st.instances ctx) { mount_idx = pos i } in
            some (record st {
              mounts = update st.mounts i m;
              instances = set_instance st.instances ctx fs;
            })
      ]

  unfoldable pub vfs_alloc_fd : Fs D → ℤ → ℤ → ℤ → ℕ → ℕ → Option ℕ × Fs D
  vfs_alloc_fd st pid mount_idx node_index offset flags = elim (index_below procs_max pid) [
    | none ↦ (none, st)
    | some p ↦ elim (find_from (λ fd. not (st.fd_table p fd).used) fd_max 0) [
      | none ↦ (none, st)
      | some fd ↦
          let f : Fd = record {
            used = true;
            mount_idx = mount_idx;
            node_index = node_index;
            offset = offset;
            flags = flags;
          } in
          (some fd, record st { fd_table = set_fd st.fd_table p fd f })
    ]
  ]
