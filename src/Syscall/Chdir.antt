-- ===== src/Syscall/Chdir.antt =====
-- `syscall_handle_chdir` and `syscall_handle_getcwd` of src/kernel/trap/syscall_fs.c together.
use aqua_core.Prelude.{
  update_self, ℕ, ◌<◌, ◌≡◌, refl, sym, subst, ap, ◌∙◌, Option, none, some, ◌==◌, option-cases,
  if-cases, arith, List, [], length, ℤ, pos, minus_one,
}
use aqua_core.Commonlibs.Text.{strcpy_s}
use aqua_core.Commonlibs.Text.Copying.{strcpy_s-whole}
use aqua_core.Fs.Block.{BlockDev}
use aqua_core.Fs.Node.{resolve_path, type_dir}
use aqua_core.Fs.Vfs.{Fs, vfs_resolve_mount}
use aqua_core.Fs.Api.{mounted, fs_get_path_entry}
use aqua_core.Process.{Kernel, Process}
use aqua_core.Syscall.Files.{path_max, moved_to, syscall_handle_chdir, syscall_handle_getcwd}

-- A directory of a mounted file system: a path leads to its mount, and the rest of the path leads to its
-- node, whose type is that of a directory.
pub record IsDirectory {D : Type 0} (st : Fs D) (path : List ℕ) (mount_idx : ℤ) (node : ℕ)
    : Type 0 where
  pub mount : ℕ
  pub subpath : List ℕ
  pub mounted_at : vfs_resolve_mount st.mounts path ≡ some (mount, subpath)
  pub leads : resolve_path (mounted st mount).nodes subpath ≡ some node
  pub type : ((mounted st mount).nodes node).type ≡ type_dir
  pub number : (mounted st mount).mount_idx ≡ mount_idx

-- What a change of the directory may return.
pub data IsMove {D : Type 0} (k : Kernel D) (path : List ℕ) : ℤ × Kernel D → Type 0 where
  refused :
      ((mount_idx : ℤ) (node : ℕ) → ¬ IsDirectory k.fs path mount_idx node)
      → IsMove k path (minus_one, k)
  moved :
      (mount_idx : ℤ) (node : ℕ) (k' : Kernel D)
      → IsDirectory k.fs path mount_idx node
      → (k'.procs k.current_proc).cwd_mount_idx ≡ mount_idx
      → (k'.procs k.current_proc).cwd_node_idx ≡ node
      → syscall_handle_getcwd k' ≡ (pos 0, path)
      → IsMove k path (pos 0, k')

-- What `fs_get_path_entry` returns, and why.
abbrev Finds : {D : Type 0} → Fs D → List ℕ → Option (ℤ × ℕ) → Type 0
Finds st path none = (mount_idx : ℤ) (node : ℕ) → ¬ IsDirectory st path mount_idx node
Finds st path (some (mount_idx, node)) = IsDirectory st path mount_idx node

-- A directory is where the path leads, whatever mount and rest of the path are found.
arrives :
    {D : Type 0} (st : Fs D) (path : List ℕ) (mount_idx : ℤ) (node : ℕ) (a : ℕ × List ℕ)
    → vfs_resolve_mount st.mounts path ≡ some a
    → IsDirectory st path mount_idx node
    → (resolve_path (mounted st a.0).nodes a.1 ≡ some node)
      × (((mounted st a.0).nodes node).type ≡ type_dir)
arrives st path mount_idx node a at d =
    let same : (d.mount, d.subpath) ≡ a = cc (d.mounted_at, at) in
    subst
      (λ (b : ℕ × List ℕ).
        (resolve_path (mounted st b.0).nodes b.1 ≡ some node)
        × (((mounted st b.0).nodes node).type ≡ type_dir))
      same (d.leads, d.type)

fs_get_path_entry-Finds :
    {D : Type 0} (st : Fs D) (path : List ℕ) → Finds st path (fs_get_path_entry st path)
unfolding fs_get_path_entry
fs_get_path_entry-Finds st path =
    option-cases (Finds st path) (vfs_resolve_mount st.mounts path) none _
      (λ nowhere mount_idx node d. cc (d.mounted_at, nowhere))
      (λ (m, subpath) at.
        option-cases (Finds st path) (resolve_path (mounted st m).nodes subpath) none _
          (λ lost mount_idx node d.
            let (leads, type) = arrives st path mount_idx node (m, subpath) at d in
            cc (leads, lost))
          (λ node to.
            if-cases (Finds st path) (((mounted st m).nodes node).type == type_dir) _ _
              (λ e. record {
                mount = m;
                subpath = subpath;
                mounted_at = at;
                leads = to;
                type = ground (arith, e);
                number = refl;
              })
              (λ e mount_idx other d.
                let (leads, type) = arrives st path mount_idx other (m, subpath) at d in
                let here : node ≡ other = cc (leads, to) in
                absurd (ground (arith, e, type, ap (λ i. ((mounted st m).nodes i).type) here)))))

module _ {D : Type 0} (dev : BlockDev D) (k : Kernel D) (path : List ℕ) where
  moved_to-IsMove :
      (entry : Option (ℤ × ℕ))
      → Finds k.fs path entry
      → length path < path_max
      → IsMove k path (moved_to dev k path entry)
  unfolding moved_to syscall_handle_getcwd
  moved_to-IsMove none found short = refused found
  moved_to-IsMove (some (mount_idx, node_idx)) found short =
      let c = k.current_proc in
      let p = record (k.procs c) {
        cwd_mount_idx = mount_idx;
        cwd_node_idx = node_idx;
        cwd_path = strcpy_s (k.procs c).cwd_path path_max path;
      } in
      let here = update_self k.procs c p in
      moved mount_idx node_idx _ found (ap (λ (q : Process). q.cwd_mount_idx) here)
        (ap (λ (q : Process). q.cwd_node_idx) here)
        (ap (λ (s : List ℕ). (pos 0, strcpy_s [] path_max s))
            (ap (λ (q : Process). q.cwd_path) here
              ∙ strcpy_s-whole (k.procs c).cwd_path path_max path short)
          ∙ ap (λ (s : List ℕ). (pos 0, s)) (strcpy_s-whole [] path_max path short))

  -- With a path of fewer than 64 bytes, `syscall_handle_chdir` either returns -1 and leaves the kernel
  -- as it is, and then the path leads to no directory in its mount, or it returns 0, and then the path
  -- leads to a node of the directory type, the process has its mount's number and this node as its
  -- directory, and `syscall_handle_getcwd` returns the path.
  pub syscall_handle_chdir-IsMove :
      length path < path_max → IsMove k path (syscall_handle_chdir dev k (some path))
  unfolding syscall_handle_chdir
  syscall_handle_chdir-IsMove short =
      subst (λ s. IsMove k path (moved_to dev k s (fs_get_path_entry k.fs s)))
        (sym (strcpy_s-whole [] path_max path short))
        (moved_to-IsMove (fs_get_path_entry k.fs path) (fs_get_path_entry-Finds k.fs path) short)
