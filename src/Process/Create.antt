-- ===== src/Process/Create.antt =====
-- `create_process` of src/kernel/proc/process.c.
use aqua_core.Prelude.{ℕ, false, Option, none, some, List, [], ◌∷◌, ℤ, pos, minus_one}
use aqua_core.Commonlibs.Text.{strcpy_s}
use aqua_core.Fs.Block.{BlockDev}
use aqua_core.Fs.Path.{slash}
use aqua_core.Fs.Vfs.{path_max}
use aqua_core.Fs.Api.{fs_get_root_entry}
use aqua_core.Memory.{Memory, Outcome, ok, ◌>>=◌, alloc_pages}
use aqua_core.Process.{
  Process, Kernel, runnable, no_wait, time_slice_ticks, set_process_name, clear_exec_args, set_proc,
}
use aqua_core.Process.Procfs.{procfs_sync_best_effort}
use aqua_core.Process.Space.{Layout, map_kernel, load_image, image_pages, rounds_between}
use aqua_core.Process.Slots.{recycle_process_slot, reap_exited_processes, free_slot}

-- The page table of a new process, and the memory in which it maps the image.
unfoldable pub new_space : Layout → (ℕ → ℕ) → ℕ → Memory → Outcome (ℕ × Memory)
new_space layout image image_size m = alloc_pages 1 m >>= λ (page_table, m1).
    map_kernel layout page_table m1
    >>= load_image page_table image image_size 0 (rounds_between 0 image_size)
    >>= λ m2. ok (page_table, m2)

-- The process in slot i, with its page table and its root directory.
abbrev pub created : Process → ℕ → List ℕ → ℕ → ℕ → ℤ × ℕ → Process
created p i name image_size page_table (root_mount_idx, root_node_idx) =
    record (clear_exec_args (set_process_name p name)) {
      pid = pos i;
      state = runnable;
      wait_reason = no_wait;
      wait_pid = minus_one;
      parent_pid = pos 0;
      user_pages = image_pages image_size;
      page_table = page_table;
      time_slice = time_slice_ticks;
      run_ticks = 0;
      schedule_count = 0;
      ipc_has_message = false;
      ipc_from_pid = pos 0;
      ipc_message = 0;
      root_mount_idx = root_mount_idx;
      root_node_idx = root_node_idx;
      root_path = strcpy_s p.root_path path_max (slash ∷ []);
      cwd_mount_idx = root_mount_idx;
      cwd_node_idx = root_node_idx;
      cwd_path = strcpy_s p.cwd_path path_max (slash ∷ []);
    }

module _ {D : Type 0} (dev : BlockDev D) (layout : Layout) where
  -- The process is started in its slot, unless the root directory is missing.
  unfoldable pub start_process :
      ℕ → List ℕ → ℕ → ℕ → Option (ℤ × ℕ) → Kernel D → Outcome (Option ℕ × Kernel D)
  start_process i name image_size page_table none k =
      recycle_process_slot dev k i >>= λ k'. ok (none, k')
  start_process i name image_size page_table (some root) k =
      let p = created (k.procs i) i name image_size page_table root in
      ok (some i, procfs_sync_best_effort dev (set_proc k i p) i)

  -- What is done once the slot is chosen; none is no free slot.
  unfoldable pub create_in :
      Option ℕ → (ℕ → ℕ) → ℕ → List ℕ → Kernel D → Outcome (Option ℕ × Kernel D)
  unfolding start_process
  create_in none image image_size name k = ok (none, k)
  create_in (some i) image image_size name k =
      new_space layout image image_size k.memory >>= λ (page_table, memory).
      start_process i name image_size page_table (fs_get_root_entry k.fs)
        (record k { memory = memory })

  -- The slot, or none for NULL.
  unfoldable pub create_process : (ℕ → ℕ) → ℕ → List ℕ → Kernel D → Outcome (Option ℕ × Kernel D)
  unfolding create_in
  create_process image image_size name k =
      reap_exited_processes dev k >>= λ k'. create_in (free_slot k') image image_size name k'
