-- ===== src/Process/Exec.antt =====
-- `process_exec` of src/kernel/proc/process.c. A NULL image has no bytes, and is refused like one of
-- size 0; `sepc` is not modelled.
use aqua_core.Prelude.{ℕ, List, ◌==◌, if◌then◌else◌, ℤ, pos, minus_one}
use aqua_core.Fs.Block.{BlockDev}
use aqua_core.Memory.{Outcome, ok, ◌>>=◌}
use aqua_core.Process.{
  Process, Kernel, no_wait, time_slice_ticks, set_process_name, set_exec_args, set_proc,
}
use aqua_core.Process.Procfs.{procfs_sync_best_effort}
use aqua_core.Process.Space.{free_user_pages_only, exec_image, image_pages, rounds_between}

-- The process when it runs the new image.
abbrev pub executed : Process → ℕ → List ℕ → ℤ → (ℕ → List ℕ) → Process
executed p image_size name argc argv =
    set_exec_args
      (record (set_process_name p name) {
        user_pages = image_pages image_size;
        wait_reason = no_wait;
        wait_pid = minus_one;
        time_slice = time_slice_ticks;
        run_ticks = 0;
      })
      argc argv

module _ {D : Type 0} (dev : BlockDev D) where
  unfoldable pub process_exec :
      (ℕ → ℕ) → ℕ → List ℕ → ℤ → (ℕ → List ℕ) → Kernel D → Outcome (ℤ × Kernel D)
  process_exec image image_size name argc argv k =
      let c = k.current_proc in
      if image_size == 0
      then ok (minus_one, k)
      else (free_user_pages_only (k.procs c) k.memory >>= λ (p, m).
          exec_image p.page_table image image_size 0 (rounds_between 0 image_size) m
          >>= λ (loaded, m').
              let freed = set_proc (record k { memory = m' }) c p in
              let done = set_proc freed c (executed p image_size name argc argv) in
              if loaded
              then ok (pos 0, procfs_sync_best_effort dev done c)
              else ok (minus_one, freed))
