-- ===== src/Process/Safe/Space.antt =====
-- Creating, forking and replacing processes in src/kernel/proc/process.c, and the invariant.
use aqua_core.Prelude.{
  ℕ, ◌≡◌, refl, ap, ◌∙◌, Bool, false, ◌||◌, Option, none, some, List, ◌==◌, arith, if-cases, ℤ, pos,
  negsuc, update,
}
use aqua_core.Fs.Block.{BlockDev}
use aqua_core.Fs.Vfs.{Fs}
use aqua_core.Fs.Api.{fs_get_root_entry}
use aqua_core.Fs.Valid.{IsValid}
use aqua_core.Fs.Valid.Ops.{fs_fork_copy_fds-IsValid}
use aqua_core.Memory.{Memory, ◌>>=◌, alloc_pages}
use aqua_core.Process.{
  Process, Kernel, is_unused, is_runnable, is_waiting, set_proc, set_exec_args, set_process_name,
  clear_exec_args,
}
use aqua_core.Process.Space.{
  Layout, free_user_pages, free_user_pages_only, exec_image, map_kernel, copy_user_pages,
  rounds_between,
}
use aqua_core.Process.Slots.{reap_exited_processes, alloc_proc_slot, free_slot}
use aqua_core.Process.Create.{start_process, create_in, create_process, new_space}
use aqua_core.Process.Fork.{
  fork_failed, fork_space, fork_finish, fork_fds, fork_into, fork_slot, process_fork, inherited,
}
use aqua_core.Process.Exec.{process_exec, executed}
use aqua_core.Process.Safe.{
  WhenOk, bind-WhenOk, then-WhenOk, IsSound, set_proc-IsSound, memory-IsSound, sync-IsSound,
}
use aqua_core.Process.Safe.Wakes.{keep_pid-IsSound}
use aqua_core.Process.Safe.Slot.{
  recycle_process_slot-IsSound, reap_exited_processes-IsSound, IsTaken, alloc_proc_slot-IsTaken,
}

-- A result with a sound kernel.
abbrev pub IsSoundAfter {ℓ} : {D : Type 0} {A : Type ℓ} → A × Kernel D → Type 0
IsSoundAfter r = IsSound r.1

module _ {D : Type 0} (dev : BlockDev D) (layout : Layout) where
  start_process-IsSound :
      (i : ℕ) (name : List ℕ) (image_size page_table : ℕ) (root : Option (ℤ × ℕ)) (k : Kernel D)
      → IsSound k
      → WhenOk IsSoundAfter (start_process dev layout i name image_size page_table root k)
  unfolding start_process
  start_process-IsSound i name image_size page_table none k s =
      bind-WhenOk IsSound IsSoundAfter _ _ (recycle_process_slot-IsSound dev k i s) (λ k' s'. s')
  start_process-IsSound i name image_size page_table (some root) k s =
      sync-IsSound dev _ i (set_proc-IsSound k i _ s (λ lt used. refl))

  create_in-IsSound :
      (slot : Option ℕ) (image : ℕ → ℕ) (image_size : ℕ) (name : List ℕ) (k : Kernel D)
      → IsSound k
      → WhenOk IsSoundAfter (create_in dev layout slot image image_size name k)
  unfolding create_in
  create_in-IsSound none image image_size name k s = s
  create_in-IsSound (some i) image image_size name k s =
      then-WhenOk IsSoundAfter (new_space layout image image_size k.memory) _ (λ (page_table, m).
        start_process-IsSound i name image_size page_table (fs_get_root_entry k.fs)
          (record k { memory = m }) (memory-IsSound k m s))

  pub create_process-IsSound :
      (image : ℕ → ℕ) (image_size : ℕ) (name : List ℕ) (k : Kernel D)
      → IsSound k
      → WhenOk IsSoundAfter (create_process dev layout image image_size name k)
  unfolding create_process
  create_process-IsSound image image_size name k s =
      bind-WhenOk IsSound IsSoundAfter (reap_exited_processes dev k) _
        (reap_exited_processes-IsSound dev k s)
        (λ k' s'. create_in-IsSound (free_slot k') image image_size name k' s')

  fork_failed-IsSound :
      (k : Kernel D) (c : ℕ) → IsSound k → WhenOk IsSoundAfter (fork_failed dev layout k c)
  unfolding fork_failed
  fork_failed-IsSound k c s =
      bind-WhenOk IsSound IsSoundAfter _ _ (recycle_process_slot-IsSound dev k c s) (λ k' s'. s')

  -- A sound kernel, in which slot c has its own index as pid.
  record HasChild (c : ℕ) (k : Kernel D) : Type 0 where
    sound : IsSound k
    own_pid : (k.procs c).pid ≡ pos c

  -- The child may be changed when it keeps its pid.
  set_child :
      (k : Kernel D) (c : ℕ) (p : Process)
      → HasChild c k
      → p.pid ≡ (k.procs c).pid
      → HasChild c (set_proc k c p)
  set_child k c p h same =
      let here : update k.procs c p c ≡ p = ground arith in
      record {
        sound = set_proc-IsSound k c p h.sound (λ lt used. same ∙ h.own_pid);
        own_pid = ap (λ (q : Process). q.pid) here ∙ same ∙ h.own_pid;
      }

  fork_space-HasChild :
      (k : Kernel D) (c : ℕ)
      → HasChild c k
      → WhenOk (λ (r : Bool × Kernel D). HasChild c r.1) (fork_space dev layout k c)
  unfolding fork_space
  fork_space-HasChild k c h =
      let P : Bool × Kernel D → Type 0 = λ r. HasChild c r.1 in
      let keep : (m : Memory) → HasChild c (record k { memory = m }) =
        λ m. record { sound = memory-IsSound k m h.sound; own_pid = h.own_pid } in
      then-WhenOk P (alloc_pages 1 k.memory) _ (λ (page_table, m).
        if-cases (WhenOk P) (page_table == 0) _ _ (λ e. keep m)
          (λ e.
            then-WhenOk P
              (map_kernel layout page_table m
                >>= copy_user_pages (k.procs k.current_proc).page_table page_table 0
                    (k.procs k.current_proc).user_pages)
              _ (λ (copied, m'). set_child (record k { memory = m' }) c _ (keep m') refl)))

  fork_finish-IsSound :
      (c : ℕ) (k : Kernel D) (copied : Option (Unit {0}) × Fs D)
      → HasChild c k
      → IsValid copied.1
      → WhenOk IsSoundAfter (fork_finish dev layout c k copied)
  unfolding fork_finish
  fork_finish-IsSound c k (none, fs) h v =
      fork_failed-IsSound (record k { fs = fs }) c (record { valid = v; table = h.sound.table })
  fork_finish-IsSound c k (some u, fs) h v = sync-IsSound dev _ c (
      set_proc-IsSound (record k { fs = fs }) c _ (record { valid = v; table = h.sound.table })
        (λ lt used. h.own_pid))

  fork_into-IsSound :
      (k : Kernel D) (c : ℕ) → HasChild c k → WhenOk IsSoundAfter (fork_into dev layout k c)
  unfolding fork_into fork_fds
  fork_into-IsSound k c h =
      let parent = k.procs k.current_proc in
      let child = inherited parent (k.procs c) in
      let P : Bool × Kernel D → Type 0 = λ r. HasChild c r.1 in
      if-cases (WhenOk IsSoundAfter) (is_runnable parent.state || is_waiting parent.state) _ _
        (λ e.
          bind-WhenOk P IsSoundAfter (fork_space dev layout (set_proc k c child) c) _
            (fork_space-HasChild _ c (set_child k c child h refl))
            (λ (copied, k') h'.
              if-cases (WhenOk IsSoundAfter) copied _ _
                (λ f. fork_finish-IsSound c k' _ h' (
                  fs_fork_copy_fds-IsValid k'.fs (k'.procs k'.current_proc).pid (k'.procs c).pid
                    h'.sound.valid))
                (λ f. fork_failed-IsSound k' c h'.sound)))
        (λ e. fork_failed-IsSound k c h.sound)

  fork_slot-IsSound :
      (r : Option ℕ × Kernel D) → IsTaken dev r → WhenOk IsSoundAfter (fork_slot dev layout r)
  unfolding fork_slot
  fork_slot-IsSound (none, k) t = t.sound
  fork_slot-IsSound (some c, k) t =
      fork_into-IsSound k c (record { sound = t.sound; own_pid = t.own_pid c refl })

  pub process_fork-IsSound :
      (k : Kernel D) → IsSound k → WhenOk IsSoundAfter (process_fork dev layout k)
  unfolding process_fork
  process_fork-IsSound k s =
      bind-WhenOk (IsTaken dev) IsSoundAfter (alloc_proc_slot dev k) (fork_slot dev layout)
        (alloc_proc_slot-IsTaken dev k s) fork_slot-IsSound

-- What the release of the user pages leaves of the process.
record KeepsPid (p : Process) (r : Process × Memory) : Type 0 where
  pid : r.0.pid ≡ p.pid
  state : r.0.state ≡ p.state

free_user_pages_only-KeepsPid :
    (p : Process) (m : Memory) → WhenOk (KeepsPid p) (free_user_pages_only p m)
unfolding free_user_pages_only
free_user_pages_only-KeepsPid p m =
    if-cases (WhenOk (KeepsPid p)) (p.page_table == 0) _ _
      (λ e. record { pid = refl; state = refl })
      (λ e.
        then-WhenOk (KeepsPid p) (free_user_pages p.page_table 0 p.user_pages m) _
          (λ m'. record { pid = refl; state = refl }))

executed-pid :
    (p : Process) (image_size : ℕ) (name : List ℕ) (argc : ℤ) (argv : ℕ → List ℕ)
    → (executed p image_size name argc argv).pid ≡ p.pid
unfolding set_exec_args set_process_name clear_exec_args
executed-pid p image_size name (pos argc) argv = refl
executed-pid p image_size name (negsuc argc) argv = refl

pub process_exec-IsSound :
    {D : Type 0} (dev : BlockDev D) (image : ℕ → ℕ) (image_size : ℕ) (name : List ℕ) (argc : ℤ)
    (argv : ℕ → List ℕ) (k : Kernel D)
    → IsSound k
    → is_unused (k.procs k.current_proc).state ≡ false
    → WhenOk IsSoundAfter (process_exec dev image image_size name argc argv k)
unfolding process_exec
process_exec-IsSound dev image image_size name argc argv k s used =
    let c = k.current_proc in
    let old = k.procs c in
    if-cases (WhenOk IsSoundAfter) (image_size == 0) _ _ (λ e. s)
      (λ e.
        bind-WhenOk (KeepsPid old) IsSoundAfter (free_user_pages_only old k.memory) _
          (free_user_pages_only-KeepsPid old k.memory)
          (λ (p, m) kept.
            then-WhenOk IsSoundAfter
              (exec_image p.page_table image image_size 0 (rounds_between 0 image_size) m) _
              (λ (loaded, m').
                let freed = set_proc (record k { memory = m' }) c p in
                let s1 = keep_pid-IsSound dev _ c p (memory-IsSound k m' s) used kept.pid in
                if-cases (WhenOk IsSoundAfter) loaded _ _
                  (λ f. sync-IsSound dev _ c (
                    set_proc-IsSound freed c _ s1 (λ lt u.
                      executed-pid p image_size name argc argv
                      ∙ kept.pid
                      ∙ s.table.own_pid c lt used)))
                  (λ f. s1))))
