-- ===== src/Process/Ipc/Deliver.antt =====
-- The delivery of messages in src/kernel/proc/process.c.
use aqua_core.Prelude.{
  ℕ, ◌<◌, ◌≡◌, refl, sym, ap, subst, ◌∙◌, Bool, true, false, ◌&&◌, arith, if-cases, if-true,
  if-false, some, if◌then◌else◌, ℤ, pos, negsuc, update,
}
use aqua_core.Fs.Block.{BlockDev}
use aqua_core.Fs.Nodefs.{procs_max}
use aqua_core.Process.{
  Process, Kernel, is_unused, is_exited, is_waiting, is_ipc_recv, set_proc, find_process_by_pid,
}
use aqua_core.Process.Table.{find_process_by_pid_lem}
use aqua_core.Process.Wait.{wake}
use aqua_core.Process.Wait.Wake.{woken, wake-procs}
use aqua_core.Process.Ipc.{received, process_ipc_send, process_ipc_recv, send_to, recv_at}
use aqua_core.Process.Safe.{IsSound}
use aqua_core.Process.Safe.Calls.{process_ipc_send-IsSound}

-- The process lives and holds a message from src.
record HasMessage (p : Process) (src : ℤ) (message : ℕ) : Type 0 where
  full : p.ipc_has_message ≡ true
  from : p.ipc_from_pid ≡ src
  content : p.ipc_message ≡ message
  used : is_unused p.state ≡ false
  alive : is_exited p.state ≡ false

-- What a send to process n, by process src, brings about.
pub record IsDelivered {D : Type 0} (dev : BlockDev D) (n : ℕ) (src : ℤ) (message : ℕ)
    (sent : ℤ × Kernel D) : Type 0 where
  pub result : sent.0 ≡ pos 0
  pub after : Kernel D
  pub receives : process_ipc_recv dev sent.1 (pos n) ≡ received src message after
  pub emptied : (after.procs n).ipc_has_message ≡ false
  pub busy :
      (other : ℤ) (message' : ℕ)
      → process_ipc_send dev sent.1 other (pos n) message' ≡ (negsuc 1, sent.1)

update_self : (procs : ℕ → Process) (n : ℕ) (p : Process) → update procs n p n ≡ p
update_self procs n p = ground arith

module _ {D : Type 0} (dev : BlockDev D) where
  abbrev with_message : Process → ℤ → ℕ → Process
  with_message p src message = record p {
    ipc_has_message = true;
    ipc_from_pid = src;
    ipc_message = message;
  }

  abbrev sleeps : Process → Bool
  sleeps p = is_waiting p.state && is_ipc_recv p.wait_reason

  -- The kernel after a send that is accepted.
  abbrev accepted : Kernel D → ℕ → ℤ → ℕ → Kernel D
  accepted k n src message =
      let k' = set_proc k n (with_message (k.procs n) src message) in
      if sleeps (k.procs n) then wake dev k' n else k'

  process_ipc_send-accepted :
      (k : Kernel D) (src : ℤ) (n message : ℕ)
      → find_process_by_pid k (pos n) ≡ some n
      → is_exited (k.procs n).state ≡ false
      → (k.procs n).ipc_has_message ≡ false
      → process_ipc_send dev k src (pos n) message ≡ (pos 0, accepted k n src message)
  unfolding process_ipc_send
  process_ipc_send-accepted k src n message found alive empty =
      ap (send_to dev k src message) found ∙ if-false _ _ alive ∙ if-false _ _ empty

  accepted-HasMessage :
      (k : Kernel D) (n : ℕ) (src : ℤ) (message : ℕ)
      → is_unused (k.procs n).state ≡ false
      → is_exited (k.procs n).state ≡ false
      → HasMessage ((accepted k n src message).procs n) src message
  accepted-HasMessage k n src message used alive =
      let p = with_message (k.procs n) src message in
      let k' = set_proc k n p in
      let here = update_self k.procs n p in
      let woke =
        ap (λ t. t n) (wake-procs dev k' n) ∙ update_self k'.procs n (woken (k'.procs n)) in
      let P : Kernel D → Type 0 = λ x. HasMessage (x.procs n) src message in
      if-cases P (sleeps (k.procs n)) (wake dev k' n) k'
        (λ e.
          subst (λ (q : Process). HasMessage q src message) (sym (woke ∙ ap woken here))
            (record { full = refl; from = refl; content = refl; used = refl; alive = refl }))
        (λ e.
          subst (λ (q : Process). HasMessage q src message) (sym here)
            (record { full = refl; from = refl; content = refl; used = used; alive = alive }))

  abbrev emptied_proc : Process → Process
  emptied_proc p = record p { ipc_has_message = false; ipc_from_pid = pos 0; ipc_message = 0 }

  process_ipc_recv-full :
      (k : Kernel D) (n : ℕ)
      → find_process_by_pid k (pos n) ≡ some n
      → (k.procs n).ipc_has_message ≡ true
      → process_ipc_recv dev k (pos n)
        ≡ received
            (k.procs n).ipc_from_pid
            (k.procs n).ipc_message
            (set_proc k n (emptied_proc (k.procs n)))
  unfolding process_ipc_recv
  process_ipc_recv-full k n found full = ap (recv_at dev k) found ∙ if-true _ _ full

  process_ipc_send-full :
      (k : Kernel D) (src : ℤ) (n message : ℕ)
      → find_process_by_pid k (pos n) ≡ some n
      → is_exited (k.procs n).state ≡ false
      → (k.procs n).ipc_has_message ≡ true
      → process_ipc_send dev k src (pos n) message ≡ (negsuc 1, k)
  unfolding process_ipc_send
  process_ipc_send-full k src n message found alive full =
      ap (send_to dev k src message) found ∙ if-false _ _ alive ∙ if-true _ _ full

  -- In a sound kernel, a message sent to a process that lives and has none is accepted; the process
  -- then receives the message and its sender, and its mailbox is empty again; until then every
  -- further message to it is refused with -2, and changes nothing.
  pub process_ipc_recv-process_ipc_send :
      (k : Kernel D) (src : ℤ) (n message : ℕ)
      → IsSound k
      → 0 < n
      → n < procs_max
      → is_unused (k.procs n).state ≡ false
      → is_exited (k.procs n).state ≡ false
      → (k.procs n).ipc_has_message ≡ false
      → IsDelivered dev n src message (process_ipc_send dev k src (pos n) message)
  process_ipc_recv-process_ipc_send k src n message s lo hi used alive empty =
      let found = find_process_by_pid_lem k n s.table lo hi used in
      let sent = process_ipc_send-accepted k src n message found alive empty in
      let k' = accepted k n src message in
      let h = accepted-HasMessage k n src message used alive in
      let s' =
        subst (λ r. IsSound r.1) sent (process_ipc_send-IsSound dev k src (pos n) message s) in
      let found' = find_process_by_pid_lem k' n s'.table lo hi h.used in
      subst (IsDelivered dev n src message) (sym sent) (record {
        result = refl;
        after = set_proc k' n (emptied_proc (k'.procs n));
        receives =
            process_ipc_recv-full k' n found' h.full
            ∙ ap
                (λ p.
                  received p (k'.procs n).ipc_message (set_proc k' n (emptied_proc (k'.procs n))))
                h.from
            ∙ ap (λ m. received src m (set_proc k' n (emptied_proc (k'.procs n)))) h.content;
        emptied =
            ap (λ (p : Process). p.ipc_has_message)
              (update_self k'.procs n (emptied_proc (k'.procs n)));
        busy = λ other message'. process_ipc_send-full k' other n message' found' h.alive h.full;
      })
