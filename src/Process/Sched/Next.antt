-- ===== src/Process/Sched/Next.antt =====
-- Which process the search of `yield` in src/kernel/proc/process.c finds.
use aqua_core.Prelude.{
  ℕ, ◌+◌, ◌-◌, ◌%◌, ◌<◌, ◌≡◌, refl, sym, subst, ◌∙◌, Bool, true, false, arith, Option, none, some,
  option-cases, pos, find_from, find_from-some, find_from-none,
}
use aqua_core.Fs.Nodefs.{procs_max}
use aqua_core.Process.{Kernel}
use aqua_core.Process.Sched.{pick_next, can_run, slot_at}

-- The slot that is `i` behind slot n, in the circle of the slots.
abbrev pub behind : ℕ → ℕ → ℕ
behind n i = (n + i) % procs_max

-- The first slot that can run, in the circle from slot n on; none when no slot can run.
pub data NextFrom {D : Type 0} (k : Kernel D) (n : ℕ) : Option ℕ → Type 0 where
  next_is :
      (i : ℕ)
      → i < procs_max
      → can_run k (behind n i) ≡ true
      → ((j : ℕ) → j < i → can_run k (behind n j) ≡ false)
      → NextFrom k n (some (behind n i))
  none_can_run : ((s : ℕ) → s < procs_max → can_run k s ≡ false) → NextFrom k n none

-- Every slot is somewhere in the circle.
distance : ℕ → ℕ → ℕ
distance n s = (s + procs_max - n) % procs_max

behind-distance : (n s : ℕ) → n < procs_max → s < procs_max → behind n (distance n s) ≡ s
unfolding distance
behind-distance n s hn hs = omega arith

distance-lt : (n s : ℕ) → distance n s < procs_max
unfolding distance
distance-lt n s = omega arith

module _ {D : Type 0} where
  slot_at-behind :
      (k : Kernel D) (n i : ℕ) → (k.procs k.current_proc).pid ≡ pos n → slot_at k i ≡ behind n i
  slot_at-behind k n i e = rw (e, slot_at) refl

  -- When the current process has a pid n below 64, the search of `yield` takes the first process that
  -- can run in the circle of the slots from slot n on, this slot included, and finds none only when
  -- no process can run.
  pub pick_next_lem :
      (k : Kernel D) (n : ℕ)
      → (k.procs k.current_proc).pid ≡ pos n
      → n < procs_max
      → NextFrom k n (pick_next k)
  unfolding pick_next
  pick_next_lem k n e lt =
      let test : ℕ → Bool = λ i. can_run k (slot_at k i) in
      option-cases (NextFrom k n) (find_from test procs_max 0) none (λ i. some (slot_at k i))
        (λ f.
          let never = find_from-none test procs_max 0 f in
          none_can_run (λ s hs.
            let d = distance n s in
            subst (λ t. can_run k t ≡ false) (slot_at-behind k n d e ∙ behind-distance n s lt hs)
              (never d (omega arith) (distance-lt n s))))
        (λ i f.
          let first = find_from-some test procs_max 0 i f in
          subst (λ s. NextFrom k n (some s)) (sym (slot_at-behind k n i e))
            (next_is i (omega (arith, first.high))
              (subst (λ s. can_run k s ≡ true) (slot_at-behind k n i e) first.hit)
              (λ j hj.
                subst (λ s. can_run k s ≡ false) (slot_at-behind k n j e)
                  (first.before j (omega arith) hj))))
