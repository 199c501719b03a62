-- ===== src/Console.antt =====
-- The console input of src/kernel/trap/syscall_console.c: a ring buffer that the timer interrupt and
-- `syscall_handle_getchar` fill from the firmware, and that `syscall_handle_getchar` empties. What
-- `getchar` of the firmware has to give is the list of the characters that wait there.
pub mod Queue
pub mod Safe
mod Tests
use aqua_core.Prelude.{
  ℕ, zero, suc, ◌+◌, ◌-◌, ◌%◌, Bool, true, false, Option, none, some, List, [], ◌∷◌, ltb, ◌==◌,
  if◌then◌else◌, update,
}
use aqua_core.Fs.Block.{BlockDev}
use aqua_core.Process.{Process, Kernel, waiting, no_wait, console_input, set_proc}
use aqua_core.Process.Wait.{wakeup_input_waiters}

abbrev pub input_size : ℕ
input_size = 64

-- `input_buf`, `input_head`, `input_tail` and `input_count`.
pub record Input : Type 0 where
  pub input_buf : ℕ → ℕ
  pub input_head : ℕ
  pub input_tail : ℕ
  pub input_count : ℕ

-- *ch, or none for false.
unfoldable pub input_pop : Input → Option ℕ × Input
input_pop r = if r.input_count == 0 then (none, r) else (
  some (r.input_buf r.input_head),
  record r { input_head = (r.input_head + 1) % input_size; input_count = r.input_count - 1 },
)

-- A character is put at the tail.
abbrev pub input_push : Input → ℕ → Input
input_push r ch = record r {
  input_buf = update r.input_buf r.input_tail (ch % 256);
  input_tail = (r.input_tail + 1) % input_size;
  input_count = r.input_count + 1;
}

-- The loop of `poll_console_input`, and the characters that still wait.
unfoldable pub poll_loop : Input → List ℕ → Input × List ℕ
poll_loop r [] = (r, [])
poll_loop r (ch ∷ chars) =
    let (r', rest) = poll_loop (input_push r ch) chars in
    if ltb r.input_count input_size then (r', rest) else (r, ch ∷ chars)

module _ {D : Type 0} (dev : BlockDev D) where
  unfoldable pub poll_console_input : Kernel D → Input → List ℕ → Kernel D × Input × List ℕ
  unfolding poll_loop
  poll_console_input k r chars =
      let (r', rest) = poll_loop r chars in
      (if r'.input_count == 0 then k else wakeup_input_waiters dev k, r', rest)

  -- A round of the loop in `syscall_handle_getchar`: it returns a character, or the process sleeps.
  unfoldable pub getchar_round : Kernel D → Input → List ℕ → Option ℕ × Kernel D × Input × List ℕ
  unfolding input_pop poll_console_input
  getchar_round k r chars =
      let c = k.current_proc in
      let (first, r1) = input_pop r in
      let (k2, r2, rest) = poll_console_input k r chars in
      let (second, r3) = input_pop r2 in
      let done : Kernel D → Kernel D =
        λ k'. set_proc k' c (record (k'.procs c) { wait_reason = no_wait }) in
      let asleep =
        set_proc k2 c (record (k2.procs c) { wait_reason = console_input; state = waiting }) in
      elim first [
        | some ch ↦ (some ch, done k, r1, chars)
        | none ↦ elim second [
          | some ch ↦ (some ch, done k2, r3, rest)
          | none ↦ (none, asleep, r3, rest)
        ]
      ]
