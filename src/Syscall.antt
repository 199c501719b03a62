-- ===== src/Syscall.antt =====
-- The system calls of src/kernel/trap: what their handlers check, and what they call. A pointer that a
-- process passes is none for NULL, and what it points at otherwise; the result is the register a0.
pub mod Files
pub mod Apps
pub mod Procs
pub mod Safe
pub mod Chdir
pub mod Argv
pub mod Time
pub mod Tests
use aqua_core.Prelude.{ℕ, Option, none, some, ℤ, pos, minus_one}

-- A number, or -1.
abbrev pub a0_number : Option ℕ → ℤ
a0_number none = minus_one
a0_number (some n) = pos n

-- 0, or -1.
abbrev pub a0_done : Option (Unit {0}) → ℤ
a0_done none = minus_one
a0_done (some u) = pos 0
