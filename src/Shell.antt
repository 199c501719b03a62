-- ===== src/Shell.antt =====
-- The shell of src/user/apps/shell: its command line, its history and the line editor.
pub mod Args
pub mod History
pub mod Arrays
pub mod Apps
pub mod Complete
pub mod Editor
pub mod Tests
use aqua_core.Prelude.{ℕ}

-- The size of a command line with its NUL, and the number of lines that the history keeps.
abbrev pub cmdline_max : ℕ
cmdline_max = 64

abbrev pub history_max : ℕ
history_max = 64
