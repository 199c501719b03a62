-- ===== src/User/Tests.antt =====
-- The resolution of a path below a working directory.
use aqua_core.Prelude.{ℕ, List, some, take, refl, arith}
use aqua_core.Commonlibs.Text.{codes}
use aqua_core.User.Path.{user_path_resolve}
use aqua_core.User.Path.Joined.{joined}
use aqua_core.User.Path.Absolute.{IsResolved, user_path_resolve-IsResolved}

abbrev work_dir : List ℕ
work_dir = codes "/tmp/a"

abbrev other_file : List ℕ
other_file = codes ".././/b"

user_path_resolve-IsResolved_example :
    IsResolved
      (take 63 (joined work_dir other_file))
      (user_path_resolve (some work_dir) other_file 64)
user_path_resolve-IsResolved_example =
    user_path_resolve-IsResolved work_dir other_file 64 refl (omega arith)
