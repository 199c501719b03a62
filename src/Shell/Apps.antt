-- ===== src/Shell/Apps.antt =====
-- The names and numbers of the applications in src/include/user_apps.h, and the shell's map between
-- them in src/user/apps/shell/utils.c.
use aqua_core.Prelude.{ℕ, List, [], ◌∷◌, if◌then◌else◌, ℤ, pos, minus_one}
use aqua_core.Commonlibs.Text.{codes}
use aqua_core.Fs.Path.{str_eq}

abbrev pub app_name_shell : List ℕ
app_name_shell = codes "shell"

abbrev pub app_name_ipc_rx : List ℕ
app_name_ipc_rx = codes "ipc_rx"

abbrev pub app_name_ps : List ℕ
app_name_ps = codes "ps"

abbrev pub app_name_date : List ℕ
app_name_date = codes "date"

abbrev pub app_name_ls : List ℕ
app_name_ls = codes "ls"

abbrev pub app_name_mkdir : List ℕ
app_name_mkdir = codes "mkdir"

abbrev pub app_name_rmdir : List ℕ
app_name_rmdir = codes "rmdir"

abbrev pub app_name_touch : List ℕ
app_name_touch = codes "touch"

abbrev pub app_name_rm : List ℕ
app_name_rm = codes "rm"

abbrev pub app_name_write : List ℕ
app_name_write = codes "write"

abbrev pub app_name_cat : List ℕ
app_name_cat = codes "cat"

abbrev pub app_name_kill : List ℕ
app_name_kill = codes "kill"

abbrev pub app_name_kernel_info : List ℕ
app_name_kernel_info = codes "kernel_info"

abbrev pub app_name_bitmap : List ℕ
app_name_bitmap = codes "bitmap"

-- The names that the shell completes.
abbrev pub shell_app_names : List (List ℕ)
shell_app_names =
    app_name_shell
    ∷ app_name_ipc_rx
    ∷ app_name_ps
    ∷ app_name_date
    ∷ app_name_ls
    ∷ app_name_mkdir
    ∷ app_name_rmdir
    ∷ app_name_touch
    ∷ app_name_rm
    ∷ app_name_write
    ∷ app_name_cat
    ∷ codes "cd"
    ∷ app_name_kill
    ∷ app_name_kernel_info
    ∷ app_name_bitmap
    ∷ []

unfoldable pub app_map : List ℕ → ℤ
app_map name =
    if str_eq name app_name_shell
    then pos 1
    else if str_eq name app_name_ipc_rx
    then pos 2
    else if str_eq name app_name_ps
    then pos 3
    else if str_eq name app_name_date
    then pos 4
    else if str_eq name app_name_ls
    then pos 5
    else if str_eq name app_name_mkdir
    then pos 6
    else if str_eq name app_name_rmdir
    then pos 7
    else if str_eq name app_name_touch
    then pos 8
    else if str_eq name app_name_rm
    then pos 9
    else if str_eq name app_name_write
    then pos 10
    else if str_eq name app_name_cat
    then pos 11
    else if str_eq name app_name_kill
    then pos 12
    else if str_eq name app_name_kernel_info
    then pos 14
    else if str_eq name app_name_bitmap
    then pos 15
    else minus_one
