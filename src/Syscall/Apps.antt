-- ===== src/Syscall/Apps.antt =====
-- The images of the applications in src/kernel/trap/syscall_process.c. Their bytes and sizes come from
-- the linker; they are a parameter, by the name of the application.
use aqua_core.Prelude.{
  ℕ, ◌≡◌, refl, ap, sym, ◌∙◌, true, Option, none, some, List, ◌==◌, if◌then◌else◌, ℤ, pos, negsuc,
  if-cases,
}
use aqua_core.Fs.Path.{str_eq}
use aqua_core.Fs.Path.Names.{str_eq_iff}
use aqua_core.Shell.Apps.{
  app_map, app_name_shell, app_name_ipc_rx, app_name_ps, app_name_date, app_name_ls, app_name_mkdir,
  app_name_rmdir, app_name_touch, app_name_rm, app_name_write, app_name_cat, app_name_kill,
  app_name_kernel_info, app_name_bitmap,
}

-- The images, by name: the bytes and the size.
abbrev pub Images : Type 0
Images = List ℕ → (ℕ → ℕ) × ℕ

-- The image with its size and the name.
abbrev pub named : Images → List ℕ → Option ((ℕ → ℕ) × ℕ × List ℕ)
named images name = some ((images name).0, (images name).1, name)

unfoldable pub resolve_app_image : Images → ℤ → Option ((ℕ → ℕ) × ℕ × List ℕ)
resolve_app_image images (negsuc n) = none
resolve_app_image images (pos i) =
    if i == 1
    then named images app_name_shell
    else if i == 2
    then named images app_name_ipc_rx
    else if i == 3
    then named images app_name_ps
    else if i == 4
    then named images app_name_date
    else if i == 5
    then named images app_name_ls
    else if i == 6
    then named images app_name_mkdir
    else if i == 7
    then named images app_name_rmdir
    else if i == 8
    then named images app_name_touch
    else if i == 9
    then named images app_name_rm
    else if i == 10
    then named images app_name_write
    else if i == 11
    then named images app_name_cat
    else if i == 12
    then named images app_name_kill
    else if i == 14
    then named images app_name_kernel_info
    else if i == 15
    then named images app_name_bitmap
    else none

-- The application that a name stands for, or none.
abbrev IsApp : Images → List ℕ → ℤ → Type 0
IsApp images name id = (n : ℕ) → id ≡ pos n → resolve_app_image images id ≡ named images name

str_eq-IsApp :
    (images : Images) (name app : List ℕ) (n : ℕ)
    → resolve_app_image images (pos n) ≡ named images app
    → str_eq name app ≡ true
    → IsApp images name (pos n)
str_eq-IsApp images name app n at e m same =
    at ∙ ap (named images) (sym ((str_eq_iff name app).0 e))

-- A number that the shell finds for a command is the number under which the kernel has the image of
-- that name.
pub resolve_app_image-app_map :
    (images : Images) (name : List ℕ) (n : ℕ)
    → app_map name ≡ pos n
    → resolve_app_image images (app_map name) ≡ named images name
unfolding app_map resolve_app_image
resolve_app_image-app_map images name =
    let Fits = IsApp images name in
    let here = str_eq-IsApp images name in
    if-cases Fits (str_eq name app_name_shell) _ _ (here app_name_shell 1 refl) (λ e.
      if-cases Fits (str_eq name app_name_ipc_rx) _ _ (here app_name_ipc_rx 2 refl) (λ e.
        if-cases Fits (str_eq name app_name_ps) _ _ (here app_name_ps 3 refl) (λ e.
          if-cases Fits (str_eq name app_name_date) _ _ (here app_name_date 4 refl) (λ e.
            if-cases Fits (str_eq name app_name_ls) _ _ (here app_name_ls 5 refl) (λ e.
              if-cases Fits (str_eq name app_name_mkdir) _ _ (here app_name_mkdir 6 refl) (λ e.
                if-cases Fits (str_eq name app_name_rmdir) _ _ (here app_name_rmdir 7 refl) (λ e.
                  if-cases Fits (str_eq name app_name_touch) _ _ (here app_name_touch 8 refl) (λ e.
                    if-cases Fits (str_eq name app_name_rm) _ _ (here app_name_rm 9 refl) (λ e.
                      if-cases Fits (str_eq name app_name_write) _ _ (here app_name_write 10 refl)
                        (λ e.
                          if-cases Fits (str_eq name app_name_cat) _ _ (here app_name_cat 11 refl)
                            (λ e.
                              if-cases Fits (str_eq name app_name_kill) _ _
                                (here app_name_kill 12 refl)
                                (λ e.
                                  if-cases Fits (str_eq name app_name_kernel_info) _ _
                                    (here app_name_kernel_info 14 refl)
                                    (λ e.
                                      if-cases Fits (str_eq name app_name_bitmap) _ _
                                        (here app_name_bitmap 15 refl) (λ e n h. cc))))))))))))))
