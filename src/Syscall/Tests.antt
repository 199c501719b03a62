-- ===== src/Syscall/Tests.antt =====
-- System calls of the process that runs in a kernel with two processes.
use aqua_core.Prelude.{ℕ, ◌≡◌, refl, arith, Option, none, some, List, if◌then◌else◌, ◌==◌, pos}
use aqua_core.Commonlibs.Text.{codes}
use aqua_core.Fs.Path.{str_eq}
use aqua_core.Fs.Tests.{Disk, ram_disk}
use aqua_core.Process.{Kernel}
use aqua_core.Process.Tests.{board, two_processes, two_processes-IsSound}
use aqua_core.Process.Safe.{IsSound}
use aqua_core.Process.Safe.Reach.{on_tick}
use aqua_core.Process.Sched.{scheduler_on_timer_tick}
use aqua_core.Shell.Apps.{app_map}
use aqua_core.Syscall.Files.{syscall_handle_mkdir, syscall_handle_chdir}
use aqua_core.Syscall.Apps.{Images, named, resolve_app_image, resolve_app_image-app_map}
use aqua_core.Syscall.Procs.{copy_user_argv}
use aqua_core.Syscall.Argv.{IsCopied, copy_user_argv-IsCopied}
use aqua_core.Syscall.Time.{IsTime, syscall_handle_gettime, syscall_handle_gettime-IsTime}
use aqua_core.Syscall.Chdir.{IsMove, syscall_handle_chdir-IsMove}
use aqua_core.Syscall.Safe.{
  SystemReach, SystemReach-IsSound, then_step, at_start, by_syscall, by_kernel, do_mkdir,
}

-- Images that are all one byte long.
abbrev small : Images
small = λ name. (λ i. 0, 1)

abbrev path_a : List ℕ
path_a = codes "/tmp/a"

abbrev after_mkdir : Kernel Disk
after_mkdir = (syscall_handle_mkdir ram_disk two_processes (some path_a)).1

abbrev after_tick : Kernel Disk
after_tick = scheduler_on_timer_tick after_mkdir

a_call_and_a_tick : SystemReach ram_disk board small two_processes after_tick
unfolding syscall_handle_mkdir
a_call_and_a_tick =
    then_step after_mkdir after_tick
      (then_step two_processes after_mkdir at_start
        (by_syscall two_processes after_mkdir refl (do_mkdir (some path_a))))
      (by_kernel after_mkdir after_tick (on_tick after_mkdir))

SystemReach-IsSound_example : IsSound after_tick
SystemReach-IsSound_example =
    SystemReach-IsSound ram_disk board small two_processes after_tick two_processes-IsSound
      a_call_and_a_tick

cat_number : app_map (codes "cat") ≡ pos 11
unfolding app_map str_eq
cat_number = refl

resolve_app_image-app_map_example :
    resolve_app_image small (app_map (codes "cat")) ≡ named small (codes "cat")
resolve_app_image-app_map_example = resolve_app_image-app_map small (codes "cat") 11 cat_number

-- One argument, and then NULL.
abbrev one_arg : ℕ → Option (List ℕ)
one_arg = λ i. if i == 0 then some (codes "cat") else none

copy_user_argv-IsCopied_example : IsCopied one_arg 0 8 (copy_user_argv (some one_arg))
copy_user_argv-IsCopied_example = copy_user_argv-IsCopied one_arg

syscall_handle_chdir-IsMove_example :
    IsMove two_processes path_a (syscall_handle_chdir ram_disk two_processes (some path_a))
syscall_handle_chdir-IsMove_example =
    syscall_handle_chdir-IsMove ram_disk two_processes path_a (omega arith)

syscall_handle_gettime-IsTime_example : IsTime 5000000001 (syscall_handle_gettime 5000000001).1
syscall_handle_gettime-IsTime_example = syscall_handle_gettime-IsTime 5000000001 (omega arith)
