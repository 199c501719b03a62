-- ===== src/Lib.antt =====
-- AquaCore: a kernel for RISC-V, with its file system, processes and page allocator, in C.
--
-- The parts. The page allocator (src/kernel/mm/memory.c) gives out pages of RAM and builds the page
-- tables. The file system (src/kernel/fs/fs.c) has three instances of a fixed table of nodes: a root
-- that is kept on a block device, /tmp and /proc; paths are resolved through the mounts, and every
-- process has 16 descriptors. The processes (src/kernel/proc/process.c) are 64 slots; their operations
-- take pages from the allocator, copy and close descriptors, and keep a file /proc/<pid>/status for
-- each process, which goes through the file system. System calls (src/kernel/trap) and the timer call
-- these operations. The shell (src/user/apps/shell) reads a line, keeps it in its history, takes it apart
-- and starts an application by its number; the applications resolve their paths
-- (src/user/runtime/user_path.c) before they call the file system.
--
-- The files, each with the modules below it.
--   Prelude: no code of its own: the library names, Boolean tests, int, arrays, loops that search.
--   Commonlibs: src/lib/commonlibs.c. Buffer: memset, memcpy. Text: strcpy_s, strcat_s, append_*, which
--     process.c has again as append_*_k. Time: the division and the calendar of unix_time_to_utc_str.
--   Memory: src/kernel/mm/memory.c. memory_init, alloc_pages, free_pages, bitmap_*; Paging: map_page,
--     with Walk, the walk of the MMU after the Sv32 scheme. The others are proofs.
--   Fs: src/kernel/fs/fs.c. Path: names and components; Node: the node table and its lookups; Block:
--     the image on the block device; Nodefs: open, mkdir, unlink, rmdir of an instance; Data: read,
--     write, readdir; Vfs: the mounts and the descriptors; Api: the functions fs_*; Init: fs_init. Valid
--     has the well-formedness of the whole state.
--   Process: src/kernel/proc/process.c. Procfs: the files in /proc; Space: page tables and user pages;
--     Slots: recycle_process_slot, reap_exited_processes, alloc_proc_slot; Create, Fork, Exec: the
--     function of that name; Exit: syscall_handle_exit and syscall_handle_clone of
--     src/kernel/trap/syscall_process.c; Sched: the timer tick and yield; Wait: waiting, waking and
--     process_kill; Ipc: the mailbox. Safe has the
--     invariant of the kernel and its step relation.
--   Console: src/kernel/trap/syscall_console.c: the input buffer, and getchar.
--   Syscall: the handlers of src/kernel/trap/syscall_fs.c (Files), and of syscall_process.c and
--     syscall_ipc.c there (Procs, and Apps for resolve_app_image), and gettime (Time). Safe has
--     the step relation of the whole system; Chdir and Argv are proofs.
--   User: src/user/runtime/user_path.c: the resolution of a path. Stack, Resolve, Joined and
--     Absolute are proofs.
--   Shell: src/user/apps/shell. Args: split_args, parse_int and parse_redirection of utils.c; History: its
--     history and the history's file; Arrays: the loops that move bytes; Apps: the names and numbers
--     of the applications; Complete and Editor: the completion and the line editor of main.c.
--
-- The state. Each static variable of the code is a field of a record (Memory, Fs, Kernel), and a
-- function takes the record and returns it with its result: none for -1 where this is the only error,
-- else the int itself. An array is a function of the index, whose guards the code checks; a pointer
-- into `procs` or a table of nodes is the index; a C string is the list of its bytes before the NUL; a
-- buffer is a function from the position to the byte. Guards on NULL pointers have no counterpart where
-- the argument is what the pointer points to. A PANIC, which stops the machine, is an outcome; a theorem
-- about an operation that can PANIC says so with WhenOk. A loop that waits (yield, wait_for_child_exit,
-- process_ipc_recv) is given by its round: the round returns, or says that the process sleeps or that
-- the machine waits for an interrupt, and the next round follows later in the same step relation.
--
-- Numbers. uint32_t arithmetic that can pass 2^32 is written out modulo 2^32; int is ℤ where it can be
-- negative. File sizes, offsets, indices and counts stay far below their limits by the code's guards.
-- The year of the calendar is an int for the first 2^39 days. Bounds: 128 nodes with files of 512
-- bytes at most, 64 processes, 16 descriptors for each, 4 mounts, as the source defines them.
--
-- Fuel. Loops over an array recurse on the number of rounds that are left. The walk along a path has one
-- round for each character, as every round takes at least one, and the search for the year in the
-- calendar one for each day, as a year has more than one. The loop of user_path_resolve has one round for
-- each byte of the path and one more; the line editor has any number of rounds.
--
-- Parameters. The block device (src/kernel/fs/blockdev_virtio.c) is a record of three functions on a
-- state of any type. Nothing is assumed of it, so that it may fail and return anything, but where the
-- image is read again: there it keeps what is written. The linker's addresses and the embedded images of
-- the apps are arguments. The console of the file system is a stream of characters and the output so
-- far: where fs_read calls getchar for each byte, the stream is what those calls return, and the sleep
-- in them is left out there. A pointer that a process passes to a system call is none for NULL, and what
-- it points at otherwise. What getcwd returns to a program, and the pieces in which fs_read returns a
-- file to the shell, are arguments.
--
-- Not modelled: the boot code, the trap entry and the saved registers, CSRs and stacks, which are
-- assembly; SBI, the RTC and the timer registers; the virtio queue; the dispatch of system calls on
-- their numbers, and the calls for the bitmap and the kernel's information; printf's
-- conversions; what the shell prints, its loop over commands and run_external; and the other programs
-- in src/user, which only call and print.
pub mod Prelude
pub mod Commonlibs
pub mod Memory
pub mod Fs
pub mod Process
pub mod Shell
pub mod User
pub mod Syscall
pub mod Console
