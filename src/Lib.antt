-- ===== src/Lib.antt =====
-- The kernel curnel: its processes, signals, memory, pipes, clock, keyboard, files, system calls, terminal,
-- shell and commands.
--
-- The state of the kernel is one record, `Kernel` in Kernel.antt, with a field for each static variable
-- of process.c, signals.c, timer.c and pipe.c and with the heap of memory.c. Pointers into its tables are
-- indices, other pointers are addresses. Operations take the state and give the new one.
--
--   Memory      memory.c: memory_init, kmalloc and kfree on the chain of blocks. A block is a record with
--               its address; `kfree` gives no heap when it writes outside the chain.
--   Kernel      the types of process.h, signals.h and pipe.h, and `Outcome`, what a call comes to.
--   Process     process.c without scheduling: lookup, create_process, states, groups and sessions.
--   Signals     signals.c: pending and blocked sets, actions and masks.
--   Scheduler   schedule, exit_process, stop_process, sleep_process, signal_send and
--               signal_handle_pending, which call one another through the section parameters of their
--               bodies; `schedule` and `exit_process` close the circle on fuel.
--   Pipe        pipe.c: the table of pipes, their rings, and the loops that block.
--   Timer       timer.c: the clock interrupt and sleeping.
--   Keyboard    keyboard.c: the ring of characters and the interrupt handler.
--   Paging      paging.c: the bitmap of physical pages, the page tables in physical memory, and the
--               address spaces of the kernel and of users. Memory is a function on addresses.
--   Filesystem  filesystem.c: the volume and its allocation table, names and fs_open in
--               Filesystem/Open.antt, reading and writing in Filesystem/Files.antt, and directories in
--               Filesystem/Directory.antt.
--   Usermode    usermode.c: segments, the check of user pointers, and in Usermode/Load.antt the loading of
--               a program from the file system into a new address space.
--   Interrupts  idt.c: the gates, the handlers, and int_to_string.
--   Syscall     syscall.c: the calls about processes, signals and pipes. Syscall/UserSignals.antt has those
--               of signals.c that use user memory, Syscall/Transfers.antt those that move bytes, and
--               Syscall/Handler.antt the table and syscall_handler.
--   Terminal    kernel.c: the screen of 80 * 25 cells and the cursor; Terminal/Numerals.antt has its
--               int_to_string. The shell and the commands give the list of their calls of the terminal
--               (`Output`), and `show` makes these calls.
--   Coreutils   coreutils.c: strings and the splitting of a line; the commands on files, on processes and
--               the others, with the table and execute_command, in Files, Processes and Commands.
--   Shell       shell.c: the line, the history, and the loop over the events of the keyboard.
--   Main        kernel.c: kernel_main and the process of the shell.
--   Boot        kernels at which the theorems are applied.
--   Prelude     names, lists, words and tests that the modules share.
--
-- Each component has its definitions in the file of its name and its theorems in the folder beside it.
--
-- Numbers are natural numbers, with the wrap-around of a machine word written out where the code could
-- reach it. A negative result of a C function is the 64-bit word that it extends to. The fuel of
-- `schedule` counts nested calls; 130 is enough, since each nested call has one process less to choose.
-- The context switch of the source changes the current process and nothing else, so `schedule` returns.
--
-- Parameters: what a signal handler in user code does to the kernel (`call_handler`), the callback of the
-- timer, what interrupts do while the processor waits (`interrupt`), the symbol boot_pml4, and the disk
-- behind ata_read_sectors and ata_write_sectors (`Ata`), with what the table relies on (`IsDisk`). The
-- loops of fs_read and fs_write take fuel, for which the bytes up to the end of the call are enough. The
-- functions that shell.c and coreutils.c call and no file defines are parameters too: those of the file
-- system (`FileApi`), `free`, and the events that the keyboard gives to the shell.
--
-- Not modelled: what other files than syscall.c, shell.c and coreutils.c write to the terminal, the test
-- functions of kernel.c, which exercise the calls, and the assembly with the linker script, since the
-- processor is not modelled. The names of processes are character codes without their final NUL.
pub mod Prelude
pub mod Memory
pub mod Kernel
pub mod Process
pub mod Signals
pub mod Scheduler
pub mod Pipe
pub mod Timer
pub mod Keyboard
pub mod Syscall
pub mod Terminal
pub mod Coreutils
pub mod Shell
pub mod Main
pub mod Interrupts
pub mod Paging
pub mod Usermode
pub mod Filesystem
pub mod Boot
