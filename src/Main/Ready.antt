-- ===== src/Main/Ready.antt =====
-- The state in which kernel_main of kernel.c enters its loop.
use curnel.Prelude.{ℕ, ◌<◌, ◌≡◌, ◌≢◌, refl, ap, some, List, inl, inr, get_or, text, arith}
use curnel.Kernel.{ready, max_processes, blank, Kernel, entry}
use curnel.Process.{find_pid, create_process, init_processes}
use curnel.Process.Table.{IsValid}
use curnel.Process.Create.{init-IsValid, create_process-IsValid, create_process_lem}
use curnel.Paging.{Paging, add_memory, paging_init}
use curnel.Paging.Init.{paging_init_lem}
use curnel.Usermode.{GdtEntry}
use curnel.Memory.{memory_init}
use curnel.Timer.{timer_init}
use curnel.Pipe.{pipe_init}
use curnel.Signals.{signal_init}
use curnel.Interrupts.{Idt, init_idt, register_interrupt_handler}
use curnel.Syscall.Handler.{init_syscalls}
use curnel.Main.{Addresses, System, mem_map, init_kernel, with_paging, kernel_main}

init_kernel-IsValid :
    (at : Addresses) (k : Kernel)
    → k.next_pid ≡ 1
    → k.current_process_index < max_processes
    → IsValid (init_kernel at k).1
unfolding init_kernel init_syscalls pipe_init signal_init timer_init init_processes
init_kernel-IsValid at k first low =
    let v = init-IsValid (timer_init (record k { heap = memory_init k.heap }) 100).0 first low in
    record { table = v.table; current = v.current; quiet = v.quiet }

-- There is a free entry in the table.
room : (at : Addresses) (k : Kernel) → find_pid 0 (init_kernel at k).1.processes ≡ some 0
unfolding init_kernel init_syscalls pipe_init signal_init timer_init init_processes find_pid blank
room at k = refl

-- 128 MB take more than the 127 bytes of the bitmap that the pages of the kernel need.
paging_made :
    (boot_pml4 : ℕ) (s : Paging) → (s' : Paging) × (paging_init boot_pml4 s mem_map ≡ some s')
unfolding add_memory
paging_made boot_pml4 s = elim (paging_init_lem boot_pml4 s mem_map) [
  | inl (low, e) ↦ absurd (omega (arith, low))
  | inr (high, s', e, rest) ↦ (s', e)
]

-- The handlers of the clock, the keyboard and the system calls stand in their places.
abbrev pub HasHandlers : Addresses → Idt → Type 0
HasHandlers at idt =
    (get_or idt.interrupt_handlers 32 0 ≡ at.timer_handler_at)
    × (get_or idt.interrupt_handlers 33 0 ≡ at.keyboard_handler_at)
    × (get_or idt.interrupt_handlers 128 0 ≡ at.syscall_handler_at)

handlers : (at : Addresses) (k : Kernel) → HasHandlers at (init_kernel at k).0
unfolding init_kernel init_syscalls register_interrupt_handler init_idt
handlers at k = (refl, refl, refl)

-- From static variables with the first pid still to be given out and a current index of the table,
-- kernel_main comes to its loop, with a valid process table in which the shell has a pid and is ready
-- at the address of its code, and with the handlers of clock, keyboard and system calls registered.
pub kernel_main-Ready :
    (at : Addresses) (k : Kernel) (paging : Paging) (gdt : List GdtEntry)
    → k.next_pid ≡ 1
    → k.current_process_index < max_processes
    → (sys : System) × (pid : ℕ) × (i : ℕ) × (kernel_main at k paging gdt ≡ some sys)
      × IsValid sys.kernel
      × (pid ≢ 0)
      × (find_pid pid sys.kernel.processes ≡ some i)
      × ((entry sys.kernel i).state ≡ ready)
      × ((entry sys.kernel i).registers.rip ≡ at.shell_process_at)
      × HasHandlers at sys.idt
unfolding kernel_main with_paging
kernel_main-Ready at k paging gdt first low =
    let v = init_kernel-IsValid at k first low in
    let (s, made) = paging_made at.boot_pml4 paging in
    let k0 = (init_kernel at k).1 in
    elim (create_process_lem k0 (text "shell") at.shell_process_at 0 v) [
      | inl (full, e) ↦ absurd (let e2 = room at k in cc)
      | inr (i, c) ↦ (
        _,
        (create_process k0 (text "shell") at.shell_process_at 0).1,
        i,
        ap (with_paging at k gdt) made,
        create_process-IsValid k0 (text "shell") at.shell_process_at 0 v,
        c.positive,
        c.found,
        c.waits,
        c.starts,
        handlers at k,
      )
    ]
