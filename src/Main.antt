-- ===== src/Main.antt =====
-- kernel.c: kernel_main, and the process that runs the shell. What kernel_main writes to the terminal is
-- left out, and so are the test functions of kernel.c.
pub mod Ready
mod Tests
use curnel.Prelude.{
  ℕ, zero, suc, ◌+◌, ◌*◌, Option, none, some, List, [], ◌∷◌, ◌++◌, replicate, ◌==◌, if◌then◌else◌,
  text, u32, sub64,
}
use curnel.Memory.{Heap, memory_init}
use curnel.Kernel.{Kernel, Outcome, done, ◌>>=◌}
use curnel.Process.{init_processes, create_process}
use curnel.Scheduler.{schedule}
use curnel.Timer.{timer_init}
use curnel.Keyboard.{Keyboard, keyboard_init}
use curnel.Filesystem.{FsInfo, fs_init}
use curnel.Paging.{Paging, MemoryMapEntry, paging_init}
use curnel.Paging.Kmalloc.{kmalloc_page}
use curnel.Usermode.{GdtEntry, Tss, gdt_init, tss_init}
use curnel.Interrupts.{Idt, init_idt, register_interrupt_handler}
use curnel.Syscall.{sys_exit}
use curnel.Syscall.Handler.{init_syscalls}
use curnel.Coreutils.{FileApi, World}
use curnel.Shell.{KeyEvent, shell_init, shell_run, shell_cleanup}

-- What the initialisation leaves; the ports are those that are written to, each with its byte.
pub record System : Type 0 where
  pub kernel : Kernel
  pub idt : Idt
  pub paging : Paging
  pub gdt : List GdtEntry
  pub tss : Tss
  pub keyboard : Keyboard
  pub fs_info : FsInfo
  pub ports : List (ℕ × ℕ)

abbrev pub mem_map : List MemoryMapEntry
mem_map = record { start = 0x10_0000; size = 128 * 1024 * 1024; type = 1 } ∷ []

-- Addresses of code and of tables.
pub record Addresses : Type 0 where
  pub isr : ℕ → ℕ
  pub timer_handler_at : ℕ
  pub keyboard_handler_at : ℕ
  pub syscall_handler_at : ℕ
  pub boot_pml4 : ℕ
  pub task_state : ℕ
  pub shell_process_at : ℕ

-- The tables of interrupts, once the timer and the keyboard have registered their handlers.
abbrev with_handlers : Addresses → Idt
with_handlers at =
    register_interrupt_handler (register_interrupt_handler (init_idt at.isr) 32 at.timer_handler_at)
      33 at.keyboard_handler_at

-- The kernel's own state before the first process.
pub init_kernel : Addresses → Kernel → Idt × Kernel
init_kernel at k =
    init_syscalls at.syscall_handler_at (with_handlers at)
      (init_processes (timer_init (record k { heap = memory_init k.heap }) 100).0)

-- What follows `paging_init`.
pub with_paging : Addresses → Kernel → List GdtEntry → Option Paging → Option System
with_paging at k gdt none = none
with_paging at k gdt (some paging) = some (record {
  kernel = (create_process (init_kernel at k).1 (text "shell") at.shell_process_at 0).0;
  idt = (init_kernel at k).0;
  paging = (kmalloc_page paging).0;
  gdt = gdt_init at.task_state gdt;
  tss = tss_init (kmalloc_page paging).1;
  keyboard = keyboard_init.0;
  fs_info = fs_init;
  ports = (timer_init k 100).1 ++ keyboard_init.1;
})

-- `kernel_main` before its loop, from the values of the static variables; `none` if `paging_init` marks
-- pages outside of its bitmap.
pub kernel_main : Addresses → Kernel → Paging → List GdtEntry → Option System
kernel_main at k paging gdt = with_paging at k gdt (paging_init at.boot_pml4 paging mem_map)

-- `turns` rounds of the loop of `kernel_main`; `hlt` is what happens until the next interrupt.
kernel_loop : (ℕ → ℕ → Kernel → Kernel) → (Kernel → Kernel) → ℕ → ℕ → Kernel → Outcome Kernel
kernel_loop call_handler hlt f zero k = done k
kernel_loop call_handler hlt f (suc turns) k =
    schedule call_handler f k >>= λ k. kernel_loop call_handler hlt f turns (hlt k)

module _ {F : Type 0} (api : FileApi F) (free : Heap → ℕ → Option Heap)
    (call_handler : ℕ → ℕ → Kernel → Kernel) (interrupt : Kernel → Outcome Kernel) (f : ℕ) where
  -- With the events of the keyboard; the shell ends by the last of them.
  shell_process : List KeyEvent → World F → Outcome (World F × ℕ)
  shell_process events w =
      let r = shell_init api w in
      shell_run api free call_handler interrupt f events (r.0) (r.1) >>= λ r.
      shell_cleanup (r.0).kernel.heap (r.1) >>= λ c.
      sys_exit call_handler f (record (r.0).kernel { heap = c.0 }) (c.1).exit_code >>= λ e.
      done (record (r.0) { kernel = e.0 }, e.1)
