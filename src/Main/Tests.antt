-- ===== src/Main/Tests.antt =====
-- The start of kernel.c from static variables that are zero.
use curnel.Prelude.{ℕ, ◌+◌, ◌*◌, ◌≡◌, ◌≢◌, refl, some, [], arith}
use curnel.Kernel.{ready, entry}
use curnel.Boot.{booted}
use curnel.Process.{find_pid}
use curnel.Process.Table.{IsValid}
use curnel.Paging.{Paging, no_memory}
use curnel.Main.{Addresses, System, kernel_main}
use curnel.Main.Ready.{HasHandlers, kernel_main-Ready}

abbrev addresses : Addresses
addresses = record {
  isr = λ n. 0x20_0000 + n * 16;
  timer_handler_at = 0x20_2000;
  keyboard_handler_at = 0x20_3000;
  syscall_handler_at = 0x20_4000;
  boot_pml4 = 0x9000;
  task_state = 0x20_5000;
  shell_process_at = 0x20_6000;
}

abbrev no_paging : Paging
no_paging = record { pmm = no_memory; memory = λ a. 0; pml4 = 0; kernel_heap = 0 }

kernel_main-Ready_example :
    (sys : System) × (pid : ℕ) × (i : ℕ) × (kernel_main addresses booted no_paging [] ≡ some sys)
    × IsValid sys.kernel
    × (pid ≢ 0)
    × (find_pid pid sys.kernel.processes ≡ some i)
    × ((entry sys.kernel i).state ≡ ready)
    × ((entry sys.kernel i).registers.rip ≡ 0x20_6000)
    × HasHandlers addresses sys.idt
kernel_main-Ready_example = kernel_main-Ready addresses booted no_paging [] refl (omega arith)
