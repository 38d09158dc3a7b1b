-- ===== src/Syscall/Tests.antt =====
-- The theorems of syscall.c at a kernel with two processes.
use curnel.Prelude.{ℕ, zero, suc, ◌<◌, ◌^◌, ◌≡◌, List, [], arith, get_or, replicate}
use curnel.Kernel.{blank, entry, done, Registers, zero_registers, default_action}
use curnel.Keyboard.{keyboard_init}
use curnel.Paging.{Paging, no_memory}
use curnel.Syscall.Transfers.{Machine}
use curnel.Syscall.Numbers.{Handles, syscall_handler-Numbers}
use curnel.Syscall.{sys_kill}
use curnel.Syscall.Kill.{sys_kill-by_pid}
use curnel.Boot.{two_processes}

low_blanks : (n i : ℕ) → (get_or (replicate n blank) i blank).process_group < 2 ^ 63
unfolding blank
low_blanks zero i = omega arith
low_blanks (suc n) zero = omega arith
low_blanks (suc n) (suc i) = low_blanks n i

low_groups : (i : ℕ) → (entry two_processes i).process_group < 2 ^ 63
low_groups zero = omega arith
low_groups (suc zero) = omega arith
low_groups (suc (suc i)) = low_blanks 62 i

sys_kill-by_pid_example : sys_kill (λ h s k. k) 130 two_processes 2 15 ≡ done (two_processes, 0)
sys_kill-by_pid_example =
    sys_kill-by_pid (λ h s k. k) 130 two_processes 2 15 (omega arith) (omega arith) (omega arith)
      low_groups

abbrev no_tables : Paging
no_tables = record { pmm = no_memory; memory = λ a. 0; pml4 = 0; kernel_heap = 0 }

abbrev machine : Machine (Unit {0})
machine = record {
  kernel = two_processes;
  memory = λ a. 0;
  keyboard = keyboard_init.0;
  files = tt;
  output = [];
}

abbrev no_call : Unit {0} → List ℕ → Unit {0} × ℕ
no_call s path = (s, 1)

-- The registers of a call of sys_getpid.
abbrev asks_pid : Registers
asks_pid = record zero_registers { rax = 8 }

syscall_handler-Numbers_example :
    Handles no_tables (λ h s k. k) (λ k. k) done no_call no_call default_action 0 9 machine asks_pid
syscall_handler-Numbers_example =
    syscall_handler-Numbers no_tables (λ h s k. k) (λ k. k) done no_call no_call default_action 0 9
      machine asks_pid
