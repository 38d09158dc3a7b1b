-- ===== src/Syscall/Handler.antt =====
-- syscall_handler and init_syscalls of syscall.c: the table of system calls, and the call through it.
-- sys_sigaction to sys_sigsuspend are those of signals.c.
use curnel.Prelude.{
  ℕ, true, Option, none, some, List, [], ◌∷◌, ◌++◌, length, get_or, replicate, leb, ◌==◌,
  if◌then◌else◌, minus_one, text, u32,
}
use curnel.Kernel.{Kernel, Registers, SignalAction, Outcome, done, no_fuel, stray, ◌>>=◌}
use curnel.Process.{get_current_process}
use curnel.Signals.{signal_init}
use curnel.Scheduler.{signal_handle_pending}
use curnel.Pipe.{pipe_init}
use curnel.Keyboard.{Keyboard}
use curnel.Paging.{Paging}
use curnel.Usermode.{usermode_copy_to_user}
use curnel.Interrupts.{Idt, register_interrupt_handler}
use curnel.Terminal.{writes}
use curnel.Terminal.Numerals.{int_to_string}
use curnel.Syscall.{
  sys_fork, sys_close, sys_getpid, sys_getppid, sys_dup, sys_dup2, sys_signal, sys_setpgid,
  sys_getpgid, sys_setsid, sys_getsid, sys_exit, sys_sleep, sys_wait, sys_kill,
}
use curnel.Syscall.UserSignals.{
  bytes_of, sys_sigaction, sys_sigprocmask, sys_sigpending, sys_sigsuspend,
}
use curnel.Syscall.Transfers.{
  Machine, Result, sys_read, sys_write, sys_open, sys_exec, sys_pipe, sys_mkdir, sys_rmdir,
}

-- The pointers in `syscall_table`.
pub data SysCall : Type 0 where
  exit fork read write open_file close sleep getpid exec getppid pipe dup dup2 mkdir rmdir wait kill
        signal sigaction sigprocmask sigpending sigsuspend setpgid getpgid setsid getsid :
      SysCall

unfoldable pub syscall_table : List (Option SysCall)
syscall_table =
    none
    ∷ some exit
    ∷ some fork
    ∷ some read
    ∷ some write
    ∷ some open_file
    ∷ some close
    ∷ some sleep
    ∷ some getpid
    ∷ some exec
    ∷ some getppid
    ∷ some pipe
    ∷ some dup
    ∷ some dup2
    ∷ some mkdir
    ∷ some rmdir
    ∷ some wait
    ∷ some kill
    ∷ some signal
    ∷ some sigaction
    ∷ some sigprocmask
    ∷ some sigpending
    ∷ some sigsuspend
    ∷ some setpgid
    ∷ some getpgid
    ∷ some setsid
    ∷ some getsid
    ∷ replicate 37 none

-- The constants SYS_EXIT to SYS_GETSID of syscall.h.
abbrev pub number : SysCall → ℕ
number exit = 1
number fork = 2
number read = 3
number write = 4
number open_file = 5
number close = 6
number sleep = 7
number getpid = 8
number exec = 9
number getppid = 10
number pipe = 11
number dup = 12
number dup2 = 13
number mkdir = 14
number rmdir = 15
number wait = 16
number kill = 17
number signal = 18
number sigaction = 19
number sigprocmask = 20
number sigpending = 21
number sigsuspend = 22
number setpgid = 23
number getpgid = 24
number setsid = 25
number getsid = 26

module _ {F : Type 0} where
  abbrev with_kernel : Machine F → Outcome (Kernel × ℕ) → Result F
  with_kernel m o = o >>= λ r. done (record m { kernel = r.0 }, r.1)

  abbrev with_memory : Machine F → Outcome (Kernel × (ℕ → ℕ) × ℕ) → Result F
  with_memory m o = o >>= λ r. done (record m { kernel = r.0; memory = r.1 }, r.2)

  -- The parameters of the calls: what the processor and user code do, the two functions of the file
  -- system that are defined nowhere, and what the locals hold that a refused call leaves unset.
  module _ (paging : Paging) (call_handler : ℕ → ℕ → Kernel → Kernel)
      (interrupt : Keyboard → Keyboard) (wait_for_tick : Kernel → Outcome Kernel)
      (fs_mkdir fs_unlink : F → List ℕ → F × ℕ) (old_action : SignalAction) (old_set : ℕ)
      (f : ℕ) where
    -- `sys_wait` with its copy of the exit code, which is 0.
    wait_call : Machine F → ℕ → Result F
    wait_call m status =
        if status == 0
        then with_kernel m (sys_wait call_handler f (λ s. true) m.kernel status)
        else elim (usermode_copy_to_user paging m.memory f status (bytes_of 8 0))
            as (λ _. Result F) [
              | none ↦ no_fuel
              | some (memory, stored) ↦
                  sys_wait call_handler f (λ s. stored) m.kernel status >>= λ r. done (
                    record m {
                      kernel = r.0;
                      memory = if r.1 == minus_one then m.memory else memory;
                    },
                    r.1,
                  )
            ]

    -- The call through the pointer, with the registers that its parameters come from.
    pub call_entry : SysCall → Machine F → Registers → Result F
    call_entry exit m r = with_kernel m (sys_exit call_handler f m.kernel r.rdi)
    call_entry fork m r = with_kernel m (done (sys_fork m.kernel))
    call_entry read m r = sys_read paging call_handler interrupt f m r.rdi r.rsi r.rdx
    call_entry write m r = sys_write paging call_handler interrupt f m r.rdi r.rsi r.rdx
    call_entry open_file m r = done (sys_open paging call_handler interrupt f m r.rdi r.rsi)
    call_entry close m r = with_kernel m (done (sys_close m.kernel r.rdi))
    call_entry sleep m r = with_kernel m (sys_sleep call_handler f wait_for_tick m.kernel r.rdi)
    call_entry getpid m r = done (m, sys_getpid m.kernel)
    call_entry exec m r = done (sys_exec paging call_handler interrupt f m r.rdi r.rsi)
    call_entry getppid m r = done (m, sys_getppid m.kernel)
    call_entry pipe m r = sys_pipe paging call_handler interrupt f m r.rdi
    call_entry dup m r = done (m, sys_dup r.rdi)
    call_entry dup2 m r = done (m, sys_dup2 r.rdi r.rsi)
    call_entry mkdir m r = sys_mkdir paging call_handler interrupt f fs_mkdir m r.rdi r.rsi
    call_entry rmdir m r = sys_rmdir paging call_handler interrupt f fs_unlink m r.rdi
    call_entry wait m r = wait_call m r.rdi
    call_entry kill m r = with_kernel m (sys_kill call_handler f m.kernel r.rdi r.rsi)
    call_entry signal m r = with_kernel m (done (sys_signal m.kernel r.rdi r.rsi))
    call_entry sigaction m r =
        with_memory m (sys_sigaction paging f old_action m.kernel m.memory r.rdi r.rsi r.rdx)
    call_entry sigprocmask m r =
        with_memory m (sys_sigprocmask paging f old_set m.kernel m.memory r.rdi r.rsi r.rdx)
    call_entry sigpending m r = sys_sigpending paging f m.kernel m.memory r.rdi >>= λ q.
        done (record m { memory = q.0 }, q.1)
    call_entry sigsuspend m r =
        with_kernel m (sys_sigsuspend paging f call_handler f m.kernel m.memory r.rdi)
    call_entry setpgid m r = with_kernel m (done (sys_setpgid m.kernel r.rdi r.rsi))
    call_entry getpgid m r = done (m, sys_getpgid m.kernel r.rdi)
    call_entry setsid m r = with_kernel m (done (sys_setsid m.kernel))
    call_entry getsid m r = done (m, sys_getsid m.kernel r.rdi)

    -- `regs->rax = result`, and the pending signals of the process that is current by then.
    unfoldable pub after_call : Registers → Machine F → ℕ → Outcome (Machine F × Registers)
    after_call regs m result =
        elim (get_current_process m.kernel) as (λ _. Outcome (Machine F × Registers)) [
          | none ↦ done (m, record regs { rax = result })
          | some c ↦ signal_handle_pending call_handler f m.kernel c >>= λ r.
              done (record m { kernel = r.0 }, record regs { rax = result })
        ]

    -- `num_str` has five bytes, so a longer string runs past it, with its NUL.
    abbrev pub bad_number : Machine F → Registers → Outcome (Machine F × Registers)
    bad_number m regs =
        let num_str = int_to_string (u32 regs.rax) in
        if leb 5 (length num_str)
        then stray
        else done (
          record m {
            output =
                m.output
                ++ (writes (text "Hata: Gecersiz sistem cagrisi numarasi: ")
                    ∷ writes num_str
                    ∷ writes (text "\n")
                    ∷ []);
          },
          regs,
        )

    -- What an entry of the table comes to.
    abbrev pub through : Machine F → Registers → Option SysCall → Outcome (Machine F × Registers)
    through m regs none = bad_number m regs
    through m regs (some c) = call_entry c m regs >>= λ r. after_call regs (r.0) (r.1)

    unfoldable pub syscall_handler : Machine F → Registers → Outcome (Machine F × Registers)
    syscall_handler m regs =
        if leb 64 regs.rax
        then bad_number m regs
        else through m regs (get_or syscall_table regs.rax none)

-- The address of `syscall_handler` is a parameter.
unfoldable pub init_syscalls : ℕ → Idt → Kernel → Idt × Kernel
init_syscalls handler idt k =
    (register_interrupt_handler idt 0x80 handler, signal_init (pipe_init k).0)
