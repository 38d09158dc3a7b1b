-- ===== src/Syscall.antt =====
-- syscall.c: the system calls that act on processes, signals and pipes; those that move bytes between
-- user memory, files and the terminal are in Transfers, and the table and its handler in Handler.
pub mod Kill
pub mod UserSignals
pub mod Transfers
pub mod Handler
pub mod Table
pub mod Numbers
mod Tests
use curnel.Prelude.{
  ℕ, zero, suc, ◌+◌, ◌-◌, ◌%◌, ◌^◌, Bool, true, false, not, ◌&&◌, Option, none, some, ltb, leb,
  ◌==◌, if◌then◌else◌, u64, minus_one,
}
use curnel.Kernel.{max_processes, max_signals, Process, Kernel, entry, update, Outcome, done, ◌>>=◌}
use curnel.Process.{
  is_zombie, create_process, get_process, get_current_process, block_process, set_process_group,
  create_session,
}
use curnel.Signals.{signal_set_handler}
use curnel.Scheduler.{schedule, exit_process, signal_send, send_signal_to_process_group}
use curnel.Pipe.{pipe_get_by_fd, pipe_close}
use curnel.Timer.{process_sleep}

-- What `sys_fork` copies to the child.
abbrev inherit : Process → Process → Process
inherit parent child = record child {
  registers = record parent.registers { rax = 0 };
  pending_signals = parent.pending_signals;
  blocked_signals = parent.blocked_signals;
  signal_actions = parent.signal_actions;
}

pub sys_fork : Kernel → Kernel × ℕ
sys_fork k = elim (get_current_process k) [
  | none ↦ (k, minus_one)
  | some c ↦
      let (k', child_pid) = create_process k (entry k c).name 0 (entry k c).pid in
      if child_pid == 0 then (k', minus_one) else elim (get_process k' child_pid) [
        | none ↦ (k', minus_one)
        | some i ↦ (update k' i (inherit (entry k' c)), child_pid)
      ]
]

pub sys_close : Kernel → ℕ → Kernel × ℕ
sys_close k fd = elim (pipe_get_by_fd k fd) [ none ↦ (k, minus_one) | some i ↦ pipe_close k fd ]

pub sys_getpid : Kernel → ℕ
sys_getpid k = elim (get_current_process k) [ none ↦ 0 | some c ↦ (entry k c).pid ]

pub sys_getppid : Kernel → ℕ
sys_getppid k = elim (get_current_process k) [ none ↦ 0 | some c ↦ (entry k c).parent_pid ]

pub sys_dup : ℕ → ℕ
sys_dup oldfd = minus_one

pub sys_dup2 : ℕ → ℕ → ℕ
sys_dup2 oldfd newfd = minus_one

pub sys_signal : Kernel → ℕ → ℕ → Kernel × ℕ
sys_signal k signum handler =
    if leb max_signals signum then (k, minus_one) else signal_set_handler k signum handler

pub sys_setpgid : Kernel → ℕ → ℕ → Kernel × ℕ
sys_setpgid k pid pgid =
    if not (pid == 0) then set_process_group k pid pgid else elim (get_current_process k) [
      | none ↦ (k, minus_one)
      | some c ↦ set_process_group k (entry k c).pid pgid
    ]

-- The process that `sys_getpgid` and `sys_getsid` look at.
abbrev named_process : Kernel → ℕ → Option ℕ
named_process k pid = if pid == 0 then get_current_process k else get_process k pid

pub sys_getpgid : Kernel → ℕ → ℕ
sys_getpgid k pid = elim (named_process k pid) [
  | none ↦ minus_one
  | some i ↦ (entry k i).process_group
]

pub sys_setsid : Kernel → Kernel × ℕ
sys_setsid k = create_session k

pub sys_getsid : Kernel → ℕ → ℕ
sys_getsid k pid = elim (named_process k pid) [ none ↦ minus_one | some i ↦ (entry k i).session_id ]

-- The first ended child, with `left` pids from `pid` on to look at.
ended_child : Kernel → ℕ → ℕ → ℕ → Option ℕ
ended_child k parent zero pid = none
ended_child k parent (suc left) pid =
    let rest = ended_child k parent left (pid + 1) in
    elim (get_process k pid) [
      | none ↦ rest
      | some i ↦
          if (entry k i).parent_pid == parent && is_zombie (entry k i).state then some i else rest
    ]

-- Calls that may schedule, with `f` fuel for the scheduler.
module _ (call_handler : ℕ → ℕ → Kernel → Kernel) (f : ℕ) where
  pub sys_exit : Kernel → ℕ → Outcome (Kernel × ℕ)
  sys_exit k status = elim (get_current_process k) [
    | none ↦ done (k, 0)
    | some c ↦ exit_process call_handler f k (entry k c).pid status >>= λ k.
        schedule call_handler f k >>= λ k. done (k, 0)
  ]

  -- `interrupt` is what happens while a call with no current process waits for ticks.
  pub sys_sleep : (Kernel → Outcome Kernel) → Kernel → ℕ → Outcome (Kernel × ℕ)
  sys_sleep interrupt k milliseconds =
      process_sleep call_handler f interrupt f k (milliseconds % 2 ^ 32) >>= λ k'. done (k', 0)

  -- `stores` tells whether `usermode_validate_pointer` and `usermode_copy_to_user` accept `status`.
  pub sys_wait : (ℕ → Bool) → Kernel → ℕ → Outcome (Kernel × ℕ)
  sys_wait stores k status = elim (get_current_process k) [
    | none ↦ done (k, minus_one)
    | some c ↦ elim (ended_child k (entry k c).pid max_processes 0) [
      | some i ↦
          if not (status == 0) && not (stores status)
          then done (k, minus_one)
          else done (k, (entry k i).pid)
      | none ↦
          schedule call_handler f (block_process k (entry k c).pid) >>= λ k'. done (k', minus_one)
    ]
  ]

  -- The loop of `sys_kill` for pid -1, with `left` pids from `pid` on to look at.
  kill_all : ℕ → ℕ → ℕ → Kernel → ℕ → Outcome (Kernel × ℕ)
  kill_all signum zero pid k sent = done (k, sent)
  kill_all signum (suc left) pid k sent = elim (get_process k pid) [
    | none ↦ kill_all signum left (pid + 1) k sent
    | some i ↦ elim ((entry k i).pid == 0) [
      | true ↦ kill_all signum left (pid + 1) k sent
      | false ↦ signal_send call_handler f k i signum >>= λ r.
          kill_all signum left (pid + 1) (r.0) (if r.1 == 0 then sent + 1 else sent)
    ]
  ]

  -- `pid < -1` compares unsigned words.
  pub sys_kill : Kernel → ℕ → ℕ → Outcome (Kernel × ℕ)
  sys_kill k pid signum =
      if leb max_signals signum
      then done (k, minus_one)
      else if pid == 0
      then elim (get_current_process k) [
        | none ↦ done (k, minus_one)
        | some c ↦ send_signal_to_process_group call_handler f k (entry k c).process_group signum
      ]
      else if ltb pid minus_one
      then send_signal_to_process_group call_handler f k (u64 (2 ^ 64 - pid)) signum
      else if pid == minus_one
      then kill_all signum max_processes 0 k 0
      else elim (get_process k pid) [
        | none ↦ done (k, minus_one)
        | some i ↦ signal_send call_handler f k i signum
      ]
