-- ===== src/Kernel.antt =====
-- The state that process.c, signals.c, timer.c and pipe.c share: the static variables of these
-- files in one record, with the types of process.h, signals.h and pipe.h.
use curnel.Prelude.{ℕ, Bool, false, List, [], replicate, get_or, modify}
use curnel.Memory.{Heap}

-- `PROCESS_STATE_READY` to `PROCESS_STATE_STOPPED`
pub data State : Type 0 where
  ready running blocked sleeping zombie stopped : State

abbrev pub max_processes : ℕ
max_processes = 64

abbrev pub max_signals : ℕ
max_signals = 32

-- `registers_t`
pub record Registers : Type 0 where
  pub rax : ℕ
  pub rbx : ℕ
  pub rcx : ℕ
  pub rdx : ℕ
  pub rsi : ℕ
  pub rdi : ℕ
  pub rbp : ℕ
  pub rsp : ℕ
  pub r8 : ℕ
  pub r9 : ℕ
  pub r10 : ℕ
  pub r11 : ℕ
  pub r12 : ℕ
  pub r13 : ℕ
  pub r14 : ℕ
  pub r15 : ℕ
  pub rip : ℕ
  pub rflags : ℕ
  pub cs : ℕ
  pub ss : ℕ
  pub ds : ℕ
  pub es : ℕ
  pub fs : ℕ
  pub gs : ℕ
  pub cr3 : ℕ

unfoldable pub zero_registers : Registers
zero_registers = record {
  rax = 0;
  rbx = 0;
  rcx = 0;
  rdx = 0;
  rsi = 0;
  rdi = 0;
  rbp = 0;
  rsp = 0;
  r8 = 0;
  r9 = 0;
  r10 = 0;
  r11 = 0;
  r12 = 0;
  r13 = 0;
  r14 = 0;
  r15 = 0;
  rip = 0;
  rflags = 0;
  cs = 0;
  ss = 0;
  ds = 0;
  es = 0;
  fs = 0;
  gs = 0;
  cr3 = 0;
}

-- `signal_action_t`; a handler is an address, or one of the two constants below
pub record SignalAction : Type 0 where
  pub handler : ℕ
  pub flags : ℕ
  pub mask : ℕ

abbrev pub sig_dfl : ℕ
sig_dfl = 0

abbrev pub sig_ign : ℕ
sig_ign = 1

abbrev pub default_action : SignalAction
default_action = record { handler = sig_dfl; flags = 0; mask = 0 }

-- `process_t`; pointers are addresses, 0 for NULL
pub record Process : Type 0 where
  pub pid : ℕ
  pub parent_pid : ℕ
  pub name : List ℕ
  pub state : State
  pub registers : Registers
  pub page_directory : ℕ
  pub stack : ℕ
  pub stack_size : ℕ
  pub sleep_until : ℕ
  pub start_time : ℕ
  pub cpu_time : ℕ
  pub pending_signals : ℕ
  pub blocked_signals : ℕ
  pub signal_actions : List SignalAction
  pub signal_stack : ℕ
  pub handling_signal : Bool
  pub exit_signal : ℕ
  pub file_descriptors : List ℕ
  pub tty : ℕ
  pub process_group : ℕ
  pub session_id : ℕ

-- A table entry after `memset(processes, 0, sizeof(processes))`.
unfoldable pub blank : Process
blank = record {
  pid = 0;
  parent_pid = 0;
  name = [];
  state = ready;
  registers = zero_registers;
  page_directory = 0;
  stack = 0;
  stack_size = 0;
  sleep_until = 0;
  start_time = 0;
  cpu_time = 0;
  pending_signals = 0;
  blocked_signals = 0;
  signal_actions = replicate 32 default_action;
  signal_stack = 0;
  handling_signal = false;
  exit_signal = 0;
  file_descriptors = replicate 16 0;
  tty = 0;
  process_group = 0;
  session_id = 0;
}

-- `pipe_t`
pub record Pipe : Type 0 where
  pub id : ℕ
  pub buffer : List ℕ
  pub read_pos : ℕ
  pub write_pos : ℕ
  pub data_size : ℕ
  pub flags : ℕ
  pub reader_pid : ℕ
  pub writer_pid : ℕ
  pub reader_open : Bool
  pub writer_open : Bool

pub record Kernel : Type 0 where
  pub processes : List Process
  pub current_process_index : ℕ
  pub next_pid : ℕ
  pub signal_handling_enabled : Bool
  pub timer_ticks : ℕ
  pub timer_frequency : ℕ
  pub pipes : List Pipe
  pub next_pipe_id : ℕ
  pub heap : Heap

-- What a call comes to: it returns, or the model's fuel runs out, or the code does what C leaves
-- undefined and the model does not follow: `kfree` writes outside the chain of blocks, a null
-- pointer is read, or a division is by zero.
pub data Outcome {ℓ} (A : Type ℓ) : Type ℓ where
  done : A → Outcome A
  no_fuel stray : Outcome A

infixl 5 ◌>>=◌
abbrev pub ◌>>=◌ {ℓ κ} : {A : Type ℓ} {B : Type κ} → Outcome A → (A → Outcome B) → Outcome B
done a >>= f = f a
no_fuel >>= f = no_fuel
stray >>= f = stray

-- `processes[i]`, and a write through `&processes[i]`
abbrev pub entry : Kernel → ℕ → Process
entry k i = get_or k.processes i blank

abbrev pub update : Kernel → ℕ → (Process → Process) → Kernel
update k i f = record k { processes = modify k.processes i f }
