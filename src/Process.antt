-- ===== src/Process.antt =====
-- process.c without its scheduler: looking processes up, creating them, and the state changes that
-- call nothing else. A pointer to a process is its index in the table. Terminal output is left out.
pub mod Table
mod Pids
pub mod Create
pub mod Preserve
use mathlib.Core.Option
use curnel.Prelude.{
  ℕ, ◌+◌, ◌%◌, Bool, true, false, not, ◌&&◌, ◌||◌, Option, none, some, List, [], ◌∷◌, take,
  replicate, set, ltb, leb, ◌==◌, if◌then◌else◌, u64, minus_one, int_word,
}
use curnel.Memory.{kmalloc}
use curnel.Kernel.{
  State, ready, running, blocked, sleeping, zombie, stopped, max_processes, Registers,
  zero_registers, SignalAction, default_action, Process, blank, Pipe, Kernel, entry, update,
}

abbrev pub is_ready : State → Bool
is_ready ready = true
is_ready _ = false

abbrev pub is_running : State → Bool
is_running running = true
is_running _ = false

abbrev pub is_blocked : State → Bool
is_blocked blocked = true
is_blocked _ = false

abbrev pub is_sleeping : State → Bool
is_sleeping sleeping = true
is_sleeping _ = false

abbrev pub is_zombie : State → Bool
is_zombie zombie = true
is_zombie _ = false

abbrev pub is_stopped : State → Bool
is_stopped stopped = true
is_stopped _ = false

-- The loop `for (i = 0; i < MAX_PROCESSES; i++) if (processes[i].pid == pid)`, which every function
-- of the file runs to find a process: the first index that fits.
unfoldable pub find_pid : ℕ → List Process → Option ℕ
find_pid pid [] = none
find_pid pid (p ∷ ps) =
    let rest = find_pid pid ps in if p.pid == pid then some 0 else Option.map (λ i. i + 1) rest

unfoldable pub init_processes : Kernel → Kernel
init_processes k = record k { processes = replicate max_processes blank }

-- `name[31]` at most
abbrev copy_name : List ℕ → List ℕ
copy_name name = take 31 name

-- NULL is 0.
abbrev pub pointer : Option ℕ → ℕ
pointer none = 0
pointer (some p) = p

-- The entry that `create_process` fills, over what stood in it.
pub new_process : Process → ℕ → List ℕ → ℕ → ℕ → ℕ → ℕ → Process
new_process old pid name entry_point parent_pid stack ticks = record old {
  pid = pid;
  parent_pid = parent_pid;
  name = copy_name name;
  state = ready;
  registers = record zero_registers { rip = entry_point; rsp = u64 (stack + 4096) };
  stack_size = 4096;
  stack = stack;
  start_time = ticks;
  cpu_time = 0;
  pending_signals = 0;
  blocked_signals = 0;
  handling_signal = false;
  exit_signal = 0;
  signal_actions = replicate 32 default_action;
  file_descriptors = set (set (set (replicate 16 0) 0 0) 1 1) 2 2;
  process_group = pid;
  session_id = pid;
  tty = 0;
}

-- The result is the new pid, 0 when the table is full.
pub create_process : Kernel → List ℕ → ℕ → ℕ → Kernel × ℕ
create_process k name entry_point parent_pid = elim (find_pid 0 k.processes) [
  | none ↦ (k, 0)
  | some i ↦
      let (stack, heap) = kmalloc k.heap 4096 in
      (
        record (update k i (λ old.
            new_process old k.next_pid name entry_point parent_pid (pointer stack) k.timer_ticks)) {
              next_pid = u64 (k.next_pid + 1);
              heap = heap;
            },
        k.next_pid,
      )
]

unfoldable pub get_process : Kernel → ℕ → Option ℕ
get_process k pid = find_pid pid k.processes

pub get_current_process : Kernel → Option ℕ
get_current_process k =
    if (entry k k.current_process_index).pid == 0 then none else some k.current_process_index

-- What the functions below do once the loop has found `pid`; otherwise they return.
abbrev pub with_pid : Kernel → ℕ → (Process → Process) → Kernel
with_pid k pid f = elim (find_pid pid k.processes) [ none ↦ k | some i ↦ update k i f ]

unfoldable pub switch_to_process : Kernel → ℕ → Kernel
switch_to_process k pid = elim (find_pid pid k.processes) [
  | none ↦ k
  | some i ↦
      record (update k i (λ p. record p { state = running; cpu_time = u64 (p.cpu_time + 1) })) {
        current_process_index = i;
      }
]

pub block_process : Kernel → ℕ → Kernel
block_process k pid = with_pid k pid (λ p. record p { state = blocked })

unfoldable pub unblock_process : Kernel → ℕ → Kernel
unblock_process k pid =
    with_pid k pid (λ p. record p { state = if is_blocked p.state then ready else p.state })

pub continue_process : Kernel → ℕ → Kernel
continue_process k pid =
    with_pid k pid (λ p. record p { state = if is_stopped p.state then ready else p.state })

-- Results are 0 and -1 as the `int` that the function returns, read as a 64-bit word.
pub set_process_group : Kernel → ℕ → ℕ → Kernel × ℕ
set_process_group k pid pgid = elim (find_pid pid k.processes) [
  | none ↦ (k, minus_one)
  | some i ↦ (update k i (λ p. record p { process_group = if pgid == 0 then pid else pgid }), 0)
]

-- The pid of a leader is its group: it may not open a session.
pub create_session : Kernel → Kernel × ℕ
create_session k = elim (get_current_process k) [
  | none ↦ (k, minus_one)
  | some i ↦
      let p = entry k i in
      if p.pid == p.process_group then (k, minus_one) else (
        update k i (λ q. record q { session_id = q.pid; process_group = q.pid }),
        int_word p.pid,
      )
]

-- The loop of `is_orphaned_process_group` over the entries that are left.
no_parent_in_session : Kernel → ℕ → List Process → Bool
no_parent_in_session k pgid [] = true
no_parent_in_session k pgid (p ∷ ps) =
    let rest = no_parent_in_session k pgid ps in
    if not (p.pid == 0) && p.process_group == pgid
    then elim (find_pid p.parent_pid k.processes) [
      | none ↦ rest
      | some i ↦ if (entry k i).session_id == p.session_id then false else rest
    ]
    else rest

is_orphaned_process_group : Kernel → ℕ → Bool
is_orphaned_process_group k pgid = no_parent_in_session k pgid k.processes

is_process_group_member : Kernel → ℕ → ℕ → Bool
is_process_group_member k pid pgid = elim (find_pid pid k.processes) [
  | none ↦ false
  | some i ↦ (entry k i).process_group == pgid
]

-- The counting loop of `wait_for_process_group`.
pub active_children : ℕ → ℕ → List Process → ℕ
active_children pgid parent [] = 0
active_children pgid parent (p ∷ ps) =
    let rest = active_children pgid parent ps in
    if not (p.pid == 0)
      && p.process_group == pgid
      && p.parent_pid == parent
      && not (is_zombie p.state)
    then rest + 1
    else rest
