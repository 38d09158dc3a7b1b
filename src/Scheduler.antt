-- ===== src/Scheduler.antt =====
-- The functions of process.c and signals.c that call one another: `schedule` delivers signals, a
-- delivered signal may end or stop a process, and both of these end in `schedule`.
-- The context switch of the source changes the current process and nothing else, so `schedule`
-- returns to its caller. What a handler in user code does is the parameter `call_handler`.
pub mod Valid
pub mod Count
pub mod Still
pub mod Ends
pub mod Termination
pub mod History
pub mod Choice
pub mod Delivery
pub mod Group
mod Tests
use Prim.Native.Nat.{bit_and}
use mathlib.Core.List.{map}
use curnel.Prelude.{
  ℕ, zero, suc, ◌+◌, ◌%◌, Bool, true, false, not, ◌&&◌, ◌||◌, Option, none, some, List, [], ◌∷◌,
  get_or, leb, ◌==◌, if◌then◌else◌, u64, minus_one, bit, clear_bit,
}
use curnel.Memory.{kfree}
use curnel.Kernel.{
  ready, running, blocked, sleeping, zombie, stopped, max_processes, sig_dfl, sig_ign, Process,
  blank, Kernel, entry, update, Outcome, done, no_fuel, stray, ◌>>=◌,
}
use curnel.Process.{
  is_ready, is_running, is_stopped, find_pid, get_current_process, switch_to_process, block_process,
  continue_process, active_children,
}
use curnel.Signals.{
  sigkill, sigterm, sigchld, sigcont, sigstop, default_signal_actions, bad_signum,
  signal_add_pending, action_of,
}

-- May `schedule` choose this entry?
abbrev pub is_runnable : Process → Bool
is_runnable p = not (p.pid == 0) && (is_ready p.state || is_running p.state)

-- The search loop of `schedule`: the index where it stops, and `checked`.
pub next_runnable : List Process → ℕ → ℕ → ℕ → ℕ × ℕ
next_runnable ps zero index checked = (index, checked)
next_runnable ps (suc left) index checked =
    let index' = (index + 1) % max_processes in
    elim (is_runnable (get_or ps index' blank)) [
      | true ↦ (index', checked + 1)
      | false ↦ next_runnable ps left index' (checked + 1)
    ]

-- `process->pending_signals & bit` and not `process->blocked_signals & bit`
abbrev pub deliverable : Process → ℕ → Bool
deliverable p signum = bit p.pending_signals signum && not (bit p.blocked_signals signum)

abbrev pub take_pending : ℕ → Process → Process
take_pending signum p = record p { pending_signals = clear_bit p.pending_signals signum }

-- The loop of `exit_process` that gives the children to process 1.
pub orphan : ℕ → List Process → List Process
orphan pid =
    map (λ p. if not (p.pid == 0) && p.parent_pid == pid then record p { parent_pid = 1 } else p)

-- Both `if (...) { kfree(...); ... = NULL; }` blocks of `exit_process`.
pub free_stack : Kernel → ℕ → Outcome Kernel
free_stack k i = if (entry k i).stack == 0 then done k else elim (kfree k.heap (entry k i).stack) [
  | none ↦ stray
  | some h ↦ done (record (update k i (λ p. record p { stack = 0 })) { heap = h })
]

pub free_signal_stack : Kernel → ℕ → Outcome Kernel
free_signal_stack k i =
    if (entry k i).signal_stack == 0 then done k else elim (kfree k.heap (entry k i).signal_stack) [
      | none ↦ stray
      | some h ↦ done (record (update k i (λ p. record p { signal_stack = 0 })) { heap = h })
    ]

module _ (call_handler : ℕ → ℕ → Kernel → Kernel) (schedule : Kernel → Outcome Kernel)
    (exit_process : Kernel → ℕ → ℕ → Outcome Kernel) where
  pub stop_body : Kernel → ℕ → Outcome Kernel
  stop_body k pid = elim (find_pid pid k.processes) [
    | none ↦ done k
    | some i ↦ schedule (update k i (λ p. record p { state = stopped }))
  ]

  pub send_body : Kernel → ℕ → ℕ → Outcome (Kernel × ℕ)
  send_body k i signum =
      if bad_signum signum
      then done (k, minus_one)
      else if signum == sigkill
      then (exit_process k (entry k i).pid (128 + signum) >>= λ k'. done (k', 0))
      else if signum == sigstop
      then (stop_body k (entry k i).pid >>= λ k'. done (k', 0))
      else if signum == sigcont
      then done (if is_stopped (entry k i).state then continue_process k (entry k i).pid else k, 0)
      else done (signal_add_pending k i signum)

  -- The default action of `signum`, once it is taken off the pending set. The flag tells that
  -- `signal_handle_pending` returns.
  pub default_body : Kernel → ℕ → ℕ → Outcome (Kernel × Bool)
  default_body k i signum =
      let action = get_or default_signal_actions signum 0 in
      if not (bit_and action sigterm == 0)
      then (exit_process k (entry k i).pid (128 + signum) >>= λ k'. done (k', true))
      else if action == 0
      then done (k, false)
      else if action == 1
      then done
          (if is_stopped (entry k i).state then continue_process k (entry k i).pid else k, false)
      else if action == 2
      then (stop_body k (entry k i).pid >>= λ k'. done (k', true))
      else done (k, false)

  -- A handler of the process's own runs with `handling_signal` set.
  pub custom_body : Kernel → ℕ → ℕ → Kernel
  custom_body k i signum =
      let k = update k i (λ p. record p { handling_signal = true }) in
      let k = call_handler (action_of (entry k i) signum).handler signum k in
      update k i (λ p. record p { handling_signal = false })

  pub deliver_body : Kernel → ℕ → ℕ → Outcome (Kernel × Bool)
  deliver_body k i signum =
      let k = update k i (take_pending signum) in
      let handler = (action_of (entry k i) signum).handler in
      if handler == sig_dfl
      then default_body k i signum
      else if handler == sig_ign
      then done (k, false)
      else done (custom_body k i signum, true)

  -- The loop of `signal_handle_pending` with `left` signals to look at, from `signum` on.
  pub handle_from : ℕ → ℕ → Kernel → ℕ → Outcome (Kernel × ℕ)
  handle_from zero signum k i = done (k, 0)
  handle_from (suc left) signum k i = elim (deliverable (entry k i) signum) [
    | true ↦ deliver_body k i signum >>= λ r. elim (r.1) [
      | true ↦ done (r.0, 1)
      | false ↦ handle_from left (signum + 1) (r.0) i
    ]
    | false ↦ handle_from left (signum + 1) k i
  ]

  pub handle_pending_body : Kernel → ℕ → Outcome (Kernel × ℕ)
  handle_pending_body k i =
      if not k.signal_handling_enabled || (entry k i).handling_signal
      then done (k, 0)
      else handle_from 31 1 k i

  pub tell_parent : Kernel → ℕ → ℕ → Outcome Kernel
  tell_parent k i signum = elim (find_pid (entry k i).parent_pid k.processes) [
    | none ↦ done k
    | some j ↦ send_body k j signum >>= λ r. done (r.0)
  ]

  -- `exit_code` is only printed.
  pub exit_body : Kernel → ℕ → ℕ → Outcome Kernel
  exit_body k pid exit_code = elim (find_pid pid k.processes) [
    | none ↦ done k
    | some i ↦
        (if (entry k i).exit_signal == 0 then done k else tell_parent k i (entry k i).exit_signal)
        >>= λ k. (if (entry k i).parent_pid == 0 then done k else tell_parent k i sigchld) >>= λ k.
            free_stack k i >>= λ k. free_signal_stack k i >>= λ k. schedule (
              update (record k { processes = orphan pid k.processes }) i
                (λ p. record p { state = zombie }))
  ]

  -- What `schedule` does once it has chosen entry `i`.
  pub run_chosen : Kernel → ℕ → Outcome Kernel
  run_chosen k i =
      handle_pending_body
        (update (record k { current_process_index = i }) i (λ p. record p { state = running })) i
      >>= λ r. done (switch_to_process (r.0) (entry (r.0) (r.0).current_process_index).pid)

  pub schedule_body : Kernel → Outcome Kernel
  schedule_body k =
      let (i, checked) = next_runnable k.processes max_processes k.current_process_index 0 in
      if checked == max_processes then done k else run_chosen k i

module _ (call_handler : ℕ → ℕ → Kernel → Kernel) where
  -- The functions of the source, with fuel for the calls that they make of one another.
  mutual
    pub schedule : ℕ → Kernel → Outcome Kernel
    schedule zero = λ k. no_fuel
    schedule (suc f) = schedule_body call_handler (schedule f) (exit_process f)

    pub exit_process : ℕ → Kernel → ℕ → ℕ → Outcome Kernel
    exit_process zero = λ k pid code. no_fuel
    exit_process (suc f) = exit_body call_handler (schedule f) (exit_process f)

  pub stop_process : ℕ → Kernel → ℕ → Outcome Kernel
  stop_process f = stop_body call_handler (schedule f) (exit_process f)

  pub signal_send : ℕ → Kernel → ℕ → ℕ → Outcome (Kernel × ℕ)
  signal_send f = send_body call_handler (schedule f) (exit_process f)

  pub signal_handle_pending : ℕ → Kernel → ℕ → Outcome (Kernel × ℕ)
  signal_handle_pending f = handle_pending_body call_handler (schedule f) (exit_process f)

  pub sleep_process : ℕ → Kernel → ℕ → ℕ → Outcome Kernel
  sleep_process f k pid ms = elim (find_pid pid k.processes) [
    | none ↦ done k
    | some i ↦
        schedule f
          (update k i (λ p. record p { sleep_until = u64 (k.timer_ticks + ms); state = sleeping }))
  ]

  -- The loop of `send_signal_to_process_group` with `left` entries to look at, from entry `i` on.
  pub send_to_group : ℕ → ℕ → ℕ → ℕ → ℕ → Kernel → ℕ → Outcome (Kernel × ℕ)
  send_to_group f pgid signum zero i k sent = done (k, sent)
  send_to_group f pgid signum (suc left) i k sent =
      elim (not ((entry k i).pid == 0) && (entry k i).process_group == pgid) [
        | true ↦ signal_send f k i signum >>= λ r.
            send_to_group f pgid signum left (i + 1) (r.0) (if r.1 == 0 then sent + 1 else sent)
        | false ↦ send_to_group f pgid signum left (i + 1) k sent
      ]

  pub send_signal_to_process_group : ℕ → Kernel → ℕ → ℕ → Outcome (Kernel × ℕ)
  send_signal_to_process_group f k pgid signum = send_to_group f pgid signum max_processes 0 k 0

  -- `status` is not written.
  pub wait_for_process_group : ℕ → Kernel → ℕ → Outcome (Kernel × ℕ)
  wait_for_process_group f k pgid = elim (get_current_process k) [
    | none ↦ done (k, minus_one)
    | some i ↦
        if active_children pgid (entry k i).pid k.processes == 0
        then done (k, 0)
        else (schedule f (update k i (λ p. record p { state = blocked })) >>= λ k'. done (k', 0))
  ]
