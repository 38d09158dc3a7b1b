-- ===== src/Scheduler/History.antt =====
-- Histories of calls of process.c and signals.c.
use curnel.Prelude.{
  ℕ, zero, suc, ◌+◌, ◌<◌, refl, Option, List, [], ◌∷◌, arith, Option-cases, inl, inr, if_both, ◌==◌,
  not, ◌&&◌, elim_both,
}
use curnel.Kernel.{SignalAction, Kernel, entry, Outcome, done, no_fuel, stray, ◌>>=◌}
use curnel.Process.{
  find_pid, create_process, block_process, unblock_process, continue_process, set_process_group,
  create_session, get_current_process, active_children,
}
use curnel.Process.Table.{IsValid, update-IsValid}
use curnel.Process.Create.{create_process-IsValid}
use curnel.Process.Preserve.{
  block_process-IsValid, unblock_process-IsValid, continue_process-IsValid,
  set_process_group-IsValid, create_session-IsValid,
}
use curnel.Signals.{signal_set_handler, signal_set_action, signal_proc_mask}
use curnel.Signals.Preserve.{
  signal_set_handler-IsValid, signal_set_action-IsValid, signal_proc_mask-IsValid,
}
use curnel.Scheduler.{
  schedule, exit_process, stop_process, signal_send, signal_handle_pending, sleep_process,
  send_to_group, send_signal_to_process_group, wait_for_process_group,
}
use curnel.Scheduler.Valid.{
  Holds, Holds-bind, Leaves, stop_body-IsValid, send_body-IsValid, handle_pending_body-IsValid,
  exit_body-IsValid, schedule_body-IsValid,
}
use curnel.Scheduler.Still.{Total, Total-bind, Ends}
use curnel.Scheduler.Termination.{schedule-Ends, exit_process-Ends}

-- The calls that the rest of the kernel makes of process.c and signals.c.
pub data Call : Type 0 where
  schedules : Call
  exits : ℕ → ℕ → Call
  stops : ℕ → Call
  sends : ℕ → ℕ → Call
  handles : ℕ → Call
  sleeps : ℕ → ℕ → Call
  sends_group : ℕ → ℕ → Call
  waits_group : ℕ → Call
  creates : List ℕ → ℕ → ℕ → Call
  blocks : ℕ → Call
  unblocks : ℕ → Call
  continues : ℕ → Call
  sets_group : ℕ → ℕ → Call
  opens_session : Call
  sets_handler : ℕ → ℕ → Call
  sets_action : ℕ → Option SignalAction → Call
  masks : ℕ → Option ℕ → Call

Total-both {ℓ} :
    {A : Type ℓ} (P : A → Type 0) (m : Outcome A) → Holds (Unit {0}) P m → Ends m → Total P m
Total-both P (done a) h e = h
Total-both P no_fuel h e = absurd e
Total-both P stray h e = tt

module _ (call_handler : ℕ → ℕ → Kernel → Kernel) where
  perform : ℕ → Kernel → Call → Outcome Kernel
  perform f k schedules = schedule call_handler f k
  perform f k (exits pid code) = exit_process call_handler f k pid code
  perform f k (stops pid) = stop_process call_handler f k pid
  perform f k (sends i signum) = signal_send call_handler f k i signum >>= λ r. done (r.0)
  perform f k (handles i) = signal_handle_pending call_handler f k i >>= λ r. done (r.0)
  perform f k (sleeps pid ms) = sleep_process call_handler f k pid ms
  perform f k (sends_group pgid signum) =
      send_signal_to_process_group call_handler f k pgid signum >>= λ r. done (r.0)
  perform f k (waits_group pgid) = wait_for_process_group call_handler f k pgid >>= λ r. done (r.0)
  perform f k (creates name entry_point parent) = done (create_process k name entry_point parent).0
  perform f k (blocks pid) = done (block_process k pid)
  perform f k (unblocks pid) = done (unblock_process k pid)
  perform f k (continues pid) = done (continue_process k pid)
  perform f k (sets_group pid pgid) = done (set_process_group k pid pgid).0
  perform f k opens_session = done (create_session k).0
  perform f k (sets_handler signum handler) = done (signal_set_handler k signum handler).0
  perform f k (sets_action signum act) = done (signal_set_action k signum act).0
  perform f k (masks how set) = done (signal_proc_mask k how set).0

  pub history : ℕ → Kernel → List Call → Outcome Kernel
  history f k [] = done k
  history f k (c ∷ cs) = perform f k c >>= λ k'. history f k' cs

module _ (call_handler : ℕ → ℕ → Kernel → Kernel)
    (polite : (h s : ℕ) (k : Kernel) → IsValid k → IsValid (call_handler h s k)) where
  both_keep :
      (n : ℕ)
      → ((k : Kernel) → IsValid k → Holds (Unit {0}) IsValid (schedule call_handler n k))
        × ((k : Kernel) (pid code : ℕ)
            → IsValid k
            → Holds (Unit {0}) IsValid (exit_process call_handler n k pid code))
  unfolding schedule exit_process
  both_keep zero = (λ k v. tt, λ k pid code v. tt)
  both_keep (suc n) =
      let (sched, exit) = both_keep n in
      (
        schedule_body-IsValid (Unit {0}) call_handler polite (schedule call_handler n) sched
            (exit_process call_handler n) exit,
        exit_body-IsValid (Unit {0}) call_handler polite (schedule call_handler n) sched
            (exit_process call_handler n) exit,
      )

  module _ (f : ℕ) (enough : 129 < f) where
    schedule-Total : (k : Kernel) → IsValid k → Holds ⊥ IsValid (schedule call_handler f k)
    schedule-Total k v =
        Total-both IsValid (schedule call_handler f k) ((both_keep f).0 k v)
          (schedule-Ends call_handler k v f (omega arith))

    exit-Total :
        (k : Kernel) (pid code : ℕ)
        → IsValid k
        → Holds ⊥ IsValid (exit_process call_handler f k pid code)
    exit-Total k pid code v =
        Total-both IsValid (exit_process call_handler f k pid code) ((both_keep f).1 k pid code v)
          (exit_ends f enough)
      where
        exit_ends : (g : ℕ) → 129 < g → Ends (exit_process call_handler g k pid code)
        exit_ends zero h = absurd (omega arith)
        exit_ends (suc g) h = exit_process-Ends call_handler k pid code v g (omega arith)

    send-Total :
        (k : Kernel) (i signum : ℕ)
        → IsValid k
        → Holds ⊥ {A = Kernel × ℕ} Leaves (signal_send call_handler f k i signum)
    unfolding signal_send
    send-Total k i signum v =
        send_body-IsValid ⊥ call_handler polite (schedule call_handler f) schedule-Total
          (exit_process call_handler f) exit-Total k i signum v

    send_to_group-Total :
        (pgid signum left i : ℕ) (k : Kernel) (sent : ℕ)
        → IsValid k
        → Holds ⊥ {A = Kernel × ℕ} Leaves (send_to_group call_handler f pgid signum left i k sent)
    unfolding send_to_group
    send_to_group-Total pgid signum zero i k sent v = v
    send_to_group-Total pgid signum (suc left) i k sent v =
        elim_both (Holds ⊥ {A = Kernel × ℕ} Leaves)
          (not ((entry k i).pid == 0) && (entry k i).process_group == pgid) _ _
          (Holds-bind ⊥ {A = Kernel × ℕ} {B = Kernel × ℕ} Leaves Leaves
            (signal_send call_handler f k i signum) _ (send-Total k i signum v)
            (λ r h. send_to_group-Total pgid signum left (i + 1) (r.0) _ h))
          (send_to_group-Total pgid signum left (i + 1) k sent v)

    first : (m : Outcome (Kernel × ℕ)) → Holds ⊥ Leaves m → Holds ⊥ IsValid (m >>= λ r. done (r.0))
    first m h = Holds-bind ⊥ {A = Kernel × ℕ} {B = Kernel} Leaves IsValid m _ h (λ r v. v)

    sleep-Total :
        (k : Kernel) (pid ms : ℕ)
        → IsValid k
        → Holds ⊥ IsValid (sleep_process call_handler f k pid ms)
    unfolding sleep_process
    sleep-Total k pid ms v = elim (Option-cases (find_pid pid k.processes)) [
      | inl e ↦ rw (e, Holds) v
      | inr (i, e) ↦
          rw (e, Holds) (schedule-Total _ (update-IsValid k i _ (λ p. refl) (λ p. refl) v))
    ]

    wait-Total :
        (k : Kernel) (pgid : ℕ)
        → IsValid k
        → Holds ⊥ {A = Kernel × ℕ} Leaves (wait_for_process_group call_handler f k pgid)
    unfolding wait_for_process_group
    wait-Total k pgid v = elim (Option-cases (get_current_process k)) [
      | inl e ↦ rw (e, Holds) v
      | inr (i, e) ↦
          rw (e, Holds)
            (if_both (Holds ⊥ {A = Kernel × ℕ} Leaves)
              (active_children pgid (entry k i).pid k.processes == 0) _ _ v
              (Holds-bind ⊥ {A = Kernel} {B = Kernel × ℕ} IsValid Leaves _ _
                (schedule-Total _ (update-IsValid k i _ (λ p. refl) (λ p. refl) v)) (λ r h. h)))
    ]

    -- Each call returns and leaves the table valid.
    perform-Total : (k : Kernel) (c : Call) → IsValid k → Total IsValid (perform call_handler f k c)
    unfolding perform stop_process signal_handle_pending send_signal_to_process_group
    perform-Total k schedules v = schedule-Total k v
    perform-Total k (exits pid code) v = exit-Total k pid code v
    perform-Total k (stops pid) v =
        stop_body-IsValid ⊥ call_handler polite (schedule call_handler f) schedule-Total
          (exit_process call_handler f) exit-Total k pid v
    perform-Total k (sends i signum) v = first _ (send-Total k i signum v)
    perform-Total k (handles i) v = first _ (
        handle_pending_body-IsValid ⊥ call_handler polite (schedule call_handler f) schedule-Total
          (exit_process call_handler f) exit-Total k i v)
    perform-Total k (sleeps pid ms) v = sleep-Total k pid ms v
    perform-Total k (sends_group pgid signum) v =
        first _ (send_to_group-Total pgid signum 64 0 k 0 v)
    perform-Total k (waits_group pgid) v = first _ (wait-Total k pgid v)
    perform-Total k (creates name entry_point parent) v =
        create_process-IsValid k name entry_point parent v
    perform-Total k (blocks pid) v = block_process-IsValid k pid v
    perform-Total k (unblocks pid) v = unblock_process-IsValid k pid v
    perform-Total k (continues pid) v = continue_process-IsValid k pid v
    perform-Total k (sets_group pid pgid) v = set_process_group-IsValid k pid pgid v
    perform-Total k opens_session v = create_session-IsValid k v
    perform-Total k (sets_handler signum handler) v = signal_set_handler-IsValid k signum handler v
    perform-Total k (sets_action signum act) v = signal_set_action-IsValid k signum act v
    perform-Total k (masks how set) v = signal_proc_mask-IsValid k v how set

    -- No history of calls on a valid kernel exhausts a fuel of at least 130, if the handlers in
    -- user code keep the kernel valid: each call returns, unless `kfree` writes outside its chain,
    -- and leaves a valid kernel.
    pub history-Total :
        (k : Kernel) (cs : List Call) → IsValid k → Total IsValid (history call_handler f k cs)
    unfolding history
    history-Total k [] v = v
    history-Total k (c ∷ cs) v =
        Total-bind IsValid IsValid (perform call_handler f k c) _ (perform-Total k c v)
          (λ k' v'. history-Total k' cs v')
