-- ===== src/Scheduler/Termination.antt =====
-- The fuel that the calls of the scheduler of process.c and signals.c need.
use curnel.Prelude.{
  ℕ, zero, suc, ◌+◌, ◌*◌, ◌≡◌, refl, sym, ap, ◌∙◌, ◌<◌, ◌≤◌, true, not, ◌||◌, arith, Option-cases,
  inl, inr, if_both, if_cases, ◌==◌, get_or-modify_self,
}
use curnel.Kernel.{running, max_processes, Process, blank, Kernel, entry, update, Outcome}
use curnel.Process.{find_pid}
use curnel.Process.Table.{IsValid, update-IsValid, find_pid_self, length-processes}
use curnel.Scheduler.{
  is_runnable, next_runnable, handle_pending_body, exit_body, run_chosen, schedule_body,
}
use curnel.Scheduler.Valid.{next_runnable_low}
use curnel.Scheduler.Count.{
  flags, count_true, runnable, flags-modify, get_or-flags, count_true-remove, count_true-set_le,
  length-flags,
}
use curnel.Scheduler.{schedule, exit_process}
use curnel.Scheduler.Count.{count_true-le}
use curnel.Scheduler.Ends.{
  pid_of_runnable, Live, exit_body-Ends, handle_from-Ends, next_runnable_found,
}
use curnel.Scheduler.Still.{Total, Total-bind, Ends}

running-runnable :
    (p : Process) → is_runnable p ≡ true → is_runnable (record p { state = running }) ≡ true
running-runnable p h = ground arith

module _ (call_handler : ℕ → ℕ → Kernel → Kernel) (n : ℕ) (schedule : Kernel → Outcome Kernel)
    (sched : (k : Kernel) → IsValid k → 2 * runnable k < n → Ends (schedule k))
    (exit_process : Kernel → ℕ → ℕ → Outcome Kernel)
    (exits : (k : Kernel) (i code : ℕ)
      → Live (n + 1) i k
      → Ends (exit_process k (entry k i).pid code)) where
  handle_pending_body-Ends :
      (k : Kernel) (i : ℕ)
      → Live (n + 1) i k
      → Ends (handle_pending_body call_handler schedule exit_process k i)
  unfolding handle_pending_body
  handle_pending_body-Ends k i l =
      if_both (Total (λ (_ : Kernel × ℕ). Unit {0}))
        (not k.signal_handling_enabled || (entry k i).handling_signal) _ _ tt
        (handle_from-Ends call_handler n schedule sched exit_process exits 31 1 k i l)

  run_chosen-Ends :
      (k : Kernel) (i : ℕ)
      → Live (n + 1) i k
      → Ends (run_chosen call_handler schedule exit_process k i)
  unfolding run_chosen
  run_chosen-Ends k i l =
      Total-bind {A = Kernel × ℕ} {B = Kernel} (λ _. Unit {0}) (λ _. Unit {0}) _ _
        (handle_pending_body-Ends (update (record k { current_process_index = i }) i run) i live)
        (λ r h. tt)
    where
      run : Process → Process
      run p = record p { state = running }

      here : entry (update (record k { current_process_index = i }) i run) i ≡ run (entry k i)
      here =
          get_or-modify_self k.processes i run blank
            (omega (arith, l.low, length-processes k l.valid))

      live : Live (n + 1) i (update (record k { current_process_index = i }) i run)
      live = record {
        valid =
            update-IsValid (record k { current_process_index = i }) i run (λ p. refl) (λ p. refl)
              (record { table = l.valid.table; current = l.low; quiet = l.valid.quiet });
        low = l.low;
        chosen = ap is_runnable here ∙ running-runnable (entry k i) l.chosen;
        small = omega (
          arith,
          l.small,
          ap count_true (
              flags-modify k.processes i run
                (running-runnable (entry k i) l.chosen ∙ sym l.chosen)),
        );
      }

  schedule_body-Ends :
      (k : Kernel)
      → IsValid k
      → 2 * runnable k < n + 1
      → Ends (schedule_body call_handler schedule exit_process k)
  unfolding schedule_body
  schedule_body-Ends k v small =
      let r = next_runnable k.processes max_processes k.current_process_index 0 in
      if_cases (Total (λ (_ : Kernel). Unit {0})) (r.1 == max_processes) _ _ (λ _. tt)
        (λ found. run_chosen-Ends k (r.0) (record {
          valid = v;
          low = next_runnable_low k.processes 64 k.current_process_index 0 v.current;
          chosen = next_runnable_found k.processes 64 k.current_process_index 0 (λ e. ground arith);
          small = small;
        }))

module _ (call_handler : ℕ → ℕ → Kernel → Kernel) where
  -- The two functions at fuel `n`, when fewer than `n / 2` entries may run.
  both_end :
      (n : ℕ)
      → ((k : Kernel) → IsValid k → 2 * runnable k < n → Ends (schedule call_handler n k))
        × ((k : Kernel) (i code : ℕ)
            → Live (n + 1) i k
            → Ends (exit_process call_handler n k (entry k i).pid code))
  unfolding schedule exit_process
  both_end zero = (
    λ k v small. absurd (omega arith),
    λ k i code l. absurd (
        omega (
          arith,
          l.small,
          count_true-remove (flags k.processes) i (get_or-flags k.processes i ∙ l.chosen),
        )),
  )
  both_end (suc n) =
      let (sched, exits) = both_end n in
      (
        λ k v small.
            schedule_body-Ends call_handler n (schedule call_handler n) sched
              (exit_process call_handler n) exits k v (omega arith),
        λ k i code l.
            exit_body-Ends call_handler n (schedule call_handler n) sched
              (exit_process call_handler n) exits k i (entry k i).pid code l.valid
              (find_pid_self k i l.valid l.low (pid_of_runnable (entry k i) l.chosen))
              (omega (
                arith,
                l.small,
                count_true-remove (flags k.processes) i (get_or-flags k.processes i ∙ l.chosen),
              )),
      )

  runnable-le : (k : Kernel) → IsValid k → runnable k ≤ 64
  runnable-le k v =
      omega
        (arith, count_true-le (flags k.processes), length-flags k.processes, length-processes k v)

  -- In a valid kernel, whatever handlers do, `schedule` does not run out of a fuel of at least
  -- 129.
  pub schedule-Ends :
      (k : Kernel) → IsValid k → (n : ℕ) → 128 < n → Ends (schedule call_handler n k)
  schedule-Ends k v n h = (both_end n).0 k v (omega (arith, runnable-le k v))

  -- In a valid kernel, whatever handlers do, `exit_process` does not run out of a fuel of at least 130.
  pub exit_process-Ends :
      (k : Kernel) (pid code : ℕ)
      → IsValid k
      → (n : ℕ) → 128 < n
      → Ends (exit_process call_handler (suc n) k pid code)
  unfolding exit_process
  exit_process-Ends k pid code v n h = elim (Option-cases (find_pid pid k.processes)) [
    | inl e ↦ unfold exit_body in rw (e, Total) tt
    | inr (i, e) ↦
        exit_body-Ends call_handler n (schedule call_handler n) (both_end n).0
          (exit_process call_handler n) (both_end n).1 k i pid code v e
          (omega (arith, count_true-set_le (flags k.processes) i, runnable-le k v))
  ]
