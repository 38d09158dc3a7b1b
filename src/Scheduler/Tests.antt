-- ===== src/Scheduler/Tests.antt =====
-- The theorems about process.c and signals.c at a kernel with two processes.
use native.Mathlib.Nat.{div-le_self}
use curnel.Prelude.{
  true, ℕ, zero, suc, ◌^◌, ◌≡◌, ◌⊎◌, refl, false, none, [], ◌∷◌, arith, get_or, replicate,
}
use curnel.Kernel.{blank, Kernel, entry, done, ◌>>=◌}
use curnel.Process.{find_pid, create_process}
use curnel.Process.Table.{IsValid}
use curnel.Process.Create.{Created, create_process_lem}
use curnel.Scheduler.{default_body, deliverable, schedule, exit_process}
use curnel.Scheduler.Still.{Total}
use curnel.Scheduler.Choice.{chosen, schedule_next}
use curnel.Scheduler.History.{sends, exits, schedules, history, history-Total}
use curnel.Scheduler.Delivery.{default_body-exits}
use curnel.Signals.{default_signal_actions}
use curnel.Boot.{two_processes, two_processes-IsValid}

-- A handler that returns at once.
abbrev returns : ℕ → ℕ → Kernel → Kernel
returns handler signum k = k

create_process_lem_example :
    let r = create_process two_processes [] 8192 1 in
    ((find_pid 0 two_processes.processes ≡ none) × (r ≡ (two_processes, 0)))
    ⊎ ((i : ℕ) × Created two_processes 8192 1 (r.0) (r.1) i)
create_process_lem_example = create_process_lem two_processes [] 8192 1 two_processes-IsValid

history-Total_example :
    Total IsValid (history returns 130 two_processes (sends 1 15 ∷ schedules ∷ exits 1 0 ∷ []))
history-Total_example =
    history-Total returns (λ h s k v. v) 130 (omega arith) two_processes
      (sends 1 15 ∷ schedules ∷ exits 1 0 ∷ []) two_processes-IsValid

all_blank : (n i : ℕ) → get_or (replicate n blank) i blank ≡ blank
all_blank zero i = refl
all_blank (suc n) zero = refl
all_blank (suc n) (suc i) = all_blank n i

no_signal : (s : ℕ) → deliverable (entry two_processes 1) s ≡ false
unfolding blank
no_signal s = ground (arith, div-le_self 0 (2 ^ s))

schedule_next_example : schedule returns 1 two_processes ≡ done (chosen two_processes 1)
schedule_next_example =
    schedule_next returns 0 two_processes 0 two_processes-IsValid (omega arith)
      (λ e h. absurd (omega arith)) (unfold blank in refl) no_signal

-- SIGTSTP, whose default action is to stop the process
default_body-exits_example :
    default_body returns (schedule returns 130) (exit_process returns 130) two_processes 1 20 ≡ (
      exit_process returns 130 two_processes (entry two_processes 1).pid 148 >>= λ k'.
      done (k', true))
default_body-exits_example =
    default_body-exits returns (schedule returns 130) (exit_process returns 130) two_processes 1 20
      (unfold default_signal_actions in omega arith) (unfold default_signal_actions in omega arith)
