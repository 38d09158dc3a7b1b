-- ===== src/Boot.antt =====
-- A kernel with two processes, and the state at the start: where the theorems are applied.
use curnel.Prelude.{ℕ, zero, suc, ◌≡◌, refl, ap, ◌<◌, true, replicate, arith, ◌∷◌, get_or}
use curnel.Memory.{unused}
use curnel.Kernel.{running, Kernel, blank}
use curnel.Pipe.{max_pipes, no_pipe}
use curnel.Process.Table.{IsValid, pids, Distinct}
use curnel.Process.Create.{pids-blanks, All-replicate}

-- The static variables at their initial values, with an empty table and a clock of 100 Hz.
abbrev pub booted : Kernel
booted = record {
  processes = replicate 64 blank;
  current_process_index = 0;
  next_pid = 1;
  signal_handling_enabled = true;
  timer_ticks = 0;
  timer_frequency = 100;
  pipes = replicate max_pipes no_pipe;
  next_pipe_id = 1;
  heap = unused;
}

-- Process 1 runs, its child 2 is ready.
abbrev pub two_processes : Kernel
two_processes = record booted {
  processes =
      record blank { pid = 1; state = running; process_group = 1; session_id = 1 }
      ∷ record blank { pid = 2; parent_pid = 1; process_group = 2; session_id = 2 }
      ∷ replicate 62 blank;
  next_pid = 3;
}

two_pids : pids two_processes.processes ≡ 1 ∷ 2 ∷ replicate 62 0
two_pids = ap (λ xs. 1 ∷ 2 ∷ xs) (pids-blanks 62)

all_zero : (n i : ℕ) → get_or {A = ℕ} (replicate n 0) i 0 ≡ 0
all_zero zero i = refl
all_zero (suc n) zero = refl
all_zero (suc n) (suc i) = all_zero n i

two-Distinct : Distinct (1 ∷ 2 ∷ replicate 62 0)
two-Distinct zero h used = refl
two-Distinct (suc zero) h used = refl
two-Distinct (suc (suc i)) h used = absurd (used (all_zero 62 i))

pub two_processes-IsValid : IsValid two_processes
two_processes-IsValid = record {
  table = rw two_pids (record {
    full = refl;
    distinct = two-Distinct;
    fresh = (omega arith, (omega arith, All-replicate (λ x. x < 3) 62 0 (omega arith)));
    counted = refl;
  });
  current = omega arith;
  quiet = (
    unfold blank in refl,
    (unfold blank in refl, All-replicate (λ p. p.exit_signal ≡ 0) 62 blank (unfold blank in refl)),
  );
}
