-- ===== src/Scheduler/Group.antt =====
-- send_signal_to_process_group of process.c for a group that has no process.
use curnel.Prelude.{ℕ, zero, suc, ◌+◌, ◌≡◌, ◌≢◌, refl, false, not, ◌&&◌, ◌==◌, arith}
use curnel.Kernel.{max_processes, Kernel, entry, done}
use curnel.Scheduler.{send_to_group, send_signal_to_process_group}

module _ (call_handler : ℕ → ℕ → Kernel → Kernel) (f : ℕ) where
  none_sent :
      (pgid signum left i : ℕ) (k : Kernel) (sent : ℕ)
      → ((j : ℕ) → (entry k j).process_group ≢ pgid)
      → send_to_group call_handler f pgid signum left i k sent ≡ done (k, sent)
  unfolding send_to_group
  none_sent pgid signum zero i k sent h = refl
  none_sent pgid signum (suc left) i k sent h =
      let miss : (not ((entry k i).pid == 0) && (entry k i).process_group == pgid) ≡ false =
        ground (arith, h i) in
      rw (miss, send_to_group) (none_sent pgid signum left (i + 1) k sent h)

  -- A group that no process is in gets no signal.
  pub send_to_group-nobody :
      (pgid signum : ℕ) (k : Kernel)
      → ((j : ℕ) → (entry k j).process_group ≢ pgid)
      → send_signal_to_process_group call_handler f k pgid signum ≡ done (k, 0)
  unfolding send_signal_to_process_group
  send_to_group-nobody pgid signum k h = none_sent pgid signum max_processes 0 k 0 h
