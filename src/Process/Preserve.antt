-- ===== src/Process/Preserve.antt =====
-- The validity of the process table along the operations of process.c that call nothing else.
use curnel.Prelude.{ℕ, ◌+◌, u64, ◌≡◌, refl, some, arith, Option-cases, inl, inr, Bool-cases, ◌==◌}
use curnel.Kernel.{running, Process, Kernel, entry, update}
use curnel.Process.{
  find_pid, get_current_process, with_pid, switch_to_process, block_process, unblock_process,
  continue_process, set_process_group, create_session,
}
use curnel.Process.Table.{IsValid, update-IsValid, find_pid-some, length-processes}

with_pid-IsValid :
    (k : Kernel) (pid : ℕ) (f : Process → Process)
    → ((p : Process) → (f p).pid ≡ p.pid)
    → ((p : Process) → (f p).exit_signal ≡ p.exit_signal)
    → IsValid k
    → IsValid (with_pid k pid f)
with_pid-IsValid k pid f hp he v = elim (Option-cases (find_pid pid k.processes)) [
  | inl e ↦ rw (e, with_pid) v
  | inr (i, e) ↦ rw (e, with_pid) (update-IsValid k i f hp he v)
]

pub block_process-IsValid : (k : Kernel) (pid : ℕ) → IsValid k → IsValid (block_process k pid)
unfolding block_process
block_process-IsValid k pid v = with_pid-IsValid k pid _ (λ p. refl) (λ p. refl) v

pub unblock_process-IsValid : (k : Kernel) (pid : ℕ) → IsValid k → IsValid (unblock_process k pid)
unfolding unblock_process
unblock_process-IsValid k pid v = with_pid-IsValid k pid _ (λ p. refl) (λ p. refl) v

pub continue_process-IsValid : (k : Kernel) (pid : ℕ) → IsValid k → IsValid (continue_process k pid)
unfolding continue_process
continue_process-IsValid k pid v = with_pid-IsValid k pid _ (λ p. refl) (λ p. refl) v

pub switch_to_process-IsValid :
    (k : Kernel) (pid : ℕ) → IsValid k → IsValid (switch_to_process k pid)
unfolding switch_to_process
switch_to_process-IsValid k pid v = elim (Option-cases (find_pid pid k.processes)) [
  | inl e ↦ rw (e, switch_to_process) v
  | inr (i, e) ↦ rw (e, switch_to_process) (at i e)
]
  where
    at :
        (i : ℕ)
        → find_pid pid k.processes ≡ some i
        → IsValid
            (record (update k i
              (λ p. record p { state = running; cpu_time = u64 (p.cpu_time + 1) })) {
                current_process_index = i;
              })
    at i e =
        let w =
          update-IsValid k i (λ p. record p { state = running; cpu_time = u64 (p.cpu_time + 1) })
            (λ p. refl) (λ p. refl) v in
        record {
          table = w.table;
          current = omega (arith, find_pid-some pid i k.processes e, length-processes k v);
          quiet = w.quiet;
        }

pub set_process_group-IsValid :
    (k : Kernel) (pid pgid : ℕ) → IsValid k → IsValid (set_process_group k pid pgid).0
unfolding set_process_group
set_process_group-IsValid k pid pgid v = elim (Option-cases (find_pid pid k.processes)) [
  | inl e ↦ rw (e, set_process_group) v
  | inr (i, e) ↦ rw (e, set_process_group) (update-IsValid k i _ (λ p. refl) (λ p. refl) v)
]

pub create_session-IsValid : (k : Kernel) → IsValid k → IsValid (create_session k).0
unfolding create_session
create_session-IsValid k v = elim (Option-cases (get_current_process k)) [
  | inl e ↦ rw (e, create_session) v
  | inr (i, e) ↦
      rw (e, create_session)
        (elim (Bool-cases ((entry k i).pid == (entry k i).process_group)) [
          | inl leader ↦ rw leader v
          | inr other ↦ rw other (update-IsValid k i _ (λ p. refl) (λ p. refl) v)
        ])
]
