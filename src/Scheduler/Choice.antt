-- ===== src/Scheduler/Choice.antt =====
-- Which process schedule of process.c chooses, and what it changes when no signal is delivered.
use curnel.Prelude.{
  ℕ, zero, suc, ◌+◌, ◌%◌, ◌≡◌, ◌≢◌, refl, sym, ap, subst, ◌∙◌, ◌<◌, true, false, not, ◌||◌, List,
  some, arith, get_or, ◌==◌, elim_both, if_cases, modify-modify, get_or-modify_self,
  get_or-modify_self, u64,
}
use curnel.Kernel.{running, max_processes, Process, blank, Kernel, entry, update, done, ◌>>=◌}
use curnel.Process.{find_pid, switch_to_process}
use curnel.Process.Table.{IsValid, update-IsValid, find_pid_self, length-processes}
use curnel.Scheduler.{
  is_runnable, next_runnable, deliverable, handle_from, handle_pending_body, run_chosen,
  schedule_body, schedule, exit_process,
}
use curnel.Scheduler.Ends.{pid_of_runnable}

-- The `d` entries after `index`, going round the table, may not run.
abbrev pub Skips : List Process → ℕ → ℕ → Type 0
Skips ps index d =
    (e : ℕ) → e < d → is_runnable (get_or ps ((index + 1 + e) % max_processes) blank) ≡ false

Skips-first :
    (ps : List Process) (index d : ℕ)
    → Skips ps index (suc d)
    → is_runnable (get_or ps ((index + 1) % max_processes) blank) ≡ false
Skips-first ps index d s =
    let same : (index + 1 + 0) % max_processes ≡ (index + 1) % max_processes = omega arith in
    subst (λ x. is_runnable (get_or ps x blank) ≡ false) same (s 0 (omega arith))

Skips-rest :
    (ps : List Process) (index d : ℕ)
    → Skips ps index (suc d)
    → Skips ps ((index + 1) % max_processes) d
Skips-rest ps index d s = λ e h.
    let same : (index + 1 + suc e) % max_processes
        ≡ ((index + 1) % max_processes + 1 + e) % max_processes =
      omega arith in
    subst (λ x. is_runnable (get_or ps x blank) ≡ false) same (s (suc e) (omega arith))

pair : {a b c d : ℕ} → a ≡ b → c ≡ d → ◌≡◌ {A = ℕ × ℕ} (a, c) (b, d)
pair p q = cc

next_runnable_skip :
    (ps : List Process) (d left index checked : ℕ)
    → index < max_processes
    → d < left
    → Skips ps index d
    → is_runnable (get_or ps ((index + 1 + d) % max_processes) blank) ≡ true
    → next_runnable ps left index checked ≡ ((index + 1 + d) % max_processes, checked + 1 + d)
unfolding next_runnable
next_runnable_skip ps d zero index checked low small s on = absurd (omega arith)
next_runnable_skip ps zero (suc left) index checked low small s on =
    let same : (index + 1 + 0) % max_processes ≡ (index + 1) % max_processes = omega arith in
    let first : is_runnable (get_or ps ((index + 1) % max_processes) blank) ≡ true =
      subst (λ x. is_runnable (get_or ps x blank) ≡ true) same on in
    rw (first, next_runnable) (pair (sym same) (omega arith))
next_runnable_skip ps (suc d) (suc left) index checked low small s on =
    let i' = (index + 1) % max_processes in
    let same : (i' + 1 + d) % max_processes ≡ (index + 1 + suc d) % max_processes = omega arith in
    rw (Skips-first ps index d s, next_runnable)
      (next_runnable_skip ps d left i' (checked + 1) (omega arith) (omega arith)
          (Skips-rest ps index d s)
          (subst (λ x. is_runnable (get_or ps x blank) ≡ true) (sym same) on)
        ∙ pair same (omega arith))

-- When all but the last of the entries looked at may not run, all of them are counted.
next_runnable_none :
    (ps : List Process) (left index checked : ℕ)
    → Skips ps index left
    → (next_runnable ps (suc left) index checked).1 ≡ checked + suc left
unfolding next_runnable
next_runnable_none ps zero index checked s =
    elim_both {A = ℕ × ℕ} (λ r. r.1 ≡ checked + 1)
      (is_runnable (get_or ps ((index + 1) % max_processes) blank))
      ((index + 1) % max_processes, checked + 1) ((index + 1) % max_processes, checked + 1) refl
      refl
next_runnable_none ps (suc left) index checked s =
    rw (Skips-first ps index left s, next_runnable)
      (next_runnable_none ps left ((index + 1) % max_processes) (checked + 1)
          (Skips-rest ps index left s)
        ∙ omega arith)

-- The kernel after the choice of entry `i`: it runs, is charged a tick, and is the current one.
abbrev pub chosen : Kernel → ℕ → Kernel
chosen k i =
    record (update k i (λ p. record p { state = running; cpu_time = u64 (p.cpu_time + 1) })) {
      current_process_index = i;
    }

-- The entry `d + 1` places after the current one, going round the table.
abbrev pub after : Kernel → ℕ → ℕ
after k d = (k.current_process_index + 1 + d) % max_processes

module _ (call_handler : ℕ → ℕ → Kernel → Kernel) (n : ℕ) where
  handle_from_none :
      (left signum : ℕ) (k : Kernel) (i : ℕ)
      → ((s : ℕ) → deliverable (entry k i) s ≡ false)
      → handle_from call_handler
          (schedule call_handler n)
          (exit_process call_handler n)
          left
          signum
          k
          i
        ≡ done (k, 0)
  unfolding handle_from
  handle_from_none zero signum k i h = refl
  handle_from_none (suc left) signum k i h =
      rw (h signum, handle_from) (handle_from_none left (signum + 1) k i h)

  -- With no other entry to run, `schedule` changes nothing, whether or not the current process may run.
  schedule_idle :
      (k : Kernel)
      → Skips k.processes k.current_process_index 63
      → schedule call_handler (suc n) k ≡ done k
  unfolding schedule schedule_body
  schedule_idle k s =
      rw (next_runnable_none k.processes 63 k.current_process_index 0 s, schedule_body) refl

  -- A chosen entry with no signal to deliver is set running and charged a tick.
  run_chosen_quiet :
      (k : Kernel) (i : ℕ)
      → IsValid k
      → i < max_processes
      → (entry k i).pid ≢ 0
      → ((s : ℕ) → deliverable (entry k i) s ≡ false)
      → run_chosen call_handler (schedule call_handler n) (exit_process call_handler n) k i
        ≡ done (chosen k i)
  unfolding run_chosen handle_pending_body switch_to_process
  run_chosen_quiet k i v low used quiet =
      let k1 =
        update (record k { current_process_index = i }) i (λ p. record p { state = running }) in
      let at : entry k1 i ≡ record (entry k i) { state = running } =
        get_or-modify_self k.processes i (λ p. record p { state = running }) blank
          (omega (low, length-processes k v, arith)) in
      let valid : IsValid k1 =
        update-IsValid (record k { current_process_index = i }) i
          (λ p. record p { state = running }) (λ p. refl) (λ p. refl)
          (record { table = v.table; current = low; quiet = v.quiet }) in
      let again : find_pid (entry k1 i).pid k1.processes ≡ some i =
        find_pid_self k1 i valid low (λ z. used (ap (λ p. p.pid) (sym at) ∙ z)) in
      let none_found : handle_from call_handler (schedule call_handler n)
            (exit_process call_handler n) 31 1 k1 i
          ≡ done (k1, 0) =
        handle_from_none 31 1 k1 i (λ t. ap (λ p. deliverable p t) at ∙ quiet t) in
      let switched : switch_to_process k1 (entry k1 i).pid ≡ chosen k i =
        rw (again, switch_to_process)
          (ap (λ ps. record k { processes = ps; current_process_index = i })
            (modify-modify k.processes i (λ p. record p { state = running })
              (λ p. record p { state = running; cpu_time = u64 (p.cpu_time + 1) }))) in
      if_cases
        (λ o.
          (o >>= λ r. done (switch_to_process (r.0) (entry (r.0) (r.0).current_process_index).pid))
          ≡ done (chosen k i))
        (not k1.signal_handling_enabled || (entry k1 i).handling_signal) (done (k1, 0))
        (handle_from call_handler (schedule call_handler n) (exit_process call_handler n) 31 1 k1 i)
        (λ _. ap done switched) (λ _. rw (none_found) (ap done switched))

  -- Round robin in a valid kernel: the next entry that may run, going round the table from the current one, is chosen;
  -- with no signal to deliver it is set running, charged a tick and made current, and nothing else
  -- changes.
  pub schedule_next :
      (k : Kernel) (d : ℕ)
      → IsValid k
      → d < 63
      → Skips k.processes k.current_process_index d
      → is_runnable (entry k (after k d)) ≡ true
      → ((s : ℕ) → deliverable (entry k (after k d)) s ≡ false)
      → schedule call_handler (suc n) k ≡ done (chosen k (after k d))
  unfolding schedule schedule_body
  schedule_next k d v small s on quiet =
      let i = after k d in
      let found =
        next_runnable_skip k.processes d 64 k.current_process_index 0 v.current (omega arith) s
          on in
      let early : (1 + d == max_processes) ≡ false = ground arith in
      rw (found, early, schedule_body)
        (run_chosen_quiet k i v (omega arith) (pid_of_runnable (entry k i) on) quiet)
