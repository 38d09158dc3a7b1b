-- ===== src/Scheduler/Valid.antt =====
-- The validity of the process table along schedule and exit_process of process.c.
use Prim.Native.Nat.{bit_and}
use curnel.Prelude.{
  ℕ, zero, suc, ◌+◌, ◌≡◌, refl, sym, subst, Bool, true, false, not, ◌||◌, List, [], ◌∷◌, arith,
  Option-cases, inl, inr, get_or, Bool-cases, if_both, elim_both, ◌==◌, if◌then◌else◌, All, ◌<◌,
  ◌%◌,
}
use curnel.Memory.{kfree}
use curnel.Kernel.{
  running, stopped, zombie, max_processes, Process, blank, Kernel, entry, update, Outcome, done,
  no_fuel, stray, ◌>>=◌,
}
use curnel.Process.{is_stopped, find_pid}
use curnel.Process.Table.{IsTable, IsValid, update-IsValid, pids}
use curnel.Process.Preserve.{continue_process-IsValid, switch_to_process-IsValid}
use curnel.Signals.{sigchld, bad_signum, default_signal_actions, action_of}
use curnel.Signals.Preserve.{signal_add_pending-IsValid}
use curnel.Scheduler.{
  is_runnable, orphan, free_stack, free_signal_stack, next_runnable, stop_body, send_body,
  default_body, custom_body, deliver_body, handle_from, handle_pending_body, tell_parent, exit_body,
  run_chosen, schedule_body, take_pending, deliverable,
}

-- What holds of the result when a call returns; `F` is what is known when the fuel runs out.
abbrev pub Holds {ℓ} : Type 0 → {A : Type ℓ} → (A → Type 0) → Outcome A → Type 0
Holds F P (done a) = P a
Holds F P no_fuel = F
Holds F P stray = Unit

pub Holds-bind {ℓ} :
    (F : Type 0) {A B : Type ℓ} (P : A → Type 0) (Q : B → Type 0) (m : Outcome A)
    (f : A → Outcome B)
    → Holds F P m
    → ((a : A) → P a → Holds F Q (f a))
    → Holds F Q (m >>= f)
Holds-bind F P Q (done a) f h g = g a h
Holds-bind F P Q no_fuel f h g = h
Holds-bind F P Q stray f h g = tt

-- The call leaves a valid kernel behind, beside its result.
abbrev pub Leaves : {A : Type 0} → Kernel × A → Type 0
Leaves r = IsValid (r.0)

pids-orphan : (pid : ℕ) (ps : List Process) → pids (orphan pid ps) ≡ pids ps
unfolding orphan
pids-orphan pid [] = refl
pids-orphan pid (p ∷ ps) = ground (arith, pids-orphan pid ps)

quiet-orphan :
    (pid : ℕ) (ps : List Process)
    → All (λ p. p.exit_signal ≡ 0) ps
    → All (λ p. p.exit_signal ≡ 0) (orphan pid ps)
unfolding orphan
quiet-orphan pid [] q = tt
quiet-orphan pid (p ∷ ps) q = ground (arith, quiet-orphan pid ps q.1)

pub orphan-IsValid :
    (k : Kernel) (pid : ℕ) → IsValid k → IsValid (record k { processes = orphan pid k.processes })
orphan-IsValid k pid v = record {
  table = subst (λ xs. IsTable xs k.next_pid) (sym (pids-orphan pid k.processes)) v.table;
  current = v.current;
  quiet = quiet-orphan pid k.processes v.quiet;
}

free_stack-IsValid :
    (F : Type 0) (k : Kernel) (i : ℕ) → IsValid k → Holds F IsValid (free_stack k i)
unfolding free_stack
free_stack-IsValid F k i v =
    if_both (Holds F IsValid) ((entry k i).stack == 0) _ _ v
      (elim (Option-cases (kfree k.heap (entry k i).stack)) [
        | inl e ↦ rw e tt
        | inr (h, e) ↦ rw e (record { table = w.table; current = w.current; quiet = w.quiet })
      ])
  where
    w : IsValid (update k i (λ p. record p { stack = 0 }))
    w = update-IsValid k i (λ p. record p { stack = 0 }) (λ p. refl) (λ p. refl) v

free_signal_stack-IsValid :
    (F : Type 0) (k : Kernel) (i : ℕ) → IsValid k → Holds F IsValid (free_signal_stack k i)
unfolding free_signal_stack
free_signal_stack-IsValid F k i v =
    if_both (Holds F IsValid) ((entry k i).signal_stack == 0) _ _ v
      (elim (Option-cases (kfree k.heap (entry k i).signal_stack)) [
        | inl e ↦ rw e tt
        | inr (h, e) ↦ rw e (record { table = w.table; current = w.current; quiet = w.quiet })
      ])
  where
    w : IsValid (update k i (λ p. record p { signal_stack = 0 }))
    w = update-IsValid k i (λ p. record p { signal_stack = 0 }) (λ p. refl) (λ p. refl) v

pub next_runnable_low :
    (ps : List Process) (left index checked : ℕ)
    → index < max_processes
    → (next_runnable ps left index checked).0 < max_processes
unfolding next_runnable
next_runnable_low ps zero index checked low = low
next_runnable_low ps (suc left) index checked low =
    let index' = (index + 1) % max_processes in
    elim_both (λ (r : ℕ × ℕ). r.0 < max_processes) (is_runnable (get_or ps index' blank)) _ _
      (omega arith) (next_runnable_low ps left index' (checked + 1) (omega arith))

module _ (F : Type 0) (call_handler : ℕ → ℕ → Kernel → Kernel)
    (polite : (h s : ℕ) (k : Kernel) → IsValid k → IsValid (call_handler h s k))
    (schedule : Kernel → Outcome Kernel)
    (sched : (k : Kernel) → IsValid k → Holds F IsValid (schedule k))
    (exit_process : Kernel → ℕ → ℕ → Outcome Kernel)
    (exits : (k : Kernel) (pid code : ℕ)
      → IsValid k
      → Holds F IsValid (exit_process k pid code)) where
  pub stop_body-IsValid :
      (k : Kernel) (pid : ℕ)
      → IsValid k
      → Holds F IsValid (stop_body call_handler schedule exit_process k pid)
  unfolding stop_body
  stop_body-IsValid k pid v = elim (Option-cases (find_pid pid k.processes)) [
    | inl e ↦ rw (e, Holds) v
    | inr (i, e) ↦
        rw (e, Holds)
          (sched (update k i (λ p. record p { state = stopped }))
            (update-IsValid k i (λ p. record p { state = stopped }) (λ p. refl) (λ p. refl) v))
  ]

  pub send_body-IsValid :
      (k : Kernel) (i s : ℕ)
      → IsValid k
      → Holds F {A = Kernel × ℕ} Leaves (send_body call_handler schedule exit_process k i s)
  unfolding send_body
  send_body-IsValid k i s v = if_both (Holds F {A = Kernel × ℕ} Leaves) (bad_signum s) _ _ v (
      if_both (Holds F {A = Kernel × ℕ} Leaves) (s == 9) _ _
        (Holds-bind F IsValid Leaves (exit_process k (entry k i).pid (128 + s)) _
          (exits k (entry k i).pid (128 + s) v) (λ a h. h))
        (if_both (Holds F {A = Kernel × ℕ} Leaves) (s == 19) _ _
          (Holds-bind F IsValid Leaves
            (stop_body call_handler schedule exit_process k (entry k i).pid) _
            (stop_body-IsValid k (entry k i).pid v) (λ a h. h))
          (if_both (Holds F {A = Kernel × ℕ} Leaves) (s == 18) _ _
            (if_both IsValid (is_stopped (entry k i).state) _ _
              (continue_process-IsValid k (entry k i).pid v) v)
            (signal_add_pending-IsValid k i s v))))

  default_body-IsValid :
      (k : Kernel) (i s : ℕ)
      → IsValid k
      → Holds F {A = Kernel × Bool} Leaves (default_body call_handler schedule exit_process k i s)
  unfolding default_body
  default_body-IsValid k i s v =
      let action = get_or default_signal_actions s 0 in
      if_both (Holds F {A = Kernel × Bool} Leaves) (not (bit_and action 15 == 0)) _ _
        (Holds-bind F IsValid Leaves (exit_process k (entry k i).pid (128 + s)) _
          (exits k (entry k i).pid (128 + s) v) (λ a h. h))
        (if_both (Holds F {A = Kernel × Bool} Leaves) (action == 0) _ _ v (
          if_both (Holds F {A = Kernel × Bool} Leaves) (action == 1) _ _
            (if_both IsValid (is_stopped (entry k i).state) _ _
              (continue_process-IsValid k (entry k i).pid v) v)
            (if_both (Holds F {A = Kernel × Bool} Leaves) (action == 2) _ _
              (Holds-bind F IsValid Leaves
                (stop_body call_handler schedule exit_process k (entry k i).pid) _
                (stop_body-IsValid k (entry k i).pid v) (λ a h. h))
              v)))

  custom_body-IsValid :
      (k : Kernel) (i s : ℕ)
      → IsValid k
      → IsValid (custom_body call_handler schedule exit_process k i s)
  unfolding custom_body
  custom_body-IsValid k i s v =
      update-IsValid _ i (λ p. record p { handling_signal = false }) (λ p. refl) (λ p. refl)
        (polite _ s _
          (update-IsValid k i (λ p. record p { handling_signal = true }) (λ p. refl) (λ p. refl) v))

  deliver_body-IsValid :
      (k : Kernel) (i s : ℕ)
      → IsValid k
      → Holds F {A = Kernel × Bool} Leaves (deliver_body call_handler schedule exit_process k i s)
  unfolding deliver_body
  deliver_body-IsValid k i s v =
      let k' = update k i (take_pending s) in
      let w = update-IsValid k i (take_pending s) (λ p. refl) (λ p. refl) v in
      let handler = (action_of (entry k' i) s).handler in
      if_both (Holds F {A = Kernel × Bool} Leaves) (handler == 0) _ _
        (default_body-IsValid k' i s w)
        (if_both (Holds F {A = Kernel × Bool} Leaves) (handler == 1) _ _ w
          (custom_body-IsValid k' i s w))

  handle_from-IsValid :
      (left s : ℕ) (k : Kernel) (i : ℕ)
      → IsValid k
      → Holds F {A = Kernel × ℕ} Leaves (handle_from call_handler schedule exit_process left s k i)
  unfolding handle_from
  handle_from-IsValid zero s k i v = v
  handle_from-IsValid (suc left) s k i v = elim (Bool-cases (deliverable (entry k i) s)) [
    | inl e ↦
        rw (e, Holds)
          (Holds-bind F {A = Kernel × Bool} {B = Kernel × ℕ} Leaves Leaves
            (deliver_body call_handler schedule exit_process k i s) _ (deliver_body-IsValid k i s v)
            (λ r h.
              elim_both (Holds F {A = Kernel × ℕ} Leaves) (r.1) _ _ h
                (handle_from-IsValid left (s + 1) (r.0) i h)))
    | inr e ↦ rw (e, Holds) (handle_from-IsValid left (s + 1) k i v)
  ]

  pub handle_pending_body-IsValid :
      (k : Kernel) (i : ℕ)
      → IsValid k
      → Holds F {A = Kernel × ℕ} Leaves (handle_pending_body call_handler schedule exit_process k i)
  unfolding handle_pending_body
  handle_pending_body-IsValid k i v =
      if_both (Holds F {A = Kernel × ℕ} Leaves)
        (not k.signal_handling_enabled || (entry k i).handling_signal) _ _ v
        (handle_from-IsValid 31 1 k i v)

  tell_parent-IsValid :
      (k : Kernel) (i s : ℕ)
      → IsValid k
      → Holds F IsValid (tell_parent call_handler schedule exit_process k i s)
  unfolding tell_parent
  tell_parent-IsValid k i s v = elim (Option-cases (find_pid (entry k i).parent_pid k.processes)) [
    | inl e ↦ rw (e, Holds) v
    | inr (j, e) ↦
        rw (e, Holds)
          (Holds-bind F {A = Kernel × ℕ} {B = Kernel} Leaves IsValid
            (send_body call_handler schedule exit_process k j s) _ (send_body-IsValid k j s v)
            (λ r h. h))
  ]

  pub exit_body-IsValid :
      (k : Kernel) (pid code : ℕ)
      → IsValid k
      → Holds F IsValid (exit_body call_handler schedule exit_process k pid code)
  unfolding exit_body
  exit_body-IsValid k pid code v = elim (Option-cases (find_pid pid k.processes)) [
    | inl e ↦ rw (e, Holds) v
    | inr (i, e) ↦ rw (e, Holds) (go i)
  ]
    where
      last :
          (i : ℕ) (a : Kernel)
          → IsValid a
          → Holds F IsValid (
              schedule (
                update
                  (record a { processes = orphan pid a.processes })
                  i
                  (λ p. record p { state = zombie })))
      last i a h = sched _ (
          update-IsValid (record a { processes = orphan pid a.processes }) i
            (λ p. record p { state = zombie }) (λ p. refl) (λ p. refl) (orphan-IsValid a pid h))

      go :
          (i : ℕ)
          → Holds F IsValid (
              (if (entry k i).exit_signal == 0
                then done k
                else tell_parent call_handler schedule exit_process k i (entry k i).exit_signal)
              >>= λ k.
                  (if (entry k i).parent_pid == 0
                    then done k
                    else tell_parent call_handler schedule exit_process k i sigchld)
                  >>= λ k. free_stack k i >>= λ k. free_signal_stack k i >>= λ k. schedule (
                      update
                        (record k { processes = orphan pid k.processes })
                        i
                        (λ p. record p { state = zombie })))
      go i =
          Holds-bind F IsValid IsValid _ _
            (if_both (Holds F IsValid) ((entry k i).exit_signal == 0) _ _ v
              (tell_parent-IsValid k i _ v))
            (λ a ha.
              Holds-bind F IsValid IsValid _ _
                (if_both (Holds F IsValid) ((entry a i).parent_pid == 0) _ _ ha
                  (tell_parent-IsValid a i sigchld ha))
                (λ b hb. Holds-bind F IsValid IsValid _ _ (free_stack-IsValid F b i hb) (λ c hc.
                  Holds-bind F IsValid IsValid _ _ (free_signal_stack-IsValid F c i hc)
                    (λ d hd. last i d hd))))

  run_chosen-IsValid :
      (k : Kernel) (i : ℕ)
      → i < max_processes
      → IsValid k
      → Holds F IsValid (run_chosen call_handler schedule exit_process k i)
  unfolding run_chosen
  run_chosen-IsValid k i low v =
      Holds-bind F {A = Kernel × ℕ} {B = Kernel} Leaves IsValid _ _
        (handle_pending_body-IsValid _ i (
          update-IsValid (record k { current_process_index = i }) i
            (λ p. record p { state = running }) (λ p. refl) (λ p. refl)
            (record { table = v.table; current = low; quiet = v.quiet })))
        (λ r h. switch_to_process-IsValid (r.0) _ h)

  pub schedule_body-IsValid :
      (k : Kernel)
      → IsValid k
      → Holds F IsValid (schedule_body call_handler schedule exit_process k)
  unfolding schedule_body
  schedule_body-IsValid k v =
      let r = next_runnable k.processes max_processes k.current_process_index 0 in
      if_both (Holds F IsValid) (r.1 == max_processes) _ _ v (
        run_chosen-IsValid k (r.0)
          (next_runnable_low k.processes 64 k.current_process_index 0 v.current) v)
