-- ===== src/Scheduler/Ends.antt =====
-- The nested calls of schedule and exit_process of process.c.
use Prim.Native.Nat.{bit_and}
use curnel.Prelude.{
  ℕ, zero, suc, ◌+◌, ◌*◌, ◌%◌, ◌≡◌, ◌≢◌, refl, sym, ap, ◌∙◌, ◌<◌, Bool, true, false, not, some,
  List, [], ◌∷◌, arith, Option-cases, inl, inr, Bool-cases, if_both, if_cases, elim_cases, ◌==◌,
  if◌then◌else◌, get_or, set, modify, All,
}
use curnel.Kernel.{
  stopped, zombie, max_processes, Process, blank, Kernel, entry, update, Outcome, done, ◌>>=◌,
}
use curnel.Process.{is_stopped, find_pid}
use curnel.Process.Table.{IsValid, update-IsValid, find_pid_self}
use curnel.Signals.{sigchld, default_signal_actions, action_of}
use curnel.Scheduler.{
  is_runnable, orphan, free_stack, free_signal_stack, next_runnable, stop_body, send_body,
  default_body, deliver_body, handle_from, tell_parent, exit_body, take_pending, deliverable,
}
use curnel.Scheduler.Valid.{orphan-IsValid}
use curnel.Scheduler.Count.{
  flags, count_true, runnable, flags-modify, flags-remove, get_or-flags, count_true-remove,
  flags-orphan,
}
use curnel.Scheduler.Still.{
  Total, Total-bind, Ends, Still, free_stack-Still, free_signal_stack-Still,
  signal_add_pending-Still,
}

-- The choice that the search reports is an entry that may run.
pub next_runnable_found :
    (ps : List Process) (left index checked : ℕ)
    → (next_runnable ps left index checked).1 ≢ checked + left
    → is_runnable (get_or ps (next_runnable ps left index checked).0 blank) ≡ true
unfolding next_runnable
next_runnable_found ps zero index checked h = absurd (h (omega arith))
next_runnable_found ps (suc left) index checked h =
    let index' = (index + 1) % max_processes in
    let rest = next_runnable ps left index' (checked + 1) in
    elim_cases
      (λ (r : ℕ × ℕ). r.1 ≢ checked + suc left → is_runnable (get_or ps (r.0) blank) ≡ true)
      (is_runnable (get_or ps index' blank)) (index', checked + 1) rest (λ found g. found)
      (λ on g. next_runnable_found ps left index' (checked + 1) (λ e. g (e ∙ omega arith))) h

-- What holds while signals are delivered to the entry that `schedule` has chosen.
pub record Live (n : ℕ) (i : ℕ) (k : Kernel) : Type 0 where
  pub valid : IsValid k
  pub low : i < max_processes
  pub chosen : is_runnable (entry k i) ≡ true
  pub small : 2 * runnable k < n

pub pid_of_runnable : (p : Process) → is_runnable p ≡ true → p.pid ≢ 0
pid_of_runnable p h = ground arith

remove_small :
    (n i : ℕ) (k : Kernel) (f : Process → Process)
    → ((p : Process) → is_runnable (f p) ≡ false)
    → Live (n + 2) i k
    → 2 * runnable (update k i f) < n
remove_small n i k f h l = omega (
  arith,
  l.small,
  ap count_true (flags-remove k.processes i f h),
  count_true-remove (flags k.processes) i (get_or-flags k.processes i ∙ l.chosen),
)

stopped-runnable : (p : Process) → is_runnable (record p { state = stopped }) ≡ false
stopped-runnable p = ground arith

zombie-runnable : (p : Process) → is_runnable (record p { state = zombie }) ≡ false
zombie-runnable p = ground arith

quiet_entry :
    (ps : List Process) (i : ℕ)
    → All (λ p. p.exit_signal ≡ 0) ps
    → (get_or ps i blank).exit_signal ≡ 0
quiet_entry [] i q = unfold blank in refl
quiet_entry (p ∷ ps) zero q = q.0
quiet_entry (p ∷ ps) (suc i) q = quiet_entry ps i q.1

-- The kernel that the last `schedule` of an exit starts from.
exiting-IsValid :
    (k a : Kernel) (i pid : ℕ)
    → Still k a
    → IsValid (
        update
          (record a { processes = orphan pid a.processes })
          i
          (λ p. record p { state = zombie }))
exiting-IsValid k a i pid st =
    update-IsValid (record a { processes = orphan pid a.processes }) i
      (λ p. record p { state = zombie }) (λ p. refl) (λ p. refl) (orphan-IsValid a pid st.valid)

flags-exiting :
    (k a : Kernel) (i pid : ℕ)
    → Still k a
    → flags (modify (orphan pid a.processes) i (λ p. record p { state = zombie }))
      ≡ set (flags k.processes) i false
flags-exiting k a i pid st =
    flags-remove (orphan pid a.processes) i (λ p. record p { state = zombie }) zombie-runnable
    ∙ ap (λ bs. set bs i false) (flags-orphan pid a.processes ∙ st.same)

module _ (call_handler : ℕ → ℕ → Kernel → Kernel) (schedule : Kernel → Outcome Kernel)
    (exit_process : Kernel → ℕ → ℕ → Outcome Kernel) where
  -- The signal that tells the parent of an exit only joins its pending set.
  tell_parent-Still :
      (k0 k : Kernel) (i : ℕ)
      → Still k0 k
      → Total (Still k0) (tell_parent call_handler schedule exit_process k i sigchld)
  unfolding tell_parent send_body
  tell_parent-Still k0 k i st = elim (Option-cases (find_pid (entry k i).parent_pid k.processes)) [
    | inl e ↦ rw (e, Total) st
    | inr (j, e) ↦
        let a = signal_add_pending-Still k j sigchld st.valid in
        rw (e, Total) (record { valid = a.valid; same = a.same ∙ st.same; here = a.here ∙ st.here })
  ]

  -- What the last `schedule` of an exit ensures, the exit ensures, unless `kfree` goes astray.
  exit_body_rule :
      (Q : Kernel → Type 0) (k : Kernel) (i pid code : ℕ)
      → IsValid k
      → find_pid pid k.processes ≡ some i
      → ((a : Kernel)
          → Still k a
          → Total Q (
              schedule (
                update
                  (record a { processes = orphan pid a.processes })
                  i
                  (λ p. record p { state = zombie }))))
      → Total Q (exit_body call_handler schedule exit_process k pid code)
  unfolding exit_body
  exit_body_rule Q k i pid code v e last = rw (e, Total) go
    where
      tell : Kernel → ℕ → ℕ → Outcome Kernel
      tell = tell_parent call_handler schedule exit_process

      start : Still k k
      start = record { valid = v; same = refl; here = refl }

      go : Total Q (
          (if (entry k i).exit_signal == 0 then done k else tell k i (entry k i).exit_signal)
          >>= λ k. (if (entry k i).parent_pid == 0 then done k else tell k i sigchld) >>= λ k.
              free_stack k i >>= λ k. free_signal_stack k i >>= λ k. schedule (
                update
                  (record k { processes = orphan pid k.processes })
                  i
                  (λ p. record p { state = zombie })))
      go =
          Total-bind (Still k) Q _ _
            (if_cases (Total (Still k)) ((entry k i).exit_signal == 0) _ _ (λ _. start)
              (λ bad. absurd (ground (arith, quiet_entry k.processes i v.quiet))))
            (λ a ha.
              Total-bind (Still k) Q _ _
                (if_both (Total (Still k)) ((entry a i).parent_pid == 0) _ _ ha
                  (tell_parent-Still k a i ha))
                (λ b hb. Total-bind (Still k) Q _ _ (free_stack-Still k b i hb) (λ c hc.
                  Total-bind (Still k) Q _ _ (free_signal_stack-Still k c i hc)
                    (λ d hd. last d hd))))

module _ (call_handler : ℕ → ℕ → Kernel → Kernel) (n : ℕ) (schedule : Kernel → Outcome Kernel)
    (sched : (k : Kernel) → IsValid k → 2 * runnable k < n → Ends (schedule k))
    (exit_process : Kernel → ℕ → ℕ → Outcome Kernel)
    (exits : (k : Kernel) (i code : ℕ)
      → Live (n + 1) i k
      → Ends (exit_process k (entry k i).pid code)) where
  stop_body-Ends :
      (k : Kernel) (i : ℕ)
      → Live (n + 2) i k
      → Ends (stop_body call_handler schedule exit_process k (entry k i).pid)
  unfolding stop_body
  stop_body-Ends k i l =
      rw (find_pid_self k i l.valid l.low (pid_of_runnable (entry k i) l.chosen), Total)
        (sched (update k i (λ p. record p { state = stopped }))
          (update-IsValid k i (λ p. record p { state = stopped }) (λ p. refl) (λ p. refl) l.valid)
          (remove_small n i k (λ p. record p { state = stopped }) stopped-runnable l))

  pub exit_body-Ends :
      (k : Kernel) (i pid code : ℕ)
      → IsValid k
      → find_pid pid k.processes ≡ some i
      → 2 * count_true (set (flags k.processes) i false) < n
      → Ends (exit_body call_handler schedule exit_process k pid code)
  exit_body-Ends k i pid code v e small =
      exit_body_rule call_handler schedule exit_process (λ _. Unit {0}) k i pid code v e
        (λ a st.
          sched _ (exiting-IsValid k a i pid st)
            (omega (arith, small, ap count_true (flags-exiting k a i pid st))))

  -- Either `signal_handle_pending` returns, or it goes on with a kernel that is still live.
  abbrev Goes : ℕ → Kernel × Bool → Type 0
  Goes i r = r.1 ≡ false → Live (n + 1) i (r.0)

  default_body_ends :
      (k : Kernel) (i s : ℕ)
      → Live (n + 1) i k
      → Total (Goes i) (default_body call_handler schedule exit_process k i s)
  unfolding default_body
  default_body_ends k i s l =
      let action = get_or default_signal_actions s 0 in
      if_both (Total (Goes i)) (not (bit_and action 15 == 0)) _ _
        (Total-bind (λ _. Unit {0}) (Goes i) (exit_process k (entry k i).pid (128 + s)) _
          (exits k i (128 + s) l) (λ a h e. cc))
        (if_both (Total (Goes i)) (action == 0) _ _ (λ e. l)
          (if_both (Total (Goes i)) (action == 1) _ _
            (λ e.
              if_cases (Live (n + 1) i) (is_stopped (entry k i).state) _ _
                (λ halted. absurd (ground (arith, l.chosen))) (λ _. l))
            (if_both (Total (Goes i)) (action == 2) _ _
              (Total-bind (λ _. Unit {0}) (Goes i)
                (stop_body call_handler schedule exit_process k (entry k i).pid) _
                (stop_body-Ends k i (record {
                  valid = l.valid;
                  low = l.low;
                  chosen = l.chosen;
                  small = omega (arith, l.small);
                }))
                (λ a h e. cc))
              (λ e. l))))

  deliver_body_ends :
      (k : Kernel) (i s : ℕ)
      → Live (n + 1) i k
      → Total (Goes i) (deliver_body call_handler schedule exit_process k i s)
  unfolding deliver_body
  deliver_body_ends k i s l =
      let k' = update k i (take_pending s) in
      let handler = (action_of (entry k' i) s).handler in
      if_both (Total (Goes i)) (handler == 0) _ _ (default_body_ends k' i s live)
        (if_both (Total (Goes i)) (handler == 1) _ _ (λ e. live) (λ e. cc))
    where
      taken : flags (modify k.processes i (take_pending s)) ≡ flags k.processes
      taken = flags-modify k.processes i (take_pending s) refl

      live : Live (n + 1) i (update k i (take_pending s))
      live = record {
        valid = update-IsValid k i (take_pending s) (λ p. refl) (λ p. refl) l.valid;
        low = l.low;
        chosen =
            sym (get_or-flags (modify k.processes i (take_pending s)) i)
            ∙ ap (λ bs. get_or bs i false) taken
            ∙ get_or-flags k.processes i
            ∙ l.chosen;
        small = omega (arith, l.small, ap count_true taken);
      }

  pub handle_from-Ends :
      (left s : ℕ) (k : Kernel) (i : ℕ)
      → Live (n + 1) i k
      → Ends (handle_from call_handler schedule exit_process left s k i)
  unfolding handle_from
  handle_from-Ends zero s k i l = tt
  handle_from-Ends (suc left) s k i l = elim (Bool-cases (deliverable (entry k i) s)) [
    | inl e ↦
        rw (e, Total)
          (Total-bind {A = Kernel × Bool} {B = Kernel × ℕ} (Goes i) (λ _. Unit {0})
            (deliver_body call_handler schedule exit_process k i s) _ (deliver_body_ends k i s l)
            (λ r h.
              elim_cases (Total (λ (_ : Kernel × ℕ). Unit {0})) (r.1) _ _ (λ _. tt)
                (λ on. handle_from-Ends left (s + 1) (r.0) i (h on))))
    | inr e ↦ rw (e, Total) (handle_from-Ends left (s + 1) k i l)
  ]
