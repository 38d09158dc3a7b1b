-- ===== src/Scheduler/Still.antt =====
-- Calls that return, and the parts of exit_process of process.c that leave the choice of schedule alone.
use curnel.Prelude.{ℕ, ◌≡◌, refl, ◌∙◌, arith, Option-cases, inl, inr, Bool-cases, if_both, ◌==◌}
use curnel.Memory.{kfree}
use curnel.Kernel.{Process, Kernel, entry, Outcome, done, no_fuel, stray, ◌>>=◌}
use curnel.Process.Table.{IsValid, update-IsValid}
use curnel.Signals.{signal_add_pending, add_pending, bad_signum}
use curnel.Signals.Preserve.{signal_add_pending-IsValid}
use curnel.Scheduler.{is_runnable, free_stack, free_signal_stack}
use curnel.Scheduler.Count.{flags, flags-modify}

-- The call does not run out of fuel, and what it returns meets `P`.
abbrev pub Total {ℓ} : {A : Type ℓ} → (A → Type 0) → Outcome A → Type 0
Total P (done a) = P a
Total P no_fuel = ⊥
Total P stray = Unit

pub Total-bind {ℓ} :
    {A B : Type ℓ} (P : A → Type 0) (Q : B → Type 0) (m : Outcome A) (f : A → Outcome B)
    → Total P m
    → ((a : A) → P a → Total Q (f a))
    → Total Q (m >>= f)
Total-bind P Q (done a) f h g = g a h
Total-bind P Q no_fuel f h g = absurd h
Total-bind P Q stray f h g = tt

abbrev pub Ends {ℓ} : {A : Type ℓ} → Outcome A → Type 0
Ends m = Total (λ _. Unit {0}) m

-- `k` is valid, and the same entries may be chosen as in `k0`, by the same process.
pub record Still (k0 k : Kernel) : Type 0 where
  pub valid : IsValid k
  pub same : flags k.processes ≡ flags k0.processes
  pub here : k.current_process_index ≡ k0.current_process_index

pub free_stack-Still : (k0 k : Kernel) (i : ℕ) → Still k0 k → Total (Still k0) (free_stack k i)
unfolding free_stack
free_stack-Still k0 k i st =
    if_both (Total (Still k0)) ((entry k i).stack == 0) _ _ st
      (elim (Option-cases (kfree k.heap (entry k i).stack)) [
        | inl e ↦ rw (e, Total) tt
        | inr (h, e) ↦
            let w =
              update-IsValid k i (λ p. record p { stack = 0 }) (λ p. refl) (λ p. refl) st.valid in
            rw (e, Total)
              (record {
                valid = record { table = w.table; current = w.current; quiet = w.quiet };
                same = flags-modify k.processes i (λ p. record p { stack = 0 }) refl ∙ st.same;
                here = st.here;
              })
      ])

pub free_signal_stack-Still :
    (k0 k : Kernel) (i : ℕ) → Still k0 k → Total (Still k0) (free_signal_stack k i)
unfolding free_signal_stack
free_signal_stack-Still k0 k i st =
    if_both (Total (Still k0)) ((entry k i).signal_stack == 0) _ _ st
      (elim (Option-cases (kfree k.heap (entry k i).signal_stack)) [
        | inl e ↦ rw (e, Total) tt
        | inr (h, e) ↦
            let w =
              update-IsValid k i (λ p. record p { signal_stack = 0 }) (λ p. refl) (λ p. refl)
                st.valid in
            rw (e, Total)
              (record {
                valid = record { table = w.table; current = w.current; quiet = w.quiet };
                same =
                    flags-modify k.processes i (λ p. record p { signal_stack = 0 }) refl ∙ st.same;
                here = st.here;
              })
      ])

add_pending-runnable : (s : ℕ) (p : Process) → is_runnable (add_pending s p) ≡ is_runnable p
unfolding add_pending
add_pending-runnable s p = ground arith

pub signal_add_pending-Still :
    (k : Kernel) (i s : ℕ) → IsValid k → Still k (signal_add_pending k i s).0
unfolding signal_add_pending
signal_add_pending-Still k i s v = record {
  valid = signal_add_pending-IsValid k i s v;
  same = elim (Bool-cases (bad_signum s)) [
    | inl bad ↦ rw bad
    | inr good ↦
        rw good (flags-modify k.processes i (add_pending s) (add_pending-runnable s (entry k i)))
  ];
  here = elim (Bool-cases (bad_signum s)) [ inl bad ↦ rw bad | inr good ↦ rw good ];
}
