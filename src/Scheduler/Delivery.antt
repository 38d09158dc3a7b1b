-- ===== src/Scheduler/Delivery.antt =====
-- What signal_handle_pending of signals.c does for each signal that has its default action.
use Prim.Native.Nat.{bit_and}
use curnel.Prelude.{
  ℕ, zero, suc, ◌+◌, ◌≡◌, ◌≢◌, refl, ◌<◌, Bool, true, false, not, ◌&&◌, ◌||◌, List, [], ◌∷◌, get_or,
  length, ◌==◌, arith,
}
use curnel.Kernel.{Kernel, entry, Outcome, done, ◌>>=◌}
use curnel.Signals.{sigterm, default_signal_actions}
use curnel.Scheduler.{default_body}

-- The test holds of every element.
all_pass : (ℕ → Bool) → List ℕ → Bool
all_pass test [] = true
all_pass test (x ∷ xs) = let rest = all_pass test xs in test x && rest

get_or-all_pass :
    (test : ℕ → Bool) (xs : List ℕ) (i : ℕ)
    → all_pass test xs ≡ true
    → i < length xs
    → test (get_or xs i 0) ≡ true
unfolding all_pass
get_or-all_pass test [] i h low = absurd (omega arith)
get_or-all_pass test (x ∷ xs) zero h low = ground arith
get_or-all_pass test (x ∷ xs) (suc i) h low = get_or-all_pass test xs i (ground arith) (omega arith)

-- A default action is 0 or shares a bit with SIGTERM.
abbrev overlaps : ℕ → Bool
overlaps action = action == 0 || not (bit_and action sigterm == 0)

all_overlap : all_pass overlaps default_signal_actions ≡ true
unfolding all_pass default_signal_actions
all_overlap = refl

module _ (call_handler : ℕ → ℕ → Kernel → Kernel) (schedule : Kernel → Outcome Kernel)
    (exit_process : Kernel → ℕ → ℕ → Outcome Kernel) where
  -- A signal of the table whose default action is not to be ignored ends the process, also where
  -- that action is to stop or to continue it.
  pub default_body-exits :
      (k : Kernel) (i signum : ℕ)
      → signum < length default_signal_actions
      → get_or default_signal_actions signum 0 ≢ 0
      → default_body call_handler schedule exit_process k i signum
        ≡ (exit_process k (entry k i).pid (128 + signum) >>= λ k'. done (k', true))
  unfolding default_body
  default_body-exits k i signum low acts =
      let both = get_or-all_pass overlaps default_signal_actions signum all_overlap low in
      let bits : (bit_and (get_or default_signal_actions signum 0) sigterm == 0) ≡ false =
        ground (arith, both, acts) in
      rw (bits) refl
