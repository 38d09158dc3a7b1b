-- ===== src/Signals/Preserve.antt =====
-- The validity of the process table along the operations of signals.c that call nothing else.
use curnel.Prelude.{
  ℕ, ◌≡◌, refl, Option, none, some, arith, Option-cases, inl, inr, Bool-cases, if_both, ◌==◌, ◌||◌,
}
use curnel.Kernel.{Process, Kernel, entry, update, SignalAction}
use curnel.Process.Table.{IsValid, update-IsValid}
use curnel.Process.{get_current_process}
use curnel.Signals.{
  bad_signum, add_pending, signal_add_pending, sigkill, sigstop, set_action, signal_set_handler,
  signal_set_action, set_blocked, signal_block, signal_unblock, signal_set_mask, signal_proc_mask,
  new_mask, maskable,
}

add_pending-keeps :
    (s : ℕ) (p : Process)
    → ((add_pending s p).pid ≡ p.pid) × ((add_pending s p).exit_signal ≡ p.exit_signal)
unfolding add_pending
add_pending-keeps s p = (ground arith, ground arith)

pub signal_add_pending-IsValid :
    (k : Kernel) (i s : ℕ) → IsValid k → IsValid (signal_add_pending k i s).0
unfolding signal_add_pending
signal_add_pending-IsValid k i s v = elim (Bool-cases (bad_signum s)) [
  | inl bad ↦ rw bad v
  | inr good ↦ rw good (
      update-IsValid k i (add_pending s) (λ p. (add_pending-keeps s p).0)
        (λ p. (add_pending-keeps s p).1) v)
]

pub signal_set_handler-IsValid :
    (k : Kernel) (s h : ℕ) → IsValid k → IsValid (signal_set_handler k s h).0
unfolding signal_set_handler
signal_set_handler-IsValid k s h v =
    if_both {A = Kernel × ℕ} (λ r. IsValid (r.0)) (bad_signum s) _ _ v
      (elim (Option-cases (get_current_process k)) [
        | inl e ↦ rw e v
        | inr (i, e) ↦ rw e (
            if_both {A = Kernel × ℕ} (λ r. IsValid (r.0)) (s == sigkill || s == sigstop) _ _ v
              (update-IsValid k i _ (λ p. refl) (λ p. refl) v))
      ])

pub signal_set_action-IsValid :
    (k : Kernel) (s : ℕ) (act : Option SignalAction)
    → IsValid k
    → IsValid (signal_set_action k s act).0
unfolding signal_set_action
signal_set_action-IsValid k s act v =
    if_both {A = Kernel × ℕ × Option SignalAction} (λ r. IsValid (r.0)) (bad_signum s) _ _ v
      (elim (Option-cases (get_current_process k)) [
        | inl e ↦ rw e v
        | inr (i, e) ↦ rw e (
            if_both {A = Kernel × ℕ × Option SignalAction} (λ r. IsValid (r.0))
              (s == sigkill || s == sigstop) _ _ v (act_case i act))
      ])
  where
    act_case :
        (i : ℕ) (a : Option SignalAction)
        → IsValid (elim a [ none ↦ k | some x ↦ update k i (set_action s (λ _. x)) ])
    act_case i none = v
    act_case i (some x) = update-IsValid k i (set_action s (λ _. x)) (λ p. refl) (λ p. refl) v

module _ (k : Kernel) (v : IsValid k) where
  mask-IsValid : (i : ℕ) (f : ℕ → ℕ) → IsValid (update k i (set_blocked f))
  mask-IsValid i f = update-IsValid k i (set_blocked f) (λ p. refl) (λ p. refl) v

  signal_block-IsValid : (mask : ℕ) → IsValid (signal_block k mask).0
  unfolding signal_block
  signal_block-IsValid mask = elim (Option-cases (get_current_process k)) [
    | inl e ↦ rw (e, signal_block) v
    | inr (i, e) ↦ rw (e, signal_block) (mask-IsValid i _)
  ]

  signal_unblock-IsValid : (mask : ℕ) → IsValid (signal_unblock k mask).0
  unfolding signal_unblock
  signal_unblock-IsValid mask = elim (Option-cases (get_current_process k)) [
    | inl e ↦ rw (e, signal_unblock) v
    | inr (i, e) ↦ rw (e, signal_unblock) (mask-IsValid i _)
  ]

  signal_set_mask-IsValid : (mask : ℕ) → IsValid (signal_set_mask k mask).0
  unfolding signal_set_mask
  signal_set_mask-IsValid mask = elim (Option-cases (get_current_process k)) [
    | inl e ↦ rw (e, signal_set_mask) v
    | inr (i, e) ↦ rw (e, signal_set_mask) (mask-IsValid i _)
  ]

  pub signal_proc_mask-IsValid : (how : ℕ) (set : Option ℕ) → IsValid (signal_proc_mask k how set).0
  unfolding signal_proc_mask
  signal_proc_mask-IsValid how none = elim (Option-cases (get_current_process k)) [
    | inl e ↦ rw (e, signal_proc_mask) v
    | inr (i, e) ↦ rw (e, signal_proc_mask) v
  ]
  signal_proc_mask-IsValid how (some mask) = elim (Option-cases (get_current_process k)) [
    | inl e ↦ rw (e, signal_proc_mask) v
    | inr (i, e) ↦
        rw (e, signal_proc_mask)
          (elim (Option-cases (new_mask how (entry k i).blocked_signals (maskable mask))) [
            | inl bad ↦ rw bad v
            | inr (new, good) ↦ rw good (mask-IsValid i _)
          ])
  ]
