-- ===== src/Syscall/UserSignals.antt =====
-- The system calls at the end of signals.c that move structures between the kernel and user memory:
-- sys_sigaction, sys_sigprocmask, sys_sigpending and sys_sigsuspend. Each copy makes the check of the
-- pointer that the source makes before it as well. `no_fuel` stands for a check that has used up its
-- fuel.
use curnel.Prelude.{
  ℕ, zero, suc, ◌+◌, ◌*◌, ◌/◌, ◌%◌, Option, none, some, List, [], ◌∷◌, ◌++◌, take, drop, leb, ◌==◌,
  if◌then◌else◌, minus_one, u32,
}
use curnel.Kernel.{max_signals, SignalAction, Kernel, entry, update, Outcome, done, no_fuel, ◌>>=◌}
use curnel.Process.{get_current_process, block_process}
use curnel.Signals.{maskable, set_blocked, signal_set_action, signal_proc_mask}
use curnel.Scheduler.{schedule}
use curnel.Paging.{Paging}
use curnel.Usermode.{usermode_copy_from_user, usermode_copy_to_user}

-- A number of `n` bytes in memory, lowest byte first.
pub bytes_of : ℕ → ℕ → List ℕ
bytes_of zero w = []
bytes_of (suc n) w = w % 256 ∷ bytes_of n (w / 256)

word_of : List ℕ → ℕ
word_of [] = 0
word_of (b ∷ bs) = b + word_of bs * 256

-- `signal_action_t` as it lies in memory: the handler, the flags with 4 bytes of padding, the mask.
action_bytes : SignalAction → List ℕ
action_bytes act = bytes_of 8 act.handler ++ (bytes_of 8 act.flags ++ bytes_of 8 act.mask)

action_from : List ℕ → SignalAction
action_from bs = record {
  handler = word_of (take 8 bs);
  flags = word_of (take 4 (drop 8 bs));
  mask = word_of (take 8 (drop 16 bs));
}

-- The tables and the bytes of user memory, and the fuel of the checks.
module _ (paging : Paging) (fuel : ℕ) where
  -- A structure of `size` bytes at `ptr`, unless `ptr` is 0; none within for a refusal.
  fetch : (ℕ → ℕ) → ℕ → ℕ → Outcome (Option (Option (List ℕ)))
  fetch bytes ptr size =
      if ptr == 0
      then done (some none)
      else elim (usermode_copy_from_user paging bytes fuel ptr size)
          as (λ _. Outcome (Option (Option (List ℕ)))) [
            | none ↦ no_fuel
            | some none ↦ done none
            | some (some bs) ↦ done (some (some bs))
          ]

  -- A structure to `ptr`, unless `ptr` is 0, with the result of the call when it is not refused.
  pub give : (ℕ → ℕ) → ℕ → List ℕ → ℕ → Outcome ((ℕ → ℕ) × ℕ)
  give bytes ptr bs result =
      if ptr == 0
      then done (bytes, result)
      else elim (usermode_copy_to_user paging bytes fuel ptr bs) as (λ _. Outcome ((ℕ → ℕ) × ℕ)) [
        | none ↦ no_fuel
        | some (bytes', stored) ↦ done (bytes', if stored then result else minus_one)
      ]

  -- `junk` is what the local `oldact` holds when `signal_set_action` does not set it.
  pub sys_sigaction : SignalAction → Kernel → (ℕ → ℕ) → ℕ → ℕ → ℕ → Outcome (Kernel × (ℕ → ℕ) × ℕ)
  sys_sigaction junk k bytes signum act_ptr oldact_ptr =
      if leb max_signals signum
      then done (k, bytes, minus_one)
      else fetch bytes act_ptr 24 >>= λ fetched.
          elim fetched as (λ _. Outcome (Kernel × (ℕ → ℕ) × ℕ)) [
            | none ↦ done (k, bytes, minus_one)
            | some act ↦
                let r =
                  signal_set_action k signum
                    (elim act [ none ↦ none | some bs ↦ some (action_from bs) ]) in
                let old = elim (r.2) as (λ _. SignalAction) [ none ↦ junk | some o ↦ o ] in
                give bytes oldact_ptr (action_bytes old) (r.1) >>= λ g. done (r.0, g.0, g.1)
          ]

  -- `junk` is what the local `oldset` holds when `signal_proc_mask` does not set it.
  pub sys_sigprocmask : ℕ → Kernel → (ℕ → ℕ) → ℕ → ℕ → ℕ → Outcome (Kernel × (ℕ → ℕ) × ℕ)
  sys_sigprocmask junk k bytes how set_ptr oldset_ptr = fetch bytes set_ptr 8 >>= λ fetched.
      elim fetched as (λ _. Outcome (Kernel × (ℕ → ℕ) × ℕ)) [
        | none ↦ done (k, bytes, minus_one)
        | some set ↦
            let r =
              signal_proc_mask k (u32 how)
                (elim set [ none ↦ none | some bs ↦ some (word_of bs) ]) in
            let old = elim (r.2) as (λ _. ℕ) [ none ↦ junk | some o ↦ o ] in
            give bytes oldset_ptr (bytes_of 8 old) (r.1) >>= λ g. done (r.0, g.0, g.1)
      ]

  pub sys_sigpending : Kernel → (ℕ → ℕ) → ℕ → Outcome ((ℕ → ℕ) × ℕ)
  sys_sigpending k bytes set_ptr =
      if set_ptr == 0 then done (bytes, minus_one) else elim (get_current_process k) [
        | none ↦ done (bytes, minus_one)
        | some i ↦ give bytes set_ptr (bytes_of 8 (entry k i).pending_signals) 0
      ]

  -- The old mask goes back to the process that made the call, whichever runs then.
  pub sys_sigsuspend : (ℕ → ℕ → Kernel → Kernel) → ℕ → Kernel → (ℕ → ℕ) → ℕ → Outcome (Kernel × ℕ)
  sys_sigsuspend call_handler f k bytes mask_ptr =
      if mask_ptr == 0 then done (k, minus_one) else elim (get_current_process k) [
        | none ↦ done (k, minus_one)
        | some i ↦ fetch bytes mask_ptr 8 >>= λ fetched.
            elim fetched as (λ _. Outcome (Kernel × ℕ)) [
              | some (some bs) ↦
                  let old_mask = (entry k i).blocked_signals in
                  let k1 = update k i (set_blocked (λ _. maskable (word_of bs))) in
                  schedule call_handler f (block_process k1 (entry k i).pid) >>= λ k2.
                  done (update k2 i (set_blocked (λ _. old_mask)), minus_one)
              | _ ↦ done (k, minus_one)
            ]
      ]
