-- ===== src/Signals.antt =====
-- signals.c without the delivery of signals: the pending set, the mask and the actions of a
-- process. A negative `int` signum is at least 2^31 as a word, so one test covers both ends.
pub mod Preserve
use Prim.Native.Nat.{bit_or}
use curnel.Prelude.{
  ℕ, ◌+◌, Bool, true, false, ◌||◌, Option, none, some, List, [], ◌∷◌, leb, get_or, modify, ◌==◌,
  if◌then◌else◌, minus_one, int_word, bit, set_bit, clear_bit, and_not,
}
use curnel.Kernel.{max_signals, SignalAction, default_action, Process, Kernel, entry, update}
use curnel.Process.{get_current_process}

abbrev pub sigkill : ℕ
sigkill = 9

abbrev pub sigterm : ℕ
sigterm = 15

abbrev pub sigchld : ℕ
sigchld = 17

abbrev pub sigcont : ℕ
sigcont = 18

abbrev pub sigstop : ℕ
sigstop = 19

-- `SIGTERM | 0x80`
abbrev core_dump : ℕ
core_dump = 143

unfoldable pub default_signal_actions : List ℕ
default_signal_actions =
    0 ∷ 15 ∷ 15 ∷ 143 ∷ 143 ∷ 143 ∷ 143 ∷ 143 ∷ 143 ∷ 15 ∷ 15 ∷ 143 ∷ 15 ∷ 15 ∷ 15 ∷ 15 ∷ 15 ∷ 0 ∷ 1
    ∷ 2 ∷ 2 ∷ 2 ∷ 2 ∷ 0 ∷ 15 ∷ 15 ∷ 15 ∷ 15 ∷ 0 ∷ 15 ∷ 15 ∷ 143 ∷ []

abbrev pub bad_signum : ℕ → Bool
bad_signum signum = signum == 0 || leb max_signals signum

unfoldable pub signal_init : Kernel → Kernel
signal_init k = record k { signal_handling_enabled = true }

-- On the process that the pointer names.
unfoldable pub add_pending : ℕ → Process → Process
add_pending signum p =
    if signum == sigkill || signum == sigstop
    then record p { pending_signals = set_bit p.pending_signals signum }
    else if bit p.blocked_signals signum
    then p
    else record p { pending_signals = set_bit p.pending_signals signum }

unfoldable pub signal_add_pending : Kernel → ℕ → ℕ → Kernel × ℕ
signal_add_pending k i signum =
    if bad_signum signum then (k, minus_one) else (update k i (add_pending signum), 0)

abbrev pub action_of : Process → ℕ → SignalAction
action_of p signum = get_or p.signal_actions signum default_action

abbrev pub set_action : ℕ → (SignalAction → SignalAction) → Process → Process
set_action signum f p = record p { signal_actions = modify p.signal_actions signum f }

-- The old handler comes back through an `int`.
pub signal_set_handler : Kernel → ℕ → ℕ → Kernel × ℕ
signal_set_handler k signum handler =
    if bad_signum signum then (k, minus_one) else elim (get_current_process k) [
      | none ↦ (k, minus_one)
      | some i ↦ if signum == sigkill || signum == sigstop then (k, minus_one) else (
        update k i (set_action signum (λ a. record a { handler = handler })),
        int_word (action_of (entry k i) signum).handler,
      )
    ]

-- `act` is `none` for NULL. The last part is what is written through `oldact`.
pub signal_set_action : Kernel → ℕ → Option SignalAction → Kernel × ℕ × Option SignalAction
signal_set_action k signum act =
    if bad_signum signum then (k, minus_one, none) else elim (get_current_process k) [
      | none ↦ (k, minus_one, none)
      | some i ↦ if signum == sigkill || signum == sigstop then (k, minus_one, none) else (
        elim act [ none ↦ k | some a ↦ update k i (set_action signum (λ _. a)) ],
        0,
        some (action_of (entry k i) signum),
      )
    ]

-- `mask & ~((1UL << SIGKILL) | (1UL << SIGSTOP))`
pub maskable : ℕ → ℕ
maskable mask = clear_bit (clear_bit mask sigkill) sigstop

abbrev pub set_blocked : (ℕ → ℕ) → Process → Process
set_blocked f p = record p { blocked_signals = f p.blocked_signals }

-- The old mask comes back through an `int`.
pub signal_block : Kernel → ℕ → Kernel × ℕ
signal_block k mask = elim (get_current_process k) [
  | none ↦ (k, minus_one)
  | some i ↦ (
    update k i (set_blocked (λ b. bit_or b (maskable mask))),
    int_word (entry k i).blocked_signals,
  )
]

pub signal_unblock : Kernel → ℕ → Kernel × ℕ
signal_unblock k mask = elim (get_current_process k) [
  | none ↦ (k, minus_one)
  | some i ↦ (update k i (set_blocked (λ b. and_not b mask)), int_word (entry k i).blocked_signals)
]

-- The last part is what is written through `oldmask`.
pub signal_set_mask : Kernel → ℕ → Kernel × ℕ × Option ℕ
signal_set_mask k mask = elim (get_current_process k) [
  | none ↦ (k, minus_one, none)
  | some i ↦ (update k i (set_blocked (λ _. maskable mask)), 0, some (entry k i).blocked_signals)
]

-- `SIG_BLOCK`, `SIG_UNBLOCK` and `SIG_SETMASK`; `none` for any other `how`
pub new_mask : ℕ → ℕ → ℕ → Option ℕ
new_mask how old mask =
    if how == 0
    then some (bit_or old mask)
    else if how == 1
    then some (and_not old mask)
    else if how == 2
    then some mask
    else none

-- `set` is `none` for NULL. The last part is what is written through `oldset`.
pub signal_proc_mask : Kernel → ℕ → Option ℕ → Kernel × ℕ × Option ℕ
signal_proc_mask k how set = elim (get_current_process k) [
  | none ↦ (k, minus_one, none)
  | some i ↦
      let old = (entry k i).blocked_signals in
      elim set [
        | none ↦ (k, 0, some old)
        | some mask ↦ elim (new_mask how old (maskable mask)) [
          | none ↦ (k, minus_one, some old)
          | some new ↦ (update k i (set_blocked (λ _. new)), 0, some old)
        ]
      ]
]
