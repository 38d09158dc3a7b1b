-- ===== src/Syscall/Numbers.antt =====
-- What syscall_handler of syscall.c does with each number.
use curnel.Prelude.{
  u32, ◌++◌, text, Option-cases, ℕ, ◌≤◌, ◌≡◌, ◌⊎◌, ◌∙◌, refl, sym, ap, subst, true, false, ◌&&◌,
  none, some, List, [], ◌∷◌, leb, ltb, Bool-cases, inl, inr, arith,
}
use curnel.Kernel.{Kernel, Registers, SignalAction, Outcome, done, no_fuel, stray, ◌>>=◌}
use curnel.Keyboard.{Keyboard}
use curnel.Terminal.{writes}
use curnel.Paging.{Paging}
use curnel.Process.{get_current_process}
use curnel.Scheduler.{signal_handle_pending}
use curnel.Terminal.Numerals.{int_to_string}
use curnel.Terminal.Widths.{is_short, int_to_string-is_short}
use curnel.Syscall.Transfers.{Machine, Result}
use curnel.Syscall.Handler.{SysCall, number, call_entry, after_call, syscall_handler}
use curnel.Syscall.Table.{in_table, empty, out_of_table, table-number}

-- A call that does not come back.
abbrev pub Stays : {A : Type 0} → Outcome A → Type 0
Stays (done a) = ⊥
Stays no_fuel = Unit
Stays stray = Unit

module _ {F : Type 0} (paging : Paging) (call_handler : ℕ → ℕ → Kernel → Kernel)
    (interrupt : Keyboard → Keyboard) (wait_for_tick : Kernel → Outcome Kernel)
    (fs_mkdir fs_unlink : F → List ℕ → F × ℕ) (old_action : SignalAction) (old_set f : ℕ) where
  abbrev pub handler : Machine F → Registers → Outcome (Machine F × Registers)
  handler =
      syscall_handler paging call_handler interrupt wait_for_tick fs_mkdir fs_unlink old_action
        old_set f

  -- How a call with this outcome ends.
  abbrev pub CallEnds : Registers → Result F → Outcome (Machine F × Registers) → Type 0
  CallEnds regs (done (m1, result)) o =
      ((get_current_process m1.kernel ≡ none) × (o ≡ done (m1, record regs { rax = result })))
      ⊎ ((j : ℕ) × (get_current_process m1.kernel ≡ some j)
          × (((k2 : Kernel) × (handled : ℕ) × (signal_handle_pending call_handler f m1.kernel j
                  ≡ done (k2, handled))
                × (o ≡ done (record m1 { kernel = k2 }, record regs { rax = result })))
              ⊎ (Stays (signal_handle_pending call_handler f m1.kernel j) × Stays o)))
  CallEnds regs no_fuel o = Stays o
  CallEnds regs stray o = Stays o

  pending_cases :
      (o : Outcome (Kernel × ℕ))
      → ((k2 : Kernel) × (handled : ℕ) × (o ≡ done (k2, handled))) ⊎ Stays o
  pending_cases (done (k2, handled)) = inl (k2, handled, refl)
  pending_cases no_fuel = inr tt
  pending_cases stray = inr tt

  bind-Stays : {A B : Type 0} (o : Outcome A) (g : A → Outcome B) → Stays o → Stays (o >>= g)
  bind-Stays (done a) g h = absurd h
  bind-Stays no_fuel g h = tt
  bind-Stays stray g h = tt

  call-CallEnds :
      (regs : Registers) (r : Result F)
      → CallEnds regs r (
          r >>= λ q.
          after_call paging call_handler interrupt wait_for_tick fs_mkdir fs_unlink old_action
            old_set f regs
            (q.0)
            (q.1))
  unfolding after_call
  call-CallEnds regs no_fuel = tt
  call-CallEnds regs stray = tt
  call-CallEnds regs (done (m1, result)) = elim (Option-cases (get_current_process m1.kernel)) [
    | inl nobody ↦ inl (nobody, rw (after_call, nobody) refl)
    | inr (j, here) ↦
        let handle = signal_handle_pending call_handler f m1.kernel j in
        let last : Kernel × ℕ → Outcome (Machine F × Registers) =
          λ p. done (record m1 { kernel = p.0 }, record regs { rax = result }) in
        let opened : after_call paging call_handler interrupt wait_for_tick fs_mkdir fs_unlink
              old_action old_set f regs m1 result
            ≡ (handle >>= last) =
          rw (after_call, here) refl in
        inr (
          j,
          here,
          elim (pending_cases handle) [
            | inl (k2, handled, e) ↦ inl (k2, handled, e, opened ∙ ap (λ o. o >>= last) e)
            | inr stays ↦ inr (stays, subst Stays (sym opened) (bind-Stays handle last stays))
          ],
        )
  ]

  -- What syscall_handler comes to.
  abbrev pub Handles : Machine F → Registers → Type 0
  Handles m regs =
      ((c : SysCall) × (regs.rax ≡ number c)
        × CallEnds regs
            (call_entry paging call_handler interrupt wait_for_tick fs_mkdir fs_unlink old_action
              old_set f c m regs)
            (handler m regs))
      ⊎ (((regs.rax ≡ 0) ⊎ (27 ≤ regs.rax))
          × (((is_short (u32 regs.rax) ≡ true)
                × (handler m regs
                    ≡ done (
                      record m {
                        output =
                            m.output
                            ++ (writes (text "Hata: Gecersiz sistem cagrisi numarasi: ")
                                ∷ writes (int_to_string (u32 regs.rax))
                                ∷ writes (text "\n")
                                ∷ []);
                      },
                      regs,
                    )))
              ⊎ ((is_short (u32 regs.rax) ≡ false) × (handler m regs ≡ stray))))

  -- syscall_handler on any registers. With the number of a call in syscall.h it makes this call. If the
  -- call comes back, its result is in rax, the other registers are as before, and the pending signals of
  -- the process that is current by then have been handled, if there is one; if either does not come
  -- back, neither does syscall_handler. With any other number, 0 or from 27 on, it prints the lower 32
  -- bits as an int if this has at most four characters, and nothing else changes, so that the number
  -- stays in rax; with more characters it writes past its buffer.
  pub syscall_handler-Numbers : (m : Machine F) (regs : Registers) → Handles m regs
  unfolding syscall_handler
  syscall_handler-Numbers m regs = elim (Bool-cases (ltb 0 regs.rax && ltb regs.rax 27)) [
    | inl known ↦
        let (c, e) = in_table regs.rax (ground (arith, known)) (ground (arith, known)) in
        let under : leb 64 regs.rax ≡ false = ground (arith, known) in
        inl (c, omega (arith, table-number regs.rax c e), rw (under, e) (call-CallEnds regs _))
    | inr unknown ↦
        let outside = out_of_table regs.rax unknown in
        let width = int_to_string-is_short (u32 regs.rax) (omega arith) in
        inr (
          outside,
          elim (Bool-cases (leb 64 regs.rax)) [
            | inl over ↦ elim (Bool-cases (is_short (u32 regs.rax))) [
              | inl short ↦ inl (short, rw (over, width, short) refl)
              | inr long ↦ inr (long, rw (over, width, long) refl)
            ]
            | inr under ↦
                let nothing = empty regs.rax outside in
                elim (Bool-cases (is_short (u32 regs.rax))) [
                  | inl short ↦ inl (short, rw (under, nothing, width, short) refl)
                  | inr long ↦ inr (long, rw (under, nothing, width, long) refl)
                ]
          ],
        )
  ]
