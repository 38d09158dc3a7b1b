-- ===== src/Interrupts/Tests.antt =====
-- idt.c at fixed inputs.
use curnel.Prelude.{◌≡◌, refl, ◌-◌, ◌^◌, ◌*◌, ◌+◌, [], ◌∷◌}
use curnel.Interrupts.{
  calls, reports, init_idt, register_interrupt_handler, isr_handler, int_to_string, digits_of,
}

negative_string : int_to_string (2 ^ 32 - 107) ≡ 45 ∷ 49 ∷ 48 ∷ 55 ∷ []
unfolding int_to_string digits_of
negative_string = refl

least_string : int_to_string (2 ^ 31) ≡ 45 ∷ []
unfolding int_to_string digits_of
least_string = refl

calls_handler :
    isr_handler (register_interrupt_handler (init_idt (λ n. 4096 + n * 16)) 33 7) 33 ≡ calls 7
unfolding isr_handler register_interrupt_handler init_idt
calls_handler = refl

reports_number : isr_handler (init_idt (λ n. 4096 + n * 16)) 14 ≡ reports (49 ∷ 52 ∷ [])
unfolding isr_handler init_idt int_to_string digits_of
reports_number = refl
