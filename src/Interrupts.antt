-- ===== src/Interrupts.antt =====
-- idt.c: the table of gates, the handlers of interrupts, and int_to_string. Addresses of code are
-- numbers, 0 for no handler; loading the table into the processor is left out. Strings are lists of
-- characters without their NUL.
mod Tests
use mathlib.Core.List.{reverse}
use curnel.Prelude.{
  ℕ, zero, suc, ◌+◌, ◌-◌, ◌*◌, ◌/◌, ◌%◌, ◌^◌, Bool, true, false, not, ◌&&◌, List, [], ◌∷◌, ◌++◌,
  get_or, set, replicate, ltb, leb, ◌==◌, if◌then◌else◌,
}

-- `idt_entry_t`
pub record IdtEntry : Type 0 where
  pub base_low : ℕ
  pub selector : ℕ
  pub always0 : ℕ
  pub flags : ℕ
  pub base_middle : ℕ
  pub base_high : ℕ
  pub reserved : ℕ

-- The statics of idt.c.
pub record Idt : Type 0 where
  pub idt_entries : List IdtEntry
  pub interrupt_handlers : List ℕ

abbrev pub no_gate : IdtEntry
no_gate = record {
  base_low = 0;
  selector = 0;
  always0 = 0;
  flags = 0;
  base_middle = 0;
  base_high = 0;
  reserved = 0;
}

pub idt_set_gate : List IdtEntry → ℕ → ℕ → ℕ → ℕ → List IdtEntry
idt_set_gate entries num base selector flags = set entries num (record {
  base_low = base % 2 ^ 16;
  selector = selector;
  always0 = 0;
  flags = flags;
  base_middle = base / 2 ^ 16 % 2 ^ 16;
  base_high = base / 2 ^ 32 % 2 ^ 32;
  reserved = 0;
})

-- The calls of `idt_set_gate` in `init_idt`, with `left` gates to go, from gate `num` on; `isr` gives the
-- addresses of the stubs.
unfoldable pub set_gates : (ℕ → ℕ) → List IdtEntry → ℕ → ℕ → List IdtEntry
set_gates isr entries zero num = entries
set_gates isr entries (suc left) num =
    set_gates isr (idt_set_gate entries num (isr num) 0x08 0x8e) left (num + 1)

unfoldable pub init_idt : (ℕ → ℕ) → Idt
init_idt isr = record {
  idt_entries = set_gates isr (replicate 256 no_gate) 32 0;
  interrupt_handlers = replicate 256 0;
}

unfoldable pub register_interrupt_handler : Idt → ℕ → ℕ → Idt
register_interrupt_handler idt n handler = record idt {
  interrupt_handlers = set idt.interrupt_handlers n handler;
}

-- The loop of `int_to_string`, lowest digit first; ten turns are enough for an `int`.
unfoldable pub digits_of : ℕ → ℕ → List ℕ
digits_of zero num = []
digits_of (suc fuel) num =
    let rest = digits_of fuel (num / 10) in if num == 0 then [] else (num % 10 + 48) ∷ rest

-- `num` is the 32-bit word of an `int`; the negation of the least one is itself, and has no digits.
unfoldable pub int_to_string : ℕ → List ℕ
int_to_string num =
    let negative = leb (2 ^ 31) num in
    let magnitude = if negative then 2 ^ 32 - num else num in
    let digits = if leb (2 ^ 31) magnitude then [] else digits_of 10 magnitude in
    if num == 0 then 48 ∷ [] else reverse (digits ++ (if negative then 45 ∷ [] else []))

-- What `isr_handler` does: it calls a handler, or it reports the number.
pub data Handling : Type 0 where
  calls : ℕ → Handling
  reports : List ℕ → Handling

-- `int_no` is below 256: a greater one is read past the table.
pub isr_handler : Idt → ℕ → Handling
isr_handler idt int_no =
    let handler = get_or idt.interrupt_handlers int_no 0 in
    if handler == 0 then reports (int_to_string int_no) else calls handler
