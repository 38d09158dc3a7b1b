-- ===== src/Terminal/Tests.antt =====
-- Runs of the terminal of kernel.c.
use curnel.Prelude.{
  ℕ, ◌+◌, ◌-◌, ◌^◌, ◌%◌, ◌≡◌, refl, if◌then◌else◌, ltb, [], ◌∷◌, length, length-replicate,
  replicate, get_or, text, arith,
}
use curnel.Kernel.{done}
use curnel.Terminal.{Terminal, terminal_write, terminal_writestring, vga_entry}
use curnel.Terminal.Cursor.{IsValid, cursor, Shows, screen, typed_all, terminal_write-Shows}
use curnel.Terminal.Cells.{terminal_writestring-cells}
use curnel.Terminal.Numerals.{int_to_string, int_to_string-eq, write_digits, swap_ends, swapped}
use curnel.Interrupts

abbrev corner : Terminal
corner = record {
  terminal_row = 24;
  terminal_column = 79;
  terminal_color = 7;
  terminal_buffer = replicate 2000 0;
}

corner-IsValid : IsValid corner
corner-IsValid = record {
  row = omega arith;
  column = omega arith;
  full = length-replicate {A = ℕ} 2000 0;
}

terminal_write-Shows_example :
    Shows
      (terminal_write corner (72 ∷ 105 ∷ 10 ∷ []) 3)
      (typed_all 7 (screen corner) (72 ∷ 105 ∷ 10 ∷ []) 3)
      7
terminal_write-Shows_example = terminal_write-Shows corner (72 ∷ 105 ∷ 10 ∷ []) 3 corner-IsValid

terminal_writestring-cells_example :
    (t' : Terminal) × (terminal_writestring corner (72 ∷ 105 ∷ []) ≡ done t')
    × IsValid t'
    × (cursor t' ≡ (cursor corner + length {A = ℕ} (72 ∷ 105 ∷ [])) % 2000)
    × ((d : ℕ)
        → get_or t'.terminal_buffer ((cursor corner + d) % 2000) 0 ≡ (
            if ltb (d % 2000) 2
            then vga_entry (get_or {A = ℕ} (72 ∷ 105 ∷ []) (d % 2000) 0) 7
            else get_or corner.terminal_buffer ((cursor corner + d) % 2000) 0))
terminal_writestring-cells_example =
    terminal_writestring-cells corner (72 ∷ 105 ∷ []) corner-IsValid (omega arith) (omega arith)

int_to_string-eq_example : int_to_string 1970 ≡ Interrupts.int_to_string 1970
int_to_string-eq_example = int_to_string-eq 1970 (omega arith) (omega arith)

negative_string : int_to_string (2 ^ 32 - 107) ≡ text "-107"
unfolding int_to_string write_digits swap_ends swapped text
negative_string = refl

-- The least `int` comes out as other characters than digits.
least_string : int_to_string (2 ^ 31) ≡ text "-./,),(-*,("
unfolding int_to_string write_digits swap_ends swapped text
least_string = refl
