-- ===== src/Terminal.antt =====
-- kernel.c: the text terminal. The screen is the list of its 80 * 25 cells at VGA_MEMORY; a string is
-- the list of its bytes, with a NUL behind the last.
pub mod Cursor
pub mod Cells
pub mod Numerals
pub mod Widths
mod Tests
use Prim.Native.Nat.{bit_or}
use curnel.Prelude.{
  ℕ, zero, suc, ◌+◌, ◌*◌, ◌%◌, ◌^◌, Bool, List, [], ◌∷◌, length, set, replicate, get_or, ltb, ◌==◌,
  if◌then◌else◌, u64,
}
use curnel.Kernel.{Outcome, done, stray, ◌>>=◌}

abbrev vga_width : ℕ
vga_width = 80

abbrev vga_height : ℕ
vga_height = 25

-- `enum vga_color`: the colours that the source uses.
abbrev pub color_black : ℕ
color_black = 0

abbrev color_green : ℕ
color_green = 2

abbrev pub color_light_grey : ℕ
color_light_grey = 7

abbrev pub color_light_blue : ℕ
color_light_blue = 9

abbrev pub color_light_green : ℕ
color_light_green = 10

abbrev pub color_light_cyan : ℕ
color_light_cyan = 11

-- The statics of kernel.c.
pub record Terminal : Type 0 where
  pub terminal_row : ℕ
  pub terminal_column : ℕ
  pub terminal_color : ℕ
  pub terminal_buffer : List ℕ

pub vga_entry_color : ℕ → ℕ → ℕ
vga_entry_color fg bg = bit_or fg (bg * 16) % 256

pub vga_entry : ℕ → ℕ → ℕ
vga_entry c color = bit_or c (color * 256) % 2 ^ 16

unfoldable pub strlen : List ℕ → ℕ
strlen [] = 0
strlen (c ∷ s) = let rest = strlen s in if c == 0 then 0 else suc rest

-- A write to a cell that is not on the screen strays.
pub write_cell : List ℕ → ℕ → ℕ → Outcome (List ℕ)
write_cell buffer index cell =
    if ltb index (length buffer) then done (set buffer index cell) else stray

-- The inner loop of `terminal_initialize`, with `left` columns to go from column `x` on.
pub clear_row : List ℕ → ℕ → ℕ → ℕ → ℕ → Outcome (List ℕ)
clear_row buffer cell y zero x = done buffer
clear_row buffer cell y (suc left) x =
    write_cell buffer (y * vga_width + x) cell >>= λ b. clear_row b cell y left (x + 1)

-- The outer loop.
pub clear_rows : List ℕ → ℕ → ℕ → ℕ → Outcome (List ℕ)
clear_rows buffer cell zero y = done buffer
clear_rows buffer cell (suc left) y =
    clear_row buffer cell y vga_width 0 >>= λ b. clear_rows b cell left (y + 1)

pub terminal_initialize : Terminal → Outcome Terminal
terminal_initialize t =
    let color = vga_entry_color color_light_grey color_black in
    clear_rows t.terminal_buffer (vga_entry 32 color) vga_height 0 >>= λ b.
    done (record {
      terminal_row = 0;
      terminal_column = 0;
      terminal_color = color;
      terminal_buffer = b;
    })

pub terminal_setcolor : Terminal → ℕ → Terminal
terminal_setcolor t color = record t { terminal_color = color }

pub terminal_putentryat : Terminal → ℕ → ℕ → ℕ → ℕ → Outcome Terminal
terminal_putentryat t c color x y =
    write_cell t.terminal_buffer (u64 (y * vga_width + x)) (vga_entry c color) >>= λ b.
    done (record t { terminal_buffer = b })

-- `terminal_column = 0; if (++terminal_row == VGA_HEIGHT) terminal_row = 0;`
pub next_line : Terminal → Terminal
next_line t =
    let row = u64 (t.terminal_row + 1) in
    record t { terminal_column = 0; terminal_row = if row == vga_height then 0 else row }

-- `if (++terminal_column == VGA_WIDTH)` and what follows.
pub next_column : Terminal → Terminal
next_column t =
    let column = u64 (t.terminal_column + 1) in
    if column == vga_width then next_line t else record t { terminal_column = column }

pub terminal_putchar : Terminal → ℕ → Outcome Terminal
terminal_putchar t c =
    if c == 10
    then done (next_line t)
    else (terminal_putentryat t c t.terminal_color t.terminal_column t.terminal_row >>= λ t'.
        done (next_column t'))

-- The loop over the first `size` bytes; behind the list there is a NUL.
pub terminal_write : Terminal → List ℕ → ℕ → Outcome Terminal
terminal_write t bytes zero = done t
terminal_write t [] (suc size) = terminal_putchar t 0 >>= λ t'. terminal_write t' [] size
terminal_write t (c ∷ bytes) (suc size) =
    terminal_putchar t c >>= λ t'. terminal_write t' bytes size

pub terminal_writestring : Terminal → List ℕ → Outcome Terminal
terminal_writestring t bytes = terminal_write t bytes (strlen bytes)

-- A call of a terminal function, and a sequence of calls.
pub data Output : Type 0 where
  writes : List ℕ → Output
  puts : ℕ → Output
  colors : ℕ → Output
  initializes : Output

pub show_one : Terminal → Output → Outcome Terminal
show_one t (writes bytes) = terminal_writestring t bytes
show_one t (puts c) = terminal_putchar t c
show_one t (colors color) = done (terminal_setcolor t color)
show_one t initializes = terminal_initialize t

pub show : Terminal → List Output → Outcome Terminal
show t [] = done t
show t (o ∷ os) = show_one t o >>= λ t'. show t' os
