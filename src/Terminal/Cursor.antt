-- ===== src/Terminal/Cursor.antt =====
-- The cursor of the terminal in kernel.c, as one number, and the screen behind it.
use curnel.Prelude.{
  ℕ, zero, suc, ◌+◌, ◌*◌, ◌/◌, ◌%◌, ◌<◌, ◌≡◌, ◌∙◌, refl, ap, subst, true, inl, inr, List, [], ◌∷◌,
  length, set, length-set, Bool-cases, ltb, ◌==◌, if◌then◌else◌, u64, arith,
}
use curnel.Kernel.{Outcome, done, ◌>>=◌}
use curnel.Terminal.{
  Terminal, vga_entry, write_cell, terminal_putentryat, next_line, next_column, terminal_putchar,
  terminal_write,
}

-- The cursor is on the screen, and the screen has its cells.
pub record IsValid (t : Terminal) : Type 0 where
  pub row : t.terminal_row < 25
  pub column : t.terminal_column < 80
  pub full : length t.terminal_buffer ≡ 2000

-- The number of the cell under the cursor.
abbrev pub cursor : Terminal → ℕ
cursor t = t.terminal_row * 80 + t.terminal_column

-- A plain description: one cursor from 0 to 1999 that runs around the screen.
pub record Screen : Type 0 where
  pub at : ℕ
  pub cells : List ℕ

abbrev pub typed : ℕ → Screen → ℕ → Screen
typed color s c =
    if c == 10
    then record s { at = (s.at / 80 + 1) % 25 * 80 }
    else record { at = (s.at + 1) % 2000; cells = set s.cells s.at (vga_entry c color) }

unfoldable pub typed_all : ℕ → Screen → List ℕ → ℕ → Screen
typed_all color s bytes zero = s
typed_all color s [] (suc size) = typed_all color (typed color s 0) [] size
typed_all color s (c ∷ bytes) (suc size) = typed_all color (typed color s c) bytes size

abbrev pub screen : Terminal → Screen
screen t = record { at = cursor t; cells = t.terminal_buffer }

-- The call returns a valid terminal that shows `s`, with the color that it had.
abbrev pub Shows : Outcome Terminal → Screen → ℕ → Type 0
Shows r s color =
    (t' : Terminal) × (r ≡ done t') × IsValid t' × (screen t' ≡ s) × (t'.terminal_color ≡ color)

next_line-cursor : (t : Terminal) → IsValid t → cursor (next_line t) ≡ (cursor t / 80 + 1) % 25 * 80
unfolding next_line
next_line-cursor t h = let a = h.row in let b = h.column in ground arith

next_line-row : (t : Terminal) → IsValid t → (next_line t).terminal_row < 25
unfolding next_line
next_line-row t h = let a = h.row in ground arith

next_line-IsValid : (t : Terminal) → IsValid t → IsValid (next_line t)
unfolding next_line
next_line-IsValid t h = record {
  row = unfold next_line in next_line-row t h;
  column = omega arith;
  full = h.full;
}

next_column-cursor : (t : Terminal) → IsValid t → cursor (next_column t) ≡ (cursor t + 1) % 2000
unfolding next_column next_line
next_column-cursor t h = let a = h.row in let b = h.column in ground arith

next_column-row : (t : Terminal) → IsValid t → (next_column t).terminal_row < 25
unfolding next_column next_line
next_column-row t h = let a = h.row in ground arith

next_column-column : (t : Terminal) → IsValid t → (next_column t).terminal_column < 80
unfolding next_column next_line
next_column-column t h = let a = h.column in ground arith

next_column-rest :
    (t : Terminal)
    → ((next_column t).terminal_buffer ≡ t.terminal_buffer)
      × ((next_column t).terminal_color ≡ t.terminal_color)
unfolding next_column next_line
next_column-rest t = ground arith

screen_eq :
    (t : Terminal) (p : ℕ) (b : List ℕ)
    → cursor t ≡ p
    → t.terminal_buffer ≡ b
    → screen t ≡ record { at = p; cells = b }
screen_eq t p b e f i = record { at = e i; cells = f i }

putentry_lem :
    (t : Terminal) (c : ℕ)
    → IsValid t
    → terminal_putentryat t c t.terminal_color t.terminal_column t.terminal_row
      ≡ done (record t {
        terminal_buffer = set t.terminal_buffer (cursor t) (vga_entry c t.terminal_color);
      })
unfolding terminal_putentryat write_cell
putentry_lem t c h =
    let a = h.row in
    let b = h.column in
    let f = h.full in
    let place : u64 (cursor t) ≡ cursor t = omega arith in
    let inside : ltb (cursor t) (length t.terminal_buffer) ≡ true = ground arith in
    rw (place, inside) refl

-- One character on a valid terminal.
pub terminal_putchar-Shows :
    (t : Terminal) (c : ℕ)
    → IsValid t
    → Shows (terminal_putchar t c) (typed t.terminal_color (screen t) c) t.terminal_color
unfolding terminal_putchar
terminal_putchar-Shows t c h = elim (Bool-cases (c == 10)) [
  | inl line ↦ rw line (
    next_line t,
    refl,
    next_line-IsValid t h,
    screen_eq (next_line t) _ _ (next_line-cursor t h) (unfold next_line in refl),
    unfold next_line in refl,
  )
  | inr other ↦
      let t1 = record t {
        terminal_buffer = set t.terminal_buffer (cursor t) (vga_entry c t.terminal_color);
      } in
      let h1 : IsValid t1 = record {
        row = h.row;
        column = h.column;
        full = length-set t.terminal_buffer (cursor t) (vga_entry c t.terminal_color) ∙ h.full;
      } in
      rw (other, putentry_lem t c h)
        (
          next_column t1,
          refl,
          record {
            row = next_column-row t1 h1;
            column = next_column-column t1 h1;
            full = ap length ((next_column-rest t1).0) ∙ h1.full;
          },
          screen_eq (next_column t1) _ _ (next_column-cursor t1 h1) ((next_column-rest t1).0),
          (next_column-rest t1).1,
        )
]

then_Shows :
    (r : Outcome Terminal) (f : Terminal → Outcome Terminal) (s : Screen) (color : ℕ)
    (goal : Screen)
    → Shows r s color
    → ((t : Terminal)
        → IsValid t
        → screen t ≡ s
        → t.terminal_color ≡ color
        → Shows (f t) goal color)
    → Shows (r >>= f) goal color
then_Shows r f s color goal (t, e, h, same, hue) go = rw e (go t h same hue)

putchar_from :
    (t : Terminal) (c : ℕ) (s : Screen) (color : ℕ)
    → IsValid t
    → screen t ≡ s
    → t.terminal_color ≡ color
    → Shows (terminal_putchar t c) (typed color s c) color
putchar_from t c s color h same hue =
    subst (λ n. Shows (terminal_putchar t c) (typed n s c) n) hue
      (subst (λ x. Shows (terminal_putchar t c) (typed t.terminal_color x c) t.terminal_color) same
        (terminal_putchar-Shows t c h))

write_from :
    (t : Terminal) (bytes : List ℕ) (size : ℕ) (s : Screen) (color : ℕ)
    → IsValid t
    → screen t ≡ s
    → t.terminal_color ≡ color
    → Shows (terminal_write t bytes size) (typed_all color s bytes size) color
unfolding terminal_write typed_all
write_from t bytes zero s color h same hue = (t, refl, h, same, hue)
write_from t [] (suc size) s color h same hue =
    then_Shows _ _ _ _ _ (putchar_from t 0 s color h same hue)
      λ t' h' same' hue'. write_from t' [] size (typed color s 0) color h' same' hue'
write_from t (c ∷ bytes) (suc size) s color h same hue =
    then_Shows _ _ _ _ _ (putchar_from t c s color h same hue)
      λ t' h' same' hue'. write_from t' bytes size (typed color s c) color h' same' hue'

-- Writing to a valid terminal returns a valid one, without a write off the screen, with the same
-- color, and its cursor and cells are those of a single cursor that runs around the 2000 cells: a
-- newline moves it to the start of the next row, any other byte is put at it and moves it on by one.
pub terminal_write-Shows :
    (t : Terminal) (bytes : List ℕ) (size : ℕ)
    → IsValid t
    → Shows
        (terminal_write t bytes size)
        (typed_all t.terminal_color (screen t) bytes size)
        t.terminal_color
terminal_write-Shows t bytes size h =
    write_from t bytes size (screen t) t.terminal_color h refl refl
