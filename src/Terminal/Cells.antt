-- ===== src/Terminal/Cells.antt =====
-- What a text leaves on the screen of kernel.c, cell by cell, and the screen after its start.
use curnel.Prelude.{
  ℕ, zero, suc, ◌+◌, ◌*◌, ◌/◌, ◌%◌, ◌<◌, ◌≤◌, ◌≡◌, ◌≢◌, ◌∙◌, refl, ap, subst, true, false, inl, inr,
  List, [], ◌∷◌, length, set, get_or, length-set, get_or-set_self, get_or-set_ne, Bool-cases, ltb,
  ◌==◌, ==_iff, if◌then◌else◌, arith, All,
}
use curnel.Kernel.{done, ◌>>=◌}
use curnel.Terminal.{
  Terminal, vga_entry, vga_entry_color, write_cell, clear_row, clear_rows, terminal_initialize,
  terminal_setcolor, terminal_write, terminal_writestring, strlen, Output, writes, puts, colors,
  initializes, show_one, show,
}
use curnel.Terminal.Cursor.{
  IsValid, cursor, Screen, typed_all, screen, terminal_putchar-Shows, terminal_write-Shows,
}

-- A text with no newline and no NUL.
abbrev Plain : List ℕ → Type 0
Plain = All (λ c. (c ≢ 10) × (c ≢ 0))

strlen-Plain : (bytes : List ℕ) → Plain bytes → strlen bytes ≡ length bytes
unfolding strlen
strlen-Plain [] h = refl
strlen-Plain (c ∷ bytes) h = ground (arith, strlen-Plain bytes (h.1), (h.0).1)

-- The cells after a plain text of at most 2000 bytes typed at `s`.
module _ (color : ℕ) where
  put : Screen → ℕ → Screen
  put s c = record { at = (s.at + 1) % 2000; cells = set s.cells s.at (vga_entry c color) }

  typed_all-plain :
      (s : Screen) (c : ℕ) (bytes : List ℕ)
      → c ≢ 10
      → typed_all color s (c ∷ bytes) (length (c ∷ bytes))
        ≡ typed_all color (put s c) bytes (length bytes)
  unfolding typed_all put
  typed_all-plain s c bytes h =
      let e : (c == 10) ≡ false = ground arith in
      ap
        (λ b.
          typed_all color (if b then record s { at = (s.at / 80 + 1) % 25 * 80 } else put s c) bytes
            (length bytes))
        e

  untouched :
      (bytes : List ℕ) (s : Screen) (k d : ℕ)
      → Plain bytes
      → length s.cells ≡ 2000
      → s.at < 2000
      → ((i : ℕ) → i < length bytes → k ≢ (s.at + i) % 2000)
      → get_or (typed_all color s bytes (length bytes)).cells k d ≡ get_or s.cells k d
  unfolding typed_all put
  untouched [] s k d h full low far = refl
  untouched (c ∷ bytes) s k d h full low far =
      let s1 = put s c in
      ap (λ (x : Screen). get_or x.cells k d) (typed_all-plain s c bytes ((h.0).0))
      ∙ (untouched bytes s1 k d (h.1) (length-set s.cells s.at _ ∙ full) (omega arith)
            (λ i l e. far (suc i) (omega arith) (omega (arith, e)))
          ∙ get_or-set_ne s.cells s.at k _ d (λ e. far 0 (omega arith) (omega (arith, e))))

  written :
      (bytes : List ℕ) (s : Screen) (i d : ℕ)
      → Plain bytes
      → length s.cells ≡ 2000
      → s.at < 2000
      → length bytes ≤ 2000
      → i < length bytes
      → get_or (typed_all color s bytes (length bytes)).cells ((s.at + i) % 2000) d
        ≡ vga_entry (get_or bytes i 0) color
  unfolding typed_all put
  written [] s i d h full low room l = absurd (omega arith)
  written (c ∷ bytes) s zero d h full low room l =
      let s1 = put s c in
      let here : (s.at + 0) % 2000 ≡ s.at = omega arith in
      ap (λ (x : Screen). get_or x.cells ((s.at + 0) % 2000) d)
        (typed_all-plain s c bytes ((h.0).0))
      ∙ ap (λ k. get_or (typed_all color s1 bytes (length bytes)).cells k d) here
      ∙ (untouched bytes s1 s.at d (h.1) (length-set s.cells s.at _ ∙ full) (omega arith)
            (λ i l' e. absurd (omega (arith, e)))
          ∙ get_or-set_self s.cells s.at _ d (omega (arith, full)))
  written (c ∷ bytes) s (suc i) d h full low room l =
      let s1 = put s c in
      let there : (s.at + suc i) % 2000 ≡ (s1.at + i) % 2000 = omega arith in
      ap (λ (x : Screen). get_or x.cells ((s.at + suc i) % 2000) d)
        (typed_all-plain s c bytes ((h.0).0))
      ∙ ap (λ k. get_or (typed_all color s1 bytes (length bytes)).cells k d) there
      ∙ (written bytes s1 i d (h.1) (length-set s.cells s.at _ ∙ full) (omega arith) (omega arith)
          (omega arith))

  moved :
      (bytes : List ℕ) (s : Screen)
      → Plain bytes
      → s.at < 2000
      → (typed_all color s bytes (length bytes)).at ≡ (s.at + length bytes) % 2000
  unfolding typed_all put
  moved [] s h low = omega arith
  moved (c ∷ bytes) s h low =
      let s1 = put s c in
      ap (λ (x : Screen). x.at) (typed_all-plain s c bytes ((h.0).0))
      ∙ (moved bytes s1 (h.1) (omega arith) ∙ omega arith)

-- A plain text of at most 2000 bytes, written to a valid terminal: going round the screen from the
-- cursor, the first cells hold its bytes in the terminal's color and all others are as before; the
-- cursor moves on by its length, and the terminal stays valid.
pub terminal_writestring-cells :
    (t : Terminal) (bytes : List ℕ)
    → IsValid t
    → Plain bytes
    → length bytes ≤ 2000
    → (t' : Terminal) × (terminal_writestring t bytes ≡ done t')
      × IsValid t'
      × (cursor t' ≡ (cursor t + length bytes) % 2000)
      × ((d : ℕ)
          → get_or t'.terminal_buffer ((cursor t + d) % 2000) 0 ≡ (
              if ltb (d % 2000) (length bytes)
              then vga_entry (get_or bytes (d % 2000) 0) t.terminal_color
              else get_or t.terminal_buffer ((cursor t + d) % 2000) 0))
unfolding terminal_writestring
terminal_writestring-cells t bytes h plain room =
    let (t', e, h', same, hue) = terminal_write-Shows t bytes (length bytes) h in
    let at_cursor : cursor t < 2000 = let a = h.row in let b = h.column in omega arith in
    let cells' : t'.terminal_buffer
        ≡ (typed_all t.terminal_color (screen t) bytes (length bytes)).cells =
      ap (λ (s : Screen). s.cells) same in
    (
      t',
      ap (terminal_write t bytes) (strlen-Plain bytes plain) ∙ e,
      h',
      ap (λ (s : Screen). s.at) same ∙ moved t.terminal_color bytes (screen t) plain at_cursor,
      λ d.
          let k = (cursor t + d) % 2000 in
          ap (λ b. get_or b k 0) cells' ∙ elim (Bool-cases (ltb (d % 2000) (length bytes))) [
            | inl within ↦
                let l : d % 2000 < length bytes = ground (arith, within) in
                let there : k ≡ (cursor t + d % 2000) % 2000 = omega arith in
                rw within (
                  ap
                    (λ j.
                      get_or (typed_all t.terminal_color (screen t) bytes (length bytes)).cells j 0)
                    there
                  ∙ written t.terminal_color bytes (screen t) (d % 2000) 0 plain h.full at_cursor
                      room l)
            | inr beyond ↦
                let l : length bytes ≤ d % 2000 = ground (arith, beyond) in
                rw beyond (
                  untouched t.terminal_color bytes (screen t) k 0 plain h.full at_cursor
                    (λ i low clash. omega (arith, l, low, room, clash)))
          ],
    )

-- The screen that `terminal_initialize` leaves: `n` cells with the blank cell.
clear_row-lem :
    (b : List ℕ) (cell y left x : ℕ)
    → y * 80 + x + left ≤ length b
    → (b' : List ℕ) × (clear_row b cell y left x ≡ done b')
      × (length b' ≡ length b)
      × ((k : ℕ) → get_or b k cell ≡ cell → get_or b' k cell ≡ cell)
      × ((k : ℕ) → y * 80 + x ≤ k → k < y * 80 + x + left → get_or b' k cell ≡ cell)
unfolding clear_row write_cell
clear_row-lem b cell y zero x room = (b, refl, refl, λ k h. h, λ k low high. absurd (omega arith))
clear_row-lem b cell y (suc left) x room =
    let p = y * 80 + x in
    let b1 = set b p cell in
    let size : length b1 ≡ length b = length-set b p cell in
    let inside : ltb p (length b) ≡ true = ground arith in
    let (b', e, l, stay, blanks) = clear_row-lem b1 cell y left (x + 1) (omega (arith, size)) in
    let keep : (k : ℕ) → get_or b k cell ≡ cell → get_or b1 k cell ≡ cell = λ k h.
      elim (Bool-cases (p == k)) [
        | inl hit ↦
            subst (λ q. get_or b1 q cell ≡ cell) ((==_iff p k).0 hit)
              (get_or-set_self b p cell cell (omega arith))
        | inr miss ↦ get_or-set_ne b p k cell cell (λ q. ground (arith, q, miss)) ∙ h
      ] in
    rw inside (
      b',
      e,
      l ∙ size,
      λ k h. stay k (keep k h),
      λ k low high. elim (Bool-cases (p == k)) [
        | inl hit ↦ stay k (
            subst (λ q. get_or b1 q cell ≡ cell) ((==_iff p k).0 hit)
              (get_or-set_self b p cell cell (omega arith)))
        | inr miss ↦ blanks k (ground (arith, miss, low)) (omega arith)
      ],
    )

clear_rows-lem :
    (b : List ℕ) (cell left y : ℕ)
    → (y + left) * 80 ≤ length b
    → (b' : List ℕ) × (clear_rows b cell left y ≡ done b')
      × (length b' ≡ length b)
      × ((k : ℕ) → get_or b k cell ≡ cell → get_or b' k cell ≡ cell)
      × ((k : ℕ) → y * 80 ≤ k → k < (y + left) * 80 → get_or b' k cell ≡ cell)
unfolding clear_rows
clear_rows-lem b cell zero y room = (b, refl, refl, λ k h. h, λ k low high. absurd (omega arith))
clear_rows-lem b cell (suc left) y room =
    let (b1, e1, l1, stay1, blanks1) = clear_row-lem b cell y 80 0 (omega arith) in
    let (b', e, l, stay, blanks) = clear_rows-lem b1 cell left (y + 1) (omega (arith, l1)) in
    rw e1 (
      b',
      e,
      l ∙ l1,
      λ k h. stay k (stay1 k h),
      λ k low high. elim (Bool-cases (ltb k (y * 80 + 80))) [
        | inl here ↦ stay k (blanks1 k (omega arith) (ground (arith, here)))
        | inr later ↦ blanks k (ground (arith, later)) (omega arith)
      ],
    )

-- On a screen of 2000 cells terminal_initialize returns a valid terminal with the cursor at the top
-- left, light grey on black, and a blank in every cell.
terminal_initialize-blank :
    (t : Terminal)
    → length t.terminal_buffer ≡ 2000
    → (t' : Terminal) × (terminal_initialize t ≡ done t')
      × IsValid t'
      × (cursor t' ≡ 0)
      × (t'.terminal_color ≡ 7)
      × ((k : ℕ) → k < 2000 → get_or t'.terminal_buffer k (vga_entry 32 7) ≡ vga_entry 32 7)
unfolding terminal_initialize vga_entry_color
terminal_initialize-blank t full =
    let (b', e, l, stay, blanks) =
      clear_rows-lem t.terminal_buffer (vga_entry 32 7) 25 0 (omega (arith, full)) in
    rw e (
      record { terminal_row = 0; terminal_column = 0; terminal_color = 7; terminal_buffer = b' },
      refl,
      record { row = omega arith; column = omega arith; full = l ∙ full },
      refl,
      refl,
      λ k low. blanks k (omega arith) (omega arith),
    )

one :
    (t : Terminal) (o : Output)
    → IsValid t
    → (t' : Terminal) × (show_one t o ≡ done t') × IsValid t'
unfolding show_one terminal_writestring terminal_setcolor
one t (writes bytes) h =
    let (t', e, h', same, hue) = terminal_write-Shows t bytes (strlen bytes) h in (t', e, h')
one t (puts c) h = let (t', e, h', same, hue) = terminal_putchar-Shows t c h in (t', e, h')
one t (colors color) h = (
  record t { terminal_color = color },
  refl,
  record { row = h.row; column = h.column; full = h.full },
)
one t initializes h =
    let (t', e, h', at_start, hue, blanks) = terminal_initialize-blank t h.full in (t', e, h')

-- Whatever calls are made, a valid terminal stays valid, and nothing is written off the screen.
show-IsValid :
    (t : Terminal) (os : List Output)
    → IsValid t
    → (t' : Terminal) × (show t os ≡ done t') × IsValid t'
unfolding show
show-IsValid t [] h = (t, refl, h)
show-IsValid t (o ∷ os) h =
    let (t1, e1, h1) = one t o h in
    let (t', e, h') = show-IsValid t1 os h1 in (t', ap (λ r. r >>= λ q. show q os) e1 ∙ e, h')
