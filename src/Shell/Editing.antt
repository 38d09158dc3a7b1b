-- ===== src/Shell/Editing.antt =====
-- The editing keys of shell.c against a plain line editor: a text, and a cursor in it.
use curnel.Prelude.{
  ℕ, ◌+◌, ◌-◌, ◌<◌, ◌≤◌, ◌≡◌, ◌≢◌, ◌∙◌, refl, sym, ap, true, false, ◌&&◌, inl, inr, List, [], ◌∷◌,
  ◌++◌, length, get_or, set, take, drop, ltb, leb, if◌then◌else◌, sub64, Bool-cases, arith,
  length-set, get_or-set_self, get_or-set_ne, length-append, length-take, length-drop, get_or-take,
  get_or-drop, get_or-append,
}
use curnel.Kernel.{Outcome, done}
use curnel.Terminal.{Output, strlen}
use curnel.Coreutils.{until_nul}
use curnel.Shell.{
  Shell, shell_process_input, shell_handle_backspace, shell_handle_left_arrow,
  shell_handle_right_arrow,
}
use curnel.Shell.Buffer.{
  strlen-eq, strlen-get_ne, strlen-get, length-until_nul, get_or-until_nul, until_nul-eq,
  moved_down, shift_left-lem,
}

-- The buffer has its 256 bytes with a NUL among them, and the cursor is in the text before it.
pub record IsValid (s : Shell) : Type 0 where
  pub full : length s.buffer ≡ 256
  pub ends : strlen s.buffer < 256
  pub inside : s.buffer_pos ≤ strlen s.buffer

pub record Line : Type 0 where
  pub words : List ℕ
  pub at : ℕ

abbrev pub line : Shell → Line
line s = record { words = until_nul s.buffer; at = s.buffer_pos }

-- A character is put at the cursor, and ends the text there.
abbrev pub typed : ℕ → Line → Line
typed c l =
    if ltb l.at 255 then record { words = take l.at l.words ++ (c ∷ []); at = l.at + 1 } else l

-- The byte before the cursor is taken out.
abbrev pub erased : Line → Line
erased l =
    if ltb 0 l.at
    then record { words = take (l.at - 1) l.words ++ drop l.at l.words; at = l.at - 1 }
    else l

abbrev pub moved_left : Line → Line
moved_left l = if ltb 0 l.at then record l { at = l.at - 1 } else l

abbrev pub moved_right : Line → Line
moved_right l = if ltb l.at (length l.words) then record l { at = l.at + 1 } else l

-- The call returns a valid shell in which only the line differs, and the line is `l`.
abbrev pub Edits : Shell → Outcome (Shell × List Output) → Line → Type 0
Edits s r l =
    (b : List ℕ) × (p : ℕ) × (out : List Output) × (let s' = record s {
      buffer = b;
      buffer_pos = p;
    } in
      (r ≡ done (s', out)) × IsValid s' × (line s' ≡ l))

line_eq :
    (b words : List ℕ) (p : ℕ)
    → until_nul b ≡ words
    → ◌≡◌ {A = Line} (record { words = until_nul b; at = p }) (record { words = words; at = p })
line_eq b words p e = ap (λ ws. record { words = ws; at = p }) e

-- The buffer with a character and a NUL behind it.
module _ (b : List ℕ) (p c : ℕ) (full : length b ≡ 256) (inside : p ≤ strlen b) (room : p < 255)
    (some_byte : c ≢ 0) where
  put : List ℕ
  put = set (set b p c) (p + 1) 0

  put-length : length put ≡ 256
  unfolding put
  put-length = length-set (set b p c) (p + 1) 0 ∙ length-set b p c ∙ full

  put-at : get_or put p 0 ≡ c
  unfolding put
  put-at =
      get_or-set_ne (set b p c) (p + 1) p 0 0 (λ e. omega (arith, e))
      ∙ get_or-set_self b p c 0 (omega (arith, full))

  put-end : get_or put (p + 1) 0 ≡ 0
  unfolding put
  put-end = get_or-set_self (set b p c) (p + 1) 0 0 (omega (arith, full, length-set b p c))

  put-before : (k : ℕ) → k < p → get_or put k 0 ≡ get_or b k 0
  unfolding put
  put-before k low =
      get_or-set_ne (set b p c) (p + 1) k 0 0 (λ e. omega (arith, e))
      ∙ get_or-set_ne b p k c 0 (λ e. omega (arith, e))

  put-strlen : strlen put ≡ p + 1
  put-strlen =
      strlen-eq (p + 1) put
        (λ k low. elim (Bool-cases (ltb k p)) [
          | inl before ↦ λ e.
              strlen-get_ne b k (ground (arith, before))
                (sym (put-before k (ground (arith, before))) ∙ e)
          | inr here ↦
              let same : k ≡ p = ground (arith, here) in
              λ e. some_byte (sym put-at ∙ sym (ap (λ j. get_or put j 0) same) ∙ e)
        ])
        put-end

  put-text : until_nul put ≡ take p (until_nul b) ++ (c ∷ [])
  put-text =
      let front = take p (until_nul b) in
      let size : length front ≡ p =
        length-take p (until_nul b) (omega (arith, length-until_nul b)) in
      until_nul-eq put (front ++ (c ∷ []))
        (put-strlen ∙ omega (arith, length-append front (c ∷ []), size))
        λ k low.
          let under : k < p + 1 = omega (arith, length-append front (c ∷ []), size) in
          elim (Bool-cases (ltb k p)) [
            | inl before ↦
                let l : k < p = ground (arith, before) in
                ground (
                  arith,
                  l,
                  size,
                  put-before k,
                  get_or-append front (c ∷ []) k 0,
                  get_or-take p (until_nul b) k 0,
                  get_or-until_nul b k,
                )
            | inr here ↦
                let same : k ≡ p = ground (arith, here) in
                let first : k - length front ≡ 0 = omega (arith, same, size) in
                let over : ltb k (length front) ≡ false = ground (arith, same, size) in
                ap (λ j. get_or put j 0) same
                ∙ put-at
                ∙ sym (get_or-append front (c ∷ []) k 0 ∙ rw (over, first) refl)
          ]

-- A typed character.
pub shell_process_input-Edits :
    (s : Shell) (c : ℕ) → IsValid s → c ≢ 0 → Edits s (shell_process_input s c) (typed c (line s))
unfolding shell_process_input put
shell_process_input-Edits s c h some_byte = elim (Bool-cases (ltb s.buffer_pos 255)) [
  | inr over ↦ rw over (s.buffer, s.buffer_pos, [], (refl, h, refl))
  | inl room ↦
      let low : s.buffer_pos < 255 = ground (arith, room) in
      let full : length s.buffer ≡ 256 = h.full in
      let b = s.buffer in
      let p = s.buffer_pos in
      let first : ltb p (length b) ≡ true = ground (arith, low, full) in
      let second : ltb (p + 1) (length (set b p c)) ≡ true =
        ground (arith, low, full, length-set b p c) in
      rw (room, first, second)
        (
          put b p c full h.inside low some_byte,
          p + 1,
          _,
          (
            refl,
            record {
              full = put-length b p c full h.inside low some_byte;
              ends = omega (arith, put-strlen b p c full h.inside low some_byte);
              inside = omega (arith, put-strlen b p c full h.inside low some_byte);
            },
            line_eq _ _ _ (put-text b p c full h.inside low some_byte),
          ),
        )
]

-- The buffer with the bytes from the cursor on moved down by one.
module _ (b r : List ℕ) (p : ℕ) (full : length b ≡ 256) (ends : strlen b < 256)
    (inside : p ≤ strlen b) (some_byte : 0 < p) (size : length r ≡ length b)
    (bytes : (k : ℕ) → get_or r k 0 ≡ moved_down b (p - 1) (strlen b) k) where
  down-strlen : strlen r ≡ strlen b
  down-strlen =
      strlen-eq (strlen b) r
        (λ k low. λ e.
          let here = strlen-get_ne b k low in
          elim (Bool-cases (leb (p - 1) k && ltb k (strlen b - 1))) [
            | inl moves ↦
                strlen-get_ne b (k + 1) (ground (arith, moves))
                  (ground (arith, moves, sym (bytes k) ∙ e))
            | inr stays ↦ here (ground (arith, stays, sym (bytes k) ∙ e))
          ])
        (bytes (strlen b) ∙ ground (arith, strlen-get b))

  cut : List ℕ
  cut = set r (strlen b - 1) 0

  cut-length : length cut ≡ 256
  unfolding cut
  cut-length = length-set r (strlen b - 1) 0 ∙ size ∙ full

  cut-before :
      (k : ℕ)
      → k < strlen b - 1
      → get_or cut k 0 ≡ (if leb (p - 1) k then get_or b (k + 1) 0 else get_or b k 0)
  unfolding cut
  cut-before k low =
      get_or-set_ne r (strlen b - 1) k 0 0 (λ e. omega (arith, e)) ∙ bytes k ∙ ground (arith, low)

  cut-strlen : strlen cut ≡ strlen b - 1
  unfolding cut
  cut-strlen =
      strlen-eq (strlen b - 1) cut
        (λ k low. λ e. elim (Bool-cases (leb (p - 1) k)) [
          | inl moves ↦
              strlen-get_ne b (k + 1) (omega (arith, low))
                (ground (arith, moves, sym (cut-before k low) ∙ e))
          | inr stays ↦
              strlen-get_ne b k (omega (arith, low))
                (ground (arith, stays, sym (cut-before k low) ∙ e))
        ])
        (get_or-set_self r (strlen b - 1) 0 0 (omega (arith, size, full)))

  cut-text : until_nul cut ≡ take (p - 1) (until_nul b) ++ drop p (until_nul b)
  cut-text =
      let l = until_nul b in
      let n : length l ≡ strlen b = length-until_nul b in
      let front : length (take (p - 1) l) ≡ p - 1 = length-take (p - 1) l (omega (arith, n)) in
      let whole : length (take (p - 1) l ++ drop p l) ≡ strlen b - 1 =
        omega (arith, length-append (take (p - 1) l) (drop p l), front, length-drop p l, n) in
      until_nul-eq cut (take (p - 1) l ++ drop p l) (cut-strlen ∙ sym whole) λ k under.
        let low : k < strlen b - 1 = omega (arith, whole) in
        elim (Bool-cases (ltb k (p - 1))) [
          | inl before ↦ ground (
            arith,
            before,
            low,
            front,
            cut-before k,
            get_or-append (take (p - 1) l) (drop p l) k 0,
            get_or-take (p - 1) l k 0,
            get_or-until_nul b k,
          )
          | inr behind ↦
              let place : p + (k - (p - 1)) ≡ k + 1 = ground (arith, behind) in
              let over : ltb k (length (take (p - 1) l)) ≡ false = ground (arith, behind, front) in
              let moves : leb (p - 1) k ≡ true = ground (arith, behind) in
              cut-before k low
              ∙ rw moves (
                  sym (
                    get_or-append (take (p - 1) l) (drop p l) k 0
                    ∙ rw (over, front)
                        (get_or-drop p l (k - (p - 1)) 0
                          ∙ ap (λ j. get_or l j 0) place
                          ∙ get_or-until_nul b (k + 1) (omega (arith, low)))))
        ]

-- The backspace key.
pub shell_handle_backspace-Edits :
    (s : Shell) → IsValid s → Edits s (shell_handle_backspace s) (erased (line s))
unfolding shell_handle_backspace cut
shell_handle_backspace-Edits s h = elim (Bool-cases (ltb 0 s.buffer_pos)) [
  | inr over ↦ rw over (s.buffer, s.buffer_pos, [], (refl, h, refl))
  | inl more ↦
      let full : length s.buffer ≡ 256 = h.full in
      let ends : strlen s.buffer < 256 = h.ends in
      let inside : s.buffer_pos ≤ strlen s.buffer = h.inside in
      let some_byte : 0 < s.buffer_pos = ground (arith, more) in
      let (r, out, e, size, bytes) =
        shift_left-lem 257 s.buffer (s.buffer_pos - 1) (strlen s.buffer) refl
          (omega (arith, some_byte, inside)) (omega (arith, ends)) (omega (arith, ends, full))
          (omega arith) (omega (arith, ends)) in
      let n : strlen r ≡ strlen s.buffer =
        down-strlen s.buffer r s.buffer_pos full ends inside some_byte size bytes in
      let last : sub64 (strlen r) 1 ≡ strlen s.buffer - 1 =
        omega (arith, n, some_byte, inside, ends) in
      let on : ltb (strlen s.buffer - 1) (length r) ≡ true = ground (arith, size, full, ends) in
      rw (more, e, last, on)
        (
          cut s.buffer r s.buffer_pos full ends inside some_byte size bytes,
          s.buffer_pos - 1,
          _,
          (
            refl,
            record {
              full = cut-length s.buffer r s.buffer_pos full ends inside some_byte size bytes;
              ends = omega (
                arith,
                cut-strlen s.buffer r s.buffer_pos full ends inside some_byte size bytes,
                ends,
              );
              inside = omega (
                arith,
                cut-strlen s.buffer r s.buffer_pos full ends inside some_byte size bytes,
                inside,
              );
            },
            line_eq _ _ _ (cut-text s.buffer r s.buffer_pos full ends inside some_byte size bytes),
          ),
        )
]

-- The arrow keys.
pub shell_handle_left_arrow-Edits :
    (s : Shell) → IsValid s → Edits s (done (shell_handle_left_arrow s)) (moved_left (line s))
unfolding shell_handle_left_arrow
shell_handle_left_arrow-Edits s h = elim (Bool-cases (ltb 0 s.buffer_pos)) [
  | inr over ↦ rw over (s.buffer, s.buffer_pos, [], (refl, h, refl))
  | inl more ↦ rw more (
    s.buffer,
    s.buffer_pos - 1,
    _,
    (refl, record { full = h.full; ends = h.ends; inside = let i = h.inside in omega arith }, refl),
  )
]

pub shell_handle_right_arrow-Edits :
    (s : Shell) → IsValid s → Edits s (done (shell_handle_right_arrow s)) (moved_right (line s))
unfolding shell_handle_right_arrow
shell_handle_right_arrow-Edits s h = elim (Bool-cases (ltb s.buffer_pos (strlen s.buffer))) [
  | inr over ↦ rw (length-until_nul s.buffer, over) (s.buffer, s.buffer_pos, [], (refl, h, refl))
  | inl more ↦
      rw (length-until_nul s.buffer, more)
        (
          s.buffer,
          s.buffer_pos + 1,
          _,
          (refl, record { full = h.full; ends = h.ends; inside = ground (arith, more) }, refl),
        )
]
