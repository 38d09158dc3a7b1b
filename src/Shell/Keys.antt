-- ===== src/Shell/Keys.antt =====
-- Any sequence of the editing keys in shell_run of shell.c.
use curnel.Shell.Buffer.{length-until_nul}
use curnel.Prelude.{
  ◌⊎◌, length-append, length-drop, ◌≢◌, take, drop, length, ltb, ◌++◌, ◌+◌, ◌<◌, ℕ, ◌≡◌, ◌∙◌, refl,
  ap, true, false, Option, inl, inr, List, [], ◌∷◌, ◌==◌, if◌then◌else◌, Bool-cases, All, arith,
}
use curnel.Memory.{Heap}
use curnel.Kernel.{Kernel, Outcome, done, ◌>>=◌}
use curnel.Terminal.{strlen, Output}
use curnel.Coreutils.{until_nul, FileApi, World, says}
use curnel.Shell.{
  Shell, running, Key, enter, erase, arrow_up, arrow_down, arrow_left, arrow_right, tab, escape,
  ctrl_c, ctrl_d, other, KeyEvent, handle_key, goes_on, run_loop, shell_run, with_output,
}
use curnel.Shell.Plain.{
  IsEditing, edit, press_event, plain_all, types_at_end, edit_all, edit_all-plain,
}
use curnel.Shell.Editing.{
  IsValid, Line, line, typed, Edits, shell_process_input-Edits, shell_handle_backspace-Edits,
  shell_handle_left_arrow-Edits, shell_handle_right_arrow-Edits,
}

-- The key of a character.
abbrev pub character : ℕ → KeyEvent
character c = record { key = other; pressed = true; ascii = c }

-- The text before the cursor with a character behind it.
abbrev pub shortened : ℕ → Shell → Line
shortened c s = record {
  words = take s.buffer_pos (until_nul s.buffer) ++ (c ∷ []);
  at = s.buffer_pos + 1;
}

module _ {F : Type 0} (api : FileApi F) (free : Heap → ℕ → Option Heap)
    (call_handler : ℕ → ℕ → Kernel → Kernel) (interrupt : Kernel → Outcome Kernel) (f : ℕ) where
  abbrev pub Leaves : Shell → Outcome (World F × Shell) → Line → Type 0
  Leaves s r l =
      (w' : World F) × (b : List ℕ) × (p : ℕ) × (let s' = record s { buffer = b; buffer_pos = p } in
        (r ≡ done (w', s')) × IsValid s' × (line s' ≡ l))

  recorded :
      (w : World F) (s : Shell) (r : Outcome (Shell × List Output)) (l : Line)
      → Edits s r l
      → Leaves s (r >>= λ q. done (with_output api free call_handler interrupt f w q)) l
  recorded w s r l (b, p, out, (e, h, same)) = (says w out, b, p, (rw e refl, h, same))

  handle_key-Leaves :
      (key : Key) (c : ℕ) (w : World F) (s : Shell)
      → IsValid s
      → IsEditing key
      → Leaves s (handle_key api free call_handler interrupt f key c w s) (edit key c (line s))
  unfolding handle_key
  handle_key-Leaves enter c w s h editing = absurd editing
  handle_key-Leaves erase c w s h editing = recorded w s _ _ (shell_handle_backspace-Edits s h)
  handle_key-Leaves arrow_up c w s h editing = absurd editing
  handle_key-Leaves arrow_down c w s h editing = absurd editing
  handle_key-Leaves arrow_left c w s h editing =
      recorded w s _ _ (shell_handle_left_arrow-Edits s h)
  handle_key-Leaves arrow_right c w s h editing =
      recorded w s _ _ (shell_handle_right_arrow-Edits s h)
  handle_key-Leaves tab c w s h editing =
      recorded w s _ _ (shell_process_input-Edits s 32 h (omega arith))
  handle_key-Leaves escape c w s h editing = absurd editing
  handle_key-Leaves ctrl_c c w s h editing = absurd editing
  handle_key-Leaves ctrl_d c w s h editing = absurd editing
  handle_key-Leaves other c w s h editing = elim (Bool-cases (c == 0)) [
    | inl nul ↦ rw nul (w, s.buffer, s.buffer_pos, (refl, h, refl))
    | inr byte ↦ rw byte (recorded w s _ _ (shell_process_input-Edits s c h (ground (arith, byte))))
  ]

  event-Leaves :
      (e : KeyEvent) (w : World F) (s : Shell)
      → IsValid s
      → IsEditing e.key
      → Leaves s
          (if e.pressed
            then handle_key api free call_handler interrupt f e.key e.ascii w s
            else done (w, s))
          (press_event typed e (line s))
  event-Leaves e w s h editing = elim (Bool-cases e.pressed) [
    | inl down ↦ rw down (handle_key-Leaves e.key e.ascii w s h editing)
    | inr up ↦ rw up (w, s.buffer, s.buffer_pos, (refl, h, refl))
  ]

  run_loop-step :
      (e : KeyEvent) (es : List KeyEvent) (w w1 : World F) (s s1 : Shell)
      → s.state ≡ running
      → (if e.pressed
          then handle_key api free call_handler interrupt f e.key e.ascii w s
          else done (w, s))
        ≡ done (w1, s1)
      → run_loop api free call_handler interrupt f (e ∷ es) w s
        ≡ run_loop api free call_handler interrupt f es w1 s1
  unfolding run_loop
  run_loop-step e es w w1 s s1 on r =
      let body : Outcome (World F × Shell) → Outcome (World F × Shell) =
        λ o. o >>= λ q. run_loop api free call_handler interrupt f es (q.0) (q.1) in
      ap
        (λ st. elim (goes_on st) as (λ _. Outcome (World F × Shell)) [
          | false ↦ done (w, s)
          | true ↦ body (
              if e.pressed
              then handle_key api free call_handler interrupt f e.key e.ascii w s
              else done (w, s))
        ])
        on
      ∙ ap body r

  run_loop-Leaves :
      (events : List KeyEvent) (w : World F) (s : Shell)
      → All (λ e. IsEditing e.key) events
      → IsValid s
      → s.state ≡ running
      → Leaves s (run_loop api free call_handler interrupt f events w s) (edit_all events (line s))
  unfolding run_loop edit_all
  run_loop-Leaves [] w s h valid on = (w, s.buffer, s.buffer_pos, (refl, valid, refl))
  run_loop-Leaves (e ∷ es) w s h valid on =
      let (w1, b1, p1, (r1, h1, l1)) = event-Leaves e w s valid (h.0) in
      let (w2, b2, p2, (r2, h2, l2)) =
        run_loop-Leaves es w1 (record s { buffer = b1; buffer_pos = p1 }) (h.1) h1 on in
      let step = run_loop-step e es w w1 s (record s { buffer = b1; buffer_pos = p1 }) on r1 in
      (w2, b2, p2, (step ∙ r2, h2, l2 ∙ ap (edit_all es) l1))

  -- From a valid shell, any events of editing keys are all handled, none outside of the buffer: the loop
  -- of shell_run returns a valid shell that still runs, in which only the line and the cursor differ.
  -- These are what a plain line editor, which inserts characters at the cursor, makes of the keys, unless
  -- a character is typed before the end of its line.
  pub shell_run-edits :
      (events : List KeyEvent) (w : World F) (s : Shell)
      → All (λ e. IsEditing e.key) events
      → IsValid s
      → (l : Line) × Leaves
          (record s { state = running })
          (shell_run api free call_handler interrupt f events w s)
          l
        × ((l ≡ plain_all events (line s)) ⊎ (types_at_end events (line s) ≡ false))
  unfolding shell_run
  shell_run-edits events w s h valid = (
    edit_all events (line s),
    run_loop-Leaves events w (record s { state = running }) h
        (record { full = valid.full; ends = valid.ends; inside = valid.inside }) refl,
    elim (Bool-cases (types_at_end events (line s))) [
      | inl at_end ↦ inl (edit_all-plain events (line s) at_end)
      | inr inside ↦ inr inside
    ],
  )

  -- From a valid shell with text behind the cursor, the key of a character leaves a valid shell in which
  -- this text is gone: the line is the text before the cursor and the character, which is not what the
  -- plain line editor makes of the key.
  pub shell_run-Loses :
      (c : ℕ) (w : World F) (s : Shell)
      → c ≢ 0
      → IsValid s
      → s.buffer_pos < strlen s.buffer
      → Leaves
          (record s { state = running })
          (shell_run api free call_handler interrupt f (character c ∷ []) w s)
          (shortened c s)
        × (shortened c s ≢ plain_all (character c ∷ []) (line s))
  unfolding shell_run edit_all plain_all
  shell_run-Loses c w s some_byte valid behind =
      let byte : (c == 0) ≡ false = ground (arith, some_byte) in
      let room : ltb s.buffer_pos 255 ≡ true = ground (arith, behind, valid.ends) in
      let (w', b, p, (r, v, l)) =
        run_loop-Leaves (character c ∷ []) w (record s { state = running }) (tt, tt)
          (record { full = valid.full; ends = valid.ends; inside = valid.inside }) refl in
      (
        (w', b, p, (r, v, l ∙ rw (byte, room) refl)),
        rw byte (elim (Bool-cases (ltb (length (until_nul s.buffer)) 255)) [
          | inl more ↦ rw more λ same. shorter (ap (λ (l : Line). length l.words) same)
          | inr full ↦ rw full λ same. omega (arith, ap (λ (l : Line). l.at) same)
        ]),
      )
    where
      front : List ℕ
      front = take s.buffer_pos (until_nul s.buffer)

      behind_it : List ℕ
      behind_it = drop s.buffer_pos (until_nul s.buffer)

      shorter : length (front ++ (c ∷ [])) ≢ length (front ++ (c ∷ behind_it))
      shorter h = omega (
        arith,
        h,
        behind,
        length-append front (c ∷ []),
        length-append front (c ∷ behind_it),
        length-drop s.buffer_pos (until_nul s.buffer),
        length-until_nul s.buffer,
      )
