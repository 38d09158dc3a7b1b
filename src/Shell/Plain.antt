-- ===== src/Shell/Plain.antt =====
-- The keys of shell_run of shell.c that edit the line, and what a plain line editor makes of them.
use curnel.Prelude.{
  ℕ, ◌+◌, ◌≡◌, ◌∙◌, refl, sym, ap, Bool, true, false, not, ◌&&◌, ◌||◌, inl, inr, List, [], ◌∷◌,
  ◌++◌, length, take, drop, ltb, ◌==◌, if◌then◌else◌, Bool-cases, arith,
}
use curnel.Shell.{
  Key, enter, erase, arrow_up, arrow_down, arrow_left, arrow_right, tab, escape, ctrl_c, ctrl_d,
  other, KeyEvent,
}
use curnel.Shell.Editing.{Line, typed, erased, moved_left, moved_right}

-- The keys that edit the line, and no others.
abbrev pub IsEditing : Key → Type 0
IsEditing erase = Unit
IsEditing arrow_left = Unit
IsEditing arrow_right = Unit
IsEditing tab = Unit
IsEditing other = Unit
IsEditing _ = ⊥

-- A plain line editor, with its line in a buffer of 256 bytes: a character goes in at the cursor, between
-- the text before it and the text behind it; the other keys are as in Editing.antt.
abbrev pub inserted : ℕ → Line → Line
inserted c l =
    if ltb (length l.words) 255
    then record { words = take l.at l.words ++ (c ∷ drop l.at l.words); at = l.at + 1 }
    else l

abbrev pub press : (ℕ → Line → Line) → Key → ℕ → Line → Line
press put erase c l = erased l
press put arrow_left c l = moved_left l
press put arrow_right c l = moved_right l
press put tab c l = put 32 l
press put other c l = if c == 0 then l else put c l
press put _ c l = l

abbrev pub press_event : (ℕ → Line → Line) → KeyEvent → Line → Line
press_event put e l = if e.pressed then press put e.key e.ascii l else l

-- The plain editor on a sequence of events.
unfoldable pub plain_all : List KeyEvent → Line → Line
plain_all [] l = l
plain_all (e ∷ es) l = plain_all es (press_event inserted e l)

-- Does the key put in a character?
abbrev pub types : Key → ℕ → Bool
types tab c = true
types other c = not (c == 0)
types _ c = false

-- Is each character, in the plain editor, put in at the end of the line?
unfoldable pub types_at_end : List KeyEvent → Line → Bool
types_at_end [] l = true
types_at_end (e ∷ es) l =
    let rest = types_at_end es (press_event inserted e l) in
    (not (e.pressed && types e.key e.ascii) || l.at == length l.words) && rest

-- What the code makes of the line, in which `typed` puts the character in and ends the text behind it.
abbrev pub edit : Key → ℕ → Line → Line
edit = press typed

unfoldable pub edit_all : List KeyEvent → Line → Line
edit_all [] l = l
edit_all (e ∷ es) l = edit_all es (press_event typed e l)

drop_all : {A : Type 0} (xs : List A) → drop (length xs) xs ≡ []
drop_all [] = refl
drop_all (x ∷ xs) = drop_all xs

typed-inserted : (c : ℕ) (l : Line) → l.at ≡ length l.words → typed c l ≡ inserted c l
typed-inserted c l last =
    let full : ltb (length l.words) 255 ≡ ltb l.at 255 = ap (λ n. ltb n 255) (sym last) in
    let none_behind : drop l.at l.words ≡ [] = ap (λ n. drop n l.words) last ∙ drop_all l.words in
    rw (full, none_behind) refl

press_event-agree :
    (e : KeyEvent) (l : Line)
    → (not (e.pressed && types e.key e.ascii) || l.at == length l.words) ≡ true
    → press_event typed e l ≡ press_event inserted e l
press_event-agree e l last = elim (Bool-cases e.pressed) [
  | inr up ↦ rw up refl
  | inl down ↦ rw down (
      agree e.key e.ascii
        (sym (ap (λ d. not (d && types e.key e.ascii) || l.at == length l.words) down) ∙ last))
]
  where
    agree :
        (key : Key) (c : ℕ)
        → (not (types key c) || l.at == length l.words) ≡ true
        → press typed key c l ≡ press inserted key c l
    agree enter c h = refl
    agree erase c h = refl
    agree arrow_up c h = refl
    agree arrow_down c h = refl
    agree arrow_left c h = refl
    agree arrow_right c h = refl
    agree tab c h = typed-inserted 32 l (ground (arith, h))
    agree escape c h = refl
    agree ctrl_c c h = refl
    agree ctrl_d c h = refl
    agree other c h = elim (Bool-cases (c == 0)) [
      | inl nul ↦ rw nul refl
      | inr byte ↦ rw byte (typed-inserted c l (ground (arith, h, byte)))
    ]

both : (x y : Bool) → (x && y) ≡ true → (x ≡ true) × (y ≡ true)
both true y h = (refl, h)
both false y h = absurd (cc)

pub edit_all-plain :
    (events : List KeyEvent) (l : Line)
    → types_at_end events l ≡ true
    → edit_all events l ≡ plain_all events l
unfolding edit_all plain_all types_at_end
edit_all-plain [] l h = refl
edit_all-plain (e ∷ es) l h =
    let parts = both _ _ h in
    ap (edit_all es) (press_event-agree e l (parts.0))
    ∙ edit_all-plain es (press_event inserted e l) (parts.1)
