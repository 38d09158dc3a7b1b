-- ===== src/Coreutils/Words.antt =====
-- parse_command_line of coreutils.c against a plain splitting at blanks.
use curnel.Prelude.{
  ℕ, suc, ◌+◌, ◌-◌, ◌<◌, ◌≤◌, ◌≡◌, ◌≢◌, ◌∙◌, refl, sym, ap, ap₂, subst, Bool, true, false, ◌||◌,
  inl, inr, List, [], ◌∷◌, length, drop, ◌==◌, if◌then◌else◌, Bool-cases, All, arith,
}
use curnel.Coreutils.{is_blank, parse_loop, parse_command_line, until_nul, strings_at}

-- The bytes before the first blank, if there are any, are one more word.
unfoldable pub gather : List ℕ → List (List ℕ) → List (List ℕ)
gather [] ws = ws
gather (x ∷ xs) ws = (x ∷ xs) ∷ ws

-- The bytes up to the first blank, and the words behind it.
unfoldable pub first_and_rest : List ℕ → List ℕ × List (List ℕ)
first_and_rest [] = ([], [])
first_and_rest (c ∷ s) =
    let rest = first_and_rest s in
    if is_blank c then ([], gather (rest.0) (rest.1)) else (c ∷ rest.0, rest.1)

-- The words of a text.
unfoldable pub words : List ℕ → List (List ℕ)
words s = gather ((first_and_rest s).0) ((first_and_rest s).1)

first-blank : (c : ℕ) (s : List ℕ) → is_blank c ≡ true → first_and_rest (c ∷ s) ≡ ([], words s)
unfolding first_and_rest words
first-blank c s e = rw e refl

first-other :
    (c : ℕ) (s : List ℕ)
    → is_blank c ≡ false
    → first_and_rest (c ∷ s) ≡ (c ∷ (first_and_rest s).0, (first_and_rest s).1)
unfolding first_and_rest
first-other c s e = rw e refl

words-blank : (c : ℕ) (s : List ℕ) → is_blank c ≡ true → words (c ∷ s) ≡ words s
unfolding words gather
words-blank c s e = ap (λ (p : List ℕ × List (List ℕ)). gather (p.0) (p.1)) (first-blank c s e)

words-other :
    (c : ℕ) (s : List ℕ)
    → is_blank c ≡ false
    → words (c ∷ s) ≡ (c ∷ (first_and_rest s).0) ∷ (first_and_rest s).1
unfolding words gather
words-other c s e = ap (λ (p : List ℕ × List (List ℕ)). gather (p.0) (p.1)) (first-other c s e)

-- What the loop does at a byte that is no NUL, with room left.
module _ (c : ℕ) (s : List ℕ) (i room : ℕ) (some_byte : c ≢ 0) (some_room : 0 < room) where
  stop : (c == 0 || room == 0) ≡ false
  stop = ground (arith, some_byte, some_room)

  at_blank :
      (in_word : Bool)
      → is_blank c ≡ true
      → parse_loop (c ∷ s) i in_word room ≡ (
          let rest = parse_loop s (i + 1) false room in
          ((if in_word then 0 else c) ∷ rest.0, rest.1))
  unfolding parse_loop
  at_blank in_word e = rw (stop, e) refl

  at_letter :
      is_blank c ≡ false
      → parse_loop (c ∷ s) i true room
        ≡ (let rest = parse_loop s (i + 1) true room in (c ∷ rest.0, rest.1))
  unfolding parse_loop
  at_letter e = rw (stop, e) refl

  at_start :
      is_blank c ≡ false
      → parse_loop (c ∷ s) i false room
        ≡ (let rest = parse_loop s (i + 1) true (room - 1) in (c ∷ rest.0, i ∷ rest.1))
  unfolding parse_loop
  at_start e = rw (stop, e) refl

-- The strings at these places of a text whose first byte is number `i`.
strings_from : ℕ → List ℕ → List ℕ → List (List ℕ)
strings_from i b [] = []
strings_from i b (o ∷ os) = until_nul (drop (o - i) b) ∷ strings_from i b os

strings_from-zero : (b os : List ℕ) → strings_from 0 b os ≡ strings_at b os
unfolding strings_from strings_at
strings_from-zero b [] = refl
strings_from-zero b (o ∷ os) =
    let e : o - 0 ≡ o = omega arith in
    rw e (ap (λ r. until_nul (drop o b) ∷ r) (strings_from-zero b os))

strings_from-cons :
    (i x : ℕ) (b os : List ℕ)
    → All (λ o. i + 1 ≤ o) os
    → strings_from i (x ∷ b) os ≡ strings_from (i + 1) b os
unfolding strings_from
strings_from-cons i x b [] h = refl
strings_from-cons i x b (o ∷ os) h =
    let low : i + 1 ≤ o = h.0 in
    let e : o - i ≡ suc (o - (i + 1)) = omega (arith, low) in
    rw e (ap (λ r. until_nul (drop (o - (i + 1)) b) ∷ r) (strings_from-cons i x b os (h.1)))

later : (i : ℕ) (os : List ℕ) → All (λ o. i + 1 ≤ o) os → All (λ o. i ≤ o) os
later i [] h = h
later i (o ∷ os) h = (let low : i + 1 ≤ o = h.0 in omega (arith, low), later i os (h.1))

abbrev Shows : ℕ → List ℕ × List ℕ → List (List ℕ) → Type 0
Shows i p ws = (strings_from i (p.0) (p.1) ≡ ws) × All (λ o. i ≤ o) (p.1)

Shows-cons :
    (i x : ℕ) (p : List ℕ × List ℕ) (ws : List (List ℕ))
    → Shows (i + 1) p ws
    → Shows i (x ∷ p.0, p.1) ws
Shows-cons i x p ws (e, low) = (strings_from-cons i x (p.0) (p.1) low ∙ e, later i (p.1) low)

abbrev pub NoNul : List ℕ → Type 0
NoNul = All (λ c. c ≢ 0)

-- Inside a word, the rest of the word ends at a NUL, and the arguments that follow are the words.
abbrev Inside : ℕ → List ℕ → ℕ → Type 0
Inside i s room =
    length ((first_and_rest s).1) < room
    → (until_nul ((parse_loop s i true room).0) ≡ (first_and_rest s).0)
      × Shows i (parse_loop s i true room) ((first_and_rest s).1)

abbrev Outside : ℕ → List ℕ → ℕ → Type 0
Outside i s room = length (words s) < room → Shows i (parse_loop s i false room) (words s)

until_nul-nul : (s : List ℕ) → until_nul (0 ∷ s) ≡ []
unfolding until_nul
until_nul-nul s = refl

until_nul-byte : (c : ℕ) (s : List ℕ) → c ≢ 0 → until_nul (c ∷ s) ≡ c ∷ until_nul s
unfolding until_nul
until_nul-byte c s h = let e : (c == 0) ≡ false = ground arith in rw e refl

strings_from-first :
    (i : ℕ) (b os : List ℕ) → strings_from i b (i ∷ os) ≡ until_nul b ∷ strings_from i b os
unfolding strings_from
strings_from-first i b os = let e : i - i ≡ 0 = omega arith in rw e refl

module _ (c : ℕ) (s : List ℕ) (i room : ℕ) (some_byte : c ≢ 0)
    (inside : (room : ℕ) → Inside (i + 1) s room)
    (outside : (room : ℕ) → Outside (i + 1) s room) where
  Inside-step : Inside i (c ∷ s) room
  Inside-step few = elim (Bool-cases (is_blank c)) [
    | inl blank ↦
        let e = first-blank c s blank in
        let fits : length (words s) < room =
          subst (λ (p : List ℕ × List (List ℕ)). length (p.1) < room) e few in
        rw (at_blank c s i room some_byte (omega arith) true blank, e)
          (
            until_nul-nul _,
            Shows-cons i 0 (parse_loop s (i + 1) false room) (words s) (outside room fits),
          )
    | inr letter ↦
        let e = first-other c s letter in
        let fits : length ((first_and_rest s).1) < room =
          subst (λ (p : List ℕ × List (List ℕ)). length (p.1) < room) e few in
        let (word, shown) = inside room fits in
        rw (at_letter c s i room some_byte (omega arith) letter, e)
          (
            until_nul-byte c _ some_byte ∙ ap (λ w. c ∷ w) word,
            Shows-cons i c (parse_loop s (i + 1) true room) ((first_and_rest s).1) shown,
          )
  ]

  Outside-step : Outside i (c ∷ s) room
  Outside-step few = elim (Bool-cases (is_blank c)) [
    | inl blank ↦
        let e = words-blank c s blank in
        rw (at_blank c s i room some_byte (omega arith) false blank, e)
          (Shows-cons i c (parse_loop s (i + 1) false room) (words s)
            (outside room (subst (λ ws. length ws < room) e few)))
    | inr letter ↦
        let e = words-other c s letter in
        let fits : suc (length ((first_and_rest s).1)) < room =
          subst (λ ws. length ws < room) e few in
        let p = parse_loop s (i + 1) true (room - 1) in
        let (word, shown) = inside (room - 1) (omega (arith, fits)) in
        let (same, low) = Shows-cons i c p ((first_and_rest s).1) shown in
        rw (at_start c s i room some_byte (omega arith) letter, e)
          (
            strings_from-first i (c ∷ p.0) (p.1)
                ∙ ap₂ (λ w ws. w ∷ ws) (until_nul-byte c (p.0) some_byte ∙ ap (λ w. c ∷ w) word)
                    same,
            (omega arith, low),
          )
  ]

parse_loop-Shows :
    (s : List ℕ) (i : ℕ)
    → NoNul s
    → ((room : ℕ) → Inside i s room) × ((room : ℕ) → Outside i s room)
unfolding parse_loop first_and_rest words gather until_nul strings_from
parse_loop-Shows [] i h = (λ room few. (refl, (refl, tt)), λ room few. (refl, tt))
parse_loop-Shows (c ∷ s) i h =
    let (inside, outside) = parse_loop-Shows s (i + 1) (h.1) in
    (
      λ room. Inside-step c s i room (h.0) inside outside,
      λ room. Outside-step c s i room (h.0) inside outside,
    )

-- For a command line with no NUL in it and fewer words than `max_args - 1`, the arguments that
-- parse_command_line leaves are the words of the line, in their order.
pub parse_command_line-words :
    (line : List ℕ) (max_args : ℕ)
    → NoNul line
    → length (words line) + 1 < max_args
    → strings_at ((parse_command_line line max_args).0) ((parse_command_line line max_args).1)
      ≡ words line
unfolding parse_command_line
parse_command_line-words line max_args h few =
    let p = parse_loop line 0 false (max_args - 1) in
    sym (strings_from-zero (p.0) (p.1))
    ∙ ((parse_loop-Shows line 0 h).1 (max_args - 1) (omega arith)).0
