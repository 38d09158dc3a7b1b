-- ===== src/Coreutils/Dispatch.antt =====
-- execute_command of coreutils.c: which command a line runs, and on what.
use curnel.Prelude.{
  ℕ, suc, ◌<◌, ◌≡◌, ◌≢◌, ◌⊎◌, inl, inr, ◌∙◌, refl, sym, ap, false, none, some, List, [], ◌∷◌,
  length, get_elem?, ◌==◌, Bool-cases, All, text, arith, ==_iff,
}
use curnel.Kernel.{Kernel, Outcome, done, ◌>>=◌}
use curnel.Coreutils.{
  is_blank, FileApi, World, says, message, failure, strcmp, until_nul, parse_command_line,
}
use curnel.Coreutils.Words.{gather, first_and_rest, words, NoNul, parse_command_line-words}
use curnel.Coreutils.Compare.{Bytes, strcmp-zero}
use curnel.Coreutils.Commands.{
  Command, commands, find_command, call_func, run_found, run_command, execute_command,
}

-- What holds of the bytes of a line holds of the bytes of its words.
gather-All :
    (P : ℕ → Type 0) (w : List ℕ) (ws : List (List ℕ))
    → All P w
    → All (All P) ws
    → All (All P) (gather w ws)
unfolding gather
gather-All P [] ws h hs = hs
gather-All P (x ∷ xs) ws h hs = (h, hs)

first_and_rest-All :
    (P : ℕ → Type 0) (s : List ℕ)
    → All P s
    → All P ((first_and_rest s).0) × All (All P) ((first_and_rest s).1)
unfolding first_and_rest
first_and_rest-All P [] h = (tt, tt)
first_and_rest-All P (c ∷ s) h =
    let (a, b) = first_and_rest-All P s (h.1) in
    elim (Bool-cases (is_blank c)) [
      | inl blank ↦ rw blank (tt, gather-All P ((first_and_rest s).0) ((first_and_rest s).1) a b)
      | inr letter ↦ rw letter ((h.0, a), b)
    ]

words-All : (P : ℕ → Type 0) (s : List ℕ) → All P s → All (All P) (words s)
unfolding words
words-All P s h =
    let (a, b) = first_and_rest-All P s h in
    gather-All P ((first_and_rest s).0) ((first_and_rest s).1) a b

until_nul-NoNul : (s : List ℕ) → NoNul s → until_nul s ≡ s
unfolding until_nul
until_nul-NoNul [] h = refl
until_nul-NoNul (c ∷ s) h =
    let some_byte : c ≢ 0 = h.0 in
    let e : (c == 0) ≡ false = ground (arith, some_byte) in
    rw e (ap (λ r. c ∷ r) (until_nul-NoNul s (h.1)))

abbrev Text : List ℕ → Type 0
Text s = NoNul s × Bytes s

strcmp-Text :
    (s t : List ℕ) → Text s → Text t → ((strcmp s t ≡ 0) → (s ≡ t)) × ((s ≡ t) → (strcmp s t ≡ 0))
strcmp-Text s t (a, b) (c, d) =
    let (to, from) = strcmp-zero s t b d in
    (λ e. sym (until_nul-NoNul s a) ∙ to e ∙ until_nul-NoNul t c, λ e. from (ap until_nul e))

-- A command is found by its name, and it is in the table; or no name in the table is this one.
abbrev Found : List ℕ → List Command → Type 0
Found s cs =
    ((c : Command) × (find_command s cs ≡ some c)
      × ((i : ℕ) × (get_elem? cs i ≡ some c))
      × (s ≡ c.name))
    ⊎ ((find_command s cs ≡ none) × All (λ c. s ≢ c.name) cs)

find_command-Found :
    (s : List ℕ) (cs : List Command) → Text s → All (λ c. Text c.name) cs → Found s cs
unfolding find_command
find_command-Found s [] h hs = inr (refl, tt)
find_command-Found s (c ∷ cs) h hs =
    let (to, from) = strcmp-Text s c.name h (hs.0) in
    elim (Bool-cases (strcmp s c.name == 0)) [
      | inl same ↦ rw same (inl (c, refl, (0, refl), to ((==_iff (strcmp s c.name) 0).0 same)))
      | inr other ↦
          let differs : s ≢ c.name = λ e. ground (arith, other, from e) in
          rw other (elim (find_command-Found s cs h (hs.1)) [
            | inl (d, e, (i, at), name) ↦ inl (d, e, (suc i, at), name)
            | inr (e, all) ↦ inr (e, (differs, all))
          ])
    ]

commands-Text : All (λ c. Text c.name) commands
unfolding text commands
commands-Text = omega arith

module _ {F : Type 0} (api : FileApi F) (call_handler : ℕ → ℕ → Kernel → Kernel)
    (interrupt : Kernel → Outcome Kernel) (f : ℕ) (w : World F) where
  -- What the words of a line come to.
  abbrev pub Dispatches : List (List ℕ) → Outcome (World F × ℕ) → Type 0
  Dispatches [] r = r ≡ done (w, 0)
  Dispatches (name ∷ rest) r =
      ((c : Command) × ((i : ℕ) × (get_elem? commands i ≡ some c))
        × (name ≡ c.name)
        × (r ≡ call_func api call_handler interrupt f c.func w (name ∷ rest)))
      ⊎ (All (λ c. name ≢ c.name) commands
          × (r ≡ done (says w (message (text "Komut bulunamadi: ") name), failure)))

  run_command-Dispatches :
      (ws : List (List ℕ))
      → All Text ws
      → Dispatches ws (run_command api call_handler interrupt f w ws)
  unfolding run_command
  run_command-Dispatches [] h = refl
  run_command-Dispatches (name ∷ rest) h =
      elim (find_command-Found name commands (h.0) commands-Text) [
        | inl (c, e, at, same) ↦
            inl (c, at, same, ap (run_found api call_handler interrupt f w name rest) e)
        | inr (e, all) ↦ inr (all, ap (run_found api call_handler interrupt f w name rest) e)
      ]

  both : (ws : List (List ℕ)) → All NoNul ws → All Bytes ws → All Text ws
  both [] a b = tt
  both (s ∷ ws) a b = ((a.0, b.0), both ws (a.1) (b.1))

  -- execute_command on a line with no NUL and at most 62 words acts on the words: with none it does
  -- nothing and returns 0; if the first is a name in the table, it calls this command's function with
  -- the words; if it is none of these names, it prints so and returns -1.
  pub execute_command-Dispatches :
      (line : List ℕ)
      → NoNul line
      → Bytes line
      → length (words line) < 63
      → (r : Outcome (World F × ℕ)) × Dispatches (words line) r
        × (execute_command api call_handler interrupt f w line
            ≡ (r >>= λ q. done (q.0, q.1, (parse_command_line line 64).0)))
  unfolding execute_command
  execute_command-Dispatches line no_nul bytes few = (
    run_command api call_handler interrupt f w (words line),
    run_command-Dispatches (words line) (
        both (words line) (words-All (λ c. c ≢ 0) line no_nul)
          (words-All (λ c. c < 256) line bytes)),
    ap
        (λ ws. run_command api call_handler interrupt f w ws >>= λ (q : World F × ℕ).
          done (q.0, q.1, (parse_command_line line 64).0))
        (parse_command_line-words line 64 no_nul (omega arith)),
  )
