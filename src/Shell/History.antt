-- ===== src/Shell/History.antt =====
-- The history of shell.c: adding a command, and the up arrow.
use curnel.Prelude.{
  ℕ, suc, ◌+◌, ◌-◌, ◌<◌, ◌≤◌, ◌≡◌, ◌≢◌, ◌⊎◌, ◌∙◌, refl, ap, ap₂, true, false, inl, inr, Option,
  none, some, List, [], ◌∷◌, ◌++◌, length, get_or, set, take, ltb, ◌==◌, All, Bool-cases,
  Option-cases, arith, length-set, ==_iff,
}
use curnel.Memory.{Heap, kmalloc}
use curnel.Kernel.{Outcome, done, ◌>>=◌}
use curnel.Terminal.{strlen, writes}
use curnel.Coreutils.Compare.{Bytes}
use curnel.Coreutils.{FileApi, World, says, until_nul}
use curnel.Shell.{
  Shell, Saved, saved_address, shift_history, drop_oldest, append_history, strdup,
  shell_add_to_history, strcpy, index_up, shell_handle_up_arrow, shell_print_prompt, blanked,
  recall_found, recall, go_up,
}
use curnel.Shell.Editing.{IsValid, line}
use curnel.Shell.Kept.{
  shift_history-lem, take-set, kept, HasHistory, room_made, shifted, IsLast, Holds,
  same_as_last-IsLast,
}

module _ (free : Heap → ℕ → Option Heap)
    (frees : (h : Heap) (a : ℕ) → (h' : Heap) × (free h a ≡ some h')) where
  -- The heap once there is room: the string of the oldest of ten commands is freed.
  abbrev pub Freed : Heap → Shell → Heap → Type 0
  Freed h s h1 =
      ((s.history_count ≡ 10) × (free h (saved_address (get_or s.history 0 none)) ≡ some h1))
      ⊎ ((s.history_count < 10) × (h1 ≡ h))

  drop_oldest-lem :
      (h : Heap) (s : Shell)
      → HasHistory s
      → (h1 : Heap) × (hs : List (Option Saved)) × (n : ℕ) × (drop_oldest free h s
          ≡ done (h1, record s { history = hs; history_count = n }))
        × Freed h s h1
        × (n < 10)
        × (length hs ≡ 10)
        × (take n hs ≡ room_made s)
  unfolding drop_oldest
  drop_oldest-lem h s (full, few) = elim (Bool-cases (s.history_count == 10)) [
    | inl ten ↦
        let (h1, e) = frees h (saved_address (get_or s.history 0 none)) in
        let count : s.history_count ≡ 10 = (==_iff s.history_count 10).0 ten in
        rw (ten, e, count)
          (
            h1,
            shift_history 9 s.history 0,
            9,
            refl,
            inl (refl, refl),
            omega arith,
            (shift_history-lem 9 s.history 0 (omega (arith, full))).0 ∙ full,
            shifted s.history full,
          )
    | inr fewer ↦
        let low : s.history_count < 10 = ground (arith, fewer, few) in
        rw fewer (h, s.history, s.history_count, refl, inr (low, refl), low, full, refl)
  ]

  -- The pointer that is saved for a command, given the address of its copy.
  abbrev pub copy_at : Option ℕ → List ℕ → Option Saved
  copy_at none command = none
  copy_at (some a) command = some (record { address = a; bytes = until_nul command })

  strdup-copy :
      (h : Heap) (command : List ℕ)
      → strdup h command
        ≡ (copy_at (kmalloc h (strlen command + 1)).0 command, (kmalloc h (strlen command + 1)).1)
  unfolding strdup
  strdup-copy h command = elim (Option-cases (kmalloc h (strlen command + 1)).0) [
    | inl e ↦ rw (strdup, e) refl
    | inr (a, e) ↦ rw (strdup, e) refl
  ]

  -- What adding a command comes to.
  abbrev pub Adds : Heap → Shell → List ℕ → Type 0
  Adds h s command =
      (((strlen command ≡ 0) ⊎ IsLast (until_nul command) (kept s))
        × (shell_add_to_history free h s command ≡ done (h, s)))
      ⊎ ((strlen command ≢ 0)
          × (¬ IsLast (until_nul command) (kept s))
          × (h1 : Heap) × (hs : List (Option Saved)) × (n : ℕ) × Freed h s h1
          × (shell_add_to_history free h s command
              ≡ done (
                (kmalloc h1 (strlen command + 1)).1,
                record s { history = hs; history_count = n },
              ))
          × (length hs ≡ 10)
          × (n ≤ 10)
          × (take n hs ≡ room_made s ++ (copy_at (kmalloc h1 (strlen command + 1)).0 command ∷ [])))

  -- Adding a command to a history of at most ten commands that could all be saved, with a `free` that
  -- always returns: nothing changes if it is empty or its text is that of the newest command kept.
  -- Otherwise, once the string of the oldest has been freed if there are ten, a copy with its text is
  -- allocated and is the newest of the commands kept, behind the earlier ones in their order without the
  -- one dropped; if the copy cannot be allocated, NULL is kept in its place. There are at most ten, and
  -- nothing else changes.
  pub shell_add_to_history-Keeps :
      (h : Heap) (s : Shell) (command : List ℕ)
      → Bytes command
      → HasHistory s
      → All Holds (kept s)
      → Adds h s command
  unfolding shell_add_to_history append_history
  shell_add_to_history-Keeps h s command bytes valid all = elim (Bool-cases (strlen command == 0)) [
    | inl nothing ↦ inl (inl ((==_iff _ _).0 nothing), rw nothing refl)
    | inr something ↦
        let (same, e, means) = same_as_last-IsLast free s command bytes valid all in
        elim means [
          | inl (again, l) ↦ inl (inr l, rw (something, e, again) refl)
          | inr (new, other) ↦
              let (h1, hs, n, r, freed, few, full, made) = drop_oldest-lem h s valid in
              let copy = copy_at (kmalloc h1 (strlen command + 1)).0 command in
              let next : n + 1 ≡ suc n = omega arith in
              inr (
                λ z. ground (arith, something, z),
                other,
                h1,
                set hs n copy,
                n + 1,
                freed,
                rw (something, e, new, r, strdup-copy h1 command) refl,
                length-set hs n copy ∙ full,
                omega (arith, few),
                ap (λ c. take c (set hs n copy)) next
                    ∙ take-set n hs copy (omega (arith, few, full))
                    ∙ ap (λ ys. ys ++ (copy ∷ [])) made,
              )
        ]
  ]

-- `strcpy` to a buffer with room for the NUL.
strcpy-lem :
    (dest src : List ℕ)
    → strlen src < length dest
    → (b : List ℕ) × (strcpy dest src ≡ done b)
      × (length b ≡ length dest)
      × (until_nul b ≡ until_nul src)
      × (strlen b ≡ strlen src)
unfolding strcpy strlen until_nul
strcpy-lem [] src h = absurd (omega arith)
strcpy-lem (d ∷ dest) [] h = (0 ∷ dest, refl, refl, refl, refl)
strcpy-lem (d ∷ dest) (c ∷ src) h = elim (Bool-cases (c == 0)) [
  | inl nul ↦ rw nul (0 ∷ dest, refl, refl, refl, refl)
  | inr byte ↦
      let (b, e, l, t, n) = strcpy-lem dest src (ground (arith, byte)) in
      rw (byte, e) (c ∷ b, refl, ap suc l, rw byte (ap (λ r. c ∷ r) t), rw byte (ap suc n))
]

-- The up arrow moves to place `i` of the history.
abbrev pub Older : Shell → ℕ → Type 0
Older s i =
    (0 < s.history_count)
    × (((s.history_index ≡ none) × (s.history_count ≡ i + 1)) ⊎ (s.history_index ≡ some (i + 1)))

module _ {F : Type 0} (api : FileApi F) where
  prompt-keeps :
      (w : World F) (s : Shell)
      → (w' : World F) × (cwd : List ℕ) × (shell_print_prompt api w s
          ≡ (w', record s { cwd = cwd }))
  unfolding shell_print_prompt
  prompt-keeps w s = elim (Option-cases ((api.getcwd w.files 256).1)) [
    | inl none_found ↦ rw none_found (_, s.cwd, refl)
    | inr (path, found) ↦ rw found (_, path, refl)
  ]

  index_up-Older : (s : Shell) (i : ℕ) → Older s i → index_up api s ≡ some i
  index_up-Older s i (some_kept, inl (fresh, newest)) =
      let on : (s.history_count == 0) ≡ false = ground (arith, some_kept) in
      let at : s.history_count - 1 ≡ i = omega (arith, newest) in rw (on, fresh) (ap some at)
  index_up-Older s i (some_kept, inr moved) =
      let on : (s.history_count == 0) ≡ false = ground (arith, some_kept) in
      let below : i + 1 - 1 ≡ i = omega arith in
      let low : ltb 0 (i + 1) ≡ true = ground arith in rw (on, moved, low) (ap some below)

  -- When the up arrow moves to a string of the history that is shorter than 256 bytes, the line is that
  -- string with the cursor behind it, the shell stays valid, and the history is as before. The arrow
  -- moves to the newest string, or from one that it has moved to before to the one that is next older.
  pub up_arrow-Recalls :
      (w : World F) (s : Shell) (i : ℕ) (e : Saved)
      → IsValid s
      → Older s i
      → get_or s.history i none ≡ some e
      → strlen e.bytes < 256
      → (w' : World F) × (s' : Shell) × (shell_handle_up_arrow api w s ≡ done (w', s'))
        × IsValid s'
        × (line s' ≡ record { words = until_nul e.bytes; at = strlen e.bytes })
        × (s'.history_index ≡ some i)
        × (s'.history ≡ s.history)
        × (s'.history_count ≡ s.history_count)
  unfolding shell_handle_up_arrow
  up_arrow-Recalls w s i e valid older holds short =
      let moves = index_up-Older s i older in
      let s1 = record s { history_index = some i } in
      let (w2, cwd, r) = prompt-keeps (blanked api w s1) s1 in
      let s2 = record s1 { cwd = cwd } in
      let (b, copied, l, t, n) = strcpy-lem s.buffer e.bytes (omega (arith, valid.full)) in
      let full : length b ≡ 256 = l ∙ valid.full in
      let s' = record s2 { buffer = b; buffer_pos = strlen b } in
      (
        says w2 (writes b ∷ []),
        s',
        ap (go_up api w s) moves
            ∙ ap (recall api) r
            ∙ ap (recall_found api w2 s2) holds
            ∙ ap
                (λ (o : Outcome (List ℕ)). o >>= λ c.
                  done (says w2 (writes c ∷ []), record s2 { buffer = c; buffer_pos = strlen c }))
                copied,
        record { full = full; ends = omega (arith, n); inside = omega arith },
        ap₂ (λ ws p. record { words = ws; at = p }) t n,
        refl,
        refl,
        refl,
      )
