-- ===== src/Shell/Kept.antt =====
-- The commands that the history of shell.c keeps, the moving down, and the newest of them.
use mathlib.Core.Option.{some-injective}
use curnel.Prelude.{
  ℕ, zero, suc, ◌+◌, ◌-◌, ◌↔◌, length-append, ◌<◌, ◌≤◌, ◌≡◌, ◌⊎◌, ◌∙◌, refl, sym, ap, Bool, true,
  false, ◌&&◌, inl, inr, Option, none, some, List, [], ◌∷◌, ◌++◌, length, get_or, set, take, drop,
  ltb, leb, ◌==◌, All, if◌then◌else◌, Bool-cases, arith, length-set, get_or-set_self, get_or-set_ne,
  get_or-ext, length-take, length-drop, get_or-take, get_or-drop,
}
use curnel.Memory.{Heap}
use curnel.Kernel.{done}
use curnel.Coreutils.Compare.{Bytes, strcmp-zero}
use curnel.Coreutils.{strcmp, until_nul}
use curnel.Shell.{Shell, Saved, shift_history, same_as_last}

abbrev moved : List (Option Saved) → ℕ → ℕ → ℕ → Option Saved
moved hs i n k = if leb i k && ltb k (i + n) then get_or hs (k + 1) none else get_or hs k none

moved-step :
    (hs : List (Option Saved)) (i n k : ℕ)
    → i + suc n < length hs
    → moved (set hs i (get_or hs (i + 1) none)) (i + 1) n k ≡ moved hs i (suc n) k
moved-step hs i n k room = elim (Bool-cases (i == k)) [
  | inl hit ↦ ground (arith, hit, get_or-set_self hs i (get_or hs (i + 1) none) none)
  | inr miss ↦ ground (
    arith,
    miss,
    get_or-set_ne hs i k (get_or hs (i + 1) none) none,
    get_or-set_ne hs i (k + 1) (get_or hs (i + 1) none) none,
  )
]

pub shift_history-lem :
    (n : ℕ) (hs : List (Option Saved)) (i : ℕ)
    → i + n < length hs
    → (length (shift_history n hs i) ≡ length hs)
      × ((k : ℕ) → get_or (shift_history n hs i) k none ≡ moved hs i n k)
unfolding shift_history
shift_history-lem zero hs i room = (refl, λ k. ground arith)
shift_history-lem (suc n) hs i room =
    let hs1 = set hs i (get_or hs (i + 1) none) in
    let size : length hs1 ≡ length hs = length-set hs i (get_or hs (i + 1) none) in
    let (a, b) = shift_history-lem n hs1 (i + 1) (omega (arith, size)) in
    (a ∙ size, λ k. b k ∙ moved-step hs i n k room)

pub take-set :
    {A : Type 0} (n : ℕ) (xs : List A) (v : A)
    → n < length xs
    → take (suc n) (set xs n v) ≡ take n xs ++ (v ∷ [])
take-set n [] v h = absurd (omega arith)
take-set zero (x ∷ xs) v h = refl
take-set (suc n) (x ∷ xs) v h = ap (λ ys. x ∷ ys) (take-set n xs v (omega arith))

-- The commands that are kept, the oldest first.
abbrev pub kept : Shell → List (Option Saved)
kept s = take s.history_count s.history

-- At most ten.
abbrev pub HasHistory : Shell → Type 0
HasHistory s = (length s.history ≡ 10) × (s.history_count ≤ 10)

-- What is kept once there is room for one more.
abbrev pub room_made : Shell → List (Option Saved)
room_made s = if s.history_count == 10 then drop 1 (kept s) else kept s

pub shifted :
    (hs : List (Option Saved))
    → length hs ≡ 10
    → take 9 (shift_history 9 hs 0) ≡ drop 1 (take 10 hs)
shifted hs full =
    let (a, b) = shift_history-lem 9 hs 0 (omega (arith, full)) in
    let size : length (take 9 (shift_history 9 hs 0)) ≡ 9 =
      length-take 9 _ (omega (arith, a, full)) in
    get_or-ext none _ _
      (size
        ∙ sym (length-drop 1 (take 10 hs) ∙ omega (arith, length-take 10 hs (omega (arith, full)))))
      λ k low.
        let l : k < 9 = omega (arith, size) in
        get_or-take 9 (shift_history 9 hs 0) k none l
        ∙ b k
        ∙ ground (arith, l, get_or-drop 1 (take 10 hs) k none, get_or-take 10 hs (1 + k) none)

-- The text of the newest command kept.
abbrev pub IsLast : List ℕ → List (Option Saved) → Type 0
IsLast text xs =
    (ys : List (Option Saved)) × (e : Saved) × (xs ≡ ys ++ (some e ∷ []))
    × (until_nul e.bytes ≡ text)

-- A string that could be saved.
abbrev pub Holds : Option Saved → Type 0
Holds o = (e : Saved) × (o ≡ some e) × Bytes e.bytes

last : List (Option Saved) → Option Saved
last [] = none
last (x ∷ []) = x
last (x ∷ y ∷ xs) = last (y ∷ xs)

last-append : (xs : List (Option Saved)) (x : Option Saved) → last (xs ++ (x ∷ [])) ≡ x
unfolding last
last-append [] x = refl
last-append (y ∷ []) x = refl
last-append (y ∷ z ∷ xs) x = last-append (z ∷ xs) x

All-at :
    (xs : List (Option Saved)) (i : ℕ) → All Holds xs → i < length xs → Holds (get_or xs i none)
All-at [] i h low = absurd (omega arith)
All-at (x ∷ xs) zero h low = h.0
All-at (x ∷ xs) (suc i) h low = All-at xs i (h.1) (omega arith)

take-last :
    (n : ℕ) (xs : List (Option Saved))
    → n < length xs
    → take (suc n) xs ≡ take n xs ++ (get_or xs n none ∷ [])
take-last n [] h = absurd (omega arith)
take-last zero (x ∷ xs) h = refl
take-last (suc n) (x ∷ xs) h = ap (λ ys. x ∷ ys) (take-last n xs (omega arith))

module _ (free : Heap → ℕ → Option Heap) where
  same_as_last-none :
      (s : Shell) (command : List ℕ)
      → (s.history_count == 0) ≡ true
      → same_as_last free s command ≡ done false
  unfolding same_as_last
  same_as_last-none s command h = rw (same_as_last, h) refl

  same_as_last-some :
      (s : Shell) (command : List ℕ) (e : Saved)
      → (s.history_count == 0) ≡ false
      → get_or s.history (s.history_count - 1) none ≡ some e
      → same_as_last free s command ≡ done (strcmp e.bytes command == 0)
  unfolding same_as_last
  same_as_last-some s command e h holds = rw (same_as_last, h, holds) refl

  kept-last :
      (s : Shell)
      → HasHistory s
      → (s.history_count == 0) ≡ false
      → kept s
        ≡ take (s.history_count - 1) s.history ++ (get_or s.history (s.history_count - 1) none ∷ [])
  kept-last s (full, few) something =
      let next : s.history_count ≡ suc (s.history_count - 1) = ground (arith, something) in
      ap (λ n. take n s.history) next
      ∙ take-last (s.history_count - 1) s.history (ground (arith, something, full, few))

  kept-IsLast :
      (s : Shell) (text : List ℕ) (e : Saved)
      → HasHistory s
      → (s.history_count == 0) ≡ false
      → get_or s.history (s.history_count - 1) none ≡ some e
      → IsLast text (kept s) ↔ (until_nul e.bytes ≡ text)
  kept-IsLast s text e valid something holds =
      let front = take (s.history_count - 1) s.history in
      let made : kept s ≡ front ++ (some e ∷ []) =
        kept-last s valid something ∙ ap (λ o. front ++ (o ∷ [])) holds in
      (
        λ (ys, e', made', text').
            let same : some e' ≡ some e =
              sym (last-append ys (some e'))
              ∙ ap last (sym made' ∙ made)
              ∙ last-append front (some e) in
            ap (λ (d : Saved). until_nul d.bytes) (sym (some-injective _ _ same)) ∙ text',
        λ same. (front, e, made, same),
      )

  -- The comparison is with the text of the newest command.
  pub same_as_last-IsLast :
      (s : Shell) (command : List ℕ)
      → Bytes command
      → HasHistory s
      → All Holds (kept s)
      → (same : Bool) × (same_as_last free s command ≡ done same)
        × (((same ≡ true) × IsLast (until_nul command) (kept s))
            ⊎ ((same ≡ false) × ¬ IsLast (until_nul command) (kept s)))
  same_as_last-IsLast s command bytes (full, few) all = elim (Bool-cases (s.history_count == 0)) [
    | inl nothing ↦
        let zero_kept : s.history_count ≡ 0 = ground (arith, nothing) in
        (
          false,
          same_as_last-none s command nothing,
          inr (
            refl,
            λ (ys, e, made, text).
                let size : length (kept s) ≡ 0 = ap (λ n. length (take n s.history)) zero_kept in
                omega (arith, size, ap length made, length-append ys (some e ∷ [])),
          ),
        )
    | inr something ↦
        let n : length (kept s) ≡ s.history_count =
          length-take s.history_count s.history (omega (arith, full, few)) in
        let (e, here, saved) =
          All-at (kept s) (s.history_count - 1) all (ground (arith, something, n)) in
        let holds : get_or s.history (s.history_count - 1) none ≡ some e =
          sym (
            get_or-take s.history_count s.history (s.history_count - 1) none
              (ground (arith, something)))
          ∙ here in
        let means = kept-IsLast s (until_nul command) e (full, few) something holds in
        let equal = strcmp-zero e.bytes command saved bytes in
        (
          strcmp e.bytes command == 0,
          same_as_last-some s command e something holds,
          elim (Bool-cases (strcmp e.bytes command == 0)) [
            | inl same ↦ inl (same, means.1 (equal.0 (ground (arith, same))))
            | inr other ↦ inr (other, λ l. ground (arith, other, equal.1 (means.0 l)))
          ],
        )
  ]
