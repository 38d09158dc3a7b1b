-- ===== src/Syscall/Table.antt =====
-- The table of system calls of syscall.c, against the numbers of syscall.h.
use mathlib.Core.Option.{some-injective}
use curnel.Prelude.{
  ◌==◌, ℕ, zero, suc, ◌+◌, ◌-◌, ◌<◌, ◌≤◌, ◌≡◌, ◌⊎◌, ◌∙◌, refl, sym, ap, subst, Bool, true, false,
  ◌&&◌, Option, none, some, List, [], ◌∷◌, length, get_or, take, drop, ltb, inl, inr, All, arith,
  get_or-All, get_or-take, get_or-drop, get_or-replicate,
}
use curnel.Syscall.Handler.{SysCall, number, syscall_table, exit}

abbrev IsSome : Option SysCall → Type 0
IsSome o = (c : SysCall) × (o ≡ some c)

calls : List (Option SysCall)
calls = take 26 (drop 1 syscall_table)

all_some : List (Option SysCall) → Bool
all_some [] = true
all_some (none ∷ cs) = false
all_some (some c ∷ cs) = all_some cs

all_some-All : (cs : List (Option SysCall)) → all_some cs ≡ true → All IsSome cs
unfolding all_some
all_some-All [] h = tt
all_some-All (none ∷ cs) h = absurd (cc)
all_some-All (some c ∷ cs) h = ((c, refl), all_some-All cs h)

calls_some : all_some calls ≡ true
unfolding all_some calls syscall_table
calls_some = refl

get_or-default :
    (xs : List (Option SysCall)) (i : ℕ) (d e : Option SysCall)
    → i < length xs
    → get_or xs i d ≡ get_or xs i e
get_or-default [] i d e h = absurd (omega arith)
get_or-default (x ∷ xs) zero d e h = refl
get_or-default (x ∷ xs) (suc i) d e h = get_or-default xs i d e (omega arith)

pub in_table : (n : ℕ) → 0 < n → n < 27 → IsSome (get_or syscall_table n none)
unfolding calls syscall_table
in_table n low high =
    let e : 1 + (n - 1) ≡ n = omega arith in
    let short : n - 1 < length calls = omega arith in
    subst IsSome
      (get_or-default calls (n - 1) (some exit) none short
        ∙ get_or-take 26 (drop 1 syscall_table) (n - 1) none (omega arith)
        ∙ get_or-drop 1 syscall_table (n - 1) none
        ∙ ap (λ i. get_or syscall_table i none) e)
      (get_or-All IsSome calls (n - 1) (some exit) (exit, refl) (all_some-All calls calls_some))

past_table : (n : ℕ) → 27 ≤ n → get_or syscall_table n none ≡ none
unfolding syscall_table
past_table n high =
    let e : 27 + (n - 27) ≡ n = omega arith in
    ap (λ i. get_or syscall_table i none) (sym e)
    ∙ sym (get_or-drop 27 syscall_table (n - 27) none)
    ∙ get_or-replicate 37 (n - 27) none

pub empty : (n : ℕ) → (n ≡ 0) ⊎ (27 ≤ n) → get_or syscall_table n none ≡ none
unfolding syscall_table
empty n (inl z) = ap (λ i. get_or syscall_table i none) z
empty n (inr high) = past_table n high

pub out_of_table : (n : ℕ) → (ltb 0 n && ltb n 27) ≡ false → (n ≡ 0) ⊎ (27 ≤ n)
out_of_table zero h = inl refl
out_of_table (suc n) h = inr (ground arith)

-- The table has each call at its number.
numbered : ℕ → List (Option SysCall) → Bool
numbered i [] = true
numbered i (none ∷ cs) = numbered (i + 1) cs
numbered i (some c ∷ cs) = let rest = numbered (i + 1) cs in number c == i && rest

numbered-number :
    (i : ℕ) (cs : List (Option SysCall)) (n : ℕ) (c : SysCall)
    → numbered i cs ≡ true
    → get_or cs n none ≡ some c
    → number c ≡ i + n
unfolding numbered
numbered-number i [] n c h e = absurd (cc)
numbered-number i (none ∷ cs) zero c h e = absurd (cc)
numbered-number i (none ∷ cs) (suc n) c h e = omega (arith, numbered-number (i + 1) cs n c h e)
numbered-number i (some d ∷ cs) zero c h e =
    let same : number d ≡ i = ground (arith, h) in
    ap number (sym (some-injective d c e)) ∙ omega (arith, same)
numbered-number i (some d ∷ cs) (suc n) c h e =
    omega (arith, numbered-number (i + 1) cs n c (ground (arith, h)) e)

table-numbered : numbered 0 syscall_table ≡ true
unfolding numbered syscall_table
table-numbered = refl

pub table-number : (n : ℕ) (c : SysCall) → get_or syscall_table n none ≡ some c → number c ≡ n
table-number n c e = omega (arith, numbered-number 0 syscall_table n c table-numbered e)
