-- ===== src/Process/Pids.antt =====
-- The pid column of the process table of process.c when one entry changes.
use curnel.Prelude.{
  ℕ, zero, suc, ◌+◌, ◌<◌, ◌≡◌, ◌≢◌, refl, sym, ap, ◌∙◌, none, some, List, [], ◌∷◌, length, get_or,
  modify, set, get_or-set_self, get_or-set_ne, length-set, ◌==◌, arith, All, Bool-cases,
  Option-cases, inl, inr,
}
use curnel.Kernel.{Process}
use curnel.Process.Table.{pids, find_in, count_free, Distinct}

All-fresh-weaken : (xs : List ℕ) (n m : ℕ) → n < m → All (λ x. x < n) xs → All (λ x. x < m) xs
All-fresh-weaken [] n m h a = tt
All-fresh-weaken (x ∷ xs) n m h a = (omega arith, All-fresh-weaken xs n m h a.1)

pub count_free-set :
    (xs : List ℕ) (i x : ℕ)
    → find_in 0 xs ≡ some i
    → x ≢ 0
    → count_free (set xs i x) + 1 ≡ count_free xs
count_free-set [] i x h used = absurd (cc)
count_free-set (y ∷ ys) zero x h used = elim (Option-cases (find_in 0 ys)) [
  | inl e ↦ ground arith
  | inr (j, e) ↦ ground arith
]
count_free-set (y ∷ ys) (suc i) x h used = elim (Option-cases (find_in 0 ys)) [
  | inl e ↦ absurd (ground arith)
  | inr (j, e) ↦
      let same : j ≡ i = ground arith in
      ground (arith, count_free-set ys i x (e ∙ ap some same) used)
]

pub pids-fill :
    (ps : List Process) (i : ℕ) (f : Process → Process) (x : ℕ)
    → ((p : Process) → (f p).pid ≡ x)
    → pids (modify ps i f) ≡ set (pids ps) i x
pids-fill [] i f x h = refl
pids-fill (p ∷ ps) zero f x h = ap (λ y. y ∷ pids ps) (h p)
pids-fill (p ∷ ps) (suc i) f x h = ap (λ ys. p.pid ∷ ys) (pids-fill ps i f x h)

pub All-fresh-set :
    (xs : List ℕ) (i n m : ℕ) → n < m → All (λ x. x < n) xs → All (λ x. x < m) (set xs i n)
All-fresh-set [] i n m h a = tt
All-fresh-set (x ∷ xs) zero n m h a = (h, All-fresh-weaken xs n m h a.1)
All-fresh-set (x ∷ xs) (suc i) n m h a = (omega arith, All-fresh-set xs i n m h a.1)

pub not_found : (xs : List ℕ) (n : ℕ) → All (λ x. x < n) xs → find_in n xs ≡ none
not_found [] n a = refl
not_found (x ∷ xs) n a = ground (arith, not_found xs n a.1)

pub find_in-set_self :
    (xs : List ℕ) (i n : ℕ) → i < length xs → All (λ x. x < n) xs → find_in n (set xs i n) ≡ some i
find_in-set_self [] i n low a = absurd (omega arith)
find_in-set_self (x ∷ xs) zero n low a = ground arith
find_in-set_self (x ∷ xs) (suc i) n low a =
    ground (arith, find_in-set_self xs i n (omega arith) a.1)

find_in-set_ne :
    (xs : List ℕ) (i n j x : ℕ)
    → n ≢ x
    → j ≢ i
    → find_in x xs ≡ some j
    → find_in x (set xs i n) ≡ some j
find_in-set_ne [] i n j x ne far h = absurd (cc)
find_in-set_ne (y ∷ ys) zero n j x ne far h = ground arith
find_in-set_ne (y ∷ ys) (suc i) n zero x ne far h = elim (Option-cases (find_in x ys)) [
  | inl e ↦ ground arith
  | inr (m, e) ↦ ground arith
]
find_in-set_ne (y ∷ ys) (suc i) n (suc j) x ne far h = elim (Option-cases (find_in x ys)) [
  | inl e ↦ absurd (ground arith)
  | inr (m, e) ↦
      let same : m ≡ j = ground arith in
      ground (arith, find_in-set_ne ys i n j x ne (λ q. far (ap suc q)) (e ∙ ap some same))
]

-- Filling the free entry `i` with a new pid keeps the pids apart.
pub Distinct-set :
    (xs : List ℕ) (i n : ℕ) → n ≢ 0 → All (λ x. x < n) xs → Distinct xs → Distinct (set xs i n)
Distinct-set xs i n pos a d j low used = elim (Bool-cases (j == i)) [
  | inl hit ↦
      let same : j ≡ i = ground arith in
      rw same (
        rw (get_or-set_self xs i n 0 (omega (arith, length-set xs i n)))
          (find_in-set_self xs i n (omega (arith, length-set xs i n)) a))
  | inr miss ↦
      let far : j ≢ i = ground arith in
      let old : get_or (set xs i n) j 0 ≡ get_or xs j 0 =
        get_or-set_ne xs i j n 0 (λ e. far (sym e)) in
      let low' : j < length xs = omega (arith, length-set xs i n) in
      rw old (
        find_in-set_ne xs i n j (get_or xs j 0) (λ e. omega (arith, below xs j n low' a)) far
          (d j low' (λ e. used (old ∙ e))))
]
  where
    below : (ys : List ℕ) (m b : ℕ) → m < length ys → All (λ x. x < b) ys → get_or ys m 0 < b
    below [] m b h q = absurd (omega arith)
    below (y ∷ ys) zero b h q = q.0
    below (y ∷ ys) (suc m) b h q = below ys m b (omega arith) q.1
