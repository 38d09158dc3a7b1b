-- ===== src/Process/Table.antt =====
-- The process table of process.c: what keeps its pids apart.
use mathlib.Core.Option
use curnel.Prelude.{
  ℕ, zero, suc, ◌+◌, ◌<◌, ◌≡◌, ◌≢◌, refl, sym, ap, subst, ◌∙◌, Option, none, some, List, [], ◌∷◌,
  length, get_or, modify, ◌==◌, if◌then◌else◌, arith, All, Option-cases, inl, inr,
}
use curnel.Kernel.{max_processes, Process, blank, Kernel, entry, update}
use curnel.Process.{find_pid}

-- The pid column.
abbrev pub pids : List Process → List ℕ
pids [] = []
pids (p ∷ ps) = p.pid ∷ pids ps

abbrev pub find_in : ℕ → List ℕ → Option ℕ
find_in pid [] = none
find_in pid (x ∷ xs) = if x == pid then some 0 else Option.map (λ i. i + 1) (find_in pid xs)

pub find_pid-find_in : (pid : ℕ) (ps : List Process) → find_pid pid ps ≡ find_in pid (pids ps)
unfolding find_pid
find_pid-find_in pid [] = refl
find_pid-find_in pid (p ∷ ps) = rw (find_pid-find_in pid ps)

pub length-pids : (ps : List Process) → length (pids ps) ≡ length ps
length-pids [] = refl
length-pids (p ∷ ps) = ap suc (length-pids ps)

get_or-pids : (ps : List Process) (i : ℕ) → get_or (pids ps) i 0 ≡ (get_or ps i blank).pid
get_or-pids [] i = unfold blank in refl
get_or-pids (p ∷ ps) zero = refl
get_or-pids (p ∷ ps) (suc i) = get_or-pids ps i

pub pids-modify :
    (ps : List Process) (i : ℕ) (f : Process → Process)
    → ((p : Process) → (f p).pid ≡ p.pid)
    → pids (modify ps i f) ≡ pids ps
pids-modify [] i f h = refl
pids-modify (p ∷ ps) zero f h = ap (λ x. x ∷ pids ps) (h p)
pids-modify (p ∷ ps) (suc i) f h = ap (λ xs. p.pid ∷ xs) (pids-modify ps i f h)

-- The entries that were never given a pid.
abbrev pub count_free : List ℕ → ℕ
count_free [] = 0
count_free (x ∷ xs) = let rest = count_free xs in if x == 0 then rest + 1 else rest

-- No pid stands in two entries.
abbrev pub Distinct : List ℕ → Type 0
Distinct xs = (i : ℕ) → i < length xs → get_or xs i 0 ≢ 0 → find_in (get_or xs i 0) xs ≡ some i

-- The pids in use are different and below the next one, and each pid given out still has its entry.
pub record IsTable (xs : List ℕ) (next_pid : ℕ) : Type 0 where
  pub full : length xs ≡ max_processes
  pub distinct : Distinct xs
  pub fresh : All (λ x. x < next_pid) xs
  pub counted : next_pid + count_free xs ≡ max_processes + 1

pub record IsValid (k : Kernel) : Type 0 where
  pub table : IsTable (pids k.processes) k.next_pid
  pub current : k.current_process_index < max_processes
  pub quiet : All (λ p. p.exit_signal ≡ 0) k.processes

All-modify {ℓ} :
    (P : Process → Type ℓ) (ps : List Process) (i : ℕ) (f : Process → Process)
    → ((p : Process) → P p → P (f p))
    → All P ps
    → All P (modify ps i f)
All-modify P [] i f h a = a
All-modify P (p ∷ ps) zero f h a = (h p a.0, a.1)
All-modify P (p ∷ ps) (suc i) f h a = (a.0, All-modify P ps i f h a.1)

-- A write to one entry that leaves its pid and its exit signal alone keeps the table valid.
pub update-IsValid :
    (k : Kernel) (i : ℕ) (f : Process → Process)
    → ((p : Process) → (f p).pid ≡ p.pid)
    → ((p : Process) → (f p).exit_signal ≡ p.exit_signal)
    → IsValid k
    → IsValid (update k i f)
update-IsValid k i f hp he v = record {
  table = subst (λ xs. IsTable xs k.next_pid) (sym (pids-modify k.processes i f hp)) v.table;
  current = v.current;
  quiet = All-modify (λ p. p.exit_signal ≡ 0) k.processes i f (λ p q. he p ∙ q) v.quiet;
}

find_in_bound :
    (x i : ℕ) (xs : List ℕ) → find_in x xs ≡ some i → (i < length xs) × (get_or xs i 0 ≡ x)
find_in_bound x i [] h = absurd (cc)
find_in_bound x zero (y ∷ xs) h = elim (Option-cases (find_in x xs)) [
  | inl e ↦ ground arith
  | inr (j, e) ↦ ground arith
]
find_in_bound x (suc i) (y ∷ xs) h = elim (Option-cases (find_in x xs)) [
  | inl e ↦ absurd (ground arith)
  | inr (j, e) ↦
      let same : j ≡ i = ground arith in omega (arith, find_in_bound x i xs (e ∙ ap some same))
]

-- What the search finds is an entry with that pid.
pub find_pid-some :
    (pid i : ℕ) (ps : List Process)
    → find_pid pid ps ≡ some i
    → (i < length ps) × ((get_or ps i blank).pid ≡ pid)
find_pid-some pid i ps h = omega (
  arith,
  find_in_bound pid i (pids ps) (sym (find_pid-find_in pid ps) ∙ h),
  length-pids ps,
  get_or-pids ps i,
)

-- A process is found again by its own pid.
pub find_pid_self :
    (k : Kernel) (i : ℕ)
    → IsValid k
    → i < max_processes
    → (entry k i).pid ≢ 0
    → find_pid (entry k i).pid k.processes ≡ some i
find_pid_self k i v low used =
    let at : get_or (pids k.processes) i 0 ≡ (entry k i).pid = get_or-pids k.processes i in
    find_pid-find_in (entry k i).pid k.processes
    ∙ subst (λ x. find_in x (pids k.processes) ≡ some i) at
        (v.table.distinct i (omega (arith, v.table.full)) (λ z. used (sym at ∙ z)))

pub length-processes : (k : Kernel) → IsValid k → length k.processes ≡ max_processes
length-processes k v = sym (length-pids k.processes) ∙ v.table.full
