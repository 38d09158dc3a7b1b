-- ===== src/Scheduler/Count.antt =====
-- How many entries schedule of process.c may choose from.
use curnel.Prelude.{
  ℕ, zero, suc, ◌+◌, ◌≡◌, refl, ap, Bool, true, false, List, [], ◌∷◌, length, get_or, set, modify,
  if◌then◌else◌, arith, ◌≤◌,
}
use curnel.Kernel.{Process, blank, Kernel}
use curnel.Scheduler.{is_runnable, orphan}

abbrev pub flags : List Process → List Bool
flags [] = []
flags (p ∷ ps) = is_runnable p ∷ flags ps

abbrev pub count_true : List Bool → ℕ
count_true [] = 0
count_true (b ∷ bs) = let rest = count_true bs in if b then rest + 1 else rest

-- The number of entries that `schedule` may choose.
abbrev pub runnable : Kernel → ℕ
runnable k = count_true (flags k.processes)

pub flags-modify :
    (ps : List Process) (i : ℕ) (f : Process → Process)
    → is_runnable (f (get_or ps i blank)) ≡ is_runnable (get_or ps i blank)
    → flags (modify ps i f) ≡ flags ps
flags-modify [] i f h = refl
flags-modify (p ∷ ps) zero f h = ap (λ b. b ∷ flags ps) h
flags-modify (p ∷ ps) (suc i) f h = ap (λ bs. is_runnable p ∷ bs) (flags-modify ps i f h)

pub flags-remove :
    (ps : List Process) (i : ℕ) (f : Process → Process)
    → ((p : Process) → is_runnable (f p) ≡ false)
    → flags (modify ps i f) ≡ set (flags ps) i false
flags-remove [] i f h = refl
flags-remove (p ∷ ps) zero f h = ap (λ b. b ∷ flags ps) (h p)
flags-remove (p ∷ ps) (suc i) f h = ap (λ bs. is_runnable p ∷ bs) (flags-remove ps i f h)

pub get_or-flags :
    (ps : List Process) (i : ℕ) → get_or (flags ps) i false ≡ is_runnable (get_or ps i blank)
get_or-flags [] i = unfold blank in refl
get_or-flags (p ∷ ps) zero = refl
get_or-flags (p ∷ ps) (suc i) = get_or-flags ps i

pub count_true-remove :
    (bs : List Bool) (i : ℕ)
    → get_or bs i false ≡ true
    → count_true (set bs i false) + 1 ≡ count_true bs
count_true-remove [] i h = absurd (cc)
count_true-remove (b ∷ bs) zero h = ground arith
count_true-remove (b ∷ bs) (suc i) h = ground (arith, count_true-remove bs i h)

pub count_true-set_le : (bs : List Bool) (i : ℕ) → count_true (set bs i false) ≤ count_true bs
count_true-set_le [] i = omega arith
count_true-set_le (b ∷ bs) zero = ground arith
count_true-set_le (b ∷ bs) (suc i) = ground (arith, count_true-set_le bs i)

pub count_true-le : (bs : List Bool) → count_true bs ≤ length bs
count_true-le [] = omega arith
count_true-le (b ∷ bs) = ground (arith, count_true-le bs)

pub length-flags : (ps : List Process) → length (flags ps) ≡ length ps
length-flags [] = refl
length-flags (p ∷ ps) = ap suc (length-flags ps)

pub flags-orphan : (pid : ℕ) (ps : List Process) → flags (orphan pid ps) ≡ flags ps
unfolding orphan
flags-orphan pid [] = refl
flags-orphan pid (p ∷ ps) = ground (arith, flags-orphan pid ps)
