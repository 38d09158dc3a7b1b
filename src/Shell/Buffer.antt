-- ===== src/Shell/Buffer.antt =====
-- The text before the first NUL of a buffer, as shell.c, strlen and strcpy see it.
use curnel.Prelude.{
  ℕ, zero, suc, ◌+◌, ◌-◌, ◌^◌, ◌<◌, ◌≤◌, ◌≡◌, ◌≢◌, ◌∙◌, refl, sym, ap, subst, true, ◌&&◌, inl, inr,
  List, [], ◌∷◌, length, get_or, set, ltb, leb, ◌==◌, if◌then◌else◌, sub64, Bool-cases, arith,
  length-set, get_or-set_self, get_or-set_ne, get_or-ext, ==_iff,
}
use curnel.Kernel.{done}
use curnel.Terminal.{Output, puts, strlen}
use curnel.Coreutils.{until_nul}
use curnel.Shell.{shift_left}

pub strlen-eq :
    (n : ℕ) (b : List ℕ) → ((k : ℕ) → k < n → get_or b k 0 ≢ 0) → get_or b n 0 ≡ 0 → strlen b ≡ n
unfolding strlen
strlen-eq zero [] h e = refl
strlen-eq (suc n) [] h e = absurd (h 0 (omega arith) refl)
strlen-eq zero (c ∷ b) h e = ground (arith, e)
strlen-eq (suc n) (c ∷ b) h e =
    ground (arith, h 0, strlen-eq n b (λ k l. h (suc k) (omega arith)) e)

pub strlen-get_ne : (b : List ℕ) (k : ℕ) → k < strlen b → get_or b k 0 ≢ 0
unfolding strlen
strlen-get_ne [] k h = absurd (omega arith)
strlen-get_ne (c ∷ b) zero h = ground arith
strlen-get_ne (c ∷ b) (suc k) h = strlen-get_ne b k (ground arith)

pub strlen-get : (b : List ℕ) → get_or b (strlen b) 0 ≡ 0
unfolding strlen
strlen-get [] = refl
strlen-get (c ∷ b) = elim (Bool-cases (c == 0)) [
  | inl nul ↦ rw nul (ground (arith, nul))
  | inr byte ↦ rw byte (strlen-get b)
]

strlen-le : (b : List ℕ) → strlen b ≤ length b
unfolding strlen
strlen-le [] = omega arith
strlen-le (c ∷ b) = ground (arith, strlen-le b)

pub length-until_nul : (b : List ℕ) → length (until_nul b) ≡ strlen b
unfolding strlen until_nul
length-until_nul [] = refl
length-until_nul (c ∷ b) = elim (Bool-cases (c == 0)) [
  | inl nul ↦ rw nul refl
  | inr byte ↦ rw byte (ap suc (length-until_nul b))
]

pub get_or-until_nul : (b : List ℕ) (k : ℕ) → k < strlen b → get_or (until_nul b) k 0 ≡ get_or b k 0
unfolding strlen until_nul
get_or-until_nul [] k h = absurd (omega arith)
get_or-until_nul (c ∷ b) zero h = elim (Bool-cases (c == 0)) [
  | inl nul ↦ absurd (ground arith)
  | inr byte ↦ rw byte refl
]
get_or-until_nul (c ∷ b) (suc k) h = elim (Bool-cases (c == 0)) [
  | inl nul ↦ absurd (ground arith)
  | inr byte ↦ rw byte (get_or-until_nul b k (ground arith))
]

-- The text of a buffer, from its length and its bytes.
pub until_nul-eq :
    (b l : List ℕ)
    → strlen b ≡ length l
    → ((k : ℕ) → k < length l → get_or b k 0 ≡ get_or l k 0)
    → until_nul b ≡ l
until_nul-eq b l e h = get_or-ext 0 (until_nul b) l (length-until_nul b ∙ e) λ k low.
    get_or-until_nul b k (omega (arith, length-until_nul b))
    ∙ h k (omega (arith, length-until_nul b, e))

-- The byte at `k` once the bytes from `i` on are moved down over byte `i`, in a text of `n` bytes.
abbrev pub moved_down : List ℕ → ℕ → ℕ → ℕ → ℕ
moved_down b i n k = if leb i k && ltb k (n - 1) then get_or b (k + 1) 0 else get_or b k 0

-- The text keeps its length when one of its bytes is written over by the next.
strlen-set :
    (b : List ℕ) (i n : ℕ) → strlen b ≡ n → i + 1 < n → strlen (set b i (get_or b (i + 1) 0)) ≡ n
strlen-set b i n e low =
    strlen-eq n _
      (λ k l. elim (Bool-cases (i == k)) [
        | inl hit ↦ λ z. strlen-get_ne b (i + 1) (omega (arith, e)) (
            sym (get_or-set_self b i (get_or b (i + 1) 0) 0 (omega (arith, e, strlen-le b)))
            ∙ subst (λ j. get_or (set b i (get_or b (i + 1) 0)) j 0 ≡ 0) (sym ((==_iff i k).0 hit))
                z)
        | inr miss ↦ λ z.
            strlen-get_ne b k (omega (arith, e))
              (sym (get_or-set_ne b i k (get_or b (i + 1) 0) 0 (λ q. ground (arith, q, miss))) ∙ z)
      ])
      (get_or-set_ne b i n (get_or b (i + 1) 0) 0 (λ q. omega (arith, q))
        ∙ subst (λ m. get_or b m 0 ≡ 0) e (strlen-get b))

moved_down-step :
    (b : List ℕ) (i n k : ℕ)
    → i + 1 < n
    → n ≤ length b
    → moved_down (set b i (get_or b (i + 1) 0)) (i + 1) n k ≡ moved_down b i n k
moved_down-step b i n k low room = elim (Bool-cases (i == k)) [
  | inl hit ↦ ground (arith, hit, get_or-set_self b i (get_or b (i + 1) 0) 0)
  | inr miss ↦ ground (
    arith,
    miss,
    get_or-set_ne b i k (get_or b (i + 1) 0) 0,
    get_or-set_ne b i (k + 1) (get_or b (i + 1) 0) 0,
  )
]

pub shift_left-lem :
    (f : ℕ) (b : List ℕ) (i n : ℕ)
    → strlen b ≡ n
    → 0 < n
    → n < 2 ^ 64
    → n < length b
    → 0 < f
    → n ≤ i + f
    → (b' : List ℕ) × (out : List Output) × (shift_left f b i ≡ done (b', out))
      × (length b' ≡ length b)
      × ((k : ℕ) → get_or b' k 0 ≡ moved_down b i n k)
unfolding shift_left
shift_left-lem zero b i n e some_byte word room fuel enough = absurd (omega arith)
shift_left-lem (suc f) b i n e some_byte word room fuel enough =
    let bound : sub64 (strlen b) 1 ≡ n - 1 = omega (arith, e) in
    elim (Bool-cases (ltb i (n - 1))) [
      | inr over ↦ rw (bound, over) (b, [], refl, refl, λ k. ground (arith, over))
      | inl more ↦
          let low : i + 1 < n = ground (arith, more) in
          let inside : ltb (i + 1) (length b) ≡ true = ground (arith, low, room) in
          let b1 = set b i (get_or b (i + 1) 0) in
          let size : length b1 ≡ length b = length-set b i (get_or b (i + 1) 0) in
          let (b', out, r, l, bytes) =
            shift_left-lem f b1 (i + 1) n (strlen-set b i n e low) some_byte word
              (omega (arith, size)) (omega arith) (omega arith) in
          rw (bound, more, inside, r)
            (
              b',
              puts (get_or b (i + 1) 0) ∷ out,
              refl,
              l ∙ size,
              λ k. bytes k ∙ moved_down-step b i n k low (omega arith),
            )
    ]
