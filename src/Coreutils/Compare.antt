-- ===== src/Coreutils/Compare.antt =====
-- strcmp of coreutils.c.
use curnel.Prelude.{ℕ, ◌<◌, ◌≡◌, refl, inl, inr, List, [], ◌∷◌, ◌==◌, Bool-cases, All, arith}
use curnel.Coreutils.{until_nul, strcmp}

abbrev pub Bytes : List ℕ → Type 0
Bytes = All (λ c. c < 256)

pub strcmp-zero :
    (s t : List ℕ)
    → Bytes s
    → Bytes t
    → ((strcmp s t ≡ 0) → (until_nul s ≡ until_nul t))
      × ((until_nul s ≡ until_nul t) → (strcmp s t ≡ 0))
unfolding strcmp until_nul
strcmp-zero [] [] hs ht = (λ e. refl, λ e. refl)
strcmp-zero [] (d ∷ t) hs ht = elim (Bool-cases (d == 0)) [
  | inl nul ↦ rw nul (λ e. refl, λ e. ground (arith, nul))
  | inr byte ↦ rw byte (λ e. absurd (ground (arith, e, byte, ht.0)), λ e. absurd (cc))
]
strcmp-zero (c ∷ s) [] hs ht = elim (Bool-cases (c == 0)) [
  | inl nul ↦ rw nul (λ e. refl, λ e. ground (arith, nul))
  | inr byte ↦ rw byte (λ e. absurd (ground (arith, e, byte)), λ e. absurd (cc))
]
strcmp-zero (c ∷ s) (d ∷ t) hs ht =
    let rest = strcmp-zero s t (hs.1) (ht.1) in
    let a : c < 256 = hs.0 in
    let b : d < 256 = ht.0 in
    (λ e. ground (arith, e, rest.0, a, b), λ e. ground (arith, e, rest.1, a, b))
