-- ===== src/Coreutils/Numbers.antt =====
-- atoi of coreutils.c on what int_to_string of kernel.c writes.
use mathlib.Core.List.{reverse, reverse-cons, reverse-append}
use curnel.Prelude.{
  ℕ, zero, suc, ◌+◌, ◌-◌, ◌*◌, ◌/◌, ◌%◌, ◌^◌, ◌<◌, ◌≤◌, ◌≡◌, ◌≢◌, ◌∙◌, refl, sym, ap, subst, Bool,
  true, false, inl, inr, List, [], ◌∷◌, ◌++◌, ◌==◌, leb, if◌then◌else◌, u32, sub32, Bool-cases, All,
  arith,
}
use curnel.Interrupts.{digits_of}
use curnel.Terminal.Numerals.{int_to_string, int_to_string-digits, size_of, sign_of, is_below_zero}
use curnel.Coreutils.{is_blank, skip_blanks, atoi_digits, atoi_signed, atoi}

abbrev IsDigit : ℕ → Type 0
IsDigit c = (48 ≤ c) × (c ≤ 57)

append-All : (xs : List ℕ) (c : ℕ) → All IsDigit xs → IsDigit c → All IsDigit (xs ++ (c ∷ []))
append-All [] c h d = (d, tt)
append-All (x ∷ xs) c h d = (h.0, append-All xs c (h.1) d)

reverse-All : (xs : List ℕ) → All IsDigit xs → All IsDigit (reverse xs)
reverse-All [] h = tt
reverse-All (x ∷ xs) h =
    subst (All IsDigit) (sym (reverse-cons x xs))
      (append-All (reverse xs) x (reverse-All xs (h.1)) (h.0))

digits_of-All : (fuel num : ℕ) → All IsDigit (digits_of fuel num)
unfolding digits_of
digits_of-All zero num = tt
digits_of-All (suc fuel) num = elim (Bool-cases (num == 0)) [
  | inl nothing ↦ rw nothing tt
  | inr something ↦ rw something ((omega arith, omega arith), digits_of-All fuel (num / 10))
]

atoi_digits-append :
    (xs : List ℕ) (c r : ℕ)
    → All IsDigit xs
    → IsDigit c
    → atoi_digits (xs ++ (c ∷ [])) r ≡ u32 (atoi_digits xs r * 10 + (c - 48))
unfolding atoi_digits
atoi_digits-append [] c r h d =
    let low : leb 48 c ≡ true = ground (arith, d.0) in
    let high : leb c 57 ≡ true = ground (arith, d.1) in rw (low, high) refl
atoi_digits-append (x ∷ xs) c r h d =
    let low : leb 48 x ≡ true = ground (arith, (h.0).0) in
    let high : leb x 57 ≡ true = ground (arith, (h.0).1) in
    rw (low, high) (atoi_digits-append xs c (u32 (r * 10 + (x - 48))) (h.1) d)

-- The numbers of at most this many digits.
abbrev ten_to : ℕ → ℕ
ten_to zero = 1
ten_to (suc f) = ten_to f * 10

atoi_digits-reverse :
    (fuel num : ℕ)
    → num < ten_to fuel
    → num < 2 ^ 32
    → atoi_digits (reverse (digits_of fuel num)) 0 ≡ num
unfolding digits_of atoi_digits
atoi_digits-reverse zero num few word = omega arith
atoi_digits-reverse (suc fuel) num few word = elim (Bool-cases (num == 0)) [
  | inl nothing ↦ rw nothing (ground (arith, nothing))
  | inr something ↦
      let front = digits_of fuel (num / 10) in
      let value = atoi_digits-reverse fuel (num / 10) (omega arith) (omega arith) in
      rw something (
        ap (λ s. atoi_digits s 0) (reverse-cons (num % 10 + 48) front)
        ∙ atoi_digits-append (reverse front) (num % 10 + 48) 0
            (reverse-All front (digits_of-All fuel (num / 10))) (omega arith, omega arith)
        ∙ omega (arith, value))
]

-- A text of digits has no blanks and no sign before it.
atoi-digits : (xs : List ℕ) → All IsDigit xs → atoi xs ≡ atoi_digits xs 0
unfolding atoi atoi_signed skip_blanks atoi_digits
atoi-digits [] h = refl
atoi-digits (c ∷ s) h =
    let letter : is_blank c ≡ false = ground (arith, (h.0).0) in
    let a : (c == 45) ≡ false = ground (arith, (h.0).0) in
    let b : (c == 43) ≡ false = ground (arith, (h.0).0) in rw (letter, a, b) refl

atoi_signed-digits :
    (negative : Bool) (xs : List ℕ)
    → All IsDigit xs
    → atoi (reverse (if negative then 45 ∷ [] else []) ++ xs)
      ≡ (if negative then sub32 0 (atoi_digits xs 0) else atoi_digits xs 0)
unfolding atoi atoi_signed skip_blanks
atoi_signed-digits true xs h = refl
atoi_signed-digits false xs h = unfold atoi atoi_signed skip_blanks in atoi-digits xs h

atoi-zero : atoi (int_to_string 0) ≡ 0
unfolding atoi atoi_signed skip_blanks atoi_digits int_to_string
atoi-zero = refl

-- atoi reads back every `int` but the least one from what int_to_string of kernel.c writes.
pub atoi-int_to_string : (num : ℕ) → num < 2 ^ 32 → num ≢ 2 ^ 31 → atoi (int_to_string num) ≡ num
atoi-int_to_string num word other = elim (Bool-cases (num == 0)) [
  | inl nothing ↦ let e : num ≡ 0 = ground (arith, nothing) in rw e atoi-zero
  | inr something ↦
      let ds = digits_of 10 (size_of num) in
      let digits = reverse-All ds (digits_of-All 10 (size_of num)) in
      let low : size_of num < 2 ^ 31 = ground (arith, other) in
      let value = atoi_digits-reverse 10 (size_of num) (omega (arith, low)) (omega (arith, low)) in
      ap atoi (
        int_to_string-digits num word other (ground (arith, something))
        ∙ reverse-append ds (sign_of num))
      ∙ atoi_signed-digits (is_below_zero num) (reverse ds) digits
      ∙ ap (λ m. if is_below_zero num then sub32 0 m else m) value
      ∙ ground (arith, other)
]
