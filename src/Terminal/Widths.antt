-- ===== src/Terminal/Widths.antt =====
-- How many bytes int_to_string of kernel.c writes.
use curnel.Prelude.{
  ℕ, zero, suc, ◌+◌, ◌*◌, ◌-◌, ◌/◌, ◌^◌, ◌<◌, ◌≤◌, ◌≡◌, ◌∙◌, refl, ap, Bool, true, false, not, ◌||◌,
  inl, inr, ◌++◌, length, leb, ◌==◌, Bool-cases, arith, length-append,
}
use curnel.Interrupts.{digits_of}
use curnel.Terminal.Numerals.{
  int_to_string, swap_ends, write_digits, swapped, int_to_string-digits, size_of, sign_of,
  is_below_zero, length-reverse_native,
}

-- The least number with more than `k` digits.
ten_to : ℕ → ℕ
ten_to zero = 1
ten_to (suc k) = ten_to k * 10

length-digits_of_le : (k fuel n : ℕ) → n < ten_to k → length (digits_of fuel n) ≤ k
unfolding digits_of ten_to
length-digits_of_le k zero n few = omega arith
length-digits_of_le zero (suc fuel) n few =
    let z : (n == 0) ≡ true = ground arith in rw z (omega arith)
length-digits_of_le (suc k) (suc fuel) n few = elim (Bool-cases (n == 0)) [
  | inl nothing ↦ rw nothing (omega arith)
  | inr something ↦ rw something (omega (arith, length-digits_of_le k fuel (n / 10) (omega arith)))
]

length-digits_of_lt : (k fuel n : ℕ) → ten_to k ≤ n → k < fuel → k < length (digits_of fuel n)
unfolding digits_of ten_to
length-digits_of_lt k zero n many room = absurd (omega arith)
length-digits_of_lt zero (suc fuel) n many room =
    let on : (n == 0) ≡ false = ground arith in rw on (omega arith)
length-digits_of_lt (suc k) (suc fuel) n many room =
    let on : (n == 0) ≡ false = ground (arith, positive k) in
    rw on (omega (arith, length-digits_of_lt k fuel (n / 10) (omega arith) (omega arith)))
  where
    positive : (k : ℕ) → 0 < ten_to k
    positive zero = omega arith
    positive (suc k) = omega (arith, positive k)

-- The `int` with this word has at most four characters.
abbrev pub is_short : ℕ → Bool
is_short num = leb num 9999 || leb (2 ^ 32 - 999) num

least_long : leb 5 (length (int_to_string (2 ^ 31))) ≡ true
unfolding int_to_string swap_ends write_digits swapped
least_long = refl

size-short :
    (num : ℕ)
    → num < 2 ^ 32
    → leb 5 (length (digits_of 10 (size_of num)) + length (sign_of num)) ≡ not (is_short num)
unfolding ten_to
size-short num word = elim (Bool-cases (is_below_zero num)) [
  | inl minus ↦ elim (Bool-cases (leb (2 ^ 32 - 999) num)) [
    | inl short ↦
        let few = length-digits_of_le 3 10 (2 ^ 32 - num) (ground (arith, short)) in
        rw minus (ground (arith, minus, short, few))
    | inr long ↦
        let many = length-digits_of_lt 3 10 (2 ^ 32 - num) (ground (arith, long)) (omega arith) in
        rw minus (ground (arith, minus, long, many))
  ]
  | inr plus ↦ elim (Bool-cases (leb num 9999)) [
    | inl short ↦
        let few = length-digits_of_le 4 10 num (ground (arith, short)) in
        rw plus (ground (arith, plus, short, few))
    | inr long ↦
        let many = length-digits_of_lt 4 10 num (ground (arith, long)) (omega arith) in
        rw plus (ground (arith, plus, long, many))
  ]
]

pub int_to_string-is_short :
    (num : ℕ) → num < 2 ^ 32 → leb 5 (length (int_to_string num)) ≡ not (is_short num)
unfolding int_to_string
int_to_string-is_short num word = elim (Bool-cases (num == 0)) [
  | inl nothing ↦ let z : num ≡ 0 = ground (arith, nothing) in rw z refl
  | inr something ↦ elim (Bool-cases (num == 2 ^ 31)) [
    | inl least ↦
        let e : num ≡ 2 ^ 31 = ground (arith, least) in
        ap (λ n. leb 5 (length (int_to_string n))) e ∙ least_long ∙ ground (arith, e)
    | inr other ↦
        let shape =
          int_to_string-digits num word (λ e. ground (arith, other, e))
            (λ e. ground (arith, something, e)) in
        let ds = digits_of 10 (size_of num) in
        let size : length (int_to_string num) ≡ length ds + length (sign_of num) =
          ap length shape
          ∙ length-reverse_native (ds ++ sign_of num)
          ∙ length-append ds (sign_of num) in
        ap (leb 5) size ∙ size-short num word
  ]
]
