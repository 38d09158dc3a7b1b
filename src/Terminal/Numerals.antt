-- ===== src/Terminal/Numerals.antt =====
-- int_to_string of kernel.c, in its own steps. An `int` is its 32-bit word, and the caller's buffer is
-- the list of the bytes written to it, without the NUL.
use mathlib.Core.List.{reverse, reverse-cons}
use curnel.Prelude.{
  ℕ, zero, suc, ◌+◌, ◌-◌, ◌/◌, ◌%◌, ◌^◌, ◌<◌, ◌≤◌, ◌≡◌, ◌≢◌, ◌∙◌, refl, sym, ap, get_or-ext, Bool,
  false, ◌&&◌, inl, inr, List, [], ◌∷◌, ◌++◌, length, get_or, set, ltb, leb, ◌==◌, if◌then◌else◌,
  Bool-cases, sub32, arith, length-append, length-set, get_or-set_self, get_or-set_ne,
}
use curnel.Interrupts
use curnel.Interrupts.{digits_of}

-- `num % 10` and `num / 10` on an `int` round to zero: the sign, and the size without it.
abbrev pub is_below_zero : ℕ → Bool
is_below_zero num = leb (2 ^ 31) num

abbrev pub size_of : ℕ → ℕ
size_of num = if is_below_zero num then 2 ^ 32 - num else num

-- The byte of a digit, `rem + '0'`: no remainder is above 9.
abbrev digit_byte : ℕ → ℕ
digit_byte num = if is_below_zero num then 48 - size_of num % 10 else size_of num % 10 + 48

abbrev tenth : ℕ → ℕ
tenth num = if is_below_zero num then sub32 0 (size_of num / 10) else size_of num / 10

-- The loop `while (num != 0)`; ten turns are enough for an `int`.
unfoldable pub write_digits : ℕ → ℕ → List ℕ
write_digits zero num = []
write_digits (suc fuel) num =
    let rest = write_digits fuel (tenth num) in if num == 0 then [] else digit_byte num ∷ rest

-- One turn of it: `char temp = str[start]; str[start] = str[end]; str[end] = temp;`
unfoldable pub swapped : List ℕ → ℕ → ℕ → List ℕ
swapped str start end = set (set str start (get_or str end 0)) end (get_or str start 0)

-- The loop that swaps the ends: each turn moves them closer, so the length is enough fuel.
unfoldable pub swap_ends : ℕ → List ℕ → ℕ → ℕ → List ℕ
swap_ends zero str start end = str
swap_ends (suc fuel) str start end =
    let next = swap_ends fuel (swapped str start end) (start + 1) (end - 1) in
    if ltb start end then next else str

unfoldable pub int_to_string : ℕ → List ℕ
int_to_string num =
    let negative = is_below_zero num in
    let num = if negative then sub32 0 num else num in
    let str = write_digits 10 num ++ (if negative then 45 ∷ [] else []) in
    if num == 0 then 48 ∷ [] else swap_ends (length str) str 0 (length str - 1)

pub length-reverse_native : (xs : List ℕ) → length (reverse xs) ≡ length xs
length-reverse_native [] = refl
length-reverse_native (x ∷ xs) =
    ap length (reverse-cons x xs)
    ∙ omega (arith, length-append (reverse xs) (x ∷ []), length-reverse_native xs)

get_or-last :
    (xs : List ℕ) (x k : ℕ)
    → k ≤ length xs
    → get_or (xs ++ (x ∷ [])) k 0 ≡ (if k == length xs then x else get_or xs k 0)
get_or-last [] x zero l = refl
get_or-last [] x (suc k) l = absurd (omega arith)
get_or-last (y ∷ xs) x zero l = ground arith
get_or-last (y ∷ xs) x (suc k) l = ground (arith, get_or-last xs x k)

get_or-reverse :
    (xs : List ℕ) (k : ℕ)
    → k < length xs
    → get_or (reverse xs) k 0 ≡ get_or xs (length xs - 1 - k) 0
get_or-reverse [] k l = absurd (omega arith)
get_or-reverse (x ∷ xs) k l =
    ap (λ l. get_or l k 0) (reverse-cons x xs)
    ∙ get_or-last (reverse xs) x k (omega (arith, length-reverse_native xs))
    ∙ elim (Bool-cases (k == length (reverse xs))) [
      | inl last ↦
          let e : length (x ∷ xs) - 1 - k ≡ 0 = ground (arith, last, length-reverse_native xs) in
          rw (last, e) refl
      | inr inner ↦
          let low : k < length xs = ground (arith, inner, length-reverse_native xs) in
          let e : length (x ∷ xs) - 1 - k ≡ suc (length xs - 1 - k) = omega arith in
          rw (inner, e) (get_or-reverse xs k low)
    ]

abbrev mirrored : List ℕ → ℕ → ℕ → ℕ → ℕ
mirrored str start end k =
    if leb start k && leb k end then get_or str (start + end - k) 0 else get_or str k 0

swapped-start :
    (str : List ℕ) (start end : ℕ)
    → start < end
    → end < length str
    → get_or (swapped str start end) start 0 ≡ get_or str end 0
unfolding swapped
swapped-start str start end l m =
    get_or-set_ne (set str start (get_or str end 0)) end start (get_or str start 0) 0
      (λ e. omega (arith, e))
    ∙ get_or-set_self str start (get_or str end 0) 0 (omega arith)

swapped-end :
    (str : List ℕ) (start end : ℕ)
    → start < end
    → end < length str
    → get_or (swapped str start end) end 0 ≡ get_or str start 0
unfolding swapped
swapped-end str start end l m =
    get_or-set_self (set str start (get_or str end 0)) end (get_or str start 0) 0
      (omega (arith, length-set str start (get_or str end 0)))

swapped-other :
    (str : List ℕ) (start end k : ℕ)
    → start ≢ k
    → end ≢ k
    → get_or (swapped str start end) k 0 ≡ get_or str k 0
unfolding swapped
swapped-other str start end k p q =
    get_or-set_ne (set str start (get_or str end 0)) end k (get_or str start 0) 0 q
    ∙ get_or-set_ne str start k (get_or str end 0) 0 p

length-swapped : (str : List ℕ) (start end : ℕ) → length (swapped str start end) ≡ length str
unfolding swapped
length-swapped str start end =
    length-set (set str start (get_or str end 0)) end (get_or str start 0)
    ∙ length-set str start (get_or str end 0)

-- One swap, and the rest mirrored inside it, mirror the whole.
mirrored-swapped :
    (str : List ℕ) (start end k : ℕ)
    → start < end
    → end < length str
    → mirrored (swapped str start end) (start + 1) (end - 1) k ≡ mirrored str start end k
mirrored-swapped str start end k l m = elim (Bool-cases (start == k)) [
  | inl at_start ↦ ground (arith, at_start, swapped-start str start end)
  | inr off_start ↦ elim (Bool-cases (end == k)) [
    | inl at_end ↦ ground (arith, at_end, swapped-end str start end)
    | inr off_end ↦ ground (
      arith,
      off_start,
      off_end,
      swapped-other str start end k,
      swapped-other str start end (start + end - k),
    )
  ]
]

swap_ends-mirrored :
    (fuel : ℕ) (str : List ℕ) (start end : ℕ)
    → end < length str
    → end < start + fuel
    → (length (swap_ends fuel str start end) ≡ length str)
      × ((k : ℕ) → get_or (swap_ends fuel str start end) k 0 ≡ mirrored str start end k)
unfolding swap_ends
swap_ends-mirrored zero str start end l m = (refl, λ k. ground arith)
swap_ends-mirrored (suc fuel) str start end l m = elim (Bool-cases (ltb start end)) [
  | inr met ↦ rw met (
    refl,
    λ k. elim (Bool-cases (start == k)) [
      | inl hit ↦ ground (arith, met, hit)
      | inr miss ↦ ground (arith, met, miss)
    ],
  )
  | inl more ↦
      let low : start < end = ground (arith, more) in
      let s = swapped str start end in
      let (a, b) =
        swap_ends-mirrored fuel s (start + 1) (end - 1)
          (omega (arith, length-swapped str start end)) (omega arith) in
      rw more (a ∙ length-swapped str start end, λ k. b k ∙ mirrored-swapped str start end k low l)
]

swap_ends-eq-reverse :
    (str : List ℕ) → str ≢ [] → swap_ends (length str) str 0 (length str - 1) ≡ reverse str
swap_ends-eq-reverse [] some_byte = absurd (some_byte refl)
swap_ends-eq-reverse (x ∷ xs) some_byte =
    let str = x ∷ xs in
    let (a, b) =
      swap_ends-mirrored (length str) str 0 (length str - 1) (omega arith) (omega arith) in
    get_or-ext 0 _ _ (a ∙ sym (length-reverse_native str))
      λ k low. b k ∙ ground (arith, a, low, get_or-reverse str k)

write_digits-eq : (fuel num : ℕ) → num < 2 ^ 31 → write_digits fuel num ≡ digits_of fuel num
unfolding write_digits digits_of
write_digits-eq zero num low = refl
write_digits-eq (suc fuel) num low =
    let plus : is_below_zero num ≡ false = ground arith in
    rw plus (
      ap (λ ds. if num == 0 then [] else (num % 10 + 48) ∷ ds)
        (write_digits-eq fuel (num / 10) (omega arith)))

-- The size of an `int` other than 0 and the least one has a first digit.
write_digits-some :
    (fuel num : ℕ) → num ≢ 0 → (xs : List ℕ) → write_digits (suc fuel) num ++ xs ≢ []
unfolding write_digits
write_digits-some fuel num some_digit xs e =
    let on : (num == 0) ≡ false = ground arith in ground (arith, on, e)

string_of :
    (sign : List ℕ) (n : ℕ)
    → n ≢ 0
    → n < 2 ^ 31
    → (let str = write_digits 10 n ++ sign in swap_ends (length str) str 0 (length str - 1))
      ≡ reverse (digits_of 10 n ++ sign)
string_of sign n some_digit low =
    swap_ends-eq-reverse (write_digits 10 n ++ sign) (write_digits-some 9 n some_digit sign)
    ∙ ap (λ ds. reverse (ds ++ sign)) (write_digits-eq 10 n low)

abbrev pub sign_of : ℕ → List ℕ
sign_of num = if is_below_zero num then 45 ∷ [] else []

pub int_to_string-digits :
    (num : ℕ)
    → num < 2 ^ 32
    → num ≢ 2 ^ 31
    → num ≢ 0
    → int_to_string num ≡ reverse (digits_of 10 (size_of num) ++ sign_of num)
unfolding int_to_string
int_to_string-digits num word other something = elim (Bool-cases (is_below_zero num)) [
  | inl minus ↦
      let turn : sub32 0 num ≡ 2 ^ 32 - num = ground (arith, minus) in
      let on : (2 ^ 32 - num == 0) ≡ false = ground arith in
      rw (minus, turn, on)
        (string_of (45 ∷ []) (2 ^ 32 - num) (ground arith) (ground (arith, minus)))
  | inr plus ↦
      let on : (num == 0) ≡ false = ground arith in
      rw (plus, on) (string_of [] num (ground arith) (ground (arith, plus)))
]

small_size : (num : ℕ) → num < 2 ^ 32 → num ≢ 2 ^ 31 → leb (2 ^ 31) (size_of num) ≡ false
small_size num word other = ground arith

-- The two functions named int_to_string, of kernel.c and of idt.c, give the same string for every
-- `int` but the least one.
pub int_to_string-eq :
    (num : ℕ) → num < 2 ^ 32 → num ≢ 2 ^ 31 → int_to_string num ≡ Interrupts.int_to_string num
unfolding int_to_string Interrupts.int_to_string
int_to_string-eq num word other = elim (Bool-cases (num == 0)) [
  | inl nothing ↦ let e : num ≡ 0 = ground (arith, nothing) in rw e refl
  | inr something ↦
      int_to_string-digits num word other (ground (arith, something))
      ∙ rw (something, small_size num word other) refl
]
