-- ===== src/Prelude/Bits.antt =====
-- The C operators `|` and `&` on words, as arithmetic.
use Prim.Native.Nat.{
  ℕ, zero, suc, ◌+◌, ◌*◌, ◌/◌, ◌%◌, ◌≤◌, ◌<◌, max, bit_or, digits, bit_or-bitwise,
}
use mathlib.Core.Path.{◌≡◌, refl, ap, sym, ◌∙◌}
use mathlib.Core.Bool.{Bool, true, false, not, ◌&&◌, ◌||◌}
use native.Mathlib.Omega.{arith}
use curnel.Prelude.Tests.{ltb, ◌==◌, ==_iff}
use curnel.Prelude.Words.{bit, set_bit, clear_bit}

-- The law for the lowest digit, from the definition that `bit_or` stands for.
abbrev or_digits : ℕ → ℕ → ℕ → ℕ
or_digits n a b = digits (λ d. d) max n a b

or_digits_enough : (n m a b : ℕ) → a ≤ n → a ≤ m → or_digits n a b ≡ or_digits m a b
or_digits_enough zero zero a b p q = refl
or_digits_enough zero (suc m) zero b p q = refl
or_digits_enough zero (suc m) (suc a) b p q = absurd (omega arith)
or_digits_enough (suc n) zero zero b p q = refl
or_digits_enough (suc n) zero (suc a) b p q = absurd (omega arith)
or_digits_enough (suc n) (suc m) zero b p q = refl
or_digits_enough (suc n) (suc m) (suc a) b p q =
    omega (arith, or_digits_enough n m (suc a / 2) (b / 2) (omega arith) (omega arith))

zero-bit_or : (b : ℕ) → bit_or 0 b ≡ b
zero-bit_or b = bit_or-bitwise 0 b

bit_or_halves : (a b : ℕ) → bit_or a b ≡ bit_or (a / 2) (b / 2) * 2 + max (a % 2) (b % 2)
bit_or_halves zero b = omega (arith, zero-bit_or b, zero-bit_or (b / 2))
bit_or_halves (suc a) b = omega (
  arith,
  bit_or-bitwise (suc a) b,
  bit_or-bitwise (suc a / 2) (b / 2),
  or_digits_enough a (suc a / 2) (suc a / 2) (b / 2) (omega arith) (omega arith),
)

bit_or-zero_enough : (n a : ℕ) → a ≤ n → bit_or a 0 ≡ a
bit_or-zero_enough zero zero h = zero-bit_or 0
bit_or-zero_enough zero (suc a) h = absurd (omega arith)
bit_or-zero_enough (suc n) a h =
    omega (arith, bit_or_halves a 0, bit_or-zero_enough n (a / 2) (omega arith))

bit_or-zero : (a : ℕ) → bit_or a 0 ≡ a
bit_or-zero a = bit_or-zero_enough a a (omega arith)

pub bit_or-low_bit : (a b : ℕ) → bit_or a b % 2 ≡ max (a % 2) (b % 2)
bit_or-low_bit a b = omega (arith, bit_or_halves a b)

-- `a` with `k` zeros behind it, and the numbers of at most `k` digits.
abbrev shifted : ℕ → ℕ → ℕ
shifted zero a = a
shifted (suc k) a = shifted k a * 2

abbrev Short : ℕ → ℕ → Type 0
Short zero f = f ≡ 0
Short (suc k) f = Short k (f / 2)

bit_or-shifted : (k a f : ℕ) → Short k f → bit_or (shifted k a) f ≡ shifted k a + f
bit_or-shifted zero a f h = ap (bit_or a) h ∙ omega (arith, bit_or-zero a, h)
bit_or-shifted (suc k) a f h = omega (
  arith,
  bit_or_halves (shifted k a * 2) f,
  ap (λ x. bit_or x (f / 2)) (halved (shifted k a)),
  bit_or-shifted k a (f / 2) h,
)
  where
    halved : (m : ℕ) → m * 2 / 2 ≡ m
    halved m = omega arith

-- A word whose low twelve bits are clear, and flags in these bits.
pub bit_or-page : (a f : ℕ) → a % 4096 ≡ 0 → f < 4096 → bit_or a f ≡ a + f
bit_or-page a f aligned low =
    let whole : shifted 12 (a / 4096) ≡ a = omega arith in
    ap (λ x. bit_or x f) (sym whole)
    ∙ bit_or-shifted 12 (a / 4096) f (omega arith)
    ∙ ap (λ x. x + f) whole

-- A number with three bits of flags behind it.
pub bit_or-tagged : (n f : ℕ) → f < 8 → bit_or (n * 8) f ≡ n * 8 + f
bit_or-tagged n f low =
    let eight : shifted 3 n ≡ n * 8 = omega arith in
    ap (λ x. bit_or x f) (sym eight) ∙ bit_or-shifted 3 n f (omega arith) ∙ ap (λ x. x + f) eight

-- Flags stay below 4096.
pub bit_or-lt_page : (a b : ℕ) → a < 4096 → b < 4096 → bit_or a b < 4096
bit_or-lt_page a b ha hb = go 12 a b (omega arith) (omega arith)
  where
    go : (k x y : ℕ) → Short k x → Short k y → bit_or x y < shifted k 1
    go zero x y p q = rw (p, q) (omega (arith, zero-bit_or 0))
    go (suc k) x y p q = omega (arith, bit_or_halves x y, go k (x / 2) (y / 2) p q)

-- The eight bits of a byte, set and cleared one at a time.
all_below : ℕ → (ℕ → Bool) → Bool
all_below zero test = true
all_below (suc n) test = let rest = all_below n test in test n && rest

all_below_sound :
    (n : ℕ) (test : ℕ → Bool) (i : ℕ) → all_below n test ≡ true → i < n → test i ≡ true
unfolding all_below
all_below_sound zero test i h low = absurd (omega arith)
all_below_sound (suc n) test i h low = ground (arith, all_below_sound n test i)

abbrev same : Bool → Bool → Bool
same true b = b
same false true = false
same false false = true

set_table :
    all_below 256
      (λ a. all_below 8 (λ s. all_below 8 (λ t. same (bit (set_bit a s) t) ((t == s) || bit a t))))
    ≡ true
unfolding all_below
set_table = refl

clear_table :
    all_below 256 (λ a.
      all_below 8 (λ s. all_below 8 (λ t. same (bit (clear_bit a s) t) (not (t == s) && bit a t))))
    ≡ true
unfolding all_below
clear_table = refl

byte_table :
    all_below 256 (λ a. all_below 8 (λ s. ltb (set_bit a s) 256 && ltb (clear_bit a s) 256)) ≡ true
unfolding all_below
byte_table = refl

undo_table :
    all_below 256 (λ a. all_below 8 (λ s. bit a s || (clear_bit (set_bit a s) s == a))) ≡ true
unfolding all_below
undo_table = refl

same-eq : (x y : Bool) → same x y ≡ true → x ≡ y
same-eq true y h = sym h
same-eq false true h = absurd (cc)
same-eq false false h = refl

or_right : (x y : Bool) → x ≡ false → (x || y) ≡ true → y ≡ true
or_right x y p h = ground arith

and_parts : (x y : ℕ) → (ltb x 256 && ltb y 256) ≡ true → (x < 256) × (y < 256)
and_parts x y h = ground arith

module _ (a s : ℕ) (byte : a < 256) (low : s < 8) where
  pub bit-set_bit : (t : ℕ) → t < 8 → bit (set_bit a s) t ≡ ((t == s) || bit a t)
  bit-set_bit t h =
      same-eq _ _ (
        all_below_sound 8 _ t (all_below_sound 8 _ s (all_below_sound 256 _ a set_table byte) low)
          h)

  pub byte-set_bit : (set_bit a s < 256) × (clear_bit a s < 256)
  byte-set_bit =
      let h : (ltb (set_bit a s) 256 && ltb (clear_bit a s) 256) ≡ true =
        all_below_sound 8 _ s (all_below_sound 256 _ a byte_table byte) low in
      and_parts (set_bit a s) (clear_bit a s) h

  pub clear_bit-set_bit : bit a s ≡ false → clear_bit (set_bit a s) s ≡ a
  clear_bit-set_bit off =
      let h : (bit a s || (clear_bit (set_bit a s) s == a)) ≡ true =
        all_below_sound 8 _ s (all_below_sound 256 _ a undo_table byte) low in
      (==_iff (clear_bit (set_bit a s) s) a).0 (or_right (bit a s) _ off h)
