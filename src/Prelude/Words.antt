-- ===== src/Prelude/Words.antt =====
-- `uint64_t`, `uint32_t` and `size_t` arithmetic: the wrap-around is written out.
use Prim.Native.Nat.{ℕ, ◌+◌, ◌-◌, ◌/◌, ◌%◌, ◌^◌, bit_and}
use mathlib.Core.Bool.{Bool}
use curnel.Prelude.Tests.{ltb, ◌==◌, if◌then◌else◌}

abbrev pub u64 : ℕ → ℕ
u64 a = a % 2 ^ 64

abbrev pub u32 : ℕ → ℕ
u32 a = a % 2 ^ 32

-- a - b on 64-bit words
abbrev pub sub64 : ℕ → ℕ → ℕ
sub64 a b = (a + 2 ^ 64 - b % 2 ^ 64) % 2 ^ 64

-- a - b on 32-bit words
abbrev pub sub32 : ℕ → ℕ → ℕ
sub32 a b = (a + 2 ^ 32 - b % 2 ^ 32) % 2 ^ 32

-- The value that a negative `int` constant has once it is returned as a `uint64_t`.
abbrev pub minus_one : ℕ
minus_one = 2 ^ 64 - 1

-- `(uint64_t)(int)a`: the low 32 bits, with their sign carried on.
abbrev pub int_word : ℕ → ℕ
int_word a = let low = a % 2 ^ 32 in if ltb low (2 ^ 31) then low else low + (2 ^ 64 - 2 ^ 32)

-- `a & (1UL << s)`, as a test
abbrev pub bit : ℕ → ℕ → Bool
bit a s = a / 2 ^ s % 2 == 1

-- `a | (1UL << s)`
abbrev pub set_bit : ℕ → ℕ → ℕ
set_bit a s = if bit a s then a else a + 2 ^ s

-- `a & ~(1UL << s)`
abbrev pub clear_bit : ℕ → ℕ → ℕ
clear_bit a s = if bit a s then a - 2 ^ s else a

-- `a & ~m`
abbrev pub and_not : ℕ → ℕ → ℕ
and_not a m = a - bit_and a m
