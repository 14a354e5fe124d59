-- ===== src/Base/Words.antt =====
-- Machine words as native numbers: a w-bit word is its bit pattern, below `2 ^ w`. A C `int` is such
-- a pattern of 32 bits, negative from `2 ^ 31` on; arithmetic wraps, as it does on the two's
-- complement machines that the programs are written for.
use Prim.Native.Nat.{ℕ, ◌+◌, ◌-◌, ◌*◌, ◌/◌, ◌%◌, ◌^◌}
use mathlib.Core.Bool.{Bool, true, false}
use audible.Base.Tests.{ltb, if◌then◌else◌}

abbrev pub u8 : ℕ → ℕ
u8 n = n % 2 ^ 8

abbrev pub u32 : ℕ → ℕ
u32 n = n % 2 ^ 32

abbrev pub u64 : ℕ → ℕ
u64 n = n % 2 ^ 64

-- Shifts of an unsigned value; the caller cuts a left shift off at its width.
infixl 75 ◌<<<◌ ◌>>>◌
abbrev pub ◌<<<◌ : ℕ → ℕ → ℕ
x <<< k = x * 2 ^ k

abbrev pub ◌>>>◌ : ℕ → ℕ → ℕ
x >>> k = x / 2 ^ k

-- `int` addition, subtraction and multiplication.
abbrev pub add32 : ℕ → ℕ → ℕ
add32 a b = u32 (a + b)

abbrev pub sub32 : ℕ → ℕ → ℕ
sub32 a b = u32 (a + 2 ^ 32 - b)

abbrev pub mul32 : ℕ → ℕ → ℕ
mul32 a b = u32 (a * b)

-- Whether an `int` is negative.
abbrev pub is_negative : ℕ → Bool
is_negative a = if ltb a (2 ^ 31) then false else true

-- `a < b` between two values of type `int`: adding `2 ^ 31` turns it into an unsigned test.
abbrev pub lts : ℕ → ℕ → Bool
lts a b = ltb (u32 (a + 2 ^ 31)) (u32 (b + 2 ^ 31))

-- `-1` as an `int`; it is also `EOF`.
abbrev pub minus_one : ℕ
minus_one = 2 ^ 32 - 1

-- `a >> k` of an `int`: the sign is shifted in.
abbrev pub sar : ℕ → ℕ → ℕ
sar a k = if is_negative a then 2 ^ 32 - 1 - (2 ^ 32 - 1 - a) >>> k else a >>> k

-- A `char` is signed: its 8-bit pattern, converted to `int`.
abbrev pub int_of_char : ℕ → ℕ
int_of_char c = if ltb c 128 then c else c + 2 ^ 32 - 2 ^ 8
