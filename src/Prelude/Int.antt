-- ===== src/Prelude/Int.antt =====
-- Signed integers over the native numbers, with the division of C++, which rounds towards zero.
use Prim.Native.Nat.{ℕ, suc, ◌+◌, ◌-◌, ◌/◌, ◌%◌, ◌^◌, ◌≤◌}
use mathlib.Core.Bool.{Bool, ◌&&◌}
use example_ublox_mbed_clien.Prelude.Tests.{leb, if◌then◌else◌}

-- `negsuc n` is -(n + 1).
pub data ℤ : Type 0 where
  pos : ℕ → ℤ
  negsuc : ℕ → ℤ

abbrev pub pos_part : ℤ → ℕ
pos_part (pos n) = n
pos_part (negsuc n) = 0

abbrev neg_part : ℤ → ℕ
neg_part (pos n) = 0
neg_part (negsuc n) = suc n

-- a - b, as an integer.
abbrev pub sub_ℕ : ℕ → ℕ → ℤ
sub_ℕ a b = if leb b a then pos (a - b) else negsuc (b - a - 1)

infixl 65 ◌+ℤ◌
abbrev pub ◌+ℤ◌ : ℤ → ℤ → ℤ
a +ℤ b = sub_ℕ (pos_part a + pos_part b) (neg_part a + neg_part b)

infix 50 ◌≤ℤ◌
abbrev pub ◌≤ℤ◌ : ℤ → ℤ → Type 0
a ≤ℤ b = pos_part a + neg_part b ≤ pos_part b + neg_part a

abbrev pub leb_ℤ : ℤ → ℤ → Bool
leb_ℤ a b = leb (pos_part a + neg_part b) (pos_part b + neg_part a)

infix 50 ◌==ℤ◌
abbrev pub ◌==ℤ◌ : ℤ → ℤ → Bool
a ==ℤ b = leb_ℤ a b && leb_ℤ b a

-- `a / n` and `a % n` of C++ for a positive `n`: the remainder has the sign of `a`.
abbrev pub tdiv : ℤ → ℕ → ℤ
tdiv (pos a) n = pos (a / n)
tdiv (negsuc a) n = sub_ℕ 0 (suc a / n)

abbrev pub tmod : ℤ → ℕ → ℤ
tmod (pos a) n = pos (a % n)
tmod (negsuc a) n = sub_ℕ 0 (suc a % n)

-- An integer as a `char`, modulo 256.
abbrev pub to_char : ℤ → ℕ
to_char (pos a) = a % 256
to_char (negsuc a) = 255 - a % 256

-- An integer as an `unsigned int`, modulo 2 ^ 32.
abbrev pub to_u32 : ℤ → ℕ
to_u32 (pos a) = a % 2 ^ 32
to_u32 (negsuc a) = 2 ^ 32 - 1 - a % 2 ^ 32

-- Does the value fit an `int32_t`?
abbrev pub in_int32 : ℤ → Bool
in_int32 a = leb (pos_part a) (2 ^ 31 - 1) && leb (neg_part a) (2 ^ 31)
