-- ===== src/Common/Int.antt =====
-- Signed integers over the native numbers (the library's ℤ stands on the unary numbers), and the
-- conversions of C between integer types.
use Prim.Native.Nat.{ℕ, suc, ◌+◌, ◌-◌, ◌%◌, ◌^◌, ◌≤◌, ◌<◌}
use mathlib.Core.Path.{◌≡◌}
use mathlib.Core.Bool.{Bool, true, false}
use native.Mathlib.Omega.{arith}
use plugged.Common.Tests.{ltb, leb, ◌==◌, if◌then◌else◌}

-- `negsuc n` is -(n + 1).
pub data ℤ : Type 0 where
  pos : ℕ → ℤ
  negsuc : ℕ → ℤ

abbrev pub pos_part : ℤ → ℕ
pos_part (pos n) = n
pos_part (negsuc n) = 0

abbrev pub neg_part : ℤ → ℕ
neg_part (pos n) = 0
neg_part (negsuc n) = suc n

-- a - b, as an integer.
abbrev pub sub_ℕ : ℕ → ℕ → ℤ
sub_ℕ a b = if leb b a then pos (a - b) else negsuc (b - a - 1)

infixl 65 ◌+ℤ◌ ◌-ℤ◌
infix 50 ◌≤ℤ◌ ◌<ℤ◌
unfoldable pub ◌+ℤ◌ : ℤ → ℤ → ℤ
a +ℤ b = sub_ℕ (pos_part a + pos_part b) (neg_part a + neg_part b)

unfoldable pub ◌-ℤ◌ : ℤ → ℤ → ℤ
a -ℤ b = sub_ℕ (pos_part a + neg_part b) (neg_part a + pos_part b)

abbrev pub ◌≤ℤ◌ : ℤ → ℤ → Type 0
a ≤ℤ b = pos_part a + neg_part b ≤ pos_part b + neg_part a

abbrev pub ◌<ℤ◌ : ℤ → ℤ → Type 0
a <ℤ b = pos_part a + neg_part b < pos_part b + neg_part a

abbrev pub ltb_ℤ : ℤ → ℤ → Bool
ltb_ℤ a b = ltb (pos_part a + neg_part b) (pos_part b + neg_part a)

abbrev pub eqb_ℤ : ℤ → ℤ → Bool
eqb_ℤ a b = pos_part a + neg_part b == pos_part b + neg_part a

pub +ℤ_parts :
    (a b : ℤ)
    → pos_part (a +ℤ b) + neg_part a + neg_part b ≡ neg_part (a +ℤ b) + pos_part a + pos_part b
unfolding ◌+ℤ◌
+ℤ_parts a b = ground arith

pub -ℤ_parts :
    (a b : ℤ)
    → pos_part (a -ℤ b) + neg_part a + pos_part b ≡ neg_part (a -ℤ b) + pos_part a + neg_part b
unfolding ◌-ℤ◌
-ℤ_parts a b = ground arith

pub eq_of_parts : (a b : ℤ) → pos_part a + neg_part b ≡ pos_part b + neg_part a → a ≡ b
eq_of_parts a b h = ground arith

pub ruleset int_laws = (arith, +ℤ_parts, -ℤ_parts, eq_of_parts)

-- `(int32_t)n` of a `size_t`.
abbrev pub to_i32 : ℕ → ℤ
to_i32 n = let w = n % 2 ^ 32 in if ltb w (2 ^ 31) then pos w else negsuc (2 ^ 32 - w - 1)

pub to_i32_of_lt : (n : ℕ) → n < 2 ^ 31 → to_i32 n ≡ pos n
to_i32_of_lt n h = ground arith

-- the residue mod 2^16 of an integer
abbrev pub low16 : ℤ → ℕ
low16 (pos n) = n % 2 ^ 16
low16 (negsuc n) = 2 ^ 16 - 1 - n % 2 ^ 16

-- `(int16_t)z` of an `int`, as the usual compilers convert.
abbrev pub to_i16 : ℤ → ℤ
to_i16 z = let w = low16 z in if ltb w (2 ^ 15) then pos w else negsuc (2 ^ 16 - w - 1)

-- the residue mod 2^32 of an integer
abbrev pub low32 : ℤ → ℕ
low32 (pos n) = n % 2 ^ 32
low32 (negsuc n) = 2 ^ 32 - 1 - n % 2 ^ 32

-- An `int32_t` sum; where C leaves an overflow open, it wraps as with the usual compilers.
unfoldable pub wrap_i32 : ℤ → ℤ
wrap_i32 z = let w = low32 z in if ltb w (2 ^ 31) then pos w else negsuc (2 ^ 32 - w - 1)

-- The integers of 32 bits, which do not wrap.
abbrev pub InI32 : ℤ → Type 0
InI32 z = (pos_part z < 2 ^ 31) × (neg_part z ≤ 2 ^ 31)

pub InI32-of_parts :
    (z : ℤ) → pos_part z < 2 ^ 31 + neg_part z → neg_part z ≤ 2 ^ 31 + pos_part z → InI32 z
InI32-of_parts (pos n) h k = (omega (arith, h), omega arith)
InI32-of_parts (negsuc n) h k = (omega arith, omega (arith, k))

pub wrap_i32-InI32 : (z : ℤ) → InI32 z → wrap_i32 z ≡ z
unfolding wrap_i32
wrap_i32-InI32 (pos n) h = ground arith
wrap_i32-InI32 (negsuc n) h = ground arith

-- `(size_t)z` of a signed integer.
abbrev pub to_size : ℤ → ℕ
to_size (pos n) = n % 2 ^ 64
to_size (negsuc n) = 2 ^ 64 - 1 - n % 2 ^ 64

-- `size_t` sums and differences.
abbrev pub add_size : ℕ → ℕ → ℕ
add_size a b = (a + b) % 2 ^ 64

abbrev pub sub_size : ℕ → ℕ → ℕ
sub_size a b = (a + 2 ^ 64 - b % 2 ^ 64) % 2 ^ 64

pub to_size_of_lt : (n : ℕ) → n < 2 ^ 31 → to_size (pos n) ≡ n
to_size_of_lt n h = omega arith

pub ltb_ℤ-neg : (n : ℕ) → ltb_ℤ (pos n) (pos 0) ≡ false
ltb_ℤ-neg n = ground arith

pub ltb_ℤ-pos : (n : ℕ) → ltb_ℤ (pos 0) (pos (suc n)) ≡ true
ltb_ℤ-pos n = ground arith

pub +ℤ-pos : (a b : ℕ) → pos a +ℤ pos b ≡ pos (a + b)
unfolding ◌+ℤ◌
+ℤ-pos a b = ground arith

pub eqb_ℤ-suc : (n : ℕ) → eqb_ℤ (pos (suc n)) (pos 0) ≡ false
eqb_ℤ-suc n = ground arith

pub ltb_ℤ→lt : (a b : ℤ) → ltb_ℤ a b ≡ true → a <ℤ b
ltb_ℤ→lt a b h = ground arith

pub ltb_ℤ→le : (a b : ℤ) → ltb_ℤ a b ≡ false → b ≤ℤ a
ltb_ℤ→le a b h = ground arith
