-- ===== src/Jsregexp/Text/Surrogates.antt =====
-- The two units that stand for a code point above 0xffff.
use plugged.Common.{arith, refl, suc, ℕ, ◌%◌, ◌*◌, ◌+◌, ◌-◌, ◌/◌, ◌<◌, ◌^◌, ◌↔◌, ◌∙◌, ◌≡◌, ◌≤◌}
use plugged.Jsregexp.Text.{bit_or, high_unit, low_unit}

-- A bit that the second number does not have is the first's.
bit_or-even : (w a b : ℕ) → bit_or (suc w) a (2 * b) ≡ a % 2 + 2 * bit_or w (a / 2) b
unfolding bit_or
bit_or-even w a b = let half : (2 * b) / 2 ≡ b = omega arith in rw half (omega arith)

-- Two such bits, and five of them.
bit_or_two : (w a b : ℕ) → bit_or (suc (suc w)) a (4 * b) ≡ a % 4 + 4 * bit_or w (a / 4) b
bit_or_two w a b =
    let twice : 4 * b ≡ 2 * (2 * b) = omega arith in
    let quarter : a / 2 / 2 ≡ a / 4 = omega arith in
    rw (twice, bit_or-even (suc w) a (2 * b), bit_or-even w (a / 2) b, quarter) (omega arith)

bit_or_five :
    (w a b : ℕ)
    → bit_or (suc (suc (suc (suc (suc w))))) a (32 * b) ≡ a % 32 + 32 * bit_or w (a / 32) b
bit_or_five w a b =
    let split : 32 * b ≡ 4 * (4 * (2 * b)) = omega arith in
    let again : a / 4 / 4 ≡ a / 16 = omega arith in
    let last : a / 16 / 2 ≡ a / 32 = omega arith in
    rw
      (
        split,
        bit_or_two (suc (suc (suc w))) a (4 * (2 * b)),
        bit_or_two (suc w) (a / 4) (2 * b),
        again,
        bit_or-even w (a / 16) b,
        last,
      )
      (omega arith)

bit_or_ten : (a b : ℕ) → bit_or 16 a (32 * (32 * b)) ≡ a % 2 ^ 10 + 2 ^ 10 * bit_or 6 (a / 2 ^ 10) b
bit_or_ten a b =
    let again : a / 32 / 32 ≡ a / 2 ^ 10 = omega arith in
    rw (bit_or_five 11 a (32 * b), bit_or_five 6 (a / 32) b, again) (omega arith)

bit_or_55 : (y : ℕ) → bit_or 6 y 55 ≡ 55 + 8 * (y / 8 % 2)
unfolding bit_or
bit_or_55 y = omega arith

bit_or_54 : bit_or 6 0 54 ≡ 54
unfolding bit_or
bit_or_54 = refl

high_unit-eq : (x : ℕ) → x < 2 ^ 10 → bit_or 16 x 55296 ≡ 55296 + x
high_unit-eq x h =
    let top : x / 2 ^ 10 ≡ 0 = omega arith in bit_or_ten x 54 ∙ rw (top, bit_or_54) (omega arith)

low_unit-eq :
    (c : ℕ) → bit_or 16 (c % 2 ^ 20) 56320 ≡ c % 2 ^ 10 + 2 ^ 10 * (55 + 8 * (c / 2 ^ 13 % 2))
low_unit-eq c =
    let low : c % 2 ^ 20 % 2 ^ 10 ≡ c % 2 ^ 10 = omega arith in
    let bit : c % 2 ^ 20 / 2 ^ 10 / 8 % 2 ≡ c / 2 ^ 13 % 2 = omega arith in
    bit_or_ten (c % 2 ^ 20) 55 ∙ rw (bit_or_55 (c % 2 ^ 20 / 2 ^ 10), low, bit) refl

low_offset : (c : ℕ) → 2 ^ 16 ≤ c → (c - 2 ^ 16) % 2 ^ 10 ≡ c % 2 ^ 10
low_offset c h = omega arith

-- For a code point from 0x10000 to 0x10ffff, `high_unit` is the high surrogate of UTF-16, and
-- `low_unit` is the low surrogate exactly if the bit 0x2000 of the code point is not set.
pub surrogate_units :
    (c : ℕ)
    → 2 ^ 16 ≤ c
    → c < 2 ^ 20 + 2 ^ 16
    → (high_unit c ≡ 55296 + (c - 2 ^ 16) / 2 ^ 10)
      × ((low_unit c ≡ 56320 + (c - 2 ^ 16) % 2 ^ 10) ↔ (c / 2 ^ 13 % 2 ≡ 0))
unfolding high_unit low_unit
surrogate_units c h k =
    let high : (c - 2 ^ 16) / 2 ^ 10 < 2 ^ 10 = omega arith in
    (
      high_unit-eq ((c - 2 ^ 16) / 2 ^ 10) high,
      rw (low_offset c h, low_unit-eq c) (((λ e. omega arith), λ e. omega arith)),
    )
