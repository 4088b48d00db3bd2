-- ===== src/Fzf/Chars.antt =====
-- fzf.c, lines 46-94, 282-340: bytes, character classes and the bonus of a place in a text. A
-- `char` is its byte, a number below 256; `tolower` and `isspace` are those of the C locale.
use plugged.Common.{
  Bool, List, Option, arith, false, get_elem?, if◌then◌else◌, leb, negsuc, pos, some, true, ℕ, ℤ,
  ◌&&◌, ◌+◌, ◌-◌, ◌==◌, ◌>>=◌, ◌||◌, ◌≡◌, ◌⊎◌,
}

abbrev pub Bytes : Type 0
Bytes = List ℕ

unfoldable pub to_lower : ℕ → ℕ
to_lower c = if leb b'A' c && leb c b'Z' then c + 32 else c

unfoldable pub is_space : ℕ → Bool
is_space c = c == 32 || (leb 9 c && leb c 13)

abbrev pub score_match : ℤ
score_match = pos 16

abbrev pub score_gap_start : ℤ
score_gap_start = negsuc 2

abbrev pub score_gap_extension : ℤ
score_gap_extension = negsuc 0

abbrev pub bonus_boundary : ℤ
bonus_boundary = pos 8

abbrev pub bonus_non_word : ℤ
bonus_non_word = pos 8

abbrev pub bonus_camel123 : ℤ
bonus_camel123 = pos 7

abbrev pub bonus_consecutive : ℤ
bonus_consecutive = pos 4

pub data CharClass : Type 0 where
  non_word lower upper letter number : CharClass

unfoldable pub char_class_of_ascii : ℕ → CharClass
char_class_of_ascii ch =
    if leb b'a' ch && leb ch b'z'
    then lower
    else if leb b'A' ch && leb ch b'Z'
    then upper
    else if leb b'0' ch && leb ch b'9'
    then number
    else non_word

unfoldable pub char_class_of : ℕ → CharClass
unfolding char_class_of_ascii
char_class_of ch = char_class_of_ascii ch

abbrev pub is_non_word : CharClass → Bool
is_non_word non_word = true
is_non_word _ = false

abbrev pub is_lower : CharClass → Bool
is_lower lower = true
is_lower _ = false

abbrev pub is_upper : CharClass → Bool
is_upper upper = true
is_upper _ = false

abbrev pub is_number : CharClass → Bool
is_number number = true
is_number _ = false

abbrev negate : Bool → Bool
negate true = false
negate false = true

unfoldable pub bonus_for : CharClass → CharClass → ℤ
bonus_for prev_class class =
    if is_non_word prev_class && negate (is_non_word class)
    then bonus_boundary
    else if (is_lower prev_class && is_upper class)
        || (negate (is_number prev_class) && is_number class)
    then bonus_camel123
    else if is_non_word class
    then bonus_non_word
    else pos 0

unfoldable pub bonus_at : Bytes → ℕ → Option ℤ
unfolding char_class_of bonus_for
bonus_at input idx = if idx == 0 then some bonus_boundary else (do
  before ← get_elem? input (idx - 1)
  here ← get_elem? input idx
  some (bonus_for (char_class_of before) (char_class_of here)))

unfoldable pub normalize_rune : ℕ → ℕ
normalize_rune r = r

-- The fold of a text's byte before it is compared: `tolower` unless the match is case sensitive,
-- then `normalize_rune` if asked for.
unfoldable pub fold_char : Bool → Bool → ℕ → ℕ
unfolding to_lower normalize_rune
fold_char case_sensitive normalize c =
    let folded = if case_sensitive then c else to_lower c in
    if normalize then normalize_rune folded else folded

-- Every bonus is 0, 7 or 8.
pub bonus_for_values :
    (p c : CharClass) → (bonus_for p c ≡ pos 0) ⊎ (bonus_for p c ≡ pos 7) ⊎ (bonus_for p c ≡ pos 8)
unfolding bonus_for
bonus_for_values p c = ground arith
