-- ===== src/Fzf/Affix.antt =====
-- fzf.c, lines 74-94 and 834-957: the prefix, suffix and equality matchers.
pub mod Compare
pub mod Prefix
pub mod Suffix
pub mod Equal
use plugged.Common.{
  Bool, Option, [], add_size, false, get_elem?, if◌then◌else◌, length, ltb, none, pos, some,
  sub_size, suc, to_i32, true, wrap_i32, zero, ℕ, ℤ, ◌*◌, ◌+ℤ◌, ◌+◌, ◌-◌, ◌==◌, ◌>>=◌, ◌∷◌,
}
use plugged.Fzf.Chars.{Bytes, fold_char, is_space, normalize_rune}
use plugged.Fzf.Positions.{Positions, insert_range}
use plugged.Fzf.Score.{Result, calculate_score, empty_match, no_match}

unfoldable pub leading_whitespaces : Bytes → ℕ
leading_whitespaces [] = 0
leading_whitespaces (c ∷ xs) = if is_space c then suc (leading_whitespaces xs) else 0

-- The loop of `trailing_whitespaces` at index `i`. Its test `i >= 0` always holds, so after the
-- index 0 it wraps, and the next read is outside the text.
unfoldable pub trailing_loop : Bytes → ℕ → ℕ → Option ℕ
unfolding is_space
trailing_loop str zero whitespaces = do
  c ← get_elem? str 0
  if is_space c then none else some whitespaces
trailing_loop str (suc i) whitespaces = do
  c ← get_elem? str (suc i)
  let rest = trailing_loop str i (whitespaces + 1)
  if is_space c then rest else some whitespaces

unfoldable pub trailing_whitespaces : Bytes → Option ℕ
unfolding trailing_loop
trailing_whitespaces str = trailing_loop str (sub_size (length str) 1) 0

-- The loop that compares the pattern with the text from `offset`; the list is `pattern[i .. M)`.
unfoldable pub compare_loop : Bool → Bool → Bytes → ℕ → Bytes → ℕ → Option Bool
unfolding fold_char
compare_loop case_sensitive normalize text offset [] i = some true
compare_loop case_sensitive normalize text offset (p ∷ ps) i = do
  c ← get_elem? text (add_size offset i)
  let rest = compare_loop case_sensitive normalize text offset ps (i + 1)
  if fold_char case_sensitive normalize c == p then rest else some false

-- What the prefix and suffix matchers do once the bytes agree: score the range and add its places.
unfoldable pub score_range :
    Bool → Bool → Bytes → Bytes → ℕ → ℕ → Option Positions → Option (Result × Option Positions)
score_range case_sensitive normalize text pattern start end out = do
  (score, _) ← calculate_score case_sensitive normalize text pattern start end none
  out' ← insert_range out start end
  some (record { start = to_i32 start; end = to_i32 end; score = score }, out')

unfoldable pub fzf_prefix_match :
    Bool → Bool → Bytes → Bytes → Option Positions → Option (Result × Option Positions)
fzf_prefix_match case_sensitive normalize text pattern out =
    if length pattern == 0 then some (empty_match, out) else (do
      first ← get_elem? pattern 0
      let trimmed_len = if is_space first then 0 else leading_whitespaces text
      if ltb (sub_size (length text) trimmed_len) (length pattern)
          then some (no_match, out)
          else (do
            same ← compare_loop case_sensitive normalize text trimmed_len pattern 0
            if same
                then score_range case_sensitive normalize text pattern trimmed_len
                    (trimmed_len + length pattern) out
                else some (no_match, out)))

-- The text's length without its trailing white space, if the pattern does not end in some.
unfoldable pub suffix_length : Bytes → Bytes → Option ℕ
suffix_length text pattern =
    if length pattern == 0
    then (do t ← trailing_whitespaces text; some (sub_size (length text) t))
    else (do
      last ← get_elem? pattern (length pattern - 1)
      if is_space last
          then some (length text)
          else (do t ← trailing_whitespaces text; some (sub_size (length text) t)))

-- The test `diff < 0` of an unsigned number never holds.
unfoldable pub fzf_suffix_match :
    Bool → Bool → Bytes → Bytes → Option Positions → Option (Result × Option Positions)
fzf_suffix_match case_sensitive normalize text pattern out = do
  trimmed_len ← suffix_length text pattern
  let diff = sub_size trimmed_len (length pattern)
  if length pattern == 0
      then some
          (record { start = to_i32 trimmed_len; end = to_i32 trimmed_len; score = pos 0 }, out)
      else (do
        same ← compare_loop case_sensitive normalize text diff pattern 0
        if same
            then score_range case_sensitive normalize text pattern diff trimmed_len out
            else some (no_match, out))

-- The two loops of `fzf_equal_match`; the list is `pattern[idx .. M)`.
unfoldable pub equal_loop : Bool → Bool → Bytes → ℕ → Bytes → ℕ → Option Bool
unfolding fold_char normalize_rune
equal_loop case_sensitive normalize text trimmed_len [] idx = some true
equal_loop case_sensitive normalize text trimmed_len (p ∷ ps) idx = do
  c ← get_elem? text (add_size trimmed_len idx)
  let folded = fold_char case_sensitive false c
  let rest = equal_loop case_sensitive normalize text trimmed_len ps (idx + 1)
  if (if normalize then normalize_rune folded == normalize_rune p else folded == p)
      then rest
      else some false

-- (ScoreMatch + BonusBoundary) * M + (BonusFirstCharMultiplier - 1) * BonusBoundary
unfoldable pub equal_score : ℕ → ℤ
unfolding wrap_i32
equal_score m = wrap_i32 (pos ((16 + 8) * m + (2 - 1) * 8))

unfoldable pub fzf_equal_match :
    Bool → Bool → Bytes → Bytes → Option Positions → Option (Result × Option Positions)
fzf_equal_match case_sensitive normalize text pattern out =
    if length pattern == 0 then some (no_match, out) else (do
      let trimmed_len = leading_whitespaces text
      trimmed_end_len ← trailing_whitespaces text
      if sub_size (sub_size (length text) trimmed_len) trimmed_end_len == length pattern
          then (do
            match ← equal_loop case_sensitive normalize text trimmed_len pattern 0
            if match
                then (do
                  out' ← insert_range out trimmed_len (trimmed_len + length pattern)
                  some (
                    record {
                      start = to_i32 trimmed_len;
                      end = to_i32 trimmed_len +ℤ to_i32 (length pattern);
                      score = equal_score (length pattern);
                    },
                    out',
                  ))
                else some (no_match, out))
          else some (no_match, out))
