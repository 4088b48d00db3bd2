-- ===== src/Fzf/Score.antt =====
-- fzf.c, lines 193-195 and 401-460: the score of a pattern in a range of the text.
pub mod Run
pub mod Total
use plugged.Common.{
  Bool, Option, [], eqb_ℤ, false, get_elem?, if◌then◌else◌, length, ltb, ltb_ℤ, negsuc, pos, slice?,
  some, true, wrap_i32, ℕ, ℤ, ◌+ℤ◌, ◌+◌, ◌-◌, ◌==◌, ◌>>=◌, ◌||◌, ◌∷◌,
}
use plugged.Fzf.Chars.{
  Bytes, CharClass, bonus_boundary, bonus_consecutive, bonus_for, char_class_of, fold_char,
  non_word, score_gap_extension, score_gap_start, score_match,
}
use plugged.Fzf.Positions.{Positions, append_pos, resize_pos?}

pub record Result : Type 0 where
  pub start : ℤ
  pub end : ℤ
  pub score : ℤ

abbrev pub no_match : Result
no_match = record { start = negsuc 0; end = negsuc 0; score = pos 0 }

abbrev pub empty_match : Result
empty_match = record { start = pos 0; end = pos 0; score = pos 0 }

unfoldable pub max16 : ℤ → ℤ → ℤ
max16 a b = if ltb_ℤ b a then a else b

-- the variables of `calculate_score`'s loop
pub record ScoreState : Type 0 where
  pub pidx : ℕ
  pub total : ℤ
  pub consecutive : ℕ
  pub in_gap : Bool
  pub first_bonus : ℤ
  pub prev_class : CharClass
  pub out : Option Positions

-- the branch for a byte that matches; `out` is the array after `append_pos`
unfoldable pub score_hit : CharClass → ScoreState → Option Positions → ScoreState
unfolding bonus_for max16 ◌+ℤ◌ wrap_i32
score_hit class s out =
    let bonus = bonus_for s.prev_class class in
    let first = if s.consecutive == 0 || eqb_ℤ bonus bonus_boundary then bonus else s.first_bonus in
    let bonus' =
      if s.consecutive == 0 then bonus else max16 (max16 bonus first) bonus_consecutive in
    record {
      pidx = s.pidx + 1;
      total =
          wrap_i32 (s.total +ℤ score_match +ℤ (if s.pidx == 0 then bonus' +ℤ bonus' else bonus'));
      consecutive = s.consecutive + 1;
      in_gap = false;
      first_bonus = first;
      prev_class = class;
      out = out;
    }

unfoldable pub score_miss : CharClass → ScoreState → ScoreState
unfolding ◌+ℤ◌ wrap_i32
score_miss class s = record s {
  total = wrap_i32 (s.total +ℤ (if s.in_gap then score_gap_extension else score_gap_start));
  in_gap = true;
  consecutive = 0;
  first_bonus = pos 0;
  prev_class = class;
}

unfoldable pub score_step : Bool → Bool → Bytes → ℕ → ℕ → ScoreState → Option ScoreState
unfolding score_hit score_miss fold_char char_class_of append_pos
score_step case_sensitive normalize pattern idx c s = do
  p ← get_elem? pattern s.pidx
  if fold_char case_sensitive normalize c == p
      then (do out ← append_pos s.out idx; some (score_hit (char_class_of c) s out))
      else some (score_miss (char_class_of c) s)

-- the loop from index `idx`; the list is `text[idx .. eidx)`
unfoldable pub score_loop : Bool → Bool → Bytes → Bytes → ℕ → ScoreState → Option ScoreState
unfolding score_step
score_loop case_sensitive normalize pattern [] idx s = some s
score_loop case_sensitive normalize pattern (c ∷ xs) idx s = do
  s' ← score_step case_sensitive normalize pattern idx c s
  score_loop case_sensitive normalize pattern xs (idx + 1) s'

-- The class of the byte before the range.
unfoldable pub class_before : Bytes → ℕ → Option CharClass
unfolding char_class_of
class_before text sidx =
    if ltb 0 sidx then (do c ← get_elem? text (sidx - 1); some (char_class_of c)) else some non_word

unfoldable pub calculate_score :
    Bool → Bool → Bytes → Bytes → ℕ → ℕ → Option Positions → Option (ℤ × Option Positions)
unfolding score_loop class_before resize_pos?
calculate_score case_sensitive normalize text pattern sidx eidx out = do
  prev_class ← class_before text sidx
  range ← slice? text sidx eidx
  s ← score_loop case_sensitive normalize pattern range sidx (record {
    pidx = 0;
    total = pos 0;
    consecutive = 0;
    in_gap = false;
    first_bonus = pos 0;
    prev_class = prev_class;
    out = resize_pos? out (length pattern) (length pattern);
  })
  some (s.total, s.out)
