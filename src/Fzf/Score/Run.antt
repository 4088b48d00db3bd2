-- ===== src/Fzf/Score/Run.antt =====
-- `calculate_score` on a range that the greedy search takes whole: it reads nothing outside the
-- pattern, appends the places of the pattern's bytes, and its score is bounded.
use native.Mathlib.Decide.{ℕ_discrete}
use plugged.Common.{
  +ℤ_parts, Bool, InI32-of_parts, List, Option, [], ap, arith, eqb_ℤ, false, if◌then◌else◌,
  neg_part, pos_part, suc, sym, true, wrap_i32, wrap_i32-InI32, ℕ, ℤ, ◌*◌, ◌+ℤ◌, ◌+◌, ◌==◌, ◌^◌,
  ◌||◌, ◌∙◌, ◌∷◌, ◌≡◌, ◌≢◌, ◌≤◌,
}
use plugged.Fzf.Chars.{
  Bytes, CharClass, bonus_boundary, bonus_consecutive, bonus_for, fold_char, score_gap_extension,
  score_gap_start, score_match,
}
use plugged.Fzf.Positions.{Positions}
use plugged.Fzf.Score.{ScoreState, max16, score_hit, score_miss}

-- The text's byte `x` counts as the pattern's byte `p`.
abbrev pub fold_hit : Bool → Bool → ℕ → ℕ → Bool
fold_hit case_sensitive normalize p x = fold_char case_sensitive normalize x == p

-- The places, from `idx` on, at which the greedy search takes the pattern's bytes.
unfoldable pub matched_places : (ℕ → ℕ → Bool) → ℕ → Bytes → Bytes → List ℕ
matched_places hit idx [] xs = []
matched_places hit idx (p ∷ ps) [] = []
matched_places hit idx (p ∷ ps) (x ∷ xs) =
    if hit p x
    then idx ∷ matched_places hit (idx + 1) ps xs
    else matched_places hit (idx + 1) (p ∷ ps) xs

-- The bounds of a score after `hits` bytes that match and `misses` that do not.
abbrev pub InBounds : ℕ → ℕ → ℤ → Type 0
InBounds hits misses total =
    (16 * hits + neg_part total ≤ pos_part total + 3 * misses)
    × (pos_part total + misses ≤ 24 * hits + 8 + neg_part total)

-- What `score_step` keeps.
pub record IsScored (hits misses : ℕ) (s : ScoreState) : Type 0 where
  pub places : s.pidx ≡ hits
  pub at_least : 16 * hits + neg_part s.total ≤ pos_part s.total + 3 * misses
  pub at_most : pos_part s.total + misses ≤ 24 * hits + 8 + neg_part s.total
  pub at_first : hits ≡ 0 → pos_part s.total + misses ≤ neg_part s.total
  pub bonus : (neg_part s.first_bonus ≡ 0) × (pos_part s.first_bonus ≤ 8)

bonus_for_range :
    (p c : CharClass) → (neg_part (bonus_for p c) ≡ 0) × (pos_part (bonus_for p c) ≤ 8)
unfolding bonus_for
bonus_for_range p c = ground arith

-- A bonus as the code has it: 0 to 8.
abbrev IsBonus : ℤ → Type 0
IsBonus b = (neg_part b ≡ 0) × (pos_part b ≤ 8)

max16-IsBonus : (a b : ℤ) → IsBonus a → IsBonus b → IsBonus (max16 a b)
unfolding max16
max16-IsBonus a b h k = ground arith

-- The bonus that is added for a byte that matches.
hit_bonus : CharClass → ScoreState → ℤ
hit_bonus class s =
    let bonus = bonus_for s.prev_class class in
    if s.consecutive == 0
    then bonus
    else max16
        (max16 bonus
          (if s.consecutive == 0 || eqb_ℤ bonus bonus_boundary then bonus else s.first_bonus))
        bonus_consecutive

if-IsBonus : (b : Bool) (x y : ℤ) → IsBonus x → IsBonus y → IsBonus (if b then x else y)
if-IsBonus true x y h k = h
if-IsBonus false x y h k = k

hit_bonus-IsBonus :
    (class : CharClass) (s : ScoreState) → IsBonus s.first_bonus → IsBonus (hit_bonus class s)
unfolding hit_bonus
hit_bonus-IsBonus class s h =
    let b = bonus_for_range s.prev_class class in
    if-IsBonus (s.consecutive == 0) _ _ b (
      max16-IsBonus _ _
        (max16-IsBonus _ _ b (
          if-IsBonus (s.consecutive == 0 || eqb_ℤ (bonus_for s.prev_class class) bonus_boundary) _ _
            b h))
        (omega arith))

-- What is added for it beside `score_match`: the bonus of the pattern's first byte counts twice.
hit_extra : CharClass → ScoreState → ℤ
hit_extra class s =
    if s.pidx == 0 then hit_bonus class s +ℤ hit_bonus class s else hit_bonus class s

hit_extra_range :
    (class : CharClass) (s : ScoreState)
    → IsBonus s.first_bonus
    → (neg_part (hit_extra class s) ≡ 0)
      × (pos_part (hit_extra class s) ≤ 16)
      × (s.pidx ≢ 0 → pos_part (hit_extra class s) ≤ 8)
unfolding hit_extra
hit_extra_range class s h =
    let b = hit_bonus-IsBonus class s h in
    let twice = +ℤ_parts (hit_bonus class s) (hit_bonus class s) in
    (ground (arith, b, twice), ground (arith, b, twice), λ n. ground (arith, b, twice))

pub score_hit-IsScored :
    (class : CharClass) (s : ScoreState) (out : Option Positions) (hits misses : ℕ)
    → IsScored hits misses s
    → suc hits ≤ 2 ^ 26
    → misses ≤ 2 ^ 29
    → IsScored (suc hits) misses (score_hit class s out)
unfolding score_hit hit_extra hit_bonus
score_hit-IsScored class s out hits misses h some_hits some_misses =
    let (plain, wide, narrow) = hit_extra_range class s h.bonus in
    let one = +ℤ_parts s.total score_match in
    let two = +ℤ_parts (s.total +ℤ score_match) (hit_extra class s) in
    let b = bonus_for_range s.prev_class class in
    let total = s.total +ℤ score_match +ℤ hit_extra class s in
    let fits : wrap_i32 total ≡ total = wrap_i32-InI32 total (
      InI32-of_parts total (omega (arith, one, two, wide, plain))
        (omega (arith, one, two, plain))) in
    let same : (score_hit class s out).total ≡ total = fits in
    let above = ap pos_part same in
    let below = ap neg_part same in
    let is_zero : Dec (hits ≡ 0) = ℕ_discrete hits 0 in
    record {
      places = omega arith;
      at_least = omega (arith, above, below);
      at_most = elim is_zero [
        | yes e ↦ omega (arith, above, below, h.at_first e)
        | no n ↦ omega (arith, above, below, narrow (λ e. n (sym h.places ∙ e)))
      ];
      at_first = λ e. absurd (omega arith);
      bonus =
          if-IsBonus (s.consecutive == 0 || eqb_ℤ (bonus_for s.prev_class class) bonus_boundary) _ _
            b h.bonus;
    }

pub score_miss-IsScored :
    (class : CharClass) (s : ScoreState) (hits misses : ℕ)
    → IsScored hits misses s
    → hits ≤ 2 ^ 26
    → suc misses ≤ 2 ^ 29
    → IsScored hits (suc misses) (score_miss class s)
unfolding score_miss
score_miss-IsScored class s hits misses h some_hits some_misses =
    let a = +ℤ_parts s.total score_gap_extension in
    let b = +ℤ_parts s.total score_gap_start in
    let total = s.total +ℤ (if s.in_gap then score_gap_extension else score_gap_start) in
    let fits : wrap_i32 total ≡ total =
      wrap_i32-InI32 total (ground (arith, a, b), ground (arith, a, b)) in
    record {
      places = h.places;
      at_least = ground (arith, a, b);
      at_most = ground (arith, a, b);
      at_first = λ e. ground (arith, a, b, h.at_first e);
      bonus = omega arith;
    }
