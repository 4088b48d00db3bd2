-- ===== src/Fzf/V2/FirstRow.antt =====
-- fzf.c, lines 559-627: the loop that folds the text, gives each place its bonus, and finds the
-- first place of each byte of the pattern.
use plugged.Common.{
  Bool, Option, [], eqb_ℤ, false, get_elem?, if◌then◌else◌, length, ltb, ltb_ℤ, min, not, pos, some,
  to_i16, to_i32, true, ℕ, ℤ, ◌&&◌, ◌+ℤ◌, ◌+◌, ◌-◌, ◌==◌, ◌>>=◌, ◌∷◌,
}
use plugged.Fzf.Chars.{
  Bytes, CharClass, bonus_boundary, bonus_for, char_class_of_ascii, is_upper, normalize_rune,
  score_gap_extension, score_gap_start, score_match, to_lower,
}
use plugged.Fzf.Score.{max16}
use plugged.Fzf.Slab.{Array}
use plugged.Fzf.V2.Memory.{store}

pub record Phase2 : Type 0 where
  pub h0 : Array
  pub c0 : Array
  pub bo : Array
  pub f : Array
  pub t : Array
  pub pidx : ℕ
  pub last_idx : ℕ
  pub pchar : ℕ
  pub prev_h0 : ℤ
  pub prev_class : CharClass
  pub in_gap : Bool
  pub max_score : ℤ
  pub max_score_pos : ℕ

-- The byte at a place after folding: only an upper case letter is made lower case.
unfoldable pub fold_rune : Bool → Bool → ℕ → ℕ
unfolding char_class_of_ascii to_lower normalize_rune
fold_rune case_sensitive normalize c =
    let folded = if not case_sensitive && is_upper (char_class_of_ascii c) then to_lower c else c in
    if normalize then normalize_rune folded else folded

-- The first place of the next byte of the pattern, and the last place of its last byte.
unfoldable pub note_first : Bytes → ℕ → ℕ → Phase2 → Option Phase2
note_first pattern place c s =
    if c == s.pchar
    then (if ltb s.pidx (length pattern)
        then (do
          f ← store s.f s.pidx (to_i32 place)
          pchar ← get_elem? pattern (min (s.pidx + 1) (length pattern - 1))
          some (record s { f = f; pidx = s.pidx + 1; pchar = pchar; last_idx = place }))
        else some (record s { last_idx = place }))
    else some s

-- The row of the pattern's first byte. The flag tells that the loop breaks.
unfoldable pub first_row : ℕ → ℕ → ℕ → ℕ → ℤ → Phase2 → Option (Phase2 × Bool)
unfolding max16 ◌+ℤ◌
first_row m pchar0 place c bonus s =
    if c == pchar0
    then (do
      let score = to_i16 (score_match +ℤ bonus +ℤ bonus)
      h0 ← store s.h0 place score
      c0 ← store s.c0 place (pos 1)
      let better = m == 1 && ltb_ℤ s.max_score score
      let t =
          if better
          then record s { h0 = h0; c0 = c0; max_score = score; max_score_pos = place }
          else record s { h0 = h0; c0 = c0 }
      if better && eqb_ℤ bonus bonus_boundary
          then some (t, true)
          else some (record t { in_gap = false; prev_h0 = score }, false))
    else (do
      let gap = if s.in_gap then score_gap_extension else score_gap_start
      let score = max16 (to_i16 (s.prev_h0 +ℤ gap)) (pos 0)
      h0 ← store s.h0 place score
      c0 ← store s.c0 place (pos 0)
      some (record s { h0 = h0; c0 = c0; in_gap = true; prev_h0 = score }, false))

unfoldable pub phase2_step : Bool → Bool → Bytes → ℕ → ℕ → ℕ → Phase2 → Option (Phase2 × Bool)
unfolding fold_rune bonus_for
phase2_step case_sensitive normalize pattern pchar0 place rune s = do
  let class = char_class_of_ascii rune
  let c = fold_rune case_sensitive normalize rune
  t ← store s.t place (pos c)
  let bonus = bonus_for s.prev_class class
  bo ← store s.bo place bonus
  s' ← note_first pattern place c (record s { t = t; bo = bo; prev_class = class })
  first_row (length pattern) pchar0 place c bonus s'

-- the loop from `place`; the list is `t[place .. N)` before the loop, which is the text there
unfoldable pub phase2_loop : Bool → Bool → Bytes → ℕ → ℕ → Bytes → Phase2 → Option Phase2
unfolding phase2_step
phase2_loop case_sensitive normalize pattern pchar0 place [] s = some s
phase2_loop case_sensitive normalize pattern pchar0 place (c ∷ xs) s = do
  (s', break) ← phase2_step case_sensitive normalize pattern pchar0 place c s
  let rest = phase2_loop case_sensitive normalize pattern pchar0 (place + 1) xs s'
  if break then some s' else rest
