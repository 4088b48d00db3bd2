-- ===== src/Fzf/V1.antt =====
-- fzf.c, lines 462-522: `fzf_fuzzy_match_v1`, the greedy matcher.
pub mod Scan
pub mod Back
pub mod Tight
pub mod Match
use plugged.Common.{
  Bool, Option, [], false, get_elem?, if◌then◌else◌, leb, length, ltb_ℤ, none, pos, some, suc,
  to_i32, to_size, zero, ℕ, ℤ, ◌&&◌, ◌+ℤ◌, ◌+◌, ◌-◌, ◌==◌, ◌>>=◌, ◌||◌, ◌∷◌,
}
use plugged.Fzf.Chars.{Bytes, fold_char}
use plugged.Fzf.Positions.{Positions}
use plugged.Fzf.Score.{Result, calculate_score, empty_match, no_match}
use plugged.Fzf.Skip.{ascii_fuzzy_index, minus_one}

-- What the forward loop leaves behind: `pidx`, `sidx` and `eidx`.
pub record Forward : Type 0 where
  pub pidx : ℕ
  pub sidx : ℤ
  pub eidx : ℤ

-- the forward loop from index `idx`; the list is `text[idx .. N)`
unfoldable pub v1_forward : Bool → Bool → Bytes → Bytes → ℕ → ℕ → ℤ → Option Forward
unfolding fold_char ◌+ℤ◌
v1_forward case_sensitive normalize pattern [] idx pidx sidx =
    some (record { pidx = pidx; sidx = sidx; eidx = minus_one })
v1_forward case_sensitive normalize pattern (c ∷ xs) idx pidx sidx = do
  p ← get_elem? pattern pidx
  let hit = fold_char case_sensitive normalize c == p
  let sidx' = if hit && ltb_ℤ sidx (pos 0) then to_i32 idx else sidx
  let pidx' = if hit then pidx + 1 else pidx
  let rest = v1_forward case_sensitive normalize pattern xs (idx + 1) pidx' sidx'
  if hit && pidx' == length pattern
      then some (record { pidx = pidx'; sidx = sidx'; eidx = to_i32 idx +ℤ pos 1 })
      else rest

-- The backward loop at index `idx`: the new `start`. The test `idx >= start` of unsigned numbers
-- lets `idx` wrap below 0, and the next read is outside the text. `pidx--` goes below 0 when the
-- byte 0 of the pattern has matched. The comparison does not normalise.
unfoldable pub v1_backward : Bool → Bytes → Bytes → ℕ → ℕ → ℕ → Option ℕ
unfolding fold_char
v1_backward case_sensitive text pattern start zero pidx = do
  c ← get_elem? text 0
  p ← get_elem? pattern pidx
  if fold_char case_sensitive false c == p && pidx == 0 then some 0 else none
v1_backward case_sensitive text pattern start (suc idx) pidx = do
  c ← get_elem? text (suc idx)
  p ← get_elem? pattern pidx
  let hit = fold_char case_sensitive false c == p
  let rest = v1_backward case_sensitive text pattern start idx (if hit then pidx - 1 else pidx)
  if hit && pidx == 0 then some (suc idx) else if leb start idx then rest else some start

-- `fzf_fuzzy_match_v1` does not touch the slab.
unfoldable pub fzf_fuzzy_match_v1 :
    Bool → Bool → Bytes → Bytes → Option Positions → Option (Result × Option Positions)
fzf_fuzzy_match_v1 case_sensitive normalize text pattern out =
    if length pattern == 0 then some (empty_match, out) else (do
      first ← ascii_fuzzy_index text pattern case_sensitive
      if ltb_ℤ first (pos 0) then some (no_match, out) else (do
        f ← v1_forward case_sensitive normalize pattern text 0 0 minus_one
        if ltb_ℤ f.sidx (pos 0) || ltb_ℤ f.eidx (pos 0) then some (no_match, out) else (do
          let end = to_size f.eidx
          start ← v1_backward case_sensitive text pattern (to_size f.sidx) (end - 1) (f.pidx - 1)
          (score, out') ← calculate_score case_sensitive normalize text pattern start end out
          some (record { start = to_i32 start; end = to_i32 end; score = score }, out'))))
