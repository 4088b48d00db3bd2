-- ===== src/Fzf/V2/Trace.antt =====
-- fzf.c, lines 727-757: the way back through the matrix, which collects the positions.
use plugged.Common.{
  Bool, Option, add_size, eqb_ℤ, false, if◌then◌else◌, leb, length, ltb, ltb_ℤ, none, pos, some,
  sub_size, suc, to_size, true, zero, ℕ, ℤ, ◌&&◌, ◌*◌, ◌+◌, ◌-◌, ◌==◌, ◌>>=◌, ◌||◌,
}
use plugged.Fzf.Positions.{Positions, unsafe_append_pos}
use plugged.Fzf.Slab.{Array}
use plugged.Fzf.V2.Memory.{load}
use plugged.Fzf.V2.Rows.{Matrix}

-- `s1` and `s2` of a cell of row `i` at the place `j`.
unfoldable pub trace_scores : Matrix → Array → ℕ → ℕ → ℕ → ℕ → Option (ℤ × ℤ)
unfolding load
trace_scores g f f0 width i j = do
  fi ← load f i
  let first = to_size fi
  let here = add_size (i * width) (sub_size j f0)
  s1 ← if ltb 0 i && leb first j then load g.h (sub_size (sub_size here width) 1) else some (pos 0)
  s2 ← if ltb first j then load g.h (sub_size here 1) else some (pos 0)
  some (s1, s2)

-- `prefer_match` for the next round; `here` is the cell just left
unfoldable pub trace_prefers : Matrix → ℕ → ℕ → Option Bool
unfolding load
trace_prefers g width here = do
  run ← load g.c here
  if ltb_ℤ (pos 1) run
      then some true
      else if ltb (here + width + 1) (length g.c.cells)
      then (do next ← load g.c (here + width + 1); some (ltb_ℤ (pos 0) next))
      else some false

-- What a round decides: the place is kept, and it was the last one; or the next row.
unfoldable pub trace_keeps : Matrix → Array → ℕ → ℕ → ℕ → ℕ → Bool → Option Bool
trace_keeps g f f0 width i j prefer_match = do
  s ← load g.h (add_size (i * width) (sub_size j f0))
  (s1, s2) ← trace_scores g f f0 width i j
  some (ltb_ℤ s1 s && (ltb_ℤ s2 s || (eqb_ℤ s s2 && prefer_match)))

-- The loop at the place `j` and the row `i`. Below the place 0 `j` wraps, and the next read is
-- outside the matrix.
unfoldable pub trace_loop :
    Matrix → Array → ℕ → ℕ → ℕ → ℕ → Bool → Positions → Option (ℕ × Positions)
trace_loop g f f0 width zero i prefer_match out = do
  keep ← trace_keeps g f f0 width i 0 prefer_match
  if keep && i == 0 then (do out' ← unsafe_append_pos out 0; some (0, out')) else none
trace_loop g f f0 width (suc j) i prefer_match out = do
  keep ← trace_keeps g f f0 width i (suc j) prefer_match
  out' ← if keep then unsafe_append_pos out (suc j) else some out
  let onward = (do
    prefer ← trace_prefers g width (add_size (i * width) (sub_size (suc j) f0))
    trace_loop g f f0 width j (if keep then i - 1 else i) prefer out')
  if keep && i == 0 then some (suc j, out') else onward

-- Without an array of positions the start of the match is not looked for.
unfoldable pub trace_positions :
    Option Positions → Matrix → Array → ℕ → ℕ → ℕ → Option (ℕ × Option Positions)
trace_positions none g f f0 width m = some (g.max_score_pos, none)
trace_positions (some p) g f f0 width m = do
  (j, q) ← trace_loop g f f0 width g.max_score_pos (m - 1) true p
  some (j, some q)
