-- ===== src/Fzf/V2/Grid/Way.antt =====
-- What `fzf_fuzzy_match_v2` gives for a pattern of two bytes or more, from its matrix on.
use native.Mathlib.Decide.{dec_lt}
use plugged.Common.{
  Bool, List, Option, ap, arith, inl, inr, length, none, refl, some, subst, suc, sym, true, zero, ℕ,
  ◌*◌, ◌++◌, ◌+◌, ◌-◌, ◌<◌, ◌∙◌, ◌∷◌, ◌≡◌, ◌≤◌,
}
use plugged.Fzf.Chars.{Bytes}
use plugged.Fzf.Positions.{Positions}
use plugged.Fzf.Positions.Growth.{Fits, Grown}
use plugged.Fzf.Slab.{Array}
use plugged.Fzf.V2.Grid.{Above, IsLaid, Layout, grid_rows, grid_width}
use plugged.Fzf.V2.Grid.FillRows.{KeepsFirst, RowsTo}
use plugged.Fzf.V2.Grid.Keeps.{the-Cell, trace_keeps_lem}
use plugged.Fzf.V2.Grid.Peak.{Top, last_row, pos-injective}
use plugged.Fzf.V2.Grid.Walk.{Trail, walk_lem}
use plugged.Fzf.V2.Rows.{Matrix}
use plugged.Fzf.V2.Trace.{trace_keeps, trace_loop, trace_positions}

-- The way that leads to the end of the match: with an array of positions a place for each byte of the
-- pattern, from the last back to the first, which is the start; without one the start is the end.
abbrev pub Way :
    (ℕ → ℕ → Bool) → Bytes → Bytes → Option Positions → ℕ → ℕ → Option Positions → Type 0
Way hit pattern text none start end q = (q ≡ none) × (start ≡ end)
Way hit pattern text (some p) start end q =
    (places : List ℕ) × Grown (some p) (end ∷ places) q
    × Trail hit pattern text (length pattern - 1) (suc end) (end ∷ places) start

module _ (l : Layout) (laid : IsLaid l) (g : Matrix) (f : Array) (kept : KeepsFirst l f)
    (full : RowsTo l (last_row l) g) where
  -- The way back keeps the best place.
  best_kept :
      trace_keeps g f (l.first 0) (grid_width l) (last_row l) g.max_score_pos true ≡ some true
  best_kept =
      let (t, inside) = full.top refl in
      let row : last_row l < grid_rows l = omega (arith, laid.two) in
      let (b, run, _, start, rise) =
        trace_keeps_lem l laid g f kept full (last_row l) g.max_score_pos true row t.from inside in
      elim t.fresh [
        | inl at_first ↦ run ∙ ap some (start at_first)
        | inr (left, before, less) ↦ elim (dec_lt (l.first (last_row l)) g.max_score_pos) [
          | yes later ↦ run ∙ ap some (rise t.best left t.rises t.best_at later before less)
          | no at_first ↦ run ∙ ap some (start (omega (arith, t.from)))
        ]
      ]

  walk_best :
      (p : Positions)
      → length p.cells ≤ p.cap
      → (start : ℕ) × (q : Positions) × (trace_loop g f
            (l.first 0)
            (grid_width l)
            g.max_score_pos
            (last_row l)
            true
            p
          ≡ some (start, q))
        × Way l.hit l.pattern l.text (some p) start g.max_score_pos (some q)
  walk_best p fits =
      let (t, inside) = full.top refl in
      let row : last_row l < grid_rows l = omega (arith, laid.two) in
      let (start, q, places, run, cells, room, trail, head) =
        walk_lem l laid g f kept full g.max_score_pos (last_row l) true p row t.from inside fits in
      let (rest, same) = head best_kept in
      (
        start,
        q,
        run,
        (
          rest,
          (cells ∙ ap (λ t. p.cells ++ t) same, room),
          subst (λ t. Trail l.hit l.pattern l.text (last_row l) (suc g.max_score_pos) t start) same
              trail,
        ),
      )

  -- The positions, with an array for them or without.
  pub trace_positions_lem :
      (out : Option Positions)
      → Fits out
      → (start : ℕ) × (q : Option Positions) × (trace_positions out g f
            (l.first 0)
            (grid_width l)
            (grid_rows l)
          ≡ some (start, q))
        × Way l.hit l.pattern l.text out start g.max_score_pos q
  unfolding trace_positions
  trace_positions_lem none fits = (g.max_score_pos, none, refl, (refl, refl))
  trace_positions_lem (some p) fits =
      let (start, q, run, way) = walk_best p fits in (start, some q, rw run refl, way)

  -- The best score is not 0, and at most that of a run of matches.
  pub best_bounds :
      (t : Top l (last_row l) g)
      → g.max_score_pos ≤ l.last
      → (0 < t.best) × (t.best ≤ 24 * grid_rows l + 8)
  best_bounds t inside =
      let row : last_row l < grid_rows l = omega (arith, laid.two) in
      let cell = the-Cell l laid g f kept full (last_row l) g.max_score_pos row t.from inside in
      let same = pos-injective t.best cell.score (sym t.best_at ∙ cell.score_at) in
      (above_zero (last_row l) t.best t.rises.1, omega (arith, same, cell.low))
    where
      above_zero : (i score : ℕ) → Above l g.h.cells i g.max_score_pos score → 0 < score
      above_zero zero score up = up
      above_zero (suc i) score (d, _, up) = omega (arith, up)
