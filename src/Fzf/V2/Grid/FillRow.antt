-- ===== src/Fzf/V2/Grid/FillRow.antt =====
-- That a row of the matrix of `fzf_fuzzy_match_v2` is filled in bounds.
use native.Mathlib.Decide.{dec_lt}
use native.Mathlib.Nat.{mul-le-mul_right}
use plugged.Common.{
  Bool, SameBelow, ap, arith, get_elem?, inr, refl, some, subst, suc, sym, zero, ℕ, ◌*◌, ◌+◌, ◌-◌,
  ◌<◌, ◌∙◌, ◌≡◌, ◌≤◌,
}
use plugged.Fzf.Skip.First.{earlier}
use plugged.Fzf.Slab.{Array}
use plugged.Fzf.V2.Grid.{
  AllRead, Cell, IsLaid, Layout, cell_index, first-le, grid_rows, grid_width, row-suc,
}
use plugged.Fzf.V2.Grid.Fill.{CellFilled, Left, Roomy, fill_cell_lem}
use plugged.Fzf.V2.Grid.Kept.{Cell-kept}
use plugged.Fzf.V2.Grid.Peak.{Peak, Peak-next}
use plugged.Fzf.V2.Rows.{Matrix, fill_cell, fill_row}

-- The cells of a row are filled up to a place.
abbrev pub CellsTo : Layout → Matrix → ℕ → ℕ → Type 0
CellsTo l s i limit = (j : ℕ) → l.first i ≤ j → j < limit → Cell l s.h.cells s.c.cells i j

module _ (l : Layout) (laid : IsLaid l) (i : ℕ) (lt : suc i < grid_rows l) where
  -- The rows above are left.
  pub row_kept :
      (s s' : Matrix) (k limit to : ℕ)
      → k ≤ i
      → suc i * grid_width l ≤ limit
      → to ≤ suc l.last
      → SameBelow limit s.h.cells s'.h.cells
      → SameBelow limit s.c.cells s'.c.cells
      → CellsTo l s k to
      → CellsTo l s' k to
  row_kept s s' k limit to le room inside same same_c cells j from below =
      Cell-kept l s.h.cells s.c.cells s'.h.cells s'.c.cells k j limit (cells j from below) same
        same_c (omega (arith, row-suc l k, row_order, first-le l laid k (omega arith)))
        (omega (arith, first-le l laid k (omega arith)))
    where
      row_order : suc k * grid_width l ≤ suc i * grid_width l
      row_order = mul-le-mul_right {m = suc k} {n = suc i} (grid_width l) (omega arith)

  -- What the loop over the row knows at a place.
  pub record Filling (col : ℕ) (s0 s : Matrix) : Type 0 where
    pub room : Roomy l s
    pub h_kept : SameBelow (suc i * grid_width l) s0.h.cells s.h.cells
    pub c_kept : SameBelow (suc i * grid_width l) s0.c.cells s.c.cells
    pub above : CellsTo l s i (suc l.last)
    pub cells : CellsTo l s (suc i) col
    pub before : Left l s.h.cells (suc i) col
    pub peak : Peak l (suc i) col s

  cells_next :
      (col : ℕ) (s s' : Matrix)
      → l.first (suc i) ≤ col
      → CellsTo l s (suc i) col
      → CellFilled l (suc i) col s s'
      → CellsTo l s' (suc i) (suc col)
  cells_next col s s' from cells filled j low below =
      let away = first-le l laid (suc i) lt in
      elim (dec_lt j col) [
        | yes earlier ↦
            Cell-kept l s.h.cells s.c.cells s'.h.cells s'.c.cells (suc i) j
              (cell_index l (suc i) col) (cells j low earlier) filled.h_same filled.c_same
              (omega arith) (omega arith)
        | no later ↦
            let at : col ≡ j = omega arith in
            subst (λ k. Cell l s'.h.cells s'.c.cells (suc i) k) at filled.made
      ]

  Filling-next :
      (col : ℕ) (s0 s s' : Matrix)
      → l.first (suc i) ≤ col
      → col ≤ l.last
      → Filling col s0 s
      → CellFilled l (suc i) col s s'
      → Filling (suc col) s0 s'
  Filling-next col s0 s s' from to f filled =
      let away = first-le l laid (suc i) lt in
      let index = cell_index l (suc i) col in
      record {
        room = filled.roomy;
        h_kept = λ k under. filled.h_same k (omega arith) ∙ f.h_kept k under;
        c_kept = λ k under. filled.c_same k (omega arith) ∙ f.c_kept k under;
        above =
            row_kept s s' i index (suc l.last) (omega arith) (omega arith) (omega arith)
              filled.h_same filled.c_same f.above;
        cells = λ j low below. cells_next col s s' from f.cells filled j low below;
        before = record {
          left = filled.made.score;
          left_at = ap (get_elem? s'.h.cells) (omega arith) ∙ filled.made.score_at;
          left_low = filled.made.low;
          starts = inr (omega arith);
        };
        peak = Peak-next l laid i col lt s s' from filled f.before f.peak;
      }

  module _ (t bo : Array) (all_read : AllRead l t.cells bo.cells) (p : ℕ)
      (asked : get_elem? l.pattern (suc i) ≡ some p) (s0 : Matrix) where
    pub fill_row_lem :
        (left here col : ℕ) (in_gap : Bool) (s : Matrix)
        → here ≡ cell_index l (suc i) col
        → col + left ≡ suc l.last
        → l.first (suc i) ≤ col
        → Filling col s0 s
        → (s' : Matrix) × (fill_row
              (grid_rows l)
              t
              bo
              (grid_width l)
              p
              (suc i)
              left
              here
              col
              in_gap
              s
            ≡ some s')
          × Filling (suc l.last) s0 s'
    unfolding fill_row
    fill_row_lem zero here col in_gap s at size from f =
        (s, refl, subst (λ c. Filling c s0 s) (omega (arith, size)) f)
    fill_row_lem (suc left) here col in_gap s at size from f =
        let away = first-le l laid (suc i) lt in
        let (s1, gap, run, filled) =
          fill_cell_lem l laid t bo all_read i col p in_gap s lt from (omega (arith, size)) asked
            f.room (f.above (col - 1) (omega (arith, laid.increases i lt)) (omega arith))
            f.before in
        let (s', rest, over) =
          fill_row_lem left (here + 1) (col + 1) gap s1 (omega (arith, at)) (omega (arith, size))
            (omega arith)
            (subst (λ c. Filling c s0 s1) (omega arith)
              (Filling-next col s0 s s1 from (omega (arith, size)) f filled)) in
        let run' =
          subst
            (λ (k : ℕ).
              fill_cell (grid_rows l) t bo (grid_width l) p (suc i) k col in_gap s ≡ some (s1, gap))
            (sym at) run in
        (s', rw run' rest, over)
