-- ===== src/Fzf/V2/Grid/FillRows.antt =====
-- That the matrix of `fzf_fuzzy_match_v2` is filled in bounds, row by row.
use native.Mathlib.Decide.{dec_le}
use native.Mathlib.Numerals.{add-one}
use plugged.Common.{
  SameBelow, arith, false, get_elem?, get_elem?-of_lt, get_elem?-set_above, get_elem?-set_here, inl,
  inr, length, length-set, pos, refl, set, some, sub_size, subst, suc, to_size, to_size_of_lt, zero,
  ℕ, ◌*◌, ◌+◌, ◌-◌, ◌<◌, ◌∙◌, ◌≡◌, ◌≤◌,
}
use plugged.Fzf.Chars.{Bytes}
use plugged.Fzf.Skip.First.{earlier}
use plugged.Fzf.Slab.{Array}
use plugged.Fzf.V2.Cells.{store-in}
use plugged.Fzf.V2.Grid.{
  AllRead, IsLaid, Layout, cell_index, first-le, grid_rows, grid_width, room-small, row-room,
}
use plugged.Fzf.V2.Grid.Fill.{Roomy}
use plugged.Fzf.V2.Grid.FillRow.{CellsTo, Filling, fill_row_lem, row_kept}
use plugged.Fzf.V2.Grid.Peak.{Top, last_row}
use plugged.Fzf.V2.Memory.{load}
use plugged.Fzf.V2.Rows.{Matrix, fill_row, fill_rows}

-- What is filled once the rows up to one are.
pub record RowsTo (l : Layout) (off : ℕ) (s : Matrix) : Type 0 where
  pub room : Roomy l s
  pub filled : (k : ℕ) → k ≤ off → CellsTo l s k (suc l.last)
  pub none_yet : off < last_row l → s.max_score ≡ pos 0
  pub top : off ≡ last_row l → Top l (last_row l) s × (s.max_score_pos ≤ l.last)

-- The places of the first bytes, as the matcher keeps them.
abbrev pub KeepsFirst : Layout → Array → Type 0
KeepsFirst l f = (k : ℕ) → k < grid_rows l → get_elem? f.cells k ≡ some (pos (l.first k))

-- A round of the loop over the rows.
fill_rows-step :
    (pattern : Bytes) (t bo f : Array) (f0 width last left off : ℕ) (s s1 s' : Matrix)
    (p col here before cells : ℕ)
    → get_elem? f.cells (suc off) ≡ some (pos col)
    → get_elem? pattern (suc off) ≡ some p
    → to_size (pos col) ≡ col
    → sub_size (suc off * width + col) f0 ≡ here
    → sub_size here 1 ≡ before
    → before < length s.h.cells
    → sub_size (last + 1) col ≡ cells
    → fill_row
        (length pattern)
        t
        bo
        width
        p
        (suc off)
        cells
        here
        col
        false
        (record s { h = record s.h { cells = set s.h.cells before (pos 0) } })
      ≡ some s1
    → fill_rows pattern t bo f f0 width last left (suc off) s1 ≡ some s'
    → fill_rows pattern t bo f f0 width last (suc left) off s ≡ some s'
unfolding fill_rows load
fill_rows-step pattern t bo f f0 width last left off s s1 s' p col here before cells at asked first
      index back room count run rest =
    rw (add-one off, at, asked, first, index, back, store-in s.h before (pos 0) room, count, run)
      rest

module _ (l : Layout) (laid : IsLaid l) where
  -- The matrix with the cell before the first of a row cleared.
  abbrev cleared : ℕ → Matrix → Matrix
  cleared i s = record s {
    h = record s.h { cells = set s.h.cells (cell_index l i (l.first i) - 1) (pos 0) };
  }

  row_start :
      (off : ℕ) (s : Matrix) (lt : suc off < grid_rows l)
      → RowsTo l off s
      → Filling l laid off lt (l.first (suc off)) s (cleared (suc off) s)
  row_start off s lt r =
      let away = first-le l laid (suc off) lt in
      let index = cell_index l (suc off) (l.first (suc off)) - 1 in
      let fits : index < grid_width l * grid_rows l =
        omega (arith, row-room l (suc off) lt, laid.reaches (suc off) lt) in
      let same : SameBelow (suc off * grid_width l) s.h.cells (set s.h.cells index (pos 0)) =
        λ k under. get_elem?-set_above s.h.cells index k (pos 0) (omega arith) in
      record {
        room = record {
          h_size = length-set s.h.cells index (pos 0) ∙ r.room.h_size;
          c_size = r.room.c_size;
        };
        h_kept = same;
        c_kept = λ k under. refl;
        above =
            row_kept l laid off lt s (cleared (suc off) s) off (suc off * grid_width l) (suc l.last)
              (omega arith) (omega arith) (omega arith) same (λ k under. refl)
              (r.filled off (omega arith));
        cells = λ j low below. absurd (omega (arith, low, below));
        before = record {
          left = 0;
          left_at = get_elem?-set_here s.h.cells index (pos 0) (omega (arith, r.room.h_size));
          left_low = omega arith;
          starts = inl (refl, refl);
        };
        peak = inl (r.none_yet (omega arith), λ row. refl);
      }

  row_end :
      (off : ℕ) (s s' : Matrix) (lt : suc off < grid_rows l)
      → RowsTo l off s
      → Filling l laid off lt (suc l.last) s s'
      → RowsTo l (suc off) s'
  row_end off s s' lt r f = record {
    room = f.room;
    filled = λ k le. elim (dec_le k off) [
      | yes earlier ↦
          row_kept l laid off lt s s' k (suc off * grid_width l) (suc l.last) earlier (omega arith)
            (omega arith) f.h_kept f.c_kept (r.filled k earlier)
      | no later ↦
          let at : suc off ≡ k = omega arith in subst (λ i. CellsTo l s' i (suc l.last)) at f.cells
    ];
    none_yet = λ more. elim f.peak [
      | inl (none_yet, _) ↦ none_yet
      | inr (row, _, _, _) ↦ absurd (omega (arith, more, row))
    ];
    top = λ row. elim f.peak [
      | inl (_, start) ↦ absurd (omega (arith, start row, laid.reaches (suc off) lt))
      | inr (_, t, below, _) ↦ (subst (λ i. Top l i s') row t, omega (arith, below))
    ];
  }

  module _ (t bo f : Array) (all_read : AllRead l t.cells bo.cells) (kept : KeepsFirst l f) where
    pub fill_rows_lem :
        (left off : ℕ) (s : Matrix)
        → off + left ≡ last_row l
        → RowsTo l off s
        → (s' : Matrix) × (fill_rows l.pattern t bo f (l.first 0) (grid_width l) l.last left off s
            ≡ some s')
          × RowsTo l (last_row l) s'
    unfolding fill_rows
    fill_rows_lem zero off s size r = (s, refl, subst (λ i. RowsTo l i s) (omega (arith, size)) r)
    fill_rows_lem (suc left) off s size r =
        let lt : suc off < grid_rows l = omega (arith, size, laid.two) in
        let away = first-le l laid (suc off) lt in
        let reach = laid.reaches (suc off) lt in
        let (p, asked) = get_elem?-of_lt l.pattern (suc off) lt in
        let col = l.first (suc off) in
        let cleared_at = cell_index l (suc off) col - 1 in
        let low = room-small l laid in
        let fits = row-room l (suc off) lt in
        let first : to_size (pos col) ≡ col =
          to_size_of_lt col (omega (arith, laid.inside, laid.small)) in
        let here : sub_size (suc off * grid_width l + col) (l.first 0)
            ≡ cell_index l (suc off) col =
          omega arith in
        let before : sub_size (cell_index l (suc off) col) 1 ≡ cleared_at = omega arith in
        let cells : sub_size (l.last + 1) col ≡ suc l.last - col =
          omega (arith, laid.inside, laid.small) in
        let (s1, run, filling) =
          fill_row_lem l laid off lt t bo all_read p asked s (suc l.last - col)
            (cell_index l (suc off) col) col false (cleared (suc off) s) refl (omega arith)
            (omega arith) (row_start off s lt r) in
        let (s', rest, over) =
          fill_rows_lem left (suc off) s1 (omega (arith, size)) (row_end off s s1 lt r filling) in
        (
          s',
          fill_rows-step l.pattern t bo f (l.first 0) (grid_width l) l.last left off s s1 s' p col
              (cell_index l (suc off) col) cleared_at (suc l.last - col) (kept (suc off) lt) asked
              first here before (omega (arith, r.room.h_size)) cells run rest,
          over,
        )
