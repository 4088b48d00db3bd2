-- ===== src/Fzf/V2/Grid/Peak.antt =====
-- The best score of the last row of the matrix of `fzf_fuzzy_match_v2`.
use plugged.Common.{
  Bool-cases, List, SameBelow, ap, arith, false, get_elem?, inl, inr, ltb_ℤ, pos, refl, some, suc,
  sym, true, ℕ, ℤ, ◌-◌, ◌<◌, ◌==◌, ◌∙◌, ◌≡◌, ◌≤◌, ◌⊎◌,
}
use plugged.Fzf.V2.Grid.{Cell, IsLaid, Layout, Rises, cell_index, first-le, grid_rows}
use plugged.Fzf.V2.Grid.Fill.{CellFilled, Left}
use plugged.Fzf.V2.Grid.Kept.{Rises-kept}
use plugged.Fzf.V2.Rows.{Matrix}

abbrev pub last_row : Layout → ℕ
last_row l = grid_rows l - 1

-- The best score so far stands at its place, a match that scores more than the place before it.
pub record Top (l : Layout) (i : ℕ) (s : Matrix) : Type 0 where
  pub best : ℕ
  pub best_is : s.max_score ≡ pos best
  pub from : l.first i ≤ s.max_score_pos
  pub best_at : get_elem? s.h.cells (cell_index l i s.max_score_pos) ≡ some (pos best)
  pub rises : Rises l s.h.cells i s.max_score_pos best
  pub fresh :
      (s.max_score_pos ≡ l.first i)
      ⊎ ((left : ℕ) × (get_elem? s.h.cells (cell_index l i (s.max_score_pos - 1)) ≡ some (pos left))
          × (left < best))

-- Before a place of a row: no score yet, or the best one, which the score before the place does
-- not exceed.
abbrev pub Peak : (l : Layout) → ℕ → ℕ → Matrix → Type 0
Peak l i col s =
    ((s.max_score ≡ pos 0) × (i ≡ last_row l → col ≡ l.first i))
    ⊎ ((i ≡ last_row l)
        × (t : Top l i s) × (s.max_score_pos < col)
        × ((left : ℕ)
            → get_elem? s.h.cells (cell_index l i col - 1) ≡ some (pos left)
            → left ≤ t.best))

-- It stays when nothing up to its cell changes.
pub Top-kept :
    (l : Layout) (i : ℕ) (s s' : Matrix) (limit : ℕ)
    → l.first 0 ≤ l.first i
    → (t : Top l i s) → SameBelow limit s.h.cells s'.h.cells
    → cell_index l i s.max_score_pos < limit
    → s'.max_score ≡ s.max_score
    → s'.max_score_pos ≡ s.max_score_pos
    → (t' : Top l i s') × (t'.best ≡ t.best)
Top-kept l i s s' limit mono t same lt e e' = (
  record {
    best = t.best;
    best_is = e ∙ t.best_is;
    from = rw e' t.from;
    best_at = rw e' (same (cell_index l i s.max_score_pos) lt ∙ t.best_at);
    rises = rw e' (
        Rises-kept l s.h.cells s'.h.cells i s.max_score_pos t.best limit t.rises same
          (omega arith));
    fresh = rw e' (elim t.fresh [
      | inl start ↦ inl start
      | inr (left, at, less) ↦
          inr (left, same (cell_index l i (s.max_score_pos - 1)) (omega arith) ∙ at, less)
    ]);
  },
  refl,
)

-- The score before a place, read in the matrix that the place has been written in.
left_read :
    (l : Layout) (i col : ℕ) (h h' : List ℤ)
    → l.first 0 ≤ l.first i
    → l.first i < col
    → (before : Left l h i col) → SameBelow (cell_index l i col) h h'
    → get_elem? h' (cell_index l i (col - 1)) ≡ some (pos before.left)
left_read l i col h h' mono later before same =
    let back : cell_index l i col - 1 ≡ cell_index l i (col - 1) = omega arith in
    same (cell_index l i (col - 1)) (omega arith) ∙ ap (get_elem? h) (sym back) ∙ before.left_at

pub pos-injective : (a b : ℕ) → some (pos a) ≡ some (pos b) → a ≡ b
pos-injective a b e = cc

-- A cell that is above the best score so far becomes the best.
Top-new :
    (l : Layout) (i col : ℕ) (s s' : Matrix)
    → (x : Cell l s'.h.cells s'.c.cells i col) → l.first 0 ≤ l.first i
    → l.first i ≤ col
    → (before : Left l s.h.cells i col) → SameBelow (cell_index l i col) s.h.cells s'.h.cells
    → before.left < x.score
    → s'.max_score ≡ pos x.score
    → s'.max_score_pos ≡ col
    → (t : Top l i s') × (t.best ≡ x.score)
Top-new l i col s s' x mono from before same more e e' = (
  record {
    best = x.score;
    best_is = e;
    from = rw e' from;
    best_at = rw e' x.score_at;
    rises = rw e' (elim x.shape [
      | inl up ↦ up
      | inr (later, inl none_scored) ↦ absurd (omega (arith, more, none_scored))
      | inr (later, inr (left, at, less)) ↦
          let e = left_read l i col s.h.cells s'.h.cells mono later before same in
          let equal = pos-injective left before.left (sym at ∙ e) in
          absurd (omega (arith, more, less, equal))
    ]);
    fresh = rw e' (elim before.starts [
      | inl (none_left, start) ↦ inl start
      | inr later ↦
          inr (before.left, left_read l i col s.h.cells s'.h.cells mono later before same, more)
    ]);
  },
  refl,
)

module _ (l : Layout) (laid : IsLaid l) (i col : ℕ) (lt : suc i < grid_rows l) (s s' : Matrix)
    (from : l.first (suc i) ≤ col) (filled : CellFilled l (suc i) col s s') where
  mono : l.first 0 ≤ l.first (suc i)
  mono = omega (arith, first-le l laid (suc i) lt)

  -- What is read at the end of the cell is its score.
  score_below :
      (best : ℕ)
      → filled.made.score ≤ best
      → (left : ℕ) → get_elem? s'.h.cells (cell_index l (suc i) (suc col) - 1) ≡ some (pos left)
      → left ≤ best
  score_below best le left at =
      let here : cell_index l (suc i) (suc col) - 1 ≡ cell_index l (suc i) col =
        omega (arith, mono) in
      let equal =
        pos-injective left filled.made.score
          (sym at ∙ ap (get_elem? s'.h.cells) here ∙ filled.made.score_at) in
      omega (arith, equal, le)

  Peak-better :
      suc i ≡ last_row l
      → (before : Left l s.h.cells (suc i) col) → before.left < filled.made.score
      → ltb_ℤ s.max_score (pos filled.made.score) ≡ true
      → Peak l (suc i) (suc col) s'
  Peak-better row before more better =
      let here : (suc i == grid_rows l - 1) ≡ true = ground arith in
      let place : s'.max_score_pos ≡ col = rw (here, better) at filled.best_place in
      let (t, e) =
        Top-new l (suc i) col s s' filled.made mono from before filled.h_same more
          (rw (here, better) at filled.best_score) place in
      inr (row, t, omega (arith, place), score_below t.best (omega (arith, e)))

  pub Peak-next :
      (before : Left l s.h.cells (suc i) col) → Peak l (suc i) col s → Peak l (suc i) (suc col) s'
  Peak-next before (inl (none_yet, start)) = elim (Bool-cases (suc i == grid_rows l - 1)) [
    | inl here ↦
        let row : suc i ≡ last_row l = ground arith in
        let at_start : col ≡ l.first (suc i) = start row in
        elim before.starts [
          | inl (none_left, _) ↦ elim filled.made.shape [
            | inl (_, (d, _, up)) ↦
                Peak-better row before (omega (arith, none_left, up))
                  (rw none_yet (ground (arith, up)))
            | inr (later, _) ↦ absurd (omega (arith, later, at_start))
          ]
          | inr later ↦ absurd (omega (arith, later, at_start))
        ]
    | inr other ↦ inl ((rw other at filled.best_score) ∙ none_yet, λ row. absurd (ground arith))
  ]
  Peak-next before (inr (row, t, below, left_le)) =
      let here : (suc i == grid_rows l - 1) ≡ true = ground arith in
      let left_best = left_le before.left before.left_at in
      elim (Bool-cases (ltb_ℤ s.max_score (pos filled.made.score))) [
        | inl better ↦
            let more : ltb_ℤ (pos t.best) (pos filled.made.score) ≡ true = rw t.best_is at better in
            Peak-better row before (ground arith) better
        | inr worse ↦
            let less : ltb_ℤ (pos t.best) (pos filled.made.score) ≡ false = rw t.best_is at worse in
            let place : s'.max_score_pos ≡ s.max_score_pos =
              rw (here, worse) at filled.best_place in
            let (t', e) =
              Top-kept l (suc i) s s' (cell_index l (suc i) col) mono t filled.h_same
                (omega (arith, mono, t.from)) (rw (here, worse) at filled.best_score) place in
            inr (row, t', omega (arith, place), score_below t'.best (ground (arith, e)))
      ]
