-- ===== src/Fzf/V2/Grid/Kept.antt =====
-- The cells of the matrix of `fzf_fuzzy_match_v2` that a write leaves.
use plugged.Common.{List, SameBelow, arith, inl, inr, suc, zero, ℕ, ℤ, ◌-◌, ◌<◌, ◌∙◌, ◌≤◌, ◌⊎◌}
use plugged.Fzf.Skip.First.{after}
use plugged.Fzf.V2.Grid.{Above, Cell, Falls, Layout, Rises, cell_index, row-suc}

Above-kept :
    (l : Layout) (h h' : List ℤ) (i j score limit : ℕ)
    → Above l h i j score
    → SameBelow limit h h'
    → cell_index l i j ≤ limit
    → Above l h' i j score
Above-kept l h h' zero j score limit up same lt = up
Above-kept l h h' (suc i) j score limit (d, at, le) same lt =
    (d, same (cell_index l i (j - 1)) (omega (arith, row-suc l i)) ∙ at, le)

pub Rises-kept :
    (l : Layout) (h h' : List ℤ) (i j score limit : ℕ)
    → Rises l h i j score
    → SameBelow limit h h'
    → cell_index l i j ≤ limit
    → Rises l h' i j score
Rises-kept l h h' i j score limit (here, up) same lt =
    (here, Above-kept l h h' i j score limit up same lt)

pub shape_kept :
    (l : Layout) (h h' : List ℤ) (i j score limit : ℕ)
    → l.first 0 ≤ l.first i
    → Rises l h i j score ⊎ Falls l h i j score
    → SameBelow limit h h'
    → cell_index l i j ≤ limit
    → Rises l h' i j score ⊎ Falls l h' i j score
shape_kept l h h' i j score limit after (inl (here, up)) same lt =
    inl (Rises-kept l h h' i j score limit (here, up) same lt)
shape_kept l h h' i j score limit after (inr (later, inl z)) same lt = inr (later, inl z)
shape_kept l h h' i j score limit after (inr (later, inr (left, at, less))) same lt =
    inr (later, inr (left, same (cell_index l i (j - 1)) (omega arith) ∙ at, less))

-- A cell does not change when nothing up to it is written.
pub Cell-kept :
    (l : Layout) (h c h' c' : List ℤ) (i j limit : ℕ)
    → Cell l h c i j
    → SameBelow limit h h'
    → SameBelow limit c c'
    → cell_index l i j < limit
    → l.first 0 ≤ l.first i
    → Cell l h' c' i j
Cell-kept l h c h' c' i j limit x same_h same_c lt after = record {
  score = x.score;
  run = x.run;
  score_at = same_h (cell_index l i j) lt ∙ x.score_at;
  run_at = same_c (cell_index l i j) lt ∙ x.run_at;
  low = x.low;
  brief = x.brief;
  started = x.started;
  shape = shape_kept l h h' i j x.score limit after x.shape same_h (omega arith);
}
