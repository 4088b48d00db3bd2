-- ===== src/Fzf/V2/Grid/Fill.antt =====
-- That the matrix of `fzf_fuzzy_match_v2` is filled in bounds.
use mathlib.Core.Option.{some-injective}
use plugged.Common.{
  Bool, Bool-cases, List, SameBelow, ap, arith, eqb_ℤ, false, get_elem?, get_elem?-set_above,
  get_elem?-set_here, if◌then◌else◌, inl, inr, length, length-set, ltb_ℤ, pos, refl, set, some,
  sub_size, subst, suc, sym, to_i16, true, ℕ, ℤ, ◌&&◌, ◌*◌, ◌+ℤ◌, ◌+◌, ◌-◌, ◌<◌, ◌==◌, ◌∙◌, ◌≡◌,
  ◌≤◌, ◌⊎◌,
}
use plugged.Fzf.Chars.{score_gap_extension, score_gap_start}
use plugged.Fzf.Score.{max16}
use plugged.Fzf.Skip.Index.{verdict}
use plugged.Fzf.Slab.{Array}
use plugged.Fzf.V2.Cells.{store-in}
use plugged.Fzf.V2.Grid.{
  AllRead, Cell, Falls, IsLaid, Layout, Read, Rises, cell_index, first-le, grid_rows, grid_width,
  room-small, row-room, row-suc,
}
use plugged.Fzf.V2.Grid.Kept.{shape_kept}
use plugged.Fzf.V2.Grid.Scores.{cell_score, gap_score, match_score_lem}
use plugged.Fzf.V2.Memory.{load}
use plugged.Fzf.V2.Rows.{Matrix, fill_cell, match_score}

-- The matrix has room for its rows.
pub record Roomy (l : Layout) (s : Matrix) : Type 0 where
  pub h_size : length s.h.cells ≡ grid_width l * grid_rows l
  pub c_size : length s.c.cells ≡ grid_width l * grid_rows l

-- The score before a place in its row: 0 before the first.
pub record Left (l : Layout) (h : List ℤ) (i j : ℕ) : Type 0 where
  pub left : ℕ
  pub left_at : get_elem? h (cell_index l i j - 1) ≡ some (pos left)
  pub left_low : left ≤ 24 * suc i + 8
  pub starts : ((left ≡ 0) × (j ≡ l.first i)) ⊎ (l.first i < j)

-- The round that fills a cell, once its match has been scored.
fill_cell-run :
    (m : ℕ) (t bo : Array) (width p pidx here col ch left s1 run v : ℕ) (in_gap : Bool) (z : ℤ)
    (s : Matrix)
    → get_elem? t.cells col ≡ some (pos ch)
    → get_elem? s.h.cells (sub_size here 1) ≡ some (pos left)
    → to_i16 (pos left +ℤ (if in_gap then score_gap_extension else score_gap_start)) ≡ z
    → (if eqb_ℤ (pos p) (pos ch)
        then match_score bo s (sub_size (sub_size here 1) width) col z
        else some (pos 0, pos 0))
      ≡ some (pos s1, pos run)
    → max16 (max16 (pos s1) z) (pos 0) ≡ pos v
    → here < length s.h.cells
    → here < length s.c.cells
    → fill_cell m t bo width p pidx here col in_gap s
      ≡ some (
        record {
          h = record s.h { cells = set s.h.cells here (pos v) };
          c = record s.c { cells = set s.c.cells here (pos run) };
          max_score = if pidx == m - 1 && ltb_ℤ s.max_score (pos v) then pos v else s.max_score;
          max_score_pos =
              if pidx == m - 1 && ltb_ℤ s.max_score (pos v) then col else s.max_score_pos;
        },
        ltb_ℤ (pos s1) z,
      )
unfolding fill_cell load
fill_cell-run m t bo width p pidx here col ch left s1 run v in_gap z s at before gap scored best h
      c =
    rw (at, before, gap, scored, best, store-in s.c here (pos run) c, store-in s.h here (pos v) h)
      refl

-- What filling the cell leaves.
pub record CellFilled (l : Layout) (i j : ℕ) (s s' : Matrix) : Type 0 where
  pub roomy : Roomy l s'
  pub h_same : SameBelow (cell_index l i j) s.h.cells s'.h.cells
  pub c_same : SameBelow (cell_index l i j) s.c.cells s'.c.cells
  pub made : Cell l s'.h.cells s'.c.cells i j
  pub best_score : s'.max_score ≡ (
      if i == grid_rows l - 1 && ltb_ℤ s.max_score (pos made.score)
      then pos made.score
      else s.max_score)
  pub best_place :
      s'.max_score_pos
      ≡ (if i == grid_rows l - 1 && ltb_ℤ s.max_score (pos made.score) then j else s.max_score_pos)

module _ (l : Layout) (laid : IsLaid l) (t bo : Array) (all_read : AllRead l t.cells bo.cells) where
  -- The score and the run of a match, or 0 and 0 of another byte.
  scored :
      (i j p : ℕ) (s : Matrix) (z : ℤ)
      → suc i < grid_rows l
      → l.first (suc i) ≤ j
      → j ≤ l.last
      → get_elem? l.pattern (suc i) ≡ some p
      → (before : Cell l s.h.cells s.c.cells i (j - 1)) → (here : Read l t.cells bo.cells j)
      → (s1 : ℕ) × (run : ℕ) × ((if eqb_ℤ (pos p) (pos here.folded)
            then match_score bo s (cell_index l i (j - 1)) j z
            else some (pos 0, pos 0))
          ≡ some (pos s1, pos run))
        × (s1 ≤ before.score + 24)
        × (run ≤ suc before.run)
        × ((s1 ≡ 0) × (l.hit p here.byte ≡ false)
            ⊎ (before.score < s1) × (l.hit p here.byte ≡ true))
  scored i j p s z lt from to asked before here = elim (Bool-cases (l.hit p here.byte)) [
    | inl hit ↦
        let away : l.first 0 + suc i ≤ l.first (suc i) = first-le l laid (suc i) lt in
        let first = all_read (j - before.run) (omega (arith, before.started)) (omega arith) in
        let (s1, run, e, above, below, short) =
          match_score_lem bo s (cell_index l i (j - 1)) j before.score before.run here.bonus z
            before.score_at before.run_at here.bonus_at_place (omega (arith, before.low, laid.few))
            (omega (arith, before.brief, laid.few)) here.bonus_low (omega (arith, before.started))
            (omega (arith, laid.inside, laid.small))
            (first.bonus, first.bonus_at_place, first.bonus_low) in
        (s1, run, rw (here.same p, hit) e, below, short, inr (omega arith, hit))
    | inr miss ↦ (0, 0, rw (here.same p, miss) refl, omega arith, omega arith, inl (refl, miss))
  ]

  -- A match rises, and what is no match or scores less falls.
  shape_of :
      (i j p s1 v byte d : ℕ) (h : List ℤ)
      → suc i < grid_rows l
      → get_elem? l.pattern (suc i) ≡ some p
      → get_elem? l.text j ≡ some byte
      → get_elem? h (cell_index l i (j - 1)) ≡ some (pos d)
      → (before : Left l h (suc i) j)
      → ((s1 ≡ 0) × (l.hit p byte ≡ false) ⊎ (d < s1) × (l.hit p byte ≡ true))
      → ((v ≡ s1) ⊎ (v < before.left))
      → cell_index l (suc i) j - 1 ≡ cell_index l (suc i) (j - 1)
      → Rises l h (suc i) j v ⊎ Falls l h (suc i) j v
  shape_of i j p s1 v byte d h lt asked byte_at diag before verdict (inr less) back =
      elim before.starts [
        | inl (none_left, start) ↦ absurd (omega (arith, none_left, less))
        | inr later ↦ inr (later, inr (before.left, rw back at before.left_at, less))
      ]
  shape_of i j p s1 v byte d h lt asked byte_at diag before (inr (more, hit)) (inl e) back =
      inl ((p, byte, asked, byte_at, hit), (d, diag, omega (arith, more, e)))
  shape_of i j p s1 v byte d h lt asked byte_at diag before (inl (none_scored, miss)) (inl e) back =
      elim before.starts [
        | inl (none_left, start) ↦
            let (p', x', asked', byte_at', hit') = laid.found (suc i) lt in
            let asked_same : p' ≡ p = cc in
            let byte_same : x' ≡ byte =
              some-injective _ _ (sym byte_at' ∙ ap (get_elem? l.text) (sym start) ∙ byte_at) in
            let never : true ≡ false =
              sym hit'
              ∙ ap (λ x. l.hit p' x) byte_same
              ∙ ap (λ q. l.hit q byte) asked_same
              ∙ miss in
            cc
        | inr later ↦ inr (later, inl (e ∙ none_scored))
      ]

  -- A cell is filled in bounds.
  pub fill_cell_lem :
      (i j p : ℕ) (in_gap : Bool) (s : Matrix)
      → suc i < grid_rows l
      → l.first (suc i) ≤ j
      → j ≤ l.last
      → get_elem? l.pattern (suc i) ≡ some p
      → Roomy l s
      → Cell l s.h.cells s.c.cells i (j - 1)
      → Left l s.h.cells (suc i) j
      → (s' : Matrix) × (gap : Bool) × (fill_cell
            (grid_rows l)
            t
            bo
            (grid_width l)
            p
            (suc i)
            (cell_index l (suc i) j)
            j
            in_gap
            s
          ≡ some (s', gap))
        × CellFilled l (suc i) j s s'
  fill_cell_lem i j p in_gap s lt from to asked room above before =
      let away = first-le l laid (suc i) lt in
      let index = cell_index l (suc i) j in
      let fits : index < grid_width l * grid_rows l = omega (arith, row-room l (suc i) lt) in
      let low = room-small l laid in
      let back : sub_size index 1 ≡ index - 1 = omega (arith, row-suc l i) in
      let diag : sub_size (sub_size index 1) (grid_width l) ≡ cell_index l i (j - 1) =
        omega (arith, row-suc l i) in
      let left_of : index - 1 ≡ cell_index l (suc i) (j - 1) = omega arith in
      let here = all_read j (omega arith) to in
      let (z, gap, less) =
        gap_score in_gap before.left (omega (arith, before.left_low, laid.few)) in
      let (s1, run, made, high, short, verdict) = scored i j p s z lt from to asked above here in
      let (v, best, which, bound) = cell_score s1 before.left z less in
      let shape =
        shape_of i j p s1 v here.byte above.score s.h.cells lt asked here.byte_at above.score_at
          before verdict which left_of in
      let h' = set s.h.cells index (pos v) in
      let c' = set s.c.cells index (pos run) in
      let same : SameBelow index s.h.cells h' =
        λ k under. get_elem?-set_above s.h.cells index k (pos v) under in
      let same_c : SameBelow index s.c.cells c' =
        λ k under. get_elem?-set_above s.c.cells index k (pos run) under in
      let on_last = (suc i == grid_rows l - 1) && ltb_ℤ s.max_score (pos v) in
      (
        record {
          h = record s.h { cells = h' };
          c = record s.c { cells = c' };
          max_score = if on_last then pos v else s.max_score;
          max_score_pos = if on_last then j else s.max_score_pos;
        },
        ltb_ℤ (pos s1) z,
        fill_cell-run (grid_rows l) t bo (grid_width l) p (suc i) index j here.folded before.left s1
            run v in_gap z s here.folded_at (ap (get_elem? s.h.cells) back ∙ before.left_at) gap
            (subst
              (λ (k : ℕ).
                (if eqb_ℤ (pos p) (pos here.folded)
                  then match_score bo s k j z
                  else some (pos 0, pos 0))
                ≡ some (pos s1, pos run))
              (sym diag) made)
            best (omega (arith, room.h_size)) (omega (arith, room.c_size)),
        record {
          roomy = record {
            h_size = length-set s.h.cells index (pos v) ∙ room.h_size;
            c_size = length-set s.c.cells index (pos run) ∙ room.c_size;
          };
          h_same = same;
          c_same = same_c;
          made = record {
            score = v;
            run = run;
            score_at = get_elem?-set_here s.h.cells index (pos v) (omega (arith, room.h_size));
            run_at = get_elem?-set_here s.c.cells index (pos run) (omega (arith, room.c_size));
            low = omega (arith, bound, high, above.low, before.left_low);
            brief = omega (arith, short, above.brief);
            started = omega (arith, short, above.started);
            shape =
                shape_kept l s.h.cells h' (suc i) j v index (omega arith) shape same (omega arith);
          };
          best_score = refl;
          best_place = refl;
        },
      )
