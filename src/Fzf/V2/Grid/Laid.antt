-- ===== src/Fzf/V2/Grid/Laid.antt =====
-- The matrix that the loop of `fzf_fuzzy_match_v2` over the text lays out.
use native.Mathlib.Decide.{dec_lt}
use plugged.Common.{
  Bool, List, [], ap, arith, drop, eqb_ℤ, get_elem?, inl, inr, length, pos, some, subst, suc, ℕ, ℤ,
  ◌+◌, ◌-◌, ◌<◌, ◌==◌, ◌^◌, ◌∙◌, ◌∷◌, ◌≡◌, ◌≤◌, ◌⊎◌,
}
use plugged.Fzf.Affix.Compare.{drop-of_lt}
use plugged.Fzf.Chars.{Bytes, fold_char}
use plugged.Fzf.Score.Run.{fold_hit}
use plugged.Fzf.Subseq.{Subseq}
use plugged.Fzf.V2.FirstRow.{Phase2}
use plugged.Fzf.V2.Grid.{AllRead, Cell, Falls, IsHit, IsLaid, Layout, Rises, cell_index}
use plugged.Fzf.V2.Grid.Fill.{Roomy}
use plugged.Fzf.V2.Grid.FillRow.{CellsTo}
use plugged.Fzf.V2.Grid.FillRows.{KeepsFirst, RowsTo}
use plugged.Fzf.V2.Grid.Places.{drop-past}
use plugged.Fzf.V2.Grid.Scan.{Scanned}
use plugged.Fzf.V2.Rows.{Matrix}

Subseq-nonempty : (hit : ℕ → ℕ → Bool) (p : ℕ) (ps : Bytes) → ¬ Subseq hit (p ∷ ps) []
Subseq-nonempty hit p ps d = elim d [ ]

eqb_ℤ-pos : (p c : ℕ) → eqb_ℤ (pos p) (pos c) ≡ (c == p)
eqb_ℤ-pos p c = ground arith

module _ (case_sensitive normalize : Bool) (pattern text : Bytes) (two : 2 ≤ length pattern)
    (few : length pattern ≤ 1024) (small : length text < 2 ^ 31) (idx : ℕ) (s : Phase2)
    (k : Scanned case_sensitive normalize pattern text idx (length text) s) where
  pub all_found : s.pidx ≡ length pattern
  all_found = elim (dec_lt s.pidx (length pattern)) [
    | yes more ↦
        let (p, d) = drop-of_lt s.pidx pattern more in
        absurd (
          Subseq-nonempty (fold_hit case_sensitive normalize) p (drop (suc s.pidx) pattern)
            (rw (d, drop-past (length text) text (omega arith)) at k.marks.rest))
    | no none_left ↦ omega (arith, k.marks.some_left)
  ]

  abbrev pub layout : Layout
  layout = record {
    hit = fold_hit case_sensitive normalize;
    pattern = pattern;
    text = text;
    first = k.first;
    last = s.last_idx;
  }

  pub layout-IsLaid : IsLaid layout
  layout-IsLaid = record {
    two = two;
    few = few;
    increases = λ i lt. k.marks.rising i (omega (arith, all_found, lt));
    reaches = λ i lt. k.marks.reach i (omega (arith, all_found, lt));
    found = λ i lt. let (_, _, _, hits) = k.marks.marked i (omega (arith, all_found, lt)) in hits;
    inside = k.marks.last_seen (omega (arith, all_found));
    small = small;
  }

  pub layout-KeepsFirst : KeepsFirst layout s.f
  layout-KeepsFirst i lt = let (at, _, _, _) = k.marks.marked i (omega (arith, all_found, lt)) in at

  idx_low : idx ≤ k.first 0
  idx_low = let (_, from, _, _) = k.marks.marked 0 (omega (arith, all_found)) in from

  pub layout-AllRead : AllRead layout s.t.cells s.bo.cells
  layout-AllRead a from to =
      let (x, bonus, at, folded_at, bonus_at_a, low) =
        k.reads.every a (omega (arith, idx_low, from)) (omega (arith, to, layout-IsLaid.inside)) in
      record {
        byte = x;
        folded = fold_char case_sensitive normalize x;
        bonus = bonus;
        byte_at = at;
        folded_at = folded_at;
        same = λ p. eqb_ℤ-pos p (fold_char case_sensitive normalize x);
        bonus_at_place = bonus_at_a;
        bonus_low = low;
      }

  -- A cell of the first row is read where it has been copied to.
  module _ (h c : List ℤ)
      (h_copied : (i : ℕ)
        → i < s.last_idx + 1 - k.first 0
        → get_elem? h i ≡ get_elem? s.h0.cells (k.first 0 + i))
      (c_copied : (i : ℕ)
        → i < s.last_idx + 1 - k.first 0
        → get_elem? c i ≡ get_elem? s.c0.cells (k.first 0 + i)) where
    copied_at :
        (xs ys : List ℤ)
        → ((i : ℕ) → i < s.last_idx + 1 - k.first 0 → get_elem? ys i ≡ get_elem? xs (k.first 0 + i))
        → (j : ℕ) → k.first 0 ≤ j
        → j ≤ s.last_idx
        → get_elem? ys (cell_index layout 0 j) ≡ get_elem? xs j
    copied_at xs ys copied j from to =
        let index : cell_index layout 0 j ≡ j - k.first 0 = omega arith in
        let back : k.first 0 + (j - k.first 0) ≡ j = omega arith in
        ap (get_elem? ys) index ∙ copied (j - k.first 0) (omega arith) ∙ ap (get_elem? xs) back

    first_shape :
        (j v : ℕ)
        → k.first 0 ≤ j
        → j ≤ s.last_idx
        → ((IsHit layout 0 j × (0 < v))
            ⊎ (¬ IsHit layout 0 j
                × ((v ≡ 0)
                    ⊎ ((left : ℕ) × (get_elem? s.h0.cells (j - 1) ≡ some (pos left))
                        × (v < left)
                        × (idx < j)))))
        → Rises layout h 0 j v ⊎ Falls layout h 0 j v
    first_shape j v from to (inl (hits, more)) = inl (hits, more)
    first_shape j v from to (inr (miss, which)) = elim (dec_lt (k.first 0) j) [
      | yes later ↦ inr (
        later,
        elim which [
          | inl z ↦ inl z
          | inr (left, at, less, _) ↦
              inr (
                left,
                copied_at s.h0.cells h h_copied (j - 1) (omega arith) (omega arith) ∙ at,
                less,
              )
        ],
      )
      | no at_first ↦
          let same : k.first 0 ≡ j = omega arith in
          absurd (miss (subst (IsHit layout 0) same (layout-IsLaid.found 0 (omega arith))))
    ]

    first-Cell : (j : ℕ) → k.first 0 ≤ j → j ≤ s.last_idx → Cell layout h c 0 j
    first-Cell j from to =
        let (v, run, at, run_at, low, short, shape) =
          k.cells.cells j (omega (arith, idx_low)) (omega (arith, layout-IsLaid.inside)) in
        record {
          score = v;
          run = run;
          score_at = copied_at s.h0.cells h h_copied j from to ∙ at;
          run_at = copied_at s.c0.cells c c_copied j from to ∙ run_at;
          low = omega (arith, low);
          brief = omega (arith, short);
          started = omega (arith, short);
          shape = first_shape j v from to shape;
        }

  pub first_RowsTo :
      (g : Matrix)
      → Roomy layout g
      → ((i : ℕ)
          → i < s.last_idx + 1 - k.first 0
          → get_elem? g.h.cells i ≡ get_elem? s.h0.cells (k.first 0 + i))
      → ((i : ℕ)
          → i < s.last_idx + 1 - k.first 0
          → get_elem? g.c.cells i ≡ get_elem? s.c0.cells (k.first 0 + i))
      → g.max_score ≡ pos 0
      → RowsTo layout 0 g
  first_RowsTo g room h_copied c_copied none_yet = record {
    room = room;
    filled = λ i le.
        let row : 0 ≡ i = omega arith in
        subst (λ r. CellsTo layout g r (suc s.last_idx)) row
          (λ j from below. first-Cell g.h.cells g.c.cells h_copied c_copied j from (omega arith));
    none_yet = λ lt. none_yet;
    top = λ row. absurd (omega (arith, row));
  }
