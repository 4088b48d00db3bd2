-- ===== src/Fzf/V2/Row.antt =====
-- The first row of the matrix in `fzf_fuzzy_match_v2`, for a pattern of one byte.
use plugged.Common.{
  Bool, Bool-cases, arith, eqb_ℤ, false, if◌then◌else◌, inl, inr, length, length-set, ltb_ℤ, pos,
  refl, set, some, to_i16, true, ℕ, ℤ, ◌+ℤ◌, ◌+◌, ◌<◌, ◌==◌, ◌≡◌, ◌≤◌,
}
use plugged.Fzf.Chars.{bonus_boundary, score_gap_extension, score_gap_start, score_match}
use plugged.Fzf.Score.{max16}
use plugged.Fzf.Slab.{Array}
use plugged.Fzf.V2.Cells.{Frame, store-in}
use plugged.Fzf.V2.FirstRow.{Phase2, first_row}

pub score_fits : (m : ℕ) → m ≤ 8 → to_i16 (score_match +ℤ pos m +ℤ pos m) ≡ pos (16 + m + m)
unfolding ◌+ℤ◌
score_fits m small = ground arith

-- Only the first row and the best score change.
row-Frame :
    (s : Phase2) (h0 c0 : Array)
    → length h0.cells ≡ length s.h0.cells
    → length c0.cells ≡ length s.c0.cells
    → (in_gap : Bool) (prev_h0 max_score : ℤ) (max_score_pos : ℕ)
    → Frame s (record s {
      h0 = h0;
      c0 = c0;
      in_gap = in_gap;
      prev_h0 = prev_h0;
      max_score = max_score;
      max_score_pos = max_score_pos;
    })
row-Frame s h0 c0 e e' in_gap prev_h0 max_score max_score_pos = record {
  h0_same = e;
  c0_same = e';
  bo_same = refl;
  f_same = refl;
  t_same = refl;
  pchar_same = refl;
  class_same = refl;
}

pub first_row-hit :
    (p place c m : ℕ) (s : Phase2)
    → (c == p) ≡ true
    → m ≤ 8
    → place < length s.h0.cells
    → place < length s.c0.cells
    → (s' : Phase2) × (brk : Bool) × (first_row 1 p place c (pos m) s ≡ some (s', brk))
      × Frame s s'
      × (s'.pidx ≡ s.pidx)
      × (s'.max_score
          ≡ (if ltb_ℤ s.max_score (pos (16 + m + m)) then pos (16 + m + m) else s.max_score))
      × (s'.max_score_pos
          ≡ (if ltb_ℤ s.max_score (pos (16 + m + m)) then place else s.max_score_pos))
      × (brk ≡ true → (ltb_ℤ s.max_score (pos (16 + m + m)) ≡ true) × (m ≡ 8))
unfolding first_row
first_row-hit p place c m s hit small h k =
    let score : to_i16 (score_match +ℤ pos m +ℤ pos m) ≡ pos (16 + m + m) = score_fits m small in
    let h0 : Array = record s.h0 { cells = set s.h0.cells place (pos (16 + m + m)) } in
    let c0 : Array = record s.c0 { cells = set s.c0.cells place (pos 1) } in
    elim (Bool-cases (ltb_ℤ s.max_score (pos (16 + m + m)))) [
      | inl better ↦ elim (Bool-cases (eqb_ℤ (pos m) bonus_boundary)) [
        | inl top ↦ (
          record s { h0 = h0; c0 = c0; max_score = pos (16 + m + m); max_score_pos = place },
          true,
          rw
              (
                hit,
                score,
                store-in s.h0 place (pos (16 + m + m)) h,
                store-in s.c0 place (pos 1) k,
                better,
                top,
              )
              refl,
          row-Frame s h0 c0 (length-set s.h0.cells place _) (length-set s.c0.cells place _) s.in_gap
              s.prev_h0 _ _,
          refl,
          rw better refl,
          rw better refl,
          λ e. (better, ground arith),
        )
        | inr low ↦ (
          record s {
            h0 = h0;
            c0 = c0;
            max_score = pos (16 + m + m);
            max_score_pos = place;
            in_gap = false;
            prev_h0 = pos (16 + m + m);
          },
          false,
          rw
              (
                hit,
                score,
                store-in s.h0 place (pos (16 + m + m)) h,
                store-in s.c0 place (pos 1) k,
                better,
                low,
              )
              refl,
          row-Frame s h0 c0 (length-set s.h0.cells place _) (length-set s.c0.cells place _) false _
              _ _,
          refl,
          rw better refl,
          rw better refl,
          λ e. cc,
        )
      ]
      | inr worse ↦ (
        record s { h0 = h0; c0 = c0; in_gap = false; prev_h0 = pos (16 + m + m) },
        false,
        rw
            (
              hit,
              score,
              store-in s.h0 place (pos (16 + m + m)) h,
              store-in s.c0 place (pos 1) k,
              worse,
            )
            refl,
        row-Frame s h0 c0 (length-set s.h0.cells place _) (length-set s.c0.cells place _) false _ _
            _,
        refl,
        rw worse refl,
        rw worse refl,
        λ e. cc,
      )
    ]

pub first_row-miss :
    (p place c : ℕ) (bonus : ℤ) (s : Phase2)
    → (c == p) ≡ false
    → place < length s.h0.cells
    → place < length s.c0.cells
    → (s' : Phase2) × (first_row 1 p place c bonus s ≡ some (s', false))
      × Frame s s'
      × (s'.pidx ≡ s.pidx)
      × (s'.max_score ≡ s.max_score)
      × (s'.max_score_pos ≡ s.max_score_pos)
unfolding first_row
first_row-miss p place c bonus s miss h k =
    let gap = if s.in_gap then score_gap_extension else score_gap_start in
    let score = max16 (to_i16 (s.prev_h0 +ℤ gap)) (pos 0) in
    (
      record s {
        h0 = record s.h0 { cells = set s.h0.cells place score };
        c0 = record s.c0 { cells = set s.c0.cells place (pos 0) };
        in_gap = true;
        prev_h0 = score;
      },
      rw (miss, store-in s.h0 place score h, store-in s.c0 place (pos 0) k) refl,
      record {
        h0_same = length-set s.h0.cells place score;
        c0_same = length-set s.c0.cells place (pos 0);
        bo_same = refl;
        f_same = refl;
        t_same = refl;
        pchar_same = refl;
        class_same = refl;
      },
      refl,
      refl,
      refl,
    )
