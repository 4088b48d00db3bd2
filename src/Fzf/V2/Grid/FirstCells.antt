-- ===== src/Fzf/V2/Grid/FirstCells.antt =====
-- The first row of the matrix of `fzf_fuzzy_match_v2`, for a pattern of two bytes or more.
use native.Mathlib.Decide.{dec_lt}
use mathlib.Core.Option.{some-injective}
use plugged.Common.{
  Bool, Bool-cases, List, SameBelow, ap, arith, false, get_elem?, get_elem?-set_above,
  get_elem?-set_here, if◌then◌else◌, inl, inr, length, length-set, negsuc, pos, refl, set, some,
  subst, suc, sym, to_i16, true, ℕ, ℤ, ◌+ℤ◌, ◌+◌, ◌-◌, ◌<◌, ◌==◌, ◌∙◌, ◌≡◌, ◌≤◌, ◌⊎◌,
}
use plugged.Fzf.Chars.{Bytes, score_gap_extension, score_gap_start}
use plugged.Fzf.Score.{max16}
use plugged.Fzf.Slab.{Array}
use plugged.Fzf.V2.Cells.{store-in}
use plugged.Fzf.V2.FirstRow.{Phase2, first_row}
use plugged.Fzf.V2.Grid.{Hits}
use plugged.Fzf.V2.Grid.Scores.{cell_score, gap_score}
use plugged.Fzf.V2.Row.{score_fits}

-- A score above 0 is compared with 0 once.
cell_score_zero :
    (z : ℤ) (v : ℕ) → max16 (max16 (pos 0) z) (pos 0) ≡ pos v → max16 z (pos 0) ≡ pos v
unfolding max16
cell_score_zero (pos n) v e = ground arith
cell_score_zero (negsuc n) v e = ground arith

-- The score of a gap in the first row is 0, or less than the one before it.
gap_cell :
    (in_gap : Bool) (left : ℕ)
    → left ≤ 32
    → (v : ℕ) × (v ≤ 32)
      × (max16
            (to_i16 (pos left +ℤ (if in_gap then score_gap_extension else score_gap_start)))
            (pos 0)
          ≡ pos v)
      × ((v ≡ 0) ⊎ (v < left))
gap_cell in_gap left low =
    let (z, e, less) = gap_score in_gap left (omega arith) in
    let (v, e', which, top) = cell_score 0 left z less in
    (v, omega (arith, top), rw e (cell_score_zero z v e'), which)

module _ (hit : ℕ → ℕ → Bool) (pattern text : Bytes) (idx : ℕ) where
  -- A cell of the first row: a match that scores, or a gap.
  abbrev pub FirstCell : List ℤ → List ℤ → ℕ → Type 0
  FirstCell h c a =
      (v : ℕ) × (run : ℕ) × (get_elem? h a ≡ some (pos v))
      × (get_elem? c a ≡ some (pos run))
      × (v ≤ 32)
      × (run ≤ 1)
      × ((Hits hit pattern text 0 a × (0 < v))
          ⊎ (¬ Hits hit pattern text 0 a
              × ((v ≡ 0)
                  ⊎ ((left : ℕ) × (get_elem? h (a - 1) ≡ some (pos left))
                      × (v < left)
                      × (idx < a)))))

  -- What the loop knows of the row before a place.
  pub record FirstCells (place : ℕ) (h c : List ℤ) (prev : ℤ) : Type 0 where
    pub h_size : length h ≡ length text
    pub c_size : length c ≡ length text
    pub cells : (a : ℕ) → idx ≤ a → a < place → FirstCell h c a
    pub left : ℕ
    pub prev_is : prev ≡ pos left
    pub low : left ≤ 32
    pub left_of : (left ≡ 0) ⊎ ((get_elem? h (place - 1) ≡ some (pos left)) × (idx < place))

  cell_kept :
      (h c h' c' : List ℤ) (a place : ℕ)
      → SameBelow place h h'
      → SameBelow place c c'
      → a < place
      → FirstCell h c a
      → FirstCell h' c' a
  cell_kept h c h' c' a place same_h same_c lt (v, run, at, run_at, low, short, inl up) =
      (v, run, same_h a lt ∙ at, same_c a lt ∙ run_at, low, short, inl up)
  cell_kept h c h' c' a place same_h same_c lt (v, run, at, run_at, low, short, inr (miss, inl z)) =
      (v, run, same_h a lt ∙ at, same_c a lt ∙ run_at, low, short, inr (miss, inl z))
  cell_kept h c h' c' a place same_h same_c lt
        (v, run, at, run_at, low, short, inr (miss, inr (left, before, less, later))) =
      (
        v,
        run,
        same_h a lt ∙ at,
        same_c a lt ∙ run_at,
        low,
        short,
        inr (miss, inr (left, same_h (a - 1) (omega arith) ∙ before, less, later)),
      )

  -- Both rows are written at the place.
  FirstCells-next :
      (place : ℕ) (h c : List ℤ) (prev : ℤ) (v run : ℕ)
      → FirstCells place h c prev
      → idx ≤ place
      → place < length text
      → v ≤ 32
      → FirstCell (set h place (pos v)) (set c place (pos run)) place
      → FirstCells (suc place) (set h place (pos v)) (set c place (pos run)) (pos v)
  FirstCells-next place h c prev v run r from inside small here = record {
    h_size = length-set h place (pos v) ∙ r.h_size;
    c_size = length-set c place (pos run) ∙ r.c_size;
    cells = λ a low below. elim (dec_lt a place) [
      | yes before ↦
          cell_kept h c (set h place (pos v)) (set c place (pos run)) a place
            (λ k under. get_elem?-set_above h place k (pos v) under)
            (λ k under. get_elem?-set_above c place k (pos run) under) before (r.cells a low before)
      | no later ↦
          let at : place ≡ a = omega arith in
          subst (λ k. FirstCell (set h place (pos v)) (set c place (pos run)) k) at here
    ];
    left = v;
    prev_is = refl;
    low = small;
    left_of =
        let back : suc place - 1 ≡ place = omega arith in
        inr (
          ap (get_elem? (set h place (pos v))) back
              ∙ get_elem?-set_here h place (pos v) (omega (arith, r.h_size)),
          omega arith,
        );
  }

  -- What the gap's score is less than stands before the place.
  gap_shape :
      (place v left : ℕ) (h : List ℤ)
      → ((left ≡ 0) ⊎ ((get_elem? h (place - 1) ≡ some (pos left)) × (idx < place)))
      → ((v ≡ 0) ⊎ (v < left))
      → (v ≡ 0)
        ⊎ ((left : ℕ) × (get_elem? (set h place (pos v)) (place - 1) ≡ some (pos left))
            × (v < left)
            × (idx < place))
  gap_shape place v left h before (inl z) = inl z
  gap_shape place v left h (inl none_left) (inr less) = absurd (omega (arith, less, none_left))
  gap_shape place v left h (inr (at, later)) (inr less) =
      inr (left, get_elem?-set_above h place (place - 1) (pos v) (omega arith) ∙ at, less, later)

  no_hit_here :
      (place p0 x : ℕ)
      → get_elem? pattern 0 ≡ some p0
      → get_elem? text place ≡ some x
      → hit p0 x ≡ false
      → ¬ Hits hit pattern text 0 place
  no_hit_here place p0 x asked read miss (p, y, e, e', found) =
      let p_same : p ≡ p0 = some-injective _ _ (sym e ∙ asked) in
      let x_same : y ≡ x = some-injective _ _ (sym e' ∙ read) in
      let never : true ≡ false = sym found ∙ ap (λ q. hit q y) p_same ∙ ap (hit p0) x_same ∙ miss in
      cc

  -- `first_row` writes the rows at the place, and the loop does not break.
  pub first_row-FirstCells :
      (place p0 x c : ℕ) (bonus : ℕ) (s : Phase2)
      → 2 ≤ length pattern
      → idx ≤ place
      → place < length text
      → get_elem? pattern 0 ≡ some p0
      → get_elem? text place ≡ some x
      → hit p0 x ≡ (c == p0)
      → bonus ≤ 8
      → FirstCells place s.h0.cells s.c0.cells s.prev_h0
      → (h0 : Array) × (c0 : Array) × (in_gap : Bool) × (prev : ℤ) × (first_row
            (length pattern)
            p0
            place
            c
            (pos bonus)
            s
          ≡ some (record s { h0 = h0; c0 = c0; in_gap = in_gap; prev_h0 = prev }, false))
        × FirstCells (suc place) h0.cells c0.cells prev
  unfolding first_row
  first_row-FirstCells place p0 x c bonus s two from inside asked read same low r =
      elim (Bool-cases (c == p0)) [
        | inl match ↦
            let v = 16 + bonus + bonus in
            let several : (length pattern == 1) ≡ false = ground arith in
            let h = set s.h0.cells place (pos v) in
            let c' = set s.c0.cells place (pos 1) in
            (
              record s.h0 { cells = h },
              record s.c0 { cells = c' },
              false,
              pos v,
              rw
                  (
                    match,
                    score_fits bonus low,
                    store-in s.h0 place (pos v) (omega (arith, r.h_size)),
                    store-in s.c0 place (pos 1) (omega (arith, r.c_size)),
                    several,
                  )
                  refl,
              FirstCells-next place s.h0.cells s.c0.cells s.prev_h0 v 1 r from inside (omega arith)
                  (
                    v,
                    1,
                    get_elem?-set_here s.h0.cells place (pos v) (omega (arith, r.h_size)),
                    get_elem?-set_here s.c0.cells place (pos 1) (omega (arith, r.c_size)),
                    omega arith,
                    omega arith,
                    inl ((p0, x, asked, read, same ∙ match), omega arith),
                  ),
            )
        | inr miss ↦
            let (v, small, made, which) = gap_cell s.in_gap r.left r.low in
            let h = set s.h0.cells place (pos v) in
            (
              record s.h0 { cells = h },
              record s.c0 { cells = set s.c0.cells place (pos 0) },
              true,
              pos v,
              rw
                  (
                    miss,
                    r.prev_is,
                    made,
                    store-in s.h0 place (pos v) (omega (arith, r.h_size)),
                    store-in s.c0 place (pos 0) (omega (arith, r.c_size)),
                  )
                  refl,
              FirstCells-next place s.h0.cells s.c0.cells s.prev_h0 v 0 r from inside small (
                v,
                0,
                get_elem?-set_here s.h0.cells place (pos v) (omega (arith, r.h_size)),
                get_elem?-set_here s.c0.cells place (pos 0) (omega (arith, r.c_size)),
                small,
                omega arith,
                inr (
                  no_hit_here place p0 x asked read (same ∙ miss),
                  gap_shape place v r.left s.h0.cells r.left_of which,
                ),
              ),
            )
      ]
