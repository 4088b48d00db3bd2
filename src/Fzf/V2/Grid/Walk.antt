-- ===== src/Fzf/V2/Grid/Walk.antt =====
-- The way back through the matrix of `fzf_fuzzy_match_v2`, which collects a place for each byte of
-- the pattern.
use mathlib.Core.List.{append_assoc}
use native.Mathlib.Decide.{dec_le}
use plugged.Common.{
  Bool, Bool-cases, List, [], add_size, ap, arith, false, get_elem?-of_lt, inl, inr, length, ltb,
  ltb_ℤ, neq-false, pos, refl, some, sub_size, suc, true, zero, ℕ, ◌*◌, ◌++◌, ◌+◌, ◌-◌, ◌<◌, ◌∙◌,
  ◌∷◌, ◌≡◌, ◌≤◌,
}
use plugged.Fzf.Chars.{Bytes}
use plugged.Fzf.Positions.{Positions}
use plugged.Fzf.Positions.Growth.{unsafe_append_pos-eq}
use plugged.Fzf.Slab.{Array}
use plugged.Fzf.V2.Grid.{Hits, IsHit, IsLaid, Layout, cell_index, first-le, grid_rows, grid_width}
use plugged.Fzf.V2.Grid.FillRows.{KeepsFirst, RowsTo}
use plugged.Fzf.V2.Grid.Keeps.{grid_index, the-Cell, trace_keeps_lem}
use plugged.Fzf.V2.Grid.Peak.{last_row}
use plugged.Fzf.V2.Memory.{load}
use plugged.Fzf.V2.Rows.{Matrix}
use plugged.Fzf.V2.Trace.{trace_keeps, trace_loop, trace_prefers}

-- The places, from the last byte of the pattern up to the i-th back to the first: each is a match
-- of its byte, before the limit and before the place of the next byte; `start` is the last of them.
abbrev pub Trail : (ℕ → ℕ → Bool) → Bytes → Bytes → ℕ → ℕ → List ℕ → ℕ → Type 0
Trail hit pattern text i limit [] start = ⊥
Trail hit pattern text zero limit (a ∷ []) start =
    (a < limit) × Hits hit pattern text 0 a × (start ≡ a)
Trail hit pattern text zero limit (a ∷ b ∷ places) start = ⊥
Trail hit pattern text (suc i) limit (a ∷ places) start =
    (a < limit) × Hits hit pattern text (suc i) a × Trail hit pattern text i a places start

pub Trail-weaken :
    (hit : ℕ → ℕ → Bool) (pattern text : Bytes) (i j limit : ℕ) (places : List ℕ) (start : ℕ)
    → j ≤ limit
    → Trail hit pattern text i j places start
    → Trail hit pattern text i limit places start
Trail-weaken hit pattern text zero j limit [] start le t = t
Trail-weaken hit pattern text (suc i) j limit [] start le t = t
Trail-weaken hit pattern text zero j limit (a ∷ []) start le (lt, here, t) =
    (omega (arith, lt, le), here, t)
Trail-weaken hit pattern text zero j limit (a ∷ b ∷ places) start le t = t
Trail-weaken hit pattern text (suc i) j limit (a ∷ places) start le (lt, here, t) =
    (omega (arith, lt, le), here, t)

module _ (l : Layout) (laid : IsLaid l) (g : Matrix) (f : Array) (kept : KeepsFirst l f)
    (full : RowsTo l (last_row l) g) where
  -- `prefer_match` for the next round is read in bounds.
  prefers_lem :
      (i j : ℕ)
      → i < grid_rows l
      → l.first i ≤ j
      → j ≤ l.last
      → (b : Bool) × (trace_prefers g
            (grid_width l)
            (add_size (i * grid_width l) (sub_size j (l.first 0)))
          ≡ some b)
  unfolding trace_prefers load
  prefers_lem i j lt from to =
      let cell = the-Cell l laid g f kept full i j lt from to in
      let index = grid_index l laid g f kept full i j lt from to in
      elim (Bool-cases (ltb_ℤ (pos 1) (pos cell.run))) [
        | inl long ↦ (true, rw (index, cell.run_at, long) refl)
        | inr short ↦
            elim (Bool-cases (ltb (cell_index l i j + grid_width l + 1) (length g.c.cells))) [
              | inl more ↦
                  let (next, at) =
                    get_elem?-of_lt g.c.cells (cell_index l i j + grid_width l + 1)
                      (ground arith) in
                  (ltb_ℤ (pos 0) next, rw (index, cell.run_at, short, more, at) refl)
              | inr none_left ↦ (false, rw (index, cell.run_at, short, none_left) refl)
            ]
      ]

  -- What the loop gives from a place.
  abbrev Walked : ℕ → ℕ → Bool → Positions → Type 0
  Walked j i prefer p =
      (start : ℕ) × (q : Positions) × (places : List ℕ) × (trace_loop g f (l.first 0) (grid_width l)
          j i prefer p
        ≡ some (start, q))
      × (q.cells ≡ p.cells ++ places)
      × (length q.cells ≤ q.cap)
      × Trail l.hit l.pattern l.text i (suc j) places start
      × (trace_keeps g f (l.first 0) (grid_width l) i j prefer ≡ some true
          → (rest : List ℕ) × (places ≡ j ∷ rest))

  -- The first place ends the way back.
  walk_zero :
      (j : ℕ) (prefer : Bool) (p : Positions)
      → l.first 0 ≤ j
      → j ≤ l.last
      → length p.cells ≤ p.cap
      → trace_keeps g f (l.first 0) (grid_width l) 0 j prefer ≡ some true
      → IsHit l 0 j
      → Walked j 0 prefer p
  unfolding trace_loop
  walk_zero zero prefer p from to fits keep hit =
      let (q, appended, cells, room) = unsafe_append_pos-eq p 0 fits (omega arith) in
      (
        0,
        q,
        0 ∷ [],
        rw (keep, appended) refl,
        cells,
        room,
        (omega arith, hit, refl),
        λ h. ([], refl),
      )
  walk_zero (suc j) prefer p from to fits keep hit =
      let (q, appended, cells, room) =
        unsafe_append_pos-eq p (suc j) fits (omega (arith, laid.inside, laid.small)) in
      (
        suc j,
        q,
        suc j ∷ [],
        rw (keep, appended) refl,
        cells,
        room,
        (omega arith, hit, refl),
        λ h. ([], refl),
      )

  -- A place is kept, and the way goes on with the byte before.
  walk_kept :
      (j i : ℕ) (prefer : Bool) (p : Positions)
      → suc i < grid_rows l
      → l.first (suc i) ≤ suc j
      → suc j ≤ l.last
      → length p.cells ≤ p.cap
      → trace_keeps g f (l.first 0) (grid_width l) (suc i) (suc j) prefer ≡ some true
      → IsHit l (suc i) (suc j)
      → ((prefer' : Bool) (q : Positions) → length q.cells ≤ q.cap → Walked j i prefer' q)
      → Walked (suc j) (suc i) prefer p
  unfolding trace_loop
  walk_kept j i prefer p lt from to fits keep hit again =
      let (q, appended, cells, room) =
        unsafe_append_pos-eq p (suc j) fits (omega (arith, laid.inside, laid.small)) in
      let (b, preferred) = prefers_lem (suc i) (suc j) lt from to in
      let (start, r, places, run, all, space, trail, _) = again b q room in
      let down : suc i - 1 ≡ i = omega arith in
      (
        start,
        r,
        suc j ∷ places,
        rw (keep, neq-false (suc i) 0 (omega arith), appended, preferred, down) run,
        all ∙ ap (λ t. t ++ places) cells ∙ append_assoc p.cells (suc j ∷ []) places,
        space,
        (omega arith, hit, trail),
        λ h. (places, refl),
      )

  walk_past :
      (j i : ℕ) (prefer : Bool) (p : Positions)
      → i < grid_rows l
      → l.first i ≤ suc j
      → suc j ≤ l.last
      → trace_keeps g f (l.first 0) (grid_width l) i (suc j) prefer ≡ some false
      → ((prefer' : Bool) → Walked j i prefer' p)
      → Walked (suc j) i prefer p
  unfolding trace_loop
  walk_past j i prefer p lt from to past again =
      let (b, preferred) = prefers_lem i (suc j) lt from to in
      let (start, r, places, run, all, space, trail, _) = again b in
      (
        start,
        r,
        places,
        rw (past, preferred) run,
        all,
        space,
        Trail-weaken l.hit l.pattern l.text i (suc j) (suc (suc j)) places start (omega arith)
            trail,
        λ h. cc,
      )

  -- A place that is not kept is not the first of its row.
  later_than :
      (j i : ℕ) (b : Bool)
      → (suc j ≡ l.first i → b ≡ true)
      → b ≡ false
      → l.first i ≤ suc j
      → l.first i ≤ j
  later_than j i b start past from = elim (dec_le (l.first i) j) [
    | yes le ↦ le
    | no more ↦ let kept_b = start (omega arith) in cc
  ]

  -- The way back in the first row ends at the latest where the row starts.
  walk_first :
      (j : ℕ) (prefer : Bool) (p : Positions)
      → l.first 0 ≤ j
      → j ≤ l.last
      → length p.cells ≤ p.cap
      → Walked j 0 prefer p
  walk_first zero prefer p from to fits =
      let (b, run, hit, start, _) =
        trace_keeps_lem l laid g f kept full 0 0 prefer (omega (arith, laid.two)) from to in
      let keep = start (omega (arith, from)) in
      walk_zero 0 prefer p from to fits (run ∙ ap some keep) (hit keep)
  walk_first (suc j) prefer p from to fits =
      let (b, run, hit, start, _) =
        trace_keeps_lem l laid g f kept full 0 (suc j) prefer (omega (arith, laid.two)) from to in
      elim (Bool-cases b) [
        | inl keep ↦ walk_zero (suc j) prefer p from to fits (run ∙ ap some keep) (hit keep)
        | inr past ↦
            walk_past j 0 prefer p (omega (arith, laid.two)) from to (run ∙ ap some past)
              (λ prefer'.
                walk_first j prefer' p (later_than j 0 b start past from) (omega arith) fits)
      ]

  pub walk_lem :
      (j i : ℕ) (prefer : Bool) (p : Positions)
      → i < grid_rows l
      → l.first i ≤ j
      → j ≤ l.last
      → length p.cells ≤ p.cap
      → Walked j i prefer p
  walk_lem j zero prefer p lt from to fits = walk_first j prefer p from to fits
  walk_lem zero (suc i) prefer p lt from to fits =
      absurd (omega (arith, first-le l laid (suc i) lt, from))
  walk_lem (suc j) (suc i) prefer p lt from to fits =
      let (b, run, hit, start, _) =
        trace_keeps_lem l laid g f kept full (suc i) (suc j) prefer lt from to in
      elim (Bool-cases b) [
        | inl keep ↦
            walk_kept j i prefer p lt from to fits (run ∙ ap some keep) (hit keep)
              (λ prefer' q room.
                walk_lem j i prefer' q (omega arith) (omega (arith, laid.increases i lt))
                  (omega arith) room)
        | inr past ↦ walk_past j (suc i) prefer p lt from to (run ∙ ap some past) (λ prefer'.
            walk_lem j (suc i) prefer' p lt (later_than j (suc i) b start past from) (omega arith)
              fits)
      ]
