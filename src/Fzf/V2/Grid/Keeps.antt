-- ===== src/Fzf/V2/Grid/Keeps.antt =====
-- Which places the way back through the matrix of `fzf_fuzzy_match_v2` keeps.
use plugged.Common.{
  Bool, Bool-cases, add_size, arith, eqb_ℤ, get_elem?, if◌then◌else◌, inl, inr, leb, ltb, ltb_ℤ,
  pos, refl, some, sub_size, suc, sym, to_size, to_size_of_lt, true, zero, ℕ, ◌&&◌, ◌*◌, ◌-◌, ◌<◌,
  ◌||◌, ◌∙◌, ◌≡◌, ◌≤◌,
}
use plugged.Fzf.Slab.{Array}
use plugged.Fzf.V2.Grid.{
  Above, Cell, IsHit, IsLaid, Layout, Rises, cell_index, first-le, grid_rows, grid_width,
  room-small, row-room, row-suc,
}
use plugged.Fzf.V2.Grid.FillRows.{KeepsFirst, RowsTo}
use plugged.Fzf.V2.Grid.Peak.{last_row, pos-injective}
use plugged.Fzf.V2.Memory.{load}
use plugged.Fzf.V2.Rows.{Matrix}
use plugged.Fzf.V2.Trace.{trace_keeps, trace_scores}

-- The test of a round: `d` is the score that a match continues, `e` the one before the place.
abbrev keeps : ℕ → ℕ → ℕ → Bool → Bool
keeps d e v prefer =
    ltb_ℤ (pos d) (pos v) && (ltb_ℤ (pos e) (pos v) || (eqb_ℤ (pos v) (pos e) && prefer))

keeps_rise : (d e v : ℕ) (prefer : Bool) → d < v → e < v → keeps d e v prefer ≡ true
keeps_rise d e v prefer h k = ground arith

keeps_zero : (d e v : ℕ) (prefer : Bool) → v ≡ 0 → ¬ (keeps d e v prefer ≡ true)
keeps_zero d e v prefer z h = ground arith

keeps_less : (d e v : ℕ) (prefer : Bool) → v < e → ¬ (keeps d e v prefer ≡ true)
keeps_less d e v prefer less h = ground arith

module _ (l : Layout) (laid : IsLaid l) (g : Matrix) (f : Array) (kept : KeepsFirst l f)
    (full : RowsTo l (last_row l) g) where
  -- The score that a match at the place continues, and the one before the place.
  abbrev Compared : ℕ → ℕ → ℕ → ℕ → Type 0
  Compared i j d e =
      ((score : ℕ) → Above l g.h.cells i j score → d < score)
      × (l.first i < j → get_elem? g.h.cells (cell_index l i (j - 1)) ≡ some (pos e))
      × (j ≡ l.first i → e ≡ 0)

  pub the-Cell :
      (i j : ℕ) → i < grid_rows l → l.first i ≤ j → j ≤ l.last → Cell l g.h.cells g.c.cells i j
  the-Cell i j lt from to = full.filled i (omega arith) j from (omega arith)

  pub grid_index :
      (i j : ℕ)
      → i < grid_rows l
      → l.first i ≤ j
      → j ≤ l.last
      → add_size (i * grid_width l) (sub_size j (l.first 0)) ≡ cell_index l i j
  grid_index i j lt from to =
      omega
        (arith, room-small l laid, row-room l i lt, first-le l laid i lt, laid.inside, laid.small)

  left_score :
      (i j : ℕ)
      → i < grid_rows l
      → l.first i ≤ j
      → j ≤ l.last
      → (e : ℕ) × ((if ltb (l.first i) j
            then load g.h (sub_size (cell_index l i j) 1)
            else some (pos 0))
          ≡ some (pos e))
        × (l.first i < j → get_elem? g.h.cells (cell_index l i (j - 1)) ≡ some (pos e))
        × (j ≡ l.first i → e ≡ 0)
  unfolding load
  left_score i j lt from to = elim (Bool-cases (ltb (l.first i) j)) [
    | inl later ↦
        let before = the-Cell i (j - 1) lt (ground arith) (omega arith) in
        let away = first-le l laid i lt in
        let index : sub_size (cell_index l i j) 1 ≡ cell_index l i (j - 1) =
          ground (arith, room-small l laid, row-room l i lt) in
        (
          before.score,
          rw (later, index) before.score_at,
          (λ h. before.score_at),
          λ h. absurd (ground (arith, h)),
        )
    | inr start ↦ (0, rw start refl, (λ h. absurd (ground (arith, h))), λ h. refl)
  ]

  Above-le :
      (i j score d : ℕ)
      → Above l g.h.cells (suc i) j score
      → get_elem? g.h.cells (cell_index l i (j - 1)) ≡ some (pos d)
      → d < score
  Above-le i j score d (d', at', less) at = omega (arith, pos-injective d' d (sym at' ∙ at), less)

  Above-score :
      (i j : ℕ)
      → i < grid_rows l
      → l.first i ≤ j
      → j ≤ l.last
      → (d : ℕ) × ((if ltb 0 i && leb (l.first i) j
            then load g.h (sub_size (sub_size (cell_index l i j) (grid_width l)) 1)
            else some (pos 0))
          ≡ some (pos d))
        × ((score : ℕ) → Above l g.h.cells i j score → d < score)
  unfolding load
  Above-score zero j lt from to = (0, refl, λ score up. up)
  Above-score (suc i) j lt from to =
      let away = first-le l laid (suc i) lt in
      let cell =
        the-Cell i (j - 1) (omega arith) (omega (arith, laid.increases i lt)) (omega arith) in
      let index : sub_size (sub_size (cell_index l (suc i) j) (grid_width l)) 1
          ≡ cell_index l i (j - 1) =
        omega (arith, room-small l laid, row-room l (suc i) lt, row-suc l i) in
      let in_row : (ltb 0 (suc i) && leb (l.first (suc i)) j) ≡ true = ground arith in
      (
        cell.score,
        rw (in_row, index) cell.score_at,
        λ score up. Above-le i j score cell.score up cell.score_at,
      )

  trace_scores-run :
      (i j first here d e : ℕ)
      → get_elem? f.cells i ≡ some (pos first)
      → to_size (pos first) ≡ first
      → add_size (i * grid_width l) (sub_size j (l.first 0)) ≡ here
      → (if ltb 0 i && leb first j
          then load g.h (sub_size (sub_size here (grid_width l)) 1)
          else some (pos 0))
        ≡ some (pos d)
      → (if ltb first j then load g.h (sub_size here 1) else some (pos 0)) ≡ some (pos e)
      → trace_scores g f (l.first 0) (grid_width l) i j ≡ some (pos d, pos e)
  unfolding trace_scores load
  trace_scores-run i j first here d e at size index above left =
      rw (at, size, index, above, left) refl

  trace_scores_lem :
      (i j : ℕ)
      → i < grid_rows l
      → l.first i ≤ j
      → j ≤ l.last
      → (d : ℕ) × (e : ℕ) × (trace_scores g f (l.first 0) (grid_width l) i j ≡ some (pos d, pos e))
        × Compared i j d e
  trace_scores_lem i j lt from to =
      let (d, above, up) = Above-score i j lt from to in
      let (e, left, at, start) = left_score i j lt from to in
      let first : to_size (pos (l.first i)) ≡ l.first i =
        to_size_of_lt (l.first i) (omega (arith, laid.inside, laid.small)) in
      (
        d,
        e,
        trace_scores-run i j (l.first i) (cell_index l i j) d e (kept i lt) first
            (grid_index i j lt from to) above left,
        (up, at, start),
      )

  kept-IsHit :
      (i j d e : ℕ) (prefer : Bool) (x : Cell l g.h.cells g.c.cells i j)
      → (l.first i < j → get_elem? g.h.cells (cell_index l i (j - 1)) ≡ some (pos e))
      → keeps d e x.score prefer ≡ true
      → IsHit l i j
  kept-IsHit i j d e prefer x at h = elim x.shape [
    | inl (hit, _) ↦ hit
    | inr (later, inl none_scored) ↦ absurd (keeps_zero d e x.score prefer none_scored h)
    | inr (later, inr (left, before, less)) ↦
        let equal = pos-injective left e (sym before ∙ at later) in
        absurd (keeps_less d e x.score prefer (omega (arith, less, equal)) h)
  ]

  -- What a round decides, at a cell of the matrix.
  pub trace_keeps_lem :
      (i j : ℕ) (prefer : Bool)
      → i < grid_rows l
      → l.first i ≤ j
      → j ≤ l.last
      → (b : Bool) × (trace_keeps g f (l.first 0) (grid_width l) i j prefer ≡ some b)
        × (b ≡ true → IsHit l i j)
        × (j ≡ l.first i → b ≡ true)
        × ((score left : ℕ)
            → Rises l g.h.cells i j score
            → get_elem? g.h.cells (cell_index l i j) ≡ some (pos score)
            → l.first i < j
            → get_elem? g.h.cells (cell_index l i (j - 1)) ≡ some (pos left)
            → left < score
            → b ≡ true)
  unfolding trace_keeps load
  trace_keeps_lem i j prefer lt from to =
      let cell = the-Cell i j lt from to in
      let (d, e, scores, (up, at, start)) = trace_scores_lem i j lt from to in
      (
        keeps d e cell.score prefer,
        rw (grid_index i j lt from to, cell.score_at, scores) refl,
        kept-IsHit i j d e prefer cell at,
        λ h. elim cell.shape [
          | inl (_, above) ↦
              let more = up cell.score above in
              keeps_rise d e cell.score prefer more (omega (arith, more, start h))
          | inr (later, _) ↦ absurd (omega (arith, later, h))
        ],
        λ score left rises here later before less.
            let same = pos-injective score cell.score (sym here ∙ cell.score_at) in
            let equal = pos-injective left e (sym before ∙ at later) in
            keeps_rise d e cell.score prefer (omega (arith, same, up score rises.1))
              (omega (arith, same, equal, less)),
      )
