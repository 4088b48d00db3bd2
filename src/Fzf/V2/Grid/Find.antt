-- ===== src/Fzf/V2/Grid/Find.antt =====
-- What `fzf_fuzzy_match_v2` gives for a pattern of two bytes or more.
use plugged.Common.{
  +ℤ-pos, Bool, List, Option, [], ap, arith, drop, false, get_elem?, length, ltb_ℤ-neg, none, pos,
  refl, some, suc, to_i32, to_i32_of_lt, to_size, to_size_of_lt, true, zero, ℕ, ℤ, ◌*◌, ◌+ℤ◌, ◌+◌,
  ◌-◌, ◌<◌, ◌==◌, ◌^◌, ◌∙◌, ◌∷◌, ◌≡◌, ◌≤◌,
}
use plugged.Fzf.Chars.{Bytes}
use plugged.Fzf.Positions.{Positions, resize_pos?}
use plugged.Fzf.Positions.Growth.{Fits, Grown-Fits, Grown-trans, resize_pos?-Grown}
use plugged.Fzf.Score.{Result}
use plugged.Fzf.Score.Run.{fold_hit}
use plugged.Fzf.Skip.{ascii_fuzzy_index}
use plugged.Fzf.Slab.{Array, Slab, alloc16}
use plugged.Fzf.V2.{Arrays, allocate, fzf_fuzzy_match_v2, phase2_start, release, v2_matrix}
use plugged.Fzf.V2.FirstRow.{Phase2, phase2_loop}
use plugged.Fzf.V2.Grid.{Hits, IsLaid, Layout, grid_rows, grid_width, room-small, row-room}
use plugged.Fzf.V2.Grid.FillRows.{fill_rows_lem}
use plugged.Fzf.V2.Grid.FirstCopy.{copy_into_i16-copied}
use plugged.Fzf.V2.Grid.Laid.{
  first_RowsTo, layout, layout-AllRead, layout-IsLaid, layout-KeepsFirst,
}
use plugged.Fzf.V2.Grid.Peak.{last_row}
use plugged.Fzf.V2.Grid.Scan.{Scanned}
use plugged.Fzf.V2.Grid.Walk.{Trail}
use plugged.Fzf.V2.Grid.Way.{Way, best_bounds, trace_positions_lem}
use plugged.Fzf.V2.Memory.{copy_into_i16, exceeds_slab, load, put_back16}
use plugged.Fzf.V2.Rows.{Matrix, fill_rows}
use plugged.Fzf.V2.Start.{alloc16-length, alloc16-offset}
use plugged.Fzf.V2.Trace.{trace_positions}

Way-resized :
    (hit : ℕ → ℕ → Bool) (pattern text : Bytes) (out : Option Positions) (n start end : ℕ)
    (q : Option Positions)
    → Fits out
    → Way hit pattern text (resize_pos? out n n) start end q
    → Way hit pattern text out start end q
unfolding resize_pos?
Way-resized hit pattern text none n start end q fits way = way
Way-resized hit pattern text (some p) n start end q fits (places, grown, trail) = (
  places,
  Grown-trans (some p) (resize_pos? (some p) n n) q [] (end ∷ places)
      (resize_pos?-Grown (some p) n fits) grown,
  trail,
)

Trail-start :
    (hit : ℕ → ℕ → Bool) (pattern text : Bytes) (i limit : ℕ) (places : List ℕ) (start : ℕ)
    → Trail hit pattern text i limit places start
    → start < limit
Trail-start hit pattern text zero limit [] start t = absurd t
Trail-start hit pattern text (suc i) limit [] start t = absurd t
Trail-start hit pattern text zero limit (a ∷ []) start (lt, _, e) = omega (arith, lt, e)
Trail-start hit pattern text zero limit (a ∷ b ∷ places) start t = absurd t
Trail-start hit pattern text (suc i) limit (a ∷ places) start (lt, _, t) =
    omega (arith, lt, Trail-start hit pattern text i a places start t)

Way-start :
    (hit : ℕ → ℕ → Bool) (pattern text : Bytes) (out : Option Positions) (start end : ℕ)
    (q : Option Positions)
    → Way hit pattern text out start end q
    → start ≤ end
Way-start hit pattern text none start end q (_, e) = omega (arith, e)
Way-start hit pattern text (some p) start end q (places, _, t) =
    omega
      (arith, Trail-start hit pattern text (length pattern - 1) (suc end) (end ∷ places) start t)

-- The range and the score, where they fit 32 bits.
range_eq :
    (start end n : ℕ) (score : ℤ)
    → start ≤ end
    → end < 2 ^ 31
    → score ≡ pos n
    → ◌≡◌ {A = Result}
        (record { start = to_i32 start; end = to_i32 end +ℤ pos 1; score = score })
        (record { start = pos start; end = pos (end + 1); score = pos n })
range_eq start end n score order small e =
    rw (to_i32_of_lt start (omega arith), to_i32_of_lt end small, +ℤ-pos end 1, e) refl

-- The matrix, once its parts have run.
v2_matrix-run :
    (pattern : Bytes) (out : Option Positions) (slab : Option Slab) (a : Arrays) (s : Phase2)
    (first m width j : ℕ) (h_row c_row : Array) (filled : Matrix) (q : Option Positions)
    → length pattern ≡ m
    → get_elem? s.f.cells 0 ≡ some (pos first)
    → to_size (pos first) ≡ first
    → s.last_idx - first + 1 ≡ width
    → copy_into_i16 s.h0 first (s.last_idx + 1) (alloc16 a.offset16 slab (width * m)).0 ≡ some h_row
    → copy_into_i16 s.c0 first
        (s.last_idx + 1)
        (alloc16 (alloc16 a.offset16 slab (width * m)).1 slab (width * m)).0
      ≡ some c_row
    → fill_rows pattern s.t s.bo s.f first width s.last_idx
        (m - 1)
        0
        (record { h = h_row; c = c_row; max_score = s.max_score; max_score_pos = s.max_score_pos })
      ≡ some filled
    → trace_positions (resize_pos? out m m) filled s.f first width m ≡ some (j, q)
    → (slab' : Option Slab) × (v2_matrix pattern out slab a s
        ≡ some (
          record {
            start = to_i32 j;
            end = to_i32 filled.max_score_pos +ℤ pos 1;
            score = filled.max_score;
          },
          q,
          slab',
        ))
unfolding v2_matrix load
v2_matrix-run pattern out slab a s first m width j h_row c_row filled q size at back wide h c rows
      way =
    (
      put_back16
          (put_back16
            (release slab (record a { h0 = s.h0; c0 = s.c0; bo = s.bo; f = s.f; t = s.t }))
            filled.h)
          filled.c,
      rw (size, at, back, wide, h, c, rows, way) refl,
    )

-- The matcher, once its parts have run.
pub v2_several-run :
    (case_sensitive normalize : Bool) (text : Bytes) (p0 p1 : ℕ) (ps : Bytes)
    (out : Option Positions) (slab slab' : Option Slab) (i : ℕ) (s : Phase2) (r : Result)
    (q : Option Positions)
    → exceeds_slab slab (length text * length (p0 ∷ p1 ∷ ps)) ≡ false
    → ascii_fuzzy_index text (p0 ∷ p1 ∷ ps) case_sensitive ≡ some (pos i)
    → to_size (pos i) ≡ i
    → phase2_loop case_sensitive normalize
        (p0 ∷ p1 ∷ ps)
        p0
        i
        (drop i text)
        (phase2_start (allocate slab text (length (p0 ∷ p1 ∷ ps))) p0)
      ≡ some s
    → s.pidx ≡ length (p0 ∷ p1 ∷ ps)
    → v2_matrix (p0 ∷ p1 ∷ ps) out slab (allocate slab text (length (p0 ∷ p1 ∷ ps))) s
      ≡ some (r, q, slab')
    → fzf_fuzzy_match_v2 case_sensitive normalize text (p0 ∷ p1 ∷ ps) out slab ≡ some (r, q, slab')
unfolding fzf_fuzzy_match_v2
v2_several-run case_sensitive normalize text p0 p1 ps out slab slab' i s r q fits first back run all
      matrix =
    let long : (length (p0 ∷ p1 ∷ ps) == 0) ≡ false = ground arith in
    let several : (length (p0 ∷ p1 ∷ ps) == 1) ≡ false = ground arith in
    let same : (s.pidx == length (p0 ∷ p1 ∷ ps)) ≡ true = ground arith in
    rw (long, fits, first, ltb_ℤ-neg i, back, run, same, several, matrix) refl

module _ (case_sensitive normalize : Bool) (pattern text : Bytes) (two : 2 ≤ length pattern)
    (few : length pattern ≤ 1024) (small : length text < 2 ^ 31) (idx : ℕ) (s : Phase2)
    (k : Scanned case_sensitive normalize pattern text idx (length text) s) (slab : Option Slab)
    (a : Arrays) where
  abbrev l : Layout
  l = layout case_sensitive normalize pattern text two few small idx s k

  laid : IsLaid l
  laid = layout-IsLaid case_sensitive normalize pattern text two few small idx s k

  -- The first row, copied into the matrix.
  first_copied :
      (src dest : Array)
      → length src.cells ≡ length text
      → length dest.cells ≡ grid_width l * grid_rows l
      → (copied : Array) × (copy_into_i16 src (k.first 0) (s.last_idx + 1) dest ≡ some copied)
        × (length copied.cells ≡ grid_width l * grid_rows l)
        × ((i : ℕ)
            → i < s.last_idx + 1 - k.first 0
            → get_elem? copied.cells i ≡ get_elem? src.cells (k.first 0 + i))
  first_copied src dest full size =
      let reach = laid.reaches 0 (omega (arith, two)) in
      let fits = row-room l 0 (omega (arith, two)) in
      let (copied, run, same, cells) =
        copy_into_i16-copied src dest (k.first 0) (s.last_idx + 1) (omega (arith, reach))
          (omega (arith, full, laid.inside)) (omega (arith, fits, size, reach)) in
      (copied, run, same ∙ size, cells)

  pub v2_matrix_lem :
      (out : Option Positions)
      → a.offset16 ≤ 3 * 2 ^ 31
      → Fits out
      → (start : ℕ) × (end : ℕ) × (n : ℕ) × (q : Option Positions) × (slab' : Option Slab)
        × (v2_matrix pattern out slab a s
            ≡ some (record { start = pos start; end = pos (end + 1); score = pos n }, q, slab'))
        × (0 < n)
        × (n ≤ 24 * length pattern + 8)
        × (end < length text)
        × Hits (fold_hit case_sensitive normalize) pattern text (length pattern - 1) end
        × Way (fold_hit case_sensitive normalize) pattern text out start end q
  v2_matrix_lem out near fits =
      let size = grid_width l * grid_rows l in
      let low_size = room-small l laid in
      let first_at =
        layout-KeepsFirst case_sensitive normalize pattern text two few small idx s k in
      let (h, h_run, h_size, h_cells) =
        first_copied s.h0 (alloc16 a.offset16 slab size).0 k.cells.h_size
          (alloc16-length a.offset16 slab size (omega (arith, near, low_size))) in
      let (c, c_run, c_size, c_cells) =
        first_copied s.c0 (alloc16 (alloc16 a.offset16 slab size).1 slab size).0 k.cells.c_size (
          alloc16-length (alloc16 a.offset16 slab size).1 slab size (
            omega (
              arith,
              near,
              low_size,
              alloc16-offset a.offset16 slab size (omega (arith, near, low_size)),
            ))) in
      let g0 : Matrix = record {
        h = h;
        c = c;
        max_score = s.max_score;
        max_score_pos = s.max_score_pos;
      } in
      let ready =
        first_RowsTo case_sensitive normalize pattern text two few small idx s k g0
          (record { h_size = h_size; c_size = c_size }) h_cells c_cells k.none_yet in
      let (g, rows, full) =
        fill_rows_lem l laid s.t s.bo s.f
          (layout-AllRead case_sensitive normalize pattern text two few small idx s k) first_at
          (last_row l) 0 g0 (omega arith) ready in
      let (start, q, trace, way) =
        trace_positions_lem l laid g s.f first_at full
          (resize_pos? out (length pattern) (length pattern))
          (Grown-Fits out _ [] (resize_pos?-Grown out (length pattern) fits)) in
      let (t, inside) = full.top refl in
      let (some_score, bound) = best_bounds l laid g s.f first_at full t inside in
      let (slab', run) =
        v2_matrix-run pattern out slab a s (k.first 0) (length pattern) (grid_width l) start h c g q
          refl (first_at 0 (omega arith))
          (to_size_of_lt (k.first 0)
            (omega (arith, laid.reaches 0 (omega (arith, two)), laid.inside, small)))
          refl h_run c_run rows trace in
      let result =
        range_eq start g.max_score_pos t.best g.max_score
          (Way-start (fold_hit case_sensitive normalize) pattern text _ start g.max_score_pos q way)
          (omega (arith, inside, laid.inside, small)) t.best_is in
      (
        start,
        g.max_score_pos,
        t.best,
        q,
        slab',
        run ∙ ap (λ (r : Result). some (r, q, slab')) result,
        some_score,
        bound,
        omega (arith, inside, laid.inside),
        t.rises.0,
        Way-resized (fold_hit case_sensitive normalize) pattern text out (length pattern) start
            g.max_score_pos q fits way,
      )
