-- ===== src/Fzf/V2.antt =====
-- fzf.c, lines 524-768: `fzf_fuzzy_match_v2`, the matcher that optimises the score. Its phases are
-- in the children; this file puts them together.
pub mod Memory
pub mod FirstRow
pub mod Rows
pub mod Trace
pub mod Guards
pub mod Cells
pub mod Row
pub mod Single
pub mod Rounds
pub mod Start
pub mod Best
pub mod Grid
pub mod Several
pub mod Total
use plugged.Common.{
  Bool, Option, drop, false, get_elem?, if◌then◌else◌, length, ltb_ℤ, not, pos, some, to_i32,
  to_size, ℕ, ◌*◌, ◌+ℤ◌, ◌+◌, ◌-◌, ◌==◌, ◌>>=◌,
}
use plugged.Fzf.Chars.{Bytes, non_word}
use plugged.Fzf.Positions.{Positions, append_pos, resize_pos?}
use plugged.Fzf.Score.{Result, empty_match, no_match}
use plugged.Fzf.Skip.{ascii_fuzzy_index}
use plugged.Fzf.Slab.{Array, Slab, alloc16, alloc32}
use plugged.Fzf.V1.{fzf_fuzzy_match_v1}
use plugged.Fzf.V2.FirstRow.{Phase2, phase2_loop}
use plugged.Fzf.V2.Memory.{copy_into_i16, copy_runes, exceeds_slab, load, put_back16, put_back32}
use plugged.Fzf.V2.Rows.{fill_rows}
use plugged.Fzf.V2.Trace.{trace_positions}

-- The five arrays that the first phases share.
pub record Arrays : Type 0 where
  pub h0 : Array
  pub c0 : Array
  pub bo : Array
  pub f : Array
  pub t : Array
  pub offset16 : ℕ

unfoldable pub allocate : Option Slab → Bytes → ℕ → Arrays
allocate slab text m =
    let n = length text in
    let (h0, o1) = alloc16 0 slab n in
    let (c0, o2) = alloc16 o1 slab n in
    let (bo, o3) = alloc16 o2 slab n in
    let (f, p1) = alloc32 0 slab m in
    let (t, p2) = alloc32 p1 slab n in
    record {
      h0 = h0;
      c0 = c0;
      bo = bo;
      f = f;
      t = record t { cells = copy_runes text t.cells };
      offset16 = o3;
    }

unfoldable pub phase2_start : Arrays → ℕ → Phase2
phase2_start a pchar = record {
  h0 = a.h0;
  c0 = a.c0;
  bo = a.bo;
  f = a.f;
  t = a.t;
  pidx = 0;
  last_idx = 0;
  pchar = pchar;
  prev_h0 = pos 0;
  prev_class = non_word;
  in_gap = false;
  max_score = pos 0;
  max_score_pos = 0;
}

-- What the slab holds once the arrays are given up.
unfoldable pub release : Option Slab → Arrays → Option Slab
release slab a =
    put_back32 (put_back32 (put_back16 (put_back16 (put_back16 slab a.h0) a.c0) a.bo) a.f) a.t

abbrev pub Outcome : Type 0
Outcome = Option (Result × Option Positions × Option Slab)

-- The score matrix, the best place and the way back, for a pattern of two bytes or more.
unfoldable pub v2_matrix : Bytes → Option Positions → Option Slab → Arrays → Phase2 → Outcome
v2_matrix pattern out slab a s = do
  let m = length pattern
  first ← load s.f 0
  let f0 = to_size first
  let width = s.last_idx - f0 + 1
  let (h, o4) = alloc16 a.offset16 slab (width * m)
  h_row ← copy_into_i16 s.h0 f0 (s.last_idx + 1) h
  let (c, _) = alloc16 o4 slab (width * m)
  c_row ← copy_into_i16 s.c0 f0 (s.last_idx + 1) c
  filled ←
      fill_rows pattern s.t s.bo s.f f0 width s.last_idx (m - 1) 0
        (record { h = h_row; c = c_row; max_score = s.max_score; max_score_pos = s.max_score_pos })
  (j, out') ← trace_positions (resize_pos? out m m) filled s.f f0 width m
  let arrays = record a { h0 = s.h0; c0 = s.c0; bo = s.bo; f = s.f; t = s.t }
  some (
    record {
      start = to_i32 j;
      end = to_i32 filled.max_score_pos +ℤ pos 1;
      score = filled.max_score;
    },
    out',
    put_back16 (put_back16 (release slab arrays) filled.h) filled.c,
  )

unfoldable pub fzf_fuzzy_match_v2 :
    Bool → Bool → Bytes → Bytes → Option Positions → Option Slab → Outcome
fzf_fuzzy_match_v2 case_sensitive normalize text pattern out slab =
    if length pattern == 0
    then some (empty_match, out, slab)
    else if exceeds_slab slab (length text * length pattern)
    then (do
      (r, out') ← fzf_fuzzy_match_v1 case_sensitive normalize text pattern out
      some (r, out', slab))
    else (do
      tmp_idx ← ascii_fuzzy_index text pattern case_sensitive
      if ltb_ℤ tmp_idx (pos 0) then some (no_match, out, slab) else (do
        let idx = to_size tmp_idx
        let a = allocate slab text (length pattern)
        pchar ← get_elem? pattern 0
        s ←
            phase2_loop case_sensitive normalize pattern pchar idx (drop idx text)
              (phase2_start a pchar)
        let arrays = record a { h0 = s.h0; c0 = s.c0; bo = s.bo; f = s.f; t = s.t }
        if not (s.pidx == length pattern)
            then some (no_match, out, release slab arrays)
            else if length pattern == 1
            then (do
              out' ← append_pos out s.max_score_pos
              some (
                record {
                  start = to_i32 s.max_score_pos;
                  end = to_i32 s.max_score_pos +ℤ pos 1;
                  score = s.max_score;
                },
                out',
                release slab arrays,
              ))
            else v2_matrix pattern out slab a s))
