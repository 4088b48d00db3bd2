-- ===== src/Fzf/V2/Rows.antt =====
-- fzf.c, lines 648-725: the rows of the score matrix `h` and of the runs `c` for the bytes of the
-- pattern after the first one.
use plugged.Common.{
  Bool, Option, add_size, eqb_ℤ, false, get_elem?, if◌then◌else◌, length, ltb_ℤ, pos, some,
  sub_size, suc, to_i16, to_size, zero, ℕ, ℤ, ◌&&◌, ◌*◌, ◌+ℤ◌, ◌+◌, ◌-◌, ◌==◌, ◌>>=◌,
}
use plugged.Fzf.Chars.{
  Bytes, bonus_boundary, bonus_consecutive, score_gap_extension, score_gap_start, score_match,
}
use plugged.Fzf.Score.{max16}
use plugged.Fzf.Slab.{Array}
use plugged.Fzf.V2.Memory.{load, store}

pub record Matrix : Type 0 where
  pub h : Array
  pub c : Array
  pub max_score : ℤ
  pub max_score_pos : ℕ

-- The bonus of a run of matches that ends at `col`, and its length.
unfoldable pub run_bonus : Array → ℕ → ℤ → ℤ → Option (ℤ × ℤ)
unfolding load max16
run_bonus bo col b consecutive =
    if eqb_ℤ b bonus_boundary
    then some (b, pos 1)
    else if ltb_ℤ (pos 1) consecutive
    then (do
      first ← load bo (add_size (sub_size col (to_size consecutive)) 1)
      some (max16 b (max16 bonus_consecutive first), consecutive))
    else some (b, consecutive)

-- The score of a match at a cell and the length of its run: `s1` and `consecutive`.
unfoldable pub match_score : Array → Matrix → ℕ → ℕ → ℤ → Option (ℤ × ℤ)
unfolding run_bonus ◌+ℤ◌
match_score bo s diag col s2 = do
  before ← load s.h diag
  let s1 = to_i16 (before +ℤ score_match)
  plain ← load bo col
  run ← load s.c diag
  (b, consecutive) ← run_bonus bo col plain (to_i16 (run +ℤ pos 1))
  if ltb_ℤ (s1 +ℤ b) s2
      then some (to_i16 (s1 +ℤ plain), pos 0)
      else some (to_i16 (s1 +ℤ b), consecutive)

-- One cell: `here` is its index in the matrix, `col` its place in the text. The flag is `in_gap`.
unfoldable pub fill_cell :
    ℕ → Array → Array → ℕ → ℕ → ℕ → ℕ → ℕ → Bool → Matrix → Option (Matrix × Bool)
unfolding match_score store max16
fill_cell m t bo width pchar pidx here col in_gap s = do
  ch ← load t col
  left ← load s.h (sub_size here 1)
  let s2 = to_i16 (left +ℤ (if in_gap then score_gap_extension else score_gap_start))
  (s1, consecutive) ←
      if eqb_ℤ (pos pchar) ch
      then match_score bo s (sub_size (sub_size here 1) width) col s2
      else some (pos 0, pos 0)
  c ← store s.c here consecutive
  let score = max16 (max16 s1 s2) (pos 0)
  h ← store s.h here score
  let better = pidx == m - 1 && ltb_ℤ s.max_score score
  some (
    record {
      h = h;
      c = c;
      max_score = if better then score else s.max_score;
      max_score_pos = if better then col else s.max_score_pos;
    },
    ltb_ℤ s1 s2,
  )

-- The loop over a row, with the cells that are left.
unfoldable pub fill_row : ℕ → Array → Array → ℕ → ℕ → ℕ → ℕ → ℕ → ℕ → Bool → Matrix → Option Matrix
unfolding fill_cell
fill_row m t bo width pchar pidx zero here col in_gap s = some s
fill_row m t bo width pchar pidx (suc left) here col in_gap s = do
  (s', in_gap') ← fill_cell m t bo width pchar pidx here col in_gap s
  fill_row m t bo width pchar pidx left (here + 1) (col + 1) in_gap' s'

-- The loop over the pattern's bytes from `off + 1`, with the rows that are left.
unfoldable pub fill_rows :
    Bytes → Array → Array → Array → ℕ → ℕ → ℕ → ℕ → ℕ → Matrix → Option Matrix
unfolding fill_row
fill_rows pattern t bo f f0 width last_idx zero off s = some s
fill_rows pattern t bo f f0 width last_idx (suc left) off s = do
  first ← load f (off + 1)
  pchar ← get_elem? pattern (off + 1)
  let foff = to_size first
  let here = sub_size ((off + 1) * width + foff) f0
  h ← store s.h (sub_size here 1) (pos 0)
  s' ←
      fill_row (length pattern) t bo width pchar (off + 1) (sub_size (last_idx + 1) foff) here foff
        false (record s { h = h })
  fill_rows pattern t bo f f0 width last_idx left (off + 1) s'
