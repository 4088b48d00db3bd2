-- ===== src/Fzf/V2/Several.antt =====
-- What `fzf_fuzzy_match_v2` gives for a pattern of two bytes or more, from its first test on.
use plugged.Common.{
  Bool, Option, arith, drop, false, length, length-drop, pos, refl, some, to_size_of_lt, ℕ, ◌*◌,
  ◌+◌, ◌-◌, ◌<◌, ◌^◌, ◌∷◌, ◌≡◌, ◌≤◌,
}
use plugged.Fzf.Chars.{Bytes}
use plugged.Fzf.Fold.{IsFolded}
use plugged.Fzf.Positions.{Positions}
use plugged.Fzf.Positions.Growth.{Fits}
use plugged.Fzf.Score.Run.{fold_hit}
use plugged.Fzf.Slab.{Slab}
use plugged.Fzf.Subseq.{Subseq}
use plugged.Fzf.V2.{allocate, fzf_fuzzy_match_v2, phase2_start}
use plugged.Fzf.V2.Grid.{Hits}
use plugged.Fzf.V2.Grid.Begin.{first_index, start_Scanned}
use plugged.Fzf.V2.Grid.Find.{v2_matrix_lem, v2_several-run}
use plugged.Fzf.V2.Grid.Laid.{all_found}
use plugged.Fzf.V2.Grid.Scan.{phase2_loop-Scanned}
use plugged.Fzf.V2.Grid.Way.{Way}
use plugged.Fzf.V2.Memory.{exceeds_slab}
use plugged.Fzf.V2.Start.{allocate-offset16}

-- On a text shorter than 2^31 bytes that holds in order the bytes of a pattern of 2 to 1024
-- bytes, without upper case letters where case does not count, without a slab or with one of at
-- least as many 16-bit cells as the lengths of text and pattern multiplied, and positions whose
-- cells in use fit their capacity, `fzf_fuzzy_match_v2` returns without a fault: the match ends
-- at a place of the pattern's last byte, the score is above 0 and at most 24 a byte of the
-- pattern and 8 more, and the positions grow by one place for each byte of the pattern, each a
-- place of that byte, from the end back to the start, each before the last one; without
-- positions the start is that end.
pub v2_finds :
    (case_sensitive normalize : Bool) (p0 p1 : ℕ) (ps text : Bytes)
    → IsFolded case_sensitive (p0 ∷ p1 ∷ ps)
    → length text < 2 ^ 31
    → length (p0 ∷ p1 ∷ ps) ≤ 1024
    → (out : Option Positions) (slab : Option Slab)
    → exceeds_slab slab (length text * length (p0 ∷ p1 ∷ ps)) ≡ false
    → Fits out
    → Subseq (fold_hit case_sensitive normalize) (p0 ∷ p1 ∷ ps) text
    → (start : ℕ) × (end : ℕ) × (n : ℕ) × (q : Option Positions) × (slab' : Option Slab)
      × (fzf_fuzzy_match_v2 case_sensitive normalize text (p0 ∷ p1 ∷ ps) out slab
          ≡ some (record { start = pos start; end = pos (end + 1); score = pos n }, q, slab'))
      × (0 < n)
      × (n ≤ 24 * length (p0 ∷ p1 ∷ ps) + 8)
      × (end < length text)
      × Hits (fold_hit case_sensitive normalize) (p0 ∷ p1 ∷ ps) text (length (p0 ∷ p1 ∷ ps) - 1) end
      × Way (fold_hit case_sensitive normalize) (p0 ∷ p1 ∷ ps) text out start end q
v2_finds case_sensitive normalize p0 p1 ps text folded small few out slab room fits d =
    let pattern = p0 ∷ p1 ∷ ps in
    let a = allocate slab text (length pattern) in
    let two : 2 ≤ length pattern = omega arith in
    let (i, first, inside, from) =
      first_index case_sensitive normalize p0 (p1 ∷ ps) text folded small d in
    let (s, run, k) =
      phase2_loop-Scanned case_sensitive normalize pattern text two small p0 refl i (drop i text) i
        (phase2_start a p0) refl (omega (arith, length-drop i text)) (omega arith)
        (start_Scanned case_sensitive normalize p0 (p1 ∷ ps) text folded small slab i few from) in
    let (start, end, n, q, slab', matrix, scored, low, inside_end, hits, way) =
      v2_matrix_lem case_sensitive normalize pattern text two few small i s k slab a out
        (allocate-offset16 slab text (length pattern) small) fits in
    (
      start,
      end,
      n,
      q,
      slab',
      v2_several-run case_sensitive normalize text p0 p1 ps out slab slab' i s _ q room first
          (to_size_of_lt i (omega arith)) run
          (all_found case_sensitive normalize pattern text two few small i s k) matrix,
      scored,
      low,
      inside_end,
      hits,
      way,
    )
