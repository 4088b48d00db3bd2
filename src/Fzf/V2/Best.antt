-- ===== src/Fzf/V2/Best.antt =====
-- What `fzf_fuzzy_match_v2` gives for a pattern of one byte.
use plugged.Common.{
  +ℤ-pos, Bool, Option, [], arith, drop, false, inl, inr, length, length-drop, ltb_ℤ-neg, pos, refl,
  some, subst, to_i32_of_lt, to_size_of_lt, true, ℕ, ◌*◌, ◌+◌, ◌<◌, ◌^◌, ◌∷◌, ◌≡◌, ◌≤◌,
}
use plugged.Fzf.Affix.Compare.{starts_with-length}
use plugged.Fzf.Chars.{Bytes}
use plugged.Fzf.Exact.Best.{IsBest, occurs}
use plugged.Fzf.Exact.Match.{Subseq-of_drop, starts_with-Subseq}
use plugged.Fzf.Fold.{IsFolded}
use plugged.Fzf.Positions.{Positions, append_pos}
use plugged.Fzf.Positions.Growth.{Fits, Grown, append_pos-Grown}
use plugged.Fzf.Score.Run.{fold_hit}
use plugged.Fzf.Skip.{ascii_fuzzy_index}
use plugged.Fzf.Slab.{Slab}
use plugged.Fzf.Subseq.Greedy.{cut_complete}
use plugged.Fzf.V2.{allocate, fzf_fuzzy_match_v2, phase2_start, release}
use plugged.Fzf.V2.FirstRow.{Phase2, phase2_loop}
use plugged.Fzf.V2.Memory.{exceeds_slab}
use plugged.Fzf.V2.Rounds.{phase2_loop-Seen}
use plugged.Fzf.V2.Single.{Seen}
use plugged.Fzf.V2.Start.{single_index, start_Ready, start_Seen}

module _ (case_sensitive normalize : Bool) (p : ℕ) (text : Bytes)
    (folded : IsFolded case_sensitive (p ∷ [])) (small : length text < 2 ^ 31) where
  abbrev one_hit : ℕ → ℕ → Bool
  one_hit = fold_hit case_sensitive normalize

  -- After the loop the best place is known, where there is one.
  IsBest-found :
      (s : Phase2)
      → Seen case_sensitive normalize p text (length text) s
      → (a : ℕ) → a < length text
      → occurs one_hit (p ∷ []) text a ≡ true
      → (m : ℕ) × (s.max_score ≡ pos (16 + m + m))
        × (s.pidx ≡ 1)
        × IsBest one_hit (p ∷ []) text (length text) s.max_score_pos (pos m)
  IsBest-found s (inl (score, fresh, inl (_, _, never))) a lt here = cc (never a lt)
  IsBest-found s (inl (score, fresh, inr (_, e, _))) a lt here = cc
  IsBest-found s (inr (m, small_m, score, once, inl (e, _, _))) a lt here = cc
  IsBest-found s (inr (m, small_m, score, once, inr (place, e, best))) a lt here =
      let same : s.max_score_pos ≡ place = ground arith in (m, score, once, rw same best)

  -- The result of the matcher, once its parts have run.
  v2_single_run :
      (out : Option Positions) (slab : Option Slab)
      → exceeds_slab slab (length text * 1) ≡ false
      → (i : ℕ) → ascii_fuzzy_index text (p ∷ []) case_sensitive ≡ some (pos i)
      → i ≤ length text
      → (s : Phase2)
      → phase2_loop case_sensitive normalize
          (p ∷ [])
          p
          i
          (drop i text)
          (phase2_start (allocate slab text 1) p)
        ≡ some s
      → s.pidx ≡ 1
      → s.max_score_pos < length text
      → (q : Option Positions) → append_pos out s.max_score_pos ≡ some q
      → (slab' : Option Slab) × (fzf_fuzzy_match_v2 case_sensitive normalize text (p ∷ []) out slab
          ≡ some (
            record {
              start = pos s.max_score_pos;
              end = pos (s.max_score_pos + 1);
              score = s.max_score;
            },
            q,
            slab',
          ))
  unfolding fzf_fuzzy_match_v2
  v2_single_run out slab fits_slab i first inside s run once lt q appended = (
    release slab
        (record (allocate slab text 1) { h0 = s.h0; c0 = s.c0; bo = s.bo; f = s.f; t = s.t }),
    rw
        (
          fits_slab,
          first,
          ltb_ℤ-neg i,
          to_size_of_lt i (omega arith),
          run,
          once,
          appended,
          to_i32_of_lt s.max_score_pos (omega arith),
          +ℤ-pos s.max_score_pos 1,
        )
        refl,
  )

  -- On a text shorter than 2^31 bytes that holds the one byte of a pattern, not an upper case
  -- letter where case does not count, without a slab or with one of at least as many 16-bit
  -- cells as the text has bytes, and positions whose cells in use fit their capacity,
  -- `fzf_fuzzy_match_v2` returns a place of the byte without a fault: its bonus is at least that
  -- of every other place of the byte and above that of every earlier one, the score is 16 and
  -- twice the bonus, and the place is appended to the positions.
  pub v2_single_finds :
      (out : Option Positions) (slab : Option Slab)
      → exceeds_slab slab (length text * 1) ≡ false
      → Fits out
      → (a : ℕ) → occurs one_hit (p ∷ []) text a ≡ true
      → (s : ℕ) × (n : ℕ) × (q : Option Positions) × (slab' : Option Slab) × (fzf_fuzzy_match_v2
            case_sensitive normalize text
            (p ∷ [])
            out
            slab
          ≡ some (record { start = pos s; end = pos (s + 1); score = pos (16 + n + n) }, q, slab'))
        × IsBest one_hit (p ∷ []) text (length text) s (pos n)
        × Grown out (s ∷ []) q
  unfolding fzf_fuzzy_match_v2
  v2_single_finds out slab fits_slab f a here =
      let rest = starts_with-length one_hit (p ∷ []) (drop a text) here in
      let (n, c) = cut_complete one_hit (p ∷ []) text (
        Subseq-of_drop one_hit a (p ∷ []) text
          (starts_with-Subseq one_hit (p ∷ []) (drop a text) here)) in
      let (i, first, inside, never, start) =
        single_index case_sensitive normalize p text folded small c in
      let (s, run, seen) =
        phase2_loop-Seen case_sensitive normalize p text (drop i text) i
          (phase2_start (allocate slab text 1) p) refl (omega (arith, length-drop i text))
          (start_Ready case_sensitive normalize p text folded small slab i start)
          (start_Seen case_sensitive normalize p text folded small slab i never) in
      let (m, score, once, best) = IsBest-found s seen a (omega (arith, length-drop a text)) here in
      let (q, appended, grown) =
        append_pos-Grown out s.max_score_pos f (omega (arith, best.before)) in
      let (slab', result) =
        v2_single_run out slab fits_slab i first inside s run once best.before q appended in
      (
        s.max_score_pos,
        m,
        q,
        slab',
        subst
            (λ t.
              fzf_fuzzy_match_v2 case_sensitive normalize text (p ∷ []) out slab
              ≡ some (
                record { start = pos s.max_score_pos; end = pos (s.max_score_pos + 1); score = t },
                q,
                slab',
              ))
            score result,
        best,
        grown,
      )
