-- ===== src/Fzf/V1/Match.antt =====
-- `fzf_fuzzy_match_v1` as a whole: what it finds, and what it rejects.
use mathlib.Core.List.{reverse}
use native.Mathlib.Nat.{zero-add}
use plugged.Common.{
  Bool, Option, Option-cases, ap, arith, drop, false, inl, inr, length, ltb_ℤ-neg, neq-false, none,
  pos, refl, some, suc, sym, take, to_i32_of_lt, to_size_of_lt, ℕ, ℤ, ◌+◌, ◌-◌, ◌<◌, ◌^◌, ◌∙◌, ◌∷◌,
  ◌≡◌, ◌≤◌,
}
use plugged.Fzf.Chars.{Bytes}
use plugged.Fzf.Fold.{IsFolded, cut-skip_hit, fold_hit-normalize}
use plugged.Fzf.Positions.{Positions}
use plugged.Fzf.Positions.Growth.{Fits, Grown}
use plugged.Fzf.Score.{no_match}
use plugged.Fzf.Score.Run.{InBounds, fold_hit, matched_places}
use plugged.Fzf.Score.Total.{calculate_score_lem}
use plugged.Fzf.Skip.{ascii_fuzzy_index, minus_one}
use plugged.Fzf.Skip.First.{first_where}
use plugged.Fzf.Skip.Index.{ascii_fuzzy_index-eq, first_after-pos}
use plugged.Fzf.Skip.Search.{skip_hit}
use plugged.Fzf.Subseq.{Subseq, cut}
use plugged.Fzf.Subseq.Greedy.{cut_complete, cut_sound, cut_tail}
use plugged.Fzf.Subseq.Mirror.{Subseq-of_take}
use plugged.Fzf.V1.{fzf_fuzzy_match_v1, v1_backward}
use plugged.Fzf.V1.Back.{mirror, v1_backward-eq}
use plugged.Fzf.V1.Scan.{forward_fresh}
use plugged.Fzf.V1.Tight.{IsTightest, cut-cong, greedy_start, mirror-all, mirrored}

module _ (case_sensitive normalize : Bool) (p : ℕ) (ps text : Bytes)
    (folded : IsFolded case_sensitive (p ∷ ps)) (small : length text < 2 ^ 31) where
  abbrev match_hit : ℕ → ℕ → Bool
  match_hit = fold_hit case_sensitive normalize

  same_cut : cut (skip_hit case_sensitive) (p ∷ ps) text ≡ cut match_hit (p ∷ ps) text
  same_cut = cut-skip_hit case_sensitive normalize (p ∷ ps) text folded

  cut-none : ¬ Subseq match_hit (p ∷ ps) text → cut match_hit (p ∷ ps) text ≡ none
  cut-none no_sub = elim (Option-cases (cut match_hit (p ∷ ps) text)) [
    | inl e ↦ e
    | inr (n, e) ↦
        absurd (
          no_sub (Subseq-of_take match_hit n (p ∷ ps) text (cut_sound match_hit (p ∷ ps) text e).0))
  ]

  -- The first test of every matcher: negative exactly if the text does not hold the pattern.
  pub fuzzy_index_rejects :
      ¬ Subseq match_hit (p ∷ ps) text
      → ascii_fuzzy_index text (p ∷ ps) case_sensitive ≡ some minus_one
  fuzzy_index_rejects no_sub =
      rw (ascii_fuzzy_index-eq text case_sensitive small p ps, same_cut, cut-none no_sub)

  -- On a text shorter than 2^31 bytes and a pattern of at least one byte, without upper case
  -- letters where case does not count, `fzf_fuzzy_match_v1` returns -1, -1, 0 for a text that
  -- does not hold the pattern's bytes in order, and leaves the positions as they are.
  pub v1_rejects :
      (out : Option Positions)
      → ¬ Subseq match_hit (p ∷ ps) text
      → fzf_fuzzy_match_v1 case_sensitive normalize text (p ∷ ps) out ≡ some (no_match, out)
  unfolding fzf_fuzzy_match_v1
  v1_rejects out no_sub =
      rw (neq-false (length (p ∷ ps)) 0 (omega arith), fuzzy_index_rejects no_sub)

  -- The first test passes where the text holds the pattern.
  pub fuzzy_index_accepts :
      {n : ℕ}
      → cut match_hit (p ∷ ps) text ≡ some n
      → (i : ℕ) × (ascii_fuzzy_index text (p ∷ ps) case_sensitive ≡ some (pos i))
  fuzzy_index_accepts c =
      let (i, e, _) = first_after-pos (first_where (skip_hit case_sensitive p) text) in
      (i, rw (ascii_fuzzy_index-eq text case_sensitive small p ps, same_cut, c, e))

  -- The backward loop from the end of the greedy search.
  backward_run :
      (k e n : ℕ)
      → k < e
      → e ≤ length text
      → cut match_hit (reverse (p ∷ ps)) (reverse (take e text)) ≡ some n
      → k + n ≤ e
      → v1_backward case_sensitive text (p ∷ ps) k (e - 1) (length (p ∷ ps) - 1) ≡ some (e - n)
  backward_run k e n lt inside c room =
      let last : suc (e - 1) ≡ e = omega arith in
      let all : suc (length (p ∷ ps) - 1) ≡ length (p ∷ ps) = omega arith in
      let c' : cut (fold_hit case_sensitive false) (mirror (suc (length (p ∷ ps) - 1)) (p ∷ ps))
            (mirror (suc (e - 1)) text)
          ≡ some n =
        cut-cong (sym (fold_hit-normalize case_sensitive normalize))
          (mirror-all (suc (length (p ∷ ps) - 1)) (p ∷ ps) all) (ap (λ t. mirror t text) last) c in
      v1_backward-eq case_sensitive text (p ∷ ps) k (e - 1) (length (p ∷ ps) - 1) n (omega arith)
        (omega arith) c' (omega arith)
      ∙ ap (λ t. some (t - n)) last

  -- On a text of at most 2^29 bytes and a pattern of 1 to 2^26 bytes, without upper case letters
  -- where case does not count, `fzf_fuzzy_match_v1` finds the pattern wherever the text holds
  -- its bytes in order, without a fault. The range ends as early as possible, and for that end
  -- begins as late as possible; the places of the pattern's bytes in it are appended to the
  -- positions, whose cells in use fit their capacity before and after; the score is at least 16
  -- a matching byte less 3 a missing one, and at most 24 a matching byte and 8, less 1 a missing
  -- one.
  pub v1_finds :
      (out : Option Positions)
      → length text ≤ 2 ^ 29
      → length (p ∷ ps) ≤ 2 ^ 26
      → Fits out
      → Subseq match_hit (p ∷ ps) text
      → (s : ℕ) × (e : ℕ) × (score : ℤ) × (q : Option Positions) × (fzf_fuzzy_match_v1
            case_sensitive normalize text
            (p ∷ ps)
            out
          ≡ some (record { start = pos s; end = pos e; score = score }, q))
        × IsTightest match_hit (p ∷ ps) text s e
        × Grown out (matched_places match_hit s (p ∷ ps) (take (e - s) (drop s text))) q
        × InBounds (length (p ∷ ps)) (e - s - length (p ∷ ps)) score
  unfolding fzf_fuzzy_match_v1
  v1_finds out low short f d =
      let (e, c) = cut_complete match_hit (p ∷ ps) text d in
      let (k, fk, lt, tail) = greedy_start match_hit p ps text e c in
      let (n, cn, room, tight) = mirrored match_hit p ps text e c k lt tail in
      let (i, first) = fuzzy_index_accepts c in
      let s = e - n in
      let (score, q, run, grown, bounds) =
        calculate_score_lem case_sensitive normalize (p ∷ ps) text s e out (omega arith)
          tight.inside small short (omega (arith, tight.inside, low)) f
          (cut_tail match_hit (p ∷ ps) text s e c (omega arith) tight.holds) in
      (
        s,
        e,
        score,
        q,
        rw (
          neq-false (length (p ∷ ps)) 0 (omega arith),
          first,
          ltb_ℤ-neg i,
          forward_fresh case_sensitive normalize (p ∷ ps) text p ps 0 e k refl (omega arith) fk c,
          zero-add k,
          zero-add e,
          ltb_ℤ-neg k,
          ltb_ℤ-neg e,
          to_size_of_lt k (omega arith),
          to_size_of_lt e (omega arith),
          backward_run k e n lt tight.inside cn room,
          run,
          to_i32_of_lt s (omega arith),
          to_i32_of_lt e (omega arith),
        ),
        tight,
        grown,
        bounds,
      )
