-- ===== src/Fzf/Exact/Match.antt =====
-- `fzf_exact_match_naive` as a whole: what it finds, and what it rejects.
use plugged.Common.{
  Bool, Bool-cases, Option, Option-cases, [], add_size, arith, drop, false, inl, inr, length,
  length-drop, le→ltb, ltb, ltb_ℤ-neg, neq-false, pos, some, sub_size, suc, to_size_of_lt, true,
  zero, ℕ, ℤ, ◌+◌, ◌-◌, ◌<◌, ◌^◌, ◌∷◌, ◌≡◌, ◌≤◌,
}
use plugged.Fzf.Affix.Compare.{score_range-eq, starts_with, starts_with-length}
use plugged.Fzf.Chars.{Bytes}
use plugged.Fzf.Exact.{fzf_exact_match_naive}
use plugged.Fzf.Exact.Best.{IsBest, occurs}
use plugged.Fzf.Exact.Scan.{exact_loop-Best}
use plugged.Fzf.Fold.{IsFolded}
use plugged.Fzf.Positions.{Positions}
use plugged.Fzf.Positions.Growth.{Fits, Grown, places_from}
use plugged.Fzf.Score.{no_match}
use plugged.Fzf.Score.Run.{InBounds, fold_hit}
use plugged.Fzf.Subseq.{Subseq, cut, done, pick, skip}
use plugged.Fzf.Subseq.Greedy.{cut_complete}
use plugged.Fzf.V1.Match.{fuzzy_index_accepts, fuzzy_index_rejects}

-- A text with the pattern at some place holds its bytes in order.
pub starts_with-Subseq :
    (hit : ℕ → ℕ → Bool) (ps xs : Bytes) → starts_with hit ps xs ≡ true → Subseq hit ps xs
unfolding starts_with
starts_with-Subseq hit [] xs h = done
starts_with-Subseq hit (p ∷ ps) [] h = cc
starts_with-Subseq hit (p ∷ ps) (x ∷ xs) h = elim (Bool-cases (hit p x)) [
  | inl b ↦ pick b (starts_with-Subseq hit ps xs (rw b at h))
  | inr b ↦ cc (rw b at h)
]

pub Subseq-of_drop :
    (hit : ℕ → ℕ → Bool) (n : ℕ) (ps xs : Bytes) → Subseq hit ps (drop n xs) → Subseq hit ps xs
Subseq-of_drop hit zero ps xs d = d
Subseq-of_drop hit (suc n) ps [] d = d
Subseq-of_drop hit (suc n) ps (x ∷ xs) d = skip (Subseq-of_drop hit n ps xs d)

module _ (case_sensitive normalize : Bool) (p : ℕ) (ps text : Bytes)
    (folded : IsFolded case_sensitive (p ∷ ps)) (small : length text < 2 ^ 31)
    (out : Option Positions) where
  abbrev exact_hit : ℕ → ℕ → Bool
  exact_hit = fold_hit case_sensitive normalize

  -- On a text shorter than 2^31 bytes with the pattern at some place, for a pattern of 1 to 2^26
  -- bytes without upper case letters where case does not count, and positions whose cells in use
  -- fit their capacity, `fzf_exact_match_naive` returns an occurrence without a fault: the bonus
  -- of its place is at least that of every occurrence and above that of every earlier one. Its
  -- places are appended, and the score is between 16 a byte and 24 a byte and 8.
  pub exact_finds :
      length (p ∷ ps) ≤ 2 ^ 26
      → Fits out
      → (a : ℕ) → occurs exact_hit (p ∷ ps) text a ≡ true
      → (s : ℕ) × (bonus : ℤ) × (score : ℤ) × (q : Option Positions) × (fzf_exact_match_naive
            case_sensitive normalize text
            (p ∷ ps)
            out
          ≡ some (record { start = pos s; end = pos (s + length (p ∷ ps)); score = score }, q))
        × IsBest exact_hit (p ∷ ps) text (length text) s bonus
        × Grown out (places_from s (length (p ∷ ps))) q
        × InBounds (length (p ∷ ps)) 0 score
  unfolding fzf_exact_match_naive
  exact_finds short f a here =
      let rest = starts_with-length exact_hit (p ∷ ps) (drop a text) here in
      let room : a + length (p ∷ ps) ≤ length text = omega (arith, length-drop a text) in
      let (n, c) = cut_complete exact_hit (p ∷ ps) text (
        Subseq-of_drop exact_hit a (p ∷ ps) text
          (starts_with-Subseq exact_hit (p ∷ ps) (drop a text) here)) in
      let (i, first) = fuzzy_index_accepts case_sensitive normalize p ps text folded small c in
      let (t, run, best) =
        exact_loop-Best case_sensitive normalize text (p ∷ ps) small (omega arith) in
      elim best [
        | inl (e, e', never) ↦ cc (never a (omega arith))
        | inr (s, e, b) ↦
            let long = starts_with-length exact_hit (p ∷ ps) (drop s text) b.here in
            let fits : s + length (p ∷ ps) ≤ length text =
              omega (arith, length-drop s text, b.before) in
            let (score, q, ranged, grown, bounds) =
              score_range-eq case_sensitive normalize text small (p ∷ ps) s out (omega arith) short
                fits f b.here in
            let last = to_size_of_lt (s + length (p ∷ ps) - 1) (omega arith) in
            let start : add_size (sub_size (s + length (p ∷ ps) - 1) (length (p ∷ ps))) 1 ≡ s =
              omega arith in
            let end : add_size (s + length (p ∷ ps) - 1) 1 ≡ s + length (p ∷ ps) = omega arith in
            (
              s,
              t.best_bonus,
              score,
              q,
              rw
                  (
                    neq-false (length (p ∷ ps)) 0 (omega arith),
                    le→ltb (length text) (length (p ∷ ps)) (omega arith),
                    first,
                    ltb_ℤ-neg i,
                    run,
                    e,
                    ltb_ℤ-neg (s + length (p ∷ ps) - 1),
                    last,
                    start,
                    end,
                  )
                  ranged,
              b,
              grown,
              bounds,
            )
      ]

  -- On a text shorter than 2^31 bytes with the pattern at no place, for a pattern of at least
  -- one byte without upper case letters where case does not count, `fzf_exact_match_naive`
  -- returns -1, -1, 0 without a fault and leaves the positions.
  pub exact_rejects :
      ((a : ℕ) → a < length text → occurs exact_hit (p ∷ ps) text a ≡ false)
      → fzf_exact_match_naive case_sensitive normalize text (p ∷ ps) out ≡ some (no_match, out)
  unfolding fzf_exact_match_naive
  exact_rejects never =
      let (t, run, best) =
        exact_loop-Best case_sensitive normalize text (p ∷ ps) small (omega arith) in
      elim (Bool-cases (ltb (length text) (length (p ∷ ps)))) [
        | inl short ↦ rw (neq-false (length (p ∷ ps)) 0 (omega arith), short)
        | inr long ↦ elim (Option-cases (cut exact_hit (p ∷ ps) text)) [
          | inl none_cut ↦ rw (
            neq-false (length (p ∷ ps)) 0 (omega arith),
            long,
            fuzzy_index_rejects case_sensitive normalize p ps text folded small
                (λ d. let (n, c) = cut_complete exact_hit (p ∷ ps) text d in cc),
          )
          | inr (n, c) ↦
              let (i, first) =
                fuzzy_index_accepts case_sensitive normalize p ps text folded small c in
              elim best [
                | inl (e, e', _) ↦
                    rw (
                      neq-false (length (p ∷ ps)) 0 (omega arith),
                      long,
                      first,
                      ltb_ℤ-neg i,
                      run,
                      e,
                    )
                | inr (s, e, b) ↦ cc (never s b.before, b.here)
              ]
        ]
      ]
