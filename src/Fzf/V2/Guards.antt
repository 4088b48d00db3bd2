-- ===== src/Fzf/V2/Guards.antt =====
-- What `fzf_fuzzy_match_v2` does before its matrix: a text without the pattern, and a matrix that the
-- slab cannot hold.
use plugged.Common.{
  Bool, Bool-cases, Option, arith, inl, inr, length, neq-false, pos, refl, some, true, ℕ, ℤ, ◌*◌,
  ◌-◌, ◌<◌, ◌^◌, ◌∷◌, ◌≡◌, ◌≤◌,
}
use plugged.Fzf.Chars.{Bytes}
use plugged.Fzf.Fold.{IsFolded}
use plugged.Fzf.Positions.{Positions}
use plugged.Fzf.Positions.Growth.{Fits}
use plugged.Fzf.Score.{no_match}
use plugged.Fzf.Score.Run.{InBounds, fold_hit}
use plugged.Fzf.Slab.{Slab}
use plugged.Fzf.Subseq.{Subseq}
use plugged.Fzf.V1.Match.{fuzzy_index_rejects, v1_finds, v1_rejects}
use plugged.Fzf.V1.Tight.{IsTightest}
use plugged.Fzf.V2.{fzf_fuzzy_match_v2}
use plugged.Fzf.V2.Memory.{exceeds_slab}

module _ (case_sensitive normalize : Bool) (p : ℕ) (ps text : Bytes)
    (folded : IsFolded case_sensitive (p ∷ ps)) (small : length text < 2 ^ 31)
    (out : Option Positions) (slab : Option Slab) where
  -- On a text shorter than 2^31 bytes and a pattern of at least one byte, without upper case
  -- letters where case does not count, `fzf_fuzzy_match_v2` returns -1, -1, 0 for a text that
  -- does not hold the pattern's bytes in order, whatever the slab, and leaves the positions and
  -- the slab.
  pub v2_rejects :
      ¬ Subseq (fold_hit case_sensitive normalize) (p ∷ ps) text
      → fzf_fuzzy_match_v2 case_sensitive normalize text (p ∷ ps) out slab
        ≡ some (no_match, out, slab)
  unfolding fzf_fuzzy_match_v2
  v2_rejects no_sub = elim (Bool-cases (exceeds_slab slab (length text * length (p ∷ ps)))) [
    | inl e ↦ rw (
      neq-false (length (p ∷ ps)) 0 (omega arith),
      e,
      v1_rejects case_sensitive normalize p ps text folded small out no_sub,
    )
    | inr e ↦ rw (
      neq-false (length (p ∷ ps)) 0 (omega arith),
      e,
      fuzzy_index_rejects case_sensitive normalize p ps text folded small no_sub,
    )
  ]

  -- If the slab has fewer 16-bit cells than the lengths of text and pattern multiplied, for a
  -- text of at most 2^29 bytes that holds in order the bytes of a pattern of 1 to 2^26 bytes,
  -- without upper case letters where case does not count, and positions whose cells in use fit
  -- their capacity, `fzf_fuzzy_match_v2` returns a range that ends as early as possible and for
  -- that end begins as late as possible, with a score of at least 16 a matching byte less 3 a
  -- missing one, and at most 24 a matching byte and 8, less 1 a missing one, and leaves the
  -- slab.
  pub v2_finds_without_matrix :
      exceeds_slab slab (length text * length (p ∷ ps)) ≡ true
      → length text ≤ 2 ^ 29
      → length (p ∷ ps) ≤ 2 ^ 26
      → Fits out
      → Subseq (fold_hit case_sensitive normalize) (p ∷ ps) text
      → (s : ℕ) × (e : ℕ) × (score : ℤ) × (q : Option Positions) × (fzf_fuzzy_match_v2
            case_sensitive normalize text
            (p ∷ ps)
            out
            slab
          ≡ some (record { start = pos s; end = pos e; score = score }, q, slab))
        × IsTightest (fold_hit case_sensitive normalize) (p ∷ ps) text s e
        × InBounds (length (p ∷ ps)) (e - s - length (p ∷ ps)) score
  unfolding fzf_fuzzy_match_v2
  v2_finds_without_matrix large low short f d =
      let (s, e, score, q, run, tight, _, bounds) =
        v1_finds case_sensitive normalize p ps text folded small out low short f d in
      (
        s,
        e,
        score,
        q,
        rw (neq-false (length (p ∷ ps)) 0 (omega arith), large, run) refl,
        tight,
        bounds,
      )
