-- ===== src/Fzf/Tests.antt =====
-- The theorems on the fuzzy matchers, at inputs that meet their hypotheses.
mod Affix
mod Exact
mod Pattern
mod Query
mod V2
use plugged.Common.{
  Option, [], arith, drop, false, inr, length, pos, refl, replicate, some, take, true, ℕ, ℤ, ◌*◌,
  ◌-◌, ◌∷◌, ◌≡◌,
}
use plugged.Fzf.Chars.{fold_char}
use plugged.Fzf.Positions.{Positions}
use plugged.Fzf.Positions.Growth.{Grown}
use plugged.Fzf.Samples.{codes, hit, no_c, out, pat, sample, small_slab}
use plugged.Fzf.Score.{calculate_score, no_match}
use plugged.Fzf.Score.Run.{InBounds, matched_places}
use plugged.Fzf.Score.Total.{calculate_score_lem}
use plugged.Fzf.Skip.{ascii_fuzzy_index}
use plugged.Fzf.Skip.First.{first_where}
use plugged.Fzf.Skip.Index.{ascii_fuzzy_index-eq, first_after, verdict}
use plugged.Fzf.Skip.Search.{skip_hit}
use plugged.Fzf.Slab.{Slab}
use plugged.Fzf.Slab.Apart.{Apart, alloc_all, alloc_all-Apart}
use plugged.Fzf.Subseq.{Subseq, cut, done, pick, skip}
use plugged.Fzf.V1.{fzf_fuzzy_match_v1}
use plugged.Fzf.V1.Match.{v1_finds, v1_rejects}
use plugged.Fzf.V1.Tight.{IsTightest}
use plugged.Fzf.V2.{fzf_fuzzy_match_v2}
use plugged.Fzf.V2.Guards.{v2_finds_without_matrix, v2_rejects}
use plugged.Fzf.V2.Memory.{exceeds_slab}

pat_in_sample : Subseq hit pat sample
unfolding fold_char
pat_in_sample = skip (pick refl (skip (pick refl done)))

abbrev tiny_slab : Option Slab
tiny_slab = some (record { i16 = pos 0 ∷ []; i32 = pos 0 ∷ [] })

too_large : exceeds_slab tiny_slab (length sample * length pat) ≡ true
unfolding exceeds_slab
too_large = refl

taken_whole : cut hit pat (take (4 - 1) (drop 1 sample)) ≡ some (4 - 1)
unfolding cut fold_char
taken_whole = refl

v1_finds_example :
    (s : ℕ) × (e : ℕ) × (score : ℤ) × (q : Option Positions) × (fzf_fuzzy_match_v1 false false
        sample pat out
      ≡ some (record { start = pos s; end = pos e; score = score }, q))
    × IsTightest hit pat sample s e
    × Grown out (matched_places hit s pat (take (e - s) (drop s sample))) q
    × InBounds (length pat) (e - s - length pat) score
v1_finds_example =
    v1_finds false false 97 (98 ∷ []) sample (inr refl, (inr refl, tt)) (omega arith) out
      (omega arith) (omega arith) (omega arith) pat_in_sample

v1_rejects_example :
    fzf_fuzzy_match_v1 false false (codes "ab") (codes "c") out ≡ some (no_match, out)
v1_rejects_example = v1_rejects false false 99 [] (codes "ab") (inr refl, tt) (omega arith) out no_c

v2_rejects_example :
    fzf_fuzzy_match_v2 false false (codes "ab") (codes "c") out small_slab
    ≡ some (no_match, out, small_slab)
v2_rejects_example =
    v2_rejects false false 99 [] (codes "ab") (inr refl, tt) (omega arith) out small_slab no_c

v2_finds_example :
    (s : ℕ) × (e : ℕ) × (score : ℤ) × (q : Option Positions) × (fzf_fuzzy_match_v2 false false
        sample pat out tiny_slab
      ≡ some (record { start = pos s; end = pos e; score = score }, q, tiny_slab))
    × IsTightest hit pat sample s e
    × InBounds (length pat) (e - s - length pat) score
v2_finds_example =
    v2_finds_without_matrix false false 97 (98 ∷ []) sample (inr refl, (inr refl, tt)) (omega arith)
      out tiny_slab too_large (omega arith) (omega arith) (omega arith) pat_in_sample

calculate_score_example :
    (score : ℤ) × (q : Option Positions) × (calculate_score false false sample pat 1 4 out
      ≡ some (score, q))
    × Grown out (matched_places hit 1 pat (take (4 - 1) (drop 1 sample))) q
    × InBounds (length pat) (4 - 1 - length pat) score
calculate_score_example =
    calculate_score_lem false false pat sample 1 4 out (omega arith) (omega arith) (omega arith)
      (omega arith) (omega arith) (omega arith) taken_whole

ascii_fuzzy_index_example :
    ascii_fuzzy_index sample pat false
    ≡ some (
        verdict
          (first_after 0 (pos 0) 0 (first_where (skip_hit false 97) sample))
          (cut (skip_hit false) pat sample))
ascii_fuzzy_index_example = ascii_fuzzy_index-eq sample false (omega arith) 97 (98 ∷ [])

-- Two arrays fit the slab, the third and the last do not.
alloc_example :
    Apart
      (some (replicate 10 (pos 0)))
      0
      (4 ∷ 5 ∷ 1 ∷ 2 ∷ [])
      (alloc_all (some (replicate 10 (pos 0))) 0 (4 ∷ 5 ∷ 1 ∷ 2 ∷ []))
alloc_example = alloc_all-Apart (some (replicate 10 (pos 0))) (4 ∷ 5 ∷ 1 ∷ 2 ∷ []) 0 (omega arith)
