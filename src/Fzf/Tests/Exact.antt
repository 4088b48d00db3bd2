-- ===== src/Fzf/Tests/Exact.antt =====
-- The theorems on the exact matcher, at inputs that meet their hypotheses.
use plugged.Common.{
  Option, [], arith, false, inr, length, pos, refl, some, suc, true, zero, ℕ, ℤ, ◌+◌, ◌<◌, ◌∷◌, ◌≡◌,
}
use plugged.Fzf.Affix.Compare.{starts_with}
use plugged.Fzf.Chars.{fold_char}
use plugged.Fzf.Exact.{ExactState, exact_fuel, exact_loop, exact_start, fzf_exact_match_naive}
use plugged.Fzf.Exact.Best.{IsBest, occurs}
use plugged.Fzf.Exact.Match.{exact_finds, exact_rejects}
use plugged.Fzf.Exact.Total.{exact_loop_ends}
use plugged.Fzf.Positions.{Positions}
use plugged.Fzf.Positions.Growth.{Grown, places_from}
use plugged.Fzf.Samples.{codes, hit, out, pat, sample}
use plugged.Fzf.Score.{no_match}
use plugged.Fzf.Score.Run.{InBounds}

exact_example :
    (t : ExactState) × (exact_loop false false sample pat (exact_fuel sample pat) exact_start
      ≡ some t)
exact_example = exact_loop_ends false false sample pat (omega arith) (omega arith)

ab_at_two : occurs hit pat (codes "b ab") 2 ≡ true
unfolding starts_with fold_char
ab_at_two = refl

exact_finds_example :
    (s : ℕ) × (bonus : ℤ) × (score : ℤ) × (q : Option Positions) × (fzf_exact_match_naive false
        false
        (codes "b ab")
        pat
        out
      ≡ some (record { start = pos s; end = pos (s + length pat); score = score }, q))
    × IsBest hit pat (codes "b ab") (length (codes "b ab")) s bonus
    × Grown out (places_from s (length pat)) q
    × InBounds (length pat) 0 score
exact_finds_example =
    exact_finds false false 97 (98 ∷ []) (codes "b ab") (inr refl, (inr refl, tt)) (omega arith) out
      (omega arith) (omega arith) 2 ab_at_two

never_ab : (a : ℕ) → a < length (codes "ba") → occurs hit pat (codes "ba") a ≡ false
unfolding starts_with fold_char
never_ab zero h = refl
never_ab (suc zero) h = refl
never_ab (suc (suc a)) h = let never : ⊥ = omega arith in absurd never

exact_rejects_example :
    fzf_exact_match_naive false false (codes "ba") pat out ≡ some (no_match, out)
exact_rejects_example =
    exact_rejects false false 97 (98 ∷ []) (codes "ba") (inr refl, (inr refl, tt)) (omega arith) out
      never_ab
