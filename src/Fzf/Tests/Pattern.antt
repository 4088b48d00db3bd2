-- ===== src/Fzf/Tests/Pattern.antt =====
-- The theorems on the parser, at inputs that meet their hypotheses.
use plugged.Common.{
  All, [], arith, false, length, pos, refl, some, true, ℕ, ◌<◌, ◌^◌, ◌↔◌, ◌∷◌, ◌≡◌, ◌≤◌, ◌⊎◌,
}
use plugged.Fzf.Exact.Best.{occurs}
use plugged.Fzf.Pattern.{case_smart, fzf_parse_pattern}
use plugged.Fzf.Pattern.Lacks.{one_term}
use plugged.Fzf.Pattern.Parsed.{IsInverse, parse-IsSound}
use plugged.Fzf.Pattern.Printed.{fzf_parse_pattern-print_term, print_term}
use plugged.Fzf.Pattern.Terms.{Pattern, equal_match}
use plugged.Fzf.Pattern.Tokens.{IsSound}
use plugged.Fzf.Query.{fzf_get_score}
use plugged.Fzf.Query.Exactly.{exact_query_decides}
use plugged.Fzf.Samples.{codes, hit, pat, small_slab}

parse_example :
    (p : Pattern) × (fzf_parse_pattern case_smart false (codes "ab !c") true ≡ some p)
    × IsSound p
    × ((p.only_inv ≡ true) ↔ All IsInverse p.sets)
parse_example = parse-IsSound case_smart false true (codes "ab !c") (omega arith) (omega arith)

small_print : length (print_term true equal_match pat) < 2 ^ 63
unfolding print_term
small_print = omega arith

print_term_example :
    fzf_parse_pattern case_smart false (print_term true equal_match pat) true
    ≡ some (one_term (record { fn = equal_match; inv = true; text = pat; case_sensitive = false }))
print_term_example =
    fzf_parse_pattern-print_term case_smart false true equal_match pat (omega arith) small_print
      (refl, (refl, tt))

exact_query_example :
    (exact : Pattern) × (inverse : Pattern) × (fzf_parse_pattern case_smart false (codes "'ab") true
      ≡ some exact)
    × (fzf_parse_pattern case_smart false (codes "!ab") true ≡ some inverse)
    × (((a : ℕ) × (n : ℕ) × (occurs hit (codes "ab") (codes "xab b") a ≡ true)
          × (32 ≤ n)
          × (fzf_get_score (codes "xab b") exact small_slab ≡ some (pos n, small_slab))
          × (fzf_get_score (codes "xab b") inverse small_slab ≡ some (pos 0, small_slab)))
        ⊎ (((a : ℕ) → a < 5 → occurs hit (codes "ab") (codes "xab b") a ≡ false)
            × (fzf_get_score (codes "xab b") exact small_slab ≡ some (pos 0, small_slab))
            × (fzf_get_score (codes "xab b") inverse small_slab ≡ some (pos 1, small_slab))))
exact_query_example =
    exact_query_decides case_smart false 97 (98 ∷ []) (codes "xab b") small_slab (omega arith)
      (refl, (refl, tt)) (omega arith)
