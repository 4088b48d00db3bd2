-- ===== src/Fzf/Tests/Query.antt =====
-- Runs of the whole program, and the theorems on queries at inputs that meet their hypotheses.
use Prim.Native.String.{String}
use mathlib.Core.Option.{some-injective}
use plugged.Common.{
  InI32, List, Option, [], arith, false, get_elem?, if◌then◌else◌, inr, length, none, pos, refl,
  some, subst, suc, true, zero, ℕ, ℤ, ◌+ℤ◌, ◌<◌, ◌>>=◌, ◌∷◌, ◌≡◌, ◌≤◌,
}
use plugged.Fzf.Affix.{
  compare_loop, fzf_prefix_match, fzf_suffix_match, leading_whitespaces, score_range, suffix_length,
  trailing_whitespaces,
}
use plugged.Fzf.Affix.Compare.{starts_with}
use plugged.Fzf.Affix.Equal.{equal_finds}
use plugged.Fzf.Affix.Prefix.{prefix_rejects}
use plugged.Fzf.Chars.{fold_char, is_space}
use plugged.Fzf.Pattern.{case_smart, fzf_parse_pattern}
use plugged.Fzf.Pattern.Terms.{Pattern, Term, equal_match, fuzzy_match_v2, prefix_match}
use plugged.Fzf.Positions.{Positions, insert_range}
use plugged.Fzf.Positions.Growth.{places_from}
use plugged.Fzf.Query.{call_alg, call_fn, fzf_get_positions, fzf_get_score, with_slab}
use plugged.Fzf.Query.Agree.{Keeps-refl, query_refines}
use plugged.Fzf.Query.Refine.{
  Answers, Grown-Keeps, SumsFit, excluded, first_score, is_some, query_value, set_value, worth,
}
use plugged.Fzf.Query.Reject.{query_rejects}
use plugged.Fzf.Samples.{codes, no_c, out, pat, small_slab}
use plugged.Fzf.Score.{Result, calculate_score, no_match}

query : String → Option Pattern
query q = fzf_parse_pattern case_smart false (codes q) true

score_of : String → String → Option ℤ
score_of q text = do p ← query q; (s, _) ← fzf_get_score (codes text) p none; some s

score_in_slab : String → String → Option ℤ
score_in_slab q text = do p ← query q; (s, _) ← fzf_get_score (codes text) p small_slab; some s

places_of : String → String → Option (List ℕ)
places_of q text = do
  p ← query q
  (out, _) ← fzf_get_positions (codes text) p none
  some (elim out [ none ↦ [] | some r ↦ r.cells ])

-- Runs of the whole program.
prefix_of_path : score_of "^src" "src/fzf" ≡ some (pos 80)
unfolding score_of query fzf_parse_pattern fzf_get_score fzf_prefix_match leading_whitespaces
    is_space compare_loop score_range calculate_score insert_range
prefix_of_path = refl

-- A pattern longer than the text, with `$`.
suffix_too_long : score_of "fooo$" "fo" ≡ none
unfolding score_of query fzf_parse_pattern fzf_get_score fzf_suffix_match suffix_length is_space
    trailing_whitespaces compare_loop
suffix_too_long = refl

abbrev one_term_query : Pattern
one_term_query = record {
  sets =
      record {
        terms =
            record { fn = fuzzy_match_v2; inv = false; text = codes "c"; case_sensitive = false }
            ∷ [];
        cap = 1;
      }
      ∷ [];
  cap = 1;
  only_inv = false;
}

query_rejects_example :
    (fzf_get_score (codes "ab") one_term_query small_slab ≡ some (pos 0, small_slab))
    × (fzf_get_positions (codes "ab") one_term_query small_slab ≡ some (none, small_slab))
query_rejects_example =
    query_rejects false 99 [] (codes "ab") (inr refl, tt) (omega arith) no_c [] 1 0 small_slab

-- The query `^ab$ !^c`.
abbrev whole_term : Term
whole_term = record { fn = equal_match; inv = false; text = pat; case_sensitive = false }

abbrev not_c_term : Term
not_c_term = record { fn = prefix_match; inv = true; text = codes "c"; case_sensitive = false }

abbrev two_set_query : Pattern
two_set_query = record {
  sets =
      record { terms = whole_term ∷ []; cap = 1 }
      ∷ record { terms = not_c_term ∷ []; cap = 1 }
      ∷ [];
  cap = 2;
  only_inv = false;
}

abbrev results : Term → Result
results t = if t.inv then no_match else record { start = pos 0; end = pos 2; score = pos 56 }

after_one : (j : ℕ) (d : ℕ) → 1 < j → get_elem? (codes "ab") j ≡ some d → is_space d ≡ true
after_one zero d lt e = let never : ⊥ = omega arith in absurd never
after_one (suc zero) d lt e = let never : ⊥ = omega arith in absurd never
after_one (suc (suc j)) d lt e = cc

ab_is_whole : Answers (codes "ab") results whole_term
unfolding call_alg call_fn with_slab leading_whitespaces is_space starts_with fold_char
ab_is_whole q f =
    let (q', run, grown) =
      equal_finds false false (codes "ab") (omega arith) 1 refl refl after_one 97 (98 ∷ []) q
        (omega arith) f refl refl in
    (q', rw run refl, Grown-Keeps q q' (places_from 0 2) grown)

c_is_no_prefix : Answers (codes "ab") results not_c_term
unfolding call_alg call_fn with_slab leading_whitespaces is_space starts_with fold_char
c_is_no_prefix q f =
    let run = prefix_rejects false false (codes "ab") (omega arith) 99 [] q refl in
    (q, rw run refl, Keeps-refl q f)

-- The worths 56 and 0 fit.
two_sets-SumsFit : SumsFit (codes "ab") results (pos 0) two_set_query.sets
unfolding set_value first_score excluded ◌+ℤ◌
two_sets-SumsFit v e =
    subst
      (λ w. InI32 (pos 0 +ℤ w) × ((u : ℤ) → some (pos 0) ≡ some u → InI32 (pos 0 +ℤ w +ℤ u) × Unit))
      (some-injective (pos 56) v e)
      (
        (omega arith, omega arith),
        λ u e'.
            subst (λ w. InI32 (pos 56 +ℤ w) × Unit) (some-injective (pos 0) u e')
              ((omega arith, omega arith), tt),
      )

query_refines_example :
    (fzf_get_score (codes "ab") two_set_query none
      ≡ some (worth (pos 0) (query_value (codes "ab") results two_set_query.sets), none))
    × (p : Positions) × (fzf_get_positions (codes "ab") two_set_query none
        ≡ some (
          if is_some (query_value (codes "ab") results two_set_query.sets) then some p else none,
          none,
        ))
    × (length p.cells ≤ p.cap)
query_refines_example =
    query_refines (codes "ab") results two_set_query refl refl
      ((ab_is_whole, tt), ((c_is_no_prefix, tt), tt)) two_sets-SumsFit

-- The query scores 24 for each of its two bytes and 8 more.
query_worth : worth (pos 0) (query_value (codes "ab") results two_set_query.sets) ≡ pos 56
unfolding query_value set_value first_score excluded ◌+ℤ◌
query_worth = refl
