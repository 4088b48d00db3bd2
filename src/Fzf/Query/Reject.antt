-- ===== src/Fzf/Query/Reject.antt =====
-- A query whose first set is a single fuzzy term, on a text that does not hold the term.
use plugged.Common.{
  Bool, List, Option, [], arith, false, length, neq-false, none, pos, refl, some, suc, ℕ, ◌<◌, ◌^◌,
  ◌∷◌, ◌≡◌,
}
use plugged.Fzf.Chars.{Bytes}
use plugged.Fzf.Fold.{IsFolded}
use plugged.Fzf.Pattern.Terms.{Pattern, Term, TermSet, fuzzy_match_v2}
use plugged.Fzf.Positions.{fzf_pos_array}
use plugged.Fzf.Query.{
  call_alg, call_fn, collect_loop, collect_set, fzf_get_positions, fzf_get_score, set_loop,
  total_loop,
}
use plugged.Fzf.Score.Run.{fold_hit}
use plugged.Fzf.Slab.{Slab}
use plugged.Fzf.Subseq.{Subseq}
use plugged.Fzf.V2.Guards.{v2_rejects}

module _ (case_sensitive : Bool) (p : ℕ) (ps text : Bytes)
    (folded : IsFolded case_sensitive (p ∷ ps)) (small : length text < 2 ^ 31)
    (no_sub : ¬ Subseq (fold_hit case_sensitive false) (p ∷ ps) text) (sets : List TermSet)
    (set_cap query_cap : ℕ) (slab : Option Slab) where
  abbrev pub fuzzy_term : Term
  fuzzy_term = record {
    fn = fuzzy_match_v2;
    inv = false;
    text = p ∷ ps;
    case_sensitive = case_sensitive;
  }

  abbrev pub fuzzy_query : Pattern
  fuzzy_query = record {
    sets = record { terms = fuzzy_term ∷ []; cap = set_cap } ∷ sets;
    cap = suc query_cap;
    only_inv = false;
  }

  score_rejects : fzf_get_score text fuzzy_query slab ≡ some (pos 0, slab)
  unfolding fzf_get_score total_loop set_loop call_alg call_fn
  score_rejects =
      rw
        (
          neq-false (suc query_cap) 0 (omega arith),
          v2_rejects case_sensitive false p ps text folded small none slab no_sub,
        )
        refl

  positions_rejects : fzf_get_positions text fuzzy_query slab ≡ some (none, slab)
  unfolding fzf_get_positions collect_loop collect_set call_alg call_fn
  positions_rejects =
      rw
        (
          neq-false (suc query_cap) 0 (omega arith),
          v2_rejects case_sensitive false p ps text folded small (some (fzf_pos_array 0)) slab
              no_sub,
        )
        refl

  -- For a query, not of inverse terms only, whose first set is a single fuzzy term that is not
  -- inverse, not empty, and has no upper case letters where case does not count: on a text
  -- shorter than 2^31 bytes that does not hold the term's bytes in order, `fzf_get_score`
  -- returns 0 and `fzf_get_positions` returns no positions, whatever the other sets, without a
  -- fault, and both leave the slab.
  pub query_rejects :
      (fzf_get_score text fuzzy_query slab ≡ some (pos 0, slab))
      × (fzf_get_positions text fuzzy_query slab ≡ some (none, slab))
  query_rejects = (score_rejects, positions_rejects)
