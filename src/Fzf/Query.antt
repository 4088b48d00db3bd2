-- ===== src/Fzf/Query.antt =====
-- fzf.c, lines 984-986 and 1144-1234: a parsed query applied to a text.
pub mod Reject
pub mod Refine
pub mod Agree
pub mod Plain
pub mod Exactly
use plugged.Common.{
  Bool, List, Option, [], false, get_elem?, if◌then◌else◌, ltb_ℤ, none, not, pos, set, some, true,
  wrap_i32, ℕ, ℤ, ◌&&◌, ◌+ℤ◌, ◌==◌, ◌>>=◌, ◌||◌, ◌∷◌,
}
use plugged.Fzf.Affix.{fzf_equal_match, fzf_prefix_match, fzf_suffix_match}
use plugged.Fzf.Chars.{Bytes}
use plugged.Fzf.Exact.{fzf_exact_match_naive}
use plugged.Fzf.Pattern.Terms.{
  Algo, Pattern, Term, TermSet, equal_match, exact_match_naive, fuzzy_match_v2, prefix_match,
  suffix_match,
}
use plugged.Fzf.Positions.{Positions, fzf_pos_array}
use plugged.Fzf.Score.{Result}
use plugged.Fzf.Slab.{Slab}
use plugged.Fzf.V2.{Outcome, fzf_fuzzy_match_v2}

unfoldable pub with_slab : Option Slab → Option (Result × Option Positions) → Outcome
with_slab slab m = do (r, out) ← m; some (r, out, slab)

-- The call through a term's function pointer, with `normalize` false.
unfoldable pub call_fn : Algo → Bool → Bytes → Bytes → Option Positions → Option Slab → Outcome
unfolding with_slab
call_fn fuzzy_match_v2 case_sensitive pattern input out slab =
    fzf_fuzzy_match_v2 case_sensitive false input pattern out slab
call_fn exact_match_naive case_sensitive pattern input out slab =
    with_slab slab (fzf_exact_match_naive case_sensitive false input pattern out)
call_fn prefix_match case_sensitive pattern input out slab =
    with_slab slab (fzf_prefix_match case_sensitive false input pattern out)
call_fn suffix_match case_sensitive pattern input out slab =
    with_slab slab (fzf_suffix_match case_sensitive false input pattern out)
call_fn equal_match case_sensitive pattern input out slab =
    with_slab slab (fzf_equal_match case_sensitive false input pattern out)

-- `CALL_ALG`: the term's matcher, which does not normalise here. Only the optimising matcher uses
-- the slab.
unfoldable pub call_alg : Term → Bytes → Option Positions → Option Slab → Outcome
unfolding call_fn
call_alg term input out slab = call_fn term.fn term.case_sensitive term.text input out slab

unfoldable pub get_term : TermSet → ℕ → Option Term
get_term set j = get_elem? set.terms j

-- The loop over the sets of a query with inverse terms only: the sum of the scores.
unfoldable pub inverse_loop : List TermSet → Bytes → Option Slab → ℤ → Option (ℤ × Option Slab)
unfolding call_alg get_term ◌+ℤ◌ wrap_i32
inverse_loop [] input slab final = some (final, slab)
inverse_loop (set ∷ sets) input slab final = do
  term ← get_term set 0
  (r, _, slab') ← call_alg term input none slab
  inverse_loop sets input slab' (wrap_i32 (final +ℤ r.score))

-- What a set of alternatives contributes.
pub record SetScore : Type 0 where
  pub current_score : ℤ
  pub matched : Bool

-- The loop over the alternatives of a set.
unfoldable pub set_loop :
    List Term → Bytes → Option Slab → SetScore → Option (SetScore × Option Slab)
unfolding call_alg
set_loop [] input slab s = some (s, slab)
set_loop (term ∷ terms) input slab s = do
  (r, _, slab') ← call_alg term input none slab
  let found = not (ltb_ℤ r.start (pos 0))
  let s' = if not found && term.inv then record { current_score = pos 0; matched = true } else s
  let rest = set_loop terms input slab' s'
  if found && not term.inv
      then some (record { current_score = r.score; matched = true }, slab')
      else rest

-- The loop over the sets: a set with no match makes the total 0.
unfoldable pub total_loop : List TermSet → Bytes → Option Slab → ℤ → Option (ℤ × Option Slab)
unfolding set_loop ◌+ℤ◌ wrap_i32
total_loop [] input slab total = some (total, slab)
total_loop (set ∷ sets) input slab total = do
  (s, slab') ← set_loop set.terms input slab (record { current_score = pos 0; matched = false })
  let rest = total_loop sets input slab' (wrap_i32 (total +ℤ s.current_score))
  if s.matched then rest else some (pos 0, slab')

-- `pattern->ptr == NULL`: nothing has been appended.
abbrev pub is_null : Pattern → Bool
is_null pattern = pattern.cap == 0

unfoldable pub fzf_get_score : Bytes → Pattern → Option Slab → Option (ℤ × Option Slab)
unfolding inverse_loop total_loop
fzf_get_score text pattern slab =
    if is_null pattern
    then some (pos 1, slab)
    else if pattern.only_inv
    then (do
      (final, slab') ← inverse_loop pattern.sets text slab (pos 0)
      some (if ltb_ℤ (pos 0) final then pos 0 else pos 1, slab'))
    else total_loop pattern.sets text slab (pos 0)

-- What the loop over the alternatives of a set leaves behind.
pub record Collected : Type 0 where
  pub matched : Bool
  pub out : Option Positions
  pub slab : Option Slab

unfoldable pub collect_set : List Term → Bytes → Collected → Option Collected
unfolding call_alg
collect_set [] input s = some s
collect_set (term ∷ terms) input s = do
  (r, out', slab') ← call_alg term input (if term.inv then none else s.out) s.slab
  let found = not (ltb_ℤ r.start (pos 0))
  let s' =
      if term.inv
      then record s { matched = s.matched || not found; slab = slab' }
      else record { matched = s.matched || found; out = out'; slab = slab' }
  let rest = collect_set terms input s'
  if not term.inv && found then some s' else rest

-- The loop over the sets; `none` inside is the result `NULL`.
unfoldable pub collect_loop :
    List TermSet → Bytes → Option Positions → Option Slab → Option (Option Positions × Option Slab)
unfolding collect_set
collect_loop [] input out slab = some (out, slab)
collect_loop (set ∷ sets) input out slab = do
  s ← collect_set set.terms input (record { matched = false; out = out; slab = slab })
  let rest = collect_loop sets input s.out s.slab
  if s.matched then rest else some (none, s.slab)

unfoldable pub fzf_get_positions :
    Bytes → Pattern → Option Slab → Option (Option Positions × Option Slab)
unfolding collect_loop fzf_pos_array
fzf_get_positions text pattern slab =
    if is_null pattern
    then some (none, slab)
    else collect_loop pattern.sets text (some (fzf_pos_array 0)) slab
