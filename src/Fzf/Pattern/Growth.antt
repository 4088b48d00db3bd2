-- ===== src/Fzf/Pattern/Growth.antt =====
-- The growing arrays of a pattern: an append never writes outside of them.
use plugged.Common.{
  [], arith, length, length-append, lt→ltb, refl, set, some, ℕ, ◌++◌, ◌<◌, ◌∷◌, ◌≡◌, ◌≤◌,
}
use plugged.Fzf.Pattern.Terms.{Pattern, Term, TermSet, append_pattern, append_set, grow_cap}

grow_cap-room : (size cap : ℕ) → size ≤ cap → size < grow_cap size cap
unfolding grow_cap
grow_cap-room size cap h = ground arith

-- Appending a term to a set whose capacity is at least its size writes in bounds, puts the term
-- at the end, and the capacity is again at least the size.
pub append_set_lem :
    (set : TermSet) (value : Term)
    → length set.terms ≤ set.cap
    → (s : TermSet) × (append_set set value ≡ some s)
      × (s.terms ≡ set.terms ++ value ∷ [])
      × (length s.terms ≤ s.cap)
unfolding append_set
append_set_lem set value h =
    let room = grow_cap-room (length set.terms) set.cap h in
    (
      record { terms = set.terms ++ value ∷ []; cap = grow_cap (length set.terms) set.cap },
      rw (lt→ltb (length set.terms) (grow_cap (length set.terms) set.cap) room) refl,
      refl,
      omega (arith, length-append set.terms (value ∷ [])),
    )

-- Appending a set to a pattern whose capacity is at least its size writes in bounds, puts the
-- set at the end, keeps `only_inv`, and the capacity is again at least the size.
pub append_pattern_lem :
    (pattern : Pattern) (value : TermSet)
    → length pattern.sets ≤ pattern.cap
    → (p : Pattern) × (append_pattern pattern value ≡ some p)
      × (p.sets ≡ pattern.sets ++ value ∷ [])
      × (length p.sets ≤ p.cap)
      × (p.only_inv ≡ pattern.only_inv)
unfolding append_pattern
append_pattern_lem pattern value h =
    let room = grow_cap-room (length pattern.sets) pattern.cap h in
    (
      record pattern {
        sets = pattern.sets ++ value ∷ [];
        cap = grow_cap (length pattern.sets) pattern.cap;
      },
      rw (lt→ltb (length pattern.sets) (grow_cap (length pattern.sets) pattern.cap) room) refl,
      refl,
      omega (arith, length-append pattern.sets (value ∷ [])),
      refl,
    )
