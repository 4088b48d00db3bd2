-- ===== src/Fzf/Query/Agree.antt =====
-- `fzf_get_positions` gives positions exactly where the query has a worth.
use plugged.Common.{
  All, Bool, List, Option, [], ap, arith, false, if◌then◌else◌, length, none, not, pos, refl, some,
  subst, true, ℤ, ◌&&◌, ◌+ℤ◌, ◌>>=◌, ◌||◌, ◌∙◌, ◌∷◌, ◌≡◌, ◌≤◌,
}
use plugged.Fzf.Chars.{Bytes}
use plugged.Fzf.Pattern.Terms.{Pattern, Term, TermSet}
use plugged.Fzf.Positions.{Positions, fzf_pos_array}
use plugged.Fzf.Positions.Growth.{Fits}
use plugged.Fzf.Query.{
  Collected, collect_loop, collect_set, fzf_get_positions, fzf_get_score, is_null,
}
use plugged.Fzf.Query.Refine.{
  Answers, Keeps, SumsFit, excluded, first_score, is_some, query_value, set_value, term_found,
  total_loop-eq, value_of, worth,
}
use plugged.Fzf.Score.{Result}
use plugged.Fzf.Slab.{Slab}

Keeps-Fits : (p q : Option Positions) → Keeps p q → Fits q
Keeps-Fits none none k = tt
Keeps-Fits (some p) (some q) k = k
Keeps-Fits none (some q) k = absurd k
Keeps-Fits (some p) none k = absurd k

pub Keeps-refl : (p : Option Positions) → Fits p → Keeps p p
Keeps-refl none f = tt
Keeps-refl (some p) f = f

Keeps-trans : (p q r : Option Positions) → Keeps p q → Keeps q r → Keeps p r
Keeps-trans none none r k l = l
Keeps-trans (some p) (some q) (some r) k l = l
Keeps-trans (some p) (some q) none k l = absurd l
Keeps-trans none (some q) r k l = absurd k
Keeps-trans (some p) none r k l = absurd k

Keeps-some :
    (p : Positions) (q : Option Positions)
    → Keeps (some p) q
    → (r : Positions) × (q ≡ some r) × (length r.cells ≤ r.cap)
Keeps-some p none k = absurd k
Keeps-some p (some r) k = (r, refl, k)

abbrev state : Bool → Option Positions → Collected
state matched out = record { matched = matched; out = out; slab = none }

-- What the rest of a set's loop leaves, from any state.
abbrev Collects : (Collected → Option Collected) → Bool → Type 0
Collects go holds =
    (m : Bool) (out : Option Positions)
    → Fits out
    → (out' : Option Positions) × (go (state m out) ≡ some (state (m || holds) out'))
      × Keeps out out'

or-false : (m b : Bool) → ((m || false) || b) ≡ (m || b)
or-false true b = refl
or-false false b = refl

or-nothing : (m : Bool) → m ≡ (m || false)
or-nothing true = refl
or-nothing false = refl

or-true : (m b : Bool) (o : Option ℤ) → ((m || true) || b) ≡ (m || is_some (value_of o true))
or-true true b o = refl
or-true false b none = refl
or-true false b (some z) = refl

-- One round of a set's loop: `go` is the rest of it, `out'` what the matcher leaves.
collect_round :
    (f i m : Bool) (z : ℤ) (out out' : Option Positions) (go : Collected → Option Collected)
    → (o : Option ℤ) (e : Bool) → Collects go (is_some (value_of o e))
    → Fits out
    → (i ≡ false → Keeps out out')
    → let next = if i then state (m || not f) out else state (m || f) out' in
      (out'' : Option Positions) × ((if not i && f then some next else go next)
        ≡ some (
            state
              (m || is_some (value_of (if f && not i then some z else o) (not f && i || e)))
              out''))
      × Keeps out out''
collect_round true false m z out out' go o e h fits k = (out', refl, k refl)
collect_round true true m z out out' go o e h fits k =
    let (out'', run, kept) = h (m || false) out fits in
    (out'', run ∙ ap (λ b. some (state b out'')) (or-false m (is_some (value_of o e))), kept)
collect_round false false m z out out' go o e h fits k =
    let (out'', run, kept) = h (m || false) out' (Keeps-Fits out out' (k refl)) in
    (
      out'',
      run ∙ ap (λ b. some (state b out'')) (or-false m (is_some (value_of o e))),
      Keeps-trans out out' out'' (k refl) kept,
    )
collect_round false true m z out out' go o e h fits k =
    let (out'', run, kept) = h (m || true) out fits in
    (out'', run ∙ ap (λ b. some (state b out'')) (or-true m (is_some (value_of o e)) o), kept)

Fits-if : (i : Bool) (out : Option Positions) → Fits out → Fits (if i then none else out)
Fits-if true out f = tt
Fits-if false out f = f

-- One round of the loop over the sets: a set without worth ends it.
sets_round :
    (o r : Option ℤ) (q : Option Positions) (go : Option (Option Positions × Option Slab))
    → go ≡ some (if is_some r then q else none, none)
    → (if false || is_some o then go else some (none, none))
      ≡ some (if is_some (do v ← o; w ← r; some (v +ℤ w)) then q else none, none)
sets_round none r q go h = refl
sets_round (some z) none q go h = h
sets_round (some z) (some w) q go h = h

module _ (text : Bytes) (result : Term → Result) where
  collect_set-Collects :
      (ts : List Term)
      → All (Answers text result) ts
      → Collects (λ s. collect_set ts text s) (is_some (set_value text result ts))
  unfolding collect_set set_value first_score excluded
  collect_set-Collects [] a m out f =
      (out, ap (λ b. some (state b out)) (or-nothing m), Keeps-refl out f)
  collect_set-Collects (t ∷ ts) (a, as') m out f =
      let (out', run, kept) = a (if t.inv then none else out) (Fits-if t.inv out f) in
      rw run (
        collect_round (term_found text result t) t.inv m (result t).score out out'
          (λ s. collect_set ts text s) (first_score text result ts) (excluded text result ts)
          (collect_set-Collects ts as') f
          (λ e. subst (λ i. Keeps (if i then none else out) out') e kept))

  collect_loop-eq :
      (sets : List TermSet) (out : Option Positions)
      → All (λ (set : TermSet). All (Answers text result) set.terms) sets
      → Fits out
      → (q : Option Positions) × (collect_loop sets text out none
          ≡ some (if is_some (query_value text result sets) then q else none, none))
        × Keeps out q
  unfolding collect_loop query_value
  collect_loop-eq [] out a f = (out, refl, Keeps-refl out f)
  collect_loop-eq (alternatives ∷ sets) out (a, as') f =
      let (out', run, kept) = collect_set-Collects alternatives.terms a false out f in
      let (q, run', kept') = collect_loop-eq sets out' as' (Keeps-Fits out out' kept) in
      (
        q,
        rw run (
            sets_round (set_value text result alternatives.terms) (query_value text result sets) q
              (collect_loop sets text out' none) run'),
        Keeps-trans out out' q kept kept',
      )

  -- For a query that is not empty and not of inverse terms only, on a text on which the matcher
  -- of each of its terms, called without a slab and with positions whose cells in use fit their
  -- capacity, gives one result and keeps positions (an array stays an array, within its
  -- capacity), and with worths whose sum after each set, up to one worth nothing, fits 32 bits:
  -- a set is worth the score of its first term that is found and not inverse, or else 0 if some
  -- inverse term is not found, or else nothing. `fzf_get_score` returns the sum of the worths,
  -- or 0 if a set is worth nothing; `fzf_get_positions` returns an array, within its capacity,
  -- if every set is worth something, and else NULL.
  pub query_refines :
      (pattern : Pattern)
      → is_null pattern ≡ false
      → pattern.only_inv ≡ false
      → All (λ (set : TermSet). All (Answers text result) set.terms) pattern.sets
      → SumsFit text result (pos 0) pattern.sets
      → (fzf_get_score text pattern none
          ≡ some (worth (pos 0) (query_value text result pattern.sets), none))
        × (p : Positions) × (fzf_get_positions text pattern none
            ≡ some (if is_some (query_value text result pattern.sets) then some p else none, none))
        × (length p.cells ≤ p.cap)
  unfolding fzf_get_score fzf_get_positions
  query_refines pattern null inverse a fit =
      let (q, run, kept) =
        collect_loop-eq pattern.sets (some (fzf_pos_array 0)) a
          (unfold fzf_pos_array in omega arith) in
      let (r, e, fits) = Keeps-some (fzf_pos_array 0) q kept in
      (
        rw (null, inverse) (total_loop-eq text result pattern.sets (pos 0) a fit),
        r,
        rw null (
            subst
              (λ o.
                collect_loop pattern.sets text (some (fzf_pos_array 0)) none
                ≡ some (if is_some (query_value text result pattern.sets) then o else none, none))
              e run),
        fits,
      )
