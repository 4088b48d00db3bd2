-- ===== src/Fzf/Query/Refine.antt =====
-- What a query means, in terms of what the matchers find; and that the loops compute it.
use plugged.Common.{
  All, Bool, InI32, List, Option, [], ap, false, if◌then◌else◌, int_laws, length, ltb_ℤ, none, not,
  pos, refl, set, some, true, wrap_i32, wrap_i32-InI32, ℕ, ℤ, ◌&&◌, ◌+ℤ◌, ◌>>=◌, ◌||◌, ◌∙◌, ◌∷◌,
  ◌≡◌, ◌≤◌,
}
use plugged.Fzf.Chars.{Bytes}
use plugged.Fzf.Pattern.Terms.{Term, TermSet}
use plugged.Fzf.Positions.{Positions}
use plugged.Fzf.Positions.Growth.{Fits, Grown}
use plugged.Fzf.Query.{SetScore, call_alg, set_loop, total_loop}
use plugged.Fzf.Score.{Result}
use plugged.Fzf.Slab.{Slab}

-- The array of positions stays one, with its cells in use within its capacity.
abbrev pub Keeps : Option Positions → Option Positions → Type 0
Keeps none none = Unit
Keeps (some p) (some q) = length q.cells ≤ q.cap
Keeps none (some q) = ⊥
Keeps (some p) none = ⊥

pub Grown-Keeps : (out q : Option Positions) (vs : List ℕ) → Grown out vs q → Keeps out q
Grown-Keeps none none vs g = tt
Grown-Keeps (some p) (some q) vs g = g.1
Grown-Keeps none (some q) vs g = absurd g
Grown-Keeps (some p) none vs g = absurd g

-- What a set's loop leaves, from the first score found and whether an alternative is excluded.
abbrev left_by : Option ℤ → Bool → SetScore → SetScore
left_by (some z) excluded s = record { current_score = z; matched = true }
left_by none true s = record { current_score = pos 0; matched = true }
left_by none false s = s

abbrev by_exclusion : SetScore
by_exclusion = record { current_score = pos 0; matched = true }

left_by-excluded :
    (o : Option ℤ) (e : Bool) (s : SetScore) → left_by o e by_exclusion ≡ left_by o true s
left_by-excluded (some z) e s = refl
left_by-excluded none true s = refl
left_by-excluded none false s = refl

-- One round of a set's loop: `go` is the rest of it.
set_round :
    (f i : Bool) (z : ℤ) (s : SetScore) (go : SetScore → Option (SetScore × Option Slab))
    → (o : Option ℤ) (e : Bool) → ((u : SetScore) → go u ≡ some (left_by o e u, none))
    → (if f && not i
        then some (record { current_score = z; matched = true }, none)
        else go (if not f && i then by_exclusion else s))
      ≡ some (left_by (if f && not i then some z else o) (not f && i || e) s, none)
set_round true false z s go o e h = refl
set_round true true z s go o e h = h s
set_round false false z s go o e h = h s
set_round false true z s go o e h =
    h by_exclusion ∙ ap (λ u. some (u, none)) (left_by-excluded o e s)

abbrev pub is_some {ℓ} : {A : Type ℓ} → Option A → Bool
is_some none = false
is_some (some x) = true

-- The score of a query: 0 if a set has no worth.
abbrev pub worth : ℤ → Option ℤ → ℤ
worth total none = pos 0
worth total (some z) = total +ℤ z

worth_after :
    (total z : ℤ) (o : Option ℤ) → worth (total +ℤ z) o ≡ worth total (do w ← o; some (z +ℤ w))
worth_after total z none = refl
worth_after total z (some w) = omega int_laws

-- The first score found, or 0 if an inverse alternative is not found.
abbrev pub value_of : Option ℤ → Bool → Option ℤ
value_of (some z) e = some z
value_of none true = some (pos 0)
value_of none false = none

abbrev unmatched : SetScore
unmatched = record { current_score = pos 0; matched = false }

-- One round of the loop over the sets: `go` is the rest of it.
total_round :
    (o : Option ℤ) (e : Bool) (total : ℤ) (go : ℤ → Option (ℤ × Option Slab)) (q : Option ℤ)
    → ((v : ℤ) → value_of o e ≡ some v → InI32 (total +ℤ v))
    → ((v : ℤ) → value_of o e ≡ some v → go (total +ℤ v) ≡ some (worth (total +ℤ v) q, none))
    → (if (left_by o e unmatched).matched
        then go (wrap_i32 (total +ℤ (left_by o e unmatched).current_score))
        else some (pos 0, none))
      ≡ some (worth total (do v ← value_of o e; w ← q; some (v +ℤ w)), none)
total_round (some z) e total go q fits h =
    ap go (wrap_i32-InI32 (total +ℤ z) (fits z refl))
    ∙ h z refl
    ∙ ap (λ z. some (z, none)) (worth_after total z q)
total_round none true total go q fits h =
    ap go (wrap_i32-InI32 (total +ℤ pos 0) (fits (pos 0) refl))
    ∙ h (pos 0) refl
    ∙ ap (λ z. some (z, none)) (worth_after total (pos 0) q)
total_round none false total go q fits h = refl

module _ (text : Bytes) (result : Term → Result) where
  -- Called on the text without a slab, a term's matcher returns its result and keeps the positions.
  abbrev pub Answers : Term → Type 0
  Answers t =
      (out : Option Positions)
      → Fits out
      → (out' : Option Positions) × (call_alg t text out none ≡ some (result t, out', none))
        × Keeps out out'

  abbrev pub term_found : Term → Bool
  term_found t = not (ltb_ℤ (result t).start (pos 0))

  -- The score of the first alternative that is found and may be.
  unfoldable pub first_score : List Term → Option ℤ
  first_score [] = none
  first_score (t ∷ ts) = if term_found t && not t.inv then some (result t).score else first_score ts

  -- Some inverse alternative is not found.
  unfoldable pub excluded : List Term → Bool
  excluded [] = false
  excluded (t ∷ ts) = (not (term_found t) && t.inv) || excluded ts

  -- The worth of a set; `none` if no alternative holds.
  unfoldable pub set_value : List Term → Option ℤ
  set_value ts = value_of (first_score ts) (excluded ts)

  -- The worth of a query; `none` if some set has none.
  unfoldable pub query_value : List TermSet → Option ℤ
  query_value [] = some (pos 0)
  query_value (set ∷ sets) = do v ← set_value set.terms; w ← query_value sets; some (v +ℤ w)

  -- The sum of the worths of the sets fits 32 bits after each set, up to one that has no worth.
  abbrev pub SumsFit : ℤ → List TermSet → Type 0
  SumsFit total [] = Unit
  SumsFit total (set ∷ sets) =
      (v : ℤ) → set_value set.terms ≡ some v → InI32 (total +ℤ v) × SumsFit (total +ℤ v) sets

  set_loop-eq :
      (ts : List Term) (s : SetScore)
      → All Answers ts
      → set_loop ts text none s ≡ some (left_by (first_score ts) (excluded ts) s, none)
  unfolding set_loop first_score excluded
  set_loop-eq [] s a = refl
  set_loop-eq (t ∷ ts) s (a, as') =
      let (out', run, _) = a none tt in
      rw run (
        set_round (term_found t) t.inv (result t).score s (λ u. set_loop ts text none u)
          (first_score ts) (excluded ts) (λ u. set_loop-eq ts u as'))

  pub total_loop-eq :
      (sets : List TermSet) (total : ℤ)
      → All (λ (set : TermSet). All Answers set.terms) sets
      → SumsFit total sets
      → total_loop sets text none total ≡ some (worth total (query_value sets), none)
  unfolding total_loop query_value set_value
  total_loop-eq [] total a fits = ap (λ z. some (z, none)) (omega int_laws)
  total_loop-eq (alternatives ∷ sets) total (a, as') fits =
      rw (set_loop-eq alternatives.terms unmatched a) (
        total_round (first_score alternatives.terms) (excluded alternatives.terms) total
          (λ u. total_loop sets text none u) (query_value sets) (λ v e. (fits v e).0)
          (λ v e. total_loop-eq sets (total +ℤ v) as' (fits v e).1))
