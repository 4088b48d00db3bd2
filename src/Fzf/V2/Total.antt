-- ===== src/Fzf/V2/Total.antt =====
-- What `fzf_fuzzy_match_v2` gives for every pattern that is not empty, where the slab holds its matrix.
use plugged.Common.{
  Bool, Bool-cases, Option, [], ap, arith, drop, false, get_elem?-of_drop, inl, inr, length, none,
  pos, refl, some, suc, true, ℕ, ◌*◌, ◌+◌, ◌<◌, ◌^◌, ◌∷◌, ◌≡◌, ◌≤◌,
}
use plugged.Fzf.Affix.Compare.{drop-of_lt, starts_with}
use plugged.Fzf.Chars.{Bytes}
use plugged.Fzf.Exact.Best.{bonus_at-values, occurs}
use plugged.Fzf.Fold.{IsFolded}
use plugged.Fzf.Positions.{Positions}
use plugged.Fzf.Positions.Growth.{Fits, Grown}
use plugged.Fzf.Score.{no_match}
use plugged.Fzf.Score.Run.{fold_hit}
use plugged.Fzf.Slab.{Slab}
use plugged.Fzf.Subseq.{Subseq, pick, skip}
use plugged.Fzf.V2.{fzf_fuzzy_match_v2}
use plugged.Fzf.V2.Best.{v2_single_finds}
use plugged.Fzf.V2.Grid.{Hits}
use plugged.Fzf.V2.Grid.Peak.{pos-injective}
use plugged.Fzf.V2.Grid.Way.{Way}
use plugged.Fzf.V2.Guards.{v2_rejects}
use plugged.Fzf.V2.Memory.{exceeds_slab}
use plugged.Fzf.V2.Several.{v2_finds}

-- A byte that the text holds stands at a place.
Subseq-occurs :
    (hit : ℕ → ℕ → Bool) (p : ℕ) (xs : Bytes)
    → Subseq hit (p ∷ []) xs
    → (a : ℕ) × (occurs hit (p ∷ []) xs a ≡ true)
unfolding starts_with
Subseq-occurs hit p [] d = elim d [ ]
Subseq-occurs hit p (x ∷ xs) (pick h d) = (0, rw h refl)
Subseq-occurs hit p (x ∷ xs) (skip d) = let (a, e) = Subseq-occurs hit p xs d in (suc a, e)

occurs-Hits :
    (hit : ℕ → ℕ → Bool) (p : ℕ) (text : Bytes) (a : ℕ)
    → a < length text
    → occurs hit (p ∷ []) text a ≡ true
    → Hits hit (p ∷ []) text 0 a
unfolding starts_with
occurs-Hits hit p text a lt e =
    let (x, d) = drop-of_lt a text lt in
    let here : starts_with hit (p ∷ []) (x ∷ drop (suc a) text) ≡ true = rw d at e in
    elim (Bool-cases (hit p x)) [
      | inl h ↦ (p, x, refl, get_elem?-of_drop a text d, h)
      | inr h ↦ cc (rw h at here)
    ]

Grown-Way :
    (hit : ℕ → ℕ → Bool) (p : ℕ) (text : Bytes) (out q : Option Positions) (s : ℕ)
    → Grown out (s ∷ []) q
    → Hits hit (p ∷ []) text 0 s
    → Way hit (p ∷ []) text out s s q
Grown-Way hit p text none none s g h = (refl, refl)
Grown-Way hit p text none (some q) s g h = absurd g
Grown-Way hit p text (some r) q s g h = ([], g, (omega arith, h, refl))

-- What a matcher finds: a score above 0, and the way to the end of the match.
abbrev pub FindsWay : Bool → Bool → Bytes → Bytes → Option Positions → Option Slab → Type 0
FindsWay case_sensitive normalize pattern text out slab =
    (start : ℕ) × (end : ℕ) × (n : ℕ) × (q : Option Positions) × (slab' : Option Slab)
    × (fzf_fuzzy_match_v2 case_sensitive normalize text pattern out slab
        ≡ some (record { start = pos start; end = pos (end + 1); score = pos n }, q, slab'))
    × (0 < n)
    × (n ≤ 24 * length pattern + 8)
    × (end < length text)
    × Way (fold_hit case_sensitive normalize) pattern text out start end q

pub v2_finds_any :
    (case_sensitive normalize : Bool) (pattern text : Bytes)
    → IsFolded case_sensitive pattern
    → length text < 2 ^ 31
    → 0 < length pattern
    → length pattern ≤ 1024
    → (out : Option Positions) (slab : Option Slab)
    → exceeds_slab slab (length text * length pattern) ≡ false
    → Fits out
    → Subseq (fold_hit case_sensitive normalize) pattern text
    → FindsWay case_sensitive normalize pattern text out slab
v2_finds_any case_sensitive normalize [] text folded small some_byte few out slab room fits d =
    absurd (omega (arith, some_byte))
v2_finds_any case_sensitive normalize (p ∷ []) text folded small some_byte few out slab room fits
      d =
    let hit = fold_hit case_sensitive normalize in
    let (a, here) = Subseq-occurs hit p text d in
    let (s, n, q, slab', run, best, grown) =
      v2_single_finds case_sensitive normalize p text folded small out slab room fits a here in
    (
      s,
      s,
      16 + n + n,
      q,
      slab',
      run,
      omega arith,
      let (k, same, small_bonus) = bonus_at-values hit (p ∷ []) text s (pos n) best.worth in
          omega (arith, pos-injective n k (ap some same), small_bonus),
      best.before,
      Grown-Way hit p text out q s grown (occurs-Hits hit p text s best.before best.here),
    )
v2_finds_any case_sensitive normalize (p0 ∷ p1 ∷ ps) text folded small some_byte few out slab room
      fits d =
    let (start, end, n, q, slab', run, scored, low, inside, hits, way) =
      v2_finds case_sensitive normalize p0 p1 ps text folded small few out slab room fits d in
    (start, end, n, q, slab', run, scored, low, inside, way)

pub v2_rejects_any :
    (case_sensitive normalize : Bool) (pattern text : Bytes)
    → IsFolded case_sensitive pattern
    → length text < 2 ^ 31
    → 0 < length pattern
    → (out : Option Positions) (slab : Option Slab)
    → ¬ Subseq (fold_hit case_sensitive normalize) pattern text
    → fzf_fuzzy_match_v2 case_sensitive normalize text pattern out slab ≡ some (no_match, out, slab)
v2_rejects_any case_sensitive normalize [] text folded small some_byte out slab no_sub =
    absurd (omega (arith, some_byte))
v2_rejects_any case_sensitive normalize (p ∷ ps) text folded small some_byte out slab no_sub =
    v2_rejects case_sensitive normalize p ps text folded small out slab no_sub
