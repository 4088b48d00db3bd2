-- ===== src/Fzf/Query/Exactly.antt =====
-- A query of one exact term and the query of its inverse, from their bytes to their scores.
use native.Mathlib.Decide.{dec_lt}
use plugged.Common.{
  +ℤ-pos, All, Bool, Bool-cases, Option, ap, arith, false, if◌then◌else◌, inl, inr, length, ltb_ℤ,
  ltb_ℤ-neg, negsuc, none, pos, refl, some, suc, sym, true, wrap_i32-InI32, zero, ℕ, ℤ, ◌*◌, ◌+ℤ◌,
  ◌+◌, ◌<◌, ◌^◌, ◌∙◌, ◌∷◌, ◌≡◌, ◌≤◌, ◌⊎◌,
}
use plugged.Fzf.Chars.{Bytes}
use plugged.Fzf.Exact.{fzf_exact_match_naive}
use plugged.Fzf.Exact.Best.{occurs}
use plugged.Fzf.Exact.Match.{exact_finds, exact_rejects}
use plugged.Fzf.Pattern.{CaseMode, fzf_parse_pattern}
use plugged.Fzf.Pattern.Lacks.{one_term}
use plugged.Fzf.Pattern.Printed.{
  IsBare, IsBare-IsFolded, case_counts, fzf_parse_pattern-print_term, print_term-exact,
}
use plugged.Fzf.Pattern.Terms.{Pattern, exact_match_naive}
use plugged.Fzf.Positions.{Positions}
use plugged.Fzf.Query.{
  call_alg, call_fn, fzf_get_score, get_term, inverse_loop, set_loop, total_loop, with_slab,
}
use plugged.Fzf.Score.{no_match}
use plugged.Fzf.Score.Run.{InBounds, fold_hit}
use plugged.Fzf.Slab.{Slab}

-- A test holds below a number, or nowhere below it.
search_below :
    (f : ℕ → Bool) (n : ℕ) → ((a : ℕ) × (a < n) × (f a ≡ true)) ⊎ ((a : ℕ) → a < n → f a ≡ false)
search_below f zero = inr (λ a lt. absurd (omega (arith, lt)))
search_below f (suc n) = elim (search_below f n) [
  | inl (a, lt, e) ↦ inl (a, omega (arith, lt), e)
  | inr never ↦ elim (Bool-cases (f n)) [
    | inl e ↦ inl (n, omega arith, e)
    | inr e ↦ inr (λ a lt. elim (dec_lt a n) [
      | yes below ↦ never a below
      | no above ↦ let same : n ≡ a = omega (arith, lt, above) in rw same at e
    ])
  ]
]

InBounds-pos :
    (m : ℕ) (z : ℤ) → InBounds m 0 z → (n : ℕ) × (z ≡ pos n) × (16 * m ≤ n) × (n ≤ 24 * m + 8)
InBounds-pos m (pos n) (low, high) = (n, refl, omega (arith, low), omega (arith, high))
InBounds-pos m (negsuc n) (low, high) = absurd (omega (arith, low))

module _ (cs : Bool) (term text : Bytes) (slab : Option Slab) where
  abbrev exact_query : Bool → Pattern
  exact_query inv =
      one_term (record { fn = exact_match_naive; inv = inv; text = term; case_sensitive = cs })

  score_exact :
      (start : ℕ) (e score : ℤ) (q : Option Positions) (n : ℕ)
      → n < 2 ^ 31
      → score ≡ pos n
      → fzf_exact_match_naive cs false text term none
        ≡ some (record { start = pos start; end = e; score = score }, q)
      → fzf_get_score text (exact_query false) slab ≡ some (pos n, slab)
  unfolding fzf_get_score total_loop set_loop call_alg call_fn with_slab
  score_exact start e score q n fits_n value run =
      let sum : pos 0 +ℤ pos n ≡ pos n = +ℤ-pos 0 n ∙ ap pos (omega arith) in
      let fits = wrap_i32-InI32 (pos n) (fits_n, omega arith) in
      rw (run, ltb_ℤ-neg start, value, sum, fits) refl

  score_inverse :
      (start e score : ℤ) (q : Option Positions) (n : ℕ)
      → n < 2 ^ 31
      → score ≡ pos n
      → fzf_exact_match_naive cs false text term none
        ≡ some (record { start = start; end = e; score = score }, q)
      → fzf_get_score text (exact_query true) slab
        ≡ some (if ltb_ℤ (pos 0) (pos n) then pos 0 else pos 1, slab)
  unfolding fzf_get_score inverse_loop get_term call_alg call_fn with_slab
  score_inverse start e score q n fits_n value run =
      let sum : pos 0 +ℤ pos n ≡ pos n = +ℤ-pos 0 n ∙ ap pos (omega arith) in
      let fits = wrap_i32-InI32 (pos n) (fits_n, omega arith) in rw (run, value, sum, fits) refl

  score_nowhere :
      fzf_exact_match_naive cs false text term none ≡ some (no_match, none)
      → fzf_get_score text (exact_query false) slab ≡ some (pos 0, slab)
  unfolding fzf_get_score total_loop set_loop call_alg call_fn with_slab
  score_nowhere run = rw run refl

parse_exact :
    (mode : CaseMode) (normalize : Bool) (p : ℕ) (ps : Bytes)
    → length (p ∷ ps) ≤ 2 ^ 26
    → All IsBare (p ∷ ps)
    → (inv : Bool)
    → fzf_parse_pattern mode normalize ((if inv then b'!' else b'\'') ∷ p ∷ ps) true
      ≡ some (
          one_term (record {
            fn = exact_match_naive;
            inv = inv;
            text = p ∷ ps;
            case_sensitive = case_counts mode;
          }))
parse_exact mode normalize p ps short a inv =
    let same = print_term-exact inv (p ∷ ps) in
    ap (λ t. fzf_parse_pattern mode normalize t true) (sym same)
    ∙ fzf_parse_pattern-print_term mode normalize inv exact_match_naive (p ∷ ps) (omega arith)
        (omega (arith, ap length same, short)) a

-- For a term of 1 to 2^26 bytes without tabs, spaces, `\`, the marks `!`, `$`, `'` and `^`, and
-- upper case letters, on a text shorter than 2^31 bytes, in every case mode: `fzf_parse_pattern`
-- in fuzzy mode gives patterns for the term after `'` and after `!`. If the term stands at some
-- place of the text, folded as the case mode asks, `fzf_get_score` of the first is at least 16 a
-- byte of the term and of the second 0; if it stands at no place, they are 0 and 1. Neither
-- faults, and both leave the slab.
pub exact_query_decides :
    (mode : CaseMode) (normalize : Bool) (p : ℕ) (ps text : Bytes) (slab : Option Slab)
    → length (p ∷ ps) ≤ 2 ^ 26
    → All IsBare (p ∷ ps)
    → length text < 2 ^ 31
    → (exact : Pattern) × (inverse : Pattern) × (fzf_parse_pattern mode normalize
          (b'\'' ∷ p ∷ ps)
          true
        ≡ some exact)
      × (fzf_parse_pattern mode normalize (b'!' ∷ p ∷ ps) true ≡ some inverse)
      × (((a : ℕ) × (n : ℕ) × (occurs (fold_hit (case_counts mode) false) (p ∷ ps) text a ≡ true)
            × (16 * length (p ∷ ps) ≤ n)
            × (fzf_get_score text exact slab ≡ some (pos n, slab))
            × (fzf_get_score text inverse slab ≡ some (pos 0, slab)))
          ⊎ (((a : ℕ)
                → a < length text
                → occurs (fold_hit (case_counts mode) false) (p ∷ ps) text a ≡ false)
              × (fzf_get_score text exact slab ≡ some (pos 0, slab))
              × (fzf_get_score text inverse slab ≡ some (pos 1, slab))))
exact_query_decides mode normalize p ps text slab short a small =
    let cs = case_counts mode in
    let folded = IsBare-IsFolded cs (p ∷ ps) a in
    (
      exact_query cs (p ∷ ps) text slab false,
      exact_query cs (p ∷ ps) text slab true,
      parse_exact mode normalize p ps short a false,
      parse_exact mode normalize p ps short a true,
      elim (search_below (occurs (fold_hit cs false) (p ∷ ps) text) (length text)) [
        | inl (at, _, here) ↦
            let (s, bonus, score, q, run, _, _, bounds) =
              exact_finds cs false p ps text folded small none short tt at here in
            let (n, value, low, high) = InBounds-pos (length (p ∷ ps)) score bounds in
            let positive : ltb_ℤ (pos 0) (pos n) ≡ true = ground (arith, low) in
            inl (
              at,
              n,
              here,
              low,
              score_exact cs (p ∷ ps) text slab s _ score q n (omega (arith, high, short)) value
                  run,
              rw positive at (
                  score_inverse cs (p ∷ ps) text slab (pos s) _ score q n
                    (omega (arith, high, short)) value run),
            )
        | inr never ↦
            let run = exact_rejects cs false p ps text folded small none never in
            inr (
              never,
              score_nowhere cs (p ∷ ps) text slab run,
              score_inverse cs (p ∷ ps) text slab _ _ (pos 0) none 0 (omega arith) refl run,
            )
      ],
    )
