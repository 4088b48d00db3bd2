-- ===== src/Fzf/Affix/Equal.antt =====
-- `fzf_equal_match`: it matches exactly the texts that are the pattern between white space.
use native.Mathlib.Decide.{dec_lt}
use plugged.Common.{
  +ℤ-pos, Bool, Bool-cases, Option, [], ap, arith, drop, false, get_elem?, get_elem?-none, inl, inr,
  length, neq-false, pos, refl, some, sub_size, subst, suc, to_i32_of_lt, true, wrap_i32-InI32,
  zero, ℕ, ◌*◌, ◌+◌, ◌-◌, ◌<◌, ◌==◌, ◌^◌, ◌∙◌, ◌∷◌, ◌≡◌, ◌≢◌, ◌≤◌, ◌⊎◌,
}
use plugged.Fzf.Affix.{
  compare_loop, equal_loop, equal_score, fzf_equal_match, leading_whitespaces, trailing_whitespaces,
}
use plugged.Fzf.Affix.Compare.{compare_loop-eq, starts_with}
use plugged.Fzf.Affix.Suffix.{trailing_whitespaces-eq}
use plugged.Fzf.Chars.{Bytes, fold_char, is_space, normalize_rune}
use plugged.Fzf.Positions.{Positions}
use plugged.Fzf.Positions.Growth.{Fits, Grown, insert_range-Grown, places_from}
use plugged.Fzf.Score.{no_match}
use plugged.Fzf.Score.Run.{fold_hit}

-- The comparison is the one of the other matchers: folding the pattern's byte as well changes
-- nothing, since `normalize_rune` keeps every byte.
equal_loop-eq :
    (case_sensitive normalize : Bool) (text : Bytes) (offset : ℕ) (ps : Bytes) (i : ℕ)
    → equal_loop case_sensitive normalize text offset ps i
      ≡ compare_loop case_sensitive normalize text offset ps i
unfolding equal_loop compare_loop fold_char normalize_rune
equal_loop-eq cs normalize text offset [] i = refl
equal_loop-eq cs true text offset (p ∷ ps) i =
    rw (equal_loop-eq cs true text offset ps (i + 1)) refl
equal_loop-eq cs false text offset (p ∷ ps) i =
    rw (equal_loop-eq cs false text offset ps (i + 1)) refl

leading-le_of :
    (text : Bytes) (i : ℕ) {c : ℕ}
    → get_elem? text i ≡ some c
    → is_space c ≡ false
    → leading_whitespaces text ≤ i
unfolding leading_whitespaces
leading-le_of [] i e s = cc
leading-le_of (x ∷ xs) zero e s = ground arith
leading-le_of (x ∷ xs) (suc i) e s = ground (arith, leading-le_of xs i e s)

module _ (case_sensitive normalize : Bool) (text : Bytes) (small : length text < 2 ^ 31) (i : ℕ)
    {c : ℕ} (at : get_elem? text i ≡ some c) (word : is_space c ≡ false)
    (blank : (j : ℕ) (d : ℕ) → i < j → get_elem? text j ≡ some d → is_space d ≡ true) (p : ℕ)
    (ps : Bytes) (out : Option Positions) where
  abbrev lead : ℕ
  lead = leading_whitespaces text

  abbrev agrees : Bool
  agrees = starts_with (fold_hit case_sensitive normalize) (p ∷ ps) (drop lead text)

  inside : i < length text
  inside = elim (dec_lt i (length text)) [
    | yes h ↦ h
    | no h ↦ cc (get_elem?-none text i (omega arith))
  ]

  trailing : trailing_whitespaces text ≡ some (length text - 1 - i)
  trailing = trailing_whitespaces-eq text i at word blank inside (omega arith)

  middle : sub_size (sub_size (length text) lead) (length text - 1 - i) ≡ suc i - lead
  middle = omega (arith, leading-le_of text i at word, inside)

  compared :
      lead + length (p ∷ ps) ≤ length text
      → equal_loop case_sensitive normalize text lead (p ∷ ps) 0 ≡ some agrees
  compared h =
      let same : lead + 0 ≡ lead = omega arith in
      equal_loop-eq case_sensitive normalize text lead (p ∷ ps) 0
      ∙ compare_loop-eq case_sensitive normalize text small (p ∷ ps) lead 0 (omega arith)
      ∙ ap (λ k. some (starts_with (fold_hit case_sensitive normalize) (p ∷ ps) (drop k text))) same

  -- On a text shorter than 2^31 bytes with a byte that is no white space and only white space
  -- after it, for a pattern of 1 to 2^26 bytes and positions whose cells in use fit their
  -- capacity: if the pattern stands from the first byte that is no white space and ends with
  -- that last one, `fzf_equal_match` returns that range without a fault, with a score of 24 a
  -- byte and 8, and appends its places.
  pub equal_finds :
      length (p ∷ ps) ≤ 2 ^ 26
      → Fits out
      → lead + length (p ∷ ps) ≡ suc i
      → agrees ≡ true
      → (q : Option Positions) × (fzf_equal_match case_sensitive normalize text (p ∷ ps) out
          ≡ some (
            record { start = pos lead; end = pos (suc i); score = pos (24 * length (p ∷ ps) + 8) },
            q,
          ))
        × Grown out (places_from lead (length (p ∷ ps))) q
  unfolding fzf_equal_match equal_score
  equal_finds short f whole same =
      let m = length (p ∷ ps) in
      let (q, e, grown) =
        insert_range-Grown out lead (lead + m) f (omega arith) (omega (arith, inside)) in
      let width : lead + m - lead ≡ m = omega arith in
      let b : (suc i - lead == m) ≡ true = ground arith in
      let score : equal_score m ≡ pos (24 * m + 8) =
        wrap_i32-InI32 (pos (24 * m + 8)) (omega arith, omega arith) in
      (
        q,
        rw
            (
              neq-false m 0 (omega arith),
              trailing,
              middle,
              b,
              compared (omega (arith, inside)),
              same,
              e,
              to_i32_of_lt lead (omega (arith, inside)),
              to_i32_of_lt m (omega (arith, inside)),
              +ℤ-pos lead m,
              whole,
              score,
            )
            refl,
        subst (λ n. Grown out (places_from lead n) q) width grown,
      )

  -- On a text shorter than 2^31 bytes with a byte that is no white space and only white space
  -- after it, for a pattern of at least one byte: if the text between its white space has
  -- another length than the pattern, or the pattern does not stand at the first byte that is no
  -- white space, `fzf_equal_match` returns -1, -1, 0 without a fault and leaves the positions.
  pub equal_rejects :
      (lead + length (p ∷ ps) ≢ suc i) ⊎ (agrees ≡ false)
      → fzf_equal_match case_sensitive normalize text (p ∷ ps) out ≡ some (no_match, out)
  unfolding fzf_equal_match
  equal_rejects differs = elim (Bool-cases (suc i - lead == length (p ∷ ps))) [
    | inr b ↦ rw (neq-false (length (p ∷ ps)) 0 (omega arith), trailing, middle, b)
    | inl b ↦
        let whole : lead + length (p ∷ ps) ≡ suc i = ground (arith, leading-le_of text i at word) in
        elim differs [
          | inl other ↦ absurd (other whole)
          | inr miss ↦ rw (
            neq-false (length (p ∷ ps)) 0 (omega arith),
            trailing,
            middle,
            b,
            compared (omega (arith, inside)),
            miss,
          )
        ]
  ]
