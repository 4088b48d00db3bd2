-- ===== src/Fzf/Affix/Suffix.antt =====
-- `trailing_whitespaces` and `fzf_suffix_match`: what they compute, and where they read outside
-- the text.
use native.Mathlib.Nat.{add-zero, add-suc, zero-add}
use plugged.Common.{
  Bool, Option, Option-cases, [], add_size, ap, arith, drop, false, get_elem?, get_elem?-none,
  get_elem?-of_lt, inl, inr, length, neq-false, none, pos, some, sub_size, subst, suc, true, zero,
  ℕ, ℤ, ◌&&◌, ◌+◌, ◌-◌, ◌<◌, ◌^◌, ◌∙◌, ◌∷◌, ◌≡◌, ◌≤◌,
}
use plugged.Fzf.Affix.{
  compare_loop, fzf_suffix_match, score_range, suffix_length, trailing_loop, trailing_whitespaces,
}
use plugged.Fzf.Affix.Compare.{compare_loop-eq, score_range-eq, starts_with}
use plugged.Fzf.Chars.{Bytes, is_space}
use plugged.Fzf.Positions.{Positions}
use plugged.Fzf.Positions.Growth.{Fits, Grown, places_from}
use plugged.Fzf.Score.{no_match}
use plugged.Fzf.Score.Run.{InBounds, fold_hit}

-- All of a text is white space.
unfoldable pub all_space : Bytes → Bool
all_space [] = true
all_space (c ∷ xs) = is_space c && all_space xs

all_space-get :
    (xs : Bytes) (i : ℕ) {c : ℕ} → all_space xs ≡ true → get_elem? xs i ≡ some c → is_space c ≡ true
unfolding all_space
all_space-get [] i h e = cc
all_space-get (x ∷ xs) zero h e = ground arith
all_space-get (x ∷ xs) (suc i) h e = all_space-get xs i (ground arith) e

trailing_loop-blank :
    (text : Bytes) (i n : ℕ) → all_space text ≡ true → trailing_loop text i n ≡ none
unfolding trailing_loop
trailing_loop-blank text zero n h = elim (Option-cases (get_elem? text 0)) [
  | inl e ↦ rw e
  | inr (c, e) ↦ rw (e, all_space-get text 0 h e)
]
trailing_loop-blank text (suc i) n h = elim (Option-cases (get_elem? text (suc i))) [
  | inl e ↦ rw e
  | inr (c, e) ↦ rw (e, all_space-get text (suc i) h e) (trailing_loop-blank text i (n + 1) h)
]

-- On a text of white space only, the empty text too, `trailing_whitespaces` reads outside of it.
pub trailing_whitespaces-blank :
    (text : Bytes) → all_space text ≡ true → trailing_whitespaces text ≡ none
unfolding trailing_whitespaces
trailing_whitespaces-blank text h = trailing_loop-blank text (sub_size (length text) 1) 0 h

trailing_loop-stop :
    (text : Bytes) (i n : ℕ) {c : ℕ}
    → get_elem? text i ≡ some c
    → is_space c ≡ false
    → trailing_loop text i n ≡ some n
unfolding trailing_loop
trailing_loop-stop text zero n e s = rw (e, s)
trailing_loop-stop text (suc i) n e s = rw (e, s)

trailing_loop-count :
    (text : Bytes) (i w n : ℕ) {c : ℕ}
    → get_elem? text i ≡ some c
    → is_space c ≡ false
    → ((j : ℕ) (d : ℕ) → i < j → j ≤ i + w → get_elem? text j ≡ some d → is_space d ≡ true)
    → i + w < length text
    → trailing_loop text (i + w) n ≡ some (n + w)
unfolding trailing_loop
trailing_loop-count text i zero n e s blank inside =
    rw (add-zero i, add-zero n) (trailing_loop-stop text i n e s)
trailing_loop-count text i (suc w) n e s blank inside =
    let (d, at) = get_elem?-of_lt text (suc (i + w)) (omega arith) in
    let next : n + 1 + w ≡ n + suc w = omega arith in
    rw (add-suc i w, at, blank (suc (i + w)) d (omega arith) (omega arith) at)
      (trailing_loop-count text i w (n + 1) e s (λ j d' lt le. blank j d' lt (omega arith))
          (omega arith)
        ∙ ap some next)

-- On a text shorter than 2^63 bytes with white space only after a place that holds none,
-- `trailing_whitespaces` does not fault and counts the bytes after that place.
pub trailing_whitespaces-eq :
    (text : Bytes) (i : ℕ) {c : ℕ}
    → get_elem? text i ≡ some c
    → is_space c ≡ false
    → ((j : ℕ) (d : ℕ) → i < j → get_elem? text j ≡ some d → is_space d ≡ true)
    → i < length text
    → length text < 2 ^ 63
    → trailing_whitespaces text ≡ some (length text - 1 - i)
unfolding trailing_whitespaces
trailing_whitespaces-eq text i e s blank inside small =
    let last : sub_size (length text) 1 ≡ i + (length text - 1 - i) = omega arith in
    rw last (
      trailing_loop-count text i (length text - 1 - i) 0 e s (λ j d lt le. blank j d lt)
        (omega arith)
      ∙ ap some (zero-add (length text - 1 - i)))

module _ (case_sensitive normalize : Bool) (text : Bytes) (p : ℕ) (ps : Bytes)
    (out : Option Positions) (t : ℕ) (trimmed : suffix_length text (p ∷ ps) ≡ some t)
    (small : length text < 2 ^ 31) where
  -- If a text shorter than 2^31 bytes has a trimmed length less than the pattern's, which is
  -- less than 2^63, `fzf_suffix_match` reads before the start of the text: the test for it
  -- compares an unsigned number with 0.
  pub suffix_match-fault :
      t < length (p ∷ ps)
      → length (p ∷ ps) < 2 ^ 63
      → fzf_suffix_match case_sensitive normalize text (p ∷ ps) out ≡ none
  unfolding fzf_suffix_match compare_loop
  suffix_match-fault short small' = rw (
    trimmed,
    neq-false (length (p ∷ ps)) 0 (omega arith),
    get_elem?-none text (add_size (sub_size t (length (p ∷ ps))) 0) (omega arith),
  )

  module _ (long : length (p ∷ ps) ≤ t) (inside : t ≤ length text) where
    abbrev suffix_offset : ℕ
    suffix_offset = t - length (p ∷ ps)

    abbrev ends : Bool
    ends =
        starts_with (fold_hit case_sensitive normalize) (p ∷ ps) (drop (t - length (p ∷ ps)) text)

    suffix_diff : sub_size t (length (p ∷ ps)) ≡ t - length (p ∷ ps)
    suffix_diff = omega arith

    suffix_compare :
        compare_loop case_sensitive normalize text (sub_size t (length (p ∷ ps))) (p ∷ ps) 0
        ≡ some ends
    suffix_compare =
        let same : t - length (p ∷ ps) + 0 ≡ t - length (p ∷ ps) = omega arith in
        rw suffix_diff (
          compare_loop-eq case_sensitive normalize text small (p ∷ ps) (t - length (p ∷ ps)) 0
            (omega arith)
          ∙ ap (λ k. some (starts_with (fold_hit case_sensitive normalize) (p ∷ ps) (drop k text)))
              same)

    -- For a pattern of 1 to 2^26 bytes, a text shorter than 2^31 bytes whose trimmed length is
    -- at least the pattern's, and positions whose cells in use fit their capacity: if the text
    -- has the pattern just before its trimmed end, `fzf_suffix_match` returns that range without
    -- a fault, appends its places, and the score is between 16 a byte and 24 a byte and 8.
    pub suffix_finds :
        length (p ∷ ps) ≤ 2 ^ 26
        → Fits out
        → ends ≡ true
        → (score : ℤ) × (q : Option Positions) × (fzf_suffix_match case_sensitive normalize text
              (p ∷ ps)
              out
            ≡ some (record { start = pos (t - length (p ∷ ps)); end = pos t; score = score }, q))
          × Grown out (places_from (t - length (p ∷ ps)) (length (p ∷ ps))) q
          × InBounds (length (p ∷ ps)) 0 score
    unfolding fzf_suffix_match
    suffix_finds short f b =
        let (score, q, run, grown, bounds) =
          score_range-eq case_sensitive normalize text small (p ∷ ps) (t - length (p ∷ ps)) out
            (omega arith) short (omega arith) f b in
        let back : t - length (p ∷ ps) + length (p ∷ ps) ≡ t = omega arith in
        let there =
          subst
            (λ k.
              score_range case_sensitive normalize text (p ∷ ps) (t - length (p ∷ ps)) k out
              ≡ some (record { start = pos (t - length (p ∷ ps)); end = pos k; score = score }, q))
            back run in
        (
          score,
          q,
          rw (trimmed, neq-false (length (p ∷ ps)) 0 (omega arith), suffix_compare, b, suffix_diff)
              there,
          grown,
          bounds,
        )

    -- For a pattern of at least one byte and a text shorter than 2^31 bytes whose trimmed length
    -- is at least the pattern's: if the text does not have the pattern just before its trimmed
    -- end, `fzf_suffix_match` returns -1, -1, 0 and leaves the positions.
    pub suffix_rejects :
        ends ≡ false
        → fzf_suffix_match case_sensitive normalize text (p ∷ ps) out ≡ some (no_match, out)
    unfolding fzf_suffix_match
    suffix_rejects b = rw (trimmed, neq-false (length (p ∷ ps)) 0 (omega arith), suffix_compare, b)
