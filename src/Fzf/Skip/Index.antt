-- ===== src/Fzf/Skip/Index.antt =====
-- `ascii_fuzzy_index` rules out exactly the texts that do not hold the pattern.
use mathlib.Core.Option.{some-injective}
use native.Mathlib.Nat.{zero-add, suc-add}
use native.Mathlib.Numerals.{add-one}
use plugged.Common.{
  +ℤ-pos, Bool, Option, [], ap, arith, drop, if◌then◌else◌, length, length-drop, ltb_ℤ, ltb_ℤ-neg,
  none, pos, refl, some, suc, zero, ℕ, ℤ, ◌&&◌, ◌+ℤ◌, ◌+◌, ◌-ℤ◌, ◌<◌, ◌==◌, ◌^◌, ◌∙◌, ◌∷◌, ◌≡◌, ◌≤◌,
}
use plugged.Fzf.Chars.{Bytes}
use plugged.Fzf.Skip.{ascii_fuzzy_index, fuzzy_index_loop, minus_one}
use plugged.Fzf.Skip.First.{after, cut-first_where, cut_from, first_where, first_where-lt}
use plugged.Fzf.Skip.Search.{found_at, skip_hit, try_skip-eq}
use plugged.Fzf.Subseq.{cut}

-- The verdict of `ascii_fuzzy_index`'s loop after its first byte.
abbrev pub verdict : ℤ → Option ℕ → ℤ
verdict first_idx none = minus_one
verdict first_idx (some n) = first_idx

drop-nil : (n : ℕ) → drop {A = ℕ} n [] ≡ []
drop-nil zero = refl
drop-nil (suc n) = refl

drop-drop : (m n : ℕ) (xs : Bytes) → drop m (drop n xs) ≡ drop (n + m) xs
drop-drop m zero xs = rw (zero-add m)
drop-drop m (suc n) [] = rw (drop-nil m, drop-nil (suc n + m))
drop-drop m (suc n) (x ∷ xs) = rw (suc-add n m) (drop-drop m n xs)

verdict-after : (r : ℤ) (k : ℕ) (o : Option ℕ) → verdict r (after k o) ≡ verdict r o
unfolding after
verdict-after r k none = refl
verdict-after r k (some n) = refl

-- The rest of a round of `ascii_fuzzy_index`'s loop, once the byte has been looked for.
round_from : Bytes → Bool → Bytes → ℕ → ℤ → ℤ → Option ℤ
round_from input case_sensitive ps pidx first_idx found =
    let first_idx' = if pidx == 0 && ltb_ℤ (pos 0) found then found -ℤ pos 1 else first_idx in
    let rest = fuzzy_index_loop input case_sensitive ps (pidx + 1) first_idx' (found +ℤ pos 1) in
    if ltb_ℤ found (pos 0) then some minus_one else rest

-- `first_idx` after the round.
abbrev pub first_after : ℕ → ℤ → ℕ → Option ℕ → ℤ
first_after pidx first_idx n none = first_idx
first_after pidx first_idx n (some k) =
    if pidx == 0 && ltb_ℤ (pos 0) (pos (n + k)) then pos (n + k) -ℤ pos 1 else first_idx

first_after-suc :
    (pidx : ℕ) (first_idx : ℤ) (n : ℕ) (o : Option ℕ)
    → first_after (suc pidx) first_idx n o ≡ first_idx
first_after-suc pidx first_idx n none = refl
first_after-suc pidx first_idx n (some k) = ground arith

module _ (input : Bytes) (case_sensitive : Bool) (small : length input < 2 ^ 31) where
  round_from-eq :
      (ps : Bytes) (pidx : ℕ) (first_idx : ℤ) (n : ℕ) (o : Option ℕ)
      → n ≤ length input
      → ((k : ℕ) → o ≡ some k → k < length (drop n input))
      → ((first_idx' : ℤ) (m : ℕ)
          → m ≤ length input
          → fuzzy_index_loop input case_sensitive ps (suc pidx) first_idx' (pos m)
            ≡ some (verdict first_idx' (cut (skip_hit case_sensitive) ps (drop m input))))
      → round_from input case_sensitive ps pidx first_idx (found_at n o)
        ≡ some (
            verdict
              (first_after pidx first_idx n o)
              (cut_from (skip_hit case_sensitive) ps (drop n input) o))
  unfolding round_from cut_from
  round_from-eq ps pidx first_idx n none h b ih = refl
  round_from-eq ps pidx first_idx n (some k) h b ih =
      rw
        (
          ltb_ℤ-neg (n + k),
          +ℤ-pos (n + k) 1,
          verdict-after,
          drop-drop (suc k) n input,
          add-one pidx,
        )
        (rw
          (ih (first_after pidx first_idx n (some k)) (n + k + 1)
            (omega (arith, b k refl, length-drop n input)))
          (ap
            (λ t. some (
              verdict (first_after pidx first_idx n (some k))
                (cut (skip_hit case_sensitive) ps (drop t input))))
            (omega arith)))

  -- Later bytes of the pattern leave `first_idx` alone, and the loop succeeds if all are found.
  fuzzy_index_loop-eq :
      (ps : Bytes) (pidx : ℕ) (first_idx : ℤ) (n : ℕ)
      → n ≤ length input
      → fuzzy_index_loop input case_sensitive ps (suc pidx) first_idx (pos n)
        ≡ some (verdict first_idx (cut (skip_hit case_sensitive) ps (drop n input)))
  unfolding fuzzy_index_loop round_from
  fuzzy_index_loop-eq [] pidx first_idx n h = unfold cut in refl
  fuzzy_index_loop-eq (b ∷ ps) pidx first_idx n h =
      rw
        (
          try_skip-eq input case_sensitive b n small h,
          cut-first_where (skip_hit case_sensitive) b ps (drop n input),
        )
        (round_from-eq ps (suc pidx) first_idx n
            (first_where (skip_hit case_sensitive b) (drop n input)) h
            (λ k. first_where-lt _ (drop n input) k)
            (λ first_idx' m l. fuzzy_index_loop-eq ps (suc pidx) first_idx' m l)
          ∙ ap
              (λ t. some (
                verdict t (
                  cut_from (skip_hit case_sensitive) ps (drop n input)
                    (first_where (skip_hit case_sensitive b) (drop n input)))))
              (first_after-suc pidx first_idx n
                (first_where (skip_hit case_sensitive b) (drop n input))))

  -- On a text shorter than 2^31 bytes and a pattern of at least one byte, `ascii_fuzzy_index`
  -- does not fault, and returns -1 if the greedy search for the pattern in the text fails, and
  -- else the place before the first byte it takes, or 0.
  pub ascii_fuzzy_index-eq :
      (b : ℕ) (ps : Bytes)
      → ascii_fuzzy_index input (b ∷ ps) case_sensitive
        ≡ some (
            verdict
              (first_after 0 (pos 0) 0 (first_where (skip_hit case_sensitive b) input))
              (cut (skip_hit case_sensitive) (b ∷ ps) input))
  unfolding ascii_fuzzy_index
  ascii_fuzzy_index-eq b ps =
      rw
        (
          try_skip-eq input case_sensitive b 0 small (omega arith),
          cut-first_where (skip_hit case_sensitive) b ps input,
        )
        (unfold round_from in
          round_from-eq ps 0 (pos 0) 0 (first_where (skip_hit case_sensitive b) input) (omega arith)
            (λ k. first_where-lt _ input k)
            (λ first_idx' m l. fuzzy_index_loop-eq ps 0 first_idx' m l))

-- The first index is not negative, and not after the first byte found.
pub first_after-pos :
    (o : Option ℕ) → (i : ℕ) × (first_after 0 (pos 0) 0 o ≡ pos i) × ((k : ℕ) → o ≡ some k → i ≤ k)
first_after-pos none = (0, refl, λ k h. omega arith)
first_after-pos (some zero) = (0, refl, λ k h. omega arith)
first_after-pos (some (suc j)) =
    (j, unfold ◌-ℤ◌ in ground arith, λ k h. omega (arith, some-injective _ _ h))
