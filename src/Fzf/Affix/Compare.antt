-- ===== src/Fzf/Affix/Compare.antt =====
-- The comparison of a pattern with the text at an offset, and the range it then scores.
use plugged.Common.{
  Bool, Bool-cases, Option, [], add_size, arith, drop, false, get_elem?-of_drop, if◌then◌else◌, inl,
  inr, length, none, pos, refl, some, subst, suc, take, to_i32_of_lt, true, zero, ℕ, ℤ, ◌+◌, ◌-◌,
  ◌<◌, ◌^◌, ◌∷◌, ◌≡◌, ◌≤◌,
}
use plugged.Fzf.Affix.{compare_loop, score_range}
use plugged.Fzf.Chars.{Bytes}
use plugged.Fzf.Positions.{Positions}
use plugged.Fzf.Positions.Growth.{Fits, Grown, insert_range-Grown, places_from}
use plugged.Fzf.Score.Run.{InBounds, fold_hit}
use plugged.Fzf.Score.Total.{calculate_score_lem}
use plugged.Fzf.Subseq.{cut}

-- The text begins with the pattern.
unfoldable pub starts_with : (ℕ → ℕ → Bool) → Bytes → Bytes → Bool
starts_with hit [] xs = true
starts_with hit (p ∷ ps) [] = false
starts_with hit (p ∷ ps) (x ∷ xs) = if hit p x then starts_with hit ps xs else false

pub starts_with-length :
    (hit : ℕ → ℕ → Bool) (ps xs : Bytes) → starts_with hit ps xs ≡ true → length ps ≤ length xs
unfolding starts_with
starts_with-length hit [] xs h = omega arith
starts_with-length hit (p ∷ ps) [] h = cc
starts_with-length hit (p ∷ ps) (x ∷ xs) h = ground (arith, starts_with-length hit ps xs)

-- The greedy search takes such a prefix whole.
pub cut-starts_with :
    (hit : ℕ → ℕ → Bool) (ps xs : Bytes)
    → starts_with hit ps xs ≡ true
    → cut hit ps (take (length ps) xs) ≡ some (length ps)
unfolding starts_with cut
cut-starts_with hit [] xs h = refl
cut-starts_with hit (p ∷ ps) [] h = cc
cut-starts_with hit (p ∷ ps) (x ∷ xs) h = elim (Bool-cases (hit p x)) [
  | inl e ↦ rw (e, cut-starts_with hit ps xs (rw e at h))
  | inr e ↦ cc (rw e at h)
]

pub drop-of_lt : (n : ℕ) (xs : Bytes) → n < length xs → (x : ℕ) × (drop n xs ≡ x ∷ drop (suc n) xs)
drop-of_lt n [] h = absurd (omega arith)
drop-of_lt zero (x ∷ xs) h = (x, refl)
drop-of_lt (suc n) (x ∷ xs) h = drop-of_lt n xs (omega arith)

module _ (case_sensitive normalize : Bool) (text : Bytes) (small : length text < 2 ^ 31) where
  abbrev same_hit : ℕ → ℕ → Bool
  same_hit = fold_hit case_sensitive normalize

  pub compare_loop-eq :
      (ps : Bytes) (offset i : ℕ)
      → offset + i + length ps ≤ length text
      → compare_loop case_sensitive normalize text offset ps i
        ≡ some (starts_with same_hit ps (drop (offset + i) text))
  unfolding compare_loop starts_with
  compare_loop-eq [] offset i h = refl
  compare_loop-eq (p ∷ ps) offset i h =
      let (x, d) = drop-of_lt (offset + i) text (omega arith) in
      let at : add_size offset i ≡ offset + i = omega arith in
      let next : offset + (i + 1) ≡ suc (offset + i) = omega arith in
      rw
        (
          at,
          get_elem?-of_drop (offset + i) text d,
          d,
          compare_loop-eq ps offset (i + 1) (omega arith),
          next,
        )
        (if-some (same_hit p x) (starts_with same_hit ps (drop (suc (offset + i)) text)))
    where
      if-some : (b c : Bool) → (if b then some c else some false) ≡ some (if b then c else false)
      if-some true c = refl
      if-some false c = refl

  -- Where the text has the pattern at `offset`, its range is scored without a fault.
  pub score_range-eq :
      (pattern : Bytes) (offset : ℕ) (out : Option Positions)
      → 0 < length pattern
      → length pattern ≤ 2 ^ 26
      → offset + length pattern ≤ length text
      → Fits out
      → starts_with same_hit pattern (drop offset text) ≡ true
      → (score : ℤ) × (q : Option Positions) × (score_range case_sensitive normalize text pattern
            offset
            (offset + length pattern)
            out
          ≡ some (
            record { start = pos offset; end = pos (offset + length pattern); score = score },
            q,
          ))
        × Grown out (places_from offset (length pattern)) q
        × InBounds (length pattern) 0 score
  unfolding score_range
  score_range-eq pattern offset out positive short inside f s =
      let m = length pattern in
      let width : offset + m - offset ≡ m = omega arith in
      let whole : cut same_hit pattern (take (offset + m - offset) (drop offset text))
          ≡ some (offset + m - offset) =
        rw width (cut-starts_with same_hit pattern (drop offset text) s) in
      let (score, _, run, _, bounds) =
        calculate_score_lem case_sensitive normalize pattern text offset (offset + m) none
          (omega arith) inside small short (omega arith) tt whole in
      let (q, e, grown) =
        insert_range-Grown out offset (offset + m) f (omega arith) (omega arith) in
      (
        score,
        q,
        rw (run, e, to_i32_of_lt offset (omega arith), to_i32_of_lt (offset + m) (omega arith)),
        subst (λ n. Grown out (places_from offset n) q) width grown,
        (omega arith, omega arith),
      )
