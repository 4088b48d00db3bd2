-- ===== src/Fzf/V1/Scan.antt =====
-- The two loops of `fzf_fuzzy_match_v1` in terms of the greedy search.
use mathlib.Core.Option.{some-injective}
use native.Mathlib.Numerals.{add-one}
use plugged.Common.{
  +ℤ-pos, ==_iff, Bool, Bool-cases, Option, [], ap, arith, drop, drop-suc_of_drop, false,
  get_elem?-of_drop, inl, inr, length, length-drop, ltb_ℤ-neg, neq-false, pos, some, suc,
  to_i32_of_lt, true, ℕ, ℤ, ◌+◌, ◌<◌, ◌^◌, ◌∙◌, ◌∷◌, ◌≡◌,
}
use plugged.Fzf.Chars.{Bytes}
use plugged.Fzf.Score.Run.{fold_hit}
use plugged.Fzf.Skip.{minus_one}
use plugged.Fzf.Skip.First.{first_where}
use plugged.Fzf.Subseq.{cut}
use plugged.Fzf.Subseq.Greedy.{suc?-eq-some}
use plugged.Fzf.V1.{Forward, v1_forward}

-- The element that a test finds first.
pub first_where-drop :
    (p : ℕ → Bool) (xs : Bytes) (k : ℕ)
    → first_where p xs ≡ some k
    → (x : ℕ) × (p x ≡ true) × (drop k xs ≡ x ∷ drop (suc k) xs)
unfolding first_where
first_where-drop p [] k h = cc
first_where-drop p (x ∷ xs) k h = elim (Bool-cases (p x)) [
  | inl e ↦ let z : 0 ≡ k = some-injective _ _ (rw e at h) in (x, e, rw (← z))
  | inr e ↦
      let (j, f, s) = suc?-eq-some (first_where p xs) (rw e at h) in
      let (y, g, d) = first_where-drop p xs j f in (y, g, rw s d)
]

module _ (case_sensitive normalize : Bool) (pattern : Bytes) where
  abbrev fold_of : ℕ → ℕ → Bool
  fold_of = fold_hit case_sensitive normalize

  forward_end :
      {i j : ℕ} (s : ℤ)
      → i ≡ j
      → ◌≡◌ {A = Option Forward}
          (some (record { pidx = length pattern; sidx = s; eidx = pos i }))
          (some (record { pidx = length pattern; sidx = s; eidx = pos j }))
  forward_end s h = ap (λ t. some (record { pidx = length pattern; sidx = s; eidx = pos t })) h

  last_place :
      (pidx : ℕ) (p : ℕ) (ps : Bytes)
      → drop pidx pattern ≡ p ∷ ps
      → length pattern ≡ pidx + 1 + length ps
  last_place pidx p ps at = omega (arith, length-drop pidx pattern, ap length at)

  -- Once a first byte has been found, the loop ends where the greedy search does.
  forward_started :
      (xs : Bytes) (p : ℕ) (ps : Bytes) (idx pidx s n : ℕ)
      → drop pidx pattern ≡ p ∷ ps
      → idx + length xs < 2 ^ 31
      → cut fold_of (p ∷ ps) xs ≡ some n
      → v1_forward case_sensitive normalize pattern xs idx pidx (pos s)
        ≡ some (record { pidx = length pattern; sidx = pos s; eidx = pos (idx + n) })
  unfolding v1_forward cut
  forward_started [] p ps idx pidx s n at small c = cc
  forward_started (x ∷ xs) p [] idx pidx s n at small c = elim (Bool-cases (fold_of p x)) [
    | inl e ↦
        let one : 1 ≡ n = some-injective _ _ (rw e at c) in
        let last = last_place pidx p [] at in
        let here = (==_iff (pidx + 1) (length pattern)).1 (omega arith) in
        rw
          (
            get_elem?-of_drop pidx pattern at,
            e,
            here,
            ltb_ℤ-neg s,
            to_i32_of_lt idx (omega arith),
            +ℤ-pos idx 1,
            ← one,
            last,
          )
          (ap (λ t. some (record { pidx = t; sidx = pos s; eidx = pos (idx + 1) })) (omega arith))
    | inr e ↦
        let (k, c', m) = suc?-eq-some (cut fold_of (p ∷ []) xs) (rw e at c) in
        rw (get_elem?-of_drop pidx pattern at, e)
          (forward_started xs p [] (idx + 1) pidx s k at (omega arith) c'
            ∙ forward_end (pos s) (omega arith))
  ]
  forward_started (x ∷ xs) p (q ∷ ps) idx pidx s n at small c = elim (Bool-cases (fold_of p x)) [
    | inl e ↦
        let (k, c', m) = suc?-eq-some (cut fold_of (q ∷ ps) xs) (rw e at c) in
        let last = last_place pidx p (q ∷ ps) at in
        let later = neq-false (pidx + 1) (length pattern) (omega arith) in
        rw (get_elem?-of_drop pidx pattern at, e, later, ltb_ℤ-neg s)
          (forward_started xs q ps (idx + 1) (pidx + 1) s k
              (rw add-one (drop-suc_of_drop pidx pattern at)) (omega arith) c'
            ∙ forward_end (pos s) (omega arith))
    | inr e ↦
        let (k, c', m) = suc?-eq-some (cut fold_of (p ∷ q ∷ ps) xs) (rw e at c) in
        rw (get_elem?-of_drop pidx pattern at, e)
          (forward_started xs p (q ∷ ps) (idx + 1) pidx s k at (omega arith) c'
            ∙ forward_end (pos s) (omega arith))
  ]

  -- A first byte that matches sets `sidx` to its place.
  forward_begin :
      (x p idx : ℕ) (xs ps : Bytes)
      → pattern ≡ p ∷ ps
      → idx < 2 ^ 31
      → fold_of p x ≡ true
      → v1_forward case_sensitive normalize pattern (x ∷ xs) idx 0 minus_one
        ≡ v1_forward case_sensitive normalize pattern (x ∷ xs) idx 0 (pos idx)
  unfolding v1_forward
  forward_begin x p idx xs ps at small e =
      rw (get_elem?-of_drop 0 pattern at, e, ltb_ℤ-neg idx, to_i32_of_lt idx small)

  forward_skip :
      (x p idx : ℕ) (xs ps : Bytes)
      → pattern ≡ p ∷ ps
      → fold_of p x ≡ false
      → v1_forward case_sensitive normalize pattern (x ∷ xs) idx 0 minus_one
        ≡ v1_forward case_sensitive normalize pattern xs (idx + 1) 0 minus_one
  unfolding v1_forward
  forward_skip x p idx xs ps at e = rw (get_elem?-of_drop 0 pattern at, e)

  -- From the start of a text the loop finds the place of the first byte and the end of the
  -- greedy search.
  pub forward_fresh :
      (xs : Bytes) (p : ℕ) (ps : Bytes) (idx n k : ℕ)
      → pattern ≡ p ∷ ps
      → idx + length xs < 2 ^ 31
      → first_where (fold_of p) xs ≡ some k
      → cut fold_of (p ∷ ps) xs ≡ some n
      → v1_forward case_sensitive normalize pattern xs idx 0 minus_one
        ≡ some (record { pidx = length pattern; sidx = pos (idx + k); eidx = pos (idx + n) })
  unfolding cut first_where
  forward_fresh [] p ps idx n k at small f c = cc
  forward_fresh (x ∷ xs) p ps idx n k at small f c = elim (Bool-cases (fold_of p x)) [
    | inl e ↦
        let zero_k : 0 ≡ k = some-injective _ _ (rw e at f) in
        let here : idx ≡ idx + k = omega arith in
        forward_begin x p idx xs ps at (omega arith) e
        ∙ forward_started (x ∷ xs) p ps idx 0 idx n at small c
        ∙ ap (λ t. some (record { pidx = length pattern; sidx = pos t; eidx = pos (idx + n) })) here
    | inr e ↦
        let (m, c', en) = suc?-eq-some (cut fold_of (p ∷ ps) xs) (rw e at c) in
        let (j, f', ek) = suc?-eq-some (first_where (fold_of p) xs) (rw e at f) in
        let left : idx + 1 + j ≡ idx + k = omega arith in
        let right : idx + 1 + m ≡ idx + n = omega arith in
        forward_skip x p idx xs ps at e
        ∙ forward_fresh xs p ps (idx + 1) m j at (omega arith) f' c'
        ∙ rw (left, right)
  ]
