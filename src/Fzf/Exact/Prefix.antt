-- ===== src/Fzf/Exact/Prefix.antt =====
-- How far a pattern stands at a place of the text.
use plugged.Common.{
  Bool, Bool-cases, [], arith, false, get_elem?, inl, inr, refl, some, suc, take, true, zero, ℕ,
  ◌∷◌, ◌≡◌,
}
use plugged.Fzf.Affix.Compare.{starts_with}
use plugged.Fzf.Chars.{Bytes}

-- How far the pattern agrees with the text, one byte more at a time.
module _ (hit : ℕ → ℕ → Bool) where
  pub starts_with-miss :
      (ps xs : Bytes) (i : ℕ) {p x : ℕ}
      → get_elem? ps i ≡ some p
      → get_elem? xs i ≡ some x
      → hit p x ≡ false
      → starts_with hit ps xs ≡ false
  unfolding starts_with
  starts_with-miss [] xs i e e' h = cc
  starts_with-miss (q ∷ ps) [] i e e' h = refl
  starts_with-miss (q ∷ ps) (y ∷ xs) zero e e' h = ground arith
  starts_with-miss (q ∷ ps) (y ∷ xs) (suc i) e e' h =
      rw (starts_with-miss ps xs i e e' h) (ground arith)

  pub starts_with_next :
      (ps xs : Bytes) (i : ℕ) {p x : ℕ}
      → get_elem? ps i ≡ some p
      → get_elem? xs i ≡ some x
      → hit p x ≡ true
      → starts_with hit (take i ps) xs ≡ true
      → starts_with hit (take (suc i) ps) xs ≡ true
  unfolding starts_with
  starts_with_next [] xs i e e' h s = refl
  starts_with_next (q ∷ ps) [] i e e' h s = cc
  starts_with_next (q ∷ ps) (y ∷ xs) zero e e' h s = ground arith
  starts_with_next (q ∷ ps) (y ∷ xs) (suc i) e e' h s = elim (Bool-cases (hit q y)) [
    | inl b ↦ rw b (starts_with_next ps xs i e e' h (rw b at s))
    | inr b ↦ cc (rw b at s)
  ]
