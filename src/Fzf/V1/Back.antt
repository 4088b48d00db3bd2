-- ===== src/Fzf/V1/Back.antt =====
-- The backward loop of `fzf_fuzzy_match_v1` searches the mirrored pattern in the mirrored text.
use mathlib.Core.Option.{some-injective}
use mathlib.Core.List.{reverse, reverse-append}
use plugged.Common.{
  Bool, Bool-cases, [], ap, arith, false, get_elem?, get_elem?-of_lt, inl, inr, length, le→leb,
  neq-false, some, suc, take, zero, ℕ, ◌++◌, ◌+◌, ◌-◌, ◌<◌, ◌∙◌, ◌∷◌, ◌≡◌, ◌≤◌,
}
use plugged.Fzf.Chars.{Bytes}
use plugged.Fzf.Score.Run.{fold_hit}
use plugged.Fzf.Subseq.{cut}
use plugged.Fzf.Subseq.Greedy.{cut-length, suc?-eq-some}
use plugged.Fzf.V1.{v1_backward}

pub take-suc :
    (n : ℕ) (xs : Bytes) {x : ℕ} → get_elem? xs n ≡ some x → take (suc n) xs ≡ take n xs ++ x ∷ []
take-suc n [] e = cc
take-suc zero (y ∷ xs) e = ap (λ t. t ∷ []) (some-injective _ _ e)
take-suc (suc n) (y ∷ xs) e = ap (λ t. y ∷ t) (take-suc n xs e)

-- The first `n` bytes, last first.
abbrev pub mirror : ℕ → Bytes → Bytes
mirror n xs = reverse (take n xs)

mirror-suc :
    (n : ℕ) (xs : Bytes) {x : ℕ} → get_elem? xs n ≡ some x → mirror (suc n) xs ≡ x ∷ mirror n xs
mirror-suc n xs {x} e = rw (take-suc n xs e, reverse-append (take n xs) (x ∷ []))

module _ (case_sensitive : Bool) (text pattern : Bytes) (start : ℕ) where
  abbrev back_of : ℕ → ℕ → Bool
  back_of = fold_hit case_sensitive false

  -- The search at a place of the text and a place of the pattern, with both bytes in sight.
  cut_here :
      (idx pidx : ℕ) {n x p : ℕ}
      → get_elem? text idx ≡ some x
      → get_elem? pattern pidx ≡ some p
      → cut back_of (mirror (suc pidx) pattern) (mirror (suc idx) text) ≡ some n
      → cut back_of (p ∷ mirror pidx pattern) (x ∷ mirror idx text) ≡ some n
  cut_here idx pidx ex ep c = rw (mirror-suc pidx pattern ep, mirror-suc idx text ex) at c

  cut_nothing :
      (pidx n : ℕ)
      → suc pidx ≤ length pattern
      → cut back_of (mirror (suc pidx) pattern) [] ≡ some n
      → ⊥
  unfolding cut
  cut_nothing pidx n h c =
      let (p, ep) = get_elem?-of_lt pattern pidx h in
      let c' : cut back_of (p ∷ mirror pidx pattern) [] ≡ some n =
        rw (mirror-suc pidx pattern ep) at c in
      cc

  cut_positive :
      (pidx n : ℕ) (xs : Bytes)
      → suc pidx ≤ length pattern
      → cut back_of (mirror (suc pidx) pattern) xs ≡ some n
      → 0 < n
  cut_positive pidx n xs h c =
      let long = cut-length back_of (mirror (suc pidx) pattern) xs c in
      let (p, ep) = get_elem?-of_lt pattern pidx h in
      omega (arith, ap length (mirror-suc pidx pattern ep))

  pub v1_backward-eq :
      (idx pidx n : ℕ)
      → idx < length text
      → pidx < length pattern
      → cut back_of (mirror (suc pidx) pattern) (mirror (suc idx) text) ≡ some n
      → start + n ≤ suc idx
      → v1_backward case_sensitive text pattern start idx pidx ≡ some (suc idx - n)
  unfolding v1_backward cut
  v1_backward-eq zero zero n it ip c fits =
      let (x, ex) = get_elem?-of_lt text 0 it in
      let (p, ep) = get_elem?-of_lt pattern 0 ip in
      let c' = cut_here zero zero ex ep c in
      elim (Bool-cases (back_of p x)) [
        | inl e ↦
            let one : 1 ≡ n = some-injective _ _ (rw e at c') in
            rw (ex, ep, e) (ap some (omega arith))
        | inr e ↦ cc (rw e at c')
      ]
  v1_backward-eq zero (suc q) n it ip c fits =
      let (x, ex) = get_elem?-of_lt text 0 it in
      let (p, ep) = get_elem?-of_lt pattern (suc q) ip in
      let c' = cut_here zero (suc q) ex ep c in
      elim (Bool-cases (back_of p x)) [
        | inl e ↦
            let (k, ck, en) = suc?-eq-some (cut back_of (mirror (suc q) pattern) []) (rw e at c') in
            absurd (cut_nothing q k (omega arith) ck)
        | inr e ↦ cc (rw e at c')
      ]
  v1_backward-eq (suc idx) zero n it ip c fits =
      let (x, ex) = get_elem?-of_lt text (suc idx) it in
      let (p, ep) = get_elem?-of_lt pattern 0 ip in
      let c' = cut_here (suc idx) zero ex ep c in
      elim (Bool-cases (back_of p x)) [
        | inl e ↦
            let one : 1 ≡ n = some-injective _ _ (rw e at c') in
            rw (ex, ep, e) (ap some (omega arith))
        | inr e ↦
            let (k, ck, en) =
              suc?-eq-some (cut back_of (p ∷ mirror zero pattern) (mirror (suc idx) text))
                (rw e at c') in
            let ck' : cut back_of (mirror (suc zero) pattern) (mirror (suc idx) text) ≡ some k =
              rw (mirror-suc zero pattern ep) ck in
            let positive = cut_positive zero k (mirror (suc idx) text) ip ck' in
            let room = le→leb start idx (omega arith) in
            rw (ex, ep, e, room)
              (v1_backward-eq idx zero k (omega arith) ip ck' (omega arith) ∙ ap some (omega arith))
      ]
  v1_backward-eq (suc idx) (suc q) n it ip c fits =
      let (x, ex) = get_elem?-of_lt text (suc idx) it in
      let (p, ep) = get_elem?-of_lt pattern (suc q) ip in
      let c' = cut_here (suc idx) (suc q) ex ep c in
      elim (Bool-cases (back_of p x)) [
        | inl e ↦
            let (k, ck, en) =
              suc?-eq-some (cut back_of (mirror (suc q) pattern) (mirror (suc idx) text))
                (rw e at c') in
            let positive = cut_positive q k (mirror (suc idx) text) (omega arith) ck in
            let room = le→leb start idx (omega arith) in
            let more = neq-false (suc q) 0 (omega arith) in
            let before : suc q - 1 ≡ q = omega arith in
            rw (ex, ep, e, more, room, before)
              (v1_backward-eq idx q k (omega arith) (omega arith) ck (omega arith)
                ∙ ap some (omega arith))
        | inr e ↦
            let (k, ck, en) =
              suc?-eq-some (cut back_of (p ∷ mirror (suc q) pattern) (mirror (suc idx) text))
                (rw e at c') in
            let ck' : cut back_of (mirror (suc (suc q)) pattern) (mirror (suc idx) text) ≡ some k =
              rw (mirror-suc (suc q) pattern ep) ck in
            let positive = cut_positive (suc q) k (mirror (suc idx) text) ip ck' in
            let room = le→leb start idx (omega arith) in
            rw (ex, ep, e, room)
              (v1_backward-eq idx (suc q) k (omega arith) ip ck' (omega arith)
                ∙ ap some (omega arith))
      ]
