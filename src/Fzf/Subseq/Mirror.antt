-- ===== src/Fzf/Subseq/Mirror.antt =====
-- Reading the pattern and the text from their ends: what the backward loop searches.
use mathlib.Core.List.{reverse, reverse-cons, reverse-reverse, append-nil, reverse-append}
use plugged.Common.{
  Bool, [], ap, arith, drop, length, length-append, length-drop, refl, suc, sym, take,
  take-append-drop, zero, ℕ, ◌++◌, ◌-◌, ◌∙◌, ◌∷◌, ◌≡◌,
}
use plugged.Fzf.Chars.{Bytes}
use plugged.Fzf.Subseq.{Subseq, done, pick, skip}

module _ (hit : ℕ → ℕ → Bool) where
  Subseq-append :
      {ps xs qs ys : Bytes} → Subseq hit ps xs → Subseq hit qs ys → Subseq hit (ps ++ qs) (xs ++ ys)
  Subseq-append {xs} done e = Subseq-prefix xs e
    where
      Subseq-prefix : {qs ys : Bytes} (xs : Bytes) → Subseq hit qs ys → Subseq hit qs (xs ++ ys)
      Subseq-prefix [] e = e
      Subseq-prefix (x ∷ xs) e = skip (Subseq-prefix xs e)
  Subseq-append (pick h d) e = pick h (Subseq-append d e)
  Subseq-append (skip d) e = skip (Subseq-append d e)

  -- What a prefix holds the text holds.
  pub Subseq-of_take : (n : ℕ) (ps xs : Bytes) → Subseq hit ps (take n xs) → Subseq hit ps xs
  Subseq-of_take n ps xs d =
      rw (append-nil ps, take-append-drop n xs) at (Subseq-append {qs = []} {ys = drop n xs} d done)

  pub Subseq-reverse : {ps xs : Bytes} → Subseq hit ps xs → Subseq hit (reverse ps) (reverse xs)
  Subseq-reverse done = done
  Subseq-reverse (pick {p} {x} {ps} {xs} h d) =
      rw (reverse-cons p ps, reverse-cons x xs) (Subseq-append (Subseq-reverse d) (pick h done))
  Subseq-reverse (skip {x} {ps} {xs} d) =
      rw (reverse-cons x xs)
        (rw (append-nil (reverse ps)) at (Subseq-append (Subseq-reverse d) (done {xs = x ∷ []})))

  pub Subseq-unreverse : (ps xs : Bytes) → Subseq hit (reverse ps) (reverse xs) → Subseq hit ps xs
  Subseq-unreverse ps xs d = rw (reverse-reverse ps, reverse-reverse xs) at (Subseq-reverse d)

pub length-reverse : (xs : Bytes) → length (reverse xs) ≡ length xs
length-reverse [] = refl
length-reverse (x ∷ xs) =
    rw (reverse-cons x xs) (omega (arith, length-append (reverse xs) (x ∷ []), length-reverse xs))

take-append : (xs ys : Bytes) → take (length xs) (xs ++ ys) ≡ xs
take-append [] ys = refl
take-append (x ∷ xs) ys = ap (λ t. x ∷ t) (take-append xs ys)

-- The first bytes of a mirrored text are its last bytes, mirrored.
pub take-reverse : (k : ℕ) (xs : Bytes) → take (length xs - k) (reverse xs) ≡ reverse (drop k xs)
take-reverse k xs =
    let parts : reverse xs ≡ reverse (drop k xs) ++ reverse (take k xs) =
      ap reverse (sym (take-append-drop k xs)) ∙ reverse-append (take k xs) (drop k xs) in
    let size : length xs - k ≡ length (reverse (drop k xs)) =
      omega (arith, length-reverse (drop k xs), length-drop k xs) in
    rw (parts, size) (take-append (reverse (drop k xs)) (reverse (take k xs)))

take-nil : (n : ℕ) → take {A = ℕ} n [] ≡ []
take-nil zero = refl
take-nil (suc n) = refl

pub drop-take : (s e : ℕ) (xs : Bytes) → drop s (take e xs) ≡ take (e - s) (drop s xs)
drop-take zero e xs = let same : e ≡ e - 0 = omega arith in ap (λ t. take t xs) same
drop-take (suc s) zero xs =
    let none_left : 0 ≡ 0 - suc s = omega arith in ap (λ t. take t (drop (suc s) xs)) none_left
drop-take (suc s) (suc e) [] = sym (take-nil (suc e - suc s))
drop-take (suc s) (suc e) (x ∷ xs) =
    let same : e - s ≡ suc e - suc s = omega arith in
    drop-take s e xs ∙ ap (λ t. take t (drop s xs)) same
