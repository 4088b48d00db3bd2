-- ===== src/Fzf/Subseq/Greedy.antt =====
-- The greedy search finds the shortest prefix that holds the pattern, and fails only if none does.
use native.Mathlib.Nat.{zero-add, suc-add}
use mathlib.Core.Option.{some-injective}
use plugged.Common.{
  Bool, Bool-cases, Option, [], ap, arith, drop, false, inl, inr, length, length-take, none, refl,
  some, suc, sym, take, take-take_le, zero, ℕ, ◌+◌, ◌-◌, ◌∙◌, ◌∷◌, ◌≡◌, ◌≤◌,
}
use plugged.Fzf.Chars.{Bytes}
use plugged.Fzf.Subseq.{Subseq, cut, done, pick, skip, suc?}

pub suc?-eq-some : (o : Option ℕ) {n : ℕ} → suc? o ≡ some n → (k : ℕ) × (o ≡ some k) × (n ≡ suc k)
suc?-eq-some none h = cc
suc?-eq-some (some k) h = (k, refl, cc)

module _ (hit : ℕ → ℕ → Bool) where
  pub Subseq-weaken : {p : ℕ} {ps xs : Bytes} → Subseq hit (p ∷ ps) xs → Subseq hit ps xs
  Subseq-weaken (pick h d) = skip d
  Subseq-weaken (skip d) = skip (Subseq-weaken d)

  pub Subseq-tail : {p x : ℕ} {ps xs : Bytes} → Subseq hit (p ∷ ps) (x ∷ xs) → Subseq hit ps xs
  Subseq-tail (pick h d) = d
  Subseq-tail (skip d) = Subseq-weaken d

  pub Subseq-miss :
      {p x : ℕ} {ps xs : Bytes}
      → hit p x ≡ false
      → Subseq hit (p ∷ ps) (x ∷ xs)
      → Subseq hit (p ∷ ps) xs
  Subseq-miss e (pick h d) = cc
  Subseq-miss e (skip d) = d

  pub cut_complete : (ps xs : Bytes) → Subseq hit ps xs → (n : ℕ) × (cut hit ps xs ≡ some n)
  unfolding cut
  cut_complete [] xs d = (0, refl)
  cut_complete (p ∷ ps) [] d = elim d [ ]
  cut_complete (p ∷ ps) (x ∷ xs) d = elim (Bool-cases (hit p x)) [
    | inl h ↦ let (n, e) = cut_complete ps xs (Subseq-tail d) in (suc n, rw (h, e))
    | inr h ↦ let (n, e) = cut_complete (p ∷ ps) xs (Subseq-miss h d) in (suc n, rw (h, e))
  ]

  pub cut_sound :
      (ps xs : Bytes) {n : ℕ} → cut hit ps xs ≡ some n → Subseq hit ps (take n xs) × (n ≤ length xs)
  unfolding cut
  cut_sound [] xs {n} e = let z : 0 ≡ n = cc in (done, omega arith)
  cut_sound (p ∷ ps) [] e = cc
  cut_sound (p ∷ ps) (x ∷ xs) {n} e = elim (Bool-cases (hit p x)) [
    | inl h ↦
        let (k, e', s) = suc?-eq-some (cut hit ps xs) (rw h at e) in
        let (d, l) = cut_sound ps xs e' in rw s (pick h d, omega arith)
    | inr h ↦
        let (k, e', s) = suc?-eq-some (cut hit (p ∷ ps) xs) (rw h at e) in
        let (d, l) = cut_sound (p ∷ ps) xs e' in rw s (skip d, omega arith)
  ]

  -- A longer text does not change what is cut.
  pub cut-take :
      (ps xs : Bytes) (m : ℕ) {n : ℕ} → cut hit ps (take m xs) ≡ some n → cut hit ps xs ≡ some n
  unfolding cut
  cut-take [] xs m e = e
  cut-take (p ∷ ps) xs zero e = cc
  cut-take (p ∷ ps) [] (suc m) e = cc
  cut-take (p ∷ ps) (x ∷ xs) (suc m) e = elim (Bool-cases (hit p x)) [
    | inl h ↦
        let (k, e', s) = suc?-eq-some (cut hit ps (take m xs)) (rw h at e) in
        rw (h, cut-take ps xs m e') (ap some (sym s))
    | inr h ↦
        let (k, e', s) = suc?-eq-some (cut hit (p ∷ ps) (take m xs)) (rw h at e) in
        rw (h, cut-take (p ∷ ps) xs m e') (ap some (sym s))
  ]

  pub cut-least :
      (ps xs : Bytes) (m : ℕ) {n : ℕ} → cut hit ps xs ≡ some n → Subseq hit ps (take m xs) → n ≤ m
  cut-least ps xs m {n} e d =
      let (k, f) = cut_complete ps (take m xs) d in
      let bound = (cut_sound ps (take m xs) f).1 in
      let same : n ≡ k = some-injective _ _ (sym e ∙ cut-take ps xs m f) in
      omega (arith, length-take m xs)

  Subseq-take-drop :
      (s : ℕ) (ps xs : Bytes) (k : ℕ)
      → Subseq hit ps (take k (drop s xs))
      → Subseq hit ps (take (s + k) xs)
  Subseq-take-drop zero ps xs k d = rw zero-add d
  Subseq-take-drop (suc s) ps [] zero done = done
  Subseq-take-drop (suc s) ps [] (suc k) done = done
  Subseq-take-drop (suc s) ps (x ∷ xs) k d = rw suc-add (skip (Subseq-take-drop s ps xs k d))

  -- Where the cut ends, every start from which the pattern is still found cuts up to the same end.
  pub cut_tail :
      (ps xs : Bytes) (s e : ℕ)
      → cut hit ps xs ≡ some e
      → s ≤ e
      → Subseq hit ps (take (e - s) (drop s xs))
      → cut hit ps (take (e - s) (drop s xs)) ≡ some (e - s)
  cut_tail ps xs s e c h d =
      let (k, f) = cut_complete ps (take (e - s) (drop s xs)) d in
      let (found, bound) = cut_sound ps (take (e - s) (drop s xs)) f in
      let inside : k ≤ e - s = omega (arith, length-take (e - s) (drop s xs)) in
      let shorter : Subseq hit ps (take k (drop s xs)) =
        rw (take-take_le k (e - s) (drop s xs) inside) at found in
      let least = cut-least ps xs (s + k) c (Subseq-take-drop s ps xs k shorter) in
      let same : k ≡ e - s = omega arith in f ∙ ap some same

  -- The search takes at least as many bytes as the pattern has.
  pub cut-length : (ps xs : Bytes) {n : ℕ} → cut hit ps xs ≡ some n → length ps ≤ n
  unfolding cut
  cut-length [] xs e = omega arith
  cut-length (p ∷ ps) [] e = cc
  cut-length (p ∷ ps) (x ∷ xs) {n} e = elim (Bool-cases (hit p x)) [
    | inl h ↦
        let (k, e', s) = suc?-eq-some (cut hit ps xs) (rw h at e) in
        omega (arith, cut-length ps xs e')
    | inr h ↦
        let (k, e', s) = suc?-eq-some (cut hit (p ∷ ps) xs) (rw h at e) in
        omega (arith, cut-length (p ∷ ps) xs e')
  ]
