-- ===== src/Fzf/V1/Tight.antt =====
-- The tightest range that holds the pattern, and that the greedy search back from its end finds it.
use mathlib.Core.List.{reverse}
use plugged.Common.{
  Bool, Option, ap, arith, drop, length, length-take_le, none, refl, some, subst, suc, sym, take,
  take-length, ℕ, ◌+◌, ◌-◌, ◌<◌, ◌∙◌, ◌∷◌, ◌≡◌, ◌≤◌,
}
use plugged.Fzf.Chars.{Bytes}
use plugged.Fzf.Skip.First.{after, cut-first_where, cut_from, first_where}
use plugged.Fzf.Subseq.{Subseq, cut, pick}
use plugged.Fzf.Subseq.Greedy.{cut-least, cut-length, cut_complete, cut_sound}
use plugged.Fzf.Subseq.Mirror.{
  Subseq-reverse, Subseq-unreverse, drop-take, length-reverse, take-reverse,
}
use plugged.Fzf.V1.Back.{mirror}
use plugged.Fzf.V1.Scan.{first_where-drop}

-- The range `[s, e)` holds the pattern, no text before `e` does, and no later start up to `e` does.
pub record IsTightest (hit : ℕ → ℕ → Bool) (pattern text : Bytes) (s e : ℕ) : Type 0 where
  pub nonempty : s < e
  pub inside : e ≤ length text
  pub holds : Subseq hit pattern (take (e - s) (drop s text))
  pub earliest : (m : ℕ) → Subseq hit pattern (take m text) → e ≤ m
  pub latest : (r : ℕ) → r ≤ e → Subseq hit pattern (take (e - r) (drop r text)) → r ≤ s

-- What is left to search for after the first byte.
after-eq-some :
    (k : ℕ) (o : Option ℕ) {n : ℕ} → after k o ≡ some n → (m : ℕ) × (o ≡ some m) × (n ≡ suc k + m)
unfolding after
after-eq-some k none h = cc
after-eq-some k (some m) h = (m, refl, cc)

cut_from-eq-some :
    (hit : ℕ → ℕ → Bool) (ps xs : Bytes) (o : Option ℕ) {n : ℕ}
    → cut_from hit ps xs o ≡ some n
    → (k : ℕ) × (m : ℕ) × (o ≡ some k) × (cut hit ps (drop (suc k) xs) ≡ some m) × (n ≡ suc k + m)
unfolding cut_from
cut_from-eq-some hit ps xs none h = cc
cut_from-eq-some hit ps xs (some k) h =
    let (m, c, e) = after-eq-some k (cut hit ps (drop (suc k) xs)) h in (k, m, refl, c, e)

pub mirror-all : (n : ℕ) (xs : Bytes) → n ≡ length xs → mirror n xs ≡ reverse xs
mirror-all n xs h = rw h (ap reverse (take-length xs))

pub cut-cong :
    {hit hit' : ℕ → ℕ → Bool} {ps ps' xs xs' : Bytes} {o : Option ℕ}
    → hit' ≡ hit
    → ps' ≡ ps
    → xs' ≡ xs
    → cut hit ps xs ≡ o
    → cut hit' ps' xs' ≡ o
cut-cong h a b c = rw (h, a, b) c

module _ (hit : ℕ → ℕ → Bool) (p : ℕ) (ps text : Bytes) (e : ℕ)
    (c : cut hit (p ∷ ps) text ≡ some e) where
  -- The greedy search begins at the first place of the first byte.
  pub greedy_start :
      (k : ℕ) × (first_where (hit p) text ≡ some k)
      × (k < e)
      × Subseq hit (p ∷ ps) (take (e - k) (drop k text))
  greedy_start =
      let (k, m, f, c', n) =
        cut_from-eq-some hit ps text (first_where (hit p) text)
          (rw (cut-first_where hit p ps text) at c) in
      let (x, hx, d) = first_where-drop (hit p) text k f in
      let long : e - k ≡ suc m = omega arith in
      (k, f, omega arith, rw (d, long) (pick hx (cut_sound hit ps (drop (suc k) text) c').0))

  size_taken : length (take e text) ≡ e
  size_taken = length-take_le e text (cut_sound hit (p ∷ ps) text c).1

  mirror_tail :
      (k : ℕ) → take (e - k) (reverse (take e text)) ≡ reverse (take (e - k) (drop k text))
  mirror_tail k =
      ap (λ t. take (t - k) (reverse (take e text))) (sym size_taken)
      ∙ take-reverse k (take e text)
      ∙ ap reverse (drop-take k e text)

  tail_mirrored :
      (k : ℕ)
      → Subseq hit (p ∷ ps) (take (e - k) (drop k text))
      → Subseq hit (reverse (p ∷ ps)) (take (e - k) (reverse (take e text)))
  tail_mirrored k d = rw (mirror_tail k) (Subseq-reverse hit d)

  untail_mirrored :
      (n : ℕ)
      → n ≤ e
      → Subseq hit (reverse (p ∷ ps)) (take n (reverse (take e text)))
      → Subseq hit (p ∷ ps) (take (e - (e - n)) (drop (e - n) text))
  untail_mirrored n le d =
      let same : n ≡ e - (e - n) = omega arith in
      Subseq-unreverse hit (p ∷ ps) (take (e - (e - n)) (drop (e - n) text)) (
        rw (mirror_tail (e - n)) at
          (subst (λ t. Subseq hit (reverse (p ∷ ps)) (take t (reverse (take e text)))) same d))

  -- The mirrored search from the end of the greedy one: it stops `n` bytes before it.
  pub mirrored :
      (k : ℕ)
      → k < e
      → Subseq hit (p ∷ ps) (take (e - k) (drop k text))
      → (n : ℕ) × (cut hit (reverse (p ∷ ps)) (reverse (take e text)) ≡ some n)
        × (k + n ≤ e)
        × IsTightest hit (p ∷ ps) text (e - n) e
  mirrored k lt d =
      let (found, fits) = cut_sound hit (p ∷ ps) text c in
      let size : length (take e text) ≡ e = length-take_le e text fits in
      let (n, cn) =
        cut_complete hit (reverse (p ∷ ps)) (reverse (take e text)) (Subseq-reverse hit found) in
      let least =
        cut-least hit (reverse (p ∷ ps)) (reverse (take e text)) (e - k) cn (tail_mirrored k d) in
      let (taken, bound) = cut_sound hit (reverse (p ∷ ps)) (reverse (take e text)) cn in
      let long = cut-length hit (reverse (p ∷ ps)) (reverse (take e text)) cn in
      let inside : n ≤ e = omega (arith, length-reverse (take e text)) in
      let positive : 0 < n = omega (arith, length-reverse (p ∷ ps)) in
      (
        n,
        cn,
        omega arith,
        record {
          nonempty = omega arith;
          inside = fits;
          holds = untail_mirrored n inside taken;
          earliest = λ m h. cut-least hit (p ∷ ps) text m c h;
          latest = λ r le h.
              let l =
                cut-least hit (reverse (p ∷ ps)) (reverse (take e text)) (e - r) cn
                  (tail_mirrored r h) in
              omega arith;
        },
      )
