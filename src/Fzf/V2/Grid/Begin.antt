-- ===== src/Fzf/V2/Grid/Begin.antt =====
-- Where the loop of `fzf_fuzzy_match_v2` over the text starts, for a pattern of two bytes or more.
use mathlib.Core.Option.{some-injective}
use mathlib.Core.Path.{fun_ext}
use plugged.Common.{
  Bool, Bool-cases, Option, [], ap, arith, drop, inl, inr, length, min, none, pos, refl, some, suc,
  sym, zero, ℕ, ◌-◌, ◌<◌, ◌^◌, ◌∙◌, ◌∷◌, ◌≡◌, ◌≤◌,
}
use plugged.Fzf.Chars.{Bytes}
use plugged.Fzf.Fold.{IsFolded, cut-skip_hit, skip_hit-eq}
use plugged.Fzf.Score.Run.{fold_hit}
use plugged.Fzf.Skip.{ascii_fuzzy_index}
use plugged.Fzf.Skip.First.{cut-first_where, cut_from, first_where, first_where-lt}
use plugged.Fzf.Skip.Index.{ascii_fuzzy_index-eq}
use plugged.Fzf.Skip.Search.{skip_hit}
use plugged.Fzf.Slab.{Slab, alloc16, alloc32}
use plugged.Fzf.Subseq.{Subseq, cut}
use plugged.Fzf.Subseq.Greedy.{Subseq-miss, cut_complete, suc?-eq-some}
use plugged.Fzf.V2.{allocate, phase2_start}
use plugged.Fzf.V2.Grid.Scan.{Scanned}
use plugged.Fzf.V2.Start.{
  alloc16-length, alloc16-offset, alloc32-length, alloc32-offset, copy_runes-length,
  first_after-next,
}

-- The pattern is still found from a place on that is not after its first byte.
Subseq-drop_first :
    (hit : ℕ → ℕ → Bool) (p : ℕ) (ps xs : Bytes) (k i : ℕ)
    → first_where (hit p) xs ≡ some k
    → i ≤ k
    → Subseq hit (p ∷ ps) xs
    → Subseq hit (p ∷ ps) (drop i xs)
unfolding first_where
Subseq-drop_first hit p ps [] k i e le d = cc
Subseq-drop_first hit p ps (x ∷ xs) k zero e le d = d
Subseq-drop_first hit p ps (x ∷ xs) k (suc i) e le d = elim (Bool-cases (hit p x)) [
  | inl h ↦ let z : 0 ≡ k = some-injective _ _ (rw h at e) in absurd (omega (arith, z, le))
  | inr h ↦
      let (j, e', s) = suc?-eq-some (first_where (hit p) xs) (rw h at e) in
      Subseq-drop_first hit p ps xs j i e' (omega (arith, le, s)) (Subseq-miss hit h d)
]

module _ (case_sensitive normalize : Bool) (p0 : ℕ) (ps text : Bytes)
    (folded : IsFolded case_sensitive (p0 ∷ ps)) (small : length text < 2 ^ 31) where
  abbrev the_hit : ℕ → ℕ → Bool
  the_hit = fold_hit case_sensitive normalize

  -- The first test passes, and the pattern is still found from its index on.
  pub first_index :
      Subseq the_hit (p0 ∷ ps) text
      → (i : ℕ) × (ascii_fuzzy_index text (p0 ∷ ps) case_sensitive ≡ some (pos i))
        × (i ≤ length text)
        × Subseq the_hit (p0 ∷ ps) (drop i text)
  unfolding cut_from
  first_index d =
      let (n, c) = cut_complete the_hit (p0 ∷ ps) text d in
      go n (cut-skip_hit case_sensitive normalize (p0 ∷ ps) text folded ∙ c)
        (first_where (skip_hit case_sensitive p0) text) refl
    where
      same : skip_hit case_sensitive p0 ≡ the_hit p0
      same = fun_ext λ x. skip_hit-eq case_sensitive normalize p0 x folded.0

      from :
          (k i : ℕ)
          → first_where (skip_hit case_sensitive p0) text ≡ some k
          → i ≤ k
          → Subseq the_hit (p0 ∷ ps) (drop i text)
      from k i e le =
          Subseq-drop_first the_hit p0 ps text k i (ap (λ f. first_where f text) (sym same) ∙ e) le
            d

      go :
          (n : ℕ)
          → cut (skip_hit case_sensitive) (p0 ∷ ps) text ≡ some n
          → (o : Option ℕ) → first_where (skip_hit case_sensitive p0) text ≡ o
          → (i : ℕ) × (ascii_fuzzy_index text (p0 ∷ ps) case_sensitive ≡ some (pos i))
            × (i ≤ length text)
            × Subseq the_hit (p0 ∷ ps) (drop i text)
      go n c none e = cc (rw e at (sym (cut-first_where (skip_hit case_sensitive) p0 ps text) ∙ c))
      go n c (some zero) e =
          (0, rw (ascii_fuzzy_index-eq text case_sensitive small p0 ps, c, e) refl, omega arith, d)
      go n c (some (suc j)) e = (
        j,
        rw (ascii_fuzzy_index-eq text case_sensitive small p0 ps, c, e, first_after-next j) refl,
        omega (arith, first_where-lt (skip_hit case_sensitive p0) text (suc j) e),
        from (suc j) j e (omega arith),
      )

  -- The arrays are ready at the index of the first test.
  pub start_Scanned :
      (slab : Option Slab) (i : ℕ)
      → length (p0 ∷ ps) ≤ 1024
      → Subseq the_hit (p0 ∷ ps) (drop i text)
      → Scanned case_sensitive normalize
          (p0 ∷ ps)
          text
          i
          i
          (phase2_start (allocate slab text (length (p0 ∷ ps))) p0)
  unfolding allocate phase2_start
  start_Scanned slab i few rest =
      let n = length text in
      let m = length (p0 ∷ ps) in
      let o1 = alloc16-offset 0 slab n (omega arith) in
      let o2 = alloc16-offset (alloc16 0 slab n).1 slab n (omega arith) in
      let p1 = alloc32-offset 0 slab m (omega arith) in
      let t = (alloc32 (alloc32 0 slab m).1 slab n).0 in
      record {
        first = λ k. 0;
        marks = record {
          f_size = alloc32-length 0 slab m (omega arith);
          some_left = omega arith;
          looked = let start : min 0 (m - 1) ≡ 0 = omega arith in rw start refl;
          marked = λ k lt. absurd (omega (arith, lt));
          rising = λ k lt. absurd (omega (arith, lt));
          reach = λ k lt. absurd (omega (arith, lt));
          last_seen = λ h. absurd (omega (arith, h));
          rest = rest;
        };
        cells = record {
          h_size = alloc16-length 0 slab n (omega arith);
          c_size = alloc16-length (alloc16 0 slab n).1 slab n (omega arith);
          cells = λ a low below. absurd (omega (arith, low, below));
          left = 0;
          prev_is = refl;
          low = omega arith;
          left_of = inl refl;
        };
        reads = record {
          t_size =
              copy_runes-length text t.cells
              ∙ alloc32-length (alloc32 0 slab m).1 slab n (omega arith);
          bo_size = alloc16-length (alloc16 (alloc16 0 slab n).1 slab n).1 slab n (omega arith);
          every = λ a low below. absurd (omega (arith, low, below));
        };
        none_yet = refl;
      }
