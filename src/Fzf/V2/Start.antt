-- ===== src/Fzf/V2/Start.antt =====
-- Where the loop of `fzf_fuzzy_match_v2` over the text starts, for a pattern of one byte.
use mathlib.Core.Option.{some-injective}
use plugged.Common.{
  Bool, Bool-cases, List, Option, [], add_size, ap, arith, drop, false, get_elem?, inl, inr, length,
  ltb, none, pos, refl, some, suc, sym, true, zero, ℕ, ℤ, ◌*◌, ◌+◌, ◌-ℤ◌, ◌<◌, ◌^◌, ◌∙◌, ◌∷◌, ◌≡◌,
  ◌≤◌, ◌⊎◌,
}
use plugged.Fzf.Affix.Compare.{drop-of_lt}
use plugged.Fzf.Chars.{Bytes, bonus_at, bonus_for, char_class_of_ascii, non_word}
use plugged.Fzf.Exact.Best.{occurs}
use plugged.Fzf.Fold.{IsFolded, cut-skip_hit, skip_hit-eq}
use plugged.Fzf.Score.Run.{fold_hit}
use plugged.Fzf.Skip.{ascii_fuzzy_index}
use plugged.Fzf.Skip.First.{cut-first_where, cut_from, first_where, first_where-lt}
use plugged.Fzf.Skip.Index.{ascii_fuzzy_index-eq, first_after}
use plugged.Fzf.Skip.Search.{skip_hit}
use plugged.Fzf.Slab.{Slab, alloc, alloc16, alloc32}
use plugged.Fzf.Slab.Apart.{alloc_all-Apart}
use plugged.Fzf.Subseq.{cut}
use plugged.Fzf.Subseq.Greedy.{suc?-eq-some}
use plugged.Fzf.V2.{allocate, phase2_start}
use plugged.Fzf.V2.Memory.{copy_runes}
use plugged.Fzf.V2.Single.{Ready, Seen, occurs-hit}

-- Before the first byte found there is no other.
first_where-before :
    (f : ℕ → Bool) (xs : Bytes) (k a x : ℕ) (ys : Bytes)
    → first_where f xs ≡ some k
    → a < k
    → drop a xs ≡ x ∷ ys
    → f x ≡ false
unfolding first_where
first_where-before f [] k a x ys e lt d = cc
first_where-before f (y ∷ xs) k zero x ys e lt d = elim (Bool-cases (f y)) [
  | inl h ↦ let z : 0 ≡ k = some-injective _ _ (rw h at e) in absurd (omega (arith, lt))
  | inr h ↦ let same : y ≡ x = cc in rw same at h
]
first_where-before f (y ∷ xs) k (suc a) x ys e lt d = elim (Bool-cases (f y)) [
  | inl h ↦ let z : 0 ≡ k = some-injective _ _ (rw h at e) in absurd (omega (arith, lt))
  | inr h ↦
      let (j, e', s) = suc?-eq-some (first_where f xs) (rw h at e) in
      first_where-before f xs j a x ys e' (omega (arith, lt, s)) d
]

alloc-length :
    (offset : ℕ) (memory : Option (List ℤ)) (size : ℕ)
    → offset + size < 2 ^ 62
    → length (alloc offset memory size).0.cells ≡ size
alloc-length offset memory size small =
    (alloc_all-Apart memory (size ∷ []) offset (omega (arith, small))).0

-- The offset grows at most by the size.
alloc-offset :
    (offset : ℕ) (memory : Option (List ℤ)) (size : ℕ)
    → offset + size < 2 ^ 62
    → (alloc offset memory size).1 ≤ offset + size
unfolding alloc
alloc-offset offset none size small = omega arith
alloc-offset offset (some cells) size small =
    elim (Bool-cases (ltb (add_size offset size) (length cells))) [
      | inl e ↦ rw e (omega (arith, small))
      | inr e ↦ rw e (omega arith)
    ]

pub copy_runes-length :
    (text : Bytes) (cells : List ℤ) → length (copy_runes text cells) ≡ length cells
unfolding copy_runes
copy_runes-length [] cells = refl
copy_runes-length (c ∷ xs) [] = refl
copy_runes-length (c ∷ xs) (v ∷ cells) = ap suc (copy_runes-length xs cells)

pub drop-of_get :
    (i : ℕ) (xs : Bytes) (c : ℕ) → get_elem? xs i ≡ some c → drop i xs ≡ c ∷ drop (suc i) xs
drop-of_get i [] c e = cc
drop-of_get zero (x ∷ xs) c e = cc
drop-of_get (suc i) (x ∷ xs) c e = drop-of_get i xs c e

pub alloc16-length :
    (offset : ℕ) (slab : Option Slab) (size : ℕ)
    → offset + size < 2 ^ 62
    → length (alloc16 offset slab size).0.cells ≡ size
unfolding alloc16
alloc16-length offset slab size small = alloc-length offset _ size small

pub alloc16-offset :
    (offset : ℕ) (slab : Option Slab) (size : ℕ)
    → offset + size < 2 ^ 62
    → (alloc16 offset slab size).1 ≤ offset + size
unfolding alloc16
alloc16-offset offset slab size small = alloc-offset offset _ size small

pub alloc32-length :
    (offset : ℕ) (slab : Option Slab) (size : ℕ)
    → offset + size < 2 ^ 62
    → length (alloc32 offset slab size).0.cells ≡ size
unfolding alloc32
alloc32-length offset slab size small = alloc-length offset _ size small

pub alloc32-offset :
    (offset : ℕ) (slab : Option Slab) (size : ℕ)
    → offset + size < 2 ^ 62
    → (alloc32 offset slab size).1 ≤ offset + size
unfolding alloc32
alloc32-offset offset slab size small = alloc-offset offset _ size small

pub first_after-next : (j : ℕ) → first_after 0 (pos 0) 0 (some (suc j)) ≡ pos j
unfolding ◌-ℤ◌
first_after-next j = ground arith

module _ (case_sensitive normalize : Bool) (p : ℕ) (text : Bytes)
    (folded : IsFolded case_sensitive (p ∷ [])) (small : length text < 2 ^ 31) where
  abbrev one_hit : ℕ → ℕ → Bool
  one_hit = fold_hit case_sensitive normalize

  no_hit :
      (k a : ℕ)
      → first_where (skip_hit case_sensitive p) text ≡ some k
      → a < k
      → occurs one_hit (p ∷ []) text a ≡ false
  no_hit k a e lt =
      let bound = first_where-lt (skip_hit case_sensitive p) text k e in
      let (x, d) = drop-of_lt a text (omega (arith, bound)) in
      occurs-hit case_sensitive normalize p text a x (drop (suc a) text) d
      ∙ sym (skip_hit-eq case_sensitive normalize p x folded.0)
      ∙ first_where-before (skip_hit case_sensitive p) text k a x (drop (suc a) text) e lt d

  -- The first test passes, and no match stands before its index, nor at it if it is not 0.
  pub single_index :
      {n : ℕ}
      → cut one_hit (p ∷ []) text ≡ some n
      → (i : ℕ) × (ascii_fuzzy_index text (p ∷ []) case_sensitive ≡ some (pos i))
        × (i ≤ length text)
        × ((a : ℕ) → a < i → occurs one_hit (p ∷ []) text a ≡ false)
        × ((i ≡ 0) ⊎ (occurs one_hit (p ∷ []) text i ≡ false))
  unfolding cut_from
  single_index {n} c = go (first_where (skip_hit case_sensitive p) text) refl
    where
      c' : cut (skip_hit case_sensitive) (p ∷ []) text ≡ some n
      c' = cut-skip_hit case_sensitive normalize (p ∷ []) text folded ∙ c

      go :
          (o : Option ℕ)
          → first_where (skip_hit case_sensitive p) text ≡ o
          → (i : ℕ) × (ascii_fuzzy_index text (p ∷ []) case_sensitive ≡ some (pos i))
            × (i ≤ length text)
            × ((a : ℕ) → a < i → occurs one_hit (p ∷ []) text a ≡ false)
            × ((i ≡ 0) ⊎ (occurs one_hit (p ∷ []) text i ≡ false))
      go none e = cc (rw e at (sym (cut-first_where (skip_hit case_sensitive) p [] text) ∙ c'))
      go (some zero) e = (
        0,
        rw (ascii_fuzzy_index-eq text case_sensitive small p [], c', e) refl,
        omega arith,
        (λ a lt. absurd (omega (arith, lt))),
        inl refl,
      )
      go (some (suc j)) e = (
        j,
        rw (ascii_fuzzy_index-eq text case_sensitive small p [], c', e, first_after-next j) refl,
        omega (arith, first_where-lt (skip_hit case_sensitive p) text (suc j) e),
        (λ a lt. no_hit (suc j) a e (omega (arith, lt))),
        inr (no_hit (suc j) j e (omega arith)),
      )

  class_at_start :
      (c : ℕ)
      → get_elem? text 0 ≡ some c
      → bonus_at text 0 ≡ some (bonus_for non_word (char_class_of_ascii c))
  unfolding bonus_at bonus_for
  class_at_start c e = ground arith

  start_classed :
      (i : ℕ)
      → ((i ≡ 0) ⊎ (occurs one_hit (p ∷ []) text i ≡ false))
      → (c : ℕ) → get_elem? text i ≡ some c
      → one_hit p c ≡ true
      → bonus_at text i ≡ some (bonus_for non_word (char_class_of_ascii c))
  start_classed i (inl zero_start) c e here = rw zero_start (class_at_start c (rw zero_start at e))
  start_classed i (inr missed) c e here =
      let same =
        occurs-hit case_sensitive normalize p text i c (drop (suc i) text)
          (drop-of_get i text c e) in
      cc

  -- The arrays are ready at the index of the first test.
  pub start_Ready :
      (slab : Option Slab) (i : ℕ)
      → ((i ≡ 0) ⊎ (occurs one_hit (p ∷ []) text i ≡ false))
      → Ready case_sensitive normalize p text i (phase2_start (allocate slab text 1) p)
  unfolding allocate phase2_start
  start_Ready slab i h =
      let n = length text in
      let o1 = alloc16-offset 0 slab n (omega arith) in
      let o2 = alloc16-offset (alloc16 0 slab n).1 slab n (omega arith) in
      let p1 = alloc32-offset 0 slab 1 (omega arith) in
      record {
        h0_room = omega (arith, alloc16-length 0 slab (length text) (omega arith));
        c0_room = omega (
          arith,
          alloc16-length (alloc16 0 slab (length text)).1 slab (length text) (omega arith),
        );
        bo_room = omega (
          arith,
          alloc16-length (alloc16 (alloc16 0 slab (length text)).1 slab (length text)).1 slab
              (length text) (omega arith),
        );
        t_room =
            let t = (alloc32 (alloc32 0 slab 1).1 slab (length text)).0 in
            omega (
              arith,
              copy_runes-length text t.cells,
              alloc32-length (alloc32 0 slab 1).1 slab (length text) (omega arith),
            );
        f_room = omega (arith, alloc32-length 0 slab 1 (omega arith));
        looked = refl;
        classed = λ c e here. start_classed i h c e here;
      }

  pub start_Seen :
      (slab : Option Slab) (i : ℕ)
      → ((a : ℕ) → a < i → occurs one_hit (p ∷ []) text a ≡ false)
      → Seen case_sensitive normalize p text i (phase2_start (allocate slab text 1) p)
  unfolding phase2_start
  start_Seen slab i never = inl (refl, refl, inl (refl, refl, never))

-- The offset after the arrays of 16 bits.
pub allocate-offset16 :
    (slab : Option Slab) (text : Bytes) (m : ℕ)
    → length text < 2 ^ 31
    → (allocate slab text m).offset16 ≤ 3 * 2 ^ 31
unfolding allocate
allocate-offset16 slab text m small =
    let n = length text in
    let o1 = alloc16-offset 0 slab n (omega arith) in
    let o2 = alloc16-offset (alloc16 0 slab n).1 slab n (omega arith) in
    let o3 = alloc16-offset (alloc16 (alloc16 0 slab n).1 slab n).1 slab n (omega arith) in
    omega arith
