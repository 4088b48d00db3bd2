-- ===== src/Fzf/Skip/First.antt =====
-- The first index at which a test holds, and `index_byte` and `try_skip` in terms of it.
use mathlib.Core.Option.{some-injective}
use plugged.Common.{
  Bool, Bool-cases, Option, [], ap, arith, drop, false, if◌then◌else◌, inl, inr, length, none, refl,
  some, suc, take, to_i32, true, ℕ, ℤ, ◌+◌, ◌<◌, ◌==◌, ◌||◌, ◌∷◌, ◌≡◌,
}
use plugged.Fzf.Chars.{Bytes}
use plugged.Fzf.Skip.{index_byte, index_loop, minus_one}
use plugged.Fzf.Subseq.{cut, suc?}
use plugged.Fzf.Subseq.Greedy.{suc?-eq-some}

unfoldable pub first_where : (ℕ → Bool) → Bytes → Option ℕ
first_where p [] = none
first_where p (x ∷ xs) = if p x then some 0 else suc? (first_where p xs)

pub first_where-lt : (p : ℕ → Bool) (xs : Bytes) (k : ℕ) → first_where p xs ≡ some k → k < length xs
unfolding first_where
first_where-lt p [] k h = cc
first_where-lt p (x ∷ xs) k h = elim (Bool-cases (p x)) [
  | inl e ↦ let z : 0 ≡ k = some-injective _ _ (rw e at h) in omega arith
  | inr e ↦
      let (j, f, s) = suc?-eq-some (first_where p xs) (rw e at h) in
      omega (arith, first_where-lt p xs j f)
]

-- The cut by a pattern: the first byte is found, and the rest is cut after it.
unfoldable pub after : ℕ → Option ℕ → Option ℕ
after k none = none
after k (some n) = some (suc k + n)

unfoldable pub cut_from : (ℕ → ℕ → Bool) → Bytes → Bytes → Option ℕ → Option ℕ
cut_from hit ps xs none = none
cut_from hit ps xs (some k) = after k (cut hit ps (drop (suc k) xs))

suc?-after_zero : (o : Option ℕ) → suc? o ≡ after 0 o
unfolding after
suc?-after_zero none = refl
suc?-after_zero (some n) = ap some (omega arith)

suc?-after : (k : ℕ) (o : Option ℕ) → suc? (after k o) ≡ after (suc k) o
unfolding after
suc?-after k none = refl
suc?-after k (some n) = ap some (omega arith)

suc?-cut_from :
    (hit : ℕ → ℕ → Bool) (ps xs : Bytes) (x : ℕ) (o : Option ℕ)
    → suc? (cut_from hit ps xs o) ≡ cut_from hit ps (x ∷ xs) (suc? o)
unfolding cut_from
suc?-cut_from hit ps xs x none = refl
suc?-cut_from hit ps xs x (some k) = suc?-after k (cut hit ps (drop (suc k) xs))

pub cut-first_where :
    (hit : ℕ → ℕ → Bool) (b : ℕ) (ps xs : Bytes)
    → cut hit (b ∷ ps) xs ≡ cut_from hit ps xs (first_where (hit b) xs)
unfolding cut first_where cut_from
cut-first_where hit b ps [] = refl
cut-first_where hit b ps (x ∷ xs) = elim (Bool-cases (hit b x)) [
  | inl e ↦ rw e (suc?-after_zero (cut hit ps xs))
  | inr e ↦ rw (e, cut-first_where hit b ps xs) (suc?-cut_from hit ps xs x (first_where (hit b) xs))
]

-- The earlier of two searches: the second one looks only before what the first one found.
unfoldable pub sooner : Option ℕ → Option ℕ → Option ℕ
sooner d none = d
sooner d (some j) = some j

unfoldable pub earlier : (ℕ → Bool) → Bytes → Option ℕ → Option ℕ
earlier q xs none = first_where q xs
earlier q xs (some k) = sooner (some k) (first_where q (take k xs))

suc?-sooner : (d o : Option ℕ) → suc? (sooner d o) ≡ sooner (suc? d) (suc? o)
unfolding sooner
suc?-sooner d none = refl
suc?-sooner d (some j) = refl

earlier_here :
    (q : ℕ → Bool) (x : ℕ) (xs : Bytes) (o : Option ℕ)
    → q x ≡ true
    → some 0 ≡ earlier q (x ∷ xs) (suc? o)
unfolding first_where earlier sooner
earlier_here q x xs none e = rw e
earlier_here q x xs (some k) e = rw e

suc?-earlier :
    (q : ℕ → Bool) (x : ℕ) (xs : Bytes) (o : Option ℕ)
    → q x ≡ false
    → suc? (earlier q xs o) ≡ earlier q (x ∷ xs) (suc? o)
unfolding first_where earlier
suc?-earlier q x xs none e = rw e
suc?-earlier q x xs (some k) e = rw (e, suc?-sooner (some k) (first_where q (take k xs)))

pub first_where-or :
    (p q : ℕ → Bool) (xs : Bytes)
    → first_where (λ x. p x || q x) xs ≡ earlier q xs (first_where p xs)
unfolding first_where earlier sooner
first_where-or p q [] = refl
first_where-or p q (x ∷ xs) = elim (Bool-cases (p x)) [
  | inl e ↦ rw e
  | inr e ↦ elim (Bool-cases (q x)) [
    | inl f ↦ rw (e, f) (earlier_here q x xs (first_where p xs) f)
    | inr f ↦ rw (e, f, first_where-or p q xs) (suc?-earlier q x xs (first_where p xs) f)
  ]
]

abbrev pub index_of : ℕ → Option ℕ → ℤ
index_of i none = minus_one
index_of i (some k) = to_i32 (i + k)

index_of-suc? : (i : ℕ) (o : Option ℕ) → index_of (i + 1) o ≡ index_of i (suc? o)
index_of-suc? i none = refl
index_of-suc? i (some k) = ap to_i32 (omega arith)

index_loop-eq :
    (xs : Bytes) (i b : ℕ) → index_loop xs i b ≡ index_of i (first_where (λ c. c == b) xs)
unfolding index_loop first_where
index_loop-eq [] i b = refl
index_loop-eq (c ∷ xs) i b = elim (Bool-cases (c == b)) [
  | inl e ↦ rw e (ap to_i32 (omega arith))
  | inr e ↦ rw (e, index_loop-eq xs (i + 1) b) (index_of-suc? i (first_where (λ c. c == b) xs))
]

-- `index_byte` finds the first place of the byte.
pub index_byte-eq :
    (xs : Bytes) (b : ℕ) → index_byte xs b ≡ index_of 0 (first_where (λ c. c == b) xs)
unfolding index_byte
index_byte-eq xs b = index_loop-eq xs 0 b
