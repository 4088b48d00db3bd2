-- ===== src/Fzf/Skip/Search.antt =====
-- `try_skip` finds the next byte that it accepts.
use native.Mathlib.Nat.{zero-add}
use plugged.Common.{
  +ℤ-pos, Bool, Option, [], ap, arith, drop, eqb_ℤ, eqb_ℤ-suc, false, if◌then◌else◌, length,
  length-drop, length-take, ltb_ℤ, ltb_ℤ-neg, ltb_ℤ-pos, none, not, pos, refl, slice?, slice?_in,
  some, suc, take, take-length, to_i32_of_lt, to_size, to_size_of_lt, true, zero, ℕ, ℤ, ◌&&◌, ◌+ℤ◌,
  ◌+◌, ◌-◌, ◌<◌, ◌==◌, ◌^◌, ◌||◌, ◌∷◌, ◌≡◌, ◌≤◌,
}
use plugged.Fzf.Chars.{Bytes}
use plugged.Fzf.Skip.{is_lower_byte, minus_one, try_skip, upper_index}
use plugged.Fzf.Skip.First.{
  earlier, first_where, first_where-lt, first_where-or, index_byte-eq, index_of, sooner,
}

abbrev pub skips_case : Bool → ℕ → Bool
skips_case case_sensitive b = not case_sensitive && is_lower_byte b

-- The bytes that `try_skip` accepts for `b`.
abbrev pub skip_hit : Bool → ℕ → ℕ → Bool
skip_hit case_sensitive b c = (c == b) || (skips_case case_sensitive b && (c == b - 32))

abbrev pub found_at : ℕ → Option ℕ → ℤ
found_at n none = minus_one
found_at n (some k) = pos (n + k)

index_of_small : (k : ℕ) → k < 2 ^ 31 → index_of 0 (some k) ≡ pos k
index_of_small k h = rw zero-add (to_i32_of_lt k h)

first_where-false : (xs : Bytes) → first_where (λ _. false) xs ≡ none
unfolding first_where
first_where-false [] = refl
first_where-false (x ∷ xs) = rw (first_where-false xs)

-- What `try_skip` computes from the index of the letter, `o`, and that of its upper case.
keep_index : ℤ → ℤ → ℤ
keep_index idx uidx = if ltb_ℤ uidx (pos 0) then idx else uidx

keep_index-none :
    (o : Option ℕ) (xs : Bytes)
    → length xs < 2 ^ 31
    → ((k : ℕ) → o ≡ some k → k < length xs)
    → keep_index minus_one (index_of 0 o) ≡ found_at 0 o
unfolding keep_index
keep_index-none none xs small h = refl
keep_index-none (some k) xs small h = rw (index_of_small k (omega (arith, h k refl))) (ground arith)

keep_index-some :
    (j : ℕ) (o : Option ℕ) (xs : Bytes)
    → length xs < 2 ^ 31
    → ((k : ℕ) → o ≡ some k → k < length xs)
    → keep_index (pos j) (index_of 0 o) ≡ found_at 0 (sooner (some j) o)
unfolding keep_index sooner
keep_index-some j none xs small h = ground arith
keep_index-some j (some k) xs small h =
    rw (index_of_small k (omega (arith, h k refl))) (ground arith)

upper_index-none :
    (bytes : Bytes) (b : ℕ)
    → length bytes < 2 ^ 31
    → upper_index bytes b minus_one ≡ found_at 0 (first_where (λ c. c == b - 32) bytes)
unfolding upper_index
upper_index-none bytes b small = rw (index_byte-eq bytes (b - 32)) (
    unfold keep_index in
    keep_index-none (first_where (λ c. c == b - 32) bytes) bytes small
      (λ k. first_where-lt _ bytes k))

upper_index-some :
    (bytes : Bytes) (b j : ℕ)
    → length bytes < 2 ^ 31
    → suc j < length bytes
    → upper_index bytes b (pos (suc j))
      ≡ found_at 0 (sooner (some (suc j)) (first_where (λ c. c == b - 32) (take (suc j) bytes)))
unfolding upper_index
upper_index-some bytes b j small h =
    rw
      (
        ltb_ℤ-pos j,
        to_size_of_lt (suc j) (omega arith),
        index_byte-eq (take (suc j) bytes) (b - 32),
      )
      (unfold keep_index in
        keep_index-some (suc j) (first_where (λ c. c == b - 32) (take (suc j) bytes)) bytes small
          (λ k e.
            omega (arith, first_where-lt _ (take (suc j) bytes) k e, length-take (suc j) bytes)))

-- The bytes that remain from `from`, read without a fault.
rest_slice :
    (input : Bytes) (n : ℕ)
    → length input < 2 ^ 31
    → n ≤ length input
    → slice? input (to_size (pos n)) (length input) ≡ some (drop n input)
rest_slice input n small h =
    rw (to_size_of_lt n (omega arith), slice?_in input n (length input) h (omega arith))
      (ap some (rw (← length-drop n input) (take-length (drop n input))))

earlier-false : (xs : Bytes) (o : Option ℕ) → earlier (λ _. false) xs o ≡ o
unfolding earlier sooner
earlier-false xs none = first_where-false xs
earlier-false xs (some k) = rw (first_where-false (take k xs))

-- The test for the letter, joined by that for its upper case where case does not count.
first_where-skip_hit :
    (case_sensitive : Bool) (b : ℕ) (xs : Bytes)
    → first_where (skip_hit case_sensitive b) xs
      ≡ earlier
          (λ c. skips_case case_sensitive b && (c == b - 32))
          xs
          (first_where (λ c. c == b) xs)
first_where-skip_hit case_sensitive b xs =
    first_where-or (λ c. c == b) (λ c. skips_case case_sensitive b && (c == b - 32)) xs

-- `try_skip` past its slice, by the index of the letter itself.
skip_from : Bool → ℕ → ℕ → Bytes → ℤ → Option ℤ
skip_from flag b n bytes idx =
    let idx' = if flag then upper_index bytes b idx else idx in
    if eqb_ℤ idx (pos 0)
    then some (pos n)
    else if ltb_ℤ idx' (pos 0)
    then some minus_one
    else some (pos n +ℤ idx')

-- A search relative to `n` gives the place in the whole text.
add_found :
    (n : ℕ) (o : Option ℕ)
    → (if ltb_ℤ (found_at 0 o) (pos 0) then some minus_one else some (pos n +ℤ found_at 0 o))
      ≡ some (found_at n o)
add_found n none = refl
add_found n (some k) = rw (zero-add k, ltb_ℤ-neg k, +ℤ-pos n k)

skip_from-true :
    (b n : ℕ) (bytes : Bytes) (o : Option ℕ)
    → length bytes < 2 ^ 31
    → ((k : ℕ) → o ≡ some k → k < length bytes)
    → skip_from true b n bytes (index_of 0 o)
      ≡ some (found_at n (earlier (λ c. c == b - 32) bytes o))
unfolding skip_from earlier sooner first_where
skip_from-true b n bytes none small h =
    rw (upper_index-none bytes b small) (add_found n (first_where (λ c. c == b - 32) bytes))
skip_from-true b n bytes (some zero) small h = ap (λ t. some (pos t)) (omega arith)
skip_from-true b n bytes (some (suc j)) small h =
    rw
      (
        index_of_small (suc j) (omega (arith, h (suc j) refl)),
        eqb_ℤ-suc j,
        upper_index-some bytes b j small (h (suc j) refl),
      )
      (add_found n (sooner (some (suc j)) (first_where (λ c. c == b - 32) (take (suc j) bytes))))

skip_from-false :
    (b n : ℕ) (bytes : Bytes) (o : Option ℕ)
    → length bytes < 2 ^ 31
    → ((k : ℕ) → o ≡ some k → k < length bytes)
    → skip_from false b n bytes (index_of 0 o) ≡ some (found_at n o)
unfolding skip_from
skip_from-false b n bytes none small h = refl
skip_from-false b n bytes (some zero) small h = ap (λ t. some (pos t)) (omega arith)
skip_from-false b n bytes (some (suc j)) small h = rw (
  index_of_small (suc j) (omega (arith, h (suc j) refl)),
  eqb_ℤ-suc j,
  ltb_ℤ-neg (suc j),
  +ℤ-pos n (suc j),
)

skip_from-eq :
    (flag : Bool) (b n : ℕ) (bytes : Bytes) (o : Option ℕ)
    → length bytes < 2 ^ 31
    → ((k : ℕ) → o ≡ some k → k < length bytes)
    → skip_from flag b n bytes (index_of 0 o)
      ≡ some (found_at n (earlier (λ c. flag && (c == b - 32)) bytes o))
skip_from-eq true b n bytes o small h = skip_from-true b n bytes o small h
skip_from-eq false b n bytes o small h =
    rw (earlier-false bytes o) (skip_from-false b n bytes o small h)

-- On a text shorter than 2^31 bytes and a place in it or at its end, `try_skip` returns the
-- first place from there on of a byte that it accepts, the byte itself or, where case does not
-- count, its upper case letter, or -1 if there is none.
pub try_skip-eq :
    (input : Bytes) (case_sensitive : Bool) (b n : ℕ)
    → length input < 2 ^ 31
    → n ≤ length input
    → try_skip input case_sensitive b (pos n)
      ≡ some (found_at n (first_where (skip_hit case_sensitive b) (drop n input)))
unfolding try_skip
try_skip-eq input case_sensitive b n small h =
    rw
      (
        rest_slice input n small h,
        index_byte-eq (drop n input) b,
        first_where-skip_hit case_sensitive b (drop n input),
      )
      (unfold skip_from in
        skip_from-eq (skips_case case_sensitive b) b n (drop n input)
          (first_where (λ c. c == b) (drop n input)) (omega (arith, length-drop n input))
          (λ k. first_where-lt _ (drop n input) k))
