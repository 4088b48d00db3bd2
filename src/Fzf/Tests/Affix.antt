-- ===== src/Fzf/Tests/Affix.antt =====
-- The theorems on prefixes and suffixes, at inputs that meet their hypotheses.
use plugged.Common.{
  Option, [], arith, drop, false, get_elem?, inl, length, none, pos, refl, some, suc, true, zero, ℕ,
  ℤ, ◌*◌, ◌+◌, ◌-◌, ◌<◌, ◌∷◌, ◌≡◌,
}
use plugged.Fzf.Affix.{
  fzf_equal_match, fzf_prefix_match, fzf_suffix_match, leading_whitespaces, suffix_length,
  trailing_loop, trailing_whitespaces,
}
use plugged.Fzf.Affix.Compare.{starts_with}
use plugged.Fzf.Affix.Equal.{equal_finds, equal_rejects}
use plugged.Fzf.Affix.Prefix.{prefix_finds, prefix_offset, prefix_rejects}
use plugged.Fzf.Affix.Suffix.{
  all_space, suffix_finds, suffix_match-fault, suffix_rejects, trailing_whitespaces-blank,
  trailing_whitespaces-eq,
}
use plugged.Fzf.Chars.{fold_char, is_space}
use plugged.Fzf.Positions.{Positions}
use plugged.Fzf.Positions.Growth.{Grown, places_from}
use plugged.Fzf.Samples.{codes, hit, out, pat}
use plugged.Fzf.Score.{no_match}
use plugged.Fzf.Score.Run.{InBounds}

begins_ab : starts_with hit pat (drop (prefix_offset 97 (codes " abc")) (codes " abc")) ≡ true
unfolding starts_with leading_whitespaces fold_char is_space
begins_ab = refl

begins_not : starts_with hit pat (drop (prefix_offset 97 (codes "bab")) (codes "bab")) ≡ false
unfolding starts_with leading_whitespaces fold_char is_space
begins_not = refl

ends_ab : starts_with hit pat (drop (3 - 2) (codes "cab ")) ≡ true
unfolding starts_with fold_char
ends_ab = refl

ends_not : starts_with hit pat (drop (3 - 2) (codes "aba ")) ≡ false
unfolding starts_with fold_char
ends_not = refl

trimmed_three : suffix_length (codes "cab ") pat ≡ some 3
unfolding suffix_length trailing_whitespaces trailing_loop
trimmed_three = refl

trimmed_aba : suffix_length (codes "aba ") pat ≡ some 3
unfolding suffix_length trailing_whitespaces trailing_loop
trimmed_aba = refl

trimmed_one : suffix_length (codes "b ") pat ≡ some 1
unfolding suffix_length trailing_whitespaces trailing_loop
trimmed_one = refl

all_blank : all_space (codes "  ") ≡ true
unfolding all_space is_space
all_blank = refl

blank_after : (j : ℕ) (d : ℕ) → 0 < j → get_elem? (codes "a ") j ≡ some d → is_space d ≡ true
unfolding is_space
blank_after zero d lt e = let never : ⊥ = omega arith in absurd never
blank_after (suc zero) d lt e = ground arith
blank_after (suc (suc j)) d lt e = cc

prefix_finds_example :
    (score : ℤ) × (q : Option Positions) × (fzf_prefix_match false false (codes " abc") pat out
      ≡ some (
        record {
          start = pos (prefix_offset 97 (codes " abc"));
          end = pos (prefix_offset 97 (codes " abc") + length pat);
          score = score;
        },
        q,
      ))
    × Grown out (places_from (prefix_offset 97 (codes " abc")) (length pat)) q
    × InBounds (length pat) 0 score
prefix_finds_example =
    prefix_finds false false (codes " abc") (omega arith) 97 (98 ∷ []) out (omega arith)
      (omega arith) begins_ab

prefix_rejects_example : fzf_prefix_match false false (codes "bab") pat out ≡ some (no_match, out)
prefix_rejects_example =
    prefix_rejects false false (codes "bab") (omega arith) 97 (98 ∷ []) out begins_not

suffix_finds_example :
    (score : ℤ) × (q : Option Positions) × (fzf_suffix_match false false (codes "cab ") pat out
      ≡ some (record { start = pos (3 - length pat); end = pos 3; score = score }, q))
    × Grown out (places_from (3 - length pat) (length pat)) q
    × InBounds (length pat) 0 score
suffix_finds_example =
    suffix_finds false false (codes "cab ") 97 (98 ∷ []) out 3 trimmed_three (omega arith)
      (omega arith) (omega arith) (omega arith) (omega arith) ends_ab

suffix_rejects_example : fzf_suffix_match false false (codes "aba ") pat out ≡ some (no_match, out)
suffix_rejects_example =
    suffix_rejects false false (codes "aba ") 97 (98 ∷ []) out 3 trimmed_aba (omega arith)
      (omega arith) (omega arith) ends_not

suffix_fault_example : fzf_suffix_match false false (codes "b ") pat out ≡ none
suffix_fault_example =
    suffix_match-fault false false (codes "b ") 97 (98 ∷ []) out 1 trimmed_one (omega arith)
      (omega arith) (omega arith)

trailing_blank_example : trailing_whitespaces (codes "  ") ≡ none
trailing_blank_example = trailing_whitespaces-blank (codes "  ") all_blank

trailing_example : trailing_whitespaces (codes "a ") ≡ some (length (codes "a ") - 1 - 0)
unfolding is_space
trailing_example =
    trailing_whitespaces-eq (codes "a ") 0 refl refl blank_after (omega arith) (omega arith)

-- The last byte of " ab " that is no white space is its third.
after_two : (j : ℕ) (d : ℕ) → 2 < j → get_elem? (codes " ab ") j ≡ some d → is_space d ≡ true
unfolding is_space
after_two zero d lt e = let never : ⊥ = omega arith in absurd never
after_two (suc zero) d lt e = let never : ⊥ = omega arith in absurd never
after_two (suc (suc zero)) d lt e = let never : ⊥ = omega arith in absurd never
after_two (suc (suc (suc zero))) d lt e = ground arith
after_two (suc (suc (suc (suc j)))) d lt e = cc

middle_ab : starts_with hit pat (drop (leading_whitespaces (codes " ab ")) (codes " ab ")) ≡ true
unfolding starts_with leading_whitespaces fold_char is_space
middle_ab = refl

b_is_word : is_space 98 ≡ false
unfolding is_space
b_is_word = refl

one_blank : leading_whitespaces (codes " ab ") + length pat ≡ 3
unfolding leading_whitespaces is_space
one_blank = refl

equal_finds_example :
    (q : Option Positions) × (fzf_equal_match false false (codes " ab ") pat out
      ≡ some (
        record {
          start = pos (leading_whitespaces (codes " ab "));
          end = pos 3;
          score = pos (24 * length pat + 8);
        },
        q,
      ))
    × Grown out (places_from (leading_whitespaces (codes " ab ")) (length pat)) q
equal_finds_example =
    equal_finds false false (codes " ab ") (omega arith) 2 refl b_is_word after_two 97 (98 ∷ []) out
      (omega arith) (omega arith) one_blank middle_ab

equal_rejects_example :
    fzf_equal_match false false (codes " ab ") (codes "b") out ≡ some (no_match, out)
equal_rejects_example =
    equal_rejects false false (codes " ab ") (omega arith) 2 refl b_is_word after_two 98 [] out
      (inl (λ e. let never : ⊥ = omega (arith, one_blank) in absurd never))
