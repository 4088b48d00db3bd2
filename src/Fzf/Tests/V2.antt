-- ===== src/Fzf/Tests/V2.antt =====
-- The theorems on `fzf_fuzzy_match_v2` for a pattern of one byte, and of more, at an input.
use plugged.Common.{
  Option, [], arith, false, inr, length, pos, refl, some, true, ℕ, ◌*◌, ◌+◌, ◌<◌, ◌∷◌, ◌≡◌, ◌≤◌,
  ◌⊎◌,
}
use plugged.Fzf.Affix.Compare.{starts_with}
use plugged.Fzf.Chars.{Bytes, fold_char}
use plugged.Fzf.Exact.Best.{IsBest, occurs}
use plugged.Fzf.Pattern.{case_smart, fzf_parse_pattern, token_text}
use plugged.Fzf.Pattern.Terms.{Pattern}
use plugged.Fzf.Positions.{Positions}
use plugged.Fzf.Positions.Growth.{Grown}
use plugged.Fzf.Query.Plain.{Answered, Unanswered, plain_query_decides}
use plugged.Fzf.Samples.{codes, hit, out, small_slab}
use plugged.Fzf.Slab.{Slab}
use plugged.Fzf.Subseq.{Subseq, done, pick, skip}
use plugged.Fzf.V2.{fzf_fuzzy_match_v2}
use plugged.Fzf.V2.Best.{v2_single_finds}
use plugged.Fzf.V2.Grid.{Hits}
use plugged.Fzf.V2.Grid.Way.{Way}
use plugged.Fzf.V2.Memory.{exceeds_slab}
use plugged.Fzf.V2.Several.{v2_finds}

abbrev two_words : Bytes
two_words = codes "xabc a"

second_word : occurs hit (codes "a") two_words 5 ≡ true
unfolding starts_with fold_char
second_word = refl

-- The `a` of the second word has the better bonus.
small_enough : exceeds_slab small_slab (length two_words * 1) ≡ false
unfolding exceeds_slab
small_enough = refl

v2_single_example :
    (s : ℕ) × (n : ℕ) × (q : Option Positions) × (slab' : Option Slab) × (fzf_fuzzy_match_v2 false
        false two_words
        (codes "a")
        out
        small_slab
      ≡ some (record { start = pos s; end = pos (s + 1); score = pos (16 + n + n) }, q, slab'))
    × IsBest hit (codes "a") two_words (length two_words) s (pos n)
    × Grown out (s ∷ []) q
v2_single_example =
    v2_single_finds false false 97 two_words (inr refl, tt) (omega arith) out small_slab
      small_enough (omega arith) 5 second_word

third_byte : Subseq hit (codes "ac") two_words
unfolding fold_char
third_byte = skip (pick refl (skip (pick refl done)))

room_enough : exceeds_slab small_slab (length two_words * 2) ≡ false
unfolding exceeds_slab
room_enough = refl

v2_several_example :
    (start : ℕ) × (end : ℕ) × (n : ℕ) × (q : Option Positions) × (slab' : Option Slab)
    × (fzf_fuzzy_match_v2 false false two_words (codes "ac") out small_slab
        ≡ some (record { start = pos start; end = pos (end + 1); score = pos n }, q, slab'))
    × (0 < n)
    × (n ≤ 56)
    × (end < 6)
    × Hits hit (codes "ac") two_words 1 end
    × Way hit (codes "ac") two_words out start end q
v2_several_example =
    v2_finds false false 97 99 [] two_words (inr refl, (inr refl, tt)) (omega arith) (omega arith)
      out small_slab room_enough (omega arith) third_byte

two_words_query :
    (p : Pattern) × (fzf_parse_pattern case_smart false (codes "ac") true ≡ some p)
    × (Answered p
          (token_text case_smart (codes "ac")).1
          (token_text case_smart (codes "ac")).0
          two_words
          small_slab
        ⊎ Unanswered p
            (token_text case_smart (codes "ac")).1
            (token_text case_smart (codes "ac")).0
            two_words
            small_slab)
two_words_query =
    plain_query_decides case_smart false (codes "ac") two_words small_slab (omega arith)
      (omega arith) (refl, (refl, tt)) (omega arith) room_enough
