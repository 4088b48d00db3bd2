-- ===== src/Fzf/Affix/Prefix.antt =====
-- `fzf_prefix_match`: it matches exactly the texts that begin with the pattern, after their leading
-- white space if the pattern does not begin with some.
use plugged.Common.{
  Bool, Bool-cases, Option, [], ap, arith, drop, false, if◌then◌else◌, inl, inr, length,
  length-drop, le→ltb, ltb, neq-false, pos, some, sub_size, true, ℕ, ℤ, ◌+◌, ◌<◌, ◌^◌, ◌∙◌, ◌∷◌,
  ◌≡◌, ◌≤◌,
}
use plugged.Fzf.Affix.{compare_loop, fzf_prefix_match, leading_whitespaces}
use plugged.Fzf.Affix.Compare.{compare_loop-eq, score_range-eq, starts_with, starts_with-length}
use plugged.Fzf.Chars.{Bytes, is_space}
use plugged.Fzf.Positions.{Positions}
use plugged.Fzf.Positions.Growth.{Fits, Grown, places_from}
use plugged.Fzf.Score.{no_match}
use plugged.Fzf.Score.Run.{InBounds, fold_hit}

pub leading-le : (text : Bytes) → leading_whitespaces text ≤ length text
unfolding leading_whitespaces
leading-le [] = omega arith
leading-le (c ∷ xs) = ground (arith, leading-le xs)

-- Where the comparison starts.
abbrev pub prefix_offset : ℕ → Bytes → ℕ
prefix_offset p text = if is_space p then 0 else leading_whitespaces text

prefix_offset-le : (p : ℕ) (text : Bytes) → prefix_offset p text ≤ length text
prefix_offset-le p text = ground (arith, leading-le text)

module _ (case_sensitive normalize : Bool) (text : Bytes) (small : length text < 2 ^ 31) (p : ℕ)
    (ps : Bytes) (out : Option Positions) where
  abbrev begins : Bool
  begins =
      starts_with (fold_hit case_sensitive normalize) (p ∷ ps) (drop (prefix_offset p text) text)

  -- The comparison, for a text that is long enough.
  prefix_compare :
      prefix_offset p text + length (p ∷ ps) ≤ length text
      → compare_loop case_sensitive normalize text (prefix_offset p text) (p ∷ ps) 0 ≡ some begins
  prefix_compare h =
      let same : prefix_offset p text + 0 ≡ prefix_offset p text = omega arith in
      compare_loop-eq case_sensitive normalize text small (p ∷ ps) (prefix_offset p text) 0
        (omega arith)
      ∙ ap (λ t. some (starts_with (fold_hit case_sensitive normalize) (p ∷ ps) (drop t text))) same

  -- For a pattern of 1 to 2^26 bytes, a text shorter than 2^31 bytes, and positions whose cells
  -- in use fit their capacity: if the text begins with the pattern, after its leading white
  -- space unless the pattern begins with some, `fzf_prefix_match` returns that range without a
  -- fault, appends its places, and the score is between 16 a byte and 24 a byte and 8.
  pub prefix_finds :
      length (p ∷ ps) ≤ 2 ^ 26
      → Fits out
      → begins ≡ true
      → (score : ℤ) × (q : Option Positions) × (fzf_prefix_match case_sensitive normalize text
            (p ∷ ps)
            out
          ≡ some (
            record {
              start = pos (prefix_offset p text);
              end = pos (prefix_offset p text + length (p ∷ ps));
              score = score;
            },
            q,
          ))
        × Grown out (places_from (prefix_offset p text) (length (p ∷ ps))) q
        × InBounds (length (p ∷ ps)) 0 score
  unfolding fzf_prefix_match
  prefix_finds short f b =
      let long = starts_with-length _ (p ∷ ps) (drop (prefix_offset p text) text) b in
      let fits : prefix_offset p text + length (p ∷ ps) ≤ length text =
        omega (arith, length-drop (prefix_offset p text) text) in
      let (score, q, run, grown, bounds) =
        score_range-eq case_sensitive normalize text small (p ∷ ps) (prefix_offset p text) out
          (omega arith) short fits f b in
      let room : ltb (sub_size (length text) (prefix_offset p text)) (length (p ∷ ps)) ≡ false =
        le→ltb _ _ (omega arith) in
      (
        score,
        q,
        rw (neq-false (length (p ∷ ps)) 0 (omega arith), room, prefix_compare fits, b, run),
        grown,
        bounds,
      )

  -- For a pattern of at least one byte and a text shorter than 2^31 bytes that does not begin
  -- with the pattern, after its leading white space unless the pattern begins with some,
  -- `fzf_prefix_match` returns -1, -1, 0 without a fault and leaves the positions.
  pub prefix_rejects :
      begins ≡ false
      → fzf_prefix_match case_sensitive normalize text (p ∷ ps) out ≡ some (no_match, out)
  unfolding fzf_prefix_match
  prefix_rejects b =
      elim (Bool-cases (ltb (sub_size (length text) (prefix_offset p text)) (length (p ∷ ps)))) [
        | inl short ↦ rw (neq-false (length (p ∷ ps)) 0 (omega arith), short)
        | inr room ↦
            rw (neq-false (length (p ∷ ps)) 0 (omega arith), room, prefix_compare (fits room), b)
      ]
    where
      fits :
          ltb (sub_size (length text) (prefix_offset p text)) (length (p ∷ ps)) ≡ false
          → prefix_offset p text + length (p ∷ ps) ≤ length text
      fits h = ground (arith, prefix_offset-le p text)
