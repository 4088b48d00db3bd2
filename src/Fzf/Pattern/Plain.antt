-- ===== src/Fzf/Pattern/Plain.antt =====
-- The query parser on a query without spaces and marks.
use plugged.Common.{
  All, Bool, Bool-cases, [], ap, arith, bytes_eq, false, inl, inr, leb, length, not, refl, some,
  suc, true, ℕ, ◌&&◌, ◌<◌, ◌==◌, ◌^◌, ◌∷◌, ◌≡◌,
}
use plugged.Fzf.Chars.{Bytes, to_lower}
use plugged.Fzf.Fold.{IsFolded, is_upper_byte}
use plugged.Fzf.Pattern.{
  CaseMode, case_ignore, case_respect, case_smart, fzf_parse_pattern, read_marks, strip_bang,
  strip_dollar, strip_head, token_text,
}
use plugged.Fzf.Pattern.Lacks.{
  All-Lacks, bytes_eq-Lacks, fzf_parse_pattern-one, has_prefix-Lacks, has_suffix-Lacks, one_term,
}
use plugged.Fzf.Pattern.Strings.{str_tolower}
use plugged.Fzf.Pattern.Terms.{Pattern, Term, fuzzy_match_v2}

-- A byte that the parser takes as it is: no tab, space, `\` and none of the marks `!`, `$`, `'`, `^`.
abbrev pub is_plain : ℕ → Bool
is_plain c =
    not (c == 9)
    && not (c == 32)
    && not (c == 92)
    && not (c == b'!')
    && not (c == b'$')
    && not (c == b'\'')
    && not (c == b'^')

abbrev pub IsPlain : ℕ → Type 0
IsPlain c = is_plain c ≡ true

-- Lower case letters are no marks, and no upper case letters.
to_lower-IsPlain : (c : ℕ) → is_plain c ≡ true → is_plain (to_lower c) ≡ true
unfolding to_lower
to_lower-IsPlain c h = elim (Bool-cases (leb b'A' c && leb c b'Z')) [
  | inl capital ↦ rw capital (ground arith)
  | inr other ↦ rw other h
]

lower_folded : (c : ℕ) → is_upper_byte (to_lower c) ≡ false
unfolding to_lower
lower_folded c = ground arith

str_tolower-IsPlain : (xs : Bytes) → All IsPlain xs → All IsPlain (str_tolower xs)
unfolding str_tolower
str_tolower-IsPlain [] a = tt
str_tolower-IsPlain (c ∷ xs) (plain, a) = (to_lower-IsPlain c plain, str_tolower-IsPlain xs a)

str_tolower-IsFolded : (cs : Bool) (xs : Bytes) → IsFolded cs (str_tolower xs)
unfolding str_tolower
str_tolower-IsFolded cs [] = tt
str_tolower-IsFolded cs (c ∷ xs) = (inr (lower_folded c), str_tolower-IsFolded cs xs)

length-str_tolower : (xs : Bytes) → length (str_tolower xs) ≡ length xs
unfolding str_tolower
length-str_tolower [] = refl
length-str_tolower (c ∷ xs) = ap suc (length-str_tolower xs)

respected-IsFolded : (xs : Bytes) → IsFolded true xs
respected-IsFolded [] = tt
respected-IsFolded (c ∷ xs) = (inl refl, respected-IsFolded xs)

-- The text of a token without marks is of its length, without marks, and folded.
pub token_text_lem :
    (mode : CaseMode) (xs : Bytes)
    → All IsPlain xs
    → All IsPlain (token_text mode xs).0
      × (length (token_text mode xs).0 ≡ length xs)
      × IsFolded (token_text mode xs).1 (token_text mode xs).0
unfolding token_text
token_text_lem case_respect xs a = (a, refl, respected-IsFolded xs)
token_text_lem case_ignore xs a =
    (str_tolower-IsPlain xs a, length-str_tolower xs, str_tolower-IsFolded false xs)
token_text_lem case_smart xs a = elim (Bool-cases (bytes_eq xs (str_tolower xs))) [
  | inl folded ↦
      rw folded (str_tolower-IsPlain xs a, length-str_tolower xs, str_tolower-IsFolded false xs)
  | inr mixed ↦ rw mixed (a, refl, respected-IsFolded xs)
]

read_marks-plain :
    (xs : Bytes)
    → All IsPlain xs
    → read_marks true xs ≡ record { fn = fuzzy_match_v2; inv = false; text = xs }
unfolding read_marks strip_bang strip_dollar strip_head
read_marks-plain xs a =
    rw
      (
        has_prefix-Lacks b'!' [] xs (All-Lacks is_plain b'!' refl xs a),
        bytes_eq-Lacks b'$' [] xs (All-Lacks is_plain b'$' refl xs a),
        has_suffix-Lacks b'$' xs (All-Lacks is_plain b'$' refl xs a),
        has_prefix-Lacks b'\'' [] xs (All-Lacks is_plain b'\'' refl xs a),
        has_prefix-Lacks b'^' [] xs (All-Lacks is_plain b'^' refl xs a),
      )
      refl

-- The term of a query without marks, and the query.
abbrev pub plain_term : CaseMode → Bytes → Term
plain_term mode xs = record {
  fn = fuzzy_match_v2;
  inv = false;
  text = (token_text mode xs).0;
  case_sensitive = (token_text mode xs).1;
}

abbrev pub plain_query : CaseMode → Bytes → Pattern
plain_query mode xs = one_term (plain_term mode xs)

-- A query of at least one and less than 2^63 bytes, all of them plain, parses in fuzzy mode into one
-- set of one fuzzy term.
pub fzf_parse_pattern-plain :
    (mode : CaseMode) (normalize : Bool) (c : ℕ) (xs : Bytes)
    → length (c ∷ xs) < 2 ^ 63
    → All IsPlain (c ∷ xs)
    → fzf_parse_pattern mode normalize (c ∷ xs) true ≡ some (plain_query mode (c ∷ xs))
fzf_parse_pattern-plain mode normalize c xs small a =
    let (plain, size, _) = token_text_lem mode (c ∷ xs) a in
    fzf_parse_pattern-one mode normalize (c ∷ xs)
      (record { fn = fuzzy_match_v2; inv = false; text = (token_text mode (c ∷ xs)).0 })
      (omega arith) small (All-Lacks is_plain 32 refl (c ∷ xs) a)
      (All-Lacks is_plain 92 refl (c ∷ xs) a) (All-Lacks is_plain 9 refl (c ∷ xs) a)
      (read_marks-plain (token_text mode (c ∷ xs)).0 plain) (omega (arith, size))
