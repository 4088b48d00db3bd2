-- ===== src/Fzf/Pattern/Lacks.antt =====
-- The parser's string helpers on strings without the byte that they look for.
use mathlib.Core.List.{append_assoc, append-nil}
use plugged.Common.{
  All, Bool, Bool-cases, [], arith, bytes_eq, drop, false, inl, inr, leb, length, ltb, lt→ltb,
  neq-false, none, refl, some, sub_size, suc, true, zero, ℕ, ◌%◌, ◌*◌, ◌++◌, ◌+◌, ◌-◌, ◌<◌, ◌==◌,
  ◌^◌, ◌∷◌, ◌≡◌,
}
use plugged.Fzf.Chars.{Bytes}
use plugged.Fzf.Pattern.{
  CaseMode, Draft, ParseState, add_term, finish_pattern, fzf_parse_pattern, only_inverse,
  parse_token, parse_tokens, read_marks, token_text,
}
use plugged.Fzf.Pattern.Strings.{
  count_loop, has_prefix, has_suffix, replace_loop, replace_size, str_replace, str_replace_char,
  strstr, tokens, trim_left_loop, trim_pattern, trim_right_loop, trim_whitespace_left,
}
use plugged.Fzf.Pattern.Terms.{Pattern, Term, append_pattern, append_set, empty_pattern, empty_set}

All-drop : (P : ℕ → Type 0) (n : ℕ) (xs : Bytes) → All P xs → All P (drop n xs)
All-drop P zero xs a = a
All-drop P (suc n) [] a = tt
All-drop P (suc n) (x ∷ xs) (_, a) = All-drop P n xs a

-- The byte is not one of the string's.
abbrev pub Lacks : ℕ → Bytes → Type 0
Lacks b xs = All (λ c. (c == b) ≡ false) xs

-- A byte that fails a test is not one of those that pass it.
pub All-Lacks :
    (f : ℕ → Bool) (b : ℕ) → f b ≡ false → (xs : Bytes) → All (λ c. f c ≡ true) xs → Lacks b xs
All-Lacks f b fails [] a = tt
All-Lacks f b fails (c ∷ xs) (passes, a) = (differs, All-Lacks f b fails xs a)
  where
    differs : (c == b) ≡ false
    differs = elim (Bool-cases (c == b)) [
      | inl same ↦ let e : c ≡ b = ground (arith, same) in cc
      | inr other ↦ other
    ]

pub bytes_eq-Lacks : (b : ℕ) (rest xs : Bytes) → Lacks b xs → bytes_eq xs (b ∷ rest) ≡ false
unfolding bytes_eq
bytes_eq-Lacks b rest [] a = refl
bytes_eq-Lacks b rest (c ∷ xs) (other, a) = rw other refl

pub has_prefix-Lacks : (b : ℕ) (rest xs : Bytes) → Lacks b xs → has_prefix xs (b ∷ rest) ≡ false
unfolding has_prefix bytes_eq
has_prefix-Lacks b rest [] a = refl
has_prefix-Lacks b rest (c ∷ xs) (other, a) = rw other refl

pub has_suffix-Lacks : (b : ℕ) (xs : Bytes) → Lacks b xs → has_suffix xs (b ∷ []) ≡ false
unfolding has_suffix
has_suffix-Lacks b xs a =
    let differs = bytes_eq-Lacks b [] (drop (length xs - 1) xs) (All-drop _ (length xs - 1) xs a) in
    elim (Bool-cases (leb 1 (length xs))) [ inl e ↦ rw (e, differs) refl | inr e ↦ rw e refl ]

trim_left_loop-Lacks : (i : ℕ) (xs : Bytes) → Lacks 32 xs → trim_left_loop i xs ≡ xs
unfolding trim_left_loop
trim_left_loop-Lacks i [] a = refl
trim_left_loop-Lacks i (c ∷ xs) (other, a) = elim (Bool-cases (ltb i (length (c ∷ xs)))) [
  | inl e ↦ rw (e, other) refl
  | inr e ↦ rw e refl
]

trim_right_loop-Lacks : (fuel : ℕ) (xs : Bytes) → Lacks 32 xs → trim_right_loop fuel xs ≡ xs
unfolding trim_right_loop
trim_right_loop-Lacks zero xs a = refl
trim_right_loop-Lacks (suc fuel) xs a = rw (has_suffix-Lacks 32 xs a) refl

pub trim_pattern-Lacks : (xs : Bytes) → Lacks 32 xs → trim_pattern xs ≡ xs
unfolding trim_pattern trim_whitespace_left
trim_pattern-Lacks xs a = rw (trim_left_loop-Lacks 0 xs a) (trim_right_loop-Lacks (length xs) xs a)

strstr-Lacks : (b : ℕ) (rest xs : Bytes) → Lacks b xs → strstr xs (b ∷ rest) ≡ none
unfolding strstr has_prefix bytes_eq
strstr-Lacks b rest [] a = refl
strstr-Lacks b rest (c ∷ xs) (other, a) = rw (other, strstr-Lacks b rest xs a) refl

count_loop-Lacks : (fuel b : ℕ) (rest xs : Bytes) → Lacks b xs → count_loop fuel xs (b ∷ rest) ≡ 0
unfolding count_loop
count_loop-Lacks zero b rest xs a = refl
count_loop-Lacks (suc fuel) b rest xs a = rw (count_loop, strstr-Lacks b rest xs a) refl

pub str_replace-Lacks :
    (xs : Bytes)
    → length xs < 2 ^ 63
    → Lacks 92 xs
    → str_replace xs (92 ∷ 32 ∷ []) (9 ∷ []) ≡ some xs
unfolding str_replace replace_loop replace_size
str_replace-Lacks xs small a =
    let fits : ltb (length xs) ((length xs + sub_size 1 2 * 0 + 1) % 2 ^ 64) ≡ true =
      ground arith in
    rw (count_loop-Lacks (length xs) 92 (32 ∷ []) xs a, fits) refl

pub str_replace_char-Lacks : (b r : ℕ) (xs : Bytes) → Lacks b xs → str_replace_char xs b r ≡ xs
unfolding str_replace_char
str_replace_char-Lacks b r [] a = refl
str_replace_char-Lacks b r (c ∷ xs) (other, a) = rw (other, str_replace_char-Lacks b r xs a) refl

pub tokens-Lacks :
    (w : ℕ) (word xs : Bytes) → Lacks 32 xs → tokens (w ∷ word) xs ≡ (w ∷ word ++ xs) ∷ []
unfolding tokens
tokens-Lacks w word [] a = rw (append-nil word) refl
tokens-Lacks w word (c ∷ xs) (other, a) =
    rw (tokens, other, tokens-Lacks w (word ++ c ∷ []) xs a, append_assoc word (c ∷ []) xs) refl

-- A query of one token: the term that its marks and its text give.
abbrev pub one_term : Term → Pattern
one_term t = record { sets = record { terms = t ∷ []; cap = 1 } ∷ []; cap = 1; only_inv = t.inv }

abbrev parse_start : ParseState
parse_start = record {
  pattern = empty_pattern;
  set = empty_set;
  switch_set = false;
  after_bar = false;
}

abbrev the_term : CaseMode → Bytes → Draft → Term
the_term mode token d = record {
  fn = d.fn;
  inv = d.inv;
  text = d.text;
  case_sensitive = (token_text mode token).1;
}

parse_token-one :
    (mode : CaseMode) (token : Bytes) (d : Draft)
    → Lacks 9 token
    → read_marks true (token_text mode token).0 ≡ d
    → 0 < length d.text
    → parse_token mode true token parse_start
      ≡ some (record parse_start {
        set = record { terms = the_term mode token d ∷ []; cap = 1 };
        switch_set = true;
      })
unfolding parse_token add_term append_set
parse_token-one mode token d tabless marks some_text =
    rw (str_replace_char-Lacks 9 32 token tabless, marks, lt→ltb 0 (length d.text) some_text) refl

only_inverse-one : (t : Term) → only_inverse (record { terms = t ∷ []; cap = 1 } ∷ []) ≡ some t.inv
unfolding only_inverse
only_inverse-one t = elim (Bool-cases t.inv) [ inl e ↦ rw e refl | inr e ↦ rw e refl ]

finish_pattern-one :
    (s : ParseState) (t : Term)
    → s.pattern ≡ empty_pattern
    → s.set ≡ record { terms = t ∷ []; cap = 1 }
    → finish_pattern s ≡ some (one_term t)
unfolding finish_pattern append_pattern
finish_pattern-one s t fresh single = rw (single, fresh, only_inverse-one t) refl

-- A token with a text parses into its one term.
pub fzf_parse_pattern-one :
    (mode : CaseMode) (normalize : Bool) (token : Bytes) (d : Draft)
    → 0 < length token
    → length token < 2 ^ 63
    → Lacks 32 token
    → Lacks 92 token
    → Lacks 9 token
    → read_marks true (token_text mode token).0 ≡ d
    → 0 < length d.text
    → fzf_parse_pattern mode normalize token true ≡ some (one_term (the_term mode token d))
unfolding fzf_parse_pattern parse_tokens
fzf_parse_pattern-one mode normalize [] d some_byte small spaceless slashless tabless marks
      some_text =
    absurd (omega (arith, some_byte))
fzf_parse_pattern-one mode normalize (c ∷ xs) d some_byte small spaceless slashless tabless marks
      some_text =
    let the_tokens : tokens [] (c ∷ xs) ≡ (c ∷ xs) ∷ [] =
      rw (tokens, spaceless.0) (tokens-Lacks c [] xs spaceless.1) in
    rw
      (
        neq-false (length (c ∷ xs)) 0 (omega arith),
        trim_pattern-Lacks (c ∷ xs) spaceless,
        str_replace-Lacks (c ∷ xs) small slashless,
        the_tokens,
        parse_token-one mode (c ∷ xs) d tabless marks some_text,
      )
      (finish_pattern-one
        (record parse_start {
          set = record { terms = the_term mode (c ∷ xs) d ∷ []; cap = 1 };
          switch_set = true;
        })
        (the_term mode (c ∷ xs) d) refl refl)
