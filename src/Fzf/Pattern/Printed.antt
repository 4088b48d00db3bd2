-- ===== src/Fzf/Pattern/Printed.antt =====
-- A term printed with its marks, as the query parser reads them.
use mathlib.Core.List.{append-nil}
use plugged.Common.{
  All, Bool, [], ap, arith, bytes_eq, drop, false, if◌then◌else◌, inr, leb, length, length-append,
  not, refl, some, take, true, ℕ, ◌&&◌, ◌++◌, ◌-◌, ◌<◌, ◌==◌, ◌^◌, ◌∙◌, ◌∷◌, ◌≡◌, ◌≤◌,
}
use plugged.Fzf.Chars.{Bytes, to_lower}
use plugged.Fzf.Fold.{IsFolded, is_upper_byte}
use plugged.Fzf.Pattern.{
  CaseMode, Draft, case_ignore, case_respect, case_smart, fzf_parse_pattern, read_marks, strip_bang,
  strip_dollar, strip_head, token_text,
}
use plugged.Fzf.Pattern.Lacks.{
  All-Lacks, Lacks, bytes_eq-Lacks, fzf_parse_pattern-one, has_suffix-Lacks, one_term,
}
use plugged.Fzf.Pattern.Plain.{is_plain}
use plugged.Fzf.Pattern.Strings.{has_prefix, has_suffix, str_tolower}
use plugged.Fzf.Pattern.Terms.{
  Algo, equal_match, exact_match_naive, fuzzy_match_v2, prefix_match, suffix_match,
}

-- The marks before and after a term's text.
unfoldable marks_before : Bool → Algo → Bytes
marks_before false fuzzy_match_v2 = []
marks_before false exact_match_naive = b'\'' ∷ []
marks_before false prefix_match = b'^' ∷ []
marks_before false suffix_match = []
marks_before false equal_match = b'^' ∷ []
marks_before true fuzzy_match_v2 = b'!' ∷ b'\'' ∷ []
marks_before true exact_match_naive = b'!' ∷ []
marks_before true prefix_match = b'!' ∷ b'^' ∷ []
marks_before true suffix_match = b'!' ∷ []
marks_before true equal_match = b'!' ∷ b'^' ∷ []

unfoldable marks_after : Algo → Bytes
marks_after fuzzy_match_v2 = []
marks_after exact_match_naive = []
marks_after prefix_match = []
marks_after suffix_match = b'$' ∷ []
marks_after equal_match = b'$' ∷ []

-- The query that asks for the term.
unfoldable pub print_term : Bool → Algo → Bytes → Bytes
unfolding marks_before marks_after
print_term inv fn text = marks_before inv fn ++ (text ++ marks_after fn)

-- A byte without a meaning to the parser, and no upper case letter.
abbrev pub is_bare : ℕ → Bool
is_bare c = is_plain c && not (is_upper_byte c)

abbrev pub IsBare : ℕ → Type 0
IsBare c = is_bare c ≡ true

-- A byte that does not end a token, and that the case mode leaves.
abbrev is_quiet : ℕ → Bool
is_quiet c = not (c == 9) && not (c == 32) && not (c == 92) && not (is_upper_byte c)

abbrev IsQuiet : ℕ → Type 0
IsQuiet c = is_quiet c ≡ true

bare-IsQuiet : (xs : Bytes) → All IsBare xs → All IsQuiet xs
bare-IsQuiet [] a = tt
bare-IsQuiet (c ∷ xs) (bare, a) = (ground (arith, bare), bare-IsQuiet xs a)

All-append : (P : ℕ → Type 0) (xs ys : Bytes) → All P xs → All P ys → All P (xs ++ ys)
All-append P [] ys a b = b
All-append P (x ∷ xs) ys (h, a) b = (h, All-append P xs ys a b)

before-IsQuiet : (inv : Bool) (fn : Algo) → All IsQuiet (marks_before inv fn)
unfolding marks_before
before-IsQuiet false fuzzy_match_v2 = tt
before-IsQuiet false exact_match_naive = (refl, tt)
before-IsQuiet false prefix_match = (refl, tt)
before-IsQuiet false suffix_match = tt
before-IsQuiet false equal_match = (refl, tt)
before-IsQuiet true fuzzy_match_v2 = (refl, (refl, tt))
before-IsQuiet true exact_match_naive = (refl, tt)
before-IsQuiet true prefix_match = (refl, (refl, tt))
before-IsQuiet true suffix_match = (refl, tt)
before-IsQuiet true equal_match = (refl, (refl, tt))

after-IsQuiet : (fn : Algo) → All IsQuiet (marks_after fn)
unfolding marks_after
after-IsQuiet fuzzy_match_v2 = tt
after-IsQuiet exact_match_naive = tt
after-IsQuiet prefix_match = tt
after-IsQuiet suffix_match = (refl, tt)
after-IsQuiet equal_match = (refl, tt)

print_term-IsQuiet :
    (inv : Bool) (fn : Algo) (xs : Bytes) → All IsBare xs → All IsQuiet (print_term inv fn xs)
unfolding print_term
print_term-IsQuiet inv fn xs a =
    All-append IsQuiet (marks_before inv fn) (xs ++ marks_after fn) (before-IsQuiet inv fn)
      (All-append IsQuiet xs (marks_after fn) (bare-IsQuiet xs a) (after-IsQuiet fn))

-- The case mode leaves a string without upper case letters.
bytes_eq_refl : (xs : Bytes) → bytes_eq xs xs ≡ true
unfolding bytes_eq
bytes_eq_refl [] = refl
bytes_eq_refl (c ∷ xs) = let same : (c == c) ≡ true = ground arith in rw same (bytes_eq_refl xs)

str_tolower-quiet : (xs : Bytes) → All IsQuiet xs → str_tolower xs ≡ xs
unfolding str_tolower to_lower
str_tolower-quiet [] a = refl
str_tolower-quiet (c ∷ xs) (quiet, a) =
    let small : (leb b'A' c && leb c b'Z') ≡ false = ground (arith, quiet) in
    rw (small, str_tolower-quiet xs a) refl

abbrev pub case_counts : CaseMode → Bool
case_counts case_respect = true
case_counts case_smart = false
case_counts case_ignore = false

token_text-quiet :
    (mode : CaseMode) (xs : Bytes) → All IsQuiet xs → token_text mode xs ≡ (xs, case_counts mode)
unfolding token_text
token_text-quiet case_respect xs a = refl
token_text-quiet case_ignore xs a = rw (str_tolower-quiet xs a) refl
token_text-quiet case_smart xs a = rw (str_tolower-quiet xs a, bytes_eq_refl xs) refl

-- The end of a string that has been put after another.
drop-append_length : (xs ys : Bytes) → drop (length xs) (xs ++ ys) ≡ ys
drop-append_length [] ys = refl
drop-append_length (x ∷ xs) ys = drop-append_length xs ys

take-append_length : (xs ys : Bytes) → take (length xs) (xs ++ ys) ≡ xs
take-append_length [] ys = refl
take-append_length (x ∷ xs) ys = ap (λ t. x ∷ t) (take-append_length xs ys)

-- The three steps of the marks.
strip_bang-mark :
    (fn : Algo) (inv : Bool) (w : Bytes)
    → strip_bang (record { fn = fn; inv = inv; text = b'!' ∷ w })
      ≡ record { fn = exact_match_naive; inv = true; text = w }
unfolding strip_bang has_prefix bytes_eq
strip_bang-mark fn inv w = refl

strip_bang-none :
    (fn : Algo) (inv : Bool) (c : ℕ) (w : Bytes)
    → (c == b'!') ≡ false
    → strip_bang (record { fn = fn; inv = inv; text = c ∷ w })
      ≡ record { fn = fn; inv = inv; text = c ∷ w }
unfolding strip_bang has_prefix bytes_eq
strip_bang-none fn inv c w other = rw other refl

strip_dollar-none :
    (fn : Algo) (inv : Bool) (w : Bytes)
    → Lacks b'$' w
    → strip_dollar (record { fn = fn; inv = inv; text = w })
      ≡ record { fn = fn; inv = inv; text = w }
unfolding strip_dollar
strip_dollar-none fn inv w a = rw (bytes_eq-Lacks b'$' [] w a, has_suffix-Lacks b'$' w a) refl

has_suffix-last : (w : Bytes) → has_suffix (w ++ b'$' ∷ []) (b'$' ∷ []) ≡ true
unfolding has_suffix
has_suffix-last w =
    let size = length-append w (b'$' ∷ []) in
    let some_byte : leb 1 (length (w ++ b'$' ∷ [])) ≡ true = ground (arith, size) in
    let less : length (w ++ b'$' ∷ []) - 1 ≡ length w = omega (arith, size) in
    rw (some_byte, less, drop-append_length w (b'$' ∷ [])) (bytes_eq_refl (b'$' ∷ []))

strip_dollar-mark :
    (fn : Algo) (inv : Bool) (c : ℕ) (w : Bytes)
    → (c == b'$') ≡ false
    → strip_dollar (record { fn = fn; inv = inv; text = c ∷ w ++ b'$' ∷ [] })
      ≡ record { fn = suffix_match; inv = inv; text = c ∷ w }
unfolding strip_dollar bytes_eq
strip_dollar-mark fn inv c w other =
    let less : length (c ∷ w ++ b'$' ∷ []) - 1 ≡ length (c ∷ w) =
      omega (arith, length-append w (b'$' ∷ [])) in
    rw (other, has_suffix-last (c ∷ w), less, take-append_length (c ∷ w) (b'$' ∷ [])) refl

strip_head-none :
    (fn : Algo) (inv : Bool) (c : ℕ) (w : Bytes)
    → is_plain c ≡ true
    → strip_head true (record { fn = fn; inv = inv; text = c ∷ w })
      ≡ record { fn = fn; inv = inv; text = c ∷ w }
unfolding strip_head has_prefix bytes_eq
strip_head-none fn inv c w plain =
    let quote : (c == b'\'') ≡ false = ground (arith, plain) in
    let caret : (c == b'^') ≡ false = ground (arith, plain) in rw (quote, caret) refl

-- What the marks say of the term.
chain :
    (token : Bytes) (d1 d2 d3 : Draft)
    → strip_bang (record { fn = fuzzy_match_v2; inv = false; text = token }) ≡ d1
    → strip_dollar d1 ≡ d2
    → strip_head true d2 ≡ d3
    → read_marks true token ≡ d3
unfolding read_marks
chain token d1 d2 d3 bang dollar head =
    ap (λ d. strip_head true (strip_dollar d)) bang ∙ ap (strip_head true) dollar ∙ head

module _ (c : ℕ) (xs : Bytes) (a : All IsBare (c ∷ xs)) where
  abbrev read : Bool → Algo → Bytes → Draft
  read inv fn text = record { fn = fn; inv = inv; text = text }

  plain_first : is_plain c ≡ true
  plain_first = ground (arith, a.0)

  no_bang : (c == b'!') ≡ false
  no_bang = ground (arith, a.0)

  no_dollar : Lacks b'$' (c ∷ xs)
  no_dollar = All-Lacks is_bare b'$' refl (c ∷ xs) a

  -- The marks of a printed term give its matcher, and whether it is inverse.
  read_marks-print_term :
      (inv : Bool) (fn : Algo) → read_marks true (print_term inv fn (c ∷ xs)) ≡ read inv fn (c ∷ xs)
  unfolding print_term marks_before marks_after strip_head has_prefix bytes_eq
  read_marks-print_term false fuzzy_match_v2 =
      let d = read false fuzzy_match_v2 (c ∷ xs) in
      rw (append-nil xs) (
        chain (c ∷ xs) d d d (strip_bang-none fuzzy_match_v2 false c xs no_bang)
          (strip_dollar-none fuzzy_match_v2 false (c ∷ xs) no_dollar)
          (strip_head-none fuzzy_match_v2 false c xs plain_first))
  read_marks-print_term false exact_match_naive =
      let d = read false fuzzy_match_v2 (b'\'' ∷ c ∷ xs) in
      rw (append-nil xs) (
        chain (b'\'' ∷ c ∷ xs) d d (read false exact_match_naive (c ∷ xs))
          (strip_bang-none fuzzy_match_v2 false b'\'' (c ∷ xs) refl)
          (strip_dollar-none fuzzy_match_v2 false (b'\'' ∷ c ∷ xs) (refl, no_dollar)) refl)
  read_marks-print_term false prefix_match =
      let d = read false fuzzy_match_v2 (b'^' ∷ c ∷ xs) in
      rw (append-nil xs) (
        chain (b'^' ∷ c ∷ xs) d d (read false prefix_match (c ∷ xs))
          (strip_bang-none fuzzy_match_v2 false b'^' (c ∷ xs) refl)
          (strip_dollar-none fuzzy_match_v2 false (b'^' ∷ c ∷ xs) (refl, no_dollar)) refl)
  read_marks-print_term false suffix_match =
      let d = read false suffix_match (c ∷ xs) in
      chain (c ∷ xs ++ b'$' ∷ []) (read false fuzzy_match_v2 (c ∷ xs ++ b'$' ∷ [])) d d
        (strip_bang-none fuzzy_match_v2 false c (xs ++ b'$' ∷ []) no_bang)
        (strip_dollar-mark fuzzy_match_v2 false c xs no_dollar.0)
        (strip_head-none suffix_match false c xs plain_first)
  read_marks-print_term false equal_match =
      chain (b'^' ∷ c ∷ xs ++ b'$' ∷ []) (read false fuzzy_match_v2 (b'^' ∷ c ∷ xs ++ b'$' ∷ []))
        (read false suffix_match (b'^' ∷ c ∷ xs)) (read false equal_match (c ∷ xs))
        (strip_bang-none fuzzy_match_v2 false b'^' (c ∷ xs ++ b'$' ∷ []) refl)
        (strip_dollar-mark fuzzy_match_v2 false b'^' (c ∷ xs) refl) refl
  read_marks-print_term true fuzzy_match_v2 =
      let d = read true exact_match_naive (b'\'' ∷ c ∷ xs) in
      rw (append-nil xs) (
        chain (b'!' ∷ b'\'' ∷ c ∷ xs) d d (read true fuzzy_match_v2 (c ∷ xs))
          (strip_bang-mark fuzzy_match_v2 false (b'\'' ∷ c ∷ xs))
          (strip_dollar-none exact_match_naive true (b'\'' ∷ c ∷ xs) (refl, no_dollar)) refl)
  read_marks-print_term true exact_match_naive =
      let d = read true exact_match_naive (c ∷ xs) in
      rw (append-nil xs) (
        chain (b'!' ∷ c ∷ xs) d d d (strip_bang-mark fuzzy_match_v2 false (c ∷ xs))
          (strip_dollar-none exact_match_naive true (c ∷ xs) no_dollar)
          (strip_head-none exact_match_naive true c xs plain_first))
  read_marks-print_term true prefix_match =
      let d = read true exact_match_naive (b'^' ∷ c ∷ xs) in
      rw (append-nil xs) (
        chain (b'!' ∷ b'^' ∷ c ∷ xs) d d (read true prefix_match (c ∷ xs))
          (strip_bang-mark fuzzy_match_v2 false (b'^' ∷ c ∷ xs))
          (strip_dollar-none exact_match_naive true (b'^' ∷ c ∷ xs) (refl, no_dollar)) refl)
  read_marks-print_term true suffix_match =
      let d = read true suffix_match (c ∷ xs) in
      chain (b'!' ∷ c ∷ xs ++ b'$' ∷ []) (read true exact_match_naive (c ∷ xs ++ b'$' ∷ [])) d d
        (strip_bang-mark fuzzy_match_v2 false (c ∷ xs ++ b'$' ∷ []))
        (strip_dollar-mark exact_match_naive true c xs no_dollar.0)
        (strip_head-none suffix_match true c xs plain_first)
  read_marks-print_term true equal_match =
      chain (b'!' ∷ b'^' ∷ c ∷ xs ++ b'$' ∷ [])
        (read true exact_match_naive (b'^' ∷ c ∷ xs ++ b'$' ∷ []))
        (read true suffix_match (b'^' ∷ c ∷ xs)) (read true equal_match (c ∷ xs))
        (strip_bang-mark fuzzy_match_v2 false (b'^' ∷ c ∷ xs ++ b'$' ∷ []))
        (strip_dollar-mark exact_match_naive true b'^' (c ∷ xs) refl) refl

length-print_term :
    (inv : Bool) (fn : Algo) (xs : Bytes) → length xs ≤ length (print_term inv fn xs)
unfolding print_term
length-print_term inv fn xs = omega (
  arith,
  length-append (marks_before inv fn) (xs ++ marks_after fn),
  length-append xs (marks_after fn),
)

read_marks-of_print :
    (inv : Bool) (fn : Algo) (xs : Bytes)
    → 0 < length xs
    → All IsBare xs
    → read_marks true (print_term inv fn xs) ≡ record { fn = fn; inv = inv; text = xs }
read_marks-of_print inv fn [] some_byte a = absurd (omega (arith, some_byte))
read_marks-of_print inv fn (c ∷ xs) some_byte a = read_marks-print_term c xs a inv fn

-- For each matcher, inverse or not, and a text of at least one byte without tabs, spaces, `\`,
-- the marks `!`, `$`, `'` and `^`, and upper case letters, whose print, the text between the
-- marks that ask for the matcher, is shorter than 2^63 bytes: `fzf_parse_pattern` of the print,
-- in fuzzy mode and every case mode, gives one set of one term, with that matcher, inverse or
-- not, and that text; case counts for it in the mode that respects case only, and `only_inv`
-- tells whether it is inverse.
pub fzf_parse_pattern-print_term :
    (mode : CaseMode) (normalize inv : Bool) (fn : Algo) (text : Bytes)
    → 0 < length text
    → length (print_term inv fn text) < 2 ^ 63
    → All IsBare text
    → fzf_parse_pattern mode normalize (print_term inv fn text) true
      ≡ some
          (one_term (record { fn = fn; inv = inv; text = text; case_sensitive = case_counts mode }))
fzf_parse_pattern-print_term mode normalize inv fn text some_byte small a =
    let token = print_term inv fn text in
    let quiet = print_term-IsQuiet inv fn text a in
    let d : Draft = record { fn = fn; inv = inv; text = text } in
    let kept = token_text-quiet mode token quiet in
    let marks : read_marks true (token_text mode token).0 ≡ d =
      ap (λ (t : Bytes × Bool). read_marks true t.0) kept
      ∙ read_marks-of_print inv fn text some_byte a in
    let parsed =
      fzf_parse_pattern-one mode normalize token d
        (omega (arith, length-print_term inv fn text, some_byte)) small
        (All-Lacks is_quiet 32 refl token quiet) (All-Lacks is_quiet 92 refl token quiet)
        (All-Lacks is_quiet 9 refl token quiet) marks some_byte in
    parsed
    ∙ ap
        (λ (t : Bytes × Bool).
          some (one_term (record { fn = fn; inv = inv; text = text; case_sensitive = t.1 })))
        kept

-- The print of an exact term.
pub print_term-exact :
    (inv : Bool) (xs : Bytes)
    → print_term inv exact_match_naive xs ≡ (if inv then b'!' else b'\'') ∷ xs
unfolding print_term marks_before marks_after
print_term-exact true xs = rw (append-nil xs) refl
print_term-exact false xs = rw (append-nil xs) refl

pub IsBare-IsFolded : (cs : Bool) (xs : Bytes) → All IsBare xs → IsFolded cs xs
IsBare-IsFolded cs [] a = tt
IsBare-IsFolded cs (c ∷ xs) (bare, a) = (inr (ground (arith, bare)), IsBare-IsFolded cs xs a)
