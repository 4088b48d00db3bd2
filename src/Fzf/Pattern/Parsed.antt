-- ===== src/Fzf/Pattern/Parsed.antt =====
-- What the parser keeps: every set of a parsed query has a term, every term a text, and the arrays
-- hold what is in them.
use plugged.Common.{
  All, Bool, Bool-cases, List, [], arith, false, get_elem?, get_elem?-of_lt, inl, inr, length,
  length-take, ltb, neq-false, refl, set, some, suc, take, true, zero, ℕ, ◌+◌, ◌-◌, ◌<◌, ◌^◌, ◌↔◌,
  ◌∷◌, ◌≡◌, ◌≤◌,
}
use plugged.Fzf.Chars.{Bytes}
use plugged.Fzf.Pattern.{CaseMode, ParseState, finish_pattern, fzf_parse_pattern, only_inverse}
use plugged.Fzf.Pattern.Replace.{str_replace-IsTotal}
use plugged.Fzf.Pattern.Strings.{
  tokens, trim_left_loop, trim_pattern, trim_right_loop, trim_whitespace_left,
}
use plugged.Fzf.Pattern.Terms.{Pattern, Term, TermSet, empty_pattern, empty_set}
use plugged.Fzf.Pattern.Tokens.{
  IsSound, IsUsable, Parses, append_pattern-IsSound, parse_tokens-Parses,
}

-- A set of one inverse term.
abbrev pub IsInverse : TermSet → Type 0
IsInverse set = (t : Term) × (set.terms ≡ t ∷ []) × (t.inv ≡ true)

only_one :
    (terms : List Term) (t : Term)
    → get_elem? terms 0 ≡ some t
    → ltb 1 (length terms) ≡ false
    → terms ≡ t ∷ []
only_one [] t e h = cc
only_one (u ∷ []) t e h = cc
only_one (u ∷ v ∷ terms) t e h = let never : ⊥ = ground arith in absurd never

-- On sets with terms, the parser's last loop decides whether each is one inverse term.
only_inverse_iff :
    (sets : List TermSet)
    → All IsUsable sets
    → (b : Bool) × (only_inverse sets ≡ some b) × ((b ≡ true) ↔ All IsInverse sets)
unfolding only_inverse
only_inverse_iff [] h = (true, refl, ((λ e. tt), λ a. refl))
only_inverse_iff (set ∷ sets) (usable, h) =
    let (t, e) = get_elem?-of_lt set.terms 0 usable.some_term in
    let (b, run, iff) = only_inverse_iff sets h in
    elim (Bool-cases (ltb 1 (length set.terms))) [
      | inl many ↦ (
        false,
        rw (e, many) refl,
        ((λ k. cc), λ (inverse, _). let (u, single, _) = inverse in cc (rw single at many)),
      )
      | inr one ↦ elim (Bool-cases t.inv) [
        | inr plain ↦ (
          false,
          rw (e, one, plain) refl,
          (
            (λ k. cc),
            λ (inverse, _). let (u, single, i) = inverse in let first = rw single at e in cc,
          ),
        )
        | inl inverse ↦ (
          b,
          rw (e, one, inverse) run,
          ((λ k. ((t, only_one set.terms t e one, inverse), iff.0 k)), λ (_, rest). iff.1 rest),
        )
      ]
    ]

finish_pattern-IsSound :
    (s : ParseState)
    → Parses s
    → (p : Pattern) × (finish_pattern s ≡ some p)
      × IsSound p
      × ((p.only_inv ≡ true) ↔ All IsInverse p.sets)
unfolding finish_pattern
finish_pattern-IsSound s inv = elim (Bool-cases (ltb 0 (length s.set.terms))) [
  | inl b ↦
      let last : IsUsable s.set = record {
        fits = inv.fits;
        some_term = ground arith;
        texts = inv.texts;
      } in
      let (p, run, sound) = append_pattern-IsSound s.pattern s.set inv.sound last in
      let (only, run', iff) = only_inverse_iff p.sets sound.usable in
      (
        record p { only_inv = only },
        rw (b, run, run') refl,
        record { fits = sound.fits; usable = sound.usable },
        iff,
      )
  | inr b ↦
      let (only, run', iff) = only_inverse_iff s.pattern.sets inv.sound.usable in
      (
        record s.pattern { only_inv = only },
        rw (b, run') refl,
        record { fits = inv.sound.fits; usable = inv.sound.usable },
        iff,
      )
]

trim_left_loop-le : (i : ℕ) (xs : Bytes) → length (trim_left_loop i xs) ≤ length xs
unfolding trim_left_loop
trim_left_loop-le i [] = omega arith
trim_left_loop-le i (c ∷ xs) = ground (arith, trim_left_loop-le (i + 1) xs)

trim_right_loop-le : (fuel : ℕ) (xs : Bytes) → length (trim_right_loop fuel xs) ≤ length xs
unfolding trim_right_loop
trim_right_loop-le zero xs = omega arith
trim_right_loop-le (suc fuel) xs =
    ground
      (arith, trim_right_loop-le fuel (take (length xs - 1) xs), length-take (length xs - 1) xs)

trim_pattern-le : (xs : Bytes) → length (trim_pattern xs) ≤ length xs
unfolding trim_pattern trim_whitespace_left
trim_pattern-le xs = omega (
  arith,
  trim_left_loop-le 0 xs,
  trim_right_loop-le (length (trim_left_loop 0 xs)) (trim_left_loop 0 xs),
)

-- On a query of at least one and less than 2^63 bytes, in every mode, `fzf_parse_pattern`
-- returns a pattern without a fault: the sets, and the terms of each set, fit their capacity,
-- each set has a term, each term's text has a byte, and `only_inv` is true exactly if each set
-- is one inverse term.
pub parse-IsSound :
    (case_mode : CaseMode) (normalize fuzzy : Bool) (pattern : Bytes)
    → 0 < length pattern
    → length pattern < 2 ^ 63
    → (p : Pattern) × (fzf_parse_pattern case_mode normalize pattern fuzzy ≡ some p)
      × IsSound p
      × ((p.only_inv ≡ true) ↔ All IsInverse p.sets)
unfolding fzf_parse_pattern
parse-IsSound case_mode normalize fuzzy pattern some_byte small =
    let (copy, copied) =
      str_replace-IsTotal (trim_pattern pattern) 92 32 9 (omega (arith, trim_pattern-le pattern)) in
    let start : ParseState = record {
      pattern = empty_pattern;
      set = empty_set;
      switch_set = false;
      after_bar = false;
    } in
    let begun : Parses start = record {
      sound = record { fits = omega arith; usable = tt };
      fits = omega arith;
      texts = tt;
      closing = λ h. cc;
    } in
    let (s, run, inv) = parse_tokens-Parses case_mode fuzzy (tokens [] copy) start begun in
    let (p, finished, sound, iff) = finish_pattern-IsSound s inv in
    (p, rw (neq-false (length pattern) 0 (omega arith), copied, run) finished, sound, iff)
