-- ===== src/Fzf/Pattern/Tokens.antt =====
-- That the terms of a query keep the pattern well formed as they are parsed.
use plugged.Common.{
  All, Bool, Bool-cases, List, [], arith, bytes_eq, false, inl, inr, length, length-append, ltb,
  not, refl, set, some, true, ◌&&◌, ◌++◌, ◌<◌, ◌∷◌, ◌≡◌, ◌≤◌,
}
use plugged.Fzf.Chars.{Bytes}
use plugged.Fzf.Pattern.{
  CaseMode, ParseState, add_term, parse_token, parse_tokens, read_marks, token_text,
}
use plugged.Fzf.Pattern.Growth.{append_pattern_lem, append_set_lem}
use plugged.Fzf.Pattern.Strings.{str_replace_char, tokens}
use plugged.Fzf.Pattern.Terms.{Pattern, Term, TermSet, append_pattern, append_set, empty_set}

pub All-append_one {ℓ κ} :
    {A : Type ℓ} (P : A → Type κ) (xs : List A) (x : A) → All P xs → P x → All P (xs ++ x ∷ [])
All-append_one P [] x h k = (k, tt)
All-append_one P (y ∷ xs) x (h, hs) k = (h, All-append_one P xs x hs k)

abbrev pub HasText : Term → Type 0
HasText t = 0 < length t.text

pub record IsUsable (set : TermSet) : Type 0 where
  pub fits : length set.terms ≤ set.cap
  pub some_term : 0 < length set.terms
  pub texts : All HasText set.terms

pub record IsSound (p : Pattern) : Type 0 where
  pub fits : length p.sets ≤ p.cap
  pub usable : All IsUsable p.sets

-- The loop's variables: a set that is to be closed has a term.
pub record Parses (s : ParseState) : Type 0 where
  pub sound : IsSound s.pattern
  pub fits : length s.set.terms ≤ s.set.cap
  pub texts : All HasText s.set.terms
  pub closing : s.switch_set ≡ true → 0 < length s.set.terms

append_set-Parses :
    (set : TermSet) (t : Term)
    → length set.terms ≤ set.cap
    → All HasText set.terms
    → HasText t
    → (set' : TermSet) × (append_set set t ≡ some set') × IsUsable set'
append_set-Parses set t h texts k =
    let (set', run, terms, fits) = append_set_lem set t h in
    (
      set',
      run,
      record {
        fits = fits;
        some_term = rw terms (omega (arith, length-append set.terms (t ∷ [])));
        texts = rw terms (All-append_one HasText set.terms t texts k);
      },
    )

pub append_pattern-IsSound :
    (p : Pattern) (set : TermSet)
    → IsSound p
    → IsUsable set
    → (p' : Pattern) × (append_pattern p set ≡ some p') × IsSound p'
append_pattern-IsSound p set sound usable =
    let (p', run, sets, fits, _) = append_pattern_lem p set sound.fits in
    (
      p',
      run,
      record {
        fits = fits;
        usable = rw sets (All-append_one IsUsable p.sets set sound.usable usable);
      },
    )

add_term-Parses :
    (t : Term) (s : ParseState)
    → HasText t
    → Parses s
    → (s' : ParseState) × (add_term t s ≡ some s') × Parses s'
unfolding add_term
add_term-Parses t s k inv = elim (Bool-cases s.switch_set) [
  | inl b ↦
      let closed : IsUsable s.set = record {
        fits = inv.fits;
        some_term = inv.closing b;
        texts = inv.texts;
      } in
      let (p', run, sound) = append_pattern-IsSound s.pattern s.set inv.sound closed in
      let (set', run', usable) = append_set-Parses empty_set t (omega arith) tt k in
      (
        record s { pattern = p'; set = set'; after_bar = false },
        rw (b, run, run') refl,
        record {
          sound = sound;
          fits = usable.fits;
          texts = usable.texts;
          closing = λ h. usable.some_term;
        },
      )
  | inr b ↦
      let (set', run, usable) = append_set-Parses s.set t inv.fits inv.texts k in
      (
        record s { set = set'; switch_set = true; after_bar = false },
        rw (b, run) refl,
        record {
          sound = inv.sound;
          fits = usable.fits;
          texts = usable.texts;
          closing = λ h. usable.some_term;
        },
      )
]

parse_token-Parses :
    (case_mode : CaseMode) (fuzzy : Bool) (token : Bytes) (s : ParseState)
    → Parses s
    → (s' : ParseState) × (parse_token case_mode fuzzy token s ≡ some s') × Parses s'
unfolding parse_token
parse_token-Parses case_mode fuzzy token s inv =
    let (text, case_sensitive) = token_text case_mode (str_replace_char token 9 32) in
    let d = read_marks fuzzy text in
    let t : Term = record {
      fn = d.fn;
      inv = d.inv;
      text = d.text;
      case_sensitive = case_sensitive;
    } in
    elim (Bool-cases (ltb 0 (length s.set.terms) && not s.after_bar && bytes_eq text (b'|' ∷ []))) [
      | inl bar ↦ (
        record s { switch_set = false; after_bar = true },
        rw bar refl,
        record { sound = inv.sound; fits = inv.fits; texts = inv.texts; closing = λ h. cc },
      )
      | inr word ↦ elim (Bool-cases (ltb 0 (length d.text))) [
        | inl b ↦
            let (s', run, inv') = add_term-Parses t s (ground arith) inv in
            (s', rw (word, b) run, inv')
        | inr b ↦ (
          record s { after_bar = false },
          rw (word, b) refl,
          record { sound = inv.sound; fits = inv.fits; texts = inv.texts; closing = inv.closing },
        )
      ]
    ]

pub parse_tokens-Parses :
    (case_mode : CaseMode) (fuzzy : Bool) (tokens : List Bytes) (s : ParseState)
    → Parses s
    → (s' : ParseState) × (parse_tokens case_mode fuzzy tokens s ≡ some s') × Parses s'
unfolding parse_tokens
parse_tokens-Parses case_mode fuzzy [] s inv = (s, refl, inv)
parse_tokens-Parses case_mode fuzzy (token ∷ tokens) s inv =
    let (s', run, inv') = parse_token-Parses case_mode fuzzy token s inv in
    let (s'', run', inv'') = parse_tokens-Parses case_mode fuzzy tokens s' inv' in
    (s'', rw run run', inv'')
