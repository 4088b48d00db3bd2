-- ===== src/Fzf/Pattern.antt =====
-- fzf.c, lines 959-1125: the query parser. `Strings` has the string helpers that it calls.
pub mod Strings
pub mod Terms
pub mod Growth
pub mod Replace
pub mod Tokens
pub mod Parsed
pub mod Lacks
pub mod Plain
pub mod Printed
use plugged.Common.{
  Bool, List, Option, [], bytes_eq, drop, false, get_elem?, if◌then◌else◌, length, ltb, not, set,
  some, take, true, ◌&&◌, ◌-◌, ◌==◌, ◌>>=◌, ◌∷◌,
}
use plugged.Fzf.Chars.{Bytes}
use plugged.Fzf.Pattern.Strings.{
  has_prefix, has_suffix, str_replace, str_replace_char, str_tolower, tokens, trim_pattern,
}
use plugged.Fzf.Pattern.Terms.{
  Algo, Pattern, Term, TermSet, append_pattern, append_set, empty_pattern, empty_set, equal_match,
  exact_match_naive, fuzzy_match_v2, prefix_match, suffix_match,
}

pub data CaseMode : Type 0 where
  case_smart case_ignore case_respect : CaseMode

-- `strdup` and `str_tolower` of a token, and whether case counts for it.
unfoldable pub token_text : CaseMode → Bytes → Bytes × Bool
unfolding str_tolower
token_text case_respect token = (token, true)
token_text case_smart token =
    let lower_text = str_tolower token in
    if bytes_eq token lower_text then (lower_text, false) else (token, true)
token_text case_ignore token = (str_tolower token, false)

-- What the marks before and after a token's text ask for.
pub record Draft : Type 0 where
  pub fn : Algo
  pub inv : Bool
  pub text : Bytes

unfoldable pub strip_bang : Draft → Draft
unfolding has_prefix
strip_bang d =
    if has_prefix d.text (b'!' ∷ [])
    then record { fn = exact_match_naive; inv = true; text = drop 1 d.text }
    else d

unfoldable pub strip_dollar : Draft → Draft
unfolding has_suffix
strip_dollar d =
    if not (bytes_eq d.text (b'$' ∷ [])) && has_suffix d.text (b'$' ∷ [])
    then record d { fn = suffix_match; text = take (length d.text - 1) d.text }
    else d

abbrev is_suffix_match : Algo → Bool
is_suffix_match suffix_match = true
is_suffix_match _ = false

unfoldable pub strip_head : Bool → Draft → Draft
unfolding has_prefix
strip_head fuzzy d =
    if has_prefix d.text (b'\'' ∷ [])
    then record d {
      fn = if fuzzy && not d.inv then exact_match_naive else fuzzy_match_v2;
      text = drop 1 d.text;
    }
    else if has_prefix d.text (b'^' ∷ [])
    then record d {
      fn = if is_suffix_match d.fn then equal_match else prefix_match;
      text = drop 1 d.text;
    }
    else d

unfoldable pub read_marks : Bool → Bytes → Draft
unfolding strip_bang strip_dollar strip_head
read_marks fuzzy text = strip_head fuzzy (
    strip_dollar (
      strip_bang (record {
        fn = if fuzzy then fuzzy_match_v2 else exact_match_naive;
        inv = false;
        text = text;
      })))

-- the variables of the parser's loop
pub record ParseState : Type 0 where
  pub pattern : Pattern
  pub set : TermSet
  pub switch_set : Bool
  pub after_bar : Bool

-- the end of a round, for a text that is not empty
unfoldable pub add_term : Term → ParseState → Option ParseState
add_term term s =
    if s.switch_set
    then (do
      pattern ← append_pattern s.pattern s.set
      set ← append_set empty_set term
      some (record s { pattern = pattern; set = set; after_bar = false }))
    else (do
      set ← append_set s.set term
      some (record s { set = set; switch_set = true; after_bar = false }))

unfoldable pub parse_token : CaseMode → Bool → Bytes → ParseState → Option ParseState
unfolding token_text read_marks add_term str_replace_char
parse_token case_mode fuzzy token s =
    let (text, case_sensitive) = token_text case_mode (str_replace_char token 9 32) in
    if ltb 0 (length s.set.terms) && not s.after_bar && bytes_eq text (b'|' ∷ [])
    then some (record s { switch_set = false; after_bar = true })
    else let d = read_marks fuzzy text in
      if ltb 0 (length d.text)
      then add_term
          (record { fn = d.fn; inv = d.inv; text = d.text; case_sensitive = case_sensitive }) s
      else some (record s { after_bar = false })

-- The loop over the tokens. A token changes nothing of the later ones.
unfoldable pub parse_tokens : CaseMode → Bool → List Bytes → ParseState → Option ParseState
unfolding parse_token
parse_tokens case_mode fuzzy [] s = some s
parse_tokens case_mode fuzzy (token ∷ tokens) s = do
  s' ← parse_token case_mode fuzzy token s
  parse_tokens case_mode fuzzy tokens s'

-- The loop that decides `only_inv`.
unfoldable pub only_inverse : List TermSet → Option Bool
only_inverse [] = some true
only_inverse (set ∷ sets) = do
  term ← get_elem? set.terms 0
  let rest = only_inverse sets
  if ltb 1 (length set.terms) then some false else if term.inv then rest else some false

-- The loop's result as a pattern: the last set is kept if it has a term.
unfoldable pub finish_pattern : ParseState → Option Pattern
finish_pattern s = do
  pattern ← if ltb 0 (length s.set.terms) then append_pattern s.pattern s.set else some s.pattern
  only ← only_inverse pattern.sets
  some (record pattern { only_inv = only })

-- `fzf_parse_pattern` does not use its argument `normalize`. It also cuts the caller's buffer at
-- the end of what `trim_pattern` leaves.
unfoldable pub fzf_parse_pattern : CaseMode → Bool → Bytes → Bool → Option Pattern
unfolding trim_pattern str_replace tokens parse_tokens finish_pattern append_set append_pattern
    only_inverse
fzf_parse_pattern case_mode normalize pattern fuzzy =
    if length pattern == 0 then some empty_pattern else (do
      copy ← str_replace (trim_pattern pattern) (92 ∷ 32 ∷ []) (9 ∷ [])
      s ← parse_tokens case_mode fuzzy (tokens [] copy) (record {
        pattern = empty_pattern;
        set = empty_set;
        switch_set = false;
        after_bar = false;
      })
      finish_pattern s)
