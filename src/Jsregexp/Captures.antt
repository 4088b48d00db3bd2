-- ===== src/Jsregexp/Captures.antt =====
-- What the engine promises of its captures, and that the groups of a match are read without a fault.
-- The captures lie in the text.
use mathlib.Core.List.{append_assoc, append-nil}
use plugged.Common.{
  Bool, List, Option, [], ap, arith, drop, drop-of_get_elem?, false, get_elem?, get_elem?-of_lt,
  if◌then◌else◌, length, map, none, refl, slice?_in, some, suc, sym, take, zero, ℕ, ◌++◌, ◌+◌, ◌-◌,
  ◌==◌, ◌∙◌, ◌∷◌, ◌≡◌, ◌≤◌,
}
use plugged.Fzf.Chars.{Bytes}
use plugged.Jsregexp.Call.{group_loop}
use plugged.Jsregexp.Engine.{Engine, Span, match_at}
use plugged.Jsregexp.Exec.{Filled, byte_offset, capture_text, store_named}
use plugged.Jsregexp.Text.{JsString}

abbrev pub AllWithin : ℕ → List Span → Type 0
AllWithin len [] = Unit
AllWithin len (none ∷ spans) = AllWithin len spans
AllWithin len (some (a, b) ∷ spans) = (a ≤ b) × (b ≤ len) × AllWithin len spans

-- The first capture, the match itself, is set and starts at `from` or after it.
abbrev pub StartsFrom : ℕ → List Span → Type 0
StartsFrom from [] = ⊥
StartsFrom from (none ∷ spans) = ⊥
StartsFrom from (some (a, b) ∷ spans) = from ≤ a

-- What the engine promises of a search of `len` units: it gives a pair for each group, in the text.
abbrev pub FindsWithin : (engine : Engine) → engine.Bytecode → Type 0
FindsWithin engine bc =
    (units : List ℕ) (from len : ℕ) (wide : Bool) (spans : List Span)
    → engine.lre_exec bc units from len wide ≡ match_at spans
    → StartsFrom from spans × AllWithin len spans × (length spans ≡ engine.lre_get_capture_count bc)

-- There is a name, or an empty string, for each of `k` groups.
abbrev pub NamesFor : ℕ → Option (List Bytes) → Type 0
NamesFor k none = Unit
NamesFor k (some names) = k ≤ length names

-- The units of a capture; none of one that took no part in the match.
abbrev pub span_text : List ℕ → Span → Bytes
span_text units none = []
span_text units (some (a, b)) = take (b - a) (drop a units)

-- The texts of `k` captures from the i-th on.
abbrev pub texts_at : List ℕ → List Span → ℕ → ℕ → List Bytes
texts_at units spans k i = map (span_text units) (take k (drop i spans))

pub texts_at-suc :
    (units : List ℕ) (spans : List Span) (k i : ℕ) (span : Span) (before : List Bytes)
    → get_elem? spans i ≡ some span
    → (before ++ (span_text units span ∷ [])) ++ texts_at units spans k (suc i)
      ≡ before ++ texts_at units spans (suc k) i
texts_at-suc units spans k i span before at =
    rw (drop-of_get_elem? i spans at)
      (append_assoc before (span_text units span ∷ []) (texts_at units spans k (suc i)))

pub get_span :
    (len : ℕ) (spans : List Span) (i : ℕ) {a b : ℕ}
    → AllWithin len spans
    → get_elem? spans i ≡ some (some (a, b))
    → (a ≤ b) × (b ≤ len)
get_span len [] i w e = cc
get_span len (none ∷ spans) zero w e = ground arith
get_span len (none ∷ spans) (suc i) w e = get_span len spans i w e
get_span len (some (a, b) ∷ spans) zero (h, k, w) e = ground arith
get_span len (some (a, b) ∷ spans) (suc i) (h, k, w) e = get_span len spans i w e

pub store_named-IsTotal :
    (i k : ℕ) (text : Bytes) (s : Filled)
    → NamesFor (suc k) s.names
    → (s' : Filled) × (store_named (suc i) text s ≡ some s')
      × NamesFor k s'.names
      × (s'.captures ≡ s.captures)
unfolding store_named
store_named-IsTotal i k text s n = go s.names refl n
  where
    go :
        (names : Option (List Bytes))
        → s.names ≡ names
        → NamesFor (suc k) names
        → (s' : Filled) × (store_named (suc i) text s ≡ some s')
          × NamesFor k s'.names
          × (s'.captures ≡ s.captures)
    go none e n = (s, rw e refl, rw e tt, refl)
    go (some []) e n = ground arith
    go (some (m ∷ ms)) e n =
        let stored : Filled = record s {
          names = some ms;
          groups = if length m == 0 then s.groups else s.groups ++ ((m, text) ∷ []);
        } in
        (stored, rw e refl, omega arith, refl)

module _ (input : JsString) (narrow : input.is_wide_char ≡ false)
    (held : input.len ≤ length input.units) where
  pub capture_text-IsTotal :
      (spans : List Span) (i : ℕ) (span : Span)
      → AllWithin input.len spans
      → get_elem? spans i ≡ some span
      → capture_text input span ≡ some (span_text input.units span)
  unfolding capture_text
  capture_text-IsTotal spans i none w e = rw narrow
  capture_text-IsTotal spans i (some (a, b)) w e =
      let (le, inside) = get_span input.len spans i w e in
      rw (narrow, slice?_in input.units a b le (omega arith))

  pub byte_offset-narrow : (i : ℕ) → byte_offset input i ≡ some i
  unfolding byte_offset
  byte_offset-narrow i = rw narrow

  pub group_loop-IsTotal :
      (spans : List Span) (k i : ℕ) (s : Filled)
      → AllWithin input.len spans
      → suc i + k ≤ length spans
      → NamesFor k s.names
      → (s' : Filled) × (group_loop input spans k (suc i) s ≡ some s')
        × (s'.captures ≡ s.captures ++ texts_at input.units spans k (suc i))
  unfolding group_loop
  group_loop-IsTotal spans zero i s w h n = (s, refl, sym (append-nil s.captures))
  group_loop-IsTotal spans (suc k) i s w h n =
      let (span, at) = get_elem?-of_lt spans (suc i) (omega arith) in
      let text = span_text input.units span in
      let e = capture_text-IsTotal spans (suc i) span w at in
      let (named, stored, n', same) = store_named-IsTotal i k text s n in
      let (s', run, all) =
        group_loop-IsTotal spans k (suc i)
          (record named { captures = named.captures ++ (text ∷ []) }) w (omega arith) n' in
      (
        s',
        rw (at, e, stored) run,
        all
            ∙ ap (λ t. (t ++ (text ∷ [])) ++ texts_at input.units spans k (suc (suc i))) same
            ∙ texts_at-suc input.units spans k (suc i) span s.captures at,
      )
