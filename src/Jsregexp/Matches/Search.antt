-- ===== src/Jsregexp/Matches/Search.antt =====
-- That `search` finds the first match of an expression and leaves the expression as it was.
use plugged.Common.{List, Option, false, length, none, some, ℕ, ◌+◌, ◌-◌, ◌<◌, ◌^◌, ◌∷◌, ◌≡◌, ◌≤◌}
use plugged.Jsregexp.Captures.{FindsWithin, NamesFor}
use plugged.Jsregexp.Engine.{
  Engine, Lua, Span, match_at, nothing_found, out_of_memory, raised, returned,
}
use plugged.Jsregexp.Exec.{Regexp}
use plugged.Jsregexp.Text.{JsString}

-- What `search` gives: the engine's failure, or the place of the match that the engine finds from
-- the start, if it finds one, and the expression.
abbrev pub SearchResult :
    (engine : Engine) → Regexp engine → JsString → Lua (Option ℕ × Regexp engine) → Type 0
SearchResult engine r input (raised e) = e ≡ out_of_memory
SearchResult engine r input (returned (none, r')) =
    (r' ≡ r) × (engine.lre_exec r.bc input.units 0 input.len input.is_wide_char ≡ nothing_found)
SearchResult engine r input (returned (some i, r')) =
    (r' ≡ r)
    × (a : ℕ) × (b : ℕ) × (spans : List Span) × (engine.lre_exec r.bc input.units 0 input.len
          input.is_wide_char
        ≡ match_at (some (a, b) ∷ spans))
    × (i ≡ 1 + a)

module _ (input : JsString) (narrow : input.is_wide_char ≡ false)
    (held : input.len ≤ length input.units) (engine : Engine) (r : Regexp engine)
    (law : FindsWithin engine r.bc)
    (named : NamesFor (engine.lre_get_capture_count r.bc - 1) (engine.lre_get_groupnames r.bc))
    (short : r.last_index + 1 < 2 ^ 31) where
  abbrev at_start : Regexp engine
  at_start = record r { last_index = 0 }

  -- The expression with its place set back.
  abbrev restored : Regexp engine → Regexp engine
  restored r' = record r' { last_index = r.last_index }
