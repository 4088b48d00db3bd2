-- ===== src/Jsregexp/Exec/Outcome.antt =====
-- What `regexp_exec` should give on each of its branches.
use plugged.Common.{
  Bool, List, Option, drop, get_elem?, if◌then◌else◌, length, map, none, some, take, ℕ, ◌+◌, ◌-◌,
  ◌<◌, ◌||◌, ◌∷◌, ◌≡◌, ◌≤◌, ◌⊎◌,
}
use plugged.Jsregexp.Captures.{span_text}
use plugged.Jsregexp.Engine.{
  Engine, Found, Lua, Span, exec_error, match_at, nothing_found, out_of_memory, raised, returned,
}
use plugged.Jsregexp.Exec.{ExecMatch, Regexp}
use plugged.Jsregexp.Text.{JsString}

-- The expression keeps the place of the next search.
abbrev pub keeps_place : (engine : Engine) → engine.Bytecode → Bool
keeps_place engine bc = (engine.lre_get_flags bc).global || (engine.lre_get_flags bc).sticky

-- Where the search starts.
abbrev pub start_of : (engine : Engine) → Regexp engine → ℕ
start_of engine r = if keeps_place engine r.bc then r.last_index else 0

-- What the engine gives for the search.
abbrev pub searched : (engine : Engine) → Regexp engine → JsString → Found
searched engine r input =
    engine.lre_exec r.bc input.units (start_of engine r) input.len input.is_wide_char

-- The match that a call reports lies in the text, at or after the place where the search starts,
-- is the one that the engine found, and has a capture for each group; its end is the place of
-- the next search.
pub record IsMatch (engine : Engine) (r r' : Regexp engine) (input : JsString) (m : ExecMatch)
    (a b : ℕ) : Type 0 where
  pub found : (spans : List Span) × (searched engine r input ≡ match_at (some (a, b) ∷ spans))
  pub index_at : m.index ≡ 1 + a
  pub from_start : start_of engine r ≤ a
  pub ordered : a ≤ b
  pub inside : b ≤ input.len
  pub captured : length m.captures ≡ engine.lre_get_capture_count r.bc
  pub texts : m.captures ≡ map (span_text input.units) (some (a, b) ∷ found.0)
  pub whole : get_elem? m.captures 0 ≡ some (take (b - a) (drop a input.units))
  pub next : r' ≡ record r { last_index = if keeps_place engine r.bc then b else 0 }

-- What a call gives: an error where the engine fails; no match, and the search starts over, where
-- the place of the search is past the text or the engine finds nothing; or a match.
abbrev pub ExecResult :
    (engine : Engine) → Regexp engine → JsString → Lua (Option ExecMatch × Regexp engine) → Type 0
ExecResult engine r input (raised e) = (e ≡ out_of_memory) × (searched engine r input ≡ exec_error)
ExecResult engine r input (returned (none, r')) =
    (r' ≡ record r { last_index = 0 })
    × ((input.len < start_of engine r) ⊎ (searched engine r input ≡ nothing_found))
ExecResult engine r input (returned (some m, r')) =
    (start_of engine r ≤ input.len) × (a : ℕ) × (b : ℕ) × IsMatch engine r r' input m a b
