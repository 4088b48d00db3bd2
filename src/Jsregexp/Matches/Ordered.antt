-- ===== src/Jsregexp/Matches/Ordered.antt =====
-- That `match` lists the matches of a global expression in order.
use plugged.Common.{
  List, [], false, if◌then◌else◌, length, map, some, true, ℕ, ◌+◌, ◌-◌, ◌<◌, ◌==◌, ◌^◌, ◌∷◌, ◌≡◌,
  ◌≤◌, ◌⊎◌,
}
use plugged.Jsregexp.Captures.{FindsWithin, NamesFor, span_text}
use plugged.Jsregexp.Engine.{
  Engine, Found, Lua, Span, match_at, nothing_found, out_of_memory, raised, returned,
}
use plugged.Jsregexp.Exec.{ExecMatch, Regexp}
use plugged.Jsregexp.Exec.Outcome.{keeps_place}
use plugged.Jsregexp.Matches.{match_loop}
use plugged.Jsregexp.Text.{JsString}

-- Where the search goes on after a match from `a` to `b`.
abbrev pub resume_at : ℕ → ℕ → ℕ
resume_at a b = if a == b then b + 1 else b

-- What the engine gives from a place on.
abbrev pub found_from : (engine : Engine) → engine.Bytecode → JsString → ℕ → Found
found_from engine bc input from = engine.lre_exec bc input.units from input.len input.is_wide_char

-- The matches are those that the engine finds, from the place `from` on: each starts at or after
-- the end of the one before, and after it where that one is empty, and from the place after the
-- last one the engine finds nothing, if it is not past the text.
abbrev pub Ordered : (engine : Engine) → engine.Bytecode → JsString → ℕ → List ExecMatch → Type 0
Ordered engine bc input from [] =
    (input.len < from) ⊎ (found_from engine bc input from ≡ nothing_found)
Ordered engine bc input from (m ∷ ms) =
    (a : ℕ) × (b : ℕ) × (spans : List Span) × (found_from engine bc input from
      ≡ match_at (some (a, b) ∷ spans))
    × (m.index ≡ 1 + a)
    × (from ≤ a)
    × (a ≤ b)
    × (b ≤ input.len)
    × (m.captures ≡ map (span_text input.units) (some (a, b) ∷ spans))
    × Ordered engine bc input (resume_at a b) ms

-- The matches are in order and the next search starts over, or the engine failed.
abbrev pub ListedInOrder :
    (engine : Engine) → Regexp engine → JsString → Lua (List ExecMatch × Regexp engine) → Type 0
ListedInOrder engine r input (raised e) = e ≡ out_of_memory
ListedInOrder engine r input (returned (ms, r')) =
    (r' ≡ record r { last_index = 0 }) × Ordered engine r.bc input r.last_index ms

module _ (input : JsString) (narrow : input.is_wide_char ≡ false)
    (held : input.len ≤ length input.units) (short : input.len + 2 < 2 ^ 31) where
  module _ (engine : Engine) (r : Regexp engine) (law : FindsWithin engine r.bc)
      (named : NamesFor (engine.lre_get_capture_count r.bc - 1) (engine.lre_get_groupnames r.bc))
      (keeps : keeps_place engine r.bc ≡ true) where
    -- The expression with the search at `i`.
    abbrev at : ℕ → Regexp engine
    at i = record r { last_index = i }

    abbrev Goal : ℕ → ℕ → Type 0
    Goal fuel i =
        (result : Lua (List ExecMatch × Regexp engine)) × (match_loop engine input fuel (at i)
          ≡ some result)
        × ListedInOrder engine (at i) input result
