-- ===== src/Jsregexp/Matches.antt =====
-- jsregexp.lua, lines 7-46: the matches of an expression, by calls of `regexp_exec`.
pub mod Ordered
pub mod Endless
pub mod Search
use plugged.Common.{
  List, Option, [], get_elem?, if◌then◌else◌, length, none, pos, some, suc, zero, ℕ, ◌+◌, ◌==◌,
  ◌>>=◌, ◌∷◌,
}
use plugged.Jsregexp.Engine.{Engine, Lua, raised, returned}
use plugged.Jsregexp.Exec.{ExecMatch, Regexp, exec_on}
use plugged.Jsregexp.Fields.{last_index_key, regexp_newindex}
use plugged.Jsregexp.Text.{JsString}

-- What a loop over the calls returns to Lua, and the expression it leaves.
abbrev pub Listed : (engine : Engine) → Type 0
Listed engine = Option (Lua (List ExecMatch × Regexp engine))

-- A match before those of the rest of the loop.
unfoldable pub add_match : (engine : Engine) → ExecMatch → Listed engine → Listed engine
add_match engine m none = none
add_match engine m (some (raised e)) = some (raised e)
add_match engine m (some (returned (ms, r))) = some (returned (m ∷ ms, r))

-- Line 19: after an empty match the place of the search moves on, `val[0]` being the whole match.
unfoldable pub skip_empty :
    (engine : Engine) → ExecMatch → Regexp engine → Option (Lua (Regexp engine))
unfolding regexp_newindex
skip_empty engine m r = do
  whole ← get_elem? m.captures 0
  if length whole == 0
      then regexp_newindex engine r last_index_key (pos (suc (r.last_index + 1)))
      else some (returned r)

-- Lines 15-20, on fuel: `none` is a fault or the end of the fuel.
unfoldable pub match_loop : (engine : Engine) → JsString → ℕ → Regexp engine → Listed engine
unfolding exec_on skip_empty add_match
match_loop engine input zero r = none
match_loop engine input (suc fuel) r = do
  step ← exec_on engine r input
  elim step [
    | raised e ↦ some (raised e)
    | returned (none, r') ↦ some (returned ([], r'))
    | returned (some m, r') ↦ do
      skipped ← skip_empty engine m r'
      elim skipped [
        | raised e ↦ some (raised e)
        | returned next ↦ add_match engine m (match_loop engine input fuel next)
      ]
  ]

-- What `match` gives: the one match of an expression that is not global, or all of them.
pub data Matched : Type 0 where
  first_match : Option ExecMatch → Matched
  all_matches : Option (List ExecMatch) → Matched

-- Lines 7-23, `match`, after the text has been converted; no match at all is `nil`.
unfoldable pub match_text :
    (engine : Engine) → ℕ → Regexp engine → JsString → Option (Lua (Matched × Regexp engine))
unfolding exec_on match_loop
match_text engine fuel r input =
    if (engine.lre_get_flags r.bc).global
    then (do
      listed ← match_loop engine input fuel (record r { last_index = 0 })
      elim listed [
        | raised e ↦ some (raised e)
        | returned ([], r') ↦ some (returned (all_matches none, r'))
        | returned (m ∷ ms, r') ↦ some (returned (all_matches (some (m ∷ ms)), r'))
      ])
    else (do
      step ← exec_on engine r input
      elim step [
        | raised e ↦ some (raised e)
        | returned (m, r') ↦ some (returned (first_match m, r'))
      ])

-- Lines 25-36, the loop of `match_all_list`, which calls `exec` until it gives `nil`, on fuel.
unfoldable pub match_all_loop : (engine : Engine) → JsString → ℕ → Regexp engine → Listed engine
unfolding exec_on add_match
match_all_loop engine input zero r = none
match_all_loop engine input (suc fuel) r = do
  step ← exec_on engine r input
  elim step [
    | raised e ↦ some (raised e)
    | returned (none, r') ↦ some (returned ([], r'))
    | returned (some m, r') ↦ add_match engine m (match_all_loop engine input fuel r')
  ]

-- Lines 38-46, `search`, after the text has been converted: the place of the search is set to the
-- start and back; `none` is the result -1.
unfoldable pub search_text :
    (engine : Engine) → Regexp engine → JsString → Option (Lua (Option ℕ × Regexp engine))
search_text engine r input = do
  step ← exec_on engine (record r { last_index = 0 }) input
  elim step [
    | raised e ↦ some (raised e)
    | returned (m, r') ↦ do
      restored ← regexp_newindex engine r' last_index_key (pos (suc r.last_index))
      elim restored [
        | raised e ↦ some (raised e)
        | returned r'' ↦ some (returned (elim m [ none ↦ none | some x ↦ some x.index ], r''))
      ]
  ]
