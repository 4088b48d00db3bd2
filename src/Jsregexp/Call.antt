-- ===== src/Jsregexp/Call.antt =====
-- jsregexp.c, lines 196-324: `regexp_call`, which lists the matches of an expression.
use plugged.Common.{
  List, Option, [], false, get_elem?, if◌then◌else◌, ltb, none, not, some, suc, true, zero, ℕ, ◌&&◌,
  ◌++◌, ◌+◌, ◌-◌, ◌/◌, ◌==◌, ◌>>=◌, ◌^◌, ◌∷◌,
}
use plugged.Fzf.Chars.{Bytes}
use plugged.Jsregexp.Engine.{
  Decoder, Engine, Lua, Span, exec_error, match_at, nothing_found, raised, returned,
}
use plugged.Jsregexp.Exec.{Filled, byte_offset, capture_text, store_named}
use plugged.Jsregexp.Text.{JsString, TextArg, lua_tojsstring}

-- A match as a Lua table.
pub record Match : Type 0 where
  pub begin_ind : ℕ
  pub end_ind : ℕ
  pub groups : List Bytes
  pub named_groups : Option (List (Bytes × Bytes))

-- The loop over the groups: `k` of them from the i-th on.
unfoldable pub group_loop : JsString → List Span → ℕ → ℕ → Filled → Option Filled
unfolding capture_text store_named
group_loop input spans zero i s = some s
group_loop input spans (suc k) i s = do
  span ← get_elem? spans i
  text ← capture_text input span
  named ← store_named i text s
  group_loop input spans k (suc i) (record named { captures = named.captures ++ (text ∷ []) })

-- `cindex` after a match: its end, or the next character if the match is empty.
unfoldable pub next_index : JsString → ℕ → ℕ → ℕ → Option ℕ
next_index input cindex from to =
    if from == to
    then (if input.is_wide_char
        then (do
          u ← get_elem? input.units (cindex + 1)
          some (if u / 2 ^ 10 == 55 then cindex + 2 else cindex + 1))
        else some (cindex + 1))
    else some to

-- The table for one match.
unfoldable pub call_match :
    (engine : Engine) → engine.Bytecode → JsString → List Span → ℕ → ℕ → Option Match
unfolding byte_offset group_loop
call_match engine bc input spans from to = do
  begin ← byte_offset input from
  end ← byte_offset input to
  let named = (engine.lre_get_flags bc).named_groups
  let names = if named then engine.lre_get_groupnames bc else none
  filled ←
      group_loop input spans (engine.lre_get_capture_count bc - 1) 1
        (record { names = names; groups = []; captures = [] })
  some (record {
    begin_ind = 1 + begin;
    end_ind = end;
    groups = filled.captures;
    named_groups = if named then some filled.groups else none;
  })

-- The loop over the matches from `cindex` on, on fuel: `none` is a fault or the end of the fuel.
unfoldable pub call_loop :
    (engine : Engine) → engine.Bytecode → JsString → ℕ → ℕ → Option (List Match)
unfolding next_index call_match
call_loop engine bc input zero cindex = none
call_loop engine bc input (suc fuel) cindex =
    elim (engine.lre_exec bc input.units cindex input.len input.is_wide_char) [
      | exec_error ↦ some []
      | nothing_found ↦ some []
      | match_at spans ↦ do
        whole ← get_elem? spans 0
        (from, to) ← whole
        next ← next_index input cindex from to
        table ← call_match engine bc input spans from to
        let rest = call_loop engine bc input fuel next
        let more = (engine.lre_get_flags bc).global && not (ltb input.len next)
        elim more [ true ↦ do tables ← rest; some (table ∷ tables) | false ↦ some (table ∷ []) ]
    ]

-- Fuel for a loop whose `cindex` grows up to `len + 1`.
abbrev pub call_fuel : JsString → ℕ
call_fuel input = input.len + 2

-- Lines 196-324.
unfoldable pub regexp_call :
    (engine : Engine) → Decoder → engine.Bytecode → TextArg → Option (Lua (List Match))
regexp_call engine decode bc arg = do
  converted ← lua_tojsstring decode arg
  elim converted [
    | raised e ↦ some (raised e)
    | returned input ↦ do
      tables ← call_loop engine bc input (call_fuel input) 0
      some (returned tables)
  ]
