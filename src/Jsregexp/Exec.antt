-- ===== src/Jsregexp/Exec.antt =====
-- jsregexp.c, lines 35-39 and 372-485: `regexp_exec`, which keeps the place of the next search in
-- the regular expression, and `regexp_test`.
pub mod Outcome
pub mod Result
use plugged.Common.{
  Bool, List, Option, [], false, get_elem?, if◌then◌else◌, leb, length, ltb, none, slice?, some,
  suc, true, zero, ℕ, ◌&&◌, ◌++◌, ◌+◌, ◌==◌, ◌>>=◌, ◌||◌, ◌∷◌,
}
use plugged.Fzf.Chars.{Bytes}
use plugged.Jsregexp.Engine.{
  Decoder, Engine, Lua, Span, exec_error, match_at, nothing_found, out_of_memory, raised, returned,
  two_arguments_expected,
}
use plugged.Jsregexp.Text.{JsString, TextArg, lua_tojsstring}

-- Lines 35-39: a compiled expression.
pub record Regexp (engine : Engine) : Type 0 where
  pub expr : Bytes
  pub bc : engine.Bytecode
  pub last_index : ℕ

-- A captured part of the text. In a wide text the offsets are first looked up in `indices`, and a
-- null pointer gives an index outside of it; in another text it gives the empty string.
unfoldable pub capture_text : JsString → Span → Option Bytes
capture_text input none = if input.is_wide_char then none else some []
capture_text input (some (from, to)) =
    if input.is_wide_char
    then (do
      a ← get_elem? input.indices from
      b ← get_elem? input.indices to
      slice? input.bstr a b)
    else slice? input.units from to

-- The byte offset in the Lua string of an offset in the text.
unfoldable pub byte_offset : JsString → ℕ → Option ℕ
byte_offset input i = if input.is_wide_char then get_elem? input.indices i else some i

-- A match as a Lua table; `groups` holds the named groups in the order they are set.
pub record ExecMatch : Type 0 where
  pub input : Bytes
  pub capture_count : ℕ
  pub index : ℕ
  pub groups : Option (List (Bytes × Bytes))
  pub captures : List Bytes

-- The parts that the loop over the captures fills.
pub record Filled : Type 0 where
  pub names : Option (List Bytes)
  pub groups : List (Bytes × Bytes)
  pub captures : List Bytes

-- Lines 457-466: a named group is stored under its name, and the names move on.
unfoldable pub store_named : ℕ → Bytes → Filled → Option Filled
store_named zero text s = some s
store_named (suc i) text s = elim s.names [
  | none ↦ some s
  | some names ↦ elim names [
    | [] ↦ none
    | n ∷ ns ↦ some (record s {
      names = some ns;
      groups = if length n == 0 then s.groups else s.groups ++ ((n, text) ∷ []);
    })
  ]
]

-- Lines 449-469: `k` captures from the i-th on.
unfoldable pub capture_loop : JsString → List Span → ℕ → ℕ → Filled → Option Filled
unfolding capture_text store_named
capture_loop input spans zero i s = some s
capture_loop input spans (suc k) i s = do
  span ← get_elem? spans i
  text ← capture_text input span
  named ← store_named i text s
  capture_loop input spans k (suc i) (record named { captures = named.captures ++ (text ∷ []) })

-- The offset at which the search starts, in units.
unfoldable pub search_start : ℕ → JsString → Option ℕ
search_start last_index input =
    if input.is_wide_char && leb last_index input.bstr_len
    then get_elem? input.rev_indices last_index
    else some last_index

-- Lines 442-447: the table of named groups is there when the expression has group names.
abbrev pub groups_table : Option (List Bytes) → Filled → Option (List (Bytes × Bytes))
groups_table none s = none
groups_table (some _) s = some s.groups

-- The table for a match that the engine found.
unfoldable pub match_table :
    (engine : Engine) → engine.Bytecode → JsString → List Span → ℕ → Option ExecMatch
unfolding capture_loop byte_offset
match_table engine bc input spans from = do
  begin ← byte_offset input from
  let names = engine.lre_get_groupnames bc
  filled ←
      capture_loop input spans (engine.lre_get_capture_count bc) 0
        (record { names = names; groups = []; captures = [] })
  some (record {
    input = input.bstr;
    capture_count = engine.lre_get_capture_count bc;
    index = 1 + begin;
    groups = groups_table names filled;
    captures = filled.captures;
  })

-- What a call returns to Lua, and the expression it leaves.
abbrev pub Step : (engine : Engine) → Type 0
Step engine = Option (Lua (Option ExecMatch × Regexp engine))

-- Lines 379-471, after the text has been converted.
unfoldable pub exec_on : (engine : Engine) → Regexp engine → JsString → Step engine
unfolding search_start match_table byte_offset
exec_on engine r input = do
  let flags = engine.lre_get_flags r.bc
  let keeps = flags.global || flags.sticky
  translated ← search_start r.last_index input
  let start = if keeps then translated else 0
  let r' = if keeps then r else record r { last_index = 0 }
  let cleared = record r { last_index = 0 }
  if keeps && ltb input.len start
      then some (returned (none, cleared))
      else (elim (engine.lre_exec r.bc input.units start input.len input.is_wide_char) [
        | exec_error ↦ some (raised out_of_memory)
        | nothing_found ↦ some (returned (none, cleared))
        | match_at spans ↦ do
          whole ← get_elem? spans 0
          (from, to) ← whole
          end ← byte_offset input to
          found ← match_table engine r.bc input spans from
          some (returned (some found, if keeps then record r' { last_index = end } else r'))
      ])

-- Lines 372-472: `regexp_exec`.
unfoldable pub regexp_exec : (engine : Engine) → Decoder → Regexp engine → TextArg → Step engine
unfolding lua_tojsstring exec_on
regexp_exec engine decode r arg = do
  converted ← lua_tojsstring decode arg
  elim converted [ raised e ↦ some (raised e) | returned input ↦ exec_on engine r input ]

-- Lines 475-485: `regexp_test`, which demands exactly two arguments.
unfoldable pub regexp_test :
    (engine : Engine) → Decoder → ℕ → Regexp engine → TextArg → Option (Lua (Bool × Regexp engine))
unfolding regexp_exec
regexp_test engine decode args r arg =
    if args == 2
    then (do
      run ← regexp_exec engine decode r arg
      elim run [
        | raised e ↦ some (raised e)
        | returned (m, r') ↦ some (returned (elim m [ none ↦ false | some _ ↦ true ], r'))
      ])
    else some (raised two_arguments_expected)
