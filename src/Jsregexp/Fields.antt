-- ===== src/Jsregexp/Fields.antt =====
-- jsregexp.c, lines 335-354 and 489-540: the flags as a string, and the fields of an expression.
pub mod Place
use plugged.Common.{
  Bool, Option, [], if◌then◌else◌, ltb, negsuc, none, pos, some, suc, ℕ, ℤ, ◌++◌, ◌+◌, ◌^◌, ◌∷◌,
}
use plugged.Fzf.Chars.{Bytes}
use plugged.Jsregexp.Engine.{
  Engine, Flags, Lua, last_index_not_positive, raised, returned, unrecognized_key,
}
use plugged.Jsregexp.Exec.{Regexp}

-- `regexp_pushflags`, lines 335-345.
unfoldable pub regexp_pushflags : Flags → Bytes
regexp_pushflags f =
    (if f.ignorecase then 105 ∷ [] else [])
    ++ (if f.global then 103 ∷ [] else [])
    ++ (if f.multiline then 109 ∷ [] else [])
    ++ (if f.named_groups then 110 ∷ [] else [])
    ++ (if f.dotall then 115 ∷ [] else [])
    ++ (if f.utf16 then 117 ∷ [] else [])
    ++ (if f.sticky then 121 ∷ [] else [])

-- `regexp_tostring`, lines 347-354.
unfoldable pub regexp_tostring : (engine : Engine) → Regexp engine → Bytes
unfolding regexp_pushflags
regexp_tostring engine r = (47 ∷ r.expr) ++ (47 ∷ regexp_pushflags (engine.lre_get_flags r.bc))

-- The keys that the fields are read under; the methods of the metatable come before them.
pub data Key : Type 0 where
  last_index_key : Key
  dot_all_key : Key
  global_key : Key
  ignore_case_key : Key
  multiline_key : Key
  sticky_key : Key
  unicode_key : Key
  source_key : Key
  flags_key : Key
  other_key : Key

pub data Value : Type 0 where
  lua_number : ℕ → Value
  lua_boolean : Bool → Value
  lua_text : Bytes → Value
  lua_nil : Value

-- `regexp_index`, lines 489-522, on a key that names no method.
unfoldable pub regexp_index : (engine : Engine) → Regexp engine → Key → Value
unfolding regexp_pushflags
regexp_index engine r last_index_key = lua_number (r.last_index + 1)
regexp_index engine r dot_all_key = lua_boolean (engine.lre_get_flags r.bc).dotall
regexp_index engine r global_key = lua_boolean (engine.lre_get_flags r.bc).global
regexp_index engine r ignore_case_key = lua_boolean (engine.lre_get_flags r.bc).ignorecase
regexp_index engine r multiline_key = lua_boolean (engine.lre_get_flags r.bc).multiline
regexp_index engine r sticky_key = lua_boolean (engine.lre_get_flags r.bc).sticky
regexp_index engine r unicode_key = lua_boolean (engine.lre_get_flags r.bc).utf16
regexp_index engine r source_key = lua_text r.expr
regexp_index engine r flags_key = lua_text (regexp_pushflags (engine.lre_get_flags r.bc))
regexp_index engine r other_key = lua_nil

-- Whether an `int` holds the whole part of a number.
unfoldable pub fits_int : ℤ → Bool
fits_int (pos n) = ltb n (2 ^ 31)
fits_int (negsuc n) = ltb n (2 ^ 31)

-- Lines 533-534.
unfoldable pub write_place : (engine : Engine) → Regexp engine → ℤ → Lua (Regexp engine)
write_place engine r (pos (suc n)) = returned (record r { last_index = n })
write_place engine r ind = raised last_index_not_positive

-- `regexp_newindex`, lines 526-540, with the whole part of the number written. The conversion of
-- a number to an `int` that does not hold it is undefined: `none`.
unfoldable pub regexp_newindex :
    (engine : Engine) → Regexp engine → Key → ℤ → Option (Lua (Regexp engine))
unfolding fits_int write_place
regexp_newindex engine r last_index_key ind =
    if fits_int ind then some (write_place engine r ind) else none
regexp_newindex engine r key ind = some (raised unrecognized_key)
