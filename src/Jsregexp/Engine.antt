-- ===== src/Jsregexp/Engine.antt =====
-- What the binding uses of the engine libregexp.c and of cutils.c, which are not its own code:
-- parameters. The flags are the bits `LRE_FLAG_*`, one field for each.
use plugged.Common.{Bool, List, Option, ℕ, ◌⊎◌}

abbrev pub Bytes : Type 0
Bytes = List ℕ

pub record Flags : Type 0 where
  pub ignorecase : Bool
  pub global : Bool
  pub multiline : Bool
  pub named_groups : Bool
  pub dotall : Bool
  pub utf16 : Bool
  pub sticky : Bool

-- A pair of capture pointers, as offsets into the text; `none` is a pair of null pointers.
abbrev pub Span : Type 0
Span = Option (ℕ × ℕ)

-- The return value of `lre_exec`: negative, 0, or 1 with the captures.
pub data Found : Type 0 where
  exec_error : Found
  nothing_found : Found
  match_at : List Span → Found

-- The functions of the engine. The group names stand in a block, one for each group, empty when
-- the group has no name; `none` is a null pointer.
pub record Engine : Type 1 where
  pub Bytecode : Type 0
  pub lre_compile : Bytes → Flags → Bytes ⊎ Bytecode
  pub lre_get_flags : Bytecode → Flags
  pub lre_get_capture_count : Bytecode → ℕ
  pub lre_get_groupnames : Bytecode → Option (List Bytes)
  pub lre_exec : Bytecode → List ℕ → ℕ → ℕ → Bool → Found

-- `unicode_from_utf8`: the code point at the start of the bytes, and how many it takes; `none` is
-- the return value -1.
abbrev pub Decoder : Type 0
Decoder = Bytes → Option (ℕ × ℕ)

-- The errors that the binding raises in Lua.
pub data LuaError : Type 0 where
  malformed_unicode : LuaError
  out_of_memory : LuaError
  two_arguments_expected : LuaError
  last_index_not_positive : LuaError
  unrecognized_key : LuaError
  compile_error : Bytes → LuaError

-- What a C function called from Lua does: it raises an error or returns.
pub data Lua {ℓ} (A : Type ℓ) : Type ℓ where
  raised : LuaError → Lua A
  returned : A → Lua A
