-- ===== src/Jsregexp/Compile.antt =====
-- jsregexp.c, lines 554-620, and jsregexp005/jsregexp.c, lines 262-311: flags and compilation.
pub mod Again
use plugged.Common.{
  Bool, Option, [], false, if◌then◌else◌, inl, inr, none, some, true, ℕ, ◌==◌, ◌||◌, ◌∷◌, ◌⊎◌,
}
use plugged.Fzf.Chars.{Bytes}
use plugged.Jsregexp.Engine.{
  Engine, Flags, Lua, LuaError, compile_error, malformed_unicode, raised, returned,
}
use plugged.Jsregexp.Exec.{Regexp}
use plugged.Jsregexp.Text.{utf8_contains_non_bmp}

abbrev pub no_flags : Flags
no_flags = record {
  ignorecase = false;
  global = false;
  multiline = false;
  named_groups = false;
  dotall = false;
  utf16 = false;
  sticky = false;
}

-- One letter of the flags argument; an unknown letter is skipped.
unfoldable pub add_flag : ℕ → Flags → Flags
add_flag c f =
    if c == 105
    then record f { ignorecase = true }
    else if c == 103
    then record f { global = true }
    else if c == 109
    then record f { multiline = true }
    else if c == 110
    then record f { named_groups = true }
    else if c == 115
    then record f { dotall = true }
    else if c == 117
    then record f { utf16 = true }
    else if c == 121
    then record f { sticky = true }
    else f

-- Lines 574-585.
unfoldable pub read_flags : Bytes → Flags → Flags
unfolding add_flag
read_flags [] f = f
read_flags (c ∷ cs) f = read_flags cs (add_flag c f)

-- `strchr(regexp, 0xfd)`.
unfoldable pub has_fd : Bytes → Bool
has_fd [] = false
has_fd (c ∷ cs) = (c == 253) || has_fd cs

-- Lines 554-604, on the bytes of two C strings; without a second argument the flags are empty.
unfoldable pub jsregexp_compile : (engine : Engine) → Bytes → Option Bytes → Lua (Regexp engine)
unfolding has_fd utf8_contains_non_bmp read_flags
jsregexp_compile engine regexp flags =
    if has_fd regexp
    then raised malformed_unicode
    else let wide : Flags = record no_flags { utf16 = utf8_contains_non_bmp regexp } in
      let re_flags : Flags = elim flags [ none ↦ wide | some cs ↦ read_flags cs wide ] in
      elim (engine.lre_compile regexp re_flags) [
        | inl e ↦ raised (compile_error e)
        | inr bc ↦ returned (record { expr = regexp; bc = bc; last_index = 0 })
      ]

-- Lines 606-620: an error becomes `nil` and its message.
unfoldable pub jsregexp_compile_safe :
    (engine : Engine) → Bytes → Option Bytes → LuaError ⊎ Regexp engine
unfolding jsregexp_compile
jsregexp_compile_safe engine regexp flags = elim (jsregexp_compile engine regexp flags) [
  | raised e ↦ inl e
  | returned r ↦ inr r
]

-- jsregexp005, lines 280-285: only three letters are known.
unfoldable pub add_flag_005 : ℕ → Flags → Flags
add_flag_005 c f =
    if c == 105
    then record f { ignorecase = true }
    else if c == 103
    then record f { global = true }
    else if c == 110
    then record f { named_groups = true }
    else f

unfoldable pub read_flags_005 : Bytes → Flags → Flags
unfolding add_flag_005
read_flags_005 [] f = f
read_flags_005 (c ∷ cs) f = read_flags_005 cs (add_flag_005 c f)

-- jsregexp005, lines 262-311: the bytecode that the closure keeps.
unfoldable pub jsregexp_compile_005 :
    (engine : Engine) → Bytes → Option Bytes → LuaError ⊎ engine.Bytecode
unfolding has_fd utf8_contains_non_bmp read_flags_005
jsregexp_compile_005 engine regexp flags =
    if has_fd regexp
    then inl malformed_unicode
    else let read : Flags = elim flags [ none ↦ no_flags | some cs ↦ read_flags_005 cs no_flags ] in
      let re_flags : Flags =
        if utf8_contains_non_bmp regexp then record read { utf16 = true } else read in
      elim (engine.lre_compile regexp re_flags) [ inl e ↦ inl (compile_error e) | inr bc ↦ inr bc ]
