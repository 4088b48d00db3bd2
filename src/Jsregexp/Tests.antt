-- ===== src/Jsregexp/Tests.antt =====
-- A small engine, runs of the binding with it, and the theorems at inputs that meet their hypotheses.
use plugged.Common.{
  Bool, Bool-cases, List, Option, [], arith, false, if◌then◌else◌, inl, inr, length, ltb, none, pos,
  refl, some, sym, true, ℕ, ◌%◌, ◌*◌, ◌+◌, ◌-◌, ◌/◌, ◌^◌, ◌↔◌, ◌∷◌, ◌≡◌, ◌≤◌,
}
use plugged.Fzf.Chars.{Bytes}
use plugged.Jsregexp.Ascii.{Tested, ascii_text, regexp_call-ascii, regexp_test-ascii}
use plugged.Jsregexp.Bounds.{ListedFrom}
use plugged.Jsregexp.Call.{Match, regexp_call}
use plugged.Jsregexp.Captures.{FindsWithin}
use plugged.Jsregexp.Compile.{add_flag, has_fd, jsregexp_compile, no_flags, read_flags}
use plugged.Jsregexp.Compile.Again.{KeepsFlags, jsregexp_compile-again}
use plugged.Jsregexp.Engine.{Decoder, Engine, Flags, Found, Lua, match_at, nothing_found, returned}
use plugged.Jsregexp.Exec.{
  ExecMatch, Regexp, byte_offset, capture_loop, capture_text, exec_on, match_table, regexp_test,
  search_start, store_named,
}
use plugged.Jsregexp.Exec.Outcome.{ExecResult}
use plugged.Jsregexp.Exec.Result.{exec_on_lem}
use plugged.Jsregexp.Fields.{last_index_key, regexp_newindex, regexp_pushflags}
use plugged.Jsregexp.Fields.Place.{WriteResult, regexp_newindex-regexp_index}
use plugged.Jsregexp.Matches.{match_all_loop}
use plugged.Jsregexp.Matches.Endless.{match_all_loop-none}
use plugged.Jsregexp.Roundtrip.{read_flags-regexp_pushflags}
use plugged.Jsregexp.Text.{
  JsString, Wide, c_str, high_unit, low_unit, lua_string, utf8_contains_non_ascii,
  utf8_contains_non_bmp, utf8_to_utf16,
}
use plugged.Jsregexp.Text.Chars.{Converts, TakesEnough}
use plugged.Jsregexp.Text.Convert.{utf8_to_utf16-Converts}
use plugged.Jsregexp.Text.Surrogates.{surrogate_units}

-- It finds each single character.
abbrev each_char : ℕ → ℕ → Found
each_char from len = elim (ltb from len) [
  | true ↦ match_at (some (from, from + 1) ∷ [])
  | false ↦ nothing_found
]

abbrev global_only : Flags
global_only = record no_flags { global = true }

abbrev small_engine : Engine
small_engine = record {
  Bytecode = Unit;
  lre_compile = λ expr flags. inr tt;
  lre_get_flags = λ bc. global_only;
  lre_get_capture_count = λ bc. 1;
  lre_get_groupnames = λ bc. none;
  lre_exec = λ bc units from len wide. each_char from len;
}

abbrev ab : JsString
ab = record {
  is_wide_char = false;
  len = 2;
  bstr = 97 ∷ 98 ∷ [];
  bstr_len = 2;
  indices = [];
  rev_indices = [];
  units = 97 ∷ 98 ∷ 0 ∷ [];
}

small_engine-FindsWithin : FindsWithin small_engine tt
small_engine-FindsWithin units from len wide spans e = elim (Bool-cases (ltb from len)) [
  | inl b ↦
      let run : each_char from len ≡ match_at spans = e in
      let at : match_at (some (from, from + 1) ∷ []) ≡ match_at spans = rw (each_char, b) at run in
      let same : some (from, from + 1) ∷ [] ≡ spans = cc in
      rw (sym same) (omega arith, (omega arith, ground arith, tt), refl)
  | inr b ↦
      let run : each_char from len ≡ match_at spans = e in
      let at : nothing_found ≡ match_at spans = rw (each_char, b) at run in cc
]

flags_example : read_flags (regexp_pushflags global_only) no_flags ≡ global_only
flags_example = read_flags-regexp_pushflags global_only

global_char : Regexp small_engine
global_char = record { expr = 46 ∷ []; bc = tt; last_index = 1 }

exec_on_example :
    (result : Lua (Option ExecMatch × Regexp small_engine)) × (exec_on small_engine global_char ab
      ≡ some result)
    × ExecResult small_engine global_char ab result
exec_on_example =
    exec_on_lem ab refl (omega arith) small_engine global_char small_engine-FindsWithin tt

-- The second character is found, and the next search starts at the end.
exec_on_run :
    exec_on small_engine global_char ab
    ≡ some (
        returned (
          some (record {
            input = 97 ∷ 98 ∷ [];
            capture_count = 1;
            index = 2;
            groups = none;
            captures = (98 ∷ []) ∷ [];
          }),
          record global_char { last_index = 2 },
        ))
unfolding exec_on global_char match_table search_start byte_offset capture_loop capture_text
    store_named
exec_on_run = refl

-- The same engine for an expression that is neither global nor sticky.
abbrev plain_engine : Engine
plain_engine = record small_engine { lre_get_flags = λ bc. no_flags }

plain_char : Regexp plain_engine
plain_char = record { expr = 46 ∷ []; bc = tt; last_index = 0 }

match_all_example : match_all_loop plain_engine ab 100 (record plain_char { last_index = 0 }) ≡ none
match_all_example =
    match_all_loop-none ab refl (omega arith) plain_engine plain_char small_engine-FindsWithin tt
      refl 0 1 [] refl 100 0

-- An engine that keeps the flags as its bytecode.
abbrev keeping_engine : Engine
keeping_engine = record {
  Bytecode = Flags;
  lre_compile = λ expr flags. inr flags;
  lre_get_flags = λ bc. bc;
  lre_get_capture_count = λ bc. 1;
  lre_get_groupnames = λ bc. none;
  lre_exec = λ bc units from len wide. nothing_found;
}

keeping_engine-KeepsFlags : KeepsFlags keeping_engine
keeping_engine-KeepsFlags expr f bc e = (refl, (λ u. let same : f ≡ bc = cc in rw same at u))

compile_run :
    jsregexp_compile keeping_engine (97 ∷ []) (some (103 ∷ 120 ∷ []))
    ≡ returned (record { expr = 97 ∷ []; bc = record no_flags { global = true }; last_index = 0 })
unfolding jsregexp_compile has_fd utf8_contains_non_bmp read_flags add_flag
compile_run = refl

compile_again_example :
    jsregexp_compile keeping_engine
      (97 ∷ [])
      (some (regexp_pushflags (record no_flags { global = true })))
    ≡ returned (record { expr = 97 ∷ []; bc = record no_flags { global = true }; last_index = 0 })
compile_again_example =
    jsregexp_compile-again keeping_engine keeping_engine-KeepsFlags (97 ∷ [])
      (some (103 ∷ 120 ∷ []))
      (record { expr = 97 ∷ []; bc = record no_flags { global = true }; last_index = 0 })
      compile_run

newindex_example :
    WriteResult small_engine global_char last_index_key
      (pos 3)
      (regexp_newindex small_engine global_char last_index_key (pos 3))
newindex_example = regexp_newindex-regexp_index small_engine global_char last_index_key (pos 3)

-- A decoder of characters of one or two bytes.
abbrev two_bytes : ℕ → Bytes → Option (ℕ × ℕ)
two_bytes b [] = none
two_bytes b (c ∷ _) = some ((b % 32) * 64 + c % 64, 2)

abbrev small_decoder : Decoder
small_decoder [] = none
small_decoder (b ∷ bytes) = if ltb b 128 then some (b, 1) else two_bytes b bytes

small_decoder-TakesEnough : TakesEnough small_decoder
small_decoder-TakesEnough [] c taken e = cc
small_decoder-TakesEnough (b ∷ []) c taken e = ground arith
small_decoder-TakesEnough (b ∷ d ∷ bytes) c taken e = ground arith

-- "é!", an `e` with an accent, of two bytes, and another character
abbrev accented : Bytes
accented = 195 ∷ 169 ∷ 33 ∷ []

accented_size : length (c_str accented) ≤ 3
unfolding c_str
accented_size = omega arith

utf16_example :
    (r : Option Wide) × (utf8_to_utf16 small_decoder accented 3 ≡ some r)
    × Converts small_decoder (c_str accented) 3 0 0 r
utf16_example =
    utf8_to_utf16-Converts small_decoder small_decoder-TakesEnough accented 3 accented_size
      (omega arith)

abbrev ab_string : Bytes
ab_string = 97 ∷ 98 ∷ []

ab_ascii : utf8_contains_non_ascii (c_str ab_string) ≡ false
unfolding utf8_contains_non_ascii c_str
ab_ascii = refl

ab_whole : c_str ab_string ≡ ab_string
unfolding c_str
ab_whole = refl

regexp_call_example :
    (tables : List Match) × (regexp_call small_engine small_decoder tt (lua_string ab_string)
      ≡ some (returned tables))
    × ListedFrom small_engine tt (ascii_text ab_string) 0 tables
regexp_call_example =
    regexp_call-ascii small_engine small_decoder ab_string ab_ascii ab_whole tt
      small_engine-FindsWithin tt (omega arith)

regexp_test_example :
    (result : Lua (Bool × Regexp small_engine)) × (regexp_test small_engine small_decoder 2
        global_char
        (lua_string ab_string)
      ≡ some result)
    × Tested small_engine small_decoder ab_string ab_ascii ab_whole global_char result
regexp_test_example =
    regexp_test-ascii small_engine small_decoder ab_string ab_ascii ab_whole global_char
      small_engine-FindsWithin tt

-- U+1F600, whose second unit is not the low surrogate.
surrogate_example :
    (high_unit 128512 ≡ 55296 + (128512 - 2 ^ 16) / 2 ^ 10)
    × ((low_unit 128512 ≡ 56320 + (128512 - 2 ^ 16) % 2 ^ 10) ↔ (128512 / 2 ^ 13 % 2 ≡ 0))
surrogate_example = surrogate_units 128512 (omega arith) (omega arith)
