-- ===== src/Jsregexp/Text.antt =====
-- jsregexp.c, lines 41-164 and 183-194: a Lua string as a text of the engine.
pub mod Chars
pub mod Surrogates
pub mod Arrays
pub mod Convert
use plugged.Common.{
  Bool, List, Option, [], drop, false, if◌then◌else◌, leb, length, ltb, max, none, replicate, set,
  some, suc, true, zero, ℕ, ◌%◌, ◌*◌, ◌++◌, ◌+◌, ◌-◌, ◌/◌, ◌==◌, ◌>>=◌, ◌^◌, ◌||◌, ◌∷◌,
}
use plugged.Fzf.Chars.{Bytes}
use plugged.Jsregexp.Engine.{Decoder, Lua, malformed_unicode, raised, returned}

-- Lines 41-52: a text; `units` is the buffer behind `u`, with its terminator.
pub record JsString : Type 0 where
  pub is_wide_char : Bool
  pub len : ℕ
  pub bstr : Bytes
  pub bstr_len : ℕ
  pub indices : List ℕ
  pub rev_indices : List ℕ
  pub units : List ℕ

-- The bytes before the first NUL, which is what a C string holds.
unfoldable pub c_str : Bytes → Bytes
c_str [] = []
c_str (c ∷ cs) = if c == 0 then [] else c ∷ c_str cs

unfoldable pub utf8_contains_non_bmp : Bytes → Bool
utf8_contains_non_bmp [] = false
utf8_contains_non_bmp (c ∷ cs) = leb 240 c || utf8_contains_non_bmp cs

unfoldable pub utf8_contains_non_ascii : Bytes → Bool
utf8_contains_non_ascii [] = false
utf8_contains_non_ascii (c ∷ cs) = leb 128 c || utf8_contains_non_ascii cs

-- `a | b` on the lowest `w` bits.
unfoldable pub bit_or : ℕ → ℕ → ℕ → ℕ
bit_or zero a b = 0
bit_or (suc w) a b = max (a % 2) (b % 2) + 2 * bit_or w (a / 2) (b / 2)

-- The two units for a code point above 0xffff, each cut to 16 bits.
unfoldable pub high_unit : ℕ → ℕ
unfolding bit_or
high_unit c = bit_or 16 ((c - 2 ^ 16) / 2 ^ 10) 55296

unfoldable pub low_unit : ℕ → ℕ
unfolding bit_or
low_unit c = bit_or 16 (c % 2 ^ 20) 56320

-- The three arrays and the write position in `str`.
pub record Wide : Type 0 where
  pub str : List ℕ
  pub q : ℕ
  pub indices : List ℕ
  pub rev_indices : List ℕ

-- A write into an allocated array.
unfoldable pub write : List ℕ → ℕ → ℕ → Option (List ℕ)
write xs i v = if ltb i (length xs) then some (set xs i v) else none

-- The units of one code point, written at `q`.
unfoldable pub write_units : ℕ → Wide → Option Wide
unfolding write high_unit low_unit
write_units c w =
    if ltb 65535 c
    then (do
      str ← write w.str w.q (high_unit c)
      str' ← write str (w.q + 1) (low_unit c)
      some (record w { str = str'; q = w.q + 2 }))
    else (do str ← write w.str w.q (c % 2 ^ 16); some (record w { str = str; q = w.q + 1 }))

-- `(*indices)[q-str] = at` and `(*rev_indices)[at] = q-str`.
unfoldable pub note : ℕ → Wide → Option Wide
unfolding write
note at w = do
  indices ← write w.indices w.q at
  rev_indices ← write w.rev_indices at w.q
  some (record w { indices = indices; rev_indices = rev_indices })

-- The loop of `utf8_to_utf16` from `pos = input + at`, whose bytes are `rest`, on fuel. The outer
-- `none` is a fault or the end of the fuel, the inner one is malformed input.
unfoldable pub utf16_loop : Decoder → ℕ → Bytes → ℕ → Wide → Option (Option Wide)
unfolding note write_units
utf16_loop decode zero rest at w = none
utf16_loop decode (suc fuel) [] at w = some (some w)
utf16_loop decode (suc fuel) (b ∷ rest) at w = do
  noted ← note at w
  elim (decode (b ∷ rest)) [
    | none ↦ some none
    | some (c, taken) ↦ do
      next ← write_units c noted
      utf16_loop decode fuel (drop taken (b ∷ rest)) (at + taken) next
  ]

-- Lines 114-119, after the loop: a zero, and the indices of the end.
unfoldable pub utf16_end : ℕ → Option Wide → Option (Option Wide)
unfolding write note
utf16_end n none = some none
utf16_end n (some w) = do
  str ← write w.str w.q 0
  last ← note n (record w { str = str })
  some (some last)

-- Lines 83-120. `n` is a `uint32_t`, and so is the size n + 1 of the
-- new arrays; `malloc` leaves those of `str` unspecified.
unfoldable pub utf8_to_utf16 : Decoder → Bytes → ℕ → Option (Option Wide)
unfolding utf16_loop utf16_end
utf8_to_utf16 decode input n = do
  let zeros = replicate ((n + 1) % 2 ^ 32) 0
  let start : Wide = record { str = zeros; q = 0; indices = zeros; rev_indices = zeros }
  converted ← utf16_loop decode (suc (length (c_str input))) (c_str input) 0 start
  utf16_end n converted

-- Lines 129-163, a new text from a Lua string.
unfoldable pub jsstring_new : Decoder → Bytes → Option (Lua JsString)
unfolding utf8_to_utf16 utf8_contains_non_ascii c_str
jsstring_new decode input =
    if utf8_contains_non_ascii (c_str input)
    then (do
      converted ← utf8_to_utf16 decode input (length input % 2 ^ 32)
      elim converted [
        | none ↦ some (raised malformed_unicode)
        | some w ↦ some (
            returned (record {
              is_wide_char = true;
              len = w.q;
              bstr = c_str input;
              bstr_len = length input % 2 ^ 32;
              indices = w.indices;
              rev_indices = w.rev_indices;
              units = w.str;
            }))
      ])
    else some (
        returned (record {
          is_wide_char = false;
          len = length input % 2 ^ 32;
          bstr = c_str input;
          bstr_len = length input % 2 ^ 32;
          indices = [];
          rev_indices = [];
          units = c_str input ++ (0 ∷ []);
        }))

-- An argument from Lua: a text made before, or a string.
pub data TextArg : Type 0 where
  user_data : JsString → TextArg
  lua_string : Bytes → TextArg

-- Lines 183-194.
unfoldable pub lua_tojsstring : Decoder → TextArg → Option (Lua JsString)
lua_tojsstring decode (user_data s) = some (returned s)
lua_tojsstring decode (lua_string input) = jsstring_new decode input
