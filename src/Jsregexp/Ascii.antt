-- ===== src/Jsregexp/Ascii.antt =====
-- The operations on a Lua string without a NUL and without bytes above 127.
use plugged.Common.{
  Bool, List, Option, [], ap, arith, false, if◌then◌else◌, inl, inr, length, length-append, none,
  refl, some, true, ℕ, ◌%◌, ◌++◌, ◌+◌, ◌-◌, ◌<◌, ◌^◌, ◌↔◌, ◌∷◌, ◌≡◌, ◌≤◌,
}
use plugged.Fzf.Chars.{Bytes}
use plugged.Jsregexp.Bounds.{ListedFrom, call_loop-IsTotal}
use plugged.Jsregexp.Call.{Match, call_fuel, regexp_call}
use plugged.Jsregexp.Captures.{FindsWithin, NamesFor}
use plugged.Jsregexp.Engine.{
  Decoder, Engine, Lua, Span, exec_error, match_at, out_of_memory, raised, returned,
}
use plugged.Jsregexp.Exec.{ExecMatch, Regexp, exec_on, regexp_exec, regexp_test}
use plugged.Jsregexp.Exec.Outcome.{ExecResult, keeps_place, searched, start_of}
use plugged.Jsregexp.Exec.Result.{exec_on_lem}
use plugged.Jsregexp.Text.{
  JsString, c_str, jsstring_new, lua_string, lua_tojsstring, utf8_contains_non_ascii,
}

-- The text made of such a string.
abbrev pub ascii_text : Bytes → JsString
ascii_text input = record {
  is_wide_char = false;
  len = length input % 2 ^ 32;
  bstr = c_str input;
  bstr_len = length input % 2 ^ 32;
  indices = [];
  rev_indices = [];
  units = c_str input ++ (0 ∷ []);
}

module _ (engine : Engine) (decode : Decoder) (input : Bytes)
    (ascii : utf8_contains_non_ascii (c_str input) ≡ false) (whole : c_str input ≡ input) where
  lua_tojsstring-ascii :
      lua_tojsstring decode (lua_string input) ≡ some (returned (ascii_text input))
  unfolding lua_tojsstring jsstring_new
  lua_tojsstring-ascii = rw ascii refl

  -- The buffer holds the text and a zero after it.
  ascii_held : length input % 2 ^ 32 ≤ length (c_str input ++ (0 ∷ []))
  ascii_held = omega (arith, length-append (c_str input) (0 ∷ []), ap length whole)

  -- On a Lua string shorter than 2^31 - 1 bytes, without a NUL and without bytes above 127, for
  -- an engine whose matches start at or after the place asked for, lie in the text and have a
  -- span for each group, and which has names for all groups or none, `regexp_call` returns
  -- within its fuel and without a fault or an error. Each match lies in the string, has the
  -- bytes of each of its groups, none for one that took no part, and is the one that the engine
  -- finds from the place where the search went on: the start, then the end of a match that is
  -- not empty, and for an empty one the place after that where it was looked for. The list ends
  -- after a match if the expression is not global or that place is past the string, and else
  -- where the engine finds nothing or fails.
  pub regexp_call-ascii :
      (bc : engine.Bytecode)
      → FindsWithin engine bc
      → NamesFor (engine.lre_get_capture_count bc - 1) (engine.lre_get_groupnames bc)
      → length input + 1 < 2 ^ 31
      → (tables : List Match) × (regexp_call engine decode bc (lua_string input)
          ≡ some (returned tables))
        × ListedFrom engine bc (ascii_text input) 0 tables
  unfolding regexp_call
  regexp_call-ascii bc law named short =
      let (tables, run, order) =
        call_loop-IsTotal (ascii_text input) refl ascii_held engine bc law named
          (call_fuel (ascii_text input)) 0 (omega arith) (omega arith) in
      (tables, rw (lua_tojsstring-ascii, run) refl, order)

  place_after :
      (r r' : Regexp engine) (n : ℕ)
      → r' ≡ record r { last_index = n }
      → n ≤ (ascii_text input).len
      → r'.last_index ≤ (ascii_text input).len
  place_after r r' n e h = rw e h

  -- Whether the engine finds a match for the search.
  abbrev pub Finds : Regexp engine → Type 0
  Finds r =
      (start_of engine r ≤ (ascii_text input).len)
      × (spans : List Span) × (searched engine r (ascii_text input) ≡ match_at spans)

  -- What `test` gives: whether there is a match, or the engine's failure.
  abbrev pub Tested : Regexp engine → Lua (Bool × Regexp engine) → Type 0
  Tested r (raised e) = (e ≡ out_of_memory) × (searched engine r (ascii_text input) ≡ exec_error)
  Tested r (returned (b, r')) = ((b ≡ true) ↔ Finds r) × (r'.last_index ≤ (ascii_text input).len)

  -- On a Lua string without a NUL and without bytes above 127, for an engine whose matches start
  -- at or after the place asked for, lie in the text and have a span for each group, and which
  -- has names for all groups or none, `regexp_test` with two arguments ends without a fault: it
  -- raises `out of memory` only where the engine fails, and else tells whether the place of the
  -- search, if the expression keeps one, is not past the text and the engine finds a match from
  -- there; the next search starts in the text or at its end. The text has the length of the
  -- string, cut to 32 bits.
  pub regexp_test-ascii :
      (r : Regexp engine)
      → FindsWithin engine r.bc
      → NamesFor (engine.lre_get_capture_count r.bc - 1) (engine.lre_get_groupnames r.bc)
      → (result : Lua (Bool × Regexp engine)) × (regexp_test engine decode 2 r (lua_string input)
          ≡ some result)
        × Tested r result
  unfolding regexp_test regexp_exec
  regexp_test-ascii r law named =
      let (result, run, res) = exec_on_lem (ascii_text input) refl ascii_held engine r law named in
      go result run res
    where
      go :
          (result : Lua (Option ExecMatch × Regexp engine))
          → exec_on engine r (ascii_text input) ≡ some result
          → ExecResult engine r (ascii_text input) result
          → (result' : Lua (Bool × Regexp engine)) × (regexp_test engine decode 2 r
                (lua_string input)
              ≡ some result')
            × Tested r result'
      go (raised e) run res = (raised e, rw (lua_tojsstring-ascii, run) refl, res)
      go (returned (none, r')) run (over, inl past) = (
        returned (false, r'),
        rw (lua_tojsstring-ascii, run) refl,
        (
          ((λ e. cc), λ f. absurd (omega (arith, f.0, past))),
          place_after r r' 0 over (omega arith),
        ),
      )
      go (returned (none, r')) run (over, inr nothing) = (
        returned (false, r'),
        rw (lua_tojsstring-ascii, run) refl,
        (((λ e. cc), λ (room, spans, found). cc), place_after r r' 0 over (omega arith)),
      )
      go (returned (some m, r')) run (inside, a, b, is) = (
        returned (true, r'),
        rw (lua_tojsstring-ascii, run) refl,
        (
          ((λ e. (inside, some (a, b) ∷ is.found.0, is.found.1)), λ f. refl),
          place_after r r' (if keeps_place engine r.bc then b else 0) is.next
              (ground (arith, is.inside)),
        ),
      )
