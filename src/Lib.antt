-- ===== src/Lib.antt =====
-- Verification of the C code in this collection of editor plugins: the fuzzy finder
-- plugged/telescope-fzf-native.nvim/src/fzf.c with fzf.h, and the Lua binding of a
-- regular-expression engine, plugged/LuaSnip/deps/jsregexp/jsregexp.c with its earlier version
-- plugged/LuaSnip/deps/jsregexp005/jsregexp.c.
--
-- The fuzzy finder. A query is parsed into sets of alternative terms (fzf_parse_pattern), each with
-- the matcher to call. fzf_get_score runs the matchers of a query on a text and adds up their scores;
-- fzf_get_positions collects the places of the matched bytes. The matchers share a first test
-- (ascii_fuzzy_index), the score of a range (calculate_score) and the growing array of positions; the
-- optimising one (fzf_fuzzy_match_v2) works in memory that the caller may provide, the slab.
--   Common         tests, lists with native indices, integers, C casts, faults
--   Fzf/Chars      character classes, bonuses, the constants of the score
--   Fzf/Positions  fzf_position_t and its appends; Positions/Growth has their lemmas
--   Fzf/Slab       fzf_slab_t, alloc16 and alloc32; Slab/Apart has their lemmas
--   Fzf/Skip       index_byte, try_skip, ascii_fuzzy_index
--   Fzf/Score      calculate_score; Score/Run and Score/Total have its lemmas
--   Fzf/V1         fzf_fuzzy_match_v1; V1/Scan, V1/Back, V1/Tight and V1/Match have its lemmas
--   Fzf/V2         fzf_fuzzy_match_v2: V2/Memory, V2/FirstRow, V2/Rows and V2/Trace have its phases,
--                  V2/Guards the lemmas before its matrix; V2/Cells, V2/Row, V2/Single, V2/Rounds,
--                  V2/Start and V2/Best have those for a pattern of one byte, V2/Grid and V2/Several
--                  those for more, V2/Total those for both. In V2/Grid, Places, FirstCells, Scan and
--                  Begin are on the loop over the text, FirstCopy and Laid on the first row, Scores,
--                  Kept, Fill, FillRow, FillRows and Peak on the matrix, and Keeps, Walk, Way and Find
--                  on the way back
--   Fzf/Exact      fzf_exact_match_naive; Exact/Prefix, Exact/Scan, Exact/Best, Exact/Total and
--                  Exact/Match have the lemmas of its loop
--   Fzf/Affix      fzf_prefix_match, fzf_suffix_match, fzf_equal_match; Affix/Suffix and Affix/Equal
--                  have the lemmas of the last two
--   Fzf/Pattern    fzf_parse_pattern, its string helpers and its growing arrays; Pattern/Replace,
--                  Pattern/Tokens and Pattern/Parsed have their lemmas, Pattern/Lacks and Pattern/Plain
--                  those for a query without marks, and Pattern/Printed those for a term with its marks
--   Fzf/Query      fzf_get_score, fzf_get_positions; Query/Reject, Query/Refine and Query/Agree have
--                  their lemmas, Query/Plain those for a query without marks, and
--                  Query/Exactly those for one exact term and its inverse
--   Fzf/Subseq, Fzf/Fold   what the fuzzy matchers look for, and the greedy search for it
--
-- The binding. A Lua string becomes a text of bytes or of 16-bit units with arrays of indices
-- (utf8_to_utf16, jsstring_new); a compiled expression keeps the place of the next search
-- (regexp_exec); calling it lists the matches (regexp_call).
--   Jsregexp/Engine   the engine and the UTF-8 decoder, as parameters
--   Jsregexp/Text     utf8_to_utf16, jsstring_new, lua_tojsstring; Text/Chars says what a conversion
--                     should give, Text/Arrays and Text/Convert have its lemmas,
--                     Text/Surrogates those of the units above 0xffff
--   Jsregexp/Exec     regexp_exec, regexp_test; Exec/Outcome says what a search
--                     should give, Exec/Result has its lemmas
--   Jsregexp/Call     regexp_call; Captures and Bounds have its lemmas, Ascii those for whole Lua
--                     strings
--   Jsregexp/Compile  jsregexp_compile of both versions, jsregexp_compile_safe; Compile/Again and
--                     Roundtrip have their lemmas
--   Jsregexp/Fields   regexp_pushflags, regexp_tostring, regexp_index, regexp_newindex; Fields/Place
--                     has their lemmas
--   Jsregexp/Matches  match, search and match_all_list of plugged/LuaSnip/deps/jsregexp/jsregexp.lua;
--                     Matches/Ordered, Matches/Search and Matches/Endless have their lemmas
--
-- Conventions. Option's `none` as the result of an operation is a fault: an access outside of an
-- object, or the end of the fuel. Memory that C would allocate is always given. A struct is a
-- record, an array a list of its cells with its capacity where the code keeps one; `size_t` wraps
-- at 2^64, and int32_t and int16_t where the code casts to them. The int32_t scores and their sums
-- wrap (wrap_i32), where C leaves an overflow open. The length of a Lua string is cut to 32 bits;
-- the place in the loop of regexp_call, an `int` in C, is not. A number that Lua hands over for an
-- `int` stands as its whole part; one that an `int` does not hold is a fault. Bytes are 0 to 255;
-- the C library's tolower and isspace are those of the C locale.
--
-- Bounds and fuel. The exact matcher runs on the fuel `exact_fuel`, a round for each byte of the
-- pattern at each place of the text and some more; the list of matches on `call_fuel`, len + 2, as
-- the place of the next search grows up to len + 1; the UTF-16 conversion on one more than its
-- bytes, as each round takes one; the loop of `match` on len + 2, as the place grows in each
-- round. On the matrix of fzf_fuzzy_match_v2 a pattern has at most 1024 bytes, as its scores are
-- cut to 16 bits.
--
-- Not modelled: the functions that free memory, the tables that register functions with Lua, the
-- engine libregexp.c with libunicode.c and cutils.c, which are parameters, of the earlier version
-- its texts and regexp_closure, and of jsregexp.lua split and the replacements. The other plugins
-- are not C.
pub mod Common
pub mod Fzf
pub mod Jsregexp
