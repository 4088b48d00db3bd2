-- ===== src/Fzf/Pattern/Strings.antt =====
-- fzf.c, lines 108-191 and 1002-1011: the parser's string helpers. A string is the bytes before its
-- terminating 0; `strstr` and `strtok` are those of the C library.
use plugged.Common.{
  Bool, List, Option, [], bytes_eq, drop, false, if◌then◌else◌, leb, length, ltb, none, not, some,
  sub_size, suc, take, true, zero, ℕ, ◌%◌, ◌&&◌, ◌*◌, ◌++◌, ◌+◌, ◌-◌, ◌==◌, ◌>>=◌, ◌^◌, ◌∷◌,
}
use plugged.Fzf.Chars.{Bytes, to_lower}
use plugged.Fzf.Subseq.{suc?}

-- The loop of `trim_whitespace_left`: `i` goes up while the length goes down.
unfoldable pub trim_left_loop : ℕ → Bytes → Bytes
trim_left_loop i [] = []
trim_left_loop i (c ∷ xs) =
    let rest = trim_left_loop (i + 1) xs in
    if ltb i (length (c ∷ xs)) && c == 32 then rest else c ∷ xs

unfoldable pub trim_whitespace_left : Bytes → Bytes
unfolding trim_left_loop
trim_whitespace_left str = trim_left_loop 0 str

unfoldable pub has_prefix : Bytes → Bytes → Bool
unfolding bytes_eq
has_prefix str prefix = bytes_eq (take (length prefix) str) prefix

unfoldable pub has_suffix : Bytes → Bytes → Bool
unfolding bytes_eq
has_suffix str suffix =
    leb (length suffix) (length str) && bytes_eq (drop (length str - length suffix) str) suffix

unfoldable pub str_replace_char : Bytes → ℕ → ℕ → Bytes
str_replace_char [] find replace = []
str_replace_char (c ∷ xs) find replace =
    (if c == find then replace else c) ∷ str_replace_char xs find replace

unfoldable pub str_tolower : Bytes → Bytes
unfolding to_lower
str_tolower [] = []
str_tolower (c ∷ xs) = to_lower c ∷ str_tolower xs

-- `strstr`: the index of the first occurrence.
unfoldable pub strstr : Bytes → Bytes → Option ℕ
unfolding has_prefix
strstr [] rep = if has_prefix [] rep then some 0 else none
strstr (c ∷ xs) rep = if has_prefix (c ∷ xs) rep then some 0 else suc? (strstr xs rep)

-- The loop that counts the occurrences, on fuel.
unfoldable pub count_loop : ℕ → Bytes → Bytes → ℕ
count_loop zero ins rep = 0
count_loop (suc fuel) ins rep = elim (strstr ins rep) [
  | none ↦ 0
  | some k ↦ suc (count_loop fuel (drop (k + length rep) ins) rep)
]

-- The loop that builds the result, with the occurrences that are left.
unfoldable pub replace_loop : ℕ → Bytes → Bytes → Bytes → Option Bytes
replace_loop zero orig rep replacement = some orig
replace_loop (suc count) orig rep replacement = do
  k ← strstr orig rep
  rest ← replace_loop count (drop (k + length rep) orig) rep replacement
  some (take k orig ++ replacement ++ rest)

-- The bytes allocated for the result.
unfoldable pub replace_size : Bytes → Bytes → Bytes → ℕ → ℕ
replace_size orig rep replacement count =
    (length orig + sub_size (length replacement) (length rep) * count + 1) % 2 ^ 64

-- For a `rep` that is not empty; otherwise the result is `NULL`, which `none` stands for as well
-- as for a write past what was allocated.
unfoldable pub str_replace : Bytes → Bytes → Bytes → Option Bytes
unfolding count_loop replace_loop replace_size strstr
str_replace orig rep replacement = if length rep == 0 then none else (do
  let count = count_loop (length orig) orig rep
  result ← replace_loop count orig rep replacement
  if ltb (length result) (replace_size orig rep replacement count) then some result else none)

-- The loop that cuts spaces off the end, unless they are escaped, on fuel.
unfoldable pub trim_right_loop : ℕ → Bytes → Bytes
unfolding has_suffix
trim_right_loop zero str = str
trim_right_loop (suc fuel) str =
    let rest = trim_right_loop fuel (take (length str - 1) str) in
    if has_suffix str (32 ∷ []) && not (has_suffix str (92 ∷ 32 ∷ [])) then rest else str

unfoldable pub trim_pattern : Bytes → Bytes
unfolding trim_whitespace_left trim_right_loop
trim_pattern pattern =
    let trimmed = trim_whitespace_left pattern in trim_right_loop (length trimmed) trimmed

-- `strtok` with the delimiter " ", all of its calls: `word` is the token begun.
unfoldable pub tokens : Bytes → Bytes → List Bytes
tokens [] [] = []
tokens (w ∷ word) [] = (w ∷ word) ∷ []
tokens [] (c ∷ xs) = tokens (if c == 32 then [] else c ∷ []) xs
tokens (w ∷ word) (c ∷ xs) = elim (c == 32) [
  | true ↦ (w ∷ word) ∷ tokens [] xs
  | false ↦ tokens (w ∷ word ++ c ∷ []) xs
]
