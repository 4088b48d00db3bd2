-- ===== src/Fzf/Skip.antt =====
-- fzf.c, lines 65-72 and 342-399: where a pattern's bytes can first be found in a text.
pub mod Search
pub mod Index
pub mod First
use plugged.Common.{
  Bool, Option, [], eqb_ℤ, if◌then◌else◌, leb, length, ltb_ℤ, negsuc, not, pos, slice?, some, take,
  to_i32, to_size, true, ℕ, ℤ, ◌&&◌, ◌+ℤ◌, ◌+◌, ◌-ℤ◌, ◌-◌, ◌==◌, ◌>>=◌, ◌∷◌,
}
use plugged.Fzf.Chars.{Bytes}

abbrev pub minus_one : ℤ
minus_one = negsuc 0

-- the loop of `index_byte` from index `i`; the list is `data[i .. size)`
unfoldable pub index_loop : Bytes → ℕ → ℕ → ℤ
index_loop [] i b = minus_one
index_loop (c ∷ xs) i b = if c == b then to_i32 i else index_loop xs (i + 1) b

unfoldable pub index_byte : Bytes → ℕ → ℤ
unfolding index_loop
index_byte string b = index_loop string 0 b

abbrev pub is_lower_byte : ℕ → Bool
is_lower_byte b = leb b'a' b && leb b b'z'

-- The index after the search for the upper case letter, which looks only before `idx` if `b` was
-- found there.
unfoldable pub upper_index : Bytes → ℕ → ℤ → ℤ
unfolding index_byte
upper_index bytes b idx =
    let before = if ltb_ℤ (pos 0) idx then take (to_size idx) bytes else bytes in
    let uidx = index_byte before (b - 32) in if ltb_ℤ uidx (pos 0) then idx else uidx

unfoldable pub try_skip : Bytes → Bool → ℕ → ℤ → Option ℤ
unfolding index_byte upper_index ◌+ℤ◌
try_skip input case_sensitive b from = do
  bytes ← slice? input (to_size from) (length input)
  let idx = index_byte bytes b
  let idx' = if not case_sensitive && is_lower_byte b then upper_index bytes b idx else idx
  if eqb_ℤ idx (pos 0)
      then some from
      else if ltb_ℤ idx' (pos 0)
      then some minus_one
      else some (from +ℤ idx')

unfoldable pub is_ascii : Bytes → Bool
is_ascii runes = true

-- the loop of `ascii_fuzzy_index` from `pidx`; the list is `pattern[pidx .. size)`
unfoldable pub fuzzy_index_loop : Bytes → Bool → Bytes → ℕ → ℤ → ℤ → Option ℤ
unfolding try_skip ◌+ℤ◌ ◌-ℤ◌
fuzzy_index_loop input case_sensitive [] pidx first_idx idx = some first_idx
fuzzy_index_loop input case_sensitive (b ∷ pattern) pidx first_idx idx = do
  found ← try_skip input case_sensitive b idx
  let first_idx' = if pidx == 0 && ltb_ℤ (pos 0) found then found -ℤ pos 1 else first_idx
  let rest = fuzzy_index_loop input case_sensitive pattern (pidx + 1) first_idx' (found +ℤ pos 1)
  if ltb_ℤ found (pos 0) then some minus_one else rest

unfoldable pub ascii_fuzzy_index : Bytes → Bytes → Bool → Option ℤ
unfolding fuzzy_index_loop is_ascii
ascii_fuzzy_index input pattern case_sensitive =
    if is_ascii pattern
    then fuzzy_index_loop input case_sensitive pattern 0 (pos 0) (pos 0)
    else some minus_one
