-- ===== src/Fzf/Positions.antt =====
-- fzf.c, lines 201-250: the growing array of matched positions, `fzf_position_t`. A `NULL` array
-- is `none`. The cells beyond `size` are never read, so `data` lists the `size` cells written.
pub mod Growth
use plugged.Common.{
  List, Option, [], if◌then◌else◌, length, ltb, ltb_ℤ, none, pos, some, suc, to_i32, zero, ℕ, ◌%◌,
  ◌++◌, ◌+◌, ◌-ℤ◌, ◌-◌, ◌>>=◌, ◌^◌, ◌∷◌,
}

pub record Positions : Type 0 where
  pub cells : List ℕ
  pub cap : ℕ

unfoldable pub fzf_pos_array : ℕ → Positions
fzf_pos_array len = record { cells = []; cap = len }

unfoldable pub resize_pos : Positions → ℕ → ℕ → Positions
resize_pos p add_len comp =
    if ltb p.cap (length p.cells + comp)
    then record p { cap = p.cap + (if ltb 0 add_len then add_len else 1) }
    else p

unfoldable pub resize_pos? : Option Positions → ℕ → ℕ → Option Positions
unfolding resize_pos
resize_pos? none add_len comp = none
resize_pos? (some p) add_len comp = some (resize_pos p add_len comp)

-- `pos->data[pos->size] = value; pos->size++`: a cell is a `uint32_t`, and a write at `cap` or
-- beyond is a fault.
unfoldable pub write_pos : Positions → ℕ → Option Positions
write_pos p value =
    if ltb (length p.cells) p.cap
    then some (record p { cells = p.cells ++ value % 2 ^ 32 ∷ [] })
    else none

unfoldable pub unsafe_append_pos : Positions → ℕ → Option Positions
unfolding resize_pos write_pos
unsafe_append_pos p value = write_pos (resize_pos p p.cap 1) value

unfoldable pub append_pos : Option Positions → ℕ → Option (Option Positions)
unfolding unsafe_append_pos
append_pos none value = some none
append_pos (some p) value = do q ← unsafe_append_pos p value; some (some q)

-- the loop of `insert_range`, with the rounds that are left
unfoldable pub insert_loop : ℕ → ℕ → Positions → Option Positions
unfolding write_pos
insert_loop zero k p = some p
insert_loop (suc n) k p = do q ← write_pos p k; insert_loop n (k + 1) q

unfoldable pub insert_range : Option Positions → ℕ → ℕ → Option (Option Positions)
unfolding resize_pos insert_loop ◌-ℤ◌
insert_range none start end = some none
insert_range (some p) start end =
    if ltb_ℤ (pos 0) (to_i32 end -ℤ to_i32 start)
    then (do
      q ← insert_loop (end - start) start (resize_pos p (end - start) (end - start))
      some (some q))
    else some (some p)
