-- ===== src/Fzf/Exact.antt =====
-- fzf.c, lines 770-832: `fzf_exact_match_naive`, the search for the pattern as a whole.
pub mod Best
pub mod Prefix
pub mod Scan
pub mod Total
pub mod Match
use plugged.Common.{
  Bool, Option, add_size, eqb_ℤ, false, get_elem?, if◌then◌else◌, length, ltb, ltb_ℤ, none, pos,
  some, sub_size, suc, to_i32, to_size, true, zero, ℕ, ℤ, ◌*◌, ◌+◌, ◌-◌, ◌==◌, ◌>>=◌,
}
use plugged.Fzf.Affix.{score_range}
use plugged.Fzf.Chars.{Bytes, bonus_at, bonus_boundary, fold_char}
use plugged.Fzf.Positions.{Positions}
use plugged.Fzf.Score.{Result, empty_match, no_match}
use plugged.Fzf.Skip.{ascii_fuzzy_index, minus_one}

-- the variables of the loop
pub record ExactState : Type 0 where
  pub idx : ℕ
  pub pidx : ℕ
  pub best_pos : ℤ
  pub bonus : ℤ
  pub best_bonus : ℤ

-- Whether the loop goes on, and its variables after the round, `idx++` included.
pub data Round : Type 0 where
  go_on : ExactState → Round
  stop : ExactState → Round

-- the branch `pidx == M`; `bonus` is that of the occurrence, and `pidx` is `M`
unfoldable pub exact_found : ExactState → Round
exact_found s =
    let better = ltb_ℤ s.best_bonus s.bonus in
    let best_pos = if better then to_i32 s.idx else s.best_pos in
    let best_bonus = if better then s.bonus else s.best_bonus in
    if eqb_ℤ s.bonus bonus_boundary
    then stop (record s { best_pos = best_pos; best_bonus = best_bonus })
    else go_on (record {
      idx = add_size (sub_size s.idx (s.pidx - 1)) 1;
      pidx = 0;
      best_pos = best_pos;
      bonus = pos 0;
      best_bonus = best_bonus;
    })

unfoldable pub exact_round : Bool → Bool → Bytes → Bytes → ExactState → Option Round
unfolding exact_found
exact_round case_sensitive normalize text pattern s = do
  c ← get_elem? text s.idx
  p ← get_elem? pattern s.pidx
  if fold_char case_sensitive normalize c == p
      then (do
        bonus ← if s.pidx == 0 then bonus_at text s.idx else some s.bonus
        let t = record s { pidx = s.pidx + 1; bonus = bonus }
        some (
            if t.pidx == length pattern
            then exact_found t
            else go_on (record t { idx = s.idx + 1 })))
      else some
          (go_on (record s { idx = add_size (sub_size s.idx s.pidx) 1; pidx = 0; bonus = pos 0 }))

-- The loop on fuel; running out of it is `none`, as a fault.
unfoldable pub exact_loop : Bool → Bool → Bytes → Bytes → ℕ → ExactState → Option ExactState
exact_loop case_sensitive normalize text pattern zero s = none
exact_loop case_sensitive normalize text pattern (suc fuel) s = elim (ltb s.idx (length text)) [
  | false ↦ some s
  | true ↦ exact_round case_sensitive normalize text pattern s >>= (λ r. elim r [
    | stop t ↦ some t
    | go_on t ↦ exact_loop case_sensitive normalize text pattern fuel t
  ])
]

abbrev pub exact_start : ExactState
exact_start = record {
  idx = 0;
  pidx = 0;
  best_pos = minus_one;
  bonus = pos 0;
  best_bonus = minus_one;
}

abbrev pub exact_fuel : Bytes → Bytes → ℕ
exact_fuel text pattern = suc (length text * suc (length pattern))

unfoldable pub fzf_exact_match_naive :
    Bool → Bool → Bytes → Bytes → Option Positions → Option (Result × Option Positions)
fzf_exact_match_naive case_sensitive normalize text pattern out =
    if length pattern == 0
    then some (empty_match, out)
    else if ltb (length text) (length pattern)
    then some (no_match, out)
    else (do
      first ← ascii_fuzzy_index text pattern case_sensitive
      if ltb_ℤ first (pos 0) then some (no_match, out) else (do
        s ← exact_loop case_sensitive normalize text pattern (exact_fuel text pattern) exact_start
        if ltb_ℤ s.best_pos (pos 0) then some (no_match, out) else (do
          let bp = to_size s.best_pos
          score_range case_sensitive normalize text pattern
              (add_size (sub_size bp (length pattern)) 1) (add_size bp 1) out)))
