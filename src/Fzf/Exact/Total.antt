-- ===== src/Fzf/Exact/Total.antt =====
-- The loop of `fzf_exact_match_naive` ends within its fuel and does not fault.
use plugged.Common.{Bool, length, some, ◌<◌, ◌^◌, ◌≡◌}
use plugged.Fzf.Chars.{Bytes}
use plugged.Fzf.Exact.{ExactState, exact_fuel, exact_loop, exact_start}
use plugged.Fzf.Exact.Scan.{exact_loop-Best}

module _ (case_sensitive normalize : Bool) (text pattern : Bytes)
    (small : length text < 2 ^ 31) where
  -- On a text shorter than 2^31 bytes and a pattern of at least one byte, the loop of
  -- `fzf_exact_match_naive`, which goes back in the text after a failed comparison, ends within
  -- `exact_fuel` rounds and reads nothing out of bounds.
  pub exact_loop_ends :
      0 < length pattern
      → (t : ExactState) × (exact_loop case_sensitive normalize text pattern
            (exact_fuel text pattern)
            exact_start
          ≡ some t)
  exact_loop_ends h =
      let (t, run, _) = exact_loop-Best case_sensitive normalize text pattern small h in (t, run)
