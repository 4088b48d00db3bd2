-- ===== src/Fzf/Samples.antt =====
-- Inputs that the tests share.
use Prim.Native.Char.{code}
use Prim.Native.String.{String}
use plugged.Common.{Bool, Option, [], false, pos, replicate, some, ℕ, ◌∷◌}
use plugged.Fzf.Chars.{Bytes, fold_char}
use plugged.Fzf.Positions.{Positions}
use plugged.Fzf.Score.Run.{fold_hit}
use plugged.Fzf.Slab.{Slab}
use plugged.Fzf.Subseq.{Subseq, pick, skip}

-- The bytes of an ASCII text.
abbrev pub codes : String → Bytes
codes String.[] = []
codes (String.◌∷◌ c s) = code c ∷ codes s

abbrev pub empty_positions : Positions
empty_positions = record { cells = []; cap = 0 }

abbrev pub small_slab : Option Slab
small_slab = some (record { i16 = replicate 200 (pos 0); i32 = replicate 60 (pos 0) })

abbrev pub pat : Bytes
pat = codes "ab"

abbrev pub sample : Bytes
sample = codes "xa b "

abbrev pub out : Option Positions
out = some empty_positions

abbrev pub hit : ℕ → ℕ → Bool
hit = fold_hit false false

pub no_c : ¬ Subseq hit (codes "c") (codes "ab")
unfolding fold_char
no_c (pick h d) = cc
no_c (skip (pick h d)) = cc
no_c (skip (skip d)) = elim d [ ]
