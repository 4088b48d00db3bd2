-- ===== src/Fzf/V2/Memory.antt =====
-- fzf.c, lines 96-106 and 15-19: reads and writes of the matcher's arrays, and what they leave in
-- the slab. The arrays taken from a slab do not overlap, so each is modelled as its own list, which
-- is put back into the slab when the matcher returns.
use plugged.Common.{
  Bool, List, Option, [], drop, false, get_elem?, if◌then◌else◌, leb, length, ltb, none, pos, set,
  slice?, some, take, ℕ, ℤ, ◌++◌, ◌+◌, ◌>>=◌, ◌∷◌,
}
use plugged.Fzf.Chars.{Bytes}
use plugged.Fzf.Slab.{Array, Slab}

unfoldable pub load : Array → ℕ → Option ℤ
load a i = get_elem? a.cells i

unfoldable pub store : Array → ℕ → ℤ → Option Array
store a i v = if ltb i (length a.cells) then some (record a { cells = set a.cells i v }) else none

-- `copy_runes`: the array has the text's length, or more
unfoldable pub copy_runes : Bytes → List ℤ → List ℤ
copy_runes [] cells = cells
copy_runes (c ∷ xs) [] = []
copy_runes (c ∷ xs) (v ∷ cells) = pos c ∷ copy_runes xs cells

-- `copy_into_i16` of the slice `src[from .. to)`
unfoldable pub copy_into_i16 : Array → ℕ → ℕ → Array → Option Array
copy_into_i16 src from to dest = do
  slice ← slice? src.cells from to
  if leb (length slice) (length dest.cells)
      then some (record dest { cells = slice ++ drop (length slice) dest.cells })
      else none

abbrev pub splice : List ℤ → Array → List ℤ
splice memory a =
    if a.allocated
    then memory
    else take a.base memory ++ a.cells ++ drop (a.base + length a.cells) memory

unfoldable pub put_back16 : Option Slab → Array → Option Slab
put_back16 none a = none
put_back16 (some slab) a = some (record slab { i16 = splice slab.i16 a })

unfoldable pub put_back32 : Option Slab → Array → Option Slab
put_back32 none a = none
put_back32 (some slab) a = some (record slab { i32 = splice slab.i32 a })

-- `slab != NULL && N * M > slab->I16.cap`
unfoldable pub exceeds_slab : Option Slab → ℕ → Bool
exceeds_slab none size = false
exceeds_slab (some slab) size = ltb (length slab.i16) size
