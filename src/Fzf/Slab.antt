-- ===== src/Fzf/Slab.antt =====
-- fzf.c, lines 252-280 and 1243-1264: the scratch memory that a caller may hand to the matchers.
pub mod Apart
use plugged.Common.{
  Bool, List, Option, add_size, drop, false, if◌then◌else◌, length, ltb, none, pos, replicate, some,
  take, true, ℕ, ℤ, ◌*◌,
}

-- `fzf_i16_t` and `fzf_i32_t`, which differ in the width of a cell. An array that is not
-- `allocated` is the part of the slab that begins at `base`; `size` and `cap` are both the length.
pub record Array : Type 0 where
  pub cells : List ℤ
  pub base : ℕ
  pub allocated : Bool

pub record Slab : Type 0 where
  pub i16 : List ℤ
  pub i32 : List ℤ

pub record SlabConfig : Type 0 where
  pub size_16 : ℕ
  pub size_32 : ℕ

unfoldable pub fzf_make_slab : SlabConfig → Slab
fzf_make_slab config = record {
  i16 = replicate config.size_16 (pos 0);
  i32 = replicate config.size_32 (pos 0);
}

unfoldable pub fzf_make_default_slab : Slab
unfolding fzf_make_slab
fzf_make_default_slab = fzf_make_slab (record { size_16 = 100 * 1024; size_32 = 2048 })

-- The part shared by `alloc16` and `alloc32`: `memory` is the slab's array of that width. The
-- result is the new array and the new offset.
unfoldable pub alloc : ℕ → Option (List ℤ) → ℕ → Array × ℕ
alloc offset none size =
    (record { cells = replicate size (pos 0); base = 0; allocated = true }, offset)
alloc offset (some memory) size =
    if ltb (add_size offset size) (length memory)
    then (
      record { cells = take size (drop offset memory); base = offset; allocated = false },
      add_size offset size,
    )
    else (record { cells = replicate size (pos 0); base = 0; allocated = true }, offset)

abbrev memory16 : Option Slab → Option (List ℤ)
memory16 none = none
memory16 (some slab) = some slab.i16

abbrev memory32 : Option Slab → Option (List ℤ)
memory32 none = none
memory32 (some slab) = some slab.i32

unfoldable pub alloc16 : ℕ → Option Slab → ℕ → Array × ℕ
unfolding alloc
alloc16 offset slab size = alloc offset (memory16 slab) size

unfoldable pub alloc32 : ℕ → Option Slab → ℕ → Array × ℕ
unfolding alloc
alloc32 offset slab size = alloc offset (memory32 slab) size
