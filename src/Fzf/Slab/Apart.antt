-- ===== src/Fzf/Slab/Apart.antt =====
-- That the arrays taken from a slab one after the other lie in it and do not overlap.
use plugged.Common.{
  Bool-cases, List, Option, [], add_size, arith, drop, false, inl, inr, length, length-drop,
  length-replicate, length-take_le, ltb, none, pos, refl, some, true, ℕ, ℤ, ◌+◌, ◌<◌, ◌^◌, ◌∷◌, ◌≡◌,
  ◌≤◌, ◌⊎◌,
}
use plugged.Fzf.Slab.{Array, alloc}

-- The arrays of these sizes, allocated one after the other from the offset on.
abbrev pub alloc_all : Option (List ℤ) → ℕ → List ℕ → List Array
alloc_all memory offset [] = []
alloc_all memory offset (size ∷ sizes) =
    (alloc offset memory size).0 ∷ alloc_all memory (alloc offset memory size).1 sizes

-- How many cells are asked for.
abbrev pub total_size : List ℕ → ℕ
total_size [] = 0
total_size (size ∷ sizes) = size + total_size sizes

abbrev room : Option (List ℤ) → ℕ
room none = 0
room (some memory) = length memory

-- Each array has the size asked for; one that is shared holds a part of the slab, inside of it,
-- that begins at or after the end `from` of the parts before it.
abbrev pub Apart : Option (List ℤ) → ℕ → List ℕ → List Array → Type 0
Apart memory from [] [] = Unit
Apart memory from [] (a ∷ arrays) = ⊥
Apart memory from (size ∷ sizes) [] = ⊥
Apart memory from (size ∷ sizes) (a ∷ arrays) =
    (length a.cells ≡ size)
    × (((a.allocated ≡ true) × Apart memory from sizes arrays)
        ⊎ ((a.allocated ≡ false)
            × (from ≤ a.base)
            × (a.base + size < room memory)
            × Apart memory (a.base + size) sizes arrays))

-- Of arrays allocated one after the other with or without a slab, where the cells in use and all
-- sizes add up to less than 2^62, each has the size asked for, and one that is a part of the
-- slab lies inside of it and begins at or after the end of all earlier parts: they do not
-- overlap.
pub alloc_all-Apart :
    (memory : Option (List ℤ)) (sizes : List ℕ) (offset : ℕ)
    → offset + total_size sizes < 2 ^ 62
    → Apart memory offset sizes (alloc_all memory offset sizes)
unfolding alloc
alloc_all-Apart memory [] offset small = tt
alloc_all-Apart none (size ∷ sizes) offset small =
    (length-replicate size (pos 0), inl (refl, alloc_all-Apart none sizes offset (omega arith)))
alloc_all-Apart (some cells) (size ∷ sizes) offset small =
    let plain : add_size offset size ≡ offset + size = omega arith in
    elim (Bool-cases (ltb (offset + size) (length cells))) [
      | inl e ↦
          rw (alloc, plain, e)
            (
              length-take_le size (drop offset cells) (ground (arith, length-drop offset cells)),
              inr (
                refl,
                omega arith,
                ground arith,
                alloc_all-Apart (some cells) sizes (offset + size) (omega arith),
              ),
            )
      | inr e ↦
          rw (alloc, plain, e)
            (
              length-replicate size (pos 0),
              inl (refl, alloc_all-Apart (some cells) sizes offset (omega arith)),
            )
    ]
