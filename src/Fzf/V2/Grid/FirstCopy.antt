-- ===== src/Fzf/V2/Grid/FirstCopy.antt =====
-- The first row of the matrix of `fzf_fuzzy_match_v2`, copied from what the loop over the text left.
use plugged.Common.{
  arith, drop, get_elem?, get_elem?-drop, get_elem?-take, length, length-append, length-drop,
  length-take_le, le→leb, refl, slice?_in, some, take, ℕ, ◌++◌, ◌+◌, ◌-◌, ◌<◌, ◌∙◌, ◌≡◌, ◌≤◌,
}
use plugged.Fzf.Slab.{Array}
use plugged.Fzf.V2.Memory.{copy_into_i16}

-- A slice is copied in bounds: what it held is read at the array's start.
pub copy_into_i16-copied :
    (src dest : Array) (from to : ℕ)
    → from ≤ to
    → to ≤ length src.cells
    → to - from ≤ length dest.cells
    → (copied : Array) × (copy_into_i16 src from to dest ≡ some copied)
      × (length copied.cells ≡ length dest.cells)
      × ((i : ℕ) → i < to - from → get_elem? copied.cells i ≡ get_elem? src.cells (from + i))
unfolding copy_into_i16
copy_into_i16-copied src dest from to order inside room =
    let slice = take (to - from) (drop from src.cells) in
    let fits : to - from ≤ length (drop from src.cells) =
      omega (arith, length-drop from src.cells) in
    let size = length-take_le (to - from) (drop from src.cells) fits in
    (
      record dest { cells = slice ++ drop (length slice) dest.cells },
      rw
          (
            slice?_in src.cells from to order inside,
            le→leb (length slice) (length dest.cells) (omega (arith, size)),
          )
          refl,
      omega (
        arith,
        size,
        length-append slice (drop (length slice) dest.cells),
        length-drop (length slice) dest.cells,
      ),
      λ i lt.
          get_elem?-take (to - from) i (drop from src.cells) (drop (length slice) dest.cells) lt
            fits
          ∙ get_elem?-drop from i src.cells,
    )
