-- ===== src/Jsregexp/Text/Chars.antt =====
-- What a conversion of a text should give: the characters of its bytes, and where each stands.
use plugged.Common.{
  List, Option, [], drop, get_elem?, if◌then◌else◌, length, ltb, none, some, ℕ, ◌+◌, ◌<◌, ◌∷◌, ◌≡◌,
  ◌≤◌,
}
use plugged.Fzf.Chars.{Bytes}
use plugged.Jsregexp.Engine.{Decoder}
use plugged.Jsregexp.Text.{Wide, high_unit, low_unit}

-- What `unicode_from_utf8` documents of the characters it gives: each takes at least one byte,
-- and no more than there are, and one above 0xffff takes at least two.
abbrev pub unit_count : ℕ → ℕ
unit_count c = if ltb 65535 c then 2 else 1

abbrev pub TakesEnough : Decoder → Type 0
TakesEnough decode =
    (bytes : Bytes) (c taken : ℕ)
    → decode bytes ≡ some (c, taken)
    → (unit_count c ≤ taken) × (taken ≤ length bytes)

-- The bytes are those of the characters, each with the bytes it takes.
abbrev pub Decodes : Decoder → Bytes → List (ℕ × ℕ) → Type 0
Decodes decode bytes [] = bytes ≡ []
Decodes decode bytes ((c, taken) ∷ cs) =
    (0 < length bytes) × (decode bytes ≡ some (c, taken)) × Decodes decode (drop taken bytes) cs

-- After the characters the bytes are malformed.
abbrev pub Breaks : Decoder → Bytes → List (ℕ × ℕ) → Type 0
Breaks decode bytes [] = (0 < length bytes) × (decode bytes ≡ none)
Breaks decode bytes ((c, taken) ∷ cs) =
    (0 < length bytes) × (decode bytes ≡ some (c, taken)) × Breaks decode (drop taken bytes) cs

-- The unit at `u` is the character, or the pair at `u` stands for it.
abbrev pub Written : ℕ → ℕ → List ℕ → Type 0
Written c u units =
    if ltb 65535 c
    then ((get_elem? units u ≡ some (high_unit c)) × (get_elem? units (u + 1) ≡ some (low_unit c)))
    else (get_elem? units u ≡ some c)

-- The characters stand in the arrays from byte `at` and unit `u` on: the arrays of indices lead
-- from the start of each to the other and back, and so do they at the end, unit `u` and byte `n`,
-- where a zero follows.
abbrev pub Table : ℕ → List (ℕ × ℕ) → ℕ → ℕ → Wide → Type 0
Table n [] at u w =
    (w.q ≡ u)
    × (get_elem? w.str u ≡ some 0)
    × (get_elem? w.indices u ≡ some n)
    × (get_elem? w.rev_indices n ≡ some u)
Table n ((c, taken) ∷ cs) at u w =
    Written c u w.str
    × (get_elem? w.indices u ≡ some at)
    × (get_elem? w.rev_indices at ≡ some u)
    × Table n cs (at + taken) (u + unit_count c) w

-- What the conversion of the bytes gives: nothing where they are malformed, and else arrays of
-- n + 1 elements that hold the characters.
abbrev pub Converts : Decoder → Bytes → ℕ → ℕ → ℕ → Option Wide → Type 0
Converts decode bytes n at u none = (cs : List (ℕ × ℕ)) × Breaks decode bytes cs
Converts decode bytes n at u (some w) =
    (cs : List (ℕ × ℕ)) × Decodes decode bytes cs × Table n cs at u w × (w.q ≤ n)
