-- ===== src/Fzf/V2/Grid.antt =====
-- What `fzf_fuzzy_match_v2` knows of its score matrix, for a pattern of two bytes or more.
pub mod Scores
pub mod Kept
pub mod Fill
pub mod Peak
pub mod FillRow
pub mod FillRows
pub mod Keeps
pub mod Walk
pub mod Places
pub mod FirstCells
pub mod Scan
pub mod Begin
pub mod FirstCopy
pub mod Laid
pub mod Way
pub mod Find
use native.Mathlib.Nat.{suc-mul, mul_comm, mul-le-mul, mul-le-mul_right}
use plugged.Common.{
  Bool, List, arith, eqb_ℤ, get_elem?, length, pos, some, suc, true, zero, ℕ, ℤ, ◌*◌, ◌+◌, ◌-◌, ◌<◌,
  ◌^◌, ◌≡◌, ◌≤◌, ◌⊎◌,
}
use plugged.Fzf.Chars.{Bytes}

-- The pattern and the text, when a byte of the text counts as one of the pattern, the first place
-- of each byte of the pattern, and the last place of its last byte: the matrix has a row for each
-- byte of the pattern, and in it a cell for each place from the first place to the last.
pub record Layout : Type 0 where
  pub hit : ℕ → ℕ → Bool
  pub pattern : Bytes
  pub text : Bytes
  pub first : ℕ → ℕ
  pub last : ℕ

abbrev pub grid_width : Layout → ℕ
grid_width l = l.last - l.first 0 + 1

abbrev pub grid_rows : Layout → ℕ
grid_rows l = length l.pattern

-- The index of a cell.
abbrev pub cell_index : Layout → ℕ → ℕ → ℕ
cell_index l i j = i * grid_width l + (j - l.first 0)

-- The text's byte at the place counts as the pattern's byte.
abbrev pub Hits : (ℕ → ℕ → Bool) → Bytes → Bytes → ℕ → ℕ → Type 0
Hits hit pattern text i j =
    (p : ℕ) × (x : ℕ) × (get_elem? pattern i ≡ some p)
    × (get_elem? text j ≡ some x)
    × (hit p x ≡ true)

abbrev pub IsHit : Layout → ℕ → ℕ → Type 0
IsHit l i j = Hits l.hit l.pattern l.text i j

pub record IsLaid (l : Layout) : Type 0 where
  pub two : 2 ≤ grid_rows l
  pub few : grid_rows l ≤ 1024
  pub increases : (k : ℕ) → suc k < grid_rows l → l.first k < l.first (suc k)
  pub reaches : (k : ℕ) → k < grid_rows l → l.first k ≤ l.last
  pub found : (k : ℕ) → k < grid_rows l → IsHit l k (l.first k)
  pub inside : l.last < length l.text
  pub small : length l.text < 2 ^ 31

-- The score is above the one before the place in the row above, or above 0 in the first row.
abbrev pub Above : Layout → List ℤ → ℕ → ℕ → ℕ → Type 0
Above l h zero j score = 0 < score
Above l h (suc i) j score =
    (d : ℕ) × (get_elem? h (cell_index l i (j - 1)) ≡ some (pos d)) × (d < score)

-- A match that scores more than what it continues.
abbrev pub Rises : Layout → List ℤ → ℕ → ℕ → ℕ → Type 0
Rises l h i j score = IsHit l i j × Above l h i j score

-- A gap: the score is 0, or less than the one before the place in its row.
abbrev pub Falls : Layout → List ℤ → ℕ → ℕ → ℕ → Type 0
Falls l h i j score =
    (l.first i < j)
    × ((score ≡ 0)
        ⊎ ((left : ℕ) × (get_elem? h (cell_index l i (j - 1)) ≡ some (pos left)) × (score < left)))

-- A cell that is filled: its score and the length of the run of matches that ends there, no longer
-- than the pattern's bytes and the places up to it.
pub record Cell (l : Layout) (h c : List ℤ) (i j : ℕ) : Type 0 where
  pub score : ℕ
  pub run : ℕ
  pub score_at : get_elem? h (cell_index l i j) ≡ some (pos score)
  pub run_at : get_elem? c (cell_index l i j) ≡ some (pos run)
  pub low : score ≤ 24 * suc i + 8
  pub brief : run ≤ suc i
  pub started : run ≤ suc (j - l.first 0)
  pub shape : Rises l h i j score ⊎ Falls l h i j score

-- The folded text and the bonuses, where the matrix reads them.
pub record Read (l : Layout) (t bo : List ℤ) (a : ℕ) : Type 0 where
  pub byte : ℕ
  pub folded : ℕ
  pub bonus : ℕ
  pub byte_at : get_elem? l.text a ≡ some byte
  pub folded_at : get_elem? t a ≡ some (pos folded)
  pub same : (p : ℕ) → eqb_ℤ (pos p) (pos folded) ≡ l.hit p byte
  pub bonus_at_place : get_elem? bo a ≡ some (pos bonus)
  pub bonus_low : bonus ≤ 8

abbrev pub AllRead : Layout → List ℤ → List ℤ → Type 0
AllRead l t bo = (a : ℕ) → l.first 0 ≤ a → a ≤ l.last → Read l t bo a

-- The row above ends where the next begins, and the rows fill the matrix.
pub row-suc : (l : Layout) (i : ℕ) → suc i * grid_width l ≡ i * grid_width l + grid_width l
row-suc l i = suc-mul i (grid_width l)

pub row-room :
    (l : Layout) (i : ℕ)
    → i < grid_rows l
    → i * grid_width l + grid_width l ≤ grid_width l * grid_rows l
row-room l i h = omega (
  arith,
  row-suc l i,
  mul-le-mul_right {m = suc i} {n = grid_rows l} (grid_width l) h,
  mul_comm (grid_rows l) (grid_width l),
)

pub room-small : (l : Layout) → IsLaid l → grid_width l * grid_rows l ≤ 2 ^ 31 * 1024
room-small l laid =
    mul-le-mul {n₁ = grid_width l} {m₁ = grid_rows l} {n₂ = 2 ^ 31} {m₂ = 1024}
      (omega (arith, laid.inside, laid.small)) laid.few

-- No byte of the pattern comes before the first.
pub first-le : (l : Layout) → IsLaid l → (k : ℕ) → k < grid_rows l → l.first 0 + k ≤ l.first k
first-le l laid zero h = omega arith
first-le l laid (suc k) h = omega (arith, first-le l laid k (omega arith), laid.increases k h)
