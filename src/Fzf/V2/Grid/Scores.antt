-- ===== src/Fzf/V2/Grid/Scores.antt =====
-- The scores of one cell of the matrix of `fzf_fuzzy_match_v2`, in 16 bits.
use plugged.Common.{
  Bool, Bool-cases, add_size, ap, arith, eqb_ℤ, false, get_elem?, if◌then◌else◌, inl, inr, ltb,
  ltb_ℤ, max, negsuc, pos, refl, some, sub_size, suc, to_i16, to_size, true, ℕ, ℤ, ◌+ℤ◌, ◌+◌, ◌-◌,
  ◌<ℤ◌, ◌<◌, ◌^◌, ◌∙◌, ◌≡◌, ◌≤◌, ◌⊎◌,
}
use plugged.Fzf.Chars.{bonus_boundary, score_gap_extension, score_gap_start, score_match}
use plugged.Fzf.Score.{max16}
use plugged.Fzf.Slab.{Array}
use plugged.Fzf.V2.Memory.{load}
use plugged.Fzf.V2.Rows.{Matrix, match_score, run_bonus}

pub to_i16-sum : (a b : ℕ) → a + b < 2 ^ 15 → to_i16 (pos a +ℤ pos b) ≡ pos (a + b)
unfolding ◌+ℤ◌
to_i16-sum a b h = ground arith

-- A gap takes one or three from the score before it, which may then be negative.
pub gap_score :
    (in_gap : Bool) (left : ℕ)
    → left < 2 ^ 15
    → (z : ℤ) × (to_i16 (pos left +ℤ (if in_gap then score_gap_extension else score_gap_start)) ≡ z)
      × (z <ℤ pos left)
unfolding ◌+ℤ◌
gap_score true left h = (to_i16 (pos left +ℤ score_gap_extension), refl, ground arith)
gap_score false left h = (to_i16 (pos left +ℤ score_gap_start), refl, ground arith)

-- The score of a cell is that of the match, or less than the one before it.
pub cell_score :
    (s1 left : ℕ) (z : ℤ)
    → z <ℤ pos left
    → (v : ℕ) × (max16 (max16 (pos s1) z) (pos 0) ≡ pos v)
      × ((v ≡ s1) ⊎ (v < left))
      × (v ≤ max s1 left)
unfolding max16
cell_score s1 left (negsuc k) h = (s1, ground arith, inl refl, omega arith)
cell_score s1 left (pos k) h = elim (Bool-cases (ltb k s1)) [
  | inl above ↦ (s1, ground arith, inl refl, omega arith)
  | inr below ↦ (k, ground arith, inr (omega arith), omega arith)
]

max16-pos : (a b : ℕ) → (c : ℕ) × (max16 (pos a) (pos b) ≡ pos c) × (c ≡ max a b)
unfolding max16
max16-pos a b = elim (Bool-cases (ltb b a)) [
  | inl above ↦ (a, ground arith, ground arith)
  | inr below ↦ (b, ground arith, ground arith)
]

-- What a run of matches adds: at most 8, and at most one more than the run before.
pub run_bonus_lem :
    (bo : Array) (col b n : ℕ)
    → b ≤ 8
    → n ≤ col
    → col < 2 ^ 31
    → (a : ℕ) × (get_elem? bo.cells (col - n) ≡ some (pos a)) × (a ≤ 8)
    → (b' : ℕ) × (run : ℕ) × (run_bonus bo col (pos b) (pos (suc n)) ≡ some (pos b', pos run))
      × (b' ≤ 8)
      × (run ≤ suc n)
unfolding run_bonus load
run_bonus_lem bo col b n low inside small (a, at, le) =
    elim (Bool-cases (eqb_ℤ (pos b) bonus_boundary)) [
      | inl top ↦ (b, 1, rw top refl, low, omega arith)
      | inr other ↦ elim (Bool-cases (ltb_ℤ (pos 1) (pos (suc n)))) [
        | inl more ↦
            let place : add_size (sub_size col (to_size (pos (suc n)))) 1 ≡ col - n = omega arith in
            let (c, e, l) = max16-pos 4 a in
            let (d, e', l') = max16-pos b c in
            (d, suc n, rw (other, more, place, at, e, e') refl, omega arith, omega arith)
        | inr single ↦ (b, suc n, rw (other, single) refl, low, omega arith)
      ]
    ]

-- A match adds 16 and a bonus of at most 8 to the score before it.
pub match_score_lem :
    (bo : Array) (s : Matrix) (diag col d n b : ℕ) (s2 : ℤ)
    → get_elem? s.h.cells diag ≡ some (pos d)
    → get_elem? s.c.cells diag ≡ some (pos n)
    → get_elem? bo.cells col ≡ some (pos b)
    → d + 24 < 2 ^ 15
    → n + 1 < 2 ^ 15
    → b ≤ 8
    → n ≤ col
    → col < 2 ^ 31
    → (a : ℕ) × (get_elem? bo.cells (col - n) ≡ some (pos a)) × (a ≤ 8)
    → (s1 : ℕ) × (run : ℕ) × (match_score bo s diag col s2 ≡ some (pos s1, pos run))
      × (d + 16 ≤ s1)
      × (s1 ≤ d + 24)
      × (run ≤ suc n)
unfolding match_score load
match_score_lem bo s diag col d n b s2 before run plain high short low inside small first =
    let (b', r, more, low', r_le) = run_bonus_lem bo col b n low inside small first in
    let base : to_i16 (pos d +ℤ score_match) ≡ pos (d + 16) = to_i16-sum d 16 (omega arith) in
    let longer : to_i16 (pos n +ℤ pos 1) ≡ pos (suc n) =
      to_i16-sum n 1 short ∙ ap pos (omega arith) in
    let one : to_i16 (pos (d + 16) +ℤ pos b) ≡ pos (d + 16 + b) =
      to_i16-sum (d + 16) b (omega arith) in
    let other : to_i16 (pos (d + 16) +ℤ pos b') ≡ pos (d + 16 + b') =
      to_i16-sum (d + 16) b' (omega arith) in
    elim (Bool-cases (ltb_ℤ (pos (d + 16) +ℤ pos b') s2)) [
      | inl gap ↦ (
        d + 16 + b,
        0,
        rw (before, base, plain, run, longer, more, gap, one) refl,
        omega arith,
        omega arith,
        omega arith,
      )
      | inr no_gap ↦ (
        d + 16 + b',
        r,
        rw (before, base, plain, run, longer, more, no_gap, other) refl,
        omega arith,
        omega arith,
        r_le,
      )
    ]
