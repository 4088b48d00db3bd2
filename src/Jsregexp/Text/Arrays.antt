-- ===== src/Jsregexp/Text/Arrays.antt =====
-- Writes into the arrays of a conversion, and what they leave.
use plugged.Common.{
  Bool-cases, List, Option, SameBelow, ap, arith, get_elem?, get_elem?-set_above,
  get_elem?-set_here, inl, inr, length, length-set, ltb, lt→ltb, none, refl, set, some, ℕ, ◌%◌, ◌+◌,
  ◌<◌, ◌^◌, ◌∙◌, ◌≡◌, ◌≤◌,
}
use plugged.Jsregexp.Text.{Wide, high_unit, low_unit, note, write, write_units}
use plugged.Jsregexp.Text.Chars.{Written, unit_count}

pub write-in : (xs : List ℕ) (i v : ℕ) → i < length xs → write xs i v ≡ some (set xs i v)
unfolding write
write-in xs i v h = rw (lt→ltb i (length xs) h)

-- The arrays have n + 1 elements.
pub record Sized (n : ℕ) (w : Wide) : Type 0 where
  pub str_size : length w.str ≡ n + 1
  pub indices_size : length w.indices ≡ n + 1
  pub rev_indices_size : length w.rev_indices ≡ n + 1

-- Nothing differs below the unit `u` and the byte `at`.
pub record Kept (u at : ℕ) (w w' : Wide) : Type 0 where
  pub str_same : SameBelow u w.str w'.str
  pub indices_same : SameBelow u w.indices w'.indices
  pub rev_indices_same : SameBelow at w.rev_indices w'.rev_indices

pub Kept-trans :
    {u at u' at' : ℕ} {v w x : Wide}
    → Kept u at v w
    → Kept u' at' w x
    → u ≤ u'
    → at ≤ at'
    → Kept u at v x
Kept-trans k l h h' = record {
  str_same = λ i e. l.str_same i (omega arith) ∙ k.str_same i e;
  indices_same = λ i e. l.indices_same i (omega arith) ∙ k.indices_same i e;
  rev_indices_same = λ i e. l.rev_indices_same i (omega arith) ∙ k.rev_indices_same i e;
}

-- Noting a character writes its place in both arrays.
pub note_lem :
    (n at : ℕ) (w : Wide)
    → Sized n w
    → w.q ≤ n
    → at ≤ n
    → (w' : Wide) × (note at w ≡ some w')
      × Sized n w'
      × Kept w.q at w w'
      × (w'.q ≡ w.q)
      × (w'.str ≡ w.str)
      × (get_elem? w'.indices w.q ≡ some at)
      × (get_elem? w'.rev_indices at ≡ some w.q)
unfolding note
note_lem n at w size h k = (
  record w { indices = set w.indices w.q at; rev_indices = set w.rev_indices at w.q },
  rw
      (
        write-in w.indices w.q at (omega (arith, size.indices_size)),
        write-in w.rev_indices at w.q (omega (arith, size.rev_indices_size)),
      )
      refl,
  record {
    str_size = size.str_size;
    indices_size = length-set w.indices w.q at ∙ size.indices_size;
    rev_indices_size = length-set w.rev_indices at w.q ∙ size.rev_indices_size;
  },
  record {
    str_same = λ i e. refl;
    indices_same = λ i e. get_elem?-set_above w.indices w.q i at e;
    rev_indices_same = λ i e. get_elem?-set_above w.rev_indices at i w.q e;
  },
  refl,
  refl,
  get_elem?-set_here w.indices w.q at (omega (arith, size.indices_size)),
  get_elem?-set_here w.rev_indices at w.q (omega (arith, size.rev_indices_size)),
)

-- Writing the units of a character moves `q` past them.
pub write_units_lem :
    (n c : ℕ) (w : Wide)
    → Sized n w
    → w.q + unit_count c ≤ n
    → (w' : Wide) × (write_units c w ≡ some w')
      × Sized n w'
      × SameBelow w.q w.str w'.str
      × (w'.indices ≡ w.indices)
      × (w'.rev_indices ≡ w.rev_indices)
      × (w'.q ≡ w.q + unit_count c)
      × Written c w.q w'.str
unfolding write_units
write_units_lem n c w size h = elim (Bool-cases (ltb 65535 c)) [
  | inl e ↦
      let one = set w.str w.q (high_unit c) in
      let two = set one (w.q + 1) (low_unit c) in
      let room : w.q + 2 ≤ n = rw (unit_count, e) at h in
      let first : length one ≡ n + 1 = length-set w.str w.q (high_unit c) ∙ size.str_size in
      (
        record w { str = two; q = w.q + 2 },
        rw
            (
              e,
              write-in w.str w.q (high_unit c) (omega (arith, size.str_size)),
              write-in one (w.q + 1) (low_unit c) (omega (arith, first)),
            )
            refl,
        record {
          str_size = length-set one (w.q + 1) (low_unit c) ∙ first;
          indices_size = size.indices_size;
          rev_indices_size = size.rev_indices_size;
        },
        (λ i k.
            get_elem?-set_above one (w.q + 1) i (low_unit c) (omega arith)
            ∙ get_elem?-set_above w.str w.q i (high_unit c) k),
        refl,
        refl,
        rw (unit_count, e) refl,
        rw e (
          get_elem?-set_above one (w.q + 1) w.q (low_unit c) (omega arith)
              ∙ get_elem?-set_here w.str w.q (high_unit c) (omega (arith, size.str_size)),
          get_elem?-set_here one (w.q + 1) (low_unit c) (omega (arith, first)),
        ),
      )
  | inr e ↦
      let one = set w.str w.q (c % 2 ^ 16) in
      (
        record w { str = one; q = w.q + 1 },
        rw (e, write-in w.str w.q (c % 2 ^ 16) (omega (arith, size.str_size))) refl,
        record {
          str_size = length-set w.str w.q (c % 2 ^ 16) ∙ size.str_size;
          indices_size = size.indices_size;
          rev_indices_size = size.rev_indices_size;
        },
        (λ i k. get_elem?-set_above w.str w.q i (c % 2 ^ 16) k),
        refl,
        refl,
        rw (unit_count, e) refl,
        rw e (
            get_elem?-set_here w.str w.q (c % 2 ^ 16) (omega (arith, size.str_size))
            ∙ ap some (ground arith)),
      )
]

-- A conversion that succeeds leaves what stands below `u` and `at`.
abbrev pub Leaves : ℕ → ℕ → Wide → Option Wide → Type 0
Leaves u at w none = Unit
Leaves u at w (some w') = Kept u at w w'
