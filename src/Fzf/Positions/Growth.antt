-- ===== src/Fzf/Positions/Growth.antt =====
-- Appending to the array of positions never writes outside it, and keeps what was there.
use mathlib.Core.List.{append_assoc, append-nil}
use plugged.Common.{
  List, Option, [], ap, arith, inl, inr, length, length-append, ltb_ℤ, lt→ltb, none, pos, refl,
  some, suc, sym, to_i32_of_lt, true, zero, ℕ, ◌%◌, ◌++◌, ◌+◌, ◌-ℤ◌, ◌-◌, ◌<◌, ◌^◌, ◌∙◌, ◌∷◌, ◌≡◌,
  ◌≤◌, ◌⊎◌, -ℤ_parts,
}
use plugged.Fzf.Positions.{
  Positions, append_pos, insert_loop, insert_range, resize_pos, resize_pos?, unsafe_append_pos,
  write_pos,
}

-- `q` is `out` with `vs` appended, and its cells fit in its capacity. A `NULL` array stays one.
abbrev pub Grown : Option Positions → List ℕ → Option Positions → Type 0
Grown none vs none = Unit
Grown none vs (some q) = ⊥
Grown (some p) vs none = ⊥
Grown (some p) vs (some q) = (q.cells ≡ p.cells ++ vs) × (length q.cells ≤ q.cap)

-- The cells in use fit in the capacity.
abbrev pub Fits : Option Positions → Type 0
Fits none = Unit
Fits (some p) = length p.cells ≤ p.cap

pub Grown-Fits : (p q : Option Positions) (vs : List ℕ) → Grown p vs q → Fits q
Grown-Fits none none vs g = tt
Grown-Fits none (some q) vs g = absurd g
Grown-Fits (some p) none vs g = absurd g
Grown-Fits (some p) (some q) vs g = g.1

pub Grown-trans :
    (p q r : Option Positions) (us vs : List ℕ) → Grown p us q → Grown q vs r → Grown p (us ++ vs) r
Grown-trans none none none us vs g h = tt
Grown-trans none none (some r) us vs g h = absurd h
Grown-trans none (some q) r us vs g h = absurd g
Grown-trans (some p) none r us vs g h = absurd g
Grown-trans (some p) (some q) none us vs g h = absurd h
Grown-trans (some p) (some q) (some r) us vs g h =
    (h.0 ∙ ap (λ t. t ++ vs) g.0 ∙ append_assoc p.cells us vs, h.1)

pub Grown-refl : (p : Option Positions) → Fits p → Grown p [] p
Grown-refl none f = tt
Grown-refl (some p) f = (sym (append-nil p.cells), f)

pub resize_pos-room :
    (p : Positions) (add_len comp : ℕ)
    → length p.cells ≤ p.cap
    → comp ≤ add_len ⊎ (comp ≡ 1)
    → length p.cells + comp ≤ (resize_pos p add_len comp).cap
unfolding resize_pos
resize_pos-room p add_len comp f h = ground arith

pub resize_pos-data :
    (p : Positions) (add_len comp : ℕ) → (resize_pos p add_len comp).cells ≡ p.cells
unfolding resize_pos
resize_pos-data p add_len comp = ground arith

-- A request for room keeps the cells.
pub resize_pos?-Grown :
    (out : Option Positions) (n : ℕ) → Fits out → Grown out [] (resize_pos? out n n)
unfolding resize_pos?
resize_pos?-Grown none n f = tt
resize_pos?-Grown (some p) n f = (
  resize_pos-data p n n ∙ sym (append-nil p.cells),
  omega (arith, resize_pos-room p n n f (inl (omega arith)), ap length (resize_pos-data p n n)),
)

pub write_pos-eq :
    (p : Positions) (v : ℕ)
    → length p.cells < p.cap
    → v < 2 ^ 32
    → write_pos p v ≡ some (record p { cells = p.cells ++ v ∷ [] })
unfolding write_pos
write_pos-eq p v h small = let same : v % 2 ^ 32 ≡ v = omega arith in rw (lt→ltb _ _ h, same)

-- `unsafe_append_pos` makes room for its value.
pub unsafe_append_pos-eq :
    (p : Positions) (v : ℕ)
    → length p.cells ≤ p.cap
    → v < 2 ^ 32
    → (q : Positions) × (unsafe_append_pos p v ≡ some q)
      × (q.cells ≡ p.cells ++ v ∷ [])
      × (length q.cells ≤ q.cap)
unfolding unsafe_append_pos
unsafe_append_pos-eq p v f small =
    let r = resize_pos p p.cap 1 in
    let room = resize_pos-room p p.cap 1 f (inr refl) in
    let kept = resize_pos-data p p.cap 1 in
    let space : length r.cells < r.cap = omega (arith, ap length kept) in
    (
      record r { cells = r.cells ++ v ∷ [] },
      write_pos-eq r v space small,
      ap (λ t. t ++ v ∷ []) kept,
      omega (arith, length-append r.cells (v ∷ [])),
    )

-- `append_pos` appends its value and succeeds.
pub append_pos-Grown :
    (out : Option Positions) (v : ℕ)
    → Fits out
    → v < 2 ^ 32
    → (q : Option Positions) × (append_pos out v ≡ some q) × Grown out (v ∷ []) q
unfolding append_pos
append_pos-Grown none v f small = (none, refl, tt)
append_pos-Grown (some p) v f small =
    let (q, run, cells, fits) = unsafe_append_pos-eq p v f small in
    (some q, rw run refl, (cells, fits))

-- `k, k + 1, ..., k + n - 1`
unfoldable pub places_from : ℕ → ℕ → List ℕ
places_from k zero = []
places_from k (suc n) = k ∷ places_from (k + 1) n

insert_loop-eq :
    (n k : ℕ) (p : Positions)
    → length p.cells + n ≤ p.cap
    → k + n < 2 ^ 32
    → insert_loop n k p ≡ some (record p { cells = p.cells ++ places_from k n })
unfolding insert_loop places_from
insert_loop-eq zero k p h small =
    ap (λ (t : List ℕ). some (record p { cells = t })) (sym (append-nil p.cells))
insert_loop-eq (suc n) k p h small = rw (
  write_pos-eq p k (omega arith) (omega arith),
  insert_loop-eq n (k + 1) (record p { cells = p.cells ++ k ∷ [] })
      (omega (arith, length-append p.cells (k ∷ []))) (omega arith),
  append_assoc p.cells (k ∷ []) (places_from (k + 1) n),
)

length-places_from : (k n : ℕ) → length (places_from k n) ≡ n
unfolding places_from
length-places_from k zero = refl
length-places_from k (suc n) = ap suc (length-places_from (k + 1) n)

-- For a range that is not empty and ends below 2^31, and positions whose cells in use fit their
-- capacity, `insert_range` writes in bounds, appends the places of the range in order, and the
-- cells in use fit the capacity again.
pub insert_range-Grown :
    (out : Option Positions) (start end : ℕ)
    → Fits out
    → start < end
    → end < 2 ^ 31
    → (q : Option Positions) × (insert_range out start end ≡ some q)
      × Grown out (places_from start (end - start)) q
unfolding insert_range
insert_range-Grown none start end f h small = (none, refl, tt)
insert_range-Grown (some p) start end f h small =
    let n = end - start in
    let r = resize_pos p n n in
    let room = resize_pos-room p n n f (inl (omega arith)) in
    let kept = resize_pos-data p n n in
    let positive : ltb_ℤ (pos 0) (pos end -ℤ pos start) ≡ true =
      ground (arith, -ℤ_parts (pos end) (pos start)) in
    (
      some (record r { cells = r.cells ++ places_from start n }),
      rw (
        to_i32_of_lt end small,
        to_i32_of_lt start (omega arith),
        positive,
        insert_loop-eq n start r (omega (arith, ap length kept)) (omega arith),
      ),
      (
        ap (λ t. t ++ places_from start n) kept,
        omega (
          arith,
          length-append r.cells (places_from start n),
          length-places_from start n,
          ap length kept,
        ),
      ),
    )
