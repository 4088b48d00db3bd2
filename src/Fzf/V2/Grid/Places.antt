-- ===== src/Fzf/V2/Grid/Places.antt =====
-- How the loop of `fzf_fuzzy_match_v2` over the text finds a place for each byte of the pattern.
use native.Mathlib.Decide.{dec_lt}
use native.Mathlib.Numerals.{add-one}
use plugged.Common.{
  Bool, Bool-cases, [], ap, arith, drop, false, get_elem?, get_elem?-of_drop, get_elem?-of_lt,
  get_elem?-set_above, get_elem?-set_here, if◌then◌else◌, inl, inr, length, length-set, ltb, lt→ltb,
  min, neq-false, pos, refl, set, some, subst, suc, to_i32, to_i32_of_lt, true, zero, ℕ, ◌+◌, ◌-◌,
  ◌<◌, ◌==◌, ◌^◌, ◌∙◌, ◌∷◌, ◌≡◌, ◌≤◌,
}
use plugged.Fzf.Chars.{Bytes}
use plugged.Fzf.Slab.{Array}
use plugged.Fzf.Subseq.{Subseq, done}
use plugged.Fzf.Subseq.Greedy.{Subseq-miss, Subseq-tail}
use plugged.Fzf.V2.Cells.{store-in}
use plugged.Fzf.V2.FirstRow.{Phase2, note_first}
use plugged.Fzf.V2.Grid.{Hits}
use plugged.Fzf.V2.Start.{drop-of_get}

-- The rest of a list from its end on is empty.
pub drop-past : (n : ℕ) (xs : Bytes) → length xs ≤ n → drop n xs ≡ []
drop-past zero [] h = refl
drop-past (suc n) [] h = refl
drop-past zero (x ∷ xs) h = absurd (omega arith)
drop-past (suc n) (x ∷ xs) h = drop-past n xs (omega arith)

-- Another place for one of the pattern's bytes.
abbrev pub moved : (ℕ → ℕ) → ℕ → ℕ → ℕ → ℕ
moved first i place k = if k == i then place else first k

moved_here : (first : ℕ → ℕ) (i place : ℕ) → moved first i place i ≡ place
moved_here first i place = let same : (i == i) ≡ true = ground arith in rw same

moved_below : (first : ℕ → ℕ) (i place k : ℕ) → k < i → moved first i place k ≡ first k
moved_below first i place k h = rw (neq-false k i (omega arith))

module _ (hit : ℕ → ℕ → Bool) (pattern text : Bytes) where
  -- The place of a byte of the pattern that has been found.
  abbrev pub Marked : ℕ → ℕ → (ℕ → ℕ) → Array → ℕ → Type 0
  Marked idx place first f k =
      (get_elem? f.cells k ≡ some (pos (first k)))
      × (idx ≤ first k)
      × (first k < place)
      × Hits hit pattern text k (first k)

  -- What the loop knows at a place of the bytes found so far, `pidx` of them.
  pub record Marks (idx place : ℕ) (first : ℕ → ℕ) (f : Array) (pidx last_idx pchar : ℕ)
      : Type 0 where
    pub f_size : length f.cells ≡ length pattern
    pub some_left : pidx ≤ length pattern
    pub looked : get_elem? pattern (min pidx (length pattern - 1)) ≡ some pchar
    pub marked : (k : ℕ) → k < pidx → Marked idx place first f k
    pub rising : (k : ℕ) → suc k < pidx → first k < first (suc k)
    pub reach : (k : ℕ) → k < pidx → first k ≤ last_idx
    pub last_seen : 0 < pidx → last_idx < place
    pub rest : Subseq hit (drop pidx pattern) (drop place text)

  module _ (two : 1 ≤ length pattern) (small : length text < 2 ^ 31) (idx place : ℕ) (first : ℕ → ℕ)
      (pidx last_idx pchar x : ℕ) (here : drop place text ≡ x ∷ drop (suc place) text)
      (inside : place < length text) (started : idx ≤ place) where
    abbrev marked_later :
        (f : Array)
        → Marks idx place first f pidx last_idx pchar
        → (k : ℕ) → k < pidx
        → Marked idx (suc place) first f k
    marked_later f m k lt =
        let (at, from, below, found) = m.marked k lt in (at, from, omega (arith, below), found)

    -- The byte is not the one looked for.
    pub Marks-miss :
        (f : Array)
        → Marks idx place first f pidx last_idx pchar
        → hit pchar x ≡ false
        → Marks idx (suc place) first f pidx last_idx pchar
    Marks-miss f m miss = record {
      f_size = m.f_size;
      some_left = m.some_left;
      looked = m.looked;
      marked = marked_later f m;
      rising = m.rising;
      reach = m.reach;
      last_seen = λ h. omega (arith, m.last_seen h);
      rest = elim (dec_lt pidx (length pattern)) [
        | yes more ↦
            let at : min pidx (length pattern - 1) ≡ pidx = omega arith in
            let d = drop-of_get pidx pattern pchar (rw at at m.looked) in
            rw d (Subseq-miss hit miss (rw (d, here) at m.rest))
        | no none_left ↦ rw (drop-past pidx pattern (omega arith)) done
      ];
    }

    -- All bytes have been found, and the last one again.
    pub Marks-again :
        (f : Array)
        → Marks idx place first f pidx last_idx pchar
        → length pattern ≤ pidx
        → Marks idx (suc place) first f pidx place pchar
    Marks-again f m all = record {
      f_size = m.f_size;
      some_left = m.some_left;
      looked = m.looked;
      marked = marked_later f m;
      rising = m.rising;
      reach = λ k lt. let (_, _, below, _) = m.marked k lt in omega (arith, below);
      last_seen = λ h. omega arith;
      rest = rw (drop-past pidx pattern all) done;
    }

    -- The next byte has been found.
    pub Marks-found :
        (f : Array) (pchar' : ℕ)
        → Marks idx place first f pidx last_idx pchar
        → hit pchar x ≡ true
        → pidx < length pattern
        → get_elem? pattern (min (pidx + 1) (length pattern - 1)) ≡ some pchar'
        → Marks idx
            (suc place)
            (moved first pidx place)
            (record f { cells = set f.cells pidx (to_i32 place) })
            (pidx + 1)
            place
            pchar'
    Marks-found f pchar' m found more next =
        let at : min pidx (length pattern - 1) ≡ pidx = omega arith in
        let asked : get_elem? pattern pidx ≡ some pchar = rw at at m.looked in
        let d = drop-of_get pidx pattern pchar asked in
        let same = moved_here first pidx place in
        record {
          f_size = length-set f.cells pidx (to_i32 place) ∙ m.f_size;
          some_left = omega arith;
          looked = next;
          marked = λ k lt. elim (dec_lt k pidx) [
            | yes below ↦
                let (at, from, before, hits) = m.marked k below in
                rw (moved_below first pidx place k below) (
                  get_elem?-set_above f.cells pidx k (to_i32 place) below ∙ at,
                  from,
                  omega (arith, before),
                  hits,
                )
            | no above ↦
                let last : pidx ≡ k = omega arith in
                subst
                  (λ k.
                    Marked idx (suc place) (moved first pidx place)
                      (record f { cells = set f.cells pidx (to_i32 place) }) k)
                  last
                  (rw same (
                    get_elem?-set_here f.cells pidx (to_i32 place) (omega (arith, m.f_size))
                        ∙ ap some (to_i32_of_lt place (omega arith)),
                    started,
                    omega arith,
                    (pchar, x, asked, get_elem?-of_drop place text here, found),
                  ))
          ];
          rising = λ k lt. elim (dec_lt (suc k) pidx) [
            | yes below ↦
                rw
                  (
                    moved_below first pidx place k (omega arith),
                    moved_below first pidx place (suc k) below,
                  )
                  (m.rising k below)
            | no above ↦
                let last : suc k ≡ pidx = omega arith in
                let (_, _, before, _) = m.marked k (omega arith) in
                rw (moved_below first pidx place k (omega arith), last, same) before
          ];
          reach = λ k lt. elim (dec_lt k pidx) [
            | yes below ↦
                let (_, _, before, _) = m.marked k below in
                rw (moved_below first pidx place k below) (omega (arith, before))
            | no above ↦ let last : k ≡ pidx = omega arith in rw (last, same) (omega arith)
          ];
          last_seen = λ h. omega arith;
          rest = rw (add-one pidx) (Subseq-tail hit (rw (d, here) at m.rest));
        }

  -- The test of the byte, as `note_first` decides it.
  pub note_first-Marks :
      (idx place : ℕ) (first : ℕ → ℕ) (x c : ℕ) (s : Phase2)
      → 1 ≤ length pattern
      → length text < 2 ^ 31
      → drop place text ≡ x ∷ drop (suc place) text
      → place < length text
      → idx ≤ place
      → hit s.pchar x ≡ (c == s.pchar)
      → Marks idx place first s.f s.pidx s.last_idx s.pchar
      → (first' : ℕ → ℕ) × (f : Array) × (pidx : ℕ) × (last_idx : ℕ) × (pchar : ℕ) × (note_first
            pattern place c s
          ≡ some (record s { f = f; pidx = pidx; last_idx = last_idx; pchar = pchar }))
        × Marks idx (suc place) first' f pidx last_idx pchar
  unfolding note_first
  note_first-Marks idx place first x c s two small here inside started same m =
      elim (Bool-cases (c == s.pchar)) [
        | inr miss ↦ (
          first,
          s.f,
          s.pidx,
          s.last_idx,
          s.pchar,
          rw miss refl,
          Marks-miss two small idx place first s.pidx s.last_idx s.pchar x here inside started s.f m
              (same ∙ miss),
        )
        | inl match ↦ elim (dec_lt s.pidx (length pattern)) [
          | yes more ↦
              let (pchar, next) =
                get_elem?-of_lt pattern (min (s.pidx + 1) (length pattern - 1)) (omega arith) in
              (
                moved first s.pidx place,
                record s.f { cells = set s.f.cells s.pidx (to_i32 place) },
                s.pidx + 1,
                place,
                pchar,
                rw
                    (
                      match,
                      lt→ltb s.pidx (length pattern) more,
                      store-in s.f s.pidx (to_i32 place) (omega (arith, m.f_size)),
                      next,
                    )
                    refl,
                Marks-found two small idx place first s.pidx s.last_idx s.pchar x here inside
                    started s.f pchar m (same ∙ match) more next,
              )
          | no none_left ↦
              let full : ltb s.pidx (length pattern) ≡ false = ground arith in
              (
                first,
                s.f,
                s.pidx,
                place,
                s.pchar,
                rw (match, full) refl,
                Marks-again two small idx place first s.pidx s.last_idx s.pchar x here inside
                    started s.f m (omega arith),
              )
        ]
      ]
