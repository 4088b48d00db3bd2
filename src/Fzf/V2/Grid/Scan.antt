-- ===== src/Fzf/V2/Grid/Scan.antt =====
-- The loop of `fzf_fuzzy_match_v2` over the text, for a pattern of two bytes or more.
use native.Mathlib.Decide.{dec_lt}
use native.Mathlib.Numerals.{add-one}
use plugged.Common.{
  Bool, List, [], arith, drop, drop-suc_of_drop, false, get_elem?, get_elem?-of_drop,
  get_elem?-set_above, get_elem?-set_here, inl, inr, length, length-set, pos, refl, set, some,
  subst, suc, ℕ, ℤ, ◌+◌, ◌<◌, ◌^◌, ◌∙◌, ◌∷◌, ◌≡◌, ◌≤◌,
}
use plugged.Fzf.Chars.{
  Bytes, CharClass, bonus_for, bonus_for_values, char_class_of_ascii, fold_char,
}
use plugged.Fzf.Query.Refine.{worth}
use plugged.Fzf.Score.Run.{fold_hit}
use plugged.Fzf.V2.Cells.{fold_rune-eq, store-in}
use plugged.Fzf.V2.FirstRow.{Phase2, first_row, note_first, phase2_loop, phase2_step}
use plugged.Fzf.V2.Grid.FirstCells.{FirstCells, first_row-FirstCells}
use plugged.Fzf.V2.Grid.Places.{Marks, note_first-Marks}

bonus_low : (p c : CharClass) → (b : ℕ) × (bonus_for p c ≡ pos b) × (b ≤ 8)
bonus_low p c = elim (bonus_for_values p c) [
  | inl v ↦ (0, v, omega arith)
  | inr (inl v) ↦ (7, v, omega arith)
  | inr (inr v) ↦ (8, v, omega arith)
]

module _ (case_sensitive normalize : Bool) (pattern text : Bytes) where
  abbrev the_hit : ℕ → ℕ → Bool
  the_hit = fold_hit case_sensitive normalize

  -- The folded byte and the bonus of a place, as the loop has written them.
  abbrev pub Noted : List ℤ → List ℤ → ℕ → Type 0
  Noted t bo a =
      (x : ℕ) × (bonus : ℕ) × (get_elem? text a ≡ some x)
      × (get_elem? t a ≡ some (pos (fold_char case_sensitive normalize x)))
      × (get_elem? bo a ≡ some (pos bonus))
      × (bonus ≤ 8)

  pub record Reads (idx place : ℕ) (t bo : List ℤ) : Type 0 where
    pub t_size : length t ≡ length text
    pub bo_size : length bo ≡ length text
    pub every : (a : ℕ) → idx ≤ a → a < place → Noted t bo a

  -- What the loop knows at a place.
  pub record Scanned (idx place : ℕ) (s : Phase2) : Type 0 where
    pub first : ℕ → ℕ
    pub marks : Marks the_hit pattern text idx place first s.f s.pidx s.last_idx s.pchar
    pub cells : FirstCells the_hit pattern text idx place s.h0.cells s.c0.cells s.prev_h0
    pub reads : Reads idx place s.t.cells s.bo.cells
    pub none_yet : s.max_score ≡ pos 0

  Reads-next :
      (idx place x bonus : ℕ) (t bo : List ℤ)
      → Reads idx place t bo
      → place < length text
      → get_elem? text place ≡ some x
      → bonus ≤ 8
      → Reads idx
          (suc place)
          (set t place (pos (fold_char case_sensitive normalize x)))
          (set bo place (pos bonus))
  Reads-next idx place x bonus t bo r inside read low = record {
    t_size = length-set t place _ ∙ r.t_size;
    bo_size = length-set bo place _ ∙ r.bo_size;
    every = λ a from below. elim (dec_lt a place) [
      | yes before ↦
          let (y, b, at, t_at, bo_at, small) = r.every a from before in
          (
            y,
            b,
            at,
            get_elem?-set_above t place a _ before ∙ t_at,
            get_elem?-set_above bo place a _ before ∙ bo_at,
            small,
          )
      | no later ↦
          let at : place ≡ a = omega arith in
          subst
            (λ k.
              Noted (set t place (pos (fold_char case_sensitive normalize x)))
                (set bo place (pos bonus)) k)
            at
            (
              x,
              bonus,
              read,
              get_elem?-set_here t place _ (omega (arith, r.t_size)),
              get_elem?-set_here bo place _ (omega (arith, r.bo_size)),
              low,
            )
    ];
  }

  -- A round, once its parts have run.
  phase2_step-run :
      (p0 place x bonus : ℕ) (s s1 s' : Phase2)
      → bonus_for s.prev_class (char_class_of_ascii x) ≡ pos bonus
      → place < length s.t.cells
      → place < length s.bo.cells
      → note_first pattern place (fold_char case_sensitive normalize x) (record s {
        t = record s.t { cells = set s.t.cells place (pos (fold_char case_sensitive normalize x)) };
        bo = record s.bo { cells = set s.bo.cells place (pos bonus) };
        prev_class = char_class_of_ascii x;
      })
        ≡ some s1
      → first_row (length pattern) p0 place (fold_char case_sensitive normalize x) (pos bonus) s1
        ≡ some (s', false)
      → phase2_step case_sensitive normalize pattern p0 place x s ≡ some (s', false)
  unfolding phase2_step
  phase2_step-run p0 place x bonus s s1 s' worth t_room bo_room noted row =
      rw
        (
          fold_rune-eq case_sensitive normalize x,
          store-in s.t place (pos (fold_char case_sensitive normalize x)) t_room,
          worth,
          store-in s.bo place (pos bonus) bo_room,
          noted,
        )
        row

  module _ (two : 2 ≤ length pattern) (small : length text < 2 ^ 31) (p0 : ℕ)
      (asked : get_elem? pattern 0 ≡ some p0) (idx : ℕ) where
    scan_round :
        (place x : ℕ) (s : Phase2)
        → drop place text ≡ x ∷ drop (suc place) text
        → place < length text
        → idx ≤ place
        → Scanned idx place s
        → (s' : Phase2) × (phase2_step case_sensitive normalize pattern p0 place x s
            ≡ some (s', false))
          × Scanned idx (suc place) s'
    scan_round place x s here inside started k =
        let c = fold_char case_sensitive normalize x in
        let read = get_elem?-of_drop place text here in
        let (bonus, worth, low) = bonus_low s.prev_class (char_class_of_ascii x) in
        let reads = Reads-next idx place x bonus s.t.cells s.bo.cells k.reads inside read low in
        let s0 : Phase2 = record s {
          t = record s.t { cells = set s.t.cells place (pos c) };
          bo = record s.bo { cells = set s.bo.cells place (pos bonus) };
          prev_class = char_class_of_ascii x;
        } in
        let (first, f, pidx, last_idx, pchar, noted, marks) =
          note_first-Marks the_hit pattern text idx place k.first x c s0 (omega arith) small here
            inside started refl k.marks in
        let s1 : Phase2 = record s0 { f = f; pidx = pidx; last_idx = last_idx; pchar = pchar } in
        let (h0, c0, in_gap, prev, row, cells) =
          first_row-FirstCells the_hit pattern text idx place p0 x c bonus s1 two started inside
            asked read refl low k.cells in
        (
          record s1 { h0 = h0; c0 = c0; in_gap = in_gap; prev_h0 = prev },
          phase2_step-run p0 place x bonus s s1 _ worth (omega (arith, k.reads.t_size))
              (omega (arith, k.reads.bo_size)) noted row,
          record {
            first = first;
            marks = marks;
            cells = cells;
            reads = reads;
            none_yet = k.none_yet;
          },
        )

    -- The loop ends with a place for each byte.
    pub phase2_loop-Scanned :
        (xs : Bytes) (place : ℕ) (s : Phase2)
        → drop place text ≡ xs
        → place + length xs ≡ length text
        → idx ≤ place
        → Scanned idx place s
        → (s' : Phase2) × (phase2_loop case_sensitive normalize pattern p0 place xs s ≡ some s')
          × Scanned idx (length text) s'
    unfolding phase2_loop
    phase2_loop-Scanned [] place s e size started k =
        (s, refl, subst (λ n. Scanned idx n s) (omega (arith, size)) k)
    phase2_loop-Scanned (x ∷ xs) place s e size started k =
        let onward = drop-suc_of_drop place text e in
        let (s', run, k') = scan_round place x s (rw onward e) (omega (arith, size)) started k in
        let (t, rest, over) =
          phase2_loop-Scanned xs (suc place) s' onward (omega (arith, size)) (omega arith) k' in
        (t, rw (run, add-one place) rest, over)
