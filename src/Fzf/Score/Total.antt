-- ===== src/Fzf/Score/Total.antt =====
-- `calculate_score` on a range that the greedy search takes whole.
use native.Mathlib.Numerals.{add-one}
use plugged.Common.{
  Bool, Bool-cases, List, Option, [], ap, arith, drop, drop-suc_of_drop, false, get_elem?,
  get_elem?-of_drop, get_elem?-of_lt, inl, inr, length, length-drop, length-take_le, lt→ltb, pos,
  refl, slice?_in, some, suc, sym, take, true, zero, ℕ, ℤ, ◌+◌, ◌-◌, ◌<◌, ◌^◌, ◌∙◌, ◌∷◌, ◌≡◌, ◌≤◌,
}
use plugged.Fzf.Chars.{Bytes, CharClass, char_class_of, non_word}
use plugged.Fzf.Positions.{Positions, append_pos, resize_pos?}
use plugged.Fzf.Positions.Growth.{
  Fits, Grown, Grown-Fits, Grown-refl, Grown-trans, append_pos-Grown, resize_pos?-Grown,
}
use plugged.Fzf.Score.{
  ScoreState, calculate_score, class_before, score_hit, score_loop, score_miss, score_step,
}
use plugged.Fzf.Score.Run.{
  InBounds, IsScored, fold_hit, matched_places, score_hit-IsScored, score_miss-IsScored,
}
use plugged.Fzf.Subseq.{cut}
use plugged.Fzf.Subseq.Greedy.{cut-length, suc?-eq-some}

module _ (case_sensitive normalize : Bool) (pattern : Bytes) where
  abbrev hits_of : ℕ → ℕ → Bool
  hits_of = fold_hit case_sensitive normalize

  -- The loop ends with the pattern used up, the places of its bytes appended and a bounded score.
  pub record Ran (hits misses : ℕ) (places : List ℕ) (s s' : ScoreState) : Type 0 where
    pub grown : Grown s.out places s'.out
    pub scored : IsScored hits misses s'

  score_step-hit :
      (p x idx : ℕ) (s : ScoreState) (q : Option Positions)
      → get_elem? pattern s.pidx ≡ some p
      → hits_of p x ≡ true
      → append_pos s.out idx ≡ some q
      → score_step case_sensitive normalize pattern idx x s ≡ some (score_hit (char_class_of x) s q)
  unfolding score_step
  score_step-hit p x idx s q a e g = rw (a, e, g)

  score_step-miss :
      (p x idx : ℕ) (s : ScoreState)
      → get_elem? pattern s.pidx ≡ some p
      → hits_of p x ≡ false
      → score_step case_sensitive normalize pattern idx x s ≡ some (score_miss (char_class_of x) s)
  unfolding score_step
  score_step-miss p x idx s a e = rw (a, e)

  score_hit-drop :
      (class : CharClass) (s : ScoreState) (q : Option Positions) {p : ℕ} (ps : Bytes)
      → drop s.pidx pattern ≡ p ∷ ps
      → drop (score_hit class s q).pidx pattern ≡ ps
  unfolding score_hit
  score_hit-drop class s q ps at = rw add-one (drop-suc_of_drop s.pidx pattern at)

  score_loop-step :
      (x idx : ℕ) (xs : Bytes) (s t : ScoreState)
      → score_step case_sensitive normalize pattern idx x s ≡ some t
      → score_loop case_sensitive normalize pattern (x ∷ xs) idx s
        ≡ score_loop case_sensitive normalize pattern xs (idx + 1) t
  unfolding score_loop
  score_loop-step x idx xs s t e = rw e

  score_loop-Ran :
      (ps xs : Bytes) (idx : ℕ) (s : ScoreState) (hits misses h m : ℕ)
      → drop s.pidx pattern ≡ ps
      → cut hits_of ps xs ≡ some (length xs)
      → Fits s.out
      → idx + length xs < 2 ^ 31
      → IsScored hits misses s
      → h ≡ hits + length ps
      → m + length ps ≡ misses + length xs
      → h ≤ 2 ^ 26
      → misses + length xs ≤ 2 ^ 29
      → (s' : ScoreState) × (score_loop case_sensitive normalize pattern xs idx s ≡ some s')
        × Ran h m (matched_places hits_of idx ps xs) s s'
  unfolding cut matched_places score_hit score_miss
  score_loop-Ran [] [] idx s hits misses h m at c f small i eh em short low =
      let same_hits : h ≡ hits = omega arith in
      let same_misses : m ≡ misses = omega arith in
      (
        s,
        unfold score_loop in refl,
        record { grown = Grown-refl s.out f; scored = rw (same_hits, same_misses) i },
      )
  score_loop-Ran (p ∷ ps) [] idx s hits misses h m at c f small i eh em short low = cc
  score_loop-Ran [] (x ∷ xs) idx s hits misses h m at c f small i eh em short low = cc
  score_loop-Ran (p ∷ ps) (x ∷ xs) idx s hits misses h m at c f small i eh em short low =
      elim (Bool-cases (hits_of p x)) [
        | inl e ↦
            let (q, g, grown) = append_pos-Grown s.out idx f (omega arith) in
            let t = score_hit (char_class_of x) s q in
            let step = score_step-hit p x idx s q (get_elem?-of_drop s.pidx pattern at) e g in
            let (k, c', n) = suc?-eq-some (cut hits_of ps xs) (rw e at c) in
            let (s', run, ran) =
              score_loop-Ran ps xs (idx + 1) t (suc hits) misses h m
                (score_hit-drop (char_class_of x) s q ps at) (c' ∙ ap some (omega arith))
                (Grown-Fits s.out q (idx ∷ []) grown) (omega arith)
                (score_hit-IsScored (char_class_of x) s q hits misses i (omega arith) (omega arith))
                (omega arith) (omega arith) short (omega arith) in
            (
              s',
              score_loop-step x idx xs s t step ∙ run,
              record {
                grown = rw e (
                    Grown-trans s.out q s'.out (idx ∷ []) (matched_places hits_of (idx + 1) ps xs)
                      grown ran.grown);
                scored = ran.scored;
              },
            )
        | inr e ↦
            let t = score_miss (char_class_of x) s in
            let step = score_step-miss p x idx s (get_elem?-of_drop s.pidx pattern at) e in
            let (k, c', n) = suc?-eq-some (cut hits_of (p ∷ ps) xs) (rw e at c) in
            let (s', run, ran) =
              score_loop-Ran (p ∷ ps) xs (idx + 1) t hits (suc misses) h m at
                (c' ∙ ap some (omega arith)) f (omega arith)
                (score_miss-IsScored (char_class_of x) s hits misses i (omega arith) (omega arith))
                (omega arith) (omega arith) short (omega arith) in
            (
              s',
              score_loop-step x idx xs s t step ∙ run,
              record { grown = rw e ran.grown; scored = ran.scored },
            )
      ]

  class_before_total :
      (text : Bytes) (sidx : ℕ)
      → sidx ≤ length text
      → (c : CharClass) × (class_before text sidx ≡ some c)
  unfolding class_before
  class_before_total text zero h = (non_word, refl)
  class_before_total text (suc i) h =
      let (x, e) = get_elem?-of_lt text i h in
      let before : suc i - 1 ≡ i = omega arith in
      (char_class_of x, rw (lt→ltb 0 (suc i) (omega arith), before, e))

  -- For a range of at most 2^29 bytes of a text shorter than 2^31 bytes, and a pattern of at
  -- most 2^26 bytes, such that the greedy search for the pattern takes exactly the whole range,
  -- and positions whose cells in use fit their capacity, `calculate_score` reads and writes
  -- nothing out of bounds, appends the places of the pattern's bytes, and its score is at least
  -- 16 a matching byte less 3 a missing one, and at most 24 a matching byte and 8, less 1 a
  -- missing one.
  pub calculate_score_lem :
      (text : Bytes) (sidx eidx : ℕ) (out : Option Positions)
      → sidx ≤ eidx
      → eidx ≤ length text
      → length text < 2 ^ 31
      → length pattern ≤ 2 ^ 26
      → eidx - sidx ≤ 2 ^ 29
      → Fits out
      → cut hits_of pattern (take (eidx - sidx) (drop sidx text)) ≡ some (eidx - sidx)
      → (score : ℤ) × (q : Option Positions) × (calculate_score case_sensitive normalize text
            pattern sidx eidx out
          ≡ some (score, q))
        × Grown out (matched_places hits_of sidx pattern (take (eidx - sidx) (drop sidx text))) q
        × InBounds (length pattern) (eidx - sidx - length pattern) score
  unfolding calculate_score
  calculate_score_lem text sidx eidx out le inside small short low f c =
      let xs = take (eidx - sidx) (drop sidx text) in
      let size : length xs ≡ eidx - sidx =
        length-take_le (eidx - sidx) (drop sidx text) (omega (arith, length-drop sidx text)) in
      let out0 = resize_pos? out (length pattern) (length pattern) in
      let g = resize_pos?-Grown out (length pattern) f in
      let (class, e) = class_before_total text sidx (omega arith) in
      let start : ScoreState = record {
        pidx = 0;
        total = pos 0;
        consecutive = 0;
        in_gap = false;
        first_bonus = pos 0;
        prev_class = class;
        out = out0;
      } in
      let long = cut-length hits_of pattern xs c in
      let (s', run, ran) =
        score_loop-Ran pattern xs sidx start 0 0 (length pattern) (eidx - sidx - length pattern)
          refl (c ∙ ap some (sym size)) (Grown-Fits out out0 [] g) (omega arith) (omega arith)
          (omega arith) (omega arith) short (omega (arith, size)) in
      (
        s'.total,
        s'.out,
        rw (e, slice?_in text sidx eidx le inside, run),
        Grown-trans out out0 s'.out [] (matched_places hits_of sidx pattern xs) g ran.grown,
        (ran.scored.at_least, ran.scored.at_most),
      )
