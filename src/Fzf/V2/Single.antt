-- ===== src/Fzf/V2/Single.antt =====
-- What the loop of `fzf_fuzzy_match_v2` over the text knows, for a pattern of one byte.
use plugged.Common.{
  Bool, Bool-cases, [], ap, arith, drop, false, get_elem?, if◌then◌else◌, inl, inr, length,
  length-set, ltb_ℤ, neq-false, pos, refl, set, some, subst, suc, sym, true, ℕ, ◌+◌, ◌-◌, ◌∙◌, ◌∷◌,
  ◌≡◌, ◌≤◌, ◌⊎◌,
}
use plugged.Fzf.Affix.Compare.{starts_with}
use plugged.Fzf.Chars.{Bytes, bonus_at, bonus_for, char_class_of, char_class_of_ascii, fold_char}
use plugged.Fzf.Exact.Best.{Best, Best-hit, Best-miss, Best-top, occurs}
use plugged.Fzf.Query.Refine.{worth}
use plugged.Fzf.Score.Run.{fold_hit}
use plugged.Fzf.Skip.{minus_one}
use plugged.Fzf.V2.Cells.{Frame}
use plugged.Fzf.V2.FirstRow.{Phase2}

module _ (case_sensitive normalize : Bool) (p : ℕ) (text : Bytes) where
  abbrev hit : ℕ → ℕ → Bool
  hit = fold_hit case_sensitive normalize

  -- What the score and its place say of the places before `limit`.
  abbrev pub Seen : ℕ → Phase2 → Type 0
  Seen limit s =
      ((s.max_score ≡ pos 0) × (s.pidx ≡ 0) × Best hit (p ∷ []) text limit minus_one minus_one)
      ⊎ ((m : ℕ) × (m ≤ 8)
          × (s.max_score ≡ pos (16 + m + m))
          × (s.pidx ≡ 1)
          × Best hit (p ∷ []) text limit (pos s.max_score_pos) (pos m))

  -- The arrays have room for the text, and the class of the byte before gives the bonus of a
  -- match at the place.
  pub record Ready (place : ℕ) (s : Phase2) : Type 0 where
    pub h0_room : length text ≤ length s.h0.cells
    pub c0_room : length text ≤ length s.c0.cells
    pub bo_room : length text ≤ length s.bo.cells
    pub t_room : length text ≤ length s.t.cells
    pub f_room : 1 ≤ length s.f.cells
    pub looked : s.pchar ≡ p
    pub classed :
        (c : ℕ)
        → get_elem? text place ≡ some c
        → hit p c ≡ true
        → bonus_at text place ≡ some (bonus_for s.prev_class (char_class_of_ascii c))

  -- The place of a hit is one where the pattern occurs.
  pub occurs-hit :
      (a c : ℕ) (xs : Bytes) → drop a text ≡ c ∷ xs → occurs hit (p ∷ []) text a ≡ hit p c
  unfolding starts_with
  occurs-hit a c xs e = rw e (ground arith)

  -- The byte before the next place is the one just read.
  classed-next :
      (place c d : ℕ)
      → get_elem? text place ≡ some c
      → get_elem? text (suc place) ≡ some d
      → bonus_at text (suc place) ≡ some (bonus_for (char_class_of_ascii c) (char_class_of_ascii d))
  unfolding bonus_at char_class_of
  classed-next place c d e e' =
      let back : suc place - 1 ≡ place = omega arith in
      rw (neq-false (suc place) 0 (omega arith), back, e, e') refl

  -- A better match takes the place of the one before.
  pub Seen-hit :
      (place m : ℕ) (s s' : Phase2)
      → m ≤ 8
      → Seen place s
      → occurs hit (p ∷ []) text place ≡ true
      → bonus_at text place ≡ some (pos m)
      → s'.pidx ≡ 1
      → s'.max_score
        ≡ (if ltb_ℤ s.max_score (pos (16 + m + m)) then pos (16 + m + m) else s.max_score)
      → s'.max_score_pos ≡ (if ltb_ℤ s.max_score (pos (16 + m + m)) then place else s.max_score_pos)
      → Seen (suc place) s'
  Seen-hit place m s s' small (inl (score, fresh, best)) here worth once e e' =
      let better : ltb_ℤ s.max_score (pos (16 + m + m)) ≡ true = rw score (ground arith) in
      let above : ltb_ℤ minus_one (pos m) ≡ true = ground arith in
      let at : s'.max_score_pos ≡ place = rw better at e' in
      inr (
        m,
        small,
        rw better at e,
        once,
        subst (λ t. Best hit (p ∷ []) text (suc place) t (pos m)) (ap pos (omega (arith, at)))
            (rw above at
              (Best-hit hit (p ∷ []) text place minus_one minus_one (pos m) best here worth)),
      )
  Seen-hit place m s s' small (inr (n, le, score, found, best)) here worth once e e' =
      elim (Bool-cases (ltb_ℤ (pos n) (pos m))) [
        | inl above ↦
            let better : ltb_ℤ s.max_score (pos (16 + m + m)) ≡ true = rw score (ground arith) in
            let at : s'.max_score_pos ≡ place = rw better at e' in
            inr (
              m,
              small,
              rw better at e,
              once,
              subst (λ t. Best hit (p ∷ []) text (suc place) t (pos m)) (ap pos (omega (arith, at)))
                  (rw above at (
                    Best-hit hit (p ∷ []) text place (pos s.max_score_pos) (pos n) (pos m) best here
                      worth)),
            )
        | inr below ↦
            let worse : ltb_ℤ s.max_score (pos (16 + m + m)) ≡ false = rw score (ground arith) in
            let at : s'.max_score_pos ≡ s.max_score_pos = rw worse at e' in
            inr (
              n,
              le,
              (rw worse at e) ∙ score,
              once,
              subst (λ t. Best hit (p ∷ []) text (suc place) t (pos n)) (ap pos (sym at))
                  (rw below at (
                    Best-hit hit (p ∷ []) text place (pos s.max_score_pos) (pos n) (pos m) best here
                      worth)),
            )
      ]

  pub Seen-miss :
      (place : ℕ) (s s' : Phase2)
      → Seen place s
      → occurs hit (p ∷ []) text place ≡ false
      → s'.pidx ≡ s.pidx
      → s'.max_score ≡ s.max_score
      → s'.max_score_pos ≡ s.max_score_pos
      → Seen (suc place) s'
  Seen-miss place s s' (inl (score, fresh, best)) miss once e e' =
      inl (e ∙ score, once ∙ fresh, Best-miss hit (p ∷ []) text place minus_one minus_one best miss)
  Seen-miss place s s' (inr (n, le, score, found, best)) miss once e e' = inr (
    n,
    le,
    e ∙ score,
    once ∙ found,
    rw e' (Best-miss hit (p ∷ []) text place (pos s.max_score_pos) (pos n) best miss),
  )

  -- A match with a boundary's bonus is not beaten by a later one.
  pub Seen-top :
      (place : ℕ) (s : Phase2)
      → place ≤ length text
      → pos 32 ≡ s.max_score
      → Seen place s
      → Seen (length text) s
  Seen-top place s le top (inl (score, fresh, best)) = cc
  Seen-top place s le top (inr (m, small, score, once, best)) = inr (
    m,
    small,
    score,
    once,
    Best-top hit (p ∷ []) text place (length text) (pos s.max_score_pos) (pos m) le (ground arith)
        best,
  )

  pub Seen-once : (place : ℕ) (s : Phase2) → Seen place s → s.pidx ≤ 1
  Seen-once place s (inl (_, fresh, _)) = omega (arith, fresh)
  Seen-once place s (inr (_, _, _, once, _)) = omega (arith, once)

  -- The state of a round once the byte's fold, bonus and class are written.
  abbrev pub written : ℕ → ℕ → Phase2 → Phase2
  written place c s = record s {
    t = record s.t { cells = set s.t.cells place (pos (fold_char case_sensitive normalize c)) };
    bo = record s.bo {
      cells = set s.bo.cells place (bonus_for s.prev_class (char_class_of_ascii c));
    };
    prev_class = char_class_of_ascii c;
  }

  pub Ready-next :
      (place c : ℕ) (s s' : Phase2)
      → get_elem? text place ≡ some c
      → Ready place s
      → Frame (written place c s) s'
      → Ready (suc place) s'
  Ready-next place c s s' e ready frame =
      let t_size = length-set s.t.cells place (pos (fold_char case_sensitive normalize c)) in
      let bo_size = length-set s.bo.cells place (bonus_for s.prev_class (char_class_of_ascii c)) in
      record {
        h0_room = omega (arith, frame.h0_same, ready.h0_room);
        c0_room = omega (arith, frame.c0_same, ready.c0_room);
        bo_room = omega (arith, frame.bo_same, ready.bo_room, bo_size);
        t_room = omega (arith, frame.t_same, ready.t_room, t_size);
        f_room = omega (arith, frame.f_same, ready.f_room);
        looked = frame.pchar_same ∙ ready.looked;
        classed = λ d e' h.
            classed-next place c d e e'
            ∙ ap (λ k. some (bonus_for k (char_class_of_ascii d))) (sym frame.class_same);
      }
