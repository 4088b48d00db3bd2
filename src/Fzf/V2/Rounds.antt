-- ===== src/Fzf/V2/Rounds.antt =====
-- The rounds of the loop of `fzf_fuzzy_match_v2` over the text, for a pattern of one byte.
use native.Mathlib.Numerals.{add-one}
use plugged.Common.{
  Bool, Bool-cases, [], ap, arith, drop, drop-suc_of_drop, false, get_elem?, get_elem?-of_drop,
  if◌then◌else◌, inl, inr, length, ltb_ℤ, pos, refl, some, subst, suc, sym, true, ℕ, ◌+◌, ◌<◌, ◌∙◌,
  ◌∷◌, ◌≡◌,
}
use plugged.Fzf.Chars.{Bytes, bonus_for, char_class_of_ascii, fold_char}
use plugged.Fzf.Exact.Best.{bonus_at-values, occurs}
use plugged.Fzf.Score.Run.{fold_hit}
use plugged.Fzf.V2.Cells.{Frame-trans, fold_rune-eq, note_first-hit, note_first-miss, store-in}
use plugged.Fzf.V2.FirstRow.{Phase2, first_row, phase2_loop, phase2_step}
use plugged.Fzf.V2.Row.{first_row-hit, first_row-miss}
use plugged.Fzf.V2.Single.{
  Ready, Ready-next, Seen, Seen-hit, Seen-miss, Seen-once, Seen-top, occurs-hit, written,
}

module _ (case_sensitive normalize : Bool) (p : ℕ) (text : Bytes) where
  abbrev hit : ℕ → ℕ → Bool
  hit = fold_hit case_sensitive normalize

  -- What a round leaves.
  abbrev Round : ℕ → ℕ → Phase2 → Type 0
  Round place c s =
      (s' : Phase2) × (brk : Bool) × (phase2_step case_sensitive normalize (p ∷ []) p place c s
        ≡ some (s', brk))
      × Ready case_sensitive normalize p text (suc place) s'
      × Seen case_sensitive normalize p text (suc place) s'
      × (brk ≡ true → pos 32 ≡ s'.max_score)

  round_hit :
      (place c : ℕ) (s : Phase2)
      → get_elem? text place ≡ some c
      → place < length text
      → Ready case_sensitive normalize p text place s
      → Seen case_sensitive normalize p text place s
      → hit p c ≡ true
      → occurs hit (p ∷ []) text place ≡ true
      → Round place c s
  unfolding phase2_step
  round_hit place c s e lt ready seen h here =
      let c' = fold_char case_sensitive normalize c in
      let bonus = bonus_for s.prev_class (char_class_of_ascii c) in
      let worth = ready.classed c e h in
      let (m, value, small) = bonus_at-values hit (p ∷ []) text place bonus worth in
      let (s1, noted, frame1, once, score1, found1) =
        note_first-hit p place c' (written case_sensitive normalize p text place c s) h ready.looked
          (Seen-once case_sensitive normalize p text place s seen) ready.f_room in
      let (s', brk, run, frame2, once2, score2, found2, top) =
        first_row-hit p place c' m s1 h small (omega (arith, ready.h0_room, frame1.h0_same))
          (omega (arith, ready.c0_room, frame1.c0_same)) in
      (
        s',
        brk,
        rw
            (
              fold_rune-eq case_sensitive normalize c,
              store-in s.t place (pos c') (omega (arith, ready.t_room)),
              store-in s.bo place bonus (omega (arith, ready.bo_room)),
              noted,
            )
            (subst (λ b. first_row 1 p place c' b s1 ≡ some (s', brk)) (sym value) run),
        Ready-next case_sensitive normalize p text place c s s' e ready (Frame-trans frame1 frame2),
        Seen-hit case_sensitive normalize p text place m s s' small seen here
            (worth ∙ ap some value) (once2 ∙ once)
            (subst
              (λ x. s'.max_score ≡ (if ltb_ℤ x (pos (16 + m + m)) then pos (16 + m + m) else x))
              score1 score2)
            (subst
              (λ x.
                s'.max_score_pos ≡ (if ltb_ℤ x (pos (16 + m + m)) then place else s.max_score_pos))
              score1
              (subst
                (λ x.
                  s'.max_score_pos ≡ (if ltb_ℤ s1.max_score (pos (16 + m + m)) then place else x))
                found1 found2)),
        λ b.
            let (better, eight) = top b in
            let final : s'.max_score ≡ pos (16 + m + m) = rw better at score2 in
            sym (final ∙ ap pos (omega (arith, eight))),
      )

  round_miss :
      (place c : ℕ) (s : Phase2)
      → get_elem? text place ≡ some c
      → place < length text
      → Ready case_sensitive normalize p text place s
      → Seen case_sensitive normalize p text place s
      → hit p c ≡ false
      → occurs hit (p ∷ []) text place ≡ false
      → Round place c s
  unfolding phase2_step
  round_miss place c s e lt ready seen h here =
      let c' = fold_char case_sensitive normalize c in
      let bonus = bonus_for s.prev_class (char_class_of_ascii c) in
      let (s', run, frame, once, score, found) =
        first_row-miss p place c' bonus (written case_sensitive normalize p text place c s) h
          (omega (arith, ready.h0_room)) (omega (arith, ready.c0_room)) in
      (
        s',
        false,
        rw
            (
              fold_rune-eq case_sensitive normalize c,
              store-in s.t place (pos c') (omega (arith, ready.t_room)),
              store-in s.bo place bonus (omega (arith, ready.bo_room)),
              note_first-miss (p ∷ []) place c' (written case_sensitive normalize p text place c s)
                  (rw ready.looked h),
            )
            run,
        Ready-next case_sensitive normalize p text place c s s' e ready frame,
        Seen-miss case_sensitive normalize p text place s s' seen here once score found,
        λ b. cc,
      )

  a_round :
      (place c : ℕ) (xs : Bytes) (s : Phase2)
      → drop place text ≡ c ∷ xs
      → place < length text
      → Ready case_sensitive normalize p text place s
      → Seen case_sensitive normalize p text place s
      → Round place c s
  a_round place c xs s e lt ready seen = elim (Bool-cases (hit p c)) [
    | inl h ↦
        round_hit place c s (get_elem?-of_drop place text e) lt ready seen h
          (occurs-hit case_sensitive normalize p text place c xs e ∙ h)
    | inr m ↦
        round_miss place c s (get_elem?-of_drop place text e) lt ready seen m
          (occurs-hit case_sensitive normalize p text place c xs e ∙ m)
  ]

  pub phase2_loop-Seen :
      (xs : Bytes) (place : ℕ) (s : Phase2)
      → drop place text ≡ xs
      → place + length xs ≡ length text
      → Ready case_sensitive normalize p text place s
      → Seen case_sensitive normalize p text place s
      → (s' : Phase2) × (phase2_loop case_sensitive normalize (p ∷ []) p place xs s ≡ some s')
        × Seen case_sensitive normalize p text (length text) s'
  unfolding phase2_loop
  phase2_loop-Seen [] place s e size ready seen =
      (s, refl, subst (λ n. Seen case_sensitive normalize p text n s) (omega (arith, size)) seen)
  phase2_loop-Seen (c ∷ xs) place s e size ready seen =
      let (s', brk, run, ready', seen', top) =
        a_round place c xs s e (omega (arith, size)) ready seen in
      let (t, rest, over) =
        phase2_loop-Seen xs (suc place) s' (drop-suc_of_drop place text e) (omega (arith, size))
          ready' seen' in
      elim (Bool-cases brk) [
        | inl b ↦ (
          s',
          rw (run, b) refl,
          Seen-top case_sensitive normalize p text (suc place) s' (omega (arith, size)) (top b)
              seen',
        )
        | inr b ↦ (t, rw (run, add-one place, b) rest, over)
      ]
