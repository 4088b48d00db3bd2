-- ===== src/Fzf/Exact/Best.antt =====
-- The occurrence with the best bonus, among those before a place of the text.
use native.Mathlib.Decide.{dec_lt}
use plugged.Common.{
  Bool, Bool-cases, Option-cases, arith, drop, false, get_elem?, get_elem?-of_lt, if◌then◌else◌,
  inl, inr, length, length-drop, ltb_ℤ, ltb_ℤ→le, ltb_ℤ→lt, neq-false, pos, refl, some, subst, suc,
  true, zero, ℕ, ℤ, ◌+◌, ◌-◌, ◌<ℤ◌, ◌<◌, ◌≡◌, ◌≤ℤ◌, ◌≤◌, ◌⊎◌,
}
use plugged.Fzf.Affix.Compare.{starts_with, starts_with-length}
use plugged.Fzf.Chars.{Bytes, bonus_at, bonus_boundary, bonus_for, bonus_for_values, char_class_of}
use plugged.Fzf.Query.Refine.{worth}
use plugged.Fzf.Skip.{minus_one}

pub bonus_at-IsTotal :
    (text : Bytes) (i : ℕ) → i < length text → (b : ℤ) × (bonus_at text i ≡ some b)
unfolding bonus_at
bonus_at-IsTotal text zero h = (bonus_boundary, refl)
bonus_at-IsTotal text (suc i) h =
    let (before, e) = get_elem?-of_lt text i (omega arith) in
    let (here, e') = get_elem?-of_lt text (suc i) h in
    let back : suc i - 1 ≡ i = omega arith in
    (
      bonus_for (char_class_of before) (char_class_of here),
      rw (neq-false (suc i) 0 (omega arith), back, e, e') refl,
    )

module _ (hit : ℕ → ℕ → Bool) (pattern text : Bytes) where
  -- The pattern stands at a place of the text.
  abbrev pub occurs : ℕ → Bool
  occurs a = starts_with hit pattern (drop a text)

  -- An occurrence before `limit` with the best bonus of these, and the first of them that has it.
  pub record IsBest (limit p : ℕ) (bonus : ℤ) : Type 0 where
    pub before : p < limit
    pub here : occurs p ≡ true
    pub worth : bonus_at text p ≡ some bonus
    pub best : (a : ℕ) (b : ℤ) → a < limit → occurs a ≡ true → bonus_at text a ≡ some b → b ≤ℤ bonus
    pub first : (a : ℕ) (b : ℤ) → a < p → occurs a ≡ true → bonus_at text a ≡ some b → b <ℤ bonus

  -- What the loop knows of the places before `limit`.
  abbrev pub Best : ℕ → ℤ → ℤ → Type 0
  Best limit best_pos best_bonus =
      ((best_pos ≡ minus_one) × (best_bonus ≡ minus_one) × ((a : ℕ) → a < limit → occurs a ≡ false))
      ⊎ ((p : ℕ) × (best_pos ≡ pos (p + length pattern - 1)) × IsBest limit p best_bonus)

  -- A property of the places before the next one: of those before this one, and of this one.
  before_suc : (P : ℕ → Type 0) (n : ℕ) → ((a : ℕ) → a < n → P a) → P n → (a : ℕ) → a < suc n → P a
  before_suc P n old new a h = elim (dec_lt a n) [
    | yes l ↦ old a l
    | no l ↦ let e : n ≡ a = omega arith in subst P e new
  ]

  -- No bonus of an occurrence at `a` is above `bonus`.
  abbrev AtMost : ℤ → ℕ → Type 0
  AtMost bonus a = (b : ℤ) → occurs a ≡ true → bonus_at text a ≡ some b → b ≤ℤ bonus

  pub Best-miss : (a : ℕ) (bp bb : ℤ) → Best a bp bb → occurs a ≡ false → Best (suc a) bp bb
  Best-miss a bp bb (inl (e, e', never)) miss =
      inl (e, e', before_suc (λ c. occurs c ≡ false) a never miss)
  Best-miss a bp bb (inr (p, e, b)) miss = inr (
    p,
    e,
    record {
      before = omega (arith, b.before);
      here = b.here;
      worth = b.worth;
      best = λ c d l. before_suc (AtMost bb) a (λ c' l' d'. b.best c' d' l') (λ d' o. cc) c l d;
      first = b.first;
    },
  )

  -- The bonus of a place is not negative.
  pub bonus_at-values : (a : ℕ) (b : ℤ) → bonus_at text a ≡ some b → (n : ℕ) × (b ≡ pos n) × (n ≤ 8)
  unfolding bonus_at
  bonus_at-values zero b e = (8, cc, omega arith)
  bonus_at-values (suc a) b e =
      let back : suc a - 1 ≡ a = omega arith in
      let off = neq-false (suc a) 0 (omega arith) in
      elim (Option-cases (get_elem? text a)) [
        | inl none_before ↦ cc (rw (off, back, none_before) at e)
        | inr (x, before) ↦ elim (Option-cases (get_elem? text (suc a))) [
          | inl none_here ↦ cc (rw (off, back, before, none_here) at e)
          | inr (y, here) ↦
              let same = rw (off, back, before, here) at e in
              elim (bonus_for_values (char_class_of x) (char_class_of y)) [
                | inl v ↦ (0, cc, omega arith)
                | inr (inl v) ↦ (7, cc, omega arith)
                | inr (inr v) ↦ (8, cc, omega arith)
              ]
        ]
      ]

  same_bonus : (a : ℕ) (d b : ℤ) → bonus_at text a ≡ some d → bonus_at text a ≡ some b → d ≤ℤ b
  same_bonus a d b w w' = let same : d ≡ b = cc in rw same (omega arith)

  pub Best-hit :
      (a : ℕ) (bp bb b : ℤ)
      → Best a bp bb
      → occurs a ≡ true
      → bonus_at text a ≡ some b
      → Best
          (suc a)
          (if ltb_ℤ bb b then pos (a + length pattern - 1) else bp)
          (if ltb_ℤ bb b then b else bb)
  Best-hit a bp bb b (inl (e, e', never)) here worth =
      let (n, v, _) = bonus_at-values a b worth in
      let better : ltb_ℤ bb b ≡ true = rw (e', v) (ground arith) in
      rw better (
        inr (
          a,
          refl,
          record {
            before = omega arith;
            here = here;
            worth = worth;
            best = λ c d l.
                before_suc (AtMost b) a (λ c' l' d' o. cc (never c' l'))
                  (λ d' o w. same_bonus a d' b w worth) c l d;
            first = λ c d l o. cc (never c l);
          },
        ))
  Best-hit a bp bb b (inr (p, e, best)) here worth = elim (Bool-cases (ltb_ℤ bb b)) [
    | inl better ↦ rw better (
        inr (
          a,
          refl,
          record {
            before = omega arith;
            here = here;
            worth = worth;
            best = λ c d l.
                before_suc (AtMost b) a
                  (λ c' l' d' o w. omega (arith, best.best c' d' l' o w, ltb_ℤ→lt bb b better))
                  (λ d' o w. same_bonus a d' b w worth) c l d;
            first = λ c d l o w. omega (arith, best.best c d l o w, ltb_ℤ→lt bb b better);
          },
        ))
    | inr worse ↦ rw worse (
        inr (
          p,
          e,
          record {
            before = omega (arith, best.before);
            here = best.here;
            worth = best.worth;
            best = λ c d l.
                before_suc (AtMost bb) a (λ c' l' d'. best.best c' d' l')
                  (λ d' o w. omega (arith, same_bonus a d' b w worth, ltb_ℤ→le bb b worse)) c l d;
            first = best.first;
          },
        ))
  ]

  -- No bonus is above 8, so the search may end with it.
  pub Best-top :
      (a limit : ℕ) (bp bb : ℤ) → a ≤ limit → bonus_boundary ≤ℤ bb → Best a bp bb → Best limit bp bb
  Best-top a limit bp bb le top (inl (e, e', never)) = let low : ⊥ = ground arith in absurd low
  Best-top a limit bp bb le top (inr (p, e, b)) = inr (
    p,
    e,
    record {
      before = omega (arith, b.before);
      here = b.here;
      worth = b.worth;
      best = λ c d l o w. let (n, v, small) = bonus_at-values c d w in rw v (omega arith);
      first = b.first;
    },
  )

  -- Where the pattern does not fit, it does not occur.
  no_room : (a : ℕ) → 0 < length pattern → length text < a + length pattern → occurs a ≡ false
  no_room a some_byte short = elim (Bool-cases (occurs a)) [
    | inr o ↦ o
    | inl o ↦
        let never : ⊥ =
          omega (arith, starts_with-length hit pattern (drop a text) o, length-drop a text) in
        absurd never
  ]

  pub Best-end :
      (a limit : ℕ) (bp bb : ℤ)
      → a ≤ limit
      → 0 < length pattern
      → length text < a + length pattern
      → Best a bp bb
      → Best limit bp bb
  Best-end a limit bp bb le some_byte short (inl (e, e', never)) = inl (
    e,
    e',
    λ c l. elim (dec_lt c a) [ yes l' ↦ never c l' | no l' ↦ no_room c some_byte (omega arith) ],
  )
  Best-end a limit bp bb le some_byte short (inr (p, e, b)) = inr (
    p,
    e,
    record {
      before = omega (arith, b.before);
      here = b.here;
      worth = b.worth;
      best = λ c d l o w. elim (dec_lt c a) [
        | yes l' ↦ b.best c d l' o w
        | no l' ↦ cc (no_room c some_byte (omega arith))
      ];
      first = b.first;
    },
  )
