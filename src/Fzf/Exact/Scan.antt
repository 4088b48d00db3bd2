-- ===== src/Fzf/Exact/Scan.antt =====
-- The loop of `fzf_exact_match_naive` tries every place of the text, and keeps the best.
use native.Mathlib.Nat.{suc-mul}
use plugged.Common.{
  Bool, Bool-cases, Option, add_size, ap, arith, drop, eqb_ℤ, false, get_elem?, get_elem?-drop,
  get_elem?-of_lt, if◌then◌else◌, inl, inr, length, ltb, ltb_ℤ, pos, refl, some, sub_size, subst,
  suc, sym, take, take-length, to_i32, to_i32_of_lt, true, zero, ℕ, ℤ, ◌*◌, ◌+◌, ◌-◌, ◌<◌, ◌==◌,
  ◌^◌, ◌∙◌, ◌≡◌, ◌≤◌, ◌⊎◌,
}
use plugged.Fzf.Affix.Compare.{starts_with}
use plugged.Fzf.Chars.{Bytes, bonus_at, bonus_boundary}
use plugged.Fzf.Exact.{
  ExactState, Round, exact_found, exact_fuel, exact_loop, exact_round, exact_start, go_on, stop,
}
use plugged.Fzf.Exact.Best.{Best, Best-end, Best-hit, Best-miss, Best-top, bonus_at-IsTotal, occurs}
use plugged.Fzf.Exact.Prefix.{starts_with-miss, starts_with_next}
use plugged.Fzf.Query.Refine.{worth}
use plugged.Fzf.Score.Run.{fold_hit}

module _ (case_sensitive normalize : Bool) (text pattern : Bytes)
    (small : length text < 2 ^ 31) where
  abbrev scan_hit : ℕ → ℕ → Bool
  scan_hit = fold_hit case_sensitive normalize

  -- The loop compares the pattern with the text at the place `a`; the places before it are done.
  pub record Scans (a : ℕ) (s : ExactState) : Type 0 where
    pub place : s.idx ≡ a + s.pidx
    pub room : s.pidx < length pattern
    pub agrees : starts_with scan_hit (take s.pidx pattern) (drop a text) ≡ true
    pub worth : (s.pidx ≡ 0) ⊎ (bonus_at text a ≡ some s.bonus)
    pub best : Best scan_hit pattern text a s.best_pos s.best_bonus

  -- A round from there goes on to the next byte or to the next place, or the loop stops with the best
  -- of all places.
  abbrev Scanned : ℕ → ExactState → Option Round → Type 0
  Scanned a s r =
      ((t : ExactState) × (r ≡ some (stop t))
        × Best scan_hit pattern text (length text) t.best_pos t.best_bonus)
      ⊎ ((t : ExactState) × (r ≡ some (go_on t)) × Scans a t × (t.pidx ≡ suc s.pidx))
      ⊎ ((t : ExactState) × (r ≡ some (go_on t)) × Scans (suc a) t × (t.pidx ≡ 0))

  module _ (a : ℕ) (s : ExactState) (inv : Scans a s) (lt : s.idx < length text) where
    abbrev text_at : get_elem? (drop a text) s.pidx ≡ get_elem? text s.idx
    text_at = get_elem?-drop a s.pidx text ∙ ap (get_elem? text) (sym inv.place)

    round_miss :
        (c p : ℕ)
        → get_elem? text s.idx ≡ some c
        → get_elem? pattern s.pidx ≡ some p
        → scan_hit p c ≡ false
        → Scanned a s (exact_round case_sensitive normalize text pattern s)
    unfolding exact_round starts_with
    round_miss c p e e' miss =
        let missed = starts_with-miss scan_hit pattern (drop a text) s.pidx e' (text_at ∙ e) miss in
        let next : ExactState = record s {
          idx = add_size (sub_size s.idx s.pidx) 1;
          pidx = 0;
          bonus = pos 0;
        } in
        inr (
          inr (
            next,
            rw (e, e', miss) refl,
            record {
              place = omega (arith, inv.place, inv.room);
              room = omega (arith, inv.room);
              agrees = refl;
              worth = inl refl;
              best = Best-miss scan_hit pattern text a s.best_pos s.best_bonus inv.best missed;
            },
            refl,
          ))

    first_bonus :
        (b : ℤ) × ((if s.pidx == 0 then bonus_at text s.idx else some s.bonus) ≡ some b)
        × (bonus_at text a ≡ some b)
    first_bonus = elim (Bool-cases (s.pidx == 0)) [
      | inl b ↦
          let start : s.idx ≡ a = ground (arith, inv.place) in
          let (bonus, e) = bonus_at-IsTotal text a (omega arith) in (bonus, rw (b, start) e, e)
      | inr b ↦ elim inv.worth [
        | inl z ↦ let never : ⊥ = ground arith in absurd never
        | inr w ↦ (s.bonus, rw b refl, w)
      ]
    ]

    round_found :
        (bonus : ℤ)
        → bonus_at text a ≡ some bonus
        → occurs scan_hit pattern text a ≡ true
        → suc s.pidx ≡ length pattern
        → Scanned a s (some (exact_found (record s { pidx = s.pidx + 1; bonus = bonus })))
    unfolding exact_found starts_with
    round_found bonus worth here whole =
        let found =
          Best-hit scan_hit pattern text a s.best_pos s.best_bonus bonus inv.best here worth in
        let place : to_i32 s.idx ≡ pos (a + length pattern - 1) =
          to_i32_of_lt s.idx (omega arith) ∙ ap pos (omega (arith, inv.place)) in
        let t : ExactState = record s {
          best_pos = if ltb_ℤ s.best_bonus bonus then to_i32 s.idx else s.best_pos;
          best_bonus = if ltb_ℤ s.best_bonus bonus then bonus else s.best_bonus;
        } in
        let best : Best scan_hit pattern text (suc a) t.best_pos t.best_bonus = rw place found in
        elim (Bool-cases (eqb_ℤ bonus bonus_boundary)) [
          | inl top ↦ inl (
            record t { pidx = s.pidx + 1; bonus = bonus },
            rw top refl,
            Best-top scan_hit pattern text (suc a) (length text) t.best_pos t.best_bonus
                (omega (arith, inv.place)) (ground arith) best,
          )
          | inr less ↦
              let next : ExactState = record t {
                idx = add_size (sub_size s.idx (s.pidx + 1 - 1)) 1;
                pidx = 0;
                bonus = pos 0;
              } in
              inr (
                inr (
                  next,
                  rw less refl,
                  record {
                    place = omega (arith, inv.place);
                    room = omega (arith, inv.room);
                    agrees = refl;
                    worth = inl refl;
                    best = best;
                  },
                  refl,
                ))
        ]

    round_hit :
        (c p : ℕ)
        → get_elem? text s.idx ≡ some c
        → get_elem? pattern s.pidx ≡ some p
        → scan_hit p c ≡ true
        → Scanned a s (exact_round case_sensitive normalize text pattern s)
    unfolding exact_round
    round_hit c p e e' hit =
        let agrees =
          starts_with_next scan_hit pattern (drop a text) s.pidx e' (text_at ∙ e) hit inv.agrees in
        let (bonus, eb, worth) = first_bonus in
        let one : s.pidx + 1 ≡ suc s.pidx = omega arith in
        elim (Bool-cases (s.pidx + 1 == length pattern)) [
          | inr more ↦
              let next : ExactState = record s {
                idx = s.idx + 1;
                pidx = s.pidx + 1;
                bonus = bonus;
              } in
              inr (
                inl (
                  next,
                  rw (e, e', hit, eb, more) refl,
                  record {
                    place = omega (arith, inv.place);
                    room = ground (arith, inv.room);
                    agrees = rw one agrees;
                    worth = inr worth;
                    best = inv.best;
                  },
                  one,
                ))
          | inl whole ↦
              let all : suc s.pidx ≡ length pattern = ground arith in
              let here =
                subst (λ ps. starts_with scan_hit ps (drop a text) ≡ true)
                  (ap (λ n. take n pattern) all ∙ take-length pattern) agrees in
              rw (e, e', hit, eb, whole) (round_found bonus worth here all)
        ]

  round_Scanned :
      (a : ℕ) (s : ExactState)
      → Scans a s
      → s.idx < length text
      → Scanned a s (exact_round case_sensitive normalize text pattern s)
  round_Scanned a s inv lt =
      let (c, e) = get_elem?-of_lt text s.idx lt in
      let (p, e') = get_elem?-of_lt pattern s.pidx inv.room in
      elim (Bool-cases (scan_hit p c)) [
        | inl hit ↦ round_hit a s inv lt c p e e' hit
        | inr miss ↦ round_miss a s inv lt c p e e' miss
      ]

  -- With fuel for the places left the loop ends with the best of all places.
  pub Scans-Best :
      (fuel k a : ℕ) (s : ExactState)
      → Scans a s
      → a + k ≡ length text
      → s.idx ≤ length text
      → k * suc (length pattern) < fuel + s.pidx
      → (t : ExactState) × (exact_loop case_sensitive normalize text pattern fuel s ≡ some t)
        × Best scan_hit pattern text (length text) t.best_pos t.best_bonus
  unfolding exact_loop
  Scans-Best zero zero a s inv same le enough =
      let never : ⊥ = omega (arith, inv.place) in absurd never
  Scans-Best zero (suc k) a s inv same le enough =
      let more = suc-mul k (suc (length pattern)) in
      let never : ⊥ = omega (arith, inv.room) in absurd never
  Scans-Best (suc fuel) k a s inv same le enough = elim (Bool-cases (ltb s.idx (length text))) [
    | inr b ↦ (
      s,
      rw (exact_loop, b) refl,
      Best-end scan_hit pattern text a (length text) s.best_pos s.best_bonus (omega arith)
          (omega (arith, inv.room)) (ground (arith, inv.place, inv.room)) inv.best,
    )
    | inl b ↦ elim (round_Scanned a s inv (ground arith)) [
      | inl (t, e, best) ↦ (t, rw (exact_loop, b, e) refl, best)
      | inr (inl (t, e, inv', q)) ↦
          let (u, run, best) =
            Scans-Best fuel k a t inv' same (ground (arith, inv.place, inv'.place)) (omega arith) in
          (u, rw (exact_loop, b, e) run, best)
      | inr (inr (t, e, inv', q)) ↦
          let left : suc (k - 1) ≡ k = ground (arith, inv.place) in
          let more = suc-mul (k - 1) (suc (length pattern)) in
          let enough' : (k - 1) * suc (length pattern) < fuel + t.pidx =
            let total = ap (λ j. j * suc (length pattern)) (sym left) ∙ more in
            omega (arith, inv.room) in
          let (u, run, best) =
            Scans-Best fuel (k - 1) (suc a) t inv' (omega arith) (omega (arith, inv'.place))
              enough' in
          (u, rw (exact_loop, b, e) run, best)
    ]
  ]

  exact_start-Scans : 0 < length pattern → Scans 0 exact_start
  unfolding starts_with
  exact_start-Scans h = record {
    place = refl;
    room = h;
    agrees = refl;
    worth = inl refl;
    best = inl (refl, refl, λ c l. absurd (omega arith));
  }

  -- On a pattern of at least one byte the loop of `fzf_exact_match_naive` ends with the best of all
  -- places.
  pub exact_loop-Best :
      0 < length pattern
      → (t : ExactState) × (exact_loop case_sensitive normalize text pattern
            (exact_fuel text pattern)
            exact_start
          ≡ some t)
        × Best scan_hit pattern text (length text) t.best_pos t.best_bonus
  exact_loop-Best h =
      Scans-Best (exact_fuel text pattern) (length text) 0 exact_start (exact_start-Scans h)
        (omega arith) (omega arith) (omega arith)
