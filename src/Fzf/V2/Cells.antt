-- ===== src/Fzf/V2/Cells.antt =====
-- One round of the loop of `fzf_fuzzy_match_v2` over the text, for a pattern of one byte.
use plugged.Common.{
  Bool, Bool-cases, [], arith, false, inl, inr, length, length-set, lt→ltb, refl, set, some, sym,
  to_i32, true, ℕ, ℤ, ◌<◌, ◌==◌, ◌∙◌, ◌∷◌, ◌≡◌, ◌≤◌,
}
use plugged.Fzf.Chars.{Bytes, char_class_of_ascii, fold_char, normalize_rune, to_lower}
use plugged.Fzf.Slab.{Array}
use plugged.Fzf.V2.FirstRow.{Phase2, fold_rune, note_first}
use plugged.Fzf.V2.Memory.{store}

pub store-in :
    (a : Array) (i : ℕ) (v : ℤ)
    → i < length a.cells
    → store a i v ≡ some (record a { cells = set a.cells i v })
unfolding store
store-in a i v h = rw (lt→ltb i (length a.cells) h)

pub fold_rune-eq :
    (cs normalize : Bool) (c : ℕ) → fold_rune cs normalize c ≡ fold_char cs normalize c
unfolding fold_rune fold_char char_class_of_ascii to_lower normalize_rune
fold_rune-eq true true c = refl
fold_rune-eq true false c = refl
fold_rune-eq false true c = ground arith
fold_rune-eq false false c = ground arith

-- The arrays keep their sizes, and the byte looked for stays.
pub record Frame (s s' : Phase2) : Type 0 where
  pub h0_same : length s'.h0.cells ≡ length s.h0.cells
  pub c0_same : length s'.c0.cells ≡ length s.c0.cells
  pub bo_same : length s'.bo.cells ≡ length s.bo.cells
  pub f_same : length s'.f.cells ≡ length s.f.cells
  pub t_same : length s'.t.cells ≡ length s.t.cells
  pub pchar_same : s'.pchar ≡ s.pchar
  pub class_same : s'.prev_class ≡ s.prev_class

pub Frame-trans : {s s' s'' : Phase2} → Frame s s' → Frame s' s'' → Frame s s''
Frame-trans a b = record {
  h0_same = b.h0_same ∙ a.h0_same;
  c0_same = b.c0_same ∙ a.c0_same;
  bo_same = b.bo_same ∙ a.bo_same;
  f_same = b.f_same ∙ a.f_same;
  t_same = b.t_same ∙ a.t_same;
  pchar_same = b.pchar_same ∙ a.pchar_same;
  class_same = b.class_same ∙ a.class_same;
}

-- Only the places of the pattern's bytes change.
pub f-Frame :
    (s : Phase2) (f : Array) (k p last : ℕ)
    → length f.cells ≡ length s.f.cells
    → s.pchar ≡ p
    → Frame s (record s { f = f; pidx = k; pchar = p; last_idx = last })
f-Frame s f k p last size looked = record {
  h0_same = refl;
  c0_same = refl;
  bo_same = refl;
  f_same = size;
  t_same = refl;
  pchar_same = sym looked;
  class_same = refl;
}

pub note_first-miss :
    (pattern : Bytes) (place c : ℕ) (s : Phase2)
    → (c == s.pchar) ≡ false
    → note_first pattern place c s ≡ some s
unfolding note_first
note_first-miss pattern place c s miss = rw miss

pub note_first-hit :
    (p place c : ℕ) (s : Phase2)
    → (c == p) ≡ true
    → s.pchar ≡ p
    → s.pidx ≤ 1
    → 1 ≤ length s.f.cells
    → (s' : Phase2) × (note_first (p ∷ []) place c s ≡ some s')
      × Frame s s'
      × (s'.pidx ≡ 1)
      × (s'.max_score ≡ s.max_score)
      × (s'.max_score_pos ≡ s.max_score_pos)
unfolding note_first
note_first-hit p place c s hit looked le room = elim (Bool-cases (s.pidx == 0)) [
  | inl fresh ↦
      let first : s.pidx ≡ 0 = ground arith in
      let f : Array = record s.f { cells = set s.f.cells 0 (to_i32 place) } in
      (
        record s { f = f; pidx = 1; pchar = p; last_idx = place },
        rw (looked, hit, first, store-in s.f 0 (to_i32 place) (omega arith)) refl,
        f-Frame s f 1 p place (length-set s.f.cells 0 (to_i32 place)) looked,
        refl,
        refl,
        refl,
      )
  | inr seen ↦
      let once : s.pidx ≡ 1 = ground arith in
      (
        record s { last_idx = place },
        rw (looked, hit, once) refl,
        f-Frame s s.f s.pidx s.pchar place refl refl,
        once,
        refl,
        refl,
      )
]
