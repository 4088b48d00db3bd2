-- ===== src/Fzf/Fold.antt =====
-- Patterns as the query parser makes them: lower case unless case counts. For these `try_skip`
-- accepts the bytes that the matchers' own comparison accepts. No code is modelled here.
use mathlib.Core.Path.{fun_ext}
use plugged.Common.{
  Bool, Bool-cases, [], ap, arith, false, inl, inr, leb, refl, true, ℕ, ◌&&◌, ◌∷◌, ◌≡◌, ◌⊎◌,
}
use plugged.Fzf.Chars.{Bytes, fold_char}
use plugged.Fzf.Score.Run.{fold_hit}
use plugged.Fzf.Skip.Search.{skip_hit}
use plugged.Fzf.Subseq.{cut, suc?}

abbrev pub is_upper_byte : ℕ → Bool
is_upper_byte c = leb b'A' c && leb c b'Z'

-- Where case does not count, the pattern has no upper case letter.
abbrev pub IsFolded : Bool → Bytes → Type 0
IsFolded case_sensitive [] = Unit
IsFolded case_sensitive (p ∷ ps) =
    ((case_sensitive ≡ true) ⊎ (is_upper_byte p ≡ false)) × IsFolded case_sensitive ps

pub skip_hit-eq :
    (case_sensitive normalize : Bool) (p x : ℕ)
    → (case_sensitive ≡ true) ⊎ (is_upper_byte p ≡ false)
    → skip_hit case_sensitive p x ≡ fold_hit case_sensitive normalize p x
unfolding fold_char
skip_hit-eq true true p x h = ground arith
skip_hit-eq true false p x h = ground arith
skip_hit-eq false true p x h = ground arith
skip_hit-eq false false p x h = ground arith

-- The search of `ascii_fuzzy_index` and that of the matchers are one.
pub cut-skip_hit :
    (case_sensitive normalize : Bool) (ps xs : Bytes)
    → IsFolded case_sensitive ps
    → cut (skip_hit case_sensitive) ps xs ≡ cut (fold_hit case_sensitive normalize) ps xs
unfolding cut
cut-skip_hit cs normalize [] xs f = refl
cut-skip_hit cs normalize (p ∷ ps) [] f = refl
cut-skip_hit cs normalize (p ∷ ps) (x ∷ xs) f = elim (Bool-cases (fold_hit cs normalize p x)) [
  | inl e ↦ rw (skip_hit-eq cs normalize p x f.0, e) (ap suc? (cut-skip_hit cs normalize ps xs f.1))
  | inr e ↦
      rw (skip_hit-eq cs normalize p x f.0, e) (ap suc? (cut-skip_hit cs normalize (p ∷ ps) xs f))
]

pub fold_hit-normalize :
    (case_sensitive normalize : Bool)
    → fold_hit case_sensitive normalize ≡ fold_hit case_sensitive false
unfolding fold_char
fold_hit-normalize cs true = fun_ext λ p. fun_ext λ x. refl
fold_hit-normalize cs false = refl
