-- ===== src/Fzf/Subseq.antt =====
-- What the fuzzy matchers look for: the pattern's bytes in order, not always next to each other.
-- `cut` is the greedy search for them. No code is modelled here.
pub mod Greedy
pub mod Mirror
use plugged.Common.{Bool, Option, [], if◌then◌else◌, none, some, suc, true, ℕ, ◌∷◌, ◌≡◌}
use plugged.Fzf.Chars.{Bytes}

-- `hit p x` tells whether the text's byte `x` counts as the pattern's byte `p`.
pub data Subseq (hit : ℕ → ℕ → Bool) : Bytes → Bytes → Type 0 where
  done : {xs : Bytes} → Subseq hit [] xs
  pick :
      {p x : ℕ} {ps xs : Bytes} → hit p x ≡ true → Subseq hit ps xs → Subseq hit (p ∷ ps) (x ∷ xs)
  skip : {x : ℕ} {ps xs : Bytes} → Subseq hit ps xs → Subseq hit ps (x ∷ xs)

abbrev pub suc? : Option ℕ → Option ℕ
suc? none = none
suc? (some n) = some (suc n)

-- How many bytes of the text the greedy search takes.
unfoldable pub cut : (ℕ → ℕ → Bool) → Bytes → Bytes → Option ℕ
cut hit [] xs = some 0
cut hit (p ∷ ps) [] = none
cut hit (p ∷ ps) (x ∷ xs) = suc? (cut hit (if hit p x then ps else p ∷ ps) xs)
