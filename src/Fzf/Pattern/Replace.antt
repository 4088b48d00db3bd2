-- ===== src/Fzf/Pattern/Replace.antt =====
-- The parser's `str_replace` neither writes past its memory nor fails to find what it counted.
use plugged.Common.{
  Bool-cases, Option-cases, [], arith, bytes_eq, drop, inl, inr, length, length-append, length-drop,
  length-take, length-take_le, ltb, lt→ltb, refl, some, suc, take, true, zero, ℕ, ◌++◌, ◌+◌, ◌<◌,
  ◌^◌, ◌∷◌, ◌≡◌, ◌≤◌,
}
use plugged.Fzf.Chars.{Bytes}
use plugged.Fzf.Pattern.Strings.{
  count_loop, has_prefix, replace_loop, replace_size, str_replace, strstr,
}
use plugged.Fzf.Subseq.Greedy.{suc?-eq-some}

bytes_eq-length : (xs ys : Bytes) → bytes_eq xs ys ≡ true → length xs ≡ length ys
unfolding bytes_eq
bytes_eq-length [] [] h = refl
bytes_eq-length [] (y ∷ ys) h = cc
bytes_eq-length (x ∷ xs) [] h = cc
bytes_eq-length (x ∷ xs) (y ∷ ys) h = ground (arith, bytes_eq-length xs ys)

pub has_prefix-length :
    (str prefix : Bytes) → has_prefix str prefix ≡ true → length prefix ≤ length str
unfolding has_prefix
has_prefix-length str prefix h =
    omega
      (arith, bytes_eq-length (take (length prefix) str) prefix h, length-take (length prefix) str)

-- Where `strstr` finds `rep`, it lies in the text.
strstr-le : (xs rep : Bytes) {k : ℕ} → strstr xs rep ≡ some k → k + length rep ≤ length xs
unfolding strstr
strstr-le [] rep {k} h = elim (Bool-cases (has_prefix [] rep)) [
  | inl b ↦ let z : 0 ≡ k = cc (rw b at h) in omega (arith, has_prefix-length [] rep b)
  | inr b ↦ cc (rw b at h)
]
strstr-le (x ∷ xs) rep {k} h = elim (Bool-cases (has_prefix (x ∷ xs) rep)) [
  | inl b ↦ let z : 0 ≡ k = cc (rw b at h) in omega (arith, has_prefix-length (x ∷ xs) rep b)
  | inr b ↦
      let (j, e, s) = suc?-eq-some (strstr xs rep) (rw b at h) in omega (arith, strstr-le xs rep e)
]

-- Two bytes are replaced by one, as often as they were counted.
replace_loop-count :
    (fuel : ℕ) (orig : Bytes) (a b w : ℕ)
    → (result : Bytes) × (replace_loop
          (count_loop fuel orig (a ∷ b ∷ []))
          orig
          (a ∷ b ∷ [])
          (w ∷ [])
        ≡ some result)
      × (length result + count_loop fuel orig (a ∷ b ∷ []) ≡ length orig)
unfolding replace_loop count_loop
replace_loop-count zero orig a b w = (orig, refl, omega arith)
replace_loop-count (suc fuel) orig a b w = elim (Option-cases (strstr orig (a ∷ b ∷ []))) [
  | inl e ↦ (orig, rw (e, replace_loop) refl, rw (e, count_loop) (omega arith))
  | inr (k, e) ↦
      let inside = strstr-le orig (a ∷ b ∷ []) e in
      let (result, run, size) = replace_loop-count fuel (drop (k + 2) orig) a b w in
      (
        take k orig ++ (w ∷ []) ++ result,
        rw (count_loop, e, replace_loop, e, run) refl,
        rw (count_loop, e)
            (omega (
              arith,
              length-append (take k orig) (w ∷ []),
              length-append (take k orig ++ (w ∷ [])) result,
              length-take_le k orig (omega arith),
              length-drop (k + 2) orig,
            )),
      )
]

-- On a text shorter than 2^63 bytes, `str_replace` of two bytes by one gives a result without a fault.
pub str_replace-IsTotal :
    (orig : Bytes) (a b w : ℕ)
    → length orig < 2 ^ 63
    → (result : Bytes) × (str_replace orig (a ∷ b ∷ []) (w ∷ []) ≡ some result)
unfolding str_replace replace_size
str_replace-IsTotal orig a b w small =
    let (result, run, size) = replace_loop-count (length orig) orig a b w in
    let room : ltb (length result)
          (replace_size orig (a ∷ b ∷ []) (w ∷ []) (count_loop (length orig) orig (a ∷ b ∷ [])))
        ≡ true =
      lt→ltb _ _ (omega arith) in
    (result, rw (run, room) refl)
