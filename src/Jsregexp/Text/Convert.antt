-- ===== src/Jsregexp/Text/Convert.antt =====
-- That `utf8_to_utf16` converts every text.
use plugged.Common.{
  Bool-cases, List, Option, SameBelow, [], ap, arith, drop, get_elem?, get_elem?-set_above,
  get_elem?-set_here, inl, inr, length, length-drop, length-replicate, length-set, ltb, none, refl,
  replicate, set, some, subst, suc, zero, ℕ, ◌%◌, ◌+◌, ◌<◌, ◌>>=◌, ◌^◌, ◌∙◌, ◌∷◌, ◌≡◌, ◌≤◌,
}
use plugged.Fzf.Chars.{Bytes}
use plugged.Fzf.V2.Single.{written}
use plugged.Jsregexp.Engine.{Decoder}
use plugged.Jsregexp.Text.{Wide, c_str, utf16_end, utf16_loop, utf8_to_utf16}
use plugged.Jsregexp.Text.Arrays.{
  Kept, Kept-trans, Leaves, Sized, note_lem, write-in, write_units_lem,
}
use plugged.Jsregexp.Text.Chars.{Converts, TakesEnough, Written, unit_count}

abbrev converted : Decoder → ℕ → ℕ → Bytes → ℕ → Wide → Option (Option Wide)
converted decode n fuel rest at w = do run ← utf16_loop decode fuel rest at w; utf16_end n run

-- What the rest of the conversion gives, and that it leaves what stands before it.
abbrev Goal : Decoder → ℕ → ℕ → Bytes → ℕ → Wide → Type 0
Goal decode n fuel rest at w =
    (r : Option Wide) × (converted decode n fuel rest at w ≡ some r)
    × Converts decode rest n at w.q r
    × Leaves w.q at w r

unit_count_above : (u c : ℕ) → u < u + unit_count c
unit_count_above u c = ground arith

utf16_loop_end :
    (decode : Decoder) (n fuel at : ℕ) (w : Wide)
    → Sized n w
    → w.q ≤ at
    → at ≤ n
    → Goal decode n (suc fuel) [] at w
unfolding utf16_loop utf16_end
utf16_loop_end decode n fuel at w size h k =
    let w1 : Wide = record w { str = set w.str w.q 0 } in
    let size1 : Sized n w1 = record {
      str_size = length-set w.str w.q 0 ∙ size.str_size;
      indices_size = size.indices_size;
      rev_indices_size = size.rev_indices_size;
    } in
    let (last, run, size2, kept, q, str, there, back) =
      note_lem n n w1 size1 (omega arith) (omega arith) in
    (
      some last,
      rw (write-in w.str w.q 0 (omega (arith, size.str_size))) (rw run refl),
      (
        [],
        refl,
        (
          q,
          ap (λ xs. get_elem? xs w.q) str
              ∙ get_elem?-set_here w.str w.q 0 (omega (arith, size.str_size)),
          there,
          back,
        ),
        omega (arith, q),
      ),
      record {
        str_same = λ i e. ap (λ xs. get_elem? xs i) str ∙ get_elem?-set_above w.str w.q i 0 e;
        indices_same = kept.indices_same;
        rev_indices_same = λ i e. kept.rev_indices_same i (omega arith);
      },
    )

Written-same :
    (c u : ℕ) (xs ys : List ℕ)
    → Written c u xs
    → SameBelow (u + unit_count c) xs ys
    → Written c u ys
Written-same c u xs ys h same = elim (Bool-cases (ltb 65535 c)) [
  | inl e ↦
      let (a, b) = rw e at h in
      rw e (
        same u (rw (unit_count, e) (omega arith)) ∙ a,
        same (u + 1) (rw (unit_count, e) (omega arith)) ∙ b,
      )
  | inr e ↦ let a = rw e at h in rw e (same u (rw (unit_count, e) (omega arith)) ∙ a)
]

-- A character before the rest of a conversion, whose arrays hold it below where the rest starts.
Converts-prepend :
    (decode : Decoder) (n at : ℕ) (bytes : Bytes) (w next : Wide) (c taken : ℕ)
    → 0 < length bytes
    → decode bytes ≡ some (c, taken)
    → 0 < taken
    → Kept w.q at w next
    → (get_elem? next.indices w.q ≡ some at)
    → (get_elem? next.rev_indices at ≡ some w.q)
    → Written c w.q next.str
    → (r : Option Wide) → Converts decode (drop taken bytes) n (at + taken) (w.q + unit_count c) r
    → Leaves (w.q + unit_count c) (at + taken) next r
    → Converts decode bytes n at w.q r × Leaves w.q at w r
Converts-prepend decode n at bytes w next c taken some_byte e adv kept there back held none
      (cs, breaks) leaves =
    (((c, taken) ∷ cs, (some_byte, e, breaks)), tt)
Converts-prepend decode n at bytes w next c taken some_byte e adv kept there back held (some r)
      (cs, decodes, table, small) leaves =
    (
      (
        (c, taken) ∷ cs,
        (some_byte, e, decodes),
        (
          Written-same c w.q next.str r.str held leaves.str_same,
          leaves.indices_same w.q (unit_count_above w.q c) ∙ there,
          leaves.rev_indices_same at (omega arith) ∙ back,
          table,
        ),
        small,
      ),
      Kept-trans kept leaves (omega arith) (omega arith),
    )

utf16_loop_char :
    (decode : Decoder) (n fuel b : ℕ) (rest : Bytes) (at : ℕ) (w : Wide) (c taken : ℕ)
    → decode (b ∷ rest) ≡ some (c, taken)
    → taken ≤ length (b ∷ rest)
    → unit_count c ≤ taken
    → Sized n w
    → w.q ≤ at
    → at + length (b ∷ rest) ≤ n
    → ((next : Wide)
        → Sized n next
        → next.q ≤ at + taken
        → Goal decode n fuel (drop taken (b ∷ rest)) (at + taken) next)
    → Goal decode n (suc fuel) (b ∷ rest) at w
unfolding utf16_loop utf16_end
utf16_loop_char decode n fuel b rest at w c taken e size_le wide size h k again =
    let (noted, run, size1, kept, q, str, there, back) =
      note_lem n at w size (omega arith) (omega arith) in
    let (next, run', size2, same, indices, rev, q', written) =
      write_units_lem n c noted size1 (omega (arith, q)) in
    let q2 : next.q ≡ w.q + unit_count c = q' ∙ ap (λ u. u + unit_count c) q in
    let (r, rest_run, good, leaves) = again next size2 (omega (arith, q2)) in
    let kept' : Kept w.q at w next = record {
      str_same = λ i l. same i (omega (arith, q)) ∙ kept.str_same i l;
      indices_same = λ i l. ap (λ xs. get_elem? xs i) indices ∙ kept.indices_same i l;
      rev_indices_same = λ i l. ap (λ xs. get_elem? xs i) rev ∙ kept.rev_indices_same i l;
    } in
    let (good', leaves') =
      Converts-prepend decode n at (b ∷ rest) w next c taken (omega arith) e
        (omega (arith, unit_count_above 0 c)) kept' (ap (λ xs. get_elem? xs w.q) indices ∙ there)
        (ap (λ xs. get_elem? xs at) rev ∙ back) (subst (λ u. Written c u next.str) q written) r
        (subst (λ u. Converts decode (drop taken (b ∷ rest)) n (at + taken) u r) q2 good)
        (subst (λ u. Leaves u (at + taken) next r) q2 leaves) in
    (r, rw (run, e, run') rest_run, good', leaves')

utf16_loop_step :
    (decode : Decoder)
    → TakesEnough decode
    → (n fuel b : ℕ) (rest : Bytes) (at : ℕ) (w : Wide) → Sized n w
    → w.q ≤ at
    → at + length (b ∷ rest) ≤ n
    → (found : Option (ℕ × ℕ)) → decode (b ∷ rest) ≡ found
    → ((taken : ℕ) (next : Wide)
        → 0 < taken
        → Sized n next
        → next.q ≤ at + taken
        → taken ≤ length (b ∷ rest)
        → Goal decode n fuel (drop taken (b ∷ rest)) (at + taken) next)
    → Goal decode n (suc fuel) (b ∷ rest) at w
unfolding utf16_loop utf16_end
utf16_loop_step decode law n fuel b rest at w size h k none e again =
    let (noted, run, _, _, _, _, _, _) = note_lem n at w size (omega arith) (omega arith) in
    (none, rw (run, e) refl, ([], (omega arith, e)), tt)
utf16_loop_step decode law n fuel b rest at w size h k (some (c, taken)) e again =
    let (enough, inside) = law (b ∷ rest) c taken e in
    utf16_loop_char decode n fuel b rest at w c taken e inside enough size h k
      (λ next size' h'. again taken next (omega (arith, unit_count_above 0 c)) size' h' inside)

utf16_loop-Converts :
    (decode : Decoder)
    → TakesEnough decode
    → (n fuel : ℕ) (rest : Bytes) (at : ℕ) (w : Wide) → length rest < fuel
    → Sized n w
    → w.q ≤ at
    → at + length rest ≤ n
    → Goal decode n fuel rest at w
unfolding utf16_loop
utf16_loop-Converts decode law n zero rest at w f size h k = absurd (omega arith)
utf16_loop-Converts decode law n (suc fuel) [] at w f size h k =
    utf16_loop_end decode n fuel at w size h (omega arith)
utf16_loop-Converts decode law n (suc fuel) (b ∷ rest) at w f size h k =
    utf16_loop_step decode law n fuel b rest at w size h k (decode (b ∷ rest)) refl
      (λ taken next some_taken size' h' inside.
        utf16_loop-Converts decode law n fuel (drop taken (b ∷ rest)) (at + taken) next
          (omega (arith, length-drop taken (b ∷ rest))) size' h'
          (omega (arith, length-drop taken (b ∷ rest))))

-- For a decoder whose characters take at least one byte, two above 0xffff, and no more than
-- there are, `utf8_to_utf16` on an input of at most n bytes before its NUL, n + 1 below 2^32,
-- ends without a fault. Either the bytes decode to characters up to a malformed place, and it
-- gives no text; or they all decode, and it gives arrays in which each character up to 0xffff
-- stands as itself, each other one as `high_unit` and `low_unit`, a zero follows the last, at
-- most n units come before it, and for each character and for the end `indices` leads from its
-- unit to its byte (n at the end) and `rev_indices` back.
pub utf8_to_utf16-Converts :
    (decode : Decoder)
    → TakesEnough decode
    → (input : Bytes) (n : ℕ) → length (c_str input) ≤ n
    → n + 1 < 2 ^ 32
    → (r : Option Wide) × (utf8_to_utf16 decode input n ≡ some r)
      × Converts decode (c_str input) n 0 0 r
unfolding utf8_to_utf16
utf8_to_utf16-Converts decode law input n h small =
    let zeros : List ℕ = replicate ((n + 1) % 2 ^ 32) 0 in
    let start : Wide = record { str = zeros; q = 0; indices = zeros; rev_indices = zeros } in
    let room : (n + 1) % 2 ^ 32 ≡ n + 1 = omega (arith, small) in
    let all : length zeros ≡ n + 1 = length-replicate ((n + 1) % 2 ^ 32) 0 ∙ room in
    let (r, run, good, leaves) =
      utf16_loop-Converts decode law n (suc (length (c_str input))) (c_str input) 0 start
        (omega arith) (record { str_size = all; indices_size = all; rev_indices_size = all })
        (omega arith) (omega arith) in
    (r, run, good)
