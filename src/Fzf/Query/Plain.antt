-- ===== src/Fzf/Query/Plain.antt =====
-- A query without spaces and marks, from its bytes to its score and its positions.
use plugged.Common.{
  +ℤ-pos, All, Bool, Option, Option-cases, [], ap, arith, false, inl, inr, length, ltb_ℤ-neg, none,
  pos, refl, some, suc, true, wrap_i32-InI32, ℕ, ℤ, ◌*◌, ◌+ℤ◌, ◌-◌, ◌<◌, ◌^◌, ◌∙◌, ◌∷◌, ◌≡◌, ◌≤◌,
  ◌⊎◌,
}
use plugged.Fzf.Chars.{Bytes}
use plugged.Fzf.Pattern.{CaseMode, fzf_parse_pattern, token_text}
use plugged.Fzf.Pattern.Plain.{IsPlain, fzf_parse_pattern-plain, plain_query, token_text_lem}
use plugged.Fzf.Pattern.Terms.{Pattern}
use plugged.Fzf.Positions.{Positions, fzf_pos_array}
use plugged.Fzf.Query.{
  call_alg, call_fn, collect_loop, collect_set, fzf_get_positions, fzf_get_score, set_loop,
  total_loop,
}
use plugged.Fzf.Score.{no_match}
use plugged.Fzf.Score.Run.{fold_hit}
use plugged.Fzf.Slab.{Slab}
use plugged.Fzf.Subseq.{Subseq, cut}
use plugged.Fzf.Subseq.Greedy.{cut_complete, cut_sound}
use plugged.Fzf.Subseq.Mirror.{Subseq-of_take}
use plugged.Fzf.V2.{fzf_fuzzy_match_v2}
use plugged.Fzf.V2.Grid.Walk.{Trail, Trail-weaken}
use plugged.Fzf.V2.Grid.Way.{Way}
use plugged.Fzf.V2.Memory.{exceeds_slab}
use plugged.Fzf.V2.Total.{v2_finds_any, v2_rejects_any}

-- Whether the text holds the bytes, by the greedy search.
Subseq-cases : (hit : ℕ → ℕ → Bool) (ps xs : Bytes) → Subseq hit ps xs ⊎ (¬ Subseq hit ps xs)
Subseq-cases hit ps xs = elim (Option-cases (cut hit ps xs)) [
  | inl missed ↦ inr (λ d. let (n, e) = cut_complete hit ps xs d in cc)
  | inr (n, e) ↦ let (d, _) = cut_sound hit ps xs e in inl (Subseq-of_take hit n ps xs d)
]

-- The text holds the term: a score above 0, and positions that are the places of a match.
abbrev pub Answered : Pattern → Bool → Bytes → Bytes → Option Slab → Type 0
Answered query case_sensitive term text slab =
    Subseq (fold_hit case_sensitive false) term text
    × ((n : ℕ) × (slab' : Option Slab) × (0 < n)
        × (fzf_get_score text query slab ≡ some (pos n, slab')))
    × ((q : Positions) × (slab' : Option Slab) × (start : ℕ) × (fzf_get_positions text query slab
          ≡ some (some q, slab'))
        × Trail (fold_hit case_sensitive false) term text (length term - 1) (length text) q.cells
            start)

-- It does not: the score 0, no positions, and the slab as it was.
abbrev pub Unanswered : Pattern → Bool → Bytes → Bytes → Option Slab → Type 0
Unanswered query case_sensitive term text slab =
    ¬ Subseq (fold_hit case_sensitive false) term text
    × (fzf_get_score text query slab ≡ some (pos 0, slab))
    × (fzf_get_positions text query slab ≡ some (none, slab))

module _ (mode : CaseMode) (query text : Bytes) (slab : Option Slab) where
  abbrev term : Bytes
  term = (token_text mode query).0

  abbrev sensitive : Bool
  sensitive = (token_text mode query).1

  score_found :
      (start : ℕ) (e score : ℤ) (q : Option Positions) (slab' : Option Slab) (n : ℕ)
      → n < 2 ^ 31
      → score ≡ pos n
      → fzf_fuzzy_match_v2 sensitive false text term none slab
        ≡ some (record { start = pos start; end = e; score = score }, q, slab')
      → fzf_get_score text (plain_query mode query) slab ≡ some (pos n, slab')
  unfolding fzf_get_score total_loop set_loop call_alg call_fn
  score_found start e score q slab' n low value run =
      let sum : pos 0 +ℤ pos n ≡ pos n = +ℤ-pos 0 n ∙ ap pos (omega arith) in
      let fits = wrap_i32-InI32 (pos n) (low, omega arith) in
      rw (run, ltb_ℤ-neg start, value, sum, fits) refl

  positions_found :
      (start : ℕ) (e score : ℤ) (q : Option Positions) (slab' : Option Slab)
      → fzf_fuzzy_match_v2 sensitive false text term (some (fzf_pos_array 0)) slab
        ≡ some (record { start = pos start; end = e; score = score }, q, slab')
      → fzf_get_positions text (plain_query mode query) slab ≡ some (q, slab')
  unfolding fzf_get_positions collect_loop collect_set call_alg call_fn
  positions_found start e score q slab' run = rw (run, ltb_ℤ-neg start) refl

  score_missed :
      fzf_fuzzy_match_v2 sensitive false text term none slab ≡ some (no_match, none, slab)
      → fzf_get_score text (plain_query mode query) slab ≡ some (pos 0, slab)
  unfolding fzf_get_score total_loop set_loop call_alg call_fn
  score_missed run = rw run refl

  positions_missed :
      fzf_fuzzy_match_v2 sensitive false text term (some (fzf_pos_array 0)) slab
        ≡ some (no_match, some (fzf_pos_array 0), slab)
      → fzf_get_positions text (plain_query mode query) slab ≡ some (none, slab)
  unfolding fzf_get_positions collect_loop collect_set call_alg call_fn
  positions_missed run = rw run refl

  -- The positions of a new array are those of the match.
  Way-Trail :
      (start end : ℕ) (q : Option Positions)
      → end < length text
      → Way (fold_hit sensitive false) term text (some (fzf_pos_array 0)) start end q
      → (r : Positions) × (q ≡ some r)
        × Trail (fold_hit sensitive false) term text (length term - 1) (length text) r.cells start
  unfolding fzf_pos_array
  Way-Trail start end none inside (places, grown, trail) = absurd grown
  Way-Trail start end (some r) inside (places, (cells, room), trail) = (
    r,
    refl,
    rw cells (
        Trail-weaken (fold_hit sensitive false) term text (length term - 1) (suc end) (length text)
          (end ∷ places) start (omega arith) trail),
  )

-- For a query of 1 to 1024 bytes without tabs, spaces, `\` and the marks `!`, `$`, `'` and `^`,
-- in every case mode, on a text shorter than 2^31 bytes, without a slab or with one of at least
-- as many 16-bit cells as the lengths of text and query multiplied: `fzf_parse_pattern` gives a
-- pattern in fuzzy mode, and no later step faults. If the text holds the query's bytes in order,
-- folded as the case mode asks, `fzf_get_score` returns a score above 0, and `fzf_get_positions`
-- one place for each byte, each a place of that byte, from the last byte back to the first; if
-- not, `fzf_get_score` returns 0 and `fzf_get_positions` no positions, and both leave the slab.
pub plain_query_decides :
    (mode : CaseMode) (normalize : Bool) (query text : Bytes) (slab : Option Slab)
    → 0 < length query
    → length query ≤ 1024
    → All IsPlain query
    → length text < 2 ^ 31
    → exceeds_slab slab (length text * length query) ≡ false
    → (p : Pattern) × (fzf_parse_pattern mode normalize query true ≡ some p)
      × (Answered p (token_text mode query).1 (token_text mode query).0 text slab
          ⊎ Unanswered p (token_text mode query).1 (token_text mode query).0 text slab)
unfolding fzf_pos_array
plain_query_decides mode normalize [] text slab some_byte few a small room =
    absurd (omega (arith, some_byte))
plain_query_decides mode normalize (c ∷ xs) text slab some_byte few a small room =
    let query = c ∷ xs in
    let (_, size, folded) = token_text_lem mode query a in
    let room' : exceeds_slab slab (length text * length (token_text mode query).0) ≡ false =
      rw size room in
    let long : 0 < length (token_text mode query).0 = omega (arith, size) in
    let short : length (token_text mode query).0 ≤ 1024 = omega (arith, size, few) in
    let find =
      v2_finds_any (token_text mode query).1 false (token_text mode query).0 text folded small long
        short in
    let reject =
      v2_rejects_any (token_text mode query).1 false (token_text mode query).0 text folded small
        long in
    (
      plain_query mode query,
      fzf_parse_pattern-plain mode normalize c xs (omega (arith, few)) a,
      elim (Subseq-cases (fold_hit (token_text mode query).1 false) (token_text mode query).0
          text) [
            | inl d ↦
                let (start, end, n, q, slab', run, scored, low, inside, way) =
                  find none slab room' tt d in
                let (start', end', n', q', slab'', run', scored', low', inside', way') =
                  find (some (fzf_pos_array 0)) slab room' (omega arith) d in
                let (r, same, trail) = Way-Trail mode query text slab start' end' q' inside' way' in
                inl (
                  d,
                  (
                    n,
                    slab',
                    scored,
                    score_found mode query text slab start _ _ q slab' n (omega (arith, low, short))
                        refl run,
                  ),
                  (
                    r,
                    slab'',
                    start',
                    positions_found mode query text slab start' _ _ q' slab'' run'
                        ∙ ap (λ o. some (o, slab'')) same,
                    trail,
                  ),
                )
            | inr no_sub ↦ inr (
              no_sub,
              score_missed mode query text slab (reject none slab no_sub),
              positions_missed mode query text slab (reject (some (fzf_pos_array 0)) slab no_sub),
            )
          ],
    )
