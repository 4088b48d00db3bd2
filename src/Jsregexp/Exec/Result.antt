-- ===== src/Jsregexp/Exec/Result.antt =====
-- What `regexp_exec` gives on a text of one byte for each character, on each of its branches.
use mathlib.Core.List.{append-nil}
use plugged.Common.{
  Bool, Bool-cases, List, Option, [], ap, arith, drop, false, get_elem?, get_elem?-of_lt,
  if◌then◌else◌, inl, inr, length, length-map, ltb, map, none, refl, slice?_in, some, subst, suc,
  sym, take, take-length, true, zero, ℕ, ◌&&◌, ◌++◌, ◌+◌, ◌-◌, ◌∙◌, ◌∷◌, ◌≡◌, ◌≤◌,
}
use plugged.Fzf.Chars.{Bytes}
use plugged.Jsregexp.Captures.{
  AllWithin, FindsWithin, NamesFor, byte_offset-narrow, capture_text-IsTotal, span_text,
  store_named-IsTotal, texts_at, texts_at-suc,
}
use plugged.Jsregexp.Engine.{
  Engine, Found, Lua, Span, exec_error, match_at, nothing_found, out_of_memory, raised, returned,
}
use plugged.Jsregexp.Exec.{
  ExecMatch, Filled, Regexp, capture_loop, capture_text, exec_on, groups_table, match_table,
  search_start, store_named,
}
use plugged.Jsregexp.Exec.Outcome.{ExecResult, keeps_place, searched, start_of}
use plugged.Jsregexp.Text.{JsString}

module _ (input : JsString) (narrow : input.is_wide_char ≡ false)
    (held : input.len ≤ length input.units) where
  search_start-narrow : (i : ℕ) → search_start i input ≡ some i
  unfolding search_start
  search_start-narrow i = rw narrow

  -- The loop over the captures adds one for each group.
  capture_loop_lem :
      (spans : List Span) (k i : ℕ) (s : Filled)
      → AllWithin input.len spans
      → suc i + k ≤ length spans
      → NamesFor k s.names
      → (s' : Filled) × (capture_loop input spans k (suc i) s ≡ some s')
        × (s'.captures ≡ s.captures ++ texts_at input.units spans k (suc i))
  unfolding capture_loop
  capture_loop_lem spans zero i s w h n = (s, refl, sym (append-nil s.captures))
  capture_loop_lem spans (suc k) i s w h n =
      let (span, at) = get_elem?-of_lt spans (suc i) (omega arith) in
      let text = span_text input.units span in
      let e = capture_text-IsTotal input narrow held spans (suc i) span w at in
      let (named, stored, n', same) = store_named-IsTotal i k text s n in
      let (s', run, all) =
        capture_loop_lem spans k (suc i) (record named { captures = named.captures ++ (text ∷ []) })
          w (omega arith) n' in
      (
        s',
        rw (at, e, stored) run,
        all
            ∙ ap (λ t. (t ++ (text ∷ [])) ++ texts_at input.units spans k (suc (suc i))) same
            ∙ texts_at-suc input.units spans k (suc i) span s.captures at,
      )

  -- The first capture is the match itself, which has no name.
  capture_loop-first :
      (spans : List Span) (count k : ℕ) (span : Span) (text : Bytes) (s filled : Filled)
      → suc k ≡ count
      → get_elem? spans 0 ≡ some span
      → capture_text input span ≡ some text
      → capture_loop input spans k 1 (record s { captures = s.captures ++ (text ∷ []) })
        ≡ some filled
      → capture_loop input spans count 0 s ≡ some filled
  unfolding capture_loop store_named
  capture_loop-first spans count k span text s filled e at held run = rw (sym e) (rw (at, held) run)

  next_place :
      {engine : Engine} (keeps : Bool) (r : Regexp engine) (b : ℕ)
      → (if keeps
          then record (if keeps then r else record r { last_index = 0 }) { last_index = b }
          else if keeps
          then r
          else record r { last_index = 0 })
        ≡ record r { last_index = if keeps then b else 0 }
  next_place true r b = refl
  next_place false r b = refl

  module _ (engine : Engine) (r : Regexp engine) (law : FindsWithin engine r.bc)
      (named : NamesFor
        (engine.lre_get_capture_count r.bc - 1)
        (engine.lre_get_groupnames r.bc)) where
    -- The table of a match is made.
    match_table_lem :
        (spans : List Span) (a b : ℕ)
        → a ≤ b
        → b ≤ input.len
        → AllWithin input.len spans
        → suc (length spans) ≡ engine.lre_get_capture_count r.bc
        → (m : ExecMatch) × (match_table engine r.bc input (some (a, b) ∷ spans) a ≡ some m)
          × (m.index ≡ 1 + a)
          × (length m.captures ≡ engine.lre_get_capture_count r.bc)
          × (m.captures ≡ map (span_text input.units) (some (a, b) ∷ spans))
    unfolding match_table
    match_table_lem spans a b h k w size =
        let whole = take (b - a) (drop a input.units) in
        let names = engine.lre_get_groupnames r.bc in
        let start : Filled = record { names = names; groups = []; captures = whole ∷ [] } in
        let (filled, run, all) =
          capture_loop_lem (some (a, b) ∷ spans) (length spans) 0 start (h, k, w) (omega arith)
            (subst (λ n. NamesFor n names) (omega (arith, size)) named) in
        let m : ExecMatch = record {
          input = input.bstr;
          capture_count = engine.lre_get_capture_count r.bc;
          index = 1 + a;
          groups = groups_table names filled;
          captures = filled.captures;
        } in
        let text : capture_text input (some (a, b)) ≡ some whole =
          rw (capture_text, narrow) (slice?_in input.units a b h (omega arith)) in
        let loop : capture_loop input (some (a, b) ∷ spans) (engine.lre_get_capture_count r.bc) 0
              (record { names = names; groups = []; captures = [] })
            ≡ some filled =
          capture_loop-first (some (a, b) ∷ spans) (engine.lre_get_capture_count r.bc)
            (length spans) (some (a, b)) whole
            (record { names = names; groups = []; captures = [] }) filled size refl text run in
        let texts : filled.captures ≡ map (span_text input.units) (some (a, b) ∷ spans) =
          all ∙ ap (λ t. whole ∷ map (span_text input.units) t) (take-length spans) in
        (
          m,
          rw (byte_offset-narrow input narrow held a, loop) refl,
          refl,
          omega (arith, ap length texts, length-map (span_text input.units) spans, size),
          texts,
        )

    exec_found :
        keeps_place engine r.bc && ltb input.len (start_of engine r) ≡ false
        → (found : Found) → searched engine r input ≡ found
        → (result : Lua (Option ExecMatch × Regexp engine)) × (exec_on engine r input ≡ some result)
          × ExecResult engine r input result
    unfolding exec_on
    exec_found inside exec_error e =
        (raised out_of_memory, rw (search_start-narrow r.last_index, inside, e) refl, (refl, e))
    exec_found inside nothing_found e = (
      returned (none, record r { last_index = 0 }),
      rw (search_start-narrow r.last_index, inside, e) refl,
      (refl, inr e),
    )
    exec_found inside (match_at []) e =
        let (never, _, _) = law input.units (start_of engine r) input.len input.is_wide_char [] e in
        absurd never
    exec_found inside (match_at (none ∷ spans)) e =
        let (never, _, _) =
          law input.units (start_of engine r) input.len input.is_wide_char (none ∷ spans) e in
        absurd never
    exec_found inside (match_at (some (a, b) ∷ spans)) e =
        let (from, w, size) =
          law input.units (start_of engine r) input.len input.is_wide_char (some (a, b) ∷ spans)
            e in
        let (le, more, w') = w in
        let (m, run, index, count, texts) = match_table_lem spans a b le more w' size in
        let r' : Regexp engine = record r {
          last_index = if keeps_place engine r.bc then b else 0;
        } in
        (
          returned (some m, r'),
          rw
              (
                search_start-narrow r.last_index,
                inside,
                e,
                byte_offset-narrow input narrow held b,
                run,
              )
              (ap (λ t. some (returned (some m, t))) (next_place (keeps_place engine r.bc) r b)),
          (
            omega arith,
            a,
            b,
            record {
              found = (spans, e);
              index_at = index;
              from_start = from;
              ordered = le;
              inside = more;
              captured = count;
              whole = ap (λ xs. get_elem? xs 0) texts;
              texts = texts;
              next = refl;
            },
          ),
        )

    -- On a text of one byte for each character, held by its buffer, for an engine whose matches
    -- start at or after the place asked for, lie in the text and have a span for each group, and
    -- which has names for all groups or none, `regexp_exec` ends without a fault. It raises `out
    -- of memory` only where the engine fails; it gives no match and sets the place back to the
    -- start only where the place is past the text or the engine finds nothing; else it gives the
    -- engine's match, with as many captures as groups and the bytes of each, none for one that
    -- took no part, and the place of the next search is its end for a global or sticky
    -- expression and 0 for another. The rest of the expression does not change.
    pub exec_on_lem :
        (result : Lua (Option ExecMatch × Regexp engine)) × (exec_on engine r input ≡ some result)
        × ExecResult engine r input result
    unfolding exec_on
    exec_on_lem = elim (Bool-cases (keeps_place engine r.bc && ltb input.len (start_of engine r))) [
      | inl past ↦ (
        returned (none, record r { last_index = 0 }),
        rw (search_start-narrow r.last_index, past) refl,
        (refl, inl (ground arith)),
      )
      | inr inside ↦ exec_found inside (searched engine r input) refl
    ]
