-- ===== src/Jsregexp/Bounds.antt =====
-- That `regexp_call` ends, without a fault, on a text of one byte for each character.
use plugged.Common.{
  Bool-cases, List, [], ap, arith, false, if◌then◌else◌, inl, inr, length, ltb, map, none, not,
  refl, some, subst, suc, take-length, true, zero, ℕ, ◌&&◌, ◌+◌, ◌-◌, ◌<◌, ◌==◌, ◌∙◌, ◌∷◌, ◌≡◌, ◌≤◌,
  ◌⊎◌,
}
use plugged.Fzf.V2.Grid.Places.{moved}
use plugged.Jsregexp.Call.{Match, call_loop, call_match, next_index}
use plugged.Jsregexp.Captures.{
  AllWithin, FindsWithin, NamesFor, byte_offset-narrow, group_loop-IsTotal, span_text, texts_at,
}
use plugged.Jsregexp.Engine.{Engine, Found, Span, exec_error, match_at, nothing_found}
use plugged.Jsregexp.Exec.{Filled}
use plugged.Jsregexp.Text.{JsString}

-- Where the search goes on after a match from `a` to `b`, which was looked for from `cindex`: after
-- an empty one, at the place after `cindex`.
abbrev pub after_match : ℕ → ℕ → ℕ → ℕ
after_match cindex a b = if a == b then cindex + 1 else b

-- The matches are those that the engine finds, each from the place where the search went on, in
-- the text. The search goes on for a global expression up to the end of the text; it ends where
-- the engine finds nothing or fails.
abbrev pub ListedFrom : (engine : Engine) → engine.Bytecode → JsString → ℕ → List Match → Type 0
ListedFrom engine bc input cindex [] =
    (engine.lre_exec bc input.units cindex input.len input.is_wide_char ≡ nothing_found)
    ⊎ (engine.lre_exec bc input.units cindex input.len input.is_wide_char ≡ exec_error)
ListedFrom engine bc input cindex (table ∷ tables) =
    (a : ℕ) × (b : ℕ) × (spans : List Span) × (engine.lre_exec bc input.units cindex input.len
        input.is_wide_char
      ≡ match_at (some (a, b) ∷ spans))
    × (table.begin_ind ≡ 1 + a)
    × (table.end_ind ≡ b)
    × (cindex ≤ a)
    × (a ≤ b)
    × (b ≤ input.len)
    × (table.groups ≡ map (span_text input.units) spans)
    × ((((engine.lre_get_flags bc).global ≡ true)
          × (after_match cindex a b ≤ input.len)
          × ListedFrom engine bc input (after_match cindex a b) tables)
        ⊎ ((((engine.lre_get_flags bc).global ≡ false) ⊎ (input.len < after_match cindex a b))
            × (tables ≡ [])))

module _ (input : JsString) (narrow : input.is_wide_char ≡ false)
    (held : input.len ≤ length input.units) where
  next_index-narrow :
      (cindex a b : ℕ)
      → cindex ≤ a
      → a ≤ b
      → b ≤ input.len
      → cindex ≤ input.len
      → (next : ℕ) × (next_index input cindex a b ≡ some next)
        × (cindex < next)
        × (next ≤ suc input.len)
        × (next ≡ after_match cindex a b)
  unfolding next_index
  next_index-narrow cindex a b h k l c = elim (Bool-cases (a == b)) [
    | inl e ↦ (cindex + 1, rw (e, narrow), omega arith, omega arith, rw e refl)
    | inr e ↦ (b, rw e, ground arith, omega arith, rw e refl)
  ]

  module _ (engine : Engine) (bc : engine.Bytecode) (law : FindsWithin engine bc)
      (named : NamesFor (engine.lre_get_capture_count bc - 1) (engine.lre_get_groupnames bc)) where
    -- The loop over the groups takes all captures but the first.
    all_groups :
        (first : Span) (spans : List Span)
        → suc (length spans) ≡ engine.lre_get_capture_count bc
        → texts_at input.units (first ∷ spans) (engine.lre_get_capture_count bc - 1) 1
          ≡ map (span_text input.units) spans
    all_groups first spans e =
        let size : engine.lre_get_capture_count bc - 1 ≡ length spans = omega arith in
        rw size (ap (map (span_text input.units)) (take-length spans))

    call_match-IsTotal :
        (first : Span) (spans : List Span) (from to : ℕ)
        → AllWithin input.len (first ∷ spans)
        → suc (length spans) ≡ engine.lre_get_capture_count bc
        → (table : Match) × (call_match engine bc input (first ∷ spans) from to ≡ some table)
          × (table.begin_ind ≡ 1 + from)
          × (table.end_ind ≡ to)
          × (table.groups ≡ map (span_text input.units) spans)
    unfolding call_match
    call_match-IsTotal first spans from to w e =
        elim (Bool-cases (engine.lre_get_flags bc).named_groups) [
          | inl b ↦
              let start : Filled = record {
                names = engine.lre_get_groupnames bc;
                groups = [];
                captures = [];
              } in
              let (filled, run, all) =
                group_loop-IsTotal input narrow held (first ∷ spans)
                  (engine.lre_get_capture_count bc - 1) 0 start w (omega (arith, e)) named in
              (
                record {
                  begin_ind = 1 + from;
                  end_ind = to;
                  groups = filled.captures;
                  named_groups = some filled.groups;
                },
                rw
                    (
                      byte_offset-narrow input narrow held from,
                      byte_offset-narrow input narrow held to,
                      b,
                      run,
                    )
                    refl,
                refl,
                refl,
                all ∙ all_groups first spans e,
              )
          | inr b ↦
              let start : Filled = record { names = none; groups = []; captures = [] } in
              let (filled, run, all) =
                group_loop-IsTotal input narrow held (first ∷ spans)
                  (engine.lre_get_capture_count bc - 1) 0 start w (omega (arith, e)) tt in
              (
                record {
                  begin_ind = 1 + from;
                  end_ind = to;
                  groups = filled.captures;
                  named_groups = none;
                },
                rw
                    (
                      byte_offset-narrow input narrow held from,
                      byte_offset-narrow input narrow held to,
                      b,
                      run,
                    )
                    refl,
                refl,
                refl,
                all ∙ all_groups first spans e,
              )
        ]

    -- The rest of the loop ends, from every later place in the text.
    abbrev Again : ℕ → ℕ → Type 0
    Again fuel cindex =
        (next : ℕ)
        → cindex < next
        → next ≤ input.len
        → (tables : List Match) × (call_loop engine bc input fuel next ≡ some tables)
          × ListedFrom engine bc input next tables

    -- Where the loop ends after a match.
    stops_at :
        (next : ℕ)
        → (engine.lre_get_flags bc).global && not (ltb input.len next) ≡ false
        → ((engine.lre_get_flags bc).global ≡ false) ⊎ (input.len < next)
    stops_at next h = elim (Bool-cases (engine.lre_get_flags bc).global) [
      | inl g ↦ inr (ground arith)
      | inr g ↦ inl g
    ]

    call_after :
        (fuel cindex : ℕ)
        → cindex ≤ input.len
        → Again fuel cindex
        → (a b : ℕ) (spans : List Span)
        → engine.lre_exec bc input.units cindex input.len input.is_wide_char
          ≡ match_at (some (a, b) ∷ spans)
        → (tables : List Match) × (call_loop engine bc input (suc fuel) cindex ≡ some tables)
          × ListedFrom engine bc input cindex tables
    unfolding call_loop
    call_after fuel cindex c again a b spans e =
        let (from, w, size) =
          law input.units cindex input.len input.is_wide_char (some (a, b) ∷ spans) e in
        let (le, inside, _) = w in
        let (next, moved, more, bound, on_from) = next_index-narrow cindex a b from le inside c in
        let (table, made, begins, ends, groups) =
          call_match-IsTotal (some (a, b)) spans a b w size in
        elim (Bool-cases ((engine.lre_get_flags bc).global && not (ltb input.len next))) [
          | inl on ↦
              let (tables, rest, order) = again next more (ground arith) in
              (
                table ∷ tables,
                rw (call_loop, e, moved, made, on, rest) refl,
                (
                  a,
                  b,
                  spans,
                  e,
                  begins,
                  ends,
                  from,
                  le,
                  inside,
                  groups,
                  inl (
                      subst
                        (λ n.
                          ((engine.lre_get_flags bc).global ≡ true)
                          × (n ≤ input.len)
                          × ListedFrom engine bc input n tables)
                        on_from (ground arith, ground arith, order)),
                ),
              )
          | inr off ↦ (
            table ∷ [],
            rw (call_loop, e, moved, made, off) refl,
            (
              a,
              b,
              spans,
              e,
              begins,
              ends,
              from,
              le,
              inside,
              groups,
              inr (
                subst (λ n. ((engine.lre_get_flags bc).global ≡ false) ⊎ (input.len < n)) on_from
                    (stops_at next off),
                refl,
              ),
            ),
          )
        ]

    call_step :
        (fuel cindex : ℕ)
        → cindex ≤ input.len
        → Again fuel cindex
        → (found : Found)
        → engine.lre_exec bc input.units cindex input.len input.is_wide_char ≡ found
        → (tables : List Match) × (call_loop engine bc input (suc fuel) cindex ≡ some tables)
          × ListedFrom engine bc input cindex tables
    unfolding call_loop
    call_step fuel cindex c again exec_error e = ([], rw (call_loop, e) refl, inr e)
    call_step fuel cindex c again nothing_found e = ([], rw (call_loop, e) refl, inl e)
    call_step fuel cindex c again (match_at []) e =
        let (never, _, _) = law input.units cindex input.len input.is_wide_char [] e in absurd never
    call_step fuel cindex c again (match_at (none ∷ spans)) e =
        let (never, _, _) = law input.units cindex input.len input.is_wide_char (none ∷ spans) e in
        absurd never
    call_step fuel cindex c again (match_at (some (a, b) ∷ spans)) e =
        call_after fuel cindex c again a b spans e

    pub call_loop-IsTotal :
        (fuel cindex : ℕ)
        → cindex ≤ input.len
        → input.len + 2 ≤ fuel + cindex
        → (tables : List Match) × (call_loop engine bc input fuel cindex ≡ some tables)
          × ListedFrom engine bc input cindex tables
    call_loop-IsTotal zero cindex c h = let never : ⊥ = omega arith in absurd never
    call_loop-IsTotal (suc fuel) cindex c h =
        call_step fuel cindex c (λ next lt le. call_loop-IsTotal fuel next le (omega arith))
          (engine.lre_exec bc input.units cindex input.len input.is_wide_char) refl
