-- ===== src/Jsregexp/Matches/Endless.antt =====
-- That `match_all_list` does not end for an expression that keeps no place.
use plugged.Common.{
  List, Option, ap, arith, false, inl, inr, length, none, refl, some, suc, zero, ℕ, ◌-◌, ◌∙◌, ◌∷◌,
  ◌≡◌, ◌≤◌,
}
use plugged.Jsregexp.Captures.{FindsWithin, NamesFor}
use plugged.Jsregexp.Engine.{Engine, Lua, Span, match_at, raised, returned}
use plugged.Jsregexp.Exec.{ExecMatch, Regexp, exec_on}
use plugged.Jsregexp.Exec.Outcome.{ExecResult, keeps_place, searched, start_of}
use plugged.Jsregexp.Exec.Result.{exec_on_lem}
use plugged.Jsregexp.Matches.{add_match, match_all_loop}
use plugged.Jsregexp.Text.{JsString}

module _ (input : JsString) (narrow : input.is_wide_char ≡ false)
    (held : input.len ≤ length input.units) (engine : Engine) (r : Regexp engine)
    (law : FindsWithin engine r.bc)
    (named : NamesFor (engine.lre_get_capture_count r.bc - 1) (engine.lre_get_groupnames r.bc))
    (forgets : keeps_place engine r.bc ≡ false) (a b : ℕ) (spans : List Span)
    (finds : engine.lre_exec r.bc input.units 0 input.len input.is_wide_char
      ≡ match_at (some (a, b) ∷ spans)) where
  searched-first :
      (i : ℕ) → searched engine (record r { last_index = i }) input ≡ match_at (some (a, b) ∷ spans)
  searched-first i = rw (searched, start_of, forgets) finds

  -- The next call finds a match again, whatever the place.
  exec_on-again :
      (i : ℕ)
      → (m : ExecMatch) × (exec_on engine (record r { last_index = i }) input
          ≡ some (returned (some m, record r { last_index = 0 })))
  exec_on-again i =
      let (result, run, res) =
        exec_on_lem input narrow held engine (record r { last_index = i }) law named in
      go result run res
    where
      go :
          (result : Lua (Option ExecMatch × Regexp engine))
          → exec_on engine (record r { last_index = i }) input ≡ some result
          → ExecResult engine (record r { last_index = i }) input result
          → (m : ExecMatch) × (exec_on engine (record r { last_index = i }) input
              ≡ some (returned (some m, record r { last_index = 0 })))
      go (raised e) run (_, failed) = let s = searched-first i in cc
      go (returned (none, r')) run (_, inl past) = absurd (omega (arith, rw forgets at past))
      go (returned (none, r')) run (_, inr nothing) = let s = searched-first i in cc
      go (returned (some m, r')) run (inside, c, d, is) = (
        m,
        run
            ∙ ap (λ r'. some (returned (some m, r')))
                (is.next ∙ ap (λ i. record r { last_index = i }) (rw forgets refl)),
      )

  -- On a text of one byte for each character, held by its buffer, for an engine whose matches
  -- start at or after the place asked for, lie in the text and have a span for each group, and
  -- which has names for all groups or none, if an expression that is neither global nor sticky
  -- has a match in the text, the loop of `match_all_list` does not end: it has no result on any
  -- fuel.
  pub match_all_loop-none :
      (fuel i : ℕ) → match_all_loop engine input fuel (record r { last_index = i }) ≡ none
  unfolding match_all_loop add_match
  match_all_loop-none zero i = refl
  match_all_loop-none (suc fuel) i =
      let (m, run) = exec_on-again i in rw (run, match_all_loop-none fuel 0) refl
