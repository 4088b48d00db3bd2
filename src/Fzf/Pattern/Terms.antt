-- ===== src/Fzf/Pattern/Terms.antt =====
-- fzf.h, lines 47-73, and fzf.c, lines 959-982: terms, sets of alternatives, and patterns, in
-- arrays that double. `data` lists the `size` cells written; a write at `cap` is a fault.
use plugged.Common.{
  Bool, List, Option, [], false, if◌then◌else◌, length, ltb, none, set, some, ℕ, ◌*◌, ◌++◌, ◌+◌,
  ◌==◌, ◌∷◌,
}
use plugged.Fzf.Chars.{Bytes}

-- The matchers that the parser stores in a term.
pub data Algo : Type 0 where
  fuzzy_match_v2 exact_match_naive prefix_match suffix_match equal_match : Algo

pub record Term : Type 0 where
  pub fn : Algo
  pub inv : Bool
  pub text : Bytes
  pub case_sensitive : Bool

pub record TermSet : Type 0 where
  pub terms : List Term
  pub cap : ℕ

pub record Pattern : Type 0 where
  pub sets : List TermSet
  pub cap : ℕ
  pub only_inv : Bool

abbrev pub empty_set : TermSet
empty_set = record { terms = []; cap = 0 }

abbrev pub empty_pattern : Pattern
empty_pattern = record { sets = []; cap = 0; only_inv = false }

-- The capacity before a cell is written after `size` of them.
unfoldable pub grow_cap : ℕ → ℕ → ℕ
grow_cap size cap = if cap == 0 then 1 else if ltb cap (size + 1) then cap * 2 else cap

unfoldable pub append_set : TermSet → Term → Option TermSet
unfolding grow_cap
append_set set value =
    let cap = grow_cap (length set.terms) set.cap in
    if ltb (length set.terms) cap
    then some (record { terms = set.terms ++ value ∷ []; cap = cap })
    else none

unfoldable pub append_pattern : Pattern → TermSet → Option Pattern
unfolding grow_cap
append_pattern pattern value =
    let cap = grow_cap (length pattern.sets) pattern.cap in
    if ltb (length pattern.sets) cap
    then some (record pattern { sets = pattern.sets ++ value ∷ []; cap = cap })
    else none
