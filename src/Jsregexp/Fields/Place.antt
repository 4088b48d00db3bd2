-- ===== src/Jsregexp/Fields/Place.antt =====
-- Writing the fields of an expression, and reading them again.
use plugged.Common.{
  Bool-cases, InI32, Option, ap, arith, inl, inr, ltb, negsuc, none, pos, refl, some, suc, true,
  zero, ℕ, ℤ, ◌+◌, ◌<◌, ◌^◌, ◌≡◌, ◌≢◌, ◌≤ℤ◌, ◌⊎◌,
}
use plugged.Jsregexp.Engine.{
  Engine, Lua, last_index_not_positive, raised, returned, unrecognized_key,
}
use plugged.Jsregexp.Exec.{Regexp}
use plugged.Jsregexp.Fields.{
  Key, dot_all_key, fits_int, flags_key, global_key, ignore_case_key, last_index_key, lua_number,
  multiline_key, other_key, regexp_index, regexp_newindex, source_key, sticky_key, unicode_key,
  write_place,
}

-- The result of writing a field: an undefined conversion for a `last_index` outside of an `int`;
-- else only `last_index` can be written, with a number from 1 on, which is then read back, and no
-- other field changes.
abbrev pub WriteResult :
    (engine : Engine) → Regexp engine → Key → ℤ → Option (Lua (Regexp engine)) → Type 0
WriteResult engine r key ind none =
    (key ≡ last_index_key) × ((pos (2 ^ 31) ≤ℤ ind) ⊎ (ind ≤ℤ negsuc (2 ^ 31)))
WriteResult engine r key ind (some (raised e)) =
    ((e ≡ last_index_not_positive) × (key ≡ last_index_key) × InI32 ind × (ind ≤ℤ pos 0))
    ⊎ ((e ≡ unrecognized_key) × (key ≢ last_index_key))
WriteResult engine r key ind (some (returned r')) =
    (key ≡ last_index_key)
    × (n : ℕ) × (ind ≡ pos n)
    × (0 < n)
    × (n < 2 ^ 31)
    × (regexp_index engine r' last_index_key ≡ lua_number n)
    × ((other : Key)
        → other ≢ last_index_key
        → regexp_index engine r' other ≡ regexp_index engine r other)

index_same :
    {engine : Engine} (r : Regexp engine) (n : ℕ) (other : Key)
    → other ≢ last_index_key
    → regexp_index engine (record r { last_index = n }) other ≡ regexp_index engine r other
unfolding regexp_index
index_same r n last_index_key h = absurd (h refl)
index_same r n dot_all_key h = refl
index_same r n global_key h = refl
index_same r n ignore_case_key h = refl
index_same r n multiline_key h = refl
index_same r n sticky_key h = refl
index_same r n unicode_key h = refl
index_same r n source_key h = refl
index_same r n flags_key h = refl
index_same r n other_key h = refl

-- A place that an `int` holds is written.
pub regexp_newindex-pos :
    {engine : Engine} (r : Regexp engine) (n : ℕ)
    → n + 1 < 2 ^ 31
    → regexp_newindex engine r last_index_key (pos (suc n))
      ≡ some (returned (record r { last_index = n }))
unfolding regexp_newindex fits_int write_place
regexp_newindex-pos r n h = let fits : ltb (suc n) (2 ^ 31) ≡ true = ground arith in rw fits refl

place_written :
    (engine : Engine) (r : Regexp engine) (ind : ℤ)
    → WriteResult engine r last_index_key ind (regexp_newindex engine r last_index_key ind)
unfolding regexp_newindex fits_int write_place regexp_index
place_written engine r (pos zero) = inl (refl, refl, (omega arith, omega arith), omega arith)
place_written engine r (pos (suc n)) = elim (Bool-cases (ltb (suc n) (2 ^ 31))) [
  | inl e ↦
      rw e
        (refl, suc n, refl, omega arith, ground arith, ap lua_number (omega arith), index_same r n)
  | inr e ↦ rw e (refl, inl (ground arith))
]
place_written engine r (negsuc n) = elim (Bool-cases (ltb n (2 ^ 31))) [
  | inl e ↦ rw e (inl (refl, refl, (omega arith, ground arith), omega arith))
  | inr e ↦ rw e (refl, inr (ground arith))
]

-- Writing `last_index` with a number that an `int` does not hold is undefined. Else writing a
-- field of an expression raises an error for `last_index` with a number below 1 and for every
-- other key, and else gives an expression whose `last_index` reads as the number written and
-- whose other fields read as before.
pub regexp_newindex-regexp_index :
    (engine : Engine) (r : Regexp engine) (key : Key) (ind : ℤ)
    → WriteResult engine r key ind (regexp_newindex engine r key ind)
unfolding regexp_newindex
regexp_newindex-regexp_index engine r last_index_key ind = place_written engine r ind
regexp_newindex-regexp_index engine r dot_all_key ind = inr (refl, λ e. cc)
regexp_newindex-regexp_index engine r global_key ind = inr (refl, λ e. cc)
regexp_newindex-regexp_index engine r ignore_case_key ind = inr (refl, λ e. cc)
regexp_newindex-regexp_index engine r multiline_key ind = inr (refl, λ e. cc)
regexp_newindex-regexp_index engine r sticky_key ind = inr (refl, λ e. cc)
regexp_newindex-regexp_index engine r unicode_key ind = inr (refl, λ e. cc)
regexp_newindex-regexp_index engine r source_key ind = inr (refl, λ e. cc)
regexp_newindex-regexp_index engine r flags_key ind = inr (refl, λ e. cc)
regexp_newindex-regexp_index engine r other_key ind = inr (refl, λ e. cc)
