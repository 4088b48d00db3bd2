-- ===== src/Jsregexp/Compile/Again.antt =====
-- An expression compiled again from its source and its flags, as `match_all` of jsregexp.lua does.
use plugged.Common.{
  Bool, Bool-cases, Option, [], ap, arith, false, if◌then◌else◌, inl, inr, none, refl, some, sym,
  true, ℕ, ◌∙◌, ◌∷◌, ◌≡◌, ◌⊎◌,
}
use plugged.Fzf.Chars.{Bytes}
use plugged.Jsregexp.Compile.{add_flag, has_fd, jsregexp_compile, no_flags, read_flags}
use plugged.Jsregexp.Engine.{Engine, Flags, Lua, compile_error, malformed_unicode, raised, returned}
use plugged.Jsregexp.Exec.{Regexp}
use plugged.Jsregexp.Fields.{regexp_pushflags}
use plugged.Jsregexp.Text.{utf8_contains_non_bmp}

-- What the bytecode keeps of the flags: with the flags that it reports, the expression compiles
-- to the same bytecode, and a `u` among the flags is among them.
abbrev pub KeepsFlags : Engine → Type 0
KeepsFlags engine =
    (expr : Bytes) (f : Flags) (bc : engine.Bytecode)
    → engine.lre_compile expr f ≡ inr bc
    → (engine.lre_compile expr (engine.lre_get_flags bc) ≡ inr bc)
      × (f.utf16 ≡ true → (engine.lre_get_flags bc).utf16 ≡ true)

add_flag-utf16 : (c : ℕ) (f : Flags) → f.utf16 ≡ true → (add_flag c f).utf16 ≡ true
unfolding add_flag
add_flag-utf16 c f h = ground arith

read_flags-utf16 : (cs : Bytes) (f : Flags) → f.utf16 ≡ true → (read_flags cs f).utf16 ≡ true
unfolding read_flags
read_flags-utf16 [] f h = h
read_flags-utf16 (c ∷ cs) f h = read_flags-utf16 cs (add_flag c f) (add_flag-utf16 c f h)

-- The letters of flags read over a `u` that the flags have.
read_over :
    (f : Flags) (wide : Bool)
    → (wide ≡ true → f.utf16 ≡ true)
    → read_flags (regexp_pushflags f) (record no_flags { utf16 = wide }) ≡ f
unfolding read_flags regexp_pushflags add_flag
read_over f wide h = ground arith

-- The flags that `jsregexp_compile` gives the engine.
abbrev flags_for : Bytes → Option Bytes → Flags
flags_for regexp none = record no_flags { utf16 = utf8_contains_non_bmp regexp }
flags_for regexp (some cs) =
    read_flags cs (record no_flags { utf16 = utf8_contains_non_bmp regexp })

flags_for-utf16 :
    (regexp : Bytes) (flags : Option Bytes)
    → utf8_contains_non_bmp regexp ≡ true
    → (flags_for regexp flags).utf16 ≡ true
flags_for-utf16 regexp none h = h
flags_for-utf16 regexp (some cs) h =
    read_flags-utf16 cs (record no_flags { utf16 = utf8_contains_non_bmp regexp }) h

-- What the engine makes of the flags is what the binding gives back.
abbrev compiled : (engine : Engine) → Bytes → Bytes ⊎ engine.Bytecode → Lua (Regexp engine)
compiled engine regexp (inl e) = raised (compile_error e)
compiled engine regexp (inr bc) = returned (record { expr = regexp; bc = bc; last_index = 0 })

compile_as :
    (engine : Engine) (regexp : Bytes) (flags : Option Bytes) (made : Bytes ⊎ engine.Bytecode)
    → engine.lre_compile regexp (flags_for regexp flags) ≡ made
    → jsregexp_compile engine regexp flags
      ≡ (if has_fd regexp then raised malformed_unicode else compiled engine regexp made)
unfolding jsregexp_compile
compile_as engine regexp none (inl x) e = rw e refl
compile_as engine regexp none (inr x) e = rw e refl
compile_as engine regexp (some cs) (inl x) e = rw e refl
compile_as engine regexp (some cs) (inr x) e = rw e refl

compile_back :
    (engine : Engine)
    → KeepsFlags engine
    → (regexp : Bytes) (flags : Option Bytes) (made : Bytes ⊎ engine.Bytecode)
    → engine.lre_compile regexp (flags_for regexp flags) ≡ made
    → has_fd regexp ≡ false
    → (r : Regexp engine) → compiled engine regexp made ≡ returned r
    → jsregexp_compile engine r.expr (some (regexp_pushflags (engine.lre_get_flags r.bc)))
      ≡ returned r
compile_back engine law regexp flags (inl x) e plain r back = cc
compile_back engine law regexp flags (inr bc) e plain r back =
    let same : record { expr = regexp; bc = bc; last_index = 0 } ≡ r = cc in
    let (stable, wide) = law regexp (flags_for regexp flags) bc e in
    let letters = regexp_pushflags (engine.lre_get_flags bc) in
    let read : flags_for regexp (some letters) ≡ engine.lre_get_flags bc =
      read_over (engine.lre_get_flags bc) (utf8_contains_non_bmp regexp)
        (λ h. wide (flags_for-utf16 regexp flags h)) in
    rw (sym same) (
      compile_as engine regexp (some letters) (inr bc)
        (ap (engine.lre_compile regexp) read ∙ stable)
      ∙ rw plain refl)

-- For an engine that compiles an expression to the same bytecode with the flags that the
-- bytecode reports, and that reports a `u` given, an expression that `jsregexp_compile` gives,
-- compiled again from its source and the letters of its flags, is the same expression with the
-- search at the start.
pub jsregexp_compile-again :
    (engine : Engine)
    → KeepsFlags engine
    → (regexp : Bytes) (flags : Option Bytes) (r : Regexp engine)
    → jsregexp_compile engine regexp flags ≡ returned r
    → jsregexp_compile engine r.expr (some (regexp_pushflags (engine.lre_get_flags r.bc)))
      ≡ returned r
jsregexp_compile-again engine law regexp flags r e =
    let made = engine.lre_compile regexp (flags_for regexp flags) in
    let e' = sym (compile_as engine regexp flags made refl) ∙ e in
    elim (Bool-cases (has_fd regexp)) [
      | inl fd ↦
          let malformed : Lua (Regexp engine) = raised malformed_unicode in
          let bad : malformed ≡ returned r = rw fd at e' in cc
      | inr plain ↦ compile_back engine law regexp flags made refl plain r (rw plain at e')
    ]
