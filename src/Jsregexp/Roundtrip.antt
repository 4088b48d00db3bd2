-- ===== src/Jsregexp/Roundtrip.antt =====
-- Flags printed and read again, and the place of the next search written and read.
use plugged.Common.{[], arith, refl, ◌++◌, ◌∷◌, ◌≡◌}
use plugged.Fzf.Chars.{Bytes}
use plugged.Jsregexp.Compile.{add_flag, no_flags, read_flags}
use plugged.Jsregexp.Engine.{Flags}
use plugged.Jsregexp.Fields.{regexp_pushflags}

read_flags-append :
    (xs ys : Bytes) (f : Flags) → read_flags (xs ++ ys) f ≡ read_flags ys (read_flags xs f)
unfolding read_flags
read_flags-append [] ys f = refl
read_flags-append (x ∷ xs) ys f = read_flags-append xs ys (add_flag x f)

-- Reading the letters that `regexp_pushflags` prints, starting from no flags, gives the same
-- flags.
pub read_flags-regexp_pushflags : (f : Flags) → read_flags (regexp_pushflags f) no_flags ≡ f
unfolding read_flags regexp_pushflags add_flag
read_flags-regexp_pushflags f = ground arith
