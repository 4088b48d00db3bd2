-- ===== src/Jsregexp.antt =====
-- The Lua binding of a regular-expression engine: jsregexp.c and its earlier version.
pub mod Engine
pub mod Text
pub mod Exec
pub mod Call
pub mod Fields
pub mod Compile
pub mod Roundtrip
pub mod Captures
pub mod Bounds
pub mod Matches
pub mod Ascii
mod Tests
