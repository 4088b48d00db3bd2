-- ===== src/Fzf.antt =====
-- telescope-fzf-native.nvim/src/fzf.c and fzf.h: fuzzy matching, scoring and query parsing.
pub mod Chars
pub mod Positions
pub mod Slab
pub mod Subseq
pub mod Skip
pub mod Score
pub mod Fold
pub mod V1
pub mod Affix
pub mod Exact
pub mod V2
pub mod Pattern
pub mod Query
pub mod Samples
mod Tests
