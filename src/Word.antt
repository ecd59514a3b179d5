-- ===== src/Word.antt =====
-- Machine words as native numbers: the laws of `&` and `|` on bit fields, and the counts of zeros
-- and ones that `usize` has as methods.
pub mod Digits
pub mod Fields
pub mod Powers
pub mod Counts
