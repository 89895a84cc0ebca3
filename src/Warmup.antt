-- ===== src/Warmup.antt =====
-- The first exercise of the laboratory, warmup/: a sorted list of points, and a table of words.
pub mod Points
pub mod WordCount
mod Tests
