-- ===== src/Charts.antt =====
-- The charts of client/src/features/records/plots: the histogram of scores, the inputs for a range of
-- scores, the bars, rings and segments, and the translated reasons of validation-section.tsx.
pub mod Histogram
pub mod Ranges
pub mod Entries
pub mod Reasons
mod Tests
