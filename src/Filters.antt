-- ===== src/Filters.antt =====
-- client/src/features/records/use-record-filters.ts (the filter state in the URL and its
-- operations), the search types of client/src/features/records/types.ts, and `countActiveFilters`
-- of client/src/features/records/records-page.tsx.
--
-- Scores are floating-point numbers of the program: a type `S` with the operations that the code
-- uses. `setFilters` of nuqs merges the given keys into the state, which is a record update here.
mod Types
mod Operations
pub mod Requests
pub mod Arrays
pub mod Tests
pub use Types.*
unfoldable pub use Operations.*
