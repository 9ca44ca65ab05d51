-- ===== src/Store/Jobs.antt =====
-- internal/store/queries.go: the table `jobs`.
pub mod Table
pub mod Marks
pub mod Edits
pub mod Queries
pub mod Listing
pub mod Ops
pub mod Updates
pub mod Invariant
pub mod Claims
pub mod Attempts
pub mod Lifecycle
pub mod Counts
