-- ===== src/Filters.antt =====
-- Which files of a repository are documentation sources: internal/sourcegit/filter.go.
pub mod Matching
pub mod Closing
pub mod Globs
pub mod Verdicts
pub mod Permitting
pub mod Partition
pub mod Parting
pub mod Reading
pub mod Limits
mod Examples
