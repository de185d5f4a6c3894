-- ===== src/Jobs.antt =====
-- The durable job queue: internal/jobs, and the statements of internal/database/sqlc/jobs.sql.go.
pub mod Types
pub mod Tables
pub mod Queries
pub mod Eligible
pub mod Store
pub mod Claim
pub mod Runs
pub mod Machine
pub mod Selection
pub mod Keys
pub mod Refine
pub mod Claiming
pub mod OperationKeys
pub mod Terminal
pub mod Recovering
pub mod Outcomes
pub mod WellFormed
mod Examples
mod Purging
pub mod Tracking
