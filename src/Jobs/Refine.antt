-- ===== src/Jobs/Refine.antt =====
-- The operations of internal/jobs/store.go refine the machine of Jobs/Machine.antt: each of them
-- takes the table `jobs` along its steps.
pub mod Enqueues
pub mod Writes
pub mod Permits
pub mod Cancels
pub mod Claims
pub mod Histories
