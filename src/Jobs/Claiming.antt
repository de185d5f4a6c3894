-- ===== src/Jobs/Claiming.antt =====
-- What Claim of internal/jobs/store.go comes to.
pub mod Leases
pub mod Rounds
