-- ===== src/Idempotency.antt =====
-- Requests that are carried out once: Execute (internal/idempotency/idempotency.go).
pub mod Execution
pub mod Replays
mod Examples
