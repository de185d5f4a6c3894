-- ===== src/Pool.antt =====
-- The pool of capsule slots: internal/capsule/pool.go.
pub mod Slots
pub mod Machine
pub mod Counting
pub mod Invariant
pub mod Pending
pub mod Safety
pub mod Holding
pub mod Exclusion
pub mod Opening
pub mod Draining
pub mod Phases
pub mod Lifecycle
mod Examples
