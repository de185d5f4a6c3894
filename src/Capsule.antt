-- ===== src/Capsule.antt =====
-- A model's turn inside a capsule: internal/capsule.
pub mod Json
pub mod Values
pub mod Canonical
pub mod Stream
pub mod Schema
pub mod Events
pub mod Responses
pub mod Compiling
pub mod Attempt
pub mod Creating
pub mod Methods
pub mod Session
pub mod Accounting
pub mod Counting
pub mod Accepted
pub mod Turns
pub mod Moves
pub mod Failing
pub mod Kept
pub mod Responding
pub mod Runs
pub mod Endings
pub mod Beginning
pub mod Shapes
pub mod Wire
pub mod Framing
mod Fixtures
mod Examples
mod Frames
