-- ===== src/Presentation.antt =====
-- How an answer is shown on Discord: internal/discord/presentation.go.
pub mod Splitting
pub mod Points
pub mod Fences
pub mod Cuts
pub mod Messages
pub mod Stuck
pub mod Prose
mod Examples
