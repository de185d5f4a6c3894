-- ===== src/Budget.antt =====
-- The token budget of a model request: internal/modelbudget/budget.go.
pub mod Search
pub mod Truncation
pub mod Boundaries
pub mod Longest
pub mod Window
mod Examples
