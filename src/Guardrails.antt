-- ===== src/Guardrails.antt =====
-- What goes into and comes out of an agent's model: internal/agents/guardrails.go.
pub mod Initial
pub mod Selecting
pub mod Fitting
pub mod Drafts
pub mod Citing
mod Examples
