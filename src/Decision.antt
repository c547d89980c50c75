-- ===== src/Decision.antt =====
-- internal/authz/decision: the ordered effective-access decision.
pub mod Types
pub mod Evaluate
pub mod Gates
pub mod Batch
pub mod Shape
