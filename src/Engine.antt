-- ===== src/Engine.antt =====
-- internal/authz/engine: the evaluator of relation checks over the stored tuples.
pub mod Model
pub mod Eval
pub mod Grants
pub mod Decides
pub mod Loops
pub mod Check
pub mod Errors
pub mod WellTyped
pub mod Inside
pub mod Company
pub mod Batch
