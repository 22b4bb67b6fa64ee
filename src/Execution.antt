-- ===== src/Execution.antt =====
-- The WHERE clause of src/include/execution/predicate_evaluator.h.
pub mod Like
pub mod Predicate
mod Tests
