-- ===== src/Planner.antt =====
-- internal/application/planner.go: which occurrences of a claimed schedule are due, and when the
-- schedule is due next. Materialising the plans in the store is `Planner.Materialize`.
pub mod Plan
pub mod Order
pub mod Bounds
pub mod Materialize
pub mod Run
pub mod Overlap
pub mod Replay
pub mod Stale
pub mod Keys
pub mod Chain
