-- ===== src/Domain.antt =====
-- internal/domain: the values that the other packages share and their rules.
pub mod Time
pub mod Retry
pub mod Schedule
pub mod Occurrence
pub mod Identity
pub mod Checks
pub mod Normalized
pub mod Acceptable
