-- ===== src/Dispatcher.antt =====
-- internal/application/dispatcher.go: what becomes of a dispatch attempt.
pub mod Backoff
pub mod Decision
pub mod Retries
pub mod Draws
pub mod Process
pub mod Soundness
