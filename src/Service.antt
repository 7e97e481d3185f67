-- ===== src/Service.antt =====
-- internal/application/commands.go: the commands on schedules and their idempotent execution.
pub mod Command
pub mod Get
pub mod Prepare
pub mod Ready
pub mod Stored
pub mod Timed
pub mod Found
pub mod Kept
pub mod Sound
pub mod Idempotency
