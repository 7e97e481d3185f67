-- ===== src/Config.antt =====
-- internal/config: the configuration of a process from its environment.
pub mod Allowlist
pub mod Internal
pub mod Opened
pub mod Database
pub mod Pinned
pub mod Load
pub mod Sound
