-- ===== src/Net.antt =====
-- Addresses and URLs: what the program uses of the packages net/netip and net/url, and the rules of
-- internal/domain/schedule.go on the targets of a schedule.
pub mod Address
pub mod Target
pub mod Safe
