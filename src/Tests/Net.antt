-- ===== src/Tests/Net.antt =====
-- The theorems on target addresses at a public one.
use kokoro_scheduler.Base.{ℕ, ◌≡◌, refl, true, arith, All}
use kokoro_scheduler.Net.Safe.{IsOutside, special_ranges, is_safe_target_address-IsOutside}
use kokoro_scheduler.Net.Address.{
  dotted, v4, is_safe_target_address, is_safe_unmapped, unmap, is_global_unicast, is_loopback,
  is_private, is_unspecified, is_link_local_unicast, is_multicast, any_contains, prefix_contains,
}

abbrev resolver : ℕ
resolver = dotted 8 8 8 8

resolver-safe : is_safe_target_address (v4 resolver) ≡ true
unfolding is_safe_target_address is_safe_unmapped unmap is_global_unicast is_loopback is_private
    is_unspecified is_link_local_unicast is_multicast any_contains prefix_contains
resolver-safe = refl

is_safe_target_address-IsOutside_example : All (IsOutside resolver) special_ranges
is_safe_target_address-IsOutside_example =
    is_safe_target_address-IsOutside resolver (omega arith) resolver-safe
