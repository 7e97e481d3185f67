-- ===== src/Net/Address.antt =====
-- The package net/netip, as far as it is used, and `IsSafeTargetAddress` of
-- internal/domain/schedule.go. An address is its number; an IPv6 address may carry a zone.
use kokoro_scheduler.Base.{
  ℕ, ◌+◌, ◌-◌, ◌*◌, ◌/◌, ◌%◌, ◌^◌, Bool, true, false, not, ◌&&◌, ◌||◌, List, [], ◌∷◌, if◌then◌else◌,
  ◌==◌, Text, is_empty,
}

pub data Addr : Type 0 where
  invalid_addr : Addr
  v4 : ℕ → Addr
  v6 : ℕ → Text → Addr

-- `::ffff:0:0/96`, the IPv4 addresses that are written as IPv6.
abbrev pub mapped_prefix : ℕ
mapped_prefix = 0xffff

-- `addr.Unmap()`.
unfoldable pub unmap : Addr → Addr
unmap invalid_addr = invalid_addr
unmap (v4 n) = v4 n
unmap (v6 n zone) = if n / 2 ^ 32 == mapped_prefix then v4 (n % 2 ^ 32) else v6 n zone

-- `addr.Zone() != ""`.
abbrev pub has_zone : Addr → Bool
has_zone invalid_addr = false
has_zone (v4 n) = false
has_zone (v6 n zone) = not (is_empty zone)

abbrev pub is_valid_addr : Addr → Bool
is_valid_addr invalid_addr = false
is_valid_addr (v4 n) = true
is_valid_addr (v6 n zone) = true

-- The first `bits` bits of an address, as a number.
abbrev pub v4_head : ℕ → ℕ → ℕ
v4_head n bits = n / 2 ^ (32 - bits)

abbrev pub v6_head : ℕ → ℕ → ℕ
v6_head n bits = n / 2 ^ (128 - bits)

-- A masked prefix: the address that it starts with, and its length in bits.
pub data Prefix : Type 0 where
  prefix4 : ℕ → ℕ → Prefix
  prefix6 : ℕ → ℕ → Prefix

-- `prefix.Contains(addr)`: an address with a zone is in no prefix.
unfoldable pub prefix_contains : Prefix → Addr → Bool
prefix_contains (prefix4 start bits) (v4 n) = v4_head n bits == v4_head start bits
prefix_contains (prefix4 start bits) (v6 n zone) = false
prefix_contains (prefix4 start bits) invalid_addr = false
prefix_contains (prefix6 start bits) (v6 n zone) =
    is_empty zone && v6_head n bits == v6_head start bits
prefix_contains (prefix6 start bits) (v4 n) = false
prefix_contains (prefix6 start bits) invalid_addr = false

-- The address a.b.c.d.
abbrev pub dotted : ℕ → ℕ → ℕ → ℕ → ℕ
dotted a b c d = a * 2 ^ 24 + b * 2 ^ 16 + c * 2 ^ 8 + d

-- The IPv6 address whose first two groups of 16 bits are given, and whose others are zero.
abbrev pub grouped : ℕ → ℕ → ℕ
grouped a b = a * 2 ^ 112 + b * 2 ^ 96

-- The tests of `netip.Addr`, on addresses that are not IPv4 written as IPv6.
unfoldable pub is_loopback : Addr → Bool
is_loopback invalid_addr = false
is_loopback (v4 n) = v4_head n 8 == 127
is_loopback (v6 n zone) = n == 1

unfoldable pub is_private : Addr → Bool
is_private invalid_addr = false
is_private (v4 n) =
    v4_head n 8 == 10
    || v4_head n 12 == v4_head (dotted 172 16 0 0) 12
    || v4_head n 16 == v4_head (dotted 192 168 0 0) 16
is_private (v6 n zone) = v6_head n 7 == v6_head (grouped 0xfc00 0) 7

-- `::%zone` is not the unspecified address.
unfoldable pub is_unspecified : Addr → Bool
is_unspecified invalid_addr = false
is_unspecified (v4 n) = n == 0
is_unspecified (v6 n zone) = n == 0 && is_empty zone

unfoldable pub is_link_local_unicast : Addr → Bool
is_link_local_unicast invalid_addr = false
is_link_local_unicast (v4 n) = v4_head n 16 == v4_head (dotted 169 254 0 0) 16
is_link_local_unicast (v6 n zone) = v6_head n 10 == v6_head (grouped 0xfe80 0) 10

unfoldable pub is_multicast : Addr → Bool
is_multicast invalid_addr = false
is_multicast (v4 n) = v4_head n 4 == v4_head (dotted 224 0 0 0) 4
is_multicast (v6 n zone) = v6_head n 8 == v6_head (grouped 0xff00 0) 8

abbrev pub is_broadcast : Addr → Bool
is_broadcast invalid_addr = false
is_broadcast (v4 n) = n == dotted 255 255 255 255
is_broadcast (v6 n zone) = false

unfoldable pub is_global_unicast : Addr → Bool
is_global_unicast a =
    is_valid_addr a
    && not (
        is_unspecified a
        || is_broadcast a
        || is_loopback a
        || is_multicast a
        || is_link_local_unicast a)

-- `reservedTargetPrefixes`.
abbrev pub reserved_target_prefixes : List Prefix
reserved_target_prefixes =
    prefix4 (dotted 0 0 0 0) 8
    ∷ prefix4 (dotted 100 64 0 0) 10
    ∷ prefix4 (dotted 192 0 0 0) 24
    ∷ prefix4 (dotted 192 0 2 0) 24
    ∷ prefix4 (dotted 192 31 196 0) 24
    ∷ prefix4 (dotted 192 52 193 0) 24
    ∷ prefix4 (dotted 192 88 99 0) 24
    ∷ prefix4 (dotted 192 175 48 0) 24
    ∷ prefix4 (dotted 198 18 0 0) 15
    ∷ prefix4 (dotted 198 51 100 0) 24
    ∷ prefix4 (dotted 203 0 113 0) 24
    ∷ prefix4 (dotted 240 0 0 0) 4
    ∷ prefix6 (grouped 0x2001 0x2) 48
    ∷ prefix6 (grouped 0x2001 0xdb8) 32
    ∷ prefix6 (grouped 0x2001 0x10) 28
    ∷ prefix6 (grouped 0x3fff 0) 20
    ∷ []

unfoldable pub any_contains : List Prefix → Addr → Bool
any_contains [] a = false
any_contains (p ∷ ps) a = prefix_contains p a || any_contains ps a

unfoldable pub is_safe_unmapped : Addr → Bool
is_safe_unmapped a =
    is_global_unicast a
    && not (is_loopback a || is_private a || is_unspecified a || is_link_local_unicast a)
    && not (is_multicast a)
    && not (any_contains reserved_target_prefixes a)

-- `IsSafeTargetAddress`.
unfoldable pub is_safe_target_address : Addr → Bool
is_safe_target_address a = is_valid_addr a && not (has_zone a) && is_safe_unmapped (unmap a)
