-- ===== src/Net/Safe.antt =====
-- Which addresses are allowed as targets: an independent table of address ranges.
use kokoro_scheduler.Net.Address.{
  is_safe_target_address, prefix4, any_contains, dotted, is_global_unicast, is_safe_unmapped,
  is_private, v4, unmap, Prefix, is_loopback, reserved_target_prefixes, is_link_local_unicast, Addr,
  is_multicast, v4_head, prefix_contains, prefix6, grouped,
}
use kokoro_scheduler.Base.{ℕ, ◌^◌, ◌<◌, ◌≡◌, ◌≢◌, ◌⊎◌, true, false, List, [], ◌∷◌, arith, All}

-- The first and the last address of each range of IPv4 that is not public.
abbrev pub special_ranges : List (ℕ × ℕ)
special_ranges =
    (dotted 0 0 0 0, dotted 0 255 255 255)
    ∷ (dotted 10 0 0 0, dotted 10 255 255 255)
    ∷ (dotted 100 64 0 0, dotted 100 127 255 255)
    ∷ (dotted 127 0 0 0, dotted 127 255 255 255)
    ∷ (dotted 169 254 0 0, dotted 169 254 255 255)
    ∷ (dotted 172 16 0 0, dotted 172 31 255 255)
    ∷ (dotted 192 0 0 0, dotted 192 0 0 255)
    ∷ (dotted 192 0 2 0, dotted 192 0 2 255)
    ∷ (dotted 192 31 196 0, dotted 192 31 196 255)
    ∷ (dotted 192 52 193 0, dotted 192 52 193 255)
    ∷ (dotted 192 88 99 0, dotted 192 88 99 255)
    ∷ (dotted 192 168 0 0, dotted 192 168 255 255)
    ∷ (dotted 192 175 48 0, dotted 192 175 48 255)
    ∷ (dotted 198 18 0 0, dotted 198 19 255 255)
    ∷ (dotted 198 51 100 0, dotted 198 51 100 255)
    ∷ (dotted 203 0 113 0, dotted 203 0 113 255)
    ∷ (dotted 224 0 0 0, dotted 255 255 255 255)
    ∷ []

abbrev pub IsOutside : ℕ → ℕ × ℕ → Type 0
IsOutside n (low, high) = (n < low) ⊎ (high < n)

-- The parts of the test on an IPv4 address, each of them false.
record IsPublic (n : ℕ) : Type 0 where
  global : is_global_unicast (v4 n) ≡ true
  not_private : is_private (v4 n) ≡ false
  not_reserved : any_contains reserved_target_prefixes (v4 n) ≡ false

v4_parts : (n : ℕ) → is_safe_target_address (v4 n) ≡ true → IsPublic n
unfolding is_safe_target_address is_safe_unmapped unmap
v4_parts n h = ground arith

is_global_unicast-IsOutside :
    (n : ℕ)
    → is_global_unicast (v4 n) ≡ true
    → IsOutside n (dotted 127 0 0 0, dotted 127 255 255 255)
      × IsOutside n (dotted 169 254 0 0, dotted 169 254 255 255)
      × IsOutside n (dotted 224 0 0 0, dotted 239 255 255 255)
unfolding is_global_unicast is_loopback is_link_local_unicast is_multicast
is_global_unicast-IsOutside n h = ground arith

is_private-IsOutside :
    (n : ℕ)
    → is_private (v4 n) ≡ false
    → IsOutside n (dotted 10 0 0 0, dotted 10 255 255 255)
      × IsOutside n (dotted 172 16 0 0, dotted 172 31 255 255)
      × IsOutside n (dotted 192 168 0 0, dotted 192 168 255 255)
unfolding is_private
is_private-IsOutside n h = ground arith

-- An address is outside of a prefix that does not contain it.
outside_prefix :
    (n start bits : ℕ)
    → prefix_contains (prefix4 start bits) (v4 n) ≡ false
    → v4_head n bits ≢ v4_head start bits
unfolding prefix_contains
outside_prefix n start bits h = ground arith

any_contains_cons :
    (p : Prefix) (ps : List Prefix) (a : Addr)
    → any_contains (p ∷ ps) a ≡ false
    → (prefix_contains p a ≡ false) × (any_contains ps a ≡ false)
unfolding any_contains
any_contains_cons p ps a h = ground arith

-- The prefixes of IPv4 in `reservedTargetPrefixes`, with their lengths.
abbrev reserved_v4 : List (ℕ × ℕ)
reserved_v4 =
    (dotted 0 0 0 0, 8)
    ∷ (dotted 100 64 0 0, 10)
    ∷ (dotted 192 0 0 0, 24)
    ∷ (dotted 192 0 2 0, 24)
    ∷ (dotted 192 31 196 0, 24)
    ∷ (dotted 192 52 193 0, 24)
    ∷ (dotted 192 88 99 0, 24)
    ∷ (dotted 192 175 48 0, 24)
    ∷ (dotted 198 18 0 0, 15)
    ∷ (dotted 198 51 100 0, 24)
    ∷ (dotted 203 0 113 0, 24)
    ∷ (dotted 240 0 0 0, 4)
    ∷ []

abbrev IsNotIn : ℕ → ℕ × ℕ → Type 0
IsNotIn n (start, bits) = v4_head n bits ≢ v4_head start bits

abbrev with_v4 : List (ℕ × ℕ) → List Prefix → List Prefix
with_v4 [] rest = rest
with_v4 ((start, bits) ∷ ps) rest = prefix4 start bits ∷ with_v4 ps rest

outside_prefixes :
    (n : ℕ) (ps : List (ℕ × ℕ)) (rest : List Prefix)
    → any_contains (with_v4 ps rest) (v4 n) ≡ false
    → All (IsNotIn n) ps
outside_prefixes n [] rest h = tt
outside_prefixes n ((start, bits) ∷ ps) rest h =
    let (here, there) = any_contains_cons (prefix4 start bits) (with_v4 ps rest) (v4 n) h in
    (outside_prefix n start bits here, outside_prefixes n ps rest there)

abbrev reserved_v6 : List Prefix
reserved_v6 =
    prefix6 (grouped 0x2001 0x2) 48
    ∷ prefix6 (grouped 0x2001 0xdb8) 32
    ∷ prefix6 (grouped 0x2001 0x10) 28
    ∷ prefix6 (grouped 0x3fff 0) 20
    ∷ []

-- An IPv4 address that is allowed as a target is outside of every range that is private, local,
-- multicast, broadcast or reserved.
pub is_safe_target_address-IsOutside :
    (n : ℕ) → n < 2 ^ 32 → is_safe_target_address (v4 n) ≡ true → All (IsOutside n) special_ranges
is_safe_target_address-IsOutside n small h =
    let parts = v4_parts n h in
    let (loop, link, multi) = is_global_unicast-IsOutside n parts.global in
    let (ten, mid, low) = is_private-IsOutside n parts.not_private in
    let (
      zero_,
      (
        shared,
        (
          ietf,
          (test1, (as112, (amt, (relay, (as112', (bench, (test2, (test3, (future, end))))))))),
        ),
      ),
    ) =
      outside_prefixes n reserved_v4 reserved_v6 parts.not_reserved in
    (
      omega (arith, zero_),
      (
        ten,
        (
          omega (arith, shared),
          (
            loop,
            (
              link,
              (
                mid,
                (
                  omega (arith, ietf),
                  (
                    omega (arith, test1),
                    (
                      omega (arith, as112),
                      (
                        omega (arith, amt),
                        (
                          omega (arith, relay),
                          (
                            low,
                            (
                              omega (arith, as112'),
                              (
                                omega (arith, bench),
                                (
                                  omega (arith, test2),
                                  (omega (arith, test3), (omega (arith, multi, future), tt)),
                                ),
                              ),
                            ),
                          ),
                        ),
                      ),
                    ),
                  ),
                ),
              ),
            ),
          ),
        ),
      ),
    )
