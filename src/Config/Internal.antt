-- ===== src/Config/Internal.antt =====
-- The allow-list opens internal addresses only.
use native.Mathlib.Nat.{pow-zero, mul_comm, mul_assoc, pow-suc, add-suc, div-div-eq-div-mul}
use native.Mathlib.Decide.{dec_le}
use kokoro_scheduler.Base.{
  ℕ, zero, suc, ◌+◌, ◌-◌, ◌*◌, ◌/◌, ◌%◌, ◌^◌, ◌≤◌, ◌≡◌, refl, sym, ap, subst, ◌∙◌, ◌≢◌, ◌⊎◌, inl,
  inr, Bool, true, ◌||◌, [], arith, ◌==◌, Text, false, Bool-cases,
}
use kokoro_scheduler.Net.Address.{
  unmap, invalid_addr, mapped_prefix, Prefix, Addr, v4, v6, prefix4, prefix6, prefix_contains,
  v4_head, v6_head, dotted, grouped, is_private, is_loopback,
}
use kokoro_scheduler.Config.Allowlist.{
  prefix_eq, masked, is_internal_target_prefix, any_within, is_within, internal_target_prefixes,
}

abbrev pub is_internal : Addr → Bool
is_internal address = is_private address || is_loopback address

pow_add : (a m n : ℕ) → a ^ (m + n) ≡ a ^ m * a ^ n
pow_add a m zero = let e : m + 0 ≡ m = omega arith in rw (e, pow-zero a) (omega arith)
pow_add a m (suc n) =
    ap (λ (k : ℕ). a ^ k) (add-suc m n)
    ∙ pow-suc a (m + n)
    ∙ ap (λ (x : ℕ). x * a) (pow_add a m n)
    ∙ mul_assoc (a ^ m) (a ^ n) a
    ∙ ap (λ (x : ℕ). a ^ m * x) (sym (pow-suc a n))

-- Numbers with the same leading bits have the same fewer leading bits.
heads_shorter : (m n i j : ℕ) → i ≤ j → m / 2 ^ i ≡ n / 2 ^ i → m / 2 ^ j ≡ n / 2 ^ j
heads_shorter m n i j le same =
    let split_j : j ≡ i + (j - i) = omega arith in
    subst (λ (k : ℕ). m / 2 ^ k ≡ n / 2 ^ k) (sym split_j)
      (split_head m ∙ ap (λ (x : ℕ). x / 2 ^ (j - i)) same ∙ sym (split_head n))
  where
    split_head : (x : ℕ) → x / 2 ^ (i + (j - i)) ≡ x / 2 ^ i / 2 ^ (j - i)
    split_head x = rw (pow_add 2 i (j - i)) (sym (div-div-eq-div-mul x (2 ^ i) (2 ^ (j - i))))

contains4 :
    (start bits n : ℕ)
    → prefix_contains (prefix4 start bits) (v4 n) ≡ true
    → v4_head n bits ≡ v4_head start bits
unfolding prefix_contains
contains4 start bits n h = ground arith

contains6 :
    (start bits n : ℕ) (zone : Text)
    → prefix_contains (prefix6 start bits) (v6 n zone) ≡ true
    → v6_head n bits ≡ v6_head start bits
unfolding prefix_contains
contains6 start bits n zone h = ground arith

-- The ranges of IPv4 that a prefix may lie in, by its leading bits.
Inside4 : ℕ → ℕ → Type 0
Inside4 start bits =
    ((8 ≤ bits) × (v4_head start 8 ≡ 10))
    ⊎ (((12 ≤ bits) × (v4_head start 12 ≡ v4_head (dotted 172 16 0 0) 12))
        ⊎ (((16 ≤ bits) × (v4_head start 16 ≡ v4_head (dotted 192 168 0 0) 16))
            ⊎ ((8 ≤ bits) × (v4_head start 8 ≡ 127))))

within-Inside4 :
    (start bits : ℕ)
    → any_within internal_target_prefixes (v4 start) bits ≡ true
    → Inside4 start bits
unfolding any_within is_within prefix_contains Inside4
within-Inside4 start bits h = ground arith

Inside6 : ℕ → ℕ → Type 0
Inside6 start bits =
    ((7 ≤ bits) × (v6_head start 7 ≡ v6_head (grouped 0xfc00 0) 7))
    ⊎ ((128 ≤ bits) × (v6_head start 128 ≡ v6_head 1 128))

within-Inside6 :
    (start bits : ℕ)
    → any_within internal_target_prefixes (v6 start []) bits ≡ true
    → Inside6 start bits
unfolding any_within is_within prefix_contains Inside6
within-Inside6 start bits h = ground arith

internal4 :
    (start bits n : ℕ)
    → Inside4 start bits
    → v4_head n bits ≡ v4_head start bits
    → is_internal (v4 n) ≡ true
unfolding Inside4 is_private is_loopback
internal4 start bits n inside same =
    let shorter = λ (few : ℕ) (le : few ≤ bits).
      heads_shorter n start (32 - bits) (32 - few) (omega arith) same in
    elim inside [
      | inl (le, ten) ↦ ground (arith, shorter 8 le, ten)
      | inr (inl (le, mid)) ↦ ground (arith, shorter 12 le, mid)
      | inr (inr (inl (le, low))) ↦ ground (arith, shorter 16 le, low)
      | inr (inr (inr (le, loop))) ↦ ground (arith, shorter 8 le, loop)
    ]

internal6 :
    (start bits n : ℕ) (zone : Text)
    → Inside6 start bits
    → v6_head n bits ≡ v6_head start bits
    → is_internal (v6 n zone) ≡ true
unfolding Inside6 is_private is_loopback
internal6 start bits n zone inside same =
    let shorter = λ (few : ℕ) (le : few ≤ bits).
      heads_shorter n start (128 - bits) (128 - few) (omega arith) same in
    elim inside [
      | inl (le, local_) ↦ ground (arith, shorter 7 le, local_)
      | inr (le, loop) ↦ ground (arith, shorter 128 le, loop)
    ]

-- A canonical prefix whose address is IPv4 written as IPv6 has at least 96 bits.
mapped_bits :
    (start k : ℕ) → start / 2 ^ 32 ≡ mapped_prefix → start ≡ start / 2 ^ k * 2 ^ k → k ≤ 32
mapped_bits start k mapped whole = elim (dec_le k 32) [
  | yes le ↦ le
  | no more ↦
      let split_k : k ≡ 33 + (k - 33) = omega arith in
      let even : start ≡ start / 2 ^ k * 2 ^ (k - 33) * 2 ^ 33 =
        whole
        ∙ ap (λ (x : ℕ). start / 2 ^ k * x) (ap (λ (j : ℕ). 2 ^ j) split_k ∙ pow_add 2 33 (k - 33))
        ∙ ap (λ (x : ℕ). start / 2 ^ k * x) (mul_comm (2 ^ 33) (2 ^ (k - 33)))
        ∙ sym (mul_assoc (start / 2 ^ k) (2 ^ (k - 33)) (2 ^ 33)) in
      odd_head (start / 2 ^ k * 2 ^ (k - 33)) even
]
  where
    odd_head : (y : ℕ) → start ≡ y * 2 ^ 33 → k ≤ 32
    odd_head y e = omega (arith, mapped, e)

Unmapped : Addr → Type 0
Unmapped a =
    (a ≡ invalid_addr)
    ⊎ (((n : ℕ) × (a ≡ v4 n))
        ⊎ ((n : ℕ) × (zone : Text) × (a ≡ v6 n zone) × (n / 2 ^ 32 ≢ mapped_prefix)))

unmap-Unmapped : (a : Addr) → Unmapped (unmap a)
unfolding unmap Unmapped
unmap-Unmapped invalid_addr = inl refl
unmap-Unmapped (v4 n) = inr (inl (n, refl))
unmap-Unmapped (v6 n zone) = elim (Bool-cases (n / 2 ^ 32 == mapped_prefix)) [
  | inl mapped ↦ rw mapped (inr (inl (n % 2 ^ 32, refl)))
  | inr plain ↦ rw plain (inr (inr (n, zone, refl, ground (arith, plain))))
]

-- A prefix that the parser of the policy accepts.
abbrev pub IsAccepted : Prefix → Type 0
IsAccepted p = (prefix_eq p (masked p) ≡ true) × (is_internal_target_prefix p ≡ true)

masked6 :
    (start bits : ℕ)
    → prefix_eq (prefix6 start bits) (masked (prefix6 start bits)) ≡ true
    → start ≡ v6_head start bits * 2 ^ (128 - bits)
unfolding prefix_eq
masked6 start bits h = ground (arith, h)

-- A prefix of IPv6 with a mapped address holds mapped addresses only.
mapped_prefix-holds :
    (start bits n : ℕ)
    → start / 2 ^ 32 ≡ mapped_prefix
    → start ≡ v6_head start bits * 2 ^ (128 - bits)
    → v6_head n bits ≡ v6_head start bits
    → n / 2 ^ 32 ≡ mapped_prefix
mapped_prefix-holds start bits n mapped whole same =
    heads_shorter n start (128 - bits) 32 (mapped_bits start (128 - bits) mapped whole) same
    ∙ mapped

accepted4 :
    (start bits : ℕ) (a : Addr)
    → IsAccepted (prefix4 start bits)
    → Unmapped a
    → prefix_contains (prefix4 start bits) a ≡ true
    → is_internal a ≡ true
unfolding is_internal_target_prefix unmap Unmapped prefix_contains
accepted4 start bits a (whole, internal) kind h = elim kind [
  | inl e ↦ cc (rw e at h)
  | inr (inl (n, e)) ↦ rw e (
      internal4 start bits n (within-Inside4 start bits internal)
        (contains4 start bits n (rw e at h)))
  | inr (inr (n, zone, e, plain)) ↦ cc (rw e at h)
]

within6 :
    (start bits : ℕ)
    → start / 2 ^ 32 ≢ mapped_prefix
    → is_internal_target_prefix (prefix6 start bits) ≡ true
    → Inside6 start bits
unfolding is_internal_target_prefix unmap
within6 start bits plain h =
    let apart : (start / 2 ^ 32 == mapped_prefix) ≡ false = ground (arith, plain) in
    within-Inside6 start bits (rw apart at h)

accepted6 :
    (start bits : ℕ) (a : Addr)
    → IsAccepted (prefix6 start bits)
    → Unmapped a
    → prefix_contains (prefix6 start bits) a ≡ true
    → is_internal a ≡ true
unfolding Unmapped prefix_contains
accepted6 start bits a (whole, internal) kind h = elim kind [
  | inl e ↦ cc (rw e at h)
  | inr (inl (n, e)) ↦ cc (rw e at h)
  | inr (inr (n, zone, e, plain)) ↦
      let same = contains6 start bits n zone (rw e at h) in
      let whole' = masked6 start bits whole in
      rw e (
        internal6 start bits n zone
          (within6 start bits
            (λ mapped. plain (mapped_prefix-holds start bits n mapped whole' same)) internal)
          same)
]

-- Every address in an accepted prefix is internal, once an IPv4 address is not written as IPv6.
pub IsAccepted-internal :
    (p : Prefix) (a : Addr)
    → IsAccepted p
    → prefix_contains p (unmap a) ≡ true
    → is_internal (unmap a) ≡ true
IsAccepted-internal (prefix4 start bits) a v h =
    accepted4 start bits (unmap a) v (unmap-Unmapped a) h
IsAccepted-internal (prefix6 start bits) a v h =
    accepted6 start bits (unmap a) v (unmap-Unmapped a) h
