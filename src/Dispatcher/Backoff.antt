-- ===== src/Dispatcher/Backoff.antt =====
-- internal/application/dispatcher.go: `retryBackoff`, with the int64 arithmetic of `time.Duration`.
use native.Mathlib.Nat.{div-lt_iff_lt-mul, div-add-mod}
use kokoro_scheduler.Base.{
  ◌/◌, ap, ◌∙◌, inl, inr, Bool-cases, *ℤ-pos, wrap64-pos, ℕ, zero, suc, ◌-◌, ◌*◌, ◌^◌, ◌≤◌, ◌<◌,
  min, ◌≡◌, refl, Option, none, some, arith, if◌then◌else◌, ℤ, pos, shl_one, leb_ℤ, ◌*ℤ◌, wrap64,
  quot64, ltb_ℤ, int64_half, pos_part,
}
use kokoro_scheduler.Domain.Time.{Duration, second}
use kokoro_scheduler.Domain.Retry.{RetryPolicy, IsValidPolicy}

-- `time.Duration(seconds) * time.Second`.
unfoldable pub seconds_duration : ℤ → Duration
seconds_duration n = wrap64 (n *ℤ pos second)

abbrev pub min_ℤ : ℤ → ℤ → ℤ
min_ℤ a b = if leb_ℤ a b then a else b

-- What follows the two durations in `retryBackoff`. `none` is the panic of a division by zero.
unfoldable pub scale_backoff : Duration → Duration → Duration → Option Duration
scale_backoff base maximum multiplier =
    if leb_ℤ maximum base then some maximum else elim (quot64 maximum multiplier) [
      | none ↦ none
      | some q ↦
          some (if ltb_ℤ q base then maximum else min_ℤ (wrap64 (base *ℤ multiplier)) maximum)
    ]

-- `attempt - 1` stops at 0, as `max(attempt-1, 0)` does.
unfoldable pub retry_backoff : RetryPolicy → ℕ → Option Duration
unfolding seconds_duration scale_backoff
retry_backoff p attempt =
    scale_backoff (seconds_duration p.backoff_seconds) (seconds_duration p.max_backoff_seconds)
      (shl_one (attempt - 1))

-- The reference: exponential back-off in seconds, capped.
abbrev pub capped_backoff : ℕ → ℕ → ℕ → ℕ
capped_backoff backoff max_backoff attempt = min (backoff * 2 ^ (attempt - 1)) max_backoff

-- The powers that a valid policy reaches.
pub shl_one-small : (j : ℕ) → j < 10 → (shl_one j ≡ pos (2 ^ j)) × (1 ≤ 2 ^ j) × (2 ^ j ≤ 512)
unfolding shl_one
shl_one-small zero h = (refl, omega arith, omega arith)
shl_one-small (suc zero) h = (refl, omega arith, omega arith)
shl_one-small (suc (suc zero)) h = (refl, omega arith, omega arith)
shl_one-small (suc (suc (suc zero))) h = (refl, omega arith, omega arith)
shl_one-small (suc (suc (suc (suc zero)))) h = (refl, omega arith, omega arith)
shl_one-small (suc (suc (suc (suc (suc zero))))) h = (refl, omega arith, omega arith)
shl_one-small (suc (suc (suc (suc (suc (suc zero)))))) h = (refl, omega arith, omega arith)
shl_one-small (suc (suc (suc (suc (suc (suc (suc zero))))))) h = (refl, omega arith, omega arith)
shl_one-small (suc (suc (suc (suc (suc (suc (suc (suc zero)))))))) h =
    (refl, omega arith, omega arith)
shl_one-small (suc (suc (suc (suc (suc (suc (suc (suc (suc zero))))))))) h =
    (refl, omega arith, omega arith)
shl_one-small (suc (suc (suc (suc (suc (suc (suc (suc (suc (suc j)))))))))) h = absurd (omega arith)

pub seconds_duration-pos : (n : ℕ) → n ≤ 86400 → seconds_duration (pos n) ≡ pos (n * second)
unfolding seconds_duration ◌*ℤ◌ wrap64
seconds_duration-pos n h = ground arith

-- The guarded multiplication is the capped product.
scale_backoff-pos :
    (b m k : ℕ)
    → 1 ≤ k
    → m < int64_half
    → scale_backoff (pos b) (pos m) (pos k) ≡ some (pos (min (b * k) m))
unfolding scale_backoff quot64
scale_backoff-pos b m zero h fits = absurd (omega arith)
scale_backoff-pos b m (suc k) h fits = elim (Bool-cases (leb_ℤ (pos m) (pos b))) [
  | inl capped ↦
      let low : m ≤ b = ground arith in rw capped (ap (λ (n : ℕ). some (pos n)) (grind arith))
  | inr below ↦ elim (Bool-cases (ltb_ℤ (pos (m / suc k)) (pos b))) [
    | inl over ↦
        let less : m < b * suc k =
          (div-lt_iff_lt-mul {k = suc k} {x = m} {y = b} (omega arith)).0 (ground arith) in
        rw (below, over) (ap (λ (n : ℕ). some (pos n)) (omega arith))
    | inr within ↦
        let fit : b * suc k ≤ m = product_fits (ground arith) in
        rw (below, within, *ℤ-pos b (suc k), wrap64-pos (b * suc k) (omega arith)) (ground arith)
  ]
]
  where
    product_fits : b ≤ m / suc k → b * suc k ≤ m
    product_fits le = grind (arith, div-add-mod m (suc k))

retry_backoff_parts :
    (p : RetryPolicy) (attempt : ℕ)
    → retry_backoff p attempt
      ≡ scale_backoff
          (seconds_duration p.backoff_seconds)
          (seconds_duration p.max_backoff_seconds)
          (shl_one (attempt - 1))
unfolding retry_backoff
retry_backoff_parts p attempt = refl

-- On a valid policy, and within the ten attempts that a policy allows, `retryBackoff` neither
-- overflows nor panics: it is the exponential back-off in seconds, capped at the maximum.
pub retry_backoff_lem :
    (p : RetryPolicy) (attempt : ℕ)
    → IsValidPolicy p
    → attempt ≤ 10
    → retry_backoff p attempt
      ≡ some (
          pos (
            capped_backoff (pos_part p.backoff_seconds) (pos_part p.max_backoff_seconds) attempt
            * second))
retry_backoff_lem p attempt v few =
    let b = pos_part p.backoff_seconds in
    let m = pos_part p.max_backoff_seconds in
    let eb : p.backoff_seconds ≡ pos b = ground (arith, v) in
    let em : p.max_backoff_seconds ≡ pos m = ground (arith, v) in
    let base = ap seconds_duration eb ∙ seconds_duration-pos b (ground (arith, v)) in
    let maximum = ap seconds_duration em ∙ seconds_duration-pos m (ground (arith, v)) in
    let (power, low, high) = shl_one-small (attempt - 1) (omega arith) in
    let scaled =
      scale_backoff-pos (b * second) (m * second) (2 ^ (attempt - 1)) low (ground (arith, v)) in
    rw (retry_backoff_parts p attempt, base, maximum, power, scaled)
      (ap (λ (n : ℕ). some (pos n)) (omega arith))
