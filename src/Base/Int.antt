-- ===== src/Base/Int.antt =====
-- Go's signed integers: ℤ over the native numbers, and the wrap-around of a 64-bit result.
use Prim.Native.Nat.{ℕ, zero, suc, ◌+◌, ◌-◌, ◌*◌, ◌/◌, ◌%◌, ◌^◌, ◌≤◌, ◌<◌}
use mathlib.Core.Path.{◌≡◌}
use mathlib.Core.Bool.{Bool, true}
use mathlib.Core.Option.{Option, none, some}
use native.Mathlib.Omega.{arith}
use kokoro_scheduler.Base.Tests.{ltb, leb, if◌then◌else◌, ◌==◌}

-- `negsuc n` is -(n + 1).
pub data ℤ : Type 0 where
  pos : ℕ → ℤ
  negsuc : ℕ → ℤ

abbrev pub pos_part : ℤ → ℕ
pos_part (pos n) = n
pos_part (negsuc n) = 0

abbrev pub neg_part : ℤ → ℕ
neg_part (pos n) = 0
neg_part (negsuc n) = suc n

-- a - b, as an integer.
abbrev pub sub_ℕ : ℕ → ℕ → ℤ
sub_ℕ a b = if leb b a then pos (a - b) else negsuc (b - a - 1)

infix 50 ◌≤ℤ◌ ◌<ℤ◌
abbrev pub ◌≤ℤ◌ : ℤ → ℤ → Type 0
a ≤ℤ b = pos_part a + neg_part b ≤ pos_part b + neg_part a

abbrev pub ◌<ℤ◌ : ℤ → ℤ → Type 0
a <ℤ b = pos_part a + neg_part b < pos_part b + neg_part a

abbrev pub ltb_ℤ : ℤ → ℤ → Bool
ltb_ℤ a b = ltb (pos_part a + neg_part b) (pos_part b + neg_part a)

abbrev pub leb_ℤ : ℤ → ℤ → Bool
leb_ℤ a b = leb (pos_part a + neg_part b) (pos_part b + neg_part a)

abbrev pub eqb_ℤ : ℤ → ℤ → Bool
eqb_ℤ a b = pos_part a + neg_part b == pos_part b + neg_part a

infixl 70 ◌*ℤ◌
unfoldable pub ◌*ℤ◌ : ℤ → ℤ → ℤ
a *ℤ b =
    sub_ℕ (pos_part a * pos_part b + neg_part a * neg_part b)
      (pos_part a * neg_part b + neg_part a * pos_part b)

abbrev pub int64_half : ℕ
int64_half = 2 ^ 63

-- The int64 with the bits of the low 64 bits of an unsigned number.
unfoldable pub from_bits : ℕ → ℤ
from_bits n = let r = n % 2 ^ 64 in if ltb r int64_half then pos r else negsuc (2 ^ 64 - r - 1)

-- What is left of an integer in an int64.
unfoldable pub wrap64 : ℤ → ℤ
unfolding from_bits
wrap64 (pos n) = from_bits n
wrap64 (negsuc n) = from_bits (2 ^ 64 - suc n % 2 ^ 64)

-- `1 << k` in an int64.
unfoldable pub shl_one : ℕ → ℤ
unfolding from_bits
shl_one k = from_bits (2 ^ k)

-- Go's division truncates toward zero; `none` is the panic of a division by zero. The one quotient
-- that does not fit, the least int64 divided by -1, wraps around.
unfoldable pub quot64 : ℤ → ℤ → Option ℤ
unfolding wrap64
quot64 (pos a) (pos zero) = none
quot64 (negsuc a) (pos zero) = none
quot64 (pos a) (pos (suc b)) = some (pos (a / suc b))
quot64 (pos a) (negsuc b) = some (sub_ℕ 0 (a / suc b))
quot64 (negsuc a) (pos (suc b)) = some (sub_ℕ 0 (suc a / suc b))
quot64 (negsuc a) (negsuc b) = some (wrap64 (pos (suc a / suc b)))

-- A value that fits is left as it is.
pub wrap64-pos : (n : ℕ) → n < int64_half → wrap64 (pos n) ≡ pos n
unfolding wrap64
wrap64-pos n h = ground arith

pub eqb_ℤ→eq : (a b : ℤ) → eqb_ℤ a b ≡ true → a ≡ b
eqb_ℤ→eq a b h = ground arith

pub *ℤ-pos : (a b : ℕ) → pos a *ℤ pos b ≡ pos (a * b)
unfolding ◌*ℤ◌
*ℤ-pos a b = ground arith
