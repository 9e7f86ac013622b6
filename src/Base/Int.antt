-- ===== src/Base/Int.antt =====
-- Signed integers over the native numbers, under the library's names: `negsuc n` is -(n + 1).
use Prim.Native.Nat.{ℕ, suc, ◌+◌, ◌-◌, ◌*◌, ◌/◌, ◌%◌, ◌^◌, ◌<◌}
use mathlib.Core.Path.{◌≡◌}
use mathlib.Core.Bool.{Bool, true, false}
use native.Mathlib.Omega.{arith}
use shvc.Base.Tests.{leb, ◌==◌, if◌then◌else◌}

pub data ℤ : Type 0 where
  pos : ℕ → ℤ
  negsuc : ℕ → ℤ

abbrev pub pos_part : ℤ → ℕ
pos_part (pos n) = n
pos_part (negsuc n) = 0

abbrev pub neg_part : ℤ → ℕ
neg_part (pos n) = 0
neg_part (negsuc n) = suc n

-- The magnitude: what `v < 0 ? -v : v` leaves in an unsigned variable.
abbrev pub nat_abs : ℤ → ℕ
nat_abs (pos n) = n
nat_abs (negsuc n) = suc n

abbrev pub is_neg : ℤ → Bool
is_neg (pos n) = false
is_neg (negsuc n) = true

-- The integer of a sign and a magnitude; there is no -0.
abbrev pub of_sign : Bool → ℕ → ℤ
of_sign s n = if s then (if n == 0 then pos 0 else negsuc (n - 1)) else pos n

-- a - b, as an integer.
abbrev pub sub_ℕ : ℕ → ℕ → ℤ
sub_ℕ a b = if leb b a then pos (a - b) else negsuc (b - a - 1)

infixl 65 ◌+ℤ◌ ◌-ℤ◌
infixl 70 ◌*ℤ◌
unfoldable pub ◌+ℤ◌ : ℤ → ℤ → ℤ
a +ℤ b = sub_ℕ (pos_part a + pos_part b) (neg_part a + neg_part b)

unfoldable pub ◌-ℤ◌ : ℤ → ℤ → ℤ
a -ℤ b = sub_ℕ (pos_part a + neg_part b) (neg_part a + pos_part b)

-- An integer times a natural number.
unfoldable pub ◌*ℤ◌ : ℤ → ℕ → ℤ
a *ℤ n = of_sign (is_neg a) (nat_abs a * n)

-- C's `/` and `%` by a positive divisor: both round towards zero.
unfoldable pub quot : ℤ → ℕ → ℤ
quot a n = of_sign (is_neg a) (nat_abs a / n)

unfoldable pub rem : ℤ → ℕ → ℤ
rem a n = of_sign (is_neg a) (nat_abs a % n)

-- The low bits of the two's complement pattern: `a & (2 ^ w - 1)`.
unfoldable pub low_bits : ℤ → ℕ → ℕ
low_bits (pos n) w = n % 2 ^ w
low_bits (negsuc n) w = 2 ^ w - 1 - n % 2 ^ w

-- `intmax_t`, less its lowest value: the range in which `-v` does not overflow.
abbrev pub IsInt64 : ℤ → Type 0
IsInt64 v = nat_abs v < 2 ^ 63

pub of_sign_abs : (v : ℤ) → of_sign (is_neg v) (nat_abs v) ≡ v
of_sign_abs v = ground arith
