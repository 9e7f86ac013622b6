-- ===== src/ChainPack/Unpack/Datetime.antt =====
-- The number of a date and time, both ways.
use shvc.Base.{
  ℕ, ◌+◌, ◌-◌, ◌*◌, ◌/◌, ◌%◌, ◌^◌, ◌≤◌, ◌<◌, ◌≡◌, refl, ap, ◌∙◌, arith, ◌==◌, not, Bool, true,
  false, Bool-cases, inl, inr,
}
use shvc.Base.{ℤ, IsInt64, pos, negsuc, ◌+ℤ◌, ◌-ℤ◌, ◌*ℤ◌, quot, rem, low_bits, if◌then◌else◌}
use shvc.CpItem.{Value}
use shvc.ChainPack.Pack.{epoch_msec, datetime_number}
use shvc.ChainPack.Unpack.{sign_extend7, datetime_value}

-- A count of quarters of an hour that seven bits hold.
abbrev pub IsQuarters : ℤ → Type 0
IsQuarters (pos n) = n < 64
IsQuarters (negsuc n) = n < 64

sign_extend7-low_bits : (q : ℤ) → IsQuarters q → sign_extend7 (low_bits q 7) ≡ q
unfolding sign_extend7 low_bits
sign_extend7-low_bits (pos n) h = ground arith
sign_extend7-low_bits (negsuc n) h = ground arith

quot-mul : (q : ℤ) → quot (q *ℤ 15) 15 ≡ q
unfolding quot ◌*ℤ◌
quot-mul (pos n) = ground arith
quot-mul (negsuc n) = ground arith

low_bits-zero : (q : ℤ) → IsQuarters q → low_bits q 7 ≡ 0 → q ≡ pos 0
unfolding low_bits
low_bits-zero (pos n) h e = ground arith
low_bits-zero (negsuc n) h e = absurd (omega arith)

-- The number packed for `x` milliseconds behind the epoch and the zone bits `z`.
number : ℕ → ℕ → ℕ
number x z =
    (if z == 0
        then (if x % 1000 == 0 then x / 1000 else x)
        else (if x % 1000 == 0 then x / 1000 else x) * 128 + z)
      * 4
    + ((if z == 0 then 0 else 1) + (if x % 1000 == 0 then 2 else 0))

epoch_back : (x : ℕ) → pos (epoch_msec + x) -ℤ pos epoch_msec ≡ pos x
unfolding ◌-ℤ◌
epoch_back x = ground arith

rem-pos : (x : ℕ) → rem (pos x) 1000 ≡ pos (x % 1000)
unfolding rem
rem-pos x = refl

quot-pos : (x : ℕ) → quot (pos x) 1000 ≡ pos (x / 1000)
unfolding quot
quot-pos x = refl

mul-pos : (x n : ℕ) → pos x *ℤ n ≡ pos (x * n)
unfolding ◌*ℤ◌
mul-pos x n = refl

add-pos : (x y : ℕ) → pos x +ℤ pos y ≡ pos (x + y)
unfolding ◌+ℤ◌
add-pos x y = ground arith

if-pos : (b : Bool) (x y : ℕ) → (if b then pos x else pos y) ≡ pos (if b then x else y)
if-pos true x y = refl
if-pos false x y = refl

if-not : (b : Bool) (x y : ℕ) → (if not b then x else y) ≡ (if b then y else x)
if-not true x y = refl
if-not false x y = refl

datetime_number-number :
    (x : ℕ) (q : ℤ)
    → datetime_number (pos (epoch_msec + x)) (q *ℤ 15) ≡ pos (number x (low_bits q 7))
unfolding datetime_number number
datetime_number-number x q =
    simp (epoch_back, quot-mul, rem-pos, quot-pos, mul-pos, add-pos, if-pos, if-not)

datetime_value-number :
    (x : ℕ) (z : ℕ)
    → z < 128
    → datetime_value (pos (number x z))
      ≡ Value.datetime (pos (epoch_msec + x)) (if z == 0 then pos 0 else sign_extend7 z *ℤ 15)
unfolding number datetime_value
datetime_value-number x z h = ground arith

low_bits-lt : (q : ℤ) → low_bits q 7 < 128
unfolding low_bits
low_bits-lt (pos n) = omega arith
low_bits-lt (negsuc n) = omega arith

zone_back :
    (q : ℤ)
    → IsQuarters q
    → (if low_bits q 7 == 0 then pos 0 else sign_extend7 (low_bits q 7) *ℤ 15) ≡ q *ℤ 15
zone_back q h = elim (Bool-cases (low_bits q 7 == 0)) [
  | inl e ↦ rw (e, low_bits-zero q h (ground arith)) (unfold ◌*ℤ◌ in refl)
  | inr e ↦ rw (e, sign_extend7-low_bits q h)
]

-- The unpacker gives back the time that was packed, from the format's epoch on, at an offset of
-- whole quarters of an hour.
pub datetime_value-datetime_number :
    (x : ℕ) (q : ℤ)
    → IsQuarters q
    → datetime_value (datetime_number (pos (epoch_msec + x)) (q *ℤ 15))
      ≡ Value.datetime (pos (epoch_msec + x)) (q *ℤ 15)
datetime_value-datetime_number x q h =
    ap datetime_value (datetime_number-number x q)
    ∙ datetime_value-number x (low_bits q 7) (low_bits-lt q)
    ∙ ap (λ (o : ℤ). Value.datetime (pos (epoch_msec + x)) o) (zone_back q h)

number-lt : (x z : ℕ) → x < 2 ^ 53 → z < 128 → number x z < 2 ^ 63
unfolding number
number-lt x z h k = ground arith

-- The number of a time of the next 285,000 years fits an `int64_t`.
pub datetime_number-IsInt64 :
    (x : ℕ) (q : ℤ) → x < 2 ^ 53 → IsInt64 (datetime_number (pos (epoch_msec + x)) (q *ℤ 15))
datetime_number-IsInt64 x q h =
    rw datetime_number-number (number-lt x (low_bits q 7) h (low_bits-lt q))

-- The number for `k` whole seconds before the epoch.
before_epoch :
    (k : ℕ)
    → 0 < k
    → 1000 * k ≤ epoch_msec
    → datetime_number (pos (epoch_msec - 1000 * k)) (pos 0) ≡ negsuc (4 * k - 3)
unfolding datetime_number ◌+ℤ◌ ◌-ℤ◌ ◌*ℤ◌ quot rem low_bits
before_epoch k h e = ground arith

-- A time of whole seconds before the format's epoch (2 February 2018) comes back one second late:
-- the packer's flags make the number's division by four round up.
pub datetime_before_epoch :
    (k : ℕ)
    → 0 < k
    → 1000 * k ≤ epoch_msec
    → datetime_value (datetime_number (pos (epoch_msec - 1000 * k)) (pos 0))
      ≡ Value.datetime (pos (epoch_msec - 1000 * k + 1000)) (pos 0)
unfolding datetime_value
datetime_before_epoch k h e = rw (before_epoch k h e) (ground arith)
