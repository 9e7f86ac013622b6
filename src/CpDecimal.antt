-- ===== src/CpDecimal.antt =====
-- cpdecnorm and cpdecexp of libshvcp/cpdecimal.c, on struct cpdecimal of include/shv/cp.h.
pub mod Norm
pub mod Exponent
mod Runs
use shvc.Base.{ℕ, zero, suc, ◌-◌, ◌^◌, Bool, true, false, ◌==◌, ◌||◌, ltb, if◌then◌else◌}
use shvc.Base.{ℤ, pos, negsuc, ◌+ℤ◌, ◌-ℤ◌, ◌*ℤ◌, quot, rem, nat_abs, is_neg}

-- struct cpdecimal.
pub record CpDecimal : Type 0 where
  pub mantissa : ℤ
  pub exponent : ℤ

-- `while (v->mantissa % 10 == 0)` by fuel: the magnitude of a mantissa that is not zero falls.
unfoldable pub dec_loop : ℕ → CpDecimal → CpDecimal
unfolding quot rem ◌+ℤ◌
dec_loop zero v = v
dec_loop (suc fuel) v =
    let rest =
      dec_loop fuel (record { mantissa = quot v.mantissa 10; exponent = v.exponent +ℤ pos 1 }) in
    if nat_abs (rem v.mantissa 10) == 0 then rest else v

-- cpdecnorm.
unfoldable pub cpdecnorm : CpDecimal → CpDecimal
unfolding dec_loop
cpdecnorm v =
    if nat_abs v.mantissa == 0
    then record v { exponent = pos 0 }
    else dec_loop (nat_abs v.mantissa) v

-- Whether a `long long` holds the number: what `__builtin_smulll_overflow` denies of a product.
unfoldable pub fits_int64 : ℤ → Bool
fits_int64 (pos n) = ltb n (2 ^ 63)
fits_int64 (negsuc n) = ltb n (2 ^ 63)

-- One round, for a mantissa that is not zero and an exponent that is not the one wanted; none is an
-- overflow. `up` is `neg > 0`.
unfoldable pub exp_round : Bool → CpDecimal → Bool × CpDecimal
unfolding fits_int64 quot ◌*ℤ◌ ◌+ℤ◌ ◌-ℤ◌
exp_round true v = (true, record { mantissa = quot v.mantissa 10; exponent = v.exponent +ℤ pos 1 })
exp_round false v =
    if fits_int64 (v.mantissa *ℤ 10)
    then (true, record { mantissa = v.mantissa *ℤ 10; exponent = v.exponent -ℤ pos 1 })
    else (false, v)

-- The loop of cpdecexp by fuel.
unfoldable pub exp_loop : ℕ → Bool → ℤ → CpDecimal → Bool × CpDecimal
unfolding exp_round ◌-ℤ◌
exp_loop zero up exponent v = (true, v)
exp_loop (suc fuel) up exponent v =
    let (ok, w) = exp_round up v in
    let rest = exp_loop fuel up exponent w in
    if nat_abs (v.exponent -ℤ exponent) == 0 || nat_abs v.mantissa == 0
    then (true, v)
    else if ok
    then rest
    else (false, w)

-- cpdecexp. Each round brings the exponent one nearer.
unfoldable pub cpdecexp : CpDecimal → ℤ → Bool × CpDecimal
unfolding exp_loop ◌-ℤ◌
cpdecexp v exponent =
    exp_loop (nat_abs (v.exponent -ℤ exponent)) (is_neg (v.exponent -ℤ exponent)) exponent v
