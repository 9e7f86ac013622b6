-- ===== src/CpDecimal/Norm.antt =====
-- The value and the form of a normalised decimal.
use shvc.Base.{
  ℕ, zero, suc, ◌*◌, ◌/◌, ◌%◌, ◌^◌, ◌≤◌, ◌<◌, ◌≡◌, refl, sym, ap, ◌∙◌, arith, false, ◌==◌,
}
use shvc.Base.{ℤ, pos, negsuc, ◌+ℤ◌, quot, rem, nat_abs, is_neg, Bool-cases, inl, inr, ==_iff}
use shvc.CpDecimal.{CpDecimal, dec_loop, cpdecnorm}

-- `w` is `v` with `k` trailing zeros taken from the mantissa, and has none left.
abbrev pub IsNorm : CpDecimal → CpDecimal → ℕ → Type 0
IsNorm v w k =
    (nat_abs w.mantissa * 10 ^ k ≡ nat_abs v.mantissa)
    × (is_neg w.mantissa ≡ is_neg v.mantissa)
    × (w.exponent ≡ v.exponent +ℤ pos k)
    × (0 < nat_abs w.mantissa % 10)

nat_abs-quot : (m : ℤ) → nat_abs (quot m 10) ≡ nat_abs m / 10
unfolding quot
nat_abs-quot m = ground arith

nat_abs-rem : (m : ℤ) → nat_abs (rem m 10) ≡ nat_abs m % 10
unfolding rem
nat_abs-rem m = ground arith

is_neg-quot : (m : ℤ) → 10 ≤ nat_abs m → is_neg (quot m 10) ≡ is_neg m
unfolding quot
is_neg-quot m h = ground arith

pub add_zero : (e : ℤ) → e ≡ e +ℤ pos 0
unfolding ◌+ℤ◌
add_zero e = ground arith

pub add_one : (e : ℤ) (k : ℕ) → (e +ℤ pos 1) +ℤ pos k ≡ e +ℤ pos (suc k)
unfolding ◌+ℤ◌
add_one (pos n) k = ground arith
add_one (negsuc n) k = ground arith

power_step : (x k : ℕ) → x * 10 ^ suc k ≡ x * 10 ^ k * 10
power_step x k =
    let step : 10 ^ suc k ≡ 10 ^ k * 10 = omega arith in ap (λ (p : ℕ). x * p) step ∙ grind arith

dec_loop-IsNorm :
    (fuel : ℕ) (v : CpDecimal)
    → 0 < nat_abs v.mantissa
    → nat_abs v.mantissa ≤ fuel
    → (k : ℕ) × IsNorm v (dec_loop fuel v) k
unfolding dec_loop
dec_loop-IsNorm zero v h le = absurd (omega arith)
dec_loop-IsNorm (suc fuel) v h le =
    let r = nat_abs-rem v.mantissa in
    elim (Bool-cases (nat_abs (rem v.mantissa 10) == 0)) [
      | inl y ↦
          let zeros : nat_abs v.mantissa % 10 ≡ 0 = sym r ∙ (==_iff _ 0).0 y in
          let q = nat_abs-quot v.mantissa in
          let next : CpDecimal = record {
            mantissa = quot v.mantissa 10;
            exponent = v.exponent +ℤ pos 1;
          } in
          let (k, (value, sign, exponent, last)) =
            dec_loop-IsNorm fuel next (omega (arith, q, zeros)) (omega (arith, q)) in
          rw y (
            suc k,
            (
              power_step _ k ∙ omega (arith, value, q, zeros),
              sign ∙ is_neg-quot v.mantissa (omega (arith, zeros)),
              exponent ∙ add_one v.exponent k,
              last,
            ),
          )
      | inr n ↦ rw n (0, (omega arith, refl, add_zero v.exponent, ground (arith, n, r)))
    ]

-- cpdecnorm of a decimal that is not zero takes all trailing zeros of the mantissa into the
-- exponent, and keeps the sign; its loop ends within as many rounds as the mantissa's magnitude.
pub cpdecnorm-IsNorm : (v : CpDecimal) → 0 < nat_abs v.mantissa → (k : ℕ) × IsNorm v (cpdecnorm v) k
unfolding cpdecnorm
cpdecnorm-IsNorm v h =
    let nonzero : (nat_abs v.mantissa == 0) ≡ false = ground (arith, h) in
    rw nonzero (dec_loop-IsNorm (nat_abs v.mantissa) v h (omega arith))
