-- ===== src/CpDecimal/Runs.antt =====
-- A run of the normalisation, and its theorem at that decimal.
use shvc.Base.{ℕ, ◌≡◌, refl, arith, false, pos, negsuc}
use shvc.CpDecimal.{CpDecimal, cpdecnorm, cpdecexp}
use shvc.CpDecimal.Norm.{IsNorm, cpdecnorm-IsNorm}

-- -1200 * 10 ^ -1.
abbrev twelve_hundred : CpDecimal
twelve_hundred = record { mantissa = negsuc 1199; exponent = negsuc 0 }

cpdecnorm_run : cpdecnorm twelve_hundred ≡ record { mantissa = negsuc 11; exponent = pos 1 }
unfolding cpdecnorm
cpdecnorm_run = refl

cpdecnorm-IsNorm_run : (k : ℕ) × IsNorm twelve_hundred (cpdecnorm twelve_hundred) k
cpdecnorm-IsNorm_run = cpdecnorm-IsNorm twelve_hundred (omega arith)

-- A product that overflows leaves the decimal as it was.
overflow :
    cpdecexp (record { mantissa = pos 1000000000000000000; exponent = pos 3 }) (pos 1)
    ≡ (false, record { mantissa = pos 1000000000000000000; exponent = pos 3 })
unfolding cpdecexp
overflow = refl
