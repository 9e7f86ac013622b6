-- ===== src/CpDecimal/Exponent.antt =====
-- The value that cpdecexp gives.
use shvc.Base.{ℕ, Bool}
use shvc.Base.{ℤ, of_sign}
use shvc.CpDecimal.{CpDecimal}

-- A sign and a magnitude at an exponent.
abbrev pub decimal : Bool → ℕ → ℤ → CpDecimal
decimal sign n exponent = record { mantissa = of_sign sign n; exponent = exponent }
