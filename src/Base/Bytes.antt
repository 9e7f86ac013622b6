-- ===== src/Base/Bytes.antt =====
-- Tests over all numbers below a bound, and bytes.
use Prim.Native.Nat.{ℕ, zero, suc, ◌<◌}
use mathlib.Core.Path.{◌≡◌, ap, ◌∙◌}
use mathlib.Core.Bool.{Bool, true, ◌&&◌}
use native.Mathlib.Omega.{arith}
use shvc.Base.Tests.{◌==◌, ==_iff, Bool-cases}
use mathlib.Core.Logic.{inl, inr}

-- A test that holds at `0`, …, `n - 1`, from the last one down.
unfoldable pub all_below : ℕ → (ℕ → Bool) → Bool
all_below zero test = true
all_below (suc last) test = test last && all_below last test

abbrev pub IsByte : ℕ → Type 0
IsByte b = b < 256

pub all_below_sound :
    (n : ℕ) (test : ℕ → Bool) (x : ℕ) → all_below n test ≡ true → x < n → test x ≡ true
unfolding all_below
all_below_sound (suc last) test x holds below = elim (Bool-cases (x == last)) [
  | inl same ↦ ap test ((==_iff x last).0 same) ∙ ground (arith, holds)
  | inr other ↦ all_below_sound last test x (ground (arith, holds)) (ground (arith, other))
]
all_below_sound zero test x holds below = absurd (omega arith)

-- Two functions that agree on every number below `n`.
pub eq_below :
    (n : ℕ) (f g : ℕ → ℕ) → all_below n (λ x. f x == g x) ≡ true → (x : ℕ) → x < n → f x ≡ g x
eq_below n f g table x h = (==_iff _ _).0 (all_below_sound n _ x table h)
