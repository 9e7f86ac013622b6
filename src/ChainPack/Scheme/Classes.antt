-- ===== src/ChainPack/Scheme/Classes.antt =====
-- Which scheme bytes the tests of include/shv/chainpack.h accept.
use shvc.Base.{ℕ, ◌≡◌, refl, arith, ltb, leb, ◌==◌, ◌&&◌, ◌||◌, Bool, not}
use shvc.Base.{if◌then◌else◌}
use shvc.Base.Bytes.{IsByte, all_below, all_below_sound}
use shvc.ChainPack.Scheme.{is_int, is_uint}

same : Bool → Bool → Bool
same a b = if a then b else not b

same→eq : (a b : Bool) → same a b ≡ Bool.true → a ≡ b
unfolding same
same→eq a b h = ground arith

-- On every byte chainpack_is_int holds exactly for CPS_Int and the packed signed numbers, while
-- chainpack_is_uint holds for the packed unsigned numbers and for CPS_Int (130), not for CPS_UInt
-- (129).
pub is_int-is_uint :
    (c : ℕ)
    → IsByte c
    → (is_int c ≡ (c == 130 || (leb 64 c && ltb c 128))) × (is_uint c ≡ (c == 130 || ltb c 64))
unfolding is_int is_uint same all_below
is_int-is_uint c h = (
  same→eq _ _
      (all_below_sound 256 (λ c. same (is_int c) (c == 130 || (leb 64 c && ltb c 128))) c refl h),
  same→eq _ _ (all_below_sound 256 (λ c. same (is_uint c) (c == 130 || ltb c 64)) c refl h),
)
