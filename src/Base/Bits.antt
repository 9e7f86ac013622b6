-- ===== src/Base/Bits.antt =====
-- Single bits of a number, and the bitwise operations bit by bit.
use Prim.Native.Nat.{ℕ, zero, suc, ◌+◌, ◌*◌, ◌/◌, ◌%◌, ◌^◌, ◌≤◌, ◌<◌, min, max}
use Prim.Native.Nat.{
  bit_and, bit_or, bit_xor, differ, digits, bit_and-bitwise, bit_or-bitwise, bit_xor-bitwise,
}
use mathlib.Core.Path.{◌≡◌, refl, sym, ap, ◌∙◌}
use mathlib.Core.Logic.{inl, inr}
use native.Mathlib.Omega.{arith}
use native.Mathlib.Nat.{div-div-eq-div-mul}
use shvc.Base.Tests.{◌==◌, ==_iff, if◌then◌else◌, Bool-cases}

-- `(x >> k) & 1`.
unfoldable pub bit : ℕ → ℕ → ℕ
bit x k = x / 2 ^ k % 2

pub bit-suc : (x k : ℕ) → bit x (suc k) ≡ bit (x / 2) k
unfolding bit
bit-suc x k =
    ap (λ (y : ℕ). y % 2)
      (ap (λ (p : ℕ). x / p) (omega arith) ∙ sym (div-div-eq-div-mul x 2 (2 ^ k)))

pub bit_first : (x : ℕ) → bit x 0 ≡ x % 2
unfolding bit
bit_first x = omega arith

pub bit-zero : (k : ℕ) → bit 0 k ≡ 0
unfolding bit
bit-zero k = omega arith

pub bit-lt : (x k : ℕ) → bit x k < 2
unfolding bit
bit-lt x k = omega arith

-- A bitwise operation, given by what it does to two bits.
module _ (left : ℕ → ℕ) (op : ℕ → ℕ → ℕ) (small : (x y : ℕ) → x < 2 → y < 2 → op x y < 2)
    (left_bit : (b k : ℕ) → bit (left b) k ≡ op 0 (bit b k)) where
  bit-digits : (n a b k : ℕ) → a ≤ n → bit (digits left op n a b) k ≡ op (bit a k) (bit b k)
  bit-digits zero zero b k h = left_bit b k ∙ ap (λ (x : ℕ). op x (bit b k)) (sym (bit-zero k))
  bit-digits zero (suc a) b k h = absurd (omega arith)
  bit-digits (suc n) zero b k h = left_bit b k ∙ ap (λ (x : ℕ). op x (bit b k)) (sym (bit-zero k))
  bit-digits (suc n) (suc a) b zero h =
      let first = small (suc a % 2) (b % 2) (omega arith) (omega arith) in
      bit_first (digits left op (suc n) (suc a) b)
      ∙ omega (arith, first)
      ∙ ap (λ (x : ℕ). op x (b % 2)) (sym (bit_first (suc a)))
      ∙ ap (op (bit (suc a) 0)) (sym (bit_first b))
  bit-digits (suc n) (suc a) b (suc k) h =
      let first = small (suc a % 2) (b % 2) (omega arith) (omega arith) in
      let half : digits left op (suc n) (suc a) b / 2 ≡ digits left op n (suc a / 2) (b / 2) =
        omega (arith, first) in
      bit-suc (digits left op (suc n) (suc a) b) k
      ∙ ap (λ (x : ℕ). bit x k) half
      ∙ bit-digits n (suc a / 2) (b / 2) k (omega arith)
      ∙ ap (λ (x : ℕ). op x (bit (b / 2) k)) (sym (bit-suc (suc a) k))
      ∙ ap (op (bit (suc a) (suc k))) (sym (bit-suc b k))

-- Each bit of `a | b` and of `a & b`.
pub bit-bit_or : (k a b : ℕ) → bit (bit_or a b) k ≡ max (bit a k) (bit b k)
bit-bit_or k a b =
    ap (λ (x : ℕ). bit x k) (bit_or-bitwise a b)
    ∙ bit-digits (λ y. y) max (λ x y h l. omega arith) (λ b k. omega arith) a a b k (omega arith)

pub bit-bit_and : (k a b : ℕ) → bit (bit_and a b) k ≡ min (bit a k) (bit b k)
bit-bit_and k a b =
    ap (λ (x : ℕ). bit x k) (bit_and-bitwise a b)
    ∙ bit-digits (λ y. 0) min (λ x y h l. omega arith) (λ b k. omega (arith, bit-zero k)) a a b k
        (omega arith)

differ_small : (x y : ℕ) → x < 2 → y < 2 → differ x y < 2
differ_small zero y h l = l
differ_small (suc x) zero h l = h
differ_small (suc x) (suc y) h l = differ_small x y (omega arith) (omega arith)

pub bit-bit_xor : (k a b : ℕ) → bit (bit_xor a b) k ≡ differ (bit a k) (bit b k)
bit-bit_xor k a b =
    ap (λ (x : ℕ). bit x k) (bit_xor-bitwise a b)
    ∙ bit-digits (λ y. y) differ differ_small (λ b k. refl) a a b k (omega arith)

-- Numbers with the same bits are equal.
same_bits : (n x y : ℕ) → x ≤ n → y ≤ n → ((k : ℕ) → bit x k ≡ bit y k) → x ≡ y
same_bits zero x y h l same = omega arith
same_bits (suc n) x y h l same =
    let halves =
      same_bits n (x / 2) (y / 2) (omega arith) (omega arith)
        (λ k. sym (bit-suc x k) ∙ same (suc k) ∙ bit-suc y k) in
    omega (arith, halves, same 0, bit_first x, bit_first y)

pub bit_ext : (x y : ℕ) → ((k : ℕ) → bit x k ≡ bit y k) → x ≡ y
bit_ext x y same = same_bits (x + y) x y (omega arith) (omega arith) same

pub and_zero : (b : ℕ) → bit_and 0 b ≡ 0
and_zero b = bit_and-bitwise 0 b

pub or_zero_right : (a : ℕ) → bit_or a 0 ≡ a
or_zero_right a = bit_ext _ _ (λ k. omega (arith, bit-bit_or k a 0, bit-zero k))

pub bit_power : (k j : ℕ) → bit (2 ^ k) j ≡ (if k == j then 1 else 0)
bit_power zero zero = bit_first 1
bit_power zero (suc j) = bit-suc 1 j ∙ bit-zero j ∙ ground arith
bit_power (suc k) zero = bit_first (2 ^ suc k) ∙ ground arith
bit_power (suc k) (suc j) =
    let half : 2 ^ suc k / 2 ≡ 2 ^ k = omega arith in
    bit-suc (2 ^ suc k) j ∙ ap (λ (x : ℕ). bit x j) half ∙ bit_power k j ∙ ground arith

-- The test of one bit with a mask.
masked_bit : (k a j : ℕ) → bit (bit_and a (2 ^ k)) j ≡ (if k == j then bit a k else 0)
masked_bit k a j = elim (Bool-cases (k == j)) [
  | inl y ↦
      ground (
        arith,
        y,
        bit-bit_and j a (2 ^ k),
        bit_power k j,
        bit-lt a j,
        ap (bit a) ((==_iff k j).0 y),
      )
  | inr n ↦ ground (arith, n, bit-bit_and j a (2 ^ k), bit_power k j)
]

masked_cases : (k a b : ℕ) → b < 2 → bit a k ≡ b → bit_and a (2 ^ k) ≡ b * 2 ^ k
masked_cases k a zero h e = bit_ext _ _ (λ j. ground (arith, e, masked_bit k a j, bit-zero j))
masked_cases k a (suc zero) h e =
    let power : bit_and a (2 ^ k) ≡ 2 ^ k =
      bit_ext _ _ (λ j. ground (arith, e, masked_bit k a j, bit_power k j)) in
    omega (arith, power)
masked_cases k a (suc (suc b)) h e = absurd (omega arith)

pub bit_and_power : (k a : ℕ) → bit_and a (2 ^ k) ≡ bit a k * 2 ^ k
bit_and_power k a = masked_cases k a (bit a k) (bit-lt a k) refl
