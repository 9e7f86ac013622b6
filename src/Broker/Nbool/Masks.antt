-- ===== src/Broker/Nbool/Masks.antt =====
-- The masks of one bit, `1 << k` and `~(1 << k)`, on one word and on a word chosen by its index.
use shvc.Base.{ℕ, zero, suc, ◌*◌, ◌/◌, ◌%◌, ◌^◌, ◌<◌, ◌≡◌, refl, ap, bit_and, bit_or, arith}
use shvc.Base.{◌==◌, not, true}
use shvc.Base.{if◌then◌else◌, ◌&&◌, ◌||◌, inl, inr, Bool-cases, ==_iff}
use shvc.Base.Bits.{bit, bit-bit_or, bit-bit_and, bit-lt, bit_power}
use shvc.Base.Bytes.{all_below, all_below_sound, eq_below}
use shvc.Broker.Nbool.{all_but}

pub power_pos : (k : ℕ) → 0 < 2 ^ k
power_pos zero = omega arith
power_pos (suc k) = omega (arith, power_pos k)

pub masked : (x p : ℕ) → x < 2 → 0 < p → not (x * p == 0) ≡ (x == 1)
masked zero p h k = ground arith
masked (suc zero) p h k = ground arith
masked (suc (suc x)) p h k = absurd (omega arith)

all_but_table :
    all_below 32 (λ k. all_below 32 (λ j. bit (all_but k) j == (if k == j then 0 else 1))) ≡ true
unfolding all_below bit
all_but_table = refl

bit-all_but : (k j : ℕ) → k < 32 → j < 32 → bit (all_but k) j ≡ (if k == j then 0 else 1)
bit-all_but k j h l =
    eq_below 32 (bit (all_but k)) (λ n. if k == n then 0 else 1)
      (all_below_sound 32 _ k all_but_table h) j l

pub same_index : (i j : ℕ) → (i == j) ≡ ((i / 32 == j / 32) && (i % 32 == j % 32))
same_index i j = ground arith

-- One bit of a word into which a bit was set, or from which it was cleared.
bit_set :
    (w k j : ℕ) → k < 32 → j < 32 → (bit (bit_or w (2 ^ k)) j == 1) ≡ ((k == j) || (bit w j == 1))
bit_set w k j h l = ground (arith, bit-bit_or j w (2 ^ k), bit_power k j, bit-lt w j)

bit_clear :
    (w k j : ℕ)
    → k < 32
    → j < 32
    → (bit (bit_and w (all_but k)) j == 1) ≡ (not (k == j) && (bit w j == 1))
bit_clear w k j h l = ground (arith, bit-bit_and j w (all_but k), bit-all_but k j h l, bit-lt w j)

pub bit_both : (a b j : ℕ) → (bit (bit_or a b) j == 1) ≡ ((bit a j == 1) || (bit b j == 1))
bit_both a b j = ground (arith, bit-bit_or j a b, bit-lt a j, bit-lt b j)

-- The same at any word: only the word of the index is rewritten.
pub word_set :
    (W : ℕ → ℕ) (q r k j : ℕ)
    → k < 32
    → j < 32
    → (bit (if q == r then bit_or (W q) (2 ^ k) else W r) j == 1)
      ≡ (((q == r) && (k == j)) || (bit (W r) j == 1))
word_set W q r k j h l = elim (Bool-cases (q == r)) [
  | inl y ↦ ground (arith, y, ap (λ (w : ℕ). bit (W w) j) ((==_iff q r).0 y), bit_set (W q) k j h l)
  | inr n ↦ ground (arith, n)
]

pub word_clear :
    (W : ℕ → ℕ) (q r k j : ℕ)
    → k < 32
    → j < 32
    → (bit (if q == r then bit_and (W q) (all_but k) else W r) j == 1)
      ≡ (not ((q == r) && (k == j)) && (bit (W r) j == 1))
word_clear W q r k j h l = elim (Bool-cases (q == r)) [
  | inl y ↦
      ground (arith, y, ap (λ (w : ℕ). bit (W w) j) ((==_iff q r).0 y), bit_clear (W q) k j h l)
  | inr n ↦ ground (arith, n)
]
