-- ===== src/Crc32/Bitwise.antt =====
-- The CRC by single bits, beside the table driven update of libshvrpc/crc32.c.
use shvc.Base.{ℕ, zero, suc, ◌+◌, ◌*◌, ◌/◌, ◌%◌, ◌^◌, ◌<◌, ◌≡◌, refl, sym, ap, ◌∙◌, bit_xor, arith}
use shvc.Base.{List, [], ◌∷◌, ◌++◌, get_or, ◌==◌, if◌then◌else◌, All, inl, inr, Bool-cases}
use shvc.Base.Bytes.{IsByte, all_below, eq_below}
use shvc.Base.Bits.{bit, bit-suc, bit_first, bit-lt, bit-zero, bit-bit_xor, bit_ext}
use shvc.Crc32.{crc_table, crc32_update}
use Prim.Native.Nat.{differ, bit_xor-bitwise}
use native.Mathlib.Nat.{div-div-eq-div-mul}

-- One bit of the message: the reflected polynomial 0x04c11db7 is 0xedb88320.
abbrev pub shift : ℕ → ℕ
shift x = if x % 2 == 1 then bit_xor (x / 2) 0xedb88320 else x / 2

unfoldable pub shifts : ℕ → ℕ → ℕ
shifts zero x = x
shifts (suc n) x = shifts n (shift x)

-- The update of the definition of the CRC: each byte is added to the low bits, and shifted out.
unfoldable pub bitwise_update : ℕ → List ℕ → ℕ
unfolding shifts
bitwise_update crc [] = crc
bitwise_update crc (byte ∷ bytes) = bitwise_update (shifts 8 (bit_xor crc byte)) bytes

differ_zero : (x : ℕ) → differ x 0 ≡ x
differ_zero zero = refl
differ_zero (suc x) = refl

swap_small : (x y z : ℕ) → x < 2 → y < 2 → z < 2 → differ (differ x y) z ≡ differ (differ x z) y
swap_small zero zero z h k l = sym (differ_zero z)
swap_small zero (suc zero) zero h k l = refl
swap_small zero (suc zero) (suc zero) h k l = refl
swap_small (suc zero) zero zero h k l = refl
swap_small (suc zero) zero (suc zero) h k l = refl
swap_small (suc zero) (suc zero) zero h k l = refl
swap_small (suc zero) (suc zero) (suc zero) h k l = refl
swap_small x y z h k l = absurd (omega arith)

xor_swap : (a b c : ℕ) → bit_xor (bit_xor a b) c ≡ bit_xor (bit_xor a c) b
xor_swap a b c = bit_ext _ _ (λ k.
    rw (bit-bit_xor, bit-bit_xor, bit-bit_xor, bit-bit_xor)
      (swap_small (bit a k) (bit b k) (bit c k) (bit-lt a k) (bit-lt b k) (bit-lt c k)))

xor_half : (a b : ℕ) → bit_xor a b / 2 ≡ bit_xor (a / 2) (b / 2)
xor_half a b = bit_ext _ _ (λ k.
    sym (bit-suc (bit_xor a b) k)
    ∙ bit-bit_xor (suc k) a b
    ∙ ap (λ (x : ℕ). differ x (bit b (suc k))) (bit-suc a k)
    ∙ ap (differ (bit (a / 2) k)) (bit-suc b k)
    ∙ sym (bit-bit_xor k (a / 2) (b / 2)))

xor_first : (a b : ℕ) → bit_xor a (b * 2) % 2 ≡ a % 2
xor_first a b =
    sym (bit_first (bit_xor a (b * 2)))
    ∙ bit-bit_xor 0 a (b * 2)
    ∙ ap (differ (bit a 0)) (bit_first (b * 2) ∙ omega arith)
    ∙ differ_zero (bit a 0)
    ∙ bit_first a

xor_zero : (a : ℕ) → bit_xor a 0 ≡ a
xor_zero a =
    bit_ext _ _
      (λ k. bit-bit_xor k a 0 ∙ ap (differ (bit a k)) (bit-zero k) ∙ differ_zero (bit a k))

xor_even : (a b : ℕ) → bit_xor a (b * 2) / 2 ≡ bit_xor (a / 2) b
xor_even a b = xor_half a (b * 2) ∙ ap (bit_xor (a / 2)) (omega arith)

shift-xor : (a b : ℕ) → shift (bit_xor a (b * 2)) ≡ bit_xor (shift a) b
shift-xor a b = elim (Bool-cases (a % 2 == 1)) [
  | inl y ↦ ground (
    arith,
    y,
    xor_first a b,
    xor_even a b,
    xor_swap (a / 2) b 0xedb88320,
    ap (λ (x : ℕ). bit_xor x 0xedb88320) (xor_even a b),
  )
  | inr n ↦ ground (arith, n, xor_first a b, xor_even a b)
]

-- Higher bits only move down while the low ones are shifted out.
shifts-xor : (n a b : ℕ) → shifts n (bit_xor a (b * 2 ^ n)) ≡ bit_xor (shifts n a) b
unfolding shifts
shifts-xor zero a b = ap (bit_xor a) (omega arith)
shifts-xor (suc n) a b =
    let moved : b * 2 ^ suc n ≡ b * 2 ^ n * 2 = grind arith in
    ap (λ (x : ℕ). shifts n (shift (bit_xor a x))) moved
    ∙ ap (shifts n) (shift-xor a (b * 2 ^ n))
    ∙ shifts-xor n (shift a) b

xor_zero_left : (b : ℕ) → bit_xor 0 b ≡ b
xor_zero_left b = bit_xor-bitwise 0 b

-- A number is its low part beside its high part.
Joins : ℕ → Type 0
Joins p = (y : ℕ) → bit_xor (y % p) (y / p * p) ≡ y

Joins-one : Joins 1
unfolding Joins
Joins-one y =
    let low : y % 1 ≡ 0 = omega arith in
    let high : y / 1 * 1 ≡ y = omega arith in
    ap (λ (x : ℕ). bit_xor x (y / 1 * 1)) low ∙ ap (bit_xor 0) high ∙ xor_zero_left y

Joins-double :
    (p : ℕ)
    → ((y : ℕ) → y % (p * 2) ≡ y % 2 + y / 2 % p * 2)
    → ((y : ℕ) → y / (p * 2) * (p * 2) ≡ y / 2 / p * p * 2)
    → Joins p
    → Joins (p * 2)
unfolding Joins
Joins-double p low high joins y =
    let half = xor_even (y % (p * 2)) (y / 2 / p * p) in
    let first = xor_first (y % (p * 2)) (y / 2 / p * p) in
    let rest : y % (p * 2) / 2 ≡ y / 2 % p = omega (arith, low y) in
    let whole = half ∙ ap (λ (x : ℕ). bit_xor x (y / 2 / p * p)) rest ∙ joins (y / 2) in
    ap (bit_xor (y % (p * 2))) (high y) ∙ omega (arith, whole, first, low y)

Joins-byte : Joins 256
Joins-byte =
    let j1 : Joins 1 = Joins-one in
    let j2 : Joins 2 = Joins-double 1 (λ y. omega arith) (λ y. omega arith) j1 in
    let j4 : Joins 4 = Joins-double 2 (λ y. omega arith) (λ y. omega arith) j2 in
    let j8 : Joins 8 = Joins-double 4 (λ y. omega arith) (λ y. omega arith) j4 in
    let j16 : Joins 16 = Joins-double 8 (λ y. omega arith) (λ y. omega arith) j8 in
    let j32 : Joins 32 = Joins-double 16 (λ y. omega arith) (λ y. omega arith) j16 in
    let j64 : Joins 64 = Joins-double 32 (λ y. omega arith) (λ y. omega arith) j32 in
    let j128 : Joins 128 = Joins-double 64 (λ y. omega arith) (λ y. omega arith) j64 in
    Joins-double 128 (λ y. omega arith) (λ y. omega arith) j128

crc_table-shifts : (i : ℕ) → i < 256 → get_or crc_table i 0 ≡ shifts 8 i
unfolding all_below shifts
crc_table-shifts i h = eq_below 256 (λ i. get_or crc_table i 0) (shifts 8) refl i h

-- One lookup does the work of eight shifts.
lookup : (y : ℕ) → bit_xor (get_or crc_table (y % 256) 0) (y / 256) ≡ shifts 8 y
unfolding Joins
lookup y =
    ap (λ (x : ℕ). bit_xor x (y / 256)) (crc_table-shifts (y % 256) (omega arith))
    ∙ sym (shifts-xor 8 (y % 256) (y / 256))
    ∙ ap (shifts 8) (Joins-byte y)

abbrev halves : ℕ → ℕ → ℕ
halves zero x = x
halves (suc n) x = halves n (x / 2)

halves-xor : (n a b : ℕ) → halves n (bit_xor a b) ≡ bit_xor (halves n a) (halves n b)
halves-xor zero a b = refl
halves-xor (suc n) a b = ap (halves n) (xor_half a b) ∙ halves-xor n (a / 2) (b / 2)

halves-div : (n x : ℕ) → halves n x ≡ x / 2 ^ n
halves-div zero x = omega arith
halves-div (suc n) x =
    halves-div n (x / 2) ∙ div-div-eq-div-mul x 2 (2 ^ n) ∙ ap (λ (p : ℕ). x / p) (omega arith)

xor-div : (n a b : ℕ) → bit_xor a b / 2 ^ n ≡ bit_xor (a / 2 ^ n) (b / 2 ^ n)
xor-div n a b = rw (← halves-div, halves-xor, halves-div, halves-div) refl

-- The high bits of the state are those of the state before the byte was added.
high-byte : (crc byte : ℕ) → byte < 256 → bit_xor crc byte / 256 ≡ crc / 256
high-byte crc byte h =
    xor-div 8 crc byte ∙ ap (bit_xor (crc / 256)) (omega arith) ∙ xor_zero (crc / 256)

xor-lt : (a b : ℕ) → a < 2 ^ 32 → b < 2 ^ 32 → bit_xor a b < 2 ^ 32
xor-lt a b h k =
    let none_a : a / 2 ^ 32 ≡ 0 = omega arith in
    let none_b : b / 2 ^ 32 ≡ 0 = omega arith in
    let none : bit_xor a b / 2 ^ 32 ≡ 0 =
      xor-div 32 a b ∙ ap (λ (x : ℕ). bit_xor x (b / 2 ^ 32)) none_a ∙ ap (bit_xor 0) none_b in
    omega (arith, none)

shift-lt : (x : ℕ) → x < 2 ^ 32 → shift x < 2 ^ 32
shift-lt x h = ground (arith, xor-lt (x / 2) 0xedb88320)

shifts-lt : (n x : ℕ) → x < 2 ^ 32 → shifts n x < 2 ^ 32
unfolding shifts
shifts-lt zero x h = h
shifts-lt (suc n) x h = shifts-lt n (shift x) (shift-lt x h)

-- crc32_update is the division by the polynomial 0x04c11db7 of CRC-32, bit by bit and lowest bit
-- first, of the state with each byte in turn, from every 32-bit state.
pub crc32_update-bitwise_update :
    (crc : ℕ) (bytes : List ℕ)
    → crc < 2 ^ 32
    → All IsByte bytes
    → crc32_update crc bytes ≡ bitwise_update crc bytes
unfolding crc32_update bitwise_update
crc32_update-bitwise_update crc [] h bs = omega arith
crc32_update-bitwise_update crc (byte ∷ bytes) h bs =
    let y = bit_xor crc byte in
    let small = shifts-lt 8 y (xor-lt crc byte h (omega (arith, bs.0))) in
    let step : bit_xor (get_or crc_table (y % 256) 0) (crc / 256) ≡ shifts 8 y =
      ap (bit_xor (get_or crc_table (y % 256) 0)) (sym (high-byte crc byte bs.0)) ∙ lookup y in
    let kept : bit_xor (get_or crc_table (y % 256) 0) (crc / 256) % 2 ^ 32 ≡ shifts 8 y =
      ap (λ (x : ℕ). x % 2 ^ 32) step ∙ omega (arith, small) in
    ap (λ (x : ℕ). crc32_update x bytes) kept
    ∙ crc32_update-bitwise_update (shifts 8 y) bytes small bs.1

-- The CRC of a message does not depend on how the message is cut into updates.
pub crc32_update-append :
    (first second : List ℕ) (crc : ℕ)
    → crc < 2 ^ 32
    → crc32_update crc (first ++ second) ≡ crc32_update (crc32_update crc first) second
unfolding crc32_update
crc32_update-append [] second crc h = ap (λ (c : ℕ). crc32_update c second) (omega arith)
crc32_update-append (byte ∷ first) second crc h = crc32_update-append first second _ (omega arith)
