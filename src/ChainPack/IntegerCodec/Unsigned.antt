-- ===== src/ChainPack/IntegerCodec/Unsigned.antt =====
-- chainpack_pack_uint and chainpack_unpack_uint together.
use shvc.Base.{
  ℕ, zero, suc, ◌+◌, ◌-◌, ◌*◌, ◌/◌, ◌%◌, ◌^◌, ◌≤◌, ◌<◌, ◌≡◌, refl, sym, bit_or, ap, ◌∙◌,
}
use shvc.Base.{true, ◌==◌, ◌&&◌, List, ◌∷◌, ◌++◌, length, arith, ◌⊎◌, inl, inr}
use shvc.Base.Bytes.{all_below, all_below_sound}
use native.Mathlib.Nat.{div-div-eq-div-mul, div-le_self}
use shvc.ChainPack.Integer.{u64, w_bytes_loop, int_bytes, uint_value1, long_header}
use shvc.ChainPack.Integer.{w_uint_bytes, w_uint_value1}
use shvc.ChainPack.IntegerCodec.{tail_bytes, uint_buf, done, unpack_loop, unpack_uint}

pub pow_shift : (n : ℕ) → 2 ^ (8 * suc n) ≡ 2 ^ (8 * n) * 256
pow_shift n =
    ap (λ (k : ℕ). 2 ^ k)
      (let e : 8 * suc n ≡ suc (suc (suc (suc (suc (suc (suc (suc (8 * n)))))))) = omega arith in e)
    ∙ omega arith

pub shift_byte : (n v : ℕ) → v / 2 ^ (8 * suc n) ≡ v / 2 ^ (8 * n) / 256
shift_byte n v = rw pow_shift (sym (div-div-eq-div-mul v (2 ^ (8 * n)) 256))

shift-le : (n v : ℕ) → v / 2 ^ n ≤ v
shift-le n v = div-le_self v (2 ^ n)

-- What was read so far is `v` shifted by the bytes to come.
unpack_loop-tail_bytes :
    (n v res : ℕ) (rest : List ℕ)
    → v < u64
    → unpack_loop n (v / 2 ^ (8 * n)) res (tail_bytes n v ++ rest) ≡ done v (res + n) rest
unfolding unpack_loop tail_bytes
unpack_loop-tail_bytes zero v res rest h = ground arith
unpack_loop-tail_bytes (suc n) v res rest h =
    let w : ℕ = v / 2 ^ (8 * n) in
    let e : v / 2 ^ (8 * suc n) * 256 % u64 + v / 2 ^ (8 * n) % 256 ≡ v / 2 ^ (8 * n) =
      omega (arith, shift_byte n v, shift-le (8 * n) v) in
    rw e (unpack_loop-tail_bytes n v (res + 1) rest h ∙ ap (λ (k : ℕ). done v k rest) (omega arith))

-- A header byte that says `bytes` bytes and carries the top bits `x` of the number.
abbrev pub short_header : ℕ → ℕ → ℕ
short_header bytes x = bit_or (0xe0 * 2 ^ (4 - bytes)) x % 256

abbrev pub Says : ℕ → ℕ → ℕ → Type 0
Says c bytes x = (int_bytes c ≡ bytes) × (uint_value1 c bytes ≡ x)

pub Says-below :
    (n : ℕ) (c bytes x : ℕ → ℕ)
    → all_below n (λ i. (int_bytes (c i) == bytes i) && (uint_value1 (c i) (bytes i) == x i)) ≡ true
    → (i : ℕ) → i < n
    → Says (c i) (bytes i) (x i)
Says-below n c bytes x table i h = ground (arith, all_below_sound n _ i table h)

header_1 : (x : ℕ) → x < 128 → Says (short_header 1 x) 1 x
unfolding int_bytes uint_value1 all_below
header_1 = Says-below 128 (short_header 1) (λ _. 1) (λ x. x) refl

header_2 : (x : ℕ) → x < 64 → Says (short_header 2 x) 2 x
unfolding int_bytes uint_value1 all_below
header_2 = Says-below 64 (short_header 2) (λ _. 2) (λ x. x) refl

header_3 : (x : ℕ) → x < 32 → Says (short_header 3 x) 3 x
unfolding int_bytes uint_value1 all_below
header_3 = Says-below 32 (short_header 3) (λ _. 3) (λ x. x) refl

header_4 : (x : ℕ) → x < 16 → Says (short_header 4 x) 4 x
unfolding int_bytes uint_value1 all_below
header_4 = Says-below 16 (short_header 4) (λ _. 4) (λ x. x) refl

pub header_long : (x : ℕ) → x < 15 → Says (long_header (5 + x)) (5 + x) 0
unfolding int_bytes uint_value1 all_below
header_long = Says-below 15 (λ x. long_header (5 + x)) (λ x. 5 + x) (λ _. 0) refl

-- A header that says `n + 1` bytes and carries the bits above the last `n` bytes.
pub unpack_uint_by_header :
    (c n v : ℕ) (rest : List ℕ)
    → v < u64
    → Says c (suc n) (v / 2 ^ (8 * n))
    → unpack_uint (c ∷ tail_bytes n v ++ rest) ≡ done v (suc n) rest
unfolding unpack_uint
unpack_uint_by_header c n v rest h (e, e') =
    rw (e, e')
      (rw (let s : suc n - 1 ≡ n = omega arith in s)
        (unpack_loop-tail_bytes n v 1 rest h ∙ ap (λ (k : ℕ). done v k rest) (omega arith)))

size_cases :
    (v : ℕ)
    → ((v < 2 ^ 7) × (w_uint_bytes v ≡ 1))
      ⊎ ((v < 2 ^ 14) × (w_uint_bytes v ≡ 2))
      ⊎ ((v < 2 ^ 21) × (w_uint_bytes v ≡ 3))
      ⊎ ((v < 2 ^ 28) × (w_uint_bytes v ≡ 4))
      ⊎ (w_uint_bytes v ≡ 5 + w_bytes_loop 5 v 32 0)
unfolding w_uint_bytes
size_cases v = ground arith

-- The bytes behind a long header hold the whole number.
long_size :
    (v : ℕ)
    → v < u64
    → (w_bytes_loop 5 v 32 0 < 5) × (v / 2 ^ (8 * (4 + w_bytes_loop 5 v 32 0)) ≡ 0)
unfolding w_bytes_loop
long_size v h = ground arith

long_value1 : (v n : ℕ) → w_uint_value1 v (5 + n) ≡ long_header (5 + n)
unfolding w_uint_value1
long_value1 v n = ground arith

-- The first byte is a header that says the count and carries the top bits.
uint_value1-Says :
    (v : ℕ)
    → v < u64
    → (n : ℕ) → w_uint_bytes v ≡ suc n
    → Says (w_uint_value1 v (suc n)) (suc n) (v / 2 ^ (8 * n))
unfolding w_uint_value1
uint_value1-Says v h n e = elim (size_cases v) [
  | inl (a, b) ↦ let p : n ≡ 0 = omega arith in rw p (header_1 (v / 2 ^ 0) (omega arith))
  | inr (inl (a, b)) ↦ let p : n ≡ 1 = omega arith in rw p (header_2 (v / 2 ^ 8) (omega arith))
  | inr (inr (inl (a, b))) ↦
      let p : n ≡ 2 = omega arith in rw p (header_3 (v / 2 ^ 16) (omega arith))
  | inr (inr (inr (inl (a, b)))) ↦
      let p : n ≡ 3 = omega arith in rw p (header_4 (v / 2 ^ 24) (omega arith))
  | inr (inr (inr (inr b))) ↦ long_Says v h n (omega arith)
]
  where
    long_Says :
        (v : ℕ)
        → v < u64
        → (n : ℕ) → suc n ≡ 5 + w_bytes_loop 5 v 32 0
        → Says (w_uint_value1 v (suc n)) (suc n) (v / 2 ^ (8 * n))
    long_Says v h n e =
        let L : ℕ = w_bytes_loop 5 v 32 0 in
        let q : n ≡ 4 + L = omega arith in
        let s : suc (4 + L) ≡ 5 + L = omega arith in
        let (small, zeros) = long_size v h in
        rw (q, s, long_value1, zeros) (header_long L (omega arith))

pub length-tail_bytes : (n v : ℕ) → length (tail_bytes n v) ≡ n
unfolding tail_bytes
length-tail_bytes zero v = refl
length-tail_bytes (suc n) v = ap suc (length-tail_bytes n v)

w_uint_bytes-pos : (v : ℕ) → 0 < w_uint_bytes v
w_uint_bytes-pos v = ground (arith, size_cases v)

-- chainpack_unpack_uint reads back every number that chainpack_pack_uint writes, and stops at the
-- byte behind it.
pub unpack_uint-uint_buf :
    (v : ℕ) (rest : List ℕ)
    → v < u64
    → unpack_uint (uint_buf v ++ rest) ≡ done v (length (uint_buf v)) rest
unfolding uint_buf
unpack_uint-uint_buf v rest h =
    let n : ℕ = w_uint_bytes v - 1 in
    let e : w_uint_bytes v ≡ suc n = omega (arith, w_uint_bytes-pos v) in
    let e' : suc n - 1 ≡ n = omega arith in
    rw (e, length-tail_bytes, e') (unpack_uint_by_header _ n v rest h (uint_value1-Says v h n e))
