-- ===== src/ChainPack/IntegerCodec/Signed.antt =====
-- chainpack_pack_int and chainpack_unpack_int together.
use shvc.Base.{
  ℕ, zero, suc, ◌+◌, ◌-◌, ◌*◌, ◌/◌, ◌%◌, ◌^◌, ◌≤◌, ◌<◌, ◌≡◌, refl, sym, bit_or, ap, ◌∙◌,
}
use shvc.Base.{Bool, true, false, if◌then◌else◌, List, [], ◌∷◌, ◌++◌, length, arith, ◌⊎◌, inl, inr}
use shvc.Base.{ℤ, pos, negsuc, nat_abs, is_neg, of_sign, IsInt64, of_sign_abs}
use shvc.Base.Bytes.{all_below, eq_below}
use native.Mathlib.Nat.{add-mul-div_right, add-div_right, div-eq_of_lt, div-lt_iff_lt-mul}
use native.Mathlib.Decide.{dec_lt}
use shvc.ChainPack.Integer.{u64, w_bytes_loop, int_bytes, uint_value1, long_header}
use shvc.ChainPack.Integer.{w_int_bytes, w_int_value1}
use shvc.ChainPack.IntegerCodec.{
  tail_bytes, int_buf, set_sign, done, unpack_uint, sign_shift, apply_sign, sign_read, unpack_int,
}
use shvc.ChainPack.IntegerCodec.Unsigned.{
  pow_shift, unpack_uint_by_header, length-tail_bytes, Says, Says-below, header_long,
}

two_pow-pos : (k : ℕ) → 0 < 2 ^ k
two_pow-pos zero = omega arith
two_pow-pos (suc k) = omega (arith, two_pow-pos k)

two_pow_mono : (k m : ℕ) → m ≤ k → 2 ^ m ≤ 2 ^ k
two_pow_mono zero zero h = omega arith
two_pow_mono zero (suc m) h = absurd (omega arith)
two_pow_mono (suc k) m h = elim (dec_lt m (suc k)) [
  | yes p ↦ omega (arith, two_pow_mono k m (omega arith))
  | no p ↦ let e : m ≡ suc k = omega arith in rw e (omega arith)
]

pow-pos : (m : ℕ) → 0 < 2 ^ (8 * m)
pow-pos m = two_pow-pos (8 * m)

-- The last `m` bytes do not see what lies above them.
tail_bytes-add : (m k v : ℕ) → tail_bytes m (v + k * 2 ^ (8 * m)) ≡ tail_bytes m v
unfolding tail_bytes
tail_bytes-add zero k v = refl
tail_bytes-add (suc m) k v =
    let e : v + k * 2 ^ (8 * suc m) ≡ v + k * 256 * 2 ^ (8 * m) = rw pow_shift (omega arith) in
    let q : (v + k * 256 * 2 ^ (8 * m)) / 2 ^ (8 * m) ≡ v / 2 ^ (8 * m) + k * 256 =
      add-mul-div_right v (k * 256) (pow-pos m) in
    rw (e, q, tail_bytes-add m (k * 256) v) (ap (λ x. x ∷ tail_bytes m v) (omega arith))

bit_or_sign : (x : ℕ) → x < 128 → bit_or x 0x80 ≡ x + 128
unfolding all_below
bit_or_sign = eq_below 128 _ _ refl

set_sign-tail_bytes :
    (m v : ℕ)
    → v / 2 ^ (8 * m) < 128
    → set_sign (tail_bytes (suc m) v) ≡ tail_bytes (suc m) (v + 128 * 2 ^ (8 * m))
unfolding tail_bytes set_sign
set_sign-tail_bytes m v h =
    rw (tail_bytes-add m 128 v, add-mul-div_right v 128 (pow-pos m))
      (ground (arith, bit_or_sign (v / 2 ^ (8 * m))))

apply_sign_set :
    (res v p : ℕ) → 2 ^ sign_shift res ≡ p → v < p → apply_sign res (v + p) ≡ of_sign true v
unfolding apply_sign
apply_sign_set res v p e h =
    rw e (ground (arith, add-div_right v {k = p} (omega arith), div-eq_of_lt h))

apply_sign_clear : (res v : ℕ) → v < 2 ^ sign_shift res → v < 2 ^ 63 → apply_sign res v ≡ pos v
unfolding apply_sign
apply_sign_clear res v h small = rw (div-eq_of_lt h) (ground arith)

-- `v` with its sign bit `p` above the magnitude.
abbrev with_sign : ℤ → ℕ → ℕ
with_sign v p = nat_abs v + (if is_neg v then p else 0)

apply_sign-with_sign :
    (v : ℤ) (res p : ℕ)
    → 2 ^ sign_shift res ≡ p
    → nat_abs v < p
    → IsInt64 v
    → apply_sign res (with_sign v p) ≡ v
apply_sign-with_sign (pos n) res p e h small =
    let q : n + 0 ≡ n = omega arith in rw q (apply_sign_clear res n (rw e h) small)
apply_sign-with_sign (negsuc n) res p e h small =
    apply_sign_set res (suc n) p e h ∙ of_sign_abs (negsuc n)

unpack_int-done :
    (bytes : List ℕ) (v res : ℕ) (rest : List ℕ)
    → unpack_uint bytes ≡ done v res rest
    → unpack_int bytes ≡ done (apply_sign res v) res rest
unfolding unpack_int
unpack_int-done bytes v res rest e = ap sign_read e

-- What the unpacker needs of a header and of the sign bit.
unpack_int_by_header :
    (v : ℤ) (c k p : ℕ) (rest : List ℕ)
    → 2 ^ sign_shift (suc k) ≡ p
    → nat_abs v < p
    → IsInt64 v
    → with_sign v p < u64
    → Says c (suc k) (with_sign v p / 2 ^ (8 * k))
    → unpack_int (c ∷ tail_bytes k (with_sign v p) ++ rest) ≡ done v (suc k) rest
unpack_int_by_header v c k p rest e h small fits says =
    unpack_int-done _ _ _ rest (unpack_uint_by_header c k (with_sign v p) rest fits says)
    ∙ ap (λ (x : ℤ). done x (suc k) rest) (apply_sign-with_sign v (suc k) p e h small)

size_cases :
    (v : ℤ)
    → ((nat_abs v < 2 ^ 6) × (w_int_bytes v ≡ 1))
      ⊎ ((nat_abs v < 2 ^ 13) × (w_int_bytes v ≡ 2))
      ⊎ ((nat_abs v < 2 ^ 20) × (w_int_bytes v ≡ 3))
      ⊎ ((nat_abs v < 2 ^ 27) × (w_int_bytes v ≡ 4))
      ⊎ (w_int_bytes v ≡ 5 + w_bytes_loop 5 (nat_abs v) 31 0)
unfolding w_int_bytes
size_cases v = ground arith

-- Behind a long header the top bit of the first byte is free for the sign.
long_size :
    (n : ℕ)
    → n < 2 ^ 63
    → (w_bytes_loop 5 n 31 0 < 5)
      × (n / 2 ^ (8 * (3 + w_bytes_loop 5 n 31 0)) < 128)
      × (2 ^ sign_shift (5 + w_bytes_loop 5 n 31 0) ≡ 128 * 2 ^ (8 * (3 + w_bytes_loop 5 n 31 0)))
unfolding w_bytes_loop sign_shift
long_size n h = ground arith

abbrev sign_header : Bool → ℕ → ℕ → ℕ
sign_header neg bytes x = bit_or ((if neg then 0xe8 else 0xe0) * 2 ^ (4 - bytes)) x % 256

sign_header_1 : (s : Bool) (x : ℕ) → x < 64 → Says (sign_header s 1 x) 1 (x + (if s then 64 else 0))
unfolding int_bytes uint_value1 all_below
sign_header_1 true = Says-below 64 (sign_header true 1) (λ _. 1) (λ x. x + 64) refl
sign_header_1 false = Says-below 64 (sign_header false 1) (λ _. 1) (λ x. x + 0) refl

sign_header_2 : (s : Bool) (x : ℕ) → x < 32 → Says (sign_header s 2 x) 2 (x + (if s then 32 else 0))
unfolding int_bytes uint_value1 all_below
sign_header_2 true = Says-below 32 (sign_header true 2) (λ _. 2) (λ x. x + 32) refl
sign_header_2 false = Says-below 32 (sign_header false 2) (λ _. 2) (λ x. x + 0) refl

sign_header_3 : (s : Bool) (x : ℕ) → x < 16 → Says (sign_header s 3 x) 3 (x + (if s then 16 else 0))
unfolding int_bytes uint_value1 all_below
sign_header_3 true = Says-below 16 (sign_header true 3) (λ _. 3) (λ x. x + 16) refl
sign_header_3 false = Says-below 16 (sign_header false 3) (λ _. 3) (λ x. x + 0) refl

sign_header_4 : (s : Bool) (x : ℕ) → x < 8 → Says (sign_header s 4 x) 4 (x + (if s then 8 else 0))
unfolding int_bytes uint_value1 all_below
sign_header_4 true = Says-below 8 (sign_header true 4) (λ _. 4) (λ x. x + 8) refl
sign_header_4 false = Says-below 8 (sign_header false 4) (λ _. 4) (λ x. x + 0) refl

-- A number of at most four bytes: the sign bit `top` stands in the header.
abbrev sign_top : ℤ → ℕ → ℕ
sign_top v top = if is_neg v then top else 0

with_sign_top :
    (v : ℤ) (k top p : ℕ)
    → p ≡ top * 2 ^ (8 * k)
    → with_sign v p ≡ nat_abs v + sign_top v top * 2 ^ (8 * k)
with_sign_top (pos n) k top p e = omega arith
with_sign_top (negsuc n) k top p e = omega arith

unpack_int_short :
    (v : ℤ) (c k top p : ℕ) (rest : List ℕ)
    → 2 ^ sign_shift (suc k) ≡ p
    → p ≡ top * 2 ^ (8 * k)
    → nat_abs v < p
    → p < 2 ^ 62
    → Says c (suc k) (nat_abs v / 2 ^ (8 * k) + sign_top v top)
    → unpack_int (c ∷ tail_bytes k (nat_abs v) ++ rest) ≡ done v (suc k) rest
unpack_int_short v c k top p rest e e' h small says =
    let t : ℕ = sign_top v top in
    let s : with_sign v p ≡ nat_abs v + t * 2 ^ (8 * k) = with_sign_top v k top p e' in
    let b : tail_bytes k (nat_abs v) ≡ tail_bytes k (with_sign v p) =
      rw s (sym (tail_bytes-add k t (nat_abs v))) in
    let d : with_sign v p / 2 ^ (8 * k) ≡ nat_abs v / 2 ^ (8 * k) + t =
      rw s (add-mul-div_right (nat_abs v) t (pow-pos k)) in
    rw b
      (unpack_int_by_header v c k p rest e h (omega arith) (with_sign-lt v p h small) (rw d says))
  where
    with_sign-lt : (v : ℤ) (p : ℕ) → nat_abs v < p → p < 2 ^ 62 → with_sign v p < u64
    with_sign-lt v p h small = ground arith

short_value1 :
    (v : ℤ) (k : ℕ)
    → k < 4
    → w_int_value1 v (suc k) ≡ sign_header (is_neg v) (suc k) (nat_abs v / 2 ^ (8 * k))
unfolding w_int_value1
short_value1 v k h = ground arith

long_value1 : (v : ℤ) (n : ℕ) → w_int_value1 v (5 + n) ≡ long_header (5 + n)
unfolding w_int_value1
long_value1 v n = ground arith

short_buf :
    (v : ℤ) (k : ℕ)
    → w_int_bytes v ≡ suc k
    → k < 4
    → int_buf v ≡ w_int_value1 v (suc k) ∷ tail_bytes k (nat_abs v)
unfolding int_buf
short_buf v k e h = let e' : suc k - 1 ≡ k = omega arith in rw (e, e') (ground arith)

long_buf :
    (v : ℤ) (n : ℕ)
    → w_int_bytes v ≡ 5 + n
    → nat_abs v / 2 ^ (8 * (3 + n)) < 128
    → int_buf v ≡ long_header (5 + n) ∷ tail_bytes (4 + n) (with_sign v (128 * 2 ^ (8 * (3 + n))))
unfolding int_buf
long_buf v n e h =
    let e1 : 5 + n - 1 ≡ suc (3 + n) = omega arith in
    let e2 : 4 + n ≡ suc (3 + n) = omega arith in
    rw (e, e1, e2, long_value1)
      (ground (arith, set_sign-tail_bytes (3 + n) (nat_abs v), tail_bytes-add_zero))
  where
    tail_bytes-add_zero :
        tail_bytes (suc (3 + n)) (nat_abs v + 0) ≡ tail_bytes (suc (3 + n)) (nat_abs v)
    tail_bytes-add_zero = ap (tail_bytes (suc (3 + n))) (omega arith)

long_top : (n m : ℕ) → n / 2 ^ (8 * m) < 128 → n < 128 * 2 ^ (8 * m)
long_top n m h = (div-lt_iff_lt-mul (pow-pos m)).0 h

long_fits :
    (v : ℤ) (m : ℕ)
    → m ≤ 7
    → nat_abs v < 128 * 2 ^ (8 * m)
    → (with_sign v (128 * 2 ^ (8 * m)) < u64)
      × (with_sign v (128 * 2 ^ (8 * m)) / 2 ^ (8 * suc m) ≡ 0)
long_fits v m small h =
    let cap : 2 ^ (8 * m) ≤ 2 ^ 56 = two_pow_mono 56 (8 * m) (omega arith) in
    let double : with_sign v (128 * 2 ^ (8 * m)) < 256 * 2 ^ (8 * m) = with_sign-lt_double v _ h in
    (omega arith, rw pow_shift (div-eq_of_lt (omega arith)))
  where
    with_sign-lt_double : (v : ℤ) (x : ℕ) → nat_abs v < 128 * x → with_sign v (128 * x) < 256 * x
    with_sign-lt_double v x h = ground arith

unpack_int_long :
    (v : ℤ) (rest : List ℕ)
    → IsInt64 v
    → w_int_bytes v ≡ 5 + w_bytes_loop 5 (nat_abs v) 31 0
    → unpack_int (int_buf v ++ rest) ≡ done v (w_int_bytes v) rest
unpack_int_long v rest h e =
    let L : ℕ = w_bytes_loop 5 (nat_abs v) 31 0 in
    let (few, top, place) = long_size (nat_abs v) h in
    let p : ℕ = 128 * 2 ^ (8 * (3 + L)) in
    let below : nat_abs v < p = long_top (nat_abs v) (3 + L) top in
    let (fits, zeros) = long_fits v (3 + L) (omega arith) below in
    let e1 : suc (4 + L) ≡ 5 + L = omega arith in
    let e2 : suc (3 + L) ≡ 4 + L = omega arith in
    rw (long_buf v L e top, e, ← e1)
      (unpack_int_by_header v _ (4 + L) p rest (rw e1 place) below h fits
        (rw (e1, ← e2, zeros) (header_long L (omega arith))))

-- chainpack_unpack_int reads back every number that chainpack_pack_int writes but INTMAX_MIN, whose
-- negation overflows, and stops at the byte behind it.
pub unpack_int-int_buf :
    (v : ℤ) (rest : List ℕ)
    → IsInt64 v
    → unpack_int (int_buf v ++ rest) ≡ done v (w_int_bytes v) rest
unfolding sign_shift
unpack_int-int_buf v rest h = elim (size_cases v) [
  | inl (a, b) ↦
      rw (short_buf v 0 b (omega arith), b, short_value1 v 0 (omega arith))
        (unpack_int_short v _ 0 64 64 rest refl refl a (omega arith)
          (sign_header_1 (is_neg v) _ (omega arith)))
  | inr (inl (a, b)) ↦
      rw (short_buf v 1 b (omega arith), b, short_value1 v 1 (omega arith))
        (unpack_int_short v _ 1 32 8192 rest refl refl a (omega arith)
          (sign_header_2 (is_neg v) _ (omega arith)))
  | inr (inr (inl (a, b))) ↦
      rw (short_buf v 2 b (omega arith), b, short_value1 v 2 (omega arith))
        (unpack_int_short v _ 2 16 1048576 rest refl refl a (omega arith)
          (sign_header_3 (is_neg v) _ (omega arith)))
  | inr (inr (inr (inl (a, b)))) ↦
      rw (short_buf v 3 b (omega arith), b, short_value1 v 3 (omega arith))
        (unpack_int_short v _ 3 8 134217728 rest refl refl a (omega arith)
          (sign_header_4 (is_neg v) _ (omega arith)))
  | inr (inr (inr (inr b))) ↦ unpack_int_long v rest h b
]

length-set_sign : (bs : List ℕ) → length (set_sign bs) ≡ length bs
unfolding set_sign
length-set_sign [] = refl
length-set_sign (b ∷ bs) = refl

pub length-int_buf : (v : ℤ) → length (int_buf v) ≡ w_int_bytes v
unfolding int_buf
length-int_buf v = ground (
  arith,
  size_cases v,
  length-tail_bytes (w_int_bytes v - 1) (nat_abs v),
  length-set_sign (tail_bytes (w_int_bytes v - 1) (nat_abs v)),
)
