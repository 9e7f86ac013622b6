-- ===== src/ChainPack/IntegerCodec.antt =====
-- chainpack_pack_uint and chainpack_pack_int of libshvcp/chainpack_pack.c, chainpack_unpack_uint
-- and chainpack_unpack_int of libshvcp/chainpack_unpack.c.
pub mod Unsigned
pub mod Signed
pub mod Bounds
use shvc.Base.{ℕ, zero, suc, ◌+◌, ◌-◌, ◌*◌, ◌/◌, ◌%◌, ◌^◌, ◌≤◌, bit_or}
use shvc.Base.{true, ltb, leb, ◌==◌, ◌&&◌, if◌then◌else◌, List, [], ◌∷◌, ◌++◌}
use shvc.Base.{ℤ, pos, negsuc, nat_abs, is_neg, of_sign}
use shvc.Stdio.{Pack, write}
use shvc.CpItem.{CpError, no_error, eof}
use shvc.ChainPack.Integer.{u64, int_bytes, uint_value1}
use shvc.ChainPack.Integer.{w_uint_bytes, w_int_bytes, w_uint_value1, w_int_value1}

-- `for (i = 1; i < bytes; i++) buf[i] = 0xff & (v >> (8 * (bytes - i - 1)));`, by the rounds left.
unfoldable pub tail_bytes : ℕ → ℕ → List ℕ
tail_bytes zero v = []
tail_bytes (suc n) v = (v / 2 ^ (8 * n) % 256) ∷ tail_bytes n v

-- The buffer that chainpack_pack_uint writes.
unfoldable pub uint_buf : ℕ → List ℕ
unfolding tail_bytes
uint_buf v = let bytes = w_uint_bytes v in w_uint_value1 v bytes ∷ tail_bytes (bytes - 1) v

unfoldable pub pack_uint : ℕ → Pack
pack_uint v = write (uint_buf v)

-- `buf[1] |= 0x80`, on the bytes from `buf[1]` on.
unfoldable pub set_sign : List ℕ → List ℕ
set_sign [] = []
set_sign (b ∷ bs) = bit_or b 0x80 ∷ bs

-- The buffer that chainpack_pack_int writes.
unfoldable pub int_buf : ℤ → List ℕ
unfolding tail_bytes set_sign
int_buf v =
    let bytes = w_int_bytes v in
    let tail = tail_bytes (bytes - 1) (nat_abs v) in
    w_int_value1 v bytes ∷ (if ltb 4 bytes && is_neg v then set_sign tail else tail)

unfoldable pub pack_int : ℤ → Pack
pack_int v = write (int_buf v)

-- What an integer unpacker leaves: `*v`, the returned count, `*err` and the rest of the input.
pub record Read {ℓ} (A : Type ℓ) : Type ℓ where
  pub value : A
  pub res : ℕ
  pub err : CpError
  pub rest : List ℕ

-- A success after `res` bytes.
abbrev pub done {ℓ} : {A : Type ℓ} → A → ℕ → List ℕ → Read A
done v res rest = record { value = v; res = res; err = no_error; rest = rest }

-- The loop of chainpack_unpack_uint by the rounds left. The low byte of `*v << 8` is zero, so `|`
-- with a byte is `+`.
unfoldable pub unpack_loop : ℕ → ℕ → ℕ → List ℕ → Read ℕ
unpack_loop zero v res bytes = done v res bytes
unpack_loop (suc n) v res [] = record { value = v; res = res; err = eof; rest = [] }
unpack_loop (suc n) v res (r ∷ bytes) = unpack_loop n (v * 256 % u64 + r) (res + 1) bytes

-- chainpack_unpack_uint. With no head byte `*v` is not assigned, and no caller reads it.
unfoldable pub unpack_uint : List ℕ → Read ℕ
unfolding unpack_loop
unpack_uint [] = record { value = 0; res = 0; err = eof; rest = [] }
unpack_uint (head ∷ bytes) =
    let n = int_bytes head in unpack_loop (n - 1) (uint_value1 head n) 1 bytes

-- An `intmax_t` is read from the bits of the `uintmax_t` at its address.
unfoldable pub to_int64 : ℕ → ℤ
to_int64 v = if ltb v (2 ^ 63) then pos v else negsuc (u64 - v - 1)

-- The place of the sign bit for `res` bytes.
unfoldable pub sign_shift : ℕ → ℕ
sign_shift res = if leb res 4 then 8 * res - res - 1 else 8 * (res - 1) - 1

-- `if (*v & sign_mask) { *v &= ~sign_mask; *v = -*v; }`. From ten bytes on the shift passes the
-- width of the mask, which C leaves undefined; here the mask is then zero.
unfoldable pub apply_sign : ℕ → ℕ → ℤ
unfolding sign_shift to_int64
apply_sign res v =
    let s = sign_shift res in if v / 2 ^ s % 2 == 1 then of_sign true (v - 2 ^ s) else to_int64 v

-- What chainpack_unpack_int makes of the result of chainpack_unpack_uint.
unfoldable pub sign_read : Read ℕ → Read ℤ
unfolding apply_sign
sign_read r = record {
  value = elim r.err [ no_error ↦ apply_sign r.res r.value | _ ↦ to_int64 r.value ];
  res = r.res;
  err = r.err;
  rest = r.rest;
}

-- chainpack_unpack_int.
unfoldable pub unpack_int : List ℕ → Read ℤ
unfolding unpack_uint sign_read
unpack_int bytes = sign_read (unpack_uint bytes)
