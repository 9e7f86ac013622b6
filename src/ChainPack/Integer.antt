-- ===== src/ChainPack/Integer.antt =====
-- The integer layout of include/shv/chainpack.h.
use shvc.Base.{ℕ, zero, suc, ◌+◌, ◌-◌, ◌*◌, ◌/◌, ◌%◌, ◌^◌, bit_and, bit_or}
use shvc.Base.{Bool, ltb, ◌==◌, not, if◌then◌else◌}
use shvc.Base.{ℤ, pos, nat_abs, is_neg, of_sign}

abbrev pub u64 : ℕ
u64 = 2 ^ 64

-- chainpack_scheme_signed: `c & 0x40`.
unfoldable pub scheme_signed : ℕ → Bool
scheme_signed c = not (bit_and c 0x40 == 0)

-- chainpack_scheme_uint: `c & 0x3f`.
unfoldable pub scheme_uint : ℕ → ℕ
scheme_uint c = bit_and c 0x3f

-- The loop of chainpack_int_bytes. `fuel` bounds the rounds; the mask passes 0x0f after four.
int_bytes_loop : ℕ → ℕ → ℕ → ℕ → ℕ
int_bytes_loop zero c mask i = 0
int_bytes_loop (suc fuel) c mask i =
    let next = int_bytes_loop fuel c (mask / 2) (i + 1) in
    if ltb 0x0f mask then (if bit_and c mask == 0 then i else next) else bit_and c 0x0f + 5

-- chainpack_int_bytes.
unfoldable pub int_bytes : ℕ → ℕ
unfolding int_bytes_loop
int_bytes c = int_bytes_loop 5 c 0x80 1

-- chainpack_uint_value1.
unfoldable pub uint_value1 : ℕ → ℕ → ℕ
uint_value1 c bytes = if ltb 4 bytes then 0 else bit_and (0xff / 2 ^ bytes) c

-- chainpack_int_value1.
unfoldable pub int_value1 : ℕ → ℕ → ℤ
int_value1 c bytes =
    if ltb 4 bytes
    then pos 0
    else of_sign (not (bit_and (0x80 / 2 ^ bytes) c == 0)) (bit_and (0x7f / 2 ^ bytes) c)

-- chainpack_w_scheme_uint and chainpack_w_scheme_int.
unfoldable pub w_scheme_uint : ℕ → ℕ
w_scheme_uint num = bit_and num 0x3f

unfoldable pub w_scheme_int : ℕ → ℕ
w_scheme_int num = bit_or 0x40 (bit_and num 0x3f)

-- `num & (ULLONG_MAX << k)` keeps the bits of a 64-bit number from bit k on: it is zero exactly
-- when `num >> k` is.
abbrev pub has_bits_from : ℕ → ℕ → Bool
has_bits_from k num = not (num / 2 ^ k == 0)

-- `for (i = 0; (num & mask) != 0; i++) mask <<= 8;` with the mask `ULLONG_MAX << k`.
unfoldable pub w_bytes_loop : ℕ → ℕ → ℕ → ℕ → ℕ
w_bytes_loop zero num k i = i
w_bytes_loop (suc fuel) num k i =
    let next = w_bytes_loop fuel num (k + 8) (i + 1) in if has_bits_from k num then next else i

-- chainpack_w_uint_bytes. The mask is zero after five shifts, so five rounds are enough.
unfoldable pub w_uint_bytes : ℕ → ℕ
unfolding w_bytes_loop
w_uint_bytes num =
    if not (has_bits_from 7 num)
    then 1
    else if not (has_bits_from 14 num)
    then 2
    else if not (has_bits_from 21 num)
    then 3
    else if not (has_bits_from 28 num)
    then 4
    else 5 + w_bytes_loop 5 num 32 0

-- chainpack_w_int_bytes.
unfoldable pub w_int_bytes : ℤ → ℕ
unfolding w_bytes_loop
w_int_bytes num =
    let n = nat_abs num in
    if not (has_bits_from 6 n)
    then 1
    else if not (has_bits_from 13 n)
    then 2
    else if not (has_bits_from 20 n)
    then 3
    else if not (has_bits_from 27 n)
    then 4
    else 5 + w_bytes_loop 5 n 31 0

-- The header byte of a number longer than four bytes: `0xf0 | ((bytes - 5) & 0x0f)`.
abbrev pub long_header : ℕ → ℕ
long_header bytes = bit_or 0xf0 (bit_and (bytes - 5) 0x0f)

-- chainpack_w_uint_value1; the return type keeps the low byte.
unfoldable pub w_uint_value1 : ℕ → ℕ → ℕ
w_uint_value1 num bytes =
    if ltb 4 bytes
    then long_header bytes
    else bit_or (0xe0 * 2 ^ (4 - bytes)) (num / 2 ^ (8 * (bytes - 1))) % 256

-- chainpack_w_int_value1.
unfoldable pub w_int_value1 : ℤ → ℕ → ℕ
w_int_value1 num bytes =
    if ltb 4 bytes
    then long_header bytes
    else bit_or ((if is_neg num then 0xe8 else 0xe0) * 2 ^ (4 - bytes))
        (nat_abs num / 2 ^ (8 * (bytes - 1)))
      % 256
