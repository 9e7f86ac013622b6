-- ===== src/ChainPack/Pack.antt =====
-- chainpack_pack of libshvcp/chainpack_pack.c and common_pack of libshvcp/common.c.
pub mod Encoding
use shvc.Base.{ℕ, zero, suc, ◌+◌, ◌-◌, ◌*◌, ◌/◌, ◌%◌, ◌^◌, Bool, true, false, not, ◌&&◌, ltb, ◌==◌}
use shvc.Base.{if◌then◌else◌, Option, none, some, List, [], ◌∷◌}
use shvc.Base.{ℤ, pos, negsuc, ◌+ℤ◌, ◌-ℤ◌, ◌*ℤ◌, quot, rem, low_bits, nat_abs, is_neg}
use shvc.Stdio.{Sink, Pack, putc, write, write_mem, ◌⨾◌, ferror}
use shvc.CpItem.{CpItem, BufInfo, Value}
use shvc.ChainPack.Scheme
use shvc.ChainPack.IntegerCodec.{pack_uint, pack_int}

-- Nothing is written, and the count stays.
unfoldable pub skip : Pack
skip s = (some 0, s)

unfoldable pub when : Bool → Pack → Pack
unfolding skip
when b p = if b then p else skip

-- The bytes of a double on a little-endian host.
unfoldable pub le_bytes : ℕ → ℕ → List ℕ
le_bytes zero v = []
le_bytes (suc n) v = (v % 256) ∷ le_bytes n (v / 256)

-- CHAINPACK_EPOCH_MSEC.
abbrev pub epoch_msec : ℕ
epoch_msec = 1517529600000

-- The number that stands for a date and time. Each `|=` sets bits that are zero, so it is `+`.
unfoldable pub datetime_number : ℤ → ℤ → ℤ
datetime_number msecs offutc =
    let m = msecs -ℤ pos epoch_msec in
    let offset = low_bits (quot offutc 15) 7 in
    let ms = not (nat_abs (rem m 1000) == 0) in
    let seconds = if ms then m else quot m 1000 in
    let zoned = if offset == 0 then seconds else seconds *ℤ 128 +ℤ pos offset in
    zoned *ℤ 4 +ℤ pos ((if offset == 0 then 0 else 1) + (if ms then 0 else 2))

-- The case CPITEM_BLOB.
unfoldable pub pack_blob : BufInfo → Option (List ℕ) → Pack
pack_blob b mem =
    when b.first (
      if b.stream
      then putc Scheme.blob_chain
      else putc Scheme.blob ⨾ pack_uint ((b.len + b.eoff) % 2 ^ 64))
    ⨾ when (ltb 0 b.len) (when b.stream (pack_uint b.len) ⨾ write_mem mem b.len)
    ⨾ when (b.stream && b.last) (putc 0)

-- The case CPITEM_STRING.
unfoldable pub pack_string : BufInfo → Option (List ℕ) → Pack
pack_string b mem =
    when b.first (
      if b.stream
      then putc Scheme.cstring
      else putc Scheme.string ⨾ pack_uint ((b.len + b.eoff) % 2 ^ 64))
    ⨾ write_mem mem b.len
    ⨾ when (b.stream && b.last) (putc 0)

-- The switch of chainpack_pack. A CPITEM_INVALID item does not reach it.
unfoldable pub pack_value : Value → Option (List ℕ) → Pack
unfolding skip when le_bytes pack_blob pack_string
pack_value (Value.invalid e) mem = skip
pack_value Value.null mem = putc Scheme.null
pack_value (Value.bool b) mem = putc (if b then Scheme.true else Scheme.false)
pack_value (Value.int v) mem =
    if not (is_neg v) && ltb (nat_abs v) 64
    then putc (nat_abs v % 64 + 64)
    else putc Scheme.int ⨾ pack_int v
pack_value (Value.uint v) mem = if ltb v 64 then putc (v % 64) else putc Scheme.uint ⨾ pack_uint v
pack_value (Value.double d) mem = putc Scheme.double ⨾ write (le_bytes 8 d)
pack_value (Value.decimal m e) mem = putc Scheme.decimal ⨾ pack_int m ⨾ pack_int e
pack_value (Value.blob b) mem = pack_blob b mem
pack_value (Value.string b) mem = pack_string b mem
pack_value (Value.datetime m o) mem = putc Scheme.datetime ⨾ pack_int (datetime_number m o)
pack_value Value.list mem = putc Scheme.list
pack_value Value.map mem = putc Scheme.map
pack_value Value.imap mem = putc Scheme.imap
pack_value Value.meta mem = putc Scheme.meta_map
pack_value Value.container_end mem = putc Scheme.term

-- common_pack: `some` is the result with which the packer returns at once.
unfoldable pub is_skipped : Value → Option (Option ℕ)
is_skipped (Value.invalid e) = some (some 0)
is_skipped _ = none

unfoldable pub common_pack : Value → Sink → Option (Option ℕ)
unfolding is_skipped
common_pack v s = if ferror s then some none else is_skipped v

-- chainpack_pack.
unfoldable pub pack : CpItem → Pack
unfolding common_pack pack_value
pack item s = elim (common_pack item.value s) [
  | some res ↦ (res, s)
  | none ↦ pack_value item.value item.buf s
]
