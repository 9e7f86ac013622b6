-- ===== src/ChainPack/Unpack.antt =====
-- chainpack_unpack of libshvcp/chainpack_unpack.c and common_unpack of libshvcp/common.c.
pub mod Datetime
pub mod RoundTrip
pub mod Payload
use shvc.Base.{
  ℕ, zero, suc, ◌+◌, ◌-◌, ◌*◌, ◌/◌, ◌%◌, ◌^◌, Bool, true, false, not, ◌&&◌, ◌||◌, ltb, ◌==◌,
}
use shvc.Base.{if◌then◌else◌, Option, none, some, List, [], ◌∷◌, length, take, drop}
use shvc.Base.{ℤ, pos, negsuc, ◌+ℤ◌, ◌-ℤ◌, ◌*ℤ◌, quot, low_bits}
use shvc.Stdio.{Source}
use shvc.CpItem.{CpError, no_error, eof, io, CpItem, BufInfo, Value}
use shvc.ChainPack.Scheme
use shvc.ChainPack.Integer.{scheme_signed, scheme_uint}
use shvc.ChainPack.IntegerCodec.{Read, unpack_uint, unpack_int}
use shvc.ChainPack.UnpackBuf.{Chunk, unpack_buf}
use shvc.ChainPack.Pack.{epoch_msec}

-- What the unpacker leaves: the returned count, the item and the stream.
pub record Unpacked : Type 0 where
  pub res : ℕ
  pub item : CpItem
  pub source : Source

-- The bytes of a double on a little-endian host.
unfoldable pub of_le_bytes : List ℕ → ℕ
of_le_bytes [] = 0
of_le_bytes (b ∷ bs) = b + 256 * of_le_bytes bs

-- `offset = (int8_t)(offset << 1); offset >>= 1;` on seven bits.
unfoldable pub sign_extend7 : ℕ → ℤ
sign_extend7 n = if ltb n 64 then pos n else negsuc (127 - n)

-- The case CPS_DateTime, once its number is read.
unfoldable pub datetime_value : ℤ → Value
unfolding sign_extend7 ◌+ℤ◌ ◌*ℤ◌ quot low_bits
datetime_value d =
    let has_tz_offset = low_bits d 1 == 1 in
    let has_not_msec = low_bits d 2 / 2 == 1 in
    let d1 = quot d 4 in
    let offset = if has_tz_offset then sign_extend7 (low_bits d1 7) else pos 0 in
    let d2 = if has_tz_offset then quot d1 128 else d1 in
    let d3 = if has_not_msec then d2 *ℤ 1000 else d2 in
    Value.datetime (d3 +ℤ pos epoch_msec) (offset *ℤ 15)

-- The exponent is stored in an `int`: the low 32 bits.
unfoldable pub to_int32 : ℤ → ℤ
unfolding low_bits
to_int32 v = let w = low_bits v 32 in if ltb w (2 ^ 31) then pos w else negsuc (2 ^ 32 - w - 1)

-- CPITEM_INVALID after a failed read: `feof(f) ? CPERR_EOF : CPERR_IO`.
unfoldable pub read_error : Source → CpError → CpError
read_error f e = elim e [ eof ↦ if f.broken then io else eof | other ↦ other ]

-- `CALL`: the count is added, and an error makes the item invalid.
unfoldable pub call {ℓ} :
    {A : Type ℓ} → Source → ℕ → CpItem → Read A → (A → ℕ → List ℕ → Unpacked) → Unpacked
unfolding read_error
call f res item r next =
    let ok = next r.value (res + r.res) r.rest in
    let fail : Unpacked = record {
      res = res + r.res;
      item = record item { value = Value.invalid (read_error f r.err) };
      source = record f { bytes = r.rest };
    } in
    elim r.err [ no_error ↦ ok | _ ↦ fail ]

module _ (f : Source) (item : CpItem) where
  -- The item gets its value and the function returns.
  unfoldable pub give : Value → ℕ → List ℕ → Unpacked
  give v res rest = record {
    res = res;
    item = record item { value = v };
    source = record f { bytes = rest };
  }

  -- `CALL(chainpack_unpack_buf, item)` on a string or a blob.
  unfoldable pub call_buf : Bool → BufInfo → ℕ → List ℕ → Unpacked
  unfolding call
  call_buf is_string info res bytes =
      let r = unpack_buf is_string item.bufsiz (record { info = info; mem = item.buf }) bytes in
      call f res (record item { buf = r.value.mem }) r
        λ c n rest. record {
          res = n;
          item = record item {
            value = if is_string then Value.string c.info else Value.blob c.info;
            buf = c.mem;
          };
          source = record f { bytes = rest };
        }

  -- The flags of the first chunk of a string or blob; `len` is set by the buffer's unpacker.
  unfoldable pub first_info : ℕ → Bool → BufInfo
  first_info eoff stream = record {
    len = 0;
    eoff = eoff;
    first = true;
    last = false;
    stream = stream;
    hex = false;
  }

  -- `READ` of a double.
  unfoldable pub read_double : List ℕ → Unpacked
  unfolding of_le_bytes give read_error
  read_double bytes =
      if ltb (length bytes) 8
      then give (Value.invalid (read_error f eof)) 1 []
      else give (Value.double (of_le_bytes (take 8 bytes))) 9 (drop 8 bytes)

  -- The switch on a scheme byte that is no packed integer. On an unknown scheme the byte is put
  -- back and the count of one byte stays; `as.Error` is not assigned and reads as `residue`.
  unfoldable pub unpack_scheme : CpError → ℕ → List ℕ → Unpacked
  unfolding give call call_buf first_info read_double datetime_value to_int32
  unpack_scheme residue scheme rest =
      if scheme == Scheme.null
      then give Value.null 1 rest
      else if scheme == Scheme.true
      then give (Value.bool true) 1 rest
      else if scheme == Scheme.false
      then give (Value.bool false) 1 rest
      else if scheme == Scheme.int
      then call f 1 item (unpack_int rest) (λ v n r. give (Value.int v) n r)
      else if scheme == Scheme.uint
      then call f 1 item (unpack_uint rest) (λ v n r. give (Value.uint v) n r)
      else if scheme == Scheme.double
      then read_double rest
      else if scheme == Scheme.decimal
      then call f 1 item (unpack_int rest) (λ m n r.
        call f n item (unpack_int r) (λ e n' r'. give (Value.decimal m (to_int32 e)) n' r'))
      else if scheme == Scheme.blob || scheme == Scheme.blob_chain
      then call f 1 item (unpack_uint rest)
          (λ v n r. call_buf false (first_info v (scheme == Scheme.blob_chain)) n r)
      else if scheme == Scheme.cstring
      then call_buf true (first_info 0 true) 1 rest
      else if scheme == Scheme.string
      then call f 1 item (unpack_uint rest) (λ v n r. call_buf true (first_info v false) n r)
      else if scheme == Scheme.datetime
      then call f 1 item (unpack_int rest) (λ v n r. give (datetime_value v) n r)
      else if scheme == Scheme.meta_map
      then give Value.meta 1 rest
      else if scheme == Scheme.map
      then give Value.map 1 rest
      else if scheme == Scheme.imap
      then give Value.imap 1 rest
      else if scheme == Scheme.list
      then give Value.list 1 rest
      else if scheme == Scheme.term
      then give Value.container_end 1 rest
      else give (Value.invalid residue) 1 (scheme ∷ rest)

  -- A new item, from its scheme byte on.
  unfoldable pub unpack_item : CpError → List ℕ → Unpacked
  unfolding unpack_scheme scheme_signed scheme_uint
  unpack_item residue [] = give (Value.invalid (read_error f eof)) 0 []
  unpack_item residue (scheme ∷ rest) =
      if ltb scheme Scheme.null
      then (if scheme_signed scheme
          then give (Value.int (pos (scheme_uint scheme))) 1 rest
          else give (Value.uint (scheme_uint scheme)) 1 rest)
      else unpack_scheme residue scheme rest

-- A string or blob with bytes to come: `eoff != 0 || !(flags & CPBI_F_LAST)`.
unfoldable pub is_open : BufInfo → Bool
is_open b = not (b.eoff == 0) || not b.last

-- The body of chainpack_unpack behind common_unpack.
unfoldable pub unpack_next : CpError → Source → CpItem → Value → Unpacked
unfolding is_open unpack_item
unpack_next residue f item (Value.blob b) =
    if is_open b
    then call_buf f item false (record b { first = false }) 0 f.bytes
    else unpack_item f item residue f.bytes
unpack_next residue f item (Value.string b) =
    if is_open b
    then call_buf f item true (record b { first = false }) 0 f.bytes
    else unpack_item f item residue f.bytes
unpack_next residue f item _ = unpack_item f item residue f.bytes

-- common_unpack: an item with an error is left as it is.
unfoldable pub has_error : Value → Bool
has_error (Value.invalid e) = elim e [ no_error ↦ false | _ ↦ true ]
has_error _ = false

-- chainpack_unpack.
unfoldable pub unpack : CpError → Source → CpItem → Unpacked
unfolding has_error unpack_next
unpack residue f item =
    if has_error item.value
    then record { res = 0; item = item; source = f }
    else unpack_next residue f item item.value
