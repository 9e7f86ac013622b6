-- ===== src/ChainPack/Unpack/RoundTrip.antt =====
-- chainpack_pack and chainpack_unpack together, on the items without a buffer.
use shvc.Base.{
  ℕ, zero, suc, ◌+◌, ◌-◌, ◌/◌, ◌^◌, ◌≤◌, ◌<◌, ◌≡◌, refl, ap, ◌∙◌, arith, ◌==◌, not, ltb,
}
use shvc.Base.{Bool, true, false, List, ◌++◌, length, none, some, ◌&&◌, if◌then◌else◌, append_assoc}
use shvc.Base.{ℤ, pos, negsuc, nat_abs, is_neg, ◌*ℤ◌, IsInt64, length-append, Bool-cases, inl, inr}
use shvc.Base.Bytes.{all_below, all_below_sound}
use shvc.Stdio.{Source, file, write}
use shvc.ChainPack.Pack.{pack}
use shvc.ChainPack.Unpack.Datetime.{
  IsQuarters, datetime_value-datetime_number, datetime_number-IsInt64,
}
use shvc.CpItem.{CpError, no_error, CpItem, Value}
use shvc.ChainPack.Integer.{scheme_signed, scheme_uint}
use shvc.ChainPack.IntegerCodec.{int_buf}
use shvc.ChainPack.IntegerCodec.Unsigned.{unpack_uint-uint_buf}
use shvc.ChainPack.IntegerCodec.Signed.{unpack_int-int_buf, length-int_buf}
use shvc.ChainPack.Pack.{le_bytes, datetime_number, epoch_msec}
use shvc.ChainPack.Pack.Encoding.{encoding, HasPayload, pack-encoding}
use shvc.ChainPack.Unpack.{
  of_le_bytes, to_int32, give, unpack_item, is_open, unpack_next, has_error, unpack,
}

-- An item that chainpack_unpack replaces by the next one: no error is pending, and no string or
-- blob has bytes to come.
abbrev pub IsReady : Value → Type 0
IsReady (Value.invalid e) = e ≡ no_error
IsReady (Value.blob b) = is_open b ≡ false
IsReady (Value.string b) = is_open b ≡ false
IsReady _ = Unit

unpack_ready_at :
    (residue : CpError) (f : Source) (item : CpItem) (v : Value)
    → IsReady v
    → (if has_error v
        then record { res = 0; item = item; source = f }
        else unpack_next residue f item v)
      ≡ unpack_item f item residue f.bytes
unfolding has_error unpack_next
unpack_ready_at residue f item (Value.invalid e) h = rw (h, has_error)
unpack_ready_at residue f item (Value.blob b) h = rw (h, unpack_next)
unpack_ready_at residue f item (Value.string b) h = rw (h, unpack_next)
unpack_ready_at residue f item _ h = refl

pub unpack_ready :
    (residue : CpError) (f : Source) (item : CpItem)
    → IsReady item.value
    → unpack residue f item ≡ unpack_item f item residue f.bytes
unfolding unpack
unpack_ready residue f item h = unpack_ready_at residue f item item.value h

-- The scheme bytes that hold a small number.
small_int : (n : ℕ) → n < 64 → (scheme_signed (n + 64) ≡ true) × (scheme_uint (n + 64) ≡ n)
unfolding all_below scheme_signed scheme_uint
small_int n h =
    ground (
      arith,
      all_below_sound 64 (λ x. scheme_signed (x + 64) && scheme_uint (x + 64) == x) n refl h,
    )

small_uint : (n : ℕ) → n < 64 → (scheme_signed n ≡ false) × (scheme_uint n ≡ n)
unfolding all_below scheme_signed scheme_uint
small_uint n h =
    ground (arith, all_below_sound 64 (λ x. not (scheme_signed x) && scheme_uint x == x) n refl h)

of_le_bytes-le_bytes : (n v : ℕ) → v < 256 ^ n → of_le_bytes (le_bytes n v) ≡ v
unfolding of_le_bytes le_bytes
of_le_bytes-le_bytes zero v h = omega arith
of_le_bytes-le_bytes (suc n) v h = omega (arith, of_le_bytes-le_bytes n (v / 256) (omega arith))

to_int32-small : (v : ℤ) → nat_abs v < 2 ^ 31 → to_int32 v ≡ v
unfolding to_int32
to_int32-small (pos n) h = ground arith
to_int32-small (negsuc n) h = ground arith

module _ (f : Source) (item : CpItem) (residue : CpError) (rest : List ℕ) where
  abbrev Reads : Value → Type 0
  Reads v =
      unpack_item f item residue (encoding v none ++ rest)
      ≡ give f item v (length (encoding v none)) rest

  Reads-int : (v : ℤ) → IsInt64 v → Reads (Value.int v)
  unfolding unpack_item
  Reads-int v h = elim (Bool-cases (not (is_neg v) && ltb (nat_abs v) 64)) [
    | inl e ↦ rw e (ground (arith, small_int (nat_abs v)))
    | inr e ↦ rw e (
        rw (unpack_int-int_buf v rest h, length-int_buf v)
          (ap (λ (k : ℕ). give f item (Value.int v) k rest) (omega arith)))
  ]

  Reads-uint : (v : ℕ) → v < 2 ^ 64 → Reads (Value.uint v)
  unfolding unpack_item
  Reads-uint v h = elim (Bool-cases (ltb v 64)) [
    | inl e ↦ rw e (ground (arith, small_uint v))
    | inr e ↦ rw e (
        rw (unpack_uint-uint_buf v rest h)
          (ap (λ (k : ℕ). give f item (Value.uint v) k rest) (omega arith)))
  ]

  Reads-double : (d : ℕ) → d < 2 ^ 64 → Reads (Value.double d)
  unfolding unpack_item le_bytes
  Reads-double d h = ground (arith, of_le_bytes-le_bytes 8 d)

  Reads-decimal : (m e : ℤ) → IsInt64 m → nat_abs e < 2 ^ 31 → Reads (Value.decimal m e)
  unfolding unpack_item
  Reads-decimal m e h k =
      let small : IsInt64 e = omega arith in
      let count : 1 + length (int_buf m) + length (int_buf e)
          ≡ suc (length (int_buf m ++ int_buf e)) =
        omega (arith, length-append (int_buf m) (int_buf e)) in
      rw (append_assoc, unpack_int-int_buf m (int_buf e ++ rest) h, ← length-int_buf)
        (rw (unpack_int-int_buf e rest small, to_int32-small e k, ← length-int_buf)
          (ap (λ (n : ℕ). give f item (Value.decimal m e) n rest) count))

  Reads-datetime :
      (x : ℕ) (q : ℤ)
      → x < 2 ^ 53
      → IsQuarters q
      → Reads (Value.datetime (pos (epoch_msec + x)) (q *ℤ 15))
  unfolding unpack_item
  Reads-datetime x q small h =
      let d : ℤ = datetime_number (pos (epoch_msec + x)) (q *ℤ 15) in
      rw
        (
          unpack_int-int_buf d rest (datetime_number-IsInt64 x q small),
          ← length-int_buf,
          datetime_value-datetime_number x q h,
        )
        (ap (λ (n : ℕ). give f item (Value.datetime (pos (epoch_msec + x)) (q *ℤ 15)) n rest)
          (omega arith))

-- The values without a buffer that ChainPack can hold: numbers in the range of their C types, an
-- exponent that fits an `int`, times from the format's epoch on with an offset of whole quarters of
-- an hour.
pub data IsPlain : Value → Type 0 where
  null : IsPlain Value.null
  bool : (b : Bool) → IsPlain (Value.bool b)
  int : (v : ℤ) → IsInt64 v → IsPlain (Value.int v)
  uint : (v : ℕ) → v < 2 ^ 64 → IsPlain (Value.uint v)
  double : (d : ℕ) → d < 2 ^ 64 → IsPlain (Value.double d)
  decimal : (m e : ℤ) → IsInt64 m → nat_abs e < 2 ^ 31 → IsPlain (Value.decimal m e)
  datetime :
      (x : ℕ) (q : ℤ)
      → x < 2 ^ 53
      → IsQuarters q
      → IsPlain (Value.datetime (pos (epoch_msec + x)) (q *ℤ 15))
  list : IsPlain Value.list
  map : IsPlain Value.map
  imap : IsPlain Value.imap
  meta : IsPlain Value.meta
  container_end : IsPlain Value.container_end

reads :
    (f : Source) (item : CpItem) (residue : CpError) (rest : List ℕ) {v : Value}
    → IsPlain v
    → unpack_item f item residue (encoding v none ++ rest)
      ≡ give f item v (length (encoding v none)) rest
unfolding unpack_item
reads f item residue rest null = refl
reads f item residue rest (bool true) = refl
reads f item residue rest (bool false) = refl
reads f item residue rest (int v h) = Reads-int f item residue rest v h
reads f item residue rest (uint v h) = Reads-uint f item residue rest v h
reads f item residue rest (double d h) = Reads-double f item residue rest d h
reads f item residue rest (decimal m e h k) = Reads-decimal f item residue rest m e h k
reads f item residue rest (datetime x q h k) = Reads-datetime f item residue rest x q h k
reads f item residue rest list = refl
reads f item residue rest map = refl
reads f item residue rest imap = refl
reads f item residue rest meta = refl
reads f item residue rest container_end = refl

plain_payload : {v : Value} → IsPlain v → HasPayload v none
plain_payload null = tt
plain_payload _ = tt

-- chainpack_unpack gives back every plain value that chainpack_pack wrote to a stream with room for
-- it, returns the count that the packer returned, leaves the bytes behind it, and does not touch
-- the buffer. The item that it fills may hold any earlier value but an error or an unfinished
-- string or blob. Plain are null, Booleans, 64-bit integers but INTMAX_MIN, doubles, decimals with
-- such a mantissa and an exponent of a magnitude below 2 ^ 31, the marks of containers, and the
-- times of the 2 ^ 53 milliseconds from the format's epoch on with an offset of quarter hours that
-- seven bits hold.
pub unpack-pack :
    (residue : CpError) (v : Value) (item : CpItem) (w rest : List ℕ) (room : ℕ) (broken : Bool)
    → IsPlain v
    → IsReady item.value
    → length (encoding v none) ≤ room
    → (bytes : List ℕ) × (n : ℕ) × (pack
          (record { value = v; buf = none; bufsiz = 0 })
          (file w room false)
        ≡ (some n, file (w ++ bytes) (room - n) false))
      × (unpack residue (record { bytes = bytes ++ rest; broken = broken }) item ≡ record {
        res = n;
        item = record item { value = v };
        source = record { bytes = rest; broken = broken };
      })
unpack-pack residue v item w rest room broken h ready fits = (
  encoding v none,
  length (encoding v none),
  pack-encoding (record { value = v; buf = none; bufsiz = 0 }) (file w room false) refl
        (plain_payload h)
      ∙ (unfold write in ground arith),
  unpack_ready residue _ item ready ∙ reads _ item residue rest h ∙ (unfold give in refl),
)
