-- ===== src/ChainPack/Pack/Encoding.antt =====
-- The bytes of each item, and chainpack_pack as one write of them.
use shvc.Base.{ℕ, ◌+◌, ◌-◌, ◌%◌, ◌^◌, ◌≤◌, ◌≡◌, refl, ap, Bool, true, false, not, ◌&&◌, ltb, leb}
use shvc.Base.{
  if◌then◌else◌, Option, none, some, List, [], ◌∷◌, ◌++◌, append-nil, length, take, arith,
}
use shvc.Base.{ℤ, nat_abs, is_neg, length-take}
use shvc.Stdio.{Sink, null, file, Pack, write, write_mem, ferror}
use shvc.Stdio.Laws.{write-append}
use shvc.CpItem.{CpItem, BufInfo, Value}
use shvc.ChainPack.Scheme
use shvc.ChainPack.IntegerCodec.{uint_buf, int_buf, pack_uint, pack_int}
use shvc.ChainPack.Pack.{
  skip, is_skipped, when, le_bytes, datetime_number, pack_blob, pack_string, pack_value,
  common_pack, pack,
}
use mathlib.Core.Option
use mathlib.Core.Path.{fun_ext}

abbrev pub opt : Bool → List ℕ → List ℕ
opt b bs = if b then bs else []

-- The data behind the pointer of a string or blob item.
abbrev pub payload : BufInfo → Option (List ℕ) → List ℕ
payload b mem = take b.len (Option.get_or mem [])

-- A string or blob opens with its scheme and, if it is no stream, with its whole length.
abbrev pub opening : ℕ → ℕ → BufInfo → List ℕ
opening plain chain b =
    opt b.first (if b.stream then chain ∷ [] else plain ∷ uint_buf ((b.len + b.eoff) % 2 ^ 64))

abbrev pub closing : BufInfo → List ℕ
closing b = opt (b.stream && b.last) (0 ∷ [])

abbrev pub encoding : Value → Option (List ℕ) → List ℕ
encoding (Value.invalid e) mem = []
encoding Value.null mem = Scheme.null ∷ []
encoding (Value.bool b) mem = (if b then Scheme.true else Scheme.false) ∷ []
encoding (Value.int v) mem =
    if not (is_neg v) && ltb (nat_abs v) 64 then (nat_abs v + 64) ∷ [] else Scheme.int ∷ int_buf v
encoding (Value.uint v) mem = if ltb v 64 then v ∷ [] else Scheme.uint ∷ uint_buf v
encoding (Value.double d) mem = Scheme.double ∷ le_bytes 8 d
encoding (Value.decimal m e) mem = Scheme.decimal ∷ int_buf m ++ int_buf e
encoding (Value.datetime m o) mem = Scheme.datetime ∷ int_buf (datetime_number m o)
encoding (Value.blob b) mem =
    opening Scheme.blob Scheme.blob_chain b
    ++ (opt (ltb 0 b.len) (opt b.stream (uint_buf b.len) ++ payload b mem) ++ closing b)
encoding (Value.string b) mem =
    opening Scheme.string Scheme.cstring b ++ (payload b mem ++ closing b)
encoding Value.list mem = Scheme.list ∷ []
encoding Value.map mem = Scheme.map ∷ []
encoding Value.imap mem = Scheme.imap ∷ []
encoding Value.meta mem = Scheme.meta_map ∷ []
encoding Value.container_end mem = Scheme.term ∷ []

-- The memory of a string or blob holds the bytes that the item announces.
abbrev pub HasPayload : Value → Option (List ℕ) → Type 0
HasPayload (Value.blob b) mem = b.len ≤ length (Option.get_or mem [])
HasPayload (Value.string b) mem = b.len ≤ length (Option.get_or mem [])
HasPayload _ mem = Unit

skip-write_at : (s : Sink) → skip s ≡ write [] s
unfolding skip write
skip-write_at null = refl
skip-write_at (file w room failed) = ground (arith, append-nil w)

skip-write : skip ≡ write []
skip-write = fun_ext skip-write_at

write_mem-write_at :
    (mem : Option (List ℕ)) (n : ℕ) (s : Sink)
    → n ≤ length (Option.get_or mem [])
    → write_mem mem n s ≡ write (take n (Option.get_or mem [])) s
unfolding write_mem write
write_mem-write_at mem n null h =
    ap (λ (k : ℕ). (some k, null)) (omega (arith, length-take n (Option.get_or mem [])))
write_mem-write_at mem n (file w room failed) h = refl

write_mem-write :
    (mem : Option (List ℕ)) (n : ℕ)
    → n ≤ length (Option.get_or mem [])
    → write_mem mem n ≡ write (take n (Option.get_or mem []))
write_mem-write mem n h = fun_ext (λ s. write_mem-write_at mem n s h)

when-write : (b : Bool) (bs : List ℕ) → when b (write bs) ≡ write (opt b bs)
unfolding when
when-write true bs = refl
when-write false bs = skip-write

if-write :
    (b : Bool) (xs ys : List ℕ) → (if b then write xs else write ys) ≡ write (if b then xs else ys)
if-write true xs ys = refl
if-write false xs ys = refl

ruleset write_laws = (write-append, when-write, if-write)

pack_blob-encoding :
    (b : BufInfo) (mem : Option (List ℕ))
    → HasPayload (Value.blob b) mem
    → pack_blob b mem ≡ write (encoding (Value.blob b) mem)
unfolding pack_blob pack_uint
pack_blob-encoding b mem h = simp (write_laws, write_mem-write mem b.len h)

pack_string-encoding :
    (b : BufInfo) (mem : Option (List ℕ))
    → HasPayload (Value.string b) mem
    → pack_string b mem ≡ write (encoding (Value.string b) mem)
unfolding pack_string pack_uint
pack_string-encoding b mem h = simp (write_laws, write_mem-write mem b.len h)

pack_int-encoding :
    (v : ℤ) (mem : Option (List ℕ))
    → pack_value (Value.int v) mem ≡ write (encoding (Value.int v) mem)
unfolding pack_value pack_int
pack_int-encoding v mem = simp write_laws (ap write (ground arith))

pack_uint-encoding :
    (v : ℕ) (mem : Option (List ℕ))
    → pack_value (Value.uint v) mem ≡ write (encoding (Value.uint v) mem)
unfolding pack_value pack_uint
pack_uint-encoding v mem = simp write_laws (ap write (ground arith))

pack_value-encoding :
    (v : Value) (mem : Option (List ℕ))
    → HasPayload v mem
    → pack_value v mem ≡ write (encoding v mem)
unfolding pack_value pack_int
pack_value-encoding (Value.invalid e) mem h = skip-write
pack_value-encoding Value.null mem h = refl
pack_value-encoding (Value.bool true) mem h = refl
pack_value-encoding (Value.bool false) mem h = refl
pack_value-encoding (Value.int v) mem h = pack_int-encoding v mem
pack_value-encoding (Value.uint v) mem h = pack_uint-encoding v mem
pack_value-encoding (Value.double d) mem h = simp write_laws
pack_value-encoding (Value.decimal m e) mem h = simp write_laws
pack_value-encoding (Value.datetime m o) mem h = simp write_laws
pack_value-encoding (Value.blob b) mem h = pack_blob-encoding b mem h
pack_value-encoding (Value.string b) mem h = pack_string-encoding b mem h
pack_value-encoding Value.list mem h = refl
pack_value-encoding Value.map mem h = refl
pack_value-encoding Value.imap mem h = refl
pack_value-encoding Value.meta mem h = refl
pack_value-encoding Value.container_end mem h = refl

pack-encoding_at :
    (v : Value) (mem : Option (List ℕ)) (n : ℕ) (s : Sink)
    → ferror s ≡ false
    → HasPayload v mem
    → pack (record { value = v; buf = mem; bufsiz = n }) s ≡ write (encoding v mem) s
unfolding pack common_pack is_skipped
pack-encoding_at (Value.invalid x) mem n s e h = rw (pack, common_pack, e) (skip-write_at s)
pack-encoding_at v mem n s e h =
    rw (pack, common_pack, e) (ap (λ (p : Pack). p s) (pack_value-encoding v mem h))

-- chainpack_pack of an item on a stream without an error, or on NULL, writes the bytes of the item
-- in one piece, for every item whose memory holds the bytes that it announces.
pub pack-encoding :
    (item : CpItem) (s : Sink)
    → ferror s ≡ false
    → HasPayload item.value item.buf
    → pack item s ≡ write (encoding item.value item.buf) s
pack-encoding item s e h = pack-encoding_at item.value item.buf item.bufsiz s e h

-- On a stream with the error indicator set chainpack_pack returns -1 and writes nothing.
pub pack_failed :
    (item : CpItem) (w : List ℕ) (room : ℕ)
    → pack item (file w room true) ≡ (none, file w room true)
unfolding pack common_pack
pack_failed item w room = refl

-- The count that chainpack_pack returns for a NULL stream decides a write to a stream: if the
-- stream takes as many bytes, the packer returns that count and the item's bytes are written; if
-- not, it returns -1, the stream has the bytes that fitted, and its error indicator is set.
pub pack_predicts :
    (item : CpItem) (w : List ℕ) (room : ℕ)
    → HasPayload item.value item.buf
    → (n : ℕ) × ((pack item null).0 ≡ some n)
      × (pack item (file w room false) ≡ (
          if leb n room
          then (some n, file (w ++ encoding item.value item.buf) (room - n) false)
          else (none, file (w ++ take room (encoding item.value item.buf)) 0 true)))
unfolding write
pack_predicts item w room h = (
  length (encoding item.value item.buf),
  ap (λ (r : Option ℕ × Sink). r.0) (pack-encoding item null refl h),
  pack-encoding item (file w room false) refl h,
)
