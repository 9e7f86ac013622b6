-- ===== src/ChainPack/UnpackBuf.antt =====
-- chainpack_unpack_buf of libshvcp/chainpack_unpack.c.
pub mod Fuel
pub mod Chunks
use shvc.Base.{ℕ, zero, suc, ◌+◌, ◌-◌, ◌*◌, min, Bool, true, false, ltb, leb, ◌==◌, ◌&&◌, not}
use shvc.Base.{if◌then◌else◌, Option, none, some, List, [], ◌∷◌, ◌++◌, length, take, drop}
use shvc.CpItem.{CpError, no_error, eof, BufInfo}
use shvc.ChainPack.Integer.{u64}
use shvc.ChainPack.IntegerCodec.{Read, done, unpack_uint}

-- What the function changes in the item: the flags and counts, and the memory of the buffer.
pub record Chunk : Type 0 where
  pub info : BufInfo
  pub mem : Option (List ℕ)

-- Bytes stored in the buffer from an offset on; with NULL they are dropped.
unfoldable pub store : Option (List ℕ) → ℕ → List ℕ → Option (List ℕ)
store none off bs = none
store (some mem) off bs = some (take off mem ++ bs ++ drop (off + length bs) mem)

-- The loop over a C string, by the rounds that `bufsiz` leaves, after `i` of them.
unfoldable pub cstring_loop : ℕ → ℕ → BufInfo → Option (List ℕ) → List ℕ → Read Chunk
unfolding store
cstring_loop zero i info mem bytes =
    done (record { info = record info { len = i }; mem = mem }) i bytes
cstring_loop (suc n) i info mem [] = record {
  value = record { info = info; mem = mem };
  res = i;
  err = eof;
  rest = [];
}
cstring_loop (suc n) i info mem (c ∷ bytes) =
    let rest = cstring_loop n (i + 1) info (store mem i (c ∷ [])) bytes in
    if c == 0
    then done (record { info = record info { len = i; last = true }; mem = mem }) (i + 1) bytes
    else rest

-- The loop variables: the chunk, `res`, `*err` and the input.
pub record Loop : Type 0 where
  pub info : BufInfo
  pub mem : Option (List ℕ)
  pub res : ℕ
  pub err : CpError
  pub bytes : List ℕ

-- How a round ends: by `break`, or at the loop's condition.
pub data Round : Type 0 where
  stop again : Loop → Round

-- The end of a round, behind the read of the next chunk's size: an empty rest is the last one.
unfoldable pub end_round : Loop → Round
end_round s =
    if s.info.eoff == 0 then stop (record s { info = record s.info { last = true } }) else again s

-- The size of the next chunk. An error that is already there is kept, since only failures set it.
unfoldable pub next_size : Loop → Round
next_size s =
    let r = unpack_uint s.bytes in
    let err' : CpError = elim r.err [ no_error ↦ s.err | e ↦ e ] in
    let s' : Loop = record s { res = s.res + r.res; err = err'; bytes = r.rest } in
    elim err' [
      | no_error ↦ end_round (record s' { info = record s.info { eoff = r.value } })
      | _ ↦ stop s'
    ]

-- The rest of a round, once `toread` bytes are read or dropped.
unfoldable pub after_read : ℕ → Loop → Round
after_read toread s =
    let info' : BufInfo = record s.info { len = toread; eoff = s.info.eoff - toread } in
    let s' : Loop = record s { info = info'; res = s.res + toread } in
    if info'.stream && info'.eoff == 0 then next_size s' else end_round s'

-- One round. A read into memory that fails breaks the loop. A read that drops the bytes (in pieces
-- of BUFSIZ) breaks only its own inner loop when it fails, and the round goes on.
unfoldable pub round : ℕ → Loop → Round
round bufsiz s =
    let toread = min s.info.eoff (bufsiz - s.info.len) in
    let missing = ltb (length s.bytes) toread in
    elim s.mem [
      | some mem ↦
          if missing
          then stop (record s { mem = store (some mem) s.info.len s.bytes; err = eof; bytes = [] })
          else after_read toread (record s {
            mem = store (some mem) s.info.len (take toread s.bytes);
            bytes = drop toread s.bytes;
          })
      | none ↦
          after_read toread
            (record s { err = if missing then eof else s.err; bytes = drop toread s.bytes })
    ]

-- `while (item->as.Blob.len < item->bufsiz)` by fuel.
unfoldable pub buf_loop : ℕ → ℕ → Loop → Loop
buf_loop zero bufsiz s = s
buf_loop (suc fuel) bufsiz s = elim (round bufsiz s) [
  | stop s' ↦ s'
  | again s' ↦ elim (ltb s'.info.len bufsiz) [ true ↦ buf_loop fuel bufsiz s' | false ↦ s' ]
]

-- Every round consumes input or lowers `eoff`, which is below 2 ^ 64.
unfoldable pub measure : Loop → ℕ
measure s = length s.bytes * u64 + s.info.eoff

-- chainpack_unpack_buf, for an item that is a string or a blob.
unfoldable pub unpack_buf : Bool → ℕ → Chunk → List ℕ → Read Chunk
unfolding cstring_loop buf_loop round after_read next_size end_round store measure
unpack_buf is_string bufsiz c bytes =
    let s : Loop = record {
      info = record c.info { len = 0 };
      mem = c.mem;
      res = 0;
      err = no_error;
      bytes = bytes;
    } in
    let cstring = cstring_loop bufsiz 0 c.info c.mem bytes in
    let end = buf_loop (suc (measure s)) bufsiz s in
    if bufsiz == 0
    then done (record c { info = record c.info { len = 0 } }) 0 bytes
    else if c.info.stream && is_string
    then cstring
    else record {
      value = record { info = end.info; mem = end.mem };
      res = end.res;
      err = end.err;
      rest = end.bytes;
    }
