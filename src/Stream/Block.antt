-- ===== src/Stream/Block.antt =====
-- The block framing: the size of the message in ChainPack's layout, then the message.
pub mod Sizes
pub mod RoundTrip
use shvc.Base.{ℕ, zero, suc, ◌+◌, ◌-◌, ◌*◌, ◌%◌, ◌^◌, min, Bool, true, false, ◌==◌, leb}
use shvc.Base.{if◌then◌else◌, Option, none, some, List, [], ◌∷◌, ◌++◌, length, ℤ, pos, negsuc}
use shvc.ChainPack.Integer.{u64, int_bytes, uint_value1}
use shvc.ChainPack.IntegerCodec.{uint_buf}
use shvc.Stream.{
  Line, Event, byte, silence, hangup, poll_error, read_error, Errno, Out, xreadc, xwrite, MsgType,
}

-- The writing half of struct rpcclient_ctx_block: `wbuf` up to `wbuflen`, `wbufsiz`, and the size
-- that `wbuf` was allocated with.
pub record Writer : Type 0 where
  pub wbuf : List ℕ
  pub wbufsiz : ℕ
  pub allocated : ℕ
  pub out : Out

-- The reading half.
pub record Reader : Type 0 where
  pub rmsgoff : ℕ
  pub line : Line

-- The loop of cookie_write_block for `need` bytes, by fuel: whether it ended with enough room.
-- `alloc` says for which sizes realloc succeeds.
unfoldable pub grow : ℕ → (ℕ → Bool) → ℕ → Writer → Bool × Writer
grow zero alloc need c = (false, c)
grow (suc fuel) alloc need c =
    let siz = 2 * (if c.wbufsiz == 0 then 4 else c.wbufsiz) in
    let rest = grow fuel alloc need (record c { wbufsiz = siz; allocated = siz }) in
    if leb c.wbufsiz need
    then (if alloc siz then rest else (false, record c { wbufsiz = siz }))
    else (true, c)

-- cookie_write_block. The size doubles from eight on, so `need + 2` rounds are enough.
unfoldable pub cookie_write_block : (ℕ → Bool) → Writer → List ℕ → ℕ × Writer
unfolding grow
cookie_write_block alloc c bytes =
    let need = length c.wbuf + length bytes in
    let (enough, c') = grow (need + 2) alloc need c in
    elim enough [ true ↦ (length bytes, record c' { wbuf = c'.wbuf ++ bytes }) | false ↦ (0, c') ]

-- Writes of one byte each, until one fails.
unfoldable pub write_each : Out → List ℕ → Bool × Out
unfolding xwrite
write_each o [] = (true, o)
write_each o (b ∷ bytes) =
    let (res, o') = xwrite o (b ∷ []) in
    elim res [ true ↦ write_each o' bytes | false ↦ (false, o') ]

-- rpcclient_stream_block_send. The bytes of the size are those that chainpack_pack_uint writes.
unfoldable pub block_send : Writer → Bool × Writer
unfolding write_each uint_buf xwrite
block_send c = elim c.wbuf [
  | [] ↦ (false, c)
  | b ∷ bytes ↦
      let (res, o) = write_each c.out (uint_buf (length (b ∷ bytes))) in
      elim res [
        | false ↦ (false, record c { out = o })
        | true ↦ let (res', o') = xwrite o (b ∷ bytes) in (res', record c { wbuf = []; out = o' })
      ]
]

-- rpcclient_stream_block_drop.
unfoldable pub block_drop : Writer → Bool × Writer
block_drop c = (true, record c { wbuf = [] })

-- The loop of rpcclient_stream_block_nextmsg by the rounds left. Only -1 ends it; the `|` with
-- another negative result, which is -2, sets all bits but the lowest, which is zero behind the shift.
unfoldable pub size_loop : ℕ → ℕ → Line → Option ℕ × Line
unfolding xreadc
size_loop zero siz l = (some siz, l)
size_loop (suc n) siz l =
    let (v, l') = xreadc l in
    elim v [
      | pos b ↦ size_loop n (siz * 256 % u64 + b) l'
      | negsuc x ↦
          let rest = size_loop n (u64 - 2) l' in
          if x == 0 then (none, record l' { errnum = Errno.etimedout }) else rest
    ]

-- rpcclient_stream_block_nextmsg; `msgsiz < 0` never holds of a size_t.
unfoldable pub block_nextmsg : Reader → MsgType × Reader
unfolding size_loop int_bytes uint_value1
block_nextmsg c =
    let (v, l) = xreadc c.line in
    elim v [
      | pos b ↦
          let n = int_bytes b in
          let (siz, l') = size_loop (n - 1) (uint_value1 b n) l in
          elim siz [
            | some msgsiz ↦ (MsgType.message, record { rmsgoff = msgsiz; line = l' })
            | none ↦ (MsgType.error, record c { line = l' })
          ]
      | negsuc x ↦ (if x == 1 then MsgType.nothing else MsgType.error, record c { line = l })
    ]

-- The bytes at the front of the events, at most `n` of them, and the events behind.
unfoldable pub arrived : ℕ → List Event → List ℕ × List Event
arrived zero es = ([], es)
arrived (suc n) [] = ([], [])
arrived (suc n) (byte b ∷ es) = let (bs, rest) = arrived n es in (b ∷ bs, rest)
arrived (suc n) (silence ∷ es) = ([], silence ∷ es)
arrived (suc n) (hangup ∷ es) = ([], hangup ∷ es)
arrived (suc n) (poll_error ∷ es) = ([], poll_error ∷ es)
arrived (suc n) (read_error ∷ es) = ([], read_error ∷ es)

-- xread for up to `siz` bytes, of which read gives the ones that arrived, one at least and `avail`
-- more at most: the count, 0 at the end of the file, -1 or -2, and the bytes.
unfoldable pub xread : Line → ℕ → ℕ → ℤ × List ℕ × Line
unfolding arrived
xread l siz avail = elim l.events [
  | [] ↦ (pos 0, [], record l { errnum = Errno.enotconn })
  | byte b ∷ es ↦
      let (bs, rest) = arrived (min siz (suc avail)) (byte b ∷ es) in
      (pos (length bs), bs, record l { events = rest })
  | silence ∷ es ↦ (negsuc 1, [], record l { events = es })
  | hangup ∷ es ↦ (negsuc 0, [], record l { errnum = Errno.epipe })
  | poll_error ∷ es ↦ (negsuc 0, [], record l { events = es })
  | read_error ∷ es ↦ (negsuc 0, [], record l { events = es; errnum = Errno.other })
]

-- cookie_read_block.
unfoldable pub cookie_read_block : Reader → ℕ → ℕ → ℤ × List ℕ × Reader
unfolding xread
cookie_read_block c size avail =
    let n = min c.rmsgoff size in
    let (res, bytes, l) = xread c.line n avail in
    if n == 0 then (pos 0, [], c) else elim res [
      | pos k ↦ (pos k, bytes, record { rmsgoff = c.rmsgoff - k; line = l })
      | negsuc x ↦ (
        negsuc x,
        bytes,
        record c { line = if x == 1 then record l { errnum = Errno.etimedout } else l },
      )
    ]
