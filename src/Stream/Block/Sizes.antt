-- ===== src/Stream/Block/Sizes.antt =====
-- The growth of the write buffer, and the size before a message.
use shvc.Base.{ℕ, zero, suc, ◌+◌, ◌-◌, ◌*◌, ◌%◌, ◌≤◌, ◌<◌, ◌≡◌, refl, ap, Bool, true, ◌==◌, leb}
use shvc.Base.{
  if◌then◌else◌, Option, none, some, List, [], ◌∷◌, ◌++◌, arith, Bool-cases, inl, inr, length,
  length-append,
}
use shvc.ChainPack.Integer.{u64, int_bytes, uint_value1}
use shvc.ChainPack.IntegerCodec.{uint_buf, unpack_loop, unpack_uint, done}
use shvc.ChainPack.IntegerCodec.Unsigned.{unpack_uint-uint_buf}
use shvc.Stream.{Line, Event, byte, silence, Errno, xreadc, MsgType}
use shvc.Stream.Block.{Writer, Reader, grow, cookie_write_block, size_loop, block_nextmsg}
use shvc.Stream.Serial.Reading.{arriving}
use shvc.Stream.Serial.Check.{line_of}

-- What grow leaves when realloc succeeds.
record Grown (c : Writer) (need : ℕ) (r : Bool × Writer) : Type 0 where
  enough : r.0 ≡ true
  wbuf : r.1.wbuf ≡ c.wbuf
  out : r.1.out ≡ c.out
  room : need < r.1.wbufsiz
  allocated : r.1.allocated ≡ r.1.wbufsiz

grow-Grown :
    (fuel : ℕ) (alloc : ℕ → Bool) (need : ℕ) (c : Writer)
    → ((n : ℕ) → alloc n ≡ true)
    → c.allocated ≡ c.wbufsiz
    → need + 1 < fuel + c.wbufsiz
    → 0 < fuel
    → Grown c need (grow fuel alloc need c)
unfolding grow
grow-Grown zero alloc need c ok same h some_fuel = absurd (omega arith)
grow-Grown (suc fuel) alloc need c ok same h some_fuel =
    let siz : ℕ = 2 * (if c.wbufsiz == 0 then 4 else c.wbufsiz) in
    let larger : c.wbufsiz + 1 ≤ siz = ground arith in
    elim (Bool-cases (leb c.wbufsiz need)) [
      | inl y ↦
          let g =
            grow-Grown fuel alloc need (record c { wbufsiz = siz; allocated = siz }) ok refl
              (omega (arith, larger)) (ground (arith, y)) in
          rw (grow, y, ok siz)
            (record {
              enough = g.enough;
              wbuf = g.wbuf;
              out = g.out;
              room = g.room;
              allocated = g.allocated;
            })
      | inr n ↦
          rw (grow, n)
            (record {
              enough = refl;
              wbuf = refl;
              out = refl;
              room = ground (arith, n);
              allocated = same;
            })
    ]

-- While realloc succeeds, cookie_write_block takes all bytes behind those of the message so far. The
-- buffer is then larger than the message, and as large as `wbufsiz` says.
pub cookie_write_block_lem :
    (alloc : ℕ → Bool) (c : Writer) (bytes : List ℕ)
    → ((n : ℕ) → alloc n ≡ true)
    → c.allocated ≡ c.wbufsiz
    → let (count, c') = cookie_write_block alloc c bytes in
      (count ≡ length bytes)
      × (c'.wbuf ≡ c.wbuf ++ bytes)
      × (length c'.wbuf < c'.wbufsiz)
      × (c'.allocated ≡ c'.wbufsiz)
      × (c'.out ≡ c.out)
unfolding cookie_write_block
cookie_write_block_lem alloc c bytes ok same =
    let need : ℕ = length c.wbuf + length bytes in
    let g = grow-Grown (need + 2) alloc need c ok same (omega arith) (omega arith) in
    rw (cookie_write_block, g.enough)
      (
        refl,
        ap (λ w. w ++ bytes) g.wbuf,
        omega (
          arith,
          g.room,
          ap length g.wbuf,
          length-append (grow (need + 2) alloc need c).1.wbuf bytes,
        ),
        g.allocated,
        g.out,
      )

-- The loop reads what chainpack_unpack_uint reads.
size_loop-unpack_loop :
    (n v res : ℕ) (bytes : List ℕ) (es : List Event) (errnum : Errno) (w k : ℕ) (rest : List ℕ)
    → unpack_loop n v res bytes ≡ done w k rest
    → size_loop n v (line_of (arriving bytes es) errnum)
      ≡ (some w, line_of (arriving rest es) errnum)
unfolding size_loop unpack_loop xreadc
size_loop-unpack_loop zero v res bytes es errnum w k rest h =
    rw (ap (λ r. r.value) h, ap (λ r. r.rest) h) refl
size_loop-unpack_loop (suc n) v res [] es errnum w k rest h =
    absurd (ground (arith, ap (λ r. r.err) h))
size_loop-unpack_loop (suc n) v res (b ∷ bytes) es errnum w k rest h =
    size_loop-unpack_loop n (v * 256 % u64 + b) (res + 1) bytes es errnum w k rest h

size_read :
    (head : ℕ) (bytes : List ℕ) (es : List Event) (errnum : Errno) (off w k : ℕ) (rest : List ℕ)
    → unpack_uint (head ∷ bytes) ≡ done w k rest
    → block_nextmsg (record { rmsgoff = off; line = line_of (arriving (head ∷ bytes) es) errnum })
      ≡ (MsgType.message, record { rmsgoff = w; line = line_of (arriving rest es) errnum })
unfolding block_nextmsg unpack_uint xreadc
size_read head bytes es errnum off w k rest h =
    let n = int_bytes head in
    ap
      (λ (r : Option ℕ × Line). elim r.0 as (λ _. MsgType × Reader) [
        | some msgsiz ↦ (MsgType.message, record { rmsgoff = msgsiz; line = r.1 })
        | none ↦ (MsgType.error, record { rmsgoff = off; line = r.1 })
      ])
      (size_loop-unpack_loop (n - 1) (uint_value1 head n) 1 bytes es errnum w k rest h)

-- A size that the peer wrote is read back.
pub block_nextmsg-uint_buf :
    (v : ℕ) (rest : List ℕ) (es : List Event) (errnum : Errno) (off : ℕ)
    → v < u64
    → block_nextmsg
        (record { rmsgoff = off; line = line_of (arriving (uint_buf v ++ rest) es) errnum })
      ≡ (MsgType.message, record { rmsgoff = v; line = line_of (arriving rest es) errnum })
unfolding uint_buf
block_nextmsg-uint_buf v rest es errnum off h =
    size_read _ _ es errnum off v _ rest (unpack_uint-uint_buf v rest h)

-- When the peer's size has two bytes and the second does not arrive in time, no error is reported: the
-- message seems to have 2 ^ 64 - 2 bytes.
pub block_nextmsg_silence :
    (head off : ℕ) (es : List Event) (errnum : Errno)
    → int_bytes head ≡ 2
    → block_nextmsg (record { rmsgoff = off; line = line_of (byte head ∷ silence ∷ es) errnum })
      ≡ (MsgType.message, record { rmsgoff = u64 - 2; line = line_of es errnum })
unfolding block_nextmsg size_loop xreadc
block_nextmsg_silence head off es errnum two =
    ap
      (λ n.
        let (siz, l) = size_loop (n - 1) (uint_value1 head n) (line_of (silence ∷ es) errnum) in
        elim siz as (λ _. MsgType × Reader) [
          | some msgsiz ↦ (MsgType.message, record { rmsgoff = msgsiz; line = l })
          | none ↦ (MsgType.error, record { rmsgoff = off; line = l })
        ])
      two
