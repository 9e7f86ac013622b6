-- ===== src/Stream/Runs.antt =====
-- Tests and witnesses for the streams.
use shvc.Base.{ℕ, ◌≡◌, refl, ◌-◌, ◌<◌, arith, true, false, List, [], ◌∷◌, length}
use shvc.ChainPack.Integer.{w_uint_bytes, int_bytes, u64}
use shvc.ChainPack.IntegerCodec.{uint_buf}
use shvc.Stream.{escapable, is_broken, Event, byte, silence, Errno, Out, MsgType}
use shvc.Stream.Serial.{
  wmsg_st, rmsg_no, Writer, Reader, serial_send, serial_drop, serial_nextmsg, serial_validate,
}
use shvc.Stream.Serial.RoundTrip.{write_all, concat, serial_validate-serial_send}
use shvc.Stream.Serial.Dropped.{serial_validate-serial_drop}
use shvc.Stream.Serial.Whole.{read_all, sum}
use shvc.Stream.Serial.Reading.{arriving}
use shvc.Stream.Serial.Check.{line_of}
use shvc.Stream.Block
use shvc.Stream.Block.{block_send, block_nextmsg, cookie_write_block}
use shvc.Stream.Block.Sizes.{cookie_write_block_lem, block_nextmsg_silence}
use shvc.Stream.Block.RoundTrip
use shvc.Stream.Block.RoundTrip.{block_nextmsg-block_send}

-- A peer that takes 100 bytes.
abbrev wide : Out
wide = record { written = []; room = 100; reason = Errno.ewouldblock; errnum = Errno.ok }

-- The same behind a byte of noise.
abbrev noisy : Out
noisy = record wide { written = 7 ∷ [] }

abbrev fresh : Writer
fresh = record { wmsg = wmsg_st; wcrc = 0; out = noisy }

abbrev pieces : List (List ℕ)
pieces = (0xA4 ∷ 5 ∷ []) ∷ [] ∷ (6 ∷ []) ∷ []

abbrev later : List Event
later = silence ∷ byte 9 ∷ []

serial_wire :
    (serial_send false (write_all 3 fresh ((1 ∷ 0xA2 ∷ []) ∷ pieces))).1.out.written
    ≡ 7 ∷ 0xA2 ∷ 1 ∷ 0xAA ∷ 2 ∷ 0xAA ∷ 4 ∷ 5 ∷ 6 ∷ 0xA3 ∷ []
unfolding serial_send write_all escapable
serial_wire = refl

serial_validate-serial_send_example :
    let (sent, c') = serial_send true (write_all 3 fresh ((1 ∷ 0xA2 ∷ []) ∷ pieces)) in
    let r : Reader = record {
      rmsg = rmsg_no;
      rcrc = 0;
      line = record { events = arriving c'.out.written later; errnum = Errno.ok };
    } in
    let (found, r1) = serial_nextmsg r in
    let (payload, r2) = read_all (2 ∷ 4 ∷ []) r1 in
    let (valid, r3) = serial_validate true r2 in
    (sent ≡ true)
    × (found ≡ MsgType.message)
    × (payload ≡ 1 ∷ 0xA2 ∷ 0xA4 ∷ 5 ∷ 6 ∷ [])
    × (valid ≡ true)
    × (r3.line.events ≡ later)
unfolding concat sum is_broken
serial_validate-serial_send_example =
    serial_validate-serial_send 3 1 (0xA2 ∷ []) pieces true fresh (2 ∷ 4 ∷ []) later Errno.ok 0
      (omega arith) refl refl (omega arith) (refl, tt)
      (omega arith, (omega arith, (omega arith, (omega arith, (omega arith, tt))))) (omega arith)

serial_validate-serial_drop_example :
    let (sent, c') = serial_drop (write_all 3 fresh ((1 ∷ 0xA2 ∷ []) ∷ pieces)) in
    let r : Reader = record {
      rmsg = rmsg_no;
      rcrc = 0;
      line = record { events = arriving c'.out.written later; errnum = Errno.ok };
    } in
    let (found, r1) = serial_nextmsg r in
    let (payload, r2) = read_all (2 ∷ 4 ∷ []) r1 in
    let (valid, r3) = serial_validate false r2 in
    (sent ≡ true) × (found ≡ MsgType.message) × (valid ≡ false)
unfolding concat is_broken
serial_validate-serial_drop_example =
    serial_validate-serial_drop 3 1 (0xA2 ∷ []) pieces false fresh (2 ∷ 4 ∷ []) later Errno.ok 0
      (omega arith) refl refl (omega arith) (refl, tt)
      (omega arith, (omega arith, (omega arith, (omega arith, (omega arith, tt)))))

abbrev block_writer : Block.Writer
block_writer = record { wbuf = 1 ∷ 2 ∷ 3 ∷ []; wbufsiz = 8; allocated = 8; out = wide }

cookie_write_block_lem_run :
    let (count, c') = cookie_write_block (λ n. true) block_writer (4 ∷ 5 ∷ 6 ∷ 7 ∷ 8 ∷ []) in
    (count ≡ 5)
    × (c'.wbuf ≡ 1 ∷ 2 ∷ 3 ∷ 4 ∷ 5 ∷ 6 ∷ 7 ∷ 8 ∷ [])
    × (length c'.wbuf < c'.wbufsiz)
    × (c'.allocated ≡ c'.wbufsiz)
    × (c'.out ≡ wide)
cookie_write_block_lem_run =
    cookie_write_block_lem (λ n. true) block_writer (4 ∷ 5 ∷ 6 ∷ 7 ∷ 8 ∷ []) (λ n. refl) refl

-- After a failed realloc a shorter write goes behind the end of the buffer.
past_the_end :
    let (count, c') = cookie_write_block (λ n. false) block_writer (4 ∷ 5 ∷ 6 ∷ 7 ∷ 8 ∷ []) in
    let (count', c'') = cookie_write_block (λ n. false) c' (4 ∷ 5 ∷ 6 ∷ 7 ∷ 8 ∷ 9 ∷ []) in
    (count ≡ 0) × (count' ≡ 6) × (length c''.wbuf ≡ 9) × (c''.allocated ≡ 8)
unfolding cookie_write_block
past_the_end = (refl, refl, refl, refl)

block_nextmsg_silence_run :
    block_nextmsg (record { rmsgoff = 0; line = line_of (byte 0x80 ∷ silence ∷ later) Errno.ok })
    ≡ (MsgType.message, record { rmsgoff = u64 - 2; line = line_of later Errno.ok })
unfolding int_bytes
block_nextmsg_silence_run = block_nextmsg_silence 0x80 0 later Errno.ok refl

block_nextmsg-block_send_example :
    let (sent, c') = block_send block_writer in
    let r : Block.Reader = record {
      rmsgoff = 5;
      line = record { events = arriving c'.out.written later; errnum = Errno.ok };
    } in
    let (found, r1) = block_nextmsg r in
    let (message, r2) = RoundTrip.read_all ((2, 0) ∷ (7, 3) ∷ (1, 1) ∷ []) r1 in
    (sent ≡ true)
    × (c'.wbuf ≡ [])
    × (found ≡ MsgType.message)
    × (message ≡ 1 ∷ 2 ∷ 3 ∷ [])
    × (r2.rmsgoff ≡ 0)
    × (r2.line.events ≡ later)
unfolding uint_buf is_broken w_uint_bytes
block_nextmsg-block_send_example =
    block_nextmsg-block_send block_writer 1 (2 ∷ 3 ∷ []) ((2, 0) ∷ (7, 3) ∷ (1, 1) ∷ []) later
      Errno.ok 5 refl refl refl (omega arith) (omega arith)
      (omega arith, (omega arith, (omega arith, tt))) (omega arith)
