-- ===== src/Stream/Serial/RoundTrip.antt =====
-- A message from serial_send to the peer's serial_validate.
use shvc.Base.{ℕ, ◌+◌, ◌*◌, ◌≤◌, ◌<◌, ◌≡◌, refl, ◌∙◌, Bool, true, false, ◌==◌}
use shvc.Base.{List, [], ◌∷◌, ◌++◌, All, append-nil, append_assoc, arith, length, length-append}
use shvc.Base.Bytes.{IsByte}
use shvc.Crc32.{crc32_init, crc32_finalize}
use shvc.Stream.{stx, etx, Event, byte, Errno, MsgType, is_broken}
use shvc.Stream.Serial.{
  rmsg_no, Reader, Writer, cookie_write_serial, serial_send, serial_nextmsg, serial_validate,
}
use shvc.Stream.Serial.Escape.{escape}
use shvc.Stream.Serial.Writing.{crc_after, is_open, xwrite-Sends}
use shvc.Stream.Serial.Pieces.{IsOpen, cookie_write_serial_first, cookie_write_serial_more}
use shvc.Stream.Serial.Reading.{arriving, arriving_append}
use shvc.Stream.Serial.Check.{length-crc_bytes}
use shvc.Stream.Serial.Whole.{
  read_all, sum, read_all_message, nextmsg_noise, crc_tail, validate-crc_tail,
}

-- Writes of these pieces, one after the other.
unfoldable pub write_all : ℕ → Writer → List (List ℕ) → Writer
unfolding cookie_write_serial
write_all bufsiz c [] = c
write_all bufsiz c (piece ∷ pieces) = write_all bufsiz (cookie_write_serial bufsiz c piece).1 pieces

unfoldable pub concat : List (List ℕ) → List ℕ
concat [] = []
concat (piece ∷ pieces) = piece ++ concat pieces

IsOpen-le :
    (m k : ℕ) (start payload : List ℕ) (c : Writer)
    → k ≤ m
    → IsOpen start payload m c
    → IsOpen start payload k c
IsOpen-le m k start payload c le opened = record {
  wmsg = opened.wmsg;
  crc = opened.crc;
  written = opened.written;
  room = omega (arith, opened.room);
  healthy = opened.healthy;
}

length-crc_tail : (has_crc : Bool) (crc : ℕ) → length (crc_tail has_crc crc) ≤ 8
length-crc_tail false crc = omega arith
length-crc_tail true crc = omega (arith, length-crc_bytes 4 (crc32_finalize crc))

pub write_all-IsOpen :
    (bufsiz more : ℕ) (start payload : List ℕ) (pieces : List (List ℕ)) (c : Writer)
    → 0 < bufsiz
    → IsOpen start payload (2 * length (concat pieces) + more) c
    → IsOpen start (payload ++ concat pieces) more (write_all bufsiz c pieces)
unfolding write_all concat
write_all-IsOpen bufsiz more start payload [] c pos_siz opened =
    rw append-nil (IsOpen-le _ more start payload c (omega arith) opened)
write_all-IsOpen bufsiz more start payload (piece ∷ pieces) c pos_siz opened =
    let ready =
      IsOpen-le _ (2 * length piece + (2 * length (concat pieces) + more)) start payload c
        (omega (arith, length-append piece (concat pieces))) opened in
    let next =
      (cookie_write_serial_more bufsiz (2 * length (concat pieces) + more) start payload piece c
        pos_siz ready).1 in
    rw (← append_assoc)
      (write_all-IsOpen bufsiz more start (payload ++ piece) pieces _ pos_siz next)

-- What serial_send appends to an open message.
serial_send-written :
    (has_crc : Bool) (start payload : List ℕ) (c : Writer)
    → IsOpen start payload 9 c
    → let (sent, c') = serial_send has_crc c in
      (sent ≡ true)
      × (c'.out.written
          ≡ start
            ++ (stx ∷ escape payload)
            ++ (etx ∷ crc_tail has_crc (crc_after crc32_init (escape payload))))
unfolding serial_send
serial_send-written has_crc start payload c opened =
    let tail = crc_tail has_crc (crc_after crc32_init (escape payload)) in
    let (accepted, all) = xwrite-Sends c.out (etx ∷ tail) opened.healthy (
      omega
        (arith, opened.room, length-crc_tail has_crc (crc_after crc32_init (escape payload)))) in
    rw (serial_send, opened.wmsg, opened.crc)
      (accepted, all.written ∙ rw (opened.written, append_assoc) refl)

received_message :
    (start payload written : List ℕ) (has_crc : Bool) (sizes : List ℕ) (later : List Event)
    (errnum : Errno) (rcrc : ℕ)
    → written
      ≡ start
        ++ (stx ∷ escape payload)
        ++ (etx ∷ crc_tail has_crc (crc_after crc32_init (escape payload)))
    → All (λ v. (v == stx) ≡ false) start
    → All IsByte payload
    → length payload < sum sizes
    → let r : Reader = record {
      rmsg = rmsg_no;
      rcrc = rcrc;
      line = record { events = arriving written later; errnum = errnum };
    } in
      let (found, r1) = serial_nextmsg r in
      let (got, r2) = read_all sizes r1 in
      let (valid, r3) = serial_validate has_crc r2 in
      (found ≡ MsgType.message) × (got ≡ payload) × (valid ≡ true) × (r3.line.events ≡ later)
received_message start payload written has_crc sizes later errnum rcrc wire noise good enough =
    let crc = crc_after crc32_init (escape payload) in
    let tail = arriving (crc_tail has_crc crc) later in
    let inner = arriving (escape payload) (byte etx ∷ tail) in
    let shape : arriving written later ≡ arriving start (byte stx ∷ inner) =
      rw (wire, arriving_append, arriving_append) refl in
    let found = nextmsg_noise start inner errnum rcrc noise in
    let got = read_all_message sizes payload crc32_init tail errnum good enough in
    let (valid, left) = validate-crc_tail has_crc crc later errnum in
    rw (shape, found, got) (refl, refl, valid, left)

-- Non-empty data that a client writes in pieces, for which the peer takes all bytes, is sent as a
-- message. The peer skips what was written before, if that has no STX, finds the message, reads the
-- same data with reads of any sizes that ask for more bytes than it has, and finds the message valid;
-- what arrives later is left.
pub serial_validate-serial_send :
    (bufsiz b : ℕ) (bytes : List ℕ) (pieces : List (List ℕ)) (has_crc : Bool) (c : Writer)
    (sizes : List ℕ) (later : List Event) (errnum : Errno) (rcrc : ℕ)
    → 0 < bufsiz
    → is_open c.wmsg ≡ false
    → is_broken c.out.errnum ≡ false
    → 2 * length (b ∷ bytes) + 2 * length (concat pieces) + 10 ≤ c.out.room
    → All (λ v. (v == stx) ≡ false) c.out.written
    → All IsByte ((b ∷ bytes) ++ concat pieces)
    → length ((b ∷ bytes) ++ concat pieces) < sum sizes
    → let (sent, c') = serial_send has_crc (write_all bufsiz c ((b ∷ bytes) ∷ pieces)) in
      let r : Reader = record {
        rmsg = rmsg_no;
        rcrc = rcrc;
        line = record { events = arriving c'.out.written later; errnum = errnum };
      } in
      let (found, r1) = serial_nextmsg r in
      let (payload, r2) = read_all sizes r1 in
      let (valid, r3) = serial_validate has_crc r2 in
      (sent ≡ true)
      × (found ≡ MsgType.message)
      × (payload ≡ (b ∷ bytes) ++ concat pieces)
      × (valid ≡ true)
      × (r3.line.events ≡ later)
unfolding write_all
serial_validate-serial_send bufsiz b bytes pieces has_crc c sizes later errnum rcrc pos_siz closed
      healthy room noise good enough =
    let payload = (b ∷ bytes) ++ concat pieces in
    let crc = crc_after crc32_init (escape payload) in
    let first =
      (cookie_write_serial_first bufsiz (2 * length (concat pieces) + 9) b bytes c pos_siz closed
        (omega arith) healthy).1 in
    let opened = write_all-IsOpen bufsiz 9 c.out.written (b ∷ bytes) pieces _ pos_siz first in
    let (sent, wire) = serial_send-written has_crc c.out.written payload _ opened in
    let (found, got, valid, left) =
      received_message c.out.written payload _ has_crc sizes later errnum rcrc wire noise good
        enough in
    (sent, found, got, valid, left)
