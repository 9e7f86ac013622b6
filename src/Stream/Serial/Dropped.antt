-- ===== src/Stream/Serial/Dropped.antt =====
-- A message that serial_drop ends.
use shvc.Base.{ℕ, zero, suc, ◌+◌, ◌*◌, ◌≤◌, ◌<◌, ◌≡◌, refl, ap, ◌∙◌, Bool, true, false, ◌==◌, leb}
use shvc.Base.{
  List, [], ◌∷◌, ◌++◌, All, append-nil, append_assoc, arith, Bool-cases, inl, inr, length, take,
  drop, pos, negsuc,
}
use shvc.Base.Bytes.{IsByte}
use shvc.Crc32.{crc32_init}
use shvc.Stream.{stx, atx, Event, byte, Errno, MsgType, is_broken, xreadc}
use shvc.Stream.Serial.{
  rmsg_no, Reader, Writer, read_loop, cookie_read_serial, serial_drop, serial_nextmsg,
  serial_validate,
}
use shvc.Stream.Serial.Escape.{escape, escape_byte}
use shvc.Stream.Serial.Writing.{crc_after, is_open, xwrite-Sends}
use shvc.Stream.Serial.Pieces.{IsOpen, cookie_write_serial_first, crc_after-append}
use shvc.Stream.Serial.Reading.{
  arriving, arriving_append, reading, read_loop_byte, read_loop_within,
}
use shvc.Stream.Serial.Whole.{read_all, read_all_step, nextmsg_noise, All-drop}
use shvc.Stream.Serial.RoundTrip.{write_all, concat, write_all-IsOpen}

-- A reader outside a message.
abbrev outside : ℕ → List Event → Errno → Reader
outside crc es errnum = record {
  rmsg = rmsg_no;
  rcrc = crc;
  line = record { events = es; errnum = errnum };
}

-- ATX ends the read.
read_loop_dropped :
    (n i : ℕ) (bytes buf : List ℕ) (crc : ℕ) (es : List Event) (errnum : Errno)
    → All IsByte bytes
    → length bytes < n
    → read_loop n i buf (reading crc (arriving (escape bytes) (byte atx ∷ es)) errnum) ≡ record {
      res = negsuc 0;
      buf = buf ++ bytes;
      ctx = outside (crc_after crc (escape bytes)) es errnum;
    }
unfolding read_loop xreadc escape crc_after
read_loop_dropped zero i bytes buf crc es errnum h lt = absurd (omega arith)
read_loop_dropped (suc n) i [] buf crc es errnum h lt = rw append-nil refl
read_loop_dropped (suc n) i (b ∷ bytes) buf crc es errnum (hb, hbs) lt =
    rw
      (
        arriving_append (escape_byte b) (escape bytes) (byte atx ∷ es),
        read_loop_byte n i b buf crc (arriving (escape bytes) (byte atx ∷ es)) errnum hb,
        read_loop_dropped n (i + 1) bytes (buf ++ (b ∷ [])) (crc_after crc (escape_byte b)) es
            errnum hbs (omega arith),
        crc_after-append crc (escape_byte b) (escape bytes),
        append_assoc,
      )
      refl

within :
    (n : ℕ) (bytes : List ℕ) (crc : ℕ) (es : List Event) (errnum : Errno)
    → All IsByte bytes
    → n ≤ length bytes
    → cookie_read_serial (reading crc (arriving (escape bytes) es) errnum) n ≡ record {
      res = pos (0 + n);
      buf = take n bytes;
      ctx =
          reading
            (crc_after crc (escape (take n bytes)))
            (arriving (escape (drop n bytes)) es)
            errnum;
    }
unfolding cookie_read_serial
within n bytes crc es errnum h le = read_loop_within n 0 bytes [] crc es errnum h le

dropped :
    (n : ℕ) (bytes : List ℕ) (crc : ℕ) (es : List Event) (errnum : Errno)
    → All IsByte bytes
    → length bytes < n
    → cookie_read_serial (reading crc (arriving (escape bytes) (byte atx ∷ es)) errnum) n ≡ record {
      res = negsuc 0;
      buf = bytes;
      ctx = outside (crc_after crc (escape bytes)) es errnum;
    }
unfolding cookie_read_serial
dropped n bytes crc es errnum h lt = read_loop_dropped n 0 bytes [] crc es errnum h lt

outside_invalid :
    (has_crc : Bool) (ns : List ℕ) (crc : ℕ) (es : List Event) (errnum : Errno)
    → (serial_validate has_crc (read_all ns (outside crc es errnum)).1).0 ≡ false
unfolding serial_validate read_all cookie_read_serial
outside_invalid has_crc [] crc es errnum = refl
outside_invalid has_crc (n ∷ ns) crc es errnum = outside_invalid has_crc ns crc es errnum

dropped_invalid :
    (has_crc : Bool) (ns bytes : List ℕ) (crc : ℕ) (es : List Event) (errnum : Errno)
    → All IsByte bytes
    → let (got, r) = read_all ns (reading crc (arriving (escape bytes) (byte atx ∷ es)) errnum) in
      (serial_validate has_crc r).0 ≡ false
unfolding serial_validate read_all
dropped_invalid has_crc [] bytes crc es errnum h = refl
dropped_invalid has_crc (n ∷ ns) bytes crc es errnum h =
    let start = reading crc (arriving (escape bytes) (byte atx ∷ es)) errnum in
    elim (Bool-cases (leb n (length bytes))) [
      | inl y ↦
          let one =
            read_all_step n ns start _ _ _
              (within n bytes crc (byte atx ∷ es) errnum h (ground (arith, y))) in
          ap (λ r. (serial_validate has_crc r.1).0) one
          ∙ (dropped_invalid has_crc ns (drop n bytes) (crc_after crc (escape (take n bytes))) es
              errnum (All-drop n bytes h))
      | inr m ↦
          let one =
            read_all_step n ns start _ _ _ (dropped n bytes crc es errnum h (ground (arith, m))) in
          ap (λ r. (serial_validate has_crc r.1).0) one
          ∙ (outside_invalid has_crc ns (crc_after crc (escape bytes)) es errnum)
    ]

serial_drop-written :
    (start payload : List ℕ) (c : Writer)
    → IsOpen start payload 1 c
    → let (sent, c') = serial_drop c in
      (sent ≡ true) × (c'.out.written ≡ start ++ (stx ∷ escape payload) ++ (atx ∷ []))
unfolding serial_drop
serial_drop-written start payload c opened =
    let (accepted, all) = xwrite-Sends c.out (atx ∷ []) opened.healthy opened.room in
    rw (serial_drop, opened.wmsg) (accepted, all.written ∙ rw (opened.written, append_assoc) refl)

-- A message that a client writes in pieces and then drops, for which the peer takes all bytes: the
-- peer finds a message, and whatever it reads of it, does not find it valid.
pub serial_validate-serial_drop :
    (bufsiz b : ℕ) (bytes : List ℕ) (pieces : List (List ℕ)) (has_crc : Bool) (c : Writer)
    (sizes : List ℕ) (later : List Event) (errnum : Errno) (rcrc : ℕ)
    → 0 < bufsiz
    → is_open c.wmsg ≡ false
    → is_broken c.out.errnum ≡ false
    → 2 * length (b ∷ bytes) + 2 * length (concat pieces) + 2 ≤ c.out.room
    → All (λ v. (v == stx) ≡ false) c.out.written
    → All IsByte ((b ∷ bytes) ++ concat pieces)
    → let (sent, c') = serial_drop (write_all bufsiz c ((b ∷ bytes) ∷ pieces)) in
      let r : Reader = record {
        rmsg = rmsg_no;
        rcrc = rcrc;
        line = record { events = arriving c'.out.written later; errnum = errnum };
      } in
      let (found, r1) = serial_nextmsg r in
      let (payload, r2) = read_all sizes r1 in
      let (valid, r3) = serial_validate has_crc r2 in
      (sent ≡ true) × (found ≡ MsgType.message) × (valid ≡ false)
unfolding write_all
serial_validate-serial_drop bufsiz b bytes pieces has_crc c sizes later errnum rcrc pos_siz closed
      healthy room noise good =
    let payload = (b ∷ bytes) ++ concat pieces in
    let first =
      (cookie_write_serial_first bufsiz (2 * length (concat pieces) + 1) b bytes c pos_siz closed
        (omega arith) healthy).1 in
    let opened = write_all-IsOpen bufsiz 1 c.out.written (b ∷ bytes) pieces _ pos_siz first in
    let (sent, wire) = serial_drop-written c.out.written payload _ opened in
    let inner = arriving (escape payload) (byte atx ∷ later) in
    let found = nextmsg_noise c.out.written inner errnum rcrc noise in
    let invalid = dropped_invalid has_crc sizes payload crc32_init later errnum good in
    rw (wire, arriving_append, arriving_append) (sent, ap (λ r. r.0) found, rw found invalid)
