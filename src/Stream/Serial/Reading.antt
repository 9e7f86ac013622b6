-- ===== src/Stream/Serial/Reading.antt =====
-- What cookie_read_serial and serial_validate read from the line.
use shvc.Base.{ℕ, zero, suc, ◌+◌, ◌≤◌, ◌<◌, ◌≡◌, refl, ap, true, false, ◌==◌}
use shvc.Base.{
  List, [], ◌∷◌, ◌++◌, All, append-nil, append_assoc, arith, Bool-cases, inl, inr, length, take,
  drop, pos, negsuc,
}
use shvc.Base.Bytes.{IsByte}
use shvc.Stream.{stx, etx, atx, esc, escx, descx, escapable, escaped, Event, byte, Errno, xreadc}
use shvc.Stream.Serial.{rmsg_data, rmsg_etx, rmsg_no, Reader, Got, crc_of, read_loop}
use shvc.Stream.Serial.Escape.{escape_byte, escape, escapable_code, plain_byte}
use shvc.Stream.Serial.Writing.{crc_after}
use shvc.Stream.Serial.Pieces.{crc_after-append}

-- The events that bring these bytes, and others behind them.
abbrev pub arriving : List ℕ → List Event → List Event
arriving [] es = es
arriving (b ∷ bytes) es = byte b ∷ arriving bytes es

pub arriving_append :
    (xs ys : List ℕ) (es : List Event) → arriving (xs ++ ys) es ≡ arriving xs (arriving ys es)
arriving_append [] ys es = refl
arriving_append (x ∷ xs) ys es = ap (λ r. byte x ∷ r) (arriving_append xs ys es)

-- A reader within a message, before these events.
abbrev pub reading : ℕ → List Event → Errno → Reader
reading crc es errnum = record {
  rmsg = rmsg_data;
  rcrc = crc;
  line = record { events = es; errnum = errnum };
}

-- A reader behind ETX.
abbrev pub at_end : ℕ → List Event → Errno → Reader
at_end crc es errnum = record {
  rmsg = rmsg_etx;
  rcrc = crc;
  line = record { events = es; errnum = errnum };
}

read_loop-escaped :
    (n i x : ℕ) (buf : List ℕ) (crc : ℕ) (es : List Event) (errnum : Errno)
    → escaped x ≡ true
    → read_loop (suc n) i buf (reading crc (byte esc ∷ byte x ∷ es) errnum)
      ≡ read_loop n
          (i + 1)
          (buf ++ (descx x ∷ []))
          (reading (crc_after crc (esc ∷ x ∷ [])) es errnum)
unfolding read_loop xreadc crc_of crc_after
read_loop-escaped n i x buf crc es errnum code =
    let c = reading (crc_after crc (esc ∷ [])) es errnum in
    ap
      (λ t. elim t as (λ _. Got) [
        | true ↦
            read_loop n (i + 1) (buf ++ (descx x ∷ []))
              (reading (crc_after crc (esc ∷ x ∷ [])) es errnum)
        | false ↦ record { res = negsuc 0; buf = buf; ctx = record c { rmsg = rmsg_no } }
      ])
      code

read_loop_plain :
    (n i b : ℕ) (buf : List ℕ) (crc : ℕ) (es : List Event) (errnum : Errno)
    → ((b == stx) ≡ false) × ((b == etx) ≡ false) × ((b == atx) ≡ false) × ((b == esc) ≡ false)
    → read_loop (suc n) i buf (reading crc (byte b ∷ es) errnum)
      ≡ read_loop n (i + 1) (buf ++ (b ∷ [])) (reading (crc_after crc (b ∷ [])) es errnum)
unfolding read_loop xreadc crc_of crc_after
read_loop_plain n i b buf crc es errnum (not_stx, not_etx, not_atx, not_esc) =
    rw (read_loop, not_stx, not_etx, not_esc, not_atx) refl

-- One byte, escaped or not, is read back.
pub read_loop_byte :
    (n i b : ℕ) (buf : List ℕ) (crc : ℕ) (es : List Event) (errnum : Errno)
    → IsByte b
    → read_loop (suc n) i buf (reading crc (arriving (escape_byte b) es) errnum)
      ≡ read_loop n (i + 1) (buf ++ (b ∷ [])) (reading (crc_after crc (escape_byte b)) es errnum)
unfolding read_loop xreadc crc_of crc_after
read_loop_byte n i b buf crc es errnum h = elim (Bool-cases (escapable b)) [
  | inl y ↦
      let (code, back) = escapable_code b h y in
      rw (y, read_loop-escaped n i (escx b) buf crc es errnum code, back) refl
  | inr p ↦ rw (p, read_loop_plain n i b buf crc es errnum (plain_byte b p)) refl
]

unary : (i : ℕ) → i + 0 ≡ i
unary i = omega arith

pub plus_suc : (i n : ℕ) → i + 1 + n ≡ i + suc n
plus_suc i n = omega arith

-- Within the message, the buffer is filled.
pub read_loop_within :
    (n i : ℕ) (bytes buf : List ℕ) (crc : ℕ) (es : List Event) (errnum : Errno)
    → All IsByte bytes
    → n ≤ length bytes
    → read_loop n i buf (reading crc (arriving (escape bytes) es) errnum) ≡ record {
      res = pos (i + n);
      buf = buf ++ take n bytes;
      ctx =
          reading
            (crc_after crc (escape (take n bytes)))
            (arriving (escape (drop n bytes)) es)
            errnum;
    }
unfolding read_loop escape crc_after
read_loop_within zero i bytes buf crc es errnum h le = rw (append-nil, unary i) refl
read_loop_within (suc n) i [] buf crc es errnum h le = absurd (omega arith)
read_loop_within (suc n) i (b ∷ bytes) buf crc es errnum (hb, hbs) le =
    rw
      (
        arriving_append (escape_byte b) (escape bytes) es,
        read_loop_byte n i b buf crc (arriving (escape bytes) es) errnum hb,
        read_loop_within n (i + 1) bytes (buf ++ (b ∷ [])) (crc_after crc (escape_byte b)) es errnum
            hbs (omega arith),
        crc_after-append crc (escape_byte b) (escape (take n bytes)),
        append_assoc,
        plus_suc i n,
      )
      refl

-- Up to ETX, when there is room for more.
pub read_loop_end :
    (n i : ℕ) (bytes buf : List ℕ) (crc : ℕ) (es : List Event) (errnum : Errno)
    → All IsByte bytes
    → length bytes < n
    → read_loop n i buf (reading crc (arriving (escape bytes) (byte etx ∷ es)) errnum) ≡ record {
      res = pos (i + length bytes);
      buf = buf ++ bytes;
      ctx = at_end (crc_after crc (escape bytes)) es errnum;
    }
unfolding read_loop xreadc escape crc_after
read_loop_end zero i bytes buf crc es errnum h lt = absurd (omega arith)
read_loop_end (suc n) i [] buf crc es errnum h lt = rw (append-nil, unary i) refl
read_loop_end (suc n) i (b ∷ bytes) buf crc es errnum (hb, hbs) lt =
    rw
      (
        arriving_append (escape_byte b) (escape bytes) (byte etx ∷ es),
        read_loop_byte n i b buf crc (arriving (escape bytes) (byte etx ∷ es)) errnum hb,
        read_loop_end n (i + 1) bytes (buf ++ (b ∷ [])) (crc_after crc (escape_byte b)) es errnum
            hbs (omega arith),
        crc_after-append crc (escape_byte b) (escape bytes),
        append_assoc,
        plus_suc i (length bytes),
      )
      refl
