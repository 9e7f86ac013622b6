-- ===== src/Stream/Serial/Whole.antt =====
-- Reading a whole message in pieces, and what serial_nextmsg skips before it.
use shvc.Base.{
  ℕ, zero, suc, ◌+◌, ◌≤◌, ◌<◌, ◌≡◌, refl, sym, ap, ◌∙◌, Bool, true, false, ◌==◌, ==_iff, leb,
}
use shvc.Base.{
  if◌then◌else◌, List, [], ◌∷◌, ◌++◌, All, append-nil, arith, Bool-cases, inl, inr, length, take,
  drop, length-drop, take-drop, ℤ, pos, negsuc,
}
use shvc.Base.Bytes.{IsByte}
use shvc.Crc32.{crc32_init, crc32_finalize}
use shvc.Stream.{stx, etx, Event, byte, Line, Errno, xreadc, MsgType}
use shvc.Stream.Serial.{
  rmsg_no, rmsg_etx, Reader, cookie_read_serial, crc_bytes, crc_loop, serial_validate, skip_to_stx,
  begin_message, serial_nextmsg,
}
use shvc.Stream.Serial.Escape.{escape}
use shvc.Stream.Serial.Writing.{crc_after}
use shvc.Stream.Serial.Pieces.{crc_after-append, escape-append}
use shvc.Stream.Serial.Reading.{arriving, reading, at_end, read_loop_within, read_loop_end}
use shvc.Stream.Serial.Check.{line_of, crc_loop-crc_bytes}

-- Reads of these sizes, one after the other: all bytes that they gave.
unfoldable pub read_all : List ℕ → Reader → List ℕ × Reader
unfolding cookie_read_serial
read_all [] c = ([], c)
read_all (n ∷ ns) c =
    let got = cookie_read_serial c n in
    let (more, c') = read_all ns got.ctx in (got.buf ++ more, c')

unfoldable pub sum : List ℕ → ℕ
sum [] = 0
sum (n ∷ ns) = n + sum ns

pub All-drop : (n : ℕ) (bytes : List ℕ) → All IsByte bytes → All IsByte (drop n bytes)
All-drop zero bytes h = h
All-drop (suc n) [] h = h
All-drop (suc n) (b ∷ bytes) (hb, hbs) = All-drop n bytes hbs

read_all_end :
    (ns : List ℕ) (crc : ℕ) (es : List Event) (errnum : Errno)
    → read_all ns (at_end crc es errnum) ≡ ([], at_end crc es errnum)
unfolding read_all
read_all_end [] crc es errnum = refl
read_all_end (n ∷ ns) crc es errnum = rw (read_all_end ns crc es errnum) refl

crc_after_split :
    (n crc : ℕ) (bytes : List ℕ)
    → crc_after (crc_after crc (escape (take n bytes))) (escape (drop n bytes))
      ≡ crc_after crc (escape bytes)
crc_after_split n crc bytes =
    sym (crc_after-append crc (escape (take n bytes)) (escape (drop n bytes)))
    ∙ rw (← escape-append, take-drop) refl

-- One read of the next bytes.
pub read_all_step :
    (n : ℕ) (ns : List ℕ) (c c' : Reader) (bytes : List ℕ) (res : ℤ)
    → cookie_read_serial c n ≡ record { res = res; buf = bytes; ctx = c' }
    → read_all (n ∷ ns) c ≡ (bytes ++ (read_all ns c').0, (read_all ns c').1)
unfolding read_all
read_all_step n ns c c' bytes res h =
    ap (λ g. (g.buf ++ (read_all ns g.ctx).0, (read_all ns g.ctx).1)) h

pub read_all_message :
    (ns bytes : List ℕ) (crc : ℕ) (es : List Event) (errnum : Errno)
    → All IsByte bytes
    → length bytes < sum ns
    → read_all ns (reading crc (arriving (escape bytes) (byte etx ∷ es)) errnum)
      ≡ (bytes, at_end (crc_after crc (escape bytes)) es errnum)
unfolding sum cookie_read_serial
read_all_message [] bytes crc es errnum h lt = absurd (omega arith)
read_all_message (n ∷ ns) bytes crc es errnum h lt = elim (Bool-cases (leb n (length bytes))) [
  | inl y ↦
      let rest =
        read_all_message ns (drop n bytes) (crc_after crc (escape (take n bytes))) es errnum
          (All-drop n bytes h) (ground (arith, lt, y, length-drop n bytes)) in
      read_all_step n ns _ _ _ _
        (read_loop_within n 0 bytes [] crc (byte etx ∷ es) errnum h (ground (arith, y)))
      ∙ rw (rest, take-drop, crc_after_split) refl
  | inr m ↦
      read_all_step n ns _ _ _ _ (read_loop_end n 0 bytes [] crc es errnum h (ground (arith, m)))
      ∙ rw (read_all_end, append-nil) refl
]

-- Bytes other than STX are skipped.
skip_noise :
    (fuel : ℕ) (noise : List ℕ) (es : List Event) (errnum : Errno)
    → All (λ b. (b == stx) ≡ false) noise
    → length noise ≤ fuel
    → skip_to_stx fuel (record { events = arriving noise (byte stx ∷ es); errnum = errnum })
      ≡ (pos stx, record { events = es; errnum = errnum })
unfolding skip_to_stx xreadc
skip_noise zero [] es errnum h le = refl
skip_noise zero (b ∷ noise) es errnum h le = absurd (omega arith)
skip_noise (suc fuel) [] es errnum h le = refl
skip_noise (suc fuel) (b ∷ noise) es errnum (hb, hs) le =
    rw (skip_to_stx, hb) (skip_noise fuel noise es errnum hs (omega arith))

length-arriving : (bytes : List ℕ) (es : List Event) → length bytes ≤ length (arriving bytes es)
length-arriving [] es = omega arith
length-arriving (b ∷ bytes) es = omega (arith, length-arriving bytes es)

pub nextmsg_noise :
    (noise : List ℕ) (es : List Event) (errnum : Errno) (rcrc : ℕ)
    → All (λ b. (b == stx) ≡ false) noise
    → serial_nextmsg (record {
      rmsg = rmsg_no;
      rcrc = rcrc;
      line = record { events = arriving noise (byte stx ∷ es); errnum = errnum };
    })
      ≡ (MsgType.message, reading crc32_init es errnum)
unfolding serial_nextmsg begin_message
nextmsg_noise noise es errnum rcrc h =
    let found = skip_noise _ noise es errnum h (length-arriving noise (byte stx ∷ es)) in
    rw (serial_nextmsg, found)
      (ap (λ r. begin_message (record { rmsg = rmsg_no; rcrc = rcrc; line = r.1 })) found)

-- What stands behind ETX.
abbrev pub crc_tail : Bool → ℕ → List ℕ
crc_tail has_crc crc = if has_crc then crc_bytes 4 (crc32_finalize crc) else []

validate_received :
    (crc v : ℕ) (l l' : Line)
    → crc_loop 4 0 l ≡ (pos v, l')
    → serial_validate true (record { rmsg = rmsg_etx; rcrc = crc; line = l })
      ≡ (v == crc32_finalize crc, record { rmsg = rmsg_etx; rcrc = crc; line = l' })
unfolding serial_validate
validate_received crc v l l' h =
    ap
      (λ (r : ℤ × Line). (
        elim r.0 as (λ _. Bool) [ pos w ↦ w == crc32_finalize crc | negsuc x ↦ false ],
        record { rmsg = rmsg_etx; rcrc = crc; line = r.1 },
      ))
      h

pub validate-crc_tail :
    (has_crc : Bool) (crc : ℕ) (es : List Event) (errnum : Errno)
    → let (valid, r) =
        serial_validate has_crc (at_end crc (arriving (crc_tail has_crc crc) es) errnum) in
      (valid ≡ true) × (r.line.events ≡ es)
unfolding serial_validate crc32_finalize
validate-crc_tail false crc es errnum = (refl, refl)
validate-crc_tail true crc es errnum =
    let back = crc_loop-crc_bytes (crc32_finalize crc) es errnum (omega arith) in
    let checked =
      validate_received crc (crc32_finalize crc)
        (line_of (arriving (crc_bytes 4 (crc32_finalize crc)) es) errnum) (line_of es errnum)
        back in
    (ap (λ r. r.0) checked ∙ (==_iff _ _).1 refl, ap (λ r. r.1.line.events) checked)
