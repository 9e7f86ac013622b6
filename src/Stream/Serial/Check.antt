-- ===== src/Stream/Serial/Check.antt =====
-- The CRC behind ETX: what serial_send writes, serial_validate reads.
use shvc.Base.{
  ℕ, zero, suc, ◌+◌, ◌*◌, ◌/◌, ◌%◌, ◌^◌, ◌≤◌, ◌<◌, ◌≡◌, refl, ap, ◌∙◌, true, false, ◌==◌,
}
use shvc.Base.{
  if◌then◌else◌, List, [], ◌∷◌, ◌++◌, arith, Bool-cases, inl, inr, length, ℤ, pos, negsuc,
}
use shvc.Base.Bytes.{IsByte}
use shvc.Stream.{esc, escx, descx, escapable, escaped, Event, byte, Line, Errno, xreadc}
use shvc.Stream.Serial.{crc_bytes, crc_byte, crc_loop}
use shvc.Stream.Serial.Escape.{escape_byte, escapable_code, plain_byte}
use shvc.Stream.Serial.Reading.{arriving, arriving_append}

abbrev pub line_of : List Event → Errno → Line
line_of es errnum = record { events = es; errnum = errnum }

crc_byte-escaped :
    (x : ℕ) (es : List Event) (errnum : Errno)
    → escaped x ≡ true
    → crc_byte (line_of (byte esc ∷ byte x ∷ es) errnum) ≡ (pos (descx x), line_of es errnum)
unfolding crc_byte xreadc
crc_byte-escaped x es errnum code =
    ap (λ t. (if t then pos (descx x) else negsuc 0, line_of es errnum)) code

crc_byte_plain :
    (b : ℕ) (es : List Event) (errnum : Errno)
    → (b == esc) ≡ false
    → crc_byte (line_of (byte b ∷ es) errnum) ≡ (pos b, line_of es errnum)
unfolding crc_byte xreadc
crc_byte_plain b es errnum not_esc = rw (crc_byte, not_esc) refl

crc_byte_back :
    (b : ℕ) (es : List Event) (errnum : Errno)
    → IsByte b
    → crc_byte (line_of (arriving (escape_byte b) es) errnum) ≡ (pos b, line_of es errnum)
unfolding crc_byte xreadc
crc_byte_back b es errnum h = elim (Bool-cases (escapable b)) [
  | inl y ↦
      let (code, back) = escapable_code b h y in
      rw (y, crc_byte-escaped (escx b) es errnum code, back) refl
  | inr p ↦
      let (not_stx, not_etx, not_atx, not_esc) = plain_byte b p in
      rw (p, crc_byte_plain b es errnum not_esc) refl
]

crc_loop_step :
    (n acc b : ℕ) (l l' : Line)
    → crc_byte l ≡ (pos b, l')
    → crc_loop (suc n) acc l ≡ crc_loop n (acc * 256 % 2 ^ 32 + b % 256) l'
unfolding crc_loop
crc_loop_step n acc b l l' h =
    ap
      (λ r. elim r.0 as (λ _. ℤ × Line) [
        | pos v ↦ crc_loop n (acc * 256 % 2 ^ 32 + v % 256) r.1
        | negsuc x ↦ (negsuc 0, r.1)
      ])
      h

crc_loop_byte :
    (n acc b : ℕ) (bytes : List ℕ) (es : List Event) (errnum : Errno)
    → IsByte b
    → crc_loop (suc n) acc (line_of (arriving (escape_byte b ++ bytes) es) errnum)
      ≡ crc_loop n (acc * 256 % 2 ^ 32 + b % 256) (line_of (arriving bytes es) errnum)
crc_loop_byte n acc b bytes es errnum h =
    rw (arriving_append (escape_byte b) bytes es)
      (crc_loop_step n acc b _ _ (crc_byte_back b (arriving bytes es) errnum h))

pub length-crc_bytes : (n crc : ℕ) → length (crc_bytes n crc) ≤ 2 * n
unfolding crc_bytes
length-crc_bytes zero crc = omega arith
length-crc_bytes (suc n) crc = elim (Bool-cases (escapable (crc / 2 ^ (8 * n) % 256))) [
  | inl y ↦ rw y (omega (arith, length-crc_bytes n crc))
  | inr p ↦ rw p (omega (arith, length-crc_bytes n crc))
]

-- Any 32 bits come back.
pub crc_loop-crc_bytes :
    (crc : ℕ) (es : List Event) (errnum : Errno)
    → crc < 2 ^ 32
    → crc_loop 4 0 (line_of (arriving (crc_bytes 4 crc) es) errnum) ≡ (pos crc, line_of es errnum)
unfolding crc_loop crc_bytes
crc_loop-crc_bytes crc es errnum h =
    crc_loop_byte 3 0 (crc / 2 ^ 24 % 256) (crc_bytes 3 crc) es errnum (omega arith)
    ∙ crc_loop_byte 2 _ (crc / 2 ^ 16 % 256) (crc_bytes 2 crc) es errnum (omega arith)
    ∙ crc_loop_byte 1 _ (crc / 2 ^ 8 % 256) (crc_bytes 1 crc) es errnum (omega arith)
    ∙ crc_loop_byte 0 _ (crc / 2 ^ 0 % 256) [] es errnum (omega arith)
    ∙ ap (λ c. (pos c, line_of es errnum)) (omega arith)
