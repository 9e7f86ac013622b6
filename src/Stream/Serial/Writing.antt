-- ===== src/Stream/Serial/Writing.antt =====
-- What cookie_write_serial puts on the line, for any size of its buffer.
use shvc.Base.{ℕ, zero, suc, ◌-◌, ◌≤◌, ◌<◌, ◌≡◌, refl, sym, ap, ◌∙◌, Bool, true, false, ◌==◌, leb}
use shvc.Base.{
  if◌then◌else◌, List, [], ◌∷◌, ◌++◌, append-nil, append_assoc, arith, Bool-cases, inl, inr, length,
  take, drop, length-take, length-drop, take-drop,
}
use shvc.Crc32.{crc32_init, crc32_cupdate}
use shvc.Stream.{stx, esc, escx, escapable, Out, is_broken, xwrite}
use shvc.Stream.Serial.{
  Fill, WMsg, wmsg_data, wmsg_no, wmsg_st, Writer, put, fill_byte, fill, write_loop,
}
use shvc.Stream.Serial.Escape.{escape_byte, escape}

-- The CRC over some bytes, one after the other.
unfoldable pub crc_after : ℕ → List ℕ → ℕ
crc_after crc [] = crc
crc_after crc (v ∷ vs) = crc_after (crc32_cupdate crc v) vs

abbrev pub is_open : WMsg → Bool
is_open wmsg_data = true
is_open wmsg_no = false
is_open wmsg_st = false

-- The escaped form of what is left, whose first byte may be half written.
abbrev pub body : List ℕ → Bool → List ℕ
body [] e = []
body (b ∷ bytes) e = (if e then escx b ∷ [] else escape_byte b) ++ escape bytes

-- What is still to be put on the line.
abbrev pub pending : Fill → List ℕ
pending s = elim s.bytes [
  | [] ↦ []
  | b ∷ bytes ↦
      if is_open s.wmsg then body (b ∷ bytes) s.is_esc else stx ∷ body (b ∷ bytes) s.is_esc
]

-- The CRC and the state at the end of the message so far.
abbrev pub end_crc : Fill → ℕ
end_crc s = elim s.bytes [
  | [] ↦ s.wcrc
  | b ∷ bytes ↦
      crc_after (if is_open s.wmsg then s.wcrc else crc32_init) (body (b ∷ bytes) s.is_esc)
]

abbrev pub end_wmsg : Fill → WMsg
end_wmsg s = elim s.bytes [ [] ↦ s.wmsg | b ∷ bytes ↦ wmsg_data ]

-- One byte of the buffer is the next one of what is pending.
record Puts (s t : Fill) : Type 0 where
  byte : ℕ
  stored : t.buf ≡ s.buf ++ (byte ∷ [])
  rest : pending s ≡ byte ∷ pending t
  crc : end_crc t ≡ end_crc s
  wmsg : end_wmsg t ≡ wmsg_data

pub body_plain : (bytes : List ℕ) → body bytes false ≡ escape bytes
unfolding escape
body_plain [] = refl
body_plain (b ∷ bytes) = refl

pub pending_plain :
    (bytes buf : List ℕ) (crc : ℕ)
    → pending (record { bytes = bytes; is_esc = false; buf = buf; wmsg = wmsg_data; wcrc = crc })
      ≡ escape bytes
unfolding escape
pending_plain [] buf crc = refl
pending_plain (b ∷ bytes) buf crc = refl

pub end_crc_plain :
    (bytes buf : List ℕ) (crc : ℕ)
    → end_crc (record { bytes = bytes; is_esc = false; buf = buf; wmsg = wmsg_data; wcrc = crc })
      ≡ crc_after crc (escape bytes)
unfolding escape crc_after
end_crc_plain [] buf crc = refl
end_crc_plain (b ∷ bytes) buf crc = refl

pub end_wmsg_plain :
    (bytes buf : List ℕ) (crc : ℕ) (e : Bool)
    → end_wmsg (record { bytes = bytes; is_esc = e; buf = buf; wmsg = wmsg_data; wcrc = crc })
      ≡ wmsg_data
end_wmsg_plain [] buf crc e = refl
end_wmsg_plain (b ∷ bytes) buf crc e = refl

fill_byte-Puts :
    (b : ℕ) (bytes : List ℕ) (e : Bool) (buf : List ℕ) (w : WMsg) (crc : ℕ)
    → let s : Fill = record { bytes = b ∷ bytes; is_esc = e; buf = buf; wmsg = w; wcrc = crc } in
      Puts s (fill_byte s b bytes)
unfolding fill_byte put crc_after
fill_byte-Puts b bytes e buf wmsg_no crc = record {
  byte = stx;
  stored = refl;
  rest = refl;
  crc = refl;
  wmsg = refl;
}
fill_byte-Puts b bytes e buf wmsg_st crc = record {
  byte = stx;
  stored = refl;
  rest = refl;
  crc = refl;
  wmsg = refl;
}
fill_byte-Puts b bytes true buf wmsg_data crc = record {
  byte = escx b;
  stored = refl;
  rest =
      ap (λ r. escx b ∷ r)
        (sym (pending_plain bytes (buf ++ (escx b ∷ [])) (crc32_cupdate crc (escx b))));
  crc = end_crc_plain bytes (buf ++ (escx b ∷ [])) (crc32_cupdate crc (escx b));
  wmsg = end_wmsg_plain bytes (buf ++ (escx b ∷ [])) (crc32_cupdate crc (escx b)) false;
}
fill_byte-Puts b bytes false buf wmsg_data crc = elim (Bool-cases (escapable b)) [
  | inl y ↦
      rw y
        (record { byte = esc; stored = refl; rest = (rw y refl); crc = (rw y refl); wmsg = refl })
  | inr n ↦ rw n (record {
    byte = b;
    stored = refl;
    rest =
        (rw n
          (ap (λ r. b ∷ r) (sym (pending_plain bytes (buf ++ (b ∷ [])) (crc32_cupdate crc b)))));
    crc = (rw n (end_crc_plain bytes (buf ++ (b ∷ [])) (crc32_cupdate crc b)));
    wmsg = end_wmsg_plain bytes (buf ++ (b ∷ [])) (crc32_cupdate crc b) false;
  })
]

-- What `n` rounds do to the buffer.
record Fills (n : ℕ) (s t : Fill) : Type 0 where
  stored : t.buf ≡ s.buf ++ take n (pending s)
  rest : pending t ≡ drop n (pending s)
  crc : end_crc t ≡ end_crc s
  wmsg : end_wmsg t ≡ end_wmsg s

fill-Fills :
    (n : ℕ) (bytes : List ℕ) (e : Bool) (buf : List ℕ) (w : WMsg) (crc : ℕ)
    → let s : Fill = record { bytes = bytes; is_esc = e; buf = buf; wmsg = w; wcrc = crc } in
      Fills n s (fill n s)
unfolding fill
fill-Fills zero bytes e buf w crc = record {
  stored = sym (append-nil _);
  rest = refl;
  crc = refl;
  wmsg = refl;
}
fill-Fills (suc n) [] e buf w crc = record {
  stored = sym (append-nil _);
  rest = refl;
  crc = refl;
  wmsg = refl;
}
fill-Fills (suc n) (b ∷ bytes) e buf w crc =
    let s : Fill = record { bytes = b ∷ bytes; is_esc = e; buf = buf; wmsg = w; wcrc = crc } in
    let t = fill_byte s b bytes in
    let one = fill_byte-Puts b bytes e buf w crc in
    let all = fill-Fills n t.bytes t.is_esc t.buf t.wmsg t.wcrc in
    record {
      stored = rw (all.stored, one.stored, one.rest, append_assoc) refl;
      rest = rw one.rest all.rest;
      crc = all.crc ∙ one.crc;
      wmsg = all.wmsg ∙ one.wmsg;
    }

-- What was written, when the peer takes all of it.
pub record Sends (o : Out) (bytes : List ℕ) (o' : Out) : Type 0 where
  pub written : o'.written ≡ o.written ++ bytes
  pub room : o'.room ≡ o.room - length bytes
  pub healthy : is_broken o'.errnum ≡ false

pub xwrite-Sends :
    (o : Out) (bytes : List ℕ)
    → is_broken o.errnum ≡ false
    → length bytes ≤ o.room
    → ((xwrite o bytes).0 ≡ true) × Sends o bytes (xwrite o bytes).1
unfolding xwrite
xwrite-Sends o [] h fits =
    rw h (refl, record { written = sym (append-nil _); room = omega arith; healthy = h })
xwrite-Sends o (b ∷ bytes) h fits =
    let enough : leb (suc (length bytes)) o.room ≡ true = ground (arith, fits) in
    let some_left : (suc (length bytes) == 0) ≡ false = ground arith in
    rw (h, some_left, enough) (refl, record { written = refl; room = refl; healthy = refl })

-- What write_loop leaves when the peer takes all.
pub record WritesAll (s : Fill) (out : Out) (left : List ℕ) (c : Writer) : Type 0 where
  pub none_left : left ≡ []
  pub wmsg : c.wmsg ≡ end_wmsg s
  pub crc : c.wcrc ≡ end_crc s
  pub sent : Sends out (pending s) c.out

Sends-next :
    (n : ℕ) (o o' o'' : Out) (ps : List ℕ)
    → Sends o (take n ps) o'
    → Sends o' (drop n ps) o''
    → Sends o ps o''
Sends-next n o o' o'' ps first second = record {
  written = second.written ∙ rw (first.written, append_assoc, take-drop) refl;
  room = omega (arith, second.room, first.room, length-take n ps, length-drop n ps);
  healthy = second.healthy;
}

pub write_loop-WritesAll :
    (fuel bufsiz : ℕ) (bytes : List ℕ) (e : Bool) (buf : List ℕ) (w : WMsg) (crc : ℕ) (out : Out)
    → let s : Fill = record { bytes = bytes; is_esc = e; buf = buf; wmsg = w; wcrc = crc } in
      let (left, c) = write_loop fuel bufsiz s out in
      0 < bufsiz
      → length (pending s) ≤ fuel
      → length (pending s) ≤ out.room
      → is_broken out.errnum ≡ false
      → WritesAll s out left c
unfolding write_loop
write_loop-WritesAll zero bufsiz [] e buf w crc out pos_siz fuel_ok fits h = record {
  none_left = refl;
  wmsg = refl;
  crc = refl;
  sent = record { written = sym (append-nil _); room = omega arith; healthy = h };
}
write_loop-WritesAll (suc fuel) bufsiz [] e buf w crc out pos_siz fuel_ok fits h = record {
  none_left = refl;
  wmsg = refl;
  crc = refl;
  sent = record { written = sym (append-nil _); room = omega arith; healthy = h };
}
write_loop-WritesAll zero bufsiz (b ∷ bytes) e buf w crc out pos_siz fuel_ok fits h =
    absurd (omega (arith, ap length (fill_byte-Puts b bytes e buf w crc).rest))
write_loop-WritesAll (suc fuel) bufsiz (b ∷ bytes) e buf w crc out pos_siz fuel_ok fits h =
    let s : Fill = record { bytes = b ∷ bytes; is_esc = e; buf = []; wmsg = w; wcrc = crc } in
    let t = fill bufsiz s in
    let f = fill-Fills bufsiz (b ∷ bytes) e [] w crc in
    let some_left = ap length (fill_byte-Puts b bytes e [] w crc).rest in
    let size = ap length f.stored ∙ length-take bufsiz (pending s) in
    let rest = ap length f.rest ∙ length-drop bufsiz (pending s) in
    let (accepted, first) = xwrite-Sends out t.buf h (omega (arith, size)) in
    let o' = (xwrite out t.buf).1 in
    let more =
      write_loop-WritesAll fuel bufsiz t.bytes t.is_esc t.buf t.wmsg t.wcrc o' pos_siz
        (omega (arith, rest, some_left)) (omega (arith, rest, size, first.room)) first.healthy in
    rw (write_loop, accepted)
      (record {
        none_left = more.none_left;
        wmsg = more.wmsg ∙ f.wmsg;
        crc = more.crc ∙ f.crc;
        sent =
            Sends-next bufsiz out o' _ (pending s) (rw (← f.stored) first)
              (rw (← f.rest) more.sent);
      })
