-- ===== src/Stream/Serial/Pieces.antt =====
-- A message that cookie_write_serial puts on the line in pieces.
use shvc.Base.{ℕ, ◌+◌, ◌*◌, ◌≤◌, ◌<◌, ◌≡◌, refl, ap, ◌∙◌, false}
use shvc.Base.{List, [], ◌∷◌, ◌++◌, append_assoc, arith, Bool-cases, inl, inr, length}
use shvc.Crc32.{crc32_init, crc32_cupdate}
use shvc.Stream.{stx, escapable, is_broken}
use shvc.Stream.Serial.{Fill, wmsg_data, Writer, cookie_write_serial}
use shvc.Stream.Serial.Escape.{escape}
use shvc.Stream.Serial.Writing.{
  crc_after, is_open, pending, end_crc, end_wmsg, body_plain, pending_plain, end_crc_plain,
  end_wmsg_plain, WritesAll, write_loop-WritesAll,
}

-- At most two bytes for each one.
length-body : (bytes : List ℕ) → length (escape bytes) ≤ 2 * length bytes
unfolding escape
length-body [] = omega arith
length-body (b ∷ bytes) = elim (Bool-cases (escapable b)) [
  | inl y ↦ rw y (omega (arith, length-body bytes))
  | inr n ↦ rw n (omega (arith, length-body bytes))
]

pub escape-append : (xs ys : List ℕ) → escape (xs ++ ys) ≡ escape xs ++ escape ys
unfolding escape
escape-append [] ys = refl
escape-append (x ∷ xs) ys = rw (escape-append xs ys, append_assoc) refl

pub crc_after-append :
    (crc : ℕ) (xs ys : List ℕ) → crc_after crc (xs ++ ys) ≡ crc_after (crc_after crc xs) ys
unfolding crc_after
crc_after-append crc [] ys = refl
crc_after-append crc (x ∷ xs) ys = crc_after-append (crc32_cupdate crc x) xs ys

-- A message with this data so far, for which the peer takes so many bytes more.
pub record IsOpen (start payload : List ℕ) (more : ℕ) (c : Writer) : Type 0 where
  pub wmsg : c.wmsg ≡ wmsg_data
  pub crc : c.wcrc ≡ crc_after crc32_init (escape payload)
  pub written : c.out.written ≡ start ++ (stx ∷ escape payload)
  pub room : more ≤ c.out.room
  pub healthy : is_broken c.out.errnum ≡ false

cookie_write_serial-WritesAll :
    (bufsiz : ℕ) (c : Writer) (bytes : List ℕ)
    → let s : Fill = record {
      bytes = bytes;
      is_esc = false;
      buf = [];
      wmsg = c.wmsg;
      wcrc = c.wcrc;
    } in
      0 < bufsiz
      → length (pending s) ≤ 2 * length bytes + 2
      → length (pending s) ≤ c.out.room
      → is_broken c.out.errnum ≡ false
      → let (count, c') = cookie_write_serial bufsiz c bytes in
        (count ≡ length bytes) × WritesAll s c.out [] c'
unfolding cookie_write_serial
cookie_write_serial-WritesAll bufsiz c bytes pos_siz bound fits h =
    let all =
      write_loop-WritesAll (2 * length bytes + 2) bufsiz bytes false [] c.wmsg c.wcrc c.out pos_siz
        bound fits h in
    (
      rw all.none_left (omega arith),
      record { none_left = refl; wmsg = all.wmsg; crc = all.crc; sent = all.sent },
    )

-- The first bytes open the message.
pub cookie_write_serial_first :
    (bufsiz more b : ℕ) (bytes : List ℕ) (c : Writer)
    → 0 < bufsiz
    → is_open c.wmsg ≡ false
    → 2 * length (b ∷ bytes) + 1 + more ≤ c.out.room
    → is_broken c.out.errnum ≡ false
    → let (count, c') = cookie_write_serial bufsiz c (b ∷ bytes) in
      (count ≡ length (b ∷ bytes)) × IsOpen c.out.written (b ∷ bytes) more c'
cookie_write_serial_first bufsiz more b bytes c pos_siz closed fits h =
    let s : Fill = record {
      bytes = b ∷ bytes;
      is_esc = false;
      buf = [];
      wmsg = c.wmsg;
      wcrc = c.wcrc;
    } in
    let form : pending s ≡ stx ∷ escape (b ∷ bytes) = rw (closed, body_plain (b ∷ bytes)) refl in
    let size = ap length form in
    let bound = length-body (b ∷ bytes) in
    let (count, all) =
      cookie_write_serial-WritesAll bufsiz c (b ∷ bytes) pos_siz (omega (arith, size, bound))
        (omega (arith, size, bound)) h in
    (
      count,
      record {
        wmsg = all.wmsg;
        crc = all.crc ∙ rw (closed, body_plain (b ∷ bytes)) refl;
        written = all.sent.written ∙ rw form refl;
        room = omega (arith, all.sent.room, size, bound);
        healthy = all.sent.healthy;
      },
    )

-- More bytes extend it.
pub cookie_write_serial_more :
    (bufsiz more : ℕ) (start payload bytes : List ℕ) (c : Writer)
    → 0 < bufsiz
    → IsOpen start payload (2 * length bytes + more) c
    → let (count, c') = cookie_write_serial bufsiz c bytes in
      (count ≡ length bytes) × IsOpen start (payload ++ bytes) more c'
cookie_write_serial_more bufsiz more start payload bytes c pos_siz opened =
    let s : Fill = record {
      bytes = bytes;
      is_esc = false;
      buf = [];
      wmsg = c.wmsg;
      wcrc = c.wcrc;
    } in
    let plain : Fill = record s { wmsg = wmsg_data } in
    let same : s ≡ plain = rw opened.wmsg refl in
    let form : pending s ≡ escape bytes = ap pending same ∙ pending_plain bytes [] c.wcrc in
    let size = ap length form in
    let bound = length-body bytes in
    let (count, all) =
      cookie_write_serial-WritesAll bufsiz c bytes pos_siz (omega (arith, size, bound))
        (omega (arith, size, bound, opened.room)) opened.healthy in
    (
      count,
      record {
        wmsg = all.wmsg ∙ ap end_wmsg same ∙ end_wmsg_plain bytes [] c.wcrc false;
        crc =
            all.crc
            ∙ ap end_crc same
            ∙ end_crc_plain bytes [] c.wcrc
            ∙ rw
                (
                  opened.crc,
                  escape-append payload bytes,
                  crc_after-append crc32_init (escape payload) (escape bytes),
                )
                refl;
        written =
            all.sent.written
            ∙ rw (form, opened.written, escape-append payload bytes, append_assoc) refl;
        room = omega (arith, all.sent.room, size, bound, opened.room);
        healthy = all.sent.healthy;
      },
    )
