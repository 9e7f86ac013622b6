-- ===== src/Stream/Block/RoundTrip.antt =====
-- A message from block_send to the peer's reads.
use shvc.Base.{ℕ, zero, suc, ◌+◌, ◌-◌, ◌≤◌, ◌<◌, ◌≡◌, refl, sym, ap, ◌∙◌, min, true, false, ◌==◌}
use shvc.Base.{
  if◌then◌else◌, List, [], ◌∷◌, ◌++◌, All, append-nil, append_assoc, arith, length, take, drop,
  length-append, length-take, length-drop, take-drop, ℤ, pos, negsuc,
}
use shvc.ChainPack.Integer.{u64}
use shvc.ChainPack.IntegerCodec.{uint_buf}
use shvc.Stream.{Line, Event, Errno, Out, MsgType, is_broken, xwrite}
use shvc.Stream.Block.{
  Writer, Reader, write_each, block_send, block_nextmsg, arrived, xread, cookie_read_block,
}
use shvc.Stream.Block.Sizes.{block_nextmsg-uint_buf}
use shvc.Stream.Serial.Reading.{arriving}
use shvc.Stream.Serial.Check.{line_of}
use shvc.Stream.Serial.Writing.{Sends, xwrite-Sends}

Sends-both :
    (o o' o'' : Out) (xs ys : List ℕ) → Sends o xs o' → Sends o' ys o'' → Sends o (xs ++ ys) o''
Sends-both o o' o'' xs ys first second = record {
  written = second.written ∙ rw (first.written, append_assoc) refl;
  room = omega (arith, second.room, first.room, length-append xs ys);
  healthy = second.healthy;
}

write_each-Sends :
    (o : Out) (bytes : List ℕ)
    → is_broken o.errnum ≡ false
    → length bytes ≤ o.room
    → ((write_each o bytes).0 ≡ true) × Sends o bytes (write_each o bytes).1
unfolding write_each
write_each-Sends o [] h fits =
    (refl, record { written = sym (append-nil _); room = omega arith; healthy = h })
write_each-Sends o (b ∷ bytes) h fits =
    let (accepted, first) = xwrite-Sends o (b ∷ []) h (omega arith) in
    let o' = (xwrite o (b ∷ [])).1 in
    let (all, more) = write_each-Sends o' bytes first.healthy (omega (arith, first.room)) in
    rw (write_each, accepted) (all, Sends-both o o' _ (b ∷ []) bytes first more)

block_send-Sends :
    (c : Writer) (b : ℕ) (bytes : List ℕ)
    → c.wbuf ≡ b ∷ bytes
    → is_broken c.out.errnum ≡ false
    → length (uint_buf (length (b ∷ bytes))) + length (b ∷ bytes) ≤ c.out.room
    → let (sent, c') = block_send c in
      (sent ≡ true)
      × (c'.wbuf ≡ [])
      × Sends c.out (uint_buf (length (b ∷ bytes)) ++ (b ∷ bytes)) c'.out
unfolding block_send
block_send-Sends c b bytes filled h fits =
    let size = uint_buf (length (b ∷ bytes)) in
    let (sized, first) = write_each-Sends c.out size h (omega arith) in
    let o' = (write_each c.out size).1 in
    let (accepted, more) = xwrite-Sends o' (b ∷ bytes) first.healthy (omega (arith, first.room)) in
    rw (block_send, filled, sized)
      (accepted, refl, Sends-both c.out o' _ size (b ∷ bytes) first more)

-- Reads of these sizes, the system giving so many bytes more than one at each: all bytes read.
unfoldable pub read_all : List (ℕ × ℕ) → Reader → List ℕ × Reader
unfolding cookie_read_block
read_all [] c = ([], c)
read_all ((size, avail) ∷ reads) c =
    let (res, bytes, c') = cookie_read_block c size avail in
    let (more, c'') = read_all reads c' in (bytes ++ more, c'')

arrived-arriving :
    (k : ℕ) (bytes : List ℕ) (es : List Event)
    → k ≤ length bytes
    → arrived k (arriving bytes es) ≡ (take k bytes, arriving (drop k bytes) es)
unfolding arrived
arrived-arriving zero bytes es le = refl
arrived-arriving (suc k) [] es le = absurd (omega arith)
arrived-arriving (suc k) (b ∷ bytes) es le =
    rw (arrived, arrived-arriving k bytes es (omega arith)) refl

-- A reader with this message before it.
abbrev pub at_message : List ℕ → List Event → Errno → Reader
at_message bytes es errnum = record {
  rmsgoff = length bytes;
  line = line_of (arriving bytes es) errnum;
}

xread_some :
    (b : ℕ) (bytes : List ℕ) (es : List Event) (errnum : Errno) (n avail : ℕ)
    → n ≤ length (b ∷ bytes)
    → let k = min n (suc avail) in
      xread (line_of (arriving (b ∷ bytes) es) errnum) n avail
      ≡ (pos k, take k (b ∷ bytes), line_of (arriving (drop k (b ∷ bytes)) es) errnum)
unfolding xread
xread_some b bytes es errnum n avail le =
    let k : ℕ = min n (suc avail) in
    let got = arrived-arriving k (b ∷ bytes) es (omega arith) in
    ap (λ (r : List ℕ × List Event). (pos (length r.0), r.0, line_of r.1 errnum)) got
    ∙ ap (λ j. (pos j, take k (b ∷ bytes), line_of (arriving (drop k (b ∷ bytes)) es) errnum))
        (omega (arith, length-take k (b ∷ bytes)))

read_step :
    (c : Reader) (size avail k : ℕ) (bytes : List ℕ) (l : Line)
    → (min c.rmsgoff size == 0) ≡ false
    → xread c.line (min c.rmsgoff size) avail ≡ (pos k, bytes, l)
    → cookie_read_block c size avail ≡ (pos k, bytes, record { rmsgoff = c.rmsgoff - k; line = l })
unfolding cookie_read_block
read_step c size avail k bytes l not_zero h =
    rw (cookie_read_block, not_zero)
      (ap
        (λ (r : ℤ × List ℕ × Line). elim r.0 as (λ _. ℤ × List ℕ × Reader) [
          | pos k ↦ (pos k, r.1, record { rmsgoff = c.rmsgoff - k; line = r.2 })
          | negsuc x ↦ (
            negsuc x,
            r.1,
            record c { line = if x == 1 then record r.2 { errnum = Errno.etimedout } else r.2 },
          )
        ])
        h)

read_some :
    (b : ℕ) (bytes : List ℕ) (es : List Event) (errnum : Errno) (size avail : ℕ)
    → 0 < size
    → let k = min (min (length (b ∷ bytes)) size) (suc avail) in
      cookie_read_block (at_message (b ∷ bytes) es errnum) size avail
      ≡ (pos k, take k (b ∷ bytes), at_message (drop k (b ∷ bytes)) es errnum)
read_some b bytes es errnum size avail some_size =
    let n : ℕ = min (length (b ∷ bytes)) size in
    let k : ℕ = min n (suc avail) in
    let not_zero : (n == 0) ≡ false = ground arith in
    let left : length (b ∷ bytes) - k ≡ length (drop k (b ∷ bytes)) =
      omega (arith, length-drop k (b ∷ bytes)) in
    let rest = arriving (drop k (b ∷ bytes)) es in
    read_step (at_message (b ∷ bytes) es errnum) size avail k _ _ not_zero
      (xread_some b bytes es errnum n avail (omega arith))
    ∙ (ap (λ off. (pos k, take k (b ∷ bytes), record { rmsgoff = off; line = line_of rest errnum }))
        left)

read_none :
    (size avail : ℕ) (es : List Event) (errnum : Errno)
    → cookie_read_block (at_message [] es errnum) size avail ≡ (pos 0, [], at_message [] es errnum)
unfolding cookie_read_block
read_none size avail es errnum =
    let zero_size : (min 0 size == 0) ≡ true = ground arith in
    rw (cookie_read_block, zero_size) refl

read_all_end :
    (reads : List (ℕ × ℕ)) (es : List Event) (errnum : Errno)
    → read_all reads (at_message [] es errnum) ≡ ([], at_message [] es errnum)
unfolding read_all
read_all_end [] es errnum = refl
read_all_end ((size, avail) ∷ reads) es errnum =
    rw (read_none size avail es errnum, read_all_end reads es errnum) refl

read_all_message :
    (reads : List (ℕ × ℕ)) (bytes : List ℕ) (es : List Event) (errnum : Errno)
    → All (λ r. 0 < r.0) reads
    → length bytes ≤ length reads
    → read_all reads (at_message bytes es errnum) ≡ (bytes, at_message [] es errnum)
unfolding read_all
read_all_message reads [] es errnum h le = read_all_end reads es errnum
read_all_message [] (b ∷ bytes) es errnum h le = absurd (omega arith)
read_all_message ((size, avail) ∷ reads) (b ∷ bytes) es errnum (some_size, h) le =
    let k : ℕ = min (min (length (b ∷ bytes)) size) (suc avail) in
    let one = read_some b bytes es errnum size avail some_size in
    let rest =
      read_all_message reads (drop k (b ∷ bytes)) es errnum h
        (omega (arith, length-drop k (b ∷ bytes))) in
    rw (read_all, one, rest, take-drop) refl

-- A message that fits into what the peer takes is sent. The peer finds it, whatever size it expected
-- before, and reads exactly the message with any reads of some bytes, as many as it has bytes at
-- most; what arrives later is left.
pub block_nextmsg-block_send :
    (c : Writer) (b : ℕ) (bytes : List ℕ) (reads : List (ℕ × ℕ)) (later : List Event)
    (errnum : Errno) (off : ℕ)
    → c.wbuf ≡ b ∷ bytes
    → c.out.written ≡ []
    → is_broken c.out.errnum ≡ false
    → length (uint_buf (length (b ∷ bytes))) + length (b ∷ bytes) ≤ c.out.room
    → length (b ∷ bytes) < u64
    → All (λ r. 0 < r.0) reads
    → length (b ∷ bytes) ≤ length reads
    → let (sent, c') = block_send c in
      let r : Reader = record {
        rmsgoff = off;
        line = record { events = arriving c'.out.written later; errnum = errnum };
      } in
      let (found, r1) = block_nextmsg r in
      let (message, r2) = read_all reads r1 in
      (sent ≡ true)
      × (c'.wbuf ≡ [])
      × (found ≡ MsgType.message)
      × (message ≡ b ∷ bytes)
      × (r2.rmsgoff ≡ 0)
      × (r2.line.events ≡ later)
block_nextmsg-block_send c b bytes reads later errnum off filled start healthy room small some_sizes
      enough =
    let (sent, empty, all) = block_send-Sends c b bytes filled healthy room in
    let wire : (block_send c).1.out.written ≡ uint_buf (length (b ∷ bytes)) ++ (b ∷ bytes) =
      all.written ∙ rw start refl in
    let found = block_nextmsg-uint_buf (length (b ∷ bytes)) (b ∷ bytes) later errnum off small in
    let got = read_all_message reads (b ∷ bytes) later errnum some_sizes enough in
    rw (wire, found, got) (sent, empty, refl, refl, refl, refl)
