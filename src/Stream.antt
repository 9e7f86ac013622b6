-- ===== src/Stream.antt =====
-- The streams of libshvrpc/rpcclient_stream.c: the line to the peer, and what both framings share.
pub mod Serial
pub mod Block
mod Runs
use shvc.Base.{
  ℕ, zero, suc, ◌+◌, ◌-◌, ◌%◌, bit_or, min, Bool, true, false, not, ◌&&◌, ◌||◌, leb, ◌==◌,
}
use shvc.Base.{if◌then◌else◌, List, [], ◌∷◌, ◌++◌, length, take, ℤ, pos, negsuc}

abbrev pub stx : ℕ
stx = 0xA2

abbrev pub etx : ℕ
etx = 0xA3

abbrev pub atx : ℕ
atx = 0xA4

abbrev pub esc : ℕ
esc = 0xAA

-- ESCX: the mask 0x0f.
abbrev pub escx : ℕ → ℕ
escx x = x % 16

-- DESCX.
abbrev pub descx : ℕ → ℕ
descx x = bit_or x 0xA0

-- ESCAPABLE.
unfoldable pub escapable : ℕ → Bool
escapable x = x == stx || (x == etx || (x == atx || x == esc))

-- ESCAPED.
unfoldable pub escaped : ℕ → Bool
escaped x = x == 0x02 || (x == 0x03 || (x == 0x04 || x == 0x0A))

-- The values that `errnum` takes; `other` is one that read, write or poll report.
pub data Errno : Type 0 where
  ok epipe enotconn etimedout ewouldblock eagain other : Errno

-- What `poll` and `read` find on the descriptor: a byte, no byte until the timeout, or a peer that
-- hung up, an error of `poll`, or one of `read`. Both calls are repeated after EINTR, which is not
-- an event. The end of the list is the end of the file.
pub data Event : Type 0 where
  byte : ℕ → Event
  silence hangup poll_error read_error : Event

-- The reading side: the events to come, and `errnum`.
pub record Line : Type 0 where
  pub events : List Event
  pub errnum : Errno

-- xread of one byte, and xreadc: the byte, -1 or -2. A peer that hung up stays so.
unfoldable pub xreadc : Line → ℤ × Line
xreadc l = elim l.events [
  | [] ↦ (negsuc 0, record l { errnum = enotconn })
  | byte b ∷ es ↦ (pos b, record l { events = es })
  | silence ∷ es ↦ (negsuc 1, record l { events = es })
  | hangup ∷ es ↦ (negsuc 0, record l { errnum = epipe })
  | poll_error ∷ es ↦ (negsuc 0, record l { events = es })
  | read_error ∷ es ↦ (negsuc 0, record l { events = es; errnum = other })
]

-- The writing side: what was written, how much more the peer takes, why it takes no more then, and
-- `errnum`.
pub record Out : Type 0 where
  pub written : List ℕ
  pub room : ℕ
  pub reason : Errno
  pub errnum : Errno

-- `c->errnum != 0 && c->errnum != EAGAIN`; EWOULDBLOCK is the same number as EAGAIN on Linux.
unfoldable pub is_broken : Errno → Bool
is_broken ok = false
is_broken eagain = false
is_broken ewouldblock = false
is_broken _ = true

-- xwrite. The error is cleared with the first poll that finds room.
unfoldable pub xwrite : Out → List ℕ → Bool × Out
unfolding is_broken
xwrite o bytes =
    let siz = length bytes in
    if is_broken o.errnum
    then (false, o)
    else if siz == 0
    then (true, o)
    else if leb siz o.room
    then (true, record o { written = o.written ++ bytes; room = o.room - siz; errnum = ok })
    else (false, record o { written = o.written ++ take o.room bytes; room = 0; errnum = o.reason })

-- enum rpcclient_msg_type, as far as these functions return it.
pub data MsgType : Type 0 where
  nothing message reset error : MsgType
