-- ===== src/Stdio.antt =====
-- What the packers and unpackers use of C's stdio.
--
-- A sink is the `FILE *f` of a packer: NULL, where the packer only counts, or a stream that has
-- taken the bytes `written`, takes `room` more, and has its error indicator in `failed`.
-- A source is the `FILE *f` of an unpacker: the bytes still to come, and what follows them, the end
-- of the file or, with `broken`, a read error.
pub mod Laws
use mathlib.Core.Option
use shvc.Base.{ℕ, zero, suc, ◌+◌, ◌-◌, ◌%◌, ◌≤◌, ◌≡◌, refl, Bool, true, false, leb}
use shvc.Base.{Option, none, some, List, [], ◌∷◌, ◌++◌, length, take, if◌then◌else◌}

pub data Sink : Type 0 where
  null : Sink
  file : List ℕ → ℕ → Bool → Sink

-- A packing function returns the number of bytes, `none` for -1, and leaves the stream changed.
abbrev pub Pack : Type 0
Pack = Sink → Option ℕ × Sink

-- `WRITE`: a short write sets the error indicator and the packer returns -1.
unfoldable pub write : List ℕ → Pack
write bs null = (some (length bs), null)
write bs (file written room failed) =
    if leb (length bs) room
    then (some (length bs), file (written ++ bs) (room - length bs) failed)
    else (none, file (written ++ take room bs) 0 true)

-- `PUTC`, whose argument is cast to `uint8_t`.
abbrev pub putc : ℕ → Pack
putc v = write ((v % 256) ∷ [])

abbrev pub and_then : Option ℕ × Sink → Pack → Option ℕ × Sink
and_then (none, s) q = (none, s)
and_then (some n, s) q = let (r, s') = q s in (elim r [ none ↦ none | some m ↦ some (n + m) ], s')

-- One macro after the other: a failure returns at once, else the counts are added to `res`.
infixr 20 ◌⨾◌
unfoldable pub ◌⨾◌ : Pack → Pack → Pack
◌⨾◌ p q s = and_then (p s) q

-- `ferror(f)`, with the NULL test that stands before it.
abbrev pub ferror : Sink → Bool
ferror null = false
ferror (file written room failed) = failed

-- `WRITE` from memory: a NULL stream counts `siz` and does not look at the memory. It must hold
-- `siz` bytes where a stream is written.
unfoldable pub write_mem : Option (List ℕ) → ℕ → Pack
unfolding write
write_mem mem siz null = (some siz, null)
write_mem mem siz (file written room failed) =
    write (take siz (Option.get_or mem [])) (file written room failed)

pub record Source : Type 0 where
  pub bytes : List ℕ
  pub broken : Bool
