-- ===== src/ChainPack/UnpackBuf/Fuel.antt =====
-- The measure of the loop of chainpack_unpack_buf, and how the loop ends.
use shvc.Base.{ℕ, zero, suc, ◌+◌, ◌-◌, ◌*◌, ◌≤◌, ◌<◌, ◌≡◌, refl, arith, ltb, min, if◌then◌else◌}
use shvc.Base.{
  List, [], ◌∷◌, length, take, drop, length-drop, All, ◌⊎◌, true, false, Bool-cases, ltb→lt, inl,
  inr, Option-cases, some,
}
use shvc.Base.Bytes.{IsByte}
use shvc.CpItem.{eof}
use shvc.ChainPack.Integer.{u64}
use shvc.ChainPack.IntegerCodec.Bounds.{unpack_uint-IsSound, unpack_uint_takes}
use shvc.ChainPack.UnpackBuf.{
  Loop, Round, stop, again, end_round, next_size, after_read, round, buf_loop, measure, store,
}

-- The loop's invariant: the input holds bytes, and the counter is an `unsigned long`.
pub record IsValid (s : Loop) : Type 0 where
  pub bytes : All IsByte s.bytes
  pub eoff : s.info.eoff < u64

All-drop : (n : ℕ) (xs : List ℕ) → All IsByte xs → All IsByte (drop n xs)
All-drop zero xs h = h
All-drop (suc n) [] h = tt
All-drop (suc n) (x ∷ xs) h = All-drop n xs h.1

-- The state behind the read of `toread` bytes.
abbrev counted : ℕ → Loop → Loop
counted toread s = record s {
  info = record s.info { len = toread; eoff = s.info.eoff - toread };
  res = s.res + toread;
}

-- After a size is read the input is shorter, which pays for the new counter.
next_size-measure :
    (s s' : Loop)
    → IsValid s
    → next_size s ≡ again s'
    → IsValid s' × (measure s' < length s.bytes * u64)
unfolding next_size end_round measure
next_size-measure s s' v e =
    ground (arith, unpack_uint-IsSound s.bytes v.bytes, unpack_uint_takes s.bytes v.bytes)

-- A round that goes on lowers the measure: it has read input, or it has lowered the counter.
after_read-measure :
    (toread room : ℕ) (s s' : Loop)
    → IsValid s
    → toread ≡ min s.info.eoff room
    → 0 < room
    → after_read toread s ≡ again s'
    → IsValid s' × (measure s' < measure s)
unfolding after_read end_round measure
after_read-measure toread room s s' v h pos e = ground (
  arith,
  next_size-measure (counted toread s) s' (record { bytes = v.bytes; eoff = omega arith }),
)

measure-drop :
    (n : ℕ) (s t : Loop)
    → t.bytes ≡ drop n s.bytes
    → t.info.eoff ≡ s.info.eoff
    → IsValid s
    → IsValid t × (measure t ≤ measure s)
unfolding measure
measure-drop n s t e e' v = (
  record { bytes = rw e (All-drop n s.bytes v.bytes); eoff = rw e' v.eoff },
  rw (e, e') (omega (arith, length-drop n s.bytes)),
)

round-measure :
    (bufsiz : ℕ) (s s' : Loop)
    → IsValid s
    → s.info.len < bufsiz
    → round bufsiz s ≡ again s'
    → IsValid s' × (measure s' < measure s)
unfolding round
round-measure bufsiz s s' v h e =
    let room : ℕ = bufsiz - s.info.len in
    let n : ℕ = min s.info.eoff room in
    let pos : 0 < room = omega arith in
    let kept = λ (m : List ℕ). record s {
      mem = store (some m) s.info.len (take n s.bytes);
      bytes = drop n s.bytes;
    } in
    let dropped : Loop = record s {
      err = if ltb (length s.bytes) n then eof else s.err;
      bytes = drop n s.bytes;
    } in
    elim (Option-cases s.mem) [
      | inl q ↦
          let w = measure-drop n s dropped refl refl v in
          ground (arith, q, w.1, after_read-measure n room dropped s' w.0 refl pos)
      | inr (m, q) ↦
          let w = measure-drop n s (kept m) refl refl v in
          ground (arith, q, w.1, after_read-measure n room (kept m) s' w.0 refl pos)
    ]

-- How the loop comes to its end: by a round that stops, by a buffer that is full, or behind one more
-- round.
pub data Ends (bufsiz : ℕ) : Loop → Loop → Type 0 where
  by_stop : {s t : Loop} → round bufsiz s ≡ stop t → Ends bufsiz s t
  by_full :
      {s t : Loop} → round bufsiz s ≡ again t → ltb t.info.len bufsiz ≡ false → Ends bufsiz s t
  by_round :
      {s s' t : Loop}
      → round bufsiz s ≡ again s'
      → ltb s'.info.len bufsiz ≡ true
      → Ends bufsiz s' t
      → Ends bufsiz s t

Round-cases : (r : Round) → ((t : Loop) × (r ≡ stop t)) ⊎ ((t : Loop) × (r ≡ again t))
Round-cases (stop t) = inl (t, refl)
Round-cases (again t) = inr (t, refl)

-- Whatever the bytes of the input, the loop of chainpack_unpack_buf, begun with room in the buffer and
-- what is left of the chunk in 64 bits, and given fuel above its measure, ends after finitely many
-- rounds by its own tests, with a round that stops or with a full buffer.
pub buf_loop-Ends :
    (f bufsiz : ℕ) (s : Loop)
    → IsValid s
    → s.info.len < bufsiz
    → measure s < f
    → Ends bufsiz s (buf_loop f bufsiz s)
unfolding buf_loop
buf_loop-Ends zero bufsiz s v h m = absurd (omega arith)
buf_loop-Ends (suc f) bufsiz s v h m = elim (Round-cases (round bufsiz s)) [
  | inl (t, e) ↦ rw (buf_loop, e) (by_stop e)
  | inr (t, e) ↦ elim (Bool-cases (ltb t.info.len bufsiz)) [
    | inr full ↦ rw (buf_loop, e, full) (by_full e full)
    | inl room ↦
        let (v', lower) = round-measure bufsiz s t v h e in
        rw (buf_loop, e, room)
          (by_round e room (buf_loop-Ends f bufsiz t v' (ltb→lt _ _ room) (omega arith)))
  ]
]
