-- ===== src/ChainPack/IntegerCodec/Bounds.antt =====
-- What chainpack_unpack_uint does on any bytes, well formed or not.
use shvc.Base.{
  ℕ, zero, suc, ◌+◌, ◌-◌, ◌*◌, ◌%◌, ◌≤◌, ◌<◌, ◌≡◌, refl, sym, ap, ◌∙◌, arith, ltb, leb,
  if◌then◌else◌,
}
use shvc.Base.{List, [], ◌∷◌, length, length-drop, drop, take, All, true}
use shvc.Base.Bytes.{IsByte, all_below, all_below_sound, eq_below}
use shvc.CpItem.{no_error, eof}
use shvc.ChainPack.Integer.{u64, int_bytes, uint_value1}
use shvc.ChainPack.IntegerCodec.{Read, unpack_loop, unpack_uint}

-- Nothing is invented: the value fits 64 bits and the rest is a part of the input.
abbrev pub IsSound : List ℕ → Read ℕ → Type 0
IsSound bytes r = (r.value < u64) × (length r.rest + r.res ≡ length bytes) × All IsByte r.rest

unpack_loop_sound :
    (n v res : ℕ) (bytes : List ℕ)
    → v < u64
    → All IsByte bytes
    → ((unpack_loop n v res bytes).value < u64)
      × (length (unpack_loop n v res bytes).rest + (unpack_loop n v res bytes).res
          ≡ length bytes + res)
      × All IsByte (unpack_loop n v res bytes).rest
unfolding unpack_loop
unpack_loop_sound zero v res bytes h bs = ground arith
unpack_loop_sound (suc n) v res [] h bs = ground arith
unpack_loop_sound (suc n) v res (r ∷ bytes) h bs =
    ground (arith, unpack_loop_sound n (v * 256 % u64 + r) (res + 1) bytes (omega arith) bs.1)

-- A head byte says one to twenty bytes, and holds less than a byte of the number.
head_bounds :
    (c : ℕ)
    → c < 256
    → (ltb (uint_value1 c (int_bytes c)) 256 ≡ true)
      × (leb (int_bytes c) 20 ≡ true)
      × (ltb 0 (int_bytes c) ≡ true)
unfolding all_below int_bytes uint_value1
head_bounds c h = (
  all_below_sound 256 (λ c. ltb (uint_value1 c (int_bytes c)) 256) c refl h,
  all_below_sound 256 (λ c. leb (int_bytes c) 20) c refl h,
  all_below_sound 256 (λ c. ltb 0 (int_bytes c)) c refl h,
)

-- On any bytes chainpack_unpack_uint returns the number of bytes that it consumed, leaves as many
-- bytes less, and its value fits 64 bits.
pub unpack_uint-IsSound : (bytes : List ℕ) → All IsByte bytes → IsSound bytes (unpack_uint bytes)
unfolding unpack_uint
unpack_uint-IsSound [] h = omega arith
unpack_uint-IsSound (c ∷ bytes) h = ground (
  arith,
  head_bounds c h.0,
  unpack_loop_sound (int_bytes c - 1) (uint_value1 c (int_bytes c)) 1 bytes,
)

unpack_loop-err :
    (n v res : ℕ) (bytes : List ℕ)
    → ((unpack_loop n v res bytes).err ≡ (if leb n (length bytes) then no_error else eof))
      × ((unpack_loop n v res bytes).rest ≡ drop n bytes)
unfolding unpack_loop
unpack_loop-err zero v res bytes = ground arith
unpack_loop-err (suc n) v res [] = ground arith
unpack_loop-err (suc n) v res (r ∷ bytes) =
    ground (arith, unpack_loop-err n (v * 256 % u64 + r) (res + 1) bytes)

-- chainpack_unpack_uint fails exactly where the input holds fewer bytes than its head byte says,
-- and else leaves what is behind that many bytes; a head byte says 20 bytes at most.
pub unpack_uint-err :
    (c : ℕ) (bytes : List ℕ)
    → IsByte c
    → (int_bytes c ≤ 20)
      × ((unpack_uint (c ∷ bytes)).err
          ≡ (if ltb (length bytes + 1) (int_bytes c) then eof else no_error))
      × ((unpack_uint (c ∷ bytes)).rest ≡ drop (int_bytes c) (c ∷ bytes))
unfolding unpack_uint
unpack_uint-err c bytes h =
    let n : ℕ = int_bytes c in
    let e : suc (n - 1) ≡ n = ground (arith, head_bounds c h) in
    let facts = unpack_loop-err (n - 1) (uint_value1 c n) 1 bytes in
    (
      ground (arith, head_bounds c h),
      ground (arith, facts, head_bounds c h),
      facts.1 ∙ ap (λ (k : ℕ). drop k (c ∷ bytes)) e,
    )

-- A successful read takes a byte at least.
pub unpack_uint_takes :
    (bytes : List ℕ)
    → All IsByte bytes
    → (unpack_uint bytes).err ≡ no_error
    → length (unpack_uint bytes).rest < length bytes
unpack_uint_takes [] h e = unfold unpack_uint in cc
unpack_uint_takes (c ∷ bytes) h e =
    ground
      (arith, head_bounds c h.0, unpack_uint-err c bytes h.0, length-drop (int_bytes c) (c ∷ bytes))

-- A number in big-endian bytes, behind what was read of it.
unfoldable pub big_endian : ℕ → List ℕ → ℕ
big_endian v [] = v
big_endian v (b ∷ bytes) = big_endian (v * 256 + b) bytes

unpack_loop-big_endian :
    (n v w res : ℕ) (bytes : List ℕ)
    → v ≡ w % u64
    → All IsByte bytes
    → n ≤ length bytes
    → ((unpack_loop n v res bytes).value ≡ big_endian w (take n bytes) % u64)
      × ((unpack_loop n v res bytes).res ≡ res + n)
unfolding unpack_loop big_endian
unpack_loop-big_endian zero v w res bytes e h l = (e, omega arith)
unpack_loop-big_endian (suc n) v w res [] e h l = absurd (omega arith)
unpack_loop-big_endian (suc n) v w res (b ∷ bytes) e h l =
    let next : v * 256 % u64 + b ≡ (w * 256 + b) % u64 = omega arith in
    let (a, c) =
      unpack_loop-big_endian n (v * 256 % u64 + b) (w * 256 + b) (res + 1) bytes next h.1
        (omega arith) in
    (a, omega arith)

-- The format's head byte: one zero bit behind as many one bits as bytes follow, up to three, and else
-- the number of bytes less four in its lower half.
unfoldable pub head_size : ℕ → ℕ
head_size c =
    if ltb c 128
    then 1
    else if ltb c 192
    then 2
    else if ltb c 224
    then 3
    else if ltb c 240
    then 4
    else c - 240 + 5

-- What it holds of the number.
unfoldable pub head_value : ℕ → ℕ
head_value c =
    if ltb c 128
    then c
    else if ltb c 192
    then c - 128
    else if ltb c 224
    then c - 192
    else if ltb c 240
    then c - 224
    else 0

unpack_uint_value :
    (c : ℕ) (bytes : List ℕ)
    → IsByte c
    → All IsByte bytes
    → int_bytes c ≤ length bytes + 1
    → ((unpack_uint (c ∷ bytes)).err ≡ no_error)
      × ((unpack_uint (c ∷ bytes)).res ≡ int_bytes c)
      × ((unpack_uint (c ∷ bytes)).rest ≡ drop (int_bytes c) (c ∷ bytes))
      × ((unpack_uint (c ∷ bytes)).value
          ≡ big_endian (uint_value1 c (int_bytes c)) (take (int_bytes c - 1) bytes) % u64)
unfolding unpack_uint
unpack_uint_value c bytes h hs l =
    let n : ℕ = int_bytes c in
    let bounds = head_bounds c h in
    let facts = unpack_uint-err c bytes h in
    let below : uint_value1 c n < u64 = ground (arith, bounds) in
    let (value, count) =
      unpack_loop-big_endian (n - 1) (uint_value1 c n) (uint_value1 c n) 1 bytes (omega arith) hs
        (omega arith) in
    (ground (arith, facts), ground (arith, bounds, count), facts.2, value)

int_bytes-head_size : (c : ℕ) → IsByte c → int_bytes c ≡ head_size c
unfolding all_below int_bytes head_size
int_bytes-head_size c h = eq_below 256 int_bytes head_size refl c h

uint_value1-head_value : (c : ℕ) → IsByte c → uint_value1 c (int_bytes c) ≡ head_value c
unfolding all_below int_bytes uint_value1 head_value
uint_value1-head_value c h = eq_below 256 (λ b. uint_value1 b (int_bytes b)) head_value refl c h

-- Where the input holds as many bytes as its head byte says, whatever they are, chainpack_unpack_uint
-- succeeds, returns that number of bytes and leaves what is behind them, and its value is the
-- big-endian number of what the head byte holds of it and the other bytes, without what is beyond 64
-- bits.
pub unpack_uint-big_endian :
    (c : ℕ) (bytes : List ℕ)
    → IsByte c
    → All IsByte bytes
    → head_size c ≤ length bytes + 1
    → ((unpack_uint (c ∷ bytes)).err ≡ no_error)
      × ((unpack_uint (c ∷ bytes)).res ≡ head_size c)
      × ((unpack_uint (c ∷ bytes)).rest ≡ drop (head_size c) (c ∷ bytes))
      × ((unpack_uint (c ∷ bytes)).value
          ≡ big_endian (head_value c) (take (head_size c - 1) bytes) % u64)
unpack_uint-big_endian c bytes h hs =
    rw (sym (uint_value1-head_value c h), sym (int_bytes-head_size c h))
      (unpack_uint_value c bytes h hs)
