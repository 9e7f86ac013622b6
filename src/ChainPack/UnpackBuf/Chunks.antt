-- ===== src/ChainPack/UnpackBuf/Chunks.antt =====
-- What chainpack_unpack_buf stores, for sized data and for chains of blobs.
use shvc.Base.{
  ℕ, suc, ◌+◌, ◌-◌, ◌≤◌, ◌<◌, ◌≡◌, refl, ◌∙◌, arith, ◌==◌, min, if◌then◌else◌, length-append,
}
use shvc.Base.{
  List, ◌++◌, length, take, drop, take-append, drop-append, true, false, Bool, Option, some,
}
use shvc.CpItem.{BufInfo, no_error}
use shvc.ChainPack.Integer.{u64}
use shvc.ChainPack.IntegerCodec.{done, uint_buf}
use shvc.ChainPack.IntegerCodec.Unsigned.{unpack_uint-uint_buf}
use shvc.ChainPack.UnpackBuf.{
  Loop, end_round, next_size, after_read, round, buf_loop, measure, store, unpack_buf,
}

-- What one call leaves of a sized string or blob that had `eoff` bytes to come, with `k` bytes read.
abbrev pub after_piece : BufInfo → ℕ → BufInfo
after_piece b k = record b {
  len = k;
  eoff = b.eoff - k;
  last = if b.eoff == k then true else b.last;
}

piece_loop :
    (fuel bufsiz : ℕ) (b : BufInfo) (mem bytes : List ℕ)
    → b.stream ≡ false
    → 0 < bufsiz
    → min b.eoff bufsiz ≤ length bytes
    → buf_loop (suc fuel) bufsiz (record {
      info = record b { len = 0 };
      mem = some mem;
      res = 0;
      err = no_error;
      bytes = bytes;
    })
      ≡ record {
        info = after_piece b (min b.eoff bufsiz);
        mem = store (some mem) 0 (take (min b.eoff bufsiz) bytes);
        res = min b.eoff bufsiz;
        err = no_error;
        bytes = drop (min b.eoff bufsiz) bytes;
      }
unfolding buf_loop round after_read end_round
piece_loop fuel bufsiz b mem bytes plain pos enough = ground arith

-- One call on a string or blob of known size stores the next `min eoff bufsiz` bytes at the start
-- of the buffer, keeps the rest of the buffer, counts them, and sets CPBI_F_LAST exactly with the
-- last of them.
pub unpack_buf_piece :
    (is_string : Bool) (bufsiz : ℕ) (b : BufInfo) (mem bytes : List ℕ)
    → b.stream ≡ false
    → 0 < bufsiz
    → min b.eoff bufsiz ≤ length bytes
    → unpack_buf is_string bufsiz (record { info = b; mem = some mem }) bytes
      ≡ done
          (record {
            info = after_piece b (min b.eoff bufsiz);
            mem = store (some mem) 0 (take (min b.eoff bufsiz) bytes);
          })
          (min b.eoff bufsiz)
          (drop (min b.eoff bufsiz) bytes)
unfolding unpack_buf
unpack_buf_piece is_string bufsiz b mem bytes plain pos enough =
    let s : Loop = record {
      info = record b { len = 0 };
      mem = some mem;
      res = 0;
      err = no_error;
      bytes = bytes;
    } in
    ground (arith, plain, piece_loop (measure s) bufsiz b mem bytes plain pos enough)

-- One round on a chunk of a blob chain, with the size of the next one.
round_chain :
    (bufsiz : ℕ) (s : Loop) (mem data' rest : List ℕ) (next : ℕ)
    → s.info.stream ≡ true
    → s.mem ≡ some mem
    → s.err ≡ no_error
    → s.bytes ≡ data' ++ (uint_buf next ++ rest)
    → s.info.eoff ≡ length data'
    → length data' ≤ bufsiz - s.info.len
    → next < u64
    → round bufsiz s
      ≡ end_round (record s {
        info = record s.info { len = length data'; eoff = next };
        mem = store (some mem) s.info.len data';
        res = s.res + length data' + length (uint_buf next);
        bytes = rest;
      })
unfolding round after_read next_size
round_chain bufsiz s mem data' rest next stream m err input size room fits =
    let n : ℕ = length data' in
    let e : min s.info.eoff (bufsiz - s.info.len) ≡ n = omega arith in
    let t : take n s.bytes ≡ data' = rw input (take-append data' (uint_buf next ++ rest)) in
    let d : drop n s.bytes ≡ uint_buf next ++ rest =
      rw input (drop-append data' (uint_buf next ++ rest)) in
    let l : length s.bytes ≡ n + length (uint_buf next ++ rest) =
      rw input (length-append data' (uint_buf next ++ rest)) in
    ground (arith, e, t, d, l, unpack_uint-uint_buf next rest fits)

start : BufInfo → Option (List ℕ) → List ℕ → Loop
start b mem bytes = record {
  info = record b { len = 0 };
  mem = mem;
  res = 0;
  err = no_error;
  bytes = bytes;
}

-- The state behind the round of `round_chain`.
chained : Loop → List ℕ → List ℕ → ℕ → List ℕ → Loop
chained s mem data' next rest = record s {
  info = record s.info { len = length data'; eoff = next };
  mem = store (some mem) s.info.len data';
  res = s.res + length data' + length (uint_buf next);
  bytes = rest;
}

chain_again :
    (fuel bufsiz : ℕ) (s t : Loop)
    → round bufsiz s ≡ end_round t
    → 0 < t.info.eoff
    → t.info.len < bufsiz
    → buf_loop (suc fuel) bufsiz s ≡ buf_loop fuel bufsiz t
unfolding buf_loop end_round
chain_again fuel bufsiz s t e more room = ground (arith, e)

chain_stop :
    (fuel bufsiz : ℕ) (s t : Loop)
    → round bufsiz s ≡ end_round t
    → t.info.eoff ≡ 0
    → buf_loop (suc fuel) bufsiz s ≡ record t { info = record t.info { last = true } }
unfolding buf_loop end_round
chain_stop fuel bufsiz s t e none' = ground (arith, e)

module _ (bufsiz : ℕ) (b : BufInfo) (mem first second rest : List ℕ) where
  chain_input : List ℕ
  chain_input = first ++ (uint_buf (length second) ++ (second ++ (uint_buf 0 ++ rest)))

  chain_loop :
      (fuel : ℕ)
      → b.stream ≡ true
      → b.eoff ≡ length first
      → 0 < length second
      → length first + length second ≤ bufsiz
      → length second < u64
      → buf_loop (suc (suc fuel)) bufsiz (start b (some mem) chain_input) ≡ record {
        info = record b { len = length second; eoff = 0; last = true };
        mem = store (store (some mem) 0 first) (length first) second;
        res =
            length first + length (uint_buf (length second)) + length second + length (uint_buf 0);
        err = no_error;
        bytes = rest;
      }
  unfolding start chain_input chained store
  chain_loop fuel stream size more room fits =
      let s : Loop = start b (some mem) chain_input in
      let tail : List ℕ = second ++ (uint_buf 0 ++ rest) in
      let t : Loop = chained s mem first (length second) tail in
      let mem' : List ℕ = first ++ drop (0 + length first) mem in
      let u : Loop = chained t mem' second 0 rest in
      let r : round bufsiz s ≡ end_round t =
        round_chain bufsiz s mem first tail (length second) stream refl refl refl size (omega arith)
          fits in
      let r' : round bufsiz t ≡ end_round u =
        round_chain bufsiz t mem' second rest 0 stream refl refl refl refl (omega arith)
          (omega arith) in
      chain_again (suc fuel) bufsiz s t r more (omega arith)
      ∙ chain_stop fuel bufsiz t u r' refl
      ∙ ground arith

  -- A blob chain of two chunks, the second one not empty, that both fit into the buffer, to its last
  -- byte at most, is stored whole, one chunk behind the other, but the length that the item reports is
  -- that of the second chunk alone.
  pub unpack_buf_chain :
      b.stream ≡ true
      → b.eoff ≡ length first
      → 0 < length second
      → length first + length second ≤ bufsiz
      → length second < u64
      → unpack_buf false bufsiz
          (record { info = b; mem = some mem })
          (first ++ (uint_buf (length second) ++ (second ++ (uint_buf 0 ++ rest))))
        ≡ done
            (record {
              info = record b { len = length second; eoff = 0; last = true };
              mem = store (store (some mem) 0 first) (length first) second;
            })
            (length first + length (uint_buf (length second)) + length second + length (uint_buf 0))
            rest
  unfolding unpack_buf start chain_input
  unpack_buf_chain stream size more room fits =
      let s : Loop = start b (some mem) chain_input in
      let f : ℕ = measure s - 1 in
      let input : 0 < length chain_input = omega (
        arith,
        length-append first (uint_buf (length second) ++ (second ++ (uint_buf 0 ++ rest))),
        length-append (uint_buf (length second)) (second ++ (uint_buf 0 ++ rest)),
        length-append second (uint_buf 0 ++ rest),
      ) in
      let e : measure s ≡ suc f = omega arith in
      ground (arith, e, chain_loop f stream size more room fits)
