-- ===== src/ChainPack/Unpack/Payload.antt =====
-- chainpack_pack and chainpack_unpack together, on strings and blobs in one piece.
use shvc.Base.{
  ℕ, suc, ltb, lt→ltb, append-nil, append_assoc, ◌+◌, ◌-◌, ◌%◌, ◌^◌, ◌≤◌, ◌<◌, ◌≡◌, refl, ap, ◌∙◌,
  arith, min, if◌then◌else◌,
}
use shvc.Base.{
  Bool, true, false, List, [], ◌∷◌, ◌++◌, length, take, drop, take-append, drop-append, take_all,
  some, length-append,
}
use shvc.Stdio.{Source, file, write}
use shvc.CpItem.{CpError, CpItem, BufInfo, Value}
use shvc.ChainPack.Scheme
use shvc.ChainPack.IntegerCodec.{uint_buf, done}
use shvc.ChainPack.IntegerCodec.Unsigned.{unpack_uint-uint_buf}
use shvc.ChainPack.Pack.{pack}
use shvc.ChainPack.Pack.Encoding.{encoding, HasPayload, pack-encoding}
use shvc.ChainPack.UnpackBuf.{unpack_buf, store}
use shvc.ChainPack.UnpackBuf.Chunks.{unpack_buf_piece}
use shvc.ChainPack.Unpack.{unpack, unpack_item, call_buf}
use shvc.ChainPack.Unpack.RoundTrip.{IsReady, unpack_ready}

-- cpbufinfo of data that stands in the buffer whole: CPBI_F_SINGLE.
abbrev pub single : ℕ → BufInfo
single n = record { len = n; eoff = 0; first = true; last = true; stream = false; hex = false }

abbrev pub text_or_blob : Bool → BufInfo → Value
text_or_blob is_string b = if is_string then Value.string b else Value.blob b

module _ (is_string : Bool) (content mem rest : List ℕ) (bufsiz : ℕ)
    (fits : length content ≤ bufsiz) (pos : 0 < bufsiz) where
  opened : BufInfo
  opened = record {
    len = 0;
    eoff = length content;
    first = true;
    last = false;
    stream = false;
    hex = false;
  }

  filled : List ℕ
  filled = content ++ drop (0 + length content) mem

  unpack_single :
      unpack_buf is_string bufsiz (record { info = opened; mem = some mem }) (content ++ rest)
      ≡ done (record { info = single (length content); mem = some filled }) (length content) rest
  unfolding opened filled store
  unpack_single =
      let n : ℕ = length content in
      let k : min n bufsiz ≡ n = omega arith in
      ground (
        arith,
        k,
        take-append content rest,
        drop-append content rest,
        length-append content rest,
        unpack_buf_piece is_string bufsiz opened mem (content ++ rest) refl pos
            (omega (arith, length-append content rest)),
      )

  call_single :
      (f : Source) (item : CpItem) (n : ℕ)
      → item.bufsiz ≡ bufsiz
      → item.buf ≡ some mem
      → call_buf f item is_string opened n (content ++ rest) ≡ record {
        res = n + length content;
        item = record item {
          value = text_or_blob is_string (single (length content));
          buf = some filled;
        };
        source = record f { bytes = rest };
      }
  unfolding call_buf
  call_single f item n e e' = rw (e, e', unpack_single)

-- The item that holds `content` in one piece, at the start of the memory `mem`.
abbrev pub filled_item : Bool → List ℕ → List ℕ → CpItem → CpItem
filled_item is_string content mem item = record item {
  value = text_or_blob is_string (single (length content));
  buf = some (content ++ drop (0 + length content) mem);
}

unpack_item_single :
    (is_string : Bool) (content mem rest : List ℕ) (residue : CpError) (f : Source) (item : CpItem)
    → length content ≤ item.bufsiz
    → 0 < item.bufsiz
    → length content < 2 ^ 64
    → item.buf ≡ some mem
    → unpack_item f item residue (
        (if is_string then Scheme.string else Scheme.blob)
        ∷ (uint_buf (length content) ++ (content ++ rest)))
      ≡ record {
        res = 1 + length (uint_buf (length content)) + length content;
        item = filled_item is_string content mem item;
        source = record f { bytes = rest };
      }
unfolding unpack_item opened filled
unpack_item_single true content mem rest residue f item fits pos small e =
    rw (unpack_uint-uint_buf (length content) (content ++ rest) small)
      (call_single true content mem rest item.bufsiz fits pos f item _ refl e)
unpack_item_single false content mem rest residue f item fits pos small e =
    rw (unpack_uint-uint_buf (length content) (content ++ rest) small)
      (call_single false content mem rest item.bufsiz fits pos f item _ refl e)

blob_body : (xs : List ℕ) → (if ltb 0 (length xs) then take (length xs) xs else []) ++ [] ≡ xs
blob_body [] = refl
blob_body (x ∷ xs) =
    rw (lt→ltb 0 (suc (length xs)) (omega arith), append-nil, take_all (length xs) xs (omega arith))

-- The bytes of data in one piece, as `encoding` gives them.
encoding-single :
    (is_string : Bool) (content : List ℕ)
    → length content < 2 ^ 64
    → encoding (text_or_blob is_string (single (length content))) (some content)
      ≡ (if is_string then Scheme.string else Scheme.blob) ∷ (uint_buf (length content) ++ content)
encoding-single true content small =
    let e : (length content + 0) % 2 ^ 64 ≡ length content = omega arith in
    rw (e, append-nil, take_all (length content) content (omega arith))
encoding-single false content small =
    let e : (length content + 0) % 2 ^ 64 ≡ length content = omega arith in
    rw (e, blob_body content)

-- The packer's item for `content` in one piece.
abbrev pub single_item : Bool → List ℕ → CpItem
single_item is_string content = record {
  value = text_or_blob is_string (single (length content));
  buf = some content;
  bufsiz = 0;
}

single_payload :
    (is_string : Bool) (content : List ℕ)
    → HasPayload (single_item is_string content).value (single_item is_string content).buf
single_payload true content = omega arith
single_payload false content = omega arith

-- A string or blob that chainpack_pack wrote in one piece (CPBI_F_SINGLE) comes back in one call of
-- chainpack_unpack into a buffer that is large enough: the same length and flags, its bytes at the
-- start of the buffer, the buffer's other bytes untouched, and the packer's count.
pub unpack-pack_single :
    (is_string : Bool) (content mem w rest : List ℕ) (room : ℕ) (residue : CpError) (broken : Bool)
    (item : CpItem)
    → length content ≤ item.bufsiz
    → 0 < item.bufsiz
    → length content < 2 ^ 64
    → item.buf ≡ some mem
    → IsReady item.value
    → length (uint_buf (length content)) + length content < room
    → (bytes : List ℕ) × (n : ℕ) × (pack (single_item is_string content) (file w room false)
        ≡ (some n, file (w ++ bytes) (room - n) false))
      × (unpack residue (record { bytes = bytes ++ rest; broken = broken }) item ≡ record {
        res = n;
        item = filled_item is_string content mem item;
        source = record { bytes = rest; broken = broken };
      })
unpack-pack_single is_string content mem w rest room residue broken item fits pos small e ready
      enough =
    let scheme : ℕ = if is_string then Scheme.string else Scheme.blob in
    let body : List ℕ = uint_buf (length content) ++ content in
    let count : length body ≡ length (uint_buf (length content)) + length content =
      length-append (uint_buf (length content)) content in
    (
      scheme ∷ body,
      suc (length body),
      pack-encoding (single_item is_string content) (file w room false) refl
            (single_payload is_string content)
          ∙ rw (encoding-single is_string content small) (unfold write in ground (arith, count)),
      unpack_ready residue _ item ready
          ∙ rw (append_assoc, count)
              (unpack_item_single is_string content mem rest residue _ item fits pos small e
                ∙ ap
                    (λ (n : ℕ). record {
                      res = n;
                      item = filled_item is_string content mem item;
                      source = record { bytes = rest; broken = broken };
                    })
                    (omega arith)),
    )
