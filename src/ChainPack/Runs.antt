-- ===== src/ChainPack/Runs.antt =====
-- Concrete runs of the ChainPack functions, and the theorems at concrete inputs.
use shvc.Base.{ℕ, ◌+◌, ◌-◌, ◌^◌, ◌%◌, ◌≤◌, ◌≡◌, refl, arith, ltb, leb}
use shvc.Base.{true, false, List, [], ◌∷◌, ◌++◌, length, take, drop, none, some, if◌then◌else◌}
use shvc.Base.{pos, negsuc}
use shvc.Stdio.{Sink, null, file}
use shvc.CpItem.{no_error, eof, io, CpItem, BufInfo, Value, unpack_init}
use shvc.ChainPack.Integer.{
  u64, int_bytes, w_int_value1, w_int_bytes, w_uint_value1, w_uint_bytes, uint_value1,
}
use shvc.ChainPack.IntegerCodec.{done, uint_buf, int_buf, unpack_uint, unpack_int}
use shvc.ChainPack.IntegerCodec.Unsigned.{unpack_uint-uint_buf}
use shvc.ChainPack.IntegerCodec.Signed.{unpack_int-int_buf}
use shvc.ChainPack.IntegerCodec.Bounds.{
  IsSound, unpack_uint-IsSound, unpack_uint-err, big_endian, head_size, head_value,
  unpack_uint-big_endian,
}
use shvc.ChainPack.Scheme.{is_int, is_uint}
use shvc.ChainPack.Scheme.Classes.{is_int-is_uint}
use shvc.ChainPack.Pack.{pack, datetime_number, epoch_msec}
use shvc.ChainPack.Pack.Encoding.{encoding, pack_predicts}
use shvc.ChainPack.UnpackBuf.{Loop, store, unpack_buf, buf_loop, measure}
use shvc.ChainPack.UnpackBuf.Fuel.{Ends, buf_loop-Ends}
use shvc.ChainPack.UnpackBuf.Chunks.{after_piece, unpack_buf_piece, unpack_buf_chain}
use shvc.ChainPack.Unpack.{unpack, datetime_value}
use shvc.ChainPack.Unpack.Datetime.{datetime_before_epoch}
use shvc.ChainPack.Unpack.RoundTrip.{IsPlain, unpack-pack}
use shvc.ChainPack.Unpack.Payload.{unpack-pack_single, single_item, filled_item}

int_minus_1000 : int_buf (negsuc 999) ≡ 0xa3 ∷ 0xe8 ∷ []
unfolding int_buf w_int_value1 w_int_bytes
int_minus_1000 = refl

uint_300 : uint_buf 300 ≡ 0x81 ∷ 0x2c ∷ []
unfolding uint_buf w_uint_value1 w_uint_bytes
uint_300 = refl

int_max :
    int_buf (pos (2 ^ 63 - 1)) ≡ 0xf4 ∷ 0x7f ∷ 0xff ∷ 0xff ∷ 0xff ∷ 0xff ∷ 0xff ∷ 0xff ∷ 0xff ∷ []
unfolding int_buf w_int_value1 w_int_bytes
int_max = refl

-- A string stream of three bytes in a buffer of two.
abbrev stream_info : BufInfo
stream_info = record { len = 0; eoff = 0; first = true; last = false; stream = true; hex = false }

cstring_in_pieces :
    unpack_buf true 2
      (record { info = stream_info; mem = some (0 ∷ 0 ∷ []) })
      (b'a' ∷ b'b' ∷ b'c' ∷ 0 ∷ 9 ∷ [])
    ≡ done
        (record { info = record stream_info { len = 2 }; mem = some (b'a' ∷ b'b' ∷ []) })
        2
        (b'c' ∷ 0 ∷ 9 ∷ [])
unfolding unpack_buf
cstring_in_pieces = refl

-- An empty blob chain: its end is taken for a size of zero, and one more size is read.
empty_chain :
    unpack_buf false 4
      (record { info = stream_info; mem = some (0 ∷ 0 ∷ 0 ∷ 0 ∷ []) })
      (2 ∷ 7 ∷ 8 ∷ 0 ∷ [])
    ≡ done
        (record {
          info = record stream_info { len = 2; last = true };
          mem = some (7 ∷ 8 ∷ 0 ∷ 0 ∷ []);
        })
        4
        []
unfolding unpack_buf unpack_uint int_bytes uint_value1
empty_chain = refl

-- An unknown scheme byte is put back, and the count says one byte all the same.
unknown_scheme :
    unpack no_error (record { bytes = 200 ∷ []; broken = false }) unpack_init ≡ record {
      res = 1;
      item = record { value = Value.invalid no_error; buf = none; bufsiz = 0 };
      source = record { bytes = 200 ∷ []; broken = false };
    }
unfolding unpack unpack_init
unknown_scheme = refl

broken_stream :
    (unpack no_error (record { bytes = 130 ∷ []; broken = true }) unpack_init).item.value
    ≡ Value.invalid io
unfolding unpack unpack_init unpack_int unpack_uint
broken_stream = refl

abbrev room_for_ten : Sink
room_for_ten = file [] 10 false

unpack-pack_example :
    (bytes : List ℕ) × (n : ℕ) × (pack
        (record { value = Value.int (negsuc 999); buf = none; bufsiz = 0 })
        room_for_ten
      ≡ (some n, file ([] ++ bytes) (10 - n) false))
    × (unpack eof (record { bytes = bytes ++ (7 ∷ []); broken = false }) unpack_init ≡ record {
      res = n;
      item = record unpack_init { value = Value.int (negsuc 999) };
      source = record { bytes = 7 ∷ []; broken = false };
    })
unfolding unpack_init int_buf w_int_bytes
unpack-pack_example =
    unpack-pack eof (Value.int (negsuc 999)) unpack_init [] (7 ∷ []) 10 false
      (IsPlain.int (negsuc 999) (omega arith)) refl (omega arith)

abbrev buffer_item : CpItem
buffer_item = record { value = Value.null; buf = some (1 ∷ 2 ∷ 3 ∷ 4 ∷ []); bufsiz = 4 }

unpack-pack_single_example :
    (bytes : List ℕ) × (n : ℕ) × (pack (single_item true (b'h' ∷ b'i' ∷ [])) (file [] 20 false)
      ≡ (some n, file ([] ++ bytes) (20 - n) false))
    × (unpack eof (record { bytes = bytes ++ (255 ∷ []); broken = false }) buffer_item ≡ record {
      res = n;
      item = filled_item true (b'h' ∷ b'i' ∷ []) (1 ∷ 2 ∷ 3 ∷ 4 ∷ []) buffer_item;
      source = record { bytes = 255 ∷ []; broken = false };
    })
unfolding uint_buf w_uint_bytes
unpack-pack_single_example =
    unpack-pack_single true (b'h' ∷ b'i' ∷ []) (1 ∷ 2 ∷ 3 ∷ 4 ∷ []) [] (255 ∷ []) 20 eof false
      buffer_item (omega arith) (omega arith) (omega arith) refl tt (omega arith)

unpack_int-int_buf_example :
    unpack_int (int_buf (negsuc 999) ++ (5 ∷ [])) ≡ done (negsuc 999) 2 (5 ∷ [])
unfolding w_int_bytes
unpack_int-int_buf_example = unpack_int-int_buf (negsuc 999) (5 ∷ []) (omega arith)

unpack_uint-uint_buf_example :
    unpack_uint (uint_buf 300 ++ (5 ∷ [])) ≡ done 300 (length (uint_buf 300)) (5 ∷ [])
unpack_uint-uint_buf_example = unpack_uint-uint_buf 300 (5 ∷ []) (omega arith)

pack_predicts_example :
    (n : ℕ) × ((pack (single_item false (1 ∷ 2 ∷ 3 ∷ [])) null).0 ≡ some n)
    × (pack (single_item false (1 ∷ 2 ∷ 3 ∷ [])) (file [] 4 false) ≡ (
        if leb n 4
        then (
          some n,
          file
              ([] ++ encoding (single_item false (1 ∷ 2 ∷ 3 ∷ [])).value (some (1 ∷ 2 ∷ 3 ∷ [])))
              (4 - n)
              false,
        )
        else (
          none,
          file
              ([]
                ++ take 4
                    (encoding (single_item false (1 ∷ 2 ∷ 3 ∷ [])).value (some (1 ∷ 2 ∷ 3 ∷ []))))
              0
              true,
        )))
pack_predicts_example = pack_predicts (single_item false (1 ∷ 2 ∷ 3 ∷ [])) [] 4 (omega arith)

-- A blob of five bytes in a buffer of two.
abbrev five : BufInfo
five = record { len = 0; eoff = 5; first = true; last = false; stream = false; hex = false }

unpack_buf_piece_run :
    unpack_buf false 2 (record { info = five; mem = some (0 ∷ 0 ∷ []) }) (1 ∷ 2 ∷ 3 ∷ 4 ∷ 5 ∷ [])
    ≡ done
        (record { info = after_piece five 2; mem = store (some (0 ∷ 0 ∷ [])) 0 (1 ∷ 2 ∷ []) })
        2
        (3 ∷ 4 ∷ 5 ∷ [])
unpack_buf_piece_run =
    unpack_buf_piece false 2 five (0 ∷ 0 ∷ []) (1 ∷ 2 ∷ 3 ∷ 4 ∷ 5 ∷ []) refl (omega arith)
      (omega arith)

abbrev chain_loop_start : Loop
chain_loop_start = record {
  info = record stream_info { eoff = 1 };
  mem = some (0 ∷ 0 ∷ 0 ∷ 0 ∷ []);
  res = 0;
  err = no_error;
  bytes = 9 ∷ 0 ∷ [];
}

buf_loop-Ends_example : Ends 4 chain_loop_start (buf_loop (2 ^ 66) 4 chain_loop_start)
unfolding measure
buf_loop-Ends_example =
    buf_loop-Ends (2 ^ 66) 4 chain_loop_start (record { bytes = omega arith; eoff = omega arith })
      (omega arith) (omega arith)

unpack_uint-err_run :
    (int_bytes 0xf4 ≤ 20)
    × ((unpack_uint (0xf4 ∷ 1 ∷ 2 ∷ [])).err ≡ (if ltb 3 (int_bytes 0xf4) then eof else no_error))
    × ((unpack_uint (0xf4 ∷ 1 ∷ 2 ∷ [])).rest ≡ drop (int_bytes 0xf4) (0xf4 ∷ 1 ∷ 2 ∷ []))
unpack_uint-err_run = unpack_uint-err 0xf4 (1 ∷ 2 ∷ []) (omega arith)

unpack_uint-IsSound_run : IsSound (0xf4 ∷ 1 ∷ []) (unpack_uint (0xf4 ∷ 1 ∷ []))
unpack_uint-IsSound_run = unpack_uint-IsSound (0xf4 ∷ 1 ∷ []) (omega arith)

unpack_uint-big_endian_example :
    ((unpack_uint (0xc1 ∷ 1 ∷ 2 ∷ 3 ∷ [])).err ≡ no_error)
    × ((unpack_uint (0xc1 ∷ 1 ∷ 2 ∷ 3 ∷ [])).res ≡ head_size 0xc1)
    × ((unpack_uint (0xc1 ∷ 1 ∷ 2 ∷ 3 ∷ [])).rest ≡ drop (head_size 0xc1) (0xc1 ∷ 1 ∷ 2 ∷ 3 ∷ []))
    × ((unpack_uint (0xc1 ∷ 1 ∷ 2 ∷ 3 ∷ [])).value
        ≡ big_endian (head_value 0xc1) (take (head_size 0xc1 - 1) (1 ∷ 2 ∷ 3 ∷ [])) % u64)
unfolding head_size
unpack_uint-big_endian_example =
    unpack_uint-big_endian 0xc1 (1 ∷ 2 ∷ 3 ∷ []) (omega arith) (omega arith) (omega arith)

is_int-is_uint_run : (is_int 129 ≡ false) × (is_uint 129 ≡ false)
is_int-is_uint_run = is_int-is_uint 129 (omega arith)

-- One second before the epoch of the format.
datetime_before_epoch_run :
    datetime_value (datetime_number (pos (epoch_msec - 1000)) (pos 0))
    ≡ Value.datetime (pos epoch_msec) (pos 0)
datetime_before_epoch_run = datetime_before_epoch 1 (omega arith) (omega arith)

unpack_buf_chain_example :
    unpack_buf false 3
      (record { info = record stream_info { eoff = 2 }; mem = some (0 ∷ 0 ∷ 0 ∷ []) })
      ((1 ∷ 2 ∷ []) ++ (uint_buf 1 ++ ((3 ∷ []) ++ (uint_buf 0 ++ []))))
    ≡ done
        (record {
          info = record stream_info { len = 1; eoff = 0; last = true };
          mem = store (store (some (0 ∷ 0 ∷ 0 ∷ [])) 0 (1 ∷ 2 ∷ [])) 2 (3 ∷ []);
        })
        (2 + length (uint_buf 1) + 1 + length (uint_buf 0))
        []
unpack_buf_chain_example =
    unpack_buf_chain 3 (record stream_info { eoff = 2 }) (0 ∷ 0 ∷ 0 ∷ []) (1 ∷ 2 ∷ []) (3 ∷ []) []
      refl refl (omega arith) (omega arith) (omega arith)
