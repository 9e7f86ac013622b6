-- ===== src/Stream/Serial.antt =====
-- The serial framing: STX, escaped bytes, ETX, and a CRC if the protocol has one.
pub mod Escape
pub mod Writing
pub mod Pieces
pub mod Reading
pub mod Check
pub mod Whole
pub mod RoundTrip
pub mod Dropped
use shvc.Base.{ℕ, zero, suc, ◌+◌, ◌-◌, ◌*◌, ◌/◌, ◌%◌, ◌^◌, Bool, true, false, not, ◌==◌, ltb}
use shvc.Base.{if◌then◌else◌, List, [], ◌∷◌, ◌++◌, length, ℤ, pos, negsuc}
use shvc.Crc32.{crc32_init, crc32_cupdate, crc32_finalize}
use shvc.Stream.{
  stx, etx, atx, esc, escx, descx, escapable, escaped, Line, Errno, Out, xreadc, xwrite, MsgType,
}

pub data WMsg : Type 0 where
  wmsg_no wmsg_st wmsg_data : WMsg

pub data RMsg : Type 0 where
  rmsg_no rmsg_stx rmsg_data rmsg_etx : RMsg

-- The writing half of struct rpcclient_ctx_serial, with the descriptor that it writes to.
pub record Writer : Type 0 where
  pub wmsg : WMsg
  pub wcrc : ℕ
  pub out : Out

-- The reading half.
pub record Reader : Type 0 where
  pub rmsg : RMsg
  pub rcrc : ℕ
  pub line : Line

-- The loop variables of cookie_write_serial: the bytes from `*data` on, `esc`, and `buf`.
pub record Fill : Type 0 where
  pub bytes : List ℕ
  pub is_esc : Bool
  pub buf : List ℕ
  pub wmsg : WMsg
  pub wcrc : ℕ

-- `buf[i] = v`, with the CRC of what follows STX.
unfoldable pub put : Fill → ℕ → Fill
put s v = record s { buf = s.buf ++ (v ∷ []); wcrc = crc32_cupdate s.wcrc v }

-- One round of the inner loop, for a byte that is left.
unfoldable pub fill_byte : Fill → ℕ → List ℕ → Fill
unfolding put
fill_byte s b bytes = elim s.wmsg [
  | wmsg_data ↦
      if s.is_esc
      then put (record s { bytes = bytes; is_esc = false }) (escx b)
      else if escapable b
      then put (record s { is_esc = true }) esc
      else put (record s { bytes = bytes }) b
  | _ ↦ record s { buf = s.buf ++ (stx ∷ []); wmsg = wmsg_data; wcrc = crc32_init }
]

-- `for (i = 0; i < BUFSIZ && cnt < size; i++)`, by the rounds left.
unfoldable pub fill : ℕ → Fill → Fill
unfolding fill_byte
fill zero s = s
fill (suc n) s = elim s.bytes [ [] ↦ s | b ∷ bytes ↦ fill n (fill_byte s b bytes) ]

-- `while (cnt < size)` by fuel: what is left unwritten, with the writer.
unfoldable pub write_loop : ℕ → ℕ → Fill → Out → List ℕ × Writer
unfolding fill xwrite
write_loop zero bufsiz s out = (s.bytes, record { wmsg = s.wmsg; wcrc = s.wcrc; out = out })
write_loop (suc fuel) bufsiz s out = elim s.bytes [
  | [] ↦ ([], record { wmsg = s.wmsg; wcrc = s.wcrc; out = out })
  | b ∷ bytes ↦
      let s' = fill bufsiz (record s { buf = [] }) in
      let (written, out') = xwrite out s'.buf in
      elim written [
        | true ↦ write_loop fuel bufsiz s' out'
        | false ↦ (s'.bytes, record { wmsg = s'.wmsg; wcrc = s'.wcrc; out = out' })
      ]
]

-- cookie_write_serial: the count that it returns. Every byte takes two rounds at most, and STX one.
unfoldable pub cookie_write_serial : ℕ → Writer → List ℕ → ℕ × Writer
unfolding write_loop
cookie_write_serial bufsiz c bytes =
    let s : Fill = record {
      bytes = bytes;
      is_esc = false;
      buf = [];
      wmsg = c.wmsg;
      wcrc = c.wcrc;
    } in
    let (left, c') = write_loop (2 * length bytes + 2) bufsiz s c.out in
    (length bytes - length left, c')

-- The CRC's bytes behind ETX: `y` counts down from the bytes left.
unfoldable pub crc_bytes : ℕ → ℕ → List ℕ
crc_bytes zero crc = []
crc_bytes (suc y) crc =
    let v = crc / 2 ^ (8 * y) % 256 in
    (if escapable v then esc ∷ escx v ∷ [] else v ∷ []) ++ crc_bytes y crc

-- rpcclient_stream_serial_send; `has_crc` is `c->proto == RPCSTREAM_P_SERIAL_CRC`.
unfoldable pub serial_send : Bool → Writer → Bool × Writer
unfolding crc_bytes xwrite crc32_finalize
serial_send has_crc c = elim c.wmsg [
  | wmsg_data ↦
      let tail = if has_crc then crc_bytes 4 (crc32_finalize c.wcrc) else [] in
      let (res, out') = xwrite c.out (etx ∷ tail) in (res, record c { wmsg = wmsg_no; out = out' })
  | _ ↦ (false, c)
]

-- rpcclient_stream_serial_drop.
unfoldable pub serial_drop : Writer → Bool × Writer
unfolding xwrite
serial_drop c = elim c.wmsg [
  | wmsg_no ↦ (true, c)
  | _ ↦ let (res, out') = xwrite c.out (atx ∷ []) in (res, record c { wmsg = wmsg_no; out = out' })
]

-- `do { v = xreadc(c, 0); } while (v >= 0 && v != STX);`, by fuel.
unfoldable pub skip_to_stx : ℕ → Line → ℤ × Line
unfolding xreadc
skip_to_stx zero l = xreadc l
skip_to_stx (suc fuel) l =
    let (v, l') = xreadc l in
    elim v [
      | pos b ↦ elim (b == stx) [ true ↦ (pos b, l') | false ↦ skip_to_stx fuel l' ]
      | negsuc x ↦ (negsuc x, l')
    ]

-- The end of rpcclient_stream_serial_nextmsg.
unfoldable pub begin_message : Reader → MsgType × Reader
begin_message c = (MsgType.message, record c { rcrc = crc32_init; rmsg = rmsg_data })

unfoldable pub serial_nextmsg : Reader → MsgType × Reader
unfolding skip_to_stx begin_message
serial_nextmsg c = elim c.rmsg [
  | rmsg_stx ↦ begin_message c
  | _ ↦
      let (v, l) = skip_to_stx (length c.line.events) c.line in
      let c' : Reader = record c { rmsg = rmsg_no; line = l } in
      elim v [
        | pos b ↦ begin_message c'
        | negsuc n ↦ (if n == 1 then MsgType.nothing else MsgType.error, c')
      ]
]

-- What cookie_read_serial leaves: the returned count or -1 or -2, the bytes in `buf`, and the state.
pub record Got : Type 0 where
  pub res : ℤ
  pub buf : List ℕ
  pub ctx : Reader

-- `buf[i] = b`, and `rcrc` goes over the byte that was read.
unfoldable pub crc_of : Reader → ℕ → Reader
crc_of c v = record c { rcrc = crc32_cupdate c.rcrc v }

-- The loop of cookie_read_serial by the rounds left; `i` counts those made.
unfoldable pub read_loop : ℕ → ℕ → List ℕ → Reader → Got
unfolding xreadc escaped crc_of
read_loop zero i buf c = record { res = pos i; buf = buf; ctx = c }
read_loop (suc n) i buf c =
    let (v, l) = xreadc c.line in
    let c' : Reader = record c { line = l } in
    elim v [
      | pos b ↦ elim (b == stx) [
        | true ↦ record { res = negsuc 0; buf = buf; ctx = record c' { rmsg = rmsg_stx } }
        | false ↦ elim (b == etx) [
          | true ↦ record { res = pos i; buf = buf; ctx = record c' { rmsg = rmsg_etx } }
          | false ↦ elim (b == esc) [
            | true ↦
                let e = crc_of c' b in
                let (w, l') = xreadc l in
                let e' : Reader = record e { line = l' } in
                elim w [
                  | pos x ↦ elim (escaped x) [
                    | true ↦ read_loop n (i + 1) (buf ++ (descx x ∷ [])) (crc_of e' x)
                    | false ↦ record {
                      res = negsuc 0;
                      buf = buf;
                      ctx = record e' { rmsg = rmsg_no };
                    }
                  ]
                  | negsuc x ↦ record {
                    res = negsuc 0;
                    buf = buf;
                    ctx = record e' { rmsg = rmsg_no };
                  }
                ]
            | false ↦ elim (b == atx) [
              | true ↦ record { res = negsuc 0; buf = buf; ctx = record c' { rmsg = rmsg_no } }
              | false ↦ read_loop n (i + 1) (buf ++ (b ∷ [])) (crc_of c' b)
            ]
          ]
        ]
      ]
      | negsuc x ↦ record { res = negsuc x; buf = buf; ctx = record c' { rmsg = rmsg_no } }
    ]

-- cookie_read_serial. Outside a message it returns -1 behind an error, else 0.
unfoldable pub cookie_read_serial : Reader → ℕ → Got
unfolding read_loop
cookie_read_serial c size = elim c.rmsg [
  | rmsg_data ↦ read_loop size 0 [] c
  | _ ↦ record { res = elim c.line.errnum [ Errno.ok ↦ pos 0 | _ ↦ negsuc 0 ]; buf = []; ctx = c }
]

-- One byte of the CRC, or a negative number where validation fails.
unfoldable pub crc_byte : Line → ℤ × Line
unfolding xreadc escaped
crc_byte l =
    let (v, l') = xreadc l in
    elim v [
      | pos b ↦ elim (b == esc) [
        | true ↦
            let (w, l'') = xreadc l' in
            elim w [
              | pos x ↦ (if escaped x then pos (descx x) else negsuc 0, l'')
              | negsuc x ↦ (negsuc 0, l'')
            ]
        | false ↦ (pos b, l')
      ]
      | negsuc x ↦ (negsuc x, l')
    ]

-- The four rounds of rpcclient_stream_serial_validate, by the rounds left.
unfoldable pub crc_loop : ℕ → ℕ → Line → ℤ × Line
unfolding crc_byte
crc_loop zero crc l = (pos crc, l)
crc_loop (suc n) crc l =
    let (v, l') = crc_byte l in
    elim v [ pos b ↦ crc_loop n (crc * 256 % 2 ^ 32 + b % 256) l' | negsuc x ↦ (negsuc 0, l') ]

unfoldable pub serial_validate : Bool → Reader → Bool × Reader
unfolding crc_loop crc32_finalize
serial_validate has_crc c = elim c.rmsg [
  | rmsg_etx ↦
      let (v, l) = crc_loop 4 0 c.line in
      if not has_crc then (true, c) else (
        elim v [ pos crc ↦ crc == crc32_finalize c.rcrc | negsuc x ↦ false ],
        record c { line = l },
      )
  | _ ↦ (false, c)
]
