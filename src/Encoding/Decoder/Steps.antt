-- ===== src/Encoding/Decoder/Steps.antt =====
-- The decoder on the codes of the first two points.
use mathlib.Core.Path.{ap₂}
use tstorage.Base.{ℕ, ◌+◌, ◌≡◌, ◌≢◌, refl, ap, ◌∙◌}
use tstorage.Base.{bit_xor, ◌==◌, false, List, ◌++◌, append_assoc, arith, ==_iff, ne→==}
use tstorage.Base.Bitwise.{xor-lt, xor_cancel}
use tstorage.Base.Bits.{bits, bytes_bits}
use tstorage.Words.{IsU64, add64, sub64}
use tstorage.Rows.{DataPoint, IsPoint}
use tstorage.BStream.{BReader, read_bits, read_byte}
use tstorage.BStream.Loads.{Remains}
use tstorage.BStream.ReadBits.{read_bits_lem}
use tstorage.Varint.{put_uvarint, put_varint, read_uvarint, read_varint}
use tstorage.Varint.RoundTrip.{read_uvarint-put_uvarint, read_varint-put_varint}
use tstorage.Varint.RoundTrip.{put_uvarint-IsByte, put_varint-IsByte}
use tstorage.Encoding.{Encoder, encode_point}
use tstorage.Encoding.Codes.{value_code, point_code, IsWide}
use tstorage.Encoding.Codes.{encode_point-first, encode_point-second}
use tstorage.Encoding.Decoder.{Decoder, ok, gets, modify, from_varint}
use tstorage.Encoding.Decoder.{decode_point, decode_first, decode_second, decode_later, read_value}
use tstorage.Encoding.Decoder.Reads.{bind_lem, from_stream_lem, serves_lem}
use tstorage.Encoding.Decoder.Values.{read_value_lem}

-- Encoder and decoder agree on the last point.
pub record InStep (e : Encoder) (d : Decoder) : Type 0 where
  pub wide : IsWide e
  pub leading : d.leading ≡ 0
  pub trailing : d.trailing ≡ 0
  pub v : d.v ≡ e.v
  pub t : d.t ≡ e.t
  pub t_delta : d.t_delta ≡ e.t_delta
  pub v_fits : IsU64 e.v
  pub t_fits : IsU64 e.t
  pub t_delta_fits : IsU64 e.t_delta

-- How many points there were: none, one, or more.
pub data Stage (e : Encoder) (d : Decoder) : Type 0 where
  fresh : e.t0 ≡ 0 → e.t1 ≡ 0 → d.num_read ≡ 0 → d.t_delta ≡ 0 → Stage e d
  second : e.t0 ≢ 0 → e.t1 ≡ 0 → e.t0 ≡ e.t → d.num_read ≡ 1 → Stage e d
  later : e.t0 ≢ 0 → e.t1 ≢ 0 → d.num_read ≡ 2 → Stage e d

-- The point is decoded, and the two go on in step.
pub record IsDecoded (e : Encoder) (p : DataPoint) (d : Decoder) (more : List ℕ) : Type 0 where
  pub after : Decoder
  pub gives : decode_point d ≡ (ok p, after)
  pub left : Remains after.br more
  pub in_step : InStep (encode_point e p) after
  pub stage : Stage (encode_point e p) after

varint_lem :
    (x : ℕ) (d : Decoder) (more : List ℕ)
    → IsU64 x
    → Remains d.br (bytes_bits (put_varint x) ++ more)
    → (br : BReader) × (from_varint (read_varint read_byte) d ≡ (ok x, record d { br = br }))
      × Remains br more
unfolding from_varint
varint_lem x d more lt h =
    let (br, serves, done) = serves_lem (put_varint x) d.br more (put_varint-IsByte x) h in
    (br, rw (read_varint-put_varint read_byte x lt serves), done)

uvarint_lem :
    (x : ℕ) (d : Decoder) (more : List ℕ)
    → IsU64 x
    → Remains d.br (bytes_bits (put_uvarint x) ++ more)
    → (br : BReader) × (from_varint (read_uvarint read_byte) d ≡ (ok x, record d { br = br }))
      × Remains br more
unfolding from_varint
uvarint_lem x d more lt h =
    let (br, serves, done) = serves_lem (put_uvarint x) d.br more (put_uvarint-IsByte x) h in
    (br, rw (read_uvarint-put_uvarint read_byte x lt serves), done)

pub add64-sub64 : (a b : ℕ) → IsU64 a → IsU64 b → add64 b (sub64 a b) ≡ a
add64-sub64 a b ha hb = omega arith

decode_point-second : (d : Decoder) → d.num_read ≡ 1 → decode_point d ≡ decode_second d
unfolding decode_point
decode_point-second d k =
    let e0 : (d.num_read == 0) ≡ false = ground arith in rw (e0, (==_iff d.num_read 1).1 k)

pub decode_point-later : (d : Decoder) → d.num_read ≡ 2 → decode_point d ≡ decode_later d
unfolding decode_point
decode_point-later d k =
    let e0 : (d.num_read == 0) ≡ false = ground arith in
    let e1 : (d.num_read == 1) ≡ false = ground arith in rw (e0, e1)

module _ (e : Encoder) (p : DataPoint) (d : Decoder) (more : List ℕ) (fits : IsPoint p)
    (s : InStep e d) where
  pub xor_fits : IsU64 (bit_xor p.value e.v)
  xor_fits = xor-lt 64 p.value e.v fits.0 s.v_fits

  pub value_back : bit_xor d.v (bit_xor p.value e.v) ≡ p.value
  value_back = ap (λ y. bit_xor y (bit_xor p.value e.v)) s.v ∙ xor_cancel p.value e.v

  -- The states after the first point, the second one, and any other.
  abbrev first_after : BReader → Decoder
  first_after br = record d { br = br; t = p.timestamp; v = p.value; num_read = d.num_read + 1 }

  first-InStep :
      (br : BReader) → e.t0 ≡ 0 → d.t_delta ≡ 0 → InStep (encode_point e p) (first_after br)
  first-InStep br h z = rw (encode_point-first e p h) (record {
    wide = record { leading = s.wide.leading; trailing = s.wide.trailing };
    leading = s.leading;
    trailing = s.trailing;
    v = refl;
    t = refl;
    t_delta = z;
    v_fits = fits.0;
    t_fits = fits.1;
    t_delta_fits = omega arith;
  })

  first-Stage :
      (br : BReader)
      → e.t0 ≡ 0
      → e.t1 ≡ 0
      → d.num_read ≡ 0
      → p.timestamp ≢ 0
      → Stage (encode_point e p) (first_after br)
  first-Stage br h h1 k nz = rw (encode_point-first e p h) (second nz h1 refl (omega arith))

  pub decode_first_lem :
      e.t0 ≡ 0
      → e.t1 ≡ 0
      → d.num_read ≡ 0
      → d.t_delta ≡ 0
      → p.timestamp ≢ 0
      → Remains d.br (point_code e p ++ more)
      → IsDecoded e p d more
  unfolding decode_point decode_first modify gets
  decode_first_lem h h1 k z nz left =
      let left' =
        rw (append_assoc (bytes_bits (put_varint p.timestamp)) (bits 64 p.value) more) at
          (rw ((==_iff e.t0 0).1 h) at left) in
      let (r, varint, left'') = varint_lem p.timestamp d (bits 64 p.value ++ more) (fits.1) left' in
      let (br, reads, done) =
        read_bits_lem r 64 p.value more (omega arith) (omega arith) (fits.0) left'' in
      record {
        after = first_after br;
        gives = rw ((==_iff d.num_read 0).1 k) (
            bind_lem _ _ varint
            ∙ bind_lem _ _ (from_stream_lem (read_bits 64) (record d { br = r }) reads)
            ∙ bind_lem _ _ refl);
        left = done;
        in_step = first-InStep br h z;
        stage = first-Stage br h h1 k nz;
      }

  abbrev second_after : BReader → Decoder
  second_after br = record d {
    br = br;
    t_delta = sub64 p.timestamp e.t0;
    t = add64 d.t (sub64 p.timestamp e.t0);
    v = bit_xor d.v (bit_xor p.value e.v);
    num_read = d.num_read + 1;
  }

  second_time : e.t0 ≡ e.t → add64 d.t (sub64 p.timestamp e.t0) ≡ p.timestamp
  second_time et = ground (arith, s.t, et, add64-sub64 p.timestamp e.t fits.1 s.t_fits)

  second-InStep :
      (br : BReader)
      → e.t0 ≢ 0
      → e.t1 ≡ 0
      → e.t0 ≡ e.t
      → InStep (encode_point e p) (second_after br)
  second-InStep br h h1 et = rw (encode_point-second e p h h1 s.wide) (record {
    wide = record { leading = s.wide.leading; trailing = s.wide.trailing };
    leading = s.leading;
    trailing = s.trailing;
    v = value_back;
    t = second_time et;
    t_delta = refl;
    v_fits = fits.0;
    t_fits = fits.1;
    t_delta_fits = omega arith;
  })

  second-Stage :
      (br : BReader)
      → e.t0 ≢ 0
      → e.t1 ≡ 0
      → d.num_read ≡ 1
      → p.timestamp ≢ 0
      → Stage (encode_point e p) (second_after br)
  second-Stage br h h1 k nz = rw (encode_point-second e p h h1 s.wide) (later h nz (omega arith))

  pub same_point :
      {t v : ℕ}
      → t ≡ p.timestamp
      → v ≡ p.value
      → ◌≡◌ {A = DataPoint} (record { value = v; timestamp = t }) p
  same_point et ev = ap₂ (λ t v. record { value = v; timestamp = t }) et ev

  pub decode_second_lem :
      e.t0 ≢ 0
      → e.t1 ≡ 0
      → e.t0 ≡ e.t
      → d.num_read ≡ 1
      → p.timestamp ≢ 0
      → Remains d.br (point_code e p ++ more)
      → IsDecoded e p d more
  unfolding modify gets
  decode_second_lem h h1 et k nz left =
      let x = bit_xor p.value e.v in
      let dt = sub64 p.timestamp e.t0 in
      let left' =
        rw (append_assoc (bytes_bits (put_uvarint dt)) (value_code x) more) at
          (rw (ne→== h, (==_iff e.t1 0).1 h1) at left) in
      let (r, varint, left'') = uvarint_lem dt d (value_code x ++ more) (omega arith) left' in
      let d' = record d { br = r; t_delta = dt; t = add64 d.t dt } in
      let (br, reads, done) = read_value_lem d' x more s.leading s.trailing xor_fits left'' in
      record {
        after = second_after br;
        gives =
            decode_point-second d k
            ∙ unfold decode_second in
              (bind_lem _ _ varint
                ∙ bind_lem _ _ refl
                ∙ bind_lem read_value _ reads
                ∙ bind_lem _ _ refl
                ∙ ap (λ q. (ok q, second_after br)) (same_point (second_time et) value_back));
        left = done;
        in_step = second-InStep br h h1 et;
        stage = second-Stage br h h1 k nz;
      }
