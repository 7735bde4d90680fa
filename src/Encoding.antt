-- ===== src/Encoding.antt =====
-- encoding.go: the Gorilla compression of one metric's points, encoder and decoder.
pub mod Decoder
pub mod Codes
pub mod Bounds
use tstorage.Base.{ℕ, zero, suc, ◌+◌, ◌-◌, ◌/◌, ◌%◌, ◌^◌, bit_xor, Bool, true, false, not, ◌&&◌}
use tstorage.Base.{List, [], ◌∷◌, Option, none, some, ltb, leb, ◌==◌, if◌then◌else◌}
use tstorage.Words.{sub64, sub8, sle}
use tstorage.Rows.{DataPoint}
use tstorage.BStream.{BStream, new_stream, reset, write_bit, write_byte, write_bits}
use tstorage.Varint.{put_uvarint, put_varint}

-- The fields of `gorillaEncoder` but its io.Writer, which only `flush` uses.
pub record Encoder : Type 0 where
  pub buf : BStream
  pub t0 : ℕ
  pub t1 : ℕ
  pub t : ℕ
  pub t_delta : ℕ
  pub v : ℕ
  pub leading : ℕ
  pub trailing : ℕ

abbrev pub new_encoder : Encoder
new_encoder = record {
  buf = new_stream;
  t0 = 0;
  t1 = 0;
  t = 0;
  t_delta = 0;
  v = 0;
  leading = 0;
  trailing = 0;
}

-- bits.LeadingZeros64 and bits.TrailingZeros64, on the lowest `k` digits.
pub leading_zeros : ℕ → ℕ → ℕ
leading_zeros zero x = 0
leading_zeros (suc k) x = if leb (2 ^ k) x then 0 else suc (leading_zeros k x)

pub trailing_zeros : ℕ → ℕ → ℕ
trailing_zeros zero x = 0
trailing_zeros (suc k) x = if x % 2 == 1 then 0 else suc (trailing_zeros k (x / 2))

-- The loops `for _, b := range …` over the bytes of a varint.
pub write_all : BStream → List ℕ → BStream
write_all b [] = b
write_all b (x ∷ xs) = write_all (write_byte b x) xs

abbrev clamp_leading : ℕ → ℕ
clamp_leading l = if leb 32 l then 31 else l

-- The two forms of a changed value: in the window of the value before, or with a new window.
pub write_in_window : Encoder → ℕ → Encoder
write_in_window e v_delta = record e {
  buf = write_bits (write_bit e.buf false) (v_delta / 2 ^ e.trailing) (64 - e.leading - e.trailing);
}

pub write_new_window : Encoder → ℕ → ℕ → ℕ → Encoder
write_new_window e v_delta leading trailing =
    let sigbits = sub8 (sub8 64 leading) trailing in
    let b = write_bits (write_bits (write_bit e.buf true) leading 5) sigbits 6 in
    record e {
      buf = write_bits b (v_delta / 2 ^ trailing) sigbits;
      leading = leading;
      trailing = trailing;
    }

pub write_changed : Encoder → ℕ → Encoder
write_changed e v_delta =
    let leading = clamp_leading (leading_zeros 64 v_delta) in
    let trailing = trailing_zeros 64 v_delta in
    if not (e.leading == 0xff) && (leb e.leading leading && leb e.trailing trailing)
    then write_in_window e v_delta
    else write_new_window e v_delta leading trailing

unfoldable pub write_v_delta : Encoder → ℕ → Encoder
write_v_delta e v =
    let v_delta = bit_xor v e.v in
    if v_delta == 0
    then record e { buf = write_bit e.buf false }
    else write_changed (record e { buf = write_bit e.buf true }) v_delta

-- lo ≤ x ≤ hi as int64, for a negative `lo` given by its absolute value.
abbrev pub between : ℕ → ℕ → ℕ → Bool
between neg_lo hi x = sle (2 ^ 64 - neg_lo) x && sle x hi

pub write_dod : BStream → ℕ → BStream
write_dod b dod =
    if dod == 0
    then write_bit b false
    else if between 63 64 dod
    then write_bits (write_bits b 0x02 2) dod 7
    else if between 255 256 dod
    then write_bits (write_bits b 0x06 3) dod 9
    else if between 2047 2048 dod
    then write_bits (write_bits b 0x0e 4) dod 12
    else write_bits (write_bits b 0x0f 4) dod 64

-- The three cases of `encodePoint`: the encoder after the point, and the `tDelta` of that case.
pub encode_first : Encoder → DataPoint → Encoder × ℕ
encode_first e p = (
  record e {
    buf = write_bits (write_all e.buf (put_varint p.timestamp)) p.value 64;
    t0 = p.timestamp;
  },
  0,
)

pub encode_second : Encoder → DataPoint → Encoder × ℕ
encode_second e p =
    let t_delta = sub64 p.timestamp e.t0 in
    let e' = write_v_delta (record e { buf = write_all e.buf (put_uvarint t_delta) }) p.value in
    (record e' { t1 = p.timestamp }, t_delta)

pub encode_later : Encoder → DataPoint → Encoder × ℕ
encode_later e p =
    let t_delta = sub64 p.timestamp e.t in
    (write_v_delta (record e { buf = write_dod e.buf (sub64 t_delta e.t_delta) }) p.value, t_delta)

abbrev advance : DataPoint → Encoder × ℕ → Encoder
advance p (e, t_delta) = record e { t = p.timestamp; v = p.value; t_delta = t_delta }

unfoldable pub encode_point : Encoder → DataPoint → Encoder
encode_point e p = advance p (
    if e.t0 == 0
    then encode_first e p
    else if e.t1 == 0
    then encode_second e p
    else encode_later e p)

-- `write` is the io.Writer's Write, which says whether it took the bytes. On success: the bytes
-- that were written, and the encoder made ready for the next metric.
unfoldable pub flush : (List ℕ → Bool) → Encoder → Option (List ℕ × Encoder)
unfolding reset
flush write e =
    if write e.buf.stream
    then some (
      e.buf.stream,
      record e {
        buf = reset e.buf;
        t0 = 0;
        t1 = 0;
        t = 0;
        t_delta = 0;
        v = 0;
        leading = 0;
        trailing = 0;
      },
    )
    else none

unfoldable pub encode_points : Encoder → List DataPoint → Encoder
encode_points e [] = e
encode_points e (p ∷ ps) = encode_points (encode_point e p) ps
