-- ===== src/Encoding/Bounds.antt =====
-- How many bits and bytes the encoder takes.
use tstorage.Base.{refl, bit_xor, ◌^◌, ℕ, ◌+◌, ◌*◌, ◌≤◌, ap, ◌==◌, Bool-cases, inl, inr}
use tstorage.Base.{List, [], ◌∷◌, ◌++◌, length, length-append, arith}
use tstorage.Base.Bits.{bits, bytes_bits, length-bits, length-bytes_bits}
use tstorage.Rows.{DataPoint}
use tstorage.Words.{sub64}
use tstorage.Varint.{put_uvarint, put_varint}
use tstorage.Varint.Sizes.{Takes, put_uvarint-Takes, put_varint-Takes}
use tstorage.BStream.{BStream}
use tstorage.BStream.Writes.{Holds, aligned, opened}
use tstorage.Encoding.{Encoder, new_encoder, between, encode_point, encode_points}
use tstorage.Encoding.Codes.{value_code, dod_code, point_code}
use tstorage.Encoding.Decoder.RoundTrip.{points_code, encode_points-Holds, new_stream-Holds}

value_code-Takes : (x : ℕ) → Takes 1 66 (value_code x)
value_code-Takes x = elim (Bool-cases (x == 0)) [
  | inl e ↦ rw e (omega arith)
  | inr e ↦ rw e (omega (arith, length-bits 64 x))
]

prefixed-Takes : (k mark n dod : ℕ) → k + n ≤ 68 → 1 ≤ k → Takes 1 68 (bits k mark ++ bits n dod)
prefixed-Takes k mark n dod h h' =
    omega (
      arith,
      length-append (bits k mark) (bits n dod),
      length-bits k mark,
      length-bits n dod,
      h,
      h',
    )

dod_code-Takes : (dod : ℕ) → Takes 1 68 (dod_code dod)
dod_code-Takes dod = elim (Bool-cases (dod == 0)) [
  | inl e ↦ rw e (omega arith)
  | inr e ↦ rw e (elim (Bool-cases (between 63 64 dod)) [
    | inl e ↦ rw e (prefixed-Takes 2 0x02 7 dod (omega arith) (omega arith))
    | inr e ↦ rw e (elim (Bool-cases (between 255 256 dod)) [
      | inl e ↦ rw e (prefixed-Takes 3 0x06 9 dod (omega arith) (omega arith))
      | inr e ↦ rw e (elim (Bool-cases (between 2047 2048 dod)) [
        | inl e ↦ rw e (prefixed-Takes 4 0x0e 12 dod (omega arith) (omega arith))
        | inr e ↦ rw e (prefixed-Takes 4 0x0f 64 dod (omega arith) (omega arith))
      ])
    ])
  ])
]

joined-Takes :
    (a b c d : ℕ) (xs ys : List ℕ) → Takes a b xs → Takes c d ys → Takes (a + c) (b + d) (xs ++ ys)
joined-Takes a b c d xs ys h k = omega (arith, length-append xs ys, h, k)

point_code-Takes : (e : Encoder) (p : DataPoint) → Takes 2 146 (point_code e p)
point_code-Takes e p = elim (Bool-cases (e.t0 == 0)) [
  | inl first ↦ rw first (
      omega (
        arith,
        length-append (bytes_bits (put_varint p.timestamp)) (bits 64 p.value),
        length-bytes_bits (put_varint p.timestamp),
        put_varint-Takes p.timestamp,
        length-bits 64 p.value,
      ))
  | inr started ↦ rw started (elim (Bool-cases (e.t1 == 0)) [
    | inl second ↦ rw second (
        omega (
          arith,
          length-append (bytes_bits (put_uvarint (sub64 p.timestamp e.t0)))
              (value_code (bit_xor p.value e.v)),
          length-bytes_bits (put_uvarint (sub64 p.timestamp e.t0)),
          put_uvarint-Takes (sub64 p.timestamp e.t0),
          value_code-Takes (bit_xor p.value e.v),
        ))
    | inr later ↦ rw later (
        omega (
          arith,
          length-append (dod_code (sub64 (sub64 p.timestamp e.t) e.t_delta))
              (value_code (bit_xor p.value e.v)),
          dod_code-Takes (sub64 (sub64 p.timestamp e.t) e.t_delta),
          value_code-Takes (bit_xor p.value e.v),
        ))
  ])
]

points_code-Takes :
    (e : Encoder) (ps : List DataPoint) → Takes (2 * length ps) (146 * length ps) (points_code e ps)
points_code-Takes e [] = omega arith
points_code-Takes e (p ∷ ps) = omega (
  arith,
  length-append (point_code e p) (points_code (encode_point e p) ps),
  point_code-Takes e p,
  points_code-Takes (encode_point e p) ps,
)

length-Holds :
    {b : BStream} {out : List ℕ}
    → Holds b out
    → (length out ≤ 8 * length b.stream) × (8 * length b.stream ≤ length out + 8)
length-Holds {b} (aligned h) = omega (arith, ap length h.holds, length-bytes_bits b.stream)
length-Holds {b} (opened h) = omega (
  arith,
  ap length h.holds,
  length-append (bytes_bits h.front) (bits h.used h.last),
  length-bytes_bits h.front,
  length-bits h.used h.last,
  ap length h.shape,
  length-append h.front (h.last * 2 ^ b.count ∷ []),
  h.widths,
)

-- The bytes that a new encoder writes for n points have at least 2n bits and at most 146n + 8.
pub encode_points_bounds :
    (ps : List DataPoint)
    → (2 * length ps ≤ 8 * length (encode_points new_encoder ps).buf.stream)
      × (8 * length (encode_points new_encoder ps).buf.stream ≤ 146 * length ps + 8)
encode_points_bounds ps =
    let held =
      encode_points-Holds new_encoder ps (record { leading = refl; trailing = refl })
        new_stream-Holds in
    omega (arith, length-Holds held, points_code-Takes new_encoder ps)
