-- ===== src/Encoding/Codes.antt =====
-- What `encodePoint` writes, as bits, while the window is the initial one.
use mathlib.Core.Path.{ap₂}
use native.Mathlib.Nat.{div-one}
use tstorage.Base.{ℕ, ◌/◌, ◌^◌, ◌≤◌, ◌≡◌, ◌≢◌, ap, ◌∙◌, bit_xor, true, false}
use tstorage.Base.{List, [], ◌∷◌, ◌++◌, append-nil, append_assoc, arith, ◌==◌, if◌then◌else◌, All}
use tstorage.Base.{Bool-cases, ==_iff, inl, inr, not, ◌&&◌, leb, ne→==}
use native.Mathlib.Decide.{ℕ_discrete}
use tstorage.Base.Bits.{bits, bytes_bits}
use tstorage.Words.{IsByte, sub64}
use tstorage.Rows.{DataPoint}
use tstorage.BStream.{BStream, write_bit, write_byte, write_bits}
use tstorage.BStream.Writes.{Holds, write_bit-Holds}
use tstorage.BStream.WriteBits.{write_byte-Holds}
use tstorage.BStream.WriteWords.{write_bits-Holds}
use tstorage.Varint.{put_uvarint, put_varint}
use tstorage.Varint.RoundTrip.{put_uvarint-IsByte, put_varint-IsByte}
use tstorage.Encoding.{Encoder, write_all, write_v_delta, write_changed, write_in_window, write_dod}
use tstorage.Encoding.{between, encode_point, encode_first, encode_second, encode_later}

abbrev pub value_code : ℕ → List ℕ
value_code x = if x == 0 then 0 ∷ [] else 1 ∷ 0 ∷ bits 64 x

abbrev pub dod_code : ℕ → List ℕ
dod_code dod =
    if dod == 0
    then 0 ∷ []
    else if between 63 64 dod
    then bits 2 0x02 ++ bits 7 dod
    else if between 255 256 dod
    then bits 3 0x06 ++ bits 9 dod
    else if between 2047 2048 dod
    then bits 4 0x0e ++ bits 12 dod
    else bits 4 0x0f ++ bits 64 dod

-- The bits of one point, after the points that `e` has seen.
abbrev pub point_code : Encoder → DataPoint → List ℕ
point_code e p =
    if e.t0 == 0
    then bytes_bits (put_varint p.timestamp) ++ bits 64 p.value
    else if e.t1 == 0
    then bytes_bits (put_uvarint (sub64 p.timestamp e.t0)) ++ value_code (bit_xor p.value e.v)
    else dod_code (sub64 (sub64 p.timestamp e.t) e.t_delta) ++ value_code (bit_xor p.value e.v)

-- No leading or trailing zeros are left out.
pub record IsWide (e : Encoder) : Type 0 where
  pub leading : e.leading ≡ 0
  pub trailing : e.trailing ≡ 0

abbrev pub value_buf : BStream → ℕ → BStream
value_buf b x =
    if x == 0 then write_bit b false else write_bits (write_bit (write_bit b true) false) x 64

in_window : (a b l t : ℕ) → a ≡ 0 → b ≡ 0 → (not (a == 0xff) && (leb a l && leb b t)) ≡ true
in_window a b l t ea eb = ground arith

write_changed-wide : (e : Encoder) (x : ℕ) → IsWide e → write_changed e x ≡ write_in_window e x
unfolding write_changed
write_changed-wide e x w = rw (in_window e.leading e.trailing _ _ w.leading w.trailing)

write_in_window-wide :
    (e : Encoder) (x : ℕ)
    → IsWide e
    → write_in_window e x ≡ record e { buf = write_bits (write_bit e.buf false) x 64 }
unfolding write_in_window
write_in_window-wide e x w =
    ap₂ (λ y n. record e { buf = write_bits (write_bit e.buf false) y n })
      (ap (λ k. x / 2 ^ k) w.trailing ∙ div-one x) (omega (arith, w.leading, w.trailing))

-- With the initial window (no leading or trailing zeros), writeVDelta writes one clear bit for an
-- unchanged value and two bits and all 64 bits of the difference for any other, and the window
-- stays.
pub write_v_delta-wide :
    (e : Encoder) (v : ℕ)
    → IsWide e
    → write_v_delta e v ≡ record e { buf = value_buf e.buf (bit_xor v e.v) }
unfolding write_v_delta
write_v_delta-wide e v w = elim (Bool-cases (bit_xor v e.v == 0)) [
  | inl same ↦ rw same
  | inr changed ↦ rw changed (
      let e' = record e { buf = write_bit e.buf true } in
      let w' : IsWide e' = record { leading = w.leading; trailing = w.trailing } in
      write_changed-wide e' (bit_xor v e.v) w' ∙ write_in_window-wide e' (bit_xor v e.v) w')
]

write_all-Holds :
    {b : BStream} (out bytes : List ℕ)
    → All IsByte bytes
    → Holds b out
    → Holds (write_all b bytes) (out ++ bytes_bits bytes)
unfolding write_all
write_all-Holds out [] all h = rw append-nil h
write_all-Holds {b} out (x ∷ xs) (lt, all) h =
    rw (← append_assoc out (bits 8 x) (bytes_bits xs))
      (write_all-Holds {b = write_byte b x} (out ++ bits 8 x) xs all (write_byte-Holds x lt h))

value_buf-Holds :
    {b : BStream} {out : List ℕ} (x : ℕ) → Holds b out → Holds (value_buf b x) (out ++ value_code x)
value_buf-Holds {b} {out} x h = elim (Bool-cases (x == 0)) [
  | inl e ↦ rw e (write_bit-Holds false h)
  | inr e ↦ rw e (
      rw (← append_assoc out (1 ∷ 0 ∷ []) (bits 64 x), ← append_assoc out (1 ∷ []) (0 ∷ []))
        (write_bits-Holds x 64 (omega arith) (write_bit-Holds false (write_bit-Holds true h))))
]

prefixed-Holds :
    {b : BStream} {out : List ℕ} (mark k dod n : ℕ)
    → k ≤ 64
    → n ≤ 64
    → Holds b out
    → Holds (write_bits (write_bits b mark k) dod n) (out ++ (bits k mark ++ bits n dod))
prefixed-Holds {b} {out} mark k dod n hk hn h =
    rw (← append_assoc out (bits k mark) (bits n dod))
      (write_bits-Holds dod n hn (write_bits-Holds mark k hk h))

write_dod-Holds :
    {b : BStream} {out : List ℕ} (dod : ℕ)
    → Holds b out
    → Holds (write_dod b dod) (out ++ dod_code dod)
unfolding write_dod
write_dod-Holds {b} {out} dod h = elim (Bool-cases (dod == 0)) [
  | inl e ↦ rw e (write_bit-Holds false h)
  | inr e ↦ rw e (elim (Bool-cases (between 63 64 dod)) [
    | inl e ↦ rw e (prefixed-Holds 0x02 2 dod 7 (omega arith) (omega arith) h)
    | inr e ↦ rw e (elim (Bool-cases (between 255 256 dod)) [
      | inl e ↦ rw e (prefixed-Holds 0x06 3 dod 9 (omega arith) (omega arith) h)
      | inr e ↦ rw e (elim (Bool-cases (between 2047 2048 dod)) [
        | inl e ↦ rw e (prefixed-Holds 0x0e 4 dod 12 (omega arith) (omega arith) h)
        | inr e ↦ rw e (prefixed-Holds 0x0f 4 dod 64 (omega arith) (omega arith) h)
      ])
    ])
  ])
]

-- The encoder after a point, in each of the three cases of `encodePoint`.
module _ (e : Encoder) (p : DataPoint) where
  abbrev pub delta : ℕ
  delta = sub64 p.timestamp e.t

  pub encode_point-first :
      e.t0 ≡ 0
      → encode_point e p ≡ record e {
        buf = write_bits (write_all e.buf (put_varint p.timestamp)) p.value 64;
        t0 = p.timestamp;
        t = p.timestamp;
        v = p.value;
        t_delta = 0;
      }
  unfolding encode_point encode_first
  encode_point-first h = rw ((==_iff e.t0 0).1 h)

  pub encode_point-second :
      e.t0 ≢ 0
      → e.t1 ≡ 0
      → IsWide e
      → encode_point e p ≡ record e {
        buf =
            value_buf
              (write_all e.buf (put_uvarint (sub64 p.timestamp e.t0)))
              (bit_xor p.value e.v);
        t1 = p.timestamp;
        t = p.timestamp;
        v = p.value;
        t_delta = sub64 p.timestamp e.t0;
      }
  unfolding encode_point encode_second
  encode_point-second h k w =
      rw (ne→== h, (==_iff e.t1 0).1 k)
        (ap {A = Encoder}
          (λ x. record x {
            t1 = p.timestamp;
            t = p.timestamp;
            v = p.value;
            t_delta = sub64 p.timestamp e.t0;
          })
          (write_v_delta-wide
            (record e { buf = write_all e.buf (put_uvarint (sub64 p.timestamp e.t0)) }) p.value
            (record { leading = w.leading; trailing = w.trailing })))

  pub encode_point-later :
      e.t0 ≢ 0
      → e.t1 ≢ 0
      → IsWide e
      → encode_point e p ≡ record e {
        buf = value_buf (write_dod e.buf (sub64 delta e.t_delta)) (bit_xor p.value e.v);
        t = p.timestamp;
        v = p.value;
        t_delta = delta;
      }
  unfolding encode_point encode_later
  encode_point-later h k w =
      rw (ne→== h, ne→== k)
        (ap {A = Encoder} (λ x. record x { t = p.timestamp; v = p.value; t_delta = delta })
          (write_v_delta-wide (record e { buf = write_dod e.buf (sub64 delta e.t_delta) }) p.value
            (record { leading = w.leading; trailing = w.trailing })))

  -- While the window is the initial one, encodePoint appends to the bits in the stream the code of
  -- its point, which is described apart from the stream's bytes, and keeps the window.
  pub encode_point-Holds :
      {out : List ℕ}
      → IsWide e
      → Holds e.buf out
      → Holds (encode_point e p).buf (out ++ point_code e p) × IsWide (encode_point e p)
  encode_point-Holds {out} w h = elim (ℕ_discrete e.t0 0) [
    | yes first ↦
        rw (encode_point-first first, (==_iff e.t0 0).1 first)
          (
            rw (← append_assoc out (bytes_bits (put_varint p.timestamp)) (bits 64 p.value)) (
                write_bits-Holds p.value 64 (omega arith)
                  (write_all-Holds out _ (put_varint-IsByte p.timestamp) h)),
            record { leading = w.leading; trailing = w.trailing },
          )
    | no started ↦ elim (ℕ_discrete e.t1 0) [
      | yes second ↦
          rw (encode_point-second started second w, ne→== started, (==_iff e.t1 0).1 second)
            (
              rw
                  (← append_assoc out (bytes_bits (put_uvarint (sub64 p.timestamp e.t0)))
                    (value_code (bit_xor p.value e.v)))
                  (value_buf-Holds _ (write_all-Holds out _ (put_uvarint-IsByte _) h)),
              record { leading = w.leading; trailing = w.trailing },
            )
      | no later ↦
          rw (encode_point-later started later w, ne→== started, ne→== later)
            (
              rw
                  (← append_assoc out (dod_code (sub64 delta e.t_delta))
                    (value_code (bit_xor p.value e.v)))
                  (value_buf-Holds _ (write_dod-Holds (sub64 delta e.t_delta) h)),
              record { leading = w.leading; trailing = w.trailing },
            )
    ]
  ]
