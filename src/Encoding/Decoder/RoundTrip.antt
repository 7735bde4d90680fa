-- ===== src/Encoding/Decoder/RoundTrip.antt =====
-- The decoder on the streams of the encoder, for one point and for many.
use tstorage.Base.{ℕ, zero, suc, ◌+◌, ◌*◌, ◌^◌, ◌<◌, ◌≡◌, ◌≢◌, refl, sym, ap, ◌∙◌}
use tstorage.Base.{List, [], ◌∷◌, ◌++◌, append_assoc, append-nil, arith, length, All, All-append}
use native.Mathlib.Nat.{one-le-pow}
use tstorage.Base.Bits.{bits, bytes_bits, bytes_bits-append, bits-join, pow-add}
use tstorage.Words.{IsByte}
use tstorage.Rows.{DataPoint, IsPoint}
use tstorage.BStream.{BStream, new_breader}
use tstorage.BStream.Writes.{Holds, aligned, opened}
use tstorage.BStream.Loads.{Remains}
use tstorage.Encoding.{Encoder, new_encoder, encode_point, encode_points}
use tstorage.Encoding.Codes.{point_code, IsWide, encode_point-Holds}
use tstorage.Encoding.Decoder.{Decoder, new_decoder, Decode, ok, ◌>>=◌, pure, decode_point}
use tstorage.Encoding.Decoder.Reads.{bind_lem}
use tstorage.Encoding.Decoder.Steps.{InStep, Stage, fresh, second, later, IsDecoded}
use tstorage.Encoding.Decoder.Steps.{decode_first_lem, decode_second_lem}
use tstorage.Encoding.Decoder.Later.{decode_later_lem}

-- The encoder takes a timestamp of 0 for the mark of a state without points.
abbrev pub IsEncodable : DataPoint → Type 0
IsEncodable p = IsPoint p × (p.timestamp ≢ 0)

-- With a decoder in step with an encoder and the code of an encodable point next in its reader,
-- decodePoint returns the point, reads exactly its code, and is in step with the encoder after that
-- point; in each of the three cases of the two functions.
pub decode_point_lem :
    (e : Encoder) (p : DataPoint) (d : Decoder) (more : List ℕ)
    → IsEncodable p
    → InStep e d
    → Stage e d
    → Remains d.br (point_code e p ++ more)
    → IsDecoded e p d more
decode_point_lem e p d more (fits, nz) s (fresh h h1 k z) left =
    decode_first_lem e p d more fits s h h1 k z nz left
decode_point_lem e p d more (fits, nz) s (second h h1 et k) left =
    decode_second_lem e p d more fits s h h1 et k nz left
decode_point_lem e p d more (fits, nz) s (later h h1 k) left =
    decode_later_lem e p d more fits s h h1 k left

-- `n` points, one after the other.
pub decode_points : ℕ → Decode (List DataPoint)
decode_points zero = pure []
decode_points (suc n) = do p ← decode_point; ps ← decode_points n; pure (p ∷ ps)

abbrev pub points_code : Encoder → List DataPoint → List ℕ
points_code e [] = []
points_code e (p ∷ ps) = point_code e p ++ points_code (encode_point e p) ps

pub encode_points-Holds :
    (e : Encoder) (ps : List DataPoint) {out : List ℕ}
    → IsWide e
    → Holds e.buf out
    → Holds (encode_points e ps).buf (out ++ points_code e ps)
unfolding encode_points
encode_points-Holds e [] {out} w h = rw append-nil h
encode_points-Holds e (p ∷ ps) {out} w h =
    let (h', w') = encode_point-Holds e p w h in
    rw (← append_assoc out (point_code e p) (points_code (encode_point e p) ps))
      (encode_points-Holds (encode_point e p) ps w' h')

pub decode_points_lem :
    (e : Encoder) (ps : List DataPoint) (d : Decoder) (more : List ℕ)
    → All IsEncodable ps
    → InStep e d
    → Stage e d
    → Remains d.br (points_code e ps ++ more)
    → (d' : Decoder) × (decode_points (length ps) d ≡ (ok ps, d')) × Remains d'.br more
unfolding decode_points pure
decode_points_lem e [] d more all s stage left = (d, refl, left)
decode_points_lem e (p ∷ ps) d more (fits, all) s stage left =
    let left' =
      rw (append_assoc (point_code e p) (points_code (encode_point e p) ps) more) at left in
    let step =
      decode_point_lem e p d (points_code (encode_point e p) ps ++ more) fits s stage left' in
    let (d', rest, done) =
      decode_points_lem (encode_point e p) ps step.after more all step.in_step step.stage
        step.left in
    (d', bind_lem _ _ step.gives ∙ bind_lem _ _ rest, done)

-- What a stream holds is what a reader of its bytes gets first, whatever bytes come later.
pub Holds-Remains :
    {b : BStream} {out : List ℕ} (others : List ℕ)
    → All IsByte others
    → Holds b out
    → (more : List ℕ) × Remains (new_breader (b.stream ++ others)) (out ++ more)
Holds-Remains {b} {out} others all (aligned h) = (
  bytes_bits others,
  record {
    bytes = All-append IsByte b.stream others h.bytes all;
    width = omega arith;
    rest = bytes_bits-append b.stream others ∙ ap (λ t. t ++ bytes_bits others) (sym h.holds);
  },
)
Holds-Remains {b} {out} others all (opened h) = (
  bits b.count 0 ++ bytes_bits others,
  record {
    bytes = All-append IsByte b.stream others bytes all;
    width = omega arith;
    rest =
        bytes_bits-append b.stream others
        ∙ ap (λ t. t ++ bytes_bits others) held
        ∙ append_assoc out (bits b.count 0) (bytes_bits others);
  },
)
  where
    last_bits : bits 8 (h.last * 2 ^ b.count) ≡ bits h.used h.last ++ bits b.count 0
    last_bits =
        ap (λ n. bits n (h.last * 2 ^ b.count)) {x = 8} {y = h.used + b.count} (sym h.widths)
        ∙ ap (bits (h.used + b.count)) {x = h.last * 2 ^ b.count} {y = h.last * 2 ^ b.count + 0}
            (omega arith)
        ∙ bits-join h.used b.count h.last 0 (one-le-pow b.count 2 (omega arith))

    powers : 2 ^ h.used * 2 ^ b.count ≡ 256
    powers = sym (pow-add h.used b.count) ∙ ap (λ n. 2 ^ n) {x = h.used + b.count} {y = 8} h.widths

    last_byte : h.last * 2 ^ b.count < 256
    last_byte = grind (arith, powers, h.fits, one-le-pow b.count 2 (omega arith))

    bytes : All IsByte b.stream
    bytes =
        rw (h.shape) (All-append IsByte h.front (h.last * 2 ^ b.count ∷ []) h.bytes (last_byte, tt))

    held : bytes_bits b.stream ≡ out ++ bits b.count 0
    held =
        ap bytes_bits h.shape
        ∙ bytes_bits-append h.front (h.last * 2 ^ b.count ∷ [])
        ∙ ap (λ t. bytes_bits h.front ++ t) (append-nil (bits 8 (h.last * 2 ^ b.count)) ∙ last_bits)
        ∙ sym (append_assoc (bytes_bits h.front) (bits h.used h.last) (bits b.count 0))
        ∙ ap (λ t. t ++ bits b.count 0) (sym h.holds)

pub new_encoder-InStep : (bytes : List ℕ) → InStep new_encoder (new_decoder bytes)
new_encoder-InStep bytes = record {
  wide = record { leading = refl; trailing = refl };
  leading = refl;
  trailing = refl;
  v = refl;
  t = refl;
  t_delta = refl;
  v_fits = omega arith;
  t_fits = omega arith;
  t_delta_fits = omega arith;
}

pub new_stream-Holds : Holds new_encoder.buf []
new_stream-Holds = aligned (record { full = refl; bytes = tt; holds = refl })

-- Points with 64-bit fields and nonzero timestamps, encoded one after the other by a new encoder,
-- are what a new decoder gives back, in order and without an error, from the encoder's bytes
-- followed by any other bytes.
pub decode_points-encode_points :
    (ps : List DataPoint) (others : List ℕ)
    → All IsEncodable ps
    → All IsByte others
    → (d : Decoder) × (decode_points
          (length ps)
          (new_decoder ((encode_points new_encoder ps).buf.stream ++ others))
        ≡ (ok ps, d))
decode_points-encode_points ps others all bytes =
    let held =
      encode_points-Holds new_encoder ps (record { leading = refl; trailing = refl })
        new_stream-Holds in
    let (more, left) = Holds-Remains others bytes held in
    let d = new_decoder ((encode_points new_encoder ps).buf.stream ++ others) in
    let (d', e, done) =
      decode_points_lem new_encoder ps d more all (new_encoder-InStep _) (fresh refl refl refl refl)
        left in
    (d', e)
