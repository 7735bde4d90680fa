-- ===== src/Examples/Codec.antt =====
-- The encoder and the decoder on three points.
use tstorage.Base.{◌≡◌, refl, [], ◌∷◌, ◌++◌}
use tstorage.Base.{arith, length}
use tstorage.BStream.Writes.{Holds}
use tstorage.Varint.{put_varint}
use tstorage.Encoding.{new_encoder, encode_point, encode_points}
use tstorage.Encoding.Codes.{IsWide, point_code, encode_point-Holds}
use tstorage.Encoding.Decoder.{Decoder, new_decoder, ok}
use tstorage.Encoding.Decoder.Steps.{IsDecoded, fresh}
use tstorage.Encoding.Decoder.RoundTrip.{
  decode_points, decode_point_lem, decode_points-encode_points,
}
use tstorage.Encoding.Decoder.RoundTrip.{new_encoder-InStep}
use tstorage.Examples.{point, three_points, remains, is_encodable, three-IsEncodable, empty-Holds}

-- The codec.
start-IsWide : IsWide new_encoder
start-IsWide = record { leading = refl; trailing = refl }

encode_point-Holds_example :
    Holds
      (encode_point new_encoder (point 1000 7)).buf
      ([] ++ point_code new_encoder (point 1000 7))
    × IsWide (encode_point new_encoder (point 1000 7))
encode_point-Holds_example = encode_point-Holds new_encoder (point 1000 7) start-IsWide empty-Holds

abbrev first_decoder : Decoder
first_decoder = new_decoder (0xd0 ∷ 0x0f ∷ 0 ∷ 0 ∷ 0 ∷ 0 ∷ 0 ∷ 0 ∷ 0 ∷ 7 ∷ [])

decode_point_lem_example : IsDecoded new_encoder (point 1000 7) first_decoder []
unfolding put_varint
decode_point_lem_example =
    decode_point_lem new_encoder (point 1000 7) first_decoder []
      (is_encodable 1000 7 (omega arith) (omega arith) (omega arith))
      (new_encoder-InStep first_decoder.br.stream) (fresh refl refl refl refl)
      (remains first_decoder.br.stream refl)

decode_points-encode_points_example :
    (d : Decoder) × (decode_points
        (length three_points)
        (new_decoder ((encode_points new_encoder three_points).buf.stream ++ 0xff ∷ []))
      ≡ (ok three_points, d))
decode_points-encode_points_example =
    decode_points-encode_points three_points (0xff ∷ []) three-IsEncodable (omega arith, tt)
