-- ===== src/Encoding/Decoder/Later.antt =====
-- The decoder on the code of the third point or any later one.
use tstorage.Base.{ℕ, ◌≡◌, ◌≢◌, refl, ap, ◌∙◌}
use tstorage.Base.{bit_xor, List, ◌++◌, append_assoc, arith, ne→==}
use tstorage.Words.{add64, sub64}
use tstorage.Rows.{DataPoint, IsPoint}
use tstorage.BStream.{BReader}
use tstorage.BStream.Loads.{Remains}
use tstorage.Encoding.{Encoder, encode_point}
use tstorage.Encoding.Codes.{value_code, dod_code, point_code, delta, encode_point-later}
use tstorage.Encoding.Decoder.{Decoder, ok, gets, modify, read_value}
use tstorage.Encoding.Decoder.{decode_later}
use tstorage.Encoding.Decoder.Reads.{bind_lem}
use tstorage.Encoding.Decoder.Values.{dod_lem, read_value_lem}
use tstorage.Encoding.Decoder.Steps.{
  InStep, Stage, later, IsDecoded, add64-sub64, decode_point-later,
}
use tstorage.Encoding.Decoder.Steps.{xor_fits, value_back, same_point}

module _ (e : Encoder) (p : DataPoint) (d : Decoder) (more : List ℕ) (fits : IsPoint p)
    (s : InStep e d) where
  abbrev dod : ℕ
  dod = sub64 (delta e p) e.t_delta

  abbrev later_after : BReader → Decoder
  later_after br = record d {
    br = br;
    t_delta = add64 d.t_delta dod;
    t = add64 d.t (add64 d.t_delta dod);
    v = bit_xor d.v (bit_xor p.value e.v);
  }

  later_delta : add64 d.t_delta dod ≡ delta e p
  later_delta =
      ap (λ k. add64 k dod) s.t_delta
      ∙ add64-sub64 (delta e p) e.t_delta (omega arith) s.t_delta_fits

  later_time : add64 d.t (add64 d.t_delta dod) ≡ p.timestamp
  later_time =
      ap (add64 d.t) later_delta
      ∙ ap (λ k. add64 k (delta e p)) s.t
      ∙ add64-sub64 p.timestamp e.t fits.1 s.t_fits

  later-InStep : (br : BReader) → e.t0 ≢ 0 → e.t1 ≢ 0 → InStep (encode_point e p) (later_after br)
  later-InStep br h h1 = rw (encode_point-later e p h h1 s.wide) (record {
    wide = record { leading = s.wide.leading; trailing = s.wide.trailing };
    leading = s.leading;
    trailing = s.trailing;
    v = value_back e p d more fits s;
    t = later_time;
    t_delta = later_delta;
    v_fits = fits.0;
    t_fits = fits.1;
    t_delta_fits = omega arith;
  })

  later-Stage :
      (br : BReader)
      → e.t0 ≢ 0
      → e.t1 ≢ 0
      → d.num_read ≡ 2
      → Stage (encode_point e p) (later_after br)
  later-Stage br h h1 k = rw (encode_point-later e p h h1 s.wide) (later h h1 k)

  pub decode_later_lem :
      e.t0 ≢ 0
      → e.t1 ≢ 0
      → d.num_read ≡ 2
      → Remains d.br (point_code e p ++ more)
      → IsDecoded e p d more
  unfolding modify gets
  decode_later_lem h h1 k left =
      let x = bit_xor p.value e.v in
      let left' =
        rw (append_assoc (dod_code dod) (value_code x) more) at (rw (ne→== h, ne→== h1) at left) in
      let (r, reads, left'') = dod_lem dod d (value_code x ++ more) (omega arith) left' in
      let d' = record d {
        br = r;
        t_delta = add64 d.t_delta dod;
        t = add64 d.t (add64 d.t_delta dod);
      } in
      let (br, reads', done) =
        read_value_lem d' x more s.leading s.trailing (xor_fits e p d more fits s) left'' in
      record {
        after = later_after br;
        gives =
            decode_point-later d k
            ∙ unfold decode_later in
              (bind_lem _ _ reads
                ∙ bind_lem _ _ refl
                ∙ bind_lem read_value _ reads'
                ∙ ap (λ q. (ok q, later_after br))
                    (same_point e p d more fits s later_time (value_back e p d more fits s)));
        left = done;
        in_step = later-InStep br h h1;
        stage = later-Stage br h h1 k;
      }
