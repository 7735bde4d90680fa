-- ===== src/DiskPartition/Select.antt =====
-- Selections of a disk partition from the bytes of its data file.
use tstorage.Base.{ℕ, suc, ◌≡◌, refl, sym, ap, ◌∙◌, Bool, false, ◌&&◌}
use tstorage.Base.{List, [], ◌∷◌, ◌++◌, some, length, drop, arith, append_assoc}
use tstorage.Base.{
  All, All-map, IsOrdered, Bool-cases, inl, inr, filter, filter-none, ltb→lt, ltb→ge, leb→le,
  leb→gt,
}
use tstorage.Base.{ge→ltb, gt→leb, le→leb, lt→ltb}
use tstorage.Words.{IsByte, slt, sle, biased}
use tstorage.Rows.{DataPoint, Label}
use tstorage.BStream.Loads.{Remains}
use tstorage.Encoding.{Encoder, new_encoder, encode_point, encode_points}
use tstorage.Encoding.Codes.{point_code}
use tstorage.Encoding.Decoder.{Decoder, new_decoder, ok, pure, decode_point}
use tstorage.Encoding.Decoder.Reads.{bind_lem}
use tstorage.Encoding.Decoder.Steps.{InStep, Stage, fresh}
use tstorage.Encoding.Decoder.RoundTrip.{
  IsEncodable, points_code, decode_point_lem, encode_points-Holds, Holds-Remains,
  new_encoder-InStep, new_stream-Holds,
}
use tstorage.MemoryMetric.Valid.{place}
use tstorage.MemoryMetric.Encode.{IsUpTo}
use tstorage.DiskPartition.{
  DiskPartition, DiskMetric, selected, expired, find_metric, read_range, disk_select,
}

abbrev pub in_range : ℕ → ℕ → DataPoint → Bool
in_range start end p = sle start p.timestamp && slt p.timestamp end

-- One round of the loop, when the rounds behind it find the points of the range.
round_lem :
    (start end n : ℕ) (p : DataPoint) (ps : List DataPoint) (d d₁ d' : Decoder)
    → All (IsUpTo p) ps
    → decode_point d ≡ (ok p, d₁)
    → read_range n start end d₁ ≡ (ok (filter (in_range start end) ps), d')
    → (d'' : Decoder) × (read_range (suc n) start end d
        ≡ (ok (filter (in_range start end) (p ∷ ps)), d''))
unfolding read_range pure
round_lem start end n p ps d d₁ d' b gives rest = elim (Bool-cases (slt p.timestamp start)) [
  | inl early ↦
      let below = ltb→lt _ _ early in
      (d', bind_lem _ _ gives ∙ rw (early, gt→leb (biased start) (place p) below) rest)
  | inr started ↦
      let above = ltb→ge _ _ started in
      elim (Bool-cases (sle end p.timestamp)) [
        | inl past ↦
            let top = leb→le _ _ past in
            (
              d₁,
              bind_lem _ _ gives
                  ∙ rw
                      (
                        started,
                        past,
                        le→leb (biased start) (place p) above,
                        ge→ltb (place p) (biased end) top,
                      )
                      (ap (λ t. (ok t, d₁))
                        (sym (filter-none _ ps (All-map (λ q l. ground (arith, l, top)) ps b)))),
            )
        | inr inside ↦
            let low = leb→gt _ _ inside in
            (
              d',
              bind_lem _ _ gives
                  ∙ rw
                      (
                        started,
                        inside,
                        le→leb (biased start) (place p) above,
                        lt→ltb (place p) (biased end) low,
                      )
                      (bind_lem _ _ rest),
            )
      ]
]

-- The loop on points in order, in step with their encoder.
read_range_lem :
    (start end : ℕ) (e : Encoder) (ps : List DataPoint) (d : Decoder) (more : List ℕ)
    → All IsEncodable ps
    → IsOrdered IsUpTo ps
    → InStep e d
    → Stage e d
    → Remains d.br (points_code e ps ++ more)
    → (d' : Decoder) × (read_range (length ps) start end d
        ≡ (ok (filter (in_range start end) ps), d'))
unfolding read_range pure
read_range_lem start end e [] d more all o s stage left = (d, refl)
read_range_lem start end e (p ∷ ps) d more (fits, all) (b, o) s stage left =
    let left' =
      rw (append_assoc (point_code e p) (points_code (encode_point e p) ps) more) at left in
    let step =
      decode_point_lem e p d (points_code (encode_point e p) ps ++ more) fits s stage left' in
    let (d', rest) =
      read_range_lem start end (encode_point e p) ps step.after more all o step.in_step step.stage
        step.left in
    round_lem start end (length ps) p ps d step.after d' b step.gives rest

drop-length : (xs ys : List ℕ) → drop (length xs) (xs ++ ys) ≡ ys
drop-length [] ys = refl
drop-length (x ∷ xs) ys = drop-length xs ys

-- A selection of a disk partition that has not expired gives the points from start to end, end
-- excluded, where the entry of the metric points to the bytes that a new encoder made of encodable
-- points in the order of their timestamps; whatever other bytes the file has.
pub disk_select_lem :
    (name_of : List ℕ → List Label → List ℕ) (now : ℕ) (d : DiskPartition) (metric : List ℕ)
    (labels : List Label) (start end : ℕ) (m : DiskMetric) (ps : List DataPoint)
    (before after : List ℕ)
    → expired now d ≡ false
    → find_metric (name_of metric labels) d.meta.metrics ≡ some m
    → d.mapped_file ≡ before ++ ((encode_points new_encoder ps).buf.stream ++ after)
    → m.offset ≡ length before
    → m.num_data_points ≡ length ps
    → All IsEncodable ps
    → IsOrdered IsUpTo ps
    → All IsByte after
    → disk_select name_of now d metric labels start end ≡ selected (filter (in_range start end) ps)
unfolding disk_select
disk_select_lem name_of now d metric labels start end m ps before after fresh_yet found file at num
      all o bytes =
    let held =
      encode_points-Holds new_encoder ps (record { leading = refl; trailing = refl })
        new_stream-Holds in
    let (more, left) = Holds-Remains after bytes held in
    let (d', reads) =
      read_range_lem start end new_encoder ps
        (new_decoder ((encode_points new_encoder ps).buf.stream ++ after)) more all o
        (new_encoder-InStep _) (fresh refl refl refl refl) left in
    rw
      (
        fresh_yet,
        found,
        num,
        at,
        file,
        drop-length before ((encode_points new_encoder ps).buf.stream ++ after),
        reads,
      )
      refl
