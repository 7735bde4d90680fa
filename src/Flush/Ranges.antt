-- ===== src/Flush/Ranges.antt =====
-- What a partition has for a selection once it is flushed.
use mathlib.Core.Path.{subst}
use mathlib.Core.List.{Perm}
use mathlib.Core.List.Perm
use native.Mathlib.Bridge.{le_prop}
use tstorage.Base.{ℕ, ◌-◌, ◌≤◌, ◌<◌, ◌≡◌, refl, sym, ap, ◌∙◌, Bool, true, false, ltb, ge→ltb}
use tstorage.Base.{
  List, [], ◌++◌, Option, none, some, Option-cases, ◌⊎◌, inl, inr, All, All-map, IsOrdered,
  IsOrdered-map, filter, filter-none, length, length-append, arith,
}
use tstorage.Base.Members.{All-Perm}
use tstorage.Words.{biased}
use tstorage.Rows.{DataPoint, Label}
use tstorage.Encoding.{new_encoder, encode_points}
use tstorage.Encoding.Bounds.{encode_points_bounds}
use tstorage.Encoding.Decoder.RoundTrip.{IsEncodable}
use tstorage.MemoryMetric.{MemoryMetric}
use tstorage.MemoryMetric.Valid.{IsWithin, length_zero}
use tstorage.MemoryMetric.Encode.{IsUpTo, Sorts, merged-IsOrdered}
use tstorage.MemoryPartition.{MemoryPartition, load}
use tstorage.MemoryPartition.Valid.{AllValid, held, load-held, load-IsValid}
use tstorage.MemoryPartition.Names.{AreNamed, load-no_name, load-place}
use tstorage.MemoryPartition.Contents.{contents}
use tstorage.MemoryPartition.Insert.{IsValidPartition}
use tstorage.DiskPartition.{disk_select, selected, no_data_points, expired, find_metric}
use tstorage.DiskPartition.Select.{in_range}
use tstorage.Flush.{Files, flush_loop, flush_partition}
use tstorage.Flush.Placed.{IsPlaced, sorted_points, flush_loop_lem}
use tstorage.Flush.Select.{flushed, flushed-sorted, All-get_elem?}
use tstorage.Flush.Stored.{AreNamed-IsNamed, sorted-held}

-- The points under a name in the order in which they are encoded.
abbrev pub encoded_points : (List DataPoint → List DataPoint) → Option MemoryMetric → List DataPoint
encoded_points sort none = []
encoded_points sort (some m) = sorted_points sort m

abbrev pub range_points :
    (List DataPoint → List DataPoint) → List ℕ → ℕ → ℕ → MemoryPartition → List DataPoint
range_points sort name start end p =
    filter (in_range start end) (encoded_points sort (load name p.metrics))

module _ (sort : List DataPoint → List DataPoint) (sorts : Sorts sort) where
  encoded-contents :
      (p : MemoryPartition) (name : List ℕ)
      → Perm (encoded_points sort (load name p.metrics)) (contents name p.metrics)
  encoded-contents p name = elim (Option-cases (load name p.metrics)) [
    | inl e ↦ rw e (Perm.refl [])
    | inr (m, e) ↦ rw e (Perm.symm (sorted-held sort sorts m))
  ]

  -- They are in the order of timestamps, and those that are stored under the name.
  pub encoded_points_lem :
      (p : MemoryPartition) (name : List ℕ)
      → IsValidPartition p
      → IsOrdered IsUpTo (encoded_points sort (load name p.metrics))
        × Perm (encoded_points sort (load name p.metrics)) (contents name p.metrics)
  encoded_points_lem p name v = elim (Option-cases (load name p.metrics)) [
    | inl e ↦ rw e (tt, Perm.refl [])
    | inr (m, e) ↦ rw e (
      merged-IsOrdered (sort m.out_of_order_points) m.points (sorts.ordered m.out_of_order_points) (
          IsOrdered-map (λ x y l. omega arith) m.points
            (load-IsValid name p.metrics m v.metrics e).ordered),
      Perm.symm (sorted-held sort sorts m),
    )
  ]

  encoded_points-Within :
      (p : MemoryPartition) (name : List ℕ)
      → IsValidPartition p
      → All (IsWithin p.min_t p.max_t) (encoded_points sort (load name p.metrics))
  encoded_points-Within p name v = elim (Option-cases (load name p.metrics)) [
    | inl e ↦ rw e tt
    | inr (m, e) ↦ rw e (
        All-Perm (IsWithin p.min_t p.max_t) (λ q. hlevel le_prop) (held m) (sorted_points sort m)
          (sorted-held sort sorts m)
          (load-held (IsWithin p.min_t p.max_t) name p.metrics m v.within e))
  ]

  -- A file without a byte holds no point.
  pub file-empty :
      (p : MemoryPartition) (name : List ℕ) (write : List ℕ → Bool) (created : ℕ)
      → AllValid p.metrics
      → AreNamed p.metrics
      → ((xs : List ℕ) → write xs ≡ true)
      → (flush_partition sort write created p).0 ≡ []
      → encoded_points sort (load name p.metrics) ≡ []
  unfolding flush_partition
  file-empty p name write created v a ok empty = elim (Option-cases (load name p.metrics)) [
    | inl e ↦ rw e refl
    | inr (m, e) ↦
        let (i, at, name') = load-place name p.metrics m a e in
        let files : Files = record { written = []; encoder = new_encoder; entries = [] } in
        let done =
          flush_loop_lem sort write ok p.metrics files refl v (AreNamed-IsNamed p.metrics a) in
        let placed =
          All-get_elem? (λ x. IsPlaced sort x.1 (flush_loop sort write p.metrics files)) p.metrics i
            (name, m) done.placed at in
        let stream = (encode_points new_encoder (sorted_points sort m)).buf.stream in
        let nil : sorted_points sort m ≡ [] = length_zero (sorted_points sort m) (
          omega (
            arith,
            ap length (sym empty ∙ placed.place),
            length-append placed.before (stream ++ placed.after),
            length-append stream placed.after,
            encode_points_bounds (sorted_points sort m),
          )) in
        rw (e, nil) refl
  ]

  pub contents-nil :
      (p : MemoryPartition) (name : List ℕ) (write : List ℕ → Bool) (created : ℕ)
      → AllValid p.metrics
      → AreNamed p.metrics
      → ((xs : List ℕ) → write xs ≡ true)
      → (flush_partition sort write created p).0 ≡ []
      → contents name p.metrics ≡ []
  contents-nil p name write created v a ok empty = sym (
      Perm.nil-eq (
        subst (λ z. Perm z (contents name p.metrics)) (file-empty p name write created v a ok empty)
          (encoded-contents p name)))

  module _ (p : MemoryPartition) (name : List ℕ) (start end : ℕ) (v : IsValidPartition p) where
    pub range_points-after : biased end < biased p.min_t → range_points sort name start end p ≡ []
    range_points-after lt =
        filter-none _ (encoded_points sort (load name p.metrics))
          (All-map (λ q w. ground (arith, w.0, lt)) _ (encoded_points-Within p name v))

    pub range_points-before :
        biased p.max_t < biased start → range_points sort name start end p ≡ []
    range_points-before lt =
        filter-none _ (encoded_points sort (load name p.metrics))
          (All-map (λ q w. ground (arith, w.1, lt)) _ (encoded_points-Within p name v))

    pub flush-empty :
        (write : List ℕ → Bool) (created : ℕ)
        → ((xs : List ℕ) → write xs ≡ true)
        → (flush_partition sort write created p).0 ≡ []
        → range_points sort name start end p ≡ []
    flush-empty write created ok empty =
        ap (filter (in_range start end))
          (file-empty p name write created v.metrics v.named ok empty)

    pub flushed-answer :
        (write : List ℕ → Bool) (name_of : List ℕ → List Label → List ℕ) (created retention now : ℕ)
        (metric : List ℕ) (labels : List Label)
        → ((xs : List ℕ) → write xs ≡ true)
        → name_of metric labels ≡ name
        → All IsEncodable (encoded_points sort (load name p.metrics))
        → now - created ≤ retention
        → (disk_select name_of now (flushed sort write created retention p) metric labels start end
            ≡ selected (range_points sort name start end p))
          ⊎ ((disk_select name_of now
                  (flushed sort write created retention p)
                  metric
                  labels
                  start
                  end
                ≡ no_data_points)
              × (range_points sort name start end p ≡ []))
    unfolding flush_partition expired disk_select find_metric
    flushed-answer write name_of created retention now metric labels ok is_name all young =
        elim (Option-cases (load name p.metrics)) [
          | inl e ↦
              let files : Files = record { written = []; encoder = new_encoder; entries = [] } in
              let done =
                flush_loop_lem sort write ok p.metrics files refl v.metrics
                  (AreNamed-IsNamed p.metrics v.named) in
              let entries = (flush_loop sort write p.metrics files).entries in
              let missing : find_metric (name_of metric labels) entries ≡ none =
                ap (λ n. find_metric n entries) is_name
                ∙ done.others name (load-no_name name p.metrics v.named e) in
              let fresh : ltb retention (now - created) ≡ false = ge→ltb _ _ young in
              inr (rw (disk_select, fresh, missing) refl, rw e refl)
          | inr (m, e) ↦
              let (i, at, name') = load-place name p.metrics m v.named e in
              let all' : All IsEncodable (sorted_points sort m) =
                subst (λ o. All IsEncodable (encoded_points sort o)) e all in
              let (found, o) =
                flushed-sorted sort write name_of created retention now p i name m metric labels
                  start end sorts ok v.metrics (AreNamed-IsNamed p.metrics v.named) at
                  (is_name ∙ sym name') all' (ge→ltb _ _ young) in
              inl (
                found
                ∙ ap (λ z. selected (filter (in_range start end) (encoded_points sort z))) (sym e))
        ]
