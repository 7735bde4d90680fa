-- ===== src/Examples/Metric.antt =====
-- A metric with three points and two out of order.
use mathlib.Core.List.{Perm}
use mathlib.Core.List.Perm
use tstorage.Base.{◌≡◌, refl, List, [], ◌∷◌, ◌++◌, some}
use tstorage.Base.{
  All-map, Bool-cases, inl, inr, leb→le, leb→gt, arith, filter, All, IsOrdered, if◌then◌else◌,
}
use tstorage.Words.{biased, sle}
use tstorage.Flush.{encode_some}
use tstorage.Rows.{DataPoint}
use tstorage.Encoding.{new_encoder}
use tstorage.MemoryMetric.{
  MemoryMetric, insert_point, select_points, encode_list, encode_all_points,
}
use tstorage.MemoryMetric.Valid.{IsValid, Inserted, insert_point-IsValid}
use tstorage.MemoryMetric.Select.{in_places, upper, select_points_lem}
use tstorage.MemoryMetric.Encode.{IsUpTo, Sorts, encode_all_points_lem}
use tstorage.Examples.{point, three_points}

-- The metric in memory.
abbrev pub a_metric : MemoryMetric
a_metric = record {
  name = 0x61 ∷ [];
  size = 3;
  min_timestamp = 1000;
  max_timestamp = 1025;
  points = three_points;
  out_of_order_points = point 1005 1 ∷ point 1001 2 ∷ [];
}

pub a_metric-IsValid : IsValid a_metric
unfolding biased
a_metric-IsValid = record {
  size = refl;
  ordered = ((omega arith, (omega arith, tt)), ((omega arith, tt), (tt, tt)));
  within =
      ((omega arith, omega arith), ((omega arith, omega arith), ((omega arith, omega arith), tt)));
  spans = omega arith;
  ends = λ h. (point 1000 7 ∷ point 1010 7 ∷ [], point 1025 9, refl, refl);
}

select_points_lem_example :
    select_points a_metric 1000 1010
    ≡ some (filter (in_places (biased 1000) (upper a_metric 1010)) a_metric.points)
select_points_lem_example =
    select_points_lem a_metric a_metric-IsValid 1000 1010 (unfold biased in omega arith)

insert_point-IsValid_example :
    (m' : MemoryMetric) × (insert_point a_metric (point 1010 4) ≡ some m')
    × IsValid m'
    × Inserted a_metric (point 1010 4) m'
insert_point-IsValid_example = insert_point-IsValid a_metric (point 1010 4) a_metric-IsValid

-- A sort by timestamp, for the one that is a parameter.
abbrev pub insert : DataPoint → List DataPoint → List DataPoint
insert p [] = p ∷ []
insert p (q ∷ qs) =
    let rest = insert p qs in if sle p.timestamp q.timestamp then p ∷ q ∷ qs else q ∷ rest

abbrev pub insertion_sort : List DataPoint → List DataPoint
insertion_sort [] = []
insertion_sort (p ∷ ps) = insert p (insertion_sort ps)

insert-All :
    (P : DataPoint → Type 0) (p : DataPoint) (qs : List DataPoint)
    → P p
    → All P qs
    → All P (insert p qs)
insert-All P p [] h hs = (h, tt)
insert-All P p (q ∷ qs) h (k, ks) = elim (Bool-cases (sle p.timestamp q.timestamp)) [
  | inl le ↦ rw le (h, (k, ks))
  | inr gt ↦ rw gt (k, insert-All P p qs h ks)
]

insert-IsOrdered :
    (p : DataPoint) (qs : List DataPoint) → IsOrdered IsUpTo qs → IsOrdered IsUpTo (insert p qs)
insert-IsOrdered p [] o = (tt, tt)
insert-IsOrdered p (q ∷ qs) (b, o) = elim (Bool-cases (sle p.timestamp q.timestamp)) [
  | inl le ↦ let up = leb→le _ _ le in rw le ((up, All-map (λ x l. omega arith) qs b), (b, o))
  | inr gt ↦
      let down = leb→gt _ _ gt in
      rw gt (insert-All (IsUpTo q) p qs (omega arith) b, insert-IsOrdered p qs o)
]

insert-Perm : (p : DataPoint) (qs : List DataPoint) → Perm (insert p qs) (p ∷ qs)
insert-Perm p [] = Perm.refl (p ∷ [])
insert-Perm p (q ∷ qs) = elim (Bool-cases (sle p.timestamp q.timestamp)) [
  | inl le ↦ rw le (Perm.refl (p ∷ q ∷ qs))
  | inr gt ↦ rw gt (Perm.trans (Perm.cons q (insert-Perm p qs)) (Perm.swap p q qs))
]

insertion_sort-IsOrdered : (ps : List DataPoint) → IsOrdered IsUpTo (insertion_sort ps)
insertion_sort-IsOrdered [] = tt
insertion_sort-IsOrdered (p ∷ ps) =
    insert-IsOrdered p (insertion_sort ps) (insertion_sort-IsOrdered ps)

insertion_sort-Perm : (ps : List DataPoint) → Perm (insertion_sort ps) ps
insertion_sort-Perm [] = Perm.refl []
insertion_sort-Perm (p ∷ ps) =
    Perm.trans (insert-Perm p (insertion_sort ps)) (Perm.cons p (insertion_sort-Perm ps))

pub insertion_sort-Sorts : Sorts insertion_sort
insertion_sort-Sorts = record { ordered = insertion_sort-IsOrdered; same = insertion_sort-Perm }

encode_all_points_lem_example :
    (ps : List DataPoint) × ((encode_all_points encode_some insertion_sort new_encoder a_metric).0
      ≡ encode_list encode_some new_encoder ps)
    × IsOrdered IsUpTo ps
    × Perm ps (a_metric.out_of_order_points ++ a_metric.points)
encode_all_points_lem_example =
    encode_all_points_lem encode_some insertion_sort new_encoder a_metric insertion_sort-Sorts
      a_metric-IsValid
