-- ===== src/MemoryMetric.antt =====
-- memory_partition.go: one metric in memory, `memoryMetric`. Its lock is not modelled: each
-- operation runs by itself. The number of points in memory is a plain number.
pub mod Valid
pub mod Select
pub mod Encode
use tstorage.Base.{ℕ, zero, suc, ◌+◌, ◌-◌, ◌*◌, ◌≡◌, Bool, true, false, ◌==◌, if◌then◌else◌}
use tstorage.Base.{List, [], ◌∷◌, ◌++◌, Option, none, some, length, get_elem?, slice}
use tstorage.Words.{slt, sle}
use tstorage.Rows.{DataPoint}
use tstorage.Search.{search}

pub record MemoryMetric : Type 0 where
  pub name : List ℕ
  pub size : ℕ
  pub min_timestamp : ℕ
  pub max_timestamp : ℕ
  pub points : List DataPoint
  pub out_of_order_points : List DataPoint

-- What `getMetric` stores for a name that it does not know.
abbrev pub new_metric : List ℕ → MemoryMetric
new_metric name = record {
  name = name;
  size = 0;
  min_timestamp = 0;
  max_timestamp = 0;
  points = [];
  out_of_order_points = [];
}

abbrev first_point : MemoryMetric → DataPoint → MemoryMetric
first_point m p = record m {
  points = m.points ++ p ∷ [];
  min_timestamp = p.timestamp;
  max_timestamp = p.timestamp;
  size = m.size + 1;
}

abbrev next_point : MemoryMetric → DataPoint → MemoryMetric
next_point m p = record m {
  points = m.points ++ p ∷ [];
  max_timestamp = p.timestamp;
  size = m.size + 1;
}

abbrev late_point : MemoryMetric → DataPoint → MemoryMetric
late_point m p = record m { out_of_order_points = m.out_of_order_points ++ p ∷ [] }

-- `none` where m.points[size-1] is out of range.
unfoldable pub insert_point : MemoryMetric → DataPoint → Option MemoryMetric
insert_point m p =
    if m.size == 0 then some (first_point m p) else elim (get_elem? m.points (m.size - 1)) [
      | none ↦ none
      | some last ↦ some (if slt last.timestamp p.timestamp then next_point m p else late_point m p)
    ]

-- The test of both searches: points[i].Timestamp >= bound.
pub reaches : List DataPoint → ℕ → ℕ → Option Bool
reaches points bound i = elim (get_elem? points i) [
  | none ↦ none
  | some p ↦ some (sle bound p.timestamp)
]

pub start_index : MemoryMetric → ℕ → Option ℕ
start_index m start =
    if sle start m.min_timestamp then some 0 else search m.size (reaches m.points start)

pub end_index : MemoryMetric → ℕ → Option ℕ
end_index m end =
    if sle m.max_timestamp end then some m.size else search m.size (reaches m.points end)

unfoldable pub select_points : MemoryMetric → ℕ → ℕ → Option (List DataPoint)
select_points m start end =
    if sle end m.min_timestamp then some [] else elim (start_index m start) [
      | none ↦ none
      | some i ↦ elim (end_index m end) [ none ↦ none | some j ↦ slice i j m.points ]
    ]

-- `encodeAllPoints` with the state of any `seriesEncoder`, whose encodePoint is `none` on an error.
module _ {S : Type 0} (encode : S → DataPoint → Option S) where
  unfoldable pub encode_list : S → List DataPoint → Option S
  encode_list s [] = some s
  encode_list s (p ∷ ps) = elim (encode s p) [ none ↦ none | some s' ↦ encode_list s' ps ]

  -- The first loop, on outOfOrderPoints[oi:] and points[pi:], and the two loops behind it.
  pub encode_merged : S → List DataPoint → List DataPoint → Option S
  encode_merged s (q ∷ late) (p ∷ points) = elim (slt q.timestamp p.timestamp) [
    | true ↦ elim (encode s q) [ none ↦ none | some s' ↦ encode_merged s' late (p ∷ points) ]
    | false ↦ elim (encode s p) [ none ↦ none | some s' ↦ encode_merged s' (q ∷ late) points ]
  ]
  encode_merged s late points = elim (encode_list s late) [
    | none ↦ none
    | some s' ↦ encode_list s' points
  ]

  -- `sort` is the call of sort.Slice by timestamp, which puts the list itself in order.
  unfoldable pub encode_all_points :
      (List DataPoint → List DataPoint) → S → MemoryMetric → Option S × MemoryMetric
  encode_all_points sort s m =
      let late = sort m.out_of_order_points in
      (encode_merged s late m.points, record m { out_of_order_points = late })
