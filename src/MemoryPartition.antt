-- ===== src/MemoryPartition.antt =====
-- memory_partition.go: a partition in memory. Its metrics, a sync.Map, are an association list;
-- metrics are shared by reference, so a change of one is put back under its name.
pub mod Valid
pub mod Insert
pub mod Count
pub mod Query
pub mod Names
pub mod Contents
pub mod First
pub mod Spelled
use tstorage.Base.{ℕ, zero, suc, ◌+◌, ◌-◌, ◌*◌, ◌/◌, ◌%◌, ◌^◌, Bool, true, false, ◌&&◌, ◌==◌, ltb}
use tstorage.Base.{if◌then◌else◌, List, [], ◌∷◌, ◌++◌, Option, none, some}
use tstorage.Words.{slt, add64, sub64}
use tstorage.Rows.{DataPoint, Label, Row}
use tstorage.MemoryMetric.{MemoryMetric, new_metric, insert_point, select_points}

pub data TimestampPrecision : Type 0 where
  nanoseconds microseconds milliseconds seconds other : TimestampPrecision

-- `started` says whether the sync.Once has run.
pub record MemoryPartition : Type 0 where
  pub num_points : ℕ
  pub min_t : ℕ
  pub max_t : ℕ
  pub metrics : List (List ℕ × MemoryMetric)
  pub partition_duration : ℕ
  pub timestamp_precision : TimestampPrecision
  pub started : Bool

-- A duration is a number of nanoseconds, not negative; the partition keeps it in units of the precision.
pub in_units : ℕ → TimestampPrecision → ℕ
in_units duration nanoseconds = duration
in_units duration microseconds = duration / 1000
in_units duration milliseconds = duration / 1000000
in_units duration seconds = duration / 1000000000
in_units duration other = duration

unfoldable pub new_memory_partition : ℕ → TimestampPrecision → MemoryPartition
unfolding in_units
new_memory_partition duration precision = record {
  num_points = 0;
  min_t = 0;
  max_t = 0;
  metrics = [];
  partition_duration = in_units duration precision;
  timestamp_precision = precision;
  started = false;
}

-- Equality of strings.
abbrev pub same_name : List ℕ → List ℕ → Bool
same_name [] [] = true
same_name [] (y ∷ ys) = false
same_name (x ∷ xs) [] = false
same_name (x ∷ xs) (y ∷ ys) = (x == y) && same_name xs ys

abbrev pub Metrics : Type 0
Metrics = List (List ℕ × MemoryMetric)

unfoldable pub load : List ℕ → Metrics → Option MemoryMetric
load name [] = none
load name ((k, m) ∷ ms) = let rest = load name ms in if same_name k name then some m else rest

pub put : List ℕ → MemoryMetric → Metrics → Metrics
put name m' [] = []
put name m' ((k, m) ∷ ms) =
    let rest = put name m' ms in if same_name k name then (k, m') ∷ ms else (k, m) ∷ rest

unfoldable pub get_metric : List ℕ → Metrics → MemoryMetric × Metrics
get_metric name ms = elim (load name ms) [
  | none ↦ (new_metric name, ms ++ (name, new_metric name) ∷ [])
  | some m ↦ (m, ms)
]

-- The loop for the first min timestamp.
unfoldable pub lowest : ℕ → List Row → ℕ
lowest min [] = min
lowest min (r ∷ rs) = lowest (if slt r.point.timestamp min then r.point.timestamp else min) rs

-- m.once.Do of `insertRows`.
unfoldable pub set_min : MemoryPartition → Row → List Row → MemoryPartition
set_min p r rs =
    if p.started then p else record p { started = true; min_t = lowest r.point.timestamp (r ∷ rs) }

-- What the loop of `insertRows` changes.
pub record Progress : Type 0 where
  pub metrics : Metrics
  pub outdated : List Row
  pub max : ℕ
  pub count : ℕ

pub data InsertResult : Type 0 where
  no_rows wal_failed panicked : InsertResult
  inserted : List Row → MemoryPartition → InsertResult

-- The lines of the loop after `getMetric`, whose result is the last argument.
abbrev pub store_point : List ℕ → DataPoint → Progress → MemoryMetric × Metrics → Option Progress
store_point name p s (m, metrics) = elim (insert_point m p) [
  | none ↦ none
  | some m' ↦ some (record s {
    metrics = put name m' metrics;
    max = if slt s.max p.timestamp then p.timestamp else s.max;
    count = s.count + 1;
  })
]

-- `name_of` is marshalMetricName, `clock` gives toUnix(time.Now(), …) for the row at an index, and
-- `append` says whether the WAL took the rows.
module _ (name_of : List ℕ → List Label → List ℕ) (clock : ℕ → ℕ) (append : List Row → Bool) where
  abbrev pub stamped : ℕ → DataPoint → DataPoint
  stamped i p = if p.timestamp == 0 then record p { timestamp = clock i } else p

  pub store_row : ℕ → Row → Progress → Option Progress
  store_row i r s =
      let name = name_of r.metric r.labels in
      store_point name (stamped i r.point) s (get_metric name s.metrics)

  pub insert_row : ℕ → ℕ → Row → Progress → Option Progress
  insert_row min_t i r s =
      if slt r.point.timestamp min_t
      then some (record s { outdated = s.outdated ++ r ∷ [] })
      else store_row i r s

  pub insert_loop : ℕ → ℕ → List Row → Progress → Option Progress
  insert_loop min_t i [] s = some s
  insert_loop min_t i (r ∷ rs) s = elim (insert_row min_t i r s) [
    | none ↦ none
    | some s' ↦ insert_loop min_t (suc i) rs s'
  ]

  pub finish_insert : MemoryPartition → Progress → MemoryPartition
  finish_insert p s = record p {
    metrics = s.metrics;
    num_points = p.num_points + s.count;
    max_t = if slt p.max_t s.max then s.max else p.max_t;
  }

  unfoldable pub insert_rows : MemoryPartition → List Row → InsertResult
  insert_rows p [] = no_rows
  insert_rows p (r ∷ rs) =
      let p' = set_min p r rs in
      let start : Progress = record {
        metrics = p'.metrics;
        outdated = [];
        max = r.point.timestamp;
        count = 0;
      } in
      let done : InsertResult = elim (insert_loop p'.min_t 0 (r ∷ rs) start) [
        | none ↦ panicked
        | some s ↦ inserted s.outdated (finish_insert p' s)
      ] in
      if append (r ∷ rs) then done else wal_failed

  -- A query for an unknown metric stores an empty one.
  unfoldable pub select_data_points :
      MemoryPartition → List ℕ → List Label → ℕ → ℕ → Option (List DataPoint) × MemoryPartition
  select_data_points p metric labels start end =
      let (m, metrics) = get_metric (name_of metric labels) p.metrics in
      (select_points m start end, record p { metrics = metrics })

unfoldable pub active : MemoryPartition → Bool
active p = slt (add64 (sub64 p.max_t p.min_t) 1) p.partition_duration
