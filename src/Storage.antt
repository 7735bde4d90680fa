-- ===== src/Storage.antt =====
-- storage.go: the storage over its list of partitions, newest first. Each operation runs by itself
-- and hands on the storage; the flush that ensureActiveHead starts in a goroutine is counted in
-- `pending_flushes` and is a step of its own. The list holds the partitions themselves, which a
-- call changes in place. Logging, locks, the timer pool and the error texts are left out.
pub mod Upkeep
pub mod Opening
pub mod Query
pub mod Windows
pub mod Ordered
pub mod Fresh
pub mod Insert
pub mod Retire
pub mod Persist
pub mod Heads
pub mod Events
pub mod Sound
pub mod Kept
pub mod Closed
pub mod Recover
pub mod Restart
pub mod Mixed
pub mod Told
pub mod Durable
pub mod Lifetime
pub mod Reopened
pub mod Filed
pub mod Unwritten
use tstorage.Base.{
  ℕ, zero, suc, ◌+◌, ◌-◌, Bool, true, false, not, ◌&&◌, ◌==◌, ltb, leb, if◌then◌else◌,
}
use tstorage.Base.{List, [], ◌∷◌, ◌++◌, Option, none, some, length, take, drop}
use tstorage.Words.{slt, sle}
use tstorage.Rows.{DataPoint, Label, Row}
use tstorage.Wal.{Wal}
use tstorage.MemoryMetric.{MemoryMetric, end_index}
use tstorage.MemoryPartition.{
  MemoryPartition, load, put, TimestampPrecision, nanoseconds, new_memory_partition,
}
use tstorage.DiskPartition.{DiskPartition, Meta, Directory, OpenResult, open_disk_partition}
use tstorage.DiskPartition.{no_dir_path, invalid_partition, no_points, open_failed, opened}
use tstorage.Encoding.Decoder.{DecodeError}
use tstorage.Partition.{
  Partition, memory, disk, min_timestamp, max_timestamp, is_active, is_expired, same_partitions,
}
use tstorage.Partition.{Taken, took, empty_rows, wal_error, read_only, insert_panicked, insert_into}
use tstorage.Partition.{Answer, points, nothing, select_panicked, decode_error, select_from, clean}
use tstorage.PartitionList.{
  PartitionList, ListError, new_partition_list, get_head, insert, remove, swap, to_list,
}
use tstorage.PartitionList.Each.{Turn, go_on, stop, each}

-- The settings. `data_path` is empty in the in-memory mode, and `wal_buffered_size` is none for a
-- negative size.
pub record Settings : Type 0 where
  pub partition_duration : ℕ
  pub retention : ℕ
  pub timestamp_precision : TimestampPrecision
  pub data_path : List ℕ
  pub write_timeout : ℕ
  pub wal_buffered_size : Option ℕ

-- `capacity` is the length of the array behind a metric's points, which is up to Go's append, and
-- `closed` says whether doneCh is.
pub record Storage (W : Type 0) : Type 0 where
  pub partition_list : PartitionList Partition
  pub wal : W
  pub settings : Settings
  pub pending_flushes : ℕ
  pub capacity : MemoryMetric → ℕ
  pub closed : Bool

pub data StorageError : Type 0 where
  metric_missing start_not_before_end no_data overloaded panicked : StorageError
  insert_failed select_failed wal_failed flush_failed reopen_failed : StorageError
  list_failed : ListError → StorageError

abbrev pub writable_partitions_num : ℕ
writable_partitions_num = 2

unfoldable pub in_memory_mode : Settings → Bool
in_memory_mode o = elim o.data_path [ [] ↦ true | c ∷ path ↦ false ]

-- The state of the loop of `InsertRows`: `i`, rowsToInsert, the log, and the error.
pub record Inserting (W : Type 0) : Type 0 where
  pub turn : ℕ
  pub rows : List Row
  pub wal : W
  pub error : Option StorageError

-- The state of the loop of `Select`: the points, or the error.
pub data Selecting : Type 0 where
  so_far : List DataPoint → Selecting
  failed : StorageError → Selecting

abbrev pub none_left : List Row → Bool
none_left [] = true
none_left (r ∷ rs) = false

-- `log` is the WAL, `name_of` is marshalMetricName.
module _ {W : Type 0} (log : Wal W) (name_of : List ℕ → List Label → List ℕ) where
  abbrev pub punctuated : Storage W → Bool × W → Option StorageError × Storage W
  punctuated s (true, w) = (none, record s { wal = w })
  punctuated s (false, w) = (some wal_failed, record s { wal = w })

  -- `p` is none for a nil partition.
  unfoldable pub new_partition :
      Storage W → Option Partition → Bool → Option StorageError × Storage W
  new_partition s p punctuate_wal =
      let p' : Partition = elim p [
        | none ↦
            memory
              (new_memory_partition s.settings.partition_duration s.settings.timestamp_precision)
        | some q ↦ q
      ] in
      let s' = record s { partition_list = insert s.partition_list p' } in
      if punctuate_wal then punctuated s' (log.punctuate s'.wal) else (none, s')

  abbrev pub flush_started : Option StorageError × Storage W → Option StorageError × Storage W
  flush_started (some e, s) = (some e, s)
  flush_started (none, s) = (none, record s { pending_flushes = suc s.pending_flushes })

  unfoldable pub ensure_active_head : Storage W → Option StorageError × Storage W
  ensure_active_head s =
      let added = flush_started (new_partition s none true) in
      elim (get_head s.partition_list) [
        | none ↦ added
        | some p ↦ if is_active p then (none, s) else added
      ]

  abbrev pub inserted_turn : Inserting W → (Taken × Partition) × W → Turn (Inserting W) × Partition
  inserted_turn t ((took outdated, p), w) =
      (go_on (record t { turn = suc t.turn; rows = outdated; wal = w }), p)
  inserted_turn t ((empty_rows, p), w) =
      (stop (record t { wal = w; error = some insert_failed }), p)
  inserted_turn t ((wal_error, p), w) = (stop (record t { wal = w; error = some insert_failed }), p)
  inserted_turn t ((read_only, p), w) = (stop (record t { wal = w; error = some insert_failed }), p)
  inserted_turn t ((insert_panicked, p), w) =
      (stop (record t { wal = w; error = some panicked }), p)

  -- The body of the loop of `InsertRows`, on a list of `n` partitions; `clock` gives the time for a
  -- turn and the row at an index.
  unfoldable pub insert_turn :
      (ℕ → ℕ → ℕ) → ℕ → Inserting W → Partition → Turn (Inserting W) × Partition
  insert_turn clock n t p =
      if ltb t.turn n && ltb t.turn writable_partitions_num && not (none_left t.rows)
      then inserted_turn t (insert_into log name_of (clock t.turn) t.wal p t.rows)
      else (stop t, p)

  abbrev pub insert_done :
      Storage W → Inserting W × PartitionList Partition → Option StorageError × Storage W
  insert_done s (t, l) = (t.error, record s { partition_list = l; wal = t.wal })

  abbrev pub insert_ready :
      (ℕ → ℕ → ℕ) → List Row → Option StorageError × Storage W → Option StorageError × Storage W
  insert_ready clock rows (some e, s) = (some e, s)
  insert_ready clock rows (none, s) = insert_done s (
      each (insert_turn clock s.partition_list.num_partitions) s.partition_list
        (record { turn = 0; rows = rows; wal = s.wal; error = none }))

  -- `admitted` says whether a worker is free before the timeout.
  unfoldable pub insert_rows :
      (ℕ → ℕ → ℕ) → Bool → Storage W → List Row → Option StorageError × Storage W
  insert_rows clock admitted s rows =
      let done = insert_ready clock rows (ensure_active_head s) in
      if admitted then done else (some overloaded, s)

-- append(ps, points...) where `ps` is the slice of `m.points` up to an index: if the array has room,
-- the points are written over those that follow in it.
abbrev pub overwritten : ℕ → ℕ → List DataPoint → MemoryMetric → MemoryMetric
overwritten capacity i ps m =
    if leb (i + length ps) capacity
    then (record m {
      points = take i m.points ++ (take (m.size - i) ps ++ drop (i + length ps) m.points);
    })
    else m

-- The metric behind the append: selectPoints makes a new slice when nothing can be in the range.
abbrev pub appended : (MemoryMetric → ℕ) → ℕ → List DataPoint → MemoryMetric → MemoryMetric
appended capacity end ps m =
    if sle end m.min_timestamp
    then m
    else elim (end_index m end) [ none ↦ m | some i ↦ overwritten (capacity m) i ps m ]

-- The partition behind the append; the points of a partition on disk are a new slice.
abbrev pub written : (MemoryMetric → ℕ) → List ℕ → ℕ → List DataPoint → Partition → Partition
written capacity name end ps (disk d) = disk d
written capacity name end ps (memory p) = elim (load name p.metrics) [
  | none ↦ memory p
  | some m ↦ memory (record p { metrics = put name (appended capacity end ps m) p.metrics })
]

-- `write` is what the append does to the partition that the points come from.
abbrev pub answered :
    (List DataPoint → Partition → Partition)
    → List DataPoint
    → Answer × Partition
    → Turn Selecting × Partition
answered write ps (points qs, p) = (go_on (so_far (qs ++ ps)), write ps p)
answered write ps (nothing, p) = (go_on (so_far ps), p)
answered write ps (select_panicked, p) = (stop (failed panicked), p)
answered write ps (decode_error e, p) = (stop (failed select_failed), p)

abbrev pub select_result : Selecting → List DataPoint × Option StorageError
select_result (failed e) = ([], some e)
select_result (so_far []) = ([], some no_data)
select_result (so_far (p ∷ ps)) = (p ∷ ps, none)

-- `now` is the time that expired() compares with.
module _ (name_of : List ℕ → List Label → List ℕ) (now : ℕ) where
  -- The body of the loop of `Select`.
  unfoldable pub select_turn :
      (MemoryMetric → ℕ)
      → List ℕ
      → List Label
      → ℕ
      → ℕ
      → Selecting
      → Partition
      → Turn Selecting × Partition
  select_turn capacity metric labels start end (failed e) p = (stop (failed e), p)
  select_turn capacity metric labels start end (so_far ps) p =
      if min_timestamp p == 0
      then (go_on (so_far ps), p)
      else if slt (max_timestamp p) start
      then (stop (so_far ps), p)
      else if slt end (min_timestamp p)
      then (go_on (so_far ps), p)
      else answered (written capacity (name_of metric labels) end) ps
          (select_from name_of now p metric labels start end)

  abbrev select_done :
      {W : Type 0}
      → Storage W
      → Selecting × PartitionList Partition
      → (List DataPoint × Option StorageError) × Storage W
  select_done s (t, l) = (select_result t, record s { partition_list = l })

  unfoldable pub select :
      {W : Type 0}
      → Storage W
      → List ℕ
      → List Label
      → ℕ
      → ℕ
      → (List DataPoint × Option StorageError) × Storage W
  select s [] labels start end = (([], some metric_missing), s)
  select s (c ∷ metric) labels start end =
      if sle end start
      then (([], some start_not_before_end), s)
      else select_done s
          (each (select_turn s.capacity (c ∷ metric) labels start end) s.partition_list (so_far []))
