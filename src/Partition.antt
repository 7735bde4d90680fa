-- ===== src/Partition.antt =====
-- partition.go: the interface that a partition in memory and a partition on disk fill, and
-- samePartitions of partition_list.go. A call gives what it returns, and the partition after it.
use tstorage.Base.{ℕ, Bool, true, false, ◌==◌, List, [], ◌∷◌, Option, none, some}
use tstorage.Rows.{DataPoint, Label, Row}
use tstorage.Wal.{Wal}
use tstorage.MemoryPartition.{
  MemoryPartition, active, no_rows, wal_failed, panicked, inserted, insert_rows,
}
use tstorage.MemoryPartition.{InsertResult, select_data_points}
use tstorage.DiskPartition.{
  DiskPartition, expired, disk_select, no_data_points, decode_failed, selected, SelectResult,
}
use tstorage.Encoding.Decoder.{DecodeError}

pub data Partition : Type 0 where
  memory : MemoryPartition → Partition
  disk : DiskPartition → Partition

abbrev pub min_timestamp : Partition → ℕ
min_timestamp (memory m) = m.min_t
min_timestamp (disk d) = d.meta.min_timestamp

abbrev pub max_timestamp : Partition → ℕ
max_timestamp (memory m) = m.max_t
max_timestamp (disk d) = d.meta.max_timestamp

abbrev pub size : Partition → ℕ
size (memory m) = m.num_points
size (disk d) = d.meta.num_data_points

abbrev pub is_active : Partition → Bool
is_active (memory m) = active m
is_active (disk d) = false

-- `now` is the time of time.Since.
abbrev pub is_expired : ℕ → Partition → Bool
is_expired now (memory m) = false
is_expired now (disk d) = expired now d

abbrev pub same_partitions : Partition → Partition → Bool
same_partitions x y = min_timestamp x == min_timestamp y

-- What `insertRows` gives: the error, or the outdated rows.
pub data Taken : Type 0 where
  took : List Row → Taken
  empty_rows wal_error read_only insert_panicked : Taken

-- What `selectDataPoints` gives: the points, ErrNoDataPoints, or another error.
pub data Answer : Type 0 where
  points : List DataPoint → Answer
  nothing select_panicked : Answer
  decode_error : DecodeError → Answer

abbrev pub taken : MemoryPartition → InsertResult → Taken × Partition
taken m no_rows = (empty_rows, memory m)
taken m wal_failed = (wal_error, memory m)
taken m panicked = (insert_panicked, memory m)
taken m (inserted outdated m') = (took outdated, memory m')

abbrev pub answer_memory : Option (List DataPoint) × MemoryPartition → Answer × Partition
answer_memory (none, m) = (select_panicked, memory m)
answer_memory (some ps, m) = (points ps, memory m)

abbrev pub answer_disk : SelectResult → Answer
answer_disk no_data_points = nothing
answer_disk (decode_failed e) = decode_error e
answer_disk (selected ps) = points ps

-- The rest of `insertRows` of a partition in memory behind the call of the WAL.
abbrev pub insert_logged :
    {W : Type 0}
    → (List ℕ → List Label → List ℕ)
    → (ℕ → ℕ)
    → MemoryPartition
    → List Row
    → Bool × W
    → (Taken × Partition) × W
insert_logged name_of clock m rows (ok, w) =
    (taken m (insert_rows name_of clock (λ rs. ok) m rows), w)

-- `clock` gives the time for the row at an index.
module _ {W : Type 0} (log : Wal W) (name_of : List ℕ → List Label → List ℕ) where
  abbrev pub insert_into : (ℕ → ℕ) → W → Partition → List Row → (Taken × Partition) × W
  insert_into clock w (disk d) rows = ((read_only, disk d), w)
  insert_into clock w (memory m) [] = ((empty_rows, memory m), w)
  insert_into clock w (memory m) (r ∷ rs) =
      insert_logged name_of clock m (r ∷ rs) (log.append (r ∷ rs) w)

abbrev pub select_from :
    (List ℕ → List Label → List ℕ)
    → ℕ
    → Partition
    → List ℕ
    → List Label
    → ℕ
    → ℕ
    → Answer × Partition
select_from name_of now (disk d) metric labels start end =
    (answer_disk (disk_select name_of now d metric labels start end), disk d)
select_from name_of now (memory m) metric labels start end =
    answer_memory (select_data_points name_of (λ i. 0) (λ rs. true) m metric labels start end)

-- `clean`, which for a partition on disk removes its directory; `remove_dir` says whether it can.
abbrev pub clean : (DiskPartition → Bool) → Partition → Bool
clean remove_dir (memory m) = true
clean remove_dir (disk d) = remove_dir d
