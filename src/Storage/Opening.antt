-- ===== src/Storage/Opening.antt =====
-- storage.go: the options, `NewStorage` and `recoverWAL`. `WithLogger` and the goroutine that removes
-- expired partitions every hour are left out.
use tstorage.Base.{
  ℕ, Bool, true, false, if◌then◌else◌, List, [], ◌∷◌, Option, none, some, ◌⊎◌, inl, inr,
}
use tstorage.Rows.{Row, Label}
use tstorage.MemoryMetric.{MemoryMetric}
use tstorage.Wal.{Wal}
use tstorage.DiskWal.{Segments}
use tstorage.DiskWal.Reader.{new_disk_wal_reader, cache_all}
use tstorage.MemoryPartition.{TimestampPrecision, nanoseconds}
use tstorage.DiskPartition.{Directory, OpenResult, open_disk_partition}
use tstorage.DiskPartition.{no_dir_path, invalid_partition, no_points, open_failed, opened}
use tstorage.Partition.{Partition, disk}
use tstorage.PartitionList.{new_partition_list}
use tstorage.Storage.{Storage, Settings, StorageError, in_memory_mode, new_partition, insert_rows}
use tstorage.Storage.Upkeep.{and_then, logged}

-- A duration is a number of nanoseconds.
pub data StorageOption : Type 0 where
  with_data_path : List ℕ → StorageOption
  with_partition_duration : ℕ → StorageOption
  with_retention : ℕ → StorageOption
  with_timestamp_precision : TimestampPrecision → StorageOption
  with_write_timeout : ℕ → StorageOption
  with_wal_buffered_size : Option ℕ → StorageOption

abbrev pub default_settings : Settings
default_settings = record {
  partition_duration = 3600000000000;
  retention = 1209600000000000;
  timestamp_precision = nanoseconds;
  data_path = [];
  write_timeout = 30000000000;
  wal_buffered_size = some 4096;
}

abbrev pub apply_option : StorageOption → Settings → Settings
apply_option (with_data_path p) o = record o { data_path = p }
apply_option (with_partition_duration d) o = record o { partition_duration = d }
apply_option (with_retention d) o = record o { retention = d }
apply_option (with_timestamp_precision p) o = record o { timestamp_precision = p }
apply_option (with_write_timeout d) o = record o { write_timeout = d }
apply_option (with_wal_buffered_size n) o = record o { wal_buffered_size = n }

abbrev pub apply_options : List StorageOption → Settings → Settings
apply_options [] o = o
apply_options (p ∷ ps) o = apply_options ps (apply_option p o)

-- What reading the WAL gives: os.ErrNotExist, another error, or the rows to insert.
pub data ReadResult : Type 0 where
  not_exist read_failed : ReadResult
  recovered : List Row → ReadResult

-- The first lines of `recoverWAL`, on the directory of the log (none if it does not exist).
unfoldable pub read_wal : (Segments → Option Segments) → Option Segments → ReadResult
read_wal read_dir none = not_exist
read_wal read_dir (some segments) = elim (new_disk_wal_reader read_dir segments) [
  | none ↦ read_failed
  | some reader ↦ elim (cache_all reader) [
    | none ↦ read_failed
    | some reader' ↦ recovered reader'.rows_to_insert
  ]
]

pub data OpenError : Type 0 where
  mkdir_failed wal_open_failed read_dir_failed partition_failed wal_read_failed : OpenError
  recovery_failed : StorageError → OpenError

-- The partitions on disk that open, and none on an error. Directories without points, and those
-- that the WAL recovers, are passed over.
abbrev pub opened_part : OpenResult → Option (List Partition) → Option (List Partition)
opened_part no_dir_path rest = none
opened_part open_failed rest = none
opened_part invalid_partition rest = rest
opened_part no_points rest = rest
opened_part (opened d) none = none
opened_part (opened d) (some ps) = some (disk d ∷ ps)

unfoldable pub open_all :
    (List ℕ → Option (List ℕ)) → ℕ → List (Bool × Directory) → Option (List Partition)
open_all mmap retention [] = some []
open_all mmap retention ((is_partition_dir, dir) ∷ dirs) =
    let rest = open_all mmap retention dirs in
    let here = opened_part (open_disk_partition mmap dir retention) rest in
    if is_partition_dir then here else rest

-- What `NewStorage` finds: whether it can make the data directory, the new WAL (none on an error),
-- the entries of the data directory (none on an error) with a mark for the partitions' names, and
-- what the WAL holds. `sort` is sort.Slice by min timestamp, and `capacity` the room that append
-- leaves behind a metric's points.
pub record Surroundings (W : Type 0) : Type 0 where
  pub data_dir_made : Bool
  pub new_wal : ℕ → Option W
  pub entries : Option (List (Bool × Directory))
  pub walled : ReadResult
  pub sort : List Partition → List Partition
  pub mmap : List ℕ → Option (List ℕ)
  pub capacity : MemoryMetric → ℕ

module _ {W : Type 0} where
  abbrev pub opening : Option StorageError × Storage W → Option OpenError × Storage W
  opening (none, s) = (none, s)
  opening (some e, s) = (some (recovery_failed e), s)

  abbrev pub empty_storage : (MemoryMetric → ℕ) → Settings → W → Storage W
  empty_storage capacity o w = record {
    partition_list = new_partition_list;
    wal = w;
    settings = o;
    pending_flushes = 0;
    capacity = capacity;
    closed = false;
  }

module _ {W : Type 0} (log : Wal W) (name_of : List ℕ → List Label → List ℕ) where
  abbrev pub add_partitions : List Partition → Storage W → Storage W
  add_partitions [] s = s
  add_partitions (p ∷ ps) s = add_partitions ps (new_partition log name_of s (some p) false).1

module _ {W : Type 0} (log : Wal W) (name_of : List ℕ → List Label → List ℕ)
    (clock : ℕ → ℕ → ℕ) where
  unfoldable pub recover_wal : ReadResult → Storage W → Option OpenError × Storage W
  recover_wal not_exist s = (none, s)
  recover_wal read_failed s = (some wal_read_failed, s)
  recover_wal (recovered []) s = (none, s)
  recover_wal (recovered (r ∷ rs)) s = opening (
      and_then (insert_rows log name_of clock true s (r ∷ rs))
        (λ s'. logged s' (log.refresh s'.wal)))

  abbrev with_head : Option OpenError × Storage W → OpenError ⊎ Storage W
  with_head (some e, s) = inl e
  with_head (none, s) = inr (new_partition log name_of s none false).1

  abbrev restored :
      ReadResult
      → (List Partition → List Partition)
      → Storage W
      → Option (List Partition)
      → OpenError ⊎ Storage W
  restored r sort s none = inl partition_failed
  restored r sort s (some ps) = with_head (recover_wal r (add_partitions log name_of (sort ps) s))

  abbrev listed :
      Surroundings W → Storage W → Option (List (Bool × Directory)) → OpenError ⊎ Storage W
  listed f s none = inl read_dir_failed
  listed f s (some []) = inr (new_partition log name_of s none false).1
  listed f s (some (e ∷ es)) =
      restored f.walled f.sort s (open_all f.mmap s.settings.retention (e ∷ es))

  -- `nop` is nopWAL.
  unfoldable pub new_storage : W → List StorageOption → Surroundings W → OpenError ⊎ Storage W
  new_storage nop opts f =
      let o = apply_options opts default_settings in
      let in_memory : OpenError ⊎ Storage W =
        inr (new_partition log name_of (empty_storage f.capacity o nop) none false).1 in
      let on_disk : OpenError ⊎ Storage W = elim o.wal_buffered_size [
        | none ↦ listed f (empty_storage f.capacity o nop) f.entries
        | some n ↦ elim (f.new_wal n) [
          | none ↦ inl wal_open_failed
          | some w ↦ listed f (empty_storage f.capacity o w) f.entries
        ]
      ] in
      if in_memory_mode o then in_memory else if f.data_dir_made then on_disk else inl mkdir_failed
