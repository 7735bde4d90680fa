-- ===== src/Storage/Upkeep.antt =====
-- storage.go: `flushPartitions`, `removeExpiredPartitions` and `Close`. Their loops go through the
-- partitions that the list has at the start: they take out or replace a partition only at or in
-- front of the iterator, whose next pointer stays as it is.
use tstorage.Base.{
  ℕ, Bool, true, false, if◌then◌else◌, List, [], ◌∷◌, Option, none, some, drop, filter,
}
use tstorage.Rows.{DataPoint, Label}
use tstorage.Wal.{Wal}
use tstorage.MemoryPartition.{MemoryPartition}
use tstorage.DiskPartition.{DiskPartition, Meta, Directory, OpenResult, open_disk_partition}
use tstorage.DiskPartition.{no_dir_path, invalid_partition, no_points, open_failed, opened}
use tstorage.Flush.{flush_partition}
use tstorage.Partition.{Partition, memory, disk, is_expired, same_partitions, clean}
use tstorage.PartitionList.{PartitionList, ListError, remove, swap, to_list}
use tstorage.Storage.{
  Storage, StorageError, panicked, wal_failed, flush_failed, reopen_failed, list_failed,
}
use tstorage.Storage.{in_memory_mode, new_partition, writable_partitions_num}

-- What the storage is given by the operating system and the libraries: sort.Slice by timestamp,
-- whether the data file takes bytes, the path of a partition under the data path by its two
-- timestamps, whether a directory and the data file in it can be made, whether a string is valid
-- UTF-8 (encoding/json replaces what is not), whether json.Marshal encodes
-- the contents of a meta file and os.WriteFile writes its text, what openDiskPartition finds in a
-- directory with the two files (the text of the meta file is decoded there), the mapping of a file,
-- whether a directory can be removed, and the time.
pub record System : Type 0 where
  pub sort : List DataPoint → List DataPoint
  pub write : List ℕ → Bool
  pub partition_path : List ℕ → ℕ → ℕ → List ℕ
  pub make_dir : List ℕ → Bool
  pub create : List ℕ → Bool
  pub is_text : List ℕ → Bool
  pub marshal : Meta → Bool
  pub write_meta : List ℕ → Meta → Bool
  pub found : List ℕ → List ℕ × Meta → Directory
  pub mmap : List ℕ → Option (List ℕ)
  pub remove_dir : DiskPartition → Bool
  pub now : ℕ

module _ (sys : System) where
  -- The meta file is written last.
  abbrev pub meta_written : List ℕ → List ℕ × Meta → Option Directory
  meta_written dir files =
      if sys.marshal files.1
      then (if sys.write_meta dir files.1 then some (sys.found dir files) else none)
      else none

  -- `flush`: the directory with the two files, or none for an error.
  unfoldable pub flush_into : List ℕ → MemoryPartition → Option Directory
  flush_into [] m = none
  flush_into (c ∷ path) m =
      if sys.make_dir (c ∷ path)
      then (if sys.create (c ∷ path)
          then (meta_written (c ∷ path) (flush_partition sys.sort sys.write sys.now m))
          else none)
      else none

module _ {W : Type 0} where
  abbrev pub and_then :
      Option StorageError × Storage W
      → (Storage W → Option StorageError × Storage W)
      → Option StorageError × Storage W
  and_then (some e, s) next = (some e, s)
  and_then (none, s) next = next s

  abbrev pub logged : Storage W → Bool × W → Option StorageError × Storage W
  logged s (true, w) = (none, record s { wal = w })
  logged s (false, w) = (some wal_failed, record s { wal = w })

  abbrev pub relisted :
      Storage W → Option ListError × PartitionList Partition → Option StorageError × Storage W
  relisted s (none, l) = (none, record s { partition_list = l })
  relisted s (some e, l) = (some (list_failed e), record s { partition_list = l })

module _ {W : Type 0} (log : Wal W) (sys : System) where
  abbrev pub remove_part : Storage W → Partition → Option StorageError × Storage W
  remove_part s p = relisted s (remove same_partitions (clean sys.remove_dir) s.partition_list p)

  abbrev pub swap_part : Storage W → Partition → Partition → Option StorageError × Storage W
  swap_part s p q =
      and_then (relisted s (swap same_partitions s.partition_list p q))
        (λ s'. logged s' (log.remove_oldest s'.wal))

  abbrev pub reopened : Storage W → MemoryPartition → OpenResult → Option StorageError × Storage W
  reopened s m no_dir_path = (some reopen_failed, s)
  reopened s m invalid_partition = (some reopen_failed, s)
  reopened s m open_failed = (some reopen_failed, s)
  reopened s m no_points = remove_part s (memory m)
  reopened s m (opened d) = swap_part s (memory m) (disk d)

  abbrev pub stored_part :
      Storage W → MemoryPartition → Option Directory → Option StorageError × Storage W
  stored_part s m none = (some flush_failed, s)
  stored_part s m (some dir) = reopened s m (open_disk_partition sys.mmap dir s.settings.retention)

  -- The body of the loop of `flushPartitions` behind the first partitions.
  unfoldable pub flush_part : Storage W → Partition → Option StorageError × Storage W
  flush_part s (disk d) = (none, s)
  flush_part s (memory m) =
      if in_memory_mode s.settings
      then remove_part s (memory m)
      else stored_part s m
          (flush_into sys (sys.partition_path s.settings.data_path m.min_t m.max_t) m)

  unfoldable pub flush_parts : List Partition → Storage W → Option StorageError × Storage W
  flush_parts [] s = (none, s)
  flush_parts (p ∷ ps) s = and_then (flush_part s p) (λ s'. flush_parts ps s')

  unfoldable pub flush_partitions : Storage W → Option StorageError × Storage W
  flush_partitions s = flush_parts (drop writable_partitions_num (to_list s.partition_list)) s

  unfoldable pub remove_parts : List Partition → Storage W → Option StorageError × Storage W
  remove_parts [] s = (none, s)
  remove_parts (p ∷ ps) s = and_then (remove_part s p) (λ s'. remove_parts ps s')

  unfoldable pub remove_expired_partitions : Storage W → Option StorageError × Storage W
  remove_expired_partitions s =
      remove_parts (filter (is_expired sys.now) (to_list s.partition_list)) s

  -- `Close`, when no writer is at work. close(doneCh) panics when the channel is closed already.
  unfoldable pub close :
      (List ℕ → List Label → List ℕ) → Storage W → Option StorageError × Storage W
  close name_of s =
      let add : Storage W → Option StorageError × Storage W =
        λ s'. new_partition log name_of s' none true in
      let s₀ : Storage W = record s { closed = true } in
      let flushed = and_then (and_then (logged s₀ (log.flush s₀.wal)) add) add in
      let done : Option StorageError × Storage W =
        and_then (and_then (and_then flushed flush_partitions) remove_expired_partitions)
          (λ s'. logged s' (log.remove_all s'.wal)) in
      if s.closed then (some panicked, s) else done
