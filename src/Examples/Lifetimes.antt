-- ===== src/Examples/Lifetimes.antt =====
-- Rows from their insertion to the storage that is opened behind `Close`.
use mathlib.Core.List.{Perm}
use mathlib.Core.List.Perm
use tstorage.Base.{
  ℕ, ◌≡◌, refl, ap, true, false, if◌then◌else◌, List, [], ◌∷◌, none, some, map, IsOrdered, filter,
  length, arith,
}
use tstorage.Words.{biased, slt}
use tstorage.Rows.{DataPoint, Row}
use tstorage.MemoryMetric.Encode.{IsUpTo}
use tstorage.MemoryPartition.{new_memory_partition, lowest}
use tstorage.MemoryPartition.First.{named_points}
use tstorage.DiskPartition.{DiskPartition}
use tstorage.DiskPartition.Select.{in_range}
use tstorage.Partition.{Partition, memory, min_timestamp}
use tstorage.PartitionList.{new_partition_list, insert}
use tstorage.PartitionList.Changes.{Holds}
use tstorage.PartitionList.Refines.{new-Holds, insert_lem}
use tstorage.Storage.{Storage, so_far, select_result, select, in_memory_mode}
use tstorage.Storage
use tstorage.Storage.Upkeep.{close}
use tstorage.Storage.Fresh.{fresh_partition}
use tstorage.Storage.Opening.{Surroundings, recovered}
use tstorage.Storage.Lifetime.{insert_rows-close-select}
use tstorage.Storage.Reopened.{flushed_disks, directory_of}
use tstorage.Examples.{all_encodable_lem}
use tstorage.Examples.Metric.{insertion_sort-Sorts}
use tstorage.Examples.Partitions.{plain_name, row}
use tstorage.Examples.Stores.{
  nop, sys, roomy, late_clock, with_path, sys-IsReliable, one_dir, two, older,
}
use tstorage.Examples.Flushed.{one_metric}
use tstorage.Examples.Runs.{nop-NeverFails}

-- A storage as NewStorage leaves it, and three rows, the second of them late.
abbrev new_store : Storage Unit
new_store = record {
  partition_list = insert new_partition_list (memory (fresh_partition with_path));
  wal = tt;
  settings = with_path;
  pending_flushes = 0;
  capacity = roomy;
  closed = false;
}

new_store-Holds : Holds new_store.partition_list (memory (fresh_partition with_path) ∷ [])
new_store-Holds = insert_lem new_partition_list [] (memory (fresh_partition with_path)) new-Holds

abbrev late_rows : List Row
late_rows = row 900 2 ∷ row 1010 9 ∷ []

abbrev inserted_points : List DataPoint
inserted_points =
    named_points plain_name (late_clock 0) (λ rows. true) 0 (row 1000 7 ∷ late_rows) (0x61 ∷ [])

insert_rows-close-select_example :
    (s₁ : Storage Unit) × (s₂ : Storage Unit) × (ps : List DataPoint) × (Storage.insert_rows nop
        plain_name late_clock true new_store
        (row 1000 7 ∷ late_rows)
      ≡ (none, s₁))
    × (close nop sys plain_name s₁ ≡ (none, s₂))
    × ((select plain_name 50 s₂ (0x61 ∷ []) [] 900 1010).0
        ≡ select_result (so_far (filter (in_range 900 1010) ps)))
    × IsOrdered IsUpTo ps
    × Perm ps inserted_points
insert_rows-close-select_example =
    insert_rows-close-select nop (λ rs w. refl, λ w. refl) nop-NeverFails plain_name late_clock
      (λ t i. unfold biased in omega arith) sys sys-IsReliable insertion_sort-Sorts (λ xs. refl)
      new_store (row 1000 7) late_rows 50 (0x61 ∷ []) [] 900 1010 new_store-Holds
      (unfold new_memory_partition in omega arith) (unfold new_memory_partition in omega arith)
      (unfold in_memory_mode in refl) refl (refl, (refl, (refl, tt))) (unfold lowest biased in refl)
      (all_encodable_lem inserted_points refl) (λ e. absurd (omega (arith, ap length e)))
      (unfold biased in omega arith) (omega arith)

-- Partitions in the order of their min timestamps.
abbrev insert_part : Partition → List Partition → List Partition
insert_part p [] = p ∷ []
insert_part p (q ∷ qs) =
    let rest = insert_part p qs in
    if slt (min_timestamp p) (min_timestamp q) then p ∷ q ∷ qs else q ∷ rest

abbrev sort_parts : List Partition → List Partition
sort_parts [] = []
sort_parts (p ∷ ps) = insert_part p (sort_parts ps)

abbrev path_of : DiskPartition → List ℕ
path_of d = d.meta.min_timestamp ∷ []

abbrev store : Storage Unit
store = record two { settings = with_path }

abbrev disks : List DiskPartition
disks = flushed_disks sys 1209600000000000 (one_metric ∷ older ∷ [])

abbrev after_close : Surroundings Unit
after_close = record {
  data_dir_made = true;
  new_wal = λ n. some tt;
  entries = some ((false, one_dir) ∷ map (directory_of 0x70 path_of) disks);
  walled = recovered [];
  sort = sort_parts;
  mmap = λ bytes. some bytes;
  capacity = roomy;
}
