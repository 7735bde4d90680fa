-- ===== src/Examples/Closing.antt =====
-- A storage in memory whose partitions are put on disk, and what is read back.
use mathlib.Core.List.{Perm}
use tstorage.Base.{false}
use tstorage.Base.{ℕ, ◌≡◌, refl, ap, List, [], ◌∷◌, ◌++◌, none, map, All, IsOrdered, length, arith}
use tstorage.Words.{biased}
use tstorage.MemoryMetric.Encode.{merged, IsUpTo}
use tstorage.MemoryPartition.{MemoryPartition, load, new_memory_partition}
use tstorage.MemoryPartition.Insert.{IsValidPartition}
use tstorage.MemoryPartition.Contents.{contents}
use tstorage.Flush.Ranges.{encoded_points}
use tstorage.Partition.{Partition, memory}
use tstorage.PartitionList.{PartitionList, new_partition_list, insert}
use tstorage.PartitionList.Changes.{Holds}
use tstorage.PartitionList.Refines.{new-Holds, insert_lem}
use tstorage.Storage.{Storage, so_far, select_result, select, in_memory_mode}
use tstorage.Storage.Windows.{all_points, IsBehind}
use tstorage.Storage.Upkeep.{flush_partitions, close}
use tstorage.Storage.Retire.{Differ}
use tstorage.Storage.Told.{flushed_points, IsReadable}
use tstorage.Storage.Durable.{flush_partitions-select, close-select}
use tstorage.Examples.{all_encodable_lem}
use tstorage.Examples.Metric.{insertion_sort, insertion_sort-Sorts}
use tstorage.Examples.Partitions.{plain_name}
use tstorage.Examples.Flushed.{one_metric}
use tstorage.Examples.Stores.{
  nop, sys, roomy, older, with_path, sys-IsReliable, one_metric-IsValidPartition,
  older-IsValidPartition,
}
use tstorage.Examples.Runs.{nop-NeverFails}

abbrev later : ℕ → MemoryPartition
later t = record older { min_t = t; max_t = t }

later-IsValidPartition : (t : ℕ) → IsValidPartition (later t)
later-IsValidPartition t = record {
  metrics = tt;
  named = record { keys = tt; distinct = tt };
  counted = refl;
  within = tt;
  fresh = λ e. refl;
}

abbrev parts : List MemoryPartition
parts = later 3000 ∷ later 2000 ∷ one_metric ∷ older ∷ []

abbrev part_list : PartitionList Partition
part_list =
    insert
      (insert (insert (insert new_partition_list (memory older)) (memory one_metric))
        (memory (later 2000)))
      (memory (later 3000))

parts-Holds : Holds part_list (map memory parts)
parts-Holds =
    insert_lem _ (memory (later 2000) ∷ memory one_metric ∷ memory older ∷ []) (memory (later 3000))
      (insert_lem _ (memory one_metric ∷ memory older ∷ []) (memory (later 2000)) (
        insert_lem _ (memory older ∷ []) (memory one_metric)
          (insert_lem new_partition_list [] (memory older) new-Holds)))

abbrev store : Storage Unit
store = record {
  partition_list = part_list;
  wal = tt;
  settings = with_path;
  pending_flushes = 0;
  capacity = roomy;
  closed = false;
}

parts-IsValid : All IsValidPartition parts
parts-IsValid = (
  later-IsValidPartition 3000,
  (later-IsValidPartition 2000, (one_metric-IsValidPartition, (older-IsValidPartition, tt))),
)

parts-IsBehind : IsOrdered IsBehind parts
unfolding biased
parts-IsBehind = (
  (
    λ e. (omega arith, omega arith),
    (λ e. (omega arith, omega arith), (λ e. (omega arith, omega arith), tt)),
  ),
  (
    (λ e. (omega arith, omega arith), (λ e. (omega arith, omega arith), tt)),
    ((λ e. (omega arith, omega arith), tt), (tt, tt)),
  ),
)

parts-Differ : IsOrdered Differ (map memory parts)
parts-Differ = ((refl, (refl, (refl, tt))), ((refl, (refl, tt)), ((refl, tt), (tt, tt))))

read_back : IsReadable plain_name 50 (0x61 ∷ []) [] 1000 1020 sys one_metric
unfolding merged load biased
read_back =
    all_encodable_lem (encoded_points insertion_sort (load (0x61 ∷ []) one_metric.metrics)) refl

flush_partitions-select_example :
    (s' : Storage Unit) × (flush_partitions nop sys store ≡ (none, s'))
    × ((select plain_name 50 s' (0x61 ∷ []) [] 1000 1020).0
        ≡ select_result (
            so_far (
              flushed_points (0x61 ∷ []) 1000 1020 sys 1209600000000000 (one_metric ∷ older ∷ [])
              ++ all_points (0x61 ∷ []) 1000 1020 (later 3000 ∷ later 2000 ∷ []))))
flush_partitions-select_example =
    flush_partitions-select plain_name 50 (0x61 ∷ []) [] 1000 1020 nop sys sys-IsReliable
      insertion_sort-Sorts (λ xs. refl) store (unfold in_memory_mode in refl) (omega arith) parts
      parts-Holds parts-IsValid parts-IsBehind parts-Differ
      (λ e. absurd (omega (arith, ap length e))) (unfold biased in omega arith) (λ w. refl)
      ((refl, tt), (tt, tt)) (read_back, (unfold load in tt, tt))

close-select_example :
    (s' : Storage Unit) × (close nop sys plain_name store ≡ (none, s'))
    × ((select plain_name 50 s' (0x61 ∷ []) [] 1000 1020).0
        ≡ select_result (so_far (flushed_points (0x61 ∷ []) 1000 1020 sys 1209600000000000 parts)))
    × All
        (λ m.
          IsOrdered IsUpTo (encoded_points insertion_sort (load (0x61 ∷ []) m.metrics))
          × Perm
              (encoded_points insertion_sort (load (0x61 ∷ []) m.metrics))
              (contents (0x61 ∷ []) m.metrics))
        parts
close-select_example =
    close-select plain_name 50 (0x61 ∷ []) [] 1000 1020 nop sys sys-IsReliable insertion_sort-Sorts
      (λ xs. refl) store (unfold in_memory_mode in refl) (omega arith) parts parts-Holds
      parts-IsValid parts-IsBehind parts-Differ (λ e. absurd (omega (arith, ap length e)))
      (unfold biased in omega arith) nop-NeverFails refl (tt, (tt, ((refl, tt), (tt, tt))))
      (unfold new_memory_partition in (refl, (refl, (refl, (refl, tt)))))
      (unfold load in tt, (unfold load in tt, (read_back, (unfold load in tt, tt))))
