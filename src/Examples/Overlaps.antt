-- ===== src/Examples/Overlaps.antt =====
-- Tests of the appends of `Select` in storage.go.
use tstorage.Base.{List, [], ◌∷◌, ◌≡◌, refl, map, arith}
use tstorage.Words.{biased}
use tstorage.MemoryMetric.{MemoryMetric}
use tstorage.MemoryMetric.Valid.{IsValid}
use tstorage.MemoryPartition.{MemoryPartition}
use tstorage.MemoryPartition.Insert.{IsValidPartition}
use tstorage.Partition.{memory}
use tstorage.PartitionList.{new_partition_list, insert}
use tstorage.PartitionList.Changes.{Holds}
use tstorage.PartitionList.Refines.{new-Holds, insert_lem}
use tstorage.Storage.{Storage, select, overwritten}
use tstorage.Storage.Unwritten.{select-AreKept, AreKept}
use tstorage.Examples.{point}
use tstorage.Examples.Metric.{a_metric}
use tstorage.Examples.Partitions.{plain_name}
use tstorage.Examples.Flushed.{one_metric}
use tstorage.Examples.Stores.{two, one_metric-IsValidPartition}

-- The same metric at earlier times.
abbrev earlier_metric : MemoryMetric
earlier_metric = record a_metric {
  size = 2;
  min_timestamp = 500;
  max_timestamp = 600;
  points = point 500 1 ∷ point 600 2 ∷ [];
  out_of_order_points = [];
}

abbrev earlier : MemoryPartition
earlier = record one_metric {
  num_points = 2;
  min_t = 500;
  max_t = 600;
  metrics = (0x61 ∷ [], earlier_metric) ∷ [];
}

earlier_metric-IsValid : IsValid earlier_metric
unfolding biased
earlier_metric-IsValid = record {
  size = refl;
  ordered = ((omega arith, tt), (tt, tt));
  within = ((omega arith, omega arith), ((omega arith, omega arith), tt));
  spans = omega arith;
  ends = λ h. (point 500 1 ∷ [], point 600 2, refl, refl);
}

earlier-IsValidPartition : IsValidPartition earlier
unfolding biased
earlier-IsValidPartition = record {
  metrics = (earlier_metric-IsValid, tt);
  named = record { keys = (refl, tt); distinct = (tt, tt) };
  counted = refl;
  within = ((omega arith, omega arith), ((omega arith, omega arith), tt));
  fresh = λ e. absurd (ground (arith, e));
}

-- Two newer points are written over the last of an older array that has room.
overlap :
    (overwritten 8 1 (point 510 7 ∷ point 520 7 ∷ []) earlier_metric).points
    ≡ point 500 1 ∷ point 510 7 ∷ []
overlap = refl

abbrev both : Storage Unit
both = record two {
  partition_list = insert (insert new_partition_list (memory earlier)) (memory one_metric);
}

both-Holds : Holds both.partition_list (memory one_metric ∷ memory earlier ∷ [])
both-Holds =
    insert_lem (insert new_partition_list (memory earlier)) (memory earlier ∷ [])
      (memory one_metric) (insert_lem new_partition_list [] (memory earlier) new-Holds)

select-AreKept_example :
    (ms' : List MemoryPartition) × Holds
      (select plain_name 0 both (0x61 ∷ []) [] 500 1020).1.partition_list
      (map memory ms')
    × AreKept (one_metric ∷ earlier ∷ []) ms'
select-AreKept_example =
    select-AreKept plain_name 0 both (one_metric ∷ earlier ∷ []) (0x61 ∷ []) [] 500 1020 both-Holds
      (one_metric-IsValidPartition, (earlier-IsValidPartition, tt))
      ((unfold biased in λ e. (omega arith, omega arith), tt), (tt, tt))
