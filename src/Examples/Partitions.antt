-- ===== src/Examples/Partitions.antt =====
-- Small partitions in memory and on disk.
use tstorage.Base.{ℕ, ◌+◌, ◌≤◌, ◌≡◌, refl, Bool, true, List, [], ◌∷◌, ◌++◌}
use tstorage.Base.{arith, filter, length, IsOrdered}
use tstorage.Words.{biased}
use tstorage.Rows.{Label, Row}
use tstorage.Encoding.{new_encoder, encode_points}
use tstorage.MemoryMetric.Encode.{IsUpTo}
use tstorage.MemoryPartition.{MemoryPartition, seconds, insert_rows, inserted}
use tstorage.MemoryPartition.{new_memory_partition, select_data_points, load}
use tstorage.MemoryPartition.Query.{select_data_points-IsValidPartition}
use tstorage.MemoryPartition.Valid.{stored}
use tstorage.MemoryMetric.{MemoryMetric}
use tstorage.MemoryMetric.Select.{in_places, upper}
use tstorage.Base.{some}
use tstorage.MemoryPartition.Insert.{
  new_memory_partition-IsValidPartition, IsValidPartition, insert_rows-IsValidPartition,
  is_outdated,
}
use tstorage.DiskPartition.{DiskMetric, DiskPartition, disk_select, selected, expired, find_metric}
use tstorage.DiskPartition.Select.{in_range, disk_select_lem}
use tstorage.Examples.{point, three_points, three-IsEncodable}

-- The partitions.
abbrev pub plain_name : List ℕ → List Label → List ℕ
plain_name metric labels = metric

abbrev steady_clock : ℕ → ℕ
steady_clock i = 1700

steady_clock-after : (i : ℕ) → biased 0 ≤ biased (steady_clock i)
unfolding biased
steady_clock-after i = omega arith

abbrev taken : List Row → Bool
taken rows = true

abbrev pub row : ℕ → ℕ → Row
row t v = record { metric = 0x61 ∷ []; labels = []; point = point t v }

abbrev new_partition : MemoryPartition
new_partition = new_memory_partition 3600000000000 seconds

new_partition-IsValidPartition : IsValidPartition new_partition
new_partition-IsValidPartition = new_memory_partition-IsValidPartition 3600000000000 seconds

select_data_points-IsValidPartition_example :
    (m : MemoryMetric) × (p' : MemoryPartition) × (select_data_points plain_name steady_clock taken
        new_partition
        (0x61 ∷ [])
        []
        1000
        1025
      ≡ (some (filter (in_places (biased 1000) (upper m 1025)) m.points), p'))
    × (load (0x61 ∷ []) p'.metrics ≡ some m)
    × (stored p'.metrics ≡ stored new_partition.metrics)
    × IsValidPartition p'
select_data_points-IsValidPartition_example =
    select_data_points-IsValidPartition plain_name steady_clock taken new_partition (0x61 ∷ []) []
      1000 1025 new_partition-IsValidPartition (unfold biased in omega arith)

insert_rows-IsValidPartition_example :
    (outdated : List Row) × (p' : MemoryPartition) × (insert_rows plain_name steady_clock taken
        new_partition
        (row 1010 7 ∷ row 1000 2 ∷ [])
      ≡ inserted outdated p')
    × IsValidPartition p'
    × (outdated ≡ filter (is_outdated p'.min_t) (row 1010 7 ∷ row 1000 2 ∷ []))
    × (p'.num_points + length outdated ≡ new_partition.num_points + 2)
insert_rows-IsValidPartition_example =
    insert_rows-IsValidPartition plain_name steady_clock taken steady_clock-after new_partition
      (row 1010 7) (row 1000 2 ∷ []) new_partition-IsValidPartition refl

abbrev a_disk_metric : DiskMetric
a_disk_metric = record {
  name = 0x61 ∷ [];
  offset = 2;
  min_timestamp = 1000;
  max_timestamp = 1025;
  num_data_points = 3;
}

abbrev a_disk_partition : DiskPartition
a_disk_partition = record {
  meta = record {
    min_timestamp = 1000;
    max_timestamp = 1025;
    num_data_points = 3;
    metrics = (0x61 ∷ [], a_disk_metric) ∷ [];
    created_at = 5;
  };
  mapped_file = 1 ∷ 2 ∷ (encode_points new_encoder three_points).buf.stream ++ 3 ∷ [];
  retention = 100;
}

three-IsOrdered : IsOrdered IsUpTo three_points
unfolding biased
three-IsOrdered = ((omega arith, (omega arith, tt)), ((omega arith, tt), (tt, tt)))

disk_select_lem_example :
    disk_select plain_name 50 a_disk_partition (0x61 ∷ []) [] 1000 1025
    ≡ selected (filter (in_range 1000 1025) three_points)
unfolding expired find_metric
disk_select_lem_example =
    disk_select_lem plain_name 50 a_disk_partition (0x61 ∷ []) [] 1000 1025 a_disk_metric
      three_points (1 ∷ 2 ∷ []) (3 ∷ []) refl refl refl refl refl three-IsEncodable three-IsOrdered
      (omega arith, tt)
