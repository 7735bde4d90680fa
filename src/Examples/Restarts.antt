-- ===== src/Examples/Restarts.antt =====
-- Rows that live through a crash or a flush.
use mathlib.Core.List.{Perm}
use tstorage.Base.{
  ℕ, ◌*◌, ◌+◌, ◌≤◌, ◌≡◌, refl, Bool, true, inr, List, [], ◌∷◌, some, length, All, IsOrdered, filter,
  arith,
}
use tstorage.Words.{biased}
use tstorage.Rows.{Row, Label, DataPoint}
use tstorage.Label.{marshal_metric_name}
use tstorage.Encoding.Decoder.RoundTrip.{IsEncodable}
use tstorage.Encoding.{new_encoder, encode_points}
use tstorage.Encoding.Bounds.{encode_points_bounds}
use tstorage.DiskWal.{DiskWal, disk_wal, new_disk_wal, then_next}
use tstorage.DiskWal.Reader.{read_all, read_segment}
use tstorage.DiskWal.Recovery.{run_steps}
use tstorage.DiskWal.Ends.{Reads, read_segment-Reads}
use tstorage.MemoryPartition.{MemoryPartition, insert_rows, inserted, set_min, load}
use tstorage.MemoryPartition.Insert.{IsValidPartition}
use tstorage.MemoryPartition.Contents.{
  contents, points_with, taken_points, Grown, insert_rows-Grown,
}
use tstorage.MemoryPartition.First.{named_points}
use tstorage.MemoryMetric.Encode.{IsUpTo}
use tstorage.DiskPartition.{
  DiskPartition, Directory, disk_select, selected, open_disk_partition, opened,
}
use tstorage.Storage.Upkeep.{flush_into}
use tstorage.DiskPartition.Select.{in_range}
use tstorage.Storage.Filed.{insert_rows-flush_into}
use tstorage.Partition.{memory, disk}
use tstorage.PartitionList.Changes.{Holds}
use tstorage.Storage.{Storage, in_memory_mode}
use tstorage.Storage.Fresh.{fresh_partition}
use tstorage.Storage.Opening.{with_data_path, Surroundings, new_storage, open_all, read_wal}
use tstorage.Storage.Restart.{new_storage-run_steps}
use tstorage.Examples.{all_encodable_lem, three_points}
use tstorage.Examples.Metric.{insertion_sort-Sorts}
use tstorage.Examples.Partitions.{plain_name, row}
use tstorage.Examples.Flushed.{one_metric}
use tstorage.Examples.Stores.{
  a_disk_partition, one_dir, roomy, sys, sys-IsReliable, late_clock, with_path,
  one_metric-IsValidPartition,
}
use tstorage.Examples.Logs.{unbuffered, unbuffered-IsWorking, two_rows, three_steps}

abbrev same_order : List Label → List Label
same_order labels = labels

abbrev named : List ℕ → List Label → List ℕ
named = marshal_metric_name same_order

-- The log before the crash, and the same opened again.
abbrev first_life : Bool × DiskWal
first_life = then_next (new_disk_wal unbuffered 4096 []) (run_steps named unbuffered three_steps)

abbrev second_life : Bool × DiskWal
second_life = new_disk_wal unbuffered 4096 first_life.1.segments

abbrev after_crash : Surroundings DiskWal
after_crash = record {
  data_dir_made = true;
  new_wal = λ n. some second_life.1;
  entries = some ((true, one_dir) ∷ []);
  walled = read_wal unbuffered.read_dir (some second_life.1.segments);
  sort = λ ps. ps;
  mmap = λ bytes. some bytes;
  capacity = roomy;
}

new_storage-run_steps_example :
    (s : Storage DiskWal) × (m : MemoryPartition) × (new_storage
        (disk_wal named unbuffered)
        named
        late_clock
        second_life.1
        (with_data_path (0x64 ∷ []) ∷ [])
        after_crash
      ≡ inr s)
    × Holds s.partition_list (
        memory (fresh_partition with_path)
        ∷ memory m
        ∷ disk (record a_disk_partition { retention = 1209600000000000 })
        ∷ [])
    × IsValidPartition m
    × (m.num_points ≡ 2)
    × ((q : List ℕ)
        → Perm
            (contents q m.metrics)
            (named_points named (late_clock 0) (λ rows. true) 0 two_rows q))
    × (read_all s.wal.segments ≡ some [])
new_storage-run_steps_example =
    new_storage-run_steps unbuffered unbuffered-IsWorking refl (λ segments n h le. refl) same_order
      late_clock (λ t i. unfold biased in omega arith) 4096 4096 three_steps (row 1000 7)
      (row 300 2 ∷ []) first_life.1 second_life.1 second_life.1 (with_data_path (0x64 ∷ []) ∷ [])
      after_crash (true, one_dir) []
      (disk (record a_disk_partition { retention = 1209600000000000 }) ∷ [])
      (record a_disk_partition { retention = 1209600000000000 } ∷ [])
      (unfold marshal_metric_name in
        (
          ((omega arith, omega arith), omega arith),
          (((omega arith, omega arith), omega arith), tt),
        ))
      (omega arith) refl refl refl (unfold in_memory_mode in refl) refl refl refl refl
      (unfold open_all in unfold open_disk_partition in refl) refl refl

encode_points_bounds_example :
    (2 * 3 ≤ 8 * length (encode_points new_encoder three_points).buf.stream)
    × (8 * length (encode_points new_encoder three_points).buf.stream ≤ 146 * 3 + 8)
encode_points_bounds_example = encode_points_bounds three_points

-- An operation that is not known, behind a record that is cut off.
read_segment-Reads_example :
    Reads
      (0 ∷ 1 ∷ 0x61 ∷ 2 ∷ 7 ∷ 9 ∷ [])
      (read_segment 7 (0 ∷ 1 ∷ 0x61 ∷ 2 ∷ 7 ∷ 9 ∷ [])).0
      (read_segment 7 (0 ∷ 1 ∷ 0x61 ∷ 2 ∷ 7 ∷ 9 ∷ [])).1
read_segment-Reads_example = read_segment-Reads (0 ∷ 1 ∷ 0x61 ∷ 2 ∷ 7 ∷ 9 ∷ [])

abbrev now : ℕ → ℕ
now i = 1700

abbrev takes_all : List Row → Bool
takes_all rows = true

insert_rows-Grown_example :
    (outdated : List Row) × (p' : MemoryPartition) × (insert_rows plain_name now takes_all
        one_metric
        (row 1030 7 ∷ row 1020 2 ∷ [])
      ≡ inserted outdated p')
    × (p'.min_t ≡ (set_min one_metric (row 1030 7) (row 1020 2 ∷ [])).min_t)
    × Grown
        (taken_points plain_name now takes_all
          (set_min one_metric (row 1030 7) (row 1020 2 ∷ [])).min_t
          0
          (row 1030 7 ∷ row 1020 2 ∷ []))
        one_metric.metrics
        p'.metrics
insert_rows-Grown_example =
    insert_rows-Grown plain_name now takes_all one_metric (row 1030 7) (row 1020 2 ∷ [])
      one_metric-IsValidPartition.metrics one_metric-IsValidPartition.named refl

seven-IsEncodable :
    All IsEncodable
      (points_with plain_name now takes_all one_metric (row 1030 7) (row 1020 2 ∷ []) (0x61 ∷ []))
unfolding set_min load biased
seven-IsEncodable =
    all_encodable_lem
      (points_with plain_name now takes_all one_metric (row 1030 7) (row 1020 2 ∷ []) (0x61 ∷ []))
      refl

insert_rows-flush_into_example :
    (outdated : List Row) × (p' : MemoryPartition) × (dir : Directory) × (d : DiskPartition)
    × (ps : List DataPoint) × (insert_rows plain_name now takes_all one_metric
          (row 1030 7 ∷ row 1020 2 ∷ [])
        ≡ inserted outdated p')
    × (flush_into sys (0x70 ∷ 0x64 ∷ []) p' ≡ some dir)
    × (open_disk_partition sys.mmap dir 60 ≡ opened d)
    × (disk_select plain_name 150 d (0x61 ∷ []) [] 1000 1025
        ≡ selected (filter (in_range 1000 1025) ps))
    × IsOrdered IsUpTo ps
    × Perm ps
        (points_with plain_name now takes_all one_metric (row 1030 7) (row 1020 2 ∷ []) (0x61 ∷ []))
unfolding load
insert_rows-flush_into_example =
    insert_rows-flush_into sys sys-IsReliable insertion_sort-Sorts (λ xs. refl) plain_name now
      takes_all one_metric (row 1030 7) (row 1020 2 ∷ []) (0x64 ∷ []) 60 150 (0x61 ∷ []) [] 1000
      1025 one_metric-IsValidPartition refl (refl, tt) (refl, (refl, tt)) (λ e. absurd (cc e))
      seven-IsEncodable (omega arith)
