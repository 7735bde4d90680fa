-- ===== src/Examples/Stores.antt =====
-- Small storages, in memory and with a data path.
use tstorage.Base.{
  ℕ, ◌*◌, ltb, ◌&&◌, Bool, false, ◌≡◌, refl, true, List, [], ◌∷◌, ◌++◌, Option, none, some, map,
  take, drop, IsOrdered, arith,
}
use tstorage.Words.{biased}
use tstorage.Wal.{Wal}
use tstorage.MemoryMetric.{MemoryMetric}
use tstorage.MemoryPartition.{MemoryPartition, new_memory_partition}
use tstorage.MemoryPartition.Insert.{IsValidPartition}
use tstorage.DiskPartition.{DiskPartition, Directory, expired}
use tstorage.Partition.{Partition, memory, disk, is_active}
use tstorage.PartitionList.{PartitionList, new_partition_list, insert}
use tstorage.PartitionList.Changes.{Holds}
use tstorage.PartitionList.Refines.{new-Holds, insert_lem}
use tstorage.Storage.{Storage, Settings, select_result, in_memory_mode, select, ensure_active_head}
use tstorage.Storage.Query.{select_lem, joined, answer_of, asked}
use tstorage.Storage.Upkeep.{System, flush_partitions, remove_expired_partitions}
use tstorage.Storage.Retire.{remove_expired_partitions_lem, flush_partitions-in_memory, Differ}
use tstorage.Storage.Persist.{flush_partitions_lem, persisted, IsReliable}
use tstorage.Storage.Heads.{ensure_active_head-is_active}
use tstorage.Storage.Opening.{default_settings, Surroundings, not_exist}
use tstorage.Examples.Metric.{a_metric-IsValid, insertion_sort}
use tstorage.Examples.Partitions.{plain_name}
use tstorage.Examples.Flushed.{one_metric, always}

pub one_metric-IsValidPartition : IsValidPartition one_metric
unfolding biased
one_metric-IsValidPartition = record {
  metrics = (a_metric-IsValid, tt);
  named = record { keys = (refl, tt); distinct = (tt, tt) };
  counted = refl;
  within = (
    (omega arith, omega arith),
    (
      (omega arith, omega arith),
      ((omega arith, omega arith), ((omega arith, omega arith), ((omega arith, omega arith), tt))),
    ),
  );
  fresh = λ e. absurd (ground (arith, e));
}

-- An older partition without a metric, whose range lies in front.
abbrev pub older : MemoryPartition
older = record one_metric { num_points = 0; min_t = 500; max_t = 600; metrics = [] }

pub older-IsValidPartition : IsValidPartition older
older-IsValidPartition = record {
  metrics = tt;
  named = record { keys = tt; distinct = tt };
  counted = refl;
  within = tt;
  fresh = λ e. refl;
}

abbrev pub oldest : MemoryPartition
oldest = record one_metric { num_points = 0; min_t = 100; max_t = 200; metrics = [] }

abbrev pub in_memory : Settings
in_memory = default_settings

abbrev pub with_path : Settings
with_path = record default_settings { data_path = 0x64 ∷ [] }

-- Arrays are twice as long as the points in them.
abbrev pub roomy : MemoryMetric → ℕ
roomy m = 2 * m.size

-- Two partitions in memory, with nopWAL.
abbrev pub two_list : PartitionList Partition
two_list = insert (insert new_partition_list (memory older)) (memory one_metric)

pub two-Holds : Holds two_list (memory one_metric ∷ memory older ∷ [])
two-Holds =
    insert_lem (insert new_partition_list (memory older)) (memory older ∷ []) (memory one_metric)
      (insert_lem new_partition_list [] (memory older) new-Holds)

abbrev pub two : Storage Unit
two = record {
  partition_list = two_list;
  wal = tt;
  settings = in_memory;
  pending_flushes = 0;
  capacity = roomy;
  closed = false;
}

abbrev pub nop : Wal Unit
nop = record {
  append = λ rows w. (true, w);
  flush = λ w. (true, w);
  punctuate = λ w. (true, w);
  remove_oldest = λ w. (true, w);
  remove_all = λ w. (true, w);
  refresh = λ w. (true, w);
}

select_lem_example :
    (select plain_name 0 two (0x61 ∷ []) [] 1000 1020).0
    ≡ select_result (
        joined (
          map
            (answer_of plain_name 0 (0x61 ∷ []) [] 1000 1020)
            (asked 1000 1020 (memory one_metric ∷ memory older ∷ []))))
unfolding biased
select_lem_example =
    select_lem plain_name 0 two (memory one_metric ∷ memory older ∷ []) (0x61 ∷ []) [] 1000 1020
      two-Holds

abbrev pub late_clock : ℕ → ℕ → ℕ
late_clock t i = 1700

ensure_active_head-is_active_example :
    (s' : Storage Unit) × (p : Partition) × (rest : List Partition) × (ensure_active_head nop
        plain_name two
      ≡ (none, s'))
    × Holds s'.partition_list (p ∷ rest)
    × (is_active p ≡ true)
ensure_active_head-is_active_example =
    ensure_active_head-is_active nop plain_name two (memory one_metric ∷ memory older ∷ [])
      two-Holds refl (unfold new_memory_partition in omega arith)
      (unfold new_memory_partition in omega arith)

-- A third partition, on disk, made at time 0.
abbrev pub a_disk_partition : DiskPartition
a_disk_partition = record {
  meta = record {
    min_timestamp = 10;
    max_timestamp = 20;
    num_data_points = 0;
    metrics = [];
    created_at = 0;
  };
  mapped_file = 0 ∷ [];
  retention = 60;
}

abbrev pub four : List Partition
four = memory one_metric ∷ memory older ∷ disk a_disk_partition ∷ memory oldest ∷ []

abbrev pub four_list : PartitionList Partition
four_list =
    insert
      (insert (insert (insert new_partition_list (memory oldest)) (disk a_disk_partition))
        (memory older))
      (memory one_metric)

pub four-Holds : Holds four_list four
four-Holds =
    insert_lem _ (memory older ∷ disk a_disk_partition ∷ memory oldest ∷ []) (memory one_metric) (
      insert_lem _ (disk a_disk_partition ∷ memory oldest ∷ []) (memory older) (
        insert_lem _ (memory oldest ∷ []) (disk a_disk_partition)
          (insert_lem new_partition_list [] (memory oldest) new-Holds)))

pub four-Differ : IsOrdered Differ four
four-Differ = ((refl, (refl, (refl, tt))), ((refl, (refl, tt)), ((refl, tt), (tt, tt))))

abbrev pub four_of : Settings → Storage Unit
four_of o = record {
  partition_list = four_list;
  wal = tt;
  settings = o;
  pending_flushes = 0;
  capacity = roomy;
  closed = false;
}

-- A string of ASCII bytes is valid UTF-8.
abbrev pub is_ascii : List ℕ → Bool
is_ascii [] = true
is_ascii (b ∷ bytes) = let rest = is_ascii bytes in ltb b 128 && rest

-- A system that keeps its promises, a hundred nanoseconds after the epoch.
abbrev pub sys : System
sys = record {
  sort = insertion_sort;
  write = always;
  partition_path = λ path lo hi. 0x70 ∷ path;
  make_dir = λ path. true;
  create = λ path. true;
  is_text = is_ascii;
  marshal = λ meta. true;
  write_meta = λ path meta. true;
  found = λ path files. record {
    path = path;
    has_meta = true;
    data_file = some files.0;
    meta_file = some files.1;
  };
  mmap = λ bytes. some bytes;
  remove_dir = λ d. true;
  now = 100;
}

pub sys-IsReliable : IsReliable sys
sys-IsReliable = record {
  names = λ path lo hi. (0x70, path, refl);
  makes = λ path. refl;
  creates = λ path. refl;
  marshals = λ meta. refl;
  writes = λ path meta. refl;
  finds = λ path files text. refl;
  maps = λ bytes. refl;
  cleans = λ d. refl;
}

remove_expired_partitions_lem_example :
    (s' : Storage Unit) × (remove_expired_partitions nop sys (four_of in_memory) ≡ (none, s'))
    × Holds s'.partition_list (memory one_metric ∷ memory older ∷ memory oldest ∷ [])
unfolding expired
remove_expired_partitions_lem_example =
    remove_expired_partitions_lem nop sys (λ d. refl) (four_of in_memory) four four-Holds
      four-Differ

flush_partitions-in_memory_example :
    (s' : Storage Unit) × (flush_partitions nop sys (four_of in_memory) ≡ (none, s'))
    × Holds s'.partition_list (memory one_metric ∷ memory older ∷ disk a_disk_partition ∷ [])
flush_partitions-in_memory_example =
    flush_partitions-in_memory nop sys (λ d. refl) (four_of in_memory) four four-Holds four-Differ
      (unfold in_memory_mode in refl)

flush_partitions_lem_example :
    (s' : Storage Unit) × (flush_partitions nop sys (four_of with_path) ≡ (none, s'))
    × Holds s'.partition_list (take 2 four ++ persisted sys 1209600000000000 (drop 2 four))
flush_partitions_lem_example =
    flush_partitions_lem nop sys sys-IsReliable (λ w. refl) (four_of with_path) four four-Holds
      four-Differ (unfold in_memory_mode in refl) (tt, (tt, tt))

-- A data directory with the directory of one partition.
abbrev pub one_dir : Directory
one_dir = record {
  path = 0x70 ∷ [];
  has_meta = true;
  data_file = some (0 ∷ []);
  meta_file = some a_disk_partition.meta;
}

abbrev a_directory : Surroundings (Option Unit)
a_directory = record {
  data_dir_made = true;
  new_wal = λ n. some (some tt);
  entries = some ((true, one_dir) ∷ []);
  walled = not_exist;
  sort = λ ps. ps;
  mmap = λ bytes. some bytes;
  capacity = roomy;
}
