-- ===== src/Examples/Flushed.antt =====
-- A partition with one metric, flushed.
use tstorage.Base.{ℕ, Bool, true, List, [], ◌∷◌}
use tstorage.MemoryPartition.{MemoryPartition, seconds}
use tstorage.Examples.Metric.{a_metric}

abbrev pub one_metric : MemoryPartition
one_metric = record {
  num_points = 5;
  min_t = 1000;
  max_t = 1025;
  metrics = (0x61 ∷ [], a_metric) ∷ [];
  partition_duration = 3600;
  timestamp_precision = seconds;
  started = true;
}

abbrev pub always : List ℕ → Bool
always bytes = true
