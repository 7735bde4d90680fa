-- ===== src/Storage/Ordered.antt =====
-- `Select` when the partitions are in memory and lie behind each other: nothing is left out.
use tstorage.MemoryPartition.{MemoryPartition}
use tstorage.Storage.{Storage}
