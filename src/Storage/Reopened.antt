-- ===== src/Storage/Reopened.antt =====
-- `NewStorage` on the directory that `Close` leaves.
use tstorage.Base.{ℕ, ◌≡◌, ◌≢◌, Bool, true}
use tstorage.Base.{List, [], ◌∷◌, ◌++◌}
use tstorage.Wal.{Wal}
use tstorage.MemoryPartition.{MemoryPartition}
use tstorage.DiskPartition.{DiskPartition, Directory, Meta}
use tstorage.Flush.{flush_partition}
use tstorage.Partition.{Partition}
use tstorage.Storage.{Storage}
use tstorage.Storage.Upkeep.{System}
use tstorage.Storage.Persist.{with_files}

-- The partitions on disk of what `flush` writes.
abbrev pub files_disk : ℕ → List ℕ × Meta → List DiskPartition
files_disk retention ([], meta) = []
files_disk retention (b ∷ bytes, meta) =
    record { meta = meta; mapped_file = b ∷ bytes; retention = retention } ∷ []

abbrev pub flushed_disks : System → ℕ → List MemoryPartition → List DiskPartition
flushed_disks sys retention [] = []
flushed_disks sys retention (m ∷ ms) =
    files_disk retention (flush_partition sys.sort sys.write sys.now m)
    ++ flushed_disks sys retention ms

-- The directory with the files of a partition.
abbrev pub directory_of : ℕ → (DiskPartition → List ℕ) → DiskPartition → Bool × Directory
directory_of c path d = (true, with_files (c ∷ path d) (d.mapped_file, d.meta))

abbrev CanOpen : ℕ → DiskPartition → Type 0
CanOpen retention d = (d.mapped_file ≢ []) × (d.retention ≡ retention)
