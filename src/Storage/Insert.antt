-- ===== src/Storage/Insert.antt =====
-- `InsertRows` on a storage whose partitions are in memory.
use tstorage.Base.{ℕ, ◌+◌, ◌≤◌, ◌≡◌, sym, ap, ◌∙◌, true, if◌then◌else◌}
use tstorage.Base.{List, [], ◌∷◌, none, length, length-map, map, filter, take, All}
use tstorage.Words.{biased}
use tstorage.Rows.{Row, Label}
use tstorage.Wal.{Wal}
use tstorage.MemoryPartition.{MemoryPartition, active}
use tstorage.MemoryPartition.Insert.{IsValidPartition, is_outdated}
use tstorage.Partition.{memory, took, insert_into}
use tstorage.PartitionList.{PartitionList}
use tstorage.PartitionList.Changes.{Holds}
use tstorage.PartitionList.Each.{each_item}
use tstorage.Storage.{Storage, Settings, Inserting, insert_turn}
use tstorage.Storage.Fresh.{fresh_partition}

-- A log that never fails, and a clock that is not before the epoch.
abbrev pub AlwaysTakes : {W : Type 0} → Wal W → Type 0
AlwaysTakes {W = W} log =
    ((rs : List Row) (w : W) → (log.append rs w).0 ≡ true) × ((w : W) → (log.punctuate w).0 ≡ true)

abbrev pub AfterEpoch : (ℕ → ℕ → ℕ) → Type 0
AfterEpoch clock = (t i : ℕ) → biased 0 ≤ biased (clock t i)

-- How many points the partitions count.
abbrev pub total : List MemoryPartition → ℕ
total [] = 0
total (m ∷ ms) = m.num_points + total ms

-- The rows that are outdated for all of the partitions.
abbrev pub left_over : List MemoryPartition → List Row → List Row
left_over [] rows = rows
left_over (m ∷ ms) rows = left_over ms (filter (is_outdated m.min_t) rows)

module _ {W : Type 0} (log : Wal W) (name_of : List ℕ → List Label → List ℕ) (clock : ℕ → ℕ → ℕ)
    (takes : AlwaysTakes log) (after_epoch : AfterEpoch clock) where
  -- One partition takes the rows that are not outdated.
  record Takes (t : ℕ) (w : W) (m : MemoryPartition) (rows : List Row) : Type 0 where
    rest : List Row
    after : MemoryPartition
    wal : W
    gives : insert_into log name_of (clock t) w (memory m) rows ≡ ((took rest, memory after), wal)
    valid : IsValidPartition after
    outdated : rest ≡ filter (is_outdated after.min_t) rows
    counted : after.num_points + length rest ≡ m.num_points + length rows

  abbrev going : ℕ → List Row → W → Inserting W
  going k rows w = record { turn = k; rows = rows; wal = w; error = none }

  -- The loop on the partitions that are left, of which it tries `tries`.
  record Inserts (n tries : ℕ) (ms : List MemoryPartition) (k : ℕ) (rows : List Row) (w : W)
      : Type 0 where
    parts : List MemoryPartition
    state : Inserting W
    gives :
        each_item (insert_turn log name_of clock n) (map memory ms) (going k rows w)
        ≡ (state, map memory parts)
    fine : state.error ≡ none
    valid : All IsValidPartition parts
    dropped : state.rows ≡ left_over (take tries parts) rows
    counted : total parts + length state.rows ≡ total ms + length rows

-- The same, in memory.
abbrev pub headed_memory : Settings → List MemoryPartition → List MemoryPartition
headed_memory o [] = fresh_partition o ∷ []
headed_memory o (m ∷ ms) = if active m then m ∷ ms else fresh_partition o ∷ m ∷ ms

pub Holds-size :
    {P : Type 0} (l : PartitionList P) (ps : List P) → Holds l ps → l.num_partitions ≡ length ps
Holds-size l ps (xs, is, e) = is.count ∙ sym (length-map _ xs) ∙ ap length e
