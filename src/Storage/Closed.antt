-- ===== src/Storage/Closed.antt =====
-- `Close`: everything in memory is on disk.
use mathlib.Core.Path.{subst}
use tstorage.Base.{
  ℕ, ◌≡◌, refl, ap, ◌∙◌, Bool, true, false, not, List, [], ◌∷◌, ◌++◌, none, filter, All, All-append,
  IsOrdered,
}
use tstorage.Rows.{Label}
use tstorage.Wal.{Wal}
use tstorage.MemoryPartition.{MemoryPartition}
use tstorage.Flush.{flush_partition}
use tstorage.Partition.{Partition, memory, disk, is_expired}
use tstorage.PartitionList.{insert}
use tstorage.PartitionList.Changes.{Holds}
use tstorage.PartitionList.Refines.{insert_lem, to_list_lem}
use tstorage.Storage.{Storage, new_partition, punctuated, in_memory_mode}
use tstorage.Storage.Upkeep.{System, logged, flush_partitions, remove_expired_partitions, close}
use tstorage.Storage.Fresh.{fresh_partition}
use tstorage.Storage.Retire.{Differ, remove_parts_lem}
use tstorage.Storage.Persist.{IsReliable, IsTextual, on_disk, persisted, flush_parts_lem}

-- A log whose operations never fail.
pub record NeverFails {W : Type 0} (log : Wal W) : Type 0 where
  pub flushes : (w : W) → (log.flush w).0 ≡ true
  pub punctuates : (w : W) → (log.punctuate w).0 ≡ true
  pub removes : (w : W) → (log.remove_oldest w).0 ≡ true
  pub clears : (w : W) → (log.remove_all w).0 ≡ true

module _ (sys : System) (retention : ℕ) where
  -- A partition on disk has the min timestamp of the one in memory that it replaces.
  on_disk-Differ :
      (k : Partition) (m : MemoryPartition)
      → Differ k (memory m)
      → All (Differ k) (on_disk retention (flush_partition sys.sort sys.write sys.now m))
  unfolding flush_partition
  on_disk-Differ k m d = go (flush_partition sys.sort sys.write sys.now m).0
    where
      go :
          (bytes : List ℕ)
          → All
              (Differ k)
              (on_disk retention (bytes, (flush_partition sys.sort sys.write sys.now m).1))
      go [] = tt
      go (b ∷ bytes) = (d, tt)

  persisted-Differ :
      (k : Partition) (ps : List Partition)
      → All (Differ k) ps
      → All (Differ k) (persisted sys retention ps)
  persisted-Differ k [] h = tt
  persisted-Differ k (disk q ∷ ps) (d, h) = (d, persisted-Differ k ps h)
  persisted-Differ k (memory m ∷ ps) (d, h) =
      All-append _ (on_disk retention (flush_partition sys.sort sys.write sys.now m))
        (persisted sys retention ps) (on_disk-Differ k m d) (persisted-Differ k ps h)

  persisted-IsOrdered :
      (ps : List Partition) → IsOrdered Differ ps → IsOrdered Differ (persisted sys retention ps)
  unfolding flush_partition
  persisted-IsOrdered [] o = tt
  persisted-IsOrdered (disk q ∷ ps) (b, o) =
      (persisted-Differ (disk q) ps b, persisted-IsOrdered ps o)
  persisted-IsOrdered (memory m ∷ ps) (b, o) =
      go (flush_partition sys.sort sys.write sys.now m).0 (persisted-Differ (memory m) ps b)
        (persisted-IsOrdered ps o)
    where
      go :
          (bytes : List ℕ)
          → All (Differ (memory m)) (persisted sys retention ps)
          → IsOrdered Differ (persisted sys retention ps)
          → IsOrdered Differ (
              on_disk retention (bytes, (flush_partition sys.sort sys.write sys.now m).1)
              ++ persisted sys retention ps)
      go [] d o' = o'
      go (c ∷ bytes) d o' = (d, o')

module _ {W : Type 0} (log : Wal W) (name_of : List ℕ → List Label → List ℕ)
    (never : NeverFails log) where
  logged_lem :
      (s : Storage W) (r : Bool × W) → r.0 ≡ true → logged s r ≡ (none, record s { wal = r.1 })
  logged_lem s r e = ap (λ b. logged s (b, r.1)) e

  new_partition_lem :
      (s : Storage W) (ps : List Partition)
      → Holds s.partition_list ps
      → (s' : Storage W) × (new_partition log name_of s none true ≡ (none, s'))
        × Holds s'.partition_list (memory (fresh_partition s.settings) ∷ ps)
        × (s'.settings ≡ s.settings)
  unfolding new_partition
  new_partition_lem s ps h =
      let l = insert s.partition_list (memory (fresh_partition s.settings)) in
      let w = (log.punctuate s.wal).1 in
      (
        record s { partition_list = l; wal = w },
        ap (λ b. punctuated log name_of (record s { partition_list = l }) (b, w))
            (never.punctuates s.wal),
        insert_lem s.partition_list ps (memory (fresh_partition s.settings)) h,
        refl,
      )

  -- Close of a storage with a data path that is not closed, when the log never fails, the names of
  -- the metrics in memory are valid UTF-8, the operating system and encoding/json do what they
  -- document without an error, and the min timestamps of the partitions differ from each other and
  -- from 0, gives no error and leaves no partition in memory but two new ones: behind these stand,
  -- in order and without those that have expired, the partitions on disk, each partition in memory
  -- replaced by the partition on disk of what flush writes for it, or taken out when flush writes
  -- no byte.
  pub close_lem :
      (sys : System) (s : Storage W) (ps : List Partition)
      → IsReliable sys
      → s.closed ≡ false
      → in_memory_mode s.settings ≡ false
      → Holds s.partition_list ps
      → All (Differ (memory (fresh_partition s.settings))) ps
      → IsOrdered Differ ps
      → All (IsTextual sys.is_text) ps
      → (s' : Storage W) × (close log sys name_of s ≡ (none, s'))
        × Holds s'.partition_list (
            memory (fresh_partition s.settings)
            ∷ memory (fresh_partition s.settings)
            ∷ filter (λ p. not (is_expired sys.now p)) (persisted sys s.settings.retention ps))
  unfolding close flush_partitions remove_expired_partitions
  close_lem sys s ps ok once off h d o text =
      let new = memory (fresh_partition s.settings) in
      let open_s : Storage W = record s { closed = true } in
      let s₀ : Storage W = record open_s { wal = (log.flush s.wal).1 } in
      let (s₁, e₁, h₁, es₁) = new_partition_lem s₀ ps h in
      let (s₂, e₂, h₂, es₂) = new_partition_lem s₁ (new ∷ ps) h₁ in
      let h₂' : Holds s₂.partition_list (new ∷ new ∷ ps) =
        subst (λ k. Holds s₂.partition_list (memory (fresh_partition k) ∷ new ∷ ps)) es₁ h₂ in
      let (s₃, e₃, h₃) =
        flush_parts_lem log sys ok never.removes s.settings s₂ (new ∷ new ∷ []) ps (es₂ ∙ es₁) off
          h₂' (d, (d, tt)) o text in
      let qs = persisted sys s.settings.retention ps in
      let dq = persisted-Differ sys s.settings.retention new ps d in
      let (s₄, e₄, h₄) =
        remove_parts_lem log sys ok.cleans (is_expired sys.now) s₃ (new ∷ new ∷ []) qs h₃
          (dq, (dq, tt)) (persisted-IsOrdered sys s.settings.retention ps o) in
      let flushed : flush_partitions log sys s₂ ≡ (none, s₃) =
        rw (flush_partitions, to_list_lem s₂.partition_list (new ∷ new ∷ ps) h₂') e₃ in
      let removed : remove_expired_partitions log sys s₃ ≡ (none, s₄) =
        rw (remove_expired_partitions, to_list_lem s₃.partition_list (new ∷ new ∷ qs) h₃) e₄ in
      (
        record s₄ { wal = (log.remove_all s₄.wal).1 },
        rw
            (
              close,
              once,
              logged_lem open_s (log.flush s.wal) (never.flushes s.wal),
              e₁,
              e₂,
              flushed,
              removed,
            )
            (logged_lem s₄ (log.remove_all s₄.wal) (never.clears s₄.wal)),
        h₄,
      )
