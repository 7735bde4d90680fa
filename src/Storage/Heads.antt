-- ===== src/Storage/Heads.antt =====
-- `ensureActiveHead`, and the partitions that `NewStorage` starts with.
use tstorage.Base.{ℕ, ◌<◌, ◌^◌, ◌≡◌, refl, ◌∙◌, true, false, Bool-cases, inl, inr, lt→ltb}
use tstorage.Base.{List, [], ◌∷◌, Option, none, some, arith}
use mathlib.Core.List.{reverse_aux}
use tstorage.Words.{biased}
use tstorage.Rows.{Label}
use tstorage.Wal.{Wal}
use tstorage.MemoryPartition.{active, new_memory_partition}
use tstorage.Partition.{Partition, memory, is_active}
use tstorage.PartitionList.Changes.{Holds}
use tstorage.PartitionList.Refines.{insert_lem}
use tstorage.Storage.{Storage, Settings, ensure_active_head, new_partition}
use tstorage.Storage.Fresh.{fresh_partition, ensure_active_head_lem}
use tstorage.Storage.Opening.{add_partitions}

-- A new partition is active when it spans more than one unit of time.
pub fresh_partition-is_active :
    (o : Settings)
    → 1 < (fresh_partition o).partition_duration
    → (fresh_partition o).partition_duration < 2 ^ 63
    → is_active (memory (fresh_partition o)) ≡ true
unfolding active new_memory_partition biased
fresh_partition-is_active o lo hi = lt→ltb _ _ (omega (arith, lo, hi))

module _ {W : Type 0} (log : Wal W) (name_of : List ℕ → List Label → List ℕ) where
  -- ensureActiveHead, when the log can start a segment and the partition duration is more than one
  -- unit of time and less than 2 ^ 63, gives no error and leaves a list whose head is active.
  pub ensure_active_head-is_active :
      (s : Storage W) (ps : List Partition)
      → Holds s.partition_list ps
      → (log.punctuate s.wal).0 ≡ true
      → 1 < (fresh_partition s.settings).partition_duration
      → (fresh_partition s.settings).partition_duration < 2 ^ 63
      → (s' : Storage W) × (p : Partition) × (rest : List Partition) × (ensure_active_head log
            name_of s
          ≡ (none, s'))
        × Holds s'.partition_list (p ∷ rest)
        × (is_active p ≡ true)
  ensure_active_head-is_active s [] h ok lo hi =
      let e = ensure_active_head_lem log name_of s [] h ok in
      (
        e.after,
        memory (fresh_partition s.settings),
        [],
        e.gives,
        e.holds,
        fresh_partition-is_active s.settings lo hi,
      )
  ensure_active_head-is_active s (p ∷ ps) h ok lo hi =
      let e = ensure_active_head_lem log name_of s (p ∷ ps) h ok in
      elim (Bool-cases (is_active p)) [
        | inl on ↦ (e.after, p, ps, e.gives, rw on at e.holds, on)
        | inr off ↦ (
          e.after,
          memory (fresh_partition s.settings),
          p ∷ ps,
          e.gives,
          rw off at e.holds,
          fresh_partition-is_active s.settings lo hi,
        )
      ]

  pub add_partition :
      (s : Storage W) (ps : List Partition) (p : Option Partition)
      → Holds s.partition_list ps
      → (Holds
          (new_partition log name_of s p false).1.partition_list
          ((elim p [ none ↦ memory (fresh_partition s.settings) | some q ↦ q ]) ∷ ps))
        × ((new_partition log name_of s p false).1.settings ≡ s.settings)
  unfolding new_partition
  add_partition s ps p h = (insert_lem s.partition_list ps _ h, refl)

  pub add_partitions_lem :
      (qs : List Partition) (s : Storage W) (ps : List Partition)
      → Holds s.partition_list ps
      → Holds (add_partitions log name_of qs s).partition_list (reverse_aux qs ps)
        × ((add_partitions log name_of qs s).settings ≡ s.settings)
  add_partitions_lem [] s ps h = (h, refl)
  add_partitions_lem (q ∷ qs) s ps h =
      let (h', e) = add_partition s ps (some q) h in
      let (h'', e') =
        add_partitions_lem qs (new_partition log name_of s (some q) false).1 (q ∷ ps) h' in
      (h'', e' ∙ e)
