-- ===== src/Storage/Kept.antt =====
-- The invariant of Storage/Sound through flushes, removals, Close, and any run of events.
use tstorage.Base.{
  ℕ, zero, suc, Bool, true, false, Bool-cases, inl, inr, List, [], ◌∷◌, Option, none, some, All,
}
use tstorage.Rows.{Label}
use tstorage.Wal.{Wal}
use tstorage.MemoryPartition.{MemoryPartition}
use tstorage.DiskPartition.{
  OpenResult, no_dir_path, invalid_partition, open_failed, no_points, opened, Directory,
  open_disk_partition,
}
use tstorage.Partition.{Partition, memory, disk, same_partitions, clean}
use tstorage.PartitionList.{PartitionList, ListError, remove, swap}
use tstorage.PartitionList.Changes.{Holds}
use tstorage.PartitionList.Refines.{remove_lem, swap_lem}
use tstorage.Storage.{Storage, StorageError, new_partition, in_memory_mode}
use tstorage.Storage.Upkeep.{
  System, and_then, logged, relisted, remove_part, swap_part, reopened, stored_part, flush_part,
  flush_parts, flush_partitions, remove_parts, remove_expired_partitions, close,
}
use tstorage.Storage.Insert.{AfterEpoch}
use tstorage.Storage.Events.{
  Event, insert_call, pending_flush, ticker, close_call, flush_pending, run_event, run_events,
}
use tstorage.Storage.Sound.{
  IsOk, IsSound, drop_first-All, replace_first-All, new_partition-IsSound, insert_rows-IsSound,
}

-- The clock of each insertion is not before the epoch.
abbrev pub IsTimely : Event → Type 0
IsTimely (insert_call clock admitted rows) = AfterEpoch clock
IsTimely (pending_flush sys) = Unit
IsTimely (ticker sys) = Unit
IsTimely (close_call sys) = Unit

module _ {W : Type 0} where
  logged-IsSound : (s : Storage W) (r : Bool × W) → IsSound s → IsSound (logged s r).1
  logged-IsSound s (true, w) h = h
  logged-IsSound s (false, w) h = h

  and_then-IsSound :
      (r : Option StorageError × Storage W) (next : Storage W → Option StorageError × Storage W)
      → IsSound r.1
      → ((s : Storage W) → IsSound s → IsSound (next s).1)
      → IsSound (and_then r next).1
  and_then-IsSound (none, s) next h k = k s h
  and_then-IsSound (some e, s) next h k = h

  relisted-IsSound :
      (s : Storage W) (r : Option ListError × PartitionList Partition) (ps : List Partition)
      → Holds r.1 ps
      → All IsOk ps
      → IsSound (relisted s r).1
  relisted-IsSound s (none, l) ps h all = (ps, h, all)
  relisted-IsSound s (some e, l) ps h all = (ps, h, all)

module _ {W : Type 0} (log : Wal W) (sys : System) where
  remove_part-IsSound :
      (s : Storage W) (p : Partition) → IsSound s → IsSound (remove_part log sys s p).1
  remove_part-IsSound s p (ps, h, all) =
      relisted-IsSound s (remove same_partitions (clean sys.remove_dir) s.partition_list p) _
        (remove_lem same_partitions (clean sys.remove_dir) s.partition_list p ps h).1
        (drop_first-All IsOk (λ x. same_partitions x p) ps all)

  swap_part-IsSound :
      (s : Storage W) (p q : Partition) → IsOk q → IsSound s → IsSound (swap_part log sys s p q).1
  swap_part-IsSound s p q ok (ps, h, all) =
      and_then-IsSound (relisted s (swap same_partitions s.partition_list p q))
        (λ s'. logged s' (log.remove_oldest s'.wal))
        (relisted-IsSound s (swap same_partitions s.partition_list p q) _
          (swap_lem same_partitions s.partition_list p q ps h).1
          (replace_first-All IsOk (λ x. same_partitions x p) q ps ok all))
        (λ s' k. logged-IsSound s' (log.remove_oldest s'.wal) k)

  reopened-IsSound :
      (s : Storage W) (m : MemoryPartition) (r : OpenResult)
      → IsSound s
      → IsSound (reopened log sys s m r).1
  reopened-IsSound s m no_dir_path h = h
  reopened-IsSound s m invalid_partition h = h
  reopened-IsSound s m open_failed h = h
  reopened-IsSound s m no_points h = remove_part-IsSound s (memory m) h
  reopened-IsSound s m (opened d) h = swap_part-IsSound s (memory m) (disk d) tt h

  stored_part-IsSound :
      (s : Storage W) (m : MemoryPartition) (r : Option Directory)
      → IsSound s
      → IsSound (stored_part log sys s m r).1
  stored_part-IsSound s m none h = h
  stored_part-IsSound s m (some dir) h =
      reopened-IsSound s m (open_disk_partition sys.mmap dir s.settings.retention) h

  flush_part-IsSound :
      (s : Storage W) (p : Partition) → IsSound s → IsSound (flush_part log sys s p).1
  unfolding flush_part
  flush_part-IsSound s (disk d) h = h
  flush_part-IsSound s (memory m) h = elim (Bool-cases (in_memory_mode s.settings)) [
    | inl y ↦ rw (flush_part, y) (remove_part-IsSound s (memory m) h)
    | inr n ↦ rw (flush_part, n) (stored_part-IsSound s m _ h)
  ]

  flush_parts-IsSound :
      (ps : List Partition) (s : Storage W) → IsSound s → IsSound (flush_parts log sys ps s).1
  unfolding flush_parts
  flush_parts-IsSound [] s h = h
  flush_parts-IsSound (p ∷ ps) s h =
      and_then-IsSound (flush_part log sys s p) (λ s'. flush_parts log sys ps s')
        (flush_part-IsSound s p h) (λ s' k. flush_parts-IsSound ps s' k)

  remove_parts-IsSound :
      (ps : List Partition) (s : Storage W) → IsSound s → IsSound (remove_parts log sys ps s).1
  unfolding remove_parts
  remove_parts-IsSound [] s h = h
  remove_parts-IsSound (p ∷ ps) s h =
      and_then-IsSound (remove_part log sys s p) (λ s'. remove_parts log sys ps s')
        (remove_part-IsSound s p h) (λ s' k. remove_parts-IsSound ps s' k)

  flush_partitions-IsSound : (s : Storage W) → IsSound s → IsSound (flush_partitions log sys s).1
  unfolding flush_partitions
  flush_partitions-IsSound s h = flush_parts-IsSound _ s h

  remove_expired_partitions-IsSound :
      (s : Storage W) → IsSound s → IsSound (remove_expired_partitions log sys s).1
  unfolding remove_expired_partitions
  remove_expired_partitions-IsSound s h = remove_parts-IsSound _ s h

  close-IsSound :
      (name_of : List ℕ → List Label → List ℕ) (s : Storage W)
      → IsSound s
      → IsSound (close log sys name_of s).1
  unfolding close
  close-IsSound name_of s h = elim (Bool-cases s.closed) [
    | inl again ↦ rw (close, again) h
    | inr first ↦
        rw (close, first)
          (let add : Storage W → Option StorageError × Storage W =
              λ s'. new_partition log name_of s' none true in
            let adds : (s' : Storage W) → IsSound s' → IsSound (add s').1 =
              λ s' k. new_partition-IsSound log name_of s' true k in
            let s₀ : Storage W = record s { closed = true } in
            let r₀ = logged s₀ (log.flush s₀.wal) in
            let r₁ = and_then r₀ add in
            let r₂ = and_then r₁ add in
            let r₃ = and_then r₂ (flush_partitions log sys) in
            let r₄ = and_then r₃ (remove_expired_partitions log sys) in
            let h₁ = and_then-IsSound r₀ add (logged-IsSound s₀ (log.flush s₀.wal) h) adds in
            let h₂ = and_then-IsSound r₁ add h₁ adds in
            let h₃ = and_then-IsSound r₂ (flush_partitions log sys) h₂ flush_partitions-IsSound in
            let h₄ =
              and_then-IsSound r₃ (remove_expired_partitions log sys) h₃
                remove_expired_partitions-IsSound in
            and_then-IsSound r₄ (λ s'. logged s' (log.remove_all s'.wal)) h₄
              (λ s' k. logged-IsSound s' (log.remove_all s'.wal) k))
  ]

module _ {W : Type 0} (log : Wal W) (name_of : List ℕ → List Label → List ℕ) where
  flush_pending-IsSound :
      (sys : System) (s : Storage W) (n : ℕ)
      → IsSound s
      → IsSound (flush_pending log name_of sys s n)
  flush_pending-IsSound sys s zero h = h
  flush_pending-IsSound sys s (suc n) h =
      flush_partitions-IsSound log sys (record s { pending_flushes = n }) h

  run_event-IsSound :
      (e : Event) (s : Storage W) → IsTimely e → IsSound s → IsSound (run_event log name_of e s)
  unfolding run_event
  run_event-IsSound (insert_call clock admitted rows) s t h =
      insert_rows-IsSound log name_of clock admitted s rows t h
  run_event-IsSound (pending_flush sys) s t h = flush_pending-IsSound sys s s.pending_flushes h
  run_event-IsSound (ticker sys) s t h = remove_expired_partitions-IsSound log sys s h
  run_event-IsSound (close_call sys) s t h = close-IsSound log sys name_of s h

  -- Whatever calls of InsertRows and Close (also of one that is closed, where Close panics),
  -- pending flushes and removals of expired partitions run one after the other, in any order and
  -- with any failures of the log, the files and the workers, a storage whose linked list holds
  -- partitions, of which those in memory are valid, stays so, when the clock of the insertions is
  -- not before the epoch.
  pub run_events-IsSound :
      (es : List Event) (s : Storage W)
      → All IsTimely es
      → IsSound s
      → IsSound (run_events log name_of es s)
  run_events-IsSound [] s t h = h
  run_events-IsSound (e ∷ es) s (t, ts) h =
      run_events-IsSound es (run_event log name_of e s) ts (run_event-IsSound e s t h)
