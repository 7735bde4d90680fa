-- ===== src/Examples/Runs.antt =====
-- A storage through a run of calls and background work.
use tstorage.Base.{arith, true, false, List, [], ◌∷◌, ◌≡◌, refl, none, not, filter}
use tstorage.Words.{biased}
use tstorage.MemoryPartition.{new_memory_partition}
use tstorage.Partition.{memory, is_expired}
use tstorage.PartitionList.Changes.{Holds}
use tstorage.Storage.{Storage, in_memory_mode}
use tstorage.Storage.Upkeep.{close}
use tstorage.Storage.Fresh.{fresh_partition}
use tstorage.Storage.Persist.{persisted}
use tstorage.Storage.Closed.{NeverFails, close_lem}
use tstorage.Storage.Events.{Event, insert_call, pending_flush, ticker, close_call, run_events}
use tstorage.Storage.Sound.{IsSound}
use tstorage.Storage.Kept.{run_events-IsSound}
use tstorage.Examples.Partitions.{plain_name, row}
use tstorage.Examples.Flushed.{one_metric}
use tstorage.Examples.Stores.{
  two, nop, sys, older, late_clock, two-Holds, four, four_of, four-Holds, four-Differ, with_path,
  sys-IsReliable, one_metric-IsValidPartition, older-IsValidPartition,
}

abbrev a_run : List Event
a_run =
    insert_call late_clock true (row 1030 7 ∷ row 510 1 ∷ [])
    ∷ pending_flush sys
    ∷ insert_call late_clock false (row 2000 1 ∷ [])
    ∷ ticker sys
    ∷ close_call sys
    ∷ close_call sys
    ∷ []

run_events-IsSound_example : IsSound (run_events nop plain_name a_run two)
run_events-IsSound_example =
    run_events-IsSound nop plain_name a_run two
      (
        (λ t i. unfold biased in omega arith),
        (tt, ((λ t i. unfold biased in omega arith), (tt, (tt, (tt, tt))))),
      )
      (
        memory one_metric ∷ memory older ∷ [],
        two-Holds,
        (one_metric-IsValidPartition, (older-IsValidPartition, tt)),
      )

pub nop-NeverFails : NeverFails nop
nop-NeverFails = record {
  flushes = λ w. refl;
  punctuates = λ w. refl;
  removes = λ w. refl;
  clears = λ w. refl;
}

close_lem_example :
    (s' : Storage Unit) × (close nop sys plain_name (four_of with_path) ≡ (none, s'))
    × Holds s'.partition_list (
        memory (fresh_partition with_path)
        ∷ memory (fresh_partition with_path)
        ∷ filter (λ p. not (is_expired 100 p)) (persisted sys 1209600000000000 four))
close_lem_example =
    close_lem nop plain_name nop-NeverFails sys (four_of with_path) four sys-IsReliable refl
      (unfold in_memory_mode in refl) four-Holds
      (unfold new_memory_partition in (refl, (refl, (refl, (refl, tt))))) four-Differ
      ((refl, tt), (tt, (tt, (tt, tt))))
