-- ===== src/Storage/Durable.antt =====
-- `Select` on a storage whose older partitions have been flushed, and behind `Close`.
use mathlib.Core.Path.{subst}
use mathlib.Core.List.{Perm}
use tstorage.Base.{
  ℕ, zero, suc, ◌-◌, ◌≤◌, ◌<◌, ◌≡◌, refl, sym, ap, ap₂, ◌∙◌, Bool, true, false, not, ge→ltb,
}
use tstorage.Base.{
  List, [], ◌∷◌, ◌++◌, none, map, map-append, take, drop, take-append-drop, append-nil, All,
  All-every, All-append, All-split, IsOrdered, IsOrdered-join, IsOrdered-unjoin, ◌≢◌, filter-All,
  All-map, arith,
}
use tstorage.Words.{biased}
use tstorage.Rows.{Label}
use tstorage.Wal.{Wal}
use tstorage.MemoryMetric.Encode.{IsUpTo, Sorts}
use tstorage.MemoryPartition.{MemoryPartition, load, new_memory_partition}
use tstorage.MemoryPartition.Insert.{IsValidPartition, new_memory_partition-IsValidPartition}
use tstorage.MemoryPartition.Contents.{contents}
use tstorage.DiskPartition.{expired, Meta}
use tstorage.Flush.{flush_partition}
use tstorage.Flush.Texts.{IsNamedInText}
use tstorage.Flush.Ranges.{encoded_points, encoded_points_lem}
use tstorage.Partition.{Partition, memory, is_expired}
use tstorage.PartitionList.Changes.{Holds}
use tstorage.Storage.{Storage, so_far, select_result, select, in_memory_mode}
use tstorage.Storage.Windows.{all_points, IsBehind}
use tstorage.Storage.Mixed.{Told, IsLater, Gives, select-told_points}
use tstorage.Storage.Told.{
  told_here, flushed_told, flushed_points, persisted-told, flushed-IsLater, flushed-IsOrdered,
  flushed-sum, flushed-Gives, memory-Gives, memory-IsOrdered, memory-sum, memory-first,
  told_points-append, IsReadable,
}
use tstorage.Storage.Upkeep.{System, flush_partitions, close}
use tstorage.Storage.Fresh.{fresh_partition}
use tstorage.Storage.Persist.{IsReliable, IsTextual, on_disk, persisted, flush_partitions_lem}
use tstorage.Storage.Closed.{NeverFails, close_lem}
use tstorage.Storage.Retire.{Differ}

pub textual :
    (is_text : List ℕ → Bool) (ms : List MemoryPartition)
    → All (IsNamedInText is_text) ms
    → All (IsTextual is_text) (map memory ms)
textual is_text [] h = tt
textual is_text (m ∷ ms) (h, hs) = (h, textual is_text ms hs)

take-map : (n : ℕ) (ms : List MemoryPartition) → take n (map memory ms) ≡ map memory (take n ms)
take-map zero ms = refl
take-map (suc n) [] = refl
take-map (suc n) (m ∷ ms) = ap (◌∷◌ (memory m)) (take-map n ms)

drop-map : (n : ℕ) (ms : List MemoryPartition) → drop n (map memory ms) ≡ map memory (drop n ms)
drop-map zero ms = refl
drop-map (suc n) [] = refl
drop-map (suc n) (m ∷ ms) = drop-map n ms

-- A partition that has just been written is not expired.
fresh_file-young :
    (now retention : ℕ) (file : List ℕ) (meta : Meta) (rest : List Partition)
    → meta.created_at ≡ now
    → All (λ p. not (is_expired now p) ≡ true) rest
    → All (λ p. not (is_expired now p) ≡ true) (on_disk retention (file, meta) ++ rest)
unfolding expired
fresh_file-young now retention [] meta rest e h = h
fresh_file-young now retention (b ∷ bytes) meta rest e h =
    (ap not (ge→ltb retention (now - meta.created_at) (omega (arith, e))), h)

pub persisted-young :
    (sys : System) (retention : ℕ) (ms : List MemoryPartition)
    → All (λ p. not (is_expired sys.now p) ≡ true) (persisted sys retention (map memory ms))
unfolding flush_partition
persisted-young sys retention [] = tt
persisted-young sys retention (m ∷ ms) =
    let out = flush_partition sys.sort sys.write sys.now m in
    fresh_file-young sys.now retention out.0 out.1 (persisted sys retention (map memory ms)) refl
      (persisted-young sys retention ms)

module _ (name_of : List ℕ → List Label → List ℕ) (now : ℕ) (metric : List ℕ) (labels : List Label)
    (start end : ℕ) where
  abbrev name : List ℕ
  name = name_of metric labels

  abbrev here : MemoryPartition → Told
  here = told_here name_of now metric labels start end

  recent-IsLater :
      (sys : System) (retention : ℕ) (recent older : List MemoryPartition)
      → All (λ m. All (IsBehind m) older) recent
      → All
          (λ e. All (IsLater e) (flushed_told name start end sys retention older))
          (map here recent)
  recent-IsLater sys retention [] older h = tt
  recent-IsLater sys retention (m ∷ recent) older (h, hs) = (
    flushed-IsLater name start end sys retention (here m) older h,
    recent-IsLater sys retention recent older hs,
  )

  module _ {W : Type 0} (sys : System) (retention : ℕ) (sorts : Sorts sys.sort)
      (ok : (xs : List ℕ) → sys.write xs ≡ true) (young : now - sys.now ≤ retention) where
    select-persisted :
        (s : Storage W) (recent older : List MemoryPartition)
        → Holds s.partition_list (map memory recent ++ persisted sys retention (map memory older))
        → All IsValidPartition recent
        → All IsValidPartition older
        → IsOrdered IsBehind (recent ++ older)
        → All (IsReadable name_of now metric labels start end sys) older
        → metric ≢ []
        → biased start < biased end
        → (select name_of now s metric labels start end).0
          ≡ select_result (
              so_far (
                flushed_points name start end sys retention older
                ++ all_points name start end recent))
    select-persisted s recent older h v v' o r asked lt =
        let told = flushed_told name start end sys retention older in
        let (o₁, o₂, cross) = IsOrdered-unjoin IsBehind recent older o in
        let parts : map memory recent ++ persisted sys retention (map memory older)
            ≡ map (λ e. e.0) (map here recent ++ told) =
          sym (
            map-append (λ e. e.0) (map here recent) told
            ∙ ap₂ (λ a b. a ++ b) (memory-first name_of now metric labels start end recent)
                (persisted-told name start end sys retention older)) in
        let gives : All (Gives name_of now metric labels start end) (map here recent ++ told) =
          All-append _ (map here recent) told
            (memory-Gives name_of now metric labels start end recent v (omega (arith, lt)))
            (flushed-Gives name_of now metric labels start end sys retention sorts ok young older v'
              r) in
        let ordered : IsOrdered IsLater (map here recent ++ told) =
          IsOrdered-join IsLater (map here recent) told
            (memory-IsOrdered name_of now metric labels start end recent o₁)
            (flushed-IsOrdered name start end sys retention older o₂)
            (recent-IsLater sys retention recent older cross) in
        select-told_points name_of now s (map here recent ++ told) metric labels start end
          (subst (Holds s.partition_list) parts h) gives ordered asked lt
        ∙ ap (λ k. select_result (so_far k))
            (told_points-append (map here recent) told
              ∙ ap₂ (λ a b. a ++ b) (flushed-sum name start end sys retention sorts ok older v')
                  (memory-sum name_of now metric labels start end recent))

  module _ {W : Type 0} (log : Wal W) (sys : System) (reliable : IsReliable sys)
      (sorts : Sorts sys.sort) (ok : (xs : List ℕ) → sys.write xs ≡ true) (s : Storage W)
      (persists : in_memory_mode s.settings ≡ false) (young : now - sys.now ≤ s.settings.retention)
      (ms : List MemoryPartition) (h : Holds s.partition_list (map memory ms))
      (v : All IsValidPartition ms) (o : IsOrdered IsBehind ms)
      (differ : IsOrdered Differ (map memory ms)) (asked : metric ≢ [])
      (lt : biased start < biased end) where
    -- The storage has a data path; its log can remove its oldest segment, the operating system,
    -- encoding/json and sort.Slice do what they document without an error, and the data file takes
    -- its bytes; its partitions are all in memory, valid, each behind the range of the older ones
    -- where it has rows, with different lowest timestamps; and those behind the first two have
    -- names of metrics that are valid UTF-8, and what they hold of a metric can be encoded. Then
    -- flushPartitions succeeds, and a selection of that metric (its name not empty, start before
    -- end, no later behind the flush than the retention) on the partitions in memory and on disk
    -- that it leaves gives the points of the flushed ones from start up to end, end excluded, late
    -- ones included, and behind them those that the first two have in memory for the selection,
    -- from the oldest partition to the newest and without those whose lowest timestamp is 0 (and
    -- the error for no points where there is none).
    pub flush_partitions-select :
        ((w : W) → (log.remove_oldest w).0 ≡ true)
        → All (IsNamedInText sys.is_text) (drop 2 ms)
        → All (IsReadable name_of now metric labels start end sys) (drop 2 ms)
        → (s' : Storage W) × (flush_partitions log sys s ≡ (none, s'))
          × ((select name_of now s' metric labels start end).0
              ≡ select_result (
                  so_far (
                    flushed_points name start end sys s.settings.retention (drop 2 ms)
                    ++ all_points name start end (take 2 ms))))
    flush_partitions-select removes text r =
        let (s', e, h') =
          flush_partitions_lem log sys reliable removes s (map memory ms) h differ persists (
            subst (All (IsTextual sys.is_text)) (sym (drop-map 2 ms))
              (textual sys.is_text (drop 2 ms) text)) in
        let both = take-append-drop 2 ms in
        let (v₁, v₂) =
          All-split IsValidPartition (take 2 ms) (drop 2 ms)
            (subst (All IsValidPartition) (sym both) v) in
        let held : Holds s'.partition_list (
            map memory (take 2 ms) ++ persisted sys s.settings.retention (map memory (drop 2 ms))) =
          rw (sym (take-map 2 ms), sym (drop-map 2 ms)) h' in
        (
          s',
          e,
          select-persisted sys s.settings.retention sorts ok young s' (take 2 ms) (drop 2 ms) held
              v₁ v₂ (subst (IsOrdered IsBehind) (sym both) o) r asked lt,
        )

    -- The storage has a data path; its log never fails, the operating system, encoding/json and
    -- sort.Slice do what they document without an error, and the data file takes its bytes; its
    -- partitions are all in memory, valid, each behind the range of the older ones where it has
    -- rows, with different lowest timestamps, none of them 0, and with names of metrics that are
    -- valid UTF-8; it is not closed; and what they hold of a metric can be encoded. Then Close
    -- succeeds, and a selection of that metric (its name not empty, start before end, no later
    -- behind the flush than the retention) on what Close leaves gives, of each partition from the
    -- oldest to the newest, the points from start up to end, end excluded, of those that were
    -- encoded (and the error for no points where there is none); which are, for each partition, the
    -- points stored under the name, in order or late, in the order of timestamps.
    pub close-select :
        NeverFails log
        → s.closed ≡ false
        → All (IsNamedInText sys.is_text) ms
        → All (Differ (memory (fresh_partition s.settings))) (map memory ms)
        → All (IsReadable name_of now metric labels start end sys) ms
        → (s' : Storage W) × (close log sys name_of s ≡ (none, s'))
          × ((select name_of now s' metric labels start end).0
              ≡ select_result (so_far (flushed_points name start end sys s.settings.retention ms)))
          × All
              (λ m.
                IsOrdered IsUpTo (encoded_points sys.sort (load name m.metrics))
                × Perm (encoded_points sys.sort (load name m.metrics)) (contents name m.metrics))
              ms
    unfolding new_memory_partition
    close-select never once text d r =
        let (s', e, h') =
          close_lem log name_of never sys s (map memory ms) reliable once persists h d differ
            (textual sys.is_text ms text) in
        let fresh = fresh_partition s.settings in
        let vf : IsValidPartition fresh =
          new_memory_partition-IsValidPartition s.settings.partition_duration
            s.settings.timestamp_precision in
        let held : Holds s'.partition_list (
            map memory (fresh ∷ fresh ∷ []) ++ persisted sys s.settings.retention (map memory ms)) =
          subst (λ k. Holds s'.partition_list (memory fresh ∷ memory fresh ∷ k))
            (filter-All _ _ (persisted-young sys s.settings.retention ms)) h' in
        let behind : (m : MemoryPartition) → IsBehind fresh m = λ m b. ground arith in
        (
          s',
          e,
          select-persisted sys s.settings.retention sorts ok young s' (fresh ∷ fresh ∷ []) ms held
                (vf, (vf, tt)) v ((behind fresh, All-every behind ms), (All-every behind ms, o)) r
                asked lt
              ∙ ap (λ k. select_result (so_far k)) (append-nil _),
          All-map (λ m vm. encoded_points_lem sys.sort sorts m name vm) ms v,
        )
