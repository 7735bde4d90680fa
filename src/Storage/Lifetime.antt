-- ===== src/Storage/Lifetime.antt =====
-- From `InsertRows` on a new storage through `Close` to `Select`.
use mathlib.Core.Path.{subst}
use mathlib.Core.List.{Perm}
use mathlib.Core.List.Perm
use tstorage.Base.{
  ℕ, ◌-◌, ◌≤◌, ◌<◌, ◌^◌, ◌≡◌, ◌≢◌, refl, sym, ap, ◌∙◌, true, false, ◌==◌, List, [], ◌∷◌, none,
  filter,
}
use tstorage.Base.{All, IsOrdered, arith}
use tstorage.Base.Members.{All-Perm}
use tstorage.Words.{biased}
use tstorage.Rows.{DataPoint, Label, Row}
use tstorage.Wal.{Wal}
use tstorage.Encoding.Decoder.RoundTrip.{IsEncodable}
use tstorage.MemoryMetric.Encode.{IsUpTo, Sorts}
use tstorage.MemoryPartition.{lowest, load, new_memory_partition}
use tstorage.MemoryPartition.First.{named_points}
use tstorage.DiskPartition.Select.{in_range}
use tstorage.Flush.Stored.{IsEncodable-prop}
use tstorage.Flush.Ranges.{encoded_points, encoded_points_lem}
use tstorage.Partition.{memory, is_active}
use tstorage.PartitionList.Changes.{Holds}
use tstorage.Storage.{Storage, so_far, select_result, select, in_memory_mode}
use tstorage.Storage.Fresh.{fresh_partition, headed}
use tstorage.Storage.Heads.{fresh_partition-is_active}
use tstorage.Storage.Insert.{AlwaysTakes, AfterEpoch}
use tstorage.Storage.Recover.{insert_rows-fresh}
use tstorage.Storage.Upkeep.{System, close}
use tstorage.Storage.Persist.{IsReliable}
use tstorage.Storage.Closed.{NeverFails}
use tstorage.Storage.Durable.{close-select}
use tstorage.Storage

module _ {W : Type 0} (log : Wal W) (takes : AlwaysTakes log) (never : NeverFails log)
    (name_of : List ℕ → List Label → List ℕ) (clock : ℕ → ℕ → ℕ) (after_epoch : AfterEpoch clock)
    (sys : System) (reliable : IsReliable sys) (sorts : Sorts sys.sort)
    (ok : (xs : List ℕ) → sys.write xs ≡ true) where
  -- Rows that are put into a new storage come back from the disk: let the list have one new
  -- partition in memory, whose duration is more than one unit and less than 2 ^ 63, and the storage
  -- a data path; let the log always take rows, start segments and never fail, the clock be not
  -- before the epoch, the operating system, encoding/json and sort.Slice do what they document
  -- without an error, and the data file take its bytes. Then InsertRows, with a free worker and
  -- before any Close, of at least one row, where the marshalled names are valid UTF-8 and the
  -- lowest timestamp is not 0, and Close behind it give no error, and a selection of a metric whose
  -- points can be encoded (its name not empty, start before end, no later behind the flush than the
  -- retention) gives those from start up to end, end excluded, of a list that has exactly the
  -- points of the inserted rows with the metric's marshalled name (a timestamp of 0 replaced by the
  -- clock), in the order of timestamps, in whatever order they were inserted (and the error for no
  -- points where there is none).
  pub insert_rows-close-select :
      (s : Storage W) (r : Row) (rs : List Row) (now : ℕ) (metric : List ℕ) (labels : List Label)
      (start end : ℕ)
      → Holds s.partition_list (memory (fresh_partition s.settings) ∷ [])
      → 1 < (fresh_partition s.settings).partition_duration
      → (fresh_partition s.settings).partition_duration < 2 ^ 63
      → in_memory_mode s.settings ≡ false
      → s.closed ≡ false
      → All (λ x. sys.is_text (name_of x.metric x.labels) ≡ true) (r ∷ rs)
      → (lowest r.point.timestamp (r ∷ rs) == 0) ≡ false
      → All IsEncodable
          (named_points name_of (clock 0) (λ rows. true) 0 (r ∷ rs) (name_of metric labels))
      → metric ≢ []
      → biased start < biased end
      → now - sys.now ≤ s.settings.retention
      → (s₁ : Storage W) × (s₂ : Storage W) × (ps : List DataPoint) × (Storage.insert_rows log
            name_of clock true s
            (r ∷ rs)
          ≡ (none, s₁))
        × (close log sys name_of s₁ ≡ (none, s₂))
        × ((select name_of now s₂ metric labels start end).0
            ≡ select_result (so_far (filter (in_range start end) ps)))
        × IsOrdered IsUpTo ps
        × Perm ps (named_points name_of (clock 0) (λ rows. true) 0 (r ∷ rs) (name_of metric labels))
  unfolding new_memory_partition
  insert_rows-close-select s r rs now metric labels start end h lo hi persists once text nonzero all
        asked lt young =
      let name = name_of metric labels in
      let active : is_active (memory (fresh_partition s.settings)) ≡ true =
        fresh_partition-is_active s.settings lo hi in
      let front : headed s.settings (memory (fresh_partition s.settings) ∷ [])
          ≡ memory (fresh_partition s.settings) ∷ [] =
        rw active refl in
      let (s₁, m, inserts, h₁, es, ec, v, c, min, holds, names) =
        insert_rows-fresh log name_of clock takes after_epoch s
          (memory (fresh_partition s.settings) ∷ []) [] r rs h front in
      let full : (m.min_t == 0) ≡ false = ap (λ k. k == 0) min ∙ nonzero in
      let (ordered, same) = encoded_points_lem sys.sort sorts m name v in
      let ps = encoded_points sys.sort (load name m.metrics) in
      let found = Perm.trans same (holds name) in
      let (s₂, closes, selects, rest) =
        close-select name_of now metric labels start end log sys reliable sorts ok s₁
          (ap in_memory_mode es ∙ persists)
          (subst (λ k. now - sys.now ≤ k.retention) (sym es) young) (m ∷ []) h₁ (v, tt) (tt, tt)
          (tt, tt) asked lt never (ec ∙ once) (names (λ n. sys.is_text n ≡ true) text, tt)
          (ground (arith, full), tt)
          (All-Perm IsEncodable IsEncodable-prop _ _ (Perm.symm found) all, tt) in
      (s₁, s₂, ps, inserts, closes, selects ∙ rw full refl, ordered, found)
