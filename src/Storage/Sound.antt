-- ===== src/Storage/Sound.antt =====
-- An invariant of the storage that every event keeps, whatever fails.
use mathlib.Core.Path.{subst}
use tstorage.Base.{
  ℕ, ◌≤◌, ◌≡◌, refl, sym, Bool, true, false, not, ◌&&◌, ltb, Bool-cases, inl, inr, List, [], ◌∷◌,
  Option, none, some, Option-cases, All,
}
use tstorage.Words.{biased}
use tstorage.Rows.{Row, Label}
use tstorage.Wal.{Wal}
use tstorage.MemoryPartition.{new_memory_partition}
use tstorage.MemoryPartition.Insert.{
  IsValidPartition, insert_rows-IsValidPartition, insert_rows-wal_failed,
  new_memory_partition-IsValidPartition,
}
use tstorage.Partition.{
  Partition, memory, disk, is_active, Taken, took, empty_rows, wal_error, read_only,
  insert_panicked, taken, insert_into,
}
use tstorage.PartitionList.{insert, get_head}
use tstorage.PartitionList.Changes.{Holds, drop_first, replace_first}
use tstorage.PartitionList.Refines.{insert_lem}
use tstorage.PartitionList.Each.{Turn, go_on, stop, each_item, after_item, each_lem}
use tstorage.Storage.{
  Storage, StorageError, Inserting, insert_turn, inserted_turn, insert_rows, insert_ready,
  ensure_active_head, new_partition, punctuated, flush_started, none_left,
}
use tstorage.Storage.Insert.{AfterEpoch}

abbrev pub IsOk : Partition → Type 0
IsOk (memory m) = IsValidPartition m
IsOk (disk d) = Unit

-- The linked list holds partitions, and those in memory are valid.
abbrev pub IsSound : {W : Type 0} → Storage W → Type 0
IsSound s = (ps : List Partition) × Holds s.partition_list ps × All IsOk ps

module _ {P : Type 0} (Q : P → Type 0) where
  after_item-All :
      {S : Type 0} (more : S → S × List P) (ps : List P) (t : Turn S × P)
      → Q t.1
      → All Q ps
      → ((s : S) → All Q (more s).1)
      → All Q (after_item more ps t).1
  after_item-All more ps (go_on s, v) k h next = (k, next s)
  after_item-All more ps (stop s, v) k h next = (k, h)

  pub each_item-All :
      {S : Type 0} (body : S → P → Turn S × P) (ps : List P) (s : S)
      → ((s' : S) (p : P) → Q p → Q (body s' p).1)
      → All Q ps
      → All Q (each_item body ps s).1
  each_item-All body [] s keeps h = tt
  each_item-All body (p ∷ ps) s keeps (h, hs) =
      after_item-All (λ s'. each_item body ps s') ps (body s p) (keeps s p h) hs
        (λ s'. each_item-All body ps s' keeps hs)

  pub drop_first-All : (test : P → Bool) (ps : List P) → All Q ps → All Q (drop_first test ps)
  drop_first-All test [] h = tt
  drop_first-All test (p ∷ ps) (h, hs) = elim (Bool-cases (test p)) [
    | inl y ↦ rw y hs
    | inr n ↦ rw n (h, drop_first-All test ps hs)
  ]

  pub replace_first-All :
      (test : P → Bool) (q : P) (ps : List P) → Q q → All Q ps → All Q (replace_first test q ps)
  replace_first-All test q [] k h = tt
  replace_first-All test q (p ∷ ps) k (h, hs) = elim (Bool-cases (test p)) [
    | inl y ↦ rw y (k, hs)
    | inr n ↦ rw n (h, replace_first-All test q ps k hs)
  ]

module _ {W : Type 0} (log : Wal W) (name_of : List ℕ → List Label → List ℕ) where
  inserted_turn-part :
      (t : Inserting W) (a : Taken) (p : Partition) (w : W)
      → (inserted_turn log name_of t ((a, p), w)).1 ≡ p
  inserted_turn-part t (took rest) p w = refl
  inserted_turn-part t empty_rows p w = refl
  inserted_turn-part t wal_error p w = refl
  inserted_turn-part t read_only p w = refl
  inserted_turn-part t insert_panicked p w = refl

  insert_into-IsOk :
      (clock : ℕ → ℕ)
      → ((i : ℕ) → biased 0 ≤ biased (clock i))
      → (w : W) (p : Partition) (rows : List Row) → IsOk p
      → IsOk (insert_into log name_of clock w p rows).0.1
  insert_into-IsOk clock after w (disk d) rows h = tt
  insert_into-IsOk clock after w (memory m) [] h = h
  insert_into-IsOk clock after w (memory m) (r ∷ rs) h =
      elim (Bool-cases (log.append (r ∷ rs) w).0) [
        | inl ok ↦
            let (rest, m', e, v, o, c) =
              insert_rows-IsValidPartition name_of clock (λ rows. (log.append (r ∷ rs) w).0) after m
                r rs h ok in
            subst (λ q. IsOk (taken m q).1) (sym e) v
        | inr bad ↦
            subst (λ q. IsOk (taken m q).1)
              (sym (
                insert_rows-wal_failed name_of clock (λ rows. (log.append (r ∷ rs) w).0) after m r
                  rs bad))
              h
      ]

  insert_turn-IsOk :
      (clock : ℕ → ℕ → ℕ) (n : ℕ)
      → AfterEpoch clock
      → (t : Inserting W) (p : Partition) → IsOk p
      → IsOk (insert_turn log name_of clock n t p).1
  unfolding insert_turn
  insert_turn-IsOk clock n after t p h =
      let r = insert_into log name_of (clock t.turn) t.wal p t.rows in
      elim (Bool-cases (ltb t.turn n && ltb t.turn 2 && not (none_left t.rows))) [
        | inl on ↦
            rw (insert_turn, on)
              (subst IsOk (sym (inserted_turn-part t r.0.0 r.0.1 r.1))
                (insert_into-IsOk (clock t.turn) (after t.turn) t.wal p t.rows h))
        | inr off ↦ rw (insert_turn, off) h
      ]

  punctuated-IsSound :
      (s : Storage W) (r : Bool × W) → IsSound s → IsSound (punctuated log name_of s r).1
  punctuated-IsSound s (true, w) h = h
  punctuated-IsSound s (false, w) h = h

  pub new_partition-IsSound :
      (s : Storage W) (b : Bool) → IsSound s → IsSound (new_partition log name_of s none b).1
  unfolding new_partition
  new_partition-IsSound s b (ps, h, all) =
      let m = new_memory_partition s.settings.partition_duration s.settings.timestamp_precision in
      let s' : Storage W = record s { partition_list = insert s.partition_list (memory m) } in
      let added : IsSound s' = (
        memory m ∷ ps,
        insert_lem s.partition_list ps (memory m) h,
        (new_memory_partition-IsValidPartition _ _, all),
      ) in
      elim (Bool-cases b) [
        | inl y ↦ rw y (punctuated-IsSound s' (log.punctuate s.wal) added)
        | inr n ↦ rw n added
      ]

  flush_started-IsSound :
      (r : Option StorageError × Storage W) → IsSound r.1 → IsSound (flush_started log name_of r).1
  flush_started-IsSound (none, s) h = h
  flush_started-IsSound (some e, s) h = h

  ensure_active_head-IsSound :
      (s : Storage W) → IsSound s → IsSound (ensure_active_head log name_of s).1
  unfolding ensure_active_head
  ensure_active_head-IsSound s h =
      let added =
        flush_started-IsSound (new_partition log name_of s none true)
          (new_partition-IsSound s true h) in
      elim (Option-cases (get_head s.partition_list)) [
        | inl e ↦ rw (ensure_active_head, e) added
        | inr (p, e) ↦ elim (Bool-cases (is_active p)) [
          | inl y ↦ rw (ensure_active_head, e, y) h
          | inr n ↦ rw (ensure_active_head, e, n) added
        ]
      ]

  insert_ready-IsSound :
      (clock : ℕ → ℕ → ℕ) (rows : List Row)
      → AfterEpoch clock
      → (r : Option StorageError × Storage W) → IsSound r.1
      → IsSound (insert_ready log name_of clock rows r).1
  insert_ready-IsSound clock rows after (some e, s) h = h
  insert_ready-IsSound clock rows after (none, s) (ps, h, all) =
      let body = insert_turn log name_of clock s.partition_list.num_partitions in
      let t : Inserting W = record { turn = 0; rows = rows; wal = s.wal; error = none } in
      (
        (each_item body ps t).1,
        (each_lem body s.partition_list t ps h).1,
        each_item-All IsOk body ps t (insert_turn-IsOk clock s.partition_list.num_partitions after)
            all,
      )

  pub insert_rows-IsSound :
      (clock : ℕ → ℕ → ℕ) (admitted : Bool) (s : Storage W) (rows : List Row)
      → AfterEpoch clock
      → IsSound s
      → IsSound (insert_rows log name_of clock admitted s rows).1
  unfolding insert_rows
  insert_rows-IsSound clock admitted s rows after h = elim (Bool-cases admitted) [
    | inl y ↦
        rw (insert_rows, y)
          (insert_ready-IsSound clock rows after (ensure_active_head log name_of s)
            (ensure_active_head-IsSound s h))
    | inr n ↦ rw (insert_rows, n) h
  ]
