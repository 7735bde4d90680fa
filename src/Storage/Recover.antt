-- ===== src/Storage/Recover.antt =====
-- The first rows of a new partition at the head of the list, and `recoverWAL`: the rows of an old
-- log go into a new partition, and the log is emptied.
use mathlib.Core.Path.{subst}
use mathlib.Core.List.{Perm}
use tstorage.Base.{ℕ, ◌<◌, ◌≡◌, refl, ap, ◌∙◌, true, false, ltb, ◌&&◌}
use tstorage.Base.{List, [], ◌∷◌, none, length, map, All, arith}
use tstorage.Rows.{Row, Label}
use tstorage.Wal.{Wal}
use tstorage.MemoryPartition.{MemoryPartition, new_memory_partition, lowest, insert_rows, inserted}
use tstorage.MemoryPartition.Insert.{IsValidPartition}
use tstorage.MemoryPartition.Contents.{contents}
use tstorage.MemoryPartition.First.{named_points, insert_rows-first}
use tstorage.MemoryPartition.Spelled.{AllNames, insert_rows-AllNames}
use tstorage.DiskPartition.{DiskPartition}
use tstorage.Partition.{Partition, memory, disk}
use tstorage.PartitionList.Changes.{Holds}
use tstorage.PartitionList.Each.{each, each_item, each_lem}
use tstorage.Storage.{Storage, Settings, Inserting, insert_turn}
use tstorage.Storage.Upkeep.{logged}
use tstorage.Storage.Opening.{recovered, recover_wal, opening}
use tstorage.Storage.Fresh.{fresh_partition, headed, ensure_active_head_lem}
use tstorage.Storage.Insert.{AlwaysTakes, AfterEpoch, Holds-size}
use tstorage.Storage

headed_disk :
    (o : Settings) (ds : List DiskPartition)
    → headed o (map disk ds) ≡ memory (fresh_partition o) ∷ map disk ds
headed_disk o [] = refl
headed_disk o (d ∷ ds) = refl

module _ {W : Type 0} (log : Wal W) (name_of : List ℕ → List Label → List ℕ) (clock : ℕ → ℕ → ℕ)
    (takes : AlwaysTakes log) (after_epoch : AfterEpoch clock) where
  abbrev turn_done : ℕ → W → Inserting W
  turn_done k w = record { turn = k; rows = []; wal = w; error = none }

  -- Without rows the loop stops.
  rest_lem :
      (n k : ℕ) (w : W) (ds : List DiskPartition)
      → each_item (insert_turn log name_of clock n) (map disk ds) (turn_done k w)
        ≡ (turn_done k w, map disk ds)
  unfolding insert_turn
  rest_lem n k w [] = refl
  rest_lem n k w (d ∷ ds) =
      let off : (ltb k n && ltb k 2 && false) ≡ false = ground arith in rw (insert_turn, off) refl

  first_turn :
      (n : ℕ) (w : W) (m m' : MemoryPartition) (r : Row) (rs : List Row) (ds : List DiskPartition)
      → 0 < n
      → insert_rows name_of (clock 0) (λ rows. (log.append (r ∷ rs) w).0) m (r ∷ rs)
        ≡ inserted [] m'
      → each_item
          (insert_turn log name_of clock n)
          (memory m ∷ map disk ds)
          (record { turn = 0; rows = r ∷ rs; wal = w; error = none })
        ≡ (turn_done 1 (log.append (r ∷ rs) w).1, memory m' ∷ map disk ds)
  unfolding insert_turn
  first_turn n w m m' r rs ds pos e =
      let on : (ltb 0 n && ltb 0 2 && true) ≡ true = ground (arith, pos) in
      rw (insert_turn, on, e)
        (ap (λ z. (z.0, memory m' ∷ z.1)) (rest_lem n 1 (log.append (r ∷ rs) w).1 ds))

  -- InsertRows where the head is a new partition in front of partitions on disk.
  pub insert_rows-fresh :
      (s : Storage W) (ps : List Partition) (ds : List DiskPartition) (r : Row) (rs : List Row)
      → Holds s.partition_list ps
      → headed s.settings ps ≡ memory (fresh_partition s.settings) ∷ map disk ds
      → (s' : Storage W) × (m : MemoryPartition) × (Storage.insert_rows log name_of clock true s
            (r ∷ rs)
          ≡ (none, s'))
        × Holds s'.partition_list (memory m ∷ map disk ds)
        × (s'.settings ≡ s.settings)
        × (s'.closed ≡ s.closed)
        × IsValidPartition m
        × (m.num_points ≡ length (r ∷ rs))
        × (m.min_t ≡ lowest r.point.timestamp (r ∷ rs))
        × ((q : List ℕ)
            → Perm
                (contents q m.metrics)
                (named_points name_of (clock 0) (λ rows. true) 0 (r ∷ rs) q))
        × ((P : List ℕ → Type 0)
            → All (λ x. P (name_of x.metric x.labels)) (r ∷ rs)
            → AllNames P m.metrics)
  unfolding Storage.insert_rows new_memory_partition
  insert_rows-fresh s ps ds r rs h front =
      let o = s.settings in
      let head = ensure_active_head_lem log name_of s ps h (takes.1 s.wal) in
      let holds : Holds head.after.partition_list (memory (fresh_partition o) ∷ map disk ds) =
        subst (Holds head.after.partition_list) front head.holds in
      let w = head.after.wal in
      let (m, e, v, c, min, q) =
        insert_rows-first name_of (clock 0) (λ rows. (log.append (r ∷ rs) w).0) (after_epoch 0)
          o.partition_duration o.timestamp_precision r rs (takes.0 (r ∷ rs) w) in
      let n = head.after.partition_list.num_partitions in
      let size = Holds-size head.after.partition_list _ holds in
      let start : Inserting W = record { turn = 0; rows = r ∷ rs; wal = w; error = none } in
      let (er, hr) =
        each_lem (insert_turn log name_of clock n) head.after.partition_list start
          (memory (fresh_partition o) ∷ map disk ds) holds in
      let ft = first_turn n w (fresh_partition o) m r rs ds (omega (arith, size)) e in
      let l = (each (insert_turn log name_of clock n) head.after.partition_list start).1 in
      (
        record head.after { partition_list = l; wal = (log.append (r ∷ rs) w).1 },
        m,
        rw (Storage.insert_rows, head.gives)
            (ap (λ t. (t.error, record head.after { partition_list = l; wal = t.wal }))
              (er ∙ ap (λ z. z.0) ft)),
        subst (Holds l) (ap (λ z. z.1) ft) hr,
        head.settings,
        head.closed,
        v,
        c,
        min,
        q,
        λ P names.
            insert_rows-AllNames P name_of (clock 0) (λ rows. (log.append (r ∷ rs) w).0)
              (fresh_partition o) m r rs [] names tt (takes.0 (r ∷ rs) w) e,
      )

  -- recoverWAL with at least one row in the old log, on a list of partitions on disk, puts a new
  -- partition with exactly these rows in front of the list and refreshes the log.
  pub recover_wal_lem :
      (s : Storage W) (ds : List DiskPartition) (r : Row) (rs : List Row)
      → Holds s.partition_list (map disk ds)
      → ((w : W) → (log.refresh w).0 ≡ true)
      → (s' : Storage W) × (m : MemoryPartition) × (w : W) × (recover_wal log name_of clock
            (recovered (r ∷ rs))
            s
          ≡ (none, s'))
        × Holds s'.partition_list (memory m ∷ map disk ds)
        × (s'.settings ≡ s.settings)
        × (s'.wal ≡ (log.refresh w).1)
        × IsValidPartition m
        × (m.num_points ≡ length (r ∷ rs))
        × ((q : List ℕ)
            → Perm
                (contents q m.metrics)
                (named_points name_of (clock 0) (λ rows. true) 0 (r ∷ rs) q))
  unfolding recover_wal
  recover_wal_lem s ds r rs h refreshes =
      let (s₁, m, inserts, h', es, ec, v, c, min, q, names) =
        insert_rows-fresh s (map disk ds) ds r rs h (headed_disk s.settings ds) in
      (
        record s₁ { wal = (log.refresh s₁.wal).1 },
        m,
        s₁.wal,
        rw (recover_wal, inserts)
            (ap (λ b. opening (logged s₁ (b, (log.refresh s₁.wal).1))) (refreshes s₁.wal)),
        h',
        es,
        refl,
        v,
        c,
        q,
      )
