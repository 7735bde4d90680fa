-- ===== src/Storage/Restart.antt =====
-- `NewStorage` behind a crash: the rows of the old log are in memory again.
use mathlib.Core.Path.{subst}
use mathlib.Core.List.{Perm, reverse, reverse_aux}
use tstorage.Base.{
  ℕ, suc, ◌+◌, ◌≤◌, ◌≡◌, refl, sym, ap, ap₂, ◌∙◌, true, false, Bool, inr, List, [], ◌∷◌, ◌++◌,
  Option, some, none, length, length-map, map, All, arith,
}
use tstorage.Rows.{Row, Label}
use tstorage.Wal.{Wal}
use tstorage.DiskWal.{DiskWal, WalFiles, create_file, disk_wal, new_disk_wal, then_next}
use tstorage.DiskWal.Reader.{read_all, read_segment, next, new_disk_wal_reader, cache_all}
use tstorage.DiskWal.RoundTrip.{logged_row, IsLoggable}
use tstorage.DiskWal.Recovery.{LogStep, rows_of, run_steps, run_from_start}
use tstorage.DiskWal.Writes.{IsWorking, IsNumbered}
use tstorage.DiskWal.Reopen.{
  ReadsInOrder, reopened, new_disk_wal_lem, refresh_lem, punctuate-true, append-true,
}
use tstorage.Label.{marshal_metric_name}
use tstorage.MemoryPartition.{MemoryPartition, stamped}
use tstorage.MemoryPartition.Insert.{IsValidPartition}
use tstorage.MemoryPartition.Contents.{contents, under}
use tstorage.MemoryPartition.First.{named_points}
use tstorage.DiskPartition.{DiskPartition, Directory}
use tstorage.Partition.{Partition, memory, disk}
use tstorage.PartitionList.Changes.{Holds}
use tstorage.PartitionList.Refines.{new-Holds}
use tstorage.Storage.{Storage, in_memory_mode, new_partition}
use tstorage.Storage.Opening.{
  StorageOption, apply_options, default_settings, Surroundings, recovered, read_wal, add_partitions,
  empty_storage, new_storage, open_all,
}
use tstorage.Storage.Fresh.{fresh_partition}
use tstorage.Storage.Heads.{add_partition, add_partitions_lem}
use tstorage.Storage.Insert.{AlwaysTakes, AfterEpoch}
use tstorage.Storage.Recover.{recover_wal_lem}

pub map-reverse_aux :
    {A B : Type 0} (f : A → B) (xs ys : List A)
    → reverse_aux (map f xs) (map f ys) ≡ map f (reverse_aux xs ys)
map-reverse_aux f [] ys = refl
map-reverse_aux f (x ∷ xs) ys = map-reverse_aux f xs (x ∷ ys)

module _ {W : Type 0} (log : Wal W) (name_of : List ℕ → List Label → List ℕ) (clock : ℕ → ℕ → ℕ)
    (takes : AlwaysTakes log) (after_epoch : AfterEpoch clock)
    (refreshes : (w : W) → (log.refresh w).0 ≡ true) where
  new_partition-wal :
      (s : Storage W) (p : Option Partition) → (new_partition log name_of s p false).1.wal ≡ s.wal
  unfolding new_partition
  new_partition-wal s p = refl

  new_storage-recovered :
      (nop w : W) (opts : List StorageOption) (f : Surroundings W) (n : ℕ) (dir : Bool × Directory)
      (dirs : List (Bool × Directory)) (parts : List Partition) (ds : List DiskPartition) (r : Row)
      (rs : List Row)
      → in_memory_mode (apply_options opts default_settings) ≡ false
      → f.data_dir_made ≡ true
      → (apply_options opts default_settings).wal_buffered_size ≡ some n
      → f.new_wal n ≡ some w
      → f.entries ≡ some (dir ∷ dirs)
      → open_all f.mmap (apply_options opts default_settings).retention (dir ∷ dirs) ≡ some parts
      → f.sort parts ≡ map disk ds
      → f.walled ≡ recovered (r ∷ rs)
      → (s : Storage W) × (m : MemoryPartition) × (w' : W) × (new_storage log name_of clock nop opts
            f
          ≡ inr s)
        × Holds s.partition_list (
            memory (fresh_partition (apply_options opts default_settings))
            ∷ memory m
            ∷ map disk (reverse ds))
        × (s.wal ≡ (log.refresh w').1)
        × IsValidPartition m
        × (m.num_points ≡ length (r ∷ rs))
        × ((q : List ℕ)
            → Perm
                (contents q m.metrics)
                (named_points name_of (clock 0) (λ rows. true) 0 (r ∷ rs) q))
  unfolding new_storage
  new_storage-recovered nop w opts f n dir dirs parts ds r rs on_disk made size wal found opens
        sorts old =
      let o = apply_options opts default_settings in
      let s₀ = empty_storage f.capacity o w in
      let (h, e) = add_partitions_lem log name_of (f.sort parts) s₀ [] new-Holds in
      let s₁ = add_partitions log name_of (f.sort parts) s₀ in
      let h' : Holds s₁.partition_list (map disk (reverse ds)) =
        subst (Holds s₁.partition_list)
          (ap (λ k. reverse_aux k []) sorts ∙ map-reverse_aux disk ds []) h in
      let (s₂, m, w', e₂, h₂, es, ew, v, c, q) =
        recover_wal_lem log name_of clock takes after_epoch s₁ (reverse ds) r rs h' refreshes in
      let (h₃, e₃) = add_partition log name_of s₂ (memory m ∷ map disk (reverse ds)) none h₂ in
      let s₃ = (new_partition log name_of s₂ none false).1 in
      (
        s₃,
        m,
        w',
        rw (new_storage, on_disk, made, size, wal, found, opens, old, e₂) refl,
        subst
            (λ k.
              Holds s₃.partition_list
                (memory (fresh_partition k) ∷ memory m ∷ map disk (reverse ds)))
            (es ∙ e) h₃,
        new_partition-wal s₂ none ∙ ew,
        v,
        c,
        q,
      )

module _ (name_of : List ℕ → List Label → List ℕ) (plain : (n : List ℕ) → name_of n [] ≡ n)
    (clock : ℕ → ℕ) where
  -- The names that the rows have in the log are their names from then on.
  named_points-logged :
      (i : ℕ) (rows : List Row) (q : List ℕ)
      → named_points name_of clock (λ rows. true) i (map (logged_row name_of) rows) q
        ≡ named_points name_of clock (λ rows. true) i rows q
  named_points-logged i [] q = refl
  named_points-logged i (r ∷ rows) q =
      ap₂ (λ n ps. under n (stamped name_of clock (λ rows. true) i r.point) q ++ ps)
        (plain (name_of r.metric r.labels)) (named_points-logged (suc i) rows q)

module _ (os : WalFiles) (works : IsWorking os) (removes : os.removes ≡ true)
    (in_order : ReadsInOrder os.read_dir) (label_sort : List Label → List Label) (clock : ℕ → ℕ → ℕ)
    (after_epoch : AfterEpoch clock) where
  -- What the reader finds when the log of `steps` is opened again.
  read_wal-run_steps :
      (name_of : List ℕ → List Label → List ℕ) (b n : ℕ) (steps : List LogStep) (w₀ w₁ : DiskWal)
      → All (IsLoggable name_of) (rows_of steps)
      → 1 + length steps ≤ 10
      → then_next (new_disk_wal os b []) (run_steps name_of os steps) ≡ (true, w₀)
      → new_disk_wal os n w₀.segments ≡ (true, w₁)
      → read_wal os.read_dir (some w₁.segments)
        ≡ recovered (map (logged_row name_of) (rows_of steps))
  unfolding read_wal new_disk_wal_reader cache_all
  read_wal-run_steps name_of b n steps w₀ w₁ h le ran opened =
      let (w, e, read, num, short) =
        run_from_start name_of os works b steps h (omega (arith, le)) in
      let same : w ≡ w₀ = ap (λ z. z.1) (sym e ∙ ran) in
      let (w', e', segments) = new_disk_wal_lem os works n w₀.segments in
      let same' : w' ≡ w₁ = ap (λ z. z.1) (sym e' ∙ opened) in
      let num' : IsNumbered 0 w₀.segments w.index =
        subst (λ z. IsNumbered 0 z.segments w.index) same num in
      let (k, num'', le'', read') = reopened w₀.segments w.index num' (omega (arith, short, le)) in
      let found : w₁.segments ≡ create_file 0 w₀.segments =
        ap (λ z. z.segments) (sym same') ∙ segments in
      rw
        (
          found,
          read_wal,
          new_disk_wal_reader,
          in_order (create_file 0 w₀.segments) k num'' le'',
          cache_all,
          read',
          sym (ap (λ z. z.segments) same),
          read,
        )
        refl

  abbrev named : List ℕ → List Label → List ℕ
  named = marshal_metric_name label_sort

  disk_wal-AlwaysTakes : AlwaysTakes (disk_wal named os)
  disk_wal-AlwaysTakes =
      (λ rows w. append-true os works named rows w, λ w. punctuate-true os works w)

  -- NewStorage behind a crash gives the rows back: let a log that began in an empty directory have
  -- taken at least one row and started segments, in fewer than ten steps, and been flushed; let
  -- files be made, written, closed and removed, a directory of at most ten segments be read in the
  -- order of their indices, points fit into 64 bits and the lengths of names into an int, the clock
  -- be not before the epoch, the data directory have entries, and its partitions open or be passed
  -- over. Then NewStorage with a data path and a WAL in the same directory gives a storage whose
  -- list has a new partition in memory, behind it a valid partition in memory with exactly the rows
  -- of the log (as many points, and under each name a permutation of the points of the rows with
  -- that marshalled name, a timestamp of 0 replaced by the clock), and behind it the partitions on
  -- disk, the last in the order of the sort first. The storage's log then holds no row.
  pub new_storage-run_steps :
      (b n : ℕ) (steps : List LogStep) (r : Row) (rs : List Row) (w₀ w₁ nop : DiskWal)
      (opts : List StorageOption) (f : Surroundings DiskWal) (dir : Bool × Directory)
      (dirs : List (Bool × Directory)) (parts : List Partition) (ds : List DiskPartition)
      → All (IsLoggable named) (rows_of steps)
      → 1 + length steps ≤ 10
      → rows_of steps ≡ r ∷ rs
      → then_next (new_disk_wal os b []) (run_steps named os steps) ≡ (true, w₀)
      → new_disk_wal os n w₀.segments ≡ (true, w₁)
      → in_memory_mode (apply_options opts default_settings) ≡ false
      → f.data_dir_made ≡ true
      → (apply_options opts default_settings).wal_buffered_size ≡ some n
      → f.new_wal n ≡ some w₁
      → f.entries ≡ some (dir ∷ dirs)
      → open_all f.mmap (apply_options opts default_settings).retention (dir ∷ dirs) ≡ some parts
      → f.sort parts ≡ map disk ds
      → f.walled ≡ read_wal os.read_dir (some w₁.segments)
      → (s : Storage DiskWal) × (m : MemoryPartition) × (new_storage
            (disk_wal named os)
            named
            clock
            nop
            opts
            f
          ≡ inr s)
        × Holds s.partition_list (
            memory (fresh_partition (apply_options opts default_settings))
            ∷ memory m
            ∷ map disk (reverse ds))
        × IsValidPartition m
        × (m.num_points ≡ length (r ∷ rs))
        × ((q : List ℕ)
            → Perm
                (contents q m.metrics)
                (named_points named (clock 0) (λ rows. true) 0 (r ∷ rs) q))
        × (read_all s.wal.segments ≡ some [])
  unfolding read_all read_segment next marshal_metric_name
  new_storage-run_steps b n steps r rs w₀ w₁ nop opts f dir dirs parts ds h le rows ran reopens
        on_disk made size found entries opens sorts walled =
      let log = disk_wal named os in
      let old =
        walled
        ∙ read_wal-run_steps named b n steps w₀ w₁ h le ran reopens
        ∙ ap (λ k. recovered (map (logged_row named) k)) rows in
      let (s, m, w, e, holds, wal, v, c, q) =
        new_storage-recovered log named clock disk_wal-AlwaysTakes after_epoch
          (λ w. (refresh_lem os works w removes).0) nop w₁ opts f n dir dirs parts ds
          (logged_row named r) (map (logged_row named) rs) on_disk made size found entries opens
          sorts old in
      (
        s,
        m,
        e,
        holds,
        v,
        c ∙ ap suc (length-map (logged_row named) rs),
        λ k.
            subst (Perm (contents k m.metrics))
              (named_points-logged named (λ x. refl) (clock 0) 0 (r ∷ rs) k) (q k),
        ap (λ z. read_all z.segments) wal ∙ ap read_all (refresh_lem os works w removes).1,
      )
