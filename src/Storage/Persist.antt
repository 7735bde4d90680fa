-- ===== src/Storage/Persist.antt =====
-- `flushPartitions` with a data path: partitions in memory become partitions on disk.
use mathlib.Core.Path.{subst}
use tstorage.Base.{ℕ, ◌≡◌, refl, sym, ap, ◌∙◌, Bool, true, false, ◌==◌, ==_iff}
use tstorage.Base.{
  List, [], ◌∷◌, ◌++◌, append_assoc, none, some, take, drop, take-append-drop, All, All-map,
  All-append, IsOrdered,
}
use tstorage.Wal.{Wal}
use tstorage.MemoryPartition.{MemoryPartition}
use tstorage.DiskPartition.{DiskPartition, Directory, Meta, open_disk_partition}
use tstorage.Flush.{flush_partition}
use tstorage.Flush.Texts.{HasText, IsNamedInText, flush_partition-HasText}
use tstorage.Partition.{Partition, memory, disk, min_timestamp, same_partitions}
use tstorage.PartitionList.{swap}
use tstorage.PartitionList.Changes.{Holds, replace_first}
use tstorage.PartitionList.Refines.{swap_lem, to_list_lem}
use tstorage.Storage.{Storage, Settings, in_memory_mode}
use tstorage.Storage.Upkeep.{
  System, and_then, logged, relisted, swap_part, flush_part, flush_parts, flush_partitions,
  stored_part, flush_into,
}
use tstorage.Storage.Retire.{Differ, first_lem, search_error-some, remove_part_lem, IsOrdered-split}

-- The names in a partition in memory are valid UTF-8.
abbrev pub IsTextual : (List ℕ → Bool) → Partition → Type 0
IsTextual is_text (memory m) = IsNamedInText is_text m
IsTextual is_text (disk d) = Unit

-- A directory with the two files of a partition in it.
abbrev pub with_files : List ℕ → List ℕ × Meta → Directory
with_files path (bytes, meta) = record {
  path = path;
  has_meta = true;
  data_file = some bytes;
  meta_file = some meta;
}

-- The operating system and the libraries do what they are asked to: directories and files can be
-- made, a directory holds what has been put into it, a meta file whose names are valid UTF-8 is
-- decoded to what was encoded, a file's mapping is its content, directories can be removed.
pub record IsReliable (sys : System) : Type 0 where
  pub names :
      (path : List ℕ) (lo hi : ℕ)
      → (c : ℕ) × (rest : List ℕ) × (sys.partition_path path lo hi ≡ c ∷ rest)
  pub makes : (path : List ℕ) → sys.make_dir path ≡ true
  pub creates : (path : List ℕ) → sys.create path ≡ true
  pub marshals : (meta : Meta) → sys.marshal meta ≡ true
  pub writes : (path : List ℕ) (meta : Meta) → sys.write_meta path meta ≡ true
  pub finds :
      (path : List ℕ) (files : List ℕ × Meta)
      → HasText sys.is_text files.1.metrics
      → sys.found path files ≡ with_files path files
  pub maps : (bytes : List ℕ) → sys.mmap bytes ≡ some bytes
  pub cleans : (d : DiskPartition) → sys.remove_dir d ≡ true

-- A partition on disk of what `flush` writes, and none where it writes no point.
abbrev pub on_disk : ℕ → List ℕ × Meta → List Partition
on_disk retention ([], meta) = []
on_disk retention (b ∷ bytes, meta) =
    disk (record { meta = meta; mapped_file = b ∷ bytes; retention = retention }) ∷ []

abbrev pub persisted : System → ℕ → List Partition → List Partition
persisted sys retention [] = []
persisted sys retention (disk d ∷ ps) = disk d ∷ persisted sys retention ps
persisted sys retention (memory m ∷ ps) =
    on_disk retention (flush_partition sys.sort sys.write sys.now m) ++ persisted sys retention ps

replace_lem :
    (kept rest : List Partition) (p q : Partition)
    → All (λ k. Differ k p) kept
    → replace_first (λ x. same_partitions x p) q (kept ++ p ∷ rest) ≡ kept ++ q ∷ rest
replace_lem [] rest p q h =
    let same : (min_timestamp p == min_timestamp p) ≡ true = (==_iff _ _).1 refl in rw same refl
replace_lem (k ∷ kept) rest p q (d, h) = rw d (ap (◌∷◌ k) (replace_lem kept rest p q h))

-- `flush` of a partition whose names are kept.
pub flush_into_lem :
    (sys : System) (ok : IsReliable sys) (path : List ℕ) (lo hi : ℕ) (m : MemoryPartition)
    → IsNamedInText sys.is_text m
    → (c : ℕ) × (rest : List ℕ) × (flush_into sys (sys.partition_path path lo hi) m
        ≡ some (with_files (c ∷ rest) (flush_partition sys.sort sys.write sys.now m)))
unfolding flush_into
flush_into_lem sys ok path lo hi m text =
    let (c, rest, e) = ok.names path lo hi in
    let out = flush_partition sys.sort sys.write sys.now m in
    (
      c,
      rest,
      rw
          (
            e,
            ok.makes (c ∷ rest),
            ok.creates (c ∷ rest),
            ok.marshals out.1,
            ok.writes (c ∷ rest) out.1,
          )
          (ap some (
            ok.finds (c ∷ rest) out
              (flush_partition-HasText sys.is_text sys.sort sys.write sys.now m text))),
    )

module _ {W : Type 0} (log : Wal W) (sys : System) (ok : IsReliable sys)
    (removes : (w : W) → (log.remove_oldest w).0 ≡ true) where
  swap_part_lem :
      (s : Storage W) (kept rest : List Partition) (p q : Partition)
      → Holds s.partition_list (kept ++ p ∷ rest)
      → All (λ k. Differ k p) kept
      → (s' : Storage W) × (swap_part log sys s p q ≡ (none, s'))
        × Holds s'.partition_list (kept ++ q ∷ rest)
        × (s'.settings ≡ s.settings)
  swap_part_lem s kept rest p q h d =
      let (e, h') = swap_lem same_partitions s.partition_list p q (kept ++ p ∷ rest) h in
      let (i, j) = first_lem kept rest p d in
      let r = swap same_partitions s.partition_list p q in
      let fine : r.0 ≡ none = e ∙ rw i (search_error-some kept rest p none) in
      (
        record s { partition_list = r.1; wal = (log.remove_oldest s.wal).1 },
        ap (λ x. and_then (relisted s (x, r.1)) (λ s'. logged s' (log.remove_oldest s'.wal))) fine
            ∙ ap (λ b. logged (record s { partition_list = r.1 }) (b, (log.remove_oldest s.wal).1))
                (removes s.wal),
        subst (Holds r.1) (replace_lem kept rest p q d) h',
        refl,
      )

  -- One partition in memory is flushed; `out` is what `flush` writes.
  stored_lem :
      (s : Storage W) (kept rest : List Partition) (m : MemoryPartition) (c : ℕ) (path : List ℕ)
      (out : List ℕ × Meta)
      → Holds s.partition_list (kept ++ memory m ∷ rest)
      → All (λ k. Differ k (memory m)) kept
      → (s' : Storage W) × (stored_part log sys s m (some (with_files (c ∷ path) out)) ≡ (none, s'))
        × Holds s'.partition_list (kept ++ (on_disk s.settings.retention out ++ rest))
        × (s'.settings ≡ s.settings)
  unfolding open_disk_partition
  stored_lem s kept rest m c path ([], meta) h d =
      let (s', e', h', es) = remove_part_lem log sys ok.cleans s kept rest (memory m) h d in
      (s', e', h', es)
  stored_lem s kept rest m c path (b ∷ bytes, meta) h d =
      let new : DiskPartition = record {
        meta = meta;
        mapped_file = b ∷ bytes;
        retention = s.settings.retention;
      } in
      let (s', e', h', es) = swap_part_lem s kept rest (memory m) (disk new) h d in
      (s', rw (ok.maps (b ∷ bytes)) e', h', es)

  -- What is put on disk differs from what the partition in memory differs from.
  on_disk-Differ :
      (retention : ℕ) (m : MemoryPartition) (ps : List Partition)
      → All (Differ (memory m)) ps
      → All
          (λ k. All (Differ k) ps)
          (on_disk retention (flush_partition sys.sort sys.write sys.now m))
  unfolding flush_partition
  on_disk-Differ retention m ps d = go (flush_partition sys.sort sys.write sys.now m).0
    where
      go :
          (bytes : List ℕ)
          → All
              (λ k. All (Differ k) ps)
              (on_disk retention (bytes, (flush_partition sys.sort sys.write sys.now m).1))
      go [] = tt
      go (b ∷ bytes) = (d, tt)

  pub flush_parts_lem :
      (o : Settings) (s : Storage W) (kept rest : List Partition)
      → s.settings ≡ o
      → in_memory_mode o ≡ false
      → Holds s.partition_list (kept ++ rest)
      → All (λ k. All (Differ k) rest) kept
      → IsOrdered Differ rest
      → All (IsTextual sys.is_text) rest
      → (s' : Storage W) × (flush_parts log sys rest s ≡ (none, s'))
        × Holds s'.partition_list (kept ++ persisted sys o.retention rest)
  unfolding flush_parts flush_part
  flush_parts_lem o s kept [] es off h d ord text = (s, refl, h)
  flush_parts_lem o s kept (disk q ∷ rest) es off h d (b, ord) (t, text) =
      let next = append_assoc kept (disk q ∷ []) in
      let (s', e, h') =
        flush_parts_lem o s (kept ++ disk q ∷ []) rest es off
          (subst (Holds s.partition_list) (sym (next rest)) h)
          (All-append _ kept (disk q ∷ []) (All-map (λ k w. w.1) kept d) (b, tt)) ord text in
      (s', e, subst (Holds s'.partition_list) (next (persisted sys o.retention rest)) h')
  flush_parts_lem o s kept (memory m ∷ rest) es off h d (b, ord) (t, text) =
      let out = flush_partition sys.sort sys.write sys.now m in
      let next = append_assoc kept (on_disk s.settings.retention out) in
      let (c, path, put) = flush_into_lem sys ok s.settings.data_path m.min_t m.max_t m t in
      let (s₁, e₁, h₁, es₁) = stored_lem s kept rest m c path out h (All-map (λ k w. w.0) kept d) in
      let (s', e, h') =
        flush_parts_lem o s₁ (kept ++ on_disk s.settings.retention out) rest (es₁ ∙ es) off
          (subst (Holds s₁.partition_list) (sym (next rest)) h₁)
          (All-append _ kept _ (All-map (λ k w. w.1) kept d)
            (on_disk-Differ s.settings.retention m rest b))
          ord text in
      (
        s',
        rw (flush_parts, flush_part, ap in_memory_mode es ∙ off, put, e₁) e,
        subst
            (λ k.
              Holds s'.partition_list (kept ++ (on_disk k out ++ persisted sys o.retention rest)))
            (ap (λ k. k.retention) es)
            (subst (Holds s'.partition_list) (next (persisted sys o.retention rest)) h'),
      )

  -- flushPartitions with a data path, when the min timestamps of the partitions differ, the
  -- operating system and encoding/json do what they document without an error, the names of the
  -- metrics in memory behind the first two partitions are valid UTF-8, and the log can remove its
  -- oldest segment, gives no error and keeps the first two partitions; behind them, partitions on
  -- disk stay, and each partition in memory is replaced, in its place, by the partition on disk of
  -- what flush writes for it, or taken out when flush writes no byte.
  pub flush_partitions_lem :
      (s : Storage W) (ps : List Partition)
      → Holds s.partition_list ps
      → IsOrdered Differ ps
      → in_memory_mode s.settings ≡ false
      → All (IsTextual sys.is_text) (drop 2 ps)
      → (s' : Storage W) × (flush_partitions log sys s ≡ (none, s'))
        × Holds s'.partition_list (take 2 ps ++ persisted sys s.settings.retention (drop 2 ps))
  unfolding flush_partitions
  flush_partitions_lem s ps h o off text =
      let (d, o') = IsOrdered-split 2 ps o in
      let (s', e, h') =
        flush_parts_lem s.settings s (take 2 ps) (drop 2 ps) refl off
          (subst (Holds s.partition_list) (sym (take-append-drop 2 ps)) h) d o' text in
      (s', rw (flush_partitions, to_list_lem s.partition_list ps h) e, h')
