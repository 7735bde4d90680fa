-- ===== src/Storage/Retire.antt =====
-- Taking partitions out of the storage: `removeExpiredPartitions`, and `flushPartitions` in memory.
use mathlib.Core.Path.{subst}
use tstorage.Base.{
  ℕ, zero, suc, ◌≡◌, refl, sym, ap, ◌∙◌, Bool, true, false, not, ◌==◌, ==_iff, Bool-cases, inl, inr,
}
use tstorage.Base.{
  List, [], ◌∷◌, ◌++◌, append_assoc, Option, none, some, filter, take, drop, take-append-drop, All,
  All-map, All-drop, All-append, IsOrdered,
}
use tstorage.Wal.{Wal}
use tstorage.DiskPartition.{DiskPartition}
use tstorage.Partition.{Partition, memory, disk, min_timestamp, is_expired, same_partitions, clean}
use tstorage.PartitionList.{PartitionList, ListError, remove}
use tstorage.PartitionList.Changes.{Holds, find_first, drop_first}
use tstorage.PartitionList.Refines.{search_error, remove_lem, to_list_lem}
use tstorage.Storage.{Storage, StorageError, in_memory_mode}
use tstorage.Storage.Upkeep.{
  System, and_then, relisted, remove_part, remove_parts, remove_expired_partitions, flush_part,
  flush_parts, flush_partitions,
}

-- The min timestamps of two partitions differ.
abbrev pub Differ : Partition → Partition → Type 0
Differ p q = (min_timestamp p == min_timestamp q) ≡ false

abbrev pub is_memory : Partition → Bool
is_memory (memory m) = true
is_memory (disk d) = false

pub first_lem :
    (kept rest : List Partition) (p : Partition)
    → All (λ k. Differ k p) kept
    → (find_first (λ x. same_partitions x p) (kept ++ p ∷ rest) ≡ some p)
      × (drop_first (λ x. same_partitions x p) (kept ++ p ∷ rest) ≡ kept ++ rest)
first_lem [] rest p h =
    let same : (min_timestamp p == min_timestamp p) ≡ true = (==_iff _ _).1 refl in
    (rw same refl, rw same refl)
first_lem (k ∷ kept) rest p (d, h) =
    let (i, j) = first_lem kept rest p h in (rw d i, rw d (ap (◌∷◌ k) j))

pub search_error-some :
    {P : Type 0} (kept rest : List P) (p : P) (e : Option ListError)
    → search_error (kept ++ p ∷ rest) (some p) e ≡ e
search_error-some [] rest p e = refl
search_error-some (k ∷ kept) rest p e = refl

-- What comes behind the first two differs from them.
pub IsOrdered-split :
    (n : ℕ) (ps : List Partition)
    → IsOrdered Differ ps
    → All (λ k. All (Differ k) (drop n ps)) (take n ps) × IsOrdered Differ (drop n ps)
IsOrdered-split zero ps o = (tt, o)
IsOrdered-split (suc n) [] o = (tt, tt)
IsOrdered-split (suc n) (p ∷ ps) (b, o) =
    let (d, o') = IsOrdered-split n ps o in ((All-drop _ n ps b, d), o')

module _ {W : Type 0} (log : Wal W) (sys : System)
    (cleans : (d : DiskPartition) → sys.remove_dir d ≡ true) where
  clean_lem : (p : Partition) → clean sys.remove_dir p ≡ true
  clean_lem (memory m) = refl
  clean_lem (disk d) = cleans d

  -- What taking out leaves.
  abbrev Leaves : Storage W → Option StorageError × Storage W → List Partition → Type 0
  Leaves s r ps = (r.0 ≡ none) × Holds r.1.partition_list ps × (r.1.settings ≡ s.settings)

  pub remove_part_lem :
      (s : Storage W) (kept rest : List Partition) (p : Partition)
      → Holds s.partition_list (kept ++ p ∷ rest)
      → All (λ k. Differ k p) kept
      → (s' : Storage W) × (remove_part log sys s p ≡ (none, s'))
        × Holds s'.partition_list (kept ++ rest)
        × (s'.settings ≡ s.settings)
  remove_part_lem s kept rest p h d =
      let (e, h') =
        remove_lem same_partitions (clean sys.remove_dir) s.partition_list p (kept ++ p ∷ rest) h in
      let (i, j) = first_lem kept rest p d in
      let r = remove same_partitions (clean sys.remove_dir) s.partition_list p in
      let fine : r.0 ≡ none = e ∙ rw (i, clean_lem p) (search_error-some kept rest p none) in
      (
        record s { partition_list = r.1 },
        ap (λ x. relisted s (x, r.1)) fine,
        subst (Holds r.1) j h',
        refl,
      )

  pub remove_parts_lem :
      (test : Partition → Bool) (s : Storage W) (kept rest : List Partition)
      → Holds s.partition_list (kept ++ rest)
      → All (λ k. All (Differ k) rest) kept
      → IsOrdered Differ rest
      → (s' : Storage W) × (remove_parts log sys (filter test rest) s ≡ (none, s'))
        × Holds s'.partition_list (kept ++ filter (λ p. not (test p)) rest)
  unfolding remove_parts
  remove_parts_lem test s kept [] h d o = (s, refl, h)
  remove_parts_lem test s kept (p ∷ rest) h d (b, o) = elim (Bool-cases (test p)) [
    | inl out ↦
        let (s', e, h', es) = remove_part_lem s kept rest p h (All-map (λ k w. w.0) kept d) in
        let (s'', e', h'') =
          remove_parts_lem test s' kept rest h' (All-map (λ k w. w.1) kept d) o in
        (s'', rw (out, remove_parts, e) e', rw out h'')
    | inr stay ↦
        let next = append_assoc kept (p ∷ []) rest in
        let (s', e, h') =
          remove_parts_lem test s (kept ++ p ∷ []) rest
            (subst (Holds s.partition_list) (sym next) h)
            (All-append _ kept (p ∷ []) (All-map (λ k w. w.1) kept d) (b, tt)) o in
        (
          s',
          rw stay e,
          rw stay (
              subst (Holds s'.partition_list)
                (append_assoc kept (p ∷ []) (filter (λ q. not (test q)) rest)) h'),
        )
  ]

  -- removeExpiredPartitions, when the min timestamps of the partitions differ and directories can
  -- be removed, gives no error and leaves exactly the partitions that have not expired, in their
  -- order.
  pub remove_expired_partitions_lem :
      (s : Storage W) (ps : List Partition)
      → Holds s.partition_list ps
      → IsOrdered Differ ps
      → (s' : Storage W) × (remove_expired_partitions log sys s ≡ (none, s'))
        × Holds s'.partition_list (filter (λ p. not (is_expired sys.now p)) ps)
  unfolding remove_expired_partitions
  remove_expired_partitions_lem s ps h o =
      let (s', e, h') = remove_parts_lem (is_expired sys.now) s [] ps h tt o in
      (s', rw (remove_expired_partitions, to_list_lem s.partition_list ps h) e, h')

  relisted-settings :
      (s : Storage W) (r : Option ListError × PartitionList Partition)
      → (relisted s r).1.settings ≡ s.settings
  relisted-settings s (none, l) = refl
  relisted-settings s (some e, l) = refl

  and_then-same :
      (f g : Storage W → Option StorageError × Storage W) (r : Option StorageError × Storage W)
      → f r.1 ≡ g r.1
      → and_then r f ≡ and_then r g
  and_then-same f g (none, s) e = e
  and_then-same f g (some x, s) e = refl

  -- In the in-memory mode the partitions in memory are taken out.
  flush_parts-in_memory :
      (s : Storage W) (ps : List Partition)
      → in_memory_mode s.settings ≡ true
      → flush_parts log sys ps s ≡ remove_parts log sys (filter is_memory ps) s
  unfolding flush_parts flush_part remove_parts
  flush_parts-in_memory s [] e = refl
  flush_parts-in_memory s (disk d ∷ ps) e = flush_parts-in_memory s ps e
  flush_parts-in_memory s (memory m ∷ ps) e =
      let r = remove same_partitions (clean sys.remove_dir) s.partition_list (memory m) in
      let still = ap in_memory_mode (relisted-settings s r) ∙ e in
      rw (flush_parts, flush_part, e)
        (and_then-same (λ s'. flush_parts log sys ps s')
          (λ s'. remove_parts log sys (filter is_memory ps) s') (relisted s r)
          (flush_parts-in_memory (relisted s r).1 ps still))

  -- flushPartitions in the in-memory mode, when the min timestamps of the partitions differ and
  -- directories can be removed, gives no error, keeps the first two partitions and takes out
  -- exactly the partitions in memory behind them.
  pub flush_partitions-in_memory :
      (s : Storage W) (ps : List Partition)
      → Holds s.partition_list ps
      → IsOrdered Differ ps
      → in_memory_mode s.settings ≡ true
      → (s' : Storage W) × (flush_partitions log sys s ≡ (none, s'))
        × Holds s'.partition_list (take 2 ps ++ filter (λ p. not (is_memory p)) (drop 2 ps))
  unfolding flush_partitions
  flush_partitions-in_memory s ps h o on =
      let (d, o') = IsOrdered-split 2 ps o in
      let (s', e, h') =
        remove_parts_lem is_memory s (take 2 ps) (drop 2 ps)
          (subst (Holds s.partition_list) (sym (take-append-drop 2 ps)) h) d o' in
      (
        s',
        rw (flush_partitions, to_list_lem s.partition_list ps h)
            (flush_parts-in_memory s (drop 2 ps) on ∙ e),
        h',
      )
