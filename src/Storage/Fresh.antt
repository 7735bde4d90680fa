-- ===== src/Storage/Fresh.antt =====
-- The partition that newPartition makes, and `ensureActiveHead`.
use tstorage.Base.{ℕ, suc, ◌≡◌, refl, ap, true, if◌then◌else◌, Bool-cases, inl, inr}
use tstorage.Base.{List, [], ◌∷◌, none}
use tstorage.Rows.{Label}
use tstorage.Wal.{Wal}
use tstorage.MemoryPartition.{MemoryPartition, new_memory_partition}
use tstorage.Partition.{Partition, memory, is_active}
use tstorage.PartitionList.{insert}
use tstorage.PartitionList.Changes.{Holds}
use tstorage.PartitionList.Refines.{insert_lem, get_head_lem}
use tstorage.Storage.{
  Storage, Settings, flush_started, punctuated, ensure_active_head, new_partition,
}

-- The partition that newPartition makes, and the partitions after ensureActiveHead.
abbrev pub fresh_partition : Settings → MemoryPartition
fresh_partition o = new_memory_partition o.partition_duration o.timestamp_precision

abbrev pub headed : Settings → List Partition → List Partition
headed o [] = memory (fresh_partition o) ∷ []
headed o (p ∷ ps) = if is_active p then p ∷ ps else memory (fresh_partition o) ∷ p ∷ ps

module _ {W : Type 0} (log : Wal W) (name_of : List ℕ → List Label → List ℕ) where
  -- What ensureActiveHead leaves, when the log can start a segment.
  pub record Headed (s : Storage W) (ps : List Partition) : Type 0 where
    pub after : Storage W
    pub gives : ensure_active_head log name_of s ≡ (none, after)
    pub holds : Holds after.partition_list (headed s.settings ps)
    pub settings : after.settings ≡ s.settings
    pub closed : after.closed ≡ s.closed

  added :
      (s : Storage W) (ps : List Partition)
      → Holds s.partition_list ps
      → (log.punctuate s.wal).0 ≡ true
      → (after : Storage W) × (flush_started log name_of (new_partition log name_of s none true)
          ≡ (none, after))
        × Holds after.partition_list (memory (fresh_partition s.settings) ∷ ps)
        × (after.settings ≡ s.settings)
        × (after.closed ≡ s.closed)
  unfolding new_partition
  added s ps h ok =
      let w = (log.punctuate s.wal).1 in
      let l = insert s.partition_list (memory (fresh_partition s.settings)) in
      (
        record s { partition_list = l; wal = w; pending_flushes = suc s.pending_flushes },
        ap
            (λ b.
              flush_started log name_of
                (punctuated log name_of (record s { partition_list = l }) (b, w)))
            ok,
        insert_lem s.partition_list ps (memory (fresh_partition s.settings)) h,
        refl,
        refl,
      )

  pub ensure_active_head_lem :
      (s : Storage W) (ps : List Partition)
      → Holds s.partition_list ps
      → (log.punctuate s.wal).0 ≡ true
      → Headed s ps
  unfolding ensure_active_head
  ensure_active_head_lem s [] h ok =
      let (s', e, h', es, ec) = added s [] h ok in
      record {
        after = s';
        gives = rw (ensure_active_head, get_head_lem s.partition_list [] h) e;
        holds = h';
        settings = es;
        closed = ec;
      }
  ensure_active_head_lem s (p ∷ ps) h ok =
      let (s', e, h', es, ec) = added s (p ∷ ps) h ok in
      let head = get_head_lem s.partition_list (p ∷ ps) h in
      elim (Bool-cases (is_active p)) [
        | inl on ↦ record {
          after = s;
          gives = rw (ensure_active_head, head, on) refl;
          holds = rw on h;
          settings = refl;
          closed = refl;
        }
        | inr off ↦ record {
          after = s';
          gives = rw (ensure_active_head, head, off) e;
          holds = rw off h';
          settings = es;
          closed = ec;
        }
      ]
