-- ===== src/Flush/Texts.antt =====
-- The names in the meta file of a flush are those of the partition's metrics.
use tstorage.Base.{
  ℕ, ◌≡◌, Bool, true, List, [], ◌∷◌, ◌++◌, Option, none, some, Bool-cases, inl, inr, All, length,
}
use tstorage.Rows.{DataPoint}
use tstorage.Encoding.{Encoder, flush}
use tstorage.MemoryMetric.{MemoryMetric, encode_all_points}
use tstorage.MemoryPartition.{MemoryPartition, Metrics, same_name}
use tstorage.DiskPartition.{DiskMetric}
use tstorage.Flush.{
  Entries, Files, set_entry, encode_some, disk_metric, flush_encoded, flush_metric, flush_loop,
  flush_partition,
}

module _ (is_text : List ℕ → Bool) where
  abbrev IsText : List ℕ × DiskMetric → Type 0
  IsText (key, m) = (is_text key ≡ true) × (is_text m.name ≡ true)

  -- The keys and the names of the map of a meta file.
  abbrev pub HasText : Entries → Type 0
  HasText entries = All IsText entries

  abbrev InText : List ℕ × MemoryMetric → Type 0
  InText (k, m) = is_text m.name ≡ true

  abbrev pub IsNamedInText : MemoryPartition → Type 0
  IsNamedInText p = All InText p.metrics

  set_entry-HasText :
      (name : List ℕ) (entry : DiskMetric) (entries : Entries)
      → IsText (name, entry)
      → HasText entries
      → HasText (set_entry name entry entries)
  unfolding set_entry
  set_entry-HasText name entry [] t h = (t, tt)
  set_entry-HasText name entry ((k, m) ∷ ms) t (h, hs) = elim (Bool-cases (same_name k name)) [
    | inl same ↦ rw same ((h.0, t.1), hs)
    | inr other ↦ rw other (h, set_entry-HasText name entry ms t hs)
  ]

  abbrev Keeps : Option Files → Type 0
  Keeps none = Unit
  Keeps (some f) = HasText f.entries

  module _ (sort : List DataPoint → List DataPoint) (write : List ℕ → Bool) where
    flush_encoded-Keeps :
        (m : MemoryMetric) (f : Files) (o : Option Encoder)
        → is_text m.name ≡ true
        → HasText f.entries
        → Keeps (flush_encoded sort write m f o)
    unfolding flush_encoded
    flush_encoded-Keeps m f none t h = tt
    flush_encoded-Keeps m f (some e) t h = go (flush write e)
      where
        go :
            (r : Option (List ℕ × Encoder))
            → Keeps (elim r as (λ x. Option Files) [
              | none ↦ none
              | some (bytes, e') ↦ some (record {
                written = f.written ++ bytes;
                encoder = e';
                entries = set_entry m.name (disk_metric m (length f.written)) f.entries;
              })
            ])
        go none = tt
        go (some (bytes, e')) = set_entry-HasText m.name _ f.entries (t, t) h

    flush_metric-Keeps :
        (m : MemoryMetric) (f : Files)
        → is_text m.name ≡ true
        → HasText f.entries
        → Keeps (flush_metric sort write m f)
    unfolding flush_metric encode_all_points
    flush_metric-Keeps m f t h =
        let done = encode_all_points encode_some sort f.encoder m in
        flush_encoded-Keeps done.1 f done.0 t h

    flush_loop-HasText :
        (ms : Metrics) (f : Files)
        → All InText ms
        → HasText f.entries
        → HasText (flush_loop sort write ms f).entries
    unfolding flush_loop
    flush_loop-HasText [] f t h = h
    flush_loop-HasText ((k, m) ∷ ms) f (t, ts) h =
        go (flush_metric sort write m f) (flush_metric-Keeps m f t h)
          (λ f' k. flush_loop-HasText ms f' ts k)
      where
        go :
            (r : Option Files)
            → Keeps r
            → ((f' : Files) → HasText f'.entries → HasText (flush_loop sort write ms f').entries)
            → HasText
                (elim r as (λ x. Files) [
                  | none ↦ f
                  | some f' ↦ flush_loop sort write ms f'
                ]).entries
        go none k rest = h
        go (some f') k rest = rest f' k

    pub flush_partition-HasText :
        (now : ℕ) (p : MemoryPartition)
        → IsNamedInText p
        → HasText (flush_partition sort write now p).1.metrics
    unfolding flush_partition
    flush_partition-HasText now p t = flush_loop-HasText p.metrics _ t tt
