-- ===== src/Storage/Told.antt =====
-- Partitions in memory and partitions that have been flushed, each with what it has for a selection.
use tstorage.Base.{ℕ, ◌-◌, ◌≤◌, ◌≡◌, refl, sym, ap, ◌∙◌, true, ◌==◌, inl, inr}
use tstorage.Base.{
  List, [], ◌∷◌, ◌++◌, map, if◌then◌else◌, append-nil, append_assoc, All, IsOrdered,
}
use tstorage.Words.{biased}
use tstorage.Rows.{DataPoint, Label}
use tstorage.Encoding.Decoder.RoundTrip.{IsEncodable}
use tstorage.MemoryMetric.Encode.{Sorts}
use tstorage.MemoryPartition.{MemoryPartition, load}
use tstorage.MemoryPartition.Insert.{IsValidPartition}
use tstorage.DiskPartition.{Meta}
use tstorage.Flush.{flush_partition}
use tstorage.Flush.Ranges.{
  encoded_points, range_points, range_points-after, range_points-before, flush-empty,
  flushed-answer,
}
use tstorage.Partition.{min_timestamp, answer_disk, memory, disk}
use tstorage.Storage.Windows.{
  window, all_points, IsBehind, if-nil, window_lem, window-after, window-before,
}
use tstorage.Storage.Mixed.{Told, IsLater, Gives, told_points}
use tstorage.Storage.Upkeep.{System}
use tstorage.Storage.Persist.{on_disk, persisted}

module _ (name : List ℕ) (start end : ℕ) where
  -- A partition in memory with its window.
  abbrev pub in_memory_told : MemoryPartition → Told
  in_memory_told m = (memory m, window name start end m)

  module _ (sys : System) (retention : ℕ) where
    -- The partitions that a flush leaves, with what the flushed points have in the range.
    abbrev pub flushed_told : List MemoryPartition → List Told
    flushed_told [] = []
    flushed_told (m ∷ ms) =
        map (λ p. (p, range_points sys.sort name start end m))
          (on_disk retention (flush_partition sys.sort sys.write sys.now m))
        ++ flushed_told ms

    told-on_disk :
        (qs : List DataPoint) (out : List ℕ × Meta) (rest : List Told)
        → map (λ e. e.0) (map (λ p. (p, qs)) (on_disk retention out) ++ rest)
          ≡ on_disk retention out ++ map (λ e. e.0) rest
    told-on_disk qs ([], meta) rest = refl
    told-on_disk qs (b ∷ bytes, meta) rest = refl

    pub persisted-told :
        (ms : List MemoryPartition)
        → map (λ e. e.0) (flushed_told ms) ≡ persisted sys retention (map memory ms)
    persisted-told [] = refl
    persisted-told (m ∷ ms) =
        let out = flush_partition sys.sort sys.write sys.now m in
        told-on_disk (range_points sys.sort name start end m) out (flushed_told ms)
        ∙ ap (λ k. on_disk retention out ++ k) (persisted-told ms)

    -- What holds of one told partition holds of all that a file gives.
    told-All :
        (P : Told → Type 0) (qs : List DataPoint) (file : List ℕ) (meta : Meta) (rest : List Told)
        → P (disk (record { meta = meta; mapped_file = file; retention = retention }), qs)
        → All P rest
        → All P (map (λ p. (p, qs)) (on_disk retention (file, meta)) ++ rest)
    told-All P qs [] meta rest h hs = hs
    told-All P qs (b ∷ bytes) meta rest h hs = (h, hs)

    pub flushed-IsLater :
        (e : Told) (ms : List MemoryPartition)
        → All (λ m. IsLater e (in_memory_told m)) ms
        → All (IsLater e) (flushed_told ms)
    unfolding flush_partition
    flushed-IsLater e [] h = tt
    flushed-IsLater e (m ∷ ms) (h, hs) =
        let out = flush_partition sys.sort sys.write sys.now m in
        told-All (IsLater e) (range_points sys.sort name start end m) out.0 out.1 (flushed_told ms)
          h (flushed-IsLater e ms hs)

    told-IsOrdered :
        (qs : List DataPoint) (file : List ℕ) (meta : Meta) (rest : List Told)
        → All
            (IsLater (disk (record { meta = meta; mapped_file = file; retention = retention }), qs))
            rest
        → IsOrdered IsLater rest
        → IsOrdered IsLater (map (λ p. (p, qs)) (on_disk retention (file, meta)) ++ rest)
    told-IsOrdered qs [] meta rest h o = o
    told-IsOrdered qs (b ∷ bytes) meta rest h o = (h, o)

    pub flushed-IsOrdered :
        (ms : List MemoryPartition) → IsOrdered IsBehind ms → IsOrdered IsLater (flushed_told ms)
    unfolding flush_partition
    flushed-IsOrdered [] o = tt
    flushed-IsOrdered (m ∷ ms) (b, o) =
        let out = flush_partition sys.sort sys.write sys.now m in
        let qs = range_points sys.sort name start end m in
        told-IsOrdered qs out.0 out.1 (flushed_told ms)
          (flushed-IsLater
            (disk (record { meta = out.1; mapped_file = out.0; retention = retention }), qs) ms b)
          (flushed-IsOrdered ms o)

    -- What the flushed partitions have in the range, oldest first.
    abbrev pub flushed_points : List MemoryPartition → List DataPoint
    flushed_points [] = []
    flushed_points (m ∷ ms) =
        flushed_points ms ++ (if m.min_t == 0 then [] else range_points sys.sort name start end m)

    module _ (sorts : Sorts sys.sort) (ok : (xs : List ℕ) → sys.write xs ≡ true) where
      told-sum :
          (m : MemoryPartition) (file : List ℕ) (rest : List Told)
          → (file ≡ [] → range_points sys.sort name start end m ≡ [])
          → told_points (
              map
                (λ p. (p, range_points sys.sort name start end m))
                (on_disk retention (file, (flush_partition sys.sort sys.write sys.now m).1))
              ++ rest)
            ≡ told_points rest
              ++ (if m.min_t == 0 then [] else range_points sys.sort name start end m)
      unfolding flush_partition
      told-sum m [] rest h =
          sym (append-nil (told_points rest))
          ∙ ap (λ k. told_points rest ++ k) (sym (if-nil (m.min_t == 0) _ (h refl)))
      told-sum m (b ∷ bytes) rest h = refl

      pub flushed-sum :
          (ms : List MemoryPartition)
          → All IsValidPartition ms
          → told_points (flushed_told ms) ≡ flushed_points ms
      flushed-sum [] v = refl
      flushed-sum (m ∷ ms) (v, vs) =
          told-sum m (flush_partition sys.sort sys.write sys.now m).0 (flushed_told ms)
            (flush-empty sys.sort sorts m name start end v sys.write sys.now ok)
          ∙ ap (λ k. k ++ (if m.min_t == 0 then [] else range_points sys.sort name start end m))
              (flushed-sum ms vs)

pub told_points-append :
    (xs ys : List Told) → told_points (xs ++ ys) ≡ told_points ys ++ told_points xs
told_points-append [] ys = sym (append-nil (told_points ys))
told_points-append ((p, qs) ∷ xs) ys =
    ap (λ k. k ++ (if min_timestamp p == 0 then [] else qs)) (told_points-append xs ys)
    ∙ append_assoc (told_points ys) (told_points xs) (if min_timestamp p == 0 then [] else qs)

module _ (name_of : List ℕ → List Label → List ℕ) (now : ℕ) (metric : List ℕ) (labels : List Label)
    (start end : ℕ) where
  abbrev pub told_here : MemoryPartition → Told
  told_here = in_memory_told (name_of metric labels) start end

  pub memory-Gives :
      (ms : List MemoryPartition)
      → All IsValidPartition ms
      → biased start ≤ biased end
      → All (Gives name_of now metric labels start end) (map told_here ms)
  memory-Gives [] v le = tt
  memory-Gives (m ∷ ms) (v, vs) le = (
    record {
      answers = inl (window_lem name_of m metric labels start end v le);
      after = window-after (name_of metric labels) start end m v;
      before = window-before (name_of metric labels) start end m v;
    },
    memory-Gives ms vs le,
  )

  pub memory-IsLater :
      (e : Told) (ms : List MemoryPartition)
      → All (λ m. IsLater e (told_here m)) ms
      → All (IsLater e) (map told_here ms)
  memory-IsLater e [] h = tt
  memory-IsLater e (m ∷ ms) (h, hs) = (h, memory-IsLater e ms hs)

  pub memory-IsOrdered :
      (ms : List MemoryPartition) → IsOrdered IsBehind ms → IsOrdered IsLater (map told_here ms)
  memory-IsOrdered [] o = tt
  memory-IsOrdered (m ∷ ms) (b, o) = (memory-IsLater (told_here m) ms b, memory-IsOrdered ms o)

  pub memory-sum :
      (ms : List MemoryPartition)
      → told_points (map told_here ms) ≡ all_points (name_of metric labels) start end ms
  memory-sum [] = refl
  memory-sum (m ∷ ms) =
      ap (λ k. k ++ (if m.min_t == 0 then [] else window (name_of metric labels) start end m))
        (memory-sum ms)

  pub memory-first : (ms : List MemoryPartition) → map (λ e. e.0) (map told_here ms) ≡ map memory ms
  memory-first [] = refl
  memory-first (m ∷ ms) = ap (◌∷◌ (memory m)) (memory-first ms)

  -- What can be read again of a partition's metric.
  abbrev pub IsReadable : System → MemoryPartition → Type 0
  IsReadable sys m =
      All IsEncodable (encoded_points sys.sort (load (name_of metric labels) m.metrics))

  module _ (sys : System) (retention : ℕ) (sorts : Sorts sys.sort)
      (ok : (xs : List ℕ) → sys.write xs ≡ true) (young : now - sys.now ≤ retention) where
    pub flushed-Gives :
        (ms : List MemoryPartition)
        → All IsValidPartition ms
        → All (IsReadable sys) ms
        → All
            (Gives name_of now metric labels start end)
            (flushed_told (name_of metric labels) start end sys retention ms)
    unfolding flush_partition
    flushed-Gives [] v r = tt
    flushed-Gives (m ∷ ms) (v, vs) (r, rs) =
        let name = name_of metric labels in
        let out = flush_partition sys.sort sys.write sys.now m in
        told-All name start end sys retention (Gives name_of now metric labels start end)
          (range_points sys.sort name start end m) out.0 out.1
          (flushed_told name start end sys retention ms)
          (record {
            answers =
                elim (flushed-answer sys.sort sorts m name start end v sys.write name_of sys.now
                  retention now metric labels ok refl r young) [
                    | inl e ↦ inl (ap answer_disk e)
                    | inr (e, nil) ↦ inr (ap answer_disk e, nil)
                  ];
            after = range_points-after sys.sort sorts m name start end v;
            before = range_points-before sys.sort sorts m name start end v;
          })
          (flushed-Gives ms vs rs)
