-- ===== src/Flush/Select.antt =====
-- Selections of the disk partition on what a flush computes.
use mathlib.Core.Path.{subst}
use mathlib.Core.Option.{some-injective, some-ne-none}
use mathlib.Core.List.{Perm}
use mathlib.Core.List.Perm
use tstorage.Base.{ℕ, zero, suc, ◌≡◌, refl, sym, ap, ◌∙◌, Bool, true, false, arith}
use tstorage.Base.{List, [], ◌∷◌, ◌++◌, some, All, IsOrdered, IsOrdered-map, filter, get_elem?}
use tstorage.Rows.{DataPoint, Label}
use tstorage.Encoding.{new_encoder}
use tstorage.Encoding.Decoder.RoundTrip.{IsEncodable}
use tstorage.MemoryMetric.{MemoryMetric}
use tstorage.MemoryMetric.Valid.{IsValid}
use tstorage.MemoryMetric.Encode.{IsUpTo, Sorts, merged-Perm, merged-IsOrdered}
use tstorage.MemoryPartition.{MemoryPartition}
use tstorage.MemoryPartition.Valid.{AllValid}
use tstorage.DiskPartition.{DiskPartition, disk_select, selected, expired, find_metric}
use tstorage.DiskPartition.Select.{in_range, disk_select_lem}
use tstorage.Flush.{Files, flush_loop, flush_partition}
use tstorage.Flush.Placed.{IsPlaced, IsNamed, flush_loop_lem, sorted_points}

pub All-get_elem? :
    {A : Type 0} (P : A → Type 0) (xs : List A) (i : ℕ) (x : A)
    → All P xs
    → get_elem? xs i ≡ some x
    → P x
All-get_elem? P [] i x h e = absurd (some-ne-none x (sym e))
All-get_elem? P (y ∷ xs) zero x (h, hs) e = subst P (some-injective _ _ e) h
All-get_elem? P (y ∷ xs) (suc i) x (h, hs) e = All-get_elem? P xs i x hs e

-- The disk partition on what flush computes; the meta file gives it back where its names are valid
-- UTF-8.
abbrev pub flushed :
    (List DataPoint → List DataPoint) → (List ℕ → Bool) → ℕ → ℕ → MemoryPartition → DiskPartition
flushed sort write created retention p =
    let (file, m) = flush_partition sort write created p in
    record { meta = m; mapped_file = file; retention = retention }

-- The disk partition selects from the list that was encoded.
pub flushed-sorted :
    (sort : List DataPoint → List DataPoint) (write : List ℕ → Bool)
    (name_of : List ℕ → List Label → List ℕ) (created retention now : ℕ) (p : MemoryPartition)
    (i : ℕ) (k : List ℕ) (m : MemoryMetric) (metric : List ℕ) (labels : List Label) (start end : ℕ)
    → Sorts sort
    → ((xs : List ℕ) → write xs ≡ true)
    → AllValid p.metrics
    → IsOrdered IsNamed p.metrics
    → get_elem? p.metrics i ≡ some (k, m)
    → name_of metric labels ≡ m.name
    → All IsEncodable (sorted_points sort m)
    → expired now (flushed sort write created retention p) ≡ false
    → (disk_select name_of now (flushed sort write created retention p) metric labels start end
        ≡ selected (filter (in_range start end) (sorted_points sort m)))
      × IsOrdered IsUpTo (sorted_points sort m)
unfolding flush_partition
flushed-sorted sort write name_of created retention now p i k m metric labels start end sorts ok v
      names at name all fresh =
    let start_files : Files = record { written = []; encoder = new_encoder; entries = [] } in
    let done = flush_loop_lem sort write ok p.metrics start_files refl v names in
    let placed =
      All-get_elem? (λ e. IsPlaced sort e.1 (flush_loop sort write p.metrics start_files)) p.metrics
        i (k, m) done.placed at in
    let valid = All-get_elem? (λ e. IsValid e.1) p.metrics i (k, m) v at in
    let ordered : IsOrdered IsUpTo (sorted_points sort m) =
      merged-IsOrdered (sort m.out_of_order_points) m.points (sorts.ordered m.out_of_order_points)
        (IsOrdered-map (λ x y l. omega arith) m.points valid.ordered) in
    (
      disk_select_lem name_of now (flushed sort write created retention p) metric labels start end
          placed.entry (sorted_points sort m) placed.before placed.after fresh
          (ap (λ n. find_metric n (flush_loop sort write p.metrics start_files).entries) name
            ∙ placed.found)
          placed.place placed.offset placed.count all ordered placed.bytes,
      ordered,
    )

-- After a flush whose writes succeed, with a sort that keeps its promise, of a partition whose
-- metrics are valid and have different names, the disk partition on its results selects for a
-- metric (whose points are encodable, while the partition has not expired) the points from start to
-- end, end excluded, of a list that is in the order of timestamps and a permutation of the metric's
-- out-of-order points and points.
pub flushed-disk_select :
    (sort : List DataPoint → List DataPoint) (write : List ℕ → Bool)
    (name_of : List ℕ → List Label → List ℕ) (created retention now : ℕ) (p : MemoryPartition)
    (i : ℕ) (k : List ℕ) (m : MemoryMetric) (metric : List ℕ) (labels : List Label) (start end : ℕ)
    → Sorts sort
    → ((xs : List ℕ) → write xs ≡ true)
    → AllValid p.metrics
    → IsOrdered IsNamed p.metrics
    → get_elem? p.metrics i ≡ some (k, m)
    → name_of metric labels ≡ m.name
    → All IsEncodable (sorted_points sort m)
    → expired now (flushed sort write created retention p) ≡ false
    → (ps : List DataPoint) × (disk_select name_of now
          (flushed sort write created retention p)
          metric
          labels
          start
          end
        ≡ selected (filter (in_range start end) ps))
      × IsOrdered IsUpTo ps
      × Perm ps (m.out_of_order_points ++ m.points)
flushed-disk_select sort write name_of created retention now p i k m metric labels start end sorts
      ok v names at name all fresh =
    let (e, o) =
      flushed-sorted sort write name_of created retention now p i k m metric labels start end sorts
        ok v names at name all fresh in
    (
      sorted_points sort m,
      e,
      o,
      Perm.trans (merged-Perm (sort m.out_of_order_points) m.points)
          (Perm.append_right m.points (sorts.same m.out_of_order_points)),
    )
