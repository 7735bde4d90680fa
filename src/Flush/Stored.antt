-- ===== src/Flush/Stored.antt =====
-- Rows that are put into a partition and flushed with it are what the disk partition selects.
use mathlib.Core.List.{Perm, perm_append_comm}
use mathlib.Core.List.Perm
use native.Mathlib.Bridge.{le_prop}
use tstorage.Base.{ℕ, ◌-◌, ◌≤◌, ◌≡◌, ◌≢◌, sym, ap, Bool, true, ge→ltb}
use tstorage.Base.{List, [], ◌∷◌, ◌++◌, Option-cases, inl, inr, All, IsOrdered, filter}
use tstorage.Base.Members.{All-Perm}
use tstorage.Rows.{DataPoint, Label}
use tstorage.Encoding.Decoder.RoundTrip.{IsEncodable}
use tstorage.MemoryMetric.{MemoryMetric}
use tstorage.MemoryMetric.Encode.{IsUpTo, Sorts, merged-Perm}
use tstorage.MemoryPartition.{MemoryPartition, Metrics, load}
use tstorage.MemoryPartition.Valid.{AllValid, held}
use tstorage.MemoryPartition.Names.{AreNamed, OtherKey, load-place}
use tstorage.MemoryPartition.Contents.{contents, held_by}
use tstorage.DiskPartition.{disk_select, selected, expired}
use tstorage.DiskPartition.Select.{in_range}
use tstorage.Flush.{flush_partition}
use tstorage.Flush.Placed.{IsNamed, sorted_points}
use tstorage.Flush.Select.{flushed, flushed-disk_select}

IsNamed-key :
    (k : List ℕ) (m : MemoryMetric) (ms : Metrics)
    → m.name ≡ k
    → All (λ e. e.1.name ≡ e.0) ms
    → All (OtherKey (k, m)) ms
    → All (IsNamed (k, m)) ms
IsNamed-key k m [] e es h = tt
IsNamed-key k m ((k', m') ∷ ms) e (e', es) (d, h) = (rw (e, e') d, IsNamed-key k m ms e es h)

pub AreNamed-IsNamed : (ms : Metrics) → AreNamed ms → IsOrdered IsNamed ms
AreNamed-IsNamed [] a = tt
AreNamed-IsNamed ((k, m) ∷ ms) a = (
  IsNamed-key k m ms a.keys.0 a.keys.1 a.distinct.0,
  AreNamed-IsNamed ms (record { keys = a.keys.1; distinct = a.distinct.1 }),
)

pub IsEncodable-prop : (p : DataPoint) → IsProp (IsEncodable p)
IsEncodable-prop p = hlevel le_prop

-- The points of a metric are those that are encoded.
pub sorted-held :
    (sort : List DataPoint → List DataPoint)
    → Sorts sort
    → (m : MemoryMetric) → Perm (held m) (sorted_points sort m)
sorted-held sort sorts m = Perm.trans (perm_append_comm m.points m.out_of_order_points) (
    Perm.symm (
      Perm.trans (merged-Perm (sort m.out_of_order_points) m.points)
        (Perm.append_right m.points (sorts.same m.out_of_order_points))))

-- What a flushed partition selects, by the name that is asked for.
pub contents-disk_select :
    (sort : List DataPoint → List DataPoint) (write : List ℕ → Bool)
    (name_of : List ℕ → List Label → List ℕ) (created retention now : ℕ) (p : MemoryPartition)
    (metric : List ℕ) (labels : List Label) (start end : ℕ)
    → Sorts sort
    → ((xs : List ℕ) → write xs ≡ true)
    → AllValid p.metrics
    → AreNamed p.metrics
    → contents (name_of metric labels) p.metrics ≢ []
    → All IsEncodable (contents (name_of metric labels) p.metrics)
    → now - created ≤ retention
    → (ps : List DataPoint) × (disk_select name_of now
          (flushed sort write created retention p)
          metric
          labels
          start
          end
        ≡ selected (filter (in_range start end) ps))
      × IsOrdered IsUpTo ps
      × Perm ps (contents (name_of metric labels) p.metrics)
unfolding flush_partition expired
contents-disk_select sort write name_of created retention now p metric labels start end sorts ok v a
      some_held all young =
    let name = name_of metric labels in
    elim (Option-cases (load name p.metrics)) [
      | inl e ↦ absurd (some_held (ap held_by e))
      | inr (m, e) ↦
          let (i, at, name') = load-place name p.metrics m a e in
          let held_e : contents name p.metrics ≡ m.points ++ m.out_of_order_points = ap held_by e in
          let same : Perm (contents name p.metrics) (sorted_points sort m) =
            rw held_e (sorted-held sort sorts m) in
          let (ps, e', o, perm) =
            flushed-disk_select sort write name_of created retention now p i name m metric labels
              start end sorts ok v (AreNamed-IsNamed p.metrics a) at (sym name')
              (All-Perm IsEncodable IsEncodable-prop _ _ same all) (ge→ltb _ _ young) in
          (ps, e', o, rw held_e (Perm.trans perm (perm_append_comm m.out_of_order_points m.points)))
    ]
