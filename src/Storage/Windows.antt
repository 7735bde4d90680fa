-- ===== src/Storage/Windows.antt =====
-- What one partition in memory has for a selection.
use tstorage.Base.{ℕ, suc, ◌≤◌, ◌<◌, ◌≡◌, refl, Bool, true, false, ◌==◌, if◌then◌else◌, inl, inr}
use tstorage.Base.{
  List, [], ◌∷◌, ◌++◌, none, some, Option-cases, filter, filter-none, All, All-map, IsOrdered,
  All-filter, filter-keeps, filter-IsOrdered, arith,
}
use tstorage.Words.{biased}
use tstorage.Rows.{DataPoint, Label}
use tstorage.MemoryMetric.{MemoryMetric, new_metric}
use tstorage.MemoryMetric.Valid.{place, IsBefore, IsWithin, new_metric-IsValid}
use tstorage.MemoryMetric.Select.{in_places, upper, select_points_lem}
use tstorage.MemoryPartition.{MemoryPartition, load, get_metric, select_data_points}
use tstorage.MemoryPartition.Valid.{load-IsValid, load-All}
use tstorage.MemoryPartition.Insert.{IsValidPartition}
use tstorage.Partition.{points, answer_memory}

-- The points from start up to the bound of selectPoints that a partition has under a name.
abbrev pub window : List ℕ → ℕ → ℕ → MemoryPartition → List DataPoint
window name start end m = elim (load name m.metrics) [
  | none ↦ []
  | some x ↦ filter (in_places (biased start) (upper x end)) x.points
]

-- Those of all partitions with rows, oldest first.
abbrev pub all_points : List ℕ → ℕ → ℕ → List MemoryPartition → List DataPoint
all_points name start end [] = []
all_points name start end (m ∷ ms) =
    all_points name start end ms ++ (if m.min_t == 0 then [] else window name start end m)

-- A partition with rows starts and ends behind the end of an older one.
abbrev pub IsBehind : MemoryPartition → MemoryPartition → Type 0
IsBehind m older =
    (m.min_t == 0) ≡ false
    → (biased older.max_t < biased m.min_t) × (biased older.max_t < biased m.max_t)

pub window_lem :
    (name_of : List ℕ → List Label → List ℕ) (m : MemoryPartition) (metric : List ℕ)
    (labels : List Label) (start end : ℕ)
    → IsValidPartition m
    → biased start ≤ biased end
    → (answer_memory (select_data_points name_of (λ i. 0) (λ rs. true) m metric labels start end)).0
      ≡ points (window (name_of metric labels) start end m)
unfolding select_data_points get_metric
window_lem name_of m metric labels start end v le =
    elim (Option-cases (load (name_of metric labels) m.metrics)) [
      | inl e ↦
          rw
            (
              select_data_points,
              get_metric,
              window,
              e,
              select_points_lem (new_metric (name_of metric labels)) (new_metric-IsValid _) start
                  end le,
            )
            refl
      | inr (x, e) ↦
          rw
            (
              select_data_points,
              get_metric,
              window,
              e,
              select_points_lem x (load-IsValid _ m.metrics x v.metrics e) start end le,
            )
            refl
    ]

upper_le : (x : MemoryMetric) (end : ℕ) → upper x end ≤ suc (biased end)
upper_le x end = ground arith

-- Nothing of a partition that starts after the range, or ends in front of it, is in the window.
pub window-after :
    (name : List ℕ) (start end : ℕ) (m : MemoryPartition)
    → IsValidPartition m
    → biased end < biased m.min_t
    → window name start end m ≡ []
window-after name start end m v lt = elim (Option-cases (load name m.metrics)) [
  | inl e ↦ rw (window, e) refl
  | inr (x, e) ↦
      rw (window, e)
        (filter-none _ x.points (
          All-map (λ q w. ground (arith, w.0, upper_le x end)) x.points
            (load-All (IsWithin m.min_t m.max_t) name m.metrics x v.within e)))
]

pub window-before :
    (name : List ℕ) (start end : ℕ) (m : MemoryPartition)
    → IsValidPartition m
    → biased m.max_t < biased start
    → window name start end m ≡ []
window-before name start end m v lt = elim (Option-cases (load name m.metrics)) [
  | inl e ↦ rw (window, e) refl
  | inr (x, e) ↦
      rw (window, e)
        (filter-none _ x.points (
          All-map (λ q w. ground (arith, w.1)) x.points
            (load-All (IsWithin m.min_t m.max_t) name m.metrics x v.within e)))
]

pub if-nil : (b : Bool) (xs : List DataPoint) → xs ≡ [] → (if b then [] else xs) ≡ []
if-nil true xs e = refl
if-nil false xs e = e

pub All-if :
    (P : DataPoint → Type 0) (b : Bool) (xs : List DataPoint)
    → All P xs
    → All P (if b then [] else xs)
All-if P true xs h = tt
All-if P false xs h = h

-- What the window of a valid partition holds is in order, in the partition and in the range.
pub window-Within :
    (name : List ℕ) (start end : ℕ) (m : MemoryPartition)
    → IsValidPartition m
    → IsOrdered IsBefore (window name start end m)
      × All (IsWithin m.min_t m.max_t) (window name start end m)
      × All (λ q. (biased start ≤ place q) × (place q ≤ biased end)) (window name start end m)
window-Within name start end m v = elim (Option-cases (load name m.metrics)) [
  | inl e ↦ rw (window, e) (tt, tt, tt)
  | inr (x, e) ↦
      let ok = load-IsValid name m.metrics x v.metrics e in
      let within = load-All (IsWithin m.min_t m.max_t) name m.metrics x v.within e in
      rw (window, e)
        (
          filter-IsOrdered IsBefore _ x.points ok.ordered,
          filter-keeps _ _ x.points within,
          All-filter _ _ x.points (λ q t. (ground (arith, t), ground (arith, t, upper_le x end))),
        )
]
