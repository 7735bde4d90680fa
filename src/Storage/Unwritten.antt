-- ===== src/Storage/Unwritten.antt =====
-- `Select` writes over no stored point when the partitions are in memory and lie behind each other.
use mathlib.Core.Path.{subst}
use tstorage.Base.{
  ℕ, zero, suc, ◌+◌, ◌-◌, ◌≤◌, ◌<◌, ◌≡◌, refl, sym, ap, ◌∙◌, true, ◌==◌, leb, Bool-cases, inl, inr,
  ◌⊎◌, ltb→ge, leb→gt, lt→ltb,
}
use tstorage.Base.{
  List, [], ◌∷◌, ◌++◌, append-nil, filter, Option, none, some, Option-cases, length, take, drop,
  take-append-drop, map, All, All-map, IsOrdered, arith,
}
use tstorage.Words.{slt, sle, biased}
use tstorage.Rows.{DataPoint, Label}
use tstorage.MemoryMetric.{MemoryMetric, end_index}
use tstorage.MemoryMetric.Valid.{IsValid, IsWithin, place}
use tstorage.MemoryMetric.Select.{upper, in_places, count_below, count_below-All, end_index_lem}
use tstorage.MemoryPartition.{MemoryPartition, load, select_data_points}
use tstorage.MemoryPartition.Valid.{stored, load-All, load-IsValid}
use tstorage.MemoryPartition.Names.{put-same}
use tstorage.MemoryPartition.Insert.{IsValidPartition}
use tstorage.MemoryPartition.Query.{select_data_points-IsValidPartition}
use tstorage.Partition.{Partition, memory, answer_memory}
use tstorage.PartitionList.Changes.{Holds}
use tstorage.PartitionList.Each.{Turn, go_on, stop, each_item, after_item, each, each_lem}
use tstorage.Storage.{
  Storage, Selecting, so_far, overwritten, appended, written, answered, select_turn, select,
}
use tstorage.Storage.Windows.{IsBehind}

take-none : (n : ℕ) → take {A = DataPoint} n [] ≡ []
take-none zero = refl
take-none (suc n) = refl

take-whole : (xs : List DataPoint) → take (length xs) xs ≡ xs
take-whole [] = refl
take-whole (x ∷ xs) = ap (◌∷◌ x) (take-whole xs)

drop-whole : (n : ℕ) (xs : List DataPoint) → length xs ≤ n → drop n xs ≡ []
drop-whole zero [] le = refl
drop-whole (suc n) [] le = refl
drop-whole zero (x ∷ xs) le = absurd (omega arith)
drop-whole (suc n) (x ∷ xs) le = drop-whole n xs (omega arith)

-- An append of nothing, or behind all points.
points-same :
    (i size : ℕ) (ps points : List DataPoint)
    → size ≡ length points
    → (ps ≡ []) ⊎ (i ≡ size)
    → take i points ++ (take (size - i) ps ++ drop (i + length ps) points) ≡ points
points-same i size ps points e (inl nil) =
    let same : i + 0 ≡ i = omega arith in
    rw (nil, take-none (size - i), same) (take-append-drop i points)
points-same i size ps points e (inr all) =
    let none_left : length points - length points ≡ 0 = omega arith in
    rw
      (
        all,
        e,
        take-whole points,
        none_left,
        drop-whole (length points + length ps) points (omega arith),
      )
      (append-nil points)

end_le_upper : (m : MemoryMetric) (end : ℕ) → biased end ≤ upper m end
end_le_upper m end = ground arith

overwritten-same :
    (capacity i : ℕ) (ps : List DataPoint) (m : MemoryMetric)
    → m.size ≡ length m.points
    → (ps ≡ []) ⊎ (i ≡ m.size)
    → overwritten capacity i ps m ≡ m
overwritten-same capacity i ps m e free = elim (Bool-cases (leb (i + length ps) capacity)) [
  | inl room ↦ rw room (ap (λ q. record m { points = q }) (points-same i m.size ps m.points e free))
  | inr full ↦ rw full refl
]

appended-same :
    (capacity : MemoryMetric → ℕ) (end : ℕ) (ps : List DataPoint) (m : MemoryMetric)
    → IsValid m
    → (ps ≡ []) ⊎ All (λ q. place q < biased end) m.points
    → appended capacity end ps m ≡ m
appended-same capacity end ps m v free = elim (Bool-cases (sle end m.min_timestamp)) [
  | inl none_asked ↦ rw none_asked refl
  | inr some_asked ↦
      let lt : slt m.min_timestamp end ≡ true = lt→ltb _ _ (leb→gt _ _ some_asked) in
      let i = count_below (upper m end) m.points in
      let at : end_index m end ≡ some i = end_index_lem m v end lt in
      let free' : (ps ≡ []) ⊎ (i ≡ m.size) = elim free [
        | inl nil ↦ inl nil
        | inr below ↦ inr (
            count_below-All (upper m end) m.points
              (All-map (λ q lt'. omega (arith, lt', end_le_upper m end)) m.points below)
            ∙ sym v.size)
      ] in
      rw (some_asked, at) (overwritten-same (capacity m) i ps m v.size free')
]

written-same :
    (capacity : MemoryMetric → ℕ) (name : List ℕ) (end : ℕ) (ps : List DataPoint)
    (p : MemoryPartition)
    → IsValidPartition p
    → (ps ≡ []) ⊎ (biased p.max_t < biased end)
    → written capacity name end ps (memory p) ≡ memory p
written-same capacity name end ps p v free = elim (Option-cases (load name p.metrics)) [
  | inl e ↦ rw (written, e) refl
  | inr (m, e) ↦
      let free' : (ps ≡ []) ⊎ All (λ q. place q < biased end) m.points = elim free [
        | inl nil ↦ inl nil
        | inr lt ↦ inr (
            All-map (λ q w. omega (arith, w.1, lt)) m.points
              (load-All (IsWithin p.min_t p.max_t) name p.metrics m v.within e))
      ] in
      let same =
        appended-same capacity end ps m (load-IsValid name p.metrics m v.metrics e) free' in
      rw (written, e, same)
        (ap (λ k. memory (record p { metrics = k })) (put-same name m p.metrics e))
]

-- Valid partitions of the same range, with the same points under all names.
pub record IsKept (m m' : MemoryPartition) : Type 0 where
  pub valid : IsValidPartition m'
  pub same : stored m'.metrics ≡ stored m.metrics
  pub min : m'.min_t ≡ m.min_t
  pub max : m'.max_t ≡ m.max_t

abbrev pub AreKept : List MemoryPartition → List MemoryPartition → Type 0
AreKept [] [] = Unit
AreKept [] (m ∷ ms) = ⊥
AreKept (m ∷ ms) [] = ⊥
AreKept (m ∷ ms) (m' ∷ ms') = IsKept m m' × AreKept ms ms'

IsKept-refl : (m : MemoryPartition) → IsValidPartition m → IsKept m m
IsKept-refl m v = record { valid = v; same = refl; min = refl; max = refl }

AreKept-refl : (ms : List MemoryPartition) → All IsValidPartition ms → AreKept ms ms
AreKept-refl [] v = tt
AreKept-refl (m ∷ ms) (v, vs) = (IsKept-refl m v, AreKept-refl ms vs)

module _ (name_of : List ℕ → List Label → List ℕ) (now : ℕ) (capacity : MemoryMetric → ℕ)
    (metric : List ℕ) (labels : List Label) (start end : ℕ) (le : biased start ≤ biased end) where
  -- The loop ends, or goes on with these points.
  abbrev turn_of : List DataPoint → Option (List DataPoint) → Turn Selecting
  turn_of ps none = stop (so_far ps)
  turn_of ps (some qs) = go_on (so_far qs)

  -- Nothing is written into the partitions that are left.
  abbrev IsFree : Option (List DataPoint) → List MemoryPartition → Type 0
  IsFree none ms = Unit
  IsFree (some qs) ms = (qs ≡ []) ⊎ All (λ m. biased m.max_t < biased end) ms

  turn_lem :
      (ps : List DataPoint) (m : MemoryPartition) (ms : List MemoryPartition)
      → IsValidPartition m
      → All (IsBehind m) ms
      → IsFree (some ps) (m ∷ ms)
      → (o : Option (List DataPoint)) × (m' : MemoryPartition) × (select_turn name_of now capacity
            metric labels start end
            (so_far ps)
            (memory m)
          ≡ (turn_of ps o, memory m'))
        × IsKept m m'
        × IsFree o ms
  unfolding select_turn select_data_points
  turn_lem ps m ms v b free =
      let rest : IsFree (some ps) ms = elim free [ inl nil ↦ inl nil | inr (lt, lts) ↦ inr lts ] in
      elim (Bool-cases (m.min_t == 0)) [
        | inl empty ↦ (some ps, m, rw (select_turn, empty) refl, IsKept-refl m v, rest)
        | inr full ↦ elim (Bool-cases (slt m.max_t start)) [
          | inl older ↦ (none, m, rw (select_turn, full, older) refl, IsKept-refl m v, tt)
          | inr newer ↦ elim (Bool-cases (slt end m.min_t)) [
            | inl after ↦
                (some ps, m, rw (select_turn, full, newer, after) refl, IsKept-refl m v, rest)
            | inr before ↦
                let (x, m', e, under, same, v') =
                  select_data_points-IsValidPartition name_of (λ i. 0) (λ rs. true) m metric labels
                    start end v le in
                let qs = filter (in_places (biased start) (upper x end)) x.points in
                let max : m'.max_t ≡ m.max_t = ap (λ r. r.1.max_t) (sym e) in
                let free' : (ps ≡ []) ⊎ (biased m'.max_t < biased end) = elim free [
                  | inl nil ↦ inl nil
                  | inr (lt, lts) ↦ inr (rw max lt)
                ] in
                let write = written capacity (name_of metric labels) end in
                (
                  some (qs ++ ps),
                  m',
                  rw (select_turn, full, newer, before)
                      (ap (λ r. answered write ps (answer_memory r)) e
                        ∙ ap (λ z. (go_on (so_far (qs ++ ps)), z))
                            (written-same capacity (name_of metric labels) end ps m' v' free')),
                  record { valid = v'; same = same; min = ap (λ r. r.1.min_t) (sym e); max = max },
                  inr (All-map (λ q w. omega (arith, (w full).0, ltb→ge _ _ before)) ms b),
                )
          ]
        ]
      ]

  loop_lem :
      (ps : List DataPoint) (ms : List MemoryPartition)
      → All IsValidPartition ms
      → IsOrdered IsBehind ms
      → IsFree (some ps) ms
      → (ms' : List MemoryPartition) × ((each_item
            (select_turn name_of now capacity metric labels start end)
            (map memory ms)
            (so_far ps)).1
          ≡ map memory ms')
        × AreKept ms ms'
  loop_lem ps [] v o free = ([], refl, tt)
  loop_lem ps (m ∷ ms) (v, vs) (b, o) free =
      let (t, m', e, kept, free') = turn_lem ps m ms v b free in
      elim t
          as (λ t.
            (select_turn name_of now capacity metric labels start end (so_far ps) (memory m)
              ≡ (turn_of ps t, memory m'))
            → IsFree t ms
            → (ms' : List MemoryPartition) × ((each_item
                  (select_turn name_of now capacity metric labels start end) (map memory (m ∷ ms))
                  (so_far ps)).1
                ≡ map memory ms')
              × AreKept (m ∷ ms) ms') [
                | none ↦ λ e free'. (
                  m' ∷ ms,
                  ap (λ z. (after_item next (map memory ms) z).1) e,
                  (kept, AreKept-refl ms vs),
                )
                | some qs ↦ λ e free'.
                    let (ms', e', keeps) = loop_lem qs ms vs o free' in
                    (
                      m' ∷ ms',
                      ap (λ z. (after_item next (map memory ms) z).1) e ∙ ap (◌∷◌ (memory m')) e',
                      (kept, keeps),
                    )
              ]
        e free'
    where
      next : Selecting → Selecting × List Partition
      next s =
          each_item (select_turn name_of now capacity metric labels start end) (map memory ms) s

module _ {W : Type 0} (name_of : List ℕ → List Label → List ℕ) (now : ℕ) where
  -- Select, whatever it is asked for and whatever room the arrays of the points have, on a list of
  -- valid partitions in memory of which each one with rows starts and ends behind the end of the
  -- older ones, leaves as many valid partitions in memory, each with the points that it had under
  -- all names and with its min and max timestamps: its appends write over no stored point.
  pub select-AreKept :
      (s : Storage W) (ms : List MemoryPartition) (metric : List ℕ) (labels : List Label)
      (start end : ℕ)
      → Holds s.partition_list (map memory ms)
      → All IsValidPartition ms
      → IsOrdered IsBehind ms
      → (ms' : List MemoryPartition) × Holds
          (select name_of now s metric labels start end).1.partition_list
          (map memory ms')
        × AreKept ms ms'
  unfolding select
  select-AreKept s ms [] labels start end h v o = (ms, h, AreKept-refl ms v)
  select-AreKept s ms (c ∷ metric) labels start end h v o = elim (Bool-cases (sle end start)) [
    | inl refused ↦ (ms, rw refused h, AreKept-refl ms v)
    | inr asked ↦
        let (ms', e, kept) =
          loop_lem name_of now s.capacity (c ∷ metric) labels start end
            (omega (arith, leb→gt _ _ asked)) [] ms v o (inl refl) in
        let body = select_turn name_of now s.capacity (c ∷ metric) labels start end in
        let (state, holds) = each_lem body s.partition_list (so_far []) (map memory ms) h in
        (ms', rw asked (subst (Holds (each body s.partition_list (so_far [])).1) e holds), kept)
  ]
