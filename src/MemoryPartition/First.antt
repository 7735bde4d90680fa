-- ===== src/MemoryPartition/First.antt =====
-- The first rows of a new partition: none of them is outdated.
use mathlib.Core.Path.{subst}
use mathlib.Core.List.{Perm}
use tstorage.Base.{ℕ, suc, ◌≤◌, ◌≡◌, refl, sym, ap, ◌∙◌, Bool, true, false, ltb→lt, ltb→ge, ge→ltb}
use tstorage.Base.{
  List, [], ◌∷◌, ◌++◌, length, filter, filter-none, All, All-map, Bool-cases, inl, inr, arith,
}
use tstorage.Words.{slt, biased}
use tstorage.Rows.{DataPoint, Label, Row}
use tstorage.MemoryPartition.{
  MemoryPartition, TimestampPrecision, new_memory_partition, lowest, load, set_min, InsertResult,
  inserted, no_rows, wal_failed, panicked, stamped, insert_rows,
}
use tstorage.MemoryPartition.Insert.{
  IsValidPartition, is_outdated, new_memory_partition-IsValidPartition,
  insert_rows-IsValidPartition,
}
use tstorage.MemoryPartition.Contents.{contents, under, taken_points, insert_rows-Grown}

abbrev AtLeast : ℕ → Row → Type 0
AtLeast lo r = biased lo ≤ biased r.point.timestamp

lowest-le : (min : ℕ) (rs : List Row) → biased (lowest min rs) ≤ biased min
unfolding lowest
lowest-le min [] = omega arith
lowest-le min (r ∷ rs) = elim (Bool-cases (slt r.point.timestamp min)) [
  | inl lt ↦ rw lt (omega (arith, lowest-le r.point.timestamp rs, ltb→lt _ _ lt))
  | inr ge ↦ rw ge (lowest-le min rs)
]

lowest-AtLeast :
    (c min : ℕ) (rs : List Row) → biased c ≤ biased (lowest min rs) → All (AtLeast c) rs
unfolding lowest
lowest-AtLeast c min [] le = tt
lowest-AtLeast c min (r ∷ rs) le = elim (Bool-cases (slt r.point.timestamp min)) [
  | inl lt ↦
      let le' : biased c ≤ biased (lowest r.point.timestamp rs) = rw lt at le in
      (
        omega (arith, le', lowest-le r.point.timestamp rs),
        lowest-AtLeast c r.point.timestamp rs le',
      )
  | inr ge ↦
      let le' : biased c ≤ biased (lowest min rs) = rw ge at le in
      (omega (arith, le', lowest-le min rs, ltb→ge _ _ ge), lowest-AtLeast c min rs le')
]

-- The partition that an insertion leaves.
abbrev after_insert : MemoryPartition → InsertResult → MemoryPartition
after_insert p no_rows = p
after_insert p wal_failed = p
after_insert p panicked = p
after_insert p (inserted outdated p') = p'

module _ (name_of : List ℕ → List Label → List ℕ) (clock : ℕ → ℕ) (append : List Row → Bool) where
  -- The points of the rows, from index `i` on, that have the name `q`.
  abbrev pub named_points : ℕ → List Row → List ℕ → List DataPoint
  named_points i [] q = []
  named_points i (r ∷ rs) q =
      under (name_of r.metric r.labels) (stamped name_of clock append i r.point) q
      ++ named_points (suc i) rs q

  taken_points_lem :
      (lo i : ℕ) (rs : List Row) (q : List ℕ)
      → All (λ r. is_outdated lo r ≡ false) rs
      → taken_points name_of clock append lo i rs q ≡ named_points i rs q
  taken_points_lem lo i [] q h = refl
  taken_points_lem lo i (r ∷ rs) q (e, h) = rw e (
      ap (λ k. under (name_of r.metric r.labels) (stamped name_of clock append i r.point) q ++ k)
        (taken_points_lem lo (suc i) rs q h))

  module _ (after_epoch : (i : ℕ) → biased 0 ≤ biased (clock i)) where
    -- The first rows of a new partition are all in it.
    pub insert_rows-first :
        (duration : ℕ) (precision : TimestampPrecision) (r : Row) (rs : List Row)
        → append (r ∷ rs) ≡ true
        → (m : MemoryPartition) × (insert_rows name_of clock append
              (new_memory_partition duration precision)
              (r ∷ rs)
            ≡ inserted [] m)
          × IsValidPartition m
          × (m.num_points ≡ length (r ∷ rs))
          × (m.min_t ≡ lowest r.point.timestamp (r ∷ rs))
          × ((q : List ℕ) → Perm (contents q m.metrics) (named_points 0 (r ∷ rs) q))
    unfolding new_memory_partition set_min load
    insert_rows-first duration precision r rs took =
        let p = new_memory_partition duration precision in
        let v = new_memory_partition-IsValidPartition duration precision in
        let (outdated, m, e, v', o, c) =
          insert_rows-IsValidPartition name_of clock append after_epoch p r rs v took in
        let (outdated', m', e', lo, g) =
          insert_rows-Grown name_of clock append p r rs v.metrics v.named took in
        let same : m' ≡ m = ap (after_insert p) (sym e' ∙ e) in
        let min : m.min_t ≡ lowest r.point.timestamp (r ∷ rs) = ap (λ z. z.min_t) (sym same) ∙ lo in
        let lo' = lowest r.point.timestamp (r ∷ rs) in
        let kept : All (λ x. is_outdated lo' x ≡ false) (r ∷ rs) =
          All-map (λ x le. ge→ltb _ _ le) (r ∷ rs)
            (lowest-AtLeast lo' r.point.timestamp (r ∷ rs) (omega arith)) in
        let nil : outdated ≡ [] =
          o ∙ ap (λ t. filter (is_outdated t) (r ∷ rs)) min ∙ filter-none _ (r ∷ rs) kept in
        (
          m,
          e ∙ ap (λ k. inserted k m) nil,
          v',
          omega (arith, c, ap length nil),
          min,
          λ q. subst (Perm (contents q m.metrics)) (taken_points_lem lo' 0 (r ∷ rs) q kept) (
              subst
                (λ z.
                  Perm (contents q z.metrics) (taken_points name_of clock append lo' 0 (r ∷ rs) q))
                same (g.holds q)),
        )
