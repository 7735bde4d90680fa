-- ===== src/MemoryMetric/Valid.antt =====
-- The invariant of a metric, and `insertPoint`.
use tstorage.Base.{ℕ, ◌-◌, ◌≤◌, ◌<◌, ◌≡◌, refl, sym, ap, ◌∙◌, ◌==◌}
use tstorage.Base.{List, [], ◌∷◌, ◌++◌, some, length, get_elem?, arith}
use tstorage.Base.{
  All, All-map, All-append, IsOrdered, IsOrdered-append, length-append, Bool-cases, inl, inr, ◌⊎◌,
}
use tstorage.Base.{ltb→lt, ltb→ge, ==_iff}
use tstorage.Words.{slt, biased}
use tstorage.Rows.{DataPoint}
use tstorage.MemoryMetric.{
  MemoryMetric, new_metric, insert_point, next_point, late_point, first_point,
}

-- A point's place in the order of timestamps.
abbrev pub place : DataPoint → ℕ
place p = biased p.timestamp

abbrev pub IsBefore : DataPoint → DataPoint → Type 0
IsBefore p q = place p < place q

abbrev pub IsWithin : ℕ → ℕ → DataPoint → Type 0
IsWithin lo hi p = (biased lo ≤ place p) × (place p ≤ biased hi)

-- `last` is the last of the points.
abbrev pub EndsIn : List DataPoint → ℕ → Type 0
EndsIn points t =
    (front : List DataPoint) × (last : DataPoint) × (points ≡ front ++ last ∷ [])
    × (last.timestamp ≡ t)

-- The size is the number of points, they are in strict order, between the two timestamps, the
-- second of which is the last point's.
pub record IsValid (m : MemoryMetric) : Type 0 where
  pub size : m.size ≡ length m.points
  pub ordered : IsOrdered IsBefore m.points
  pub within : All (IsWithin m.min_timestamp m.max_timestamp) m.points
  pub spans : biased m.min_timestamp ≤ biased m.max_timestamp
  pub ends : 0 < m.size → EndsIn m.points m.max_timestamp

pub new_metric-IsValid : (name : List ℕ) → IsValid (new_metric name)
new_metric-IsValid name = record {
  size = refl;
  ordered = tt;
  within = tt;
  spans = omega arith;
  ends = λ h. absurd (omega arith);
}

get_elem?-last : {A : Type 0} (xs : List A) (x : A) → get_elem? (xs ++ x ∷ []) (length xs) ≡ some x
get_elem?-last [] x = refl
get_elem?-last (y ∷ xs) x = get_elem?-last xs x

pub length_zero : {A : Type 0} (xs : List A) → length xs ≡ 0 → xs ≡ []
length_zero [] e = refl
length_zero (x ∷ xs) e = absurd (omega arith)

-- The point is behind all others, which are earlier, or out of order, where some other is not earlier.
abbrev pub Inserted : MemoryMetric → DataPoint → MemoryMetric → Type 0
Inserted m p m' =
    ((m'.points ≡ m.points ++ p ∷ [])
      × (m'.out_of_order_points ≡ m.out_of_order_points)
      × All (λ q. IsBefore q p) m.points)
    ⊎ ((m'.points ≡ m.points)
        × (m'.out_of_order_points ≡ m.out_of_order_points ++ p ∷ [])
        × (place p ≤ biased m.max_timestamp))

module _ (m : MemoryMetric) (p : DataPoint) (v : IsValid m) where
  empty_points : m.size ≡ 0 → m.points ≡ []
  empty_points e = length_zero m.points (sym v.size ∙ e)

  first_point-IsValid : m.size ≡ 0 → IsValid (first_point m p)
  first_point-IsValid e = record {
    size = omega (arith, v.size, length-append m.points (p ∷ []));
    ordered = rw (empty_points e) (tt, tt);
    within = rw (empty_points e) ((omega arith, omega arith), tt);
    spans = omega arith;
    ends = λ _. (m.points, p, refl, refl);
  }

  next_point-IsValid : biased m.max_timestamp < place p → IsValid (next_point m p)
  next_point-IsValid lt = record {
    size = omega (arith, v.size, length-append m.points (p ∷ []));
    ordered =
        IsOrdered-append IsBefore m.points p v.ordered
          (All-map (λ q w. omega (arith, w.1)) m.points v.within);
    within =
        All-append _ m.points (p ∷ [])
          (All-map (λ q w. (w.0, omega (arith, w.1))) m.points v.within)
          ((omega (arith, v.spans), omega arith), tt);
    spans = omega (arith, v.spans);
    ends = λ _. (m.points, p, refl, refl);
  }

  late_point-IsValid : IsValid (late_point m p)
  late_point-IsValid = record {
    size = v.size;
    ordered = v.ordered;
    within = v.within;
    spans = v.spans;
    ends = v.ends;
  }

  last_point :
      0 < m.size
      → (q : DataPoint) × (get_elem? m.points (m.size - 1) ≡ some q)
        × (q.timestamp ≡ m.max_timestamp)
  last_point pos =
      let (front, q, e, et) = v.ends pos in
      (
        q,
        ap (λ xs. get_elem? xs (m.size - 1)) e
            ∙ ap (get_elem? (front ++ q ∷ [])) {x = m.size - 1} {y = length front}
                (omega (arith, v.size, ap length e, length-append front (q ∷ [])))
            ∙ get_elem?-last front q,
        et,
      )

  -- insertPoint on a valid metric never fails and leaves a valid one; the point goes behind the
  -- points when all of them are earlier, and to the out-of-order points when the highest timestamp
  -- is not below its own.
  pub insert_point-IsValid :
      (m' : MemoryMetric) × (insert_point m p ≡ some m') × IsValid m' × Inserted m p m'
  unfolding insert_point
  insert_point-IsValid = elim (Bool-cases (m.size == 0)) [
    | inl e ↦
        let none_yet = (==_iff m.size 0).0 e in
        (
          first_point m p,
          rw e refl,
          first_point-IsValid none_yet,
          inl (refl, refl, rw (empty_points none_yet) tt),
        )
    | inr e ↦
        let (last, found, et) = last_point (ground (arith, e)) in
        elim (Bool-cases (slt last.timestamp p.timestamp)) [
          | inl lt ↦
              let after : biased m.max_timestamp < place p =
                omega (arith, ap biased et, ltb→lt _ _ lt) in
              (
                next_point m p,
                rw (e, found, lt) refl,
                next_point-IsValid after,
                inl (refl, refl, All-map (λ q w. omega (arith, w.1)) m.points v.within),
              )
          | inr ge ↦ (
            late_point m p,
            rw (e, found, ge) refl,
            late_point-IsValid,
            inr (refl, refl, omega (arith, ap biased et, ltb→ge _ _ ge)),
          )
        ]
  ]
