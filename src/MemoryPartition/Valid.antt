-- ===== src/MemoryPartition/Valid.antt =====
-- The invariant of a partition's metrics, and the map of the metrics.
use mathlib.Core.Path.{ap₂, subst}
use mathlib.Core.Option.{some-injective, some-ne-none}
use tstorage.Base.{ℕ, suc, ◌≡◌, refl, sym, ap, ◌∙◌, true}
use tstorage.Base.{List, [], ◌∷◌, ◌++◌, none, some, length, arith}
use tstorage.Base.{
  All, All-split, All-append, length-append, Bool-cases, Option-cases, inl, inr, ==_iff, ◌==◌,
}
use tstorage.Rows.{DataPoint}
use tstorage.MemoryMetric.{MemoryMetric, new_metric}
use tstorage.MemoryMetric.Valid.{IsValid, Inserted, new_metric-IsValid}
use tstorage.MemoryPartition.{Metrics, same_name, load, put, get_metric}

abbrev pub AllValid : Metrics → Type 0
AllValid = All (λ e. IsValid e.1)

-- All points of a metric, and of all metrics.
abbrev pub held : MemoryMetric → List DataPoint
held m = m.points ++ m.out_of_order_points

abbrev pub stored : Metrics → List DataPoint
stored [] = []
stored ((k, m) ∷ ms) = held m ++ stored ms

pub same_name_refl : (name : List ℕ) → same_name name name ≡ true
same_name_refl [] = refl
same_name_refl (x ∷ xs) = rw ((==_iff x x).1 refl) (same_name_refl xs)

-- Equality of names.
pub same_name-eq : (xs ys : List ℕ) → same_name xs ys ≡ true → xs ≡ ys
same_name-eq [] [] e = refl
same_name-eq [] (y ∷ ys) e = absurd (ground (arith, e))
same_name-eq (x ∷ xs) [] e = absurd (ground (arith, e))
same_name-eq (x ∷ xs) (y ∷ ys) e = elim (Bool-cases (x == y)) [
  | inl same ↦ ap₂ ◌∷◌ ((==_iff x y).0 same) (same_name-eq xs ys (rw same at e))
  | inr other ↦ absurd (ground (arith, e, other))
]

held-All :
    (P : DataPoint → Type 0) (m m' : MemoryMetric) (p : DataPoint)
    → Inserted m p m'
    → P p
    → All P (held m)
    → All P (held m')
held-All P m m' p (inl (e, eo, late)) h hs =
    let (a, b) = All-split P m.points m.out_of_order_points hs in
    rw (e, eo)
      (All-append P (m.points ++ p ∷ []) m.out_of_order_points
        (All-append P m.points (p ∷ []) a (h, tt)) b)
held-All P m m' p (inr (e, eo, early)) h hs =
    let (a, b) = All-split P m.points m.out_of_order_points hs in
    rw (e, eo)
      (All-append P m.points (m.out_of_order_points ++ p ∷ []) a
        (All-append P m.out_of_order_points (p ∷ []) b (h, tt)))

length-held :
    (m m' : MemoryMetric) (p : DataPoint)
    → Inserted m p m'
    → length (held m') ≡ suc (length (held m))
length-held m m' p (inl (e, eo, late)) =
    ap₂ (λ xs ys. length (xs ++ ys)) e eo
    ∙ omega (
      arith,
      length-append (m.points ++ p ∷ []) m.out_of_order_points,
      length-append m.points (p ∷ []),
      length-append m.points m.out_of_order_points,
    )
length-held m m' p (inr (e, eo, early)) =
    ap₂ (λ xs ys. length (xs ++ ys)) e eo
    ∙ omega (
      arith,
      length-append m.points (m.out_of_order_points ++ p ∷ []),
      length-append m.out_of_order_points (p ∷ []),
      length-append m.points m.out_of_order_points,
    )

-- The metric `m` is the one under `name`.
pub load-IsValid :
    (name : List ℕ) (ms : Metrics) (m : MemoryMetric)
    → AllValid ms
    → load name ms ≡ some m
    → IsValid m
unfolding load
load-IsValid name [] m v e = absurd (some-ne-none _ (sym e))
load-IsValid name ((k, x) ∷ ms) m (v, vs) e = elim (Bool-cases (same_name k name)) [
  | inl s ↦ subst IsValid (some-injective _ _ (rw s at e)) v
  | inr n ↦ load-IsValid name ms m vs (rw n at e)
]

-- What holds of all points holds of those of a metric.
pub load-held :
    (P : DataPoint → Type 0) (name : List ℕ) (ms : Metrics) (m : MemoryMetric)
    → All P (stored ms)
    → load name ms ≡ some m
    → All P (held m)
unfolding load
load-held P name [] m h e = absurd (some-ne-none _ (sym e))
load-held P name ((k, x) ∷ ms) m h e =
    let (here, rest) = All-split P (held x) (stored ms) h in
    elim (Bool-cases (same_name k name)) [
      | inl y ↦ subst (λ z. All P (held z)) (some-injective _ _ (rw y at e)) here
      | inr n ↦ load-held P name ms m rest (rw n at e)
    ]

pub load-All :
    (P : DataPoint → Type 0) (name : List ℕ) (ms : Metrics) (m : MemoryMetric)
    → All P (stored ms)
    → load name ms ≡ some m
    → All P m.points
load-All P name ms m h e =
    (All-split P m.points m.out_of_order_points (load-held P name ms m h e)).0

module _ (name : List ℕ) (m m' : MemoryMetric) (p : DataPoint) (ins : Inserted m p m') where
  pub put-AllValid : (ms : Metrics) → AllValid ms → IsValid m' → AllValid (put name m' ms)
  unfolding put
  put-AllValid [] v v' = tt
  put-AllValid ((k, x) ∷ ms) (v, vs) v' = elim (Bool-cases (same_name k name)) [
    | inl s ↦ rw s (v', vs)
    | inr n ↦ rw n (v, put-AllValid ms vs v')
  ]

  pub put-All :
      (P : DataPoint → Type 0) (ms : Metrics)
      → load name ms ≡ some m
      → P p
      → All P (stored ms)
      → All P (stored (put name m' ms))
  unfolding put load
  put-All P [] e h hs = tt
  put-All P ((k, x) ∷ ms) e h hs =
      let (a, b) = All-split P (held x) (stored ms) hs in
      elim (Bool-cases (same_name k name)) [
        | inl s ↦
            let same : x ≡ m = some-injective _ _ (rw s at e) in
            rw s (
              All-append P (held m') (stored ms)
                (held-All P m m' p ins h (subst (λ y. All P (held y)) same a)) b)
        | inr n ↦
            rw n (All-append P (held x) (stored (put name m' ms)) a (put-All P ms (rw n at e) h b))
      ]

  pub length-put :
      (ms : Metrics)
      → load name ms ≡ some m
      → length (stored (put name m' ms)) ≡ suc (length (stored ms))
  unfolding put load
  length-put [] e = absurd (some-ne-none _ (sym e))
  length-put ((k, x) ∷ ms) e = elim (Bool-cases (same_name k name)) [
    | inl s ↦
        let same : x ≡ m = some-injective _ _ (rw s at e) in
        rw s (
          omega (
            arith,
            length-append (held m') (stored ms),
            length-append (held x) (stored ms),
            length-held m m' p ins,
            ap (λ y. length (held y)) same,
          ))
    | inr n ↦ rw n (
        omega (
          arith,
          length-append (held x) (stored (put name m' ms)),
          length-append (held x) (stored ms),
          length-put ms (rw n at e),
        ))
  ]

stored-append-new :
    (name k : List ℕ) (ms : Metrics) → stored (ms ++ (k, new_metric name) ∷ []) ≡ stored ms
stored-append-new name k [] = refl
stored-append-new name k ((j, m) ∷ ms) = ap (λ t. held m ++ t) (stored-append-new name k ms)

load-append-new :
    (name : List ℕ) (m : MemoryMetric) (ms : Metrics)
    → load name ms ≡ none
    → load name (ms ++ (name, m) ∷ []) ≡ some m
unfolding load
load-append-new name m [] e = rw (same_name_refl name) refl
load-append-new name m ((k, x) ∷ ms) e = elim (Bool-cases (same_name k name)) [
  | inl s ↦ absurd (some-ne-none _ (rw s at e))
  | inr n ↦ rw n (load-append-new name m ms (rw n at e))
]

-- What `getMetric` returns is valid and the one under the name; it stores no point.
pub record Gets (name : List ℕ) (ms : Metrics) : Type 0 where
  pub metric : MemoryMetric
  pub metrics : Metrics
  pub gives : get_metric name ms ≡ (metric, metrics)
  pub under : load name metrics ≡ some metric
  pub valid : IsValid metric
  pub all_valid : AllValid metrics
  pub same : stored metrics ≡ stored ms

pub get_metric_lem : (name : List ℕ) (ms : Metrics) → AllValid ms → Gets name ms
unfolding get_metric
get_metric_lem name ms v = elim (Option-cases (load name ms)) [
  | inl e ↦ record {
    metric = new_metric name;
    metrics = ms ++ (name, new_metric name) ∷ [];
    gives = rw (get_metric, e) refl;
    under = load-append-new name (new_metric name) ms e;
    valid = new_metric-IsValid name;
    all_valid = All-append _ ms ((name, new_metric name) ∷ []) v (new_metric-IsValid name, tt);
    same = stored-append-new name name ms;
  }
  | inr (m, e) ↦ record {
    metric = m;
    metrics = ms;
    gives = rw (get_metric, e) refl;
    under = e;
    valid = load-IsValid name ms m v e;
    all_valid = v;
    same = refl;
  }
]
