-- ===== src/MemoryPartition/Names.antt =====
-- The names of a partition's metrics: each metric is stored under its own name, and no name twice.
use mathlib.Core.Option.{some-injective, some-ne-none}
use tstorage.Base.{ℕ, suc, ◌≡◌, refl, sym, ap, ◌∙◌, false}
use tstorage.Base.{
  List, [], ◌∷◌, none, some, Bool-cases, Option-cases, inl, inr, get_elem?, All, All-append,
  IsOrdered, IsOrdered-append, arith,
}
use tstorage.Rows.{DataPoint}
use tstorage.MemoryMetric.{MemoryMetric, new_metric, insert_point}
use tstorage.MemoryPartition.{Metrics, same_name, load, put, get_metric}
use tstorage.MemoryPartition.Valid.{same_name_refl, same_name-eq}

same_name_sym : (xs ys : List ℕ) → same_name xs ys ≡ false → same_name ys xs ≡ false
same_name_sym xs ys e = elim (Bool-cases (same_name ys xs)) [
  | inl same ↦ absurd (
      ground
        (arith, e, same, ap (λ z. same_name z ys) (same_name-eq ys xs same), same_name_refl ys))
  | inr other ↦ other
]

-- A metric in front of one that has another key.
abbrev pub OtherKey : List ℕ × MemoryMetric → List ℕ × MemoryMetric → Type 0
OtherKey (k, m) (k', m') = same_name k' k ≡ false

pub record AreNamed (ms : Metrics) : Type 0 where
  pub keys : All (λ e. e.1.name ≡ e.0) ms
  pub distinct : IsOrdered OtherKey ms

pub insert_point-name :
    (m m' : MemoryMetric) (p : DataPoint) → insert_point m p ≡ some m' → m'.name ≡ m.name
unfolding insert_point
insert_point-name m m' p e = ground arith

load-none :
    (name : List ℕ) (ms : Metrics) → load name ms ≡ none → All (λ e. same_name name e.0 ≡ false) ms
unfolding load
load-none name [] e = tt
load-none name ((k, m) ∷ ms) e = elim (Bool-cases (same_name k name)) [
  | inl s ↦ absurd (some-ne-none _ (rw s at e))
  | inr n ↦ (same_name_sym k name n, load-none name ms (rw n at e))
]

pub get_metric-AreNamed :
    (name : List ℕ) (ms : Metrics) → AreNamed ms → AreNamed (get_metric name ms).1
unfolding get_metric
get_metric-AreNamed name ms a = elim (Option-cases (load name ms)) [
  | inl e ↦
      rw (get_metric, e)
        (record {
          keys = All-append _ ms ((name, new_metric name) ∷ []) a.keys (refl, tt);
          distinct =
              IsOrdered-append OtherKey ms (name, new_metric name) a.distinct (load-none name ms e);
        })
  | inr (m, e) ↦ rw (get_metric, e) a
]

module _ (name : List ℕ) (m' : MemoryMetric) where
  put-key :
      (k : List ℕ) (ms : Metrics)
      → All (λ e. same_name e.0 k ≡ false) ms
      → All (λ e. same_name e.0 k ≡ false) (put name m' ms)
  unfolding put
  put-key k [] h = tt
  put-key k ((j, x) ∷ ms) (d, h) = elim (Bool-cases (same_name j name)) [
    | inl s ↦ rw s (d, h)
    | inr n ↦ rw n (d, put-key k ms h)
  ]

  pub put-AreNamed : (ms : Metrics) → m'.name ≡ name → AreNamed ms → AreNamed (put name m' ms)
  unfolding put
  put-AreNamed [] e a = record { keys = tt; distinct = tt }
  put-AreNamed ((k, x) ∷ ms) e a = elim (Bool-cases (same_name k name)) [
    | inl s ↦
        rw s (record { keys = (e ∙ sym (same_name-eq k name s), a.keys.1); distinct = a.distinct })
    | inr n ↦
        let rest = put-AreNamed ms e (record { keys = a.keys.1; distinct = a.distinct.1 }) in
        rw n (record {
          keys = (a.keys.0, rest.keys);
          distinct = (put-key k ms a.distinct.0, rest.distinct);
        })
  ]

-- The metric under a name has that name, and a place in the list.
pub load-place :
    (name : List ℕ) (ms : Metrics) (m : MemoryMetric)
    → AreNamed ms
    → load name ms ≡ some m
    → (i : ℕ) × (get_elem? ms i ≡ some (name, m)) × (m.name ≡ name)
unfolding load
load-place name [] m a e = absurd (some-ne-none _ (sym e))
load-place name ((k, x) ∷ ms) m a e = elim (Bool-cases (same_name k name)) [
  | inl s ↦
      let same : x ≡ m = some-injective _ _ (rw s at e) in
      let key : k ≡ name = same_name-eq k name s in
      (
        0,
        ap (λ j. some (j, x)) key ∙ ap (λ y. some (name, y)) same,
        sym (ap (λ y. y.name) same) ∙ a.keys.0 ∙ key,
      )
  | inr n ↦
      let (i, at, e') =
        load-place name ms m (record { keys = a.keys.1; distinct = a.distinct.1 }) (rw n at e) in
      (suc i, at, e')
]

-- No metric has a name that is not there.
pub load-no_name :
    (name : List ℕ) (ms : Metrics)
    → AreNamed ms
    → load name ms ≡ none
    → All (λ e. same_name e.1.name name ≡ false) ms
unfolding load
load-no_name name [] a e = tt
load-no_name name ((k, m) ∷ ms) a e = elim (Bool-cases (same_name k name)) [
  | inl s ↦ absurd (some-ne-none _ (rw s at e))
  | inr n ↦ (
    ap (λ z. same_name z name) a.keys.0 ∙ n,
    load-no_name name ms (record { keys = a.keys.1; distinct = a.distinct.1 }) (rw n at e),
  )
]

-- What is there already changes nothing.
pub put-same :
    (name : List ℕ) (m : MemoryMetric) (ms : Metrics) → load name ms ≡ some m → put name m ms ≡ ms
unfolding put load
put-same name m [] e = refl
put-same name m ((k, x) ∷ ms) e = elim (Bool-cases (same_name k name)) [
  | inl s ↦ rw s (ap (λ y. (k, y) ∷ ms) (sym (some-injective _ _ (rw s at e))))
  | inr n ↦ rw n (ap (◌∷◌ (k, x)) (put-same name m ms (rw n at e)))
]
