-- ===== src/MemoryPartition/Contents.antt =====
-- What `insertRows` stores, told by metric: each row that is not outdated goes, once, to the metric
-- of its marshalled name.
use mathlib.Core.Path.{subst}
use mathlib.Core.Option.{some-ne-none}
use mathlib.Core.List.{Perm, perm_append_singleton}
use mathlib.Core.List.Perm
use tstorage.Base.{ℕ, suc, ◌≡◌, refl, sym, ap, ◌∙◌, Bool, true, false, if◌then◌else◌}
use tstorage.Base.{
  List, [], ◌∷◌, ◌++◌, Option, none, some, Bool-cases, Option-cases, inl, inr, append_assoc,
  append-nil,
}
use tstorage.Words.{slt}
use tstorage.Rows.{DataPoint, Label, Row}
use tstorage.MemoryMetric.{MemoryMetric, new_metric}
use tstorage.MemoryMetric.Valid.{Inserted, insert_point-IsValid}
use tstorage.MemoryPartition.{
  MemoryPartition, Metrics, same_name, load, put, get_metric, set_min, Progress, inserted, stamped,
  store_point, store_row, insert_row, insert_loop, finish_insert, insert_rows,
}
use tstorage.MemoryPartition.Valid.{AllValid, held, same_name-eq, get_metric_lem, put-AllValid}
use tstorage.MemoryPartition.Insert.{after_point, store_point-some}
use tstorage.MemoryPartition.Names.{
  AreNamed, insert_point-name, get_metric-AreNamed, put-AreNamed, load-place,
}

-- The points under a name.
abbrev pub held_by : Option MemoryMetric → List DataPoint
held_by none = []
held_by (some m) = held m

abbrev pub contents : List ℕ → Metrics → List DataPoint
contents name ms = held_by (load name ms)

Inserted-Perm :
    (m m' : MemoryMetric) (p : DataPoint) → Inserted m p m' → Perm (held m') (held m ++ p ∷ [])
Inserted-Perm m m' p (inl (e, eo, early)) =
    rw
      (
        e,
        eo,
        append_assoc m.points (p ∷ []) m.out_of_order_points,
        append_assoc m.points m.out_of_order_points (p ∷ []),
      )
      (Perm.append_left m.points (Perm.symm (perm_append_singleton p m.out_of_order_points)))
Inserted-Perm m m' p (inr (e, eo, late)) =
    rw (e, eo, append_assoc m.points m.out_of_order_points (p ∷ [])) (Perm.refl _)

load-append :
    (q name : List ℕ) (ms : Metrics)
    → contents q (ms ++ (name, new_metric name) ∷ []) ≡ contents q ms
unfolding load
load-append q name [] = elim (Bool-cases (same_name name q)) [
  | inl e ↦ rw e refl
  | inr e ↦ rw e refl
]
load-append q name ((k, m) ∷ ms) = elim (Bool-cases (same_name k q)) [
  | inl e ↦ rw e refl
  | inr e ↦ rw e (load-append q name ms)
]

get_metric-contents :
    (q name : List ℕ) (ms : Metrics) → contents q (get_metric name ms).1 ≡ contents q ms
unfolding get_metric
get_metric-contents q name ms = elim (Option-cases (load name ms)) [
  | inl e ↦ rw (get_metric, e) (load-append q name ms)
  | inr (m, e) ↦ rw (get_metric, e) refl
]

load-put_same :
    (name : List ℕ) (m m' : MemoryMetric) (ms : Metrics)
    → load name ms ≡ some m
    → load name (put name m' ms) ≡ some m'
unfolding load put
load-put_same name m m' [] e = absurd (some-ne-none _ (sym e))
load-put_same name m m' ((k, x) ∷ ms) e = elim (Bool-cases (same_name k name)) [
  | inl s ↦ rw (s, s) refl
  | inr n ↦ rw (n, n) (load-put_same name m m' ms (rw n at e))
]

load-put_other :
    (name q : List ℕ) (m' : MemoryMetric) (ms : Metrics)
    → same_name name q ≡ false
    → load q (put name m' ms) ≡ load q ms
unfolding load put
load-put_other name q m' [] d = refl
load-put_other name q m' ((k, x) ∷ ms) d = elim (Bool-cases (same_name k name)) [
  | inl s ↦
      let other : same_name k q ≡ false = ap (λ z. same_name z q) (same_name-eq k name s) ∙ d in
      rw (s, other) refl
  | inr n ↦ rw n (ap (λ r. if same_name k q then some x else r) (load-put_other name q m' ms d))
]

-- The metrics after some points have gone to their names, from those before.
pub record Grown (new : List ℕ → List DataPoint) (ms ms' : Metrics) : Type 0 where
  pub valid : AllValid ms'
  pub named : AreNamed ms'
  pub holds : (q : List ℕ) → Perm (contents q ms') (contents q ms ++ new q)

Grown-refl : (ms : Metrics) → AllValid ms → AreNamed ms → Grown (λ q. []) ms ms
Grown-refl ms v a = record {
  valid = v;
  named = a;
  holds = λ q. subst (Perm (contents q ms)) (sym (append-nil (contents q ms))) (Perm.refl _);
}

Grown-trans :
    {f g : List ℕ → List DataPoint} {a b c : Metrics}
    → Grown f a b
    → Grown g b c
    → Grown (λ q. f q ++ g q) a c
Grown-trans {f} {g} {a} {b} {c} x y = record {
  valid = y.valid;
  named = y.named;
  holds = λ q.
      subst (Perm (contents q c)) (append_assoc (contents q a) (f q) (g q))
        (Perm.trans (y.holds q) (Perm.append_right (g q) (x.holds q)));
}

abbrev pub under : List ℕ → DataPoint → List ℕ → List DataPoint
under name p q = if same_name name q then p ∷ [] else []

put-holds :
    (name q : List ℕ) (m m' : MemoryMetric) (p : DataPoint) (ms : Metrics)
    → load name ms ≡ some m
    → Inserted m p m'
    → Perm (contents q (put name m' ms)) (contents q ms ++ under name p q)
put-holds name q m m' p ms e ins = elim (Bool-cases (same_name name q)) [
  | inl s ↦
      let same : name ≡ q = same_name-eq name q s in
      let goal : Perm (contents name (put name m' ms)) (contents name ms ++ p ∷ []) =
        rw (load-put_same name m m' ms e, e) (Inserted-Perm m m' p ins) in
      rw s (subst (λ z. Perm (contents z (put name m' ms)) (contents z ms ++ p ∷ [])) same goal)
  | inr n ↦ rw (n, load-put_other name q m' ms n, append-nil (contents q ms)) (Perm.refl _)
]

store_point-Grown :
    (name : List ℕ) (p : DataPoint) (s : Progress)
    → AllValid s.metrics
    → AreNamed s.metrics
    → (s' : Progress) × (store_point name p s (get_metric name s.metrics) ≡ some s')
      × Grown (under name p) s.metrics s'.metrics
store_point-Grown name p s v a =
    let got = get_metric_lem name s.metrics v in
    let (m', e, v', ins) = insert_point-IsValid got.metric p got.valid in
    let named : AreNamed got.metrics =
      subst (λ g. AreNamed g.1) got.gives (get_metric-AreNamed name s.metrics a) in
    let (i, at, name') = load-place name got.metrics got.metric named got.under in
    let same : (q : List ℕ) → contents q got.metrics ≡ contents q s.metrics =
      λ q. ap (λ g. contents q g.1) (sym got.gives) ∙ get_metric-contents q name s.metrics in
    (
      after_point name p s m' got.metrics,
      ap (store_point name p s) got.gives ∙ store_point-some name p s got.metric m' got.metrics e,
      record {
        valid = put-AllValid name got.metric m' p ins got.metrics got.all_valid v';
        named =
            put-AreNamed name m' got.metrics (insert_point-name got.metric m' p e ∙ name') named;
        holds = λ q.
            subst (λ z. Perm (contents q (put name m' got.metrics)) (z ++ under name p q)) (same q)
              (put-holds name q got.metric m' p got.metrics got.under ins);
      },
    )

module _ (name_of : List ℕ → List Label → List ℕ) (clock : ℕ → ℕ) (append : List Row → Bool) where
  -- What the rows from index `i` on bring to the name `q`.
  abbrev pub row_points : ℕ → ℕ → Row → List ℕ → List DataPoint
  row_points lo i r q =
      if slt r.point.timestamp lo
      then []
      else under (name_of r.metric r.labels) (stamped name_of clock append i r.point) q

  abbrev pub taken_points : ℕ → ℕ → List Row → List ℕ → List DataPoint
  taken_points lo i [] q = []
  taken_points lo i (r ∷ rs) q = row_points lo i r q ++ taken_points lo (suc i) rs q

  -- The points of the name `q` in a partition and in the rows that it takes.
  abbrev pub points_with : MemoryPartition → Row → List Row → List ℕ → List DataPoint
  points_with p r rs q = contents q p.metrics ++ taken_points (set_min p r rs).min_t 0 (r ∷ rs) q

  insert_row-Grown :
      (lo i : ℕ) (r : Row) (s : Progress)
      → AllValid s.metrics
      → AreNamed s.metrics
      → (s' : Progress) × (insert_row name_of clock append lo i r s ≡ some s')
        × Grown (row_points lo i r) s.metrics s'.metrics
  unfolding insert_row store_row
  insert_row-Grown lo i r s v a = elim (Bool-cases (slt r.point.timestamp lo)) [
    | inl old ↦
        let g = Grown-refl s.metrics v a in
        (
          record s { outdated = s.outdated ++ r ∷ [] },
          rw old refl,
          record { valid = v; named = a; holds = λ q. rw old (g.holds q) },
        )
    | inr new ↦
        let (s', e, g) =
          store_point-Grown (name_of r.metric r.labels) (stamped name_of clock append i r.point) s v
            a in
        (s', rw new e, record { valid = g.valid; named = g.named; holds = λ q. rw new (g.holds q) })
  ]

  insert_loop-Grown :
      (lo i : ℕ) (rs : List Row) (s : Progress)
      → AllValid s.metrics
      → AreNamed s.metrics
      → (s' : Progress) × (insert_loop name_of clock append lo i rs s ≡ some s')
        × Grown (taken_points lo i rs) s.metrics s'.metrics
  unfolding insert_loop
  insert_loop-Grown lo i [] s v a = (s, refl, Grown-refl s.metrics v a)
  insert_loop-Grown lo i (r ∷ rs) s v a =
      let (s', e, g) = insert_row-Grown lo i r s v a in
      let (s'', e', g') = insert_loop-Grown lo (suc i) rs s' g.valid g.named in
      (s'', rw (insert_loop, e) e', Grown-trans g g')

  set_min-metrics :
      (p : MemoryPartition) (r : Row) (rs : List Row) → (set_min p r rs).metrics ≡ p.metrics
  unfolding set_min
  set_min-metrics p r rs = elim (Bool-cases p.started) [ inl e ↦ rw e refl | inr e ↦ rw e refl ]

  -- insertRows of a partition whose metrics are valid and stored under their own names, for at
  -- least one row and when the WAL takes the rows, brings to each name exactly the points of the
  -- rows of that marshalled name whose timestamps are not below the min timestamp, a timestamp of 0
  -- replaced by the clock: each name then has a permutation of the points it had and of these. The
  -- metrics stay valid and under their own names.
  pub insert_rows-Grown :
      (p : MemoryPartition) (r : Row) (rs : List Row)
      → AllValid p.metrics
      → AreNamed p.metrics
      → append (r ∷ rs) ≡ true
      → (outdated : List Row) × (p' : MemoryPartition) × (insert_rows name_of clock append p
            (r ∷ rs)
          ≡ inserted outdated p')
        × (p'.min_t ≡ (set_min p r rs).min_t)
        × Grown (taken_points (set_min p r rs).min_t 0 (r ∷ rs)) p.metrics p'.metrics
  unfolding insert_rows finish_insert
  insert_rows-Grown p r rs v a took =
      let p₁ = set_min p r rs in
      let same = set_min-metrics p r rs in
      let (s, e, g) =
        insert_loop-Grown p₁.min_t 0 (r ∷ rs)
          (record { metrics = p₁.metrics; outdated = []; max = r.point.timestamp; count = 0 })
          (subst AllValid (sym same) v) (subst AreNamed (sym same) a) in
      (
        s.outdated,
        finish_insert name_of clock append p₁ s,
        rw (took, e) refl,
        refl,
        subst (λ ms. Grown (taken_points p₁.min_t 0 (r ∷ rs)) ms s.metrics) same g,
      )
