-- ===== src/MemoryPartition/Spelled.antt =====
-- The names of a partition's metrics are the names of the rows that `insertRows` has put into it.
use mathlib.Core.Path.{subst}
use mathlib.Core.Option.{some-injective, some-ne-none}
use tstorage.Base.{ℕ, suc, ◌≡◌, sym, Bool, true}
use tstorage.Base.{
  List, [], ◌∷◌, Option, none, some, Bool-cases, Option-cases, inl, inr, All, All-append,
}
use tstorage.Words.{slt}
use tstorage.Rows.{DataPoint, Label, Row}
use tstorage.MemoryMetric.{MemoryMetric, new_metric, insert_point}
use tstorage.MemoryPartition.{
  MemoryPartition, Metrics, same_name, load, put, get_metric, Progress, InsertResult, no_rows,
  wal_failed, panicked, inserted, store_point, stamped, store_row, insert_row, insert_loop,
  finish_insert, insert_rows, set_min,
}
use tstorage.MemoryPartition.Names.{insert_point-name}

module _ (P : List ℕ → Type 0) where
  abbrev pub AllNames : Metrics → Type 0
  AllNames ms = All (λ e. P e.1.name) ms

  load-P :
      (name : List ℕ) (ms : Metrics) (m : MemoryMetric)
      → AllNames ms
      → load name ms ≡ some m
      → P m.name
  unfolding load
  load-P name [] m h e = absurd (some-ne-none _ (sym e))
  load-P name ((k, x) ∷ ms) m (h, hs) e = elim (Bool-cases (same_name k name)) [
    | inl s ↦ subst (λ z. P z.name) (some-injective _ _ (rw s at e)) h
    | inr n ↦ load-P name ms m hs (rw n at e)
  ]

  put-AllNames :
      (name : List ℕ) (m : MemoryMetric) (ms : Metrics)
      → P m.name
      → AllNames ms
      → AllNames (put name m ms)
  unfolding put
  put-AllNames name m [] h hs = tt
  put-AllNames name m ((k, x) ∷ ms) h (hx, hs) = elim (Bool-cases (same_name k name)) [
    | inl s ↦ rw s (h, hs)
    | inr n ↦ rw n (hx, put-AllNames name m ms h hs)
  ]

  get_metric-AllNames :
      (name : List ℕ) (ms : Metrics)
      → P name
      → AllNames ms
      → P (get_metric name ms).0.name × AllNames (get_metric name ms).1
  unfolding get_metric
  get_metric-AllNames name ms h hs = elim (Option-cases (load name ms)) [
    | inl e ↦
        rw (get_metric, e)
          (h, All-append (λ e. P e.1.name) ms ((name, new_metric name) ∷ []) hs (h, tt))
    | inr (m, e) ↦ rw (get_metric, e) (load-P name ms m hs e, hs)
  ]

  abbrev Keeps : Option Progress → Type 0
  Keeps none = Unit
  Keeps (some s) = AllNames s.metrics

  store_point-Keeps :
      (name : List ℕ) (p : DataPoint) (s : Progress) (m : MemoryMetric) (ms : Metrics)
      → P m.name
      → AllNames ms
      → Keeps (store_point name p s (m, ms))
  store_point-Keeps name p s m ms h hs = elim (Option-cases (insert_point m p)) [
    | inl e ↦ rw (Keeps, e) tt
    | inr (m', e) ↦
        rw (Keeps, e) (put-AllNames name m' ms (subst P (sym (insert_point-name m m' p e)) h) hs)
  ]

  module _ (name_of : List ℕ → List Label → List ℕ) (clock : ℕ → ℕ) (append : List Row → Bool) where
    insert_row-Keeps :
        (min i : ℕ) (r : Row) (s : Progress)
        → P (name_of r.metric r.labels)
        → AllNames s.metrics
        → Keeps (insert_row name_of clock append min i r s)
    unfolding insert_row store_row
    insert_row-Keeps min i r s h hs = elim (Bool-cases (slt r.point.timestamp min)) [
      | inl old ↦ rw old hs
      | inr fine ↦
          let name = name_of r.metric r.labels in
          let (h', hs') = get_metric-AllNames name s.metrics h hs in
          let (m, ms) = get_metric name s.metrics in
          rw fine (store_point-Keeps name (stamped name_of clock append i r.point) s m ms h' hs')
    ]

    insert_loop-Keeps :
        (min i : ℕ) (rs : List Row) (s : Progress)
        → All (λ r. P (name_of r.metric r.labels)) rs
        → AllNames s.metrics
        → Keeps (insert_loop name_of clock append min i rs s)
    unfolding insert_loop
    insert_loop-Keeps min i [] s h hs = hs
    insert_loop-Keeps min i (r ∷ rs) s (h, h') hs =
        let k = insert_row-Keeps min i r s h hs in
        elim (Option-cases (insert_row name_of clock append min i r s)) [
          | inl e ↦ rw (Keeps, e) tt
          | inr (s', e) ↦ rw (Keeps, e) (insert_loop-Keeps min (suc i) rs s' h' (subst Keeps e k))
        ]

    abbrev After : InsertResult → Type 0
    After no_rows = Unit
    After wal_failed = Unit
    After panicked = Unit
    After (inserted outdated p) = AllNames p.metrics

    insert_rows-After :
        (p : MemoryPartition) (r : Row) (rs : List Row)
        → All (λ r. P (name_of r.metric r.labels)) (r ∷ rs)
        → AllNames p.metrics
        → append (r ∷ rs) ≡ true
        → After (insert_rows name_of clock append p (r ∷ rs))
    unfolding insert_rows finish_insert set_min
    insert_rows-After p r rs h hs took =
        let p' = set_min p r rs in
        let start : Progress = record {
          metrics = p'.metrics;
          outdated = [];
          max = r.point.timestamp;
          count = 0;
        } in
        let same : AllNames p'.metrics = elim (Bool-cases p.started) [
          | inl on ↦ rw on hs
          | inr off ↦ rw off hs
        ] in
        let k = insert_loop-Keeps p'.min_t 0 (r ∷ rs) start h same in
        elim (Option-cases (insert_loop name_of clock append p'.min_t 0 (r ∷ rs) start)) [
          | inl e ↦ rw (took, e) tt
          | inr (s, e) ↦ rw (took, e) (subst Keeps e k)
        ]

    -- What insertRows leaves in the partition.
    pub insert_rows-AllNames :
        (p p' : MemoryPartition) (r : Row) (rs outdated : List Row)
        → All (λ r. P (name_of r.metric r.labels)) (r ∷ rs)
        → AllNames p.metrics
        → append (r ∷ rs) ≡ true
        → insert_rows name_of clock append p (r ∷ rs) ≡ inserted outdated p'
        → AllNames p'.metrics
    insert_rows-AllNames p p' r rs outdated h hs took e =
        subst After e (insert_rows-After p r rs h hs took)
