-- ===== src/MemoryPartition/Insert.antt =====
-- The invariant of a partition, and `insertRows`.
use mathlib.Core.Path.{subst}
use tstorage.Base.{ℕ, suc, ◌+◌, ◌≤◌, ◌≡◌, refl, sym, ap, ◌∙◌, Bool, true, false}
use tstorage.Base.{
  if◌then◌else◌, List, [], ◌∷◌, ◌++◌, some, length, arith, append-nil, append_assoc,
}
use tstorage.Base.{All, All-map, Bool-cases, inl, inr, filter, filter-cons, ltb→ge}
use tstorage.Words.{slt, biased}
use tstorage.Rows.{DataPoint, Label, Row}
use tstorage.MemoryMetric.{MemoryMetric, insert_point}
use tstorage.MemoryMetric.Valid.{place, IsWithin, insert_point-IsValid}
use tstorage.MemoryPartition.{MemoryPartition, Metrics, put, get_metric, set_min, Progress}
use tstorage.MemoryPartition.{wal_failed, inserted, stamped, store_row, insert_row, store_point}
use tstorage.MemoryPartition.{TimestampPrecision, new_memory_partition}
use tstorage.MemoryPartition.{insert_loop, finish_insert, insert_rows}
use tstorage.MemoryPartition.Count.{insert_loop-count}
use tstorage.MemoryPartition.Names.{
  AreNamed, insert_point-name, get_metric-AreNamed, put-AreNamed, load-place,
}
use tstorage.MemoryPartition.Valid.{
  AllValid, stored, put-AllValid, put-All, length-put, get_metric_lem,
}

-- Each metric is valid and stored under its own name, once, the points are counted, between the two timestamps, and there is none
-- before the first insertion.
pub record IsValidPartition (p : MemoryPartition) : Type 0 where
  pub metrics : AllValid p.metrics
  pub named : AreNamed p.metrics
  pub counted : p.num_points ≡ length (stored p.metrics)
  pub within : All (IsWithin p.min_t p.max_t) (stored p.metrics)
  pub fresh : p.started ≡ false → stored p.metrics ≡ []

pub new_memory_partition-IsValidPartition :
    (duration : ℕ) (precision : TimestampPrecision)
    → IsValidPartition (new_memory_partition duration precision)
unfolding new_memory_partition
new_memory_partition-IsValidPartition duration precision = record {
  metrics = tt;
  named = record { keys = tt; distinct = tt };
  counted = refl;
  within = tt;
  fresh = λ e. refl;
}

-- The loop's invariant: the points lie between `lo` and the higher of the two maxima.
abbrev top : ℕ → ℕ → ℕ
top max_t max = if slt max_t max then max else max_t

record IsGoing (lo max_t n : ℕ) (s : Progress) : Type 0 where
  pub metrics : AllValid s.metrics
  pub named : AreNamed s.metrics
  pub counted : n + s.count ≡ length (stored s.metrics)
  pub within : All (IsWithin lo (top max_t s.max)) (stored s.metrics)

-- The loop's state after a point is stored.
abbrev pub after_point : List ℕ → DataPoint → Progress → MemoryMetric → Metrics → Progress
after_point name p s m' metrics = record s {
  metrics = put name m' metrics;
  max = if slt s.max p.timestamp then p.timestamp else s.max;
  count = s.count + 1;
}

pub store_point-some :
    (name : List ℕ) (p : DataPoint) (s : Progress) (m m' : MemoryMetric) (metrics : Metrics)
    → insert_point m p ≡ some m'
    → store_point name p s (m, metrics) ≡ some (after_point name p s m' metrics)
store_point-some name p s m m' metrics e = rw (store_point, e) refl

-- A point at `lo` or later is stored, and the invariant goes on.
store_point_lem :
    (lo max_t n : ℕ) (name : List ℕ) (p : DataPoint) (s : Progress)
    → biased lo ≤ place p
    → IsGoing lo max_t n s
    → (s' : Progress) × (store_point name p s (get_metric name s.metrics) ≡ some s')
      × IsGoing lo max_t n s'
      × (s'.outdated ≡ s.outdated)
store_point_lem lo max_t n name p s le g =
    let got = get_metric_lem name s.metrics g.metrics in
    let (m', e, v', ins) = insert_point-IsValid got.metric p got.valid in
    let named : AreNamed got.metrics =
      subst (λ r. AreNamed r.1) got.gives (get_metric-AreNamed name s.metrics g.named) in
    let (i, at, name') = load-place name got.metrics got.metric named got.under in
    (
      after_point name p s m' got.metrics,
      ap (store_point name p s) got.gives ∙ store_point-some name p s got.metric m' got.metrics e,
      record {
        metrics = put-AllValid name got.metric m' p ins got.metrics got.all_valid v';
        named =
            put-AreNamed name m' got.metrics (insert_point-name got.metric m' p e ∙ name') named;
        counted = omega (
          arith,
          g.counted,
          ap length got.same,
          length-put name got.metric m' p ins got.metrics got.under,
        );
        within =
            put-All name got.metric m' p ins _ got.metrics got.under (le, ground arith)
              (subst (All _) (sym got.same)
                (All-map (λ q w. (w.0, ground (arith, w.1))) _ g.within));
      },
      refl,
    )

-- A row that the partition does not take.
abbrev pub is_outdated : ℕ → Row → Bool
is_outdated lo r = slt r.point.timestamp lo

-- The rows that are not outdated are stored; the others are kept in their order.
module _ (name_of : List ℕ → List Label → List ℕ) (clock : ℕ → ℕ) (append : List Row → Bool)
    (after_epoch : (i : ℕ) → biased 0 ≤ biased (clock i)) where
  stamped-place :
      (lo i : ℕ) (p : DataPoint)
      → biased lo ≤ place p
      → biased lo ≤ place (stamped name_of clock append i p)
  stamped-place lo i p le = ground (arith, after_epoch i)

  insert_row_lem :
      (lo max_t n i : ℕ) (r : Row) (s : Progress)
      → IsGoing lo max_t n s
      → (s' : Progress) × (insert_row name_of clock append lo i r s ≡ some s')
        × IsGoing lo max_t n s'
        × (s'.outdated ≡ s.outdated ++ filter (is_outdated lo) (r ∷ []))
  unfolding insert_row store_row
  insert_row_lem lo max_t n i r s g = elim (Bool-cases (is_outdated lo r)) [
    | inl old ↦ (
      record s { outdated = s.outdated ++ r ∷ [] },
      rw old refl,
      record { metrics = g.metrics; named = g.named; counted = g.counted; within = g.within },
      rw old refl,
    )
    | inr new ↦
        let le : biased lo ≤ place r.point = ltb→ge _ _ new in
        let (s', e, g', o) =
          store_point_lem lo max_t n (name_of r.metric r.labels)
            (stamped name_of clock append i r.point) s (stamped-place lo i r.point le) g in
        (s', rw new e, g', rw new (o ∙ sym (append-nil s.outdated)))
  ]

  insert_loop_lem :
      (lo max_t n i : ℕ) (rs : List Row) (s : Progress)
      → IsGoing lo max_t n s
      → (s' : Progress) × (insert_loop name_of clock append lo i rs s ≡ some s')
        × IsGoing lo max_t n s'
        × (s'.outdated ≡ s.outdated ++ filter (is_outdated lo) rs)
  unfolding insert_loop
  insert_loop_lem lo max_t n i [] s g = (s, refl, g, sym (append-nil s.outdated))
  insert_loop_lem lo max_t n i (r ∷ rs) s g =
      let (s', e, g', o) = insert_row_lem lo max_t n i r s g in
      let (s'', e', g'', o') = insert_loop_lem lo max_t n (suc i) rs s' g' in
      (
        s'',
        rw (insert_loop, e) e',
        g'',
        o'
            ∙ ap (λ t. t ++ filter (is_outdated lo) rs) o
            ∙ append_assoc s.outdated (filter (is_outdated lo) (r ∷ []))
                (filter (is_outdated lo) rs)
            ∙ ap (λ t. s.outdated ++ t) (filter-cons (is_outdated lo) r rs),
      )

  -- The loop's state at its start.
  abbrev start : MemoryPartition → Row → Progress
  start p r = record { metrics = p.metrics; outdated = []; max = r.point.timestamp; count = 0 }

  start-IsGoing :
      (p : MemoryPartition) (r : Row) (rs : List Row)
      → IsValidPartition p
      → IsGoing (set_min p r rs).min_t p.max_t p.num_points (start (set_min p r rs) r)
  unfolding set_min
  start-IsGoing p r rs v = elim (Bool-cases p.started) [
    | inl old ↦ rw old (record {
      metrics = v.metrics;
      named = v.named;
      counted = omega (arith, v.counted);
      within = All-map (λ q w. (w.0, ground (arith, w.1))) _ v.within;
    })
    | inr new ↦ rw new (record {
      metrics = v.metrics;
      named = v.named;
      counted = omega (arith, v.counted);
      within = subst (All _) (sym (v.fresh new)) tt;
    })
  ]

  set_min-started :
      (p : MemoryPartition) (r : Row) (rs : List Row) → (set_min p r rs).started ≡ true
  unfolding set_min
  set_min-started p r rs = elim (Bool-cases p.started) [ inl e ↦ rw e refl | inr e ↦ rw e refl ]

  set_min-rest :
      (p : MemoryPartition) (r : Row) (rs : List Row)
      → ((set_min p r rs).max_t ≡ p.max_t) × ((set_min p r rs).num_points ≡ p.num_points)
  unfolding set_min
  set_min-rest p r rs = elim (Bool-cases p.started) [
    | inl e ↦ rw e (refl, refl)
    | inr e ↦ rw e (refl, refl)
  ]

  -- insertRows of a valid partition with at least one row, when the WAL takes the rows and the
  -- clock is not before the epoch, never panics and leaves a valid partition (its metrics valid and
  -- stored under their own names, each once, its points counted and between its two timestamps); it
  -- gives back exactly the rows below the min timestamp, in their order, and counts all others.
  pub insert_rows-IsValidPartition :
      (p : MemoryPartition) (r : Row) (rs : List Row)
      → IsValidPartition p
      → append (r ∷ rs) ≡ true
      → (outdated : List Row) × (p' : MemoryPartition) × (insert_rows name_of clock append p
            (r ∷ rs)
          ≡ inserted outdated p')
        × IsValidPartition p'
        × (outdated ≡ filter (is_outdated p'.min_t) (r ∷ rs))
        × (p'.num_points + length outdated ≡ p.num_points + length (r ∷ rs))
  unfolding insert_rows finish_insert
  insert_rows-IsValidPartition p r rs v took =
      let p₁ = set_min p r rs in
      let (s, e, g, o) =
        insert_loop_lem p₁.min_t p.max_t p.num_points 0 (r ∷ rs) (start p₁ r)
          (start-IsGoing p r rs v) in
      (
        s.outdated,
        finish_insert name_of clock append p₁ s,
        rw (took, e) refl,
        record {
          metrics = g.metrics;
          named = g.named;
          counted = omega (arith, g.counted, (set_min-rest p r rs).1);
          within =
              subst (λ k. All (IsWithin p₁.min_t (top k s.max)) (stored s.metrics))
                (sym (set_min-rest p r rs).0) g.within;
          fresh = λ no. absurd (ground (arith, no, set_min-started p r rs));
        },
        o,
        omega (
          arith,
          insert_loop-count name_of clock append p₁.min_t 0 (r ∷ rs) (start p₁ r) s e,
          (set_min-rest p r rs).1,
        ),
      )

  -- When the WAL does not take the rows, nothing is inserted.
  pub insert_rows-wal_failed :
      (p : MemoryPartition) (r : Row) (rs : List Row)
      → append (r ∷ rs) ≡ false
      → insert_rows name_of clock append p (r ∷ rs) ≡ wal_failed
  unfolding insert_rows
  insert_rows-wal_failed p r rs e = rw e refl
