-- ===== src/MemoryPartition/Query.antt =====
-- `selectDataPoints` of a partition in memory.
use mathlib.Core.Path.{subst}
use tstorage.Base.{ℕ, ◌≤◌, ◌≡◌, sym, ap, ◌∙◌, Bool, List, some, length, All, filter}
use tstorage.Words.{biased}
use tstorage.Rows.{Label, Row}
use tstorage.MemoryMetric.{MemoryMetric, select_points}
use tstorage.MemoryMetric.Select.{in_places, upper, select_points_lem}
use tstorage.MemoryPartition.{MemoryPartition, load, select_data_points}
use tstorage.MemoryPartition.Valid.{stored, get_metric_lem}
use tstorage.MemoryPartition.Names.{AreNamed, get_metric-AreNamed}
use tstorage.MemoryPartition.Insert.{IsValidPartition}

module _ (name_of : List ℕ → List Label → List ℕ) (clock : ℕ → ℕ) (append : List Row → Bool) where
  -- selectDataPoints of a valid partition, for start at or before end, gives without a panic the
  -- points of a metric that is the one under the name from then on, from start up to the bound of
  -- selectPoints, and leaves a valid partition that stores the same points, whether the name was
  -- known or not.
  pub select_data_points-IsValidPartition :
      (p : MemoryPartition) (metric : List ℕ) (labels : List Label) (start end : ℕ)
      → IsValidPartition p
      → biased start ≤ biased end
      → (m : MemoryMetric) × (p' : MemoryPartition) × (select_data_points name_of clock append p
            metric labels start end
          ≡ (some (filter (in_places (biased start) (upper m end)) m.points), p'))
        × (load (name_of metric labels) p'.metrics ≡ some m)
        × (stored p'.metrics ≡ stored p.metrics)
        × IsValidPartition p'
  unfolding select_data_points
  select_data_points-IsValidPartition p metric labels start end v le =
      let got = get_metric_lem (name_of metric labels) p.metrics v.metrics in
      (
        got.metric,
        record p { metrics = got.metrics },
        ap (λ r. (select_points r.0 start end, record p { metrics = r.1 })) got.gives
            ∙ ap (λ o. (o, record p { metrics = got.metrics }))
                (select_points_lem got.metric got.valid start end le),
        got.under,
        got.same,
        record {
          metrics = got.all_valid;
          named =
              subst (λ r. AreNamed r.1) got.gives
                (get_metric-AreNamed (name_of metric labels) p.metrics v.named);
          counted = v.counted ∙ ap length (sym got.same);
          within = subst (All _) (sym got.same) v.within;
          fresh = λ e. got.same ∙ v.fresh e;
        },
      )
