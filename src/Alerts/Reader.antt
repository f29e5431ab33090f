-- ===== src/Alerts/Reader.antt =====
-- `WindowedMetricReader.observe` (apps/api/app/alerts/service.py).
use microlens_recsys_mvp.Prelude.{
  ℕ, String, Bool, true, ◌&&◌, List, [], ◌∷◌, pos, length, ltb, if◌then◌else◌, value_error, Result,
  guard, ◌>>=◌, ◌>>◌,
}
use microlens_recsys_mvp.Prelude.Floats.{Floats}
use microlens_recsys_mvp.Durable.Domain.{DateTime, aware, require_aware}
use microlens_recsys_mvp.Alerts.Domain.{
  Aggregation, sum, avg, min, max, count, MetricObservation, metric_observation,
}

module _ (F : Floats) where
  open F use {Float, isfinite, of_int, add, div}

  abbrev all_finite : List Float → Bool
  all_finite [] = true
  all_finite (v ∷ vs) = isfinite v && all_finite vs

  -- `sum(values)` starts from 0 and adds from the left.
  unfoldable pub sum_from : Float → List Float → Float
  sum_from total [] = total
  sum_from total (v ∷ vs) = sum_from (add total v) vs

  -- `min(values)` keeps the first smallest value, `max(values)` the first largest.
  unfoldable pub min_from : Float → List Float → Float
  min_from best [] = best
  min_from best (v ∷ vs) = min_from (if F.lt v best then v else best) vs

  unfoldable pub max_from : Float → List Float → Float
  max_from best [] = best
  max_from best (v ∷ vs) = max_from (if F.lt best v then v else best) vs

  unfoldable pub aggregate : Aggregation → List Float → Float
  unfolding sum_from min_from max_from
  aggregate count values = of_int (length values)
  aggregate sum [] = of_int 0
  aggregate avg [] = of_int 0
  aggregate min [] = of_int 0
  aggregate max [] = of_int 0
  aggregate sum (v ∷ vs) = sum_from (of_int 0) (v ∷ vs)
  aggregate min (v ∷ vs) = min_from v vs
  aggregate max (v ∷ vs) = max_from v vs
  aggregate avg (v ∷ vs) = div (sum_from (of_int 0) (v ∷ vs)) (of_int (length (v ∷ vs)))

  -- `samples` is the source: the samples of a metric in a window.
  unfoldable pub observe :
      (String → ℕ → ℕ → List Float)
      → String
      → Aggregation
      → DateTime
      → DateTime
      → Result (MetricObservation F)
  unfolding aggregate metric_observation require_aware
  observe samples metric_name aggregation window_start window_end = do
    start ← require_aware window_start "window_start must be timezone-aware"
    end ← require_aware window_end "window_end must be timezone-aware"
    guard (ltb start end) (value_error "metric window must be non-empty")
    let values = samples metric_name start end
    guard (all_finite values) (value_error "metric samples must be finite numbers")
    metric_observation F metric_name (aggregate aggregation values) (pos (length values))
        (aware start) (aware end)
