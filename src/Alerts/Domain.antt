-- ===== src/Alerts/Domain.antt =====
-- apps/api/app/alerts/domain.py: rules, observations, occurrences and the comparison.
use microlens_recsys_mvp.Prelude.{
  ℕ, String, Bool, Option, ℤ, ltb, bounded_text, value_error, Result, ok, guard, positive,
  nonnegative, ◌>>=◌, ◌>>◌,
}
use microlens_recsys_mvp.Prelude.Floats.{Floats}
use microlens_recsys_mvp.Durable.Domain.{DateTime, require_aware}

pub data AlertStatus : Type 0 where
  firing acknowledged resolved : AlertStatus

pub data Comparator : Type 0 where
  gt gte lt lte : Comparator

pub data Aggregation : Type 0 where
  sum avg min max count : Aggregation

module _ (F : Floats) where
  open F use {Float, isfinite}

  pub record AlertRule : Type 0 where
    pub rule_id : ℕ
    pub name : String
    pub metric_name : String
    pub comparator : Comparator
    pub threshold : Float
    pub window_seconds : ℕ
    pub min_samples : ℕ
    pub aggregation : Aggregation
    pub enabled : Bool

  pub record MetricObservation : Type 0 where
    pub metric_name : String
    pub value : Float
    pub sample_count : ℕ
    pub window_start : ℕ
    pub window_end : ℕ

  pub record AlertOccurrence : Type 0 where
    pub occurrence_id : ℕ
    pub rule_id : ℕ
    pub status : AlertStatus
    pub observed_value : Float
    pub sample_count : ℕ
    pub window_start : ℕ
    pub window_end : ℕ
    pub fired_at : ℕ
    pub version : ℕ
    pub acknowledged_at : Option ℕ
    pub acknowledged_by : Option String
    pub resolved_at : Option ℕ
    pub resolve_reason : Option String

  -- The constructor of `AlertRule`, with the checks of `__post_init__`.
  unfoldable pub alert_rule :
      (rule_id : ℕ) (name metric_name : String) (comparator : Comparator) (threshold : Float)
      (window_seconds min_samples : ℤ) (aggregation : Aggregation) (enabled : Bool)
      → Result AlertRule
  alert_rule rule_id name metric_name comparator threshold window_seconds min_samples aggregation
        enabled =
      do
        guard (bounded_text name 128) (value_error "alert name must contain 1..128 characters")
        guard (bounded_text metric_name 128)
            (value_error "metric_name must contain 1..128 characters")
        guard (isfinite threshold) (value_error "threshold must be finite")
        window ← positive window_seconds (value_error "window_seconds must be positive")
        samples ← positive min_samples (value_error "min_samples must be positive")
        ok (record {
          rule_id = rule_id;
          name = name;
          metric_name = metric_name;
          comparator = comparator;
          threshold = threshold;
          window_seconds = window;
          min_samples = samples;
          aggregation = aggregation;
          enabled = enabled;
        })

  -- The constructor of `MetricObservation`, with the checks of `__post_init__`.
  unfoldable pub metric_observation :
      (metric_name : String) (value : Float) (sample_count : ℤ) (window_start window_end : DateTime)
      → Result MetricObservation
  unfolding require_aware
  metric_observation metric_name value sample_count window_start window_end = do
    guard (isfinite value) (value_error "metric value must be finite")
    samples ← nonnegative sample_count (value_error "sample_count must be nonnegative")
    start ← require_aware window_start "window_start must be timezone-aware"
    end ← require_aware window_end "window_end must be timezone-aware"
    guard (ltb start end) (value_error "metric window must be non-empty")
    ok (record {
      metric_name = metric_name;
      value = value;
      sample_count = samples;
      window_start = start;
      window_end = end;
    })

  unfoldable pub compare : Comparator → Float → Float → Bool
  compare gt value threshold = F.lt threshold value
  compare gte value threshold = F.le threshold value
  compare lt value threshold = F.lt value threshold
  compare lte value threshold = F.le value threshold
