-- ===== src/Alerts/Tests.antt =====
-- Alerts at concrete rules and occurrences.
use microlens_recsys_mvp.Prelude.{ℕ, true, false, ◌≡◌, refl, none, some, [], ◌∷◌, ok, arith}
use microlens_recsys_mvp.Prelude.Table.{find, replace}
use microlens_recsys_mvp.Prelude.Sorting.{sort_by, insert_by}
use microlens_recsys_mvp.Prelude.Samples.{whole}
use microlens_recsys_mvp.Durable.Domain.{aware, require_aware}
use microlens_recsys_mvp.Alerts.Domain.{
  firing, acknowledged, resolved, gte, avg, AlertRule, MetricObservation, AlertOccurrence, compare,
}
use microlens_recsys_mvp.Alerts.Rows.{AlertDb, find_occurrence}
use microlens_recsys_mvp.Alerts.Service.{
  open_for, open_row, apply_open, apply_observation, acknowledge, acknowledge_row, resolve,
  resolve_row, fired, resolved_now,
}
use microlens_recsys_mvp.Alerts.Open.{OneOpen, id, apply_observation-OneOpen}
use microlens_recsys_mvp.Alerts.Moves.{met-IsOpen, unmet-closed}

abbrev latency : AlertRule whole
latency = record {
  rule_id = 1;
  name = "slow";
  metric_name = "latency";
  comparator = gte;
  threshold = 100;
  window_seconds = 60;
  min_samples = 2;
  aggregation = avg;
  enabled = true;
}

abbrev seen_value : ℕ → MetricObservation whole
seen_value v = record {
  metric_name = "latency";
  value = v;
  sample_count = 3;
  window_start = 0;
  window_end = 60000000;
}

abbrev quiet : AlertDb whole
quiet = record { rules = latency ∷ []; occurrences = [] }

abbrev fired_row : AlertOccurrence whole
fired_row = record {
  occurrence_id = 7;
  rule_id = 1;
  status = firing;
  observed_value = 150;
  sample_count = 3;
  window_start = 0;
  window_end = 60000000;
  fired_at = 60000000;
  version = 1;
  acknowledged_at = none;
  acknowledged_by = none;
  resolved_at = none;
  resolve_reason = none;
}

abbrev loud : AlertDb whole
loud = record { rules = latency ∷ []; occurrences = fired_row ∷ [] }

quiet-OneOpen : OneOpen whole quiet
unfolding find
quiet-OneOpen = record { keyed = tt; single = λ k l a b ea eb oa ob same. ground arith }

quiet_fires :
    apply_observation whole 7 latency (seen_value 150) (aware 60000000) quiet
    ≡ ok (
      record { rule_id = 1; condition_met = true; transition = fired; occurrence = some fired_row },
      loud,
    )
unfolding apply_observation require_aware open_row apply_open sort_by find compare
quiet_fires = refl

apply_observation-OneOpen_example : OneOpen whole loud
unfolding find
apply_observation-OneOpen_example =
    apply_observation-OneOpen whole 7 latency (seen_value 150) quiet quiet-OneOpen refl
      (aware 60000000)
      (record {
        rule_id = 1;
        condition_met = true;
        transition = fired;
        occurrence = some fired_row;
      })
      loud quiet_fires

quiet_rule : find (λ (r : AlertRule whole). r.rule_id) 1 quiet.rules ≡ some latency
unfolding find
quiet_rule = refl

met-IsOpen_example :
    (o : AlertOccurrence whole) × (some fired_row ≡ some o)
    × (find_occurrence whole (id whole o) loud.occurrences ≡ some o)
    × (open_for whole 1 o ≡ true)
unfolding find compare
met-IsOpen_example =
    met-IsOpen whole 7 latency (seen_value 150) quiet quiet-OneOpen refl (aware 60000000) latency
      (record {
        rule_id = 1;
        condition_met = true;
        transition = fired;
        occurrence = some fired_row;
      })
      loud quiet_rule refl refl quiet_fires

abbrev cleared_row : AlertOccurrence whole
cleared_row = record fired_row {
  status = resolved;
  observed_value = 50;
  version = 2;
  resolved_at = some 70000000;
  resolve_reason = some "threshold_cleared";
}

abbrev calm : AlertDb whole
calm = record { rules = latency ∷ []; occurrences = cleared_row ∷ [] }

loud_clears :
    apply_observation whole 8 latency (seen_value 50) (aware 70000000) loud
    ≡ ok (
      record {
        rule_id = 1;
        condition_met = false;
        transition = resolved_now;
        occurrence = some cleared_row;
      },
      calm,
    )
unfolding apply_observation require_aware open_row apply_open sort_by insert_by find compare replace
loud_clears = refl

loud_unused : find_occurrence whole 8 loud.occurrences ≡ none
unfolding find
loud_unused = refl

loud_rule : find (λ (r : AlertRule whole). r.rule_id) 1 loud.rules ≡ some latency
unfolding find
loud_rule = refl

calm_row : find_occurrence whole 7 calm.occurrences ≡ some cleared_row
unfolding find
calm_row = refl

loud-OneOpen : OneOpen whole loud
unfolding find
loud-OneOpen =
    apply_observation-OneOpen whole 7 latency (seen_value 150) quiet quiet-OneOpen refl
      (aware 60000000)
      (record {
        rule_id = 1;
        condition_met = true;
        transition = fired;
        occurrence = some fired_row;
      })
      loud quiet_fires

unmet-closed_example : open_for whole 1 cleared_row ≡ false
unfolding compare
unmet-closed_example =
    unmet-closed whole 8 latency (seen_value 50) loud loud-OneOpen loud_unused (aware 70000000)
      latency
      (record {
        rule_id = 1;
        condition_met = false;
        transition = resolved_now;
        occurrence = some cleared_row;
      })
      calm loud_rule refl refl loud_clears 7 cleared_row calm_row

abbrev acknowledged_row : AlertOccurrence whole
acknowledged_row = record fired_row {
  status = acknowledged;
  version = 2;
  acknowledged_at = some 65000000;
  acknowledged_by = some "ana";
}

abbrev noticed : AlertDb whole
noticed = record { rules = latency ∷ []; occurrences = acknowledged_row ∷ [] }

loud_acknowledged : acknowledge whole 7 "ana" (aware 65000000) loud ≡ ok (acknowledged_row, noticed)
unfolding acknowledge require_aware acknowledge_row find replace
loud_acknowledged = refl

abbrev resolved_row : AlertOccurrence whole
resolved_row = record fired_row {
  status = resolved;
  version = 2;
  resolved_at = some 65000000;
  resolve_reason = some "known";
}

abbrev handled : AlertDb whole
handled = record { rules = latency ∷ []; occurrences = resolved_row ∷ [] }

loud_resolved :
    resolve whole (λ actor reason. reason) 7 "ana" "known" (aware 65000000) loud
    ≡ ok (resolved_row, handled)
unfolding resolve require_aware resolve_row find replace
loud_resolved = refl
