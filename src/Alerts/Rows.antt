-- ===== src/Alerts/Rows.antt =====
-- The tables of rules and occurrences (apps/api/app/alerts/tables.py).
use microlens_recsys_mvp.Prelude.{ℕ, Bool, true, false, ◌&&◌, ◌==◌, List, Option, str_eq}
use microlens_recsys_mvp.Prelude.Table.{find, replace}
use microlens_recsys_mvp.Prelude.Floats.{Floats}
use microlens_recsys_mvp.Alerts.Domain.{
  AlertStatus, firing, acknowledged, resolved, Comparator, gt, gte, lt, lte, Aggregation, sum, avg,
  min, max, count, AlertRule, AlertOccurrence,
}

abbrev pub is_open : AlertStatus → Bool
is_open firing = true
is_open acknowledged = true
is_open resolved = false

abbrev comparator_number : Comparator → ℕ
comparator_number gt = 0
comparator_number gte = 1
comparator_number lt = 2
comparator_number lte = 3

abbrev aggregation_number : Aggregation → ℕ
aggregation_number sum = 0
aggregation_number avg = 1
aggregation_number min = 2
aggregation_number max = 3
aggregation_number count = 4

abbrev same_flag : Bool → Bool → Bool
same_flag true b = b
same_flag false true = false
same_flag false false = true

module _ (F : Floats) where
  -- The rows are the rules and the occurrences themselves, with their times in UTC; `created_at` is
  -- not read.
  pub record AlertDb : Type 0 where
    pub rules : List (AlertRule F)
    pub occurrences : List (AlertOccurrence F)

  abbrev pub find_rule : ℕ → List (AlertRule F) → Option (AlertRule F)
  find_rule = find (λ (r : AlertRule F). r.rule_id)

  abbrev pub find_occurrence : ℕ → List (AlertOccurrence F) → Option (AlertOccurrence F)
  find_occurrence = find (λ (o : AlertOccurrence F). o.occurrence_id)

  abbrev pub write_occurrence : AlertOccurrence F → AlertDb → AlertDb
  write_occurrence o db = record db {
    occurrences = replace (λ (p : AlertOccurrence F). p.occurrence_id) o db.occurrences;
  }

  -- `==` of two rules, field by field.
  unfoldable pub rule_eq : AlertRule F → AlertRule F → Bool
  rule_eq a b =
      ((((a.rule_id == b.rule_id && str_eq a.name b.name)
            && (str_eq a.metric_name b.metric_name
                && comparator_number a.comparator == comparator_number b.comparator))
          && (F.eq a.threshold b.threshold && a.window_seconds == b.window_seconds))
        && (a.min_samples == b.min_samples
            && aggregation_number a.aggregation == aggregation_number b.aggregation))
      && same_flag a.enabled b.enabled
