-- ===== src/Alerts/Service.antt =====
-- `SqlAlchemyAlertRepository` and `AlertService` (apps/api/app/alerts/service.py): each method is
-- one transaction.
use microlens_recsys_mvp.Prelude.{
  integrity_error, overflow_error, ◌||◌, ℕ, ◌+◌, ◌-◌, String, Bool, true, false, ◌&&◌, not, Option,
  none, some, List, [], ◌∷◌, ◌++◌, ◌==◌, leb, select, head?, str_eq, bounded_text, if◌then◌else◌,
  value_error, lookup_error, Result, ok, err, guard, require, ◌>>=◌, ◌>>◌,
}
use microlens_recsys_mvp.Prelude.Sorting.{sort_by}
use microlens_recsys_mvp.Prelude.Floats.{Floats}
use microlens_recsys_mvp.Durable.Domain.{DateTime, aware, require_aware, seconds}
use microlens_recsys_mvp.Alerts.Domain.{
  AlertStatus, firing, acknowledged, resolved, AlertRule, MetricObservation, AlertOccurrence,
  compare,
}
use microlens_recsys_mvp.Alerts.Rows.{
  AlertDb, is_open, find_rule, find_occurrence, write_occurrence, rule_eq,
}

pub data Transition : Type 0 where
  disabled fired still_firing resolved_now inactive : Transition

abbrev pub is_acknowledged : AlertStatus → Bool
is_acknowledged acknowledged = true
is_acknowledged _ = false

abbrev pub is_resolved : AlertStatus → Bool
is_resolved s = not (is_open s)

module _ (F : Floats) where
  pub record AlertEvaluation : Type 0 where
    pub rule_id : ℕ
    pub condition_met : Bool
    pub transition : Transition
    pub occurrence : Option (AlertOccurrence F)

  -- The name of a rule is unique in the table.
  abbrev pub has_name : String → List (AlertRule F) → Bool
  has_name name [] = false
  has_name name (r ∷ rules) = str_eq r.name name || has_name name rules

  abbrev pub add_found :
      AlertRule F → Option (AlertRule F) → AlertDb F → Result (AlertRule F × AlertDb F)
  add_found rule (some existing) db =
      if rule_eq F existing rule
      then ok (rule, db)
      else err (value_error "rule_id already has different content")
  add_found rule none db =
      if has_name rule.name db.rules
      then err integrity_error
      else ok (rule, record db { rules = db.rules ++ rule ∷ [] })

  unfoldable pub add_rule : AlertRule F → DateTime → AlertDb F → Result (AlertRule F × AlertDb F)
  unfolding require_aware rule_eq
  add_rule rule now db = do
    event_time ← require_aware now "now must be timezone-aware"
    add_found rule (find_rule F rule.rule_id db.rules) db

  unfoldable pub get_rule : ℕ → AlertDb F → Result (AlertRule F)
  get_rule rule_id db =
      require (find_rule F rule_id db.rules) (lookup_error "alert rule does not exist")

  abbrev pub open_for : ℕ → AlertOccurrence F → Bool
  open_for rule_id o = o.rule_id == rule_id && is_open o.status

  -- The open occurrence of a rule: ORDER BY fired_at DESC LIMIT 1.
  unfoldable pub open_row : ℕ → List (AlertOccurrence F) → Option (AlertOccurrence F)
  open_row rule_id rows =
      head? (sort_by (λ a b. leb b.fired_at a.fired_at) (select (open_for rule_id) rows))

  abbrev pub new_occurrence : ℕ → AlertRule F → MetricObservation F → ℕ → AlertOccurrence F
  new_occurrence occurrence_id rule seen event_time = record {
    occurrence_id = occurrence_id;
    rule_id = rule.rule_id;
    status = firing;
    observed_value = seen.value;
    sample_count = seen.sample_count;
    window_start = seen.window_start;
    window_end = seen.window_end;
    fired_at = event_time;
    version = 1;
    acknowledged_at = none;
    acknowledged_by = none;
    resolved_at = none;
    resolve_reason = none;
  }

  abbrev pub seen_again : AlertOccurrence F → MetricObservation F → AlertOccurrence F
  seen_again o seen = record o {
    observed_value = seen.value;
    sample_count = seen.sample_count;
    window_start = seen.window_start;
    window_end = seen.window_end;
    version = o.version + 1;
  }

  abbrev pub cleared : AlertOccurrence F → MetricObservation F → Bool → ℕ → AlertOccurrence F
  cleared o seen enough event_time = record (seen_again o seen) {
    status = resolved;
    resolved_at = some event_time;
    resolve_reason = some (if enough then "threshold_cleared" else "insufficient_samples");
  }

  abbrev pub evaluation :
      AlertRule F → Bool → Transition → Option (AlertOccurrence F) → AlertEvaluation
  evaluation rule met transition occurrence = record {
    rule_id = rule.rule_id;
    condition_met = met;
    transition = transition;
    occurrence = occurrence;
  }

  module _ (fresh : ℕ) (rule : AlertRule F) (seen : MetricObservation F) where
    abbrev pub enough_samples : Bool
    enough_samples = leb rule.min_samples seen.sample_count

    abbrev pub condition : Bool
    condition = enough_samples && compare F rule.comparator seen.value rule.threshold

    -- A new occurrence takes the id that `uuid.uuid4()` returns.
    unfoldable pub apply_open :
        ℕ → Option (AlertOccurrence F) → AlertDb F → AlertEvaluation × AlertDb F
    apply_open event_time none db =
        if condition
        then (
          evaluation rule true fired (some (new_occurrence fresh rule seen event_time)),
          record db {
            occurrences = db.occurrences ++ new_occurrence fresh rule seen event_time ∷ [];
          },
        )
        else (evaluation rule false inactive none, db)
    apply_open event_time (some o) db =
        if condition
        then (
          evaluation rule true still_firing (some (seen_again o seen)),
          write_occurrence F (seen_again o seen) db,
        )
        else (
          evaluation rule false resolved_now (some (cleared o seen enough_samples event_time)),
          write_occurrence F (cleared o seen enough_samples event_time) db,
        )

    abbrev pub apply_rule : ℕ → AlertRule F → AlertDb F → AlertEvaluation × AlertDb F
    apply_rule event_time persisted db =
        if not persisted.enabled
        then (evaluation rule false disabled none, db)
        else apply_open event_time (open_row rule.rule_id db.occurrences) db

    unfoldable pub apply_observation : DateTime → AlertDb F → Result (AlertEvaluation × AlertDb F)
    unfolding require_aware open_row apply_open
    apply_observation now db = do
      event_time ← require_aware now "now must be timezone-aware"
      persisted ←
          require (find_rule F rule.rule_id db.rules) (lookup_error "alert rule does not exist")
      ok (apply_rule event_time persisted db)

  abbrev pub same_actor : Option String → String → Bool
  same_actor none actor = false
  same_actor (some a) actor = str_eq a actor

  abbrev pub acknowledged_by_actor : AlertOccurrence F → String → ℕ → AlertOccurrence F
  acknowledged_by_actor o actor event_time = record o {
    status = acknowledged;
    acknowledged_at = some event_time;
    acknowledged_by = some actor;
    version = o.version + 1;
  }

  unfoldable pub acknowledge_row :
      AlertOccurrence F → String → ℕ → AlertDb F → Result (AlertOccurrence F × AlertDb F)
  acknowledge_row o actor event_time db =
      if is_resolved o.status
      then err (value_error "resolved alert cannot be acknowledged")
      else if is_acknowledged o.status
      then (if same_actor o.acknowledged_by actor
          then ok (o, db)
          else err (value_error "alert is already acknowledged by another actor"))
      else ok (
        acknowledged_by_actor o actor event_time,
        write_occurrence F (acknowledged_by_actor o actor event_time) db,
      )

  unfoldable pub acknowledge :
      ℕ → String → DateTime → AlertDb F → Result (AlertOccurrence F × AlertDb F)
  unfolding require_aware acknowledge_row
  acknowledge occurrence_id actor now db = do
    guard (bounded_text actor 255) (value_error "actor must contain 1..255 characters")
    event_time ← require_aware now "now must be timezone-aware"
    o ←
        require (find_occurrence F occurrence_id db.occurrences)
          (lookup_error "alert occurrence does not exist")
    acknowledge_row o actor event_time db

  abbrev pub resolved_by_hand : AlertOccurrence F → String → ℕ → AlertOccurrence F
  resolved_by_hand o why event_time = record o {
    status = resolved;
    resolved_at = some event_time;
    resolve_reason = some why;
    version = o.version + 1;
  }

  unfoldable pub resolve_row :
      AlertOccurrence F → String → ℕ → AlertDb F → AlertOccurrence F × AlertDb F
  resolve_row o why event_time db = if is_resolved o.status then (o, db) else (
    resolved_by_hand o why event_time,
    write_occurrence F (resolved_by_hand o why event_time) db,
  )

  -- `why` is `f"manual:{actor}:{reason}"[:500]`.
  unfoldable pub resolve :
      (why : String → String → String)
      → ℕ
      → String
      → String
      → DateTime
      → AlertDb F
      → Result (AlertOccurrence F × AlertDb F)
  unfolding require_aware resolve_row
  resolve why occurrence_id actor reason now db = do
    guard (bounded_text actor 255 && bounded_text reason 500)
        (value_error "actor and reason are required and bounded")
    event_time ← require_aware now "now must be timezone-aware"
    o ←
        require (find_occurrence F occurrence_id db.occurrences)
          (lookup_error "alert occurrence does not exist")
    ok (resolve_row o (why actor reason) event_time db)

  -- `metrics` is the reader that the service was given.
  unfoldable pub evaluate :
      (metrics : AlertRule F → ℕ → ℕ → Result (MetricObservation F))
      → ℕ
      → ℕ
      → DateTime
      → AlertDb F
      → Result (AlertEvaluation × AlertDb F)
  unfolding require_aware get_rule apply_observation
  evaluate metrics fresh rule_id now db = do
    event_time ← require_aware now "now must be timezone-aware"
    rule ← get_rule rule_id db
    guard (leb (seconds rule.window_seconds) event_time) (overflow_error "date value out of range")
    let start = event_time - seconds rule.window_seconds
    seen ← metrics rule start event_time
    guard (str_eq seen.metric_name rule.metric_name)
        (value_error "metric reader returned the wrong metric")
    guard (seen.window_start == start && seen.window_end == event_time)
        (value_error "metric reader returned the wrong window")
    apply_observation fresh rule seen (aware event_time) db
