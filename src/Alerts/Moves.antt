-- ===== src/Alerts/Moves.antt =====
-- Acknowledgement, resolution and evaluation of alerts.
use microlens_recsys_mvp.Prelude.{
  ℕ, String, Bool, true, false, ◌&&◌, ◌≡◌, refl, sym, ap, ◌∙◌, subst, Option, none, some, inl, inr,
  Bool-cases, ◌==◌, bounded_text, value_error, Error, ok, guard, require, >>=-eq-ok, arith,
}
use microlens_recsys_mvp.Prelude.Table.{
  replace, key-find, find-replace_self, find-replace_cases, find-append_self,
}
use microlens_recsys_mvp.Prelude.Floats.{Floats}
use microlens_recsys_mvp.Durable.Domain.{DateTime, require_aware}
use microlens_recsys_mvp.Alerts.Domain.{AlertRule, MetricObservation, AlertOccurrence}
use microlens_recsys_mvp.Alerts.Rows.{AlertDb, find_rule, find_occurrence}
use microlens_recsys_mvp.Alerts.Service.{
  AlertEvaluation, open_for, open_row, new_occurrence, seen_again, cleared, condition,
  enough_samples, apply_open, apply_observation, acknowledge, acknowledge_row, is_resolved,
  is_acknowledged, acknowledged_by_actor, resolve, resolve_row, resolved_by_hand,
}
use microlens_recsys_mvp.Alerts.Open.{OneOpen, id, open_row-found, open_row-none, write-OneOpen}

module _ (F : Floats) where
  at_own_id :
      (k : ℕ) (o : AlertOccurrence F) (db : AlertDb F) (e : Error)
      → require (find_occurrence F k db.occurrences) e ≡ ok o
      → find_occurrence F (id F o) db.occurrences ≡ some o
  at_own_id k o db e h =
      ap (λ i. find_occurrence F i db.occurrences) (key-find (id F) k db.occurrences o at_k) ∙ at_k
    where
      at_k : find_occurrence F k db.occurrences ≡ some o
      at_k = ground arith

  acknowledge_row-OneOpen :
      (o : AlertOccurrence F) (actor : String) (t : ℕ) (db : AlertDb F)
      → OneOpen F db
      → find_occurrence F (id F o) db.occurrences ≡ some o
      → (x : AlertOccurrence F) (db' : AlertDb F) → acknowledge_row F o actor t db ≡ ok (x, db')
      → OneOpen F db'
  unfolding acknowledge_row
  acknowledge_row-OneOpen o actor t db c at x db' e = elim (Bool-cases (is_resolved o.status)) [
    | inl over ↦ ground arith
    | inr live ↦ elim (Bool-cases (is_acknowledged o.status)) [
      | inl again ↦ subst (OneOpen F) (ground arith) c
      | inr first ↦ subst (OneOpen F) (ground arith) (
          write-OneOpen F db o (acknowledged_by_actor F o actor t) c at refl refl
            (λ _. ground arith))
    ]
  ]

  -- An acknowledgement keeps the occurrences with distinct ids, at most one of a rule open.
  pub acknowledge-OneOpen :
      (occurrence_id : ℕ) (actor : String) (now : DateTime) (db : AlertDb F)
      → OneOpen F db
      → (x : AlertOccurrence F) (db' : AlertDb F)
      → acknowledge F occurrence_id actor now db ≡ ok (x, db')
      → OneOpen F db'
  unfolding acknowledge
  acknowledge-OneOpen k actor now db c x db' e =
      let (_, _, e1) =
        >>=-eq-ok
          (guard (bounded_text actor 255) (value_error "actor must contain 1..255 characters")) _
          e in
      let (t, _, e2) = >>=-eq-ok (require_aware now _) _ e1 in
      let (o, found, done) = >>=-eq-ok (require (find_occurrence F k db.occurrences) _) _ e2 in
      acknowledge_row-OneOpen o actor t db c (at_own_id k o db _ found) x db' done

  -- A resolution keeps the occurrences with distinct ids, at most one of a rule open.
  pub resolve-OneOpen :
      (why : String → String → String) (occurrence_id : ℕ) (actor reason : String) (now : DateTime)
      (db : AlertDb F)
      → OneOpen F db
      → (x : AlertOccurrence F) (db' : AlertDb F)
      → resolve F why occurrence_id actor reason now db ≡ ok (x, db')
      → OneOpen F db'
  unfolding resolve resolve_row
  resolve-OneOpen why k actor reason now db c x db' e =
      let (_, _, e1) =
        >>=-eq-ok
          (guard (bounded_text actor 255 && bounded_text reason 500)
            (value_error "actor and reason are required and bounded"))
          _ e in
      let (t, _, e2) = >>=-eq-ok (require_aware now _) _ e1 in
      let (o, found, done) = >>=-eq-ok (require (find_occurrence F k db.occurrences) _) _ e2 in
      elim (Bool-cases (is_resolved o.status)) [
        | inl over ↦ subst (OneOpen F) (ground arith) c
        | inr live ↦ subst (OneOpen F) (ground arith) (
            write-OneOpen F db o (resolved_by_hand F o (why actor reason) t) c
              (at_own_id k o db _ found) refl refl (λ q. cc))
      ]

  module _ (fresh : ℕ) (rule : AlertRule F) (seen : MetricObservation F) (db : AlertDb F)
      (c : OneOpen F db) (unused : find_occurrence F fresh db.occurrences ≡ none) where
    -- Where the condition holds, the table has the reported occurrence, open and of the rule;
    -- where it fails, the rule has no open occurrence.
    IsCurrent : AlertEvaluation F × AlertDb F → Type 0
    IsCurrent (x, db') =
        (condition F fresh rule seen ≡ true
          → (o : AlertOccurrence F) × (x.occurrence ≡ some o)
            × (find_occurrence F (id F o) db'.occurrences ≡ some o)
            × (open_for F rule.rule_id o ≡ true))
        × (condition F fresh rule seen ≡ false
            → (k : ℕ) (o : AlertOccurrence F) → find_occurrence F k db'.occurrences ≡ some o
            → open_for F rule.rule_id o ≡ false)

    closed_after :
        (t : ℕ) (o : AlertOccurrence F)
        → find_occurrence F (id F o) db.occurrences ≡ some o
        → open_for F rule.rule_id o ≡ true
        → (k : ℕ) (p : AlertOccurrence F)
        → find_occurrence F k
            (replace (id F) (cleared F o seen (enough_samples F fresh rule seen) t) db.occurrences)
          ≡ some p
        → open_for F rule.rule_id p ≡ false
    closed_after t o at open_o k p h =
        elim (find-replace_cases (id F) k (cleared F o seen (enough_samples F fresh rule seen) t) p
          db.occurrences h) [
            | inl (_, same) ↦
                ap (open_for F rule.rule_id) same ∙ and_false (o.rule_id == rule.rule_id)
            | inr (other, found) ↦ elim (Bool-cases (open_for F rule.rule_id p)) [
              | inl opened ↦ absurd (
                  other (
                    sym (
                      c.single k (id F o) p o found at (ground arith) (ground arith)
                        (ground arith))))
              | inr closed ↦ closed
            ]
          ]
      where
        and_false : (b : Bool) → (b && false) ≡ false
        and_false true = refl
        and_false false = refl

    apply_open-IsCurrent :
        (t : ℕ) (o : Option (AlertOccurrence F))
        → open_row F rule.rule_id db.occurrences ≡ o
        → IsCurrent (apply_open F fresh rule seen t o db)
    unfolding apply_open IsCurrent
    apply_open-IsCurrent t none e = elim (Bool-cases (condition F fresh rule seen)) [
      | inl met ↦ rw met (
        λ _. (
          new_occurrence F fresh rule seen t,
          refl,
          find-append_self (id F) db.occurrences (new_occurrence F fresh rule seen t) unused,
          ground arith,
        ),
        λ q. ground arith,
      )
      | inr unmet ↦ rw unmet (λ q. ground arith, λ _. open_row-none F rule.rule_id db.occurrences e)
    ]
    apply_open-IsCurrent t (some o) e =
        let (at, open_o) = open_row-found F rule.rule_id db.occurrences o c.keyed e in
        elim (Bool-cases (condition F fresh rule seen)) [
          | inl met ↦ rw met (
            λ _. (
              seen_again F o seen,
              refl,
              find-replace_self (id F) (id F o) (seen_again F o seen) o db.occurrences at refl,
              open_o,
            ),
            λ q. ground arith,
          )
          | inr unmet ↦ rw unmet (λ q. ground arith, λ _. closed_after t o at open_o)
        ]

    apply_observation-IsCurrent :
        (now : DateTime) (persisted : AlertRule F) (x : AlertEvaluation F) (db' : AlertDb F)
        → find_rule F rule.rule_id db.rules ≡ some persisted
        → persisted.enabled ≡ true
        → apply_observation F fresh rule seen now db ≡ ok (x, db')
        → IsCurrent (x, db')
    unfolding apply_observation
    apply_observation-IsCurrent now persisted x db' at on e =
        let (t, _, rest) = >>=-eq-ok (require_aware now _) _ e in
        let (p, found, done) = >>=-eq-ok (require (find_rule F rule.rule_id db.rules) _) _ rest in
        subst IsCurrent (ground arith)
          (apply_open-IsCurrent t (open_row F rule.rule_id db.occurrences) refl)

    -- For an enabled rule, over occurrences with distinct ids of which at most one of a rule is
    -- open, and with an id not in use: where the condition holds (enough samples, and the
    -- comparison with the threshold), an evaluation leaves the occurrence that it reports in the
    -- table, open and of the rule.
    pub met-IsOpen :
        (now : DateTime) (persisted : AlertRule F) (x : AlertEvaluation F) (db' : AlertDb F)
        → find_rule F rule.rule_id db.rules ≡ some persisted
        → persisted.enabled ≡ true
        → condition F fresh rule seen ≡ true
        → apply_observation F fresh rule seen now db ≡ ok (x, db')
        → (o : AlertOccurrence F) × (x.occurrence ≡ some o)
          × (find_occurrence F (id F o) db'.occurrences ≡ some o)
          × (open_for F rule.rule_id o ≡ true)
    unfolding IsCurrent
    met-IsOpen now persisted x db' at on met e =
        (apply_observation-IsCurrent now persisted x db' at on e).0 met

    -- For an enabled rule, over occurrences with distinct ids of which at most one of a rule is
    -- open, and with an id not in use: where the condition fails, an evaluation leaves no open
    -- occurrence of the rule in the table.
    pub unmet-closed :
        (now : DateTime) (persisted : AlertRule F) (x : AlertEvaluation F) (db' : AlertDb F)
        → find_rule F rule.rule_id db.rules ≡ some persisted
        → persisted.enabled ≡ true
        → condition F fresh rule seen ≡ false
        → apply_observation F fresh rule seen now db ≡ ok (x, db')
        → (k : ℕ) (o : AlertOccurrence F) → find_occurrence F k db'.occurrences ≡ some o
        → open_for F rule.rule_id o ≡ false
    unfolding IsCurrent
    unmet-closed now persisted x db' at on unmet e =
        (apply_observation-IsCurrent now persisted x db' at on e).1 unmet
