-- ===== src/Alerts/Open.antt =====
-- The open occurrences of a rule (apps/api/app/alerts/service.py).
use microlens_recsys_mvp.Prelude.{
  ℕ, Bool, true, false, ◌≡◌, refl, sym, ap, ◌∙◌, subst, Option, none, some, List, [], ◌∷◌, ◌++◌,
  All, All-head, All-select, All-unselect, head?, Bool-cases, inl, inr, leb, ok, require, >>=-eq-ok,
  arith,
}
use microlens_recsys_mvp.Prelude.Table.{
  IsKeyed, replace, replace-IsKeyed, append-IsKeyed, find-All, IsKeyed-find, find-replace_cases,
  find-append_cases,
}
use microlens_recsys_mvp.Prelude.Sorting.{All-sort_by, All-of-sort_by}
use microlens_recsys_mvp.Prelude.Floats.{Floats}
use microlens_recsys_mvp.Durable.Domain.{DateTime, require_aware}
use microlens_recsys_mvp.Alerts.Domain.{AlertRule, MetricObservation, AlertOccurrence}
use microlens_recsys_mvp.Alerts.Rows.{
  AlertDb, is_open, find_rule, find_occurrence, write_occurrence,
}
use microlens_recsys_mvp.Alerts.Service.{
  AlertEvaluation, open_for, open_row, new_occurrence, seen_again, cleared, condition,
  enough_samples, apply_open, apply_rule, apply_observation,
}

module _ (F : Floats) where
  abbrev pub id : AlertOccurrence F → ℕ
  id o = o.occurrence_id

  pub record OneOpen (db : AlertDb F) : Type 0 where
    pub keyed : IsKeyed id db.occurrences
    pub single :
        (k l : ℕ) (a b : AlertOccurrence F)
        → find_occurrence F k db.occurrences ≡ some a
        → find_occurrence F l db.occurrences ≡ some b
        → is_open a.status ≡ true
        → is_open b.status ≡ true
        → a.rule_id ≡ b.rule_id
        → k ≡ l

  -- The row that the query for an open occurrence returns is in the table, open, of the rule.
  pub open_row-found :
      (rule_id : ℕ) (rows : List (AlertOccurrence F)) (o : AlertOccurrence F)
      → IsKeyed id rows
      → open_row F rule_id rows ≡ some o
      → (find_occurrence F (id o) rows ≡ some o) × (open_for F rule_id o ≡ true)
  unfolding open_row
  open_row-found rule_id rows o keyed e =
      All-head (λ a. (find_occurrence F (id a) rows ≡ some a) × (open_for F rule_id a ≡ true)) _ o
        (All-sort_by _ _ _ (All-select _ (open_for F rule_id) rows (IsKeyed-find id rows keyed))) e

  -- Where the query returns none, the rule has no open occurrence.
  pub open_row-none :
      (rule_id : ℕ) (rows : List (AlertOccurrence F))
      → open_row F rule_id rows ≡ none
      → (k : ℕ) (o : AlertOccurrence F) → find_occurrence F k rows ≡ some o
      → open_for F rule_id o ≡ false
  unfolding open_row
  open_row-none rule_id rows e k o at = refute (open_for F rule_id o) (
      find-All id (λ a. open_for F rule_id a ≡ true → ⊥) k rows o
        (All-unselect (λ _. ⊥) (open_for F rule_id) rows
          (All-of-sort_by (λ a b. leb b.fired_at a.fired_at) (λ _. ⊥) _
            (subst (All (λ _. ⊥)) (sym (head_none _ e)) tt)))
        at)
    where
      head_none : (l : List (AlertOccurrence F)) → head? l ≡ none → l ≡ []
      head_none [] q = refl
      head_none (x ∷ xs) q = cc

      refute : (b : Bool) → (b ≡ true → ⊥) → b ≡ false
      refute true h = absurd (h refl)
      refute false h = refl

  -- A write that keeps the rule and opens nothing.
  pub write-OneOpen :
      (db : AlertDb F) (old new : AlertOccurrence F)
      → OneOpen db
      → find_occurrence F (id old) db.occurrences ≡ some old
      → id new ≡ id old
      → new.rule_id ≡ old.rule_id
      → (is_open new.status ≡ true → is_open old.status ≡ true)
      → OneOpen (write_occurrence F new db)
  write-OneOpen db old new c at same_id same_rule opens = record {
    keyed = replace-IsKeyed id new db.occurrences c.keyed;
    single = λ k l a b ea eb oa ob same.
        let (a', fa, ra, sa) = before k a ea in
        let (b', fb, rb, sb) = before l b eb in
        c.single k l a' b' fa fb (sa oa) (sb ob) (sym ra ∙ same ∙ rb);
  }
    where
      before :
          (k : ℕ) (a : AlertOccurrence F)
          → find_occurrence F k (replace id new db.occurrences) ≡ some a
          → (b : AlertOccurrence F) × (find_occurrence F k db.occurrences ≡ some b)
            × (a.rule_id ≡ b.rule_id)
            × (is_open a.status ≡ true → is_open b.status ≡ true)
      before k a e = elim (find-replace_cases id k new a db.occurrences e) [
        | inl (at_k, same) ↦ (
          old,
          ap (λ i. find_occurrence F i db.occurrences) (sym at_k ∙ same_id) ∙ at,
          ap AlertOccurrence.rule_id same ∙ same_rule,
          λ q. opens (ap (λ (o : AlertOccurrence F). is_open o.status) (sym same) ∙ q),
        )
        | inr (_, found) ↦ (a, found, refl, λ q. q)
      ]

  -- A new occurrence of a rule that has no open one.
  pub append-OneOpen :
      (db : AlertDb F) (new : AlertOccurrence F)
      → OneOpen db
      → find_occurrence F (id new) db.occurrences ≡ none
      → ((k : ℕ) (o : AlertOccurrence F)
          → find_occurrence F k db.occurrences ≡ some o
          → open_for F new.rule_id o ≡ false)
      → OneOpen (record db { occurrences = db.occurrences ++ new ∷ [] })
  append-OneOpen db new c fresh closed = record {
    keyed = append-IsKeyed id db.occurrences new fresh c.keyed;
    single = λ k l a b ea eb oa ob same. elim (find-append_cases id k db.occurrences new a ea) [
      | inl fa ↦ elim (find-append_cases id l db.occurrences new b eb) [
        | inl fb ↦ c.single k l a b fa fb oa ob same
        | inr (_, new_b) ↦
            absurd (clash a (closed k a fa) oa (same ∙ ap AlertOccurrence.rule_id new_b))
      ]
      | inr (at_k, new_a) ↦ elim (find-append_cases id l db.occurrences new b eb) [
        | inl fb ↦ absurd (clash b (closed l b fb) ob (sym same ∙ ap AlertOccurrence.rule_id new_a))
        | inr (at_l, _) ↦ sym at_k ∙ at_l
      ]
    ];
  }
    where
      clash :
          (o : AlertOccurrence F)
          → open_for F new.rule_id o ≡ false
          → is_open o.status ≡ true
          → o.rule_id ≡ new.rule_id
          → ⊥
      clash o shut opened same = ground arith

  module _ (fresh : ℕ) (rule : AlertRule F) (seen : MetricObservation F) (db : AlertDb F)
      (c : OneOpen db) (unused : find_occurrence F fresh db.occurrences ≡ none) where
    apply_open-OneOpen :
        (t : ℕ) (o : Option (AlertOccurrence F))
        → open_row F rule.rule_id db.occurrences ≡ o
        → OneOpen (apply_open F fresh rule seen t o db).1
    unfolding apply_open
    apply_open-OneOpen t none e = elim (Bool-cases (condition F fresh rule seen)) [
      | inl met ↦ rw met (
          append-OneOpen db (new_occurrence F fresh rule seen t) c unused
            (open_row-none rule.rule_id db.occurrences e))
      | inr unmet ↦ rw unmet c
    ]
    apply_open-OneOpen t (some o) e =
        let (at, open_o) = open_row-found rule.rule_id db.occurrences o c.keyed e in
        elim (Bool-cases (condition F fresh rule seen)) [
          | inl met ↦ rw met (write-OneOpen db o (seen_again F o seen) c at refl refl (λ q. q))
          | inr unmet ↦ rw unmet (
              write-OneOpen db o (cleared F o seen (enough_samples F fresh rule seen) t) c at refl
                refl (λ q. cc))
        ]

    apply_rule-OneOpen :
        (t : ℕ) (persisted : AlertRule F) → OneOpen (apply_rule F fresh rule seen t persisted db).1
    apply_rule-OneOpen t persisted = elim (Bool-cases persisted.enabled) [
      | inl on ↦ rw on (apply_open-OneOpen t (open_row F rule.rule_id db.occurrences) refl)
      | inr off ↦ rw off c
    ]

    -- An evaluation with an id not in use keeps the occurrences with distinct ids, at most one of a
    -- rule open.
    pub apply_observation-OneOpen :
        (now : DateTime) (x : AlertEvaluation F) (db' : AlertDb F)
        → apply_observation F fresh rule seen now db ≡ ok (x, db')
        → OneOpen db'
    unfolding apply_observation
    apply_observation-OneOpen now x db' e =
        let (t, _, rest) = >>=-eq-ok (require_aware now _) _ e in
        let (persisted, _, done) =
          >>=-eq-ok (require (find_rule F rule.rule_id db.rules) _) _ rest in
        subst OneOpen (ground arith) (apply_rule-OneOpen t persisted)
