-- ===== src/Durable/Behaviour/Leases.antt =====
-- Leases that are over: `_recover_expired` (apps/api/app/async_runtime/repository.py).
use microlens_recsys_mvp.Prelude.{
  ℕ, true, false, ◌≡◌, ◌⊎◌, inl, inr, refl, sym, ap, ◌∙◌, none, some, List, [], ◌∷◌, All-unselect,
  select, Bool-cases, ok, >>=-eq-ok, arith,
}
use microlens_recsys_mvp.Prelude.Table.{
  find, IsKeyed, key-find, replace, find-All, IsKeyed-find, find-replace_cases,
}
use microlens_recsys_mvp.Prelude.Keyed.{none-cons, find-none-All}
use microlens_recsys_mvp.Prelude.Sorting.{sort_by, All-of-sort_by}
use microlens_recsys_mvp.Durable.Rows.{
  JobRow, AttemptRow, Db, Held, is_running, attempt_running, find_job, find_attempt, insert_outbox,
}
use microlens_recsys_mvp.Durable.Repository.Common.{add_state_outbox}
use microlens_recsys_mvp.Durable.Repository.Recover.{
  is_expired, lease_order, expired_attempts, expire_attempt, recover_rows, recover_found,
  recover_attempt, recover_each, recover_expired,
}
use microlens_recsys_mvp.Durable.Invariant.{Consistent}
use microlens_recsys_mvp.Durable.Safety.Recover.{Waiting, recover_attempt-SafeDb}
use microlens_recsys_mvp.Durable.Safety.RecoverAll.{still-Waiting, expired-IsKeyed, expired-Waiting}

-- Recovering a running attempt of a consistent table does write it.
recovered :
    (db db' : Db) (now : ℕ) (a : AttemptRow)
    → Consistent db
    → find_attempt a.attempt_id db.attempts ≡ some a
    → attempt_running a.status ≡ true
    → recover_attempt now a db ≡ ok db'
    → db'.attempts ≡ replace AttemptRow.attempt_id (expire_attempt a now) db.attempts
unfolding recover_attempt recover_rows add_state_outbox insert_outbox
recovered db db' now a c at runs e =
    let h = c.owned a.attempt_id a at in
    written h.job h.found (ground (arith, h.last)) (rw h.found at e)
  where
    written :
        (job : JobRow)
        → find_job a.job_id db.jobs ≡ some job
        → is_running job.status ≡ true
        → recover_found now a (some job) db ≡ ok db'
        → db'.attempts ≡ replace AttemptRow.attempt_id (expire_attempt a now) db.attempts
    written job found job_runs e' = ground arith

-- After the loop an attempt has stopped, or it is as it was and was not to be handled.
handled :
    (now : ℕ) (rest : List AttemptRow) (db db' : Db)
    → Consistent db
    → IsKeyed AttemptRow.attempt_id rest
    → Waiting rest db.attempts
    → recover_each now rest db ≡ ok db'
    → (k : ℕ) (a : AttemptRow) → find_attempt k db'.attempts ≡ some a
    → (attempt_running a.status ≡ false)
      ⊎ ((find_attempt k db.attempts ≡ some a) × (find_attempt k rest ≡ none))
unfolding recover_each find
handled now [] db db' c keyed w e k a at =
    let same : db ≡ db' = ground arith in
    inr (ap (λ (d : Db). find_attempt k d.attempts) same ∙ at, refl)
handled now (b ∷ rest) db db' c keyed w e k a at =
    let (mid, first, later) =
      >>=-eq-ok (recover_attempt now b db) (λ d. recover_each now rest d) e in
    let written = recovered db mid now b c w.0.0 w.0.1 first in
    let c' = (recover_attempt-SafeDb db c now b w.0.0 w.0.1).kept mid first in
    let w' =
      still-Waiting db mid now b rest first
        (find-none-All AttemptRow.attempt_id b.attempt_id rest keyed.0) w.1 in
    elim (handled now rest mid db' c' keyed.1 w' later k a at) [
      | inl idle ↦ inl idle
      | inr (at_mid, absent) ↦
          elim (find-replace_cases AttemptRow.attempt_id k (expire_attempt b now) a db.attempts
            (ap (find_attempt k) (sym written) ∙ at_mid)) [
              | inl (_, same) ↦ inl (ap (λ (r : AttemptRow). attempt_running r.status) same)
              | inr (other, before) ↦
                  inr (before, none-cons AttemptRow.attempt_id k b rest other absent)
            ]
    ]

-- An expired attempt of the table is found in the list that is to be handled.
listed :
    (db : Db) (c : Consistent db) (held : Held) (now k : ℕ) (a : AttemptRow)
    → find_attempt k db.attempts ≡ some a
    → is_expired held now a ≡ true
    → find_attempt a.attempt_id (expired_attempts held now db.attempts) ≡ some a
unfolding expired_attempts
listed db c held now k a at expired =
    (find-All AttemptRow.attempt_id
        (λ b.
          is_expired held now b ≡ true
          → find_attempt b.attempt_id
              (sort_by lease_order (select (is_expired held now) db.attempts))
            ≡ some b)
        k db.attempts a
        (All-unselect _ (is_expired held now) db.attempts (
          All-of-sort_by lease_order _ _
            (IsKeyed-find AttemptRow.attempt_id _ (expired-IsKeyed db c held now))))
        at)
      expired

-- After a recovery of consistent tables no attempt is left whose lease is over, except those that
-- another transaction has locked.
pub recover_complete :
    (db db' : Db) (held : Held) (now : ℕ)
    → Consistent db
    → recover_expired held now db ≡ ok db'
    → (k : ℕ) (a : AttemptRow) → find_attempt k db'.attempts ≡ some a
    → is_expired held now a ≡ false
unfolding recover_expired
recover_complete db db' held now c e k a at =
    elim (handled now (expired_attempts held now db.attempts) db db' c
      (expired-IsKeyed db c held now) (expired-Waiting db c held now) e k a at) [
        | inl idle ↦ ground arith
        | inr (before, absent) ↦ elim (Bool-cases (is_expired held now a)) [
          | inr fresh ↦ fresh
          | inl expired ↦ absurd (
              cc (
                listed db c held now k a before expired,
                absent,
                ap (λ i. find_attempt i (expired_attempts held now db.attempts))
                    (key-find AttemptRow.attempt_id k db.attempts a before),
              ))
        ]
      ]
