-- ===== src/Durable/Behaviour/Repeats.antt =====
-- Reports of success that are repeated: `succeed` (apps/api/app/async_runtime/repository.py).
use text.Mathlib.TextPositions.{eq_refl}
use microlens_recsys_mvp.Prelude.{
  ℕ, String, true, ◌≡◌, refl, sym, ap, ◌∙◌, Option, none, some, Bool-cases, inl, inr, ok, str_eq,
  >>=-eq-ok, arith,
}
use microlens_recsys_mvp.Prelude.Table.{key-find, find-replace_self}
use microlens_recsys_mvp.Durable.Domain.{
  AttemptState, Canonical, payload_json, DateTime, aware, DurableClaim, Completion, succeeded,
  require_aware,
}
use microlens_recsys_mvp.Durable.Rows.{
  JobRow, AttemptRow, Db, is_succeeded, attempt_succeeded, find_job, find_attempt, write_job,
  write_attempt,
}
use microlens_recsys_mvp.Durable.Repository.Common.{owned_rows}
use microlens_recsys_mvp.Durable.Repository.Work.{
  end_attempt, succeed, succeed_rows, succeed_owned, succeed_job, json_text, repeat_or_err,
  both_succeeded,
}
use microlens_recsys_mvp.Durable.Safety.Owned.{owned_rows-Owns}
use microlens_recsys_mvp.Durable.Behaviour.Announce.{announced_result}

-- The rows behind a claim, after its attempt and its job have been written.
module _ (claim : DurableClaim) (db : Db) (job new : JobRow) (attempt ended : AttemptRow)
    (at_job : find_job claim.job.job_id db.jobs ≡ some job)
    (at : find_attempt claim.attempt_id db.attempts ≡ some attempt)
    (same_id : new.job_id ≡ job.job_id) (same_attempt : ended.attempt_id ≡ attempt.attempt_id) where
  pub job_written :
      find_job claim.job.job_id (write_job new (write_attempt ended db)).jobs ≡ some new
  job_written =
      find-replace_self JobRow.job_id claim.job.job_id new job db.jobs at_job
        (same_id ∙ key-find JobRow.job_id claim.job.job_id db.jobs job at_job)

  pub attempt_written :
      find_attempt claim.attempt_id (write_job new (write_attempt ended db)).attempts ≡ some ended
  attempt_written =
      find-replace_self AttemptRow.attempt_id claim.attempt_id ended attempt db.attempts at
        (same_attempt ∙ key-find AttemptRow.attempt_id claim.attempt_id db.attempts attempt at)

module _ (sha256 : Canonical → String) (claim : DurableClaim) (text : String) where
  -- The claim's job and attempt have succeeded, with this result up to its digest.
  record Reported (db : Db) : Type 0 where
    job : JobRow
    attempt : AttemptRow
    at_job : find_job claim.job.job_id db.jobs ≡ some job
    at_attempt : find_attempt claim.attempt_id db.attempts ≡ some attempt
    job_done : is_succeeded job.status ≡ true
    attempt_done : attempt_succeeded attempt.status ≡ true
    same_result :
        str_eq (sha256 (payload_json (json_text job.result))) (sha256 (payload_json text)) ≡ true

  owned-Reported :
      (db db' : Db) (job : JobRow) (attempt : AttemptRow) (t : ℕ) (x : Completion)
      → find_job claim.job.job_id db.jobs ≡ some job
      → find_attempt claim.attempt_id db.attempts ≡ some attempt
      → succeed_owned text t db (job, attempt) ≡ ok (x, db')
      → Reported db'
  unfolding succeed_owned
  owned-Reported db db' job attempt t x at_job at e =
      let done = succeed_job job text t in
      let ended = end_attempt attempt AttemptState.succeeded attempt.error t in
      let (_, jobs, attempts) =
        announced_result done succeeded t (write_job done (write_attempt ended db)) db' _ x e in
      record {
        job = done;
        attempt = ended;
        at_job =
            ap (find_job claim.job.job_id) jobs
            ∙ job_written claim db job done attempt ended at_job at refl refl;
        at_attempt =
            ap (find_attempt claim.attempt_id) attempts
            ∙ attempt_written claim db job done attempt ended at_job at refl refl;
        job_done = refl;
        attempt_done = refl;
        same_result = eq_refl (sha256 (payload_json text));
      }

  repeated-Reported :
      (db db' : Db) (j : Option JobRow) (a : Option AttemptRow) (x : Completion)
      → find_job claim.job.job_id db.jobs ≡ j
      → find_attempt claim.attempt_id db.attempts ≡ a
      → both_succeeded sha256 j a ≡ true
      → repeat_or_err sha256 j text db ≡ ok (x, db')
      → Reported db'
  repeated-Reported db db' none a x at_job at both e = absurd (cc both)
  repeated-Reported db db' (some job) none x at_job at both e = absurd (cc both)
  repeated-Reported db db' (some job) (some attempt) x at_job at both e =
      let same : db ≡ db' = ground arith in
      record {
        job = job;
        attempt = attempt;
        at_job = ap (λ (d : Db). find_job claim.job.job_id d.jobs) (sym same) ∙ at_job;
        at_attempt = ap (λ (d : Db). find_attempt claim.attempt_id d.attempts) (sym same) ∙ at;
        job_done = ground arith;
        attempt_done = ground arith;
        same_result = ground arith;
      }

  rows-Reported :
      (db db' : Db) (t : ℕ) (x : Completion)
      → succeed_rows sha256
          (find_job claim.job.job_id db.jobs)
          (find_attempt claim.attempt_id db.attempts)
          claim
          text
          t
          db
        ≡ ok (x, db')
      → Reported db'
  unfolding succeed_rows
  rows-Reported db db' t x e =
      let j = find_job claim.job.job_id db.jobs in
      let a = find_attempt claim.attempt_id db.attempts in
      elim (Bool-cases (both_succeeded sha256 j a)) [
        | inl both ↦ repeated-Reported db db' j a x refl refl both (rw both at e)
        | inr first ↦
            let ((job, attempt), owned, done) =
              >>=-eq-ok (owned_rows j a claim t) (λ rows. succeed_owned text t db rows)
                (rw first at e) in
            let (at_job, at, _) = owned_rows-Owns j a claim t job attempt owned in
            owned-Reported db db' job attempt t x at_job at done
      ]

  again :
      (db : Db) (t : ℕ)
      → Reported db
      → succeed_rows sha256
          (find_job claim.job.job_id db.jobs)
          (find_attempt claim.attempt_id db.attempts)
          claim
          text
          t
          db
        ≡ ok (record { state = succeeded; duplicate = true }, db)
  unfolding succeed_rows
  again db t r = rw (r.at_job, r.at_attempt, r.job_done, r.attempt_done, r.same_result)

-- A success that has been committed may be reported again with the same result, at any time: the
-- answer is a duplicate success, and the tables stay as they are.
pub succeed_twice :
    (sha256 : Canonical → String) (claim : DurableClaim) (result : Option String) (now : DateTime)
    (later : ℕ) (db db' : Db) (x : Completion)
    → succeed sha256 claim result now db ≡ ok (x, db')
    → succeed sha256 claim result (aware later) db'
      ≡ ok (record { state = succeeded; duplicate = true }, db')
unfolding succeed
succeed_twice sha256 claim none now later db db' x e = cc
succeed_twice sha256 claim (some text) now later db db' x e =
    let (t, _, rows) = >>=-eq-ok (require_aware now _) _ e in
    again sha256 claim text db' later (rows-Reported sha256 claim text db db' t x rows)
