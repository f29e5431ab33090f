-- ===== src/Durable/Invariant/Finish.antt =====
-- Announcing a job's new status, and ending its running attempt with it.
use microlens_recsys_mvp.Prelude.{
  ℕ, true, false, ◌≡◌, refl, sym, ap, ◌∙◌, subst, [], ◌∷◌, All-append, ok, arith,
}
use microlens_recsys_mvp.Prelude.Table.{find-replace_self}
use microlens_recsys_mvp.Durable.Domain.{JobState}
use microlens_recsys_mvp.Durable.Rows.{
  JobRow, AttemptRow, OutboxKey, OutboxPayload, OutboxRow, Db, attempt_running, find_job, write_job,
  write_attempt, has_key, insert_outbox,
}
use microlens_recsys_mvp.Durable.Repository.Common.{add_state_outbox}
use microlens_recsys_mvp.Durable.Invariant.{KeyOk, Consistent, SafeDb, announced}
use microlens_recsys_mvp.Durable.Invariant.Keys.{KeysOk, refused-absent}
use microlens_recsys_mvp.Durable.Invariant.Messages.{new-OutboxOk}
use microlens_recsys_mvp.Durable.Invariant.Write.{
  JobChange, AttemptChange, own_before, write_job-Consistent, write_attempt-Consistent,
  none_running,
}

-- What is consistent may be committed.
pub ok-SafeDb : {db : Db} → Consistent db → SafeDb (ok db)
ok-SafeDb {db} c = record { no_clash = λ e. cc; kept = λ db' e. subst Consistent (ok-eq e) c }
  where
    ok-eq : {a b : Db} → ok a ≡ ok b → a ≡ b
    ok-eq e = cc

-- A fresh message about a job of the table is accepted.
pub insert_outbox-SafeDb :
    (key : OutboxKey) (payload : OutboxPayload) (now : ℕ) (db : Db)
    → Consistent db
    → KeyOk db.jobs key
    → has_key key db.outbox ≡ false
    → SafeDb (insert_outbox key payload now db)
unfolding insert_outbox
insert_outbox-SafeDb key payload now db c known fresh = rw fresh (
    ok-SafeDb (record {
      jobs_keyed = c.jobs_keyed;
      attempts_keyed = c.attempts_keyed;
      checked = c.checked;
      roomy = c.roomy;
      shaped = c.shaped;
      owned = c.owned;
      numbered = c.numbered;
      keys =
          All-append (λ (o : OutboxRow). KeyOk db.jobs o.idempotency_key) db.outbox (_ ∷ []) c.keys
            (known, tt);
      messages = new-OutboxOk key payload now db.last_outbox_id db.outbox c.messages fresh;
      capped = c.capped;
      job_keys = c.job_keys;
    }))

-- A consistent write of a job, announced in a state that its old status did not allow.
pub announce-SafeDb :
    (db : Db) (old new : JobRow) (st : JobState) (now : ℕ)
    → JobChange db old new
    → Consistent (write_job new db)
    → KeysOk db.jobs db.outbox
    → announced old.status old.attempt_count st new.attempt_count ≡ false
    → announced new.status new.attempt_count st new.attempt_count ≡ true
    → SafeDb (add_state_outbox new st now (write_job new db))
unfolding add_state_outbox
announce-SafeDb db old new st now change c keys unannounced fits =
    let found' = ap (λ i. find_job i db.jobs) change.same_id ∙ change.found in
    insert_outbox-SafeDb _ _ now (write_job new db) c
      (record {
        job = new;
        found = find-replace_self JobRow.job_id new.job_id new old db.jobs found' refl;
        fits = fits;
      })
      (refused-absent db.jobs db.outbox _ old found' unannounced keys)

-- A running job whose running attempt ends.
module _ (db : Db) (old new : JobRow) (before after : AttemptRow) (c : Consistent db)
    (job : JobChange db old new) (attempt : AttemptChange db before after)
    (own : before.job_id ≡ old.job_id) (same_count : new.attempt_count ≡ old.attempt_count)
    (ran : attempt_running before.status ≡ true)
    (ended : attempt_running after.status ≡ false) where
  change' : JobChange (write_attempt after db) old new
  change' = record {
    found = job.found;
    same_id = job.same_id;
    same_key = job.same_key;
    same_max = job.same_max;
    checks = job.checks;
    room = job.room;
    grows = job.grows;
  }

  pub finish-Consistent : Consistent (write_job new (write_attempt after db))
  finish-Consistent =
      let c' = write_attempt-Consistent db before after c attempt in
      write_job-Consistent (write_attempt after db) old new c' change' λ k a e at_job.
        let (counted, _) = own_before (write_attempt after db) old new c' change' k a e at_job in
        let idle : attempt_running a.status ≡ false =
          none_running db before after c attempt ran ended k a e (at_job ∙ sym own) in
        (omega arith, ground arith)

  pub finish-SafeDb :
      (st : JobState) (now : ℕ)
      → announced old.status old.attempt_count st new.attempt_count ≡ false
      → announced new.status new.attempt_count st new.attempt_count ≡ true
      → SafeDb (add_state_outbox new st now (write_job new (write_attempt after db)))
  finish-SafeDb st now unannounced fits =
      announce-SafeDb (write_attempt after db) old new st now change' finish-Consistent c.keys
        unannounced fits
