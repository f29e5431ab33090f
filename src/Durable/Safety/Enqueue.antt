-- ===== src/Durable/Safety/Enqueue.antt =====
-- The tables after `enqueue` (apps/api/app/async_runtime/repository.py).
use microlens_recsys_mvp.Prelude.{
  ℕ, ◌<◌, String, Bool, true, false, ◌≡◌, ◌≢◌, ◌≤◌, inl, inr, refl, sym, ap, ◌∙◌, List, All, str_eq,
  eq_iff, Option, none, some, [], ◌∷◌, ◌++◌, Error, integrity_error, Result, ok, err, ◌>>=◌, arith,
}
use microlens_recsys_mvp.Prelude.Table.{
  find-All, append-IsKeyed, find-append_cases, find-append_some, find-append_self,
}
use microlens_recsys_mvp.Durable.Domain.{Canonical, DateTime, JobSpec, DurableJob, queued}
use microlens_recsys_mvp.Durable.Rows.{JobRow, Db, find_job, find_by_key, insert_job}
use microlens_recsys_mvp.Durable.Repository.Enqueue.{
  enqueue, enqueue_at, same_or_conflict, after_conflict, after_savepoint, insert_both, new_job,
  id_or,
}
use microlens_recsys_mvp.Durable.Invariant.{
  Consistent, Safe, SafeDb, job_checks, has_room, in_range,
}
use microlens_recsys_mvp.Durable.Invariant.Keys.{append-KeysOk, unknown-absent}
use microlens_recsys_mvp.Durable.Invariant.Finish.{insert_outbox-SafeDb}
use microlens_recsys_mvp.Durable.Invariant.Steps.{
  ok-Safe, plain-Safe, bind-Safe, IsPlain, require_aware-IsPlain,
}

abbrev add_job : JobRow → Db → Db
add_job job db = record db { jobs = db.jobs ++ job ∷ [] }

keys-other :
    (k : String) (jobs : List JobRow)
    → find_by_key k jobs ≡ none
    → All (λ j. str_eq j.idempotency_key k ≡ false) jobs
unfolding find_by_key
keys-other k [] h = tt
keys-other k (j ∷ jobs) h =
    let miss : str_eq j.idempotency_key k ≡ false = ground arith in
    (miss, keys-other k jobs (rw miss at h))

module _ (db : Db) (c : Consistent db) (job : JobRow) (fresh : find_job job.job_id db.jobs ≡ none)
    (checks : job_checks job ≡ true) (room : has_room job ≡ true) (cap : in_range job ≡ true)
    (new_key : find_by_key job.idempotency_key db.jobs ≡ none) where
  other_key :
      (k : ℕ) (j : JobRow) → find_job k db.jobs ≡ some j → j.idempotency_key ≢ job.idempotency_key
  other_key k j e same =
      let differs : str_eq j.idempotency_key job.idempotency_key ≡ false =
        find-All JobRow.job_id (λ i. str_eq i.idempotency_key job.idempotency_key ≡ false) k db.jobs
          j (keys-other job.idempotency_key db.jobs new_key) e in
      cc (differs, (eq_iff j.idempotency_key job.idempotency_key).1 same)

  add_job-Consistent : Consistent (add_job job db)
  add_job-Consistent = record {
    jobs_keyed = append-IsKeyed JobRow.job_id db.jobs job fresh c.jobs_keyed;
    attempts_keyed = c.attempts_keyed;
    checked = λ k j e. elim (find-append_cases JobRow.job_id k db.jobs job j e) [
      | inl before ↦ c.checked k j before
      | inr (_, same) ↦ rw same checks
    ];
    roomy = λ k j e. elim (find-append_cases JobRow.job_id k db.jobs job j e) [
      | inl before ↦ c.roomy k j before
      | inr (_, same) ↦ rw same room
    ];
    shaped = c.shaped;
    owned = λ k a e.
        let h = c.owned k a e in
        record {
          job = h.job;
          found = find-append_some JobRow.job_id a.job_id db.jobs job h.job h.found;
          counted = h.counted;
          last = h.last;
        };
    numbered = c.numbered;
    keys = append-KeysOk db.jobs job db.outbox c.keys;
    messages = c.messages;
    capped = λ k j e. elim (find-append_cases JobRow.job_id k db.jobs job j e) [
      | inl before ↦ c.capped k j before
      | inr (_, same) ↦ rw same cap
    ];
    job_keys = λ k l i j ei ej key. elim (find-append_cases JobRow.job_id k db.jobs job i ei) [
      | inl old_i ↦ elim (find-append_cases JobRow.job_id l db.jobs job j ej) [
        | inl old_j ↦ c.job_keys k l i j old_i old_j key
        | inr (_, same_j) ↦ absurd (other_key k i old_i (key ∙ ap JobRow.idempotency_key same_j))
      ]
      | inr (at_k, same_i) ↦ elim (find-append_cases JobRow.job_id l db.jobs job j ej) [
        | inl old_j ↦ absurd (other_key l j old_j (sym key ∙ ap JobRow.idempotency_key same_i))
        | inr (at_l, _) ↦ sym at_k ∙ at_l
      ]
    ];
  }

  module _ (waits : job.status ≡ queued) (untried : job.attempt_count ≡ 0) where
    insert_both-SafeDb :
        (sha256 : Canonical → String) (now : ℕ) → SafeDb (insert_both sha256 job now db)
    unfolding insert_both insert_job
    insert_both-SafeDb sha256 now =
        rw (fresh, new_key)
          (insert_outbox-SafeDb _ _ now (add_job job db) add_job-Consistent
            (record {
              job = job;
              found = find-append_self JobRow.job_id db.jobs job fresh;
              fits = rw (waits, untried);
            })
            (unknown-absent db.jobs db.outbox _ fresh c.keys))

module _ (sha256 : Canonical → String) (spec : JobSpec) (db : Db) (c : Consistent db) where
  same-IsPlain : (existing : JobRow) → IsPlain (same_or_conflict sha256 existing spec)
  unfolding same_or_conflict
  same-IsPlain existing = record { plain = λ q. ground arith }

  existing-Safe :
      (existing : JobRow)
      → Safe {A = DurableJob × Bool}
          (same_or_conflict sha256 existing spec >>= λ view. ok ((view, false), db))
  existing-Safe existing = bind-Safe _ _ (same-IsPlain existing) (λ view _. ok-Safe c)

  conflicted-Safe :
      (found : Option JobRow) (e : Error)
      → e ≢ integrity_error
      → Safe (after_conflict sha256 found spec db e)
  conflicted-Safe none e h = plain-Safe h
  conflicted-Safe (some existing) e h = existing-Safe existing

  after-Safe :
      (m : Result Db) (job : JobRow) → SafeDb m → Safe (after_savepoint sha256 m job spec db)
  after-Safe (ok db') job h = ok-Safe (h.kept db' refl)
  after-Safe (err e) job h =
      conflicted-Safe (find_by_key spec.idempotency_key db.jobs) e (λ q. h.no_clash (ap err q))

  module _ (fresh : ℕ) (unused : find_job (id_or spec.job_id fresh) db.jobs ≡ none)
      (attempts : 0 < spec.max_attempts) (most : spec.max_attempts ≤ 100) where
    enqueue_at-Safe :
        (t : ℕ) (found : Option JobRow)
        → find_by_key spec.idempotency_key db.jobs ≡ found
        → Safe (enqueue_at sha256 spec fresh t found db)
    enqueue_at-Safe t (some existing) e = existing-Safe existing
    enqueue_at-Safe t none e =
        let job = new_job sha256 spec (id_or spec.job_id fresh) t in
        after-Safe (insert_both sha256 job t db) job (
          insert_both-SafeDb db c job unused (ground arith) (ground arith) (ground arith) e refl
            refl sha256 t)

    -- On consistent tables, for a specification with 1 to 100 attempts and a job id that no job
    -- has yet, enqueueing raises no constraint error, and leaves the tables consistent.
    pub enqueue-Safe : (now : DateTime) → Safe (enqueue sha256 spec now fresh db)
    unfolding enqueue
    enqueue-Safe now =
        bind-Safe _ _ (require_aware-IsPlain now _)
          λ t _. enqueue_at-Safe t (find_by_key spec.idempotency_key db.jobs) refl
