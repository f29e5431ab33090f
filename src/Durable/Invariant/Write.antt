-- ===== src/Durable/Invariant/Write.antt =====
-- Writing the rows of one job: which writes keep the tables consistent.
use microlens_recsys_mvp.Prelude.{
  ℕ, ◌≤◌, true, false, ◌≡◌, ◌≢◌, inl, inr, sym, refl, ap, ◌∙◌, subst, some, ◌==◌, ==→eq, Bool-cases,
  arith,
}
use microlens_recsys_mvp.Prelude.Table.{
  replace, find-replace_self, find-replace_ne, find-replace_cases, replace-IsKeyed,
}
use microlens_recsys_mvp.Durable.Domain.{JobState}
use microlens_recsys_mvp.Durable.Rows.{
  JobRow, AttemptRow, Db, attempt_running, find_job, find_attempt, write_job, write_attempt,
}
use microlens_recsys_mvp.Durable.Invariant.{
  AttemptOk, Consistent, job_checks, has_room, attempt_checks, announced, runs_last,
}
use microlens_recsys_mvp.Durable.Invariant.Keys.{replace-KeysOk}

-- One job, with the row that is to be written over it.
pub record JobChange (db : Db) (old new : JobRow) : Type 0 where
  pub found : find_job old.job_id db.jobs ≡ some old
  pub same_id : new.job_id ≡ old.job_id
  pub same_key : new.idempotency_key ≡ old.idempotency_key
  pub same_max : new.max_attempts ≡ old.max_attempts
  pub checks : job_checks new ≡ true
  pub room : has_room new ≡ true
  pub grows :
      (s : JobState) (n : ℕ)
      → announced old.status old.attempt_count s n ≡ true
      → announced new.status new.attempt_count s n ≡ true

module _ (db : Db) (old new : JobRow) (c : Consistent db) (change : JobChange db old new) where
  -- An attempt of another job does not see the write.
  other-AttemptOk :
      (a : AttemptRow)
      → a.job_id ≢ old.job_id
      → AttemptOk db.jobs a
      → AttemptOk (replace JobRow.job_id new db.jobs) a
  other-AttemptOk a other h = record {
    job = h.job;
    found =
        find-replace_ne JobRow.job_id a.job_id new db.jobs (λ e. other (sym e ∙ change.same_id))
        ∙ h.found;
    counted = h.counted;
    last = h.last;
  }

  -- An attempt of the job must fit the new row.
  own-AttemptOk :
      (a : AttemptRow)
      → a.job_id ≡ old.job_id
      → a.attempt ≤ new.attempt_count
      → runs_last a new ≡ true
      → AttemptOk (replace JobRow.job_id new db.jobs) a
  own-AttemptOk a own counted last = record {
    job = new;
    found =
        find-replace_self JobRow.job_id a.job_id new old db.jobs
          (ap (λ i. find_job i db.jobs) own ∙ change.found) (change.same_id ∙ sym own);
    counted = counted;
    last = last;
  }

  -- What the table says of an attempt of the job, before the write.
  pub own_before :
      (k : ℕ) (a : AttemptRow)
      → find_attempt k db.attempts ≡ some a
      → a.job_id ≡ old.job_id
      → (a.attempt ≤ old.attempt_count) × (runs_last a old ≡ true)
  own_before k a found own =
      let h = c.owned k a found in
      let same : h.job ≡ old = cc (h.found, change.found, ap (λ i. find_job i db.jobs) own) in
      (
        subst (λ (j : JobRow). a.attempt ≤ j.attempt_count) same h.counted,
        subst (λ j. runs_last a j ≡ true) same h.last,
      )

  -- The row of a job before the write has the key that it has afterwards.
  job_before :
      (k : ℕ) (j : JobRow)
      → find_job k (replace JobRow.job_id new db.jobs) ≡ some j
      → (b : JobRow) × (find_job k db.jobs ≡ some b) × (b.idempotency_key ≡ j.idempotency_key)
  job_before k j e = elim (find-replace_cases JobRow.job_id k new j db.jobs e) [
    | inl (at, same) ↦ (
      old,
      ap (λ i. find_job i db.jobs) (sym at ∙ change.same_id) ∙ change.found,
      sym change.same_key ∙ ap JobRow.idempotency_key (sym same),
    )
    | inr (_, before) ↦ (j, before, refl)
  ]

  -- Each attempt of the job fits the new row: then the write keeps the tables consistent.
  pub write_job-Consistent :
      ((k : ℕ) (a : AttemptRow)
        → find_attempt k db.attempts ≡ some a
        → a.job_id ≡ old.job_id
        → (a.attempt ≤ new.attempt_count) × (runs_last a new ≡ true))
      → Consistent (write_job new db)
  write_job-Consistent fits = record {
    jobs_keyed = replace-IsKeyed JobRow.job_id new db.jobs c.jobs_keyed;
    attempts_keyed = c.attempts_keyed;
    checked = λ k j e. elim (find-replace_cases JobRow.job_id k new j db.jobs e) [
      | inl (_, same) ↦ rw same change.checks
      | inr (_, before) ↦ c.checked k j before
    ];
    roomy = λ k j e. elim (find-replace_cases JobRow.job_id k new j db.jobs e) [
      | inl (_, same) ↦ rw same change.room
      | inr (_, before) ↦ c.roomy k j before
    ];
    shaped = c.shaped;
    owned = λ k a e. elim (Bool-cases (a.job_id == old.job_id)) [
      | inl own ↦
          let (counted, last) = fits k a e (==→eq _ _ own) in
          own-AttemptOk a (==→eq _ _ own) counted last
      | inr other ↦ other-AttemptOk a (λ q. ground arith) (c.owned k a e)
    ];
    numbered = c.numbered;
    keys = replace-KeysOk db.jobs old new change.found change.same_id change.grows db.outbox c.keys;
    messages = c.messages;
    capped = λ k j e. elim (find-replace_cases JobRow.job_id k new j db.jobs e) [
      | inl (_, same) ↦ rw (same, change.same_max) (c.capped old.job_id old change.found)
      | inr (_, before) ↦ c.capped k j before
    ];
    job_keys = λ k l i j ei ej key.
        let (a, fa, ka) = job_before k i ei in
        let (b, fb, kb) = job_before l j ej in c.job_keys k l a b fa fb (ka ∙ key ∙ sym kb);
  }

-- Writing an attempt: its job stays, its number stays, it does not start to run.
pub record AttemptChange (db : Db) (old new : AttemptRow) : Type 0 where
  pub found : find_attempt old.attempt_id db.attempts ≡ some old
  pub same_id : new.attempt_id ≡ old.attempt_id
  pub same_job : new.job_id ≡ old.job_id
  pub same_number : new.attempt ≡ old.attempt
  pub checks : attempt_checks new ≡ true
  pub stops : attempt_running old.status ≡ false → attempt_running new.status ≡ false

module _ (db : Db) (old new : AttemptRow) (c : Consistent db)
    (change : AttemptChange db old new) where
  -- Every attempt after the write stands for one before it, of the same job and number.
  before_write :
      (k : ℕ) (a : AttemptRow)
      → find_attempt k (write_attempt new db).attempts ≡ some a
      → (b : AttemptRow) × (find_attempt k db.attempts ≡ some b)
        × (a.job_id ≡ b.job_id)
        × (a.attempt ≡ b.attempt)
        × (attempt_running b.status ≡ false → attempt_running a.status ≡ false)
  before_write k a e = elim (find-replace_cases AttemptRow.attempt_id k new a db.attempts e) [
    | inl (at_k, same) ↦ (
      old,
      ap (λ i. find_attempt i db.attempts) (sym at_k ∙ change.same_id) ∙ change.found,
      ap AttemptRow.job_id same ∙ change.same_job,
      ap AttemptRow.attempt same ∙ change.same_number,
      λ idle. rw same (change.stops idle),
    )
    | inr (_, before) ↦ (a, before, refl, refl, λ idle. idle)
  ]

  pub write_attempt-Consistent : Consistent (write_attempt new db)
  write_attempt-Consistent = record {
    jobs_keyed = c.jobs_keyed;
    attempts_keyed = replace-IsKeyed AttemptRow.attempt_id new db.attempts c.attempts_keyed;
    checked = c.checked;
    roomy = c.roomy;
    shaped = λ k a e. elim (find-replace_cases AttemptRow.attempt_id k new a db.attempts e) [
      | inl (_, same) ↦ rw same change.checks
      | inr (_, before) ↦ c.shaped k a before
    ];
    owned = λ k a e.
        let (b, found, job, number, stops) = before_write k a e in
        let h = c.owned k b found in
        record {
          job = h.job;
          found = ap (λ i. find_job i db.jobs) job ∙ h.found;
          counted = omega arith;
          last = ground (arith, h.last, stops);
        };
    numbered = λ k l a b ea eb job number.
        let (a', fa, ja, na, _) = before_write k a ea in
        let (b', fb, jb, nb, _) = before_write l b eb in
        c.numbered k l a' b' fa fb (sym ja ∙ job ∙ jb) (sym na ∙ number ∙ nb);
    keys = c.keys;
    messages = c.messages;
    capped = c.capped;
    job_keys = c.job_keys;
  }

  -- Once the running attempt has ended, no attempt of its job runs.
  pub none_running :
      attempt_running old.status ≡ true
      → attempt_running new.status ≡ false
      → (k : ℕ) (a : AttemptRow) → find_attempt k (write_attempt new db).attempts ≡ some a
      → a.job_id ≡ old.job_id
      → attempt_running a.status ≡ false
  none_running ran ended k a e own =
      elim (find-replace_cases AttemptRow.attempt_id k new a db.attempts e) [
        | inl (_, same) ↦ rw same ended
        | inr (other, before) ↦ elim (Bool-cases (attempt_running a.status)) [
          | inr idle ↦ idle
          | inl runs ↦
              let h = c.owned k a before in
              let g = c.owned old.attempt_id old change.found in
              let same : h.job ≡ g.job = cc (h.found, g.found, ap (λ i. find_job i db.jobs) own) in
              let numbers : a.attempt ≡ old.attempt =
                ground (arith, h.last, g.last, ap JobRow.attempt_count same) in
              absurd (
                other (
                  change.same_id
                  ∙ sym (c.numbered k old.attempt_id a old before change.found own numbers)))
        ]
      ]
