-- ===== src/Registry/JobKeys.antt =====
-- Idempotency keys and final states of training jobs
-- (apps/api/app/models_registry/repository.py).
use Prim.Native.String.{String}
use microlens_recsys_mvp.Prelude.{
  ℕ, Bool, true, false, ◌≡◌, refl, sym, ap, subst, ◌∙◌, ◌⊎◌, inl, inr, Option, none, some, List, [],
  ◌∷◌, ◌++◌, map, if◌then◌else◌, Option-cases, Error, value_error, lookup_error, api_error,
  integrity_error, Result, ok, err, require, guard, ◌>>=◌, >>=-eq-ok, arith,
}
use microlens_recsys_mvp.Prelude.Table.{
  find, replace, IsKeyed, key-find, find-append_self, append-IsKeyed, replace-IsKeyed,
}
use microlens_recsys_mvp.Prelude.Keyed.{map-replace}
use microlens_recsys_mvp.Registry.Rows.{
  TrainingJob, TrainingJobStatus, RegistryDb, training_job_key,
}
use microlens_recsys_mvp.Registry.Jobs.{
  job_status_value, job_status_mem, job_transitions, idempotency_number, find_job_by_key,
  validate_job_eligibility, same_identity, existing_job, insert_training_job, after_conflict,
  enqueue_or_existing, enqueue_job, transition_job,
}

abbrev itself : ℕ → ℕ
itself k = k

-- No two jobs have one id, and no two have one idempotency key.
pub record AreUnique (jobs : List TrainingJob) : Type 0 where
  pub ids : IsKeyed training_job_key jobs
  pub keys : IsKeyed itself (map idempotency_number jobs)

find-map :
    (k : ℕ) (jobs : List TrainingJob)
    → find_job_by_key k jobs ≡ none
    → find itself k (map idempotency_number jobs) ≡ none
unfolding find
find-map k [] e = refl
find-map k (j ∷ jobs) e = ground (arith, find-map k jobs)

map-append_one :
    (jobs : List TrainingJob) (j : TrainingJob)
    → map idempotency_number (jobs ++ j ∷ [])
      ≡ map idempotency_number jobs ++ j.idempotency_key ∷ []
map-append_one [] j = refl
map-append_one (i ∷ jobs) j = ap (λ l. i.idempotency_key ∷ l) (map-append_one jobs j)

pub insert_training_job-AreUnique :
    (j : TrainingJob) (db db' : RegistryDb)
    → AreUnique db.jobs
    → insert_training_job j db ≡ ok db'
    → (AreUnique db'.jobs) × (db'.models ≡ db.models) × (db'.jobs ≡ db.jobs ++ j ∷ [])
unfolding insert_training_job
insert_training_job-AreUnique j db db' u h =
    let written : db'.jobs ≡ db.jobs ++ j ∷ [] = ground arith in
    let fresh : find training_job_key j.job_id db.jobs ≡ none = ground arith in
    let new_key : find_job_by_key j.idempotency_key db.jobs ≡ none = ground arith in
    (
      subst AreUnique (sym written) (record {
        ids = append-IsKeyed training_job_key db.jobs j fresh u.ids;
        keys = subst (IsKeyed itself) (sym (map-append_one db.jobs j)) (
            append-IsKeyed itself (map idempotency_number db.jobs) j.idempotency_key
              (find-map j.idempotency_key db.jobs new_key) u.keys);
      }),
      ground arith,
      written,
    )

-- The outcomes of an enqueue that succeeds: the job was there, or it is inserted.
abbrev Enqueued : (j found : TrainingJob) (db db' : RegistryDb) → Type 0
Enqueued j found db db' =
    ((db' ≡ db) × (find_job_by_key j.idempotency_key db.jobs ≡ some found))
    ⊎ ((insert_training_job j db ≡ ok db')
        × (found ≡ j)
        × (find_job_by_key j.idempotency_key db.jobs ≡ none))

existing_job-ok : (old j found : TrainingJob) → existing_job old j ≡ ok found → old ≡ found
unfolding existing_job
existing_job-ok old j found h = ground arith

module _ (j found : TrainingJob) (db db' : RegistryDb) where
  when_existing :
      (old : TrainingJob)
      → find_job_by_key j.idempotency_key db.jobs ≡ some old
      → enqueue_or_existing j db (some old) ≡ ok (found, db')
      → Enqueued j found db db'
  when_existing old f h =
      let (x, e, h1) = >>=-eq-ok (existing_job old j) _ h in
      let same : old ≡ x = existing_job-ok old j x e in
      inl (ground arith, f ∙ ap some (ground arith))

  when_absent :
      (r : Result RegistryDb)
      → insert_training_job j db ≡ r
      → find_job_by_key j.idempotency_key db.jobs ≡ none
      → after_conflict j db r ≡ ok (found, db')
      → Enqueued j found db db'
  when_absent (ok written) e absent h = inr (ground arith, ground arith, absent)
  when_absent (err integrity_error) e absent h =
      let (old, f, h1) =
        >>=-eq-ok (require (find_job_by_key j.idempotency_key db.jobs) integrity_error) _ h in
      absurd (ground arith)
  when_absent (err other) e absent h = absurd (ground arith)

  pub enqueue_job-Enqueued : enqueue_job j db ≡ ok (found, db') → Enqueued j found db db'
  unfolding enqueue_job
  enqueue_job-Enqueued h =
      let (u, e, h1) = >>=-eq-ok (validate_job_eligibility j) _ h in
      elim (Option-cases (find_job_by_key j.idempotency_key db.jobs)) [
        | inr (old, f) ↦
            when_existing old f (subst (λ o. enqueue_or_existing j db o ≡ ok (found, db')) f h1)
        | inl absent ↦
            when_absent (insert_training_job j db) refl absent
              (subst (λ o. enqueue_or_existing j db o ≡ ok (found, db')) absent h1)
      ]

  pub enqueue_job-AreUnique :
      AreUnique db.jobs
      → enqueue_job j db ≡ ok (found, db')
      → (AreUnique db'.jobs) × (db'.models ≡ db.models)
  enqueue_job-AreUnique u h = elim (enqueue_job-Enqueued h) [
    | inl p ↦ (subst (λ d. AreUnique d.jobs) (sym p.0) u, ap (λ d. d.models) p.0)
    | inr p ↦ let (a, b, c) = insert_training_job-AreUnique j db db' u p.0 in (a, b)
  ]

  -- A job that is returned is the one that its key finds afterwards.
  enqueue_job-find :
      AreUnique db.jobs
      → enqueue_job j db ≡ ok (found, db')
      → find_job_by_key j.idempotency_key db'.jobs ≡ some found
  enqueue_job-find u h = elim (enqueue_job-Enqueued h) [
    | inl p ↦ subst (λ d. find_job_by_key j.idempotency_key d.jobs ≡ some found) (sym p.0) p.1
    | inr p ↦
        let (a, b, c) = insert_training_job-AreUnique j db db' u p.0 in
        ap (find_job_by_key j.idempotency_key) c
        ∙ find-append_self idempotency_number db.jobs j p.2
        ∙ ap some (sym p.1)
  ]

  module _ (u : AreUnique db.jobs) (first : enqueue_job j db ≡ ok (found, db')) where
    -- Once a training job has been enqueued, a valid request with the same idempotency key is
    -- answered with that job and changes nothing where the identifying fields agree, and with a
    -- conflict where they differ. The jobs had distinct ids and keys before.
    pub enqueue_job-again :
        (j2 : TrainingJob)
        → validate_job_eligibility j2 ≡ ok tt
        → j2.idempotency_key ≡ j.idempotency_key
        → enqueue_job j2 db' ≡ (
            if same_identity found j2
            then ok (found, db')
            else err (
                api_error 409 "training_job_idempotency_conflict"
                  "idempotency_key has different training job content"))
    unfolding enqueue_job existing_job
    enqueue_job-again j2 valid key =
        let at : find_job_by_key j2.idempotency_key db'.jobs ≡ some found =
          subst (λ k. find_job_by_key k db'.jobs ≡ some found) (sym key)
            (enqueue_job-find u first) in
        rw (valid, at) (settled (same_identity found j2) _)
      where
        settled :
            (b : Bool) (e : Error)
            → ◌>>=◌ {Y = TrainingJob × RegistryDb}
                (if b then ok found else err e)
                (λ x. ok (x, db'))
              ≡ (if b then ok (found, db') else err e)
        settled true e = refl
        settled false e = refl

-- A transition that succeeds follows an edge, and keeps every other column but the reason.
module _ (transition : String → String → String) (id : ℕ) (target : TrainingJobStatus)
    (reason : Option String) (db : RegistryDb) where
  pub transition_job-ok :
      (j : TrainingJob) (db' : RegistryDb)
      → transition_job transition id target reason db ≡ ok (j, db')
      → (old : TrainingJob) × (find training_job_key id db.jobs ≡ some old)
        × (job_status_mem target (job_transitions old.status) ≡ true)
        × (j ≡ record old { status = target; failure_reason = reason })
        × (db' ≡ record db { jobs = replace training_job_key j db.jobs })
  unfolding transition_job
  transition_job-ok j db' h =
      let (old, e, h1) =
        >>=-eq-ok
          (require (find training_job_key id db.jobs) (lookup_error "training job does not exist"))
          _ h in
      let (v, e2, h2) =
        >>=-eq-ok
          (guard (job_status_mem target (job_transitions old.status))
            (value_error (transition (job_status_value old.status) (job_status_value target))))
          _ h1 in
      (old, ground arith, ground arith, ground arith, ground arith)

  pub transition_job-AreUnique :
      (j : TrainingJob) (db' : RegistryDb)
      → AreUnique db.jobs
      → transition_job transition id target reason db ≡ ok (j, db')
      → (AreUnique db'.jobs) × (db'.models ≡ db.models)
  transition_job-AreUnique j db' u h =
      let (old, found, edge, same, after) = transition_job-ok j db' h in
      let at : j.job_id ≡ id =
        ap (λ x. x.job_id) same ∙ key-find training_job_key id db.jobs old found in
      (
        subst (λ d. AreUnique d.jobs) (sym after)
            (record {
              ids = replace-IsKeyed training_job_key j db.jobs u.ids;
              keys =
                  subst (IsKeyed itself)
                    (sym (
                      map-replace training_job_key idempotency_number j old db.jobs u.ids
                        (subst (λ k. find training_job_key k db.jobs ≡ some old) (sym at) found)
                        (ap (λ x. x.idempotency_key) same)))
                    u.keys;
            }),
        ap (λ d. d.models) after,
      )
