-- ===== src/Durable/Safety/Append.antt =====
-- A new attempt of a job that has just started to run.
use microlens_recsys_mvp.Prelude.{
  ℕ, ◌<◌, ◌+◌, true, false, ◌≡◌, ◌≢◌, inl, inr, refl, sym, ap, ◌∙◌, some, none, List, [], ◌∷◌, ◌++◌,
  All, All-map, arith,
}
use microlens_recsys_mvp.Prelude.Table.{IsKeyed-find, append-IsKeyed, find-append_cases}
use microlens_recsys_mvp.Durable.Rows.{JobRow, AttemptRow, Db, find_job, find_attempt, has_number}
use microlens_recsys_mvp.Durable.Invariant.{AttemptOk, Consistent, attempt_checks}

abbrev pub add_attempt : AttemptRow → Db → Db
add_attempt a db = record db { attempts = db.attempts ++ a ∷ [] }

module _ (db : Db) (c : Consistent db) (new : AttemptRow)
    (fresh : find_attempt new.attempt_id db.attempts ≡ none) (checks : attempt_checks new ≡ true)
    (fits : AttemptOk db.jobs new)
    (other_number : (k : ℕ) (a : AttemptRow)
      → find_attempt k db.attempts ≡ some a
      → a.job_id ≡ new.job_id
      → a.attempt ≢ new.attempt) where
  -- A new attempt with a new number, which fits its job, keeps the tables consistent.
  pub add_attempt-Consistent : Consistent (add_attempt new db)
  add_attempt-Consistent = record {
    jobs_keyed = c.jobs_keyed;
    attempts_keyed = append-IsKeyed AttemptRow.attempt_id db.attempts new fresh c.attempts_keyed;
    checked = c.checked;
    roomy = c.roomy;
    shaped = λ k a e. elim (find-append_cases AttemptRow.attempt_id k db.attempts new a e) [
      | inl before ↦ c.shaped k a before
      | inr (_, same) ↦ rw same checks
    ];
    owned = λ k a e. elim (find-append_cases AttemptRow.attempt_id k db.attempts new a e) [
      | inl before ↦ c.owned k a before
      | inr (_, same) ↦ rw same fits
    ];
    numbered = λ k l a b ea eb job number.
        elim (find-append_cases AttemptRow.attempt_id k db.attempts new a ea) [
          | inl old_a ↦ elim (find-append_cases AttemptRow.attempt_id l db.attempts new b eb) [
            | inl old_b ↦ c.numbered k l a b old_a old_b job number
            | inr (_, same_b) ↦ absurd (
                other_number k a old_a (job ∙ ap AttemptRow.job_id same_b)
                  (number ∙ ap AttemptRow.attempt same_b))
          ]
          | inr (at_k, same_a) ↦
              elim (find-append_cases AttemptRow.attempt_id l db.attempts new b eb) [
                | inl old_b ↦ absurd (
                    other_number l b old_b (sym job ∙ ap AttemptRow.job_id same_a)
                      (sym number ∙ ap AttemptRow.attempt same_a))
                | inr (at_l, _) ↦ sym at_k ∙ at_l
              ]
        ];
    keys = c.keys;
    messages = c.messages;
    capped = c.capped;
    job_keys = c.job_keys;
  }

number_absent :
    (k n : ℕ) (rows : List AttemptRow)
    → All (λ (a : AttemptRow). a.job_id ≡ k → a.attempt < n) rows
    → has_number k n rows ≡ false
unfolding has_number
number_absent k n [] h = refl
number_absent k n (a ∷ rows) h = ground (arith, h.0, number_absent k n rows h.1)

-- No attempt of a job has a number above its count.
pub next-absent :
    (db : Db) (c : Consistent db) (job : JobRow)
    → find_job job.job_id db.jobs ≡ some job
    → has_number job.job_id (job.attempt_count + 1) db.attempts ≡ false
next-absent db c job found =
    number_absent job.job_id (job.attempt_count + 1) db.attempts
      (All-map below db.attempts (IsKeyed-find AttemptRow.attempt_id db.attempts c.attempts_keyed))
  where
    below :
        (a : AttemptRow)
        → find_attempt a.attempt_id db.attempts ≡ some a
        → a.job_id ≡ job.job_id
        → a.attempt < job.attempt_count + 1
    below a at own =
        let h = c.owned a.attempt_id a at in
        let same : h.job ≡ job = cc (h.found, found, ap (λ i. find_job i db.jobs) own) in
        omega (arith, h.counted, ap JobRow.attempt_count same)
