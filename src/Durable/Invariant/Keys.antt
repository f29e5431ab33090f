-- ===== src/Durable/Invariant/Keys.antt =====
-- The messages of the outbox against the jobs that they announce.
use microlens_recsys_mvp.Prelude.{
  ℕ, true, false, ◌≡◌, inl, inr, sym, ap, ◌∙◌, subst, ◌++◌, refl, none, some, List, [], ◌∷◌, ◌==◌,
  ==→eq, Bool-cases, All, All-map, arith,
}
use mathlib.Core.Path.{subst₂}
use microlens_recsys_mvp.Prelude.Table.{
  replace, find-replace_self, find-replace_ne, find-append_some,
}
use microlens_recsys_mvp.Durable.Domain.{JobState, queued, running, succeeded, failed, cancelled}
use microlens_recsys_mvp.Durable.Rows.{
  JobRow, OutboxKey, OutboxRow, find_job, has_key, key_eq, state_number, is_running,
}
use microlens_recsys_mvp.Durable.Invariant.{KeyOk, announced}

abbrev pub KeysOk : List JobRow → List OutboxRow → Type 0
KeysOk jobs rows = All (λ (o : OutboxRow). KeyOk jobs o.idempotency_key) rows

same_state : (s t : JobState) → (state_number s == state_number t) ≡ true → s ≡ t
same_state queued t e = ground arith
same_state running t e = ground arith
same_state succeeded t e = ground arith
same_state failed t e = ground arith
same_state cancelled t e = ground arith

pub key_eq_refl : (k : OutboxKey) → key_eq k k ≡ true
key_eq_refl k = ground arith

pub key_eq→eq :
    (a b : OutboxKey)
    → key_eq a b ≡ true
    → (a.job_id ≡ b.job_id) × (a.state ≡ b.state) × (a.count ≡ b.count)
key_eq→eq a b e =
    (==→eq _ _ (ground arith), same_state _ _ (ground arith), ==→eq _ _ (ground arith))

clash :
    (jobs : List JobRow) (a k : OutboxKey) (j : JobRow)
    → find_job k.job_id jobs ≡ some j
    → announced j.status j.attempt_count k.state k.count ≡ false
    → KeyOk jobs a
    → key_eq a k ≡ true
    → ⊥
clash jobs a k j found refused h e =
    let (same_job, same_s, same_n) = key_eq→eq a k e in
    let same : some h.job ≡ some j = sym h.found ∙ ap (λ i. find_job i jobs) same_job ∙ found in
    let fits : announced h.job.status h.job.attempt_count k.state k.count ≡ true =
      subst₂ (λ s n. announced h.job.status h.job.attempt_count s n ≡ true) same_s same_n h.fits in
    cc (fits, refused, same)

-- A key that its job's status and attempts do not allow is not in the outbox.
pub refused-absent :
    (jobs : List JobRow) (rows : List OutboxRow) (k : OutboxKey) (j : JobRow)
    → find_job k.job_id jobs ≡ some j
    → announced j.status j.attempt_count k.state k.count ≡ false
    → KeysOk jobs rows
    → has_key k rows ≡ false
unfolding has_key
refused-absent jobs [] k j found refused h = refl
refused-absent jobs (o ∷ rows) k j found refused h =
    elim (Bool-cases (key_eq o.idempotency_key k)) [
      | inl e ↦ absurd (clash jobs o.idempotency_key k j found refused h.0 e)
      | inr e ↦ rw e (refused-absent jobs rows k j found refused h.1)
    ]

-- A job that is not in the table has no messages.
pub unknown-absent :
    (jobs : List JobRow) (rows : List OutboxRow) (k : OutboxKey)
    → find_job k.job_id jobs ≡ none
    → KeysOk jobs rows
    → has_key k rows ≡ false
unfolding has_key
unknown-absent jobs [] k absent h = refl
unknown-absent jobs (o ∷ rows) k absent h = elim (Bool-cases (key_eq o.idempotency_key k)) [
  | inl e ↦
      absurd
        (cc (h.0.found, absent, ap (λ i. find_job i jobs) ((key_eq→eq o.idempotency_key k e).0)))
  | inr e ↦ rw e (unknown-absent jobs rows k absent h.1)
]

-- Writing a job keeps the messages in order, if its new status allows what the old one did.
module _ (jobs : List JobRow) (old new : JobRow) (found : find_job old.job_id jobs ≡ some old)
    (same_id : new.job_id ≡ old.job_id)
    (grows : (s : JobState) (n : ℕ)
      → announced old.status old.attempt_count s n ≡ true
      → announced new.status new.attempt_count s n ≡ true) where
  replace-KeyOk : (k : OutboxKey) → KeyOk jobs k → KeyOk (replace JobRow.job_id new jobs) k
  replace-KeyOk k h = elim (Bool-cases (new.job_id == k.job_id)) [
    | inl e ↦
        let at_k : find_job k.job_id jobs ≡ some old =
          ap (λ i. find_job i jobs) (sym (==→eq _ _ e) ∙ same_id) ∙ found in
        let same : h.job ≡ old = cc (h.found, at_k) in
        record {
          job = new;
          found = find-replace_self JobRow.job_id k.job_id new old jobs at_k (==→eq _ _ e);
          fits = grows k.state k.count (
              subst (λ (j : JobRow). announced j.status j.attempt_count k.state k.count ≡ true) same
                h.fits);
        }
    | inr e ↦ record {
      job = h.job;
      found = find-replace_ne JobRow.job_id k.job_id new jobs (λ q. ground arith) ∙ h.found;
      fits = h.fits;
    }
  ]

  pub replace-KeysOk :
      (rows : List OutboxRow) → KeysOk jobs rows → KeysOk (replace JobRow.job_id new jobs) rows
  replace-KeysOk rows h = All-map (λ o. replace-KeyOk o.idempotency_key) rows h

-- Adding a job keeps the messages in order.
pub append-KeysOk :
    (jobs : List JobRow) (new : JobRow) (rows : List OutboxRow)
    → KeysOk jobs rows
    → KeysOk (jobs ++ new ∷ []) rows
append-KeysOk jobs new rows h =
    All-map
      (λ o k. record {
        job = k.job;
        found = find-append_some JobRow.job_id o.idempotency_key.job_id jobs new k.job k.found;
        fits = k.fits;
      })
      rows h

-- What a running job had been announced as, it may have been announced as in any later status.
pub announced_after :
    (old new : JobState) (c c' : ℕ) (s : JobState) (n : ℕ)
    → is_running old ≡ true
    → c' ≡ c
    → announced old c s n ≡ true
    → announced new c' s n ≡ true
announced_after queued new c c' s n run e h = cc
announced_after succeeded new c c' s n run e h = cc
announced_after failed new c c' s n run e h = cc
announced_after cancelled new c c' s n run e h = cc
announced_after running queued c c' s n run e h = ground arith
announced_after running running c c' s n run e h = ground arith
announced_after running succeeded c c' s n run e h = ground arith
announced_after running failed c c' s n run e h = ground arith
announced_after running cancelled c c' s n run e h = ground arith

-- A running job has not been announced at its last attempt.
pub unannounced_running :
    (st : JobState) (c : ℕ) (s : JobState) → is_running st ≡ true → announced st c s c ≡ false
unannounced_running queued c s run = cc
unannounced_running running c s run = ground arith
unannounced_running succeeded c s run = cc
unannounced_running failed c s run = cc
unannounced_running cancelled c s run = cc
