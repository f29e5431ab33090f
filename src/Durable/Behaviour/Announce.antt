-- ===== src/Durable/Behaviour/Announce.antt =====
-- Jobs and attempts across a message (apps/api/app/async_runtime/repository.py).
use microlens_recsys_mvp.Prelude.{ℕ, ◌≡◌, ok, >>=-eq-ok, Result, ◌>>=◌, arith}
use microlens_recsys_mvp.Durable.Domain.{JobState}
use microlens_recsys_mvp.Durable.Rows.{JobRow, Db, insert_outbox}
use microlens_recsys_mvp.Durable.Repository.Common.{add_state_outbox}

pub announce_keeps :
    (job : JobRow) (st : JobState) (now : ℕ) (db db' : Db)
    → add_state_outbox job st now db ≡ ok db'
    → (db'.jobs ≡ db.jobs) × (db'.attempts ≡ db.attempts)
unfolding add_state_outbox insert_outbox
announce_keeps job st now db db' e = ground arith

-- The tables that a transaction commits after its message.
pub announced_result {ℓ} :
    {A : Type ℓ} (job : JobRow) (st : JobState) (now : ℕ) (db db' : Db) (y : A) (x : A)
    → ◌≡◌ {A = Result (A × Db)} (add_state_outbox job st now db >>= λ d. ok (y, d)) (ok (x, db'))
    → (x ≡ y) × (db'.jobs ≡ db.jobs) × (db'.attempts ≡ db.attempts)
announced_result job st now db db' y x e =
    let (d, sent, result) = >>=-eq-ok (add_state_outbox job st now db) (λ d. ok (y, d)) e in
    let (jobs, attempts) = announce_keeps job st now db d sent in
    (ground arith, ground arith, ground arith)
