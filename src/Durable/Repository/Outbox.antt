-- ===== src/Durable/Repository/Outbox.antt =====
-- `claim_outbox`, `ack_outbox` and `nack_outbox`: delivery of the messages.
use microlens_recsys_mvp.Prelude.{
  ℕ, zero, suc, ◌+◌, String, Bool, true, false, ◌&&◌, not, Option, none, some, List, [], ◌∷◌, map,
  ℤ, ◌==◌, leb, select, take, if◌then◌else◌, value_error, lookup_error, lease_lost, Result, ok, err,
  positive, nonnegative, require, guard, ◌>>=◌, ◌>>◌,
}
use microlens_recsys_mvp.Prelude.Sorting.{sort_by}
use microlens_recsys_mvp.Durable.Domain.{
  JobState, OutboxState, DateTime, pending, delivering, published, seconds, require_aware,
}
use microlens_recsys_mvp.Durable.Rows.{
  OutboxRow, OutboxPayload, Db, Held, find_outbox, write_outbox,
}
use microlens_recsys_mvp.Durable.Repository.Recover.{expired_at}

pub record OutboxClaim : Type 0 where
  pub outbox_id : ℕ
  pub topic : JobState
  pub payload : OutboxPayload
  pub delivery_token : ℕ
  pub delivery_attempt : ℕ
  pub lease_expires_at : ℕ

abbrev pub is_pending : OutboxState → Bool
is_pending pending = true
is_pending _ = false

abbrev pub is_delivering : OutboxState → Bool
is_delivering delivering = true
is_delivering _ = false

abbrev pub is_published : OutboxState → Bool
is_published published = true
is_published _ = false

-- A delivery whose lease is over goes back to PENDING.
abbrev pub release_expired : Held → ℕ → OutboxRow → OutboxRow
release_expired held now row =
    if (is_delivering row.status && expired_at row.lease_expires_at now)
      && not (held.outbox row.outbox_id)
    then record row { status = pending; delivery_token = none; lease_expires_at = none }
    else row

abbrev pub is_due : Held → ℕ → OutboxRow → Bool
is_due held now row =
    (is_pending row.status && leb row.available_at now) && not (held.outbox row.outbox_id)

unfoldable pub due_rows : Held → ℕ → ℕ → List OutboxRow → List OutboxRow
due_rows held now limit rows =
    take limit (sort_by (λ a b. leb a.outbox_id b.outbox_id) (select (is_due held now) rows))

abbrev pub deliver_row : OutboxRow → ℕ → ℕ → OutboxRow
deliver_row row token lease_end = record row {
  status = delivering;
  delivery_attempts = row.delivery_attempts + 1;
  delivery_token = some token;
  lease_expires_at = some lease_end;
}

abbrev pub outbox_claim : OutboxRow → ℕ → ℕ → OutboxClaim
outbox_claim row token lease_end = record {
  outbox_id = row.outbox_id;
  topic = row.topic;
  payload = row.payload;
  delivery_token = token;
  delivery_attempt = row.delivery_attempts + 1;
  lease_expires_at = lease_end;
}

-- `token i` is the number that the i-th call of `uuid.uuid4()` returns.
module _ (token : ℕ → ℕ) (lease_end : ℕ) where
  unfoldable pub deliver_each : ℕ → List OutboxRow → Db → List OutboxClaim × Db
  deliver_each i [] db = ([], db)
  deliver_each i (row ∷ rest) db =
      let (claims, db') =
        deliver_each (suc i) rest (write_outbox (deliver_row row (token i) lease_end) db) in
      (outbox_claim row (token i) lease_end ∷ claims, db')

abbrev pub outbox_bounds : ℤ → ℤ → Result (ℕ × ℕ)
outbox_bounds lease_seconds limit = do
  lease ← positive lease_seconds (value_error "invalid outbox lease or limit")
  n ← positive limit (value_error "invalid outbox lease or limit")
  guard (leb n 1000) (value_error "invalid outbox lease or limit")
  ok (lease, n)

unfoldable pub claim_outbox :
    (ℕ → ℕ) → Held → DateTime → ℤ → ℤ → Db → Result (List OutboxClaim × Db)
unfolding require_aware due_rows deliver_each
claim_outbox token held now lease_seconds limit db = do
  bounds ← outbox_bounds lease_seconds limit
  event_time ← require_aware now "now must be timezone-aware"
  let rows = map (release_expired held event_time) db.outbox
  let due = due_rows held event_time bounds.1 rows
  ok (deliver_each token (event_time + seconds bounds.0) zero due (record db { outbox = rows }))

-- The claim's token is the one under which the row is being delivered.
abbrev pub is_current : OutboxRow → OutboxClaim → Bool
is_current row claim = is_delivering row.status && has_token row.delivery_token
  where
    has_token : Option ℕ → Bool
    has_token none = false
    has_token (some t) = t == claim.delivery_token

abbrev pub published_row : OutboxRow → ℕ → OutboxRow
published_row row event_time = record row {
  status = published;
  published_at = some event_time;
  delivery_token = none;
  lease_expires_at = none;
  last_error = none;
}

unfoldable pub ack_row : OutboxRow → OutboxClaim → ℕ → Db → Result (Bool × Db)
ack_row row claim event_time db =
    if is_published row.status
    then ok (false, db)
    else if not (is_current row claim)
    then err (lease_lost "outbox delivery token is no longer current")
    else ok (true, write_outbox (published_row row event_time) db)

unfoldable pub ack_outbox : OutboxClaim → DateTime → Db → Result (Bool × Db)
unfolding require_aware ack_row
ack_outbox claim now db = do
  event_time ← require_aware now "now must be timezone-aware"
  row ←
      require (find_outbox claim.outbox_id db.outbox) (lookup_error "outbox message does not exist")
  ack_row row claim event_time db

abbrev pub retried_row : OutboxRow → String → ℕ → OutboxRow
retried_row row message available_at = record row {
  status = pending;
  available_at = available_at;
  delivery_token = none;
  lease_expires_at = none;
  last_error = some message;
}

unfoldable pub nack_row : OutboxRow → OutboxClaim → String → ℕ → Db → Result Db
nack_row row claim message available_at db =
    if not (is_current row claim)
    then err (lease_lost "outbox delivery token is no longer current")
    else ok (write_outbox (retried_row row message available_at) db)

-- `message` is the text that `safe_error` makes of the exception.
unfoldable pub nack_outbox : OutboxClaim → String → DateTime → ℤ → Db → Result Db
unfolding require_aware nack_row
nack_outbox claim message now retry_delay_seconds db = do
  delay ← nonnegative retry_delay_seconds (value_error "retry_delay_seconds must be nonnegative")
  event_time ← require_aware now "now must be timezone-aware"
  row ←
      require (find_outbox claim.outbox_id db.outbox) (lookup_error "outbox message does not exist")
  nack_row row claim message (event_time + seconds delay) db
