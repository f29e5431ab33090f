-- ===== src/Durable/Safety/Outbox.antt =====
-- The tables after `claim_outbox`, `ack_outbox` and `nack_outbox` (apps/api/app/async_runtime/repository.py).
use microlens_recsys_mvp.Prelude.{
  ℕ, zero, suc, ◌+◌, String, Bool, true, false, not, ◌&&◌, is_some, ◌≡◌, refl, sym, ap, ◌∙◌, subst,
  inl, inr, Bool-cases, some, All, All-both, ℤ, pos, negsuc, List, [], ◌∷◌, map, All-map,
  All-select, All-take, select, leb, ok, require, lookup_error, arith,
}
use microlens_recsys_mvp.Prelude.Table.{IsKeyed-find, key-find, replace-All, find-All}
use microlens_recsys_mvp.Prelude.Sorting.{All-sort_by}
use microlens_recsys_mvp.Durable.Domain.{
  OutboxState, pending, delivering, published, DateTime, seconds,
}
use microlens_recsys_mvp.Durable.Repository.Recover.{expired_at}
use microlens_recsys_mvp.Durable.Rows.{JobRow, OutboxRow, Db, Held, find_outbox, write_outbox}
use microlens_recsys_mvp.Durable.Repository.Outbox.{
  OutboxClaim, release_expired, is_due, due_rows, deliver_row, deliver_each, outbox_bounds,
  claim_outbox, is_pending, is_delivering, is_published, is_current, ack_outbox, nack_outbox,
}
use microlens_recsys_mvp.Durable.Invariant.{
  shape_of, delivery_shape, OutboxOk, KeyOk, Consistent, Safe, SafeDb,
}
use microlens_recsys_mvp.Durable.Invariant.Messages.{
  IsKnown, map-OutboxOk, replace-IsKnown, replace-OutboxOk,
}
use microlens_recsys_mvp.Durable.Invariant.Keys.{KeysOk}
use microlens_recsys_mvp.Durable.Invariant.Finish.{ok-SafeDb}
use microlens_recsys_mvp.Durable.Invariant.Steps.{
  ok-Safe, lost-Safe, lost-SafeDb, step-SafeDb, bind-Safe, if-Safe, if-SafeDb, IsPlain,
  require_aware-IsPlain, require-IsPlain, nonnegative-IsPlain,
}

-- Only the messages change, and they stay in order.
with_outbox-Consistent :
    (db : Db) (rows : List OutboxRow)
    → Consistent db
    → KeysOk db.jobs rows
    → OutboxOk rows db.last_outbox_id
    → Consistent (record db { outbox = rows })
with_outbox-Consistent db rows c h m = record {
  jobs_keyed = c.jobs_keyed;
  attempts_keyed = c.attempts_keyed;
  checked = c.checked;
  roomy = c.roomy;
  shaped = c.shaped;
  owned = c.owned;
  numbered = c.numbered;
  keys = h;
  messages = m;
  capped = c.capped;
  job_keys = c.job_keys;
}

-- A message that is being delivered has not been published.
delivering_open :
    (o : OutboxRow)
    → is_delivering o.status ≡ true
    → delivery_shape o ≡ true
    → is_some o.published_at ≡ false
delivering_open o delivers h = go o.status delivers h
  where
    go :
        (s : OutboxState)
        → is_delivering s ≡ true
        → shape_of s
            (is_some o.delivery_token)
            (is_some o.lease_expires_at)
            (is_some o.published_at)
          ≡ true
        → is_some o.published_at ≡ false
    go pending d h = absurd (cc)
    go delivering d h = ground arith
    go published d h = absurd (cc)

pending_open :
    (o : OutboxRow)
    → is_pending o.status ≡ true
    → delivery_shape o ≡ true
    → is_some o.published_at ≡ false
pending_open o waits h = go o.status waits h
  where
    go :
        (s : OutboxState)
        → is_pending s ≡ true
        → shape_of s
            (is_some o.delivery_token)
            (is_some o.lease_expires_at)
            (is_some o.published_at)
          ≡ true
        → is_some o.published_at ≡ false
    go pending d h = ground arith
    go delivering d h = absurd (cc)
    go published d h = absurd (cc)

-- What a message needs to be handed out.
record IsReady (jobs : List JobRow) (rows : List OutboxRow) (o : OutboxRow) : Type 0 where
  key : KeyOk jobs o.idempotency_key
  known : IsKnown rows o
  not_done : is_some o.published_at ≡ false

module _ (held : Held) (now : ℕ) where
  release-key : (o : OutboxRow) → (release_expired held now o).idempotency_key ≡ o.idempotency_key
  release-key o = ground arith

  release-id : (o : OutboxRow) → (release_expired held now o).outbox_id ≡ o.outbox_id
  release-id o = ground arith

  release-shape :
      (o : OutboxRow) → delivery_shape o ≡ true → delivery_shape (release_expired held now o) ≡ true
  release-shape o h = elim (Bool-cases test) [
    | inl over ↦ let open_ = delivering_open o (ground arith) h in rw (over, open_) refl
    | inr stays ↦ rw stays h
  ]
    where
      test : Bool
      test =
          (is_delivering o.status && expired_at o.lease_expires_at now)
          && not (held.outbox o.outbox_id)

  release-KeysOk :
      (jobs : List JobRow) (rows : List OutboxRow)
      → KeysOk jobs rows
      → KeysOk jobs (map (release_expired held now) rows)
  release-KeysOk jobs [] h = tt
  release-KeysOk jobs (o ∷ rows) h =
      (subst (KeyOk jobs) (sym (release-key o)) h.0, release-KeysOk jobs rows h.1)

  due-IsReady :
      (jobs : List JobRow) (limit last : ℕ) (rows : List OutboxRow)
      → KeysOk jobs rows
      → OutboxOk rows last
      → All (IsReady jobs rows) (due_rows held now limit rows)
  unfolding due_rows
  due-IsReady jobs limit last rows h m = All-take _ limit _ (
      All-sort_by (λ a b. leb a.outbox_id b.outbox_id) _ _
        (All-map
          (λ o k. record {
            key = (k.0).0;
            known = record { row = o; found = (k.0).1; same_key = refl };
            not_done = pending_open o (ground arith) (k.0).2;
          })
          (select (is_due held now) rows)
          (All-select
            (λ (o : OutboxRow).
              KeyOk jobs o.idempotency_key
              × (find_outbox o.outbox_id rows ≡ some o)
              × (delivery_shape o ≡ true))
            (is_due held now) rows
            (All-both (λ (o : OutboxRow). KeyOk jobs o.idempotency_key)
              (λ (o : OutboxRow).
                (find_outbox o.outbox_id rows ≡ some o) × (delivery_shape o ≡ true))
              _ (λ o k s. (k, s.0, s.1)) rows h
              (All-both (λ (o : OutboxRow). find_outbox o.outbox_id rows ≡ some o)
                (λ o. delivery_shape o ≡ true) _ (λ o f s. (f, s)) rows
                (IsKeyed-find OutboxRow.outbox_id rows m.ids) m.shapes)))))

module _ (token : ℕ → ℕ) (lease_end : ℕ) where
  deliver_each-Consistent :
      (i : ℕ) (due : List OutboxRow) (db : Db)
      → Consistent db
      → All (IsReady db.jobs db.outbox) due
      → Consistent (deliver_each token lease_end i due db).1
  unfolding deliver_each
  deliver_each-Consistent i [] db c h = c
  deliver_each-Consistent i (row ∷ rest) db c h =
      let new = deliver_row row (token i) lease_end in
      let known : IsKnown db.outbox new = record {
        row = ((h.0).known).row;
        found = ((h.0).known).found;
        same_key = ((h.0).known).same_key;
      } in
      deliver_each-Consistent (suc i) rest (write_outbox new db)
        (with_outbox-Consistent db _ c
          (replace-All OutboxRow.outbox_id (λ (o : OutboxRow). KeyOk db.jobs o.idempotency_key) new
            db.outbox (h.0).key c.keys)
          (replace-OutboxOk new db.outbox db.last_outbox_id c.messages known
            (rw ((h.0).not_done) refl)))
        (All-map
          (λ o r. record {
            key = r.key;
            known = replace-IsKnown new db.outbox o known r.known;
            not_done = r.not_done;
          })
          rest h.1)

outbox_bounds-IsPlain : (lease limit : ℤ) → IsPlain (outbox_bounds lease limit)
outbox_bounds-IsPlain (negsuc n) limit = record { plain = λ q. cc }
outbox_bounds-IsPlain (pos zero) limit = record { plain = λ q. cc }
outbox_bounds-IsPlain (pos (suc n)) (negsuc m) = record { plain = λ q. cc }
outbox_bounds-IsPlain (pos (suc n)) (pos zero) = record { plain = λ q. cc }
outbox_bounds-IsPlain (pos (suc n)) (pos (suc m)) = record { plain = λ q. ground arith }

module _ (db : Db) (c : Consistent db) where
  -- A claim of messages leaves the tables consistent.
  pub claim_outbox-Safe :
      (token : ℕ → ℕ) (held : Held) (now : DateTime) (lease_seconds limit : ℤ)
      → Safe (claim_outbox token held now lease_seconds limit db)
  unfolding claim_outbox
  claim_outbox-Safe token held now lease_seconds limit =
      bind-Safe _ _ (outbox_bounds-IsPlain lease_seconds limit) λ bounds _.
        bind-Safe _ _ (require_aware-IsPlain now _) λ t _.
          let rows = map (release_expired held t) db.outbox in
          let kept = release-KeysOk held t db.jobs db.outbox c.keys in
          let well =
            map-OutboxOk (release_expired held t) (release-id held t) (release-key held t)
              (release-shape held t) db.outbox db.last_outbox_id c.messages in
          ok-Safe (
            deliver_each-Consistent token (t + seconds bounds.0) zero
              (due_rows held t bounds.1 rows) (record db { outbox = rows })
              (with_outbox-Consistent db rows c kept well)
              (due-IsReady held t db.jobs bounds.1 db.last_outbox_id rows kept well))

  module _ (k : ℕ) (row : OutboxRow)
      (e : require (find_outbox k db.outbox) (lookup_error "outbox message does not exist")
        ≡ ok row) where
    row_found : find_outbox k db.outbox ≡ some row
    row_found = ground arith

    row_shape : delivery_shape row ≡ true
    row_shape =
        find-All OutboxRow.outbox_id (λ o. delivery_shape o ≡ true) k db.outbox row
          c.messages.shapes row_found

    write-Consistent :
        (new : OutboxRow)
        → new.outbox_id ≡ row.outbox_id
        → new.idempotency_key ≡ row.idempotency_key
        → delivery_shape new ≡ true
        → Consistent (write_outbox new db)
    write-Consistent new same_id same shape =
        with_outbox-Consistent db _ c
          (replace-All OutboxRow.outbox_id (λ (o : OutboxRow). KeyOk db.jobs o.idempotency_key) new
            db.outbox
            (subst (KeyOk db.jobs) (sym same) (
              find-All OutboxRow.outbox_id (λ (o : OutboxRow). KeyOk db.jobs o.idempotency_key) k
                db.outbox row c.keys row_found))
            c.keys)
          (replace-OutboxOk new db.outbox db.last_outbox_id c.messages
            (record {
              row = row;
              found =
                  ap (λ i. find_outbox i db.outbox)
                    (same_id ∙ key-find OutboxRow.outbox_id k db.outbox row row_found)
                  ∙ row_found;
              same_key = sym same;
            })
            shape)

  -- An acknowledgement leaves the tables consistent.
  pub ack_outbox-Safe : (claim : OutboxClaim) (now : DateTime) → Safe (ack_outbox claim now db)
  unfolding ack_outbox
  ack_outbox-Safe claim now = bind-Safe _ _ (require_aware-IsPlain now _) λ t _.
      bind-Safe _ _ (require-IsPlain (find_outbox claim.outbox_id db.outbox) _) λ row e.
        if-Safe (is_published row.status) _ _ (λ _. ok-Safe c)
          λ _.
            if-Safe (not (is_current row claim)) _ _ (λ _. lost-Safe _)
              λ _. ok-Safe (write-Consistent claim.outbox_id row e _ refl refl refl)

  -- A negative acknowledgement leaves the tables consistent.
  pub nack_outbox-SafeDb :
      (claim : OutboxClaim) (message : String) (now : DateTime) (delay : ℤ)
      → SafeDb (nack_outbox claim message now delay db)
  unfolding nack_outbox
  nack_outbox-SafeDb claim message now delay = step-SafeDb _ _ (nonnegative-IsPlain delay _) λ d _.
      step-SafeDb _ _ (require_aware-IsPlain now _) λ t _.
        step-SafeDb _ _ (require-IsPlain (find_outbox claim.outbox_id db.outbox) _) λ row e.
          if-SafeDb (not (is_current row claim)) _ _ (λ _. lost-SafeDb _)
            λ current.
              let open_ = delivering_open row (ground arith) (row_shape claim.outbox_id row e) in
              ok-SafeDb (write-Consistent claim.outbox_id row e _ refl refl (rw open_ refl))
