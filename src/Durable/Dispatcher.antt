-- ===== src/Durable/Dispatcher.antt =====
-- `OutboxHintDispatcher` (apps/api/app/async_runtime/service.py): each call of the repository is a
-- transaction of its own, so that the tables come back with an error too.
use microlens_recsys_mvp.Prelude.{
  ℕ, ◌+◌, String, Bool, true, false, is_some, if◌then◌else◌, ◌≡◌, refl, ap, subst, Option, none,
  some, List, [], ◌∷◌, ℤ, pos, length, value_error, Result, ok, err, positive, nonnegative, ◌>>=◌,
  arith,
}
use microlens_recsys_mvp.Durable.Domain.{JobState, DateTime, aware, require_aware}
use microlens_recsys_mvp.Durable.Rows.{Db, Held, OutboxPayload}
use microlens_recsys_mvp.Durable.Repository.Outbox.{
  OutboxClaim, claim_outbox, ack_outbox, nack_outbox,
}

pub record Dispatcher : Type 0 where
  pub lease_seconds : ℕ
  pub retry_delay_seconds : ℕ

pub record Counts : Type 0 where
  pub claimed : ℕ
  pub published : ℕ
  pub failed : ℕ

-- `OutboxHintDispatcher.__init__`
unfoldable pub dispatcher : (lease_seconds retry_delay_seconds : ℤ) → Result Dispatcher
dispatcher lease_seconds retry_delay_seconds = do
  lease ← positive lease_seconds (value_error "invalid outbox dispatcher timing")
  delay ← nonnegative retry_delay_seconds (value_error "invalid outbox dispatcher timing")
  ok (record { lease_seconds = lease; retry_delay_seconds = delay })

-- `sink` notifies: `some` is the text of the exception that it raises.
module _ (sink : JobState → OutboxPayload → Option String) (d : Dispatcher) (now : ℕ) where
  -- What follows a call of the repository, with the message counted.
  abbrev pub after_nack : (Db → Result (ℕ × ℕ) × Db) → Db → Result Db → Result (ℕ × ℕ) × Db
  after_nack next db (err e) = (err e, db)
  after_nack next db (ok db') = next db'

  abbrev pub after_ack : (Db → Result (ℕ × ℕ) × Db) → Db → Result (Bool × Db) → Result (ℕ × ℕ) × Db
  after_ack next db (err e) = (err e, db)
  after_ack next db (ok (_, db')) = next db'

  abbrev pub notified :
      (Db → Result (ℕ × ℕ) × Db)
      → (Db → Result (ℕ × ℕ) × Db)
      → OutboxClaim
      → Db
      → Option String
      → Result (ℕ × ℕ) × Db
  notified sent lost claim db (some message) =
      after_nack lost db (nack_outbox claim message (aware now) (pos d.retry_delay_seconds) db)
  notified sent lost claim db none = after_ack sent db (ack_outbox claim (aware now) db)

  unfoldable pub dispatch_each :
      List OutboxClaim → (published failed : ℕ) → Db → Result (ℕ × ℕ) × Db
  unfolding ack_outbox nack_outbox
  dispatch_each [] published failed db = (ok (published, failed), db)
  dispatch_each (claim ∷ claims) published failed db =
      notified (dispatch_each claims (published + 1) failed)
        (dispatch_each claims published (failed + 1)) claim db (sink claim.topic claim.payload)

  abbrev pub counted : ℕ → Result (ℕ × ℕ) → Result Counts
  counted claimed (err e) = err e
  counted claimed (ok (published, failed)) =
      ok (record { claimed = claimed; published = published; failed = failed })

  abbrev pub dispatch_claimed : Db → Result (List OutboxClaim × Db) → Result Counts × Db
  dispatch_claimed db (err e) = (err e, db)
  dispatch_claimed db (ok (claims, db')) =
      let (outcome, db'') = dispatch_each claims 0 0 db' in (counted (length claims) outcome, db'')

  unfoldable pub run_at : (token : ℕ → ℕ) → Held → ℤ → Db → Result Counts × Db
  unfolding claim_outbox dispatch_each
  run_at token held limit db =
      dispatch_claimed db (claim_outbox token held (aware now) (pos d.lease_seconds) limit db)

  -- The messages that the sink takes, and those that it refuses.
  abbrev pub taken : List OutboxClaim → ℕ
  taken [] = 0
  taken (claim ∷ claims) =
      let rest = taken claims in if is_some (sink claim.topic claim.payload) then rest else rest + 1

  abbrev pub refused : List OutboxClaim → ℕ
  refused [] = 0
  refused (claim ∷ claims) =
      let rest = refused claims in
      if is_some (sink claim.topic claim.payload) then rest + 1 else rest

  -- What holds after the continuation that is taken holds after the call.
  notified_lem :
      (T : Type 0) (sent lost : Db → Result (ℕ × ℕ) × Db) (end : Result (ℕ × ℕ) × Db) (pair : ℕ × ℕ)
      (db' : Db)
      → end ≡ (ok pair, db')
      → (claim : OutboxClaim) (db : Db) (o : Option String)
      → ((db : Db) → is_some o ≡ false → sent db ≡ end → T)
      → ((db : Db) → is_some o ≡ true → lost db ≡ end → T)
      → notified sent lost claim db o ≡ end
      → T
  notified_lem T sent lost end pair db' returned claim db (some message) on_sent on_lost q =
      go (nack_outbox claim message (aware now) (pos d.retry_delay_seconds) db) q
    where
      go : (r : Result Db) → after_nack lost db r ≡ end → T
      go (err e) h = absurd (cc (h, returned))
      go (ok db1) h = on_lost db1 refl h
  notified_lem T sent lost end pair db' returned claim db none on_sent on_lost q =
      go (ack_outbox claim (aware now) db) q
    where
      go : (r : Result (Bool × Db)) → after_ack sent db r ≡ end → T
      go (err e) h = absurd (cc (h, returned))
      go (ok (b, db1)) h = on_sent db1 refl h

  dispatch_each-counts :
      (claims : List OutboxClaim) (published failed : ℕ) (db db' : Db) (p f : ℕ)
      → dispatch_each claims published failed db ≡ (ok (p, f), db')
      → (p ≡ published + taken claims) × (f ≡ failed + refused claims)
  unfolding dispatch_each
  dispatch_each-counts [] published failed db db' p f e = (ground arith, ground arith)
  dispatch_each-counts (claim ∷ claims) published failed db db' p f e =
      notified_lem
        ((p ≡ published + taken (claim ∷ claims)) × (f ≡ failed + refused (claim ∷ claims)))
        (dispatch_each claims (published + 1) failed) (dispatch_each claims published (failed + 1))
        (ok (p, f), db') (p, f) db' refl claim db (sink claim.topic claim.payload)
        (λ db1 quiet h.
          let (ps, fs) = dispatch_each-counts claims (published + 1) failed db1 db' p f h in
          rw quiet (omega arith, omega arith))
        (λ db1 raised h.
          let (ps, fs) = dispatch_each-counts claims published (failed + 1) db1 db' p f h in
          rw raised (omega arith, omega arith))
        e

  abbrev pub Counted : List OutboxClaim → Counts → Type 0
  Counted claims c =
      (c.claimed ≡ length claims) × (c.published ≡ taken claims) × (c.failed ≡ refused claims)

  run_at-counts :
      (token : ℕ → ℕ) (held : Held) (limit : ℤ) (db db' : Db) (c : Counts)
      → run_at token held limit db ≡ (ok c, db')
      → (claims : List OutboxClaim) × (opened : Db) × (claim_outbox token held
            (aware now)
            (pos d.lease_seconds)
            limit
            db
          ≡ ok (claims, opened))
        × Counted claims c
  unfolding run_at
  run_at-counts token held limit db db' c e =
      go (claim_outbox token held (aware now) (pos d.lease_seconds) limit db) refl e
    where
      of_counts :
          (claims : List OutboxClaim) (db1 : Db) (outcome : Result (ℕ × ℕ)) (db2 : Db)
          → dispatch_each claims 0 0 db1 ≡ (outcome, db2)
          → counted (length claims) outcome ≡ ok c
          → Counted claims c
      of_counts claims db1 (err f) db2 ran q = absurd (cc q)
      of_counts claims db1 (ok (p, f)) db2 ran q =
          let (ps, fs) = dispatch_each-counts claims 0 0 db1 db2 p f ran in
          let same : record { claimed = length claims; published = p; failed = f } ≡ c = cc in
          subst (Counted claims) same (refl, omega arith, omega arith)

      go :
          (r : Result (List OutboxClaim × Db))
          → claim_outbox token held (aware now) (pos d.lease_seconds) limit db ≡ r
          → dispatch_claimed db r ≡ (ok c, db')
          → (claims : List OutboxClaim) × (opened : Db) × (claim_outbox token held
                (aware now)
                (pos d.lease_seconds)
                limit
                db
              ≡ ok (claims, opened))
            × Counted claims c
      go (err f) h q = absurd (cc q)
      go (ok (claims, db1)) h q =
          let outcome = dispatch_each claims 0 0 db1 in
          (claims, db1, h, of_counts claims db1 outcome.0 outcome.1 refl (ap (λ x. x.0) q))

module _ (sink : JobState → OutboxPayload → Option String) (d : Dispatcher) where
  abbrev pub run_from : (token : ℕ → ℕ) → Held → ℤ → Db → Result ℕ → Result Counts × Db
  run_from token held limit db (err e) = (err e, db)
  run_from token held limit db (ok now) = run_at sink d now token held limit db

  unfoldable pub run_once :
      (token : ℕ → ℕ) → Held → (now : DateTime) → (limit : ℤ) → Db → Result Counts × Db
  unfolding require_aware run_at
  run_once token held now limit db =
      run_from token held limit db (require_aware now "now must be timezone-aware")

  -- Where a run of the dispatcher returns its counts, it has claimed messages from the outbox, and
  -- has counted those claimed, as published those that the sink takes, and as failed those that it
  -- refuses with an exception.
  pub run_once-counts :
      (token : ℕ → ℕ) (held : Held) (now : ℕ) (limit : ℤ) (db db' : Db) (c : Counts)
      → run_once token held (aware now) limit db ≡ (ok c, db')
      → (claims : List OutboxClaim) × (opened : Db) × (claim_outbox token held
            (aware now)
            (pos d.lease_seconds)
            limit
            db
          ≡ ok (claims, opened))
        × (c.claimed ≡ length claims)
        × (c.published ≡ taken sink d now claims)
        × (c.failed ≡ refused sink d now claims)
  unfolding run_once require_aware
  run_once-counts token held now limit db db' c e =
      let (claims, opened, run, counts) = run_at-counts sink d now token held limit db db' c e in
      (claims, opened, run, counts.0, counts.1, counts.2)
