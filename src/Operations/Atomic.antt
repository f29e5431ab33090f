-- ===== src/Operations/Atomic.antt =====
-- The items after `create_batch` (apps/api/app/operations/service.py).
use microlens_recsys_mvp.Prelude.{
  ℕ, String, Bool, true, false, ◌≡◌, sym, ap, subst, Option, none, some, List, [], ◌∷◌, ◌++◌,
  length, ltb, if◌then◌else◌, Error, Result, ok, err, >>=-eq-ok, arith,
}
use microlens_recsys_mvp.Prelude.Table.{IsKeyed}
use microlens_recsys_mvp.Operations.Rows.{
  Role, Item, OperationBatch, OperationsDb, find_item, find_batch, write_batch,
}
use microlens_recsys_mvp.Operations.Request.{OperationBatchRequest, num_mem}
use microlens_recsys_mvp.Operations.Apply.{
  lock_items, preflight, require_items, check_scope, applied_batch, apply_items, apply,
}
use microlens_recsys_mvp.Operations.Batches.{
  OperationBatchResponse, batch_response, operator_role, record_failed_batch, new_batch,
  prepared_batch, attempt, settle, create_with, create_or_existing, create_batch,
}
use microlens_recsys_mvp.Operations.Effects.{operated, changed_item-operated, apply_locked}

pub then-part :
    {A : Type 0} {b : Bool} {x z : A} (y : A) → b ≡ true → (if b then x else y) ≡ z → x ≡ z
then-part y e h = ground arith

pub else-part :
    {A : Type 0} {b : Bool} {y z : A} (x : A) → b ≡ false → (if b then x else y) ≡ z → y ≡ z
else-part x e h = ground arith

pub ok-snd :
    {A B : Type 0} {a c : A} {b d : B} → ◌≡◌ {A = Result (A × B)} (ok (a, b)) (ok (c, d)) → b ≡ d
ok-snd h = cc

pub ok-fst :
    {A B : Type 0} {a c : A} {b d : B} → ◌≡◌ {A = Result (A × B)} (ok (a, b)) (ok (c, d)) → a ≡ c
ok-fst h = cc

module _ (missing_text : List ℕ → String) (parse_uuid : String → Option ℕ) where
  -- The preflight returns the items that it locked.
  preflight-items :
      (request : OperationBatchRequest) (db : OperationsDb) (items : List Item)
      → preflight missing_text parse_uuid request db ≡ ok items
      → lock_items request.targets db.items ≡ items
  unfolding preflight
  preflight-items request db items h =
      let (_, _, h1) =
        >>=-eq-ok (require_items missing_text request.targets (lock_items request.targets db.items))
          _ h in
      let (_, _, h2) = >>=-eq-ok (check_scope parse_uuid request request.scope_type db) _ h1 in cc

module _ (draw : ℕ → ℕ) (before_each : ℕ → Option String) where
  pub apply-ok :
      (batch : OperationBatch) (now : ℕ) (items : List Item) (db : OperationsDb)
      (done : OperationBatch) (db' : OperationsDb)
      → apply draw before_each batch now items db ≡ ok (done, db')
      → (db1 : OperationsDb) × (apply_items draw before_each batch now items db ≡ ok db1)
        × (applied_batch batch now (length items) ≡ done)
        × (write_batch (applied_batch batch now (length items)) db1 ≡ db')
  unfolding apply
  apply-ok batch now items db done db' h =
      let (db1, e, rest) = >>=-eq-ok (apply_items draw before_each batch now items db) _ h in
      (db1, e, ok-fst rest, ok-snd rest)

module _ (fingerprint : OperationBatchRequest → String) (missing_text : List ℕ → String)
    (parse_uuid : String → Option ℕ) (draw : ℕ → ℕ) (before_each : ℕ → Option String) where
  settle-atomic :
      (request : OperationBatchRequest) (batch : OperationBatch) (operator_id : ℕ) (role : Role)
      (hash : String) (now : ℕ) (db : OperationsDb) (r : Result (OperationBatch × OperationsDb))
      (e : Error) (db' : OperationsDb)
      → settle fingerprint missing_text parse_uuid draw before_each request batch operator_id role
          hash now db r
        ≡ (err e, db')
      → (db'.items ≡ db.items) × (db'.promotions ≡ db.promotions)
  unfolding record_failed_batch
  settle-atomic request batch operator_id role hash now db (ok x) e db' h = ground arith
  settle-atomic request batch operator_id role hash now db (err f) e db' h =
      (ap (λ p. p.1.items) (sym h), ap (λ p. p.1.promotions) (sym h))

  create_with-atomic :
      (request : OperationBatchRequest) (operator_id now : ℕ) (db : OperationsDb)
      (role : Result Role) (e : Error) (db' : OperationsDb)
      → create_with fingerprint missing_text parse_uuid draw before_each request operator_id now db
          role
        ≡ (err e, db')
      → (db'.items ≡ db.items) × (db'.promotions ≡ db.promotions)
  create_with-atomic request operator_id now db (err f) e db' h =
      (ap (λ p. p.1.items) (sym h), ap (λ p. p.1.promotions) (sym h))
  create_with-atomic request operator_id now db (ok role) e db' h =
      settle-atomic request _ operator_id role _ now _ _ e db' h

  -- Where the creation of a batch ends in an error, whichever it is (an id already used with other
  -- content, a batch that failed before, an operator without the role, a failure of the preflight,
  -- an exception between two items), no item and no promotion rule has changed.
  pub create_batch-atomic :
      (request : OperationBatchRequest) (operator_id now : ℕ) (db : OperationsDb) (e : Error)
      (db' : OperationsDb)
      → create_batch fingerprint missing_text parse_uuid draw before_each request operator_id now db
        ≡ (err e, db')
      → (db'.items ≡ db.items) × (db'.promotions ≡ db.promotions)
  unfolding create_batch
  create_batch-atomic request operator_id now db e db' h =
      go (find_batch request.batch_id db.batches) h
    where
      go :
          (found : Option OperationBatch)
          → create_or_existing fingerprint missing_text parse_uuid draw before_each request
              operator_id now db found
            ≡ (err e, db')
          → (db'.items ≡ db.items) × (db'.promotions ≡ db.promotions)
      go none q =
          create_with-atomic request operator_id now db (operator_role operator_id db) e db' q
      go (some existing) q = (ap (λ p. p.1.items) (sym q), ap (λ p. p.1.promotions) (sym q))

  settle-ok :
      (request : OperationBatchRequest) (batch : OperationBatch) (operator_id : ℕ) (role : Role)
      (hash : String) (now : ℕ) (db : OperationsDb) (r : Result (OperationBatch × OperationsDb))
      (x : OperationBatchResponse) (db' : OperationsDb)
      → settle fingerprint missing_text parse_uuid draw before_each request batch operator_id role
          hash now db r
        ≡ (ok x, db')
      → (done : OperationBatch) × (r ≡ ok (done, db')) × (batch_response done ≡ x)
  settle-ok request batch operator_id role hash now db (ok (done, db1)) x db' h =
      (done, ap (λ d. ok (done, d)) (ap (λ p. p.1) h), ok-injective (ap (λ p. p.0) h))
    where
      ok-injective : {a b : OperationBatchResponse} → ok a ≡ ok b → a ≡ b
      ok-injective q = cc
  settle-ok request batch operator_id role hash now db (err f) x db' h = ground arith

  -- The savepoint of a successful creation.
  pub created :
      (request : OperationBatchRequest) (operator_id now : ℕ) (db : OperationsDb)
      (x : OperationBatchResponse) (db' : OperationsDb)
      → find_batch request.batch_id db.batches ≡ none
      → create_batch fingerprint missing_text parse_uuid draw before_each request operator_id now db
        ≡ (ok x, db')
      → (role : Role) × (done : OperationBatch) × (attempt fingerprint missing_text parse_uuid draw
            before_each request
            (new_batch request operator_id role (fingerprint request) now)
            (fingerprint request)
            now
            (record db {
              batches =
                  db.batches ++ new_batch request operator_id role (fingerprint request) now ∷ [];
            })
          ≡ ok (done, db'))
        × (batch_response done ≡ x)
  unfolding create_batch
  created request operator_id now db x db' absent h = go (operator_role operator_id db) (
      subst
        (λ o.
          create_or_existing fingerprint missing_text parse_uuid draw before_each request
            operator_id now db o
          ≡ (ok x, db'))
        absent h)
    where
      go :
          (role : Result Role)
          → create_with fingerprint missing_text parse_uuid draw before_each request operator_id now
              db role
            ≡ (ok x, db')
          → (role : Role) × (done : OperationBatch) × (attempt fingerprint missing_text parse_uuid
                draw before_each request
                (new_batch request operator_id role (fingerprint request) now)
                (fingerprint request)
                now
                (record db {
                  batches =
                      db.batches
                      ++ new_batch request operator_id role (fingerprint request) now ∷ [];
                })
              ≡ ok (done, db'))
            × (batch_response done ≡ x)
      go (err f) q = ground arith
      go (ok role) q =
          let (done, e, same) =
            settle-ok request (new_batch request operator_id role (fingerprint request) now)
              operator_id role (fingerprint request) now
              (record db {
                batches =
                    db.batches ++ new_batch request operator_id role (fingerprint request) now ∷ [];
              })
              _ x db' q in
          (role, done, e, same)

  module _ (request : OperationBatchRequest) (operator_id now : ℕ) (db : OperationsDb)
      (x : OperationBatchResponse) (db' : OperationsDb)
      (absent : find_batch request.batch_id db.batches ≡ none)
      (h : create_batch fingerprint missing_text parse_uuid draw before_each request operator_id now
          db
        ≡ (ok x, db')) where
    -- A batch with a new id that is created before its start leaves every item as it is.
    pub create_batch-later : ltb now request.starts_at_utc ≡ true → db'.items ≡ db.items
    unfolding attempt
    create_batch-later later =
        let (role, done, e, _) = created request operator_id now db x db' absent h in
        let (items, _, rest) = >>=-eq-ok (preflight missing_text parse_uuid request _) _ e in
        ap OperationsDb.items (sym (ok-snd (then-part _ later rest)))

    -- A batch with a new id that is created at its start or later, over items with distinct ids,
    -- changes each item that is a target once: offline and restore set its state and count its
    -- version up by one, promote leaves both, and each sets its time. Every other item stays as it
    -- is.
    pub create_batch-changes :
        IsKeyed Item.item_id db.items
        → ltb now request.starts_at_utc ≡ false
        → (k : ℕ) (i : Item) → find_item k db.items ≡ some i
        → find_item k db'.items
          ≡ some (if num_mem k request.targets then operated request.operation_type now i else i)
    unfolding attempt apply
    create_batch-changes keyed started k i at =
        let (role, done, e, _) = created request operator_id now db x db' absent h in
        let (items, pre, rest) = >>=-eq-ok (preflight missing_text parse_uuid request _) _ e in
        let ready =
          prepared_batch (new_batch request operator_id role (fingerprint request) now)
            (fingerprint request) items in
        let db1 = record db {
          batches = db.batches ++ new_batch request operator_id role (fingerprint request) now ∷ [];
        } in
        let (db2, looped, _, same) =
          apply-ok draw before_each ready now items (write_batch ready db1) done db'
            (else-part _ started rest) in
        subst
          (λ (d : OperationsDb).
            find_item k d.items
            ≡ some (if num_mem k request.targets then operated request.operation_type now i else i))
          same
          (subst
            (λ (j : Item).
              find_item k db2.items ≡ some (if num_mem k request.targets then j else i))
            (changed_item-operated request.operation_type now i)
            (apply_locked draw before_each ready now request.targets (write_batch ready db1) db2
              keyed
              (subst
                (λ l. apply_items draw before_each ready now l (write_batch ready db1) ≡ ok db2)
                (sym (preflight-items missing_text parse_uuid request db1 items pre)) looped)
              k i at))
