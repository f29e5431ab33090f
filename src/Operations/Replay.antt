-- ===== src/Operations/Replay.antt =====
-- A request for a batch that exists (apps/api/app/operations/service.py).
use microlens_recsys_mvp.Prelude.{
  ℕ, String, true, false, ◌≡◌, refl, sym, ap, ◌∙◌, subst, inl, inr, Option, none, some, List, [],
  ◌∷◌, ◌++◌, Bool-cases, ◌==◌, str_eq, eq_iff, ltb, length, ok, >>=-eq-ok, arith,
}
use microlens_recsys_mvp.Prelude.Table.{find-replace_self, find-append_self}
use microlens_recsys_mvp.Operations.Rows.{
  BatchResult, OperationBatch, OperationsDb, find_batch, write_batch,
}
use microlens_recsys_mvp.Operations.Request.{OperationBatchRequest}
use microlens_recsys_mvp.Operations.Apply.{preflight, applied_batch}
use microlens_recsys_mvp.Operations.Batches.{
  OperationBatchResponse, batch_response, existing_batch, existing_result, is_failed, same_request,
  new_batch, prepared_batch, attempt, create_or_existing, create_batch,
}
use microlens_recsys_mvp.Operations.Effects.{apply_items-batches}
use microlens_recsys_mvp.Operations.Atomic.{created, apply-ok, then-part, else-part, ok-fst, ok-snd}

==-refl : (n : ℕ) → (n == n) ≡ true
==-refl n = ground arith

str_eq_refl : (s : String) → str_eq s s ≡ true
str_eq_refl s = (eq_iff s s).1 refl

answers :
    (existing : OperationBatch) (operator_id : ℕ) (hash : String) (r : BatchResult)
    → existing.result ≡ some r
    → r.request_hash ≡ some hash
    → existing.operator_id ≡ operator_id
    → is_failed existing.status ≡ false
    → existing_batch existing operator_id hash ≡ ok (batch_response existing)
unfolding existing_batch
answers existing operator_id hash r has same_hash same_operator fine =
    ap (existing_result existing operator_id hash) has ∙ rw e1 (rw e2 (rw fine refl))
  where
    e1 : (existing.operator_id == operator_id) ≡ true
    e1 = ap (λ o. o == operator_id) same_operator ∙ ==-refl operator_id

    e2 : same_request r.request_hash hash ≡ true
    e2 = ap (λ o. same_request o hash) same_hash ∙ str_eq_refl hash

module _ (fingerprint : OperationBatchRequest → String) (missing_text : List ℕ → String)
    (parse_uuid : String → Option ℕ) (draw : ℕ → ℕ) (before_each : ℕ → Option String) where
  -- After a successful creation the row answers the request.
  pub stored :
      (request : OperationBatchRequest) (operator_id now : ℕ) (db : OperationsDb)
      (x : OperationBatchResponse) (db' : OperationsDb)
      → find_batch request.batch_id db.batches ≡ none
      → create_batch fingerprint missing_text parse_uuid draw before_each request operator_id now db
        ≡ (ok x, db')
      → (done : OperationBatch) × (find_batch request.batch_id db'.batches ≡ some done)
        × (existing_batch done operator_id (fingerprint request) ≡ ok x)
  unfolding attempt
  stored request operator_id now db x db' absent h =
      let (role, done, e, same) =
        created fingerprint missing_text parse_uuid draw before_each request operator_id now db x
          db' absent h in
      let (items, _, rest) = >>=-eq-ok (preflight missing_text parse_uuid request _) _ e in
      let batch = new_batch request operator_id role (fingerprint request) now in
      let db1 = record db { batches = db.batches ++ batch ∷ [] } in
      let ready = prepared_batch batch (fingerprint request) items in
      let at_batch = find-append_self OperationBatch.batch_id db.batches batch absent in
      let at_ready =
        find-replace_self OperationBatch.batch_id request.batch_id ready batch db1.batches at_batch
          refl in
      elim (Bool-cases (ltb now request.starts_at_utc)) [
        | inl later ↦
            let kept = then-part _ later rest in
            (
              ready,
              subst (λ (d : OperationsDb). find_batch request.batch_id d.batches ≡ some ready)
                  (ok-snd kept) at_ready,
              answers ready operator_id (fingerprint request) _ refl refl refl (rw later refl)
                  ∙ ap ok (ap batch_response (ok-fst kept) ∙ same),
            )
        | inr started ↦
            let (db2, looped, last, wrote) =
              apply-ok draw before_each ready now items (write_batch ready db1) done db'
                (else-part _ started rest) in
            (
              applied_batch ready now (length items),
              subst
                  (λ (d : OperationsDb).
                    find_batch request.batch_id d.batches
                    ≡ some (applied_batch ready now (length items)))
                  wrote
                  (find-replace_self OperationBatch.batch_id request.batch_id
                    (applied_batch ready now (length items)) ready db2.batches
                    (subst (λ l. find_batch request.batch_id l ≡ some ready)
                      (sym (
                        apply_items-batches draw before_each ready now items (write_batch ready db1)
                          db2 looped))
                      at_ready)
                    refl),
              answers (applied_batch ready now (length items)) operator_id (fingerprint request) _
                    refl refl refl refl
                  ∙ ap ok (ap batch_response last ∙ same),
            )
      ]

  -- Once a batch with a new id has been created, the same request of the same operator, at any
  -- later time, gives the same response and leaves every table as it is.
  pub create_batch-again :
      (request : OperationBatchRequest) (operator_id now later : ℕ) (db : OperationsDb)
      (x : OperationBatchResponse) (db' : OperationsDb)
      → find_batch request.batch_id db.batches ≡ none
      → create_batch fingerprint missing_text parse_uuid draw before_each request operator_id now db
        ≡ (ok x, db')
      → create_batch fingerprint missing_text parse_uuid draw before_each request operator_id later
          db'
        ≡ (ok x, db')
  unfolding create_batch
  create_batch-again request operator_id now later db x db' absent h =
      let (done, at, answer) = stored request operator_id now db x db' absent h in
      ap
        (create_or_existing fingerprint missing_text parse_uuid draw before_each request operator_id
          later db')
        at
      ∙ ap (λ r. (r, db')) answer
