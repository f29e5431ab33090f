-- ===== src/Operations/Due.antt =====
-- `OperationService.apply_due_batches` (apps/api/app/operations/service.py).
use microlens_recsys_mvp.Prelude.{
  ℕ, String, Bool, true, false, ◌&&◌, ◌||◌, not, Option, none, some, List, [], ◌∷◌, ◌++◌, map, ◌==◌,
  ltb, leb, select, if◌then◌else◌, Error, value_error, lookup_error, lease_lost,
  idempotency_conflict, overflow_error, integrity_error, operation_failure, audited_failure,
  api_error, other_error, Result, ok, err, guard, ◌>>◌,
}
use microlens_recsys_mvp.Prelude.Sorting.{sort_by}
use microlens_recsys_mvp.Operations.Rows.{
  OperationBatchStatus, scheduled, running, failed, Item, OperationBatch, OperationsDb, write_batch,
}
use microlens_recsys_mvp.Operations.Apply.{lock_items, require_items, apply, details}
use microlens_recsys_mvp.Operations.Batches.{
  OperationBatchResponse, batch_response, failed_operation,
}

abbrev pub is_scheduled : OperationBatchStatus → Bool
is_scheduled scheduled = true
is_scheduled _ = false

abbrev not_after : Option ℕ → ℕ → Bool
not_after none now = false
not_after (some t) now = leb t now

abbrev order_time : Option ℕ → ℕ
order_time none = 0
order_time (some t) = t

abbrev pub due_order : OperationBatch → OperationBatch → Bool
due_order a b =
    ltb (order_time a.scheduled_at) (order_time b.scheduled_at)
    || (order_time a.scheduled_at == order_time b.scheduled_at && leb a.batch_id b.batch_id)

-- The scheduled batches that are due, less the rows that another transaction has locked.
unfoldable pub due_batches : (locked : ℕ → Bool) → ℕ → List OperationBatch → List OperationBatch
due_batches locked now batches = sort_by due_order (
    select
      (λ (b : OperationBatch).
        (is_scheduled b.status && not_after b.scheduled_at now) && not (locked b.batch_id))
      batches)

-- `expected_versions.get(k)`
abbrev pub version_of : ℕ → List (ℕ × ℕ) → Option ℕ
version_of k [] = none
version_of k ((i, v) ∷ rest) = if i == k then some v else version_of k rest

abbrev pub is_version : Option ℕ → ℕ → Bool
is_version none v = false
is_version (some e) v = e == v

abbrev pub unchanged : List (ℕ × ℕ) → List Item → Bool
unchanged expected [] = true
unchanged expected (i ∷ items) =
    is_version (version_of i.item_id expected) i.state_version && unchanged expected items

-- `str(exc)`
abbrev pub message_of : Error → String
message_of (value_error m) = m
message_of (lookup_error m) = m
message_of (lease_lost m) = m
message_of (idempotency_conflict m) = m
message_of (overflow_error m) = m
message_of integrity_error = "IntegrityError"
message_of (operation_failure _ m) = m
message_of (audited_failure _ m) = m
message_of (api_error _ _ m) = m
message_of (other_error name) = name

abbrev pub started_batch : OperationBatch → ℕ → OperationBatch
started_batch batch now = record batch { status = running; started_at = some now }

abbrev pub failed_due : OperationBatch → ℕ → String → OperationBatch
failed_due batch now message = record batch {
  status = failed;
  completed_at = some now;
  result = some (record (details batch.result) { error = some message; applied = some 0 });
}

abbrev pub no_hook : ℕ → Option String
no_hook _ = none

module _ (missing_text : List ℕ → String) (draw : ℕ → ℕ) where
  -- The savepoint of one batch.
  unfoldable pub attempt_due :
      OperationBatch → ℕ → OperationsDb → Result (OperationBatch × OperationsDb)
  unfolding lock_items apply sort_by
  attempt_due batch now db = do
    let items = lock_items batch.targets db.items
    require_items missing_text batch.targets items
    guard (unchanged ((details batch.result).expected_state_versions) items) (
        operation_failure "state_version_conflict" "A target changed after the batch was scheduled")
    let started = started_batch batch now
    apply draw no_hook started now items (write_batch started db)

  abbrev pub settle_due :
      OperationBatch
      → ℕ
      → OperationsDb
      → Result (OperationBatch × OperationsDb)
      → OperationBatch × OperationsDb
  settle_due batch now db (ok done) = done
  settle_due batch now db (err e) = (
    failed_due batch now (message_of e),
    record (write_batch (failed_due batch now (message_of e)) db) {
      operations =
          db.operations ++ map (failed_operation batch.batch_id (message_of e) now) batch.targets;
    },
  )

  unfoldable pub apply_each :
      List OperationBatch → ℕ → OperationsDb → List OperationBatchResponse × OperationsDb
  unfolding attempt_due
  apply_each [] now db = ([], db)
  apply_each (batch ∷ batches) now db =
      let (done, db1) = settle_due batch now db (attempt_due batch now db) in
      let (responses, db2) = apply_each batches now db1 in (batch_response done ∷ responses, db2)

  unfoldable pub apply_due_batches :
      (locked : ℕ → Bool) → ℕ → OperationsDb → List OperationBatchResponse × OperationsDb
  unfolding due_batches apply_each
  apply_due_batches locked now db = apply_each (due_batches locked now db.batches) now db
