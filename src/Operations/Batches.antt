-- ===== src/Operations/Batches.antt =====
-- `OperationService.create_batch` (apps/api/app/operations/service.py): a failure is recorded in the
-- table, so that the state comes back with an error too.
use microlens_recsys_mvp.Prelude.{
  ℕ, String, Bool, true, false, ◌||◌, not, Option, none, some, List, [], ◌∷◌, ◌++◌, map, ◌==◌, ltb,
  str_eq, if◌then◌else◌, Error, operation_failure, audited_failure, api_error, type_name, Result,
  ok, err, require, ◌>>=◌,
}
use microlens_recsys_mvp.Operations.Rows.{
  Role, operator, admin, OperationBatchStatus, scheduled, running, failed, Item, BatchResult,
  OperationBatch, Operation, OperationsDb, find_batch, find_user, write_batch,
}
use microlens_recsys_mvp.Operations.Request.{OperationBatchRequest}
use microlens_recsys_mvp.Operations.Apply.{preflight, apply}

pub record OperationBatchResponse : Type 0 where
  pub batch_id : ℕ
  pub status : OperationBatchStatus
  pub expected_state_version : ℕ
  pub scheduled_at : Option ℕ
  pub started_at : Option ℕ
  pub completed_at : Option ℕ
  pub created_at : ℕ
  pub result : Option BatchResult

abbrev pub batch_response : OperationBatch → OperationBatchResponse
batch_response batch = record {
  batch_id = batch.batch_id;
  status = batch.status;
  expected_state_version = batch.expected_state_version;
  scheduled_at = batch.scheduled_at;
  started_at = batch.started_at;
  completed_at = batch.completed_at;
  created_at = batch.created_at;
  result = batch.result;
}

abbrev or_default : Option String → String → String
or_default none default = default
or_default (some text) default = if str_eq text "" then default else text

abbrev pub is_failed : OperationBatchStatus → Bool
is_failed failed = true
is_failed _ = false

abbrev pub same_request : Option String → String → Bool
same_request none hash = false
same_request (some h) hash = str_eq h hash

abbrev conflict : Error
conflict = api_error 409 "batch_id_conflict" "batch_id has different content"

abbrev pub existing_result :
    OperationBatch → ℕ → String → Option BatchResult → Result OperationBatchResponse
existing_result existing operator_id hash none = err conflict
existing_result existing operator_id hash (some r) =
    if not (existing.operator_id == operator_id) || not (same_request r.request_hash hash)
    then err conflict
    else if is_failed existing.status
    then err (
        audited_failure (or_default r.error_code "operation_failed")
          (or_default r.error "Operation batch failed"))
    else ok (batch_response existing)

unfoldable pub existing_batch : OperationBatch → ℕ → String → Result OperationBatchResponse
existing_batch existing operator_id hash = existing_result existing operator_id hash existing.result

abbrev role_of : Role → Result Role
role_of operator = ok operator
role_of admin = ok admin
role_of _ = err (api_error 403 "insufficient_role" "Operator or admin role is required")

unfoldable pub operator_role : ℕ → OperationsDb → Result Role
operator_role operator_id db = do
  u ←
      require (find_user operator_id db.users)
        (api_error 403 "insufficient_role" "Operator or admin role is required")
  role_of u.role

-- The code and the message of the failure that is recorded.
abbrev pub failure_of : Error → String × String
failure_of (operation_failure code message) = (code, message)
failure_of (audited_failure code message) = (code, message)
failure_of e = ("operation_transaction_failed", type_name e)

abbrev pub failed_operation : ℕ → String → ℕ → ℕ → Operation
failed_operation batch_id message now target = record {
  batch_id = batch_id;
  target = target;
  before_value = none;
  after_value = none;
  succeeded = false;
  error = some message;
  effective_at = now;
}

abbrev or_now : Option ℕ → ℕ → ℕ
or_now none now = now
or_now (some t) now = t

abbrev failed_batch : OperationBatch → ℕ → Role → String → ℕ → String → String → OperationBatch
failed_batch batch operator_id role hash now code message = record batch {
  operator_id = operator_id;
  operator_role = role;
  status = failed;
  scheduled_at = none;
  started_at = some (or_now batch.started_at now);
  completed_at = some now;
  result = some (record {
    request_hash = some hash;
    expected_state_versions = [];
    error_code = some code;
    error = some message;
    applied = some 0;
    failed = none;
  });
}

unfoldable pub record_failed_batch :
    OperationBatch → ℕ → Role → List ℕ → String → ℕ → String → String → OperationsDb → OperationsDb
record_failed_batch batch operator_id role targets hash now code message db =
    record (write_batch (failed_batch batch operator_id role hash now code message) db) {
      operations = db.operations ++ map (failed_operation batch.batch_id message now) targets;
    }

-- `max((item.state_version for item in items), default=0)`
abbrev pub max_version : List Item → ℕ
max_version [] = 0
max_version (item ∷ items) =
    let rest = max_version items in if ltb rest item.state_version then item.state_version else rest

abbrev pub versions : List Item → List (ℕ × ℕ)
versions = map (λ (i : Item). (i.item_id, i.state_version))

abbrev is_scheduled : OperationBatchRequest → ℕ → Bool
is_scheduled request now = ltb now request.starts_at_utc

abbrev pub new_batch : OperationBatchRequest → ℕ → Role → String → ℕ → OperationBatch
new_batch request operator_id role hash now = record {
  batch_id = request.batch_id;
  operator_id = operator_id;
  operator_role = role;
  operation_type = request.operation_type;
  targets = request.targets;
  reason = request.reason;
  expected_state_version = 0;
  status = if is_scheduled request now then scheduled else running;
  scope_type = some request.scope_type;
  scope_value = request.scope_value;
  priority = request.priority;
  target_position = request.target_position;
  starts_at = request.starts_at_utc;
  ends_at = request.ends_at_utc;
  scheduled_at = if is_scheduled request now then some request.starts_at_utc else none;
  started_at = if is_scheduled request now then none else some now;
  completed_at = none;
  created_at = now;
  result = some (record {
    request_hash = some hash;
    expected_state_versions = [];
    error_code = none;
    error = none;
    applied = none;
    failed = none;
  });
}

abbrev pub prepared_batch : OperationBatch → String → List Item → OperationBatch
prepared_batch batch hash items = record batch {
  expected_state_version = max_version items;
  result = some (record {
    request_hash = some hash;
    expected_state_versions = versions items;
    error_code = none;
    error = none;
    applied = none;
    failed = none;
  });
}

module _ (fingerprint : OperationBatchRequest → String) (missing_text : List ℕ → String)
    (parse_uuid : String → Option ℕ) (draw : ℕ → ℕ) (before_each : ℕ → Option String) where
  -- The second savepoint: the preflight, and the operation itself unless it is scheduled.
  unfoldable pub attempt :
      OperationBatchRequest
      → OperationBatch
      → String
      → ℕ
      → OperationsDb
      → Result (OperationBatch × OperationsDb)
  unfolding preflight apply
  attempt request batch hash now db = do
    items ← preflight missing_text parse_uuid request db
    let ready = prepared_batch batch hash items
    if is_scheduled request now
        then ok (ready, write_batch ready db)
        else apply draw before_each ready now items (write_batch ready db)

  -- A failure rolls the savepoint back and is recorded.
  abbrev pub settle :
      OperationBatchRequest
      → OperationBatch
      → ℕ
      → Role
      → String
      → ℕ
      → OperationsDb
      → Result (OperationBatch × OperationsDb)
      → Result OperationBatchResponse × OperationsDb
  settle request batch operator_id role hash now db (ok (done, db')) =
      (ok (batch_response done), db')
  settle request batch operator_id role hash now db (err e) =
      let (code, message) = failure_of e in
      (
        err (audited_failure code message),
        record_failed_batch batch operator_id role request.targets hash now code message db,
      )

  abbrev pub create_with :
      OperationBatchRequest
      → ℕ
      → ℕ
      → OperationsDb
      → Result Role
      → Result OperationBatchResponse × OperationsDb
  create_with request operator_id now db (err e) = (err e, db)
  create_with request operator_id now db (ok role) =
      let hash = fingerprint request in
      let batch = new_batch request operator_id role hash now in
      let db1 = record db { batches = db.batches ++ batch ∷ [] } in
      settle request batch operator_id role hash now db1 (attempt request batch hash now db1)

  abbrev pub create_or_existing :
      OperationBatchRequest
      → ℕ
      → ℕ
      → OperationsDb
      → Option OperationBatch
      → Result OperationBatchResponse × OperationsDb
  create_or_existing request operator_id now db (some existing) =
      (existing_batch existing operator_id (fingerprint request), db)
  create_or_existing request operator_id now db none =
      create_with request operator_id now db (operator_role operator_id db)

  unfoldable pub create_batch :
      OperationBatchRequest → ℕ → ℕ → OperationsDb → Result OperationBatchResponse × OperationsDb
  unfolding existing_batch operator_role record_failed_batch attempt
  create_batch request operator_id now db =
      create_or_existing request operator_id now db (find_batch request.batch_id db.batches)
