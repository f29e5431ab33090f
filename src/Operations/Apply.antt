-- ===== src/Operations/Apply.antt =====
-- `OperationService._lock_items`, `_preflight` and `_apply` (apps/api/app/operations/service.py).
use microlens_recsys_mvp.Prelude.{
  ℕ, ◌+◌, String, Bool, true, false, ◌&&◌, not, Option, none, some, List, [], ◌∷◌, ◌++◌, map,
  length, select, leb, ltb, is_some, str_mem, if◌then◌else◌, Result, ok, err, guard, require, ◌>>=◌,
  ◌>>◌, operation_failure, other_error,
}
use microlens_recsys_mvp.Prelude.Sorting.{sort_by}
use microlens_recsys_mvp.Operations.Rows.{
  online, offline, OperationType, promote, restore, succeeded, active, expired, ScopeType, all,
  user, feed, Item, BatchResult, OperationBatch, OperationValue, item_state, promotion_rule,
  Operation, PromotionRule, OperationsDb, find_user, write_item, write_batch,
}
use microlens_recsys_mvp.Operations.Request.{OperationBatchRequest, num_mem}

-- SELECT … WHERE id IN targets ORDER BY id FOR UPDATE.
unfoldable pub lock_items : List ℕ → List Item → List Item
lock_items targets items =
    sort_by (λ a b. leb a.item_id b.item_id)
      (select (λ (i : Item). num_mem i.item_id targets) items)

-- `sorted(set(targets) - {item.id for item in items})`
abbrev pub missing : List ℕ → List Item → List ℕ
missing targets items = sort_by leb (select (λ t. not (num_mem t (map Item.item_id items))) targets)

abbrev no_elements : List ℕ → Bool
no_elements [] = true
no_elements (_ ∷ _) = false

abbrev pub require_items : (missing_text : List ℕ → String) → List ℕ → List Item → Result (Unit {0})
require_items missing_text targets items =
    let absent = missing targets items in
    guard (no_elements absent) (operation_failure "item_not_found" (missing_text absent))

abbrev feed_names : List String
feed_names = "personalized" ∷ "popular" ∷ "explore" ∷ []

abbrev is_feed_name : Option String → Bool
is_feed_name none = false
is_feed_name (some name) = str_mem name feed_names

abbrev parsed : (String → Option ℕ) → Option String → Option ℕ
parsed parse none = parse "None"
parsed parse (some text) = parse text

abbrev pub check_scope :
    (parse_uuid : String → Option ℕ)
    → OperationBatchRequest
    → ScopeType
    → OperationsDb
    → Result (Unit {0})
check_scope parse_uuid request all db = ok tt
check_scope parse_uuid request feed db =
    guard (is_feed_name request.scope_value)
      (operation_failure "invalid_feed_scope" "Unknown feed scope")
check_scope parse_uuid request user db = do
  scoped_user ←
      require (parsed parse_uuid request.scope_value)
        (operation_failure "invalid_user_scope" "User scope must be a UUID")
  guard (is_some (find_user scoped_user db.users))
      (operation_failure "invalid_user_scope" "User scope does not exist")

unfoldable pub preflight :
    (missing_text : List ℕ → String) (parse_uuid : String → Option ℕ)
    → OperationBatchRequest
    → OperationsDb
    → Result (List Item)
unfolding lock_items sort_by
preflight missing_text parse_uuid request db = do
  let items = lock_items request.targets db.items
  require_items missing_text request.targets items
  check_scope parse_uuid request request.scope_type db
  ok items

abbrev in_window : ℕ → Option ℕ → ℕ → Bool
in_window start none now = leb start now
in_window start (some end) now = leb start now && ltb now end

abbrev or_all : Option ScopeType → ScopeType
or_all none = all
or_all (some scope) = scope

abbrev pub new_rule : (rule_id : ℕ) → OperationBatch → Item → ℕ → PromotionRule
new_rule rule_id batch item now = record {
  rule_id = rule_id;
  item_id = item.item_id;
  created_by = batch.operator_id;
  scope_type = or_all batch.scope_type;
  scope_value = batch.scope_value;
  starts_at = batch.starts_at;
  ends_at = batch.ends_at;
  priority = batch.priority;
  target_position = batch.target_position;
  reason = batch.reason;
  status = if in_window batch.starts_at batch.ends_at now then active else expired;
  operation_batch_id = batch.batch_id;
}

-- The item after the operation.
abbrev pub changed_item : OperationType → ℕ → Item → Item
changed_item promote now item = record item { updated_at = now }
changed_item offline now item = record item {
  online_status = offline;
  state_version = item.state_version + 1;
  updated_at = now;
}
changed_item restore now item = record item {
  online_status = online;
  state_version = item.state_version + 1;
  updated_at = now;
}

abbrev after_value : OperationType → ℕ → ℕ → Item → OperationValue
after_value promote rule_id now item = promotion_rule rule_id
after_value kind rule_id now item =
    let changed = changed_item kind now item in
    item_state changed.online_status changed.state_version

abbrev pub done_operation : OperationBatch → ℕ → ℕ → Item → Operation
done_operation batch rule_id now item = record {
  batch_id = batch.batch_id;
  target = item.item_id;
  before_value = some (item_state item.online_status item.state_version);
  after_value = some (after_value batch.operation_type rule_id now item);
  succeeded = true;
  error = none;
  effective_at = now;
}

abbrev new_rules : OperationType → PromotionRule → List PromotionRule
new_rules promote rule = rule ∷ []
new_rules _ rule = []

-- One turn of the loop; `draw` is the id that `uuid.uuid4()` returns in the turn of an item.
unfoldable pub apply_item : (draw : ℕ → ℕ) → OperationBatch → ℕ → Item → OperationsDb → OperationsDb
apply_item draw batch now item db =
    record (write_item (changed_item batch.operation_type now item) db) {
      operations = db.operations ++ done_operation batch (draw item.item_id) now item ∷ [];
      promotions =
          db.promotions
          ++ new_rules batch.operation_type (new_rule (draw item.item_id) batch item now);
    }

-- `before_each_apply`: `some` is the type of the exception that it raises for an item.
abbrev pub hook : Option String → Result (Unit {0})
hook none = ok tt
hook (some type_name) = err (other_error type_name)

unfoldable pub apply_items :
    (draw : ℕ → ℕ) (before_each : ℕ → Option String)
    → OperationBatch
    → ℕ
    → List Item
    → OperationsDb
    → Result OperationsDb
unfolding apply_item
apply_items draw before_each batch now [] db = ok db
apply_items draw before_each batch now (item ∷ items) db = do
  hook (before_each item.item_id)
  apply_items draw before_each batch now items (apply_item draw batch now item db)

abbrev no_result : BatchResult
no_result = record {
  request_hash = none;
  expected_state_versions = [];
  error_code = none;
  error = none;
  applied = none;
  failed = none;
}

-- `dict(batch.result or {})`
abbrev pub details : Option BatchResult → BatchResult
details none = no_result
details (some r) = r

abbrev pub applied_batch : OperationBatch → ℕ → ℕ → OperationBatch
applied_batch batch now count = record batch {
  status = succeeded;
  completed_at = some now;
  result = some (record (details batch.result) { applied = some count; failed = some 0 });
}

unfoldable pub apply :
    (draw : ℕ → ℕ) (before_each : ℕ → Option String)
    → OperationBatch
    → ℕ
    → List Item
    → OperationsDb
    → Result (OperationBatch × OperationsDb)
unfolding apply_items
apply draw before_each batch now items db = do
  db' ← apply_items draw before_each batch now items db
  let done = applied_batch batch now (length items)
  ok (done, write_batch done db')
