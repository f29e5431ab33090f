-- ===== src/Operations/Rows.antt =====
-- The tables of items, batches, audited operations and promotion rules (apps/api/app/db/models.py).
-- An item id is a number that stands for its text and for its place in the order of the texts.
use microlens_recsys_mvp.Prelude.{ℕ, String, Bool, true, false, Option, List}
use microlens_recsys_mvp.Prelude.Table.{find, replace}

pub data OnlineStatus : Type 0 where
  online offline : OnlineStatus

pub data OperationType : Type 0 where
  promote offline restore : OperationType

pub data OperationBatchStatus : Type 0 where
  scheduled running succeeded failed : OperationBatchStatus

pub data PromotionStatus : Type 0 where
  scheduled active expired cancelled : PromotionStatus

pub data ScopeType : Type 0 where
  all user feed : ScopeType

pub data Role : Type 0 where
  user operator_readonly operator admin : Role

pub record Item : Type 0 where
  pub item_id : ℕ
  pub online_status : OnlineStatus
  pub state_version : ℕ
  pub updated_at : ℕ

-- The JSON object in the column `result`.
pub record BatchResult : Type 0 where
  pub request_hash : Option String
  pub expected_state_versions : List (ℕ × ℕ)
  pub error_code : Option String
  pub error : Option String
  pub applied : Option ℕ
  pub failed : Option ℕ

pub record OperationBatch : Type 0 where
  pub batch_id : ℕ
  pub operator_id : ℕ
  pub operator_role : Role
  pub operation_type : OperationType
  pub targets : List ℕ
  pub reason : String
  pub expected_state_version : ℕ
  pub status : OperationBatchStatus
  pub scope_type : Option ScopeType
  pub scope_value : Option String
  pub priority : ℕ
  pub target_position : Option ℕ
  pub starts_at : ℕ
  pub ends_at : Option ℕ
  pub scheduled_at : Option ℕ
  pub started_at : Option ℕ
  pub completed_at : Option ℕ
  pub created_at : ℕ
  pub result : Option BatchResult

-- The JSON objects in the columns `before_value` and `after_value`.
pub data OperationValue : Type 0 where
  item_state : OnlineStatus → ℕ → OperationValue
  promotion_rule : ℕ → OperationValue

pub record Operation : Type 0 where
  pub batch_id : ℕ
  pub target : ℕ
  pub before_value : Option OperationValue
  pub after_value : Option OperationValue
  pub succeeded : Bool
  pub error : Option String
  pub effective_at : ℕ

pub record PromotionRule : Type 0 where
  pub rule_id : ℕ
  pub item_id : ℕ
  pub created_by : ℕ
  pub scope_type : ScopeType
  pub scope_value : Option String
  pub starts_at : ℕ
  pub ends_at : Option ℕ
  pub priority : ℕ
  pub target_position : Option ℕ
  pub reason : String
  pub status : PromotionStatus
  pub operation_batch_id : ℕ

pub record User : Type 0 where
  pub user_id : ℕ
  pub role : Role

pub record OperationsDb : Type 0 where
  pub users : List User
  pub items : List Item
  pub batches : List OperationBatch
  pub operations : List Operation
  pub promotions : List PromotionRule

abbrev pub find_item : ℕ → List Item → Option Item
find_item = find Item.item_id

abbrev pub find_batch : ℕ → List OperationBatch → Option OperationBatch
find_batch = find OperationBatch.batch_id

abbrev pub find_user : ℕ → List User → Option User
find_user = find User.user_id

abbrev pub write_item : Item → OperationsDb → OperationsDb
write_item item db = record db { items = replace Item.item_id item db.items }

abbrev pub write_batch : OperationBatch → OperationsDb → OperationsDb
write_batch batch db = record db { batches = replace OperationBatch.batch_id batch db.batches }

abbrev pub is_online : OnlineStatus → Bool
is_online online = true
is_online offline = false
