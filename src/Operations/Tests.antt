-- ===== src/Operations/Tests.antt =====
-- Batches at a concrete catalogue.
use microlens_recsys_mvp.Prelude.{
  ℕ, ◌+◌, String, true, false, ◌≡◌, ◌⊎◌, refl, Option, none, some, List, [], ◌∷◌, All,
  audited_failure, Result, ok, err,
}
use microlens_recsys_mvp.Prelude.Table.{find, replace, IsKeyed}
use microlens_recsys_mvp.Prelude.Sorting.{sort_by, insert_by}
use microlens_recsys_mvp.Operations.Rows.{
  OnlineStatus, online, offline, scheduled, succeeded, failed, active, all, operator, Item,
  BatchResult, OperationBatch, PromotionRule, OperationsDb, find_item, find_batch,
}
use microlens_recsys_mvp.Operations.Request.{OperationBatchRequest, num_mem}
use microlens_recsys_mvp.Operations.Apply.{
  lock_items, preflight, apply_item, apply_items, apply, changed_item,
}
use microlens_recsys_mvp.Operations.Batches.{
  OperationBatchResponse, operator_role, record_failed_batch, attempt, create_batch,
}
use microlens_recsys_mvp.Operations.Due.{attempt_due, settle_due}
use microlens_recsys_mvp.Operations.Promotions.{active_promotions}
use microlens_recsys_mvp.Operations.Atomic.{create_batch-atomic, create_batch-changes}
use microlens_recsys_mvp.Operations.Replay.{create_batch-again}
use microlens_recsys_mvp.Operations.Stale.{is_fresh, attempt_due-IsFresh, settle_due-stale}
use microlens_recsys_mvp.Operations.Ranked.{IsOffered, Ordered, active_promotions-IsSorted}
use mathlib.Core.List.{Mem}

abbrev film : Item
film = record { item_id = 4; online_status = online; state_version = 2; updated_at = 0 }

abbrev clip : Item
clip = record { item_id = 5; online_status = online; state_version = 0; updated_at = 0 }

abbrev empty : OperationsDb
empty = record {
  users = record { user_id = 1; role = operator } ∷ [];
  items = film ∷ clip ∷ [];
  batches = [];
  operations = [];
  promotions = [];
}

abbrev take_down : List ℕ → ℕ → OperationBatchRequest
take_down targets start = record {
  batch_id = 9;
  operation_type = offline;
  targets = targets;
  scope_type = all;
  scope_value = none;
  starts_at_utc = start;
  ends_at_utc = none;
  priority = 0;
  target_position = none;
  reason = "rights";
}

abbrev hash : OperationBatchRequest → String
hash request = "h"

abbrev text : List ℕ → String
text _ = "6"

abbrev no_uuid : String → Option ℕ
no_uuid _ = none

abbrev draw : ℕ → ℕ
draw i = i

abbrev quiet : ℕ → Option String
quiet _ = none

-- The outcomes as the code computes them.
abbrev run : OperationBatchRequest → Result OperationBatchResponse × OperationsDb
run request = create_batch hash text no_uuid draw quiet request 1 100 empty

abbrev answer : Result OperationBatchResponse → Option OperationBatchResponse
answer (ok x) = some x
answer (err e) = none

abbrev outcome : List (ℕ × ℕ) → Option ℕ → Option ℕ → Option BatchResult
outcome expected done wrong = some (record {
  request_hash = some "h";
  expected_state_versions = expected;
  error_code = none;
  error = none;
  applied = done;
  failed = wrong;
})

-- The response to an immediate batch, and to a scheduled one.
abbrev done_now : OperationBatchResponse
done_now = record {
  batch_id = 9;
  status = succeeded;
  expected_state_version = 2;
  scheduled_at = none;
  started_at = some 100;
  completed_at = some 100;
  created_at = 100;
  result = outcome ((4, 2) ∷ []) (some 1) (some 0);
}

abbrev planned : OperationBatchResponse
planned = record {
  batch_id = 9;
  status = scheduled;
  expected_state_version = 2;
  scheduled_at = some 200;
  started_at = none;
  completed_at = none;
  created_at = 100;
  result = outcome ((4, 2) ∷ []) none none;
}

abbrev after : OperationBatchRequest → OperationsDb
after request = (run request).1

now_run : run (take_down (4 ∷ []) 50) ≡ (ok done_now, after (take_down (4 ∷ []) 50))
unfolding create_batch operator_role preflight lock_items sort_by insert_by find replace attempt
    apply apply_items apply_item
now_run = refl

planned_ran : run (take_down (4 ∷ []) 200) ≡ (ok planned, after (take_down (4 ∷ []) 200))
unfolding create_batch operator_role preflight lock_items sort_by insert_by find replace attempt
    apply apply_items apply_item
planned_ran = refl

missing_run :
    run (take_down (4 ∷ 6 ∷ []) 50)
    ≡ (err (audited_failure "item_not_found" "6"), after (take_down (4 ∷ 6 ∷ []) 50))
unfolding create_batch operator_role preflight lock_items sort_by insert_by find replace attempt
    apply apply_items apply_item record_failed_batch
missing_run = refl

unused_id : find_batch 9 empty.batches ≡ none
unfolding find
unused_id = refl

film_found : find_item 4 empty.items ≡ some film
unfolding find
film_found = refl

empty-IsKeyed : IsKeyed Item.item_id empty.items
unfolding find
empty-IsKeyed = (refl, (refl, tt))

create_batch-atomic_example :
    ((after (take_down (4 ∷ 6 ∷ []) 50)).items ≡ empty.items)
    × ((after (take_down (4 ∷ 6 ∷ []) 50)).promotions ≡ empty.promotions)
create_batch-atomic_example =
    create_batch-atomic hash text no_uuid draw quiet (take_down (4 ∷ 6 ∷ []) 50) 1 100 empty
      (audited_failure "item_not_found" "6") (after (take_down (4 ∷ 6 ∷ []) 50)) missing_run

create_batch-changes_example :
    find_item 4 (after (take_down (4 ∷ []) 50)).items
    ≡ some (record film {
      online_status = OnlineStatus.offline;
      state_version = film.state_version + 1;
      updated_at = 100;
    })
create_batch-changes_example =
    create_batch-changes hash text no_uuid draw quiet (take_down (4 ∷ []) 50) 1 100 empty done_now
      (after (take_down (4 ∷ []) 50)) unused_id now_run empty-IsKeyed refl 4 film film_found

create_batch-again_example :
    create_batch hash text no_uuid draw quiet
      (take_down (4 ∷ []) 50)
      1
      900
      (after (take_down (4 ∷ []) 50))
    ≡ (ok done_now, after (take_down (4 ∷ []) 50))
create_batch-again_example =
    create_batch-again hash text no_uuid draw quiet (take_down (4 ∷ []) 50) 1 100 900 empty done_now
      (after (take_down (4 ∷ []) 50)) unused_id now_run

-- A scheduled batch in the table, prepared for a version of the item.
abbrev waiting : ℕ → OperationBatch
waiting version = record {
  batch_id = 9;
  operator_id = 1;
  operator_role = operator;
  operation_type = offline;
  targets = 4 ∷ [];
  reason = "rights";
  expected_state_version = version;
  status = scheduled;
  scope_type = some all;
  scope_value = none;
  priority = 0;
  target_position = none;
  starts_at = 200;
  ends_at = none;
  scheduled_at = some 200;
  started_at = none;
  completed_at = none;
  created_at = 100;
  result = outcome ((4, version) ∷ []) none none;
}

abbrev with_waiting : ℕ → OperationsDb
with_waiting version = record empty { batches = waiting version ∷ [] }

abbrev due_done : OperationBatch
due_done = record (waiting 2) {
  status = succeeded;
  started_at = some 300;
  completed_at = some 300;
  result = outcome ((4, 2) ∷ []) (some 1) (some 0);
}

abbrev due_run : Result (OperationBatch × OperationsDb)
due_run = attempt_due text draw (waiting 2) 300 (with_waiting 2)

abbrev second_or : Result (OperationBatch × OperationsDb) → OperationsDb
second_or (ok (_, db)) = db
second_or (err _) = empty

due_ran : due_run ≡ ok (due_done, second_or due_run)
unfolding attempt_due lock_items sort_by insert_by find replace apply apply_items apply_item
due_ran = refl

attempt_due-IsFresh_example :
    (num_mem 4 (4 ∷ []) ≡ false ⊎ is_fresh (waiting 2) film ≡ true)
    × (find_item 4 (second_or due_run).items ≡ some (changed_item offline 300 film))
attempt_due-IsFresh_example =
    attempt_due-IsFresh text draw (waiting 2) 300 (with_waiting 2) due_done (second_or due_run)
      empty-IsKeyed due_ran 4 film film_found

waiting_found : find_batch 9 (with_waiting 1).batches ≡ some (waiting 1)
unfolding find
waiting_found = refl

settle_due-stale_example :
    let (done, db') =
      settle_due text draw
        (waiting 1)
        300
        (with_waiting 1)
        (attempt_due text draw (waiting 1) 300 (with_waiting 1)) in
    (db'.items ≡ empty.items)
    × (db'.promotions ≡ empty.promotions)
    × (find_batch 9 db'.batches ≡ some done)
    × (done.status ≡ failed)
settle_due-stale_example =
    settle_due-stale text draw (waiting 1) 300 (with_waiting 1) 4 film empty-IsKeyed waiting_found
      film_found refl refl

abbrev rule : ℕ → ℕ → PromotionRule
rule rule_id priority = record {
  rule_id = rule_id;
  item_id = 4;
  created_by = 1;
  scope_type = all;
  scope_value = none;
  starts_at = 0;
  ends_at = none;
  priority = priority;
  target_position = none;
  reason = "launch";
  status = active;
  operation_batch_id = 9;
}

active_promotions-IsSorted_example :
    Ordered
      (active_promotions none none 100 (record empty { promotions = rule 1 2 ∷ rule 2 5 ∷ [] }))
    × All
        (λ r. Mem r (rule 1 2 ∷ rule 2 5 ∷ []) × IsOffered none none 100 empty.items r)
        (active_promotions none none 100 (record empty { promotions = rule 1 2 ∷ rule 2 5 ∷ [] }))
    × All
        (λ r.
          IsOffered none none 100 empty.items r
          → Mem r (
              active_promotions none none 100
                (record empty { promotions = rule 1 2 ∷ rule 2 5 ∷ [] })))
        (rule 1 2 ∷ rule 2 5 ∷ [])
active_promotions-IsSorted_example =
    active_promotions-IsSorted none none 100
      (record empty { promotions = rule 1 2 ∷ rule 2 5 ∷ [] })
