-- ===== src/Events/Batches.antt =====
-- `EventService.submit_batch` (apps/api/app/events/service.py).
use microlens_recsys_mvp.Prelude.{
  ℕ, ◌+◌, String, Bool, true, false, not, ◌&&◌, ◌||◌, Option, none, some, List, [], ◌∷◌, ◌++◌, ◌==◌,
  ltb, leb, length, str_eq, is_some, if◌then◌else◌, api_error, other_error, integrity_error,
  type_name, Result, ok, err, ◌>>=◌, require,
}
use microlens_recsys_mvp.Prelude.Table.{find, replace}
use microlens_recsys_mvp.Events.Rows.{
  EventItemResult, EventStatus, duplicate, rejected, EventBatch, EventBatchResponse, EventsDb,
  event_batch_key,
}
use microlens_recsys_mvp.Events.Profile.{EventRequest}
use microlens_recsys_mvp.Events.Submit.{is_accepted, rejection, submit}

pub record EventBatchRequest : Type 0 where
  pub batch_id : ℕ
  pub events : List EventRequest

abbrev pub is_duplicate : EventStatus → Bool
is_duplicate duplicate = true
is_duplicate _ = false

abbrev pub is_rejected : EventStatus → Bool
is_rejected rejected = true
is_rejected _ = false

-- `sum(result.status == … for result in results)`
unfoldable pub count_status : (EventStatus → Bool) → List EventItemResult → ℕ
count_status test [] = 0
count_status test (r ∷ results) =
    let rest = count_status test results in if test r.status then rest + 1 else rest

-- `_replay_batch`
unfoldable pub replay_batch : EventBatch → ℕ → String → Result EventBatchResponse
replay_batch existing user_id request_hash =
    if existing.user_id == user_id && str_eq existing.payload_hash request_hash
    then require existing.result (other_error "RuntimeError")
    else err (api_error 409 "batch_id_conflict" "batch_id has different content")

abbrev pub new_event_batch : ℕ → EventBatchRequest → String → ℕ → EventBatch
new_event_batch user_id request request_hash now = record {
  batch_id = request.batch_id;
  user_id = user_id;
  payload_hash = request_hash;
  item_count = length request.events;
  accepted_count = 0;
  duplicate_count = 0;
  rejected_count = 0;
  started_at = now;
  completed_at = none;
  result = none;
}

-- The flush of the new batch, with `item_count_range`.
unfoldable pub insert_event_batch : EventBatch → EventsDb → Result EventsDb
insert_event_batch b db =
    if is_some (find event_batch_key b.batch_id db.batches)
      || not (ltb 0 b.item_count && leb b.item_count 100)
    then err integrity_error
    else ok (record db { batches = db.batches ++ b ∷ [] })

abbrev pub response_of : ℕ → List EventItemResult → EventBatchResponse
response_of batch_id results = record {
  batch_id = batch_id;
  accepted = count_status is_accepted results;
  duplicate = count_status is_duplicate results;
  rejected = count_status is_rejected results;
  results = results;
}

abbrev pub completed : EventBatch → EventBatchResponse → ℕ → EventBatch
completed b response now = record b {
  accepted_count = response.accepted;
  duplicate_count = response.duplicate;
  rejected_count = response.rejected;
  completed_at = some now;
  result = some response;
}

-- An exception in an item's savepoint is a rejection, and leaves the tables as they were.
abbrev pub item_result :
    EventRequest → EventsDb → Result (EventItemResult × EventsDb) → EventItemResult × EventsDb
item_result item db (ok done) = done
item_result item db (err raised) =
    (rejection item.event_id "item_transaction_failed" (type_name raised), db)

module _ (hash : ℕ → EventRequest → String) (words : String → List ℕ) where
  unfoldable pub submit_item : ℕ → EventRequest → ℕ → EventsDb → EventItemResult × EventsDb
  submit_item user_id item now db = item_result item db (submit hash words user_id item now db)

  unfoldable pub submit_each :
      ℕ → List EventRequest → ℕ → EventsDb → List EventItemResult × EventsDb
  unfolding submit_item
  submit_each user_id [] now db = ([], db)
  submit_each user_id (item ∷ items) now db =
      let (result, next) = submit_item user_id item now db in
      let (results, done) = submit_each user_id items now next in (result ∷ results, done)

-- `batch_hash` is the fingerprint of a user's batch.
module _ (hash : ℕ → EventRequest → String) (words : String → List ℕ)
    (batch_hash : ℕ → EventBatchRequest → String) where
  abbrev pub complete_batch : ℕ → EventBatchRequest → ℕ → EventsDb → EventBatchResponse × EventsDb
  complete_batch user_id request now db =
      let (results, done) = submit_each hash words user_id request.events now db in
      let response = response_of request.batch_id results in
      let batch = new_event_batch user_id request (batch_hash user_id request) now in
      (
        response,
        record done {
          batches = replace event_batch_key (completed batch response now) done.batches;
        },
      )

  abbrev pub after_batch :
      ℕ
      → EventBatchRequest
      → ℕ
      → EventsDb
      → Result EventsDb
      → Result (EventBatchResponse × EventsDb)
  after_batch user_id request now db (ok opened) = ok (complete_batch user_id request now opened)
  after_batch user_id request now db (err integrity_error) = do
    existing ← require (find event_batch_key request.batch_id db.batches) integrity_error
    response ← replay_batch existing user_id (batch_hash user_id request)
    ok (response, db)
  after_batch user_id request now db (err raised) = err raised

  abbrev pub batch_or_replay :
      ℕ
      → EventBatchRequest
      → ℕ
      → EventsDb
      → Option EventBatch
      → Result (EventBatchResponse × EventsDb)
  batch_or_replay user_id request now db (some existing) = do
    response ← replay_batch existing user_id (batch_hash user_id request)
    ok (response, db)
  batch_or_replay user_id request now db none =
      after_batch user_id request now db
        (insert_event_batch (new_event_batch user_id request (batch_hash user_id request) now) db)

  unfoldable pub submit_batch :
      (user_id : ℕ)
      → EventBatchRequest
      → (now : ℕ) → EventsDb
      → Result (EventBatchResponse × EventsDb)
  unfolding submit_each replay_batch insert_event_batch
  submit_batch user_id request now db =
      batch_or_replay user_id request now db (find event_batch_key request.batch_id db.batches)
