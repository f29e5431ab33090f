-- ===== src/Events/Tests.antt =====
-- A page and its events at concrete data.
use microlens_recsys_mvp.Prelude.{
  ℕ, ◌+◌, String, true, ◌≡◌, refl, none, List, [], ◌∷◌, ◌++◌, map, length, pos, ok,
}
use microlens_recsys_mvp.Prelude.Table.{find, replace}
use microlens_recsys_mvp.Events.Rows.{
  popular, like, Snapshot, SnapshotItem, PageRequest, Exposure, EventItemResult, EventBatchResponse,
  EventBatch, EventsDb, all_online, find_snapshot_item, insert_event, insert_exposure,
  insert_request,
}
use microlens_recsys_mvp.Events.Pages.{PageExposure, write_page, record_page}
use microlens_recsys_mvp.Events.Profile.{EventRequest, update_profile}
use microlens_recsys_mvp.Events.Submit.{joined_exposures, new_event, submit}
use microlens_recsys_mvp.Events.Batches.{
  EventBatchRequest, count_status, new_event_batch, completed, submit_batch,
}
use microlens_recsys_mvp.Events.Consistent.{IsConsistent, client_events}
use microlens_recsys_mvp.Events.Outcome.{accepted_result, duplicate_result}
use microlens_recsys_mvp.Events.System.{here, next, shows, submits, Reach-IsConsistent}
use microlens_recsys_mvp.Events.Counts.{answered, asked, submit_batch-counts, submit_batch-again}
use microlens_recsys_mvp.Events.Recorded.{page_exposures, impression_of}

abbrev snapshot : Snapshot
snapshot = record {
  snapshot_id = 1;
  user_id = 7;
  feed_type = popular;
  model_version = "m";
  snapshot_seed = 0;
  expires_at = 1000;
  created_at = 0;
}

abbrev row : SnapshotItem
row = record {
  snapshot_id = 1;
  item_id = 5;
  source = "hot";
  raw_score = "1";
  normalized_score = "1";
  filter_reason = none;
  snapshot_position = 0;
  promotion_rule_id = none;
}

abbrev db : EventsDb
db = record {
  items = record { item_id = 5; title = "film"; is_online = true } ∷ [];
  snapshots = snapshot ∷ [];
  snapshot_items = row ∷ [];
  requests = [];
  exposures = [];
  events = [];
  batches = [];
  profiles = [];
}

abbrev uuid5 : ℕ → ℕ → ℕ → ℕ
uuid5 a b c = 100 + c

abbrev text : ℕ → String
text n = "canonical"

abbrev draw : ℕ → ℕ
draw n = n + 10

abbrev hash : ℕ → EventRequest → String
hash user request = "h"

abbrev batch_hash : ℕ → EventBatchRequest → String
batch_hash user request = "b"

abbrev words : String → List ℕ
words title = 1 ∷ 2 ∷ []

abbrev page : List PageExposure
page = record { item_id = 5; position = pos 0; source = "hot" } ∷ []

abbrev page_request : PageRequest
page_request = record {
  request_id = 3;
  snapshot_id = 1;
  user_id = 7;
  offset = 0;
  limit = 10;
  latency_ms = none;
  created_at = 20;
}

abbrev shown : EventsDb
shown = record db {
  requests = page_request ∷ [];
  exposures = page_exposures uuid5 text text draw page_request snapshot 0 page;
  events =
      map (impression_of uuid5 text text draw snapshot)
        (page_exposures uuid5 text text draw page_request snapshot 0 page);
}

recorded :
    record_page uuid5 text text draw 1 7 (pos 0) (pos 10) none page 3 20 db
    ≡ ok (page_request, shown)
unfolding record_page find all_online find_snapshot_item write_page insert_event insert_exposure
    insert_request
recorded = refl

abbrev liked : EventRequest
liked = record {
  event_id = 9;
  request_id = 3;
  item_id = 5;
  position = 0;
  event_type = like;
  client_timestamp = 25;
  duration_ms = none;
  payload = "{}";
}

abbrev exposure : Exposure
exposure = record {
  id = 10;
  request_id = 3;
  snapshot_id = 1;
  user_id = 7;
  item_id = 5;
  position = 0;
  source = "hot";
  model_version = "m";
  exposed_at = 20;
}

abbrev with_event : EventsDb
with_event = record shown {
  events = shown.events ++ new_event 7 liked exposure popular "h" 30 ∷ [];
}

abbrev after : EventsDb
after = update_profile words 7 liked "film" 30 with_event

submitted : submit hash words 7 liked 30 shown ≡ ok (accepted_result 9, after)
unfolding submit find joined_exposures insert_event
submitted = refl

db-IsConsistent : IsConsistent db
unfolding client_events find
db-IsConsistent = record {
  exposure_ids = tt;
  event_ids = tt;
  exposed = tt;
  counted = λ user. refl;
  bounded = tt;
}

Reach-IsConsistent_example : IsConsistent after
Reach-IsConsistent_example =
    Reach-IsConsistent uuid5 text text hash words batch_hash
      (next (next here (shows draw 1 7 (pos 0) (pos 10) none page 3 20 page_request recorded))
        (submits 7 liked 30 (accepted_result 9) submitted))
      db-IsConsistent

abbrev batch : EventBatchRequest
batch = record { batch_id = 2; events = liked ∷ liked ∷ [] }

abbrev results : List EventItemResult
results = accepted_result 9 ∷ duplicate_result 9 ∷ []

abbrev response : EventBatchResponse
response = record { batch_id = 2; accepted = 1; duplicate = 1; rejected = 0; results = results }

abbrev opening : EventBatch
opening = new_event_batch 7 batch "b" 30

abbrev batch_done : EventsDb
batch_done = record (update_profile words 7 liked "film" 30 with_event) {
  batches = completed opening response 30 ∷ [];
}

ran : submit_batch hash words batch_hash 7 batch 30 shown ≡ ok (response, batch_done)
unfolding submit_batch submit find replace joined_exposures insert_event update_profile count_status
ran = refl

submit_batch-counts_example :
    (map answered results ≡ map asked batch.events)
    × (response.accepted + response.duplicate + response.rejected ≡ length batch.events)
    × (length batch_done.events ≡ length shown.events + response.accepted)
unfolding find
submit_batch-counts_example =
    submit_batch-counts hash words batch_hash 7 batch 30 shown response batch_done ran refl

submit_batch-again_example :
    submit_batch hash words batch_hash 7 batch 50 batch_done ≡ ok (response, batch_done)
submit_batch-again_example =
    submit_batch-again hash words batch_hash 7 batch 30 shown response batch_done ran 50
