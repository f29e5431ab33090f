-- ===== src/Events/System.antt =====
-- Sequences of committed operations on snapshots, pages and events
-- (apps/api/app/events/service.py).
use microlens_recsys_mvp.Prelude.{ℕ, String, ◌≡◌, Option, List, ℤ, ok}
use microlens_recsys_mvp.Durable.Domain.{DateTime}
use microlens_recsys_mvp.Events.Rows.{
  FeedType, Snapshot, PageRequest, EventItemResult, EventBatchResponse, EventsDb,
}
use microlens_recsys_mvp.Events.Snapshots.{SnapshotCandidate, create_snapshot}
use microlens_recsys_mvp.Events.Pages.{PageExposure, record_page}
use microlens_recsys_mvp.Events.Profile.{EventRequest}
use microlens_recsys_mvp.Events.Submit.{submit}
use microlens_recsys_mvp.Events.Batches.{EventBatchRequest, submit_batch}
use microlens_recsys_mvp.Events.Consistent.{IsConsistent}
use microlens_recsys_mvp.Events.Kept.{
  create_snapshot-IsConsistent, record_page-IsConsistent, submit-IsConsistent,
  submit_batch-IsConsistent,
}

module _ (uuid5 : ℕ → ℕ → ℕ → ℕ) (impression_text impression_hash : ℕ → String)
    (hash : ℕ → EventRequest → String) (words : String → List ℕ)
    (batch_hash : ℕ → EventBatchRequest → String) where
  -- One operation that commits, with any arguments.
  pub data Step : EventsDb → EventsDb → Type 0 where
    snapshots :
        {db db' : EventsDb} (user_id : ℕ) (feed_type : FeedType) (model_version : String) (seed : ℕ)
        (expires_at : DateTime) (candidates : List SnapshotCandidate) (snapshot_id now : ℕ)
        (s : Snapshot)
        → create_snapshot user_id feed_type model_version seed expires_at candidates snapshot_id now
            db
          ≡ ok (s, db')
        → Step db db'
    shows :
        {db db' : EventsDb} (draw : ℕ → ℕ) (snapshot_id user_id : ℕ) (offset limit : ℤ)
        (latency_ms : Option ℤ) (page : List PageExposure) (request_id now : ℕ)
        (request : PageRequest)
        → record_page uuid5 impression_text impression_hash draw snapshot_id user_id offset limit
            latency_ms page request_id now db
          ≡ ok (request, db')
        → Step db db'
    submits :
        {db db' : EventsDb} (user_id : ℕ) (request : EventRequest) (now : ℕ)
        (result : EventItemResult)
        → submit hash words user_id request now db ≡ ok (result, db')
        → Step db db'
    batches :
        {db db' : EventsDb} (user_id : ℕ) (request : EventBatchRequest) (now : ℕ)
        (response : EventBatchResponse)
        → submit_batch hash words batch_hash user_id request now db ≡ ok (response, db')
        → Step db db'

  pub data Reach (db : EventsDb) : EventsDb → Type 0 where
    here : Reach db db
    next : {mid after : EventsDb} → Reach db mid → Step mid after → Reach db after

  Step-IsConsistent : {db db' : EventsDb} → Step db db' → IsConsistent db → IsConsistent db'
  Step-IsConsistent {db} {db'} (snapshots user feed model seed expiry candidates id now s h) c =
      create_snapshot-IsConsistent user feed model seed expiry candidates id now s db db' c h
  Step-IsConsistent {db} {db'} (shows draw id user offset limit latency page rid now request h) c =
      record_page-IsConsistent uuid5 impression_text impression_hash draw id user offset limit
        latency page rid now request db db' c h
  Step-IsConsistent {db} {db'} (submits user request now result h) c =
      submit-IsConsistent hash words user request now result db db' c h
  Step-IsConsistent {db} {db'} (batches user request now response h) c =
      submit_batch-IsConsistent hash words user batch_hash request now db c response db' h

  -- From consistent tables every sequence of snapshots, recorded pages, submitted events and
  -- batches leads to consistent ones: exposures and events have distinct ids, each event has the
  -- exposure that it names, each profile is bounded (at most 100 recent interactions, at most 64
  -- title tokens, each with counts and a score of at most 100), and the version of each user's
  -- profile is the number of the user's client events in the table.
  pub Reach-IsConsistent : {db db' : EventsDb} → Reach db db' → IsConsistent db → IsConsistent db'
  Reach-IsConsistent here c = c
  Reach-IsConsistent (next before step) c = Step-IsConsistent step (Reach-IsConsistent before c)
