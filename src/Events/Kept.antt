-- ===== src/Events/Kept.antt =====
-- Each operation on snapshots, pages and events keeps the tables consistent
-- (apps/api/app/events/service.py).
use microlens_recsys_mvp.Prelude.{
  ℕ, String, true, not, ◌&&◌, ◌≡◌, refl, sym, ap, subst, ◌∙◌, inl, inr, Option, some, List, [], ◌∷◌,
  ◌++◌, All, map, is_some, Option-cases, ℤ, value_error, integrity_error, nonnegative, Result, ok,
  err, require, guard, >>=-eq-ok, arith,
}
use microlens_recsys_mvp.Prelude.Table.{find, IsKeyed}
use microlens_recsys_mvp.Durable.Domain.{DateTime, require_aware}
use microlens_recsys_mvp.Events.Rows.{
  FeedType, Snapshot, PageRequest, Exposure, EventItemResult, EventBatchResponse, EventBatch,
  EventsDb, snapshot_key, all_online, exposure_key, event_key, has_exposure, event_batch_key,
  insert_event, insert_exposure, insert_request,
}
use microlens_recsys_mvp.Events.Snapshots.{
  SnapshotCandidate, int_distinct, no_negative, candidate_position, candidate_item, snapshot_item,
  insert_items, create_snapshot,
}
use microlens_recsys_mvp.Events.Pages.{
  PageExposure, page_exposure, canonical_impression, expose, record_page,
}
use microlens_recsys_mvp.Events.Profile.{EventRequest}
use microlens_recsys_mvp.Events.Submit.{submit}
use microlens_recsys_mvp.Events.Batches.{
  EventBatchRequest, item_result, new_event_batch, replay_batch, insert_event_batch, submit_item,
  submit_each, complete_batch, after_batch, batch_or_replay, submit_batch,
}
use microlens_recsys_mvp.Events.Bounds.{IsBounded}
use microlens_recsys_mvp.Events.Consistent.{
  IsConsistent, client_events, profile_version, insert_exposure-IsConsistent,
  impression-IsConsistent,
}
use microlens_recsys_mvp.Events.Moved.{client_event-IsConsistent}
use microlens_recsys_mvp.Events.Checked.{record_page-IsChecked}
use microlens_recsys_mvp.Events.Outcome.{row, submit-Outcome}

-- The consistency of the tables that the operations share.
same_tables :
    (db db' : EventsDb)
    → IsConsistent db
    → db'.exposures ≡ db.exposures
    → db'.events ≡ db.events
    → db'.profiles ≡ db.profiles
    → IsConsistent db'
same_tables db db' c x e p = record {
  exposure_ids = subst (IsKeyed exposure_key) (sym x) c.exposure_ids;
  event_ids = subst (IsKeyed event_key) (sym e) c.event_ids;
  exposed =
      subst (λ xs. All (λ v. has_exposure v xs ≡ true) db'.events) (sym x)
        (subst (All (λ v. has_exposure v db.exposures ≡ true)) (sym e) c.exposed);
  counted = λ user. ap (profile_version user) p ∙ c.counted user ∙ sym (ap (client_events user) e);
  bounded = subst (All IsBounded) (sym p) c.bounded;
}

module _ (uuid5 : ℕ → ℕ → ℕ → ℕ) (impression_text impression_hash : ℕ → String) (draw : ℕ → ℕ) where
  expose-IsConsistent :
      (request : PageRequest) (snapshot : Snapshot) (page : List PageExposure) (db db' : EventsDb)
      → IsConsistent db
      → expose uuid5 impression_text impression_hash draw request snapshot page db ≡ ok db'
      → IsConsistent db'
  unfolding expose
  expose-IsConsistent request snapshot [] db db' c h = subst IsConsistent (ground arith) c
  expose-IsConsistent request snapshot (e ∷ page) db db' c h =
      let (k, e0, h0) = >>=-eq-ok (nonnegative e.position integrity_error) _ h in
      let x : Exposure =
        page_exposure uuid5 impression_text impression_hash draw request snapshot k e in
      let (shown, e1, h1) = >>=-eq-ok (insert_exposure x db) _ h0 in
      let (seen, e2, h2) =
        >>=-eq-ok
          (insert_event (canonical_impression uuid5 impression_text impression_hash draw snapshot x)
            shown)
          _ h1 in
      expose-IsConsistent request snapshot page seen db'
        (impression-IsConsistent _ shown seen (insert_exposure-IsConsistent x db shown c e1) e2
          refl)
        h2

  insert_request-tables :
      (r : PageRequest) (db db' : EventsDb)
      → insert_request r db ≡ ok db'
      → (db'.exposures ≡ db.exposures) × (db'.events ≡ db.events) × (db'.profiles ≡ db.profiles)
  unfolding insert_request
  insert_request-tables r db db' h = ground arith

  pub record_page-IsConsistent :
      (snapshot_id user_id : ℕ) (offset limit : ℤ) (latency_ms : Option ℤ)
      (page : List PageExposure) (request_id now : ℕ) (request : PageRequest) (db db' : EventsDb)
      → IsConsistent db
      → record_page uuid5 impression_text impression_hash draw snapshot_id user_id offset limit
          latency_ms page request_id now db
        ≡ ok (request, db')
      → IsConsistent db'
  record_page-IsConsistent snapshot_id user_id offset limit latency_ms page request_id now request
        db db' c h =
      let p =
        record_page-IsChecked uuid5 impression_text impression_hash draw snapshot_id user_id offset
          limit latency_ms page request_id now db request db' h in
      let (x, e, q) = insert_request-tables request db p.opened p.inserted in
      expose-IsConsistent request p.snapshot page p.opened db' (same_tables db p.opened c x e q)
        p.exposed

pub create_snapshot-IsConsistent :
    (user_id : ℕ) (feed_type : FeedType) (model_version : String) (seed : ℕ) (expires_at : DateTime)
    (candidates : List SnapshotCandidate) (snapshot_id now : ℕ) (s : Snapshot) (db db' : EventsDb)
    → IsConsistent db
    → create_snapshot user_id feed_type model_version seed expires_at candidates snapshot_id now db
      ≡ ok (s, db')
    → IsConsistent db'
unfolding create_snapshot
create_snapshot-IsConsistent user_id feed_type model_version seed expires_at candidates snapshot_id
      now s db db' c h =
    let (u1, e1, h1) =
      >>=-eq-ok (require_aware expires_at "expires_at must be timezone-aware") _ h in
    let (u2, e2, h2) =
      >>=-eq-ok
        (guard
          (int_distinct (map candidate_position candidates)
            && no_negative (map candidate_position candidates))
          (value_error "snapshot positions must be unique and nonnegative"))
        _ h1 in
    let (u3, e3, h3) =
      >>=-eq-ok
        (guard (all_online (map candidate_item candidates) db.items)
          (value_error "snapshot contains missing or offline items"))
        _ h2 in
    let (u4, e4, h4) =
      >>=-eq-ok (guard (not (is_some (find snapshot_key snapshot_id db.snapshots))) integrity_error)
        _ h3 in
    let (rows, e5, h5) =
      >>=-eq-ok (insert_items (map (snapshot_item snapshot_id) candidates) db.snapshot_items) _
        h4 in
    let x : db'.exposures ≡ db.exposures = ground arith in
    let e : db'.events ≡ db.events = ground arith in
    let p : db'.profiles ≡ db.profiles = ground arith in same_tables db db' c x e p

module _ (hash : ℕ → EventRequest → String) (words : String → List ℕ) (user_id : ℕ) where
  pub submit-IsConsistent :
      (request : EventRequest) (now : ℕ) (result : EventItemResult) (db db' : EventsDb)
      → IsConsistent db
      → submit hash words user_id request now db ≡ ok (result, db')
      → IsConsistent db'
  submit-IsConsistent request now result db db' c h =
      elim (submit-Outcome hash words user_id request now db result db' h) [
        | inl p ↦ subst IsConsistent (sym p.0) c
        | inr t ↦ subst IsConsistent (sym t.after) (
            client_event-IsConsistent words request t.joined.2 now user_id
              (row hash words user_id request now db t.joined) db t.written c t.inserted refl refl)
      ]

  submit_item-IsConsistent :
      (item : EventRequest) (now : ℕ) (db : EventsDb)
      → IsConsistent db
      → IsConsistent (submit_item hash words user_id item now db).1
  unfolding submit_item
  submit_item-IsConsistent item now db c = kept (submit hash words user_id item now db) refl
    where
      kept :
          (r : Result (EventItemResult × EventsDb))
          → submit hash words user_id item now db ≡ r
          → IsConsistent (item_result item db r).1
      kept (ok (result, db')) e = submit-IsConsistent item now result db db' c e
      kept (err raised) e = c

  submit_each-IsConsistent :
      (items : List EventRequest) (now : ℕ) (db : EventsDb)
      → IsConsistent db
      → IsConsistent (submit_each hash words user_id items now db).1
  unfolding submit_each
  submit_each-IsConsistent [] now db c = c
  submit_each-IsConsistent (item ∷ items) now db c =
      submit_each-IsConsistent items now _ (submit_item-IsConsistent item now db c)

  module _ (batch_hash : ℕ → EventBatchRequest → String) (request : EventBatchRequest) (now : ℕ)
      (db : EventsDb) (c : IsConsistent db) where
    opened_batch :
        (b : EventBatch) (opened : EventsDb)
        → insert_event_batch b db ≡ ok opened
        → IsConsistent opened
    unfolding insert_event_batch
    opened_batch b opened h =
        let after : opened ≡ record db { batches = db.batches ++ b ∷ [] } = ground arith in
        same_tables db opened c (ap (λ d. d.exposures) after) (ap (λ d. d.events) after)
          (ap (λ d. d.profiles) after)

    after_batch-IsConsistent :
        (r : Result EventsDb) (response : EventBatchResponse) (db' : EventsDb)
        → insert_event_batch (new_event_batch user_id request (batch_hash user_id request) now) db
          ≡ r
        → after_batch hash words batch_hash user_id request now db r ≡ ok (response, db')
        → IsConsistent db'
    after_batch-IsConsistent (ok opened) response db' e h =
        let run : EventsDb = (submit_each hash words user_id request.events now opened).1 in
        let c1 : IsConsistent run =
          submit_each-IsConsistent request.events now opened (opened_batch _ opened e) in
        let last : (complete_batch hash words batch_hash user_id request now opened).1 ≡ db' =
          ground arith in
        subst IsConsistent last (same_tables run _ c1 refl refl refl)
    after_batch-IsConsistent (err integrity_error) response db' e h =
        let (old, f, h1) =
          >>=-eq-ok (require (find event_batch_key request.batch_id db.batches) integrity_error) _
            h in
        let (r, g, h2) = >>=-eq-ok (replay_batch old user_id (batch_hash user_id request)) _ h1 in
        subst IsConsistent (ground arith) c
    after_batch-IsConsistent (err other) response db' e h = absurd (ground arith)

    pub submit_batch-IsConsistent :
        (response : EventBatchResponse) (db' : EventsDb)
        → submit_batch hash words batch_hash user_id request now db ≡ ok (response, db')
        → IsConsistent db'
    unfolding submit_batch
    submit_batch-IsConsistent response db' h =
        elim (Option-cases (find event_batch_key request.batch_id db.batches)) [
          | inr (old, f) ↦
              let h1 : batch_or_replay hash words batch_hash user_id request now db (some old)
                  ≡ ok (response, db') =
                subst
                  (λ o.
                    batch_or_replay hash words batch_hash user_id request now db o
                    ≡ ok (response, db'))
                  f h in
              let (r, g, h2) =
                >>=-eq-ok (replay_batch old user_id (batch_hash user_id request)) _ h1 in
              subst IsConsistent (ground arith) c
          | inl absent ↦
              after_batch-IsConsistent
                (insert_event_batch
                  (new_event_batch user_id request (batch_hash user_id request) now) db)
                response db' refl
                (subst
                  (λ o.
                    batch_or_replay hash words batch_hash user_id request now db o
                    ≡ ok (response, db'))
                  absent h)
        ]
