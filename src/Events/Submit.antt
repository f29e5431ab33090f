-- ===== src/Events/Submit.antt =====
-- `EventService.submit` (apps/api/app/events/service.py).
use microlens_recsys_mvp.Prelude.{
  ℕ, String, Bool, true, false, ◌&&◌, Option, none, some, List, [], ◌∷◌, ◌==◌, str_eq,
  if◌then◌else◌, other_error, integrity_error, Result, ok, err, ◌>>=◌, require,
}
use microlens_recsys_mvp.Prelude.Table.{find}
use microlens_recsys_mvp.Events.Rows.{
  FeedType, ClientEventType, dwell, client, CatalogueItem, Snapshot, Exposure, Event,
  EventItemResult, EventStatus, accepted, duplicate, rejected, EventsDb, item_key, snapshot_key,
  event_key, insert_event,
}
use microlens_recsys_mvp.Events.Profile.{EventRequest, update_profile}

abbrev pub matches : ℕ → EventRequest → Exposure → Bool
matches user_id request x =
    x.request_id == request.request_id
    && x.user_id == user_id
    && x.item_id == request.item_id
    && x.position == request.position

-- A row of the join of exposures with snapshots and items.
abbrev pub Joined : Type 0
Joined = Exposure × FeedType × String

abbrev join_row : Exposure → Option Snapshot → Option CatalogueItem → List Joined → List Joined
join_row x (some s) (some item) rest = (x, s.feed_type, item.title) ∷ rest
join_row x _ _ rest = rest

unfoldable pub joined_exposures : ℕ → EventRequest → EventsDb → List Exposure → List Joined
joined_exposures user_id request db [] = []
joined_exposures user_id request db (x ∷ xs) =
    let rest = joined_exposures user_id request db xs in
    if matches user_id request x
    then join_row x (find snapshot_key x.snapshot_id db.snapshots)
        (find item_key x.item_id db.items) rest
    else rest

-- `one_or_none`
abbrev pub one_or_none : List Joined → Result (Option Joined)
one_or_none [] = ok none
one_or_none (row ∷ []) = ok (some row)
one_or_none (row ∷ (other ∷ rest)) = err (other_error "MultipleResultsFound")

abbrev pub rejection : ℕ → String → String → EventItemResult
rejection event_id code message = record {
  event_id = event_id;
  status = rejected;
  error_code = some code;
  message = some message;
}

abbrev pub is_accepted : EventStatus → Bool
is_accepted accepted = true
is_accepted _ = false

-- `_classify_existing_event`
unfoldable pub classify_existing_event : Event → ℕ → EventRequest → String → EventItemResult
classify_existing_event existing user_id request payload_hash =
    if existing.user_id == user_id && str_eq existing.payload_hash payload_hash
    then record {
      event_id = request.event_id;
      status = duplicate;
      error_code = none;
      message = none;
    }
    else rejection request.event_id "event_id_conflict"
        "event_id was already used for different content"

abbrev pub lacks_duration : ClientEventType → Option ℕ → Bool
lacks_duration dwell none = true
lacks_duration _ _ = false

abbrev pub new_event : ℕ → EventRequest → Exposure → FeedType → String → ℕ → Event
new_event user_id request x feed_type payload_hash now = record {
  event_id = request.event_id;
  exposure_id = x.id;
  request_id = request.request_id;
  user_id = user_id;
  item_id = request.item_id;
  position = request.position;
  feed_type = feed_type;
  source = x.source;
  event_type = client request.event_type;
  client_timestamp = some request.client_timestamp;
  server_timestamp = now;
  duration_ms = request.duration_ms;
  payload = request.payload;
  payload_hash = payload_hash;
}

-- `hash` is the fingerprint of a user's event, `words` the words of a title.
module _ (hash : ℕ → EventRequest → String) (words : String → List ℕ) where
  -- After the savepoint: the profile moves, or the event of another transaction is classified.
  unfoldable pub after_insert :
      (user_id : ℕ)
      → EventRequest
      → String
      → ℕ
      → EventsDb
      → Result EventsDb
      → Result (EventItemResult × EventsDb)
  unfolding classify_existing_event
  after_insert user_id request title now db (ok written) = ok (
    record { event_id = request.event_id; status = accepted; error_code = none; message = none },
    update_profile words user_id request title now written,
  )
  after_insert user_id request title now db (err integrity_error) = do
    existing ← require (find event_key request.event_id db.events) integrity_error
    ok (classify_existing_event existing user_id request (hash user_id request), db)
  after_insert user_id request title now db (err raised) = err raised

  unfoldable pub submit_joined :
      (user_id : ℕ)
      → EventRequest
      → ℕ
      → EventsDb
      → Option Joined
      → Result (EventItemResult × EventsDb)
  unfolding after_insert
  submit_joined user_id request now db none = ok (
    rejection request.event_id "exposure_mismatch"
        "request, user, item, and position must match an exposure",
    db,
  )
  submit_joined user_id request now db (some (x, feed_type, title)) =
      if lacks_duration request.event_type request.duration_ms
      then ok
          (rejection request.event_id "duration_required" "duration_ms is required for dwell", db)
      else after_insert user_id request title now db
          (insert_event (new_event user_id request x feed_type (hash user_id request) now) db)

  abbrev pub submit_new :
      (user_id : ℕ) → EventRequest → ℕ → EventsDb → Result (EventItemResult × EventsDb)
  submit_new user_id request now db =
      one_or_none (joined_exposures user_id request db db.exposures)
      >>= submit_joined user_id request now db

  abbrev pub submit_existing :
      (user_id : ℕ)
      → EventRequest
      → ℕ
      → EventsDb
      → Option Event
      → Result (EventItemResult × EventsDb)
  submit_existing user_id request now db (some existing) =
      ok (classify_existing_event existing user_id request (hash user_id request), db)
  submit_existing user_id request now db none = submit_new user_id request now db

  unfoldable pub submit :
      (user_id : ℕ) → EventRequest → (now : ℕ) → EventsDb → Result (EventItemResult × EventsDb)
  unfolding submit_joined classify_existing_event joined_exposures
  submit user_id request now db =
      submit_existing user_id request now db (find event_key request.event_id db.events)
