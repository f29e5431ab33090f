-- ===== src/Events/Rows.antt =====
-- The tables of snapshots, exposures, events, batches and profiles (apps/api/app/db/models.py).
-- An id is a number that stands for its text; a score is kept as its text.
use microlens_recsys_mvp.Prelude.{
  ℕ, String, Bool, true, false, ◌&&◌, ◌||◌, Option, none, some, List, [], ◌∷◌, ◌++◌, ◌==◌, ltb, leb,
  is_some, if◌then◌else◌, ℤ, Result, ok, err, integrity_error,
}
use microlens_recsys_mvp.Prelude.Table.{find}

pub data FeedType : Type 0 where
  personalized popular explore : FeedType

pub data ClientEventType : Type 0 where
  click like not_interested dwell revisit share : ClientEventType

pub data EventType : Type 0 where
  impression : EventType
  client : ClientEventType → EventType

pub record CatalogueItem : Type 0 where
  pub item_id : ℕ
  pub title : String
  pub is_online : Bool

pub record Snapshot : Type 0 where
  pub snapshot_id : ℕ
  pub user_id : ℕ
  pub feed_type : FeedType
  pub model_version : String
  pub snapshot_seed : ℕ
  pub expires_at : ℕ
  pub created_at : ℕ

pub record SnapshotItem : Type 0 where
  pub snapshot_id : ℕ
  pub item_id : ℕ
  pub source : String
  pub raw_score : String
  pub normalized_score : String
  pub filter_reason : Option String
  pub snapshot_position : ℕ
  pub promotion_rule_id : Option ℕ

pub record PageRequest : Type 0 where
  pub request_id : ℕ
  pub snapshot_id : ℕ
  pub user_id : ℕ
  pub offset : ℕ
  pub limit : ℕ
  pub latency_ms : Option ℕ
  pub created_at : ℕ

pub record Exposure : Type 0 where
  pub id : ℕ
  pub request_id : ℕ
  pub snapshot_id : ℕ
  pub user_id : ℕ
  pub item_id : ℕ
  pub position : ℕ
  pub source : String
  pub model_version : String
  pub exposed_at : ℕ

pub record Event : Type 0 where
  pub event_id : ℕ
  pub exposure_id : ℕ
  pub request_id : ℕ
  pub user_id : ℕ
  pub item_id : ℕ
  pub position : ℕ
  pub feed_type : FeedType
  pub source : String
  pub event_type : EventType
  pub client_timestamp : Option ℕ
  pub server_timestamp : ℕ
  pub duration_ms : Option ℕ
  pub payload : String
  pub payload_hash : String

pub data EventStatus : Type 0 where
  accepted duplicate rejected : EventStatus

pub record EventItemResult : Type 0 where
  pub event_id : ℕ
  pub status : EventStatus
  pub error_code : Option String
  pub message : Option String

pub record EventBatchResponse : Type 0 where
  pub batch_id : ℕ
  pub accepted : ℕ
  pub duplicate : ℕ
  pub rejected : ℕ
  pub results : List EventItemResult

pub record EventBatch : Type 0 where
  pub batch_id : ℕ
  pub user_id : ℕ
  pub payload_hash : String
  pub item_count : ℕ
  pub accepted_count : ℕ
  pub duplicate_count : ℕ
  pub rejected_count : ℕ
  pub started_at : ℕ
  pub completed_at : Option ℕ
  pub result : Option EventBatchResponse

pub record Interaction : Type 0 where
  pub event_id : ℕ
  pub event_type : ClientEventType
  pub item_id : ℕ
  pub server_timestamp : ℕ

-- The JSON object of one token.
pub record Preference : Type 0 where
  pub token : ℕ
  pub positive : ℕ
  pub negative : ℕ
  pub score : ℤ

-- A summary is a list of keys with their counts.
pub record UserProfile : Type 0 where
  pub user_id : ℕ
  pub recent_interactions : List Interaction
  pub positive_summary : List (ℕ × ℕ)
  pub negative_summary : List (ℕ × ℕ)
  pub dwell_events : ℕ
  pub dwell_duration : ℕ
  pub revisit_summary : List (ℕ × ℕ)
  pub share_summary : List (ℕ × ℕ)
  pub title_preferences : List Preference
  pub profile_version : ℕ
  pub updated_at : ℕ

pub record EventsDb : Type 0 where
  pub items : List CatalogueItem
  pub snapshots : List Snapshot
  pub snapshot_items : List SnapshotItem
  pub requests : List PageRequest
  pub exposures : List Exposure
  pub events : List Event
  pub batches : List EventBatch
  pub profiles : List UserProfile

abbrev pub item_key : CatalogueItem → ℕ
item_key i = i.item_id

abbrev pub snapshot_key : Snapshot → ℕ
snapshot_key s = s.snapshot_id

abbrev pub request_key : PageRequest → ℕ
request_key r = r.request_id

abbrev pub exposure_key : Exposure → ℕ
exposure_key e = e.id

abbrev pub event_key : Event → ℕ
event_key e = e.event_id

abbrev pub event_batch_key : EventBatch → ℕ
event_batch_key b = b.batch_id

abbrev pub profile_key : UserProfile → ℕ
profile_key p = p.user_id

abbrev online_item : Option CatalogueItem → Bool
online_item none = false
online_item (some item) = item.is_online

-- Every id is the id of an online item.
unfoldable pub all_online : List ℕ → List CatalogueItem → Bool
all_online [] items = true
all_online (id ∷ ids) items = online_item (find item_key id items) && all_online ids items

unfoldable pub find_snapshot_item :
    (snapshot_id item_id : ℕ) → List SnapshotItem → Option SnapshotItem
find_snapshot_item snapshot_id item_id [] = none
find_snapshot_item snapshot_id item_id (r ∷ rows) =
    if r.snapshot_id == snapshot_id && r.item_id == item_id
    then some r
    else find_snapshot_item snapshot_id item_id rows

abbrev duration_range : Option ℕ → Bool
duration_range none = true
duration_range (some n) = leb n 86400000

abbrev is_impression : EventType → Bool
is_impression impression = true
is_impression (client type) = false

-- `uq_events_canonical_impression_exposure`
abbrev has_impression : ℕ → List Event → Bool
has_impression exposure_id [] = false
has_impression exposure_id (e ∷ events) =
    (is_impression e.event_type && e.exposure_id == exposure_id)
    || has_impression exposure_id events

-- `fk_events_exposure_identity`
abbrev pub refers : Event → Exposure → Bool
refers e x =
    x.id == e.exposure_id
    && x.request_id == e.request_id
    && x.user_id == e.user_id
    && x.item_id == e.item_id
    && x.position == e.position

abbrev pub has_exposure : Event → List Exposure → Bool
has_exposure e [] = false
has_exposure e (x ∷ exposures) = refers e x || has_exposure e exposures

-- The flush of a new event, with the constraints of its table.
unfoldable pub insert_event : Event → EventsDb → Result EventsDb
insert_event e db =
    if is_some (find event_key e.event_id db.events)
      || (is_impression e.event_type && has_impression e.exposure_id db.events)
    then err integrity_error
    else if duration_range e.duration_ms && has_exposure e db.exposures
    then ok (record db { events = db.events ++ e ∷ [] })
    else err integrity_error

-- `uq_exposure_request_item_pos`
abbrev same_place : Exposure → Exposure → Bool
same_place a b = a.request_id == b.request_id && a.item_id == b.item_id && a.position == b.position

abbrev has_place : Exposure → List Exposure → Bool
has_place x [] = false
has_place x (y ∷ exposures) = same_place x y || has_place x exposures

unfoldable pub insert_exposure : Exposure → EventsDb → Result EventsDb
insert_exposure x db =
    if is_some (find exposure_key x.id db.exposures) || has_place x db.exposures
    then err integrity_error
    else ok (record db { exposures = db.exposures ++ x ∷ [] })

-- The checks on offset, limit and latency hold of the numbers that reach the table.
unfoldable pub insert_request : PageRequest → EventsDb → Result EventsDb
insert_request r db =
    if is_some (find request_key r.request_id db.requests)
    then err integrity_error
    else if ltb 0 r.limit && leb r.limit 100
    then ok (record db { requests = db.requests ++ r ∷ [] })
    else err integrity_error
