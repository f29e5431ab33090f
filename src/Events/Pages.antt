-- ===== src/Events/Pages.antt =====
-- `SnapshotService.record_page` (apps/api/app/events/service.py): the checks of a page, and the
-- exposures with their canonical impressions.
use microlens_recsys_mvp.Prelude.{
  ℕ, suc, String, Bool, true, false, not, ◌&&◌, ◌||◌, Option, none, some, List, [], ◌∷◌, map,
  length, ◌==◌, ltb, leb, str_eq, is_some, if◌then◌else◌, ℤ, pos, negsuc, Error, value_error,
  integrity_error, nonnegative, Result, ok, err, ◌>>=◌, ◌>>◌, guard, require,
}
use microlens_recsys_mvp.Prelude.Table.{find}
use microlens_recsys_mvp.Events.Rows.{
  impression, Snapshot, SnapshotItem, PageRequest, Exposure, Event, EventsDb, snapshot_key,
  all_online, find_snapshot_item, insert_event, insert_exposure, insert_request,
}

pub record PageExposure : Type 0 where
  pub item_id : ℕ
  pub position : ℤ
  pub source : String

abbrev pub not_owned : Error
not_owned = value_error "snapshot does not belong to the authenticated user"

abbrev pub require_owned : Option Snapshot → ℕ → Result Snapshot
require_owned none user_id = err not_owned
require_owned (some s) user_id = if s.user_id == user_id then ok s else err not_owned

abbrev out_of_range : Error
out_of_range = value_error "page offset/limit is outside the contract range"

-- `offset < 0 or limit < 1 or limit > 100`
unfoldable pub page_range : (offset limit : ℤ) → Result (ℕ × ℕ)
page_range (pos offset) (pos limit) =
    if leb 1 limit && leb limit 100 then ok (offset, limit) else err out_of_range
page_range _ _ = err out_of_range

abbrev pub nonnegative_latency : Option ℤ → Result (Option ℕ)
nonnegative_latency none = ok none
nonnegative_latency (some (pos n)) = ok (some n)
nonnegative_latency (some (negsuc n)) = err (value_error "latency_ms must be nonnegative")

abbrev pub num_mem : ℕ → List ℕ → Bool
num_mem a [] = false
num_mem a (b ∷ bs) = a == b || num_mem a bs

abbrev pub num_distinct : List ℕ → Bool
num_distinct [] = true
num_distinct (a ∷ bs) = not (num_mem a bs) && num_distinct bs

abbrev pub int_is : ℤ → ℕ → Bool
int_is (pos n) k = n == k
int_is (negsuc n) k = false

-- `positions == list(range(offset, offset + len(page)))`
unfoldable pub contiguous : ℕ → List PageExposure → Bool
contiguous k [] = true
contiguous k (e ∷ page) = int_is e.position k && contiguous (suc k) page

abbrev pub page_item : PageExposure → ℕ
page_item e = e.item_id

-- Every item of the page is in the snapshot.
unfoldable pub all_in_snapshot : ℕ → List SnapshotItem → List PageExposure → Bool
all_in_snapshot snapshot_id rows [] = true
all_in_snapshot snapshot_id rows (e ∷ page) =
    is_some (find_snapshot_item snapshot_id e.item_id rows) && all_in_snapshot snapshot_id rows page

abbrev pub outside : Error
outside = value_error "page contains items outside the immutable snapshot"

-- The positions that the snapshot gives to the items, where the sources agree.
unfoldable pub snapshot_positions : ℕ → List SnapshotItem → List PageExposure → Result (List ℕ)
snapshot_positions snapshot_id rows [] = ok []
snapshot_positions snapshot_id rows (e ∷ page) = do
  item ← require (find_snapshot_item snapshot_id e.item_id rows) outside
  guard (str_eq item.source e.source) (value_error "page source must match the immutable snapshot")
  rest ← snapshot_positions snapshot_id rows page
  ok (item.snapshot_position ∷ rest)

-- No position is at least the one that follows it.
abbrev pub increasing : List ℕ → Bool
increasing [] = true
increasing (a ∷ []) = true
increasing (a ∷ (b ∷ rest)) = ltb a b && increasing (b ∷ rest)

abbrev pub check_order : List ℕ → Result (Unit {0})
check_order positions =
    guard (increasing positions) (value_error "page items must retain immutable snapshot order")

-- `uuid5` names the impression of a request, an item and a position; `impression_hash` is the
-- fingerprint of the payload, `impression_text` its text; `draw` gives the ids of the exposures.
module _ (uuid5 : ℕ → ℕ → ℕ → ℕ) (impression_text impression_hash : ℕ → String) (draw : ℕ → ℕ) where
  abbrev pub page_exposure : PageRequest → Snapshot → ℕ → PageExposure → Exposure
  page_exposure request snapshot position e = record {
    id = draw position;
    request_id = request.request_id;
    snapshot_id = request.snapshot_id;
    user_id = request.user_id;
    item_id = e.item_id;
    position = position;
    source = e.source;
    model_version = snapshot.model_version;
    exposed_at = request.created_at;
  }

  abbrev pub canonical_impression : Snapshot → Exposure → Event
  canonical_impression snapshot x = record {
    event_id = uuid5 x.request_id x.item_id x.position;
    exposure_id = x.id;
    request_id = x.request_id;
    user_id = x.user_id;
    item_id = x.item_id;
    position = x.position;
    feed_type = snapshot.feed_type;
    source = x.source;
    event_type = impression;
    client_timestamp = none;
    server_timestamp = x.exposed_at;
    duration_ms = none;
    payload = impression_text x.id;
    payload_hash = impression_hash x.id;
  }

  -- The loop over the page; the table refuses a position below 0 (`position_nonnegative`).
  unfoldable pub expose : PageRequest → Snapshot → List PageExposure → EventsDb → Result EventsDb
  expose request snapshot [] db = ok db
  expose request snapshot (e ∷ page) db = do
    position ← nonnegative e.position integrity_error
    let x = page_exposure request snapshot position e
    shown ← insert_exposure x db
    seen ← insert_event (canonical_impression snapshot x) shown
    expose request snapshot page seen

  -- The row of the request, and the exposures.
  unfoldable pub write_page :
      PageRequest → Snapshot → List PageExposure → EventsDb → Result (PageRequest × EventsDb)
  unfolding expose
  write_page request snapshot page db = do
    opened ← insert_request request db
    done ← expose request snapshot page opened
    ok (request, done)

  unfoldable pub record_page :
      (snapshot_id user_id : ℕ) (offset limit : ℤ) (latency_ms : Option ℤ)
      (page : List PageExposure) (request_id now : ℕ)
      → EventsDb
      → Result (PageRequest × EventsDb)
  unfolding page_range contiguous all_in_snapshot snapshot_positions write_page
  record_page snapshot_id user_id offset limit latency_ms page request_id now db = do
    snapshot ← require_owned (find snapshot_key snapshot_id db.snapshots) user_id
    guard (ltb now snapshot.expires_at) (value_error "snapshot is expired")
    (start, size) ← page_range offset limit
    latency ← nonnegative_latency latency_ms
    guard (leb (length page) size) (value_error "page length cannot exceed request limit")
    guard (num_distinct (map page_item page)) (value_error "page item_ids must be unique")
    guard (contiguous start page) (value_error "page positions must be contiguous from offset")
    guard (all_online (map page_item page) db.items)
        (value_error "page contains missing or offline items")
    guard (all_in_snapshot snapshot_id db.snapshot_items page) outside
    positions ← snapshot_positions snapshot_id db.snapshot_items page
    check_order positions
    let request : PageRequest = record {
      request_id = request_id;
      snapshot_id = snapshot_id;
      user_id = user_id;
      offset = start;
      limit = size;
      latency_ms = latency;
      created_at = now;
    }
    write_page request snapshot page db
