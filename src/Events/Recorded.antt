-- ===== src/Events/Recorded.antt =====
-- What `record_page` writes (apps/api/app/events/service.py).
use microlens_recsys_mvp.Prelude.{ℕ, suc, String, none, List, [], ◌∷◌}
use microlens_recsys_mvp.Events.Rows.{impression, Snapshot, PageRequest, Exposure, Event}
use microlens_recsys_mvp.Events.Pages.{PageExposure}

module _ (uuid5 : ℕ → ℕ → ℕ → ℕ) (impression_text impression_hash : ℕ → String) (draw : ℕ → ℕ) where
  -- The exposures of a page, at the positions from `k` on.
  abbrev pub page_exposures : PageRequest → Snapshot → ℕ → List PageExposure → List Exposure
  page_exposures request snapshot k [] = []
  page_exposures request snapshot k (e ∷ page) =
      record {
        id = draw k;
        request_id = request.request_id;
        snapshot_id = request.snapshot_id;
        user_id = request.user_id;
        item_id = e.item_id;
        position = k;
        source = e.source;
        model_version = snapshot.model_version;
        exposed_at = request.created_at;
      }
      ∷ page_exposures request snapshot (suc k) page

  -- The impression that goes with an exposure: its event id is made of the request, the item and the
  -- position, and it has the time of the exposure.
  abbrev pub impression_of : Snapshot → Exposure → Event
  impression_of snapshot x = record {
    event_id = uuid5 x.request_id x.item_id x.position;
    exposure_id = x.id;
    request_id = x.request_id;
    user_id = x.user_id;
    item_id = x.item_id;
    position = x.position;
    feed_type = snapshot.feed_type;
    source = x.source;
    event_type = impression;
    client_timestamp = none;
    server_timestamp = x.exposed_at;
    duration_ms = none;
    payload = impression_text x.id;
    payload_hash = impression_hash x.id;
  }
