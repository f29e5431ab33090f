-- ===== src/Events/Snapshots.antt =====
-- `SnapshotService.create_snapshot` (apps/api/app/events/service.py).
use microlens_recsys_mvp.Prelude.{
  ℕ, String, Bool, true, false, not, ◌&&◌, ◌||◌, Option, List, [], ◌∷◌, ◌++◌, map, ◌==◌, is_some,
  if◌then◌else◌, ℤ, pos, negsuc, value_error, integrity_error, Result, ok, err, ◌>>=◌, ◌>>◌, guard,
}
use microlens_recsys_mvp.Prelude.Table.{find}
use microlens_recsys_mvp.Durable.Domain.{DateTime, require_aware}
use microlens_recsys_mvp.Events.Rows.{
  FeedType, Snapshot, SnapshotItem, EventsDb, snapshot_key, all_online,
}

pub record SnapshotCandidate : Type 0 where
  pub item_id : ℕ
  pub source : String
  pub raw_score : String
  pub normalized_score : String
  pub snapshot_position : ℤ
  pub filter_reason : Option String
  pub promotion_rule_id : Option ℕ

abbrev int_eq : ℤ → ℤ → Bool
int_eq (pos a) (pos b) = a == b
int_eq (negsuc a) (negsuc b) = a == b
int_eq _ _ = false

abbrev int_mem : ℤ → List ℤ → Bool
int_mem a [] = false
int_mem a (b ∷ bs) = int_eq a b || int_mem a bs

abbrev pub int_distinct : List ℤ → Bool
int_distinct [] = true
int_distinct (a ∷ as_) = not (int_mem a as_) && int_distinct as_

abbrev pub no_negative : List ℤ → Bool
no_negative [] = true
no_negative (pos a ∷ rest) = no_negative rest
no_negative (negsuc a ∷ rest) = false

-- The number of a position that passed the check.
abbrev pub natural : ℤ → ℕ
natural (pos n) = n
natural (negsuc n) = 0

abbrev pub candidate_position : SnapshotCandidate → ℤ
candidate_position c = c.snapshot_position

abbrev pub candidate_item : SnapshotCandidate → ℕ
candidate_item c = c.item_id

abbrev pub snapshot_item : ℕ → SnapshotCandidate → SnapshotItem
snapshot_item snapshot_id c = record {
  snapshot_id = snapshot_id;
  item_id = c.item_id;
  source = c.source;
  raw_score = c.raw_score;
  normalized_score = c.normalized_score;
  filter_reason = c.filter_reason;
  snapshot_position = natural c.snapshot_position;
  promotion_rule_id = c.promotion_rule_id;
}

abbrev has_item : SnapshotItem → List SnapshotItem → Bool
has_item r [] = false
has_item r (s ∷ rows) =
    (s.snapshot_id == r.snapshot_id
      && (s.item_id == r.item_id || s.snapshot_position == r.snapshot_position))
    || has_item r rows

-- `session.add_all`, with the primary key and `uq_snapshot_item_position`.
unfoldable pub insert_items : List SnapshotItem → List SnapshotItem → Result (List SnapshotItem)
insert_items [] rows = ok rows
insert_items (r ∷ rs) rows =
    let rest = insert_items rs (rows ++ r ∷ []) in
    if has_item r rows then err integrity_error else rest

unfoldable pub create_snapshot :
    (user_id : ℕ) (feed_type : FeedType) (model_version : String) (snapshot_seed : ℕ)
    (expires_at : DateTime) (candidates : List SnapshotCandidate) (snapshot_id now : ℕ)
    → EventsDb
    → Result (Snapshot × EventsDb)
unfolding insert_items require_aware
create_snapshot user_id feed_type model_version snapshot_seed expires_at candidates snapshot_id now
      db =
    do
      expiry ← require_aware expires_at "expires_at must be timezone-aware"
      guard
          (int_distinct (map candidate_position candidates)
            && no_negative (map candidate_position candidates))
          (value_error "snapshot positions must be unique and nonnegative")
      guard (all_online (map candidate_item candidates) db.items)
          (value_error "snapshot contains missing or offline items")
      guard (not (is_some (find snapshot_key snapshot_id db.snapshots))) integrity_error
      rows ← insert_items (map (snapshot_item snapshot_id) candidates) db.snapshot_items
      let snapshot : Snapshot = record {
        snapshot_id = snapshot_id;
        user_id = user_id;
        feed_type = feed_type;
        model_version = model_version;
        snapshot_seed = snapshot_seed;
        expires_at = expiry;
        created_at = now;
      }
      ok (snapshot, record db { snapshots = db.snapshots ++ snapshot ∷ []; snapshot_items = rows })
