-- ===== src/Events/Profile.antt =====
-- `EventService._update_profile` (apps/api/app/events/service.py).
use microlens_recsys_mvp.Prelude.{
  ℕ, ◌+◌, String, Option, none, some, List, [], ◌∷◌, ◌++◌, ◌==◌, take, if◌then◌else◌,
}
use microlens_recsys_mvp.Prelude.Table.{find, replace}
use microlens_recsys_mvp.Events.Rows.{
  ClientEventType, click, like, not_interested, dwell, revisit, share, Interaction, UserProfile,
  EventsDb, profile_key,
}
use microlens_recsys_mvp.Events.Titles.{update_title_preferences}

pub record EventRequest : Type 0 where
  pub event_id : ℕ
  pub request_id : ℕ
  pub item_id : ℕ
  pub position : ℕ
  pub event_type : ClientEventType
  pub client_timestamp : ℕ
  pub duration_ms : Option ℕ
  pub payload : String

-- `summary[key] = summary.get(key, 0) + 1`
unfoldable pub count_up : ℕ → List (ℕ × ℕ) → List (ℕ × ℕ)
count_up key [] = (key, 1) ∷ []
count_up key ((k, n) ∷ rest) =
    let others = count_up key rest in if k == key then (k, n + 1) ∷ rest else (k, n) ∷ others

-- The key of a type in `positive_summary`.
abbrev pub type_number : ClientEventType → ℕ
type_number click = 0
type_number like = 1
type_number not_interested = 2
type_number dwell = 3
type_number revisit = 4
type_number share = 5

abbrev or_zero : Option ℕ → ℕ
or_zero none = 0
or_zero (some n) = n

abbrev pub with_sentiment : EventRequest → ClientEventType → UserProfile → UserProfile
with_sentiment request not_interested p = record p {
  negative_summary = count_up request.item_id p.negative_summary;
}
with_sentiment request type p = record p {
  positive_summary = count_up (type_number type) p.positive_summary;
}

-- The branches for dwell, revisit and share.
abbrev pub with_type : EventRequest → ClientEventType → UserProfile → UserProfile
with_type request dwell p = record p {
  dwell_events = p.dwell_events + 1;
  dwell_duration = p.dwell_duration + or_zero request.duration_ms;
}
with_type request revisit p = record p {
  revisit_summary = count_up request.item_id p.revisit_summary;
}
with_type request share p = record p { share_summary = count_up request.item_id p.share_summary }
with_type request type p = p

abbrev pub interaction : EventRequest → ℕ → Interaction
interaction request now = record {
  event_id = request.event_id;
  event_type = request.event_type;
  item_id = request.item_id;
  server_timestamp = now;
}

abbrev pub empty_profile : ℕ → ℕ → UserProfile
empty_profile user_id now = record {
  user_id = user_id;
  recent_interactions = [];
  positive_summary = [];
  negative_summary = [];
  dwell_events = 0;
  dwell_duration = 0;
  revisit_summary = [];
  share_summary = [];
  title_preferences = [];
  profile_version = 0;
  updated_at = now;
}

module _ (words : String → List ℕ) where
  unfoldable pub next_profile : EventRequest → String → ℕ → UserProfile → UserProfile
  unfolding count_up
  next_profile request item_title now p =
      let seen = record p {
        recent_interactions = take 100 (interaction request now ∷ p.recent_interactions);
      } in
      let counted =
        with_type request request.event_type (with_sentiment request request.event_type seen) in
      record counted {
        title_preferences =
            update_title_preferences words p.title_preferences item_title request.event_type;
        profile_version = p.profile_version + 1;
        updated_at = now;
      }

  abbrev write_profile : UserProfile → Option UserProfile → List UserProfile → List UserProfile
  write_profile p none profiles = profiles ++ p ∷ []
  write_profile p (some old) profiles = replace profile_key p profiles

  abbrev or_empty : Option UserProfile → ℕ → ℕ → UserProfile
  or_empty none user_id now = empty_profile user_id now
  or_empty (some p) user_id now = p

  unfoldable pub update_profile : (user_id : ℕ) → EventRequest → String → ℕ → EventsDb → EventsDb
  unfolding next_profile
  update_profile user_id request item_title now db =
      let old = find profile_key user_id db.profiles in
      record db {
        profiles =
            write_profile (next_profile request item_title now (or_empty old user_id now)) old
              db.profiles;
      }
