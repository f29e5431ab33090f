-- ===== src/Events/Consistent.antt =====
-- When the tables of exposures, events and profiles are consistent
-- (apps/api/app/db/models.py, apps/api/app/events/service.py).
use microlens_recsys_mvp.Prelude.{
  ℕ, ◌+◌, Bool, true, false, ◌&&◌, ◌≡◌, refl, sym, subst, ◌∙◌, Option, none, some, List, [], ◌∷◌,
  ◌++◌, ◌==◌, All, All-map, All-append, if◌then◌else◌, ok, arith,
}
use microlens_recsys_mvp.Prelude.Table.{find, IsKeyed, append-IsKeyed}
use microlens_recsys_mvp.Events.Rows.{
  EventType, impression, client, Exposure, Event, UserProfile, EventsDb, exposure_key, event_key,
  profile_key, has_exposure, insert_event, insert_exposure,
}
use microlens_recsys_mvp.Events.Bounds.{IsBounded}

abbrev pub is_client : EventType → Bool
is_client impression = false
is_client (client type) = true

-- How many events of clients the table has for a user.
unfoldable pub client_events : ℕ → List Event → ℕ
client_events user [] = 0
client_events user (e ∷ events) =
    let rest = client_events user events in
    if is_client e.event_type && e.user_id == user then rest + 1 else rest

abbrev pub version_of : Option UserProfile → ℕ
version_of none = 0
version_of (some p) = p.profile_version

abbrev pub profile_version : ℕ → List UserProfile → ℕ
profile_version user profiles = version_of (find profile_key user profiles)

pub record IsConsistent (db : EventsDb) : Type 0 where
  pub exposure_ids : IsKeyed exposure_key db.exposures
  pub event_ids : IsKeyed event_key db.events
  pub exposed : All (λ e. has_exposure e db.exposures ≡ true) db.events
  pub counted : (user : ℕ) → profile_version user db.profiles ≡ client_events user db.events
  pub bounded : All IsBounded db.profiles

pub client_events-append :
    (user : ℕ) (events : List Event) (e : Event)
    → client_events user (events ++ e ∷ [])
      ≡ client_events user events + (if is_client e.event_type && e.user_id == user then 1 else 0)
unfolding client_events
client_events-append user [] e = ground arith
client_events-append user (d ∷ events) e = ground (arith, client_events-append user events e)

has_exposure-append :
    (e : Event) (xs : List Exposure) (x : Exposure)
    → has_exposure e xs ≡ true
    → has_exposure e (xs ++ x ∷ []) ≡ true
has_exposure-append e [] x h = absurd (cc)
has_exposure-append e (y ∷ xs) x h = ground (arith, has_exposure-append e xs x)

-- A new exposure keeps the tables consistent.
pub insert_exposure-IsConsistent :
    (x : Exposure) (db db' : EventsDb)
    → IsConsistent db
    → insert_exposure x db ≡ ok db'
    → IsConsistent db'
unfolding insert_exposure
insert_exposure-IsConsistent x db db' c h =
    let fresh : find exposure_key x.id db.exposures ≡ none = ground arith in
    let after : db' ≡ record db { exposures = db.exposures ++ x ∷ [] } = ground arith in
    subst IsConsistent (sym after) (record {
      exposure_ids = append-IsKeyed exposure_key db.exposures x fresh c.exposure_ids;
      event_ids = c.event_ids;
      exposed =
          All-map {Q = λ e. has_exposure e (db.exposures ++ x ∷ []) ≡ true}
            (λ e. has_exposure-append e db.exposures x) db.events c.exposed;
      counted = c.counted;
      bounded = c.bounded;
    })

-- What is known after the flush of a new event.
pub insert_event-ok :
    (e : Event) (db db' : EventsDb)
    → insert_event e db ≡ ok db'
    → (find event_key e.event_id db.events ≡ none)
      × (has_exposure e db.exposures ≡ true)
      × (db' ≡ record db { events = db.events ++ e ∷ [] })
unfolding insert_event
insert_event-ok e db db' h = (ground arith, ground arith, ground arith)

module _ (e : Event) (db db' : EventsDb) (c : IsConsistent db)
    (h : insert_event e db ≡ ok db') where
  pub event_rows :
      (IsKeyed event_key (db.events ++ e ∷ []))
      × All (λ e. has_exposure e db.exposures ≡ true) (db.events ++ e ∷ [])
  event_rows =
      let (fresh, exposed, after) = insert_event-ok e db db' h in
      (
        append-IsKeyed event_key db.events e fresh c.event_ids,
        All-append (λ e. has_exposure e db.exposures ≡ true) db.events (e ∷ []) c.exposed
            (exposed, tt),
      )

  -- An impression moves no profile.
  pub impression-IsConsistent : e.event_type ≡ impression → IsConsistent db'
  impression-IsConsistent seen =
      let (fresh, exposed, after) = insert_event-ok e db db' h in
      subst IsConsistent (sym after) (record {
        exposure_ids = c.exposure_ids;
        event_ids = event_rows.0;
        exposed = event_rows.1;
        counted = λ user. c.counted user ∙ same user;
        bounded = c.bounded;
      })
    where
      same : (user : ℕ) → client_events user db.events ≡ client_events user (db.events ++ e ∷ [])
      same user =
          let step : client_events user (db.events ++ e ∷ [])
              ≡ client_events user db.events
                + (if is_client e.event_type && e.user_id == user then 1 else 0) =
            client_events-append user db.events e in
          let other : is_client e.event_type ≡ false = rw seen refl in ground arith
