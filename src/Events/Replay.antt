-- ===== src/Events/Replay.antt =====
-- The same event and the same batch again (apps/api/app/events/service.py).
use microlens_recsys_mvp.Prelude.{
  ℕ, String, ◌≡◌, refl, ap, ◌∙◌, inl, inr, none, some, List, [], ◌∷◌, ◌++◌, eq_iff, ok, arith,
}
use microlens_recsys_mvp.Prelude.Table.{find, find-append_self}
use microlens_recsys_mvp.Events.Rows.{accepted, Event, EventItemResult, EventsDb, event_key}
use microlens_recsys_mvp.Events.Profile.{EventRequest, update_profile}
use microlens_recsys_mvp.Events.Submit.{classify_existing_event, submit}
use microlens_recsys_mvp.Events.Consistent.{insert_event-ok}
use microlens_recsys_mvp.Events.Outcome.{duplicate_result, IsTaken, row, submit-Outcome}

module _ (hash : ℕ → EventRequest → String) (words : String → List ℕ) (user_id : ℕ) where
  profile_only :
      (request : EventRequest) (title : String) (now : ℕ) (db : EventsDb)
      → ((update_profile words user_id request title now db).events ≡ db.events)
        × ((update_profile words user_id request title now db).batches ≡ db.batches)
  unfolding update_profile
  profile_only request title now db = (refl, refl)

  -- What an event that is taken adds.
  pub taken_events :
      (request : EventRequest) (now : ℕ) (result : EventItemResult) (db db' : EventsDb)
      (t : IsTaken hash words user_id request now db result db')
      → (find event_key request.event_id db.events ≡ none)
        × (db'.events ≡ db.events ++ row hash words user_id request now db t.joined ∷ [])
        × (db'.batches ≡ db.batches)
  taken_events request now result db db' t =
      let (fresh, exposed, after) = insert_event-ok _ db t.written t.inserted in
      let (events, batches) = profile_only request t.joined.2 now t.written in
      (
        fresh,
        ap (λ d. d.events) t.after ∙ events ∙ ap (λ d. d.events) after,
        ap (λ d. d.batches) t.after ∙ batches ∙ ap (λ d. d.batches) after,
      )

  same_row :
      (request : EventRequest) (e : Event)
      → e.user_id ≡ user_id
      → e.payload_hash ≡ hash user_id request
      → classify_existing_event e user_id request (hash user_id request)
        ≡ duplicate_result request.event_id
  unfolding classify_existing_event
  same_row request e u h = ground (arith, eq_iff e.payload_hash (hash user_id request))

  pub submit-again :
      (request : EventRequest) (now later : ℕ) (result : EventItemResult) (db db' : EventsDb)
      → submit hash words user_id request now db ≡ ok (result, db')
      → result.status ≡ accepted
      → submit hash words user_id request later db' ≡ ok (duplicate_result request.event_id, db')
  unfolding submit
  submit-again request now later result db db' h done =
      elim (submit-Outcome hash words user_id request now db result db' h) [
        | inl p ↦ absurd (ground arith)
        | inr t ↦
            let (fresh, events, same) = taken_events request now result db db' t in
            let there : find event_key request.event_id db'.events
                ≡ some (row hash words user_id request now db t.joined) =
              ap (find event_key request.event_id) events
              ∙ find-append_self event_key db.events
                  (row hash words user_id request now db t.joined) fresh in
            rw (there, same_row request (row hash words user_id request now db t.joined) refl refl)
              refl
      ]
