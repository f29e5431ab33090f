-- ===== src/Events/Outcome.antt =====
-- The outcomes of `EventService.submit` (apps/api/app/events/service.py).
use microlens_recsys_mvp.Prelude.{
  ℕ, String, false, ◌≡◌, refl, sym, ap, subst, ◌∙◌, ◌⊎◌, inl, inr, Option, none, some, List,
  Bool-cases, Option-cases, integrity_error, Result, ok, err, require, >>=-eq-ok, arith,
}
use microlens_recsys_mvp.Prelude.Table.{find}
use microlens_recsys_mvp.Events.Rows.{
  Event, EventItemResult, accepted, duplicate, EventsDb, event_key, insert_event,
}
use microlens_recsys_mvp.Events.Profile.{EventRequest, update_profile}
use microlens_recsys_mvp.Events.Submit.{
  Joined, joined_exposures, one_or_none, lacks_duration, new_event, is_accepted,
  classify_existing_event, after_insert, submit_joined, submit_new, submit_existing, submit,
}

abbrev pub accepted_result : ℕ → EventItemResult
accepted_result id = record { event_id = id; status = accepted; error_code = none; message = none }

abbrev pub duplicate_result : ℕ → EventItemResult
duplicate_result id = record {
  event_id = id;
  status = duplicate;
  error_code = none;
  message = none;
}

module _ (hash : ℕ → EventRequest → String) (words : String → List ℕ) (user_id : ℕ)
    (request : EventRequest) (now : ℕ) (db : EventsDb) where
  abbrev pub row : Joined → Event
  row j = new_event user_id request j.0 j.1 (hash user_id request) now

  -- The event is written, and its profile moves.
  pub record IsTaken (result : EventItemResult) (db' : EventsDb) : Type 0 where
    pub joined : Joined
    pub written : EventsDb
    pub inserted : insert_event (row joined) db ≡ ok written
    pub answer : result ≡ accepted_result request.event_id
    pub after : db' ≡ update_profile words user_id request joined.2 now written

  -- Nothing is written, and the answer names the event.
  abbrev pub Outcome : EventItemResult → EventsDb → Type 0
  Outcome result db' =
      ((db' ≡ db) × (result.event_id ≡ request.event_id) × (is_accepted result.status ≡ false))
      ⊎ IsTaken result db'

  classify-event_id :
      (e : Event) (h : String)
      → ((classify_existing_event e user_id request h).event_id ≡ request.event_id)
        × (is_accepted (classify_existing_event e user_id request h).status ≡ false)
  unfolding classify_existing_event
  classify-event_id e h = ground arith

  classified :
      {result : EventItemResult} {db' : EventsDb} (e : Event)
      → db' ≡ db
      → classify_existing_event e user_id request (hash user_id request) ≡ result
      → Outcome result db'
  classified e same h =
      let (id, status) = classify-event_id e (hash user_id request) in
      inl (same, ap (λ r. r.event_id) (sym h) ∙ id, ap (λ r. is_accepted r.status) (sym h) ∙ status)

  after_insert-Outcome :
      (j : Joined) (r : Result EventsDb) (result : EventItemResult) (db' : EventsDb)
      → insert_event (row j) db ≡ r
      → after_insert hash words user_id request j.2 now db r ≡ ok (result, db')
      → Outcome result db'
  unfolding after_insert
  after_insert-Outcome j (ok written) result db' e h = inr (record {
    joined = j;
    written = written;
    inserted = e;
    answer = ground arith;
    after = ground arith;
  })
  after_insert-Outcome j (err integrity_error) result db' e h =
      let (old, f, h1) =
        >>=-eq-ok (require (find event_key request.event_id db.events) integrity_error) _ h in
      classified old (ground arith) (ground arith)
  after_insert-Outcome j (err other) result db' e h = absurd (ground arith)

  submit_joined-Outcome :
      (o : Option Joined) (result : EventItemResult) (db' : EventsDb)
      → submit_joined hash words user_id request now db o ≡ ok (result, db')
      → Outcome result db'
  unfolding submit_joined
  submit_joined-Outcome none result db' h = inl (ground arith, ground arith, ground arith)
  submit_joined-Outcome (some j) result db' h =
      elim (Bool-cases (lacks_duration request.event_type request.duration_ms)) [
        | inl lacks ↦ inl (ground arith, ground arith, ground arith)
        | inr fine ↦ after_insert-Outcome j (insert_event (row j) db) result db' refl (rw fine at h)
      ]

  pub submit-Outcome :
      (result : EventItemResult) (db' : EventsDb)
      → submit hash words user_id request now db ≡ ok (result, db')
      → Outcome result db'
  unfolding submit
  submit-Outcome result db' h = elim (Option-cases (find event_key request.event_id db.events)) [
    | inr (old, f) ↦
        let h1 : submit_existing hash words user_id request now db (some old) ≡ ok (result, db') =
          subst (λ o. submit_existing hash words user_id request now db o ≡ ok (result, db')) f h in
        classified old (ground arith) (ground arith)
    | inl absent ↦
        let h1 : submit_new hash words user_id request now db ≡ ok (result, db') =
          subst (λ o. submit_existing hash words user_id request now db o ≡ ok (result, db')) absent
            h in
        let (o, e, h2) =
          >>=-eq-ok (one_or_none (joined_exposures user_id request db db.exposures)) _ h1 in
        submit_joined-Outcome o result db' h2
  ]
