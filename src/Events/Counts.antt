-- ===== src/Events/Counts.antt =====
-- The answers and the replay of a batch (apps/api/app/events/service.py).
use microlens_recsys_mvp.Prelude.{
  ℕ, suc, ◌+◌, String, Bool, true, false, ◌≡◌, refl, sym, ap, subst, ◌∙◌, inl, inr, none, some,
  List, [], ◌∷◌, ◌++◌, map, length, eq_iff, if◌then◌else◌, Option-cases, integrity_error, Result,
  ok, err, require, >>=-eq-ok, arith,
}
use mathlib.Core.Path.{ap₂}
use microlens_recsys_mvp.Prelude.Table.{find, find-append_self, find-replace_self}
use microlens_recsys_mvp.Events.Rows.{
  accepted, duplicate, rejected, EventStatus, EventItemResult, EventBatch, EventBatchResponse,
  EventsDb, event_batch_key,
}
use microlens_recsys_mvp.Events.Profile.{EventRequest}
use microlens_recsys_mvp.Events.Submit.{is_accepted, submit}
use microlens_recsys_mvp.Events.Batches.{
  EventBatchRequest, is_duplicate, is_rejected, count_status, new_event_batch, completed,
  response_of, item_result, submit_item, submit_each, replay_batch, insert_event_batch,
  complete_batch, after_batch, batch_or_replay, submit_batch,
}
use microlens_recsys_mvp.Events.Outcome.{submit-Outcome}
use microlens_recsys_mvp.Events.Replay.{taken_events}

abbrev pub answered : EventItemResult → ℕ
answered r = r.event_id

abbrev pub asked : EventRequest → ℕ
asked r = r.event_id

length-snoc {ℓ} : {A : Type ℓ} (xs : List A) (x : A) → length (xs ++ x ∷ []) ≡ length xs + 1
length-snoc [] x = omega arith
length-snoc (y ∷ xs) x = omega (arith, length-snoc xs x)

tally :
    (b : Bool) (a n : ℕ) {l m : ℕ}
    → l ≡ m + n
    → m ≡ a + (if b then 1 else 0)
    → l ≡ a + (if b then n + 1 else n)
tally true a n p q = omega arith
tally false a n p q = omega arith

module _ (hash : ℕ → EventRequest → String) (words : String → List ℕ) (user_id : ℕ) where
  -- One item of a batch: its answer names it, and an event is added exactly where it is accepted.
  submit_item-parts :
      (item : EventRequest) (now : ℕ) (db : EventsDb)
      → ((submit_item hash words user_id item now db).0.event_id ≡ item.event_id)
        × (length (submit_item hash words user_id item now db).1.events
            ≡ length db.events
              + (if is_accepted (submit_item hash words user_id item now db).0.status
                  then 1
                  else 0))
        × ((submit_item hash words user_id item now db).1.batches ≡ db.batches)
  unfolding submit_item
  submit_item-parts item now db = parts (submit hash words user_id item now db) refl
    where
      parts :
          (r : Result (EventItemResult × EventsDb))
          → submit hash words user_id item now db ≡ r
          → ((item_result item db r).0.event_id ≡ item.event_id)
            × (length (item_result item db r).1.events
                ≡ length db.events
                  + (if is_accepted (item_result item db r).0.status then 1 else 0))
            × ((item_result item db r).1.batches ≡ db.batches)
      parts (err raised) e = (refl, omega arith, refl)
      parts (ok (result, db')) e =
          elim (submit-Outcome hash words user_id item now db result db' e) [
            | inl p ↦ (
              p.1,
              rw p.2 (omega (arith, ap (λ d. length d.events) p.0)),
              ap (λ d. d.batches) p.0,
            )
            | inr t ↦
                let (fresh, events, same) =
                  taken_events hash words user_id item now result db db' t in
                (
                  ap (λ r. r.event_id) t.answer,
                  rw (ap (λ (r : EventItemResult). r.status) t.answer)
                      (ap (λ l. length l) events ∙ length-snoc db.events _),
                  same,
                )
          ]

  submit_each-parts :
      (items : List EventRequest) (now : ℕ) (db : EventsDb)
      → (map answered (submit_each hash words user_id items now db).0 ≡ map asked items)
        × (length (submit_each hash words user_id items now db).1.events
            ≡ length db.events
              + count_status is_accepted (submit_each hash words user_id items now db).0)
        × ((submit_each hash words user_id items now db).1.batches ≡ db.batches)
  unfolding submit_each count_status
  submit_each-parts [] now db = (refl, omega arith, refl)
  submit_each-parts (item ∷ items) now db =
      let (id, added, batches) = submit_item-parts item now db in
      let next : EventsDb = (submit_item hash words user_id item now db).1 in
      let (ids, more, others) = submit_each-parts items now next in
      (
        ap₂ ◌∷◌ id ids,
        tally (is_accepted (submit_item hash words user_id item now db).0.status) (length db.events)
            _ more added,
        others ∙ batches,
      )

count_status_sum :
    (rs : List EventItemResult)
    → count_status is_accepted rs + count_status is_duplicate rs + count_status is_rejected rs
      ≡ length rs
unfolding count_status
count_status_sum [] = omega arith
count_status_sum (r ∷ rs) = one r.status _ _ _ (count_status_sum rs)
  where
    one :
        (s : EventStatus) (a b c : ℕ) {n : ℕ}
        → a + b + c ≡ n
        → (if is_accepted s then a + 1 else a)
            + (if is_duplicate s then b + 1 else b)
            + (if is_rejected s then c + 1 else c)
          ≡ suc n
    one accepted a b c e = omega arith
    one duplicate a b c e = omega arith
    one rejected a b c e = omega arith

length-map {ℓ κ} :
    {A : Type ℓ} {B : Type κ} (f : A → B) (xs : List A) → length (map f xs) ≡ length xs
length-map f [] = refl
length-map f (x ∷ xs) = ap suc (length-map f xs)

module _ (hash : ℕ → EventRequest → String) (words : String → List ℕ)
    (batch_hash : ℕ → EventBatchRequest → String) (user_id : ℕ) (request : EventBatchRequest)
    (now : ℕ) (db : EventsDb) where
  abbrev opening : EventBatch
  opening = new_event_batch user_id request (batch_hash user_id request) now

  opened_rows :
      (opened : EventsDb)
      → insert_event_batch opening db ≡ ok opened
      → (opened.batches ≡ db.batches ++ opening ∷ []) × (opened.events ≡ db.events)
  unfolding insert_event_batch
  opened_rows opened h = (ground arith, ground arith)

  -- A batch with a new id that is answered has been run.
  fresh_run :
      (r : Result EventsDb) (response : EventBatchResponse) (db' : EventsDb)
      → find event_batch_key request.batch_id db.batches ≡ none
      → after_batch hash words batch_hash user_id request now db r ≡ ok (response, db')
      → (opened : EventsDb) × (r ≡ ok opened)
        × (complete_batch hash words batch_hash user_id request now opened ≡ (response, db'))
  fresh_run (ok opened) response db' absent h = (opened, refl, ground arith)
  fresh_run (err integrity_error) response db' absent h =
      let (old, f, h1) =
        >>=-eq-ok (require (find event_batch_key request.batch_id db.batches) integrity_error) _
          h in
      absurd (ground arith)
  fresh_run (err other) response db' absent h = absurd (ground arith)

  module _ (response : EventBatchResponse) (db' : EventsDb)
      (done : submit_batch hash words batch_hash user_id request now db ≡ ok (response, db')) where
    ran :
        find event_batch_key request.batch_id db.batches ≡ none
        → (opened : EventsDb) × (insert_event_batch opening db ≡ ok opened)
          × (complete_batch hash words batch_hash user_id request now opened ≡ (response, db'))
    unfolding submit_batch
    ran absent = fresh_run (insert_event_batch opening db) response db' absent (
        subst
          (λ o. batch_or_replay hash words batch_hash user_id request now db o ≡ ok (response, db'))
          absent done)

    -- A batch with a new id that is answered has one answer for each event, in order and with its
    -- id; the accepted, duplicate and rejected ones add up to the events of the batch, and the
    -- table has as many events more as were accepted.
    pub submit_batch-counts :
        find event_batch_key request.batch_id db.batches ≡ none
        → (map answered response.results ≡ map asked request.events)
          × (response.accepted + response.duplicate + response.rejected ≡ length request.events)
          × (length db'.events ≡ length db.events + response.accepted)
    submit_batch-counts absent =
        let (opened, inserted, run) = ran absent in
        let (ids, added, same) = submit_each-parts hash words user_id request.events now opened in
        let (rows, events) = opened_rows opened inserted in
        let rs : List EventItemResult =
          (submit_each hash words user_id request.events now opened).0 in
        let answer : response_of request.batch_id rs ≡ response = ap (λ p. p.0) run in
        let last : length db'.events
            ≡ length (submit_each hash words user_id request.events now opened).1.events =
          ap (λ p. length p.1.events) (sym run) in
        (
          subst (λ (r : EventBatchResponse). map answered r.results ≡ map asked request.events)
              answer ids,
          subst
              (λ (r : EventBatchResponse).
                r.accepted + r.duplicate + r.rejected ≡ length request.events)
              answer
              (count_status_sum rs
                ∙ sym (length-map answered rs)
                ∙ ap (λ l. length l) ids
                ∙ length-map asked request.events),
          subst (λ (r : EventBatchResponse). length db'.events ≡ length db.events + r.accepted)
              answer (last ∙ added ∙ ap (λ l. length l + count_status is_accepted rs) events),
        )

    completed-replay :
        replay_batch (completed opening response now) user_id (batch_hash user_id request)
        ≡ ok response
    unfolding replay_batch
    completed-replay =
        ground (arith, eq_iff (batch_hash user_id request) (batch_hash user_id request))

    completed-find :
        find event_batch_key request.batch_id db.batches ≡ none
        → find event_batch_key request.batch_id db'.batches ≡ some (completed opening response now)
    completed-find absent =
        let (opened, inserted, run) = ran absent in
        let (ids, added, same) = submit_each-parts hash words user_id request.events now opened in
        let (rows, events) = opened_rows opened inserted in
        let rs : List EventItemResult =
          (submit_each hash words user_id request.events now opened).0 in
        let answer : response_of request.batch_id rs ≡ response = ap (λ p. p.0) run in
        let there : find event_batch_key request.batch_id
              (submit_each hash words user_id request.events now opened).1.batches
            ≡ some opening =
          ap (find event_batch_key request.batch_id) (same ∙ rows)
          ∙ find-append_self event_batch_key db.batches opening absent in
        ap (λ p. find event_batch_key request.batch_id p.1.batches) (sym run)
        ∙ find-replace_self event_batch_key request.batch_id
            (completed opening (response_of request.batch_id rs) now) opening _ there refl
        ∙ ap (λ r. some (completed opening r now)) answer

    -- A batch that was answered gets the same answer again for the same user and content, at any
    -- later time, and changes nothing.
    pub submit_batch-again :
        (later : ℕ)
        → submit_batch hash words batch_hash user_id request later db' ≡ ok (response, db')
    unfolding submit_batch
    submit_batch-again later =
        elim (Option-cases (find event_batch_key request.batch_id db.batches)) [
          | inl absent ↦ rw (completed-find absent, completed-replay) refl
          | inr (old, f) ↦
              let h1 : batch_or_replay hash words batch_hash user_id request now db (some old)
                  ≡ ok (response, db') =
                subst
                  (λ o.
                    batch_or_replay hash words batch_hash user_id request now db o
                    ≡ ok (response, db'))
                  f done in
              let (r, g, h2) =
                >>=-eq-ok (replay_batch old user_id (batch_hash user_id request)) _ h1 in
              let same : db ≡ db' = ground arith in
              let there : find event_batch_key request.batch_id db'.batches ≡ some old =
                ap (λ d. find event_batch_key request.batch_id d.batches) (sym same) ∙ f in
              let answer : r ≡ response = ground arith in
              rw (there, g) (ap (λ t. ok (t, db')) answer)
        ]
