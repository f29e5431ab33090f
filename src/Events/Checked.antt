-- ===== src/Events/Checked.antt =====
-- What a page that `record_page` accepts has passed (apps/api/app/events/service.py).
use microlens_recsys_mvp.Prelude.{
  ℕ, String, Bool, true, false, ◌≡◌, refl, ap, subst, ◌∙◌, Option, List, map, ltb, leb, length, ℤ,
  Error, value_error, ok, guard, >>=-eq-ok, arith,
}
use microlens_recsys_mvp.Prelude.Table.{find}
use microlens_recsys_mvp.Events.Rows.{
  Snapshot, PageRequest, EventsDb, snapshot_key, all_online, insert_request,
}
use microlens_recsys_mvp.Events.Pages.{
  PageExposure, require_owned, page_range, nonnegative_latency, num_distinct, contiguous, page_item,
  all_in_snapshot, outside, snapshot_positions, increasing, check_order, expose, write_page,
  record_page,
}

pub guard-ok : (b : Bool) (e : Error) {u : Unit {0}} → guard b e ≡ ok u → b ≡ true
guard-ok true e h = refl
guard-ok false e h = cc

module _ (uuid5 : ℕ → ℕ → ℕ → ℕ) (impression_text impression_hash : ℕ → String) (draw : ℕ → ℕ)
    (snapshot_id user_id : ℕ) (offset limit : ℤ) (latency_ms : Option ℤ) (page : List PageExposure)
    (request_id now : ℕ) (db : EventsDb) where
  pub record IsChecked (request : PageRequest) (done : EventsDb) : Type 0 where
    pub snapshot : Snapshot
    pub owned : require_owned (find snapshot_key snapshot_id db.snapshots) user_id ≡ ok snapshot
    pub made : request ≡ record {
      request_id = request_id;
      snapshot_id = snapshot_id;
      user_id = user_id;
      offset = request.offset;
      limit = request.limit;
      latency_ms = request.latency_ms;
      created_at = now;
    }
    pub alive : ltb now snapshot.expires_at ≡ true
    pub ranged : page_range offset limit ≡ ok (request.offset, request.limit)
    pub short : leb (length page) request.limit ≡ true
    pub distinct : num_distinct (map page_item page) ≡ true
    pub placed : contiguous request.offset page ≡ true
    pub online : all_online (map page_item page) db.items ≡ true
    pub positions : List ℕ
    pub known : snapshot_positions snapshot_id db.snapshot_items page ≡ ok positions
    pub ordered : increasing positions ≡ true
    pub opened : EventsDb
    pub inserted : insert_request request db ≡ ok opened
    pub exposed :
        expose uuid5 impression_text impression_hash draw request snapshot page opened ≡ ok done

  written_parts :
      (r : PageRequest) (s : Snapshot) (request : PageRequest) (done : EventsDb)
      → write_page uuid5 impression_text impression_hash draw r s page db ≡ ok (request, done)
      → (r ≡ request)
        × (opened : EventsDb) × (insert_request request db ≡ ok opened)
        × (expose uuid5 impression_text impression_hash draw request s page opened ≡ ok done)
  unfolding write_page
  written_parts r s request done h =
      let (opened, e1, h1) = >>=-eq-ok (insert_request r db) _ h in
      let (finished, e2, h2) =
        >>=-eq-ok (expose uuid5 impression_text impression_hash draw r s page opened) _ h1 in
      let same : r ≡ request = ground arith in
      let last : finished ≡ done = ground arith in
      (
        same,
        opened,
        subst (λ q. insert_request q db ≡ ok opened) same e1,
        subst (λ q. expose uuid5 impression_text impression_hash draw q s page opened ≡ ok done)
            same (e2 ∙ ap (λ d. ok d) last),
      )

  pub record_page-IsChecked :
      (request : PageRequest) (done : EventsDb)
      → record_page uuid5 impression_text impression_hash draw snapshot_id user_id offset limit
          latency_ms page request_id now db
        ≡ ok (request, done)
      → IsChecked request done
  unfolding record_page
  record_page-IsChecked request done h =
      let (s, e1, h1) =
        >>=-eq-ok (require_owned (find snapshot_key snapshot_id db.snapshots) user_id) _ h in
      let (u2, e2, h2) =
        >>=-eq-ok (guard (ltb now s.expires_at) (value_error "snapshot is expired")) _ h1 in
      let (range, e3, h3) = >>=-eq-ok (page_range offset limit) _ h2 in
      let (latency, e4, h4) = >>=-eq-ok (nonnegative_latency latency_ms) _ h3 in
      let (u5, e5, h5) =
        >>=-eq-ok
          (guard (leb (length page) range.1)
            (value_error "page length cannot exceed request limit"))
          _ h4 in
      let (u6, e6, h6) =
        >>=-eq-ok
          (guard (num_distinct (map page_item page)) (value_error "page item_ids must be unique")) _
          h5 in
      let (u7, e7, h7) =
        >>=-eq-ok
          (guard (contiguous range.0 page)
            (value_error "page positions must be contiguous from offset"))
          _ h6 in
      let (u8, e8, h8) =
        >>=-eq-ok
          (guard (all_online (map page_item page) db.items)
            (value_error "page contains missing or offline items"))
          _ h7 in
      let (u9, e9, h9) =
        >>=-eq-ok (guard (all_in_snapshot snapshot_id db.snapshot_items page) outside) _ h8 in
      let (positions, e10, h10) =
        >>=-eq-ok (snapshot_positions snapshot_id db.snapshot_items page) _ h9 in
      let (u11, e11, h11) = >>=-eq-ok (check_order positions) _ h10 in
      let (same, opened, e12, e13) = written_parts _ s request done h11 in
      record {
        snapshot = s;
        owned = e1;
        made =
            subst
              (λ (r : PageRequest). r ≡ record {
                request_id = request_id;
                snapshot_id = snapshot_id;
                user_id = user_id;
                offset = r.offset;
                limit = r.limit;
                latency_ms = r.latency_ms;
                created_at = now;
              })
              same refl;
        alive = guard-ok _ _ e2;
        ranged = e3 ∙ ap (λ r. ok r) (ap (λ (r : PageRequest). (r.offset, r.limit)) same);
        short =
            subst (λ (r : PageRequest). leb (length page) r.limit ≡ true) same (guard-ok _ _ e5);
        distinct = guard-ok _ _ e6;
        placed =
            subst (λ (r : PageRequest). contiguous r.offset page ≡ true) same (guard-ok _ _ e7);
        online = guard-ok _ _ e8;
        positions = positions;
        known = e10;
        ordered = guard-ok _ _ e11;
        opened = opened;
        inserted = e12;
        exposed = e13;
      }
