-- ===== src/Events/Moved.antt =====
-- The profiles after an event of a client (apps/api/app/events/service.py).
use microlens_recsys_mvp.Prelude.{
  ℕ, ◌+◌, String, true, ◌&&◌, ◌≡◌, ◌≢◌, refl, sym, ap, subst, ◌∙◌, ◌⊎◌, inl, inr, none, some, List,
  [], ◌∷◌, ◌++◌, ◌==◌, ==→eq, All, All-append, if◌then◌else◌, Bool-cases, Option-cases, ok, arith,
}
use microlens_recsys_mvp.Prelude.Table.{
  find, replace, key-find, find-replace_self, find-replace_ne, find-append_self, find-append_none,
  find-append_some, find-All, replace-All,
}
use microlens_recsys_mvp.Events.Rows.{Event, UserProfile, EventsDb, profile_key, insert_event}
use microlens_recsys_mvp.Events.Profile.{EventRequest, empty_profile, next_profile, update_profile}
use microlens_recsys_mvp.Events.Bounds.{IsBounded, next_profile-user, next_profile-IsBounded}
use microlens_recsys_mvp.Events.Consistent.{
  IsConsistent, is_client, client_events, version_of, profile_version, client_events-append,
  insert_event-ok, event_rows,
}

-- The profiles after one event of `user`.
module _ (words : String → List ℕ) (request : EventRequest) (title : String) (now : ℕ) (user : ℕ)
    (db : EventsDb) where
  abbrev stepped : UserProfile → UserProfile
  stepped p = next_profile words request title now p

  abbrev moved : List UserProfile
  moved = (update_profile words user request title now db).profiles

  rows_new :
      find profile_key user db.profiles ≡ none
      → moved ≡ db.profiles ++ stepped (empty_profile user now) ∷ []
  unfolding update_profile
  rows_new absent = rw absent refl

  rows_old :
      (p : UserProfile)
      → find profile_key user db.profiles ≡ some p
      → moved ≡ replace profile_key (stepped p) db.profiles
  unfolding update_profile
  rows_old p found = rw found refl

  stepped_key : (p : UserProfile) → profile_key p ≡ user → profile_key (stepped p) ≡ user
  stepped_key p e = (next_profile-user words request title now p).0 ∙ e

  found_after :
      (p : UserProfile)
      → find profile_key user moved ≡ some (stepped p)
      → profile_version user moved ≡ p.profile_version + 1
  found_after p e = ap version_of e ∙ (next_profile-user words request title now p).1

  moved_self : profile_version user moved ≡ profile_version user db.profiles + 1
  moved_self = elim (Option-cases (find profile_key user db.profiles)) [
    | inl absent ↦
        let fresh : UserProfile = empty_profile user now in
        let key : profile_key (stepped fresh) ≡ user = stepped_key fresh refl in
        let there : find profile_key user moved ≡ some (stepped fresh) =
          ap (find profile_key user) (rows_new absent)
          ∙ subst
              (λ k. find profile_key k (db.profiles ++ stepped fresh ∷ []) ≡ some (stepped fresh))
              key
              (find-append_self profile_key db.profiles (stepped fresh)
                (subst (λ k. find profile_key k db.profiles ≡ none) (sym key) absent)) in
        found_after fresh there ∙ ap (λ o. version_of o + 1) (sym absent)
    | inr (p, found) ↦
        let key : profile_key (stepped p) ≡ user =
          stepped_key p (key-find profile_key user db.profiles p found) in
        let there : find profile_key user moved ≡ some (stepped p) =
          ap (find profile_key user) (rows_old p found)
          ∙ find-replace_self profile_key user (stepped p) p db.profiles found key in
        found_after p there ∙ ap (λ o. version_of o + 1) (sym found)
  ]

  moved_other :
      (other : ℕ) → user ≢ other → profile_version other moved ≡ profile_version other db.profiles
  moved_other other ne = elim (Option-cases (find profile_key user db.profiles)) [
    | inl absent ↦
        let fresh : UserProfile = empty_profile user now in
        ap (profile_version other) (rows_new absent)
        ∙ appended fresh (stepped_key fresh refl)
            (Option-cases (find profile_key other db.profiles))
    | inr (p, found) ↦
        let key : profile_key (stepped p) ≡ user =
          stepped_key p (key-find profile_key user db.profiles p found) in
        ap (profile_version other) (rows_old p found)
        ∙ ap version_of
            (find-replace_ne profile_key other (stepped p) db.profiles (λ e. ne (sym key ∙ e)))
  ]
    where
      appended :
          (q : UserProfile)
          → profile_key (stepped q) ≡ user
          → (find profile_key other db.profiles ≡ none)
            ⊎ ((r : UserProfile) × (find profile_key other db.profiles ≡ some r))
          → profile_version other (db.profiles ++ stepped q ∷ [])
            ≡ profile_version other db.profiles
      appended q key (inl none_there) = ap version_of (
          find-append_none profile_key other db.profiles (stepped q) none_there
            (λ e. ne (sym key ∙ e))
          ∙ sym none_there)
      appended q key (inr (r, there)) =
          ap version_of
            (find-append_some profile_key other db.profiles (stepped q) r there ∙ sym there)

  moved-IsBounded : All IsBounded db.profiles → All IsBounded moved
  moved-IsBounded b = elim (Option-cases (find profile_key user db.profiles)) [
    | inl absent ↦ subst (All IsBounded) (sym (rows_new absent)) (
        All-append IsBounded db.profiles (stepped (empty_profile user now) ∷ []) b (
          next_profile-IsBounded words request title now (empty_profile user now)
              (record { recent = omega arith; tokens = omega arith; ranges = tt }),
          tt,
        ))
    | inr (p, found) ↦ subst (All IsBounded) (sym (rows_old p found)) (
        replace-All profile_key IsBounded (stepped p) db.profiles
          (next_profile-IsBounded words request title now p
            (find-All profile_key IsBounded user db.profiles p b found))
          b)
  ]

grow : {a b n m : ℕ} → a ≡ b + 1 → b ≡ n → m ≡ n + 1 → a ≡ m
grow p q r = omega arith

-- An event of a client moves the profile of its user, once.
pub client_event-IsConsistent :
    (words : String → List ℕ) (request : EventRequest) (title : String) (now user : ℕ) (e : Event)
    (db db' : EventsDb)
    → IsConsistent db
    → insert_event e db ≡ ok db'
    → e.user_id ≡ user
    → is_client e.event_type ≡ true
    → IsConsistent (update_profile words user request title now db')
unfolding update_profile
client_event-IsConsistent words request title now user e db db' c h own seen =
    let (fresh, exposed, after) = insert_event-ok e db db' h in
    let (ids, places) = event_rows e db db' c h in
    subst (λ d. IsConsistent (update_profile words user request title now d)) (sym after)
      (record {
        exposure_ids = c.exposure_ids;
        event_ids = ids;
        exposed = places;
        counted = counts;
        bounded = moved-IsBounded words request title now user db c.bounded;
      })
  where
    one_more :
        (u : ℕ)
        → user ≡ u
        → ◌≡◌ {A = ℕ} (if is_client e.event_type && e.user_id == u then 1 else 0) 1
    one_more u same = ground arith

    no_more :
        (u : ℕ)
        → user ≢ u
        → ◌≡◌ {A = ℕ} (if is_client e.event_type && e.user_id == u then 1 else 0) 0
    no_more u differ = ground arith

    counts :
        (u : ℕ)
        → profile_version u (update_profile words user request title now db).profiles
          ≡ client_events u (db.events ++ e ∷ [])
    counts u =
        let step : client_events u (db.events ++ e ∷ [])
            ≡ client_events u db.events
              + (if is_client e.event_type && e.user_id == u then 1 else 0) =
          client_events-append u db.events e in
        let before : profile_version u db.profiles ≡ client_events u db.events = c.counted u in
        elim (Bool-cases (user == u)) [
          | inl mine ↦
              let same : user ≡ u = ==→eq user u mine in
              let here : profile_version u (update_profile words user request title now db).profiles
                  ≡ profile_version u db.profiles + 1 =
                subst
                  (λ v.
                    profile_version v (update_profile words user request title now db).profiles
                    ≡ profile_version v db.profiles + 1)
                  same (moved_self words request title now user db) in
              grow here before (step ∙ ap (λ t. client_events u db.events + t) (one_more u same))
          | inr not_mine ↦
              let differ : user ≢ u = ground arith in
              moved_other words request title now user db u differ
              ∙ before
              ∙ sym
                  (step ∙ ap (λ t. client_events u db.events + t) (no_more u differ) ∙ omega arith)
        ]
