-- ===== src/Auth/Sessions.antt =====
-- What a session is good for (apps/api/app/auth/service.py).
use Prim.Native.String.{count}
use microlens_recsys_mvp.Prelude.{
  ℕ, ◌<◌, String, true, false, not, ◌&&◌, ◌≡◌, refl, sym, ap, subst, ◌∙◌, Option, none, some, ◌==◌,
  ltb, is_some, Result, ok, err, >>=-eq-ok, arith,
}
use microlens_recsys_mvp.Prelude.Table.{find, replace, key-find, find-replace_self}
use microlens_recsys_mvp.Auth.Rows.{User, AuthSession, AuthDb, user_key, session_key}
use microlens_recsys_mvp.Auth.Security.{AuthLibrary, DecodedToken, decode_token}
use microlens_recsys_mvp.Auth.Service.{
  AuthenticatedUser, is_enabled, invalid_session, as_session, given_token, live_session,
  enabled_user, authenticate, revoke,
}

module _ (L : AuthLibrary) where
  -- What an accepted request went through.
  pub record IsAuthentic (token : String) (clock now : ℕ) (db : AuthDb) (a : AuthenticatedUser)
      : Type 0 where
    pub decoded : DecodedToken
    pub read : decode_token L token clock now ≡ ok decoded
    pub found : find session_key decoded.jti db.sessions ≡ some a.session
    pub mine : a.session.user_id ≡ decoded.user_id
    pub not_revoked : is_some a.session.revoked_at ≡ false
    pub alive : now < a.session.expires_at
    pub known : find user_key decoded.user_id db.users ≡ some a.account
    pub active : is_enabled a.account.status ≡ true

  live_session-ok :
      (d : DecodedToken) (now : ℕ) (o : Option AuthSession) (s : AuthSession)
      → live_session d now o ≡ ok s
      → (o ≡ some s)
        × (s.user_id ≡ d.user_id)
        × (is_some s.revoked_at ≡ false)
        × (now < s.expires_at)
  unfolding live_session
  live_session-ok d now none s h = absurd (cc)
  live_session-ok d now (some t) s h =
      let pass : (t.user_id == d.user_id && (not (is_some t.revoked_at) && ltb now t.expires_at))
          ≡ true =
        ground arith in
      let same : t ≡ s = ground arith in
      let rest : (s.user_id ≡ d.user_id) × (is_some s.revoked_at ≡ false) × (now < s.expires_at) =
        subst
          (λ (x : AuthSession).
            (x.user_id ≡ d.user_id) × (is_some x.revoked_at ≡ false) × (now < x.expires_at))
          same (ground arith, ground arith, ground arith) in
      (ap (λ x. some x) same, rest.0, rest.1, rest.2)

  enabled_user-ok :
      (o : Option User) (u : User)
      → enabled_user o ≡ ok u
      → (o ≡ some u) × (is_enabled u.status ≡ true)
  unfolding enabled_user
  enabled_user-ok none u h = absurd (cc)
  enabled_user-ok (some v) u h =
      let pass : is_enabled v.status ≡ true = ground arith in
      let same : v ≡ u = ground arith in
      (ap (λ x. some x) same, subst (λ (x : User). is_enabled x.status ≡ true) same pass)

  as_session-ok : (r : Result DecodedToken) (d : DecodedToken) → as_session r ≡ ok d → r ≡ ok d
  as_session-ok (ok e) d h = cc
  as_session-ok (err e) d h = absurd (cc)

  given_token-ok : (token text : String) → given_token (some token) ≡ ok text → text ≡ token
  given_token-ok token text h = ground arith

  made :
      (token : String) (clock now : ℕ) (db : AuthDb) (a : AuthenticatedUser) (d : DecodedToken)
      (s : AuthSession) (u : User)
      → decode_token L token clock now ≡ ok d
      → find session_key d.jti db.sessions ≡ some s
      → s.user_id ≡ d.user_id
      → is_some s.revoked_at ≡ false
      → now < s.expires_at
      → find user_key d.user_id db.users ≡ some u
      → is_enabled u.status ≡ true
      → record { account = u; session = s } ≡ a
      → IsAuthentic token clock now db a
  made token clock now db a d s u e1 e2 e3 e4 e5 e6 e7 same =
      subst (IsAuthentic token clock now db) same (record {
        decoded = d;
        read = e1;
        found = e2;
        mine = e3;
        not_revoked = e4;
        alive = e5;
        known = e6;
        active = e7;
      })

  pub authenticate-IsAuthentic :
      (token : String) (clock now : ℕ) (db : AuthDb) (a : AuthenticatedUser)
      → authenticate L (some token) clock now db ≡ ok a
      → IsAuthentic token clock now db a
  unfolding authenticate
  authenticate-IsAuthentic token clock now db a h =
      let (text, e0, h0) = >>=-eq-ok (given_token (some token)) _ h in
      let (d, e1, h1) = >>=-eq-ok (as_session (decode_token L text clock now)) _ h0 in
      let (s, e2, h2) = >>=-eq-ok (live_session d now (find session_key d.jti db.sessions)) _ h1 in
      let (u, e3, h3) = >>=-eq-ok (enabled_user (find user_key d.user_id db.users)) _ h2 in
      let text_same : text ≡ token = given_token-ok token text e0 in
      let (found, mine, open_, alive) =
        live_session-ok d now (find session_key d.jti db.sessions) s e2 in
      let (known, active) = enabled_user-ok (find user_key d.user_id db.users) u e3 in
      made token clock now db a d s u
        (subst (λ t. decode_token L t clock now ≡ ok d) text_same
          (as_session-ok (decode_token L text clock now) d e1))
        found mine open_ alive known active (done_same s u a h3)
    where
      done_same :
          (s : AuthSession) (u : User) (a : AuthenticatedUser)
          → ◌≡◌ {A = Result AuthenticatedUser} (ok (record { account = u; session = s })) (ok a)
          → record { account = u; session = s } ≡ a
      done_same s u a h = cc

  live_session_revoked :
      (d : DecodedToken) (now : ℕ) (s : AuthSession) (t : ℕ)
      → live_session d now (some (record s { revoked_at = some t })) ≡ err invalid_session
  unfolding live_session
  live_session_revoked d now s t = ground arith

  -- After the session of an authenticated user has been revoked, every token of that session is
  -- rejected as an invalid session, at any time.
  pub revoke-authenticate :
      (token later_token : String) (clock now when later_clock later : ℕ) (db : AuthDb)
      (a : AuthenticatedUser) (d : DecodedToken)
      → authenticate L (some token) clock now db ≡ ok a
      → 0 < count later_token
      → decode_token L later_token later_clock later ≡ ok d
      → d.jti ≡ a.session.jti
      → authenticate L (some later_token) later_clock later (revoke a when db) ≡ err invalid_session
  unfolding authenticate revoke
  revoke-authenticate token later_token clock now when later_clock later db a d h some_text read
        same =
      let given : ltb 0 (count later_token) ≡ true = ground arith in
      let p = authenticate-IsAuthentic token clock now db a h in
      let row : AuthSession = record a.session { revoked_at = some when } in
      let key : a.session.jti ≡ p.decoded.jti =
        key-find session_key p.decoded.jti db.sessions a.session p.found in
      let there : find session_key d.jti (replace session_key row db.sessions) ≡ some row =
        find-replace_self session_key d.jti row a.session db.sessions
          (subst (λ k. find session_key k db.sessions ≡ some a.session) (sym (same ∙ key)) p.found)
          (sym same) in
      rw (given, read, there, live_session_revoked d later a.session when) refl
