-- ===== src/Auth/Login.antt =====
-- A login is good for a request (apps/api/app/auth/service.py).
use Prim.Native.String.{count}
use microlens_recsys_mvp.Prelude.{
  ℕ, ◌+◌, ◌*◌, ◌/◌, ◌≤◌, ◌<◌, String, Bool, true, ◌&&◌, ◌≡◌, refl, sym, ap, subst, ◌∙◌, inl, inr,
  Option, none, some, List, [], ◌∷◌, ◌++◌, ltb, str_eq, All, Bool-cases, ok, >>=-eq-ok, arith,
}
use microlens_recsys_mvp.Prelude.Table.{find, IsKeyed, IsKeyed-find, find-append_self}
use microlens_recsys_mvp.Auth.Rows.{
  User, AuthSession, AuthDb, user_key, session_key, find_username, insert_session,
}
use microlens_recsys_mvp.Auth.Security.{
  Claims, AuthLibrary, SessionToken, DecodedToken, normalize_username, issue, decode_token,
}
use microlens_recsys_mvp.Auth.Service.{
  is_enabled, as_credentials, checked_user, live_session, enabled_user, login, authenticate,
}

-- What is relied on of JSON web tokens: the one that was issued is not empty, and it is read back with
-- its times cut to whole seconds, at a time of the clock that is not before the time of issue so cut.
pub record TokenLaws (L : AuthLibrary) (c : Claims) : Type 0 where
  pub decode-encode :
      (clock : ℕ)
      → c.iat / 1000000 * 1000000 ≤ clock
      → L.jwt_decode (L.jwt_encode c) clock
        ≡ ok (record c { iat = c.iat / 1000000 * 1000000; exp = c.exp / 1000000 * 1000000 })
  pub encode_some : 0 < count (L.jwt_encode c)

abbrev pub issued_session : User → SessionToken → AuthSession
issued_session u issued = record {
  jti = issued.jti;
  user_id = u.id;
  csrf_digest = issued.csrf_digest;
  expires_at = issued.expires_at;
  revoked_at = none;
}

find_username-All {κ} :
    (P : User → Type κ) (name : String) (users : List User) (u : User)
    → All P users
    → find_username name users ≡ some u
    → P u
unfolding find_username
find_username-All P name [] u h e = absurd (cc)
find_username-All P name (v ∷ users) u h e = elim (Bool-cases (str_eq v.username_normalized name)) [
  | inl hit ↦ subst P (ground arith) h.0
  | inr miss ↦ find_username-All P name users u h.1 (ground arith)
]

checked_user-ok :
    (verify : String → String → Bool) (password : String) (o : Option User) (u : User)
    → checked_user verify password o ≡ ok u
    → (o ≡ some u) × (is_enabled u.status ≡ true)
checked_user-ok verify password none u h = absurd (cc)
checked_user-ok verify password (some v) u h =
    let pass : (is_enabled v.status && verify password v.password_hash) ≡ true = ground arith in
    let same : v ≡ u = ground arith in
    (ap (λ x. some x) same, subst (λ (x : User). is_enabled x.status ≡ true) same (ground arith))

insert_session-rows :
    (s : AuthSession) (db db' : AuthDb)
    → insert_session s db ≡ ok db'
    → (find session_key s.jti db'.sessions ≡ some s) × (db'.users ≡ db.users)
unfolding insert_session
insert_session-rows s db db' h =
    let fresh : find session_key s.jti db.sessions ≡ none = ground arith in
    let rows : db'.sessions ≡ db.sessions ++ s ∷ [] = ground arith in
    (
      ap (find session_key s.jti) rows ∙ find-append_self session_key db.sessions s fresh,
      ground arith,
    )

authenticate-ok :
    (L : AuthLibrary) (text : String) (clock now : ℕ) (db : AuthDb) (d : DecodedToken)
    (s : AuthSession) (u : User)
    → ltb 0 (count text) ≡ true
    → decode_token L text clock now ≡ ok d
    → find session_key d.jti db.sessions ≡ some s
    → live_session d now (some s) ≡ ok s
    → find user_key d.user_id db.users ≡ some u
    → enabled_user (some u) ≡ ok u
    → authenticate L (some text) clock now db ≡ ok (record { account = u; session = s })
unfolding authenticate
authenticate-ok L text clock now db d s u e1 e2 e3 e4 e5 e6 = rw (e1, e2, e3, e4, e5, e6) refl

module _ (L : AuthLibrary) (lifetime jti : ℕ) (csrf_token username password : String) (now : ℕ)
    (db : AuthDb) where
  abbrev token_of : User → SessionToken
  token_of u = issue L lifetime u.id jti csrf_token now

  record LoggedIn (u : User) (issued : SessionToken) (db' : AuthDb) : Type 0 where
    name : String
    found : find_username name db.users ≡ some u
    active : is_enabled u.status ≡ true
    token : issued ≡ token_of u
    row : find session_key jti db'.sessions ≡ some (issued_session u issued)
    users : db'.users ≡ db.users

  login-LoggedIn :
      (u : User) (issued : SessionToken) (db' : AuthDb)
      → login L lifetime jti csrf_token username password now db ≡ ok (u, issued, db')
      → LoggedIn u issued db'
  unfolding login
  login-LoggedIn u issued db' h =
      let (name, e1, h1) = >>=-eq-ok (as_credentials (normalize_username L username)) _ h in
      let (v, e2, h2) =
        >>=-eq-ok (checked_user L.verify password (find_username name db.users)) _ h1 in
      let (written, e3, h3) = >>=-eq-ok (insert_session (issued_session v (token_of v)) db) _ h2 in
      let (found, active) = checked_user-ok L.verify password (find_username name db.users) v e2 in
      let (row, users) = insert_session-rows (issued_session v (token_of v)) db written e3 in
      let who : v ≡ u = ground arith in
      let what : token_of v ≡ issued = ground arith in
      let last : written ≡ db' = ground arith in
      record {
        name = name;
        found = found ∙ ap (λ x. some x) who;
        active = subst (λ (x : User). is_enabled x.status ≡ true) who active;
        token = sym what ∙ ap token_of who;
        row =
            ap (λ d. find session_key jti d.sessions) (sym last)
            ∙ row
            ∙ ap (λ x. some (issued_session x (token_of v))) who
            ∙ ap (λ t. some (issued_session u t)) what;
        users = ap (λ d. d.users) (sym last) ∙ users;
      }

  abbrev pub claims : User → Claims
  claims u = record { sub = u.id; jti = jti; iat = now; exp = now + lifetime }

  abbrev read_token : User → DecodedToken
  read_token u = record {
    user_id = u.id;
    jti = jti;
    expires_at = (now + lifetime) / 1000000 * 1000000;
  }

  decoded :
      (u : User) (clock later : ℕ)
      → TokenLaws L (claims u)
      → now / 1000000 * 1000000 ≤ clock
      → later < (now + lifetime) / 1000000 * 1000000
      → decode_token L (token_of u).token clock later ≡ ok (read_token u)
  unfolding decode_token
  decoded u clock later laws issued_before early =
      let live : ltb later ((now + lifetime) / 1000000 * 1000000) ≡ true = ground arith in
      rw (laws.decode-encode clock issued_before, live) refl

  lives :
      (u : User) (later : ℕ)
      → later < (now + lifetime) / 1000000 * 1000000
      → live_session (read_token u) later (some (issued_session u (token_of u)))
        ≡ ok (issued_session u (token_of u))
  unfolding live_session
  lives u later early = let before : later < now + lifetime = omega arith in ground arith

  serves : (u : User) → is_enabled u.status ≡ true → enabled_user (some u) ≡ ok u
  unfolding enabled_user
  serves u active = rw active refl

  -- The token of a login authenticates its user, with the session that the login stored, before the
  -- expiry cut to whole seconds, where the server's clock has reached the time of the login cut so.
  -- The users have distinct ids, and the token is read back with its times in whole seconds.
  pub login-authenticate :
      (clock later : ℕ) (u : User) (issued : SessionToken) (db' : AuthDb)
      → TokenLaws L (claims u)
      → IsKeyed user_key db.users
      → login L lifetime jti csrf_token username password now db ≡ ok (u, issued, db')
      → now / 1000000 * 1000000 ≤ clock
      → later < (now + lifetime) / 1000000 * 1000000
      → authenticate L (some issued.token) clock later db'
        ≡ ok (record { account = u; session = issued_session u issued })
  login-authenticate clock later u issued db' laws keyed h issued_before early =
      let p = login-LoggedIn u issued db' h in
      let there : find user_key u.id db.users ≡ some u =
        find_username-All (λ v. find user_key v.id db.users ≡ some v) p.name db.users u
          (IsKeyed-find user_key db.users keyed) p.found in
      let run : authenticate L (some (token_of u).token) clock later db'
          ≡ ok (record { account = u; session = issued_session u (token_of u) }) =
        authenticate-ok L (token_of u).token clock later db' (read_token u)
          (issued_session u (token_of u)) u (ground (arith, laws.encode_some))
          (decoded u clock later laws issued_before early)
          (subst (λ t. find session_key jti db'.sessions ≡ some (issued_session u t)) p.token p.row)
          (lives u later early) (ap (find user_key u.id) p.users ∙ there) (serves u p.active) in
      subst
        (λ t.
          authenticate L (some t.token) clock later db'
          ≡ ok (record { account = u; session = issued_session u t }))
        (sym p.token) run
