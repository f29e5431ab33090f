-- ===== src/Auth/Service.antt =====
-- `AuthService` and the checks of a request (apps/api/app/auth/service.py and dependencies.py).
use Prim.Native.String.{count}
use microlens_recsys_mvp.Prelude.{
  ℕ, String, Bool, true, false, not, ◌&&◌, ◌||◌, Option, none, some, List, [], ◌∷◌, ◌++◌, ◌==◌, ltb,
  leb, is_some, if◌then◌else◌, Error, value_error, api_error, integrity_error, Result, ok, err,
  ◌>>=◌, ◌>>◌, guard,
}
use microlens_recsys_mvp.Prelude.Table.{find, replace}
use microlens_recsys_mvp.Operations.Rows.{Role, user, operator_readonly, operator, admin}
use microlens_recsys_mvp.Auth.Rows.{
  AccountStatus, enabled, disabled, User, AuthSession, AuthDb, user_key, session_key, find_username,
  insert_user, insert_session,
}
use microlens_recsys_mvp.Auth.Security.{
  AuthLibrary, SessionToken, DecodedToken, normalize_username, hash_password, issue, decode_token,
  csrf_matches,
}

pub record AuthenticatedUser : Type 0 where
  pub account : User
  pub session : AuthSession

abbrev pub is_enabled : AccountStatus → Bool
is_enabled enabled = true
is_enabled disabled = false

abbrev pub username_exists : Error
username_exists = api_error 409 "username_exists" "Username is already registered"

abbrev pub invalid_credentials : Error
invalid_credentials = api_error 401 "invalid_credentials" "Invalid username or password"

abbrev pub invalid_session : Error
invalid_session = api_error 401 "invalid_session" "Session is invalid or expired"

-- `except ValueError as exc`, with the text of the exception.
abbrev pub invalid_registration {ℓ} : {A : Type ℓ} → Result A → Result A
invalid_registration (err (value_error message)) =
    err (api_error 422 "invalid_registration" message)
invalid_registration (err raised) = err raised
invalid_registration (ok a) = ok a

abbrev pub as_credentials : Result String → Result String
as_credentials (err (value_error message)) = err invalid_credentials
as_credentials (err raised) = err raised
as_credentials (ok a) = ok a

-- `except IntegrityError`
abbrev pub as_conflict : Result AuthDb → Result AuthDb
as_conflict (err integrity_error) = err username_exists
as_conflict (err raised) = err raised
as_conflict (ok db) = ok db

-- `except Exception`
abbrev pub as_session : Result DecodedToken → Result DecodedToken
as_session (err raised) = err invalid_session
as_session (ok decoded) = ok decoded

-- A user that may log in with this password.
abbrev pub checked_user : (String → String → Bool) → String → Option User → Result User
checked_user verify password none = err invalid_credentials
checked_user verify password (some u) =
    if is_enabled u.status && verify password u.password_hash then ok u else err invalid_credentials

-- The session of a decoded token: the user's, not revoked, not expired.
unfoldable pub live_session : DecodedToken → (now : ℕ) → Option AuthSession → Result AuthSession
live_session decoded now none = err invalid_session
live_session decoded now (some s) =
    if s.user_id == decoded.user_id && (not (is_some s.revoked_at) && ltb now s.expires_at)
    then ok s
    else err invalid_session

unfoldable pub enabled_user : Option User → Result User
enabled_user none = err invalid_session
enabled_user (some u) = if is_enabled u.status then ok u else err invalid_session

abbrev pub given_token : Option String → Result String
given_token none = err (api_error 401 "authentication_required" "Authentication is required")
given_token (some token) =
    if ltb 0 (count token)
    then ok token
    else err (api_error 401 "authentication_required" "Authentication is required")

module _ (L : AuthLibrary) where
  unfoldable pub unicoded_display_username : String → Result String
  unicoded_display_username username = do
    let value = L.strip username
    guard (leb 3 (count value) && leb (count value) 64)
        (api_error 422 "invalid_username" "Username must contain 3 to 64 characters")
    ok value

  -- `user_id` is the new id.
  unfoldable pub register :
      (user_id : ℕ) (username password : String) → AuthDb → Result (User × AuthDb)
  unfolding normalize_username hash_password insert_user
  register user_id username password db = do
    normalized ← invalid_registration (normalize_username L username)
    password_hash ← invalid_registration (hash_password L password)
    guard (not (is_some (find_username normalized db.users))) username_exists
    shown ← unicoded_display_username username
    let account : User = record {
      id = user_id;
      username = shown;
      username_normalized = normalized;
      password_hash = password_hash;
      role = user;
      status = enabled;
    }
    written ← as_conflict (insert_user account db)
    ok (account, record written { profiles = written.profiles ++ user_id ∷ [] })

  unfoldable pub login :
      (lifetime jti : ℕ) (csrf_token username password : String) (now : ℕ)
      → AuthDb
      → Result (User × SessionToken × AuthDb)
  unfolding normalize_username insert_session
  login lifetime jti csrf_token username password now db = do
    normalized ← as_credentials (normalize_username L username)
    account ← checked_user L.verify password (find_username normalized db.users)
    let issued = issue L lifetime account.id jti csrf_token now
    written ←
        insert_session
          (record {
            jti = jti;
            user_id = account.id;
            csrf_digest = issued.csrf_digest;
            expires_at = issued.expires_at;
            revoked_at = none;
          })
          db
    ok (account, issued, written)

  unfoldable pub authenticate : Option String → (clock now : ℕ) → AuthDb → Result AuthenticatedUser
  unfolding decode_token live_session enabled_user
  authenticate token clock now db = do
    text ← given_token token
    decoded ← as_session (decode_token L text clock now)
    session ← live_session decoded now (find session_key decoded.jti db.sessions)
    account ← enabled_user (find user_key decoded.user_id db.users)
    ok (record { account = account; session = session })

  -- `csrf_user`
  unfoldable pub csrf_user :
      AuthenticatedUser → (cookie_value header_value : String) → Result AuthenticatedUser
  unfolding csrf_matches
  csrf_user authenticated cookie_value header_value = do
    matches ← csrf_matches L cookie_value header_value authenticated.session.csrf_digest
    guard matches (api_error 403 "csrf_failed" "CSRF token is missing or invalid")
    ok authenticated

unfoldable pub revoke : AuthenticatedUser → (now : ℕ) → AuthDb → AuthDb
revoke authenticated now db = record db {
  sessions =
      replace session_key (record authenticated.session { revoked_at = some now }) db.sessions;
}

abbrev same_role : Role → Role → Bool
same_role user user = true
same_role operator_readonly operator_readonly = true
same_role operator operator = true
same_role admin admin = true
same_role _ _ = false

abbrev role_mem : Role → List Role → Bool
role_mem r [] = false
role_mem r (s ∷ rest) = same_role r s || role_mem r rest

-- `AuthDependencies.roles` and `csrf_roles`
unfoldable pub require_role : List Role → AuthenticatedUser → Result AuthenticatedUser
require_role allowed authenticated =
    if role_mem authenticated.account.role allowed
    then ok authenticated
    else err (api_error 403 "forbidden" "The current role cannot perform this action")
