-- ===== src/Auth/Rows.antt =====
-- The tables of users and sessions (apps/api/app/db/models.py). The id of a user and the random
-- id of a token are numbers.
use Prim.Native.String.{count}
use microlens_recsys_mvp.Prelude.{
  ℕ, String, Bool, false, ◌||◌, Option, none, some, List, [], ◌∷◌, ◌++◌, leb, str_eq, is_some,
  if◌then◌else◌, Result, ok, err, integrity_error,
}
use microlens_recsys_mvp.Prelude.Table.{find}
use microlens_recsys_mvp.Operations.Rows.{Role}

pub data AccountStatus : Type 0 where
  enabled disabled : AccountStatus

pub record User : Type 0 where
  pub id : ℕ
  pub username : String
  pub username_normalized : String
  pub password_hash : String
  pub role : Role
  pub status : AccountStatus

pub record AuthSession : Type 0 where
  pub jti : ℕ
  pub user_id : ℕ
  pub csrf_digest : String
  pub expires_at : ℕ
  pub revoked_at : Option ℕ

-- `profiles` holds the users that have a profile.
pub record AuthDb : Type 0 where
  pub users : List User
  pub sessions : List AuthSession
  pub profiles : List ℕ

abbrev pub user_key : User → ℕ
user_key u = u.id

abbrev pub session_key : AuthSession → ℕ
session_key s = s.jti

-- `select(User).where(User.username_normalized == name)`
unfoldable pub find_username : String → List User → Option User
find_username name [] = none
find_username name (u ∷ users) =
    if str_eq u.username_normalized name then some u else find_username name users

abbrev has_username : String → List User → Bool
has_username name [] = false
has_username name (u ∷ users) = str_eq u.username name || has_username name users

-- The flush of a new user, with the unique columns and the check of the table.
unfoldable pub insert_user : User → AuthDb → Result AuthDb
insert_user u db =
    if is_some (find user_key u.id db.users)
      || (is_some (find_username u.username_normalized db.users)
          || has_username u.username db.users)
    then err integrity_error
    else if leb 3 (count u.username)
    then ok (record db { users = db.users ++ u ∷ [] })
    else err integrity_error

-- The flush of a new session, with its unique column.
unfoldable pub insert_session : AuthSession → AuthDb → Result AuthDb
insert_session s db =
    if is_some (find session_key s.jti db.sessions)
    then err integrity_error
    else ok (record db { sessions = db.sessions ++ s ∷ [] })
