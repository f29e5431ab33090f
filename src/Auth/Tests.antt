-- ===== src/Auth/Tests.antt =====
-- One account, its session, and a Redis server that is a function from keys to counts.
use microlens_recsys_mvp.Prelude.{
  ℕ, zero, suc, ◌+◌, ◌-◌, String, true, false, ◌≡◌, ◌≢◌, refl, Option, none, some, List, [], ◌∷◌,
  str_eq, eq_iff, if◌then◌else◌, ℤ, pos, negsuc, Result, ok, err, arith,
}
use microlens_recsys_mvp.Prelude.Table.{find}
use microlens_recsys_mvp.Operations.Rows.{user}
use microlens_recsys_mvp.Auth.Rows.{enabled, User, AuthDb, find_username, insert_session}
use microlens_recsys_mvp.Auth.Security.{
  AuthLibrary, SessionToken, normalize_username, issue, decode_token,
}
use microlens_recsys_mvp.Auth.Service.{
  AuthenticatedUser, invalid_session, login, authenticate, revoke,
}
use microlens_recsys_mvp.Auth.Login.{issued_session, login-authenticate}
use microlens_recsys_mvp.Auth.Sessions.{revoke-authenticate}
use microlens_recsys_mvp.Auth.Limiter.{Redis, count_of}
use microlens_recsys_mvp.Auth.Window.{
  RedisLaws, Refines, allow_all, allow_all_in_memory, allow_all-Refines,
}

abbrev library : AuthLibrary
library = record {
  fold = λ s. s;
  strip = λ s. s;
  has_space_or_control = λ s. false;
  hasher = λ s. s;
  verify = str_eq;
  jwt_encode = λ c. "t";
  jwt_decode = λ t clock. ok (record { sub = 1; jti = 5; iat = 0; exp = 9000000 });
  sha256 = λ s. s;
  is_ascii = λ s. true;
}

abbrev ada : User
ada = record {
  id = 1;
  username = "ada";
  username_normalized = "ada";
  password_hash = "a long password";
  role = user;
  status = enabled;
}

abbrev db : AuthDb
db = record { users = ada ∷ []; sessions = []; profiles = 1 ∷ [] }

abbrev issued : SessionToken
issued = issue library 9000000 1 5 "c" 0

abbrev logged_in : AuthDb
logged_in = record db { sessions = issued_session ada issued ∷ [] }

login_ran : login library 9000000 5 "c" "ada" "a long password" 0 db ≡ ok (ada, issued, logged_in)
unfolding login normalize_username find_username insert_session find
login_ran = refl

abbrev ada_now : AuthenticatedUser
ada_now = record { account = ada; session = issued_session ada issued }

login-authenticate_example :
    authenticate library (some issued.token) 3000000 3000000 logged_in ≡ ok ada_now
unfolding find
login-authenticate_example =
    login-authenticate library 9000000 5 "c" "ada" "a long password" 0 db 3000000 3000000 ada issued
      logged_in (record { decode-encode = λ clock e. refl; encode_some = omega arith }) (refl, tt)
      login_ran (omega arith) (omega arith)

revoke-authenticate_example :
    authenticate library (some "t") 4000000 4000000 (revoke ada_now 3500000 logged_in)
    ≡ err invalid_session
unfolding decode_token
revoke-authenticate_example =
    revoke-authenticate library "t" "t" 3000000 3000000 3500000 4000000 4000000 logged_in ada_now
      (record { user_id = 1; jti = 5; expires_at = 9000000 }) login-authenticate_example
      (omega arith) refl refl

-- A server whose keys are counters with an expiry, 0 where there is none.
abbrev ttl_of : ℕ → ℤ
ttl_of zero = negsuc 1
ttl_of (suc n) = pos 300

abbrev number_of : ℕ → Option ℤ
number_of zero = none
number_of (suc n) = some (pos (suc n))

abbrev live_of : ℕ → Option ℕ
live_of zero = none
live_of (suc n) = some (suc n)

abbrev whole : ℤ → ℕ
whole (pos n) = n
whole (negsuc n) = 0

abbrev put : String → ℕ → (String → ℕ) → String → ℕ
put k n s j = if str_eq k j then n else s j

abbrev server : Redis
server = record {
  Store = String → ℕ;
  ttl = λ k s. ttl_of (s k);
  set_ex = λ k z w s. put k (whole z) s;
  expire = λ k w s. s;
  get = λ k s. number_of (s k);
  incr = λ k s. ok (pos (s k + 1), put k (s k + 1) s);
}

put_self : (k : String) (n : ℕ) (s : String → ℕ) → put k n s k ≡ n
put_self k n s = ground (arith, eq_iff k k)

put_ne : (k j : String) (n : ℕ) (s : String → ℕ) → k ≢ j → put k n s j ≡ s j
put_ne k j n s ne = ground (arith, eq_iff k j)

present : (v n : ℕ) → live_of v ≡ some n → v ≡ suc (n - 1)
present zero n e = absurd (cc)
present (suc v) n e = ground arith

absent : (v : ℕ) → live_of v ≡ none → v ≡ 0
absent zero e = refl
absent (suc v) e = absurd (cc)

live_suc : (v n : ℕ) → live_of v ≡ some n → live_of (v + 1) ≡ some (n + 1)
live_suc zero n e = absurd (cc)
live_suc (suc v) n e = ground arith

ttl_some : (v n : ℕ) → live_of v ≡ some n → (t : ℕ) × (ttl_of v ≡ pos t)
ttl_some zero n e = absurd (cc)
ttl_some (suc v) n e = (300, refl)

number_some : (v n : ℕ) → live_of v ≡ some n → number_of v ≡ some (pos n)
number_some zero n e = absurd (cc)
number_some (suc v) n e = ground arith

incr_some :
    (k : String) (s : String → ℕ) (n : ℕ)
    → live_of (s k) ≡ some n
    → ◌≡◌ {A = Result (ℤ × (String → ℕ))}
        (ok (pos (s k + 1), put k (s k + 1) s))
        (ok (pos (n + 1), put k (s k + 1) s))
incr_some k s n e = same (s k) e
  where
    same :
        (v : ℕ)
        → live_of v ≡ some n
        → ◌≡◌ {A = Result (ℤ × (String → ℕ))}
            (ok (pos (v + 1), put k (s k + 1) s))
            (ok (pos (n + 1), put k (s k + 1) s))
    same zero e = absurd (cc)
    same (suc v) e = let m : suc v ≡ n = cc in rw m refl

server_laws : RedisLaws server
server_laws = record {
  IsClean = λ s. Unit;
  live = λ k s. live_of (s k);
  ttl_missing = λ k s c e. rw (absent (s k) e) refl;
  ttl_live = λ k s n c e. ttl_some (s k) n e;
  get_live = λ k s n c e. number_some (s k) n e;
  set_ex-IsClean = λ k n w s c. tt;
  live-set_ex_self = λ k n w s. rw (put_self k (suc n) s) refl;
  live-set_ex_ne = λ k j n w s ne. rw (put_ne k j (suc n) s ne) refl;
  incremented = λ k s. put k (s k + 1) s;
  incr_live = λ k s n c e small. incr_some k s n e;
  incremented-IsClean = λ k s c. tt;
  live-incremented_self = λ k s n e. rw (put_self k (s k + 1) s) (live_suc (s k) n e);
  live-incremented_ne = λ k j s ne. rw (put_ne k j (s k + 1) s ne) refl;
}

abbrev nothing : String → ℕ
nothing k = 0

fresh : Refines server_laws (λ s. s) (λ i j ne. ne) 2 300 nothing []
unfolding count_of server_laws
fresh = record { clean = tt; same = λ i. refl }

abbrev three : List String
three = "a" ∷ "a" ∷ "a" ∷ []

allow_all-Refines_example :
    (store : String → ℕ) × (allow_all server_laws (λ s. s) (λ i j ne. ne) 2 300 three nothing
      ≡ ok ((allow_all_in_memory server_laws (λ s. s) (λ i j ne. ne) 2 300 three []).0, store))
    × Refines server_laws
        (λ s. s)
        (λ i j ne. ne)
        2
        300
        store
        (allow_all_in_memory server_laws (λ s. s) (λ i j ne. ne) 2 300 three []).1
unfolding count_of
allow_all-Refines_example =
    allow_all-Refines server_laws (λ s. s) (λ i j ne. ne) 2 300 three nothing [] fresh
      (λ i. omega arith)
