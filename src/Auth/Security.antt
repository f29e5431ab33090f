-- ===== src/Auth/Security.antt =====
-- Names, passwords and tokens (apps/api/app/auth/security.py).
use Prim.Native.String.{count}
use microlens_recsys_mvp.Prelude.{
  ℕ, ◌+◌, String, Bool, not, ◌&&◌, true, false, ltb, leb, if◌then◌else◌, compare_digest,
  value_error, other_error, Result, ok, ◌>>=◌, ◌>>◌, guard,
}

pub record Claims : Type 0 where
  pub sub : ℕ
  pub jti : ℕ
  pub iat : ℕ
  pub exp : ℕ

-- The libraries that the service calls: Unicode, the password hasher, JSON web tokens with their
-- signature, issuer and audience, and sha256.
pub record AuthLibrary : Type 0 where
  pub fold : String → String
  pub strip : String → String
  pub has_space_or_control : String → Bool
  pub hasher : String → String
  pub verify : (password password_hash : String) → Bool
  pub jwt_encode : Claims → String
  -- Read at a time of the server's clock; an expiry is not checked here.
  pub jwt_decode : String → (clock : ℕ) → Result Claims
  pub sha256 : String → String
  pub is_ascii : String → Bool

pub record SessionToken : Type 0 where
  pub token : String
  pub jti : ℕ
  pub csrf_token : String
  pub csrf_digest : String
  pub expires_at : ℕ

pub record DecodedToken : Type 0 where
  pub user_id : ℕ
  pub jti : ℕ
  pub expires_at : ℕ

module _ (L : AuthLibrary) where
  unfoldable pub normalize_username : String → Result String
  normalize_username username = do
    let value = L.fold username
    guard (leb 3 (count value) && leb (count value) 64)
        (value_error "username must contain between 3 and 64 normalized characters")
    guard (not (L.has_space_or_control value))
        (value_error "username cannot contain whitespace or control characters")
    ok value

  -- `PasswordService.hash`
  unfoldable pub hash_password : String → Result String
  hash_password password = do
    guard (leb 12 (count password) && leb (count password) 256)
        (value_error "password must contain between 12 and 256 characters")
    ok (L.hasher password)

  -- `JWTService.issue`; `jti` and `csrf_token` are random.
  abbrev pub issue : (lifetime user_id jti : ℕ) (csrf_token : String) (now : ℕ) → SessionToken
  issue lifetime user_id jti csrf_token now = record {
    token = L.jwt_encode (record { sub = user_id; jti = jti; iat = now; exp = now + lifetime });
    jti = jti;
    csrf_token = csrf_token;
    csrf_digest = L.sha256 csrf_token;
    expires_at = now + lifetime;
  }

  -- `JWTService.decode`; `clock` is the time of the server's clock, that the check of `iat` reads.
  unfoldable pub decode_token : String → (clock now : ℕ) → Result DecodedToken
  decode_token token clock now = do
    claims ← L.jwt_decode token clock
    guard (ltb now claims.exp) (other_error "ExpiredSignatureError")
    ok (record { user_id = claims.sub; jti = claims.jti; expires_at = claims.exp })

  -- The second part of an `and`.
  abbrev and_then : Bool → Result Bool → Result Bool
  and_then false rest = ok false
  and_then true rest = rest

  unfoldable pub csrf_matches : (cookie_token header_token expected_digest : String) → Result Bool
  csrf_matches cookie_token header_token expected_digest =
      if ltb 0 (count cookie_token) && ltb 0 (count header_token)
      then (compare_digest L.is_ascii cookie_token header_token >>= λ same.
          and_then same (compare_digest L.is_ascii (L.sha256 cookie_token) expected_digest))
      else ok false
