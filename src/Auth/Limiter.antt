-- ===== src/Auth/Limiter.antt =====
-- The registration limiters (apps/api/app/auth/rate_limit.py).
use microlens_recsys_mvp.Prelude.{
  ℕ, zero, suc, ◌+◌, String, Bool, Option, none, some, List, [], ◌∷◌, leb, str_eq, if◌then◌else◌, ℤ,
  pos, negsuc, Error, other_error, Result, ok, err,
}

-- The commands of a Redis server that the script calls. `ttl` answers -2 for a missing key and -1
-- for a key with no expiry; `get` is the number in the key, `none` where it holds none.
pub record Redis : Type 1 where
  pub Store : Type 0
  pub ttl : String → Store → ℤ
  pub set_ex : String → ℤ → (seconds : ℕ) → Store → Store
  pub expire : String → (seconds : ℕ) → Store → Store
  pub get : String → Store → Option ℤ
  pub incr : String → Store → Result (ℤ × Store)

module _ (R : Redis) where
  abbrev counted : Option ℤ → String → R.Store → Result (ℤ × R.Store)
  counted none key store = R.incr key store
  counted (some (pos zero)) key store = ok (pos 0, store)
  counted (some (pos (suc n))) key store = R.incr key store
  counted (some (negsuc n)) key store = ok (negsuc n, store)

  abbrev script_after_ttl : ℤ → String → ℕ → R.Store → Result (ℤ × R.Store)
  script_after_ttl (negsuc (suc zero)) key window store =
      ok (pos 1, R.set_ex key (pos 1) window store)
  script_after_ttl (negsuc zero) key window store =
      let bounded = R.expire key window store in counted (R.get key bounded) key bounded
  script_after_ttl _ key window store = counted (R.get key store) key store

  -- `_ATOMIC_INCREMENT_WITH_EXPIRY`
  unfoldable pub increment_with_expiry : String → ℕ → R.Store → Result (ℤ × R.Store)
  increment_with_expiry key window store = script_after_ttl (R.ttl key store) key window store

  abbrev unavailable : Error
  unavailable = other_error "RegistrationLimiterUnavailable"

  -- `1 <= count <= 2 ** 63 - 1`, against the limit.
  abbrev pub within : (limit : ℕ) → ℤ → R.Store → Result (Bool × R.Store)
  within limit (pos zero) store = err unavailable
  within limit (pos (suc n)) store =
      if leb (suc n) 9223372036854775807 then ok (leb (suc n) limit, store) else err unavailable
  within limit (negsuc n) store = err unavailable

  abbrev pub judged : (limit : ℕ) → Result (ℤ × R.Store) → Result (Bool × R.Store)
  judged limit (ok (count, store)) = within limit count store
  judged limit (err raised) = err unavailable

  -- `RedisRegistrationLimiter.allow`; `digest` is the key of an identity.
  unfoldable pub allow :
      (digest : String → String) (limit window : ℕ) (identity : String)
      → R.Store
      → Result (Bool × R.Store)
  unfolding increment_with_expiry
  allow digest limit window identity store =
      judged limit (increment_with_expiry (digest identity) window store)

abbrev pub Counts : Type 0
Counts = List (String × ℕ)

unfoldable pub count_of : String → Counts → ℕ
count_of identity [] = 0
count_of identity ((key, n) ∷ rest) = if str_eq key identity then n else count_of identity rest

unfoldable pub bump_count : String → Counts → Counts
bump_count identity [] = (identity, 1) ∷ []
bump_count identity ((key, n) ∷ rest) =
    let others = bump_count identity rest in
    if str_eq key identity then (key, n + 1) ∷ rest else (key, n) ∷ others

-- `InMemoryRegistrationLimiter.allow`
unfoldable pub allow_in_memory : (limit : ℕ) (identity : String) → Counts → Bool × Counts
unfolding count_of bump_count
allow_in_memory limit identity counts =
    let next = bump_count identity counts in (leb (count_of identity next) limit, next)
