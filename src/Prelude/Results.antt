-- ===== src/Prelude/Results.antt =====
-- Python exceptions as values: a function that may raise returns a `Result`.
use Prim.Native.Nat.{ℕ, zero, suc}
use Prim.Native.String.{String}
use mathlib.Core.Path.{◌≡◌, refl}
use mathlib.Core.Bool.{Bool, true, false, ◌&&◌}
use mathlib.Core.Option.{Option, none, some}
use microlens_recsys_mvp.Prelude.Tests.{ℤ, pos, negsuc, if◌then◌else◌}
use text.Mathlib.Text.{◌==◌ as str_eq}

-- The exception classes, each with its message.
pub data Error : Type 0 where
  value_error lookup_error lease_lost idempotency_conflict overflow_error : String → Error
  integrity_error : Error
  operation_failure audited_failure : (code message : String) → Error
  api_error : (status : ℕ) (code message : String) → Error
  other_error : (type_name : String) → Error

-- `type(exc).__name__`
abbrev pub type_name : Error → String
type_name (value_error _) = "ValueError"
type_name (lookup_error _) = "LookupError"
type_name (lease_lost _) = "LeaseLostError"
type_name (idempotency_conflict _) = "IdempotencyConflictError"
type_name (overflow_error _) = "OverflowError"
type_name integrity_error = "IntegrityError"
type_name (operation_failure _ _) = "OperationFailure"
type_name (audited_failure _ _) = "AuditedOperationFailure"
type_name (api_error _ _ _) = "ApiError"
type_name (other_error name) = name

-- What a call returns, or the exception that it raises.
pub data Result {ℓ} (A : Type ℓ) : Type ℓ where
  err : Error → Result A
  ok : A → Result A

-- `if value is None: raise …`
abbrev pub require {ℓ} : {A : Type ℓ} → Option A → Error → Result A
require none raised = err raised
require (some value) raised = ok value

-- `if not passed: raise …`
abbrev pub guard : (passed : Bool) (raised : Error) → Result (Unit {0})
guard false raised = err raised
guard true raised = ok tt

-- `hmac.compare_digest` of two texts: a TypeError where one is not ASCII.
abbrev pub compare_digest : (is_ascii : String → Bool) (a b : String) → Result Bool
compare_digest is_ascii a b =
    if is_ascii a && is_ascii b then ok (str_eq a b) else err (other_error "TypeError")

infixl 5 ◌>>=◌
abbrev pub ◌>>=◌ {κ μ} : {X : Type κ} {Y : Type μ} → Result X → (X → Result Y) → Result Y
err raised >>= rest = err raised
ok value >>= rest = rest value

infixl 5 ◌>>◌
abbrev pub ◌>>◌ {κ} : {Y : Type κ} → Result (Unit {0}) → Result Y → Result Y
first >> second = first >>= λ _. second

-- `if value <= 0: raise …`, with the number that passed.
abbrev pub positive : ℤ → Error → Result ℕ
positive (pos zero) e = err e
positive (pos (suc n)) e = ok (suc n)
positive (negsuc n) e = err e

-- `if value < 0: raise …`
abbrev pub nonnegative : ℤ → Error → Result ℕ
nonnegative (pos n) e = ok n
nonnegative (negsuc n) e = err e

-- A successful sequence has a successful first part.
pub >>=-eq-ok {κ μ} :
    {X : Type κ} {Y : Type μ} (first : Result X) (rest : X → Result Y) {y : Y}
    → (first >>= rest) ≡ ok y
    → (x : X) × (first ≡ ok x) × (rest x ≡ ok y)
>>=-eq-ok (err raised) rest h = cc
>>=-eq-ok (ok x) rest h = (x, refl, h)
