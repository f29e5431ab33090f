-- ===== src/Durable/Domain.antt =====
-- apps/api/app/async_runtime/domain.py: states, job specifications, claims.
use microlens_recsys_mvp.Prelude.{
  ℕ, ◌*◌, String, Bool, ◌&&◌, Option, ℤ, pos, negsuc, leb, if◌then◌else◌, bounded_text, value_error,
  Result, ok, err, ◌>>=◌, ◌>>◌, guard, require,
}

pub data JobState : Type 0 where
  queued running succeeded failed cancelled : JobState

pub data AttemptState : Type 0 where
  running succeeded failed lease_expired cancelled : AttemptState

pub data OutboxState : Type 0 where
  pending delivering published : OutboxState

-- A `datetime`: a naive one has no offset; of an aware one the UTC instant is kept, in
-- microseconds.
pub data DateTime : Type 0 where
  naive aware : ℕ → DateTime

-- `timedelta(seconds=n)`, in microseconds.
abbrev pub seconds : ℕ → ℕ
seconds n = n * 1000000

unfoldable pub require_aware : DateTime → String → Result ℕ
require_aware (naive t) message = err (value_error message)
require_aware (aware t) message = ok t

-- What the program hashes: a payload in canonical JSON, or the fields of a job specification.
pub data Canonical : Type 0 where
  payload_json : String → Canonical
  spec_json : (task_name payload : String) (due_at max_attempts : ℕ) → Canonical

-- `none` stands for a value that `json.dumps` refuses.
unfoldable pub canonical_json : Option String → Result String
canonical_json text = require text (value_error "payload must be canonical JSON data")

pub record JobSpec : Type 0 where
  pub idempotency_key : String
  pub task_name : String
  pub payload : String
  pub due_at : ℕ
  pub max_attempts : ℕ
  pub job_id : Option ℕ

abbrev between_1_and_100 : ℤ → Result ℕ
between_1_and_100 (pos n) =
    if leb 1 n && leb n 100
    then ok n
    else err (value_error "max_attempts must be between 1 and 100")
between_1_and_100 (negsuc n) = err (value_error "max_attempts must be between 1 and 100")

-- The constructor of `JobSpec`, with the checks of `__post_init__`.
unfoldable pub job_spec :
    (idempotency_key task_name : String) (payload : Option String) (due_at : DateTime)
    (max_attempts : ℤ) (job_id : Option ℕ)
    → Result JobSpec
unfolding require_aware canonical_json
job_spec idempotency_key task_name payload due_at max_attempts job_id = do
  guard (bounded_text idempotency_key 255)
      (value_error "idempotency_key must contain 1..255 characters")
  guard (bounded_text task_name 128) (value_error "task_name must contain 1..128 characters")
  attempts ← between_1_and_100 max_attempts
  due ← require_aware due_at "due_at must be timezone-aware"
  text ← canonical_json payload
  ok (record {
    idempotency_key = idempotency_key;
    task_name = task_name;
    payload = text;
    due_at = due;
    max_attempts = attempts;
    job_id = job_id;
  })

-- `spec.fingerprint`, before hashing.
abbrev pub fingerprint_input : JobSpec → Canonical
fingerprint_input s = spec_json s.task_name s.payload s.due_at s.max_attempts

pub record DurableJob : Type 0 where
  pub job_id : ℕ
  pub idempotency_key : String
  pub task_name : String
  pub payload : String
  pub payload_fingerprint : String
  pub state : JobState
  pub due_at : ℕ
  pub max_attempts : ℕ
  pub attempt_count : ℕ
  pub created_at : ℕ
  pub updated_at : ℕ
  pub result : Option String
  pub last_error : Option String
  pub completed_at : Option ℕ

pub record DurableClaim : Type 0 where
  pub job : DurableJob
  pub attempt_id : ℕ
  pub attempt : ℕ
  pub worker_id : String
  pub fence_token : ℕ
  pub lease_expires_at : ℕ

pub record Completion : Type 0 where
  pub state : JobState
  pub duplicate : Bool
