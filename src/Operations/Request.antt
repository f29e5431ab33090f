-- ===== src/Operations/Request.antt =====
-- `OperationBatchRequest` and its validators (apps/api/app/operations/schemas.py).
use microlens_recsys_mvp.Prelude.{
  ℕ, String, Bool, true, false, ◌&&◌, ◌||◌, not, ◌==◌, Option, none, some, List, [], ◌∷◌, ℤ, length,
  ltb, leb, bounded_text, str_eq, is_some, value_error, Result, ok, guard, nonnegative, ◌>>=◌, ◌>>◌,
}
use microlens_recsys_mvp.Durable.Domain.{DateTime, require_aware}
use microlens_recsys_mvp.Operations.Rows.{OperationType, promote, ScopeType, all}

pub record OperationBatchRequest : Type 0 where
  pub batch_id : ℕ
  pub operation_type : OperationType
  pub targets : List ℕ
  pub scope_type : ScopeType
  pub scope_value : Option String
  pub starts_at_utc : ℕ
  pub ends_at_utc : Option ℕ
  pub priority : ℕ
  pub target_position : Option ℕ
  pub reason : String

abbrev pub num_mem : ℕ → List ℕ → Bool
num_mem n [] = false
num_mem n (m ∷ ms) = n == m || num_mem n ms

-- `len(targets) == len(set(targets))`
abbrev pub all_distinct : List ℕ → Bool
all_distinct [] = true
all_distinct (n ∷ ns) = not (num_mem n ns) && all_distinct ns

abbrev aware_or_none : Option DateTime → Result (Option ℕ)
aware_or_none none = ok none
aware_or_none (some time) = do
  t ← require_aware time "operation timestamps must include a timezone offset"
  ok (some t)

abbrev nonnegative_or_none : Option ℤ → Result (Option ℕ)
nonnegative_or_none none = ok none
nonnegative_or_none (some n) = do
  m ← nonnegative n (value_error "target_position must be nonnegative")
  ok (some m)

abbrev ends_after : Option ℕ → ℕ → Bool
ends_after none start = true
ends_after (some end) start = ltb start end

abbrev pub is_all : ScopeType → Bool
is_all all = true
is_all _ = false

abbrev is_promote : OperationType → Bool
is_promote promote = true
is_promote _ = false

abbrev non_empty : Option String → Bool
non_empty none = false
non_empty (some text) = not (str_eq text "")

-- The checks of the fields and then those of `validate_shape`; a failure is the first one, where the
-- program collects all of the fields in one error.
unfoldable pub operation_request :
    (batch_id : ℕ) (operation_type : OperationType) (targets : List ℕ) (scope_type : ScopeType)
    (scope_value : Option String) (starts_at_utc : DateTime) (ends_at_utc : Option DateTime)
    (priority : ℤ) (target_position : Option ℤ) (reason : String)
    → Result OperationBatchRequest
unfolding require_aware
operation_request batch_id operation_type targets scope_type scope_value starts_at_utc ends_at_utc
      priority target_position reason =
    do
      guard (leb 1 (length targets) && leb (length targets) 100)
          (value_error "targets must have 1..100 entries")
      start ← require_aware starts_at_utc "operation timestamps must include a timezone offset"
      end ← aware_or_none ends_at_utc
      weight ← nonnegative priority (value_error "priority must be nonnegative")
      position ← nonnegative_or_none target_position
      guard (bounded_text reason 500) (value_error "reason must have 1..500 characters")
      guard (all_distinct targets) (value_error "targets must be unique")
      guard (ends_after end start) (value_error "ends_at_utc must be after starts_at_utc")
      guard (not (is_all scope_type && is_some scope_value))
          (value_error "all scope must not have scope_value")
      guard (is_all scope_type || non_empty scope_value)
          (value_error "user/feed scope requires scope_value")
      guard
          (is_promote operation_type
            || (is_all scope_type
                && not (is_some scope_value)
                && not (is_some position)
                && weight == 0))
          (value_error "scope, priority, and target_position apply only to promotion")
      ok (record {
        batch_id = batch_id;
        operation_type = operation_type;
        targets = targets;
        scope_type = scope_type;
        scope_value = scope_value;
        starts_at_utc = start;
        ends_at_utc = end;
        priority = weight;
        target_position = position;
        reason = reason;
      })
