-- ===== src/Durable/Invariant/Steps.antt =====
-- A transaction is safe if its steps raise no constraint error and its last step is safe.
use microlens_recsys_mvp.Prelude.{
  ℕ, zero, suc, String, Bool, true, false, ◌≡◌, ◌≢◌, refl, ap, subst, Option, none, some, ℤ, pos,
  negsuc, Result, Error, ok, err, guard, positive, nonnegative, require, if◌then◌else◌, ◌>>=◌,
  integrity_error, value_error, lookup_error, lease_lost, idempotency_conflict, arith,
}
use microlens_recsys_mvp.Durable.Domain.{
  DateTime, naive, aware, DurableClaim, require_aware, canonical_json,
}
use microlens_recsys_mvp.Durable.Rows.{JobRow, AttemptRow, Db}
use microlens_recsys_mvp.Durable.Repository.Common.{owned_rows}
use microlens_recsys_mvp.Durable.Invariant.{Consistent, Safe, SafeDb}

-- The step may raise, but not on a constraint.
pub record IsPlain {ℓ} {A : Type ℓ} (m : Result A) : Type ℓ where
  pub plain : m ≢ err integrity_error

same_tables {ℓ} :
    {A : Type ℓ} (x y : A) (a b : Db) → ◌≡◌ {A = Result (A × Db)} (ok (x, a)) (ok (y, b)) → a ≡ b
same_tables x y a b e = ground arith

pub ok-Safe {ℓ} : {A : Type ℓ} {x : A} {db : Db} → Consistent db → Safe (ok (x, db))
ok-Safe {x} {db} c = record {
  no_clash = λ e. cc;
  kept = λ y db' e. subst Consistent (same_tables x y db db' e) c;
}

pub plain-Safe {ℓ} : {A : Type ℓ} {e : Error} → e ≢ integrity_error → Safe {A = A} (err e)
plain-Safe h = record { no_clash = λ q. ground arith; kept = λ y db' q. cc }

pub conflict-Safe {ℓ} : {A : Type ℓ} (m : String) → Safe {A = A} (err (idempotency_conflict m))
conflict-Safe m = plain-Safe (λ q. cc)

pub lost-Safe {ℓ} : {A : Type ℓ} (m : String) → Safe {A = A} (err (lease_lost m))
lost-Safe m = plain-Safe (λ q. cc)

pub bind-Safe {ℓ κ} :
    {A : Type ℓ} {B : Type κ} (m : Result A) (f : A → Result (B × Db))
    → IsPlain m
    → ((a : A) → m ≡ ok a → Safe (f a))
    → Safe (m >>= f)
bind-Safe (ok a) f p k = k a refl
bind-Safe (err e) f p k = plain-Safe (λ q. p.plain (ap err q))

pub bind-SafeDb {ℓ} :
    {A : Type ℓ} (m : Result Db) (f : Db → Result (A × Db))
    → SafeDb m
    → ((db : Db) → Consistent db → Safe (f db))
    → Safe (m >>= f)
bind-SafeDb (ok db) f h k = k db (h.kept db refl)
bind-SafeDb (err e) f h k = plain-Safe (λ q. h.no_clash (ap err q))

-- As before, with the equation that the first step returned.
pub bind_recovery {ℓ} :
    {A : Type ℓ} (m : Result Db) (f : Db → Result (A × Db))
    → SafeDb m
    → ((db : Db) → m ≡ ok db → Consistent db → Safe (f db))
    → Safe (m >>= f)
bind_recovery (ok db) f h k = k db refl (h.kept db refl)
bind_recovery (err e) f h k = plain-Safe (λ q. h.no_clash (ap err q))

pub then-SafeDb :
    (m : Result Db) (f : Db → Result Db)
    → SafeDb m
    → ((db : Db) → m ≡ ok db → Consistent db → SafeDb (f db))
    → SafeDb (m >>= f)
then-SafeDb (ok db) f h k = k db refl (h.kept db refl)
then-SafeDb (err e) f h k = record {
  no_clash = λ q. h.no_clash (ap err (ground arith));
  kept = λ db q. cc;
}

pub if-Safe {ℓ} :
    {A : Type ℓ} (b : Bool) (m n : Result (A × Db))
    → (b ≡ true → Safe m)
    → (b ≡ false → Safe n)
    → Safe (if b then m else n)
if-Safe true m n h k = h refl
if-Safe false m n h k = k refl

pub require_aware-IsPlain : (t : DateTime) (m : String) → IsPlain (require_aware t m)
unfolding require_aware
require_aware-IsPlain (naive t) m = record { plain = λ e. cc }
require_aware-IsPlain (aware t) m = record { plain = λ e. cc }

pub canonical_json-IsPlain : (t : Option String) → IsPlain (canonical_json t)
unfolding canonical_json
canonical_json-IsPlain none = record { plain = λ e. cc }
canonical_json-IsPlain (some t) = record { plain = λ e. cc }

pub positive-IsPlain : (z : ℤ) (m : String) → IsPlain (positive z (value_error m))
positive-IsPlain (pos zero) m = record { plain = λ e. cc }
positive-IsPlain (pos (suc n)) m = record { plain = λ e. cc }
positive-IsPlain (negsuc n) m = record { plain = λ e. cc }

pub nonnegative-IsPlain : (z : ℤ) (m : String) → IsPlain (nonnegative z (value_error m))
nonnegative-IsPlain (pos n) m = record { plain = λ e. cc }
nonnegative-IsPlain (negsuc n) m = record { plain = λ e. cc }

pub guard-IsPlain : (b : Bool) (e : Error) → e ≢ integrity_error → IsPlain (guard b e)
guard-IsPlain true e h = record { plain = λ q. cc }
guard-IsPlain false e h = record { plain = λ q. h (ground arith) }

pub guard_conflict-IsPlain : (b : Bool) (m : String) → IsPlain (guard b (idempotency_conflict m))
guard_conflict-IsPlain b m = guard-IsPlain b (idempotency_conflict m) (λ q. cc)

pub guard_value-IsPlain : (b : Bool) (m : String) → IsPlain (guard b (value_error m))
guard_value-IsPlain b m = guard-IsPlain b (value_error m) (λ q. cc)

pub require-IsPlain {ℓ} :
    {A : Type ℓ} (o : Option A) (m : String) → IsPlain (require o (lookup_error m))
require-IsPlain none m = record { plain = λ q. cc }
require-IsPlain (some a) m = record { plain = λ q. cc }

pub owned_rows-IsPlain :
    (job : Option JobRow) (attempt : Option AttemptRow) (claim : DurableClaim) (now : ℕ)
    → IsPlain (owned_rows job attempt claim now)
unfolding owned_rows
owned_rows-IsPlain none attempt claim now = record { plain = λ q. cc }
owned_rows-IsPlain (some job) none claim now = record { plain = λ q. cc }
owned_rows-IsPlain (some job) (some attempt) claim now = record { plain = λ q. ground arith }

pub if-SafeDb :
    (b : Bool) (m n : Result Db)
    → (b ≡ true → SafeDb m)
    → (b ≡ false → SafeDb n)
    → SafeDb (if b then m else n)
if-SafeDb true m n h k = h refl
if-SafeDb false m n h k = k refl

pub step-SafeDb {ℓ} :
    {A : Type ℓ} (m : Result A) (f : A → Result Db)
    → IsPlain m
    → ((a : A) → m ≡ ok a → SafeDb (f a))
    → SafeDb (m >>= f)
step-SafeDb (ok a) f p k = k a refl
step-SafeDb (err e) f p k = record {
  no_clash = λ q. p.plain (ap err (ground arith));
  kept = λ db q. cc;
}

pub lost-SafeDb : (m : String) → SafeDb (err (lease_lost m))
lost-SafeDb m = record { no_clash = λ q. cc; kept = λ db q. cc }
