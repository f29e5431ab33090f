-- ===== src/Registry/Lifecycle.antt =====
-- How the operations on the registry move a model through its life
-- (apps/api/app/models_registry).
use microlens_recsys_mvp.Prelude.{
  ℕ, String, true, false, ◌≡◌, ◌⊎◌, refl, sym, ap, ◌∙◌, subst, inl, inr, Option, none, some, [],
  ◌∷◌, ◌++◌, ◌==◌, ==→eq, All, Bool-cases, Result, ok, require, >>=-eq-ok, arith,
}
use microlens_recsys_mvp.Prelude.Table.{find, replace, key-find, find-All}
use microlens_recsys_mvp.Registry.Rows.{
  ModelStatus, training, evaluated, ready, active, archived, failed, ModelVersion, RegistryDb,
  model_key, attempt_key, find_model, is_active, is_ready, flush_attempt, insert_model,
}
use microlens_recsys_mvp.Registry.Repository.{validate_eligibility, add_model}
use microlens_recsys_mvp.Registry.Activation.{
  PreparedActivation, ActivationPlan, attempt_not_found, validate_target, mark_model,
  record_failure, activate_prepared,
}
use microlens_recsys_mvp.Registry.OneActive.{IsSound}
use microlens_recsys_mvp.Registry.Publish.{activate_prepared-Steps}
use microlens_recsys_mvp.Registry.Cutover.{
  flush_model-models, after_activation, activate_prepared-active,
}
use microlens_recsys_mvp.Registry.JobKeys.{enqueue_job-AreUnique, transition_job-AreUnique}
use microlens_recsys_mvp.Registry.Kept.{
  IsRegular, transition_model-ok, begin_attempt-Same, record_success-Same, flush_attempt-Same,
}
use microlens_recsys_mvp.Registry.System.{
  Step, adds, transitions, enqueues, moves, begins, fails, succeeds, activates,
}
use microlens_recsys_mvp.Registry.Moves.{
  MayServe, Follows, stays, goes_live, archives, edge-Follows, Continues, keeps, same_models,
  added_model, written_model,
}

add_model-models :
    (m n : ModelVersion) (db db' : RegistryDb)
    → add_model m db ≡ ok (n, db')
    → db'.models ≡ db.models ++ m ∷ []
unfolding add_model insert_model
add_model-models m n db db' h =
    let (u, e, h1) = >>=-eq-ok (validate_eligibility m) _ h in ground arith

record_failure-Continues :
    (id : ℕ) (code reason joined : String) (now : ℕ) (db db' : RegistryDb)
    → IsSound db.models
    → record_failure id code reason joined now db ≡ ok db'
    → All (Continues db') db.models
unfolding record_failure
record_failure-Continues id code reason joined now db db' sound h =
    let (a, e, h1) = >>=-eq-ok (require (find attempt_key id db.attempts) attempt_not_found) _ h in
    let (written, e1, h2) = >>=-eq-ok (flush_attempt _ db) _ h1 in
    marked a.model_version written (flush_attempt-Same _ db written e1).0
      (find_model a.model_version written.models) refl h2
  where
    marked :
        (k : ℕ) (written : RegistryDb)
        → written.models ≡ db.models
        → (o : Option ModelVersion) → find_model k written.models ≡ o
        → mark_model o joined written ≡ ok db'
        → All (Continues db') db.models
    marked k written same none e q =
        let last : written ≡ db' = ground arith in
        same_models db db' sound (ap (λ d. d.models) (sym last) ∙ same)
    marked k written same (some m) e q =
        let found : find_model k db.models ≡ some m = ap (find_model k) (sym same) ∙ e in
        written_model db db' sound m (record m { failure_reason = some joined })
          (ap (λ i. find_model i db.models) (key-find model_key k db.models m found) ∙ found)
          (stays refl) (flush_model-models _ written db' q ∙ ap (replace model_key _) same)

is_ready→eq : (s : ModelStatus) → is_ready s ≡ true → s ≡ ready
is_ready→eq training h = absurd (cc)
is_ready→eq evaluated h = absurd (cc)
is_ready→eq ready h = refl
is_ready→eq active h = absurd (cc)
is_ready→eq archived h = absurd (cc)
is_ready→eq failed h = absurd (cc)

is_active→eq : (s : ModelStatus) → is_active s ≡ true → s ≡ active
is_active→eq training h = absurd (cc)
is_active→eq evaluated h = absurd (cc)
is_active→eq ready h = absurd (cc)
is_active→eq active h = refl
is_active→eq archived h = absurd (cc)
is_active→eq failed h = absurd (cc)

target_ready :
    (m : ModelVersion) (manifest : String)
    → validate_target m manifest ≡ ok tt
    → (is_ready m.status ≡ true) × MayServe m
unfolding validate_target
target_ready m manifest h = ground arith

activate_prepared-Continues :
    {Bundle : Type 0} (integrator : Option (Bundle → Result (Unit {0})))
    (prepared : PreparedActivation Bundle) (expected attempt_id : Option ℕ) (now : ℕ)
    (plan : ActivationPlan Bundle) (db db' : RegistryDb)
    → IsSound db.models
    → activate_prepared Bundle integrator prepared expected attempt_id now db ≡ ok (plan, db')
    → All (Continues db') db.models
activate_prepared-Continues integrator prepared expected attempt_id now plan db db' sound h =
    let (t, st) =
      activate_prepared-Steps integrator prepared expected attempt_id now db plan db' h in
    let (waits, serves) = target_ready t prepared.manifest_checksum st.valid in
    let (_, _, _, _, rows) =
      activate_prepared-active integrator prepared expected attempt_id now db sound plan db' h in
    keeps db db' sound λ m f. (
      after m,
      find-All model_key (λ n. find_model n.model_version db'.models ≡ some (after n))
          m.model_version db.models m rows f,
      move t (is_ready→eq t.status waits) serves st.target st.planned m f
          (Bool-cases (m.model_version == prepared.model_version))
          (Bool-cases (is_active m.status)),
    )
  where
    after : ModelVersion → ModelVersion
    after = after_activation integrator prepared expected attempt_id now db sound plan db' h

    move :
        (t : ModelVersion)
        → t.status ≡ ready
        → MayServe t
        → find_model prepared.model_version db.models ≡ some t
        → plan.model ≡ record t { status = active; published_at = some now; failure_reason = none }
        → (m : ModelVersion) → find_model m.model_version db.models ≡ some m
        → ((m.model_version == prepared.model_version) ≡ true)
          ⊎ ((m.model_version == prepared.model_version) ≡ false)
        → (is_active m.status ≡ true) ⊎ (is_active m.status ≡ false)
        → Follows m (after m)
    move t waits serves found planned m f (inl hit) _ =
        let at : m.model_version ≡ prepared.model_version = ==→eq _ _ hit in
        let row : t ≡ m = cc (found, f, ap (λ k. find_model k db.models) at) in
        rw hit (
          goes_live (subst (λ (x : ModelVersion). x.status ≡ ready) row waits)
            (ap (λ p. p.status) planned) (subst MayServe (sym planned) serves))
    move t waits serves found planned m f (inr miss) (inl held) =
        rw (miss, held) (archives (is_active→eq m.status held) refl)
    move t waits serves found planned m f (inr miss) (inr idle) = rw (miss, idle) (stays refl)

-- In regular tables, a committed operation of the repository or of the activation service, with any
-- arguments, keeps every model version, and leaves its status or moves it on: TRAINING to
-- EVALUATED, EVALUATED or ARCHIVED to READY, READY to ACTIVE, ACTIVE to ARCHIVED, and any of the
-- first four to FAILED. A model that becomes READY or ACTIVE is eligible, on a comparable
-- evaluation.
pub Step-Follows :
    {Bundle : Type 0} {transition : String → String → String} {db db' : RegistryDb}
    → IsRegular db
    → Step Bundle transition db db'
    → All (Continues db') db.models
Step-Follows {db} {db'} r (adds m n h) =
    added_model db db' r.models m (add_model-models m n db db' h)
Step-Follows {transition} {db} {db'} r (transitions version target reason m h) =
    let (old, found, edge, eligible, row, done) =
      transition_model-ok transition version target reason m db db' h in
    let at : m.model_version ≡ version =
      ap (λ x. x.model_version) row ∙ key-find model_key version db.models old found in
    written_model db db' r.models old m (ap (λ k. find_model k db.models) at ∙ found)
      (subst (Follows old) (sym row) (edge-Follows old old.status target reason refl edge eligible))
      (flush_model-models m db db' done)
Step-Follows {db} {db'} r (enqueues j found h) =
    same_models db db' r.models (enqueue_job-AreUnique j found db db' r.jobs h).1
Step-Follows {transition} {db} {db'} r (moves id target reason j h) =
    same_models db db' r.models
      (transition_job-AreUnique transition id target reason db j db' r.jobs h).1
Step-Follows {db} {db'} r (begins id version expected now a h) =
    same_models db db' r.models (begin_attempt-Same id version expected now a db db' h).0
Step-Follows {db} {db'} r (fails id code reason joined now h) =
    record_failure-Continues id code reason joined now db db' r.models h
Step-Follows {db} {db'} r (succeeds id now h) =
    same_models db db' r.models (record_success-Same id now db db' h).0
Step-Follows {db} {db'} r (activates integrator prepared expected attempt_id now plan h) =
    activate_prepared-Continues integrator prepared expected attempt_id now plan db db' r.models h
