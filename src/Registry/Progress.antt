-- ===== src/Registry/Progress.antt =====
-- How `transition_model` brings a model into service
-- (apps/api/app/models_registry/repository.py).
use microlens_recsys_mvp.Prelude.{
  ℕ, String, Bool, true, false, ◌≡◌, ◌≢◌, refl, sym, subst, ◌∙◌, Option, none, some, List, [], ◌∷◌,
  if◌then◌else◌, Result, ok, err, integrity_error, ◌>>=◌, arith,
}
use microlens_recsys_mvp.Prelude.Table.{replace, key-find, find-replace_self}
use microlens_recsys_mvp.Registry.Rows.{
  ModelStatus, training, evaluated, ready, active, archived, failed, ModelVersion, RegistryDb,
  model_key, find_model, model_checks, other_active, flush_model,
}
use microlens_recsys_mvp.Registry.Repository.{
  model_transitions, status_mem, validate_eligibility, require_eligible, transition_model,
}
use microlens_recsys_mvp.Registry.Cutover.{other_active-replace, flush_model-ok}

-- The transitions that lead to ACTIVE.
abbrev pub path_to_active : ModelStatus → List ModelStatus
path_to_active training = evaluated ∷ ready ∷ active ∷ []
path_to_active evaluated = ready ∷ active ∷ []
path_to_active ready = active ∷ []
path_to_active archived = ready ∷ active ∷ []
path_to_active active = []
path_to_active failed = []

module _ (transition : String → String → String) (version : ℕ) where
  -- One call after the other.
  abbrev pub transition_all : List ModelStatus → RegistryDb → Result RegistryDb
  transition_all [] db = ok db
  transition_all (target ∷ targets) db =
      transition_model transition version target none db >>= λ done. transition_all targets done.1

  -- A model that is eligible, with no other model active.
  pub record CanServe (m : ModelVersion) (db : RegistryDb) : Type 0 where
    pub found : find_model version db.models ≡ some m
    pub eligible : m.activation_eligible ≡ true
    pub alone : other_active version db.models ≡ false
    pub checks : model_checks m ≡ true

  abbrev at : ModelStatus → ModelVersion → ModelVersion
  at target m = record m { status = target; failure_reason = none }

  abbrev written : ModelVersion → RegistryDb → RegistryDb
  written m db = record db { models = replace model_key m db.models }

  eligible_checks :
      (target : ModelStatus) (m : ModelVersion)
      → model_checks m ≡ true
      → m.activation_eligible ≡ true
      → (model_checks (at target m) ≡ true) × (require_eligible target m ≡ ok tt)
  unfolding model_checks require_eligible validate_eligibility
  eligible_checks target m c e = ground arith

  at-CanServe :
      (target : ModelStatus) (m : ModelVersion) (db : RegistryDb)
      → CanServe m db
      → CanServe (at target m) (written (at target m) db)
  at-CanServe target m db c =
      let same : m.model_version ≡ version = key-find model_key version db.models m c.found in
      record {
        found = find-replace_self model_key version (at target m) m db.models c.found same;
        eligible = c.eligible;
        alone =
            subst (λ v. other_active v (replace model_key (at target m) db.models) ≡ false) same
              (other_active-replace (at target m) db.models
                ∙ subst (λ v. other_active v db.models ≡ false) (sym same) c.alone);
        checks = (eligible_checks target m c.checks c.eligible).0;
      }

  transition_model_step :
      (target : ModelStatus) (m : ModelVersion) (db : RegistryDb)
      → CanServe m db
      → status_mem target (model_transitions m.status) ≡ true
      → transition_model transition version target none db
        ≡ ok (at target m, written (at target m) db)
  unfolding transition_model
  transition_model_step target m db c edge =
      let same : m.model_version ≡ version = key-find model_key version db.models m c.found in
      let (fine, allowed) = eligible_checks target m c.checks c.eligible in
      let flushed : flush_model (at target m) db ≡ ok (written (at target m) db) =
        flush_model-ok (at target m) db fine
          (subst (λ v. other_active v db.models ≡ false) (sym same) c.alone) in
      rw (c.found, edge, allowed, flushed) refl

  -- The first call of a sequence, and the rest from the state that it leaves.
  transition_all_step :
      (target : ModelStatus) (targets : List ModelStatus) (m : ModelVersion) (db : RegistryDb)
      → CanServe m db
      → status_mem target (model_transitions m.status) ≡ true
      → transition_all (target ∷ targets) db ≡ transition_all targets (written (at target m) db)
  transition_all_step target targets m db c edge =
      rw (transition_model_step target m db c edge) refl

  -- The database serves the model under this version.
  abbrev pub Serves : RegistryDb → Type 0
  Serves db = (n : ModelVersion) × (find_model version db.models ≡ some n) × (n.status ≡ active)

  from_ready :
      (m : ModelVersion) (db : RegistryDb)
      → CanServe m db
      → m.status ≡ ready
      → (db' : RegistryDb) × (transition_all (active ∷ []) db ≡ ok db') × Serves db'
  from_ready m db c s = (
    written (at active m) db,
    transition_all_step active [] m db c (rw s refl),
    (at active m, (at-CanServe active m db c).found, refl),
  )

  from_evaluated :
      (m : ModelVersion) (db : RegistryDb)
      → CanServe m db
      → status_mem ready (model_transitions m.status) ≡ true
      → (db' : RegistryDb) × (transition_all (ready ∷ active ∷ []) db ≡ ok db') × Serves db'
  from_evaluated m db c edge =
      let (db', e, serves) =
        from_ready (at ready m) (written (at ready m) db) (at-CanServe ready m db c) refl in
      (db', transition_all_step ready (active ∷ []) m db c edge ∙ e, serves)

  from_training :
      (m : ModelVersion) (db : RegistryDb)
      → CanServe m db
      → m.status ≡ training
      → (db' : RegistryDb) × (transition_all (evaluated ∷ ready ∷ active ∷ []) db ≡ ok db')
        × Serves db'
  from_training m db c s =
      let (db', e, serves) =
        from_evaluated (at evaluated m) (written (at evaluated m) db) (at-CanServe evaluated m db c)
          refl in
      (db', transition_all_step evaluated (ready ∷ active ∷ []) m db c (rw s refl) ∙ e, serves)

  -- A model that is eligible and passes the checks of its table, whatever its status unless it
  -- failed, is brought to ACTIVE by the transitions of its path, one call after the other, while no
  -- other model is active.
  pub path_to_active_lem :
      (s : ModelStatus) (m : ModelVersion) (db : RegistryDb)
      → CanServe m db
      → m.status ≡ s
      → s ≢ failed
      → (db' : RegistryDb) × (transition_all (path_to_active s) db ≡ ok db') × Serves db'
  path_to_active_lem training m db c s n = from_training m db c s
  path_to_active_lem evaluated m db c s n = from_evaluated m db c (rw s refl)
  path_to_active_lem ready m db c s n = from_ready m db c s
  path_to_active_lem archived m db c s n = from_evaluated m db c (rw s refl)
  path_to_active_lem active m db c s n = (db, refl, (m, c.found, s))
  path_to_active_lem failed m db c s n = absurd (n refl)

  served_checks :
      (m : ModelVersion) (reason : Option String)
      → model_checks m ≡ true
      → m.activation_eligible ≡ true
      → model_checks (record m { status = active; failure_reason = reason }) ≡ true
  unfolding model_checks
  served_checks m reason c e = ground arith

  active_flush :
      (row : ModelVersion) (db : RegistryDb)
      → model_checks row ≡ true
      → row.status ≡ active
      → flush_model row db ≡ (
          if other_active row.model_version db.models
          then err integrity_error
          else ok (written row db))
  unfolding flush_model
  active_flush row db c s = ground arith

  -- A READY model that is eligible and passes the checks of its table moves to ACTIVE by a plain
  -- transition where no other model is active, with the given reason and nothing else changed;
  -- where another one is active the constraint of the table raises an IntegrityError.
  pub transition_model-conflict :
      (m : ModelVersion) (reason : Option String) (db : RegistryDb)
      → find_model version db.models ≡ some m
      → m.status ≡ ready
      → m.activation_eligible ≡ true
      → model_checks m ≡ true
      → transition_model transition version active reason db ≡ (
          if other_active version db.models
          then err integrity_error
          else ok (
            record m { status = active; failure_reason = reason },
            written (record m { status = active; failure_reason = reason }) db,
          ))
  unfolding transition_model
  transition_model-conflict m reason db found s e c =
      let same : m.model_version ≡ version = key-find model_key version db.models m found in
      let (fine, allowed) = eligible_checks active m c e in
      let edge : status_mem active (model_transitions m.status) ≡ true = rw s refl in
      let row : ModelVersion = record m { status = active; failure_reason = reason } in
      let flushed : flush_model row db
          ≡ (if other_active version db.models then err integrity_error else ok (written row db)) =
        subst
          (λ v.
            flush_model row db
            ≡ (if other_active v db.models then err integrity_error else ok (written row db)))
          same (active_flush row db (served_checks m reason c e) refl) in
      rw (found, edge, allowed, flushed) (settled (other_active version db.models))
    where
      settled :
          (b : Bool)
          → ◌>>=◌ {Y = ModelVersion × RegistryDb}
              (if b
                then err integrity_error
                else ok (written (record m { status = active; failure_reason = reason }) db))
              (λ d. ok (record m { status = active; failure_reason = reason }, d))
            ≡ (if b
                then err integrity_error
                else ok (
                  record m { status = active; failure_reason = reason },
                  written (record m { status = active; failure_reason = reason }) db,
                ))
      settled true = refl
      settled false = refl
