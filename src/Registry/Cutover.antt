-- ===== src/Registry/Cutover.antt =====
-- The theorems on `activate_prepared` (apps/api/app/models_registry/service.py).
use microlens_recsys_mvp.Prelude.{
  ℕ, true, false, ◌≡◌, ◌⊎◌, inl, inr, All, All-map, Bool-cases, ◌==◌, ==→eq, if◌then◌else◌, refl,
  sym, ap, subst, ◌∙◌, Option, none, some, List, [], ◌∷◌, Result, ok, require, >>=-eq-ok, arith,
}
use microlens_recsys_mvp.Prelude.Table.{
  find, replace, key-find, find-replace_self, find-replace_ne, find-All, IsKeyed-find,
}
use microlens_recsys_mvp.Registry.Rows.{
  active, archived, is_active, ModelVersion, ModelActivationAttempt, RegistryDb, model_key,
  attempt_key, find_model, active_model, model_checks, other_active, flush_model, flush_attempt,
}
use microlens_recsys_mvp.Registry.Activation.{
  PreparedActivation, ActivationPlan, attempt_not_found, validate_target, optional_num_eq,
  version_of, archive_active, success_of, record_success, integrate, activate_prepared,
}
use microlens_recsys_mvp.Registry.OneActive.{IsSound}
use microlens_recsys_mvp.Registry.Publish.{
  retired, validate_target-ok, published_checks, Archived, archive_total, published,
  activate_prepared-Steps,
}

optional_num_eq→eq : (a b : Option ℕ) → optional_num_eq a b ≡ true → a ≡ b
optional_num_eq→eq none none h = refl
optional_num_eq→eq none (some b) h = absurd (cc)
optional_num_eq→eq (some a) none h = absurd (cc)
optional_num_eq→eq (some a) (some b) h = ground arith

optional_num_eq_refl : (a : Option ℕ) → optional_num_eq a a ≡ true
optional_num_eq_refl none = refl
optional_num_eq_refl (some a) = ground arith

success_of-models :
    (attempt_id : Option ℕ) (now : ℕ) (db db' : RegistryDb)
    → success_of attempt_id now db ≡ ok db'
    → db'.models ≡ db.models
unfolding record_success flush_attempt
success_of-models none now db db' h = ground arith
success_of-models (some attempt_id) now db db' h =
    let (a, e, rest) =
      >>=-eq-ok (require (find attempt_key attempt_id db.attempts) attempt_not_found) _ h in
    ground arith

-- Writing the row of `v` changes nothing about the others.
pub other_active-replace :
    (r : ModelVersion) (models : List ModelVersion)
    → other_active r.model_version (replace model_key r models)
      ≡ other_active r.model_version models
unfolding other_active replace
other_active-replace r [] = refl
other_active-replace r (m ∷ models) =
    let rest : other_active r.model_version (replace model_key r models)
        ≡ other_active r.model_version models =
      other_active-replace r models in
    ground arith

pub flush_model-models :
    (m : ModelVersion) (db db' : RegistryDb)
    → flush_model m db ≡ ok db'
    → db'.models ≡ replace model_key m db.models
unfolding flush_model
flush_model-models m db db' h = ground arith

-- A row that passes its checks, where no other is active, can be flushed.
pub flush_model-ok :
    (m : ModelVersion) (db : RegistryDb)
    → model_checks m ≡ true
    → other_active m.model_version db.models ≡ false
    → flush_model m db ≡ ok (record db { models = replace model_key m db.models })
unfolding flush_model
flush_model-ok m db c free = ground arith

record_success-ok :
    (id now : ℕ) (a : ModelActivationAttempt) (d : RegistryDb)
    → find attempt_key id d.attempts ≡ some a
    → (d' : RegistryDb) × (record_success id now d ≡ ok d')
unfolding record_success flush_attempt
record_success-ok id now a d h = rw h (_, refl)

-- Parts that succeed, one for each step of the code, make an activation that succeeds.
activate_prepared-ok :
    {Bundle : Type 0} (integrator : Option (Bundle → Result (Unit {0})))
    (prepared : PreparedActivation Bundle) (expected attempt_id : Option ℕ) (now : ℕ)
    (db shelf written done : RegistryDb) (t : ModelVersion)
    → find_model prepared.model_version db.models ≡ some t
    → validate_target t prepared.manifest_checksum ≡ ok tt
    → optional_num_eq (version_of (active_model db.models)) expected ≡ true
    → integrate Bundle integrator prepared.staged_bundle ≡ ok tt
    → archive_active (active_model db.models) t.model_version db ≡ ok shelf
    → flush_model (published integrator prepared expected attempt_id now db t) shelf ≡ ok written
    → success_of attempt_id now written ≡ ok done
    → activate_prepared Bundle integrator prepared expected attempt_id now db
      ≡ ok (
        record {
          model = published integrator prepared expected attempt_id now db t;
          staged_bundle = prepared.staged_bundle;
        },
        done,
      )
unfolding activate_prepared
activate_prepared-ok integrator prepared expected attempt_id now db shelf written done t e1 e2 e3 e4
      e5 e6 e7 =
    rw (e1, e2, e3, e4, e5, e6, e7) refl

module _ {Bundle : Type 0} (integrator : Option (Bundle → Result (Unit {0})))
    (prepared : PreparedActivation Bundle) (expected attempt_id : Option ℕ) (now : ℕ)
    (db : RegistryDb) (sound : IsSound db.models) where
  module _ (plan : ActivationPlan Bundle) (db' : RegistryDb)
      (done : activate_prepared Bundle integrator prepared expected attempt_id now db
        ≡ ok (plan, db')) where
    -- The row of a model after the activation: that of the plan, or the old one, archived if active.
    abbrev pub after_activation : ModelVersion → ModelVersion
    after_activation m =
        if m.model_version == prepared.model_version
        then plan.model
        else if is_active m.status
        then record m { status = archived }
        else m

    -- In sound tables, a successful activation had the expected version as the active one;
    -- afterwards the target is found ACTIVE as the plan says, no other model is active, and each
    -- other model of the registry is as before, or archived if it was active.
    pub activate_prepared-active :
        (version_of (active_model db.models) ≡ expected)
        × (find_model prepared.model_version db'.models ≡ some plan.model)
        × (plan.model.status ≡ active)
        × (other_active prepared.model_version db'.models ≡ false)
        × All (λ m. find_model m.model_version db'.models ≡ some (after_activation m)) db.models
    activate_prepared-active =
        let (t, st) =
          activate_prepared-Steps integrator prepared expected attempt_id now db plan db' done in
        let at : t.model_version ≡ prepared.model_version =
          key-find model_key prepared.model_version db.models t st.target in
        let (ready, eligible, idle) = validate_target-ok t prepared.manifest_checksum st.valid in
        let (shelf, e, left) =
          archive_total db sound t.model_version t
            (subst (λ v. find_model v db.models ≡ some t) (sym at) st.target) idle in
        let same : shelf ≡ st.shelf = ground (arith, st.shelved, e) in
        let models : db'.models ≡ replace model_key (row t) shelf.models =
          success_of-models attempt_id now st.written db' st.recorded
          ∙ flush_model-models (row t) st.shelf st.written st.flushed
          ∙ ap (λ d. replace model_key (row t) d.models) (sym same) in
        let there : find_model prepared.model_version shelf.models ≡ some (retired t) =
          left.rows prepared.model_version t st.target in
        (
          optional_num_eq→eq _ _ st.expected_holds,
          ap (find_model prepared.model_version) models
              ∙ find-replace_self model_key prepared.model_version (row t) (retired t) shelf.models
                  there at
              ∙ ap some (sym st.planned),
          ap (λ p. p.status) st.planned,
          subst (λ v. other_active v db'.models ≡ false) at
              (ap (other_active t.model_version) models
                ∙ other_active-replace (row t) shelf.models
                ∙ left.free),
          All-map
              (λ m f.
                kept m t shelf (sym st.planned) at models there (left.rows m.model_version m f)
                  (Bool-cases (m.model_version == prepared.model_version)))
              db.models (IsKeyed-find model_key db.models sound.keyed),
        )
      where
        row : ModelVersion → ModelVersion
        row t = published integrator prepared expected attempt_id now db t

        kept :
            (m t : ModelVersion) (shelf : RegistryDb)
            → row t ≡ plan.model
            → t.model_version ≡ prepared.model_version
            → db'.models ≡ replace model_key (row t) shelf.models
            → find_model prepared.model_version shelf.models ≡ some (retired t)
            → find_model m.model_version shelf.models ≡ some (retired m)
            → ((m.model_version == prepared.model_version) ≡ true)
              ⊎ ((m.model_version == prepared.model_version) ≡ false)
            → find_model m.model_version db'.models ≡ some (after_activation m)
        kept m t shelf planned at models there left (inl hit) =
            let same : m.model_version ≡ prepared.model_version =
              ==→eq m.model_version prepared.model_version hit in
            rw hit (
              ap (find_model m.model_version) models
              ∙ ap (λ k. find_model k (replace model_key (row t) shelf.models)) same
              ∙ find-replace_self model_key prepared.model_version (row t) (retired t) shelf.models
                  there at
              ∙ ap some planned)
        kept m t shelf planned at models there left (inr miss) = rw miss (
            ap (find_model m.model_version) models
            ∙ find-replace_ne model_key m.model_version (row t) shelf.models (λ q.
              let same : m.model_version ≡ prepared.model_version = sym q ∙ at in ground arith)
            ∙ left)

  -- In sound tables the activation of a valid target succeeds where the active version is the
  -- expected one, the integrator succeeds and the attempt is in its table: no constraint of the
  -- schema is in the way.
  pub activate_prepared_total :
      (t : ModelVersion) (id : ℕ) (a : ModelActivationAttempt)
      → find_model prepared.model_version db.models ≡ some t
      → validate_target t prepared.manifest_checksum ≡ ok tt
      → version_of (active_model db.models) ≡ expected
      → integrate Bundle integrator prepared.staged_bundle ≡ ok tt
      → attempt_id ≡ some id
      → find attempt_key id db.attempts ≡ some a
      → (plan : ActivationPlan Bundle) × (db' : RegistryDb) × (activate_prepared Bundle integrator
            prepared expected attempt_id now db
          ≡ ok (plan, db'))
  activate_prepared_total t id a found valid cas integrated given attempt =
      let at : t.model_version ≡ prepared.model_version =
        key-find model_key prepared.model_version db.models t found in
      let (ready, eligible, idle) = validate_target-ok t prepared.manifest_checksum valid in
      let (shelf, e, left) =
        archive_total db sound t.model_version t
          (subst (λ v. find_model v db.models ≡ some t) (sym at) found) idle in
      let written : RegistryDb = record shelf { models = replace model_key (row t) shelf.models } in
      let flushed : flush_model (row t) shelf ≡ ok written =
        flush_row t shelf eligible found left in
      let (done, recorded) =
        record_success-ok id now a written
          (ap (λ l. find attempt_key id l) left.attempts ∙ attempt) in
      let all_recorded : success_of attempt_id now written ≡ ok done =
        subst (λ o. success_of o now written ≡ ok done) (sym given) recorded in
      (
        record { model = row t; staged_bundle = prepared.staged_bundle },
        done,
        activate_prepared-ok integrator prepared expected attempt_id now db shelf written done t
            found valid
            (subst (λ o. optional_num_eq (version_of (active_model db.models)) o ≡ true) cas
              (optional_num_eq_refl (version_of (active_model db.models))))
            integrated e flushed all_recorded,
      )
    where
      row : ModelVersion → ModelVersion
      row t = published integrator prepared expected attempt_id now db t

      flush_row :
          (t : ModelVersion) (shelf : RegistryDb)
          → t.activation_eligible ≡ true
          → find_model prepared.model_version db.models ≡ some t
          → Archived t.model_version db shelf
          → flush_model (row t) shelf
            ≡ ok (record shelf { models = replace model_key (row t) shelf.models })
      flush_row t shelf eligible found left =
          flush_model-ok (row t) shelf
            (published_checks t (row t)
              (find-All model_key (λ m. model_checks m ≡ true) prepared.model_version db.models t
                sound.checked found)
              eligible now refl)
            left.free
