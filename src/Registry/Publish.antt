-- ===== src/Registry/Publish.antt =====
-- What `activate_prepared` does to the table of model versions
-- (apps/api/app/models_registry/service.py).
use microlens_recsys_mvp.Prelude.{
  ℕ, suc, String, true, false, ◌≡◌, ◌≢◌, refl, sym, ap, subst, ◌∙◌, inl, inr, Option, none, some,
  ◌==◌, if◌then◌else◌, Bool-cases, Option-cases, Result, ok, require, guard, >>=-eq-ok, arith,
}
use microlens_recsys_mvp.Prelude.Table.{
  replace, find-replace_self, find-replace_ne, find-replace_cases, find-All,
}
use microlens_recsys_mvp.Registry.Rows.{
  active, archived, ModelVersion, RegistryDb, model_key, find_model, is_ready, holds_active,
  active_model, model_checks, other_active, flush_model,
}
use microlens_recsys_mvp.Registry.Activation.{
  PreparedActivation, ActivationPlan, model_not_found, validate_target, optional_num_eq, version_of,
  archive_active, success_of, integrate, activate_prepared,
}
use microlens_recsys_mvp.Registry.OneActive.{
  OnlyActive, IsSound, OnlyActive-other_active, active_model-some, active_model-none,
  other_active-OnlyActive, flush_model-IsSound,
}

-- The row of another version: archived if it was active.
abbrev pub retired : ModelVersion → ModelVersion
retired m = if holds_active m then record m { status = archived } else m

pub validate_target-ok :
    (m : ModelVersion) (manifest : String)
    → validate_target m manifest ≡ ok tt
    → (is_ready m.status ≡ true) × (m.activation_eligible ≡ true) × (holds_active m ≡ false)
unfolding validate_target
validate_target-ok m manifest h = ground arith

pub published_checks :
    (m m' : ModelVersion)
    → model_checks m ≡ true
    → m.activation_eligible ≡ true
    → (now : ℕ) → m' ≡ record m { status = active; published_at = some now; failure_reason = none }
    → model_checks m' ≡ true
unfolding model_checks
published_checks m m' c e now q = ground arith

archived_checks :
    (m : ModelVersion)
    → model_checks m ≡ true
    → model_checks (record m { status = archived }) ≡ true
unfolding model_checks
archived_checks m c = ground arith

-- What archiving leaves: no active model but perhaps `v`, and every row as before or archived.
pub record Archived (v : ℕ) (db db' : RegistryDb) : Type 0 where
  pub free : other_active v db'.models ≡ false
  pub attempts : db'.attempts ≡ db.attempts
  pub sound : IsSound db'.models
  pub rows :
      (k : ℕ) (m : ModelVersion)
      → find_model k db.models ≡ some m
      → find_model k db'.models ≡ some (retired m)

module _ (db : RegistryDb) (s : IsSound db.models) where
  unchanged : (v : ℕ) → active_model db.models ≡ none → Archived v db db
  unchanged v e = record {
    free = active_model-none v db.models e;
    attempts = refl;
    sound = s;
    rows = λ k m f.
        let idle : holds_active m ≡ false = inactive k m f in f ∙ ap some (sym (kept m idle));
  }
    where
      kept : (m : ModelVersion) → holds_active m ≡ false → retired m ≡ m
      kept m h = rw h

      inactive :
          (k : ℕ) (m : ModelVersion) → find_model k db.models ≡ some m → holds_active m ≡ false
      inactive k m f = elim (Bool-cases (holds_active m)) [
        | inl a ↦
            let p : m.model_version ≡ suc m.model_version =
              other_active-OnlyActive (suc m.model_version) db.models
                (active_model-none (suc m.model_version) db.models e) k m f a in
            absurd (omega (arith, p))
        | inr p ↦ p
      ]

  -- Archiving the active row `a` of another version.
  module _ (v : ℕ) (a : ModelVersion) (found : find_model a.model_version db.models ≡ some a)
      (holds : holds_active a ≡ true) (other : a.model_version ≢ v) where
    abbrev shelved : ModelVersion
    shelved = record a { status = archived }

    abbrev shelf : RegistryDb
    shelf = record db { models = replace model_key shelved db.models }

    shelved-flush : flush_model shelved db ≡ ok shelf
    unfolding flush_model
    shelved-flush =
        rw
          (archived_checks a (
            find-All model_key (λ m. model_checks m ≡ true) a.model_version db.models a s.checked
              found))
          refl

    shelf_rows :
        (k : ℕ) (m : ModelVersion)
        → find_model k db.models ≡ some m
        → find_model k shelf.models ≡ some (retired m)
    shelf_rows k m f = elim (Bool-cases (a.model_version == k)) [
      | inl same ↦
          let at : a.model_version ≡ k = ground arith in
          let row : a ≡ m = ground (arith, found, f, at) in
          let done : find_model k shelf.models ≡ some shelved =
            find-replace_self model_key k shelved m db.models f at in
          done ∙ ap some (subst (λ t. shelved ≡ retired t) row (rw holds))
      | inr differ ↦
          let at : a.model_version ≢ k = ground arith in
          find-replace_ne model_key k shelved db.models at ∙ f ∙ ap some (idle at)
    ]
      where
        idle : a.model_version ≢ k → m ≡ retired m
        idle at = elim (Bool-cases (holds_active m)) [
          | inl h ↦ absurd (at (s.single a.model_version k a m found holds f h))
          | inr h ↦ rw h
        ]

    shelf_only : OnlyActive v shelf.models
    shelf_only k m f h = elim (find-replace_cases model_key k shelved m db.models f) [
      | inl p ↦ absurd (ground arith)
      | inr p ↦ absurd (p.0 (s.single a.model_version k a m found holds p.1 h))
    ]

    shelf-Archived : Archived v db shelf
    shelf-Archived =
        let sound : IsSound shelf.models = flush_model-IsSound shelved db shelf s shelved-flush in
        record {
          free = OnlyActive-other_active v shelf.models sound.keyed shelf_only;
          attempts = refl;
          sound = sound;
          rows = shelf_rows;
        }

  -- With a target that is not active, archiving succeeds.
  pub archive_total :
      (v : ℕ) (t : ModelVersion)
      → find_model v db.models ≡ some t
      → holds_active t ≡ false
      → (db' : RegistryDb) × (archive_active (active_model db.models) v db ≡ ok db')
        × Archived v db db'
  archive_total v t f idle = elim (Option-cases (active_model db.models)) [
    | inl absent ↦ rw absent (db, refl, unchanged v absent)
    | inr (a, e) ↦
        let (found, holds) = active_model-some db.models a e s.keyed in
        let other : a.model_version ≢ v = λ same. differ a found holds same in
        rw e (
          shelf v a found holds other,
          archived_step a other found holds,
          shelf-Archived v a found holds other,
        )
  ]
    where
      differ :
          (a : ModelVersion)
          → find_model a.model_version db.models ≡ some a
          → holds_active a ≡ true
          → a.model_version ≡ v
          → ⊥
      differ a found holds same =
          let row : a ≡ t = ground (arith, found, f, same) in
          let both : holds_active t ≡ true = subst (λ x. holds_active x ≡ true) row holds in cc

      archived_step :
          (a : ModelVersion) (other : a.model_version ≢ v)
          (found : find_model a.model_version db.models ≡ some a) (holds : holds_active a ≡ true)
          → archive_active (some a) v db ≡ ok (shelf v a found holds other)
      archived_step a other found holds =
          let test : (a.model_version == v) ≡ false = ground arith in
          rw test (shelved-flush v a found holds other)

-- What a successful activation went through, one part for each step of the code.
module _ {Bundle : Type 0} (integrator : Option (Bundle → Result (Unit {0})))
    (prepared : PreparedActivation Bundle) (expected attempt_id : Option ℕ) (now : ℕ)
    (db : RegistryDb) where
  abbrev pub version : ℕ
  version = prepared.model_version

  abbrev pub published : ModelVersion → ModelVersion
  published t = record t { status = active; published_at = some now; failure_reason = none }

  pub record Steps (t : ModelVersion) (plan : ActivationPlan Bundle) (db' : RegistryDb)
      : Type 0 where
    pub target : find_model version db.models ≡ some t
    pub valid : validate_target t prepared.manifest_checksum ≡ ok tt
    pub expected_holds : optional_num_eq (version_of (active_model db.models)) expected ≡ true
    pub shelf : RegistryDb
    pub shelved : archive_active (active_model db.models) t.model_version db ≡ ok shelf
    pub written : RegistryDb
    pub flushed : flush_model (published t) shelf ≡ ok written
    pub recorded : success_of attempt_id now written ≡ ok db'
    pub planned : plan.model ≡ published t

  pub activate_prepared-Steps :
      (plan : ActivationPlan Bundle) (db' : RegistryDb)
      → activate_prepared Bundle integrator prepared expected attempt_id now db ≡ ok (plan, db')
      → (t : ModelVersion) × Steps t plan db'
  unfolding activate_prepared
  activate_prepared-Steps plan db' h =
      let (t, e1, h1) = >>=-eq-ok (require (find_model version db.models) model_not_found) _ h in
      let (u, e2, h2) = >>=-eq-ok (validate_target t prepared.manifest_checksum) _ h1 in
      let (w, e3, h3) =
        >>=-eq-ok (guard (optional_num_eq (version_of (active_model db.models)) expected) _) _ h2 in
      let (x, e4, h4) = >>=-eq-ok (integrate Bundle integrator prepared.staged_bundle) _ h3 in
      let (shelf, e5, h5) =
        >>=-eq-ok (archive_active (active_model db.models) t.model_version db) _ h4 in
      let (written, e6, h6) = >>=-eq-ok (flush_model (published t) shelf) _ h5 in
      let (done, e7, h7) = >>=-eq-ok (success_of attempt_id now written) _ h6 in
      (
        t,
        record {
          target = ground arith;
          valid = e2;
          expected_holds = ground arith;
          shelf = shelf;
          shelved = e5;
          written = written;
          flushed = e6;
          recorded = ground arith;
          planned = ground arith;
        },
      )
