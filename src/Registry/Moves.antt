-- ===== src/Registry/Moves.antt =====
-- The moves in the life of a model version, and what a write of the table of models does to them
-- (apps/api/app/models_registry).
use microlens_recsys_mvp.Prelude.{
  String, true, ◌||◌, ◌≡◌, ◌≢◌, ◌⊎◌, refl, ap, ◌∙◌, subst, inl, inr, Option, some, [], ◌∷◌, ◌++◌,
  ◌==◌, ==→eq, All, All-map, Bool-cases, ok, arith,
}
use microlens_recsys_mvp.Prelude.Table.{
  replace, IsKeyed-find, find-replace_self, find-replace_ne, find-append_some,
}
use microlens_recsys_mvp.Registry.Rows.{
  ModelStatus, training, evaluated, ready, active, archived, failed, ModelVersion, RegistryDb,
  model_key, find_model, is_active, is_ready, is_comparable,
}
use microlens_recsys_mvp.Registry.Repository.{
  model_transitions, same_status, status_mem, validate_eligibility, require_eligible,
}
use microlens_recsys_mvp.Registry.OneActive.{IsSound}

-- The model may be served: it is eligible, on a comparable evaluation.
abbrev pub MayServe : ModelVersion → Type 0
MayServe m = (m.activation_eligible ≡ true) × (is_comparable m.evaluation_comparability ≡ true)

-- One move in the life of a model version.
pub data Follows (m n : ModelVersion) : Type 0 where
  stays : n.status ≡ m.status → Follows m n
  evaluates : m.status ≡ training → n.status ≡ evaluated → Follows m n
  readies : m.status ≡ evaluated → n.status ≡ ready → MayServe n → Follows m n
  goes_live : m.status ≡ ready → n.status ≡ active → MayServe n → Follows m n
  archives : m.status ≡ active → n.status ≡ archived → Follows m n
  restores : m.status ≡ archived → n.status ≡ ready → MayServe n → Follows m n
  ends : m.status ≢ archived → m.status ≢ failed → n.status ≡ failed → Follows m n

pub same_status→eq : (s t : ModelStatus) → same_status s t ≡ true → s ≡ t
same_status→eq training training h = refl
same_status→eq training evaluated h = absurd (cc)
same_status→eq training ready h = absurd (cc)
same_status→eq training active h = absurd (cc)
same_status→eq training archived h = absurd (cc)
same_status→eq training failed h = absurd (cc)
same_status→eq evaluated training h = absurd (cc)
same_status→eq evaluated evaluated h = refl
same_status→eq evaluated ready h = absurd (cc)
same_status→eq evaluated active h = absurd (cc)
same_status→eq evaluated archived h = absurd (cc)
same_status→eq evaluated failed h = absurd (cc)
same_status→eq ready training h = absurd (cc)
same_status→eq ready evaluated h = absurd (cc)
same_status→eq ready ready h = refl
same_status→eq ready active h = absurd (cc)
same_status→eq ready archived h = absurd (cc)
same_status→eq ready failed h = absurd (cc)
same_status→eq active training h = absurd (cc)
same_status→eq active evaluated h = absurd (cc)
same_status→eq active ready h = absurd (cc)
same_status→eq active active h = refl
same_status→eq active archived h = absurd (cc)
same_status→eq active failed h = absurd (cc)
same_status→eq archived training h = absurd (cc)
same_status→eq archived evaluated h = absurd (cc)
same_status→eq archived ready h = absurd (cc)
same_status→eq archived active h = absurd (cc)
same_status→eq archived archived h = refl
same_status→eq archived failed h = absurd (cc)
same_status→eq failed training h = absurd (cc)
same_status→eq failed evaluated h = absurd (cc)
same_status→eq failed ready h = absurd (cc)
same_status→eq failed active h = absurd (cc)
same_status→eq failed archived h = absurd (cc)
same_status→eq failed failed h = refl

one_of : (t a b : ModelStatus) → status_mem t (a ∷ b ∷ []) ≡ true → (t ≡ a) ⊎ (t ≡ b)
one_of t a b h = elim (Bool-cases (same_status t a)) [
  | inl first ↦ inl (same_status→eq t a first)
  | inr other ↦ inr (same_status→eq t b (ground arith))
]

MayServe-of_eligible :
    (target : ModelStatus) (m : ModelVersion)
    → (is_ready target || is_active target) ≡ true
    → require_eligible target m ≡ ok tt
    → MayServe m
unfolding require_eligible validate_eligibility
MayServe-of_eligible target m served h = ground arith

-- The row that a transition writes.
abbrev moved : ModelVersion → ModelStatus → Option String → ModelVersion
moved m target reason = record m { status = target; failure_reason = reason }

pub edge-Follows :
    (m : ModelVersion) (s target : ModelStatus) (reason : Option String)
    → m.status ≡ s
    → status_mem target (model_transitions s) ≡ true
    → require_eligible target m ≡ ok tt
    → Follows m (moved m target reason)
edge-Follows m training target reason e edge h = elim (one_of target evaluated failed edge) [
  | inl t ↦ evaluates e t
  | inr t ↦ ends (λ q. cc (q, e)) (λ q. cc (q, e)) t
]
edge-Follows m evaluated target reason e edge h = elim (one_of target ready failed edge) [
  | inl t ↦ readies e t (MayServe-of_eligible target m (rw t refl) h)
  | inr t ↦ ends (λ q. cc (q, e)) (λ q. cc (q, e)) t
]
edge-Follows m ready target reason e edge h = elim (one_of target active failed edge) [
  | inl t ↦ goes_live e t (MayServe-of_eligible target m (rw t refl) h)
  | inr t ↦ ends (λ q. cc (q, e)) (λ q. cc (q, e)) t
]
edge-Follows m active target reason e edge h = elim (one_of target archived failed edge) [
  | inl t ↦ archives e t
  | inr t ↦ ends (λ q. cc (q, e)) (λ q. cc (q, e)) t
]
edge-Follows m archived target reason e edge h =
    let t : target ≡ ready = same_status→eq target ready (ground arith) in
    restores e t (MayServe-of_eligible target m (rw t refl) h)
edge-Follows m failed target reason e edge h = absurd (cc)

-- The model is still there, one move further or where it was.
abbrev pub Continues : RegistryDb → ModelVersion → Type 0
Continues db m = (n : ModelVersion) × (find_model m.model_version db.models ≡ some n) × Follows m n

module _ (db db' : RegistryDb) (sound : IsSound db.models) where
  pub keeps :
      ((m : ModelVersion) → find_model m.model_version db.models ≡ some m → Continues db' m)
      → All (Continues db') db.models
  keeps step = All-map step db.models (IsKeyed-find model_key db.models sound.keyed)

  pub same_models : db'.models ≡ db.models → All (Continues db') db.models
  same_models e = keeps λ m f. (m, ap (find_model m.model_version) e ∙ f, stays refl)

  pub added_model :
      (r : ModelVersion) → db'.models ≡ db.models ++ r ∷ [] → All (Continues db') db.models
  added_model r e = keeps λ m f. (
    m,
    ap (find_model m.model_version) e ∙ find-append_some model_key m.model_version db.models r m f,
    stays refl,
  )

  pub written_model :
      (old r : ModelVersion)
      → find_model r.model_version db.models ≡ some old
      → Follows old r
      → db'.models ≡ replace model_key r db.models
      → All (Continues db') db.models
  written_model old r found follows e = keeps λ m f.
      elim (Bool-cases (r.model_version == m.model_version)) [
        | inl hit ↦
            let at : r.model_version ≡ m.model_version = ==→eq _ _ hit in
            let row : old ≡ m = cc (found, f, ap (λ k. find_model k db.models) at) in
            (
              r,
              ap (find_model m.model_version) e
                  ∙ find-replace_self model_key m.model_version r m db.models f at,
              subst (λ x. Follows x r) row follows,
            )
        | inr miss ↦ (
          m,
          ap (find_model m.model_version) e
              ∙ find-replace_ne model_key m.model_version r db.models (λ q. ground arith)
              ∙ f,
          stays refl,
        )
      ]
