-- ===== src/Registry/OneActive.antt =====
-- The constraints of the table of model versions, and when a flush keeps them
-- (apps/api/app/db/models.py).
use microlens_recsys_mvp.Prelude.{
  ℕ, true, false, ◌&&◌, ◌≡◌, refl, sym, subst, ◌∙◌, ◌⊎◌, inl, inr, none, some, List, [], ◌∷◌, ◌++◌,
  All, All-map, head?, select, Bool-cases, ok, arith,
}
use microlens_recsys_mvp.Prelude.Table.{
  replace, IsKeyed, key-find, find-replace_cases, find-append_cases, replace-IsKeyed,
  append-IsKeyed, IsKeyed-find, find-All, replace-All,
}
use microlens_recsys_mvp.Prelude.{All-append}
use microlens_recsys_mvp.Registry.Rows.{
  ModelVersion, RegistryDb, model_key, find_model, holds_active, active_model, model_checks,
  other_active, flush_model, insert_model,
}

-- Every active model has this version.
abbrev pub OnlyActive : ℕ → List ModelVersion → Type 0
OnlyActive v models =
    (k : ℕ) (m : ModelVersion)
    → find_model k models ≡ some m
    → holds_active m ≡ true
    → m.model_version ≡ v

pub record IsSound (models : List ModelVersion) : Type 0 where
  pub keyed : IsKeyed model_key models
  pub checked : All (λ m. model_checks m ≡ true) models
  pub single :
      (k v : ℕ) (m n : ModelVersion)
      → find_model k models ≡ some m
      → holds_active m ≡ true
      → find_model v models ≡ some n
      → holds_active n ≡ true
      → k ≡ v

pub other_active-All :
    (v : ℕ) (models : List ModelVersion)
    → other_active v models ≡ false
    → All (λ m. holds_active m ≡ true → m.model_version ≡ v) models
unfolding other_active
other_active-All v [] h = tt
other_active-All v (m ∷ models) h = ((λ a. ground arith), other_active-All v models (ground arith))

pub All-other_active :
    (v : ℕ) (models : List ModelVersion)
    → All (λ m. holds_active m ≡ true → m.model_version ≡ v) models
    → other_active v models ≡ false
unfolding other_active
All-other_active v [] h = refl
All-other_active v (m ∷ models) h = elim (Bool-cases (holds_active m)) [
  | inl a ↦
      let same : m.model_version ≡ v = h.0 a in
      let rest : other_active v models ≡ false = All-other_active v models h.1 in ground arith
  | inr p ↦ let rest : other_active v models ≡ false = All-other_active v models h.1 in ground arith
]

pub other_active-OnlyActive :
    (v : ℕ) (models : List ModelVersion) → other_active v models ≡ false → OnlyActive v models
other_active-OnlyActive v models h k m e a =
    find-All model_key (λ m. holds_active m ≡ true → m.model_version ≡ v) k models m
      (other_active-All v models h) e a

pub OnlyActive-other_active :
    (v : ℕ) (models : List ModelVersion)
    → IsKeyed model_key models
    → OnlyActive v models
    → other_active v models ≡ false
OnlyActive-other_active v models keyed h = All-other_active v models (
    All-map {Q = λ m. holds_active m ≡ true → m.model_version ≡ v} (λ m e a. h _ m e a) models
      (IsKeyed-find model_key models keyed))

-- A table where only `v` is active.
pub IsSound-of_only :
    (v : ℕ) (models : List ModelVersion)
    → IsKeyed model_key models
    → All (λ m. model_checks m ≡ true) models
    → other_active v models ≡ false
    → IsSound models
IsSound-of_only v models keyed checked h = record {
  keyed = keyed;
  checked = checked;
  single = λ k w m n e a f b. at k m e a ∙ sym (at w n f b);
}
  where
    at : (k : ℕ) (m : ModelVersion) → find_model k models ≡ some m → holds_active m ≡ true → k ≡ v
    at k m e a = sym (key-find model_key k models m e) ∙ other_active-OnlyActive v models h k m e a

-- The row that `active_model` returns is active, and found by its version.
pub active_model-some :
    (models : List ModelVersion) (m : ModelVersion)
    → active_model models ≡ some m
    → IsKeyed model_key models
    → (find_model m.model_version models ≡ some m) × (holds_active m ≡ true)
active_model-some models m e keyed =
    let both : (holds_active m ≡ true) × (find_model m.model_version models ≡ some m) =
      picked models models (IsKeyed-find model_key models keyed) e in
    (both.1, both.0)
  where
    picked :
        (whole rows : List ModelVersion)
        → All (λ r. find_model r.model_version whole ≡ some r) rows
        → head? (select holds_active rows) ≡ some m
        → (holds_active m ≡ true) × (find_model m.model_version whole ≡ some m)
    picked whole [] f e = ground arith
    picked whole (r ∷ rows) f e = elim (Bool-cases (holds_active r)) [
      | inl a ↦
          let same : r ≡ m = ground arith in
          subst (λ t. (holds_active t ≡ true) × (find_model t.model_version whole ≡ some t)) same
            (a, f.0)
      | inr p ↦ picked whole rows f.1 (ground arith)
    ]

pub active_model-none :
    (v : ℕ) (models : List ModelVersion)
    → active_model models ≡ none
    → other_active v models ≡ false
unfolding other_active
active_model-none v [] e = refl
active_model-none v (m ∷ models) e = elim (Bool-cases (holds_active m)) [
  | inl a ↦ absurd (ground arith)
  | inr p ↦
      let rest : other_active v models ≡ false = active_model-none v models (ground arith) in
      ground arith
]

-- A row that passes its checks, and is active only where no other row is, keeps the table sound.
single_after :
    (models models' : List ModelVersion) (m : ModelVersion)
    → IsSound models
    → (holds_active m && other_active m.model_version models) ≡ false
    → ((k : ℕ) (n : ModelVersion)
        → find_model k models' ≡ some n
        → ((m.model_version ≡ k) × (n ≡ m)) ⊎ (find_model k models ≡ some n))
    → (k v : ℕ) (a b : ModelVersion) → find_model k models' ≡ some a
    → holds_active a ≡ true
    → find_model v models' ≡ some b
    → holds_active b ≡ true
    → k ≡ v
single_after models models' m s free cases k v a b ea ha eb hb = elim (cases k a ea) [
  | inl p ↦ elim (cases v b eb) [
    | inl q ↦ sym p.0 ∙ q.0
    | inr q ↦ sym p.0 ∙ sym (only a p.1 ha v b q hb)
  ]
  | inr p ↦ elim (cases v b eb) [
    | inl q ↦ only b q.1 hb k a p ha ∙ q.0
    | inr q ↦ s.single k v a b p ha q hb
  ]
]
  where
    only :
        (x : ModelVersion)
        → x ≡ m
        → holds_active x ≡ true
        → (j : ℕ) (y : ModelVersion) → find_model j models ≡ some y
        → holds_active y ≡ true
        → j ≡ m.model_version
    only x e hx j y f hy =
        let active : holds_active m ≡ true = subst (λ t. holds_active t ≡ true) e hx in
        sym (key-find model_key j models y f)
        ∙ other_active-OnlyActive m.model_version models (ground arith) j y f hy

pub replace-IsSound :
    (m : ModelVersion) (models : List ModelVersion)
    → IsSound models
    → model_checks m ≡ true
    → (holds_active m && other_active m.model_version models) ≡ false
    → IsSound (replace model_key m models)
replace-IsSound m models s c free = record {
  keyed = replace-IsKeyed model_key m models s.keyed;
  checked = replace-All model_key (λ m. model_checks m ≡ true) m models c s.checked;
  single = single_after models _ m s free (λ k n e.
      elim (find-replace_cases model_key k m n models e) [ inl p ↦ inl p | inr p ↦ inr p.1 ]);
}

pub append-IsSound :
    (m : ModelVersion) (models : List ModelVersion)
    → IsSound models
    → find_model m.model_version models ≡ none
    → model_checks m ≡ true
    → (holds_active m && other_active m.model_version models) ≡ false
    → IsSound (models ++ m ∷ [])
append-IsSound m models s absent c free = record {
  keyed = append-IsKeyed model_key models m absent s.keyed;
  checked = All-append (λ m. model_checks m ≡ true) models (m ∷ []) s.checked (c, tt);
  single = single_after models _ m s free (λ k n e.
      elim (find-append_cases model_key k models m n e) [ inl p ↦ inr p | inr p ↦ inl p ]);
}

-- A flush that succeeds keeps the table sound.
pub flush_model-IsSound :
    (m : ModelVersion) (db db' : RegistryDb)
    → IsSound db.models
    → flush_model m db ≡ ok db'
    → IsSound db'.models
unfolding flush_model
flush_model-IsSound m db db' s h =
    let written : replace model_key m db.models ≡ db'.models = ground arith in
    subst IsSound written (replace-IsSound m db.models s (ground arith) (ground arith))

pub insert_model-IsSound :
    (m : ModelVersion) (db db' : RegistryDb)
    → IsSound db.models
    → insert_model m db ≡ ok db'
    → IsSound db'.models
unfolding insert_model
insert_model-IsSound m db db' s h =
    let written : db.models ++ m ∷ [] ≡ db'.models = ground arith in
    subst IsSound written
      (append-IsSound m db.models s (ground arith) (ground arith) (ground arith))
