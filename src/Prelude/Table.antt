-- ===== src/Prelude/Table.antt =====
-- A database table as the list of its rows, read and written through its primary key.
use Prim.Native.Nat.{ℕ}
use mathlib.Core.Path.{◌≡◌, refl, sym, ◌∙◌, subst}
use mathlib.Core.Logic.{◌≢◌, ◌⊎◌, inl, inr}
use mathlib.Core.Option.{Option, none, some}
use mathlib.Core.List.{List, [], ◌∷◌, ◌++◌}
use native.Mathlib.Omega.{arith}
use microlens_recsys_mvp.Prelude.Tests.{
  ◌==◌, if◌then◌else◌, All, All-map, Bool-cases, Option-cases, ==→eq,
}

module _ {ℓ} {A : Type ℓ} (key : A → ℕ) where
  -- `session.get(Row, k)`
  unfoldable pub find : ℕ → List A → Option A
  find k [] = none
  find k (r ∷ rows) = if key r == k then some r else find k rows

  -- Writing back a row that was read: the row with its key changes, no row is added.
  unfoldable pub replace : A → List A → List A
  replace r [] = []
  replace r (s ∷ rows) = (if key s == key r then r else s) ∷ replace r rows

  -- No two rows have one key.
  abbrev pub IsKeyed : List A → Type ℓ
  IsKeyed [] = Unit
  IsKeyed (r ∷ rows) = (find (key r) rows ≡ none) × IsKeyed rows

  -- A found row has the key that was asked for.
  pub key-find : (k : ℕ) (rows : List A) (r : A) → find k rows ≡ some r → key r ≡ k
  unfolding find
  key-find k [] r h = ground arith
  key-find k (s ∷ rows) r h = ground (arith, key-find k rows r)

  abbrev overwrite : A → Option A → Option A
  overwrite r none = none
  overwrite r (some s) = some r

  find-replace :
      (k : ℕ) (r : A) (rows : List A)
      → find k (replace r rows) ≡ (if key r == k then overwrite r (find k rows) else find k rows)
  unfolding find replace
  find-replace k r [] = ground arith
  find-replace k r (s ∷ rows) = ground (arith, find-replace k r rows)

  -- Once written back, the row is what its key finds.
  pub find-replace_self :
      (k : ℕ) (r s : A) (rows : List A)
      → find k rows ≡ some s
      → key r ≡ k
      → find k (replace r rows) ≡ some r
  find-replace_self k r s rows h e = ground (arith, find-replace k r rows)

  -- Every other key finds what it found.
  pub find-replace_ne :
      (k : ℕ) (r : A) (rows : List A) → key r ≢ k → find k (replace r rows) ≡ find k rows
  find-replace_ne k r rows h = ground (arith, find-replace k r rows)

  pub find-replace-none :
      (k : ℕ) (r : A) (rows : List A) → find k rows ≡ none → find k (replace r rows) ≡ none
  find-replace-none k r rows h = ground (arith, find-replace k r rows)

  -- What a key finds after a write is the row written or the row it found before.
  pub find-replace_cases :
      (k : ℕ) (r s : A) (rows : List A)
      → find k (replace r rows) ≡ some s
      → ((key r ≡ k) × (s ≡ r)) ⊎ ((key r ≢ k) × (find k rows ≡ some s))
  find-replace_cases k r s rows h = elim (Bool-cases (key r == k)) [
    | inl e ↦ inl (==→eq _ _ e, ground (arith, find-replace k r rows))
    | inr e ↦ inr (ground arith, ground (arith, find-replace k r rows))
  ]

  find-append :
      (k : ℕ) (rows : List A) (r : A)
      → find k rows ≡ none
      → find k (rows ++ r ∷ []) ≡ (if key r == k then some r else none)
  unfolding find
  find-append k [] r h = refl
  find-append k (s ∷ rows) r h = ground (arith, find-append k rows r)

  -- Adding a row at the end leaves every row that could be found.
  pub find-append_some :
      (k : ℕ) (rows : List A) (r s : A) → find k rows ≡ some s → find k (rows ++ r ∷ []) ≡ some s
  unfolding find
  find-append_some k [] r s h = ground arith
  find-append_some k (t ∷ rows) r s h = ground (arith, find-append_some k rows r s)

  pub find-append_self :
      (rows : List A) (r : A) → find (key r) rows ≡ none → find (key r) (rows ++ r ∷ []) ≡ some r
  find-append_self rows r h = ground (arith, find-append (key r) rows r)

  pub find-append_cases :
      (k : ℕ) (rows : List A) (r s : A)
      → find k (rows ++ r ∷ []) ≡ some s
      → (find k rows ≡ some s) ⊎ ((key r ≡ k) × (s ≡ r))
  find-append_cases k rows r s h = elim (Option-cases (find k rows)) [
    | inl absent ↦ inr (ground (arith, find-append k rows r), ground (arith, find-append k rows r))
    | inr (t, e) ↦ inl (e ∙ sym (find-append_some k rows r t e) ∙ h)
  ]

  pub find-append_none :
      (k : ℕ) (rows : List A) (r : A)
      → find k rows ≡ none
      → key r ≢ k
      → find k (rows ++ r ∷ []) ≡ none
  find-append_none k rows r h e = ground (arith, find-append k rows r)

  pub replace-IsKeyed : (r : A) (rows : List A) → IsKeyed rows → IsKeyed (replace r rows)
  unfolding replace
  replace-IsKeyed r [] h = tt
  replace-IsKeyed r (s ∷ rows) h = (
    find-replace-none _ r rows (subst (λ k. find k rows ≡ none) same h.0),
    replace-IsKeyed r rows h.1,
  )
    where
      same : key s ≡ key (if key s == key r then r else s)
      same = ground arith

  pub append-IsKeyed :
      (rows : List A) (r : A) → find (key r) rows ≡ none → IsKeyed rows → IsKeyed (rows ++ r ∷ [])
  unfolding find
  append-IsKeyed [] r e h = (refl, tt)
  append-IsKeyed (s ∷ rows) r e h =
      (find-append_none (key s) rows r h.0 (ground arith), append-IsKeyed rows r (ground arith) h.1)

  -- In a keyed table every row is found by its key.
  pub IsKeyed-find : (rows : List A) → IsKeyed rows → All (λ r. find (key r) rows ≡ some r) rows
  unfolding find
  IsKeyed-find [] h = tt
  IsKeyed-find (s ∷ rows) h =
      (ground arith, All-map (λ r e. ground arith) rows (IsKeyed-find rows h.1))

  -- What holds of every row holds of the one that is found.
  pub find-All {κ} :
      (P : A → Type κ) (k : ℕ) (rows : List A) (r : A) → All P rows → find k rows ≡ some r → P r
  unfolding find
  find-All P k [] r h e = ground arith
  find-All P k (s ∷ rows) r h e = elim (Bool-cases (key s == k)) [
    | inl hit ↦ subst P (ground arith) h.0
    | inr miss ↦ find-All P k rows r h.1 (ground arith)
  ]

  -- A predicate of all rows and of the row written holds of all rows afterwards.
  pub replace-All {κ} :
      (P : A → Type κ) (r : A) (rows : List A) → P r → All P rows → All P (replace r rows)
  unfolding replace
  replace-All P r [] pr h = tt
  replace-All P r (s ∷ rows) pr h = elim (Bool-cases (key s == key r)) [
    | inl hit ↦ rw hit (pr, replace-All P r rows pr h.1)
    | inr miss ↦ rw miss (h.0, replace-All P r rows pr h.1)
  ]
