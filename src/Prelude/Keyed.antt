-- ===== src/Prelude/Keyed.antt =====
-- Keyed tables under selection, sorting and writing.
use Prim.Native.Nat.{ℕ}
use mathlib.Core.Path.{◌≡◌, refl, sym, ap, ap₂, ◌∙◌, subst}
use mathlib.Core.Logic.{◌≢◌, inl, inr}
use mathlib.Core.Bool.{Bool}
use mathlib.Core.Option.{none, some}
use mathlib.Core.List.{List, [], ◌∷◌, map}
use native.Mathlib.Omega.{arith}
use microlens_recsys_mvp.Prelude.Tests.{◌==◌, ==→eq, Bool-cases, select, All}
use microlens_recsys_mvp.Prelude.Table.{find, replace, IsKeyed}
use microlens_recsys_mvp.Prelude.Sorting.{sort_by, insert_by}

module _ {ℓ} {A : Type ℓ} (key : A → ℕ) where
  find-cons_none :
      (k : ℕ) (x : A) (rows : List A)
      → find key k (x ∷ rows) ≡ none
      → (key x ≢ k) × (find key k rows ≡ none)
  unfolding find
  find-cons_none k x rows e = (λ q. ground arith, ground arith)

  pub none-cons :
      (k : ℕ) (x : A) (rows : List A)
      → key x ≢ k
      → find key k rows ≡ none
      → find key k (x ∷ rows) ≡ none
  unfolding find
  none-cons k x rows h e = ground arith

  module _ (p : A → Bool) where
    find-select-none :
        (k : ℕ) (rows : List A) → find key k rows ≡ none → find key k (select p rows) ≡ none
    find-select-none k [] e = e
    find-select-none k (x ∷ rows) e =
        let (other, rest) = find-cons_none k x rows e in
        elim (Bool-cases (p x)) [
          | inl pass ↦ rw pass (none-cons k x _ other (find-select-none k rows rest))
          | inr fail ↦ rw fail (find-select-none k rows rest)
        ]

    pub select-IsKeyed : (rows : List A) → IsKeyed key rows → IsKeyed key (select p rows)
    select-IsKeyed [] h = tt
    select-IsKeyed (x ∷ rows) h = elim (Bool-cases (p x)) [
      | inl pass ↦ rw pass (find-select-none (key x) rows h.0, select-IsKeyed rows h.1)
      | inr fail ↦ rw fail (select-IsKeyed rows h.1)
    ]

  module _ (le : A → A → Bool) where
    find-insert_by-none :
        (k : ℕ) (x : A) (rows : List A)
        → key x ≢ k
        → find key k rows ≡ none
        → find key k (insert_by le x rows) ≡ none
    unfolding insert_by
    find-insert_by-none k x [] h e = none-cons k x [] h e
    find-insert_by-none k x (y ∷ rows) h e =
        let (other, rest) = find-cons_none k y rows e in
        elim (Bool-cases (le x y)) [
          | inl first ↦ rw first (none-cons k x (y ∷ rows) h e)
          | inr later ↦ rw later (none-cons k y _ other (find-insert_by-none k x rows h rest))
        ]

    find-sort_by-none :
        (k : ℕ) (rows : List A) → find key k rows ≡ none → find key k (sort_by le rows) ≡ none
    unfolding sort_by
    find-sort_by-none k [] e = e
    find-sort_by-none k (x ∷ rows) e =
        let (other, rest) = find-cons_none k x rows e in
        find-insert_by-none k x (sort_by le rows) other (find-sort_by-none k rows rest)

    insert_by-IsKeyed :
        (x : A) (rows : List A)
        → find key (key x) rows ≡ none
        → IsKeyed key rows
        → IsKeyed key (insert_by le x rows)
    unfolding insert_by
    insert_by-IsKeyed x [] e h = (e, tt)
    insert_by-IsKeyed x (y ∷ rows) e h =
        let (other, rest) = find-cons_none (key x) y rows e in
        elim (Bool-cases (le x y)) [
          | inl first ↦ rw first (e, h)
          | inr later ↦ rw later (
            find-insert_by-none (key y) x rows (λ q. other (sym q)) h.0,
            insert_by-IsKeyed x rows rest h.1,
          )
        ]

    pub sort_by-IsKeyed : (rows : List A) → IsKeyed key rows → IsKeyed key (sort_by le rows)
    unfolding sort_by
    sort_by-IsKeyed [] h = tt
    sort_by-IsKeyed (x ∷ rows) h =
        insert_by-IsKeyed x (sort_by le rows) (find-sort_by-none (key x) rows h.0)
          (sort_by-IsKeyed rows h.1)

  replace_absent :
      (r : A) (rows : List A) → find key (key r) rows ≡ none → replace key r rows ≡ rows
  unfolding replace
  replace_absent r [] e = refl
  replace_absent r (s ∷ rows) e =
      let (other, rest) = find-cons_none (key r) s rows e in
      ap₂ ◌∷◌ (ground arith) (replace_absent r rows rest)

  -- A write that keeps a view of its row keeps the view of the table.
  pub map-replace {κ} :
      {B : Type κ} (f : A → B) (r s : A) (rows : List A)
      → IsKeyed key rows
      → find key (key r) rows ≡ some s
      → f r ≡ f s
      → map f (replace key r rows) ≡ map f rows
  unfolding replace find
  map-replace f r s [] h e same = refl
  map-replace f r s (t ∷ rows) h e same = elim (Bool-cases (key t == key r)) [
    | inl hit ↦ rw hit (
        ap₂ ◌∷◌ (same ∙ ap f (ground arith)) (
          ap (map f)
            (replace_absent r rows (subst (λ k. find key k rows ≡ none) (==→eq _ _ hit) h.0))))
    | inr miss ↦ rw miss (ap (λ l. f t ∷ l) (map-replace f r s rows h.1 (ground arith) same))
  ]

  -- A key that finds nothing is the key of no row.
  pub find-none-All : (k : ℕ) (rows : List A) → find key k rows ≡ none → All (λ r. key r ≢ k) rows
  find-none-All k [] e = tt
  find-none-All k (x ∷ rows) e =
      let (other, rest) = find-cons_none k x rows e in (other, find-none-All k rows rest)
