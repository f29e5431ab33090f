-- ===== src/Prelude/Sorting.antt =====
-- Python's `sorted` and SQL's ORDER BY: a stable sort by a Boolean order.
use mathlib.Core.Path.{◌≡◌}
use mathlib.Core.Logic.{inl, inr}
use mathlib.Core.Bool.{Bool, true, false}
use mathlib.Core.List.{List, [], ◌∷◌, Mem, mem-cons_self, mem-cons_of_mem, Perm}
use mathlib.Core.List.Perm
use microlens_recsys_mvp.Prelude.Tests.{if◌then◌else◌, All, All-map, Bool-cases}

-- Each element of a list is in it.
pub All-Mem {ℓ} : {A : Type ℓ} → (xs : List A) → All (λ x. Mem x xs) xs
All-Mem [] = tt
All-Mem (x ∷ xs) = (mem-cons_self, All-map (λ y h. mem-cons_of_mem x h) xs (All-Mem xs))

module _ {ℓ} {A : Type ℓ} (le : A → A → Bool) where
  unfoldable pub insert_by : A → List A → List A
  insert_by x [] = x ∷ []
  insert_by x (y ∷ ys) = if le x y then x ∷ y ∷ ys else y ∷ insert_by x ys

  unfoldable pub sort_by : List A → List A
  unfolding insert_by
  sort_by [] = []
  sort_by (x ∷ xs) = insert_by x (sort_by xs)

  -- Each element stands before all that follow it.
  abbrev pub IsSorted : List A → Type ℓ
  IsSorted [] = Unit
  IsSorted (x ∷ xs) = All (λ y. le x y ≡ true) xs × IsSorted xs

  insert_by-perm : (x : A) (ys : List A) → Perm (insert_by x ys) (x ∷ ys)
  unfolding insert_by
  insert_by-perm x [] = Perm.refl (x ∷ [])
  insert_by-perm x (y ∷ ys) = elim (Bool-cases (le x y)) [
    | inl e ↦ rw e (Perm.refl (x ∷ y ∷ ys))
    | inr e ↦ rw e (Perm.trans (Perm.cons y (insert_by-perm x ys)) (Perm.swap x y ys))
  ]

  pub sort_by-perm : (xs : List A) → Perm (sort_by xs) xs
  unfolding sort_by
  sort_by-perm [] = Perm.refl []
  sort_by-perm (x ∷ xs) = Perm.trans (insert_by-perm x (sort_by xs)) (Perm.cons x (sort_by-perm xs))

  module _ {κ} (P : A → Type κ) where
    All-insert_by : (x : A) (ys : List A) → P x → All P ys → All P (insert_by x ys)
    unfolding insert_by
    All-insert_by x [] px h = (px, tt)
    All-insert_by x (y ∷ ys) px h = elim (Bool-cases (le x y)) [
      | inl e ↦ rw e (px, (h.0, h.1))
      | inr e ↦ rw e (h.0, All-insert_by x ys px h.1)
    ]

    -- What holds of every element holds of every element of the sorted list.
    pub All-sort_by : (xs : List A) → All P xs → All P (sort_by xs)
    unfolding sort_by
    All-sort_by [] h = tt
    All-sort_by (x ∷ xs) h = All-insert_by x (sort_by xs) h.0 (All-sort_by xs h.1)

  module _ {κ} (P : A → Type κ) where
    All-of-insert_by : (x : A) (ys : List A) → All P (insert_by x ys) → P x × All P ys
    unfolding insert_by
    All-of-insert_by x [] h = (h.0, tt)
    All-of-insert_by x (y ∷ ys) h = elim (Bool-cases (le x y)) [
      | inl e ↦ rw e at h
      | inr e ↦
          let h' : P y × All P (insert_by x ys) = rw e at h in
          let (px, rest) = All-of-insert_by x ys h'.1 in (px, (h'.0, rest))
    ]

    -- What holds of every element of the sorted list holds of every element.
    pub All-of-sort_by : (xs : List A) → All P (sort_by xs) → All P xs
    unfolding sort_by
    All-of-sort_by [] h = tt
    All-of-sort_by (x ∷ xs) h =
        let (px, rest) = All-of-insert_by x (sort_by xs) h in (px, All-of-sort_by xs rest)

  module _ (total : (x y : A) → le x y ≡ false → le y x ≡ true)
      (trans : (x y z : A) → le x y ≡ true → le y z ≡ true → le x z ≡ true) where
    insert_by-IsSorted : (x : A) (ys : List A) → IsSorted ys → IsSorted (insert_by x ys)
    unfolding insert_by
    insert_by-IsSorted x [] h = (tt, tt)
    insert_by-IsSorted x (y ∷ ys) h = elim (Bool-cases (le x y)) [
      | inl e ↦ rw e ((e, All-map (λ z. trans x y z e) ys h.0), h)
      | inr e ↦
          rw e
            (All-insert_by (λ z. le y z ≡ true) x ys (total x y e) h.0, insert_by-IsSorted x ys h.1)
    ]

    pub sort_by-IsSorted : (xs : List A) → IsSorted (sort_by xs)
    unfolding sort_by
    sort_by-IsSorted [] = tt
    sort_by-IsSorted (x ∷ xs) = insert_by-IsSorted x (sort_by xs) (sort_by-IsSorted xs)
