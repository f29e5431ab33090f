-- ===== src/Prelude/Tests.antt =====
-- Boolean tests on numbers, conditionals, lists over the native numbers, Python integers.
use Prim.Native.Nat.{ℕ, zero, suc, compare, Ordering}
use Prim.Native.String.{String, count}
use mathlib.Core.Path.{◌≡◌, refl, subst}
use mathlib.Core.Logic.{◌⊎◌, inl, inr}
use mathlib.Core.Bool.{Bool, true, false, ◌||◌, ◌&&◌}
use mathlib.Core.Option.{Option, none, some}
use mathlib.Core.List.{List, [], ◌∷◌, ◌++◌}
use native.Mathlib.Omega.{arith}
use text.Mathlib.Text.{◌==◌ as str_eq}

abbrev pub ltb : ℕ → ℕ → Bool
ltb a b = elim (compare a b) [ Ordering.lt ↦ true | _ ↦ false ]

abbrev pub leb : ℕ → ℕ → Bool
leb a b = elim (compare a b) [ Ordering.gt ↦ false | _ ↦ true ]

infix 50 ◌==◌
abbrev pub ◌==◌ : ℕ → ℕ → Bool
a == b = elim (compare a b) [ Ordering.eq ↦ true | _ ↦ false ]

infix 1 if◌then◌else◌
abbrev pub if◌then◌else◌ {ℓ} : {A : Type ℓ} → Bool → A → A → A
if true then x else y = x
if false then x else y = y

pub ==→eq : (a b : ℕ) → (a == b) ≡ true → a ≡ b
==→eq a b h = ground arith

pub ==_refl : (a : ℕ) → (a == a) ≡ true
==_refl a = ground arith

-- To split on a computed value and keep the equation.
pub Bool-cases : (b : Bool) → (b ≡ true) ⊎ (b ≡ false)
Bool-cases true = inl refl
Bool-cases false = inr refl

pub Option-cases {ℓ} : {A : Type ℓ} (o : Option A) → (o ≡ none) ⊎ ((a : A) × (o ≡ some a))
Option-cases none = inl refl
Option-cases (some a) = inr (a, refl)

-- Python's unbounded integers, where the code tests for a negative one.
pub data ℤ : Type 0 where
  pos : ℕ → ℤ
  negsuc : ℕ → ℤ

-- A Python `if value` on an optional value.
abbrev pub is_some {ℓ} : {A : Type ℓ} → Option A → Bool
is_some none = false
is_some (some a) = true

module _ {ℓ} {A : Type ℓ} where
  abbrev pub length : List A → ℕ
  length [] = 0
  length (x ∷ xs) = suc (length xs)

  -- The elements that pass a test, in order.
  abbrev pub select : (A → Bool) → List A → List A
  select p [] = []
  select p (x ∷ xs) = let rest = select p xs in if p x then x ∷ rest else rest

  abbrev pub take : ℕ → List A → List A
  take zero xs = []
  take (suc n) [] = []
  take (suc n) (x ∷ xs) = x ∷ take n xs

  abbrev pub head? : List A → Option A
  head? [] = none
  head? (x ∷ xs) = some x

-- A predicate on every element.
abbrev pub All {ℓ κ} : {A : Type ℓ} → (A → Type κ) → List A → Type κ
All P [] = Unit
All P (x ∷ xs) = P x × All P xs

module _ {ℓ κ μ} {A : Type ℓ} {P : A → Type κ} {Q : A → Type μ} where
  pub All-map : ((a : A) → P a → Q a) → (xs : List A) → All P xs → All Q xs
  All-map f [] h = tt
  All-map f (x ∷ xs) h = (f x h.0, All-map f xs h.1)

module _ {ℓ κ μ ν} {A : Type ℓ} (P : A → Type κ) (Q : A → Type μ) (R : A → Type ν) where
  pub All-both : ((a : A) → P a → Q a → R a) → (xs : List A) → All P xs → All Q xs → All R xs
  All-both f [] p q = tt
  All-both f (x ∷ xs) p q = (f x p.0 q.0, All-both f xs p.1 q.1)

module _ {ℓ κ} {A : Type ℓ} (P : A → Type κ) where
  pub All-append : (xs ys : List A) → All P xs → All P ys → All P (xs ++ ys)
  All-append [] ys h k = k
  All-append (x ∷ xs) ys h k = (h.0, All-append xs ys h.1 k)

  pub All-select :
      (p : A → Bool) (xs : List A) → All P xs → All (λ x. P x × (p x ≡ true)) (select p xs)
  All-select p [] h = tt
  All-select p (x ∷ xs) h = keep (p x) refl (All-select p xs h.1)
    where
      keep :
          (b : Bool)
          → p x ≡ b
          → All (λ x. P x × (p x ≡ true)) (select p xs)
          → All (λ x. P x × (p x ≡ true)) (if b then x ∷ select p xs else select p xs)
      keep true e rest = ((h.0, e), rest)
      keep false e rest = rest

  -- What holds of the selected elements holds of every element that passes the test.
  pub All-unselect :
      (p : A → Bool) (xs : List A) → All P (select p xs) → All (λ x. p x ≡ true → P x) xs
  All-unselect p [] h = tt
  All-unselect p (x ∷ xs) h = elim (Bool-cases (p x)) [
    | inl pass ↦
        let h' : P x × All P (select p xs) = rw pass at h in ((λ _. h'.0), All-unselect p xs h'.1)
    | inr fail ↦ ((λ pass. absurd (cc (pass, fail))), All-unselect p xs (rw fail at h))
  ]

  pub All-take : (n : ℕ) (xs : List A) → All P xs → All P (take n xs)
  All-take zero xs h = tt
  All-take (suc n) [] h = tt
  All-take (suc n) (x ∷ xs) h = (h.0, All-take n xs h.1)

  pub All-head : (xs : List A) (a : A) → All P xs → head? xs ≡ some a → P a
  All-head [] a h e = ground arith
  All-head (x ∷ xs) a h e = subst P (ground arith) h.0

module _ {ℓ} {A : Type ℓ} where
  -- No element passes the test.
  pub select-none :
      (p : A → Bool) (xs : List A) → head? (select p xs) ≡ none → All (λ x. p x ≡ false) xs
  select-none p [] e = tt
  select-none p (x ∷ xs) e = elim (Bool-cases (p x)) [
    | inl pass ↦ absurd (ground arith)
    | inr fail ↦ (fail, select-none p xs (ground arith))
  ]

abbrev pub str_mem : String → List String → Bool
str_mem a [] = false
str_mem a (x ∷ xs) = str_eq a x || str_mem a xs

-- `0 < len(text) <= bound`, in characters.
abbrev pub bounded_text : String → ℕ → Bool
bounded_text text bound = ltb 0 (count text) && leb (count text) bound
