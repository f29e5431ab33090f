-- ===== src/Durable/Safety/Stamps.antt =====
-- Tables whose attempts have the same stamps hold the same attempts, up to their progress.
use microlens_recsys_mvp.Prelude.{
  ℕ, ◌≡◌, refl, ap, ◌∙◌, none, some, List, [], ◌∷◌, map, ◌==◌, Bool-cases, inl, inr, arith,
}
use microlens_recsys_mvp.Prelude.Table.{find}
use microlens_recsys_mvp.Durable.Rows.{AttemptRow, find_attempt, has_fence}
use microlens_recsys_mvp.Durable.Safety.Recover.{Stamp, stamp}

heads :
    (a b : AttemptRow) (xs ys : List AttemptRow)
    → map stamp (a ∷ xs) ≡ map stamp (b ∷ ys)
    → (stamp a ≡ stamp b) × (map stamp xs ≡ map stamp ys)
heads a b xs ys e = (cc e, cc e)

pub has_fence-stamps :
    (f : ℕ) (xs ys : List AttemptRow)
    → map stamp xs ≡ map stamp ys
    → has_fence f xs ≡ has_fence f ys
unfolding has_fence
has_fence-stamps f [] [] e = refl
has_fence-stamps f [] (y ∷ ys) e = cc
has_fence-stamps f (x ∷ xs) [] e = cc
has_fence-stamps f (x ∷ xs) (y ∷ ys) e =
    let (head, tail) = heads x y xs ys e in
    ground (arith, has_fence-stamps f xs ys tail, ap Stamp.fence_token head)

pub find-stamps_none :
    (k : ℕ) (xs ys : List AttemptRow)
    → map stamp xs ≡ map stamp ys
    → find_attempt k ys ≡ none
    → find_attempt k xs ≡ none
unfolding find
find-stamps_none k [] [] e h = refl
find-stamps_none k [] (y ∷ ys) e h = refl
find-stamps_none k (x ∷ xs) [] e h = cc
find-stamps_none k (x ∷ xs) (y ∷ ys) e h =
    let (head, tail) = heads x y xs ys e in
    ground (arith, find-stamps_none k xs ys tail, ap Stamp.attempt_id head)

pub find-stamps :
    (k : ℕ) (xs ys : List AttemptRow) (a : AttemptRow)
    → map stamp xs ≡ map stamp ys
    → find_attempt k ys ≡ some a
    → (b : AttemptRow) × (find_attempt k xs ≡ some b) × (stamp b ≡ stamp a)
unfolding find
find-stamps k xs [] a e h = absurd (ground arith)
find-stamps k [] (y ∷ ys) a e h = absurd (cc e)
find-stamps k (x ∷ xs) (y ∷ ys) a e h =
    let (head, tail) = heads x y xs ys e in
    elim (Bool-cases (y.attempt_id == k)) [
      | inl hit ↦
          let same : y ≡ a = ground arith in
          (x, ground (arith, ap Stamp.attempt_id head), head ∙ ap stamp same)
      | inr miss ↦
          let (b, found, same) = find-stamps k xs ys a tail (ground arith) in
          (b, ground (arith, ap Stamp.attempt_id head), same)
    ]
