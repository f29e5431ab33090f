-- ===== src/Feeds/Topics.antt =====
-- `topic_deduplicate` (apps/api/app/feeds/ranking.py).
use microlens_recsys_mvp.Prelude.{
  ℕ, suc, ◌+◌, ◌≤◌, String, true, false, ◌≡◌, refl, ap, subst, inl, inr, List, [], ◌∷◌, ◌++◌, ℤ,
  pos, leb, Bool-cases, str_eq, eq_iff, if◌then◌else◌, value_error, Result, ok, positive, ◌>>=◌,
  arith,
}
use mathlib.Core.List.{Perm}
use mathlib.Core.List.Perm
use microlens_recsys_mvp.Prelude.Floats.{Floats}
use microlens_recsys_mvp.Feeds.Candidates.{RankedCandidate}
use microlens_recsys_mvp.Feeds.Fill.{perm_middle}

-- `counts[topic] += 1`
abbrev pub bump : (String → ℕ) → String → String → ℕ
bump counts topic t = if str_eq t topic then counts t + 1 else counts t

bump_self :
    (counts : String → ℕ) (t topic : String)
    → str_eq t topic ≡ true
    → bump counts topic t ≡ counts t + 1
bump_self counts t topic e = rw e refl

bump_other :
    (counts : String → ℕ) (t topic : String)
    → str_eq t topic ≡ false
    → bump counts topic t ≡ counts t
bump_other counts t topic e = rw e refl

module _ (F : Floats) where
  abbrev pub keep_first :
      ℕ
      → (String → ℕ)
      → List (RankedCandidate F)
      → List (RankedCandidate F) × List (RankedCandidate F)
  keep_first limit counts [] = ([], [])
  keep_first limit counts (c ∷ candidates) =
      let (kept, removed) = keep_first limit counts candidates in
      let (kept_after, removed_after) = keep_first limit (bump counts c.title_topic) candidates in
      if leb limit (counts c.title_topic)
      then (kept, c ∷ removed)
      else (c ∷ kept_after, removed_after)

  unfoldable pub topic_deduplicate :
      List (RankedCandidate F) → ℤ → Result (List (RankedCandidate F) × List (RankedCandidate F))
  topic_deduplicate candidates max_per_topic = do
    limit ← positive max_per_topic (value_error "max_per_topic must be positive")
    ok (keep_first limit (λ _. 0) candidates)

  -- How many of the candidates have a topic.
  abbrev pub count_topic : String → List (RankedCandidate F) → ℕ
  count_topic topic [] = 0
  count_topic topic (c ∷ candidates) =
      let rest = count_topic topic candidates in
      if str_eq topic c.title_topic then rest + 1 else rest

  -- `limit`, or the number where that is smaller.
  abbrev pub at_most : ℕ → ℕ → ℕ
  at_most limit n = if leb limit n then limit else n

  keep_first-count :
      (limit : ℕ) (topic : String) (counts : String → ℕ) (candidates : List (RankedCandidate F))
      → counts topic ≤ limit
      → count_topic topic (keep_first limit counts candidates).0 + counts topic
        ≡ at_most limit (count_topic topic candidates + counts topic)
  keep_first-count limit topic counts [] h = ground arith
  keep_first-count limit topic counts (c ∷ candidates) h =
      elim (Bool-cases (leb limit (counts c.title_topic))) [
        | inl full ↦ rw full (elim (Bool-cases (str_eq topic c.title_topic)) [
          | inl same ↦
              let ih = keep_first-count limit topic counts candidates h in
              let equal = ap counts ((eq_iff topic c.title_topic).0 same) in rw same (ground arith)
          | inr other ↦ rw other (keep_first-count limit topic counts candidates h)
        ])
        | inr room ↦ rw room (elim (Bool-cases (str_eq topic c.title_topic)) [
          | inl same ↦
              let equal = ap counts ((eq_iff topic c.title_topic).0 same) in
              let one_more = bump_self counts topic c.title_topic same in
              let ih =
                keep_first-count limit topic (bump counts c.title_topic) candidates
                  (ground arith) in
              let ih' = subst (CountOf (bump counts c.title_topic)) one_more ih in
              rw same (ground arith)
          | inr other ↦
              let unchanged = bump_other counts topic c.title_topic other in
              let ih =
                keep_first-count limit topic (bump counts c.title_topic) candidates
                  (ground arith) in
              rw other (subst (CountOf (bump counts c.title_topic)) unchanged ih)
        ])
      ]
    where
      CountOf : (String → ℕ) → ℕ → Type 0
      CountOf after n =
          count_topic topic (keep_first limit after candidates).0 + n
          ≡ at_most limit (count_topic topic candidates + n)

  keep_first-perm :
      (limit : ℕ) (counts : String → ℕ) (candidates : List (RankedCandidate F))
      → Perm
          ((keep_first limit counts candidates).0 ++ (keep_first limit counts candidates).1)
          candidates
  keep_first-perm limit counts [] = Perm.refl []
  keep_first-perm limit counts (c ∷ candidates) =
      elim (Bool-cases (leb limit (counts c.title_topic))) [
        | inl full ↦ rw full (
            Perm.trans
              (Perm.symm (
                perm_middle c (keep_first limit counts candidates).0
                  (keep_first limit counts candidates).1))
              (Perm.cons c (keep_first-perm limit counts candidates)))
        | inr room ↦
            rw room (Perm.cons c (keep_first-perm limit (bump counts c.title_topic) candidates))
      ]

  -- With a limit of at least one the call returns; every candidate is kept or removed, each once,
  -- and of each topic as many candidates are kept as there are, or the limit where there are more.
  pub topic_deduplicate-count :
      (candidates : List (RankedCandidate F)) (n : ℕ)
      → (kept : List (RankedCandidate F)) × (removed : List (RankedCandidate F))
        × (topic_deduplicate candidates (pos (suc n)) ≡ ok (kept, removed))
        × Perm (kept ++ removed) candidates
        × ((topic : String)
            → count_topic topic kept ≡ at_most (suc n) (count_topic topic candidates))
  unfolding topic_deduplicate
  topic_deduplicate-count candidates n = (
    (keep_first (suc n) (λ _. 0) candidates).0,
    (keep_first (suc n) (λ _. 0) candidates).1,
    refl,
    keep_first-perm (suc n) (λ _. 0) candidates,
    λ topic.
        let e = keep_first-count (suc n) topic (λ _. 0) candidates (omega arith) in
        from_zero (count_topic topic (keep_first (suc n) (λ _. 0) candidates).0)
          (count_topic topic candidates) e,
  )
    where
      from_zero : (a b : ℕ) → a + 0 ≡ at_most (suc n) (b + 0) → a ≡ at_most (suc n) b
      from_zero a b e = ground arith
