-- ===== src/Auth/Window.antt =====
-- Within one window the Redis limiter answers as the limiter in memory does
-- (apps/api/app/auth/rate_limit.py).
use microlens_recsys_mvp.Prelude.{
  ℕ, zero, suc, ◌+◌, ◌≤◌, ◌<◌, String, Bool, true, ◌≡◌, ◌≢◌, refl, sym, ap, subst, ◌∙◌, inl, inr,
  Option, none, some, List, [], ◌∷◌, leb, str_eq, eq_iff, length, Bool-cases, pos, negsuc, Result,
  ok, ◌>>=◌, arith,
}
use microlens_recsys_mvp.Auth.Limiter.{
  Redis, increment_with_expiry, judged, allow, Counts, count_of, bump_count, allow_in_memory,
}

abbrev pub largest : ℕ
largest = 9223372036854775807

-- What Redis documents of its commands while no key expires. `IsClean` says that each key is
-- missing or is a counter with an expiry, and `live` is the counter.
pub record RedisLaws (R : Redis) : Type 1 where
  pub IsClean : R.Store → Type 0
  pub live : String → R.Store → Option ℕ
  pub ttl_missing : (k : String) (s : R.Store) → IsClean s → live k s ≡ none → R.ttl k s ≡ negsuc 1
  pub ttl_live :
      (k : String) (s : R.Store) (n : ℕ)
      → IsClean s
      → live k s ≡ some n
      → (t : ℕ) × (R.ttl k s ≡ pos t)
  pub get_live :
      (k : String) (s : R.Store) (n : ℕ) → IsClean s → live k s ≡ some n → R.get k s ≡ some (pos n)
  pub set_ex-IsClean :
      (k : String) (n w : ℕ) (s : R.Store) → IsClean s → IsClean (R.set_ex k (pos (suc n)) w s)
  pub live-set_ex_self :
      (k : String) (n w : ℕ) (s : R.Store) → live k (R.set_ex k (pos (suc n)) w s) ≡ some (suc n)
  pub live-set_ex_ne :
      (k j : String) (n w : ℕ) (s : R.Store)
      → k ≢ j
      → live j (R.set_ex k (pos (suc n)) w s) ≡ live j s
  pub incremented : String → R.Store → R.Store
  pub incr_live :
      (k : String) (s : R.Store) (n : ℕ)
      → IsClean s
      → live k s ≡ some n
      → n < largest
      → R.incr k s ≡ ok (pos (n + 1), incremented k s)
  pub incremented-IsClean : (k : String) (s : R.Store) → IsClean s → IsClean (incremented k s)
  pub live-incremented_self :
      (k : String) (s : R.Store) (n : ℕ)
      → live k s ≡ some n
      → live k (incremented k s) ≡ some (n + 1)
  pub live-incremented_ne :
      (k j : String) (s : R.Store) → k ≢ j → live j (incremented k s) ≡ live j s

abbrev counter : ℕ → Option ℕ
counter zero = none
counter (suc n) = some (suc n)

up : (n : ℕ) → some (n + 1) ≡ counter (n + 1)
up n = ground arith

-- Counting an identity moves its count by one, and no other.
count_of-bump_self : (i : String) (c : Counts) → count_of i (bump_count i c) ≡ count_of i c + 1
unfolding count_of bump_count
count_of-bump_self i [] = ground (arith, eq_iff i i)
count_of-bump_self i ((k, n) ∷ c) = ground (arith, count_of-bump_self i c)

count_of-bump_ne : (i j : String) (c : Counts) → i ≢ j → count_of j (bump_count i c) ≡ count_of j c
unfolding count_of bump_count
count_of-bump_ne i j [] ne = ground (arith, eq_iff i j)
count_of-bump_ne i j ((k, n) ∷ c) ne =
    ground (arith, eq_iff k i, eq_iff k j, eq_iff i j, count_of-bump_ne i j c ne)

module _ {R : Redis} (laws : RedisLaws R) (digest : String → String)
    (distinct : (i j : String) → i ≢ j → digest i ≢ digest j) (limit window : ℕ) where
  -- The store has the counts of the limiter in memory.
  pub record Refines (store : R.Store) (counts : Counts) : Type 0 where
    pub clean : laws.IsClean store
    pub same : (i : String) → laws.live (digest i) store ≡ counter (count_of i counts)

  module _ (i : String) (store : R.Store) (counts : Counts) (r : Refines store counts) where
    abbrev key : String
    key = digest i

    abbrev next_counts : Counts
    next_counts = bump_count i counts

    refined :
        (store' : R.Store)
        → laws.IsClean store'
        → laws.live key store' ≡ some (count_of i counts + 1)
        → ((j : String) → i ≢ j → laws.live (digest j) store' ≡ laws.live (digest j) store)
        → Refines store' next_counts
    refined store' clean mine others = record { clean = clean; same = at }
      where
        at : (j : String) → laws.live (digest j) store' ≡ counter (count_of j next_counts)
        at j = elim (Bool-cases (str_eq i j)) [
          | inl hit ↦
              let same : i ≡ j = ground (arith, eq_iff i j) in
              subst (λ k. laws.live (digest k) store' ≡ counter (count_of k next_counts)) same
                (mine ∙ up (count_of i counts) ∙ ap counter (sym (count_of-bump_self i counts)))
          | inr miss ↦
              let ne : i ≢ j = ground (arith, eq_iff i j) in
              others j ne ∙ r.same j ∙ ap counter (sym (count_of-bump_ne i j counts ne))
        ]

    mine : (n : ℕ) → count_of i counts ≡ n → laws.live key store ≡ counter n
    mine n e = r.same i ∙ ap counter e

    -- The count that the script returns, and the store that it leaves.
    Counted : Type 0
    Counted =
        (store' : R.Store) × (increment_with_expiry R key window store
          ≡ ok (pos (count_of i counts + 1), store'))
        × Refines store' next_counts

    first_count : count_of i counts ≡ 0 → Counted
    unfolding increment_with_expiry Counted
    first_count e =
        let missing : laws.live key store ≡ none = mine 0 e in
        let after : R.Store = R.set_ex key (pos 1) window store in
        (
          after,
          rw (laws.ttl_missing key store r.clean missing, e) refl,
          refined after (laws.set_ex-IsClean key 0 window store r.clean)
              (laws.live-set_ex_self key 0 window store ∙ ap (λ n. some (n + 1)) (sym e))
              (λ j ne. laws.live-set_ex_ne key (digest j) 0 window store (distinct i j ne)),
        )

    later_count : (n : ℕ) → count_of i counts ≡ suc n → count_of i counts < largest → Counted
    unfolding increment_with_expiry Counted
    later_count n e small =
        let there : laws.live key store ≡ some (suc n) = mine (suc n) e in
        let (t, ttl) = laws.ttl_live key store (suc n) r.clean there in
        let after : R.Store = laws.incremented key store in
        let step : R.incr key store ≡ ok (pos (suc n + 1), after) =
          laws.incr_live key store (suc n) r.clean there (omega arith) in
        (
          after,
          rw (ttl, laws.get_live key store (suc n) r.clean there, e) step,
          refined after (laws.incremented-IsClean key store r.clean)
              (laws.live-incremented_self key store (suc n) there ∙ ap (λ m. some (m + 1)) (sym e))
              (λ j ne. laws.live-incremented_ne key (digest j) store (distinct i j ne)),
        )

    counted : (n : ℕ) → count_of i counts ≡ n → count_of i counts < largest → Counted
    counted zero e small = first_count e
    counted (suc n) e small = later_count n e small

    in_memory : (allow_in_memory limit i counts ≡ (leb (count_of i counts + 1) limit, next_counts))
    unfolding allow_in_memory
    in_memory = rw (count_of-bump_self i counts) refl

    -- One step of both limiters.
    allow_step :
        count_of i counts < largest
        → (store' : R.Store) × (allow R digest limit window i store
            ≡ ok ((allow_in_memory limit i counts).0, store'))
          × Refines store' (allow_in_memory limit i counts).1
    unfolding allow Counted
    allow_step small =
        let (after, e, kept) = counted (count_of i counts) refl small in
        (
          after,
          ap (judged R limit) e
              ∙ judged_lem (count_of i counts) after small
              ∙ ap (λ p. ok (p.0, after)) (sym in_memory),
          subst (λ p. Refines after p.1) (sym in_memory) kept,
        )
      where
        judged_suc :
            (m : ℕ) (s : R.Store)
            → suc m ≤ largest
            → judged R limit (ok (pos (suc m), s)) ≡ ok (leb (suc m) limit, s)
        judged_suc m s h = let fits : leb (suc m) largest ≡ true = ground arith in rw fits refl

        judged_lem :
            (m : ℕ) (s : R.Store)
            → m < largest
            → judged R limit (ok (pos (m + 1), s)) ≡ ok (leb (m + 1) limit, s)
        judged_lem m s h =
            subst (λ n. judged R limit (ok (pos n, s)) ≡ ok (leb n limit, s)) (omega arith)
              (judged_suc m s (omega arith))

  -- A sequence of registrations.
  abbrev pub allow_all : List String → R.Store → Result (List Bool × R.Store)
  allow_all [] store = ok ([], store)
  allow_all (i ∷ ids) store = allow R digest limit window i store >>= λ first.
      allow_all ids first.1 >>= λ rest. ok (first.0 ∷ rest.0, rest.1)

  abbrev pub allow_all_in_memory : List String → Counts → List Bool × Counts
  allow_all_in_memory [] counts = ([], counts)
  allow_all_in_memory (i ∷ ids) counts =
      let (first, next) = allow_in_memory limit i counts in
      let (rest, last) = allow_all_in_memory ids next in (first ∷ rest, last)

  bounded_after :
      (i j : String) (counts : Counts)
      → count_of j (allow_in_memory limit i counts).1 ≤ count_of j counts + 1
  unfolding allow_in_memory
  bounded_after i j counts = elim (Bool-cases (str_eq i j)) [
    | inl hit ↦
        let same : i ≡ j = ground (arith, eq_iff i j) in
        subst (λ k. count_of k (bump_count i counts) ≤ count_of k counts + 1) same
          (omega (arith, count_of-bump_self i counts))
    | inr miss ↦ omega (arith, count_of-bump_ne i j counts (ground (arith, eq_iff i j)))
  ]

  -- Within one window of a Redis server that behaves as documented, for identities with distinct
  -- keys and counts that stay in range, the Redis limiter answers a sequence of registrations
  -- without an error, with the answers of the limiter in memory, and the two agree on every count
  -- again afterwards. At the start the store has the counts of the limiter in memory.
  pub allow_all-Refines :
      (ids : List String) (store : R.Store) (counts : Counts)
      → Refines store counts
      → ((i : String) → count_of i counts + length ids ≤ largest)
      → (store' : R.Store) × (allow_all ids store ≡ ok ((allow_all_in_memory ids counts).0, store'))
        × Refines store' (allow_all_in_memory ids counts).1
  allow_all-Refines [] store counts r small = (store, refl, r)
  allow_all-Refines (i ∷ ids) store counts r small =
      let (mid, e, r1) = allow_step i store counts r (omega (arith, small i)) in
      let (last, e2, r2) =
        allow_all-Refines ids mid (allow_in_memory limit i counts).1 r1
          (λ j. omega (arith, small j, bounded_after i j counts)) in
      (last, rw (e, e2) refl, r2)
