-- ===== src/Durable/Safety/RecoverAll.antt =====
-- The loop of `_recover_expired`.
use microlens_recsys_mvp.Prelude.{
  ℕ, true, ◌≡◌, ◌≢◌, inl, inr, refl, sym, ap, ◌∙◌, some, List, [], ◌∷◌, map, All, All-map,
  All-select, select, ok, >>=-eq-ok, arith,
}
use microlens_recsys_mvp.Prelude.Table.{IsKeyed, find-replace_ne, IsKeyed-find}
use microlens_recsys_mvp.Prelude.Sorting.{All-sort_by}
use microlens_recsys_mvp.Prelude.Keyed.{select-IsKeyed, sort_by-IsKeyed, map-replace, find-none-All}
use microlens_recsys_mvp.Durable.Rows.{AttemptRow, Db, Held, attempt_running, find_attempt}
use microlens_recsys_mvp.Durable.Repository.Recover.{
  is_expired, lease_order, expired_attempts, expire_attempt, recover_attempt, recover_each,
  recover_expired,
}
use microlens_recsys_mvp.Durable.Invariant.{Consistent, SafeDb}
use microlens_recsys_mvp.Durable.Invariant.Finish.{ok-SafeDb}
use microlens_recsys_mvp.Durable.Invariant.Steps.{then-SafeDb}
use microlens_recsys_mvp.Durable.Safety.Recover.{
  stamp, Waiting, recover_attempt-SafeDb, recover_attempt-attempts,
}

-- The other waiting attempts are untouched.
pub still-Waiting :
    (db db' : Db) (now : ℕ) (a : AttemptRow) (rest : List AttemptRow)
    → recover_attempt now a db ≡ ok db'
    → All (λ b. b.attempt_id ≢ a.attempt_id) rest
    → Waiting rest db.attempts
    → Waiting rest db'.attempts
still-Waiting db db' now a [] e others w = tt
still-Waiting db db' now a (b ∷ rest) e others w =
    ((kept ∙ w.0.0, w.0.1), still-Waiting db db' now a rest e others.1 w.1)
  where
    kept : find_attempt b.attempt_id db'.attempts ≡ find_attempt b.attempt_id db.attempts
    kept = elim (recover_attempt-attempts db db' now a e) [
      | inl same ↦ ap (find_attempt b.attempt_id) same
      | inr written ↦
          ap (find_attempt b.attempt_id) written
          ∙ find-replace_ne AttemptRow.attempt_id b.attempt_id (expire_attempt a now) db.attempts
              (λ q. others.0 (sym q))
    ]

recover_attempt-stamps :
    (db db' : Db) (now : ℕ) (a : AttemptRow)
    → Consistent db
    → find_attempt a.attempt_id db.attempts ≡ some a
    → recover_attempt now a db ≡ ok db'
    → map stamp db'.attempts ≡ map stamp db.attempts
recover_attempt-stamps db db' now a c at e = elim (recover_attempt-attempts db db' now a e) [
  | inl same ↦ ap (map stamp) same
  | inr written ↦
      ap (map stamp) written
      ∙ map-replace AttemptRow.attempt_id stamp (expire_attempt a now) a db.attempts
          c.attempts_keyed at refl
]

module _ (now : ℕ) where
  recover_each-SafeDb :
      (rest : List AttemptRow) (db : Db)
      → Consistent db
      → IsKeyed AttemptRow.attempt_id rest
      → Waiting rest db.attempts
      → SafeDb (recover_each now rest db)
  unfolding recover_each
  recover_each-SafeDb [] db c keyed w = ok-SafeDb c
  recover_each-SafeDb (a ∷ rest) db c keyed w =
      then-SafeDb (recover_attempt now a db) (λ db'. recover_each now rest db')
        (recover_attempt-SafeDb db c now a w.0.0 w.0.1)
        λ db' e c'. recover_each-SafeDb rest db' c' keyed.1 (
          still-Waiting db db' now a rest e
            (find-none-All AttemptRow.attempt_id a.attempt_id rest keyed.0) w.1)

  recover_each-stamps :
      (rest : List AttemptRow) (db db' : Db)
      → Consistent db
      → IsKeyed AttemptRow.attempt_id rest
      → Waiting rest db.attempts
      → recover_each now rest db ≡ ok db'
      → map stamp db'.attempts ≡ map stamp db.attempts
  unfolding recover_each
  recover_each-stamps [] db db' c keyed w e =
      ap (λ (d : Db). map stamp d.attempts) (sym (ok-db db db' e))
    where
      ok-db : (a b : Db) → ok a ≡ ok b → a ≡ b
      ok-db a b q = cc
  recover_each-stamps (a ∷ rest) db db' c keyed w e =
      let (mid, first, later) =
        >>=-eq-ok (recover_attempt now a db) (λ db''. recover_each now rest db'') e in
      recover_each-stamps rest mid db'
        ((recover_attempt-SafeDb db c now a w.0.0 w.0.1).kept mid first) keyed.1
        (still-Waiting db mid now a rest first
          (find-none-All AttemptRow.attempt_id a.attempt_id rest keyed.0) w.1)
        later
      ∙ recover_attempt-stamps db mid now a c w.0.0 first

module _ (db : Db) (c : Consistent db) (held : Held) (now : ℕ) where
  pub expired-IsKeyed : IsKeyed AttemptRow.attempt_id (expired_attempts held now db.attempts)
  unfolding expired_attempts
  expired-IsKeyed =
      sort_by-IsKeyed AttemptRow.attempt_id lease_order _
        (select-IsKeyed AttemptRow.attempt_id (is_expired held now) db.attempts c.attempts_keyed)

  pub expired-Waiting : Waiting (expired_attempts held now db.attempts) db.attempts
  unfolding expired_attempts
  expired-Waiting = All-sort_by lease_order _ _ (
      All-map (λ a h. (h.0, runs a h.1)) (select (is_expired held now) db.attempts)
        (All-select _ (is_expired held now) db.attempts
          (IsKeyed-find AttemptRow.attempt_id db.attempts c.attempts_keyed)))
    where
      runs : (a : AttemptRow) → is_expired held now a ≡ true → attempt_running a.status ≡ true
      runs a e = ground arith

  -- Recovery meets no constraint, and leaves the tables consistent.
  pub recover_expired-SafeDb : SafeDb (recover_expired held now db)
  unfolding recover_expired
  recover_expired-SafeDb = recover_each-SafeDb now _ db c expired-IsKeyed expired-Waiting

  -- Recovery adds no attempt and removes none; each keeps its job, its number and its fence.
  pub recover_expired-stamps :
      (db' : Db)
      → recover_expired held now db ≡ ok db'
      → map stamp db'.attempts ≡ map stamp db.attempts
  unfolding recover_expired
  recover_expired-stamps db' e =
      recover_each-stamps now _ db db' c expired-IsKeyed expired-Waiting e
