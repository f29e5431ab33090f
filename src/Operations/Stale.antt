-- ===== src/Operations/Stale.antt =====
-- The versions of the targets of a scheduled batch (apps/api/app/operations/service.py).
use microlens_recsys_mvp.Prelude.{
  ℕ, String, Bool, true, false, ◌≡◌, ◌⊎◌, refl, sym, subst, inl, inr, some, List, [], ◌∷◌, All,
  All-unselect, select, Bool-cases, if◌then◌else◌, Error, Result, ok, err, guard, >>=-eq-ok, arith,
}
use microlens_recsys_mvp.Prelude.Table.{IsKeyed, key-find, find-All, find-replace_self}
use microlens_recsys_mvp.Prelude.Sorting.{All-of-sort_by}
use microlens_recsys_mvp.Operations.Rows.{
  failed, Item, OperationBatch, OperationsDb, find_item, find_batch, write_batch,
}
use microlens_recsys_mvp.Operations.Request.{num_mem}
use microlens_recsys_mvp.Operations.Apply.{lock_items, require_items, changed_item, apply, details}
use microlens_recsys_mvp.Operations.Due.{
  version_of, is_version, unchanged, message_of, started_batch, no_hook, failed_due, attempt_due,
  settle_due,
}
use microlens_recsys_mvp.Operations.Effects.{apply_locked}
use microlens_recsys_mvp.Operations.Atomic.{apply-ok}

abbrev pub expected : OperationBatch → List (ℕ × ℕ)
expected batch = (details batch.result).expected_state_versions

-- The version of the item is the one that the batch was prepared for.
abbrev pub is_fresh : OperationBatch → Item → Bool
is_fresh batch i = is_version (version_of i.item_id (expected batch)) i.state_version

unchanged-All :
    (batch : OperationBatch) (items : List Item)
    → unchanged (expected batch) items ≡ true
    → All (λ i. is_fresh batch i ≡ true) items
unchanged-All batch [] h = tt
unchanged-All batch (i ∷ items) h = (ground arith, unchanged-All batch items (ground arith))

guard-true : (b : Bool) (raised : Error) → guard b raised ≡ ok tt → b ≡ true
guard-true b raised h = ground arith

locked-All :
    (P : Item → Type 0) (targets : List ℕ) (items : List Item)
    → All P (lock_items targets items)
    → All P (select (λ (j : Item). num_mem j.item_id targets) items)
unfolding lock_items
locked-All P targets items h = All-of-sort_by _ P _ h

module _ (missing_text : List ℕ → String) (draw : ℕ → ℕ) where
  -- Where the savepoint of a due batch commits, over items with distinct ids, each target that is
  -- in the table has the version that the batch was prepared for, and has been changed once; every
  -- other item is as it was.
  pub attempt_due-IsFresh :
      (batch : OperationBatch) (now : ℕ) (db : OperationsDb) (done : OperationBatch)
      (db' : OperationsDb)
      → IsKeyed Item.item_id db.items
      → attempt_due missing_text draw batch now db ≡ ok (done, db')
      → (k : ℕ) (i : Item) → find_item k db.items ≡ some i
      → (num_mem k batch.targets ≡ false ⊎ is_fresh batch i ≡ true)
        × (find_item k db'.items
            ≡ some (if num_mem k batch.targets then changed_item batch.operation_type now i else i))
  unfolding attempt_due apply
  attempt_due-IsFresh batch now db done db' keyed e k i at =
      let (_, _, e1) =
        >>=-eq-ok (require_items missing_text batch.targets (lock_items batch.targets db.items)) _
          e in
      let (_, checked, e2) =
        >>=-eq-ok (guard (unchanged (expected batch) (lock_items batch.targets db.items)) _) _ e1 in
      let (db1, looped, _, same) =
        apply-ok draw no_hook (started_batch batch now) now (lock_items batch.targets db.items)
          (write_batch (started_batch batch now) db) done db' e2 in
      (
        fresh _ checked,
        subst
            (λ (d : OperationsDb).
              find_item k d.items
              ≡ some
                  (if num_mem k batch.targets then changed_item batch.operation_type now i else i))
            same
            (apply_locked draw no_hook (started_batch batch now) now batch.targets
              (write_batch (started_batch batch now) db) db1 keyed looped k i at),
      )
    where
      locked_fresh :
          All (λ j. is_fresh batch j ≡ true) (lock_items batch.targets db.items)
          → All
              (λ j. is_fresh batch j ≡ true)
              (select (λ (j : Item). num_mem j.item_id batch.targets) db.items)
      locked_fresh = locked-All (λ j. is_fresh batch j ≡ true) batch.targets db.items

      own : i.item_id ≡ k
      own = key-find Item.item_id k db.items i at

      fresh :
          (raised : Error)
          → guard (unchanged (expected batch) (lock_items batch.targets db.items)) raised ≡ ok tt
          → num_mem k batch.targets ≡ false ⊎ is_fresh batch i ≡ true
      fresh raised g = elim (Bool-cases (num_mem k batch.targets)) [
        | inl target ↦ inr (
            find-All Item.item_id
              (λ (j : Item). num_mem j.item_id batch.targets ≡ true → is_fresh batch j ≡ true) k
              db.items i
              (All-unselect (λ j. is_fresh batch j ≡ true)
                (λ (j : Item). num_mem j.item_id batch.targets) db.items
                (locked_fresh (
                  unchanged-All batch (lock_items batch.targets db.items) (guard-true _ raised g))))
              at (subst (λ l. num_mem l batch.targets ≡ true) (sym own) target))
        | inr other ↦ inl other
      ]

  -- A due batch in the table with a target in the table whose version is not the one that the batch
  -- was prepared for, over items with distinct ids, leaves every item and every promotion rule as
  -- it was, and the row of the batch is marked as failed.
  pub settle_due-stale :
      (batch : OperationBatch) (now : ℕ) (db : OperationsDb) (k : ℕ) (i : Item)
      → IsKeyed Item.item_id db.items
      → find_batch batch.batch_id db.batches ≡ some batch
      → find_item k db.items ≡ some i
      → num_mem k batch.targets ≡ true
      → is_fresh batch i ≡ false
      → let (done, db') =
          settle_due missing_text draw batch now db (attempt_due missing_text draw batch now db) in
        (db'.items ≡ db.items)
        × (db'.promotions ≡ db.promotions)
        × (find_batch batch.batch_id db'.batches ≡ some done)
        × (done.status ≡ failed)
  settle_due-stale batch now db k i keyed row at target stale =
      go (attempt_due missing_text draw batch now db) refl
    where
      go :
          (r : Result (OperationBatch × OperationsDb))
          → attempt_due missing_text draw batch now db ≡ r
          → let (done, db') = settle_due missing_text draw batch now db r in
            (db'.items ≡ db.items)
            × (db'.promotions ≡ db.promotions)
            × (find_batch batch.batch_id db'.batches ≡ some done)
            × (done.status ≡ failed)
      go (ok (done, db')) e =
          absurd (clash ((attempt_due-IsFresh batch now db done db' keyed e k i at).0))
        where
          clash : num_mem k batch.targets ≡ false ⊎ is_fresh batch i ≡ true → ⊥
          clash (inl other) = cc
          clash (inr fresh) = cc
      go (err f) e = (
        refl,
        refl,
        find-replace_self OperationBatch.batch_id batch.batch_id
            (failed_due batch now (message_of f)) batch db.batches row refl,
        refl,
      )
