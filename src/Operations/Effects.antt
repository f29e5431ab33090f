-- ===== src/Operations/Effects.antt =====
-- What the loop of `_apply` does to the items.
use microlens_recsys_mvp.Prelude.{
  ℕ, ◌+◌, String, Bool, true, ◌≡◌, ◌≢◌, refl, sym, ap, ◌∙◌, subst, inl, inr, Option, some, List, [],
  ◌∷◌, All, All-map, All-both, All-select, All-unselect, Bool-cases, leb, if◌then◌else◌, ok,
  >>=-eq-ok, arith,
}
use microlens_recsys_mvp.Prelude.Table.{
  IsKeyed, key-find, find-replace_self, find-replace_ne, find-All, IsKeyed-find,
}
use microlens_recsys_mvp.Prelude.Sorting.{All-sort_by, All-of-sort_by}
use microlens_recsys_mvp.Prelude.Keyed.{select-IsKeyed, sort_by-IsKeyed, find-none-All}
use microlens_recsys_mvp.Operations.Rows.{
  OnlineStatus, OperationType, promote, offline, restore, Item, OperationBatch, OperationsDb,
  find_item,
}
use microlens_recsys_mvp.Operations.Request.{num_mem}
use microlens_recsys_mvp.Operations.Apply.{lock_items, changed_item, apply_item, apply_items, hook}

id-changed_item :
    (kind : OperationType) (now : ℕ) (i : Item) → (changed_item kind now i).item_id ≡ i.item_id
id-changed_item promote now i = refl
id-changed_item offline now i = refl
id-changed_item restore now i = refl

-- The item after an operation: taken offline, brought online, or left in its state where it is
-- promoted; a change of the state counts its version up, and every operation sets the time.
abbrev pub status_after : OperationType → OnlineStatus → OnlineStatus
status_after promote status = status
status_after offline _ = OnlineStatus.offline
status_after restore _ = OnlineStatus.online

abbrev pub version_after : OperationType → ℕ → ℕ
version_after promote version = version
version_after _ version = version + 1

abbrev pub operated : OperationType → ℕ → Item → Item
operated kind now i = record i {
  online_status = status_after kind i.online_status;
  state_version = version_after kind i.state_version;
  updated_at = now;
}

pub changed_item-operated :
    (kind : OperationType) (now : ℕ) (i : Item) → changed_item kind now i ≡ operated kind now i
changed_item-operated promote now i = refl
changed_item-operated offline now i = refl
changed_item-operated restore now i = refl

module _ (draw : ℕ → ℕ) (before_each : ℕ → Option String) (batch : OperationBatch) (now : ℕ) where
  pub apply_item_self :
      (i : Item) (db : OperationsDb)
      → find_item i.item_id db.items ≡ some i
      → find_item i.item_id (apply_item draw batch now i db).items
        ≡ some (changed_item batch.operation_type now i)
  unfolding apply_item
  apply_item_self i db at =
      find-replace_self Item.item_id i.item_id (changed_item batch.operation_type now i) i db.items
        at (id-changed_item batch.operation_type now i)

  pub apply_item_other :
      (i : Item) (db : OperationsDb) (k : ℕ)
      → i.item_id ≢ k
      → find_item k (apply_item draw batch now i db).items ≡ find_item k db.items
  unfolding apply_item
  apply_item_other i db k other =
      find-replace_ne Item.item_id k (changed_item batch.operation_type now i) db.items
        (λ q. other (sym (id-changed_item batch.operation_type now i) ∙ q))

  -- An item that is not in the loop is left alone.
  pub apply_items_other :
      (items : List Item) (db db' : OperationsDb) (k : ℕ)
      → All (λ (i : Item). i.item_id ≢ k) items
      → apply_items draw before_each batch now items db ≡ ok db'
      → find_item k db'.items ≡ find_item k db.items
  unfolding apply_items
  apply_items_other [] db db' k others e = ground arith
  apply_items_other (i ∷ items) db db' k others e =
      let (_, _, rest) = >>=-eq-ok (hook (before_each i.item_id)) _ e in
      apply_items_other items (apply_item draw batch now i db) db' k others.1 rest
      ∙ apply_item_other i db k others.0

  -- Each item of the loop is changed once.
  pub apply_items_changed :
      (items : List Item) (db db' : OperationsDb)
      → IsKeyed Item.item_id items
      → All (λ (i : Item). find_item i.item_id db.items ≡ some i) items
      → apply_items draw before_each batch now items db ≡ ok db'
      → All
          (λ (i : Item).
            find_item i.item_id db'.items ≡ some (changed_item batch.operation_type now i))
          items
  unfolding apply_items
  apply_items_changed [] db db' keyed at e = tt
  apply_items_changed (i ∷ items) db db' keyed at e =
      let (_, _, rest) = >>=-eq-ok (hook (before_each i.item_id)) _ e in
      let others = find-none-All Item.item_id i.item_id items keyed.0 in
      (
        apply_items_other items (apply_item draw batch now i db) db' i.item_id others rest
            ∙ apply_item_self i db at.0,
        apply_items_changed items (apply_item draw batch now i db) db' keyed.1
            (All-both (λ (j : Item). j.item_id ≢ i.item_id)
              (λ (j : Item). find_item j.item_id db.items ≡ some j)
              (λ (j : Item). find_item j.item_id (apply_item draw batch now i db).items ≡ some j)
              (λ j other found. apply_item_other i db j.item_id (λ q. other (sym q)) ∙ found) items
              others at.1)
            rest,
      )

  pub apply_items-batches :
      (items : List Item) (db db' : OperationsDb)
      → apply_items draw before_each batch now items db ≡ ok db'
      → db'.batches ≡ db.batches
  unfolding apply_items apply_item
  apply_items-batches [] db db' e = ground arith
  apply_items-batches (i ∷ items) db db' e =
      let (_, _, rest) = >>=-eq-ok (hook (before_each i.item_id)) _ e in
      apply_items-batches items (apply_item draw batch now i db) db' rest

  -- Over the items that the batch locks: a target is changed, every other item is left alone.
  pub apply_locked :
      (targets : List ℕ) (db db' : OperationsDb)
      → IsKeyed Item.item_id db.items
      → apply_items draw before_each batch now (lock_items targets db.items) db ≡ ok db'
      → (k : ℕ) (i : Item) → find_item k db.items ≡ some i
      → find_item k db'.items
        ≡ some (if num_mem k targets then changed_item batch.operation_type now i else i)
  unfolding lock_items
  apply_locked targets db db' keyed e k i at = elim (Bool-cases (num_mem k targets)) [
    | inl target ↦ rw target (
        subst (λ l. find_item l db'.items ≡ some (changed_item batch.operation_type now i)) own
          (find-All Item.item_id (λ (j : Item). num_mem j.item_id targets ≡ true → Changed j) k
            db.items i
            (All-unselect Changed (λ (j : Item). num_mem j.item_id targets) db.items
              (All-of-sort_by order Changed _ (
                apply_items_changed (lock_items targets db.items) db db' locked_keyed locked_found
                  e)))
            at (subst (λ l. num_mem l targets ≡ true) (sym own) target)))
    | inr absent ↦ rw absent (
        apply_items_other (lock_items targets db.items) db db' k
          (All-map {Q = λ (j : Item). j.item_id ≢ k}
            (λ j h q. cc (h.1, ap (λ l. num_mem l targets) q, absent)) _ locked)
          e
        ∙ at)
  ]
    where
      order : Item → Item → Bool
      order a b = leb a.item_id b.item_id

      Changed : Item → Type 0
      Changed j = find_item j.item_id db'.items ≡ some (changed_item batch.operation_type now j)

      own : i.item_id ≡ k
      own = key-find Item.item_id k db.items i at

      locked :
          All
            (λ (j : Item).
              (find_item j.item_id db.items ≡ some j) × (num_mem j.item_id targets ≡ true))
            (lock_items targets db.items)
      locked = All-sort_by order _ _ (
          All-select (λ (j : Item). find_item j.item_id db.items ≡ some j) _ db.items
            (IsKeyed-find Item.item_id db.items keyed))

      locked_found :
          All (λ (j : Item). find_item j.item_id db.items ≡ some j) (lock_items targets db.items)
      locked_found = All-map (λ j h. h.0) _ locked

      locked_keyed : IsKeyed Item.item_id (lock_items targets db.items)
      locked_keyed =
          sort_by-IsKeyed Item.item_id order _
            (select-IsKeyed Item.item_id (λ (j : Item). num_mem j.item_id targets) db.items keyed)
