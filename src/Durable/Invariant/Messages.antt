-- ===== src/Durable/Invariant/Messages.antt =====
-- The messages stay well formed when one is added and when rows are written back.
use microlens_recsys_mvp.Prelude.{
  ℕ, ◌+◌, ◌≤◌, true, false, ◌||◌, ◌≡◌, refl, sym, ap, ◌∙◌, subst, inl, inr, none, some, List, [],
  ◌∷◌, ◌++◌, map, ◌==◌, ==→eq, All, All-map, All-append, Bool-cases, arith,
}
use microlens_recsys_mvp.Prelude.Table.{
  find, replace, key-find, find-All, find-replace_self, find-replace_ne, IsKeyed-find,
  append-IsKeyed, replace-IsKeyed, replace-All,
}
use microlens_recsys_mvp.Durable.Rows.{
  OutboxKey, OutboxPayload, OutboxRow, find_outbox, has_key, key_eq, new_outbox,
}
use microlens_recsys_mvp.Durable.Invariant.{UniqueKeys, OutboxOk, delivery_shape}
use microlens_recsys_mvp.Durable.Invariant.Keys.{key_eq→eq, key_eq_refl}

has_key-append :
    (k : OutboxKey) (rows : List OutboxRow) (o : OutboxRow)
    → has_key k rows ≡ false
    → key_eq o.idempotency_key k ≡ false
    → has_key k (rows ++ o ∷ []) ≡ false
unfolding has_key
has_key-append k [] o h e = rw e refl
has_key-append k (r ∷ rows) o h e =
    let miss : key_eq r.idempotency_key k ≡ false = ground arith in
    rw miss (has_key-append k rows o (rw miss at h) e)

UniqueKeys-append :
    (rows : List OutboxRow) (o : OutboxRow)
    → UniqueKeys rows
    → has_key o.idempotency_key rows ≡ false
    → UniqueKeys (rows ++ o ∷ [])
unfolding has_key
UniqueKeys-append [] o h e = (refl, tt)
UniqueKeys-append (r ∷ rows) o h e =
    let miss : key_eq r.idempotency_key o.idempotency_key ≡ false = ground arith in
    (
      has_key-append r.idempotency_key rows o h.0
          (key_eq-flip r.idempotency_key o.idempotency_key miss),
      UniqueKeys-append rows o h.1 (rw miss at e),
    )
  where
    key_eq-flip : (a b : OutboxKey) → key_eq a b ≡ false → key_eq b a ≡ false
    key_eq-flip a b h = elim (Bool-cases (key_eq b a)) [
      | inl same ↦
          let (x, y, z) = key_eq→eq b a same in
          let whole : b ≡ a = λ i. record { job_id = x i; state = y i; count = z i } in
          absurd (cc (h, ap (λ k. key_eq k b) (sym whole), key_eq_refl b))
      | inr other ↦ other
    ]

new-none :
    (last : ℕ) (rows : List OutboxRow)
    → All (λ (o : OutboxRow). o.outbox_id ≤ last) rows
    → find_outbox (last + 1) rows ≡ none
unfolding find
new-none last [] h = refl
new-none last (o ∷ rows) h =
    let below : o.outbox_id ≤ last = h.0 in
    let miss : (o.outbox_id == (last + 1)) ≡ false = ground arith in
    rw miss (new-none last rows h.1)

-- A new message, with a key that is not in the table.
pub new-OutboxOk :
    (key : OutboxKey) (payload : OutboxPayload) (now last : ℕ) (rows : List OutboxRow)
    → OutboxOk rows last
    → has_key key rows ≡ false
    → OutboxOk (rows ++ new_outbox (last + 1) key payload now ∷ []) (last + 1)
new-OutboxOk key payload now last rows h fresh = record {
  ids = append-IsKeyed OutboxRow.outbox_id rows _ (new-none last rows h.below) h.ids;
  below = All-append _ rows (_ ∷ []) (All-map (λ o b. omega arith) rows h.below) (omega arith, tt);
  unique = UniqueKeys-append rows _ h.unique fresh;
  shapes = All-append _ rows (_ ∷ []) h.shapes (refl, tt);
}

-- The table has the message's id, with the message's key.
pub record IsKnown (rows : List OutboxRow) (o : OutboxRow) : Type 0 where
  pub row : OutboxRow
  pub found : find_outbox o.outbox_id rows ≡ some row
  pub same_key : row.idempotency_key ≡ o.idempotency_key

has_key-replace :
    (k : OutboxKey) (new : OutboxRow) (rows : List OutboxRow)
    → All
        (λ (o : OutboxRow). o.outbox_id ≡ new.outbox_id → o.idempotency_key ≡ new.idempotency_key)
        rows
    → has_key k (replace OutboxRow.outbox_id new rows) ≡ has_key k rows
unfolding has_key replace
has_key-replace k new [] h = refl
has_key-replace k new (o ∷ rows) h = elim (Bool-cases (o.outbox_id == new.outbox_id)) [
  | inl hit ↦
      let same : o.idempotency_key ≡ new.idempotency_key = h.0 (==→eq _ _ hit) in
      rw hit (
        ap (λ i. key_eq i k || has_key k (replace OutboxRow.outbox_id new rows)) (sym same)
        ∙ ap (λ b. key_eq o.idempotency_key k || b) (has_key-replace k new rows h.1))
  | inr miss ↦ rw miss (ap (λ b. key_eq o.idempotency_key k || b) (has_key-replace k new rows h.1))
]

UniqueKeys-replace :
    (new : OutboxRow) (rows : List OutboxRow)
    → All
        (λ (o : OutboxRow). o.outbox_id ≡ new.outbox_id → o.idempotency_key ≡ new.idempotency_key)
        rows
    → UniqueKeys rows
    → UniqueKeys (replace OutboxRow.outbox_id new rows)
unfolding replace
UniqueKeys-replace new [] h u = tt
UniqueKeys-replace new (o ∷ rows) h u = elim (Bool-cases (o.outbox_id == new.outbox_id)) [
  | inl hit ↦
      let same : o.idempotency_key ≡ new.idempotency_key = h.0 (==→eq _ _ hit) in
      rw hit (
        has_key-replace new.idempotency_key new rows h.1
            ∙ subst (λ k. has_key k rows ≡ false) same u.0,
        UniqueKeys-replace new rows h.1 u.1,
      )
  | inr miss ↦
      rw miss
        (has_key-replace o.idempotency_key new rows h.1 ∙ u.0, UniqueKeys-replace new rows h.1 u.1)
]

-- A message is written back in the shape of its status, with the key that it has in the table.
pub replace-OutboxOk :
    (new : OutboxRow) (rows : List OutboxRow) (last : ℕ)
    → OutboxOk rows last
    → IsKnown rows new
    → delivery_shape new ≡ true
    → OutboxOk (replace OutboxRow.outbox_id new rows) last
replace-OutboxOk new rows last h known shape =
    let same : All
        (λ (o : OutboxRow). o.outbox_id ≡ new.outbox_id → o.idempotency_key ≡ new.idempotency_key)
        rows =
      All-map
        (λ o f at.
          let row : o ≡ known.row = cc (f, known.found, ap (λ k. find_outbox k rows) at) in
          ap OutboxRow.idempotency_key row ∙ known.same_key)
        rows (IsKeyed-find OutboxRow.outbox_id rows h.ids) in
    record {
      ids = replace-IsKeyed OutboxRow.outbox_id new rows h.ids;
      below =
          replace-All OutboxRow.outbox_id (λ (o : OutboxRow). o.outbox_id ≤ last) new rows
            (subst (λ k. k ≤ last)
              (key-find OutboxRow.outbox_id new.outbox_id rows known.row known.found)
              (find-All OutboxRow.outbox_id (λ (o : OutboxRow). o.outbox_id ≤ last) new.outbox_id
                rows known.row h.below known.found))
            h.below;
      unique = UniqueKeys-replace new rows same h.unique;
      shapes =
          replace-All OutboxRow.outbox_id (λ o. delivery_shape o ≡ true) new rows shape h.shapes;
    }

-- Once written back, a message is known, and so is every other that was.
pub replace-IsKnown :
    (new : OutboxRow) (rows : List OutboxRow) (o : OutboxRow)
    → IsKnown rows new
    → IsKnown rows o
    → IsKnown (replace OutboxRow.outbox_id new rows) o
replace-IsKnown new rows o known h = elim (Bool-cases (new.outbox_id == o.outbox_id)) [
  | inl hit ↦
      let at : new.outbox_id ≡ o.outbox_id = ==→eq _ _ hit in
      let row : known.row ≡ h.row = cc (known.found, h.found, ap (λ k. find_outbox k rows) at) in
      record {
        row = new;
        found = find-replace_self OutboxRow.outbox_id o.outbox_id new h.row rows h.found at;
        same_key = sym known.same_key ∙ ap OutboxRow.idempotency_key row ∙ h.same_key;
      }
  | inr miss ↦ record {
    row = h.row;
    found = find-replace_ne OutboxRow.outbox_id o.outbox_id new rows (λ q. ground arith) ∙ h.found;
    same_key = h.same_key;
  }
]

-- Every message at once, each with its id, its key and a shape that fits.
module _ (f : OutboxRow → OutboxRow) (same_id : (o : OutboxRow) → (f o).outbox_id ≡ o.outbox_id)
    (same_key : (o : OutboxRow) → (f o).idempotency_key ≡ o.idempotency_key)
    (shaped : (o : OutboxRow) → delivery_shape o ≡ true → delivery_shape (f o) ≡ true) where
  find-map-none :
      (k : ℕ) (rows : List OutboxRow)
      → find_outbox k rows ≡ none
      → find_outbox k (map f rows) ≡ none
  unfolding find
  find-map-none k [] h = refl
  find-map-none k (o ∷ rows) h =
      let miss : (o.outbox_id == k) ≡ false = ground arith in
      rw (same_id o, miss) (find-map-none k rows (rw miss at h))

  has_key-map : (k : OutboxKey) (rows : List OutboxRow) → has_key k (map f rows) ≡ has_key k rows
  unfolding has_key
  has_key-map k [] = refl
  has_key-map k (o ∷ rows) = rw (same_key o, has_key-map k rows) refl

  pub map-OutboxOk :
      (rows : List OutboxRow) (last : ℕ) → OutboxOk rows last → OutboxOk (map f rows) last
  map-OutboxOk [] last h = record { ids = tt; below = tt; unique = tt; shapes = tt }
  map-OutboxOk (o ∷ rows) last h =
      let rest : OutboxOk (map f rows) last =
        map-OutboxOk rows last
          (record { ids = h.ids.1; below = h.below.1; unique = h.unique.1; shapes = h.shapes.1 }) in
      record {
        ids = (
          subst (λ k. find_outbox k (map f rows) ≡ none) (sym (same_id o))
              (find-map-none o.outbox_id rows h.ids.0),
          rest.ids,
        );
        below = (subst (λ k. k ≤ last) (sym (same_id o)) h.below.0, rest.below);
        unique = (
          has_key-map (f o).idempotency_key rows
              ∙ subst (λ k. has_key k rows ≡ false) (sym (same_key o)) h.unique.0,
          rest.unique,
        );
        shapes = (shaped o h.shapes.0, rest.shapes);
      }
