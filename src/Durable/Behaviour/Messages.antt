-- ===== src/Durable/Behaviour/Messages.antt =====
-- Delivery of the outbox.
use microlens_recsys_mvp.Prelude.{
  ℕ, zero, suc, ◌≤◌, String, Bool, true, false, ◌≡◌, refl, sym, ap, ◌∙◌, some, List, [], ◌∷◌, map,
  length, take, select, ◌+◌, ℤ, pos, negsuc, leb, Bool-cases, inl, inr, ok, err, lease_lost,
  require, >>=-eq-ok, arith,
}
use microlens_recsys_mvp.Prelude.Table.{key-find, replace, find-replace_self}
use microlens_recsys_mvp.Prelude.Sorting.{sort_by}
use microlens_recsys_mvp.Durable.Domain.{DateTime, aware, require_aware, seconds}
use microlens_recsys_mvp.Durable.Rows.{OutboxRow, Db, Held, find_outbox}
use microlens_recsys_mvp.Durable.Repository.Outbox.{
  OutboxClaim, is_published, is_current, published_row, ack_row, ack_outbox, nack_outbox, nack_row,
  due_rows, deliver_each, outbox_bounds, claim_outbox, release_expired, is_due,
}

-- The message with this number has been published.
IsPublished : ℕ → Db → Type 0
IsPublished k db =
    (row : OutboxRow) × (find_outbox k db.outbox ≡ some row) × (is_published row.status ≡ true)

ack_row-IsPublished :
    (row : OutboxRow) (claim : OutboxClaim) (t k : ℕ) (db db' : Db) (b : Bool)
    → find_outbox k db.outbox ≡ some row
    → ack_row row claim t db ≡ ok (b, db')
    → IsPublished k db'
unfolding ack_row IsPublished
ack_row-IsPublished row claim t k db db' b at e = elim (Bool-cases (is_published row.status)) [
  | inl done ↦
      let same : db ≡ db' = ground arith in
      (row, ap (λ (d : Db). find_outbox k d.outbox) (sym same) ∙ at, done)
  | inr waits ↦
      let written : db'.outbox ≡ replace OutboxRow.outbox_id (published_row row t) db.outbox =
        ground arith in
      (
        published_row row t,
        ap (find_outbox k) written
            ∙ find-replace_self OutboxRow.outbox_id k (published_row row t) row db.outbox at
                (key-find OutboxRow.outbox_id k db.outbox row at),
        refl,
      )
]

module _ (k : ℕ) (db : Db) (p : IsPublished k db) (claim : OutboxClaim)
    (same : claim.outbox_id ≡ k) where
  ack_published : (t : ℕ) → ack_outbox claim (aware t) db ≡ ok (false, db)
  unfolding ack_outbox IsPublished ack_row
  ack_published t =
      let (row, at, done) = p in
      let at' : find_outbox claim.outbox_id db.outbox ≡ some row =
        ap (λ i. find_outbox i db.outbox) same ∙ at in
      rw (at', done)

  nack_published :
      (message : String) (t delay : ℕ)
      → nack_outbox claim message (aware t) (pos delay) db
        ≡ err (lease_lost "outbox delivery token is no longer current")
  unfolding nack_outbox IsPublished nack_row
  nack_published message t delay =
      let (row, at, done) = p in
      let at' : find_outbox claim.outbox_id db.outbox ≡ some row =
        ap (λ i. find_outbox i db.outbox) same ∙ at in
      let stale : is_current row claim ≡ false = ground arith in rw (at', stale)

-- Once an acknowledgement has been accepted the message stays published: any claim on it, with any
-- token and at any time, is answered False and changes nothing, and a refusal of it is rejected.
pub published_final :
    (claim other : OutboxClaim) (now : DateTime) (db db' : Db) (b : Bool) (message : String)
    (t delay : ℕ)
    → ack_outbox claim now db ≡ ok (b, db')
    → other.outbox_id ≡ claim.outbox_id
    → (ack_outbox other (aware t) db' ≡ ok (false, db'))
      × (nack_outbox other message (aware t) (pos delay) db'
          ≡ err (lease_lost "outbox delivery token is no longer current"))
unfolding ack_outbox
published_final claim other now db db' b message t delay e same =
    let (t0, _, rest) = >>=-eq-ok (require_aware now _) _ e in
    let (row, at, done) = >>=-eq-ok (require (find_outbox claim.outbox_id db.outbox) _) _ rest in
    let p = ack_row-IsPublished row claim t0 claim.outbox_id db db' b (ground arith) done in
    (
      ack_published claim.outbox_id db' p other same t,
      nack_published claim.outbox_id db' p other same message t delay,
    )

length-take : {A : Type 0} (n : ℕ) (xs : List A) → length (take n xs) ≤ n
length-take zero xs = omega arith
length-take (suc n) [] = omega arith
length-take (suc n) (x ∷ xs) = omega (arith, length-take n xs)

length-deliver_each :
    (token : ℕ → ℕ) (lease_end i : ℕ) (rows : List OutboxRow) (db : Db)
    → length (deliver_each token lease_end i rows db).0 ≡ length rows
unfolding deliver_each
length-deliver_each token lease_end i [] db = refl
length-deliver_each token lease_end i (row ∷ rest) db =
    ap suc (length-deliver_each token lease_end (suc i) rest _)

limit_lem :
    (lease : ℤ) (limit : ℕ) (bounds : ℕ × ℕ)
    → outbox_bounds lease (pos limit) ≡ ok bounds
    → (bounds.1 ≡ limit) × (limit ≤ 1000)
limit_lem (negsuc n) limit bounds e = cc e
limit_lem (pos zero) limit bounds e = cc e
limit_lem (pos (suc n)) zero bounds e = cc e
limit_lem (pos (suc n)) (suc m) bounds e = ground arith

-- A claim of messages returns at most the messages asked for, and where it returns these are never
-- more than 1000.
pub claim_outbox_bounded :
    (token : ℕ → ℕ) (held : Held) (now : DateTime) (lease : ℤ) (limit : ℕ) (db db' : Db)
    (claims : List OutboxClaim)
    → claim_outbox token held now lease (pos limit) db ≡ ok (claims, db')
    → (length claims ≤ limit) × (limit ≤ 1000)
unfolding claim_outbox due_rows
claim_outbox_bounded token held now lease limit db db' claims e =
    let (bounds, b, rest) = >>=-eq-ok (outbox_bounds lease (pos limit)) _ e in
    let (t, _, done) = >>=-eq-ok (require_aware now _) _ rest in
    let rows = map (release_expired held t) db.outbox in
    let due = due_rows held t bounds.1 rows in
    let same : claims
        ≡ (deliver_each token (t + seconds bounds.0) zero due (record db { outbox = rows })).0 =
      ground arith in
    let (n, most) = limit_lem lease limit bounds b in
    (
      omega (
        arith,
        ap length same,
        length-deliver_each token (t + seconds bounds.0) zero due (record db { outbox = rows }),
        length-take bounds.1
            (sort_by (λ a c. leb a.outbox_id c.outbox_id) (select (is_due held t) rows)),
      ),
      most,
    )
