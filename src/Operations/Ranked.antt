-- ===== src/Operations/Ranked.antt =====
-- Which promotions are listed, and in which order.
use mathlib.Core.List.{Mem}
use microlens_recsys_mvp.Prelude.{
  ℕ, ◌≤◌, ◌<◌, String, Bool, true, false, ◌&&◌, ◌||◌, ◌≡◌, ◌⊎◌, refl, ap, ◌∙◌, inl, inr, Option,
  none, some, List, [], ◌∷◌, All, All-map, All-select, All-unselect, select, Bool-cases, eq_iff,
  ◌==◌, ltb, leb, arith,
}
use microlens_recsys_mvp.Prelude.Sorting.{
  IsSorted, sort_by, sort_by-IsSorted, All-Mem, All-sort_by, All-of-sort_by,
}
use microlens_recsys_mvp.Operations.Rows.{
  OnlineStatus, online, offline, ScopeType, all, user, feed, Item, PromotionRule, OperationsDb,
  find_item, is_online,
}
use microlens_recsys_mvp.Operations.Promotions.{
  same_text, in_scope, not_ended, item_online, is_active, position_before, same_position,
  promotion_order, active_promotions,
}

abbrev lexical : ℕ → ℕ → Option ℕ → Option ℕ → ℕ → ℕ → Bool
lexical p q a b i j = ltb q p || (p == q && (position_before a b || (same_position a b && leb i j)))

lexical_total :
    (p q i j : ℕ) (a b : Option ℕ) → lexical p q a b i j ≡ false → lexical q p b a j i ≡ true
lexical_total p q i j none none h = ground arith
lexical_total p q i j none (some n) h = ground arith
lexical_total p q i j (some m) none h = ground arith
lexical_total p q i j (some m) (some n) h = ground arith

lexical_trans :
    (p q r i j k : ℕ) (a b c : Option ℕ)
    → lexical p q a b i j ≡ true
    → lexical q r b c j k ≡ true
    → lexical p r a c i k ≡ true
lexical_trans p q r i j k none none none h l = ground arith
lexical_trans p q r i j k none none (some n) h l = ground arith
lexical_trans p q r i j k none (some m) none h l = ground arith
lexical_trans p q r i j k none (some m) (some n) h l = ground arith
lexical_trans p q r i j k (some o) none none h l = ground arith
lexical_trans p q r i j k (some o) none (some n) h l = ground arith
lexical_trans p q r i j k (some o) (some m) none h l = ground arith
lexical_trans p q r i j k (some o) (some m) (some n) h l = ground arith

-- A rule for everyone, for the user that is given, or for the feed that is given.
abbrev pub InScope : Option String → Option String → PromotionRule → Type 0
InScope user_text feed_name r =
    (r.scope_type ≡ all)
    ⊎ (((r.scope_type ≡ user) × (u : String) × (user_text ≡ some u) × (r.scope_value ≡ some u))
        ⊎ ((r.scope_type ≡ feed) × (f : String) × (feed_name ≡ some f) × (r.scope_value ≡ some f)))

-- The item of the rule is online, and the rule has started, has not ended, and is in scope.
pub record IsOffered (user_text feed_name : Option String) (now : ℕ) (items : List Item)
    (r : PromotionRule) : Type 0 where
  pub item : Item
  pub found : find_item r.item_id items ≡ some item
  pub shown : item.online_status ≡ online
  pub started : r.starts_at ≤ now
  pub not_over : (end : ℕ) → r.ends_at ≡ some end → now < end
  pub scope : InScope user_text feed_name r

item_online-ok :
    (o : Option Item)
    → item_online o ≡ true
    → (i : Item) × (o ≡ some i) × (i.online_status ≡ online)
item_online-ok none h = absurd (cc)
item_online-ok (some i) h = (i, refl, on i.online_status h)
  where
    on : (s : OnlineStatus) → is_online s ≡ true → s ≡ online
    on online h = refl
    on offline h = absurd (cc)

not_ended-ok :
    (o : Option ℕ) (now : ℕ) → not_ended o now ≡ true → (end : ℕ) → o ≡ some end → now < end
not_ended-ok none now h end e = absurd (cc)
not_ended-ok (some t) now h end e = let same : t ≡ end = cc in ground arith

not_ended_conv :
    (o : Option ℕ) (now : ℕ) → ((end : ℕ) → o ≡ some end → now < end) → not_ended o now ≡ true
not_ended_conv none now h = refl
not_ended_conv (some t) now h = let later = h t refl in ground arith

same_text-ok :
    (a b : Option String) → same_text a b ≡ true → (t : String) × (a ≡ some t) × (b ≡ some t)
same_text-ok none b h = absurd (cc)
same_text-ok (some a) none h = absurd (cc)
same_text-ok (some a) (some b) h =
    let same : a ≡ b = (eq_iff a b).0 h in (b, ap (λ t. some t) same, refl)

in_scope-ok :
    (user_text feed_name : Option String) (r : PromotionRule) (s : ScopeType)
    → r.scope_type ≡ s
    → in_scope user_text feed_name r s ≡ true
    → InScope user_text feed_name r
in_scope-ok user_text feed_name r all e h = inl e
in_scope-ok user_text feed_name r user e h =
    let (t, a, b) = same_text-ok user_text r.scope_value h in inr (inl (e, t, a, b))
in_scope-ok user_text feed_name r feed e h =
    let (t, a, b) = same_text-ok feed_name r.scope_value h in inr (inr (e, t, a, b))

in_scope_conv :
    (user_text feed_name : Option String) (r : PromotionRule)
    → InScope user_text feed_name r
    → in_scope user_text feed_name r r.scope_type ≡ true
in_scope_conv user_text feed_name r (inl e) = rw e refl
in_scope_conv user_text feed_name r (inr (inl (e, t, a, b))) = rw (e, a, b) ((eq_iff t t).1 refl)
in_scope_conv user_text feed_name r (inr (inr (e, t, a, b))) = rw (e, a, b) ((eq_iff t t).1 refl)

both_parts : (a b : Bool) → (a && b) ≡ true → (a ≡ true) × (b ≡ true)
both_parts true b h = (refl, h)
both_parts false b h = absurd (cc)

leb→≤ : (a b : ℕ) → leb a b ≡ true → a ≤ b
leb→≤ a b h = ground arith

module _ (user_text feed_name : Option String) (now : ℕ) (items : List Item) where
  active-IsOffered :
      (r : PromotionRule)
      → is_active user_text feed_name now items r ≡ true
      → IsOffered user_text feed_name now items r
  active-IsOffered r h =
      let (front, back) = both_parts _ _ h in
      let (shown, begun) = both_parts _ _ front in
      let (open_, scope) = both_parts _ _ back in
      let (i, found, on) = item_online-ok (find_item r.item_id items) shown in
      record {
        item = i;
        found = found;
        shown = on;
        started = leb→≤ _ _ begun;
        not_over = not_ended-ok r.ends_at now open_;
        scope = in_scope-ok user_text feed_name r r.scope_type refl scope;
      }

  IsOffered-active :
      (r : PromotionRule)
      → IsOffered user_text feed_name now items r
      → is_active user_text feed_name now items r ≡ true
  IsOffered-active r o =
      let on : item_online (find_item r.item_id items) ≡ true =
        ap item_online o.found ∙ ap is_online o.shown in
      let open_ = not_ended_conv r.ends_at now o.not_over in
      let scope = in_scope_conv user_text feed_name r o.scope in
      let begun = o.started in
      let starts : leb r.starts_at now ≡ true = ground arith in rw (on, starts, open_, scope) refl

abbrev pub PositionBefore : Option ℕ → Option ℕ → Type 0
PositionBefore (some p) (some q) = p < q
PositionBefore (some p) none = Unit
PositionBefore none _ = ⊥

-- A higher priority comes first; for one priority a smaller position, any position before none; and
-- then the smaller id.
abbrev pub Precedes : PromotionRule → PromotionRule → Type 0
Precedes a b =
    (b.priority < a.priority)
    ⊎ ((a.priority ≡ b.priority)
        × (PositionBefore a.target_position b.target_position
            ⊎ ((a.target_position ≡ b.target_position) × (a.rule_id ≤ b.rule_id))))

abbrev pub Ordered : List PromotionRule → Type 0
Ordered [] = Unit
Ordered (r ∷ rules) = All (Precedes r) rules × Ordered rules

positions :
    (a b : Option ℕ) (i j : ℕ)
    → (position_before a b || (same_position a b && leb i j)) ≡ true
    → PositionBefore a b ⊎ ((a ≡ b) × (i ≤ j))
positions none none i j h = inr (refl, ground arith)
positions none (some q) i j h = absurd (cc)
positions (some p) none i j h = inl tt
positions (some p) (some q) i j h = elim (Bool-cases (ltb p q)) [
  | inl less ↦ inl (ground arith)
  | inr not_less ↦ let same : p ≡ q = ground arith in inr (ap (λ n. some n) same, ground arith)
]

order-Precedes : (a b : PromotionRule) → promotion_order a b ≡ true → Precedes a b
order-Precedes a b h = elim (Bool-cases (ltb b.priority a.priority)) [
  | inl higher ↦ inl (ground arith)
  | inr lower ↦ inr (
    ground arith,
    positions a.target_position b.target_position a.rule_id b.rule_id (ground arith),
  )
]

sorted-Ordered : (rules : List PromotionRule) → IsSorted promotion_order rules → Ordered rules
sorted-Ordered [] h = tt
sorted-Ordered (r ∷ rules) h = (All-map (order-Precedes r) rules h.0, sorted-Ordered rules h.1)

-- The promotions that are listed are rules of the table that are offered: of an online item,
-- started, not ended, and for everyone, this user or this feed. Every such rule is listed, and they
-- are listed by falling priority, then by rising position, the rules with no position last, then by
-- id.
pub active_promotions-IsSorted :
    (user_text feed_name : Option String) (now : ℕ) (db : OperationsDb)
    → Ordered (active_promotions user_text feed_name now db)
      × All
          (λ r. Mem r db.promotions × IsOffered user_text feed_name now db.items r)
          (active_promotions user_text feed_name now db)
      × All
          (λ r.
            IsOffered user_text feed_name now db.items r
            → Mem r (active_promotions user_text feed_name now db))
          db.promotions
unfolding active_promotions
active_promotions-IsSorted user_text feed_name now db =
    let test = is_active user_text feed_name now db.items in
    let chosen = select test db.promotions in
    (
      sorted-Ordered _ (
          sort_by-IsSorted promotion_order
            (λ x y.
              lexical_total x.priority y.priority x.rule_id y.rule_id x.target_position
                y.target_position)
            (λ x y z.
              lexical_trans x.priority y.priority z.priority x.rule_id y.rule_id z.rule_id
                x.target_position y.target_position z.target_position)
            chosen),
      All-sort_by promotion_order _ _ (
          All-map (λ r h. (h.0, active-IsOffered user_text feed_name now db.items r h.1)) chosen
            (All-select (λ r. Mem r db.promotions) test db.promotions (All-Mem db.promotions))),
      All-map (λ r h offered. h (IsOffered-active user_text feed_name now db.items r offered))
          db.promotions
          (All-unselect (λ r. Mem r (sort_by promotion_order chosen)) test db.promotions
            (All-of-sort_by promotion_order (λ r. Mem r (sort_by promotion_order chosen)) chosen
              (All-Mem (sort_by promotion_order chosen)))),
    )
