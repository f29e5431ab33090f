-- ===== src/Operations/Promotions.antt =====
-- `OperationService.active_promotions` (apps/api/app/operations/service.py).
use microlens_recsys_mvp.Prelude.{
  ℕ, String, Bool, true, false, ◌&&◌, ◌||◌, Option, none, some, List, ◌==◌, ltb, leb, select,
  str_eq,
}
use microlens_recsys_mvp.Prelude.Sorting.{sort_by}
use microlens_recsys_mvp.Operations.Rows.{
  ScopeType, all, user, feed, Item, PromotionRule, OperationsDb, find_item, is_online,
}

abbrev pub same_text : Option String → Option String → Bool
same_text none _ = false
same_text (some a) none = false
same_text (some a) (some b) = str_eq a b

-- The scopes of the query: a feed by its name, a user by the text of the id.
abbrev pub in_scope : Option String → Option String → PromotionRule → ScopeType → Bool
in_scope user_text feed_name rule all = true
in_scope user_text feed_name rule user = same_text user_text rule.scope_value
in_scope user_text feed_name rule feed = same_text feed_name rule.scope_value

abbrev pub not_ended : Option ℕ → ℕ → Bool
not_ended none now = true
not_ended (some end) now = ltb now end

abbrev pub item_online : Option Item → Bool
item_online none = false
item_online (some item) = is_online item.online_status

abbrev pub is_active : Option String → Option String → ℕ → List Item → PromotionRule → Bool
is_active user_text feed_name now items rule =
    (item_online (find_item rule.item_id items) && leb rule.starts_at now)
    && (not_ended rule.ends_at now && in_scope user_text feed_name rule rule.scope_type)

abbrev pub position_before : Option ℕ → Option ℕ → Bool
position_before none _ = false
position_before (some p) none = true
position_before (some p) (some q) = ltb p q

abbrev pub same_position : Option ℕ → Option ℕ → Bool
same_position none none = true
same_position none (some q) = false
same_position (some p) none = false
same_position (some p) (some q) = p == q

-- ORDER BY priority DESC, target_position ASC NULLS LAST, id.
abbrev pub promotion_order : PromotionRule → PromotionRule → Bool
promotion_order a b =
    ltb b.priority a.priority
    || (a.priority == b.priority
        && (position_before a.target_position b.target_position
            || (same_position a.target_position b.target_position && leb a.rule_id b.rule_id)))

unfoldable pub active_promotions :
    (user_text feed_name : Option String) → ℕ → OperationsDb → List PromotionRule
unfolding sort_by
active_promotions user_text feed_name now db =
    sort_by promotion_order (select (is_active user_text feed_name now db.items) db.promotions)
