-- ===== src/Feeds/Tests.antt =====
-- Ranking at concrete candidates.
use microlens_recsys_mvp.Prelude.{
  select, not, is_some, str_mem, true, ℕ, ◌≤◌, length, String, ◌≡◌, refl, Option, All, none, some,
  List, [], ◌∷◌, ◌++◌, pos, ok, str_eq, if◌then◌else◌, arith,
}
use mathlib.Core.List.{Mem, Perm}
use microlens_recsys_mvp.Prelude.Sorting.{sort_by, insert_by}
use microlens_recsys_mvp.Prelude.Samples.{whole}
use microlens_recsys_mvp.Feeds.Candidates.{RankedCandidate, PromotionPlacement, MmrStep, min_max}
use microlens_recsys_mvp.Feeds.Topics.{
  topic_deduplicate, count_topic, at_most, topic_deduplicate-count,
}
use microlens_recsys_mvp.Feeds.Mmr.{mmr_rank, mmr_loop, cosine}
use microlens_recsys_mvp.Feeds.Placement.{marked, natural_rows, apply_promotions}
use microlens_recsys_mvp.Feeds.Fill.{nth}
use microlens_recsys_mvp.Feeds.Slots.{applied, promoted_ids, apply_promotions-first}
use microlens_recsys_mvp.Feeds.Rules.{
  ids, are_distinct, has_rule, promoted_rows, apply_promotions-perm,
}
use microlens_recsys_mvp.Feeds.Returns.{IsVector, mmr_rank_total}

abbrev row : String → ℕ → ℕ → String → RankedCandidate whole
row item_id score rank topic = record {
  item_id = item_id;
  title = item_id;
  cover = none;
  source = "popular";
  sources = "popular" ∷ [];
  raw_score = score;
  normalized_score = score;
  score = score;
  reason = "popular";
  original_rank = rank;
  title_topic = topic;
  promotion_rule_id = none;
}

abbrev a : RankedCandidate whole
a = row "a" 9 0 "cats"

abbrev b : RankedCandidate whole
b = row "b" 7 1 "cats"

abbrev c : RankedCandidate whole
c = row "c" 5 2 "dogs"

abbrev p : RankedCandidate whole
p = row "p" 1 3 "cars"

abbrev natural : List (RankedCandidate whole)
natural = a ∷ b ∷ c ∷ []

abbrev second : PromotionPlacement
second = record {
  rule_id = "r";
  item_id = "p";
  priority = 5;
  target_position = some 1;
  reason = "launch";
}

abbrev catalogue : String → Option (RankedCandidate whole)
catalogue i = if str_eq i "p" then some p else none

apply_promotions-perm_example :
    (rules : List PromotionPlacement) × Perm
      (apply_promotions whole natural (second ∷ []) catalogue)
      (select
          (λ (r : RankedCandidate whole). not (has_rule whole catalogue r.item_id (second ∷ [])))
          natural
        ++ promoted_rows whole catalogue rules)
    × (are_distinct (ids rules) ≡ true)
    × All (λ r. Mem r (second ∷ []) × (is_some (catalogue r.item_id) ≡ true)) rules
    × ((i : String) → str_mem i (ids rules) ≡ has_rule whole catalogue i (second ∷ []))
apply_promotions-perm_example = apply_promotions-perm whole catalogue natural (second ∷ [])

second_applied : applied whole catalogue (second ∷ []) ≡ second ∷ []
unfolding sort_by insert_by
second_applied = refl

second_reached :
    1 ≤ length (natural_rows whole (promoted_ids whole catalogue (second ∷ [])) natural)
unfolding sort_by insert_by
second_reached = omega arith

apply_promotions-first_example :
    nth 1 (apply_promotions whole natural (second ∷ []) catalogue) ≡ some (marked whole second p)
apply_promotions-first_example =
    apply_promotions-first whole catalogue natural (second ∷ []) second [] 1 p second_applied refl
      refl second_reached

topic_deduplicate-count_example :
    (kept : List (RankedCandidate whole)) × (removed : List (RankedCandidate whole))
    × (topic_deduplicate whole natural (pos 1) ≡ ok (kept, removed))
    × Perm (kept ++ removed) natural
    × ((topic : String)
        → count_topic whole topic kept ≡ at_most whole 1 (count_topic whole topic natural))
topic_deduplicate-count_example = topic_deduplicate-count whole natural 0

abbrev no_vectors : String → Option (List ℕ)
no_vectors _ = none

abbrev step : String → ℕ → ℕ → ℕ → MmrStep whole
step item_id index relevance score = record {
  item_id = item_id;
  selection_index = index;
  normalized_relevance = relevance;
  max_similarity = 0;
  mmr_score = score;
  fallback_reason = some "missing_title_vector_original_score";
}

abbrev steps : List (MmrStep whole)
steps = step "a" 0 1 9 ∷ step "b" 1 0 7 ∷ []

ranked : mmr_rank whole (b ∷ a ∷ []) no_vectors 1 ≡ ok (a ∷ b ∷ [], steps)
unfolding mmr_rank mmr_loop min_max cosine
ranked = refl

no_dimension :
    All
      (λ (r : RankedCandidate whole).
        (v : List ℕ) → no_vectors r.item_id ≡ some v → IsVector whole 0 v)
      (b ∷ a ∷ [])
no_dimension = ((λ v h. absurd (cc)), ((λ v h. absurd (cc)), tt))

mmr_rank_total_example :
    (selected : List (RankedCandidate whole)) × (steps : List (MmrStep whole)) × (mmr_rank whole
        (b ∷ a ∷ [])
        no_vectors
        1
      ≡ ok (selected, steps))
    × Perm selected (b ∷ a ∷ [])
mmr_rank_total_example =
    mmr_rank_total whole (b ∷ a ∷ []) no_vectors 1 0 refl refl refl no_dimension
