-- ===== src/Feeds/Candidates.antt =====
-- The candidates (apps/api/app/feeds/domain.py, and the records of ranking.py) and `min_max`.
use Prim.Native.String.{compare}
use Prim.Native.Nat.{Ordering}
use microlens_recsys_mvp.Prelude.{
  ℕ, String, Bool, true, false, ◌&&◌, ◌||◌, not, Option, List, [], ◌∷◌, map, str_eq, if◌then◌else◌,
  value_error, Result, ok, guard, ◌>>◌,
}
use microlens_recsys_mvp.Prelude.Floats.{Floats}

abbrev pub str_lt : String → String → Bool
str_lt a b = elim (compare a b) [ Ordering.lt ↦ true | _ ↦ false ]

pub record PromotionPlacement : Type 0 where
  pub rule_id : String
  pub item_id : String
  pub priority : ℕ
  pub target_position : Option ℕ
  pub reason : String

module _ (F : Floats) where
  open F use {Float, isfinite, of_int, sub, div}

  pub record RecallCandidate : Type 0 where
    pub item_id : String
    pub source : String
    pub raw_score : Float
    pub reason : String

  pub record RankedCandidate : Type 0 where
    pub item_id : String
    pub title : String
    pub cover : Option String
    pub source : String
    pub sources : List String
    pub raw_score : Float
    pub normalized_score : Float
    pub score : Float
    pub reason : String
    pub original_rank : ℕ
    pub title_topic : String
    pub promotion_rule_id : Option String

  pub record MergedScore : Type 0 where
    pub item_id : String
    pub source : String
    pub sources : List String
    pub raw_score : Float
    pub dssm_recall_score : Float
    pub normalized_score : Float
    pub reason : String
    pub original_rank : ℕ

  pub record MmrStep : Type 0 where
    pub item_id : String
    pub selection_index : ℕ
    pub normalized_relevance : Float
    pub max_similarity : Float
    pub mmr_score : Float
    pub fallback_reason : Option String

  -- The constructors, with the checks of `__post_init__`.
  unfoldable pub recall_candidate :
      (item_id source : String) (raw_score : Float) (reason : String) → Result RecallCandidate
  recall_candidate item_id source raw_score reason = do
    guard (not (str_eq item_id "" || str_eq source "" || str_eq reason ""))
        (value_error "recall candidate text fields must be non-empty")
    guard (isfinite raw_score) (value_error "raw_score must be finite")
    ok (record { item_id = item_id; source = source; raw_score = raw_score; reason = reason })

  -- `min(values)` and `max(values)` of a list that is not empty.
  abbrev pub least : Float → List Float → Float
  least best [] = best
  least best (v ∷ vs) = least (if F.lt v best then v else best) vs

  abbrev pub greatest : Float → List Float → Float
  greatest best [] = best
  greatest best (v ∷ vs) = greatest (if F.lt best v then v else best) vs

  abbrev pub all_finite : List Float → Bool
  all_finite [] = true
  all_finite (v ∷ vs) = isfinite v && all_finite vs

  abbrev pub scaled : Float → Float → List Float → List Float
  scaled minimum maximum values =
      if F.eq maximum minimum
      then map (λ _. of_int 1) values
      else map (λ v. div (sub v minimum) (sub maximum minimum)) values

  unfoldable pub min_max : List Float → Result (List Float)
  min_max [] = ok []
  min_max (v ∷ vs) = do
    guard (all_finite (v ∷ vs)) (value_error "normalization values must be finite")
    ok (scaled (least v vs) (greatest v vs) (v ∷ vs))
