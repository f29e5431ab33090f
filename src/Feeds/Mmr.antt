-- ===== src/Feeds/Mmr.antt =====
-- `_cosine` and `mmr_rank` (apps/api/app/feeds/ranking.py).
use microlens_recsys_mvp.Prelude.{
  ℕ, zero, suc, ◌+◌, String, Bool, true, false, ◌&&◌, ◌||◌, Option, none, some, List, [], ◌∷◌, ◌++◌,
  map, ◌==◌, length, ltb, str_eq, if◌then◌else◌, value_error, lookup_error, other_error, Result, ok,
  guard, require, ◌>>=◌, ◌>>◌,
}
use microlens_recsys_mvp.Prelude.Floats.{Floats}
use microlens_recsys_mvp.Feeds.Candidates.{RankedCandidate, MmrStep, str_lt, greatest, min_max}

module _ (F : Floats) where
  open F use {Float, of_int, add, sub, mul, div, square, sqrt}

  abbrev dot_from : Float → List Float → List Float → Float
  dot_from total [] _ = total
  dot_from total (a ∷ left) [] = total
  dot_from total (a ∷ left) (b ∷ right) = dot_from (add total (mul a b)) left right

  abbrev pub squares_from : Float → List Float → Result Float
  squares_from total [] = ok total
  squares_from total (a ∷ left) = do
    s ← require (square a) (other_error "OverflowError")
    squares_from (add total s) left

  abbrev at_least_zero : Float → Float
  at_least_zero v = if F.lt (of_int 0) v then v else of_int 0

  unfoldable pub cosine : List Float → List Float → Result Float
  cosine left right = do
    guard (length left == length right && ltb 0 (length left))
        (value_error "MMR vectors must have the same non-zero dimension")
    left_squares ← squares_from (of_int 0) left
    right_squares ← squares_from (of_int 0) right
    let left_norm = sqrt left_squares
    let right_norm = sqrt right_squares
    if F.eq left_norm (of_int 0) || F.eq right_norm (of_int 0)
        then ok (of_int 0)
        else ok (at_least_zero (div (dot_from (of_int 0) left right) (mul left_norm right_norm)))

  -- `max(similarities, default=0.0)`
  abbrev pub max_or_zero : List Float → Float
  max_or_zero [] = of_int 0
  max_or_zero (v ∷ vs) = greatest F v vs

  -- `normalized[item_id]`: the last entry of a dict from equal keys.
  abbrev pub or_last : Option Float → Bool → Float → Option Float
  or_last (some w) _ v = some w
  or_last none true v = some v
  or_last none false v = none

  abbrev pub score_of : String → List (String × Float) → Option Float
  score_of i [] = none
  score_of i ((j, v) ∷ rest) = or_last (score_of i rest) (str_eq j i) v

  pub record Evaluated : Type 0 where
    pub mmr_score : Float
    pub candidate : RankedCandidate F
    pub max_similarity : Float
    pub fallback_reason : Option String

  -- `min` by (-score, rank, item id) keeps the first of equal entries.
  abbrev pub before : Evaluated → Evaluated → Bool
  before a b =
      if F.eq a.mmr_score b.mmr_score
      then (ltb (a.candidate).original_rank (b.candidate).original_rank
          || ((a.candidate).original_rank == (b.candidate).original_rank
              && str_lt (a.candidate).item_id (b.candidate).item_id))
      else F.lt b.mmr_score a.mmr_score

  -- The place of the entry that `min` chooses: it reads from the left.
  abbrev pub best_at : (place chosen : ℕ) → Evaluated → List Evaluated → ℕ
  best_at place chosen best [] = chosen
  best_at place chosen best (e ∷ es) =
      let moved = best_at (place + 1) place e es in
      let stayed = best_at (place + 1) chosen best es in if before e best then moved else stayed

  -- The entry at a place, and the others in their order: `remaining.remove(chosen)`.
  abbrev pub pick : ℕ → Evaluated → List Evaluated → Evaluated × List Evaluated
  pick zero e es = (e, es)
  pick (suc i) e [] = (e, [])
  pick (suc i) e (f ∷ fs) = let (chosen, rest) = pick i f fs in (chosen, e ∷ rest)

  abbrev pub choose : Evaluated → List Evaluated → Evaluated × List Evaluated
  choose e es = pick (best_at 1 0 e es) e es

  module _ (vectors : String → Option (List Float)) (lambda_value : Float)
      (normalized : List (String × Float)) where
    abbrev pub similarity :
        List Float → Option (List Float) → Result (List Float) → Result (List Float)
    similarity vector none rest = rest
    similarity vector (some other) rest = do s ← cosine vector other; values ← rest; ok (s ∷ values)

    abbrev pub similarities : List Float → List (RankedCandidate F) → Result (List Float)
    similarities vector [] = ok []
    similarities vector (c ∷ selected) =
        similarity vector (vectors c.item_id) (similarities vector selected)

    abbrev pub evaluate_vector :
        RankedCandidate F → List (RankedCandidate F) → Option (List Float) → Result Evaluated
    evaluate_vector c selected none = ok (record {
      mmr_score = c.score;
      candidate = c;
      max_similarity = of_int 0;
      fallback_reason = some "missing_title_vector_original_score";
    })
    evaluate_vector c selected (some vector) = do
      values ← similarities vector selected
      relevance ← require (score_of c.item_id normalized) (lookup_error "normalized")
      let highest = max_or_zero values
      ok (record {
        mmr_score = sub (mul lambda_value relevance) (mul (sub (of_int 1) lambda_value) highest);
        candidate = c;
        max_similarity = highest;
        fallback_reason = none;
      })

    abbrev pub evaluate_all :
        List (RankedCandidate F) → List (RankedCandidate F) → Result (List Evaluated)
    evaluate_all selected [] = ok []
    evaluate_all selected (c ∷ remaining) = do
      e ← evaluate_vector c selected (vectors c.item_id)
      rest ← evaluate_all selected remaining
      ok (e ∷ rest)

    abbrev pub step_of : Evaluated → ℕ → Float → MmrStep F
    step_of e index relevance = record {
      item_id = (e.candidate).item_id;
      selection_index = index;
      normalized_relevance = relevance;
      max_similarity = e.max_similarity;
      mmr_score = e.mmr_score;
      fallback_reason = e.fallback_reason;
    }

    abbrev pub Ranking : Type 0
    Ranking = List (RankedCandidate F) × List (MmrStep F)

    -- One turn of the loop, with the turns that follow it.
    abbrev pub turn :
        (List (RankedCandidate F) → List (RankedCandidate F) → Result Ranking)
        → List (RankedCandidate F)
        → List Evaluated
        → Result Ranking
    turn next selected [] = ok ([], [])
    turn next selected (e ∷ es) = do
      let (chosen, rest) = choose e es
      relevance ←
          require (score_of (chosen.candidate).item_id normalized) (lookup_error "normalized")
      later ← next (selected ++ chosen.candidate ∷ []) (map Evaluated.candidate rest)
      ok (chosen.candidate ∷ later.0, step_of chosen (length selected) relevance ∷ later.1)

    -- The loop, on as much fuel as candidates remain; `selected` is in the order of selection.
    unfoldable pub mmr_loop :
        ℕ → List (RankedCandidate F) → List (RankedCandidate F) → Result Ranking
    unfolding cosine
    mmr_loop zero selected remaining = ok ([], [])
    mmr_loop (suc fuel) selected remaining = do
      evaluated ← evaluate_all selected remaining
      turn (mmr_loop fuel) selected evaluated

  abbrev pub zip_scores : List (RankedCandidate F) → List Float → List (String × Float)
  zip_scores [] values = []
  zip_scores (c ∷ candidates) [] = []
  zip_scores (c ∷ candidates) (v ∷ values) = (c.item_id, v) ∷ zip_scores candidates values

  unfoldable pub mmr_rank :
      List (RankedCandidate F)
      → (vectors : String → Option (List Float)) → (lambda_value : Float)
      → Result (List (RankedCandidate F) × List (MmrStep F))
  unfolding min_max mmr_loop
  mmr_rank candidates vectors lambda_value = do
    guard (F.le (of_int 0) lambda_value && F.le lambda_value (of_int 1))
        (value_error "MMR lambda must be between zero and one")
    scores ← min_max F (map RankedCandidate.score candidates)
    mmr_loop vectors lambda_value (zip_scores candidates scores) (length candidates) [] candidates
