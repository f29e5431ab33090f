-- ===== src/Feeds/Merge.antt =====
-- `merge_recall` (apps/api/app/feeds/ranking.py).
use Prim.Native.String.{◌++◌ as str_append}
use microlens_recsys_mvp.Prelude.{
  ℕ, ◌+◌, ◌-◌, String, Bool, not, Option, none, some, List, [], ◌∷◌, ◌++◌, map, length, select,
  str_mem, str_eq, if◌then◌else◌, Result, ok, ◌>>=◌,
}
use microlens_recsys_mvp.Prelude.Sorting.{sort_by}
use microlens_recsys_mvp.Prelude.Floats.{Floats}
use microlens_recsys_mvp.Feeds.Candidates.{RecallCandidate, MergedScore, str_lt, greatest, min_max}

abbrev str_le : String → String → Bool
str_le a b = not (str_lt b a)

-- The values in the order of their first places, each once: the keys of a dict.
abbrev pub distinct : List String → List String → List String
distinct seen [] = []
distinct seen (x ∷ xs) =
    let rest = distinct seen xs in
    let more = distinct (x ∷ seen) xs in if str_mem x seen then rest else x ∷ more

-- `"; ".join(…)`
abbrev join : List String → String
join [] = ""
join (x ∷ []) = x
join (x ∷ y ∷ ys) = str_append x (str_append "; " (join (y ∷ ys)))

abbrev zip {ℓ κ} : {A : Type ℓ} {B : Type κ} → List A → List B → List (A × B)
zip [] ys = []
zip (x ∷ xs) [] = []
zip (x ∷ xs) (y ∷ ys) = (x, y) ∷ zip xs ys

module _ (F : Floats) where
  open F use {Float, of_int, of_decimal, add, mul}

  abbrev Row : Type 0
  Row = RecallCandidate F × Float

  -- The keys of the sorts: a later key is read where the earlier ones are equal.
  abbrev recall_order : RecallCandidate F → RecallCandidate F → Bool
  recall_order a b =
      if F.eq a.raw_score b.raw_score
      then str_le a.item_id b.item_id
      else not (F.lt a.raw_score b.raw_score)

  abbrev row_order : Row → Row → Bool
  row_order (a, na) (b, nb) =
      if F.eq na nb
      then (if F.eq a.raw_score b.raw_score
          then str_le a.source b.source
          else not (F.lt a.raw_score b.raw_score))
      else not (F.lt na nb)

  abbrev source_order : Row → Row → Bool
  source_order (a, _) (b, _) = str_le a.source b.source

  abbrev merged_order : MergedScore F → MergedScore F → Bool
  merged_order a b =
      if F.eq a.normalized_score b.normalized_score
      then (if F.eq a.raw_score b.raw_score
          then str_le a.item_id b.item_id
          else not (F.lt a.raw_score b.raw_score))
      else not (F.lt a.normalized_score b.normalized_score)

  -- The rows of one source with their normalized scores.
  abbrev source_rows : List (RecallCandidate F) → Result (List Row)
  source_rows candidates = do
    let rows = sort_by recall_order candidates
    scores ← min_max F (map RecallCandidate.raw_score rows)
    ok (zip rows scores)

  abbrev all_rows : List (RecallCandidate F) → List String → Result (List Row)
  all_rows candidates [] = ok []
  all_rows candidates (s ∷ sources) = do
    rows ← source_rows (select (λ (c : RecallCandidate F). str_eq c.source s) candidates)
    rest ← all_rows candidates sources
    ok (rows ++ rest)

  unfoldable pub normalized_rows : List (RecallCandidate F) → Result (List Row)
  unfolding sort_by min_max
  normalized_rows candidates =
      all_rows candidates (sort_by str_le (distinct [] (map RecallCandidate.source candidates)))

  abbrev best_of : Option Float → Float
  best_of none = of_int 0
  best_of (some v) = v

  abbrev dssm_score : List Float → Float
  dssm_score [] = of_int 0
  dssm_score (v ∷ vs) = greatest F v vs

  abbrev capped : Float → Float
  capped v = if F.lt v (of_int 1) then v else of_int 1

  -- One item from its rows, the best of them first.
  abbrev merged_row : String → List Row → List Row → List (MergedScore F)
  merged_row item_id rows [] = []
  merged_row item_id rows ((primary, score) ∷ _) =
      let sources = sort_by str_le (distinct [] (map (λ (r : Row). (r.0).source) rows)) in
      record {
        item_id = item_id;
        source = primary.source;
        sources = sources;
        raw_score = primary.raw_score;
        dssm_recall_score = dssm_score (
            map (λ (r : Row). (r.0).raw_score)
              (select (λ (r : Row). str_eq (r.0).source "dssm") rows));
        normalized_score = capped (add score (mul (of_decimal 5 2) (of_int (length sources - 1))));
        reason = join (
            map (λ (r : Row). str_append (r.0).source (str_append ":" (r.0).reason))
              (sort_by source_order rows));
        original_rank = 0;
      }
      ∷ []

  abbrev merged_items : List Row → List String → List (MergedScore F)
  merged_items rows [] = []
  merged_items rows (i ∷ items) =
      let own = select (λ (r : Row). str_eq (r.0).item_id i) rows in
      merged_row i own (sort_by row_order own) ++ merged_items rows items

  abbrev numbered : ℕ → List (MergedScore F) → List (MergedScore F)
  numbered index [] = []
  numbered index (row ∷ rows) = record row { original_rank = index } ∷ numbered (index + 1) rows

  unfoldable pub merge_recall : List (RecallCandidate F) → Result (List (MergedScore F))
  unfolding normalized_rows sort_by
  merge_recall candidates = do
    rows ← normalized_rows candidates
    let merged = merged_items rows (distinct [] (map (λ (r : Row). (r.0).item_id) rows))
    ok (numbered 0 (sort_by merged_order merged))
