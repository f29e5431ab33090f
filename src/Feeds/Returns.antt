-- ===== src/Feeds/Returns.antt =====
-- When `mmr_rank` returns (apps/api/app/feeds/ranking.py).
use microlens_recsys_mvp.Prelude.{
  ℕ, zero, suc, String, Bool, true, false, ◌&&◌, ◌≡◌, refl, sym, ap, ◌∙◌, subst, Option, none, some,
  List, [], ◌∷◌, ◌++◌, map, All, All-map, All-both, All-append, length, ◌==◌, ltb, str_eq, eq_iff,
  if◌then◌else◌, lookup_error, other_error, Result, ok, err, guard, require, ◌>>=◌, arith,
}
use mathlib.Core.List.{Perm}
use microlens_recsys_mvp.Prelude.Floats.{Floats}
use microlens_recsys_mvp.Feeds.Candidates.{
  RankedCandidate, MmrStep, all_finite, scaled, least, greatest, min_max,
}
use microlens_recsys_mvp.Feeds.Mmr.{
  Evaluated, best_at, pick, choose, or_last, score_of, squares_from, cosine, similarity,
  similarities, zip_scores, evaluate_vector, evaluate_all, Ranking, turn, mmr_loop, mmr_rank,
}
use microlens_recsys_mvp.Feeds.Selection.{
  candidates_of, evaluate_all-candidates, length-map, mmr_rank-perm,
}

-- A first part that returns, and a second that returns after it.
bind_returns :
    {A B : Type 0} (m : Result A) (f : A → Result B)
    → (a : A) × (m ≡ ok a)
    → ((a : A) → m ≡ ok a → (b : B) × (f a ≡ ok b))
    → (b : B) × ((m >>= f) ≡ ok b)
bind_returns (err e) f (a, h) next = cc
bind_returns (ok a) f h next = next a refl

either_returns : {A : Type 0} (b : Bool) (x y : A) → (a : A) × ((if b then ok x else ok y) ≡ ok a)
either_returns true x y = (x, refl)
either_returns false x y = (y, refl)

module _ (F : Floats) where
  open F use {Float}

  -- The square of the number does not overflow.
  abbrev Squarable : Float → Type 0
  Squarable v = (s : Float) × (F.square v ≡ some s)

  -- The vector has the dimension, and the squares of its numbers do not overflow.
  pub record IsVector (n : ℕ) (v : List Float) : Type 0 where
    pub sized : length v ≡ suc n
    pub bounded : All Squarable v

  squares_return :
      (total : Float) (v : List Float)
      → All Squarable v
      → (t : Float) × (squares_from F total v ≡ ok t)
  squares_return total [] h = (total, refl)
  squares_return total (a ∷ v) h =
      bind_returns (require (F.square a) (other_error "OverflowError")) _
        ((h.0).0, ap (λ o. require o (other_error "OverflowError")) (h.0).1)
        λ s _. squares_return (F.add total s) v h.1

  cosine_returns :
      (n : ℕ) (left right : List Float)
      → IsVector n left
      → IsVector n right
      → (f : Float) × (cosine F left right ≡ ok f)
  unfolding cosine
  cosine_returns n left right l r =
      let l_sized = l.sized in
      let r_sized = r.sized in
      bind_returns (guard (length left == length right && ltb 0 (length left)) _) _
        (tt, ground arith)
        λ _ _.
          bind_returns (squares_from F (F.of_int 0) left) _
            (squares_return (F.of_int 0) left l.bounded)
            λ _ _.
              bind_returns (squares_from F (F.of_int 0) right) _
                (squares_return (F.of_int 0) right r.bounded) λ _ _. either_returns _ _ _

  module _ (vectors : String → Option (List Float)) (lambda_value : Float)
      (normalized : List (String × Float)) (n : ℕ) where
    -- The vector of the item, if there is one, has the dimension; the item has a normalized score.
    record IsReady (c : RankedCandidate F) : Type 0 where
      dimension : (v : List Float) → vectors c.item_id ≡ some v → IsVector n v
      relevance : Float
      known : score_of F c.item_id normalized ≡ some relevance

    similarities_return :
        (vector : List Float) (selected : List (RankedCandidate F))
        → IsVector n vector
        → All IsReady selected
        → (l : List Float) × (similarities F vectors lambda_value normalized vector selected ≡ ok l)
    similarities_return vector [] h ready = ([], refl)
    similarities_return vector (c ∷ selected) h ready =
        go (similarities_return vector selected h ready.1) (vectors c.item_id) refl
      where
        go :
            ((l : List Float) × (similarities F vectors lambda_value normalized vector selected
                ≡ ok l))
            → (v : Option (List Float)) → vectors c.item_id ≡ v
            → (l : List Float) × (similarity F vectors lambda_value normalized vector v
                  (similarities F vectors lambda_value normalized vector selected)
                ≡ ok l)
        go rest none e = rest
        go rest (some other) e =
            bind_returns (cosine F vector other) _
              (cosine_returns n vector other h ((ready.0).dimension other e))
              λ s _.
                bind_returns (similarities F vectors lambda_value normalized vector selected) _ rest
                  λ values _. (s ∷ values, refl)

    known_returns :
        (c : RankedCandidate F)
        → IsReady c
        → (w : Float) × (require (score_of F c.item_id normalized) (lookup_error "normalized")
            ≡ ok w)
    known_returns c ready =
        (ready.relevance, ap (λ o. require o (lookup_error "normalized")) ready.known)

    evaluate_returns :
        (c : RankedCandidate F) (selected : List (RankedCandidate F)) (v : Option (List Float))
        → vectors c.item_id ≡ v
        → IsReady c
        → All IsReady selected
        → (e : Evaluated F) × (evaluate_vector F vectors lambda_value normalized c selected v
            ≡ ok e)
    evaluate_returns c selected none e ready others = (_, refl)
    evaluate_returns c selected (some vector) e ready others =
        bind_returns (similarities F vectors lambda_value normalized vector selected) _
          (similarities_return vector selected (ready.dimension vector e) others)
          λ values _.
            bind_returns (require (score_of F c.item_id normalized) (lookup_error "normalized")) _
              (known_returns c ready) λ w _. (_, refl)

    evaluate_all_return :
        (selected remaining : List (RankedCandidate F))
        → All IsReady selected
        → All IsReady remaining
        → (es : List (Evaluated F)) × (evaluate_all F vectors lambda_value normalized selected
              remaining
            ≡ ok es)
    evaluate_all_return selected [] done ready = ([], refl)
    evaluate_all_return selected (c ∷ remaining) done ready =
        bind_returns
          (evaluate_vector F vectors lambda_value normalized c selected (vectors c.item_id)) _
          (evaluate_returns c selected (vectors c.item_id) refl ready.0 done)
          λ e _.
            bind_returns (evaluate_all F vectors lambda_value normalized selected remaining) _
              (evaluate_all_return selected remaining done ready.1) λ rest _. (e ∷ rest, refl)

    pick-All :
        (i : ℕ) (e : Evaluated F) (es : List (Evaluated F))
        → All IsReady (candidates_of F (e ∷ es))
        → IsReady ((pick F i e es).0).candidate × All IsReady (candidates_of F (pick F i e es).1)
    pick-All zero e es ready = ready
    pick-All (suc i) e [] ready = ready
    pick-All (suc i) e (f ∷ fs) ready =
        let (first, rest) = pick-All i f fs ready.1 in (first, (ready.0, rest))

    turn_returns :
        (next : List (RankedCandidate F)
          → List (RankedCandidate F)
          → Result (Ranking F vectors lambda_value normalized))
        → ((selected remaining : List (RankedCandidate F))
            → All IsReady selected
            → All IsReady remaining
            → (r : Ranking F vectors lambda_value normalized) × (next selected remaining ≡ ok r))
        → (selected : List (RankedCandidate F)) (es : List (Evaluated F)) → All IsReady selected
        → All IsReady (candidates_of F es)
        → (r : Ranking F vectors lambda_value normalized) × (turn F vectors lambda_value normalized
              next selected es
            ≡ ok r)
    turn_returns next ih selected [] done ready = (([], []), refl)
    turn_returns next ih selected (e ∷ es) done ready =
        let chosen = (choose F e es).0 in
        let rest = (choose F e es).1 in
        let (first, others) = pick-All (best_at F 1 0 e es) e es ready in
        bind_returns
          (require (score_of F (chosen.candidate).item_id normalized) (lookup_error "normalized")) _
          (known_returns chosen.candidate first)
          λ w _.
            bind_returns (next (selected ++ chosen.candidate ∷ []) (candidates_of F rest)) _
              (ih (selected ++ chosen.candidate ∷ []) (candidates_of F rest)
                (All-append IsReady selected (chosen.candidate ∷ []) done (first, tt)) others)
              λ later _. (_, refl)

    mmr_loop_returns :
        (fuel : ℕ) (selected remaining : List (RankedCandidate F))
        → All IsReady selected
        → All IsReady remaining
        → (r : Ranking F vectors lambda_value normalized) × (mmr_loop F vectors lambda_value
              normalized fuel selected remaining
            ≡ ok r)
    unfolding mmr_loop
    mmr_loop_returns zero selected remaining done ready = (([], []), refl)
    mmr_loop_returns (suc fuel) selected remaining done ready =
        bind_returns (evaluate_all F vectors lambda_value normalized selected remaining) _
          (evaluate_all_return selected remaining done ready)
          λ es e.
            turn_returns (mmr_loop F vectors lambda_value normalized fuel) (mmr_loop_returns fuel)
              selected es done
              (subst (All IsReady)
                (sym (
                  evaluate_all-candidates F vectors lambda_value normalized selected remaining es
                    e))
                ready)

  -- A score is found for each item that has been zipped with one.
  score_cons :
      (i j : String) (v w : Float) (rest : List (String × Float))
      → score_of F i rest ≡ some w
      → score_of F i ((j, v) ∷ rest) ≡ some w
  score_cons i j v w rest h = ap (λ o. or_last F o (str_eq j i) v) h

  score_here :
      (i : String) (v : Float) (found : Option Float)
      → (w : Float) × (or_last F found (str_eq i i) v ≡ some w)
  score_here i v none = (v, ap (λ b. or_last F none b v) ((eq_iff i i).1 refl))
  score_here i v (some w) = (w, refl)

  abbrev HasScore : List (String × Float) → RankedCandidate F → Type 0
  HasScore normalized c = (w : Float) × (score_of F c.item_id normalized ≡ some w)

  zip_scores-known :
      (candidates : List (RankedCandidate F)) (scores : List Float)
      → length scores ≡ length candidates
      → All (HasScore (zip_scores F candidates scores)) candidates
  zip_scores-known [] scores h = tt
  zip_scores-known (c ∷ candidates) [] h = absurd (omega arith)
  zip_scores-known (c ∷ candidates) (v ∷ scores) h = (
    score_here c.item_id v (score_of F c.item_id (zip_scores F candidates scores)),
    All-map
        (λ (d : RankedCandidate F) (found : HasScore (zip_scores F candidates scores) d). (
          found.0,
          score_cons d.item_id c.item_id v found.0 (zip_scores F candidates scores) found.1,
        ))
        candidates (zip_scores-known candidates scores (omega arith)),
  )

  min_max_returns :
      (values : List Float)
      → all_finite F values ≡ true
      → (scores : List Float) × (min_max F values ≡ ok scores) × (length scores ≡ length values)
  unfolding min_max
  min_max_returns [] h = ([], refl, refl)
  min_max_returns (v ∷ vs) h = (
    scaled F (least F v vs) (greatest F v vs) (v ∷ vs),
    rw h refl,
    scaled_length (F.eq (greatest F v vs) (least F v vs)),
  )
    where
      scaled_length :
          (b : Bool)
          → length (
              if b
              then map (λ _. F.of_int 1) (v ∷ vs)
              else map
                  (λ x. F.div (F.sub x (least F v vs)) (F.sub (greatest F v vs) (least F v vs)))
                  (v ∷ vs))
            ≡ length (v ∷ vs)
      scaled_length true = length-map F (λ _. F.of_int 1) (v ∷ vs)
      scaled_length false =
          length-map F
            (λ x. F.div (F.sub x (least F v vs)) (F.sub (greatest F v vs) (least F v vs))) (v ∷ vs)

  -- For a lambda between zero and one, candidates with finite scores, and vectors that all have one
  -- dimension, which is not zero, and numbers whose squares do not overflow (an item may have no
  -- vector), the diversity ranking returns, and has selected every candidate, each once.
  pub mmr_rank_total :
      (candidates : List (RankedCandidate F)) (vectors : String → Option (List Float))
      (lambda_value : Float) (n : ℕ)
      → F.le (F.of_int 0) lambda_value ≡ true
      → F.le lambda_value (F.of_int 1) ≡ true
      → all_finite F (map RankedCandidate.score candidates) ≡ true
      → All (λ c. (v : List Float) → vectors c.item_id ≡ some v → IsVector n v) candidates
      → (selected : List (RankedCandidate F)) × (steps : List (MmrStep F)) × (mmr_rank F candidates
            vectors lambda_value
          ≡ ok (selected, steps))
        × Perm selected candidates
  unfolding mmr_rank
  mmr_rank_total candidates vectors lambda_value n low high finite dimensions =
      let (scores, scored, sized) = min_max_returns (map RankedCandidate.score candidates) finite in
      let normalized = zip_scores F candidates scores in
      let known =
        zip_scores-known candidates scores
          (sized ∙ length-map F RankedCandidate.score candidates) in
      let ready : All (IsReady vectors lambda_value normalized n) candidates =
        All-both _ _ (IsReady vectors lambda_value normalized n)
          (λ c d k. record { dimension = d; relevance = k.0; known = k.1 }) candidates dimensions
          known in
      let ((selected, steps), done) =
        mmr_loop_returns vectors lambda_value normalized n (length candidates) [] candidates tt
          ready in
      let returned : mmr_rank F candidates vectors lambda_value ≡ ok (selected, steps) =
        rw low (rw high (rw scored done)) in
      (
        selected,
        steps,
        returned,
        mmr_rank-perm F candidates vectors lambda_value selected steps returned,
      )
