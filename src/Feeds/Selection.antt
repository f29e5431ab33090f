-- ===== src/Feeds/Selection.antt =====
-- The candidates that `mmr_rank` selects (apps/api/app/feeds/ranking.py).
use microlens_recsys_mvp.Prelude.{
  ℕ, zero, suc, String, ◌&&◌, ◌≡◌, refl, sym, ap, ◌∙◌, subst, Option, none, some, List, [], ◌∷◌,
  ◌++◌, map, length, value_error, lookup_error, Result, ok, guard, require, >>=-eq-ok, arith,
}
use mathlib.Core.List.{Perm}
use mathlib.Core.List.Perm
use microlens_recsys_mvp.Prelude.Floats.{Floats}
use microlens_recsys_mvp.Feeds.Candidates.{RankedCandidate, MmrStep, min_max}
use microlens_recsys_mvp.Feeds.Mmr.{
  Evaluated, best_at, pick, choose, score_of, similarities, zip_scores, evaluate_vector,
  evaluate_all, Ranking, turn, mmr_loop, mmr_rank,
}

module _ (F : Floats) where
  open F use {Float}

  abbrev pub candidates_of : List (Evaluated F) → List (RankedCandidate F)
  candidates_of = map (λ (e : Evaluated F). e.candidate)

  ok-injective : {A : Type 0} {a b : A} → ok a ≡ ok b → a ≡ b
  ok-injective h = cc

  pick-perm :
      (i : ℕ) (e : Evaluated F) (es : List (Evaluated F))
      → Perm ((pick F i e es).0 ∷ (pick F i e es).1) (e ∷ es)
  pick-perm zero e es = Perm.refl _
  pick-perm (suc i) e [] = Perm.refl _
  pick-perm (suc i) e (f ∷ fs) = Perm.trans (Perm.swap _ _ _) (Perm.cons e (pick-perm i f fs))

  pick-length :
      (i : ℕ) (e : Evaluated F) (es : List (Evaluated F)) → length (pick F i e es).1 ≡ length es
  pick-length zero e es = refl
  pick-length (suc i) e [] = refl
  pick-length (suc i) e (f ∷ fs) = ap suc (pick-length i f fs)

  pub length-map : {A B : Type 0} (f : A → B) (xs : List A) → length (map f xs) ≡ length xs
  length-map f [] = refl
  length-map f (x ∷ xs) = ap suc (length-map f xs)

  module _ (vectors : String → Option (List Float)) (lambda_value : Float)
      (normalized : List (String × Float)) where
    evaluate_vector-candidate :
        (c : RankedCandidate F) (selected : List (RankedCandidate F)) (v : Option (List Float))
        (e : Evaluated F)
        → evaluate_vector F vectors lambda_value normalized c selected v ≡ ok e
        → e.candidate ≡ c
    evaluate_vector-candidate c selected none e h = ap Evaluated.candidate (sym (ok-injective h))
    evaluate_vector-candidate c selected (some v) e h =
        let (values, _, h1) =
          >>=-eq-ok (similarities F vectors lambda_value normalized v selected) _ h in
        let (relevance, _, h2) =
          >>=-eq-ok (require (score_of F c.item_id normalized) (lookup_error "normalized")) _ h1 in
        ap Evaluated.candidate (sym (ok-injective h2))

    pub evaluate_all-candidates :
        (selected remaining : List (RankedCandidate F)) (es : List (Evaluated F))
        → evaluate_all F vectors lambda_value normalized selected remaining ≡ ok es
        → candidates_of es ≡ remaining
    evaluate_all-candidates selected [] es h = ap candidates_of (sym (ok-injective h))
    evaluate_all-candidates selected (c ∷ remaining) es h =
        let (e, own, h1) =
          >>=-eq-ok
            (evaluate_vector F vectors lambda_value normalized c selected (vectors c.item_id)) _
            h in
        let (rest, others, h2) =
          >>=-eq-ok (evaluate_all F vectors lambda_value normalized selected remaining) _ h1 in
        ap candidates_of (sym (ok-injective h2))
        ∙ ap (λ x. x ∷ candidates_of rest)
            (evaluate_vector-candidate c selected (vectors c.item_id) e own)
        ∙ ap (λ l. c ∷ l) (evaluate_all-candidates selected remaining rest others)

    turn-perm :
        (next : List (RankedCandidate F)
          → List (RankedCandidate F)
          → Result (Ranking F vectors lambda_value normalized))
        (fuel : ℕ)
        → ((selected remaining : List (RankedCandidate F))
              (r : Ranking F vectors lambda_value normalized)
            → length remaining ≡ fuel
            → next selected remaining ≡ ok r
            → Perm r.0 remaining)
        → (selected : List (RankedCandidate F)) (es : List (Evaluated F))
          (r : Ranking F vectors lambda_value normalized)
        → length es ≡ suc fuel
        → turn F vectors lambda_value normalized next selected es ≡ ok r
        → Perm r.0 (candidates_of es)
    turn-perm next fuel ih selected [] r l h = absurd (omega arith)
    turn-perm next fuel ih selected (e ∷ es) r l h =
        let (chosen, rest) = choose F e es in
        let (relevance, _, h1) =
          >>=-eq-ok
            (require (score_of F (chosen.candidate).item_id normalized) (lookup_error "normalized"))
            _ h in
        let (later, done, h2) =
          >>=-eq-ok (next (selected ++ chosen.candidate ∷ []) (candidates_of rest)) _ h1 in
        subst (λ l. Perm l (candidates_of (e ∷ es)))
          (ap (λ (x : Ranking F vectors lambda_value normalized). x.0) (ok-injective h2))
          (Perm.trans
            (Perm.cons chosen.candidate
              (ih (selected ++ chosen.candidate ∷ []) (candidates_of rest) later (shorter l) done))
            (Perm.map (λ (x : Evaluated F). x.candidate) (pick-perm (best_at F 1 0 e es) e es)))
      where
        shorter : suc (length es) ≡ suc fuel → length (candidates_of (choose F e es).1) ≡ fuel
        shorter q =
            length-map _ (choose F e es).1 ∙ pick-length (best_at F 1 0 e es) e es ∙ omega arith

    mmr_loop-perm :
        (fuel : ℕ) (selected remaining : List (RankedCandidate F))
        (r : Ranking F vectors lambda_value normalized)
        → length remaining ≡ fuel
        → mmr_loop F vectors lambda_value normalized fuel selected remaining ≡ ok r
        → Perm r.0 remaining
    unfolding mmr_loop
    mmr_loop-perm zero selected [] r l h =
        subst (λ (x : Ranking F vectors lambda_value normalized). Perm x.0 []) (ok-injective h)
          (Perm.refl [])
    mmr_loop-perm zero selected (c ∷ remaining) r l h = absurd (omega arith)
    mmr_loop-perm (suc fuel) selected remaining r l h =
        let (es, all_evaluated, h1) =
          >>=-eq-ok (evaluate_all F vectors lambda_value normalized selected remaining) _ h in
        let same = evaluate_all-candidates selected remaining es all_evaluated in
        subst (Perm r.0) same (
          turn-perm (mmr_loop F vectors lambda_value normalized fuel) fuel (mmr_loop-perm fuel)
            selected es r (sym (length-map _ es) ∙ ap length same ∙ l) h1)

  -- Where the diversity ranking returns, it has selected every candidate, each once.
  pub mmr_rank-perm :
      (candidates : List (RankedCandidate F)) (vectors : String → Option (List Float))
      (lambda_value : Float) (selected : List (RankedCandidate F)) (steps : List (MmrStep F))
      → mmr_rank F candidates vectors lambda_value ≡ ok (selected, steps)
      → Perm selected candidates
  unfolding mmr_rank
  mmr_rank-perm candidates vectors lambda_value selected steps h =
      let (_, _, h1) =
        >>=-eq-ok
          (guard (F.le (F.of_int 0) lambda_value && F.le lambda_value (F.of_int 1))
            (value_error "MMR lambda must be between zero and one"))
          _ h in
      let (scores, _, h2) = >>=-eq-ok (min_max F (map RankedCandidate.score candidates)) _ h1 in
      mmr_loop-perm vectors lambda_value (zip_scores F candidates scores) (length candidates) []
        candidates (selected, steps) refl h2
