-- ===== src/Feeds/Rules.antt =====
-- Which rules `apply_promotions` applies, and what its output holds
-- (apps/api/app/feeds/ranking.py).
use Prim.Native.String.{◌++◌ as str_append}
use mathlib.Core.List.{Mem, mem-cons_of_mem, mem-cons_self, Perm}
use mathlib.Core.List.Perm
use microlens_recsys_mvp.Prelude.{
  String, Bool, true, false, not, ◌&&◌, ◌||◌, ◌≡◌, refl, sym, ap, ◌∙◌, subst, inl, inr, Option,
  none, some, List, [], ◌∷◌, ◌++◌, map, All, All-map, Bool-cases, select, str_eq, eq_iff, str_mem,
  is_some, if◌then◌else◌, arith,
}
use microlens_recsys_mvp.Prelude.Floats.{Floats}
use microlens_recsys_mvp.Prelude.Sorting.{insert_by, sort_by, sort_by-perm}
use microlens_recsys_mvp.Feeds.Candidates.{RankedCandidate, PromotionPlacement}
use microlens_recsys_mvp.Feeds.Placement.{
  placement_order, select_rules, promotion_of, natural_rows, apply_promotions,
}
use microlens_recsys_mvp.Feeds.Slots.{promotions, applied, promoted_ids, apply_promotions_rows}

abbrev pub ids : List PromotionPlacement → List String
ids = map PromotionPlacement.item_id

abbrev pub are_distinct : List String → Bool
are_distinct [] = true
are_distinct (i ∷ rest) = not (str_mem i rest) && are_distinct rest

module _ (F : Floats) (promoted : String → Option (RankedCandidate F)) where
  -- Some placement is of the item, and there is a candidate to promote.
  abbrev pub has_rule : String → List PromotionPlacement → Bool
  has_rule i [] = false
  has_rule i (p ∷ placements) =
      (str_eq i p.item_id && is_some (promoted p.item_id)) || has_rule i placements

  -- The candidate of a rule, with the rule as its only source and reason.
  abbrev pub promoted_row :
      PromotionPlacement → Option (RankedCandidate F) → List (RankedCandidate F)
  promoted_row p none = []
  promoted_row p (some c) =
      record c {
        source = "promotion";
        sources = "promotion" ∷ [];
        reason = str_append "promotion:" p.reason;
        promotion_rule_id = some p.rule_id;
      }
      ∷ []

  abbrev pub promoted_rows : List PromotionPlacement → List (RankedCandidate F)
  promoted_rows [] = []
  promoted_rows (p ∷ rules) = promoted_row p (promoted p.item_id) ++ promoted_rows rules

  one_row :
      (p : PromotionPlacement) (c : Option (RankedCandidate F))
      → promotion_of F p c ≡ promoted_row p c
  one_row p none = refl
  one_row p (some c) = refl

  promotions-rows :
      (rules : List PromotionPlacement) → promotions F promoted rules ≡ promoted_rows rules
  promotions-rows [] = refl
  promotions-rows (p ∷ rules) =
      ap (λ l. l ++ promotions F promoted rules) (one_row p (promoted p.item_id))
      ∙ ap (λ l. promoted_row p (promoted p.item_id) ++ l) (promotions-rows rules)

  has_rule-insert_by :
      (i : String) (p : PromotionPlacement) (placements : List PromotionPlacement)
      → has_rule i (insert_by placement_order p placements) ≡ has_rule i (p ∷ placements)
  unfolding insert_by
  has_rule-insert_by i p [] = refl
  has_rule-insert_by i p (q ∷ placements) = elim (Bool-cases (placement_order p q)) [
    | inl first ↦ rw first refl
    | inr later ↦ rw later (
        swap (str_eq i q.item_id && is_some (promoted q.item_id))
          (str_eq i p.item_id && is_some (promoted p.item_id)) _ _
          (has_rule-insert_by i p placements))
  ]
    where
      swap : (a b c d : Bool) → d ≡ (b || c) → (a || d) ≡ (b || (a || c))
      swap true true c d h = refl
      swap true false c d h = refl
      swap false true c d h = h
      swap false false c d h = h

  has_rule-sort_by :
      (i : String) (placements : List PromotionPlacement)
      → has_rule i (sort_by placement_order placements) ≡ has_rule i placements
  unfolding sort_by
  has_rule-sort_by i [] = refl
  has_rule-sort_by i (p ∷ placements) =
      has_rule-insert_by i p (sort_by placement_order placements)
      ∙ ap (λ b. (str_eq i p.item_id && is_some (promoted p.item_id)) || b)
          (has_rule-sort_by i placements)

  -- The rules selected after the items in `seen`.
  record IsSelected (seen : List String) (placements rules : List PromotionPlacement)
      (all_seen : List String) : Type 0 where
    sound : All (λ r. Mem r placements × (is_some (promoted r.item_id) ≡ true)) rules
    fresh : All (λ r. str_mem r.item_id seen ≡ false) rules
    distinct : are_distinct (ids rules) ≡ true
    seen_rule : (i : String) → str_mem i all_seen ≡ (str_mem i seen || has_rule i placements)
    seen_ids : (i : String) → str_mem i all_seen ≡ (str_mem i seen || str_mem i (ids rules))

  not_among :
      (i : String) (rules : List PromotionPlacement) (seen : List String)
      → All (λ r. str_mem r.item_id (i ∷ seen) ≡ false) rules
      → str_mem i (ids rules) ≡ false
  not_among i [] seen h = refl
  not_among i (r ∷ rules) seen h = elim (Bool-cases (str_eq i r.item_id)) [
    | inl same ↦
        let e : i ≡ r.item_id = (eq_iff i r.item_id).0 same in
        let here : str_eq r.item_id i ≡ true = (eq_iff r.item_id i).1 (sym e) in
        absurd (ground arith)
    | inr other ↦ rw other (not_among i rules seen h.1)
  ]

  not_fresh :
      (p r : PromotionPlacement) (seen : List String)
      → str_mem r.item_id (p.item_id ∷ seen) ≡ false
      → str_mem r.item_id seen ≡ false
  not_fresh p r seen h = ground arith

  skip_rule :
      (i : String) (p : PromotionPlacement) (placements : List PromotionPlacement)
      (seen : List String)
      → (str_mem p.item_id seen || not (is_some (promoted p.item_id))) ≡ true
      → (str_mem i seen || has_rule i placements) ≡ (str_mem i seen || has_rule i (p ∷ placements))
  skip_rule i p placements seen skipped = elim (Bool-cases (str_eq i p.item_id)) [
    | inl same ↦
        let e : p.item_id ≡ i = sym ((eq_iff i p.item_id).0 same) in
        let stops : (str_mem i seen || not (is_some (promoted i))) ≡ true =
          subst (λ k. (str_mem k seen || not (is_some (promoted k))) ≡ true) e skipped in
        let there : is_some (promoted p.item_id) ≡ is_some (promoted i) =
          ap (λ k. is_some (promoted k)) e in
        rw (same, there)
          (absorb (str_mem i seen) (is_some (promoted i)) (has_rule i placements) stops)
    | inr other ↦ rw other refl
  ]
    where
      absorb : (s b r : Bool) → (s || not b) ≡ true → (s || r) ≡ (s || (b || r))
      absorb true b r h = refl
      absorb false true r h = absurd (cc)
      absorb false false r h = refl

  take_rule : (e s r : Bool) → ((e || s) || r) ≡ (s || (e || r))
  take_rule true true r = refl
  take_rule true false r = refl
  take_rule false s r = refl

  select_rules-IsSelected :
      (seen : List String) (placements : List PromotionPlacement)
      → IsSelected seen placements
          (select_rules F promoted seen placements).0
          (select_rules F promoted seen placements).1
  select_rules-IsSelected seen [] = record {
    sound = tt;
    fresh = tt;
    distinct = refl;
    seen_rule = λ i. sym (or_false (str_mem i seen));
    seen_ids = λ i. sym (or_false (str_mem i seen));
  }
    where
      or_false : (b : Bool) → (b || false) ≡ b
      or_false true = refl
      or_false false = refl
  select_rules-IsSelected seen (p ∷ placements) =
      choose (str_mem p.item_id seen || not (is_some (promoted p.item_id))) refl
        (select_rules-IsSelected seen placements)
        (select_rules-IsSelected (p.item_id ∷ seen) placements)
    where
      weaken :
          (rules : List PromotionPlacement)
          → All (λ r. Mem r placements × (is_some (promoted r.item_id) ≡ true)) rules
          → All (λ r. Mem r (p ∷ placements) × (is_some (promoted r.item_id) ≡ true)) rules
      weaken rules h = All-map (λ r k. (mem-cons_of_mem p k.0, k.1)) rules h

      choose :
          (skips : Bool)
          → (str_mem p.item_id seen || not (is_some (promoted p.item_id))) ≡ skips
          → IsSelected seen placements
              (select_rules F promoted seen placements).0
              (select_rules F promoted seen placements).1
          → IsSelected
              (p.item_id ∷ seen)
              placements
              (select_rules F promoted (p.item_id ∷ seen) placements).0
              (select_rules F promoted (p.item_id ∷ seen) placements).1
          → IsSelected seen
              (p ∷ placements)
              (if skips then select_rules F promoted seen placements else (
                p ∷ (select_rules F promoted (p.item_id ∷ seen) placements).0,
                (select_rules F promoted (p.item_id ∷ seen) placements).1,
              )).0
              (if skips then select_rules F promoted seen placements else (
                p ∷ (select_rules F promoted (p.item_id ∷ seen) placements).0,
                (select_rules F promoted (p.item_id ∷ seen) placements).1,
              )).1
      choose true e skipped taken = record {
        sound = weaken _ skipped.sound;
        fresh = skipped.fresh;
        distinct = skipped.distinct;
        seen_rule = λ i. skipped.seen_rule i ∙ skip_rule i p placements seen e;
        seen_ids = skipped.seen_ids;
      }
      choose false e skipped taken =
          let here : is_some (promoted p.item_id) ≡ true = ground arith in
          let new : str_mem p.item_id seen ≡ false = ground arith in
          record {
            sound = ((mem-cons_self, here), weaken _ taken.sound);
            fresh = (new, All-map (λ r k. not_fresh p r seen k) _ taken.fresh);
            distinct = rw (not_among p.item_id _ seen taken.fresh) taken.distinct;
            seen_rule = λ i.
                taken.seen_rule i
                ∙ rw here (keep (str_eq i p.item_id) (str_mem i seen) (has_rule i placements));
            seen_ids = λ i. taken.seen_ids i ∙ take_rule (str_eq i p.item_id) _ _;
          }
        where
          keep : (x s r : Bool) → ((x || s) || r) ≡ (s || ((x && true) || r))
          keep true true r = refl
          keep true false r = refl
          keep false s r = refl

  select_same :
      (p q : RankedCandidate F → Bool) (rows : List (RankedCandidate F))
      → ((c : RankedCandidate F) → p c ≡ q c)
      → select p rows ≡ select q rows
  select_same p q [] h = refl
  select_same p q (c ∷ rows) h = rw (h c, select_same p q rows h) refl

  -- Among the placements are rules with distinct items, one for each item that has a placement and
  -- a candidate to promote, such that the output of the promotions holds, each once and with
  -- nothing else, the natural candidates of the other items, and for each rule its candidate with
  -- the rule as its source and reason.
  pub apply_promotions-perm :
      (natural : List (RankedCandidate F)) (placements : List PromotionPlacement)
      → (rules : List PromotionPlacement) × Perm (apply_promotions F natural placements promoted) (
          select (λ (c : RankedCandidate F). not (has_rule c.item_id placements)) natural
          ++ promoted_rows rules)
        × (are_distinct (ids rules) ≡ true)
        × All (λ r. Mem r placements × (is_some (promoted r.item_id) ≡ true)) rules
        × ((i : String) → str_mem i (ids rules) ≡ has_rule i placements)
  apply_promotions-perm natural placements =
      let s = select_rules-IsSelected [] (sort_by placement_order placements) in
      let known : (i : String)
          → str_mem i (promoted_ids F promoted placements) ≡ has_rule i placements =
        λ i. s.seen_rule i ∙ has_rule-sort_by i placements in
      let rows : natural_rows F (promoted_ids F promoted placements) natural
          ≡ select (λ (c : RankedCandidate F). not (has_rule c.item_id placements)) natural =
        select_same _ _ natural (λ c. ap not (known c.item_id)) in
      (
        applied F promoted placements,
        subst (Perm (apply_promotions F natural placements promoted))
            (ap (λ l. l ++ promotions F promoted (applied F promoted placements)) rows
              ∙ ap
                  (λ l.
                    select (λ (c : RankedCandidate F). not (has_rule c.item_id placements)) natural
                    ++ l)
                  (promotions-rows (applied F promoted placements)))
            (apply_promotions_rows F promoted natural placements),
        s.distinct,
        All-map (λ r k. (member r k.0, k.1)) _ s.sound,
        λ i. sym (s.seen_ids i) ∙ known i,
      )
    where
      member :
          (r : PromotionPlacement) → Mem r (sort_by placement_order placements) → Mem r placements
      member r h = (Perm.mem_iff (sort_by-perm placement_order placements)).0 h
