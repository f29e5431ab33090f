-- ===== src/Feeds/Slots.antt =====
-- The slots and the output of `apply_promotions` (apps/api/app/feeds/ranking.py).
use microlens_recsys_mvp.Prelude.{
  ℕ, zero, suc, ◌+◌, ◌*◌, ◌≤◌, ◌<◌, String, ◌≡◌, refl, sym, ap, ◌∙◌, subst, inl, inr, Option, none,
  some, Option-cases, Bool-cases, List, [], ◌∷◌, ◌++◌, ◌==◌, length, leb, is_some, if◌then◌else◌,
  arith,
}
use mathlib.Core.List.{Perm}
use mathlib.Core.List.Perm
use microlens_recsys_mvp.Prelude.Floats.{Floats}
use microlens_recsys_mvp.Prelude.Sorting.{sort_by}
use microlens_recsys_mvp.Feeds.Candidates.{RankedCandidate, PromotionPlacement}
use microlens_recsys_mvp.Feeds.Placement.{
  lookup, free_slot, fill, placement_order, select_rules, promotion_of, marked, placed, fill_slots,
  unplaced, natural_rows, apply_promotions,
}
use microlens_recsys_mvp.Feeds.Fill.{values, nth, fill-perm, fill-honours, perm_middle, perm_after}

module _ {A : Type 0} where
  -- The slots at a position or after it.
  abbrev count_from : ℕ → List (ℕ × A) → ℕ
  count_from k [] = 0
  count_from k ((i, _) ∷ rest) = let n = count_from k rest in if leb k i then n + 1 else n

  count_from_bounded : (k : ℕ) (slots : List (ℕ × A)) → count_from k slots ≤ length slots
  count_from_bounded k [] = omega arith
  count_from_bounded k ((i, _) ∷ rest) = let b = count_from_bounded k rest in ground arith

  count_from_next : (k : ℕ) (slots : List (ℕ × A)) → count_from (k + 1) slots ≤ count_from k slots
  count_from_next k [] = omega arith
  count_from_next k ((i, _) ∷ rest) = let b = count_from_next k rest in ground arith

  count_from_taken :
      (k : ℕ) (slots : List (ℕ × A)) (a : A)
      → lookup k slots ≡ some a
      → count_from (k + 1) slots < count_from k slots
  count_from_taken k [] a h = ground arith
  count_from_taken k ((i, b) ∷ rest) a h = elim (Bool-cases (i == k)) [
    | inl here ↦ let b = count_from_next k rest in ground arith
    | inr there ↦ let b = count_from_taken k rest a (ground arith) in ground arith
  ]

  free_from :
      (fuel k : ℕ) (slots : List (ℕ × A))
      → count_from k slots ≤ fuel
      → lookup (free_slot fuel k slots) slots ≡ none
  unfolding free_slot
  free_from zero k slots h = elim (Option-cases (lookup k slots)) [
    | inl free ↦ free
    | inr (a, taken) ↦ absurd (let b = count_from_taken k slots a taken in omega arith)
  ]
  free_from (suc fuel) k slots h = elim (Option-cases (lookup k slots)) [
    | inl free ↦ rw free free
    | inr (a, taken) ↦
        rw taken
          (free_from fuel (k + 1) slots (let b = count_from_taken k slots a taken in omega arith))
  ]

  -- The search for a free slot, on as much fuel as there are slots, ends at a position that no slot
  -- has, whatever the position that was asked for.
  pub free_slot-free :
      (k : ℕ) (slots : List (ℕ × A)) → lookup (free_slot (length slots) k slots) slots ≡ none
  free_slot-free k slots = free_from (length slots) k slots (count_from_bounded k slots)

  lookup-append :
      (k : ℕ) (slots more : List (ℕ × A)) (a : A)
      → lookup k slots ≡ some a
      → lookup k (slots ++ more) ≡ some a
  lookup-append k [] more a h = ground arith
  lookup-append k ((i, b) ∷ slots) more a h = ground (arith, lookup-append k slots more a)

  values-append : (slots more : List (ℕ × A)) → values (slots ++ more) ≡ values slots ++ values more
  values-append [] more = refl
  values-append (s ∷ slots) more = ap (λ l. s.1 ∷ l) (values-append slots more)

  nth-append : (n : ℕ) (xs ys : List A) (a : A) → nth n xs ≡ some a → nth n (xs ++ ys) ≡ some a
  nth-append n [] ys a h = ground arith
  nth-append zero (x ∷ xs) ys a h = h
  nth-append (suc n) (x ∷ xs) ys a h = nth-append n xs ys a h

  lookup-length :
      (k : ℕ) (slots : List (ℕ × A)) (a : A) → lookup k slots ≡ some a → 1 ≤ length slots
  lookup-length k [] a h = ground arith
  lookup-length k (s ∷ slots) a h = omega arith

  snoc : (x : A) (l r : List A) → (l ++ x ∷ []) ++ r ≡ l ++ x ∷ r
  snoc x [] r = refl
  snoc x (y ∷ l) r = ap (λ k. y ∷ k) (snoc x l r)

  append_assoc : (l m r : List A) → (l ++ m) ++ r ≡ l ++ (m ++ r)
  append_assoc [] m r = refl
  append_assoc (x ∷ l) m r = ap (λ k. x ∷ k) (append_assoc l m r)

module _ (F : Floats) (promoted : String → Option (RankedCandidate F)) where
  -- The promoted candidates of the rules.
  abbrev pub promotions : List PromotionPlacement → List (RankedCandidate F)
  promotions [] = []
  promotions (p ∷ rules) = promotion_of F p (promoted p.item_id) ++ promotions rules

  abbrev output : List PromotionPlacement → List (ℕ × RankedCandidate F) → List (RankedCandidate F)
  output rules slots = values (fill_slots F promoted rules slots) ++ unplaced F promoted rules

  one-perm :
      (p : PromotionPlacement) (rules : List PromotionPlacement)
      → ((slots : List (ℕ × RankedCandidate F))
          → Perm (output rules slots) (values slots ++ promotions rules))
      → (t : Option ℕ) (c : Option (RankedCandidate F)) (slots : List (ℕ × RankedCandidate F))
      → Perm
          (values (fill_slots F promoted rules (placed F p t c slots))
            ++ (if is_some t
                then unplaced F promoted rules
                else promotion_of F p c ++ unplaced F promoted rules))
          (values slots ++ (promotion_of F p c ++ promotions rules))
  one-perm p rules ih none none slots = ih slots
  one-perm p rules ih none (some c) slots =
      Perm.trans
        (Perm.symm (
          perm_middle (marked F p c) (values (fill_slots F promoted rules slots))
            (unplaced F promoted rules)))
        (Perm.trans (Perm.cons (marked F p c) (ih slots))
          (perm_middle (marked F p c) (values slots) (promotions rules)))
  one-perm p rules ih (some n) none slots = ih slots
  one-perm p rules ih (some n) (some c) slots =
      subst (Perm (output rules (placed F p (some n) (some c) slots)))
        (ap (λ l. l ++ promotions rules) (values-append slots _)
          ∙ snoc (marked F p c) (values slots) (promotions rules))
        (ih (placed F p (some n) (some c) slots))

  -- The slots of the rules and the rows at the end are the promoted candidates of the rules.
  slots-perm :
      (rules : List PromotionPlacement) (slots : List (ℕ × RankedCandidate F))
      → Perm (output rules slots) (values slots ++ promotions rules)
  unfolding fill_slots
  slots-perm [] slots = Perm.refl _
  slots-perm (p ∷ rules) slots =
      one-perm p rules (slots-perm rules) p.target_position (promoted p.item_id) slots

  -- The rules that are applied: the placements by their order, less those of an item that has a rule
  -- already or that has no candidate.
  abbrev pub applied : List PromotionPlacement → List PromotionPlacement
  applied placements = (select_rules F promoted [] (sort_by placement_order placements)).0

  abbrev pub promoted_ids : List PromotionPlacement → List String
  promoted_ids placements = (select_rules F promoted [] (sort_by placement_order placements)).1

  -- The output is the natural rows and the promoted candidates of the applied rules, in some order.
  pub apply_promotions_rows :
      (natural : List (RankedCandidate F)) (placements : List PromotionPlacement)
      → Perm
          (apply_promotions F natural placements promoted)
          (natural_rows F (promoted_ids placements) natural ++ promotions (applied placements))
  unfolding apply_promotions
  apply_promotions_rows natural placements =
      let rows = natural_rows F (promoted_ids placements) natural in
      let slots = fill_slots F promoted (applied placements) [] in
      Perm.trans
        (Perm.append_right (unplaced F promoted (applied placements))
          (fill-perm (2 * (length rows + length slots)) 0 rows slots (omega arith)))
        (subst (λ l. Perm l (rows ++ promotions (applied placements)))
          (sym (append_assoc rows (values slots) (unplaced F promoted (applied placements))))
          (perm_after rows _ _ (slots-perm (applied placements) [])))

  slots_keep :
      (rules : List PromotionPlacement) (slots : List (ℕ × RankedCandidate F)) (k : ℕ)
      (a : RankedCandidate F)
      → lookup k slots ≡ some a
      → lookup k (fill_slots F promoted rules slots) ≡ some a
  unfolding fill_slots
  slots_keep [] slots k a h = h
  slots_keep (p ∷ rules) slots k a h =
      slots_keep rules (placed F p p.target_position (promoted p.item_id) slots) k a
        (kept p.target_position (promoted p.item_id))
    where
      kept :
          (t : Option ℕ) (c : Option (RankedCandidate F)) → lookup k (placed F p t c slots) ≡ some a
      kept none c = h
      kept (some n) none = h
      kept (some n) (some c) = lookup-append k slots _ a h

  first_slot :
      (p : PromotionPlacement) (rules : List PromotionPlacement) (n : ℕ) (c : RankedCandidate F)
      → p.target_position ≡ some n
      → promoted p.item_id ≡ some c
      → lookup n (fill_slots F promoted (p ∷ rules) []) ≡ some (marked F p c)
  unfolding fill_slots free_slot
  first_slot p rules n c e e2 =
      slots_keep rules (placed F p p.target_position (promoted p.item_id) []) n (marked F p c) (
        ap (λ t. lookup n (placed F p t (promoted p.item_id) [])) e
        ∙ ap (λ d. lookup n (placed F p (some n) d [])) e2
        ∙ ground arith)

  -- The first of the applied rules, where it asks for a position that the natural candidates that
  -- are left reach, has its candidate, marked as a promotion, at that position of the output.
  pub apply_promotions-first :
      (natural : List (RankedCandidate F)) (placements : List PromotionPlacement)
      (p : PromotionPlacement) (rules : List PromotionPlacement) (n : ℕ) (c : RankedCandidate F)
      → applied placements ≡ p ∷ rules
      → p.target_position ≡ some n
      → promoted p.item_id ≡ some c
      → n ≤ length (natural_rows F (promoted_ids placements) natural)
      → nth n (apply_promotions F natural placements promoted) ≡ some (marked F p c)
  unfolding apply_promotions
  apply_promotions-first natural placements p rules n c first e e2 h =
      let rows = natural_rows F (promoted_ids placements) natural in
      let slots = fill_slots F promoted (applied placements) [] in
      let at : lookup n slots ≡ some (marked F p c) =
        ap (λ l. lookup n (fill_slots F promoted l [])) first ∙ first_slot p rules n c e e2 in
      nth-append n (fill (2 * (length rows + length slots)) 0 rows slots) _ _ (
        fill-honours (2 * (length rows + length slots)) 0 n rows slots (marked F p c)
          (let some_slot = lookup-length n slots (marked F p c) at in omega arith) h
          (ap (λ k. lookup k slots) (omega arith) ∙ at))
