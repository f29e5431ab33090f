-- ===== src/Feeds/Placement.antt =====
-- `apply_promotions` (apps/api/app/feeds/ranking.py).
use Prim.Native.String.{◌++◌ as str_append}
use microlens_recsys_mvp.Prelude.{
  ℕ, zero, suc, ◌+◌, ◌*◌, String, Bool, true, false, ◌&&◌, ◌||◌, not, Option, none, some, List, [],
  ◌∷◌, ◌++◌, ◌==◌, length, ltb, select, str_mem, is_some, if◌then◌else◌,
}
use microlens_recsys_mvp.Prelude.Sorting.{sort_by}
use microlens_recsys_mvp.Prelude.Floats.{Floats}
use microlens_recsys_mvp.Feeds.Candidates.{RankedCandidate, PromotionPlacement, str_lt}

abbrev or_zero : Option ℕ → ℕ
or_zero none = 0
or_zero (some n) = n

abbrev same_flag : Bool → Bool → Bool
same_flag true b = b
same_flag false b = not b

-- By (-priority, no position, position or 0, rule id).
abbrev pub placement_order : PromotionPlacement → PromotionPlacement → Bool
placement_order a b =
    ltb b.priority a.priority
    || (a.priority == b.priority
        && ((is_some a.target_position && not (is_some b.target_position))
            || (same_flag (is_some a.target_position) (is_some b.target_position)
                && (ltb (or_zero a.target_position) (or_zero b.target_position)
                    || (or_zero a.target_position == or_zero b.target_position
                        && not (str_lt b.rule_id a.rule_id))))))

-- A dict from numbers, with its keys in no order that is read.
module _ {ℓ} {A : Type ℓ} where
  abbrev pub lookup : ℕ → List (ℕ × A) → Option A
  lookup k [] = none
  lookup k ((i, a) ∷ rest) = if i == k then some a else lookup k rest

  -- `slots.pop(k)`
  abbrev pub without : ℕ → List (ℕ × A) → List (ℕ × A)
  without k [] = []
  without k ((i, a) ∷ rest) =
      let others = without k rest in if i == k then rest else (i, a) ∷ others

  -- `min(slots)`
  abbrev pub least_key : ℕ → List (ℕ × A) → ℕ
  least_key k [] = k
  least_key k ((i, _) ∷ rest) = least_key (if ltb i k then i else k) rest

  abbrev pub min_key : List (ℕ × A) → ℕ
  min_key [] = 0
  min_key ((i, _) ∷ rest) = least_key i rest

  -- `while slot in slots: slot += 1`, on fuel.
  unfoldable pub free_slot : ℕ → ℕ → List (ℕ × A) → ℕ
  free_slot zero slot slots = slot
  free_slot (suc fuel) slot slots =
      let later = free_slot fuel (slot + 1) slots in
      if is_some (lookup slot slots) then later else slot

  -- One turn of the loop that fills the output, with the turns that follow it: the slot of the
  -- position, or else the next natural row, or else, where only slots remain, the first of them.
  abbrev pub fill_turn :
      (ℕ → List A → List (ℕ × A) → List A) → ℕ → Option A → List A → List (ℕ × A) → List A
  fill_turn next position (some a) natural slots =
      a ∷ next (position + 1) natural (without position slots)
  fill_turn next position none (n ∷ natural) slots = n ∷ next (position + 1) natural slots
  fill_turn next position none [] [] = []
  fill_turn next position none [] (s ∷ rest) = next (min_key (s ∷ rest)) [] (s ∷ rest)

  -- The loop, on fuel.
  unfoldable pub fill : ℕ → ℕ → List A → List (ℕ × A) → List A
  fill zero position natural slots = []
  fill (suc fuel) position natural slots =
      fill_turn (fill fuel) position (lookup position slots) natural slots

module _ (F : Floats) where
  -- The rules that are applied, and the ids of their items.
  abbrev pub select_rules :
      (String → Option (RankedCandidate F))
      → List String
      → List PromotionPlacement
      → List PromotionPlacement × List String
  select_rules promoted seen [] = ([], seen)
  select_rules promoted seen (p ∷ placements) =
      let skipped = select_rules promoted seen placements in
      let (rules, all_seen) = select_rules promoted (p.item_id ∷ seen) placements in
      if str_mem p.item_id seen || not (is_some (promoted p.item_id))
      then skipped
      else (p ∷ rules, all_seen)

  abbrev pub marked : PromotionPlacement → RankedCandidate F → RankedCandidate F
  marked p c = record c {
    source = "promotion";
    sources = "promotion" ∷ [];
    reason = str_append "promotion:" p.reason;
    promotion_rule_id = some p.rule_id;
  }

  -- The promoted candidate of a rule, as a list of one.
  abbrev pub promotion_of :
      PromotionPlacement → Option (RankedCandidate F) → List (RankedCandidate F)
  promotion_of p none = []
  promotion_of p (some c) = marked p c ∷ []

  -- The slots with that of a rule, if it has a position.
  abbrev pub placed :
      PromotionPlacement
      → Option ℕ
      → Option (RankedCandidate F)
      → List (ℕ × RankedCandidate F)
      → List (ℕ × RankedCandidate F)
  placed p (some position) (some c) slots =
      slots ++ (free_slot (length slots) position slots, marked p c) ∷ []
  placed p (some position) none slots = slots
  placed p none _ slots = slots

  unfoldable pub fill_slots :
      (String → Option (RankedCandidate F))
      → List PromotionPlacement
      → List (ℕ × RankedCandidate F)
      → List (ℕ × RankedCandidate F)
  unfolding free_slot
  fill_slots promoted [] slots = slots
  fill_slots promoted (p ∷ rules) slots =
      fill_slots promoted rules (placed p p.target_position (promoted p.item_id) slots)

  -- The rules with no position, at the end.
  abbrev pub unplaced :
      (String → Option (RankedCandidate F)) → List PromotionPlacement → List (RankedCandidate F)
  unplaced promoted [] = []
  unplaced promoted (p ∷ rules) =
      let rest = unplaced promoted rules in
      if is_some p.target_position then rest else promotion_of p (promoted p.item_id) ++ rest

  abbrev pub natural_rows : List String → List (RankedCandidate F) → List (RankedCandidate F)
  natural_rows seen = select (λ (c : RankedCandidate F). not (str_mem c.item_id seen))

  unfoldable pub apply_promotions :
      List (RankedCandidate F)
      → List PromotionPlacement
      → (String → Option (RankedCandidate F))
      → List (RankedCandidate F)
  unfolding sort_by fill fill_slots
  apply_promotions natural placements promoted =
      let (rules, seen) = select_rules promoted [] (sort_by placement_order placements) in
      let rows = natural_rows seen natural in
      let slots = fill_slots promoted rules [] in
      fill (2 * (length rows + length slots)) 0 rows slots ++ unplaced promoted rules
