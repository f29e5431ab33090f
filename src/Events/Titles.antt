-- ===== src/Events/Titles.antt =====
-- `title_tokens` and `update_title_preferences` (apps/api/app/events/service.py). A token is a
-- number in the order of the texts.
use microlens_recsys_mvp.Prelude.{
  ℕ, zero, suc, ◌+◌, ◌-◌, String, Bool, false, ◌&&◌, ◌||◌, List, [], ◌∷◌, ◌==◌, ltb, leb, take,
  if◌then◌else◌, ℤ, pos, negsuc,
}
use microlens_recsys_mvp.Prelude.Sorting.{sort_by}
use microlens_recsys_mvp.Events.Rows.{
  ClientEventType, click, like, not_interested, dwell, revisit, share, Preference,
}

abbrev pub title_preference_limit : ℕ
title_preference_limit = 64

abbrev pub title_token_limit : ℕ
title_token_limit = 32

-- `TITLE_BEHAVIOR_WEIGHTS`
abbrev pub title_behavior_weight : ClientEventType → ℤ
title_behavior_weight click = pos 1
title_behavior_weight like = pos 3
title_behavior_weight dwell = pos 1
title_behavior_weight revisit = pos 2
title_behavior_weight share = pos 3
title_behavior_weight not_interested = negsuc 3

abbrev pub token_mem : ℕ → List ℕ → Bool
token_mem t [] = false
token_mem t (u ∷ us) = u == t || token_mem t us

-- `dict.fromkeys`: the first of equal tokens stays.
unfoldable pub distinct_tokens : List ℕ → List ℕ → List ℕ
distinct_tokens seen [] = []
distinct_tokens seen (t ∷ ts) =
    let kept = distinct_tokens (t ∷ seen) ts in
    let rest = distinct_tokens seen ts in if token_mem t seen then rest else t ∷ kept

-- `words` is the normalised title cut into words of at most 64 characters.
abbrev pub title_tokens : (String → List ℕ) → String → List ℕ
title_tokens words title = take title_token_limit (distinct_tokens [] (words title))

abbrev pub min : ℕ → ℕ → ℕ
min a b = if leb a b then a else b

-- `positive - negative`
abbrev pub difference : ℕ → ℕ → ℤ
difference positive negative =
    if ltb positive negative then negsuc (negative - positive - 1) else pos (positive - negative)

-- `max(-100, min(100, score))`
abbrev pub clamp_score : ℤ → ℤ
clamp_score (pos n) = pos (min 100 n)
clamp_score (negsuc n) = negsuc (min 99 n)

abbrev pub magnitude : ℤ → ℕ
magnitude (pos n) = n
magnitude (negsuc n) = suc n

abbrev scored : Preference → Preference
scored p = record p { score = clamp_score (difference p.positive p.negative) }

-- One token of the title: its counts move by the weight, and the score follows.
unfoldable pub weighted : ℤ → Preference → Preference
weighted (pos zero) p = scored (record p { negative = min 100 p.negative })
weighted (pos (suc w)) p = scored (record p { positive = min 100 (p.positive + suc w) })
weighted (negsuc w) p = scored (record p { negative = min 100 (p.negative + suc w) })

-- `setdefault`, and the update of the entry.
unfoldable pub touch : ℤ → ℕ → List Preference → List Preference
touch weight token [] =
    weighted weight (record { token = token; positive = 0; negative = 0; score = pos 0 }) ∷ []
touch weight token (p ∷ ps) =
    let rest = touch weight token ps in
    if p.token == token then weighted weight p ∷ ps else p ∷ rest

abbrev pub touch_all : ℤ → List ℕ → List Preference → List Preference
touch_all weight [] ps = ps
touch_all weight (t ∷ ts) ps = touch_all weight ts (touch weight t ps)

-- `(-abs(score), token)`
abbrev pub preference_order : Preference → Preference → Bool
preference_order p q =
    ltb (magnitude q.score) (magnitude p.score)
    || (magnitude p.score == magnitude q.score && leb p.token q.token)

unfoldable pub update_title_preferences :
    (String → List ℕ) → List Preference → (title : String) → ClientEventType → List Preference
unfolding touch
update_title_preferences words current title event_type = take title_preference_limit (
    sort_by preference_order
      (touch_all (title_behavior_weight event_type) (title_tokens words title) current))
