-- ===== src/Events/Bounds.antt =====
-- Bounds of the profile (apps/api/app/events/service.py).
use microlens_recsys_mvp.Prelude.{
  ℕ, zero, suc, ◌+◌, ◌≤◌, String, ◌≡◌, refl, inl, inr, List, [], ◌∷◌, ◌==◌, All, All-take, take,
  length, Bool-cases, ℤ, pos, negsuc, arith,
}
use microlens_recsys_mvp.Prelude.Sorting.{All-sort_by}
use microlens_recsys_mvp.Events.Rows.{
  ClientEventType, click, like, not_interested, dwell, revisit, share, Preference, UserProfile,
}
use microlens_recsys_mvp.Events.Titles.{
  title_behavior_weight, title_tokens, min, difference, clamp_score, magnitude, weighted, touch,
  touch_all, preference_order, update_title_preferences,
}
use microlens_recsys_mvp.Events.Profile.{
  EventRequest, interaction, next_profile, with_type, with_sentiment,
}

-- The counts and the score of a token are at most 100.
abbrev pub InRange : Preference → Type 0
InRange p = (p.positive ≤ 100) × (p.negative ≤ 100) × (magnitude p.score ≤ 100)

pub record IsBounded (p : UserProfile) : Type 0 where
  pub recent : length p.recent_interactions ≤ 100
  pub tokens : length p.title_preferences ≤ 64
  pub ranges : All InRange p.title_preferences

clamp_score_range : (z : ℤ) → magnitude (clamp_score z) ≤ 100
clamp_score_range (pos n) = ground arith
clamp_score_range (negsuc n) = ground arith

weighted-InRange : (w : ℤ) (p : Preference) → InRange p → InRange (weighted w p)
unfolding weighted
weighted-InRange (pos zero) p h =
    (h.0, ground arith, clamp_score_range (difference p.positive (min 100 p.negative)))
weighted-InRange (pos (suc w)) p h =
    (ground arith, h.1, clamp_score_range (difference (min 100 (p.positive + suc w)) p.negative))
weighted-InRange (negsuc w) p h =
    (h.0, ground arith, clamp_score_range (difference p.positive (min 100 (p.negative + suc w))))

touch-InRange : (w : ℤ) (t : ℕ) (ps : List Preference) → All InRange ps → All InRange (touch w t ps)
unfolding touch
touch-InRange w t [] h = (
  weighted-InRange w (record { token = t; positive = 0; negative = 0; score = pos 0 })
      (omega arith, omega arith, omega arith),
  tt,
)
touch-InRange w t (p ∷ ps) h = elim (Bool-cases (p.token == t)) [
  | inl hit ↦ rw hit (weighted-InRange w p h.0, h.1)
  | inr miss ↦ rw miss (h.0, touch-InRange w t ps h.1)
]

touch_all-InRange :
    (w : ℤ) (ts : List ℕ) (ps : List Preference) → All InRange ps → All InRange (touch_all w ts ps)
touch_all-InRange w [] ps h = h
touch_all-InRange w (t ∷ ts) ps h = touch_all-InRange w ts (touch w t ps) (touch-InRange w t ps h)

pub length-take-le {ℓ} : {A : Type ℓ} (n : ℕ) (xs : List A) → length (take n xs) ≤ n
length-take-le zero xs = omega arith
length-take-le (suc n) [] = omega arith
length-take-le (suc n) (x ∷ xs) = omega (arith, length-take-le n xs)

pub update_title_preferences-InRange :
    (words : String → List ℕ) (current : List Preference) (title : String)
    (event_type : ClientEventType)
    → All InRange current
    → All InRange (update_title_preferences words current title event_type)
      × (length (update_title_preferences words current title event_type) ≤ 64)
unfolding update_title_preferences
update_title_preferences-InRange words current title event_type h = (
  All-take InRange 64 _ (
      All-sort_by preference_order InRange _ (
        touch_all-InRange (title_behavior_weight event_type) (title_tokens words title) current h)),
  length-take-le 64 _,
)

recent_kept :
    (request : EventRequest) (type : ClientEventType) (p : UserProfile)
    → (with_type request type (with_sentiment request type p)).recent_interactions
      ≡ p.recent_interactions
recent_kept request click p = refl
recent_kept request like p = refl
recent_kept request not_interested p = refl
recent_kept request dwell p = refl
recent_kept request revisit p = refl
recent_kept request share p = refl

user_kept :
    (request : EventRequest) (type : ClientEventType) (p : UserProfile)
    → (with_type request type (with_sentiment request type p)).user_id ≡ p.user_id
user_kept request click p = refl
user_kept request like p = refl
user_kept request not_interested p = refl
user_kept request dwell p = refl
user_kept request revisit p = refl
user_kept request share p = refl

pub next_profile-user :
    (words : String → List ℕ) (request : EventRequest) (title : String) (now : ℕ) (p : UserProfile)
    → ((next_profile words request title now p).user_id ≡ p.user_id)
      × ((next_profile words request title now p).profile_version ≡ p.profile_version + 1)
unfolding next_profile
next_profile-user words request title now p = (user_kept request request.event_type _, refl)

-- One event keeps a profile bounded.
pub next_profile-IsBounded :
    (words : String → List ℕ) (request : EventRequest) (title : String) (now : ℕ) (p : UserProfile)
    → IsBounded p
    → IsBounded (next_profile words request title now p)
unfolding next_profile
next_profile-IsBounded words request title now p b =
    let (ranges, tokens) =
      update_title_preferences-InRange words p.title_preferences title request.event_type
        b.ranges in
    record {
      recent =
          rw (recent_kept request request.event_type)
            (length-take-le 100 (interaction request now ∷ p.recent_interactions));
      tokens = tokens;
      ranges = ranges;
    }
