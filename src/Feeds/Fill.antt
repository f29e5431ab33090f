-- ===== src/Feeds/Fill.antt =====
-- The loop of `apply_promotions` that fills the output (apps/api/app/feeds/ranking.py).
use microlens_recsys_mvp.Prelude.{
  ℕ, zero, suc, ◌+◌, ◌*◌, ◌≤◌, ◌<◌, ◌≡◌, ◌≢◌, ◌⊎◌, refl, sym, ap, ◌∙◌, subst, inl, inr, Option,
  none, some, Bool-cases, List, [], ◌∷◌, ◌++◌, map, ◌==◌, length, ltb, is_some, if◌then◌else◌,
  arith,
}
use mathlib.Core.List.{Perm}
use mathlib.Core.List.Perm
use microlens_recsys_mvp.Feeds.Placement.{lookup, without, least_key, min_key, fill_turn, fill}

module _ {A : Type 0} where
  abbrev pub values : List (ℕ × A) → List A
  values = map (λ (s : ℕ × A). s.1)

  -- Taking out a slot that is found takes out its row.
  without-perm :
      (k : ℕ) (slots : List (ℕ × A)) (a : A)
      → lookup k slots ≡ some a
      → Perm (a ∷ values (without k slots)) (values slots)
  without-perm k [] a h = ground arith
  without-perm k ((i, b) ∷ rest) a h = elim (Bool-cases (i == k)) [
    | inl hit ↦
        rw hit (subst (λ c. Perm (c ∷ values rest) (b ∷ values rest)) (ground arith) (Perm.refl _))
    | inr miss ↦
        rw miss (Perm.trans (Perm.swap _ _ _) (Perm.cons b (without-perm k rest a (ground arith))))
  ]

  length-without :
      (k : ℕ) (slots : List (ℕ × A)) (a : A)
      → lookup k slots ≡ some a
      → length (without k slots) + 1 ≡ length slots
  length-without k [] a h = ground arith
  length-without k ((i, b) ∷ rest) a h = elim (Bool-cases (i == k)) [
    | inl hit ↦ rw hit (ground arith)
    | inr miss ↦ rw miss (let ih = length-without k rest a (ground arith) in ground arith)
  ]

  lookup-here : (k i : ℕ) (a : A) (rest : List (ℕ × A)) → i ≡ k → lookup k ((i, a) ∷ rest) ≡ some a
  lookup-here k i a rest e = ground arith

  lookup-cons :
      (k i : ℕ) (a b : A) (rest : List (ℕ × A))
      → lookup k rest ≡ some b
      → (c : A) × (lookup k ((i, a) ∷ rest) ≡ some c)
  lookup-cons k i a b rest e = elim (Bool-cases (i == k)) [
    | inl here ↦ (a, ground arith)
    | inr there ↦ (b, ground arith)
  ]

  -- The least key is the key of a slot.
  least_key-found :
      (k : ℕ) (rest : List (ℕ × A))
      → (least_key k rest ≡ k) ⊎ ((a : A) × (lookup (least_key k rest) rest ≡ some a))
  least_key-found k [] = inl refl
  least_key-found k ((i, a) ∷ rest) = elim (least_key-found (if ltb i k then i else k) rest) [
    | inl own ↦ elim (Bool-cases (ltb i k)) [
      | inl less ↦
          inr (a, lookup-here (least_key (if ltb i k then i else k) rest) i a rest (ground arith))
      | inr more ↦ inl (ground arith)
    ]
    | inr (b, found) ↦
        inr (lookup-cons (least_key (if ltb i k then i else k) rest) i a b rest found)
  ]

  min_key-found :
      (s : ℕ × A) (rest : List (ℕ × A))
      → (a : A) × (lookup (min_key (s ∷ rest)) (s ∷ rest) ≡ some a)
  min_key-found (i, b) rest = elim (least_key-found i rest) [
    | inl own ↦ (b, lookup-here (least_key i rest) i b rest (sym own))
    | inr (c, found) ↦ lookup-cons (least_key i rest) i b c rest found
  ]

  abbrev pub hit : ℕ → List (ℕ × A) → ℕ
  hit position slots = if is_some (lookup position slots) then 1 else 0

  hit-found :
      (position : ℕ) (slots : List (ℕ × A)) (a : A)
      → lookup position slots ≡ some a
      → hit position slots ≡ 1
  hit-found position slots a h = ground arith

  hit-absent :
      (position : ℕ) (slots : List (ℕ × A)) → lookup position slots ≡ none → hit position slots ≡ 0
  hit-absent position slots h = ground arith

  hit_bounded : (position : ℕ) (slots : List (ℕ × A)) → hit position slots ≤ length slots
  hit_bounded position [] = ground arith
  hit_bounded position (s ∷ slots) = ground arith

  pub perm_middle : (a : A) (l r : List A) → Perm (a ∷ (l ++ r)) (l ++ a ∷ r)
  perm_middle a [] r = Perm.refl _
  perm_middle a (x ∷ l) r = Perm.trans (Perm.swap _ _ _) (Perm.cons x (perm_middle a l r))

  pub perm_after : (l r s : List A) → Perm r s → Perm (l ++ r) (l ++ s)
  perm_after [] r s p = p
  perm_after (x ∷ l) r s p = Perm.cons x (perm_after l r s p)

  -- What a turn outputs, if the turns that follow it output all their rows.
  turn-perm :
      (fuel : ℕ) (next : ℕ → List A → List (ℕ × A) → List A)
      (all_output : (position : ℕ) (natural : List A) (slots : List (ℕ × A))
        → 2 * (length natural + length slots) ≤ fuel + hit position slots
        → Perm (next position natural slots) (natural ++ values slots))
      (position : ℕ) (found : Option A) (natural : List A) (slots : List (ℕ × A))
      → lookup position slots ≡ found
      → 2 * (length natural + length slots) ≤ suc fuel + hit position slots
      → Perm (fill_turn next position found natural slots) (natural ++ values slots)
  turn-perm fuel next ih position (some a) natural slots e h =
      Perm.trans
        (Perm.cons a (
          ih (position + 1) natural (without position slots) (
            let less = length-without position slots a e in
            let one = hit-found position slots a e in omega arith)))
        (Perm.trans (perm_middle a natural (values (without position slots)))
          (perm_after natural _ _ (without-perm position slots a e)))
  turn-perm fuel next ih position none (n ∷ natural) slots e h =
      Perm.cons n (
        ih (position + 1) natural slots
          (let none_here = hit-absent position slots e in omega arith))
  turn-perm fuel next ih position none [] [] e h = Perm.refl []
  turn-perm fuel next ih position none [] (s ∷ rest) e h =
      let (a, found) = min_key-found s rest in
      ih (min_key (s ∷ rest)) [] (s ∷ rest) (
        let none_here = hit-absent position (s ∷ rest) e in
        let one = hit-found (min_key (s ∷ rest)) (s ∷ rest) a found in omega arith)

  -- On two units of fuel for a row, one of them spent where the position has a slot, the loop
  -- outputs the natural rows and the slots, each once.
  pub fill-perm :
      (fuel position : ℕ) (natural : List A) (slots : List (ℕ × A))
      → 2 * (length natural + length slots) ≤ fuel + hit position slots
      → Perm (fill fuel position natural slots) (natural ++ values slots)
  unfolding fill
  fill-perm zero position [] [] h = Perm.refl []
  fill-perm zero position [] (s ∷ slots) h =
      absurd (let b = hit_bounded position (s ∷ slots) in omega arith)
  fill-perm zero position (n ∷ natural) slots h =
      absurd (let b = hit_bounded position slots in omega arith)
  fill-perm (suc fuel) position natural slots h =
      turn-perm fuel (fill fuel) (fill-perm fuel) position (lookup position slots) natural slots
        refl h

  abbrev pub nth : ℕ → List A → Option A
  nth n [] = none
  nth zero (x ∷ xs) = some x
  nth (suc n) (x ∷ xs) = nth n xs

  lookup-without :
      (k j : ℕ) (slots : List (ℕ × A)) → k ≢ j → lookup k (without j slots) ≡ lookup k slots
  lookup-without k j [] h = refl
  lookup-without k j ((i, a) ∷ rest) h = ground (arith, lookup-without k j rest h)

  honours_turn :
      (fuel : ℕ) (next : ℕ → List A → List (ℕ × A) → List A)
      (honours : (position d : ℕ) (natural : List A) (slots : List (ℕ × A)) (c : A)
        → d < fuel
        → d ≤ length natural
        → lookup (position + d) slots ≡ some c
        → nth d (next position natural slots) ≡ some c)
      (position d : ℕ) (found : Option A) (natural : List A) (slots : List (ℕ × A)) (c : A)
      → lookup position slots ≡ found
      → d < suc fuel
      → d ≤ length natural
      → lookup (position + d) slots ≡ some c
      → nth d (fill_turn next position found natural slots) ≡ some c
  honours_turn fuel next ih position zero (some a) natural slots c e f h at =
      sym e ∙ ap (λ k. lookup k slots) (omega arith) ∙ at
  honours_turn fuel next ih position (suc d) (some a) natural slots c e f h at =
      ih (position + 1) d natural (without position slots) c (omega arith) (omega arith) (
        lookup-without (position + 1 + d) position slots (λ q. omega arith)
        ∙ ap (λ k. lookup k slots) (omega arith)
        ∙ at)
  honours_turn fuel next ih position zero none natural slots c e f h at =
      absurd (cc (e, at, ap (λ k. lookup k slots) (the_position position)))
    where
      the_position : (n : ℕ) → n + 0 ≡ n
      the_position n = omega arith
  honours_turn fuel next ih position (suc d) none (n ∷ natural) slots c e f h at =
      ih (position + 1) d natural slots c (omega arith) (omega arith)
        (ap (λ k. lookup k slots) (omega arith) ∙ at)
  honours_turn fuel next ih position (suc d) none [] slots c e f h at = absurd (omega arith)

  -- A slot stands at its position, where the natural rows reach it.
  pub fill-honours :
      (fuel position d : ℕ) (natural : List A) (slots : List (ℕ × A)) (c : A)
      → d < fuel
      → d ≤ length natural
      → lookup (position + d) slots ≡ some c
      → nth d (fill fuel position natural slots) ≡ some c
  unfolding fill
  fill-honours zero position d natural slots c f h at = absurd (omega arith)
  fill-honours (suc fuel) position d natural slots c f h at =
      honours_turn fuel (fill fuel) (fill-honours fuel) position d (lookup position slots) natural
        slots c refl f h at
