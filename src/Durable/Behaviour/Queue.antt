-- ===== src/Durable/Behaviour/Queue.antt =====
-- In which order queued jobs are claimed.
use microlens_recsys_mvp.Prelude.{
  ℕ, ◌≤◌, ◌<◌, ltb, ◌⊎◌, inl, inr, Bool-cases, ap, All-select, All-head, String, Bool, true, false,
  ◌≡◌, refl, sym, subst, Option, none, some, List, [], ◌∷◌, All, All-map, All-unselect, select,
  head?, arith,
}
use microlens_recsys_mvp.Prelude.Sorting.{
  IsSorted, All-Mem, All-sort_by, sort_by-IsSorted, All-of-sort_by,
}
use mathlib.Core.List.{Mem}
use microlens_recsys_mvp.Durable.Domain.{JobState, queued, running, succeeded, failed, cancelled}
use microlens_recsys_mvp.Durable.Rows.{JobRow, Held, is_queued}
use microlens_recsys_mvp.Durable.Repository.Claim.{named, is_claimable, due_order, queued_claim}

due_total : (a b : JobRow) → due_order a b ≡ false → due_order b a ≡ true
due_total a b h = ground arith

due_trans : (a b c : JobRow) → due_order a b ≡ true → due_order b c ≡ true → due_order a c ≡ true
due_trans a b c h k = ground arith

due_refl : (a : JobRow) → due_order a a ≡ true
due_refl a = ground arith

-- The head of a list that is sorted comes before every element of it.
head_first :
    (rows : List JobRow) (job : JobRow)
    → IsSorted due_order rows
    → head? rows ≡ some job
    → All (λ r. due_order job r ≡ true) rows
head_first [] job sorted e = absurd (ground arith)
head_first (r ∷ rows) job sorted e =
    subst (λ j. All (λ s. due_order j s ≡ true) (r ∷ rows)) first (due_refl r, sorted.0)
  where
    first : r ≡ job
    first = ground arith

-- The job is queued and due, its task is one of the names, if names are given, and no other
-- transaction has locked it.
abbrev pub MayClaim : Held → ℕ → Option (List String) → JobRow → Type 0
MayClaim held now names job =
    (job.status ≡ queued)
    × (job.due_at ≤ now)
    × (named names job.task_name ≡ true)
    × (held.jobs job.job_id ≡ false)

-- Due earlier, or as early and created earlier, or as early and with an id that is not greater.
abbrev pub ComesFirst : JobRow → JobRow → Type 0
ComesFirst a b =
    (a.due_at < b.due_at)
    ⊎ ((a.due_at ≡ b.due_at)
        × ((a.created_at < b.created_at) ⊎ ((a.created_at ≡ b.created_at) × (a.job_id ≤ b.job_id))))

is_queued→eq : (s : JobState) → is_queued s ≡ true → s ≡ queued
is_queued→eq queued h = refl
is_queued→eq running h = absurd (cc)
is_queued→eq succeeded h = absurd (cc)
is_queued→eq failed h = absurd (cc)
is_queued→eq cancelled h = absurd (cc)

claimable-MayClaim :
    (held : Held) (now : ℕ) (names : Option (List String)) (job : JobRow)
    → is_claimable held now names job ≡ true
    → MayClaim held now names job
claimable-MayClaim held now names job h =
    (is_queued→eq job.status (ground arith), ground arith, ground arith, ground arith)

MayClaim-claimable :
    (held : Held) (now : ℕ) (names : Option (List String)) (job : JobRow)
    → MayClaim held now names job
    → is_claimable held now names job ≡ true
MayClaim-claimable held now names job (waits, due, task, free) =
    let is : is_queued job.status ≡ true = ap is_queued waits in ground arith

due_order-ComesFirst : (a b : JobRow) → due_order a b ≡ true → ComesFirst a b
due_order-ComesFirst a b h = elim (Bool-cases (ltb a.due_at b.due_at)) [
  | inl early ↦ inl (ground arith)
  | inr late ↦
      let due : a.due_at ≡ b.due_at = ground arith in
      inr (
        due,
        elim (Bool-cases (ltb a.created_at b.created_at)) [
          | inl older ↦ inl (ground arith)
          | inr younger ↦ inr (ground arith, ground arith)
        ],
      )
]

-- The job that the claim query returns is in the table, queued, due, with one of the names asked
-- for and not locked, and it comes before every other such job of the table: it is due earlier, or
-- as early and created earlier, or as early and with a smaller id.
pub queued_claim_first :
    (held : Held) (now : ℕ) (names : Option (List String)) (jobs : List JobRow) (job : JobRow)
    → queued_claim held now names jobs ≡ some job
    → Mem job jobs
      × MayClaim held now names job
      × All (λ r. MayClaim held now names r → ComesFirst job r) jobs
unfolding queued_claim
queued_claim_first held now names jobs job e =
    let (present, may) =
      All-head _ _ job
        (All-sort_by due_order _ _
          (All-select (λ r. Mem r jobs) (is_claimable held now names) jobs (All-Mem jobs)))
        e in
    (
      present,
      claimable-MayClaim held now names job may,
      All-map
          (λ r h allowed.
            due_order-ComesFirst job r (h (MayClaim-claimable held now names r allowed)))
          jobs
          (All-unselect (λ r. due_order job r ≡ true) (is_claimable held now names) jobs
            (All-of-sort_by due_order (λ r. due_order job r ≡ true)
              (select (is_claimable held now names) jobs)
              (head_first _ job (sort_by-IsSorted due_order due_total due_trans _) e))),
    )

head_none : (rows : List JobRow) → head? rows ≡ none → rows ≡ []
head_none [] e = refl
head_none (r ∷ rows) e = cc

-- Where the query returns no job, no job of the table can be claimed.
pub queued_claim-none :
    (held : Held) (now : ℕ) (names : Option (List String)) (jobs : List JobRow)
    → queued_claim held now names jobs ≡ none
    → All (λ r. is_claimable held now names r ≡ false) jobs
unfolding queued_claim
queued_claim-none held now names jobs e =
    All-map (λ r h. refuse r (is_claimable held now names r) h) jobs
      (All-unselect (λ _. ⊥) (is_claimable held now names) jobs
        (All-of-sort_by due_order (λ _. ⊥) (select (is_claimable held now names) jobs)
          (subst (All (λ _. ⊥)) (sym (head_none _ e)) tt)))
  where
    refuse : (r : JobRow) (b : Bool) → (b ≡ true → ⊥) → b ≡ false
    refuse r true h = absurd (h refl)
    refuse r false h = refl
