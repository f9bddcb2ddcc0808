-- ===== src/Scheduler/Choice.antt =====
-- The choice of the scheduler against its specification.
use orc_state.Base.{
  Bool, true, false, List, [], ◌∷◌, ◌++◌, none, some, String, ℕ, ◌+◌, ◌≤◌, ◌<◌, ◌≡◌, refl, arith,
  All, Bool-cases, Option-cases, inl, inr, ap, ltb,
}
use orc_state.Model.Task.{Task, Feature}
use orc_state.Scheduler.{
  Candidate, AgentArg, tasks_of, done_set, id_of, agent_of, is_eligible, collect, priority_rank,
  next_eligible_task_from_backlog,
}
use orc_state.Scheduler.Sorting.{top, first_ref-sort}

-- `t` is the first eligible task of the highest rank: those before it have a lower rank, and those
-- after it no higher one.
pub record IsBest (eligible : Task → Bool) (tasks : List Task) (t : Task) : Type 0 where
  pub before : List Task
  pub rest : List Task
  pub split : tasks ≡ before ++ t ∷ rest
  pub is_allowed : eligible t ≡ true
  pub lower_before :
      All
        (λ (u : Task). eligible u ≡ true → priority_rank u.priority < priority_rank t.priority)
        before
  pub no_higher_after :
      All
        (λ (u : Task). eligible u ≡ true → priority_rank u.priority ≤ priority_rank t.priority)
        rest

top-none :
    (p : Task → Bool) (n : ℕ) (ts : List Task)
    → top (collect p n ts) ≡ none
    → All (λ (u : Task). p u ≡ false) ts
top-none p n [] h = tt
top-none p n (t ∷ ts) h = elim (Bool-cases (p t)) [
  | inl e ↦ absurd (ground arith)
  | inr e ↦ (e, top-none p n ts (ground arith))
]

All-weaken {ℓ κ μ} :
    {A : Type ℓ} {P : A → Type κ} {Q : A → Type μ} (xs : List A)
    → ((a : A) → P a → Q a)
    → All P xs
    → All Q xs
All-weaken [] f h = tt
All-weaken (x ∷ xs) f h = (f x h.0, All-weaken xs f h.1)

All-join {ℓ κ} :
    {A : Type ℓ} (P : A → Type κ) (xs : List A) (y : A) (ys : List A)
    → All P xs
    → P y
    → All P ys
    → All P (xs ++ y ∷ ys)
All-join P [] y ys hx hy hs = (hy, hs)
All-join P (x ∷ xs) y ys hx hy hs = (hx.0, All-join P xs y ys hx.1 hy hs)

best_bounds :
    (p : Task → Bool) (ts : List Task) (t : Task)
    → IsBest p ts t
    → All (λ (u : Task). p u ≡ true → priority_rank u.priority ≤ priority_rank t.priority) ts
best_bounds p ts t b = rw b.split (
    All-join (λ (u : Task). p u ≡ true → priority_rank u.priority ≤ priority_rank t.priority)
      b.before t b.rest (All-weaken b.before (λ u f q. omega (arith, f q)) b.lower_before)
      (λ q. omega arith) b.no_higher_after)

-- The first task is best if nothing after it has a higher rank.
first_IsBest :
    (p : Task → Bool) (t : Task) (ts : List Task)
    → p t ≡ true
    → All (λ (u : Task). p u ≡ true → priority_rank u.priority ≤ priority_rank t.priority) ts
    → IsBest p (t ∷ ts) t
first_IsBest p t ts e h = record {
  before = [];
  rest = ts;
  split = refl;
  is_allowed = e;
  lower_before = tt;
  no_higher_after = h;
}

-- A later task stays best behind one that is not eligible or has a lower rank.
later_IsBest :
    (p : Task → Bool) (t : Task) (ts : List Task) (u : Task)
    → (p t ≡ true → priority_rank t.priority < priority_rank u.priority)
    → IsBest p ts u
    → IsBest p (t ∷ ts) u
later_IsBest p t ts u lower best = record {
  before = t ∷ best.before;
  rest = best.rest;
  split = ap (λ xs. t ∷ xs) best.split;
  is_allowed = best.is_allowed;
  lower_before = (lower, best.lower_before);
  no_higher_after = best.no_higher_after;
}

-- The candidate on top stands for the best task.
top-IsBest :
    (p : Task → Bool) (n : ℕ) (ts : List Task) {c : Candidate}
    → top (collect p n ts) ≡ some c
    → (t : Task) × (t.ref ≡ c.ref) × (priority_rank t.priority ≡ c.rank) × IsBest p ts t
top-IsBest p n [] h = absurd (ground arith)
top-IsBest p n (t ∷ ts) {c} h = elim (Bool-cases (p t)) [
  | inl e ↦ elim (Option-cases (top (collect p (n + 1) ts))) [
    | inl none_after ↦ (
      t,
      ground arith,
      ground arith,
      first_IsBest p t ts e
          (All-weaken ts (λ u f q. absurd (ground arith)) (top-none p (n + 1) ts none_after)),
    )
    | inr (d, after) ↦
        let (u, ref, rank, best) = top-IsBest p (n + 1) ts after in
        elim (Bool-cases (ltb (priority_rank t.priority) d.rank)) [
          | inl lower ↦
              (u, ground arith, ground arith, later_IsBest p t ts u (λ q. ground arith) best)
          | inr not_lower ↦ (
            t,
            ground arith,
            ground arith,
            first_IsBest p t ts e
                (All-weaken ts (λ v f q. ground (arith, f q)) (best_bounds p ts u best)),
          )
        ]
  ]
  | inr e ↦
      let (u, ref, rank, best) = top-IsBest p n ts {c = c} (ground arith) in
      (u, ref, rank, later_IsBest p t ts u (λ q. ground arith) best)
]

-- The eligibility test of one call.
abbrev pub eligible_in : ℕ → List String → AgentArg → List Feature → Task → Bool
eligible_in now exclude arg features =
    is_eligible now exclude (done_set (tasks_of features)) (id_of arg) (agent_of arg)

-- If the scheduler names a task, it is an eligible task of the backlog whose priority no eligible
-- task exceeds, and the first of those of its priority.
pub next_eligible_task_IsBest :
    (now : ℕ) (exclude : List String) (arg : AgentArg) (features : List Feature) {ref : String}
    → next_eligible_task_from_backlog now exclude arg features ≡ some ref
    → (t : Task) × (t.ref ≡ ref)
      × IsBest (eligible_in now exclude arg features) (tasks_of features) t
unfolding next_eligible_task_from_backlog
next_eligible_task_IsBest now exclude arg features {ref} h =
    let p = eligible_in now exclude arg features in
    let tasks = tasks_of features in
    elim (Option-cases (top (collect p 0 tasks))) [
      | inl e ↦ absurd (ground (arith, first_ref-sort p tasks))
      | inr (c, e) ↦
          let (t, same, rank, best) = top-IsBest p 0 tasks e in
          (t, ground (arith, first_ref-sort p tasks), best)
    ]

-- If the scheduler names no task, no task of the backlog is eligible.
next_eligible_task_none :
    (now : ℕ) (exclude : List String) (arg : AgentArg) (features : List Feature)
    → next_eligible_task_from_backlog now exclude arg features ≡ none
    → All (λ (t : Task). eligible_in now exclude arg features t ≡ false) (tasks_of features)
unfolding next_eligible_task_from_backlog
next_eligible_task_none now exclude arg features h =
    let p = eligible_in now exclude arg features in
    top-none p 0 (tasks_of features) (ground (arith, first_ref-sort p (tasks_of features)))
