-- ===== src/Dispatch/Plan.antt =====
-- A dispatch plan gives no task to two agents, and each agent a task that it may take.
use orc_state.Base.{
  false, List, [], ◌∷◌, Option, some, String, ℕ, ◌≡◌, refl, arith, ◌==◌, eq_iff, All, Bool-cases,
  Option-cases, inl, inr, includes, map,
}
use orc_state.Model.Task.{Feature, Task}
use orc_state.Model.Agent.{Agent}
use orc_state.Scheduler.{by_agent, next_eligible_task_from_backlog}
use orc_state.Scheduler.Ready.{IsDispatchable, next_eligible_task-IsDispatchable}
use orc_state.Dispatch.{Assignment, plan_from, build_dispatch_plan}

-- A picker that leaves out what is reserved.
abbrev Respects : (Agent → List String → Option String) → Type 0
Respects pick =
    (a : Agent) (reserved : List String) (ref : String)
    → pick a reserved ≡ some ref
    → includes reserved ref ≡ false

abbrev pub refs_of : List Assignment → List String
refs_of plan = map (λ p. p.task_ref) plan

abbrev pub AllDistinct : List String → Type 0
AllDistinct [] = Unit
AllDistinct (x ∷ xs) = (includes xs x ≡ false) × AllDistinct xs

-- None of the texts is in the list.
abbrev Apart : List String → List String → Type 0
Apart reserved refs = All (λ r. includes reserved r ≡ false) refs

Apart-includes :
    (x : String) (reserved refs : List String) → Apart (x ∷ reserved) refs → includes refs x ≡ false
Apart-includes x reserved [] h = refl
Apart-includes x reserved (r ∷ rs) h =
    ground (arith, h.0, eq_iff x r, eq_iff r x, Apart-includes x reserved rs h.1)

Apart-tail :
    (x : String) (reserved refs : List String) → Apart (x ∷ reserved) refs → Apart reserved refs
Apart-tail x reserved [] h = tt
Apart-tail x reserved (r ∷ rs) h = (ground (arith, h.0), Apart-tail x reserved rs h.1)

module _ (pick : Agent → List String → Option String) (respects : Respects pick) where
  plan_from-distinct :
      (reserved : List String) (agents : List Agent)
      → AllDistinct (refs_of (plan_from pick reserved agents))
        × Apart reserved (refs_of (plan_from pick reserved agents))
  unfolding plan_from
  plan_from-distinct reserved [] = (tt, tt)
  plan_from-distinct reserved (a ∷ rest) = elim (Option-cases (pick a reserved)) [
    | inl e ↦ rw (e, plan_from) (plan_from-distinct reserved rest)
    | inr (ref, e) ↦ elim (Bool-cases (ref == "")) [
      | inl blank ↦ rw (e, plan_from) (rw blank (plan_from-distinct reserved rest))
      | inr named ↦
          let (distinct, apart) = plan_from-distinct (ref ∷ reserved) rest in
          rw (e, plan_from)
            (rw named (
              (Apart-includes ref reserved _ apart, distinct),
              (respects a reserved ref e, Apart-tail ref reserved _ apart),
            ))
    ]
  ]

-- The scheduler as a picker.
abbrev pub schedule : ℕ → List Feature → Agent → List String → Option String
schedule now features a reserved =
    next_eligible_task_from_backlog now reserved (by_agent a) features

schedule-Respects : (now : ℕ) (features : List Feature) → Respects (schedule now features)
schedule-Respects now features a reserved ref h =
    let (t, same, d) = next_eligible_task-IsDispatchable now reserved (by_agent a) features h in
    rw (← same) d.not_excluded

-- The assignment names a task that its agent may take.
abbrev pub Suits : ℕ → List Feature → Assignment → Type 0
Suits now features p =
    (t : Task) × (t.ref ≡ p.task_ref) × IsDispatchable now [] (by_agent p.agent) features t

schedule-Suits :
    (now : ℕ) (features : List Feature) (a : Agent) (reserved : List String) (ref : String)
    → schedule now features a reserved ≡ some ref
    → Suits now features (record { agent = a; task_ref = ref })
schedule-Suits now features a reserved ref h =
    let (t, same, d) = next_eligible_task-IsDispatchable now reserved (by_agent a) features h in
    (
      t,
      same,
      record {
        is_todo = d.is_todo;
        not_excluded = refl;
        planned = d.planned;
        backed_off = d.backed_off;
        owned = d.owned;
        routed = d.routed;
        dependencies = d.dependencies;
      },
    )

module _ (now : ℕ) (features : List Feature) where
  plan_from-Suits :
      (reserved : List String) (agents : List Agent)
      → All (Suits now features) (plan_from (schedule now features) reserved agents)
  unfolding plan_from
  plan_from-Suits reserved [] = tt
  plan_from-Suits reserved (a ∷ rest) = elim (Option-cases (schedule now features a reserved)) [
    | inl e ↦ rw (e, plan_from) (plan_from-Suits reserved rest)
    | inr (ref, e) ↦ elim (Bool-cases (ref == "")) [
      | inl blank ↦ rw (e, plan_from) (rw blank (plan_from-Suits reserved rest))
      | inr named ↦
          rw (e, plan_from)
            (rw named
              (schedule-Suits now features a reserved ref e, plan_from-Suits (ref ∷ reserved) rest))
    ]
  ]

-- A plan made with the scheduler gives no task to two agents, and gives each agent a task that the
-- scheduler may dispatch to it.
pub build_dispatch_plan-Suits :
    (now : ℕ) (features : List Feature) (agents : List Agent)
    → AllDistinct (refs_of (build_dispatch_plan (schedule now features) agents))
      × All (Suits now features) (build_dispatch_plan (schedule now features) agents)
unfolding build_dispatch_plan
build_dispatch_plan-Suits now features agents = (
  (plan_from-distinct (schedule now features) (schedule-Respects now features) [] agents).0,
  plan_from-Suits now features [] agents,
)
