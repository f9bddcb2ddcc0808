-- ===== src/Manager/Sweep.antt =====
-- What a sweep of the leases leaves.
use mathlib.Core.Path.{subst}
use orc_state.Base.{
  Bool, true, false, List, [], ◌∷◌, some, String, ℕ, ◌≡◌, ◌⊎◌, refl, sym, ◌∙◌, arith, ap, eq_iff,
  ◌==◌, All, Bool-cases, Option-cases, Result-cases, inl, inr,
}
use orc_state.Model.Claim.{Claim}
use orc_state.Model.Task.{Task, Backlog, is_running, is_finished}
use orc_state.Runs.Update.{AllFollow, IsTable, run_ids-follow, RowsOf-follow}
use orc_state.Contract.{Cause}
use orc_state.Base.Time.{Stamp, iso}
use orc_state.Store.Schema.{Db}
use orc_state.Projects.{Changes, Metadata, commit_backlog}
use orc_state.Projects.Reading.{read_project_backlog}
use orc_state.Runs.{Event, RunsDb, commit_claims}
use orc_state.Runs.Commit.{commit_claims-exact}
use orc_state.Manager.{
  find_task, put_task, task_of_run, World, Source, project, legacy, finished, commit_to,
}
use orc_state.Manager.References.{find_in_ref, find_in-put_self, find_in-put_ne}
use orc_state.Manager.Expiry.{
  is_kept, finished_task, expired_claim, expire_task, settle_expired, expire_each, expire_leases,
}

-- Putting a task that is not finished in the place of one that is not leaves which tasks are.
finished_put :
    (new : Task) (backlog : Backlog) (ref : String) {old : Task}
    → find_task backlog new.ref ≡ some old
    → is_finished old.status ≡ false
    → is_finished new.status ≡ false
    → finished_task (find_task (put_task new backlog) ref) ≡ finished_task (find_task backlog ref)
finished_put new backlog ref {old} found was now_is = elim (Bool-cases (ref == new.ref)) [
  | inl e ↦
      let same : ref ≡ new.ref = (eq_iff ref new.ref).0 e in
      subst
        (λ r.
          finished_task (find_task (put_task new backlog) r) ≡ finished_task (find_task backlog r))
        (sym same)
        (ap finished_task (find_in-put_self new backlog.features {old = old} found)
          ∙ now_is
          ∙ sym was
          ∙ ap finished_task (sym found))
  | inr e ↦
      ap finished_task
        (find_in-put_ne new ref backlog.features (λ same. ground (arith, eq_iff ref new.ref)))
]

module _ (expired_text : ℕ → String) (now : ℕ) (policy actor_id : String) where
  expire_task-ref :
      (task : Task) → (expire_task expired_text now policy actor_id true task).ref ≡ task.ref
  expire_task-ref task = ground arith

  expire_task-unfinished :
      (task : Task)
      → is_finished (expire_task expired_text now policy actor_id true task).status ≡ false
  expire_task-unfinished task = ground arith

  -- The backlog may change in the course of the loop, but not which tasks are finished.
  settle_expired-finished :
      (c : Claim) (backlog : Backlog) (changes : Changes) (ref : String)
      → finished_task (
          find_task
            (settle_expired expired_text now policy actor_id true c
              (task_of_run true (find_task backlog c.task_ref))
              backlog
              changes).0
            ref)
        ≡ finished_task (find_task backlog ref)
  settle_expired-finished c backlog changes ref =
      elim (Option-cases (find_task backlog c.task_ref)) [
        | inl e ↦ ground arith
        | inr (task, e) ↦ elim (Bool-cases (is_running task.status)) [
          | inr moved ↦ ground arith
          | inl running ↦
              let named = find_in_ref backlog.features c.task_ref {t = task} e in
              let new = expire_task expired_text now policy actor_id true task in
              let there : find_task backlog new.ref ≡ some task =
                subst (λ r. find_task backlog r ≡ some task) (sym (expire_task-ref task ∙ named))
                  e in
              let kept =
                finished_put new backlog ref {old = task} there (ground arith)
                  (expire_task-unfinished task) in
              ground (arith, kept)
        ]
      ]

  module _ (backlog0 : Backlog) where
    abbrev SameFinished : Backlog → Type 0
    SameFinished backlog =
        (ref : String)
        → finished_task (find_task backlog ref) ≡ finished_task (find_task backlog0 ref)

    expire_each-kept :
        (cs : List Claim) (backlog : Backlog) (changes : Changes)
        → SameFinished backlog
        → All
            (λ (c : Claim). is_kept now true backlog0 c ≡ true)
            (expire_each expired_text now policy actor_id true cs backlog changes).claims
    unfolding expire_each
    expire_each-kept [] backlog changes same = tt
    expire_each-kept (c ∷ cs) backlog changes same =
        let settled =
          settle_expired expired_text now policy actor_id true c
            (task_of_run true (find_task backlog c.task_ref)) backlog changes in
        elim (Bool-cases (is_kept now true backlog c)) [
          | inl kept ↦
              subst (All (λ (d : Claim). is_kept now true backlog0 d ≡ true))
                {x = c
                  ∷ (expire_each expired_text now policy actor_id true cs backlog changes).claims}
                (ground arith)
                (ground (arith, same c.task_ref), expire_each-kept cs backlog changes same)
          | inr over ↦
              subst (All (λ (d : Claim). is_kept now true backlog0 d ≡ true))
                {x = expired_claim now c
                  ∷ (expire_each expired_text now policy actor_id true cs settled.0
                      settled.1).claims}
                (ground arith)
                (
                  ground arith,
                  expire_each-kept cs settled.0 settled.1
                      (λ ref. settle_expired-finished c backlog changes ref ∙ same ref),
                )
        ]

  expire_each-AllFollow :
      (cs : List Claim) (backlog : Backlog) (changes : Changes)
      → AllFollow (expire_each expired_text now policy actor_id true cs backlog changes).claims cs
  unfolding expire_each
  expire_each-AllFollow [] backlog changes = tt
  expire_each-AllFollow (c ∷ cs) backlog changes =
      let settled =
        settle_expired expired_text now policy actor_id true c
          (task_of_run true (find_task backlog c.task_ref)) backlog changes in
      elim (Bool-cases (is_kept now true backlog c)) [
        | inl kept ↦
            subst (λ l. AllFollow l (c ∷ cs))
              {x = c
                ∷ (expire_each expired_text now policy actor_id true cs backlog changes).claims}
              (ground arith)
              (
                record { run_id = refl; task_ref = refl; active = λ a. a },
                expire_each-AllFollow cs backlog changes,
              )
        | inr over ↦
            subst (λ l. AllFollow l (c ∷ cs))
              {x = expired_claim now c
                ∷ (expire_each expired_text now policy actor_id true cs settled.0 settled.1).claims}
              (ground arith)
              (
                record { run_id = refl; task_ref = refl; active = λ a. absurd (ground arith) },
                expire_each-AllFollow cs settled.0 settled.1,
              )
      ]

  -- Without an event no claim has changed.
  expire_each-quiet :
      (cs : List Claim) (backlog : Backlog) (changes : Changes)
      → (expire_each expired_text now policy actor_id true cs backlog changes).events ≡ []
      → (expire_each expired_text now policy actor_id true cs backlog changes).claims ≡ cs
  unfolding expire_each
  expire_each-quiet [] backlog changes h = refl
  expire_each-quiet (c ∷ cs) backlog changes h = elim (Bool-cases (is_kept now true backlog c)) [
    | inl kept ↦ ground (arith, expire_each-quiet cs backlog changes)
    | inr over ↦ absurd (ground arith)
  ]

List-cases {ℓ} : {A : Type ℓ} (xs : List A) → (xs ≡ []) ⊎ ((x : A) × (ys : List A) × (xs ≡ x ∷ ys))
List-cases [] = inl refl
List-cases (x ∷ xs) = inr (x, xs, refl)

commit_to-runs :
    (parse : String → Metadata) (cause_text : Cause → String) (now : Stamp) (source : Source)
    (backlog : Backlog) (changes : Changes) (runs : RunsDb) (world : World)
    → commit_to parse cause_text now source backlog changes runs ≡ finished world
    → world.runs ≡ runs
unfolding commit_to
commit_to-runs parse cause_text now (legacy old) backlog changes runs world h = ground arith
commit_to-runs parse cause_text now (project db) backlog changes runs world h =
    elim (Result-cases (commit_backlog parse cause_text now backlog changes db)) [
      | inl (fault, e) ↦ absurd (ground arith)
      | inr (db', e) ↦ ground arith
    ]

module _ (valid : Event → Bool) (parse : String → Metadata) (cause_text : Cause → String)
    (expired_text : ℕ → String) where
  expire_leases-claims :
      (now : ℕ) (policy actor_id : String) (runs : RunsDb) (db : Db) (world : World)
      → IsTable runs.claims
      → expire_leases valid parse cause_text expired_text now policy actor_id
          (record { runs = runs; source = project db })
        ≡ finished world
      → world.runs.claims
        ≡ (expire_each expired_text now policy actor_id true runs.claims
            (read_project_backlog parse db)
            []).claims
  unfolding expire_leases
  expire_leases-claims now policy actor_id runs db world table h =
      let backlog = read_project_backlog parse db in
      let sweep = expire_each expired_text now policy actor_id true runs.claims backlog [] in
      let follow = expire_each-AllFollow expired_text now policy actor_id runs.claims backlog [] in
      elim (List-cases sweep.events) [
        | inl quiet ↦
            let kept =
              expire_each-quiet expired_text now policy actor_id runs.claims backlog [] quiet in
            ground (arith, kept)
        | inr (e, es, some_events) ↦
            elim (Result-cases (commit_claims valid sweep.claims sweep.events runs)) [
              | inl (fault, refusal) ↦ absurd (ground arith)
              | inr (runs', committed) ↦
                  let exact =
                    commit_claims-exact valid sweep.claims sweep.events runs runs'
                      (rw (run_ids-follow sweep.claims runs.claims follow) table.distinct)
                      (RowsOf-follow sweep.claims runs.claims follow) committed in
                  ap (λ (r : RunsDb). r.claims)
                    (commit_to-runs parse cause_text (iso now) (project db) sweep.backlog
                      sweep.changes runs' world (ground arith))
                  ∙ exact.0
            ]
      ]

  -- When a sweep of a project's leases is carried out, every claim in the table that is still active
  -- has time left, for its lease or for its wait for input, or its task was merged. Each row is that of
  -- the same run and task as before, and no claim that was over is active again.
  pub expire_leases_in_time :
      (now : ℕ) (policy actor_id : String) (runs : RunsDb) (db : Db) (world : World)
      → IsTable runs.claims
      → expire_leases valid parse cause_text expired_text now policy actor_id
          (record { runs = runs; source = project db })
        ≡ finished world
      → All
          (λ (c : Claim). is_kept now true (read_project_backlog parse db) c ≡ true)
          world.runs.claims
        × AllFollow world.runs.claims runs.claims
  expire_leases_in_time now policy actor_id runs db world table h =
      let backlog = read_project_backlog parse db in
      let same = expire_leases-claims now policy actor_id runs db world table h in
      (
        rw same (
            expire_each-kept expired_text now policy actor_id backlog runs.claims backlog []
              (λ ref. refl)),
        rw same (expire_each-AllFollow expired_text now policy actor_id runs.claims backlog []),
      )
