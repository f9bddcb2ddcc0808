-- ===== src/Projects/Commit.antt =====
-- What a successful commit of the backlog leaves in the store.
use mathlib.Core.Path.{subst}
use mathlib.Core.Option
use orc_state.Base.{
  true, false, ◌&&◌, List, [], ◌∷◌, map, none, some, String, ◌≡◌, ◌≢◌, ◌⊎◌, inl, inr, refl, sym,
  ◌∙◌, ap, arith, eq_iff, All, includes, or_default, ok, Bool-cases, Option-cases, Result-cases,
  >>=-eq-ok,
}
use orc_state.Base.Time.{Stamp}
use orc_state.Model.Task.{TaskStatus, Task, Backlog}
use orc_state.Contract.{Cause, can_transition_task_status, status_eq}
use orc_state.Store.Schema.{TaskRow, Db, task_by_ref}
use orc_state.Store.Transition.{ProjectTask, TransitionInput, get_task, apply_transition}
use orc_state.Store.Binding.{set_dispatch_state}
use orc_state.Store.Tables.{task_by_ref-update_self, task_by_ref-update_ne}
use orc_state.Store.Effects.{TaskMoved, apply_transition-effect, get_task-row}
use orc_state.Runs.Commit.{Distinct}
use orc_state.Projects.{
  Metadata, TaskStatusChange, Changes, change_of, is_merge, is_claimed, start_input, change_input,
  start_first, record_change, commit_status, dispatch_change, commit_read, commit_task,
  commit_tasks, commit_backlog, tasks_of, same_definition, normalized_definition,
  project_task_to_backlog_task,
}

status_eq_sound : (a b : TaskStatus) → status_eq a b ≡ true → a ≡ b
status_eq_sound a b h = ground arith

-- No change carries an idempotency key.
abbrev pub Unkeyed : Changes → Type 0
Unkeyed changes =
    (ref : String) (change : TaskStatusChange)
    → change_of ref changes ≡ some change
    → change.idempotency_key ≡ none

-- Where the change starts from: a merge that is reported before the start is started first.
abbrev pub starts_from : TaskStatusChange → TaskStatus → TaskStatus
starts_from change was = elim (is_merge change.cause && is_claimed was) [
  | true ↦ TaskStatus.in_progress
  | false ↦ was
]

-- The status stays, or a cause was given that the lifecycle contract allows.
abbrev pub LegalChange : Task → TaskStatus → Changes → Type 0
LegalChange task was changes =
    (task.status ≡ was)
    ⊎ ((change : TaskStatusChange) × ((change_of task.ref changes ≡ some change)
          × (can_transition_task_status (starts_from change was) task.status change.cause ≡ true)))

pub unkeyed_moved :
    (now : Stamp) (ref : String) (input : TransitionInput) (db db' : Db)
    → input.idempotency_key ≡ none
    → apply_transition now ref input db ≡ ok db'
    → TaskMoved now ref input db db'
unkeyed_moved now ref input db db' unkeyed h =
    elim (apply_transition-effect now ref input db db' h) [
      | inl (again, same) ↦ absurd (ground arith)
      | inr moved ↦ moved
    ]

-- The row of the task has this status, and no other row has changed.
pub record Stands (ref : String) (status : TaskStatus) (db db' : Db) : Type 0 where
  pub row : TaskRow
  pub found : task_by_ref db'.tasks ref ≡ some row
  pub in_status : row.status ≡ status
  pub frame :
      (other : String) → other ≢ ref → task_by_ref db'.tasks other ≡ task_by_ref db.tasks other

TaskMoved-Stands :
    (now : Stamp) (ref : String) (input : TransitionInput) (db db' : Db)
    → TaskMoved now ref input db db'
    → Stands ref input.to db db'
TaskMoved-Stands now ref input db db' m = record {
  row = (record m.was {
    status = input.to;
    blocked_reason = elim (status_eq input.to TaskStatus.blocked) [
      | true ↦ input.reason
      | false ↦ none
    ];
    updated_at = now;
  });
  found = m.row;
  in_status = refl;
  frame = m.frame;
}

module _ (parse : String → Metadata) (cause_text : Cause → String) (now : Stamp) where
  start_first-Stands :
      (task : Task) (change : TaskStatusChange) (db db' : Db) {was : TaskRow}
      → task_by_ref db.tasks task.ref ≡ some was
      → start_first parse cause_text now task was.status change db ≡ ok db'
      → Stands task.ref (starts_from change was.status) db db'
  start_first-Stands task change db db' {was} found h =
      elim (Bool-cases (is_merge change.cause && is_claimed was.status)) [
        | inl early ↦
            let m = unkeyed_moved now task.ref (start_input change) db db' refl (ground arith) in
            let s = TaskMoved-Stands now task.ref (start_input change) db db' m in
            record {
              row = s.row;
              found = s.found;
              in_status = ground (arith, s.in_status);
              frame = s.frame;
            }
        | inr plain ↦
            let same : db ≡ db' = ground arith in
            record {
              row = was;
              found = ground arith;
              in_status = ground arith;
              frame = λ other apart. ap (λ (d : Db). task_by_ref d.tasks other) (sym same);
            }
      ]

  record_change-Stands :
      (task : Task) (change : TaskStatusChange) (db db' : Db) {was : TaskRow}
      → change.idempotency_key ≡ none
      → task_by_ref db.tasks task.ref ≡ some was
      → record_change parse cause_text now task was.status change db ≡ ok db'
      → Stands task.ref task.status db db'
        × (can_transition_task_status (starts_from change was.status) task.status change.cause
            ≡ true)
  unfolding record_change
  record_change-Stands task change db db' {was} unkeyed found h =
      elim (Result-cases (start_first parse cause_text now task was.status change db)) [
        | inl (fault, refused) ↦ absurd (ground arith)
        | inr (db1, begun) ↦
            let first = start_first-Stands task change db db1 {was = was} found begun in
            let m =
              unkeyed_moved now task.ref (change_input parse cause_text now task change) db1 db'
                unkeyed (ground arith) in
            let last =
              TaskMoved-Stands now task.ref (change_input parse cause_text now task change) db1 db'
                m in
            (
              record {
                row = last.row;
                found = last.found;
                in_status = last.in_status;
                frame = λ other apart. last.frame other apart ∙ first.frame other apart;
              },
              ground (arith, m.found, first.found, first.in_status, m.legal),
            )
      ]

  -- A task as the commit leaves it.
  pub record Committed (task : Task) (changes : Changes) (db db' : Db) : Type 0 where
    pub was : TaskRow
    pub before : task_by_ref db.tasks task.ref ≡ some was
    pub row : TaskRow
    pub after : task_by_ref db'.tasks task.ref ≡ some row
    pub status : row.status ≡ task.status
    pub legal : LegalChange task was.status changes
    pub attempts : row.attempt_count ≡ or_default task.attempt_count 0
    pub owner : row.owner ≡ task.owner
    pub requeue : row.requeue_eligible_after ≡ task.requeue_eligible_after

  commit_status-Stands :
      (task : Task) (changes : Changes) (db db' : Db) {was : TaskRow}
      → Unkeyed changes
      → task_by_ref db.tasks task.ref ≡ some was
      → commit_status parse cause_text now task was.status changes db ≡ ok db'
      → Stands task.ref task.status db db' × LegalChange task was.status changes
  unfolding commit_status
  commit_status-Stands task changes db db' {was} unkeyed found h =
      elim (Bool-cases (status_eq task.status was.status)) [
        | inl kept ↦
            let same : db ≡ db' = ground arith in
            let stays = status_eq_sound task.status was.status kept in
            (
              record {
                row = was;
                found = ground arith;
                in_status = sym stays;
                frame = λ other apart. ap (λ (d : Db). task_by_ref d.tasks other) (sym same);
              },
              inl stays,
            )
        | inr moves ↦ elim (Option-cases (change_of task.ref changes)) [
          | inl missing ↦ absurd (ground arith)
          | inr (change, given) ↦
              elim (Result-cases (record_change parse cause_text now task was.status change db)) [
                | inl (fault, refused) ↦ absurd (ground arith)
                | inr (db1, recorded) ↦
                    let (s, legal) =
                      record_change-Stands task change db db1 {was = was}
                        (unkeyed task.ref change given) found recorded in
                    (
                      subst (Stands task.ref task.status db) {x = db1} (ground arith) s,
                      inr (change, (given, legal)),
                    )
              ]
        ]
      ]

  dispatched :
      (task : Task) (current : ProjectTask) (changes : Changes) (db db1 : Db) {was : TaskRow}
      → task_by_ref db.tasks task.ref ≡ some was
      → Stands task.ref task.status db db1
      → LegalChange task was.status changes
      → Committed task changes db
          (set_dispatch_state task.ref (dispatch_change parse cause_text now task current) db1)
        × ((other : String)
            → other ≢ task.ref
            → task_by_ref
                (set_dispatch_state task.ref
                  (dispatch_change parse cause_text now task current)
                  db1).tasks
                other
              ≡ task_by_ref db.tasks other)
  unfolding set_dispatch_state
  dispatched task current changes db db1 {was} found s legal =
      let change = dispatch_change parse cause_text now task current in
      let set : TaskRow → TaskRow = λ t. record t {
        owner = or_default change.owner t.owner;
        planning_state = or_default change.planning_state t.planning_state;
        delegated_by = or_default change.delegated_by t.delegated_by;
        task_type = or_default change.task_type t.task_type;
        requeue_eligible_after = or_default change.requeue_eligible_after t.requeue_eligible_after;
        attempt_count = or_default change.attempt_count t.attempt_count;
      } in
      (
        record {
          was = was;
          before = found;
          row = set s.row;
          after =
              task_by_ref-update_self task.ref set (λ t. refl) db1.tasks
              ∙ ap (Option.map set) s.found;
          status = s.in_status;
          legal = legal;
          attempts = refl;
          owner = refl;
          requeue = refl;
        },
        λ other apart.
            task_by_ref-update_ne task.ref set (λ t. refl) db1.tasks other apart
            ∙ s.frame other apart,
      )

  commit_read-ok :
      (task : Task) (current : ProjectTask) (changes : Changes) (db db' : Db)
      → commit_read parse cause_text now task changes db current ≡ ok db'
      → (db1 : Db) × ((commit_status parse cause_text now task current.row.status changes db
            ≡ ok db1)
          × (set_dispatch_state task.ref (dispatch_change parse cause_text now task current) db1
              ≡ db'))
  unfolding commit_read
  commit_read-ok task current changes db db' h =
      elim (Bool-cases (
        same_definition (normalized_definition task) (
          normalized_definition
            (project_task_to_backlog_task (parse current.revision.metadata_json) current)))) [
              | inr other ↦ absurd (ground arith)
              | inl same ↦
                  elim (Result-cases
                    (commit_status parse cause_text now task current.row.status changes db)) [
                      | inl (fault, refused) ↦ absurd (ground arith)
                      | inr (db1, recorded) ↦ (db1, (recorded, ground arith))
                    ]
            ]

  commit_task-Committed :
      (task : Task) (changes : Changes) (db db' : Db)
      → Unkeyed changes
      → commit_task parse cause_text now task changes db ≡ ok db'
      → Committed task changes db db'
        × ((other : String)
            → other ≢ task.ref
            → task_by_ref db'.tasks other ≡ task_by_ref db.tasks other)
  unfolding commit_task
  commit_task-Committed task changes db db' unkeyed h = elim (Option-cases (get_task db task.ref)) [
    | inl e ↦ absurd (ground arith)
    | inr (current, e) ↦
        let found = get_task-row db task.ref {t = current} e in
        let (db1, (recorded, last)) = commit_read-ok task current changes db db' (ground arith) in
        let (s, legal) =
          commit_status-Stands task changes db db1 {was = current.row} unkeyed found recorded in
        subst
          (λ d.
            Committed task changes db d
            × ((other : String)
                → other ≢ task.ref
                → task_by_ref d.tasks other ≡ task_by_ref db.tasks other))
          last (dispatched task current changes db db1 {was = current.row} found s legal)
  ]

  abbrev AllCommitted : List Task → Changes → Db → Db → Type 0
  AllCommitted tasks changes db db' = All (λ (t : Task). Committed t changes db db') tasks

  -- Commits of other tasks before and after leave what is said of a task.
  Committed-frame :
      (task : Task) (changes : Changes) (before db db' after : Db)
      → task_by_ref db.tasks task.ref ≡ task_by_ref before.tasks task.ref
      → task_by_ref after.tasks task.ref ≡ task_by_ref db'.tasks task.ref
      → Committed task changes db db'
      → Committed task changes before after
  Committed-frame task changes before db db' after old new c = record {
    was = c.was;
    before = sym old ∙ c.before;
    row = c.row;
    after = new ∙ c.after;
    status = c.status;
    legal = c.legal;
    attempts = c.attempts;
    owner = c.owner;
    requeue = c.requeue;
  }

  AllCommitted-frame :
      (ref : String) (tasks : List Task) (changes : Changes) (before db db' : Db)
      → includes (map (λ (t : Task). t.ref) tasks) ref ≡ false
      → ((other : String)
          → other ≢ ref
          → task_by_ref db.tasks other ≡ task_by_ref before.tasks other)
      → AllCommitted tasks changes db db'
      → AllCommitted tasks changes before db'
  AllCommitted-frame ref [] changes before db db' apart frame h = tt
  AllCommitted-frame ref (t ∷ ts) changes before db db' apart frame h = (
    Committed-frame t changes before db db' db'
        (frame t.ref (λ e. ground (arith, eq_iff t.ref ref))) refl h.0,
    AllCommitted-frame ref ts changes before db db' (ground arith) frame h.1,
  )

  commit_tasks-AllCommitted :
      (tasks : List Task) (changes : Changes) (db db' : Db)
      → Unkeyed changes
      → Distinct (map (λ (t : Task). t.ref) tasks)
      → commit_tasks parse cause_text now tasks changes db ≡ ok db'
      → AllCommitted tasks changes db db'
        × ((other : String)
            → includes (map (λ (t : Task). t.ref) tasks) other ≡ false
            → task_by_ref db'.tasks other ≡ task_by_ref db.tasks other)
  unfolding commit_tasks
  commit_tasks-AllCommitted [] changes db db' unkeyed d h = (tt, λ other apart. ground arith)
  commit_tasks-AllCommitted (t ∷ ts) changes db db' unkeyed d h =
      let (db1, first, rest) =
        >>=-eq-ok (commit_task parse cause_text now t changes db)
          (commit_tasks parse cause_text now ts changes) h in
      let (done, frame) = commit_task-Committed t changes db db1 unkeyed first in
      let (others, kept) = commit_tasks-AllCommitted ts changes db1 db' unkeyed d.1 rest in
      (
        (
          Committed-frame t changes db db db1 db' refl (kept t.ref d.0) done,
          AllCommitted-frame t.ref ts changes db db1 db' d.0 frame others,
        ),
        λ other apart.
            kept other (ground arith)
            ∙ frame other (λ e. ground (arith, eq_iff other t.ref, eq_iff t.ref other)),
      )

  -- A commit that succeeds, of tasks with different references and changes without idempotency keys,
  -- leaves every task of the backlog in the store with the backlog's status, attempts, owner and time
  -- of requeueing; each change of status was given a cause that the lifecycle contract allows, from the
  -- status that the store had or, for a merge reported early, from the start of the run. Tasks that
  -- are not in the backlog do not change.
  pub commit_backlog-AllCommitted :
      (backlog : Backlog) (changes : Changes) (db db' : Db)
      → Unkeyed changes
      → Distinct (map (λ (t : Task). t.ref) (tasks_of backlog.features))
      → commit_backlog parse cause_text now backlog changes db ≡ ok db'
      → All (λ (t : Task). Committed t changes db db') (tasks_of backlog.features)
        × ((other : String)
            → includes (map (λ (t : Task). t.ref) (tasks_of backlog.features)) other ≡ false
            → task_by_ref db'.tasks other ≡ task_by_ref db.tasks other)
  unfolding commit_backlog
  commit_backlog-AllCommitted backlog changes db db' unkeyed d h =
      commit_tasks-AllCommitted (tasks_of backlog.features) changes db db' unkeyed d h
