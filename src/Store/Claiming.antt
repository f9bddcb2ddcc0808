-- ===== src/Store/Claiming.antt =====
-- `claimTask` as a whole: what a successful claim establishes, and that claims exclude one another.
use mathlib.Core.Option
use orc_state.Base.{
  true, false, ◌&&◌, ◌≡◌, ◌≢◌, refl, arith, ap, ◌∙◌, String, List, [], ◌∷◌, Option, none, some, ℕ,
  ◌==◌, eq_iff, eq_refl, ok, err, truthy, All, opt_eq, inl, inr, filter_by, map,
}
use orc_state.Base.Find.{find-snoc}
use orc_state.Base.Time.{Stamp}
use orc_state.Model.Task.{TaskStatus, is_todo}
use orc_state.Store.Schema.{
  TaskRow, RevisionRow, DependencyRow, RunState, Db, not_claimable, task_by_ref, is_open,
}
use orc_state.Store.Transition.{
  TransitionInput, ProjectTask, get_task, set_runs, apply_transition, sort_refs, insert_ref,
  latest_revision, dependencies,
}
use orc_state.Store.Binding.{
  get_revision, open_run_of, binding, unfinished, is_empty, waiting_dependencies, check_claimable,
  claim_input, pinned_revision, active_run_id, get_run_spec, claim_task,
}
use orc_state.Store.Effects.{TaskMoved, apply_transition-effect}
use orc_state.Store.OpenRuns.{open_count, open_count-close, open_count-none}
use orc_state.Store.OneRun.{bind_run-ok, bind_run-Bound, claim_task-parts}

is_empty-insert_ref : (a : String) (as' : List String) → is_empty (insert_ref a as') ≡ false
is_empty-insert_ref a [] = refl
is_empty-insert_ref a (b ∷ bs) = ground arith

is_empty-sort_refs : (xs : List String) → is_empty (sort_refs xs) ≡ true → is_empty xs ≡ true
is_empty-sort_refs [] h = refl
is_empty-sort_refs (x ∷ xs) h = ground (arith, is_empty-insert_ref x (sort_refs xs))

-- Each dependency of the task stands for a task that is done or released.
abbrev DependenciesDone : Db → String → Type 0
DependenciesDone db ref =
    All
      (λ (d : DependencyRow).
        (d.task_ref == ref) ≡ true → unfinished (task_by_ref db.tasks d.depends_on_ref) ≡ false)
      db.dependencies

none_waiting :
    (tasks : List TaskRow) (ref : String) (rows : List DependencyRow)
    → is_empty (
        map
          (λ d. d.depends_on_ref)
          (filter_by
            (λ d. d.task_ref == ref && unfinished (task_by_ref tasks d.depends_on_ref))
            rows))
      ≡ true
    → All
        (λ (d : DependencyRow).
          (d.task_ref == ref) ≡ true → unfinished (task_by_ref tasks d.depends_on_ref) ≡ false)
        rows
none_waiting tasks ref [] h = tt
none_waiting tasks ref (d ∷ ds) h = ((λ e. ground arith), none_waiting tasks ref ds (ground arith))

waiting_dependencies-empty :
    (db : Db) (ref : String)
    → is_empty (waiting_dependencies db ref) ≡ true
    → DependenciesDone db ref
unfolding waiting_dependencies
waiting_dependencies-empty db ref h =
    none_waiting db.tasks ref db.dependencies (is_empty-sort_refs _ h)

-- What holds after a claim.
pub record ClaimEffect (now : Stamp) (ref run_id agent_id : String) (pinned : ℕ) (db db' : Db)
    : Type 0 where
  pub task : ProjectTask
  pub read : get_task db ref ≡ some task
  pub was_todo : task.row.status ≡ TaskStatus.todo
  pub owned : truthy task.row.owner ≡ true → task.row.owner ≡ some agent_id
  pub dependencies_done : DependenciesDone db ref
  pub now_claimed :
      Option.map (λ (t : TaskRow). t.status) (task_by_ref db'.tasks ref) ≡ some TaskStatus.claimed
  pub frame :
      (other : String) → other ≢ ref → task_by_ref db'.tasks other ≡ task_by_ref db.tasks other
  pub latest : pinned ≡ task.revision.revision
  pub active : active_run_id db' ref ≡ some run_id
  pub alone : open_count ref db'.runs ≡ 1
  pub spec : get_run_spec db' run_id ≡ get_revision db' ref pinned

opt_eq-some : (o : Option String) (a : String) → opt_eq o (some a) ≡ true → o ≡ some a
opt_eq-some none a h = cc
opt_eq-some (some s) a h = ground (arith, eq_iff s a)

check_claimable-ok :
    (db : Db) (task : ProjectTask) (ref agent_id : String)
    → check_claimable db task ref agent_id ≡ ok tt
    → (task.row.status ≡ TaskStatus.todo)
      × (truthy task.row.owner ≡ true → task.row.owner ≡ some agent_id)
      × (is_empty (waiting_dependencies db ref) ≡ true)
unfolding check_claimable
check_claimable-ok db task ref agent_id h =
    (ground arith, (λ t. opt_eq-some task.row.owner agent_id (ground arith)), ground arith)

-- The transition of a claim repeats no key, so it moves the task.
claim-TaskMoved :
    (now : Stamp) (ref run_id agent_id : String) (db between : Db)
    → apply_transition now ref (claim_input run_id agent_id) db ≡ ok between
    → TaskMoved now ref (claim_input run_id agent_id) db between
claim-TaskMoved now ref run_id agent_id db between h =
    elim (apply_transition-effect now ref (claim_input run_id agent_id) db between h) [
      | inl (again, same) ↦ absurd (ground (arith, again))
      | inr m ↦ m
    ]

pinned-latest :
    (now : Stamp) (ref : String) (input : TransitionInput) (db between : Db) (task : ProjectTask)
    (pinned : ℕ)
    → TaskMoved now ref input db between
    → get_task db ref ≡ some task
    → pinned_revision between ref none ≡ some pinned
    → pinned ≡ task.revision.revision
unfolding pinned_revision
pinned-latest now ref input db between task pinned m read from =
    ground (arith, m.row, m.revisions, m.found)

-- A successful claim took a task that was `todo`, free or reserved for the agent, with every
-- dependency done or released. Afterwards the task is `claimed`, no other task has changed, the run
-- is bound to the revision that was the latest, and it is the only open run of the task.
pub claim_task-effect :
    (now : Stamp) (ref run_id agent_id : String) (pinned : ℕ) (db db' : Db)
    → claim_task now ref run_id agent_id db ≡ ok (pinned, db')
    → ClaimEffect now ref run_id agent_id pinned db db'
unfolding active_run_id get_run_spec
claim_task-effect now ref run_id agent_id pinned db db' h =
    let p = claim_task-parts now ref run_id agent_id pinned db db' h in
    let (todo, owned, free) = check_claimable-ok db p.task ref agent_id p.checked in
    let m = claim-TaskMoved now ref run_id agent_id db p.between p.recorded in
    let b = bind_run-Bound now run_id ref (some agent_id) none pinned p.between db' p.bound in
    let (from, known, new_id, e) =
      bind_run-ok now run_id ref (some agent_id) none pinned p.between db' p.bound in
    let closed = set_runs now ref is_open RunState.failed p.between.runs in
    let new = binding now run_id ref (some agent_id) pinned in
    record {
      task = p.task;
      read = p.read;
      was_todo = todo;
      owned = owned;
      dependencies_done = waiting_dependencies-empty db ref free;
      now_claimed = ground (arith, b.tasks, m.row);
      frame = λ other ne. ground (arith, b.tasks, m.frame other ne);
      latest =
          pinned-latest now ref (claim_input run_id agent_id) db p.between p.task pinned m p.read
            from;
      active = ground (
        arith,
        e,
        eq_refl ref,
        find-snoc (open_run_of ref) closed new (
            open_count-none ref closed
              (open_count-close now ref RunState.failed p.between.runs refl)),
      );
      alone = b.one;
      spec = ground (
        arith,
        e,
        eq_refl run_id,
        find-snoc (λ r. r.run_id == run_id) closed new new_id (eq_refl run_id),
      );
    }

claim_task_not_todo :
    (now : Stamp) (ref run_id agent_id : String) (db : Db) {task : ProjectTask}
    → get_task db ref ≡ some task
    → is_todo task.row.status ≡ false
    → claim_task now ref run_id agent_id db ≡ err (not_claimable task.row.status)
unfolding claim_task
claim_task_not_todo now ref run_id agent_id db read busy = ground arith

get_task-join :
    (db : Db) (ref : String) (t : TaskRow) (r : RevisionRow)
    → task_by_ref db.tasks ref ≡ some t
    → latest_revision db.revisions ref ≡ some r
    → get_task db ref ≡ some (record { row = t; revision = r; depends_on = dependencies db ref })
unfolding get_task
get_task-join db ref t r found latest = ground arith

latest_revision-read :
    (db : Db) (ref : String) {task : ProjectTask}
    → get_task db ref ≡ some task
    → latest_revision db.revisions ref ≡ some task.revision
unfolding get_task
latest_revision-read db ref h = ground arith

-- After a successful claim of a task every further claim of it fails, whoever makes it, and the
-- error names the status `claimed`.
pub claim_task_twice :
    (now later : Stamp) (ref run_id agent_id run_id2 agent_id2 : String) (pinned : ℕ) (db db' : Db)
    → claim_task now ref run_id agent_id db ≡ ok (pinned, db')
    → claim_task later ref run_id2 agent_id2 db' ≡ err (not_claimable TaskStatus.claimed)
claim_task_twice now later ref run_id agent_id run_id2 agent_id2 pinned db db' h =
    let p = claim_task-parts now ref run_id agent_id pinned db db' h in
    let m = claim-TaskMoved now ref run_id agent_id db p.between p.recorded in
    let b = bind_run-Bound now run_id ref (some agent_id) none pinned p.between db' p.bound in
    let same : latest_revision db'.revisions ref ≡ some p.task.revision =
      ap (λ rs. latest_revision rs ref) (b.revisions ∙ m.revisions)
      ∙ latest_revision-read db ref p.read in
    let row = ap (λ ts. task_by_ref ts ref) b.tasks ∙ m.row in
    claim_task_not_todo later ref run_id2 agent_id2 db'
      (get_task-join db' ref _ p.task.revision row same) refl
