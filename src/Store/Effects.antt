-- ===== src/Store/Effects.antt =====
-- `applyTransition` as a whole: when it succeeds, and what it changes.
use orc_state.Base.{
  Bool, true, false, ◌&&◌, ◌≡◌, ◌≢◌, ◌⊎◌, inl, inr, refl, arith, String, ◌++◌, [], ◌∷◌, ◌+◌, Option,
  none, some, ◌==◌, ok, Bool-cases, Option-cases, is_some, any_of, opt_eq, truthy, eq_iff,
}
use orc_state.Base.Time.{Stamp}
use orc_state.Model.Task.{TaskStatus}
use orc_state.Contract.{can_transition_task_status, status_eq}
use orc_state.Store.Schema.{TaskRow, Db, task_by_ref, has_transition, update_where}
use orc_state.Store.Transition.{
  ProjectTask, TransitionInput, get_task, moved, blank, new_row, repeats_key, record_transition,
  insert_transition, apply_transition, close_runs, start_runs,
}
use orc_state.Store.Tables.{task_by_ref-update_self, task_by_ref-update_ne}
use orc_state.Store.Legality.{
  IdsBelow, Applied, record_transition-ok, backed_by-snoc, status_eq_refl,
  cause_allows-can_transition, is_migration,
}

-- A task that is read is its row, joined with its latest revision.
pub get_task-row :
    (db : Db) (ref : String) {t : ProjectTask}
    → get_task db ref ≡ some t
    → task_by_ref db.tasks ref ≡ some t.row
unfolding get_task
get_task-row db ref h = ground arith

-- The effects of a transition on the table of tasks and on the history.
pub record TaskMoved (now : Stamp) (ref : String) (input : TransitionInput) (db db' : Db)
    : Type 0 where
  pub was : TaskRow
  pub found : task_by_ref db.tasks ref ≡ some was
  pub legal : can_transition_task_status was.status input.to input.cause ≡ true
  pub row :
      task_by_ref db'.tasks ref
      ≡ some (record was {
        status = input.to;
        blocked_reason = elim (status_eq input.to TaskStatus.blocked) [
          | true ↦ input.reason
          | false ↦ none
        ];
        updated_at = now;
      })
  pub frame :
      (other : String) → other ≢ ref → task_by_ref db'.tasks other ≡ task_by_ref db.tasks other
  pub logged :
      db'.transitions
      ≡ db.transitions ++ new_row now ref input was.status (db.last_transition_id + 1) ∷ []
  pub revisions : db'.revisions ≡ db.revisions

moved_task :
    (now : Stamp) (ref : String) (input : TransitionInput) (db db' : Db) (was : TaskRow)
    → task_by_ref db.tasks ref ≡ some was
    → Applied now ref input was db db'
    → TaskMoved now ref input db db'
moved_task now ref input db db' was found a =
    let step = moved (new_row now ref input was.status (db.last_transition_id + 1)) in
    record {
      was = was;
      found = found;
      legal = a.legal;
      row = ground (arith, a.tasks, task_by_ref-update_self ref step (λ t. refl) db.tasks);
      frame = λ other ne.
          ground (arith, a.tasks, task_by_ref-update_ne ref step (λ t. refl) db.tasks other ne);
      logged = a.transitions;
      revisions = a.revisions;
    }

apply_transition-found :
    (now : Stamp) (ref : String) (input : TransitionInput) (db db' : Db)
    → apply_transition now ref input db ≡ ok db'
    → (t : ProjectTask) × (get_task db ref ≡ some t)
      × (record_transition now ref input db t.row ≡ ok db')
unfolding apply_transition
apply_transition-found now ref input db db' h = elim (Option-cases (get_task db ref)) [
  | inl e ↦ absurd (ground arith)
  | inr (t, e) ↦ (t, e, ground arith)
]

pub apply_transition-Applied :
    (now : Stamp) (ref : String) (input : TransitionInput) (db db' : Db)
    → apply_transition now ref input db ≡ ok db'
    → (db' ≡ db) ⊎ ((was : TaskRow) × Applied now ref input was db db')
unfolding record_transition
apply_transition-Applied now ref input db db' h =
    let (t, read, recorded) = apply_transition-found now ref input db db' h in
    elim (Bool-cases (repeats_key db.transitions ref input.idempotency_key)) [
      | inl again ↦ inl (ground arith)
      | inr fresh ↦ inr (t.row, record_transition-ok now ref input db db' t.row fresh recorded)
    ]

-- A transition that is recorded either repeats an idempotency key of the task and changes nothing,
-- or it is one that the lifecycle contract allows from the status the task had: then the task gets
-- the new status (its blocked reason being the given one if it is now blocked, and cleared
-- otherwise), no other task changes, and the history grows by exactly that row.
pub apply_transition-effect :
    (now : Stamp) (ref : String) (input : TransitionInput) (db db' : Db)
    → apply_transition now ref input db ≡ ok db'
    → ((repeats_key db.transitions ref input.idempotency_key ≡ true) × (db' ≡ db))
      ⊎ TaskMoved now ref input db db'
unfolding record_transition
apply_transition-effect now ref input db db' h =
    let (t, read, recorded) = apply_transition-found now ref input db db' h in
    elim (Bool-cases (repeats_key db.transitions ref input.idempotency_key)) [
      | inl again ↦ inl (again, ground arith)
      | inr fresh ↦ inr (
          moved_task now ref input db db' t.row (get_task-row db ref read)
            (record_transition-ok now ref input db db' t.row fresh recorded))
    ]

no_duplicate :
    (key : Option String) (found : Bool)
    → key ≢ some ""
    → (truthy key && found) ≡ false
    → (is_some key && found) ≡ false
no_duplicate none found k h = refl
no_duplicate (some s) found k h = ground (arith, eq_iff s "", k)

-- A transition succeeds if the ids of the recorded transitions are within their counter, the task can be
-- read, the key is not the empty text and was not used for the task, the contract allows the change (a
-- migration import only as the first transition), and a reason is given for blocking. In particular
-- the status guard does not refuse it then.
pub apply_transition-total :
    (now : Stamp) (ref : String) (input : TransitionInput) (db : Db) {t : ProjectTask}
    → IdsBelow db
    → get_task db ref ≡ some t
    → input.idempotency_key ≢ some ""
    → repeats_key db.transitions ref input.idempotency_key ≡ false
    → can_transition_task_status t.row.status input.to input.cause ≡ true
    → (is_migration input.cause && has_transition db.transitions ref) ≡ false
    → (status_eq input.to TaskStatus.blocked && blank input.reason) ≡ false
    → (db' : Db) × (apply_transition now ref input db ≡ ok db')
unfolding apply_transition record_transition insert_transition
apply_transition-total now ref input db {t} ids read named fresh legal first reasoned =
    let row = new_row now ref input t.row.status (db.last_transition_id + 1) in
    let log = db.transitions ++ row ∷ [] in
    (
      record {
        tasks = update_where (λ s. s.ref == ref) (moved row) db.tasks;
        revisions = db.revisions;
        dependencies = db.dependencies;
        transitions = log;
        last_transition_id = db.last_transition_id + 1;
        runs = close_runs now ref input.cause t.row.status (start_runs now ref input.cause db.runs);
      },
      ground (
        arith,
        status_eq_refl t.row.status,
        backed_by-snoc db row ids refl,
        no_duplicate input.idempotency_key
            (any_of (λ r. r.task_ref == ref && opt_eq r.idempotency_key input.idempotency_key)
              db.transitions)
            named fresh,
        cause_allows-can_transition input.cause t.row.status input.to
            (has_transition db.transitions ref),
      ),
    )
