-- ===== src/Store/Legality.antt =====
-- What a recorded transition is allowed to do, and what it does to the tables.
use orc_state.Base.{
  Bool, true, false, not, ◌&&◌, ◌≡◌, refl, arith, String, List, [], ◌∷◌, ◌++◌, ℕ, ◌+◌, ◌≤◌, ◌<◌,
  ◌==◌, any_of, All, ok, eq_refl, >>=-eq-ok,
}
use orc_state.Base.Time.{Stamp}
use orc_state.Model.Task.{TaskStatus}
use orc_state.Contract.{Cause, migration_import, can_transition_task_status, status_eq}
use orc_state.Store.Schema.{TaskRow, TransitionRow, Db, update_where, has_transition, cause_allows}
use orc_state.Store.Transition.{
  TransitionInput, moved, backed_by, max_id, blank, new_row, close_runs, start_runs, repeats_key,
  insert_transition, record_transition,
}

abbrev pub is_migration : Cause → Bool
is_migration migration_import = true
is_migration _ = false

-- The trigger accepts a transition exactly if `canTransitionTaskStatus` does and, for a migration
-- import, the task has no transition yet.
pub cause_allows-can_transition :
    (cause : Cause) (from to : TaskStatus) (old : Bool)
    → cause_allows cause from to old
      ≡ (can_transition_task_status from to cause && not (is_migration cause && old))
cause_allows-can_transition cause from to old = ground arith

-- An inserted row passed the trigger and the constraints, and the tables are as the triggers leave
-- them.
pub record Inserted (new : TransitionRow) (was : TaskRow) (db db' : Db) : Type 0 where
  pub fresh_status : status_eq was.status new.from_status ≡ true
  pub allowed :
      cause_allows new.cause new.from_status new.to_status
        (has_transition db.transitions new.task_ref)
      ≡ true
  pub reasoned : status_eq new.to_status TaskStatus.blocked ≡ true → blank new.reason ≡ false
  pub result : db' ≡ record db {
    transitions = db.transitions ++ new ∷ [];
    last_transition_id = new.transition_id;
    tasks = update_where (λ t. t.ref == new.task_ref) (moved new) db.tasks;
  }

insert_transition-ok :
    (new : TransitionRow) (was : TaskRow) (db db' : Db)
    → insert_transition new was db ≡ ok db'
    → Inserted new was db db'
unfolding insert_transition
insert_transition-ok new was db db' h = record {
  fresh_status = ground arith;
  allowed = ground arith;
  reasoned = λ b. ground arith;
  result = ground arith;
}

-- Ids are handed out in increasing order.
abbrev pub IdsBelow : Db → Type 0
IdsBelow db = All (λ r. r.transition_id ≤ db.last_transition_id) db.transitions

max_id-snoc :
    (log : List TransitionRow) (new : TransitionRow) (n : ℕ)
    → All (λ r. r.transition_id ≤ n) log
    → n < new.transition_id
    → max_id (log ++ new ∷ []) new.task_ref ≡ new.transition_id
max_id-snoc [] new n below lt = ground (arith, eq_refl new.task_ref)
max_id-snoc (r ∷ rs) new n below lt = ground (arith, max_id-snoc rs new n below.1 lt)

any_of-last {ℓ} :
    {A : Type ℓ} (p : A → Bool) (xs : List A) (a : A) → p a ≡ true → any_of p (xs ++ a ∷ []) ≡ true
any_of-last p [] a h = ground arith
any_of-last p (x ∷ xs) a h = ground (arith, any_of-last p xs a h)

pub status_eq_refl : (s : TaskStatus) → status_eq s s ≡ true
status_eq_refl TaskStatus.todo = refl
status_eq_refl _ = refl

-- The status guard finds the row that the transition has just inserted.
pub backed_by-snoc :
    (db : Db) (new : TransitionRow)
    → IdsBelow db
    → new.transition_id ≡ db.last_transition_id + 1
    → backed_by (db.transitions ++ new ∷ []) new.task_ref new.from_status new.to_status ≡ true
backed_by-snoc db new below next = any_of-last _ db.transitions new (
    ground (
      arith,
      eq_refl new.task_ref,
      status_eq_refl new.from_status,
      status_eq_refl new.to_status,
      max_id-snoc db.transitions new db.last_transition_id below,
    ))

-- What `record_transition` did: nothing, as the key was used before, or the transition with all its
-- effects.
pub record Applied (now : Stamp) (ref : String) (input : TransitionInput) (was : TaskRow)
    (db db' : Db) : Type 0 where
  pub legal : can_transition_task_status was.status input.to input.cause ≡ true
  pub reasoned : status_eq input.to TaskStatus.blocked ≡ true → blank input.reason ≡ false
  pub tasks :
      db'.tasks
      ≡ update_where
          (λ t. t.ref == ref)
          (moved (new_row now ref input was.status (db.last_transition_id + 1)))
          db.tasks
  pub transitions :
      db'.transitions
      ≡ db.transitions ++ new_row now ref input was.status (db.last_transition_id + 1) ∷ []
  pub last_transition_id : db'.last_transition_id ≡ db.last_transition_id + 1
  pub runs :
      db'.runs ≡ close_runs now ref input.cause was.status (start_runs now ref input.cause db.runs)
  pub revisions : db'.revisions ≡ db.revisions
  pub dependencies : db'.dependencies ≡ db.dependencies

pub record_transition-ok :
    (now : Stamp) (ref : String) (input : TransitionInput) (db db' : Db) (was : TaskRow)
    → repeats_key db.transitions ref input.idempotency_key ≡ false
    → record_transition now ref input db was ≡ ok db'
    → Applied now ref input was db db'
unfolding record_transition
record_transition-ok now ref input db db' was fresh h =
    let row = new_row now ref input was.status (db.last_transition_id + 1) in
    let (db1, inserted, rest) = >>=-eq-ok (insert_transition row was db) _ (rw fresh at h) in
    let i = insert_transition-ok row was db db1 inserted in
    record {
      legal = ground (
        arith,
        i.allowed,
        cause_allows-can_transition input.cause was.status input.to
            (has_transition db.transitions ref),
      );
      reasoned = i.reasoned;
      tasks = ground (arith, i.result);
      transitions = ground (arith, i.result);
      last_transition_id = ground (arith, i.result);
      runs = ground (arith, i.result);
      revisions = ground (arith, i.result);
      dependencies = ground (arith, i.result);
    }
