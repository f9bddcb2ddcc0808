-- ===== src/Store/OneRun.antt =====
-- A task has at most one open run, whatever sequence of store operations runs.
use orc_state.Base.{
  true, false, ◌≡◌, ◌≢◌, inl, inr, refl, arith, String, ◌++◌, List, [], ◌∷◌, ℕ, ◌≤◌, Option, none,
  some, ◌==◌, ok, err, Bool-cases, Option-cases, any_of, eq_iff, is_some, eq_refl, >>=-eq-ok,
}
use native.Mathlib.Nat.{le_trans}
use orc_state.Base.Time.{Stamp}
use orc_state.Model.Task.{TaskStatus}
use orc_state.Contract.{Cause}
use orc_state.Store.Schema.{RunRow, RunState, Db, second_active_run, is_open}
use orc_state.Store.Transition.{
  TransitionInput, ProjectTask, get_task, set_runs, close_runs, start_runs, apply_transition,
}
use orc_state.Store.Binding.{
  get_revision, pinned_revision, binding, bind_run, abandon_run, claim_task, check_claimable,
  claim_input, set_dispatch_state, DispatchChange,
}
use orc_state.Store.Effects.{apply_transition-Applied}
use orc_state.Store.OpenRuns.{
  open_count, open_count-close, open_count-set_runs_ne, open_count-close_le, open_count-start,
  open_count-snoc, open_count-none, open_count_abandon_le,
}

-- The new binding is the only open run of its task, and other tasks keep theirs.
pub record Bound (run_id ref : String) (pinned : ℕ) (db db' : Db) : Type 0 where
  pub one : open_count ref db'.runs ≡ 1
  pub frame : (other : String) → other ≢ ref → open_count other db'.runs ≡ open_count other db.runs
  pub tasks : db'.tasks ≡ db.tasks
  pub revisions : db'.revisions ≡ db.revisions
  pub transitions : db'.transitions ≡ db.transitions

module _ (now : Stamp) (run_id ref : String) (agent_id : Option String) where
  pub bind_run-ok :
      (revision : Option ℕ) (pinned : ℕ) (db db' : Db)
      → bind_run now run_id ref agent_id revision db ≡ ok (pinned, db')
      → (pinned_revision db ref revision ≡ some pinned)
        × (is_some (get_revision db ref pinned) ≡ true)
        × (any_of (λ r. r.run_id == run_id) (set_runs now ref is_open RunState.failed db.runs)
            ≡ false)
        × (db' ≡ record db {
          runs =
              set_runs now ref is_open RunState.failed db.runs
              ++ binding now run_id ref agent_id pinned ∷ [];
        })
  unfolding bind_run
  bind_run-ok revision pinned db db' h = elim (Option-cases (pinned_revision db ref revision)) [
    | inl e ↦ absurd (ground arith)
    | inr (p, e) ↦ (ground arith, ground arith, ground arith, ground arith)
  ]

  pub bind_run-Bound :
      (revision : Option ℕ) (pinned : ℕ) (db db' : Db)
      → bind_run now run_id ref agent_id revision db ≡ ok (pinned, db')
      → Bound run_id ref pinned db db'
  bind_run-Bound revision pinned db db' h =
      let (from, known, new_id, e) = bind_run-ok revision pinned db db' h in
      let closed = set_runs now ref is_open RunState.failed db.runs in
      let new = binding now run_id ref agent_id pinned in
      record {
        one = ground (
          arith,
          e,
          eq_refl ref,
          open_count-snoc ref closed new,
          open_count-close now ref RunState.failed db.runs refl,
        );
        frame = λ other ne. ground (
          arith,
          e,
          eq_iff ref other,
          ne,
          open_count-snoc other closed new,
          open_count-set_runs_ne now ref is_open RunState.failed db.runs other ne,
        );
        tasks = ground (arith, e);
        revisions = ground (arith, e);
        transitions = ground (arith, e);
      }

  -- The unique index never refuses a binding.
  bind_run-ne-second_active_run :
      (revision : Option ℕ) (db : Db)
      → bind_run now run_id ref agent_id revision db ≢ err second_active_run
  unfolding bind_run
  bind_run-ne-second_active_run revision db h =
      let closed = set_runs now ref is_open RunState.failed db.runs in
      ground
        (arith, open_count-none ref closed (open_count-close now ref RunState.failed db.runs refl))

moved_runs-le :
    (now : Stamp) (ref : String) (cause : Cause) (was : TaskStatus) (runs : List RunRow)
    (other : String)
    → open_count other (close_runs now ref cause was (start_runs now ref cause runs))
      ≤ open_count other runs
moved_runs-le now ref cause was runs other =
    let started = start_runs now ref cause runs in
    ground (
      arith,
      open_count-start now ref runs other,
      open_count-close_le now ref RunState.finished started other refl,
      open_count-close_le now ref RunState.failed started other refl,
      open_count-close_le now ref RunState.cancelled started other refl,
    )

apply_runs-le :
    (now : Stamp) (ref : String) (input : TransitionInput) (db db' : Db) (other : String)
    → apply_transition now ref input db ≡ ok db'
    → open_count other db'.runs ≤ open_count other db.runs
apply_runs-le now ref input db db' other h =
    elim (apply_transition-Applied now ref input db db' h) [
      | inl same ↦ ground (arith, same)
      | inr (was, a) ↦ rw a.runs (moved_runs-le now ref input.cause was.status db.runs other)
    ]

-- One change of the store by one of its operations.
pub data StoreStep (db db' : Db) : Type 0 where
  transition :
      (now : Stamp) (ref : String) (input : TransitionInput)
      → apply_transition now ref input db ≡ ok db'
      → StoreStep db db'
  claiming :
      (now : Stamp) (ref run_id agent_id : String) (pinned : ℕ)
      → claim_task now ref run_id agent_id db ≡ ok (pinned, db')
      → StoreStep db db'
  bind :
      (now : Stamp) (run_id ref : String) (agent_id : Option String) (revision : Option ℕ)
      (pinned : ℕ)
      → bind_run now run_id ref agent_id revision db ≡ ok (pinned, db')
      → StoreStep db db'
  abandon : (now : Stamp) (run_id : String) → db' ≡ abandon_run now run_id db → StoreStep db db'
  dispatch :
      (ref : String) (change : DispatchChange)
      → db' ≡ set_dispatch_state ref change db
      → StoreStep db db'

pub data StoreReach (db : Db) : Db → Type 0 where
  here : StoreReach db db
  next : {db1 db2 : Db} → StoreReach db db1 → StoreStep db1 db2 → StoreReach db db2

abbrev pub OneOpen : Db → Type 0
OneOpen db = (ref : String) → open_count ref db.runs ≤ 1

bind-OneOpen :
    (run_id ref : String) (pinned : ℕ) (db db' : Db)
    → Bound run_id ref pinned db db'
    → OneOpen db
    → OneOpen db'
bind-OneOpen run_id ref pinned db db' b one other = elim (Bool-cases (other == ref)) [
  | inl same ↦ ground (arith, eq_iff other ref, b.one)
  | inr apart ↦ ground (arith, b.frame other (λ e. ground (arith, eq_iff other ref)), one other)
]

-- A claim is its checks, the transition, and the binding.
pub record ClaimParts (now : Stamp) (ref run_id agent_id : String) (pinned : ℕ) (db db' : Db)
    : Type 0 where
  pub task : ProjectTask
  pub read : get_task db ref ≡ some task
  pub checked : check_claimable db task ref agent_id ≡ ok tt
  pub between : Db
  pub recorded : apply_transition now ref (claim_input run_id agent_id) db ≡ ok between
  pub bound : bind_run now run_id ref (some agent_id) none between ≡ ok (pinned, db')

pub claim_task-parts :
    (now : Stamp) (ref run_id agent_id : String) (pinned : ℕ) (db db' : Db)
    → claim_task now ref run_id agent_id db ≡ ok (pinned, db')
    → ClaimParts now ref run_id agent_id pinned db db'
unfolding claim_task
claim_task-parts now ref run_id agent_id pinned db db' h = elim (Option-cases (get_task db ref)) [
  | inl e ↦ absurd (ground arith)
  | inr (task, e) ↦
      let (u, checked, rest) =
        >>=-eq-ok (check_claimable db task ref agent_id) _ (rw (e, claim_task) at h) in
      let (between, recorded, bound) =
        >>=-eq-ok (apply_transition now ref (claim_input run_id agent_id) db) _ rest in
      record {
        task = task;
        read = e;
        checked = checked;
        between = between;
        recorded = recorded;
        bound = bound;
      }
]

StoreStep-OneOpen : {db db' : Db} → StoreStep db db' → OneOpen db → OneOpen db'
StoreStep-OneOpen {db} {db'} (transition now ref input h) one =
    λ other. omega (arith, apply_runs-le now ref input db db' other h, one other)
StoreStep-OneOpen {db} {db'} (claiming now ref run_id agent_id pinned h) one =
    let parts = claim_task-parts now ref run_id agent_id pinned db db' h in
    bind-OneOpen run_id ref pinned parts.between db'
      (bind_run-Bound now run_id ref (some agent_id) none pinned parts.between db' parts.bound)
      (λ other. omega (
        arith,
        apply_runs-le now ref (claim_input run_id agent_id) db parts.between other parts.recorded,
        one other,
      ))
StoreStep-OneOpen {db} {db'} (bind now run_id ref agent_id revision pinned h) one =
    bind-OneOpen run_id ref pinned db db'
      (bind_run-Bound now run_id ref agent_id revision pinned db db' h) one
StoreStep-OneOpen {db} {db'} (abandon now run_id e) one = λ other.
    rw e
      (unfold abandon_run in le_trans (open_count_abandon_le now run_id other db.runs) (one other))
StoreStep-OneOpen {db} {db'} (dispatch ref change e) one =
    λ other. rw e (unfold set_dispatch_state in one other)

-- Whatever transitions, claims, bindings, abandoned runs and dispatch changes succeed, in any order,
-- no task ever has two open runs if none had at the start.
pub StoreReach-OneOpen : {db db' : Db} → OneOpen db → StoreReach db db' → OneOpen db'
StoreReach-OneOpen one here = one
StoreReach-OneOpen one (next r s) = StoreStep-OneOpen s (StoreReach-OneOpen one r)
